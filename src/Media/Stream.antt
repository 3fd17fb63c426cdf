-- ===== src/Media/Stream.antt =====
-- The streaming loop of `streamAudio`: the frames of the encoded audio as RTP packets. What happens at
-- each frame is an argument.
use mathlib.Core.Path.{subst}
use mathlib.Core.List.{append_assoc}
use switchboard.Prelude.{
  ℕ, zero, suc, ◌+◌, ◌%◌, ◌^◌, ◌≤◌, ◌<◌, ◌≡◌, refl, ap, ◌∙◌, inl, inr, List, [], ◌∷◌, ◌++◌, arith,
  leb, if◌then◌else◌, Bool-cases, length, str_eq, nat_eq,
}

pub record Packet : Type 0 where
  pub sequence_number : ℕ
  pub timestamp : ℕ
  pub payload : List ℕ

-- At the top of a round and at its write.
pub data FrameOutcome : Type 0 where
  is_cancelled write_fails is_sent : FrameOutcome

pub data StreamEnd : Type 0 where
  completed cancelled failed out_of_fuel : StreamEnd

abbrev pub frame_size : ℕ
frame_size = 160

module _ {ℓ} {A : Type ℓ} where
  unfoldable pub take : ℕ → List A → List A
  take zero xs = []
  take (suc n) [] = []
  take (suc n) (x ∷ xs) = x ∷ take n xs

  unfoldable pub drop : ℕ → List A → List A
  drop zero xs = xs
  drop (suc n) [] = []
  drop (suc n) (x ∷ xs) = drop n xs

-- The packets, the audio that was not sent, and why the loop has ended.
pub record Streamed : Type 0 where
  pub packets : List Packet
  pub left : List ℕ
  pub ending : StreamEnd

abbrev pub ends : List ℕ → StreamEnd → Streamed
ends audio e = record { packets = []; left = audio; ending = e }

abbrev pub at_frame : FrameOutcome → Packet → List ℕ → Streamed → Streamed
at_frame is_cancelled p audio rest = ends audio cancelled
at_frame write_fails p audio rest = ends audio failed
at_frame is_sent p audio rest = record rest { packets = p ∷ rest.packets }

-- The loop from a frame on, with fuel; `audio` is what is left of the encoded audio.
unfoldable pub stream_frames : ℕ → (ℕ → FrameOutcome) → ℕ → ℕ → ℕ → List ℕ → Streamed
stream_frames zero outcome k rtp_seq rtp_ts audio = ends audio out_of_fuel
stream_frames (suc f) outcome k rtp_seq rtp_ts audio =
    let rest =
      stream_frames f outcome (k + 1) ((rtp_seq + 1) % 2 ^ 16) ((rtp_ts + frame_size) % 2 ^ 32)
        (drop frame_size audio) in
    let packet : Packet = record {
      sequence_number = rtp_seq;
      timestamp = rtp_ts;
      payload = take frame_size audio;
    } in
    if leb frame_size (length audio)
    then at_frame (outcome k) packet audio rest
    else ends audio completed

-- The loop takes fewer rounds than the audio has bytes.
unfoldable pub stream_audio : (ℕ → FrameOutcome) → ℕ → ℕ → List ℕ → Streamed
stream_audio outcome rtp_seq rtp_ts audio =
    stream_frames (suc (length audio)) outcome 0 rtp_seq rtp_ts audio

abbrev pub payloads : List Packet → List ℕ
payloads [] = []
payloads (p ∷ ps) = p.payload ++ payloads ps

-- Consecutive frames: sequence numbers and timestamps go up, modulo their width.
abbrev pub Numbered : ℕ → ℕ → List Packet → Type 0
Numbered rtp_seq rtp_ts [] = Unit
Numbered rtp_seq rtp_ts (p ∷ ps) =
    (p.sequence_number ≡ rtp_seq)
    × (p.timestamp ≡ rtp_ts)
    × (length p.payload ≡ frame_size)
    × Numbered ((rtp_seq + 1) % 2 ^ 16) ((rtp_ts + frame_size) % 2 ^ 32) ps

-- Why the loop has ended after `n` frames.
abbrev pub EndsAt : (ℕ → FrameOutcome) → ℕ → List ℕ → StreamEnd → Type 0
EndsAt outcome n left completed = length left < frame_size
EndsAt outcome n left cancelled = (outcome n ≡ is_cancelled) × (frame_size ≤ length left)
EndsAt outcome n left failed = (outcome n ≡ write_fails) × (frame_size ≤ length left)
EndsAt outcome n left out_of_fuel = ⊥

-- Each of the frames, from the `k`-th, was sent.
abbrev pub AllSent : (ℕ → FrameOutcome) → ℕ → List Packet → Type 0
AllSent outcome k [] = Unit
AllSent outcome k (p ∷ ps) = (outcome k ≡ is_sent) × AllSent outcome (k + 1) ps

abbrev pub Streams : (ℕ → FrameOutcome) → ℕ → ℕ → ℕ → List ℕ → Streamed → Type 0
Streams outcome k rtp_seq rtp_ts audio r =
    (payloads r.packets ++ r.left ≡ audio)
    × Numbered rtp_seq rtp_ts r.packets
    × AllSent outcome k r.packets
    × EndsAt outcome (k + length r.packets) r.left r.ending

take-drop : (n : ℕ) (xs : List ℕ) → take n xs ++ drop n xs ≡ xs
unfolding take drop
take-drop zero xs = refl
take-drop (suc n) [] = refl
take-drop (suc n) (x ∷ xs) = ap (λ ys. x ∷ ys) (take-drop n xs)

length-take : (n : ℕ) (xs : List ℕ) → n ≤ length xs → length (take n xs) ≡ n
unfolding take
length-take zero xs h = refl
length-take (suc n) [] h = absurd (omega (arith, h))
length-take (suc n) (x ∷ xs) h = ap suc (length-take n xs (omega (arith, h)))

length-drop : (n : ℕ) (xs : List ℕ) → n ≤ length xs → length (drop n xs) + n ≡ length xs
unfolding drop
length-drop zero xs h = omega arith
length-drop (suc n) [] h = absurd (omega (arith, h))
length-drop (suc n) (x ∷ xs) h = omega (arith, length-drop n xs (omega (arith, h)))

EndsAt-eq :
    (outcome : ℕ → FrameOutcome) (m n : ℕ) (left : List ℕ) (e : StreamEnd)
    → m ≡ n
    → EndsAt outcome m left e
    → EndsAt outcome n left e
EndsAt-eq outcome m n left e h x = subst (λ i. EndsAt outcome i left e) h x

module _ (outcome : ℕ → FrameOutcome) (k rtp_seq rtp_ts : ℕ) (audio : List ℕ)
    (rest : Streamed) where
  at_frame-Streams :
      (o : FrameOutcome)
      → outcome k ≡ o
      → frame_size ≤ length audio
      → Streams outcome
          (k + 1)
          ((rtp_seq + 1) % 2 ^ 16)
          ((rtp_ts + frame_size) % 2 ^ 32)
          (drop frame_size audio)
          rest
      → Streams outcome k rtp_seq rtp_ts audio (
          at_frame o
            (record {
              sequence_number = rtp_seq;
              timestamp = rtp_ts;
              payload = take frame_size audio;
            })
            audio
            rest)
  at_frame-Streams is_cancelled e h s =
      (refl, tt, tt, (subst (λ i. outcome i ≡ is_cancelled) (omega arith) e, h))
  at_frame-Streams write_fails e h s =
      (refl, tt, tt, (subst (λ i. outcome i ≡ write_fails) (omega arith) e, h))
  at_frame-Streams is_sent e h (whole, numbered, sent, ending) = (
    append_assoc (take frame_size audio) (payloads rest.packets) rest.left
        ∙ ap (λ l. take frame_size audio ++ l) whole
        ∙ take-drop frame_size audio,
    (refl, refl, length-take frame_size audio h, numbered),
    (e, sent),
    EndsAt-eq outcome _ _ rest.left rest.ending (omega arith) ending,
  )

stream_frames-Streams :
    (f : ℕ) (outcome : ℕ → FrameOutcome) (k rtp_seq rtp_ts : ℕ) (audio : List ℕ)
    → length audio < f
    → Streams outcome k rtp_seq rtp_ts audio (stream_frames f outcome k rtp_seq rtp_ts audio)
unfolding stream_frames
stream_frames-Streams zero outcome k q t audio h = absurd (omega (arith, h))
stream_frames-Streams (suc f) outcome k q t audio h =
    elim (Bool-cases (leb frame_size (length audio))) [
      | inr e ↦ rw e (refl, tt, tt, ground (arith, e))
      | inl e ↦
          let enough : frame_size ≤ length audio = ground (arith, e) in
          rw e (
            at_frame-Streams outcome k q t audio _ (outcome k) refl enough (
              stream_frames-Streams f outcome (k + 1) ((q + 1) % 2 ^ 16) ((t + frame_size) % 2 ^ 32)
                (drop frame_size audio) (omega (arith, h, length-drop frame_size audio enough))))
    ]

-- The streaming loop ends, whatever happens at its frames: it has enough fuel. The packets that it
-- has sent carry the encoded audio from its beginning, in its order and without a gap, 160 bytes
-- each, with consecutive sequence numbers modulo 2^16 and timestamps 160 apart modulo 2^32. It has
-- completed only where less than a frame is left, which is not sent; otherwise the playback was
-- cancelled, or the write failed, at the first frame that was not sent.
pub stream_audio_lem :
    (outcome : ℕ → FrameOutcome) (rtp_seq rtp_ts : ℕ) (audio : List ℕ)
    → Streams outcome 0 rtp_seq rtp_ts audio (stream_audio outcome rtp_seq rtp_ts audio)
unfolding stream_audio
stream_audio_lem outcome q t audio =
    stream_frames-Streams (suc (length audio)) outcome 0 q t audio (omega arith)
