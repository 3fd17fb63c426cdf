-- ===== src/Media/Registered.antt =====
-- The registrations of playbacks under the calls of `service.go`.
use switchboard.Prelude.{
  ℕ, ◌+◌, ◌<◌, ◌≡◌, refl, inl, inr, false, Option, none, some, List, [], ◌∷◌, arith, Bool-cases,
  Option-cases, ◌==◌, eq_iff, beq_refl, Str, str_eq, nat_eq,
}
use switchboard.GoMap
use switchboard.GoMap.{GoMap}
use switchboard.RtpSession.Playback.{PlayRequest}
use switchboard.Media.{
  fresh_playback, LocalService, Playback, CodecConfig, play, play_with, unless_active, stop, finish,
  as_cancelled, lacks_fields, get_by_payload_type_string,
}

-- A registered call leads to a playback of it that runs and whose own cancel function was not called.
pub record IsRegistered (active : GoMap Str ℕ) (playbacks : GoMap ℕ Playback) (next : ℕ)
    : Type 0 where
  pub runs :
      (c : Str) (n : ℕ)
      → GoMap.get c active ≡ some n
      → (p : Playback) × (GoMap.get n playbacks ≡ some p) × (p.call_id ≡ c) × (p.cancelled ≡ false)
  pub numbered : (n : ℕ) (p : Playback) → GoMap.get n playbacks ≡ some p → n < next

abbrev pub IsService : LocalService → Type 0
IsService s = IsRegistered s.active_calls s.playbacks s.next

started-IsRegistered :
    (x : ℕ) (c : Str) (cfg : CodecConfig) (active : GoMap Str ℕ) (playbacks : GoMap ℕ Playback)
    (next : ℕ)
    → IsRegistered active playbacks next
    → IsRegistered
        (GoMap.put c next active)
        (GoMap.put next (fresh_playback x c cfg) playbacks)
        (next + 1)
started-IsRegistered x c cfg active playbacks next v = record {
  runs = λ d n h. elim (Bool-cases (c == d)) [
    | inl e ↦ (
      fresh_playback x c cfg,
      ground (
        arith,
        e,
        GoMap.get-put c d next active,
        GoMap.get-put next n (fresh_playback x c cfg) playbacks,
        beq_refl next,
      ),
      ground (arith, e, eq_iff c d),
      refl,
    )
    | inr e ↦
        let (p, g, pd, pc) = v.runs d n (ground (arith, e, GoMap.get-put c d next active)) in
        (
          p,
          ground (
            arith,
            GoMap.get-put next n (fresh_playback x c cfg) playbacks,
            g,
            v.numbered n p,
            eq_iff next n,
          ),
          pd,
          pc,
        )
  ];
  numbered = λ n p h. ground (
    arith,
    GoMap.get-put next n (fresh_playback x c cfg) playbacks,
    eq_iff next n,
    v.numbered n p,
  );
}

finished-IsRegistered :
    (n : ℕ) (p : Playback) (active : GoMap Str ℕ) (playbacks : GoMap ℕ Playback) (next : ℕ)
    → GoMap.get n playbacks ≡ some p
    → IsRegistered active playbacks next
    → IsRegistered (GoMap.delete p.call_id active) (GoMap.delete n playbacks) next
finished-IsRegistered n p active playbacks next here v = record {
  runs = λ d k h.
      let (q, g, qd, qc) = v.runs d k (ground (arith, h, GoMap.get-delete p.call_id d active)) in
      (
        q,
        ground (
          arith,
          h,
          GoMap.get-delete p.call_id d active,
          GoMap.get-delete n k playbacks,
          eq_iff n k,
          eq_iff p.call_id d,
          g,
          here,
          qd,
        ),
        qd,
        qc,
      );
  numbered = λ k q h. ground (arith, h, GoMap.get-delete n k playbacks, v.numbered k q);
}

stopped-IsRegistered :
    (c : Str) (n : ℕ) (p : Playback) (active : GoMap Str ℕ) (playbacks : GoMap ℕ Playback)
    (next : ℕ)
    → GoMap.get n playbacks ≡ some p
    → p.call_id ≡ c
    → IsRegistered active playbacks next
    → IsRegistered (GoMap.delete c active) (GoMap.put n (as_cancelled p) playbacks) next
stopped-IsRegistered c n p active playbacks next here pc v = record {
  runs = λ d k h.
      let (q, g, qd, qc) = v.runs d k (ground (arith, h, GoMap.get-delete c d active)) in
      (
        q,
        ground (
          arith,
          h,
          GoMap.get-delete c d active,
          GoMap.get-put n k (as_cancelled p) playbacks,
          eq_iff n k,
          eq_iff c d,
          g,
          here,
          qd,
          pc,
        ),
        qd,
        qc,
      );
  numbered = λ k q h. ground (
    arith,
    h,
    GoMap.get-put n k (as_cancelled p) playbacks,
    eq_iff n k,
    v.numbered k q,
    v.numbered n p,
  );
}

pub play-IsService :
    (x : ℕ) (r : PlayRequest) (s : LocalService) → IsService s → IsService (play x r s).0
unfolding play
play-IsService x r s v = elim (Bool-cases (lacks_fields r)) [
  | inl e ↦ rw e v
  | inr e ↦ rw e (coded (get_by_payload_type_string r.codec s.codecs))
]
  where
    active_or : (cfg : CodecConfig) (o : Option ℕ) → IsService (unless_active x r cfg o s).0
    active_or cfg (some n) = v
    active_or cfg none = started-IsRegistered x r.call_id cfg s.active_calls s.playbacks s.next v

    coded : (o : Option CodecConfig) → IsService (play_with x r o s).0
    coded none = v
    coded (some cfg) = active_or cfg (GoMap.get r.call_id s.active_calls)

pub stop-IsService : (c : Str) (s : LocalService) → IsService s → IsService (stop c s).0
unfolding stop
stop-IsService c s v = elim (Option-cases (GoMap.get c s.active_calls)) [
  | inl e ↦ rw e v
  | inr (n, e) ↦
      let (p, g, pc, u) = v.runs c n e in
      rw (e, g) (stopped-IsRegistered c n p s.active_calls s.playbacks s.next g pc v)
]

pub finish-IsService : (n : ℕ) (s : LocalService) → IsService s → IsService (finish n s)
unfolding finish
finish-IsService n s v = elim (Option-cases (GoMap.get n s.playbacks)) [
  | inl e ↦ rw e v
  | inr (p, e) ↦ rw e (finished-IsRegistered n p s.active_calls s.playbacks s.next e v)
]

-- A call of the service, or the end of a playback.
pub data Call : Type 0 where
  -- With the number of its context.
  plays : ℕ → PlayRequest → Call
  stops : Str → Call
  finishes : ℕ → Call

abbrev pub step : LocalService → Call → LocalService
step s (plays x r) = (play x r s).0
step s (stops c) = (stop c s).0
step s (finishes n) = finish n s

unfoldable pub run : LocalService → List Call → LocalService
run s [] = s
run s (c ∷ cs) = run (step s c) cs

pub step-IsService : (s : LocalService) (c : Call) → IsService s → IsService (step s c)
step-IsService s (plays x r) v = play-IsService x r s v
step-IsService s (stops c) v = stop-IsService c s v
step-IsService s (finishes n) v = finish-IsService n s v

pub run-IsService_of : (s : LocalService) (cs : List Call) → IsService s → IsService (run s cs)
unfolding run
run-IsService_of s [] v = v
run-IsService_of s (c ∷ cs) v = run-IsService_of (step s c) cs (step-IsService s c v)
