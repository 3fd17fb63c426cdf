-- ===== src/Media/Contexts.antt =====
-- The contexts of playbacks under the calls of `service.go`.
use switchboard.Prelude.{
  ℕ, ◌≡◌, refl, ◌⊎◌, inl, inr, Option, none, some, List, [], ◌∷◌, arith, Bool-cases, Option-cases,
  ◌==◌, Str, str_eq, nat_eq,
}
use mathlib.Core.Path.{subst}
use switchboard.GoMap
use switchboard.GoMap.{GoMap}
use switchboard.RtpSession.Playback.{PlayRequest}
use switchboard.Media.{
  fresh_playback, LocalService, Playback, CodecConfig, play, play_with, unless_active, stop, finish,
  as_cancelled, lacks_fields, get_by_payload_type_string,
}
use switchboard.Media.Registered.{Call, plays, stops, finishes, run}

-- One of the calls plays something to the call `c`, with the context of this number.
abbrev pub Given : ℕ → Str → List Call → Type 0
Given x c [] = ⊥
Given x c (plays y r ∷ cs) = ((y ≡ x) × (r.call_id ≡ c)) ⊎ Given x c cs
Given x c (stops d ∷ cs) = Given x c cs
Given x c (finishes n ∷ cs) = Given x c cs

module _ (G : ℕ → Str → Type 0) where
  abbrev pub IsGiven : GoMap ℕ Playback → Type 0
  IsGiven ps = (n : ℕ) (p : Playback) → GoMap.get n ps ≡ some p → G p.parent p.call_id

  put-IsGiven :
      (n : ℕ) (p : Playback) (ps : GoMap ℕ Playback)
      → G p.parent p.call_id
      → IsGiven ps
      → IsGiven (GoMap.put n p ps)
  put-IsGiven n p ps g v k q h = elim (Bool-cases (n == k)) [
    | inl e ↦
        let same : p ≡ q = ground (arith, e, h, GoMap.get-put n k p ps) in
        subst (λ q. G q.parent q.call_id) same g
    | inr e ↦ v k q (ground (arith, e, h, GoMap.get-put n k p ps))
  ]

  delete-IsGiven : (n : ℕ) (ps : GoMap ℕ Playback) → IsGiven ps → IsGiven (GoMap.delete n ps)
  delete-IsGiven n ps v k q h = v k q (ground (arith, h, GoMap.get-delete n k ps))

  play-IsGiven :
      (x : ℕ) (r : PlayRequest) (s : LocalService)
      → G x r.call_id
      → IsGiven s.playbacks
      → IsGiven (play x r s).0.playbacks
  unfolding play
  play-IsGiven x r s g v = elim (Bool-cases (lacks_fields r)) [
    | inl e ↦ rw e v
    | inr e ↦ rw e (coded (get_by_payload_type_string r.codec s.codecs))
  ]
    where
      active_or :
          (cfg : CodecConfig) (o : Option ℕ) → IsGiven (unless_active x r cfg o s).0.playbacks
      active_or cfg (some n) = v
      active_or cfg none = put-IsGiven s.next (fresh_playback x r.call_id cfg) s.playbacks g v

      coded : (o : Option CodecConfig) → IsGiven (play_with x r o s).0.playbacks
      coded none = v
      coded (some cfg) = active_or cfg (GoMap.get r.call_id s.active_calls)

  stop-IsGiven : (c : Str) (s : LocalService) → IsGiven s.playbacks → IsGiven (stop c s).0.playbacks
  unfolding stop
  stop-IsGiven c s v = elim (Option-cases (GoMap.get c s.active_calls)) [
    | inl e ↦ rw e v
    | inr (n, e) ↦ elim (Option-cases (GoMap.get n s.playbacks)) [
      | inl f ↦ rw (e, f) v
      | inr (p, f) ↦ rw (e, f) (put-IsGiven n (as_cancelled p) s.playbacks (v n p f) v)
    ]
  ]

  finish-IsGiven : (n : ℕ) (s : LocalService) → IsGiven s.playbacks → IsGiven (finish n s).playbacks
  unfolding finish
  finish-IsGiven n s v = elim (Option-cases (GoMap.get n s.playbacks)) [
    | inl e ↦ rw e v
    | inr (p, e) ↦ rw e (delete-IsGiven n s.playbacks v)
  ]

  pub run-IsGiven :
      (s : LocalService) (cs : List Call)
      → ((x : ℕ) (c : Str) → Given x c cs → G x c)
      → IsGiven s.playbacks
      → IsGiven (run s cs).playbacks
  unfolding run
  run-IsGiven s [] g v = v
  run-IsGiven s (plays x r ∷ cs) g v =
      run-IsGiven (play x r s).0 cs (λ y c h. g y c (inr h))
        (play-IsGiven x r s (g x r.call_id (inl (refl, refl))) v)
  run-IsGiven s (stops c ∷ cs) g v = run-IsGiven (stop c s).0 cs g (stop-IsGiven c s v)
  run-IsGiven s (finishes n ∷ cs) g v = run-IsGiven (finish n s) cs g (finish-IsGiven n s v)
