-- ===== src/Media/Playbacks.antt =====
-- The playbacks that are registered and those that run.
use switchboard.Prelude.{
  ℕ, ◌+◌, ◌≡◌, refl, ap, Bool, false, none, some, List, arith, eq_iff, beq_refl, Str, str_eq,
  nat_eq,
}
use mathlib.Core.Path.{subst}
use switchboard.GoMap
use switchboard.GoMap.{GoMap}
use switchboard.RtpSession.Playback.{PlayRequest}
use switchboard.Media.{
  fresh_playback, LocalService, Playback, CodecConfig, new_local_service, play, unless_active, stop,
  finish, as_cancelled, lacks_fields, get_by_payload_type_string, no_playback, is_done,
}
use switchboard.Media.Registered.{IsService, Call, run, run-IsService_of}
use switchboard.Media.Contexts.{Given, run-IsGiven}

pub new-IsService : IsService new_local_service
new-IsService = record {
  runs = λ c n h. absurd (ground (arith, GoMap.get-nil {V = ℕ} c));
  numbered = λ n p h. absurd (ground (arith, GoMap.get-nil {V = Playback} n));
}

play_accepts :
    (x : ℕ) (r : PlayRequest) (cfg : CodecConfig) (s : LocalService)
    → lacks_fields r ≡ false
    → get_by_payload_type_string r.codec s.codecs ≡ some cfg
    → GoMap.get r.call_id s.active_calls ≡ none
    → play x r s ≡ unless_active x r cfg none s
unfolding play
play_accepts x r cfg s f c a = rw (f, c, a) refl

stop_cancels :
    (c : Str) (n : ℕ) (p : Playback) (s : LocalService)
    → GoMap.get c s.active_calls ≡ some n
    → GoMap.get n s.playbacks ≡ some p
    → stop c s ≡ (
      record s {
        playbacks = GoMap.put n (as_cancelled p) s.playbacks;
        active_calls = GoMap.delete c s.active_calls;
      },
      none,
    )
unfolding stop
stop_cancels c n p s e g = rw (e, g) refl

-- Over any calls and ends of playbacks, from a new service: a call that is registered as active leads
-- to a playback of that call that still runs and whose context is done only where its parent is,
-- which is the context that one of these calls of `Play` for the call was given. (A session cancels
-- the latter before it calls `Stop`.) And a `Stop` of it is accepted.
pub run-IsService :
    (cs : List Call) (c : Str) (n : ℕ)
    → let s = run new_local_service cs in
      GoMap.get c s.active_calls ≡ some n
      → (p : Playback) × (GoMap.get n s.playbacks ≡ some p)
        × (p.call_id ≡ c)
        × Given p.parent c cs
        × ((done : ℕ → Bool) → is_done done p ≡ done p.parent)
        × ((stop c s).1 ≡ none)
run-IsService cs c n h =
    let v : IsService (run new_local_service cs) =
      run-IsService_of new_local_service cs new-IsService in
    let (p, g, e, u) = v.runs c n h in
    let given : Given p.parent p.call_id cs =
      run-IsGiven (λ x d. Given x d cs) new_local_service cs (λ x d k. k)
        (λ k q i. absurd (ground (arith, i, GoMap.get-nil {V = Playback} k))) n p g in
    (
      p,
      g,
      e,
      subst (λ d. Given p.parent d cs) e given,
      λ done. rw u refl,
      ap (λ r. r.1) (stop_cancels c n p (run new_local_service cs) h g),
    )

finish_removes :
    (n : ℕ) (p : Playback) (s : LocalService)
    → GoMap.get n s.playbacks ≡ some p
    → finish n s ≡ record s {
      active_calls = GoMap.delete p.call_id s.active_calls;
      playbacks = GoMap.delete n s.playbacks;
    }
unfolding finish
finish_removes n p s e = rw e refl

stop_refuses :
    (c : Str) (s : LocalService)
    → GoMap.get c s.active_calls ≡ none
    → (stop c s).1 ≡ some (no_playback c)
unfolding stop
stop_refuses c s e = rw e refl

-- A call is played, stopped and played again before the goroutine of the first playback has ended.
-- When it ends, its deferred function takes the registration of the second one: the second playback
-- still runs, its cancel function uncalled, `Stop` fails, and a third `Play` is accepted.
pub finish-Unregisters :
    (x1 x2 x3 : ℕ) (r : PlayRequest) (cfg : CodecConfig) (s : LocalService)
    → IsService s
    → lacks_fields r ≡ false
    → get_by_payload_type_string r.codec s.codecs ≡ some cfg
    → GoMap.get r.call_id s.active_calls ≡ none
    → let played_twice = (play x2 r (stop r.call_id (play x1 r s).0).0).0 in
      let ended = finish s.next played_twice in
      (GoMap.get r.call_id played_twice.active_calls ≡ some (s.next + 1))
      × (GoMap.get (s.next + 1) ended.playbacks ≡ some (fresh_playback x2 r.call_id cfg))
      × ((stop r.call_id ended).1 ≡ some (no_playback r.call_id))
      × ((play x3 r ended).1 ≡ none)
finish-Unregisters x1 x2 x3 r cfg s v f c a =
    let id : Str = r.call_id in
    let p : Playback = fresh_playback x1 id cfg in
    let q : Playback = fresh_playback x2 id cfg in
    let s1 : LocalService = (unless_active x1 r cfg none s).0 in
    let s2 : LocalService = record s1 {
      playbacks = GoMap.put s.next (as_cancelled p) s1.playbacks;
      active_calls = GoMap.delete id s1.active_calls;
    } in
    let s3 : LocalService = (unless_active x2 r cfg none s2).0 in
    let s4 : LocalService = record s3 {
      active_calls = GoMap.delete id s3.active_calls;
      playbacks = GoMap.delete s.next s3.playbacks;
    } in
    let e1 : play x1 r s ≡ (s1, none) = play_accepts x1 r cfg s f c a in
    let e2 : stop id s1 ≡ (s2, none) =
      stop_cancels id s.next p s1
        (ground (arith, GoMap.get-put id id s.next s.active_calls, beq_refl id))
        (ground (arith, GoMap.get-put s.next s.next p s.playbacks, beq_refl s.next)) in
    let e3 : play x2 r s2 ≡ (s3, none) =
      play_accepts x2 r cfg s2 f c
        (ground (arith, GoMap.get-delete id id s1.active_calls, beq_refl id)) in
    let e4 : finish s.next s3 ≡ s4 = finish_removes s.next (as_cancelled p) s3 (
      ground (
        arith,
        GoMap.get-put (s.next + 1) s.next q s2.playbacks,
        GoMap.get-put s.next s.next (as_cancelled p) s1.playbacks,
        eq_iff (s.next + 1) s.next,
        beq_refl s.next,
      )) in
    let gone : GoMap.get id s4.active_calls ≡ none =
      ground (arith, GoMap.get-delete id id s3.active_calls, beq_refl id) in
    rw (e1, e2, e3, e4)
      (
        ground (arith, GoMap.get-put id id (s.next + 1) s2.active_calls, beq_refl id),
        ground (
          arith,
          GoMap.get-delete s.next (s.next + 1) s3.playbacks,
          GoMap.get-put (s.next + 1) (s.next + 1) q s2.playbacks,
          eq_iff s.next (s.next + 1),
          beq_refl (s.next + 1),
        ),
        stop_refuses id s4 gone,
        ap (λ x. x.1) (play_accepts x3 r cfg s4 f c gone),
      )
