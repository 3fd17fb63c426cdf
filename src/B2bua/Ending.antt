-- ===== src/B2bua/Ending.antt =====
-- The bridge ends once, whatever calls come.
use mathlib.Core.Path.{subst}
use switchboard.Prelude.{
  ℕ, suc, ◌+◌, ◌≡◌, refl, sym, ap, ◌∙◌, inl, inr, Bool, true, false, not, ◌&&◌, List, [], ◌∷◌, ◌++◌,
  arith, if◌then◌else◌, Bool-cases, ◌==◌, Str, str_eq, nat_eq,
}
use switchboard.B2bua.{
  Call, is_terminal, is_answered, TerminationCause, Side, Event, leg_of, note, hung_up, hangup,
  is_terminated, is_over, unbridged, hangup_if, hangup_legs, ended, stop, handle_leg_terminated,
  bridge_peer, side_a, side_b, tears_down, unbridges, bridge_terminates, out_of_fuel, LegState,
  leg_transition_to, can_answer, answer, BridgeAnswer, start, marked, on_terminated, BridgeState,
  Leg, activated, on_media, start_legs, start_bridge, new_bridge, bridge_created, bridge_partial,
  bridge_active, bridge_held, terminating, terminated, media_bridged, media_refused,
}

abbrev is_end : Event → Bool
is_end (bridge_terminates c) = true
is_end _ = false

abbrev is_starved : Event → Bool
is_starved out_of_fuel = true
is_starved _ = false

abbrev count_of : (Event → Bool) → List Event → ℕ
count_of test [] = 0
count_of test (e ∷ es) = let rest = count_of test es in if test e then rest + 1 else rest

-- How often the end of the bridge was notified.
abbrev pub ends : List Event → ℕ
ends = count_of is_end

-- How many callbacks were left out for want of fuel.
abbrev pub starved : List Event → ℕ
starved = count_of is_starved

pub record HasEnded (w : Call) : Type 0 where
  pub settled : is_over w.bridge.state ≡ is_terminated w.bridge.state
  pub closed : w.bridge.done ≡ is_terminated w.bridge.state
  pub once : ends w.events ≡ (if is_terminated w.bridge.state then 1 else 0)
  pub fed : starved w.events ≡ 0

record Calm (w w' : Call) : Type 0 where
  bridge : w'.bridge ≡ w.bridge
  ends : ends w'.events ≡ ends w.events
  starved : starved w'.events ≡ starved w.events

Calm-refl : (w : Call) → Calm w w
Calm-refl w = record { bridge = refl; ends = refl; starved = refl }

Calm-trans : (u v w : Call) → Calm u v → Calm v w → Calm u w
Calm-trans u v w c d = record {
  bridge = d.bridge ∙ c.bridge;
  ends = d.ends ∙ c.ends;
  starved = d.starved ∙ c.starved;
}

noted :
    (test : Event → Bool) (b : Bool) (e : Event) (es : List Event)
    → test e ≡ false
    → count_of test (note b e es) ≡ count_of test es
noted test true e es h = rw h refl
noted test false e es h = refl

hung_up-Calm :
    (now : ℕ) (side : Side) (cause : TerminationCause) (w : Call)
    → Calm w (hung_up now side cause w)
hung_up-Calm now side_a cause w = record {
  bridge = refl;
  ends = noted is_end w.leg_a.has_teardown (tears_down side_a) w.events refl;
  starved = noted is_starved w.leg_a.has_teardown (tears_down side_a) w.events refl;
}
hung_up-Calm now side_b cause w = record {
  bridge = refl;
  ends = noted is_end w.leg_b.has_teardown (tears_down side_b) w.events refl;
  starved = noted is_starved w.leg_b.has_teardown (tears_down side_b) w.events refl;
}

over_still : (w w' : Call) → Calm w w' → is_over w'.bridge.state ≡ is_over w.bridge.state
over_still w w' c = ap (λ b. is_over b.state) c.bridge

-- The bridge's state is what it was, and no end was notified.
Calm-HasEnded : (w w' : Call) → Calm w w' → HasEnded w → HasEnded w'
Calm-HasEnded w w' c v = record {
  settled =
      ap (λ b. is_over b.state) c.bridge
      ∙ v.settled
      ∙ sym (ap (λ b. is_terminated b.state) c.bridge);
  closed = ap (λ b. b.done) c.bridge ∙ v.closed ∙ sym (ap (λ b. is_terminated b.state) c.bridge);
  once = c.ends ∙ v.once ∙ sym (ap (λ b. if is_terminated b.state then 1 else 0) c.bridge);
  fed = c.starved ∙ v.fed;
}

handles_over :
    (f now : ℕ) (side : Side) (w : Call)
    → is_over w.bridge.state ≡ true
    → handle_leg_terminated (suc f) now side w ≡ w
unfolding handle_leg_terminated
handles_over f now side w o = rw o refl

hangup-Calm :
    (f now : ℕ) (side : Side) (cause : TerminationCause) (w : Call)
    → is_over w.bridge.state ≡ true
    → Calm w (hangup (handle_leg_terminated (suc f) now) now side cause w)
unfolding hangup
hangup-Calm f now side cause w o = elim (Bool-cases (is_terminal (leg_of side w).state)) [
  | inl t ↦ rw t (Calm-refl w)
  | inr t ↦
      let c : Calm w (hung_up now side cause w) = hung_up-Calm now side cause w in
      rw t (
        subst (Calm w)
          (sym (handles_over f now side (hung_up now side cause w) (over_still w _ c ∙ o))) c)
]

hangup_if-Calm :
    (b : Bool) (f now : ℕ) (side : Side) (w : Call)
    → is_over w.bridge.state ≡ true
    → Calm w (hangup_if b (handle_leg_terminated (suc f) now) now side w)
hangup_if-Calm true f now side w o = hangup-Calm f now side bridge_peer w o
hangup_if-Calm false f now side w o = Calm-refl w

hangup_legs-Calm :
    (wanted : Bool) (f now : ℕ) (w : Call)
    → is_over w.bridge.state ≡ true
    → Calm w (hangup_legs wanted (handle_leg_terminated (suc f) now) now w)
hangup_legs-Calm wanted f now w o =
    let c = hangup_if-Calm (wanted && is_answered w.leg_a.state) f now side_a w o in
    Calm-trans w _ _ c
      (hangup_if-Calm (wanted && is_answered w.leg_b.state) f now side_b _ (over_still w _ c ∙ o))

ended-HasEnded :
    (now : ℕ) (w : Call) → ends w.events ≡ 0 → starved w.events ≡ 0 → HasEnded (ended now w)
ended-HasEnded now w e s = record {
  settled = refl;
  closed = refl;
  once = omega (arith, e);
  fed = s;
}

stop-HasEnded :
    (f now : ℕ) (wanted : Bool) (w : Call)
    → is_terminated w.bridge.state ≡ false
    → ends w.events ≡ 0
    → starved w.events ≡ 0
    → HasEnded (stop (handle_leg_terminated (suc f) now) now wanted w)
unfolding stop
stop-HasEnded f now wanted w t e s =
    let c = hangup_legs-Calm wanted f now (unbridged w) refl in
    let b : Bool = w.bridge.transport && not (w.bridge.media_bridge_id == []) in
    rw t (
      ended-HasEnded now (hangup_legs wanted (handle_leg_terminated (suc f) now) now (unbridged w))
        (c.ends ∙ noted is_end b (unbridges w.bridge.media_bridge_id) w.events refl ∙ e)
        (c.starved ∙ noted is_starved b (unbridges w.bridge.media_bridge_id) w.events refl ∙ s))

hangup-HasEnded :
    (now : ℕ) (side : Side) (cause : TerminationCause) (w : Call)
    → HasEnded w
    → HasEnded (hangup (on_terminated now) now side cause w)
unfolding hangup handle_leg_terminated
hangup-HasEnded now side cause w v = elim (Bool-cases (is_terminal (leg_of side w).state)) [
  | inl t ↦ rw t v
  | inr t ↦ rw t (calls_back (hung_up now side cause w) (hung_up-Calm now side cause w))
]
  where
    tears :
        (w' : Call)
        → Calm w w'
        → is_over w'.bridge.state ≡ false
        → HasEnded (on_terminated now side w')
    tears w' c o =
        let going : is_terminated w.bridge.state ≡ false =
          sym v.settled ∙ sym (over_still w w' c) ∙ o in
        rw o (
          stop-HasEnded 0 now w'.bridge.auto_hangup (marked side w') refl
            (c.ends ∙ v.once ∙ ap (λ b. if b then 1 else 0) going) (c.starved ∙ v.fed))

    calls_back : (w' : Call) → Calm w w' → HasEnded (on_terminated now side w')
    calls_back w' c = elim (Bool-cases (is_over w'.bridge.state)) [
      | inl o ↦ subst HasEnded (sym (handles_over 1 now side w' o)) (Calm-HasEnded w w' c v)
      | inr o ↦ tears w' c o
    ]

pub data Step : Type 0 where
  hangs_up : ℕ → Side → TerminationCause → Step
  stops : ℕ → Bool → Step
  starts : ℕ → BridgeAnswer → Step
  answers : ℕ → Side → Step
  moves : ℕ → Side → LegState → Step

abbrev pub step : Call → Step → Call
step w (hangs_up now side cause) = hangup (on_terminated now) now side cause w
step w (stops now wanted) = stop (on_terminated now) now wanted w
step w (starts now a) = (start now a w).0
step w (answers now side) = (answer now side w).0
step w (moves now side s) = leg_transition_to now side s w

unfoldable pub run : Call → List Step → Call
run w [] = w
run w (x ∷ xs) = run (step w x) xs

moved-Calm :
    (now : ℕ) (side : Side) (s : LegState) (w : Call) → Calm w (leg_transition_to now side s w)
unfolding leg_transition_to
moved-Calm now side_a s w = record { bridge = refl; ends = refl; starved = refl }
moved-Calm now side_b s w = record { bridge = refl; ends = refl; starved = refl }

answer-Calm : (now : ℕ) (side : Side) (w : Call) → Calm w (answer now side w).0
unfolding answer
answer-Calm now side_a w = elim (Bool-cases (can_answer w.leg_a.direction w.leg_a.state)) [
  | inl e ↦ rw e record { bridge = refl; ends = refl; starved = refl }
  | inr e ↦ rw e (Calm-refl w)
]
answer-Calm now side_b w = elim (Bool-cases (can_answer w.leg_b.direction w.leg_b.state)) [
  | inl e ↦ rw e record { bridge = refl; ends = refl; starved = refl }
  | inr e ↦ rw e (Calm-refl w)
]

start-HasEnded : (now : ℕ) (a : BridgeAnswer) (w : Call) → HasEnded w → HasEnded (start now a w).0
unfolding start
start-HasEnded now a w v = by_state w.bridge.state refl
  where
    starts_from : is_over w.bridge.state ≡ false → (id : Str) → HasEnded (activated now id w).0
    starts_from o id =
        let going : is_terminated w.bridge.state ≡ false = sym v.settled ∙ o in
        record {
          settled = refl;
          closed = v.closed ∙ going;
          once = v.once ∙ ap (λ b. if b then 1 else 0) going;
          fed = v.fed;
        }

    media : is_over w.bridge.state ≡ false → (x : BridgeAnswer) → HasEnded (on_media now x w).0
    media o (media_bridged id) = starts_from o id
    media o (media_refused e) = v

    relays :
        is_over w.bridge.state ≡ false
        → (b : Bool)
        → HasEnded (if b then on_media now a w else activated now w.bridge.media_bridge_id w).0
    relays o true = media o a
    relays o false = starts_from o w.bridge.media_bridge_id

    legs : is_over w.bridge.state ≡ false → HasEnded (start_legs now a w).0
    legs o = elim (Bool-cases (is_answered w.leg_a.state && is_answered w.leg_b.state)) [
      | inr e ↦ rw e v
      | inl e ↦ rw e (
          relays o (
            w.bridge.transport && not (w.leg_a.session_id == []) && not (w.leg_b.session_id == [])))
    ]

    by_state : (s : BridgeState) → w.bridge.state ≡ s → HasEnded (start_bridge s now a w).0
    by_state bridge_created e = legs (ap is_over e)
    by_state bridge_partial e = v
    by_state bridge_active e = v
    by_state bridge_held e = v
    by_state terminating e = v
    by_state terminated e = v

stop_again-HasEnded :
    (now : ℕ) (wanted : Bool) (w : Call)
    → HasEnded w
    → HasEnded (stop (on_terminated now) now wanted w)
      × ((stop (on_terminated now) now wanted w).bridge.state ≡ terminated)
unfolding stop
stop_again-HasEnded now wanted w v = elim (Bool-cases (is_terminated w.bridge.state)) [
  | inl t ↦ rw t (v, terminated_is w.bridge.state t)
  | inr t ↦
      (stop-HasEnded 1 now wanted w t (v.once ∙ ap (λ b. if b then 1 else 0) t) v.fed, rw t refl)
]
  where
    terminated_is : (s : BridgeState) → is_terminated s ≡ true → s ≡ terminated
    terminated_is bridge_created e = absurd (ground (arith, e))
    terminated_is bridge_partial e = absurd (ground (arith, e))
    terminated_is bridge_active e = absurd (ground (arith, e))
    terminated_is bridge_held e = absurd (ground (arith, e))
    terminated_is terminating e = absurd (ground (arith, e))
    terminated_is terminated e = refl

step-HasEnded : (w : Call) (x : Step) → HasEnded w → HasEnded (step w x)
step-HasEnded w (hangs_up now side cause) v = hangup-HasEnded now side cause w v
step-HasEnded w (stops now wanted) v = (stop_again-HasEnded now wanted w v).0
step-HasEnded w (starts now a) v = start-HasEnded now a w v
step-HasEnded w (answers now side) v = Calm-HasEnded w _ (answer-Calm now side w) v
step-HasEnded w (moves now side s) v = Calm-HasEnded w _ (moved-Calm now side s w) v

run_then : (w : Call) (xs : List Step) (x : Step) → run w (xs ++ x ∷ []) ≡ step (run w xs) x
unfolding run
run_then w [] x = refl
run_then w (y ∷ ys) x = run_then (step w y) ys x

run-HasEnded_of : (w : Call) (xs : List Step) → HasEnded w → HasEnded (run w xs)
unfolding run
run-HasEnded_of w [] v = v
run-HasEnded_of w (x ∷ xs) v = run-HasEnded_of (step w x) xs (step-HasEnded w x v)

-- Over any calls on the legs and on their bridge, from a new bridge of any two legs: no callback is
-- left out for want of fuel, the bridge is never found in the middle of its teardown, its channel
-- `done` is closed exactly where it is terminated, and its end is notified once where it is and never
-- before. A `Stop` at any time leaves it terminated.
pub run-HasEnded :
    (a b : Leg) (transport auto_hangup : Bool) (xs : List Step)
    → HasEnded (run (new_bridge a b transport auto_hangup) xs)
      × ((now : ℕ) (wanted : Bool)
          → (run (new_bridge a b transport auto_hangup) (xs ++ stops now wanted ∷ [])).bridge.state
            ≡ terminated)
run-HasEnded a b transport auto_hangup xs =
    let w : Call = new_bridge a b transport auto_hangup in
    let v : HasEnded w = record { settled = refl; closed = refl; once = refl; fed = refl } in
    let u : HasEnded (run w xs) = run-HasEnded_of w xs v in
    (
      u,
      λ now wanted.
          ap (λ c. c.bridge.state) (run_then w xs (stops now wanted))
          ∙ (stop_again-HasEnded now wanted (run w xs) u).1,
    )
