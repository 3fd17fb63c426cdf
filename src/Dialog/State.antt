-- ===== src/Dialog/State.antt =====
-- internal/signaling/dialog/state.go
use switchboard.Prelude.{
  ℕ, ◌<◌, ◌≡◌, refl, sym, ap, ◌∙◌, ◌↔◌, Bool, true, false, not, List, [], ◌∷◌, arith, if◌then◌else◌,
  any, Comparable, ◌==◌, eq_iff, nat_eq,
}

pub data CallState : Type 0 where
  initial early waiting_ack confirmed terminating terminated : CallState

pub data TerminateReason : Type 0 where
  local_bye remote_bye cancelled timed_out failed : TerminateReason

-- The value that `iota` gives a state.
abbrev pub iota : CallState → ℕ
iota initial = 0
iota early = 1
iota waiting_ack = 2
iota confirmed = 3
iota terminating = 4
iota terminated = 5

of_iota : ℕ → CallState
of_iota n =
    if n == 0
    then initial
    else if n == 1
    then early
    else if n == 2
    then waiting_ack
    else if n == 3
    then confirmed
    else if n == 4
    then terminating
    else terminated

of_iota-iota : (s : CallState) → of_iota (iota s) ≡ s
unfolding of_iota
of_iota-iota initial = refl
of_iota-iota early = refl
of_iota-iota waiting_ack = refl
of_iota-iota confirmed = refl
of_iota-iota terminating = refl
of_iota-iota terminated = refl

pub state_beq_iff : (s t : CallState) → ((iota s == iota t) ≡ true) ↔ (s ≡ t)
state_beq_iff s t = (
  λ h. sym (of_iota-iota s) ∙ ap of_iota ((eq_iff (iota s) (iota t)).0 h) ∙ of_iota-iota t,
  λ p. (eq_iff (iota s) (iota t)).1 (ap iota p),
)

instance abbrev pub state_eq : Comparable CallState
state_eq = record { equals = λ s t. iota s == iota t; equals_iff = state_beq_iff }

-- `validTransitions`
abbrev pub valid_transitions : CallState → List CallState
valid_transitions initial = early ∷ terminated ∷ []
valid_transitions early = waiting_ack ∷ terminated ∷ []
valid_transitions waiting_ack = confirmed ∷ terminated ∷ []
valid_transitions confirmed = terminating ∷ terminated ∷ []
valid_transitions terminating = terminated ∷ []
valid_transitions terminated = []

-- `CanTransitionTo`
abbrev pub can_transition_to : CallState → CallState → Bool
can_transition_to s next = any (λ state. state == next) (valid_transitions s)

-- A transition goes forward in the life cycle, and every state but the last may terminate.
pub can_transition_to_lem :
    (s next : CallState)
    → (can_transition_to s next ≡ true → iota s < iota next)
      × (can_transition_to s terminated ≡ not (s == terminated))
      × (can_transition_to terminated next ≡ false)
can_transition_to_lem initial next = (λ h. ground arith, refl, refl)
can_transition_to_lem early next = (λ h. ground arith, refl, refl)
can_transition_to_lem waiting_ack next = (λ h. ground arith, refl, refl)
can_transition_to_lem confirmed next = (λ h. ground arith, refl, refl)
can_transition_to_lem terminating next = (λ h. ground arith, refl, refl)
can_transition_to_lem terminated next = (λ h. ground arith, refl, refl)
