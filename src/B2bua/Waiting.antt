-- ===== src/B2bua/Waiting.antt =====
-- `WaitForState` of internal/signaling/b2bua/leg.go. A round is the state that it reads and what wakes
-- it, should it wait.
use switchboard.Prelude.{
  ◌≤◌, ◌≡◌, refl, ◌⊎◌, inl, inr, true, not, ◌&&◌, List, [], ◌∷◌, arith, leb, if◌then◌else◌,
  Bool-cases, str_eq, nat_eq,
}
use switchboard.B2bua.{LegState, rank, is_terminal}

pub data Wake : Type 0 where
  context_done leg_done is_changed : Wake

pub data WaitResult : Type 0 where
  is_reached leg_terminated context_error still_waits : WaitResult

-- The two tests of a round; `still_waits` where it comes to the wait.
abbrev pub check_state : LegState → LegState → WaitResult
check_state current target =
    if leb (rank target) (rank current)
    then (if is_terminal current && not (is_terminal target) then leg_terminated else is_reached)
    else if is_terminal current
    then leg_terminated
    else still_waits

abbrev pub woken : Wake → WaitResult → WaitResult
woken context_done rest = context_error
woken leg_done rest = leg_terminated
woken is_changed rest = rest

abbrev pub unless_decided : WaitResult → WaitResult → WaitResult
unless_decided still_waits rest = rest
unless_decided r rest = r

unfoldable pub wait_for_state : LegState → List (LegState × Wake) → WaitResult
wait_for_state target [] = still_waits
wait_for_state target ((current, wake) ∷ rs) =
    unless_decided (check_state current target) (woken wake (wait_for_state target rs))

-- A state at which a wait for the target succeeds.
abbrev Reached : LegState → LegState → Type 0
Reached target s = (rank target ≤ rank s) × (is_terminal s ≡ true → is_terminal target ≡ true)

-- A round of the wait had such a state.
abbrev pub HasReached : LegState → List (LegState × Wake) → Type 0
HasReached target [] = ⊥
HasReached target ((s, w) ∷ rs) = Reached target s ⊎ HasReached target rs

check_state-Reached : (s target : LegState) → check_state s target ≡ is_reached → Reached target s
check_state-Reached s target e = elim (Bool-cases (leb (rank target) (rank s))) [
  | inr l ↦ elim (Bool-cases (is_terminal s)) [
    | inl t ↦ absurd (ground (arith, e, l, t))
    | inr t ↦ absurd (ground (arith, e, l, t))
  ]
  | inl l ↦ (ground (arith, l), λ t. ground (arith, e, l, t))
]

-- A wait that succeeds has seen a state at or beyond its target, and a terminal one only for a
-- terminal target.
pub wait_for_state-HasReached :
    (target : LegState) (rs : List (LegState × Wake))
    → wait_for_state target rs ≡ is_reached
    → HasReached target rs
unfolding wait_for_state
wait_for_state-HasReached target [] e = absurd (ground (arith, e))
wait_for_state-HasReached target ((s, w) ∷ rs) e =
    by_check (wait_for_state-HasReached target rs) (check_state s target) refl e
  where
    Later : Type 0
    Later = wait_for_state target rs ≡ is_reached → HasReached target rs

    by_wake :
        Later → (w : Wake) → woken w (wait_for_state target rs) ≡ is_reached → HasReached target rs
    by_wake k context_done h = absurd (ground (arith, h))
    by_wake k leg_done h = absurd (ground (arith, h))
    by_wake k is_changed h = k h

    by_check :
        Later
        → (r : WaitResult) → check_state s target ≡ r
        → unless_decided r (woken w (wait_for_state target rs)) ≡ is_reached
        → HasReached target ((s, w) ∷ rs)
    by_check k is_reached c h = inl (check_state-Reached s target c)
    by_check k leg_terminated c h = absurd (ground (arith, h))
    by_check k context_error c h = absurd (ground (arith, h))
    by_check k still_waits c h = inr (by_wake k w h)
