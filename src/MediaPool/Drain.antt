-- ===== src/MediaPool/Drain.antt =====
-- The drain states of a member: `StartDrain`, `CompleteDrain` and `CancelDrain`.
use switchboard.Prelude.{
  ◌≡◌, refl, Bool, true, false, not, Option, none, some, List, [], ◌∷◌, arith, if◌then◌else◌, ◌==◌,
  eq_iff, Str, str_eq,
}
use switchboard.GoMap
use switchboard.MediaPool.{
  Pool, DrainState, is_active, is_draining, PoolMember, Err, Result, get_member_by_id, with_member,
  active, draining, disabled, node_not_found, not_active, not_draining, already_active, ok, err,
}

-- `member.SetDrainState`, and the nil result.
abbrev set_drain_state : Str → PoolMember → DrainState → Pool → Pool × Result (Unit {0})
set_drain_state node_id m state p =
    (with_member node_id (record m { drain_state = state }) p, ok tt)

abbrev start_member : Str → Option PoolMember → Pool → Pool × Result (Unit {0})
start_member node_id none p = (p, err (node_not_found node_id))
start_member node_id (some m) p =
    if not (is_active m.drain_state)
    then (p, err (not_active node_id m.drain_state))
    else set_drain_state node_id m draining p

-- `StartDrain`
unfoldable pub start_drain : Str → Pool → Pool × Result (Unit {0})
start_drain node_id p = start_member node_id (get_member_by_id node_id p) p

abbrev complete_member : Str → Option PoolMember → Pool → Pool × Result (Unit {0})
complete_member node_id none p = (p, err (node_not_found node_id))
complete_member node_id (some m) p =
    if not (is_draining m.drain_state)
    then (p, err (not_draining node_id m.drain_state))
    else set_drain_state node_id m disabled p

-- `CompleteDrain`
unfoldable pub complete_drain : Str → Pool → Pool × Result (Unit {0})
complete_drain node_id p = complete_member node_id (get_member_by_id node_id p) p

abbrev cancel_member : Str → Option PoolMember → Pool → Pool × Result (Unit {0})
cancel_member node_id none p = (p, err (node_not_found node_id))
cancel_member node_id (some m) p =
    if is_active m.drain_state
    then (p, err (already_active node_id))
    else set_drain_state node_id m active p

-- `CancelDrain`, which also enables a disabled node again.
unfoldable pub cancel_drain : Str → Pool → Pool × Result (Unit {0})
cancel_drain node_id p = cancel_member node_id (get_member_by_id node_id p) p

pub data Call : Type 0 where
  starts completes cancels : Str → Call

abbrev pub apply : Call → Pool → Pool × Result (Unit {0})
apply (starts id) p = start_drain id p
apply (completes id) p = complete_drain id p
apply (cancels id) p = cancel_drain id p

abbrev pub node : Call → Str
node (starts id) = id
node (completes id) = id
node (cancels id) = id

-- The life cycle of a member: the state that a call moves it to, where it accepts the current
-- one. Active, draining, disabled, and back to active.
abbrev pub target : Call → DrainState → Option DrainState
target (starts id) active = some draining
target (completes id) draining = some disabled
target (cancels id) draining = some active
target (cancels id) disabled = some active
target c s = none

abbrev pub refusal : Call → DrainState → Err
refusal (starts id) s = not_active id s
refusal (completes id) s = not_draining id s
refusal (cancels id) s = already_active id

abbrev pub answer : Call → Pool → PoolMember → Option DrainState → Pool × Result (Unit {0})
answer c p m none = (p, err (refusal c m.drain_state))
answer c p m (some t) = (with_member (node c) (record m { drain_state = t }) p, ok tt)

abbrev pub specified : Call → Pool → Option PoolMember → Pool × Result (Unit {0})
specified c p none = (p, err (node_not_found (node c)))
specified c p (some m) = answer c p m (target c m.drain_state)

-- A drain call is refused at an unknown node and in a state that the life cycle gives no move for,
-- and then changes nothing; otherwise it sets the drain state of its node and changes nothing else.
pub drain_life_cycle :
    (c : Call) (p : Pool) → apply c p ≡ specified c p (GoMap.get (node c) p.members)
unfolding start_drain complete_drain cancel_drain
drain_life_cycle (starts id) p = ground arith
drain_life_cycle (completes id) p = ground arith
drain_life_cycle (cancels id) p = ground arith

abbrev pub drain_state_of : Str → Pool → Option DrainState
drain_state_of id p = elim (GoMap.get id p.members) [ none ↦ none | some m ↦ some m.drain_state ]

abbrev moved : Call → DrainState → DrainState
moved c s = elim (target c s) [ none ↦ s | some t ↦ t ]

abbrev step_state : Call → Str → Option DrainState → Option DrainState
step_state c id none = none
step_state c id (some s) = some (if node c == id then moved c s else s)

answer-state :
    (id : Str) (c : Call) (p : Pool) (m : PoolMember) (t : Option DrainState)
    → GoMap.get (node c) p.members ≡ some m
    → target c m.drain_state ≡ t
    → drain_state_of id (answer c p m t).0 ≡ step_state c id (drain_state_of id p)
answer-state id c p m none e f = ground (arith, eq_iff (node c) id)
answer-state id c p m (some t) e f =
    ground (
      arith,
      eq_iff (node c) id,
      GoMap.get-put (node c) id (record m { drain_state = t }) p.members,
    )

specified-state :
    (id : Str) (c : Call) (p : Pool) (o : Option PoolMember)
    → GoMap.get (node c) p.members ≡ o
    → drain_state_of id (specified c p o).0 ≡ step_state c id (drain_state_of id p)
specified-state id c p none e = ground (arith, eq_iff (node c) id)
specified-state id c p (some m) e = answer-state id c p m (target c m.drain_state) e refl

drain_state_of-apply :
    (id : Str) (c : Call) (p : Pool)
    → drain_state_of id (apply c p).0 ≡ step_state c id (drain_state_of id p)
drain_state_of-apply id c p =
    rw (drain_life_cycle c p) (specified-state id c p (GoMap.get (node c) p.members) refl)

unfoldable pub run : Pool → List Call → Pool
run p [] = p
run p (c ∷ cs) = run (apply c p).0 cs

-- Some later call completes the drain of the node.
pub data Completes (id : Str) : List Call → Type 0 where
  here : (n : Str) (cs : List Call) → n ≡ id → Completes id (completes n ∷ cs)
  there : (c : Call) {cs : List Call} → Completes id cs → Completes id (c ∷ cs)

-- A drain of the node is started, and completed later.
pub data Drains (id : Str) : List Call → Type 0 where
  here : (n : Str) {cs : List Call} → n ≡ id → Completes id cs → Drains id (starts n ∷ cs)
  there : (c : Call) {cs : List Call} → Drains id cs → Drains id (c ∷ cs)

Drains-Completes : {id : Str} {cs : List Call} → Drains id cs → Completes id cs
Drains-Completes (Drains.here n e t) = Completes.there (starts n) t
Drains-Completes (Drains.there c t) = Completes.there c (Drains-Completes t)

-- What a history must hold for a node that is in this state to end disabled.
abbrev Needs : Str → Option DrainState → List Call → Type 0
Needs id (some active) cs = Drains id cs
Needs id (some draining) cs = Completes id cs
Needs id _ cs = Unit

same {ℓ} : {A : Type ℓ} (b : Bool) (x : A) → (if b then x else x) ≡ x
same true x = refl
same false x = refl

module _ (id n : Str) (cs : List Call) where
  on_start :
      (b : Bool)
      → (n == id) ≡ b
      → Needs id (some (if b then draining else active)) cs
      → Drains id (starts n ∷ cs)
  on_start true e h = Drains.here n ((eq_iff n id).0 e) h
  on_start false e h = Drains.there (starts n) h

  on_complete :
      (b : Bool)
      → (n == id) ≡ b
      → Needs id (some (if b then disabled else draining)) cs
      → Completes id (completes n ∷ cs)
  on_complete true e h = Completes.here n cs ((eq_iff n id).0 e)
  on_complete false e h = Completes.there (completes n) h

  on_cancel :
      (b : Bool)
      → Needs id (some (if b then active else draining)) cs
      → Completes id (cancels n ∷ cs)
  on_cancel true h = Completes.there (cancels n) (Drains-Completes h)
  on_cancel false h = Completes.there (cancels n) h

Needs-step :
    (id : Str) (c : Call) (s : Option DrainState) (cs : List Call)
    → Needs id (step_state c id s) cs
    → Needs id s (c ∷ cs)
Needs-step id (starts n) (some active) cs h = on_start id n cs (n == id) refl h
Needs-step id (completes n) (some active) cs h =
    Drains.there (completes n) (rw (same (n == id) active) at h)
Needs-step id (cancels n) (some active) cs h =
    Drains.there (cancels n) (rw (same (n == id) active) at h)
Needs-step id (starts n) (some draining) cs h =
    Completes.there (starts n) (rw (same (n == id) draining) at h)
Needs-step id (completes n) (some draining) cs h = on_complete id n cs (n == id) refl h
Needs-step id (cancels n) (some draining) cs h = on_cancel id n cs (n == id) h
Needs-step id c (some disabled) cs h = tt
Needs-step id c none cs h = tt

run-Needs :
    (id : Str) (p : Pool) (cs : List Call)
    → drain_state_of id (run p cs) ≡ some disabled
    → Needs id (drain_state_of id p) cs
unfolding run
run-Needs id p [] h = rw h tt
run-Needs id p (c ∷ cs) h =
    Needs-step id c (drain_state_of id p) cs
      (rw (drain_state_of-apply id c p) at (run-Needs id (apply c p).0 cs h))

-- A node that was active and has ended disabled was drained: the history starts its drain, and
-- completes it later.
pub disabled_was_drained :
    (id : Str) (p : Pool) (cs : List Call)
    → drain_state_of id p ≡ some active
    → drain_state_of id (run p cs) ≡ some disabled
    → Drains id cs
disabled_was_drained id p cs a h = rw a at (run-Needs id p cs h)
