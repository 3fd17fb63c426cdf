-- ===== src/B2bua.antt =====
-- internal/signaling/b2bua/state.go, leg.go and bridge.go: two call legs and the bridge between them. A
-- leg's termination callback that matters here is the one the bridge registers on it; what it and the
-- other callbacks and calls do outside is a list of events, the latest first. A call runs to its end
-- before the next one.
pub mod Ending
pub mod Teardown
pub mod Waiting
mod Tests
use switchboard.Prelude.{
  ℕ, zero, suc, ◌+◌, Bool, true, false, not, ◌&&◌, Option, none, some, List, [], ◌∷◌, if◌then◌else◌,
  ◌==◌, Str, str_eq, nat_eq,
}

pub data LegState : Type 0 where
  leg_created leg_ringing early_media answered leg_failed destroyed : LegState

abbrev pub rank : LegState → ℕ
rank leg_created = 0
rank leg_ringing = 1
rank early_media = 2
rank answered = 3
rank leg_failed = 4
rank destroyed = 5

-- `LegState.IsTerminal`
abbrev pub is_terminal : LegState → Bool
is_terminal leg_failed = true
is_terminal destroyed = true
is_terminal _ = false

abbrev pub is_answered : LegState → Bool
is_answered answered = true
is_answered _ = false

pub data LegDirection : Type 0 where
  leg_inbound leg_outbound : LegDirection

pub data BridgeState : Type 0 where
  bridge_created bridge_partial bridge_active bridge_held terminating terminated : BridgeState

pub data TerminationCause : Type 0 where
  cause_none cause_normal cause_cancel cause_rejected cause_timeout cause_error : TerminationCause
  bridge_peer cause_transfer remote_bye : TerminationCause

pub data Side : Type 0 where
  side_a side_b : Side

-- `terminatedBy`
pub data Terminator : Type 0 where
  nobody is_local : Terminator
  by_leg : Side → Terminator

pub record Leg : Type 0 where
  pub direction : LegDirection
  pub state : LegState
  pub termination_cause : TerminationCause
  pub session_id : Str
  pub ringing_at : Option ℕ
  pub answered_at : Option ℕ
  pub terminated_at : Option ℕ
  -- Whether the channel `done` is closed.
  pub done : Bool
  -- The number of the channel `stateChanged`; those below it are closed.
  pub state_changed : ℕ
  -- Whether a teardown handler is registered.
  pub has_teardown : Bool

pub record Bridge : Type 0 where
  pub state : BridgeState
  pub termination_cause : TerminationCause
  pub terminated_by : Terminator
  pub transport : Bool
  pub media_bridge_id : Str
  pub started_at : Option ℕ
  pub terminated_at : Option ℕ
  pub auto_hangup : Bool
  pub done : Bool
  -- The number of the channel `terminationWaiters`; those below it are closed.
  pub termination_waiters : ℕ

pub data Event : Type 0 where
  tears_down : Side → Event
  state_changes : Side → LegState → LegState → Event
  leg_terminates : Side → TerminationCause → Event
  unbridges : Str → Event
  bridge_terminates : TerminationCause → Event
  -- A callback that was left out, for want of fuel.
  out_of_fuel : Event

pub record Call : Type 0 where
  pub leg_a : Leg
  pub leg_b : Leg
  pub bridge : Bridge
  pub events : List Event

abbrev pub leg_of : Side → Call → Leg
leg_of side_a w = w.leg_a
leg_of side_b w = w.leg_b

abbrev pub other : Side → Side
other side_a = side_b
other side_b = side_a

abbrev pub set_leg : Side → Leg → List Event → Call → Call
set_leg side_a l es w = record w { leg_a = l; events = es }
set_leg side_b l es w = record w { leg_b = l; events = es }

abbrev pub note : Bool → Event → List Event → List Event
note b e es = if b then e ∷ es else es

abbrev pub first_time : ℕ → Option ℕ → Option ℕ
first_time now (some t) = some t
first_time now none = some now

-- "Update timing" in `TransitionTo`
abbrev pub timed_leg : ℕ → LegState → Leg → Leg
timed_leg now leg_created l = l
timed_leg now leg_ringing l = record l { ringing_at = first_time now l.ringing_at }
timed_leg now early_media l = record l { ringing_at = first_time now l.ringing_at }
timed_leg now answered l = record l { answered_at = some now }
timed_leg now leg_failed l = record l { terminated_at = some now }
timed_leg now destroyed l = record l { terminated_at = some now }

-- `TransitionTo`
unfoldable pub leg_transition_to : ℕ → Side → LegState → Call → Call
leg_transition_to now side new_state w =
    let l = leg_of side w in
    set_leg side
      (timed_leg now new_state
        (record l { state = new_state; state_changed = l.state_changed + 1 }))
      (state_changes side l.state new_state ∷ w.events) w

pub data B2buaErr : Type 0 where
  cannot_answer : LegState → B2buaErr
  bridge_is_active leg_not_answered : B2buaErr
  bridge_media_error : Str → B2buaErr

abbrev pub can_answer : LegDirection → LegState → Bool
can_answer leg_inbound leg_ringing = true
can_answer leg_inbound early_media = true
can_answer _ _ = false

-- `Answer`
unfoldable pub answer : ℕ → Side → Call → Call × Option B2buaErr
answer now side w =
    let l = leg_of side w in
    if can_answer l.direction l.state
    then (
      set_leg side (record l { state = answered; answered_at = some now })
          (state_changes side l.state answered ∷ w.events) w,
      none,
    )
    else (w, some (cannot_answer l.state))

-- A leg after `Hangup`, before the termination callbacks.
abbrev pub hung_up : ℕ → Side → TerminationCause → Call → Call
hung_up now side cause w =
    let l = leg_of side w in
    set_leg side
      (record l {
        state = destroyed;
        termination_cause = cause;
        terminated_at = some now;
        done = true;
      })
      (leg_terminates side cause
        ∷ state_changes side l.state destroyed
        ∷ note l.has_teardown (tears_down side) w.events)
      w

-- `Hangup`, with the bridge's callback
unfoldable pub hangup : (Side → Call → Call) → ℕ → Side → TerminationCause → Call → Call
hangup callback now side cause w =
    if is_terminal (leg_of side w).state then w else callback side (hung_up now side cause w)

-- The result of `BridgeMedia`: an ID or an error.
pub data BridgeAnswer : Type 0 where
  media_bridged media_refused : Str → BridgeAnswer

abbrev pub activated : ℕ → Str → Call → Call × Option B2buaErr
activated now media_id w = (
  record w {
    bridge = record w.bridge {
      state = bridge_active;
      started_at = some now;
      media_bridge_id = media_id;
    };
  },
  none,
)

abbrev pub on_media : ℕ → BridgeAnswer → Call → Call × Option B2buaErr
on_media now (media_bridged id) w = activated now id w
on_media now (media_refused e) w = (w, some (bridge_media_error e))

abbrev pub start_legs : ℕ → BridgeAnswer → Call → Call × Option B2buaErr
start_legs now a w =
    if is_answered w.leg_a.state && is_answered w.leg_b.state
    then if w.bridge.transport && not (w.leg_a.session_id == []) && not (w.leg_b.session_id == [])
      then on_media now a w
      else activated now w.bridge.media_bridge_id w
    else (w, some leg_not_answered)

abbrev pub start_bridge : BridgeState → ℕ → BridgeAnswer → Call → Call × Option B2buaErr
start_bridge bridge_created now a w = start_legs now a w
start_bridge _ now a w = (w, some bridge_is_active)

-- `Start`
unfoldable pub start : ℕ → BridgeAnswer → Call → Call × Option B2buaErr
start now a w = start_bridge w.bridge.state now a w

abbrev pub is_terminated : BridgeState → Bool
is_terminated terminated = true
is_terminated _ = false

abbrev pub is_over : BridgeState → Bool
is_over terminating = true
is_over terminated = true
is_over _ = false

-- Up to the hangup of the legs in `Stop`.
abbrev pub unbridged : Call → Call
unbridged w = record w {
  bridge = record w.bridge { state = terminating };
  events =
      note (w.bridge.transport && not (w.bridge.media_bridge_id == []))
        (unbridges w.bridge.media_bridge_id) w.events;
}

abbrev pub hangup_if : Bool → (Side → Call → Call) → ℕ → Side → Call → Call
hangup_if b callback now side w = if b then hangup callback now side bridge_peer w else w

-- The states of both legs are read first.
abbrev pub hangup_legs : Bool → (Side → Call → Call) → ℕ → Call → Call
hangup_legs wanted callback now w =
    hangup_if (wanted && is_answered w.leg_b.state) callback now side_b
      (hangup_if (wanted && is_answered w.leg_a.state) callback now side_a w)

abbrev pub or_local : Terminator → Terminator
or_local nobody = is_local
or_local t = t

abbrev pub or_normal : TerminationCause → TerminationCause
or_normal cause_none = cause_normal
or_normal c = c

-- From the second lock in `Stop`.
abbrev pub ended : ℕ → Call → Call
ended now w = record w {
  bridge = record w.bridge {
    state = terminated;
    terminated_at = some now;
    terminated_by = or_local w.bridge.terminated_by;
    termination_cause = or_normal w.bridge.termination_cause;
    done = true;
    termination_waiters = w.bridge.termination_waiters + 1;
  };
  events = bridge_terminates (or_normal w.bridge.termination_cause) ∷ w.events;
}

-- `Stop`
unfoldable pub stop : (Side → Call → Call) → ℕ → Bool → Call → Call
stop callback now wanted w =
    if is_terminated w.bridge.state
    then w
    else ended now (hangup_legs wanted callback now (unbridged w))

abbrev pub marked : Side → Call → Call
marked side w = record w {
  bridge = record w.bridge {
    state = terminating;
    terminated_by = by_leg side;
    termination_cause = bridge_peer;
  };
}

-- `handleLegTerminated`, with fuel for the callbacks within callbacks
unfoldable pub handle_leg_terminated : ℕ → ℕ → Side → Call → Call
handle_leg_terminated zero now side w = record w { events = out_of_fuel ∷ w.events }
handle_leg_terminated (suc f) now side w =
    if is_over w.bridge.state
    then w
    else stop (handle_leg_terminated f now) now w.bridge.auto_hangup (marked side w)

-- The callback that `NewBridge` registers.
abbrev pub on_terminated : ℕ → Side → Call → Call
on_terminated = handle_leg_terminated 2

-- `NewBridge`, with the default ID and the options applied
abbrev pub new_bridge : Leg → Leg → Bool → Bool → Call
new_bridge a b transport auto_hangup = record {
  leg_a = a;
  leg_b = b;
  bridge = record {
    state = bridge_created;
    termination_cause = cause_none;
    terminated_by = nobody;
    transport = transport;
    media_bridge_id = [];
    started_at = none;
    terminated_at = none;
    auto_hangup = auto_hangup;
    done = false;
    termination_waiters = 0;
  };
  events = [];
}
