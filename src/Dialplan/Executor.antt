-- ===== src/Dialplan/Executor.antt =====
-- internal/signaling/dialplan/executor.go: a route's actions run one after the other in a call
-- session. The session and its context are a parameter: a state with what the interface
-- `CallSession` and `ctx.Err` answer.
use switchboard.Prelude.{
  ℕ, suc, ◌-◌, ◌*◌, ◌%◌, ◌⊎◌, inl, inr, Bool, true, false, Option, none, some, List, [], ◌∷◌, ltb,
  if◌then◌else◌, replace_all, length, ℤ, ◌==◌, Str, codes, pos, negsuc, str_eq, nat_eq,
}
use switchboard.Dialplan.{Route, ActionConfig, Dialplan, dialplan_match}
use switchboard.Dialplan.Actions.{
  Action, ActionErr, ActionRegistry, create_action, type_of, dial_action, hangup_action,
  play_audio_action,
}

-- The timeout of a dial is in nanoseconds.
pub record CallSession (S : Type 0) : Type 1 where
  pub destination : S → Str
  pub caller_id : S → Str
  pub call_id : S → Str
  pub is_terminated : S → Bool
  pub context_err : S → Option Str
  pub play_audio : Str → S → S × Option Str
  pub dial : Str → ℤ → S → S × Option Str
  pub hangup : Str → S → S × Option Str

pub data Cause : Type 0 where
  context_error : Str → Cause
  session_canceled : Cause
  create_failed : ActionErr → Cause
  action_failed : Str → Cause

-- `ExecutionError`
pub record ExecutionError : Type 0 where
  pub route_id : Str
  pub completed_steps : ℕ
  pub total_steps : ℕ
  pub failed_action : Str
  pub cause : Cause

-- A pattern of 64 bits as an int64.
abbrev pub to_int64 : ℕ → ℤ
to_int64 r = if ltb r 9223372036854775808 then pos r else negsuc (18446744073709551615 - r)

-- A number of seconds in nanoseconds: Go's int64 product, which wraps around.
abbrev pub seconds : ℤ → ℤ
seconds (pos n) = to_int64 (n * 1000000000 % 18446744073709551616)
seconds (negsuc n) =
    to_int64
      ((18446744073709551616 - suc n * 1000000000 % 18446744073709551616) % 18446744073709551616)

-- The placeholders that `substituteVars` knows.
pub data Placeholder : Type 0 where
  destination_var caller_id_var call_id_var : Placeholder

-- The order in which a `range` over the map takes them. Go draws it anew for each.
pub data RangeOrder : Type 0 where
  by_dci by_dic by_cdi by_cid by_idc by_icd : RangeOrder

abbrev pub order_of : RangeOrder → List Placeholder
order_of by_dci = destination_var ∷ caller_id_var ∷ call_id_var ∷ []
order_of by_dic = destination_var ∷ call_id_var ∷ caller_id_var ∷ []
order_of by_cdi = caller_id_var ∷ destination_var ∷ call_id_var ∷ []
order_of by_cid = caller_id_var ∷ call_id_var ∷ destination_var ∷ []
order_of by_idc = call_id_var ∷ destination_var ∷ caller_id_var ∷ []
order_of by_icd = call_id_var ∷ caller_id_var ∷ destination_var ∷ []

abbrev pub placeholder_text : Placeholder → Str
placeholder_text destination_var = codes "${destination}"
placeholder_text caller_id_var = codes "${caller_id}"
placeholder_text call_id_var = codes "${call_id}"

module _ {S : Type 0} (session : CallSession S) where
  abbrev pub value_of : Placeholder → S → Str
  value_of destination_var s = session.destination s
  value_of caller_id_var s = session.caller_id s
  value_of call_id_var s = session.call_id s

  -- The loop over the map, in the order that its `range` takes.
  abbrev pub replace_vars : List Placeholder → S → Str → Str
  replace_vars [] s text = text
  replace_vars (v ∷ vs) s text =
      replace_vars vs s (replace_all (placeholder_text v) (value_of v s) text)

  -- `substituteVars`
  unfoldable pub substitute_vars : RangeOrder → Str → S → Str
  substitute_vars order params s =
      if length params == 0 then params else replace_vars (order_of order) s params

  -- `Execute` of each action.
  unfoldable pub execute_action : Action → S → S × Option Str
  execute_action (dial_action target timeout) s = session.dial target (seconds timeout) s
  execute_action (hangup_action reason) s = session.hangup reason s
  execute_action (play_audio_action file) s = session.play_audio file s

module _ {S : Type 0} (session : CallSession S) (registry : ActionRegistry) (order : ℕ → RangeOrder)
    (route : Route) where
  -- `order i` is the order for the action with index `i`.
  -- The errors of a round, with the number of actions that went before it.
  abbrev pub failed_at : ℕ → Str → Cause → ExecutionError
  failed_at i action cause = record {
    route_id = route.id;
    completed_steps = i;
    total_steps = length route.actions;
    failed_action = action;
    cause = cause;
  }

  -- One round of the loop: the session afterwards, and the error where there is one.
  abbrev pub executed : ℕ → Action → S × Option Str → S × Option ExecutionError
  executed i action (s, none) = (s, none)
  executed i action (s, some e) = (s, some (failed_at i (type_of action) (action_failed e)))

  abbrev pub created : ℕ → Str → ActionErr ⊎ Action → S → S × Option ExecutionError
  created i action_type (inl e) s = (s, some (failed_at i action_type (create_failed e)))
  created i action_type (inr a) s = executed i a (execute_action session a s)

  abbrev pub unless_terminated : ℕ → ActionConfig → Bool → S → S × Option ExecutionError
  unless_terminated i cfg true s = (s, some (failed_at i (codes "session_check") session_canceled))
  unless_terminated i cfg false s =
      created i cfg.action_type
        (create_action cfg.action_type (substitute_vars session (order i) cfg.params s) registry) s

  abbrev pub unless_cancelled : ℕ → ActionConfig → Option Str → S → S × Option ExecutionError
  unless_cancelled i cfg (some e) s =
      (s, some (failed_at i (codes "context_check") (context_error e)))
  unless_cancelled i cfg none s = unless_terminated i cfg (session.is_terminated s) s

  unfoldable pub execute_step : ℕ → ActionConfig → S → S × Option ExecutionError
  execute_step i cfg s = unless_cancelled i cfg (session.context_err s) s

  -- The loop goes on where the round has no error.
  abbrev pub and_then :
      S × Option ExecutionError → (S → S × Option ExecutionError) → S × Option ExecutionError
  and_then (s, none) rest = rest s
  and_then (s, some e) rest = (s, some e)

  unfoldable pub execute_from : ℕ → List ActionConfig → S → S × Option ExecutionError
  execute_from i [] s = (s, none)
  execute_from i (cfg ∷ cfgs) s = and_then (execute_step i cfg s) (execute_from (suc i) cfgs)

  -- `ExecuteRoute`
  unfoldable pub execute_route : S → S × Option ExecutionError
  execute_route s = execute_from 0 route.actions s

pub data ExecuteErr : Type 0 where
  no_route_match : ExecuteErr
  execution_error : ExecutionError → ExecuteErr

abbrev pub as_error : {S : Type 0} → S × Option ExecutionError → S × Option ExecuteErr
as_error (s, none) = (s, none)
as_error (s, some e) = (s, some (execution_error e))

abbrev pub run_matched :
    {S : Type 0}
    → CallSession S
    → ActionRegistry
    → (ℕ → RangeOrder)
    → Option Route
    → S
    → S × Option ExecuteErr
run_matched session registry order none s = (s, some no_route_match)
run_matched session registry order (some r) s = as_error (execute_route session registry order r s)

-- `Execute`
unfoldable pub execute :
    {S : Type 0}
    → CallSession S
    → ActionRegistry
    → (ℕ → RangeOrder)
    → Dialplan
    → S
    → S × Option ExecuteErr
execute session registry order d s =
    run_matched session registry order (dialplan_match (session.destination s) d) s
