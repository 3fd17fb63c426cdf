-- ===== src/Dialplan/Execution.antt =====
-- What an execution of a route has done, in terms of the calls on its session.
use switchboard.Prelude.{
  ℕ, ◌+◌, ◌*◌, ◌≤◌, ◌≡◌, ◌⊎◌, inl, inr, true, false, Option, none, some, List, [], ◌∷◌, ◌++◌,
  replace_all, length, ℤ, Str, codes, pos, negsuc, str_eq, nat_eq,
}
use switchboard.Dialplan.{Route, ActionConfig}
use switchboard.Dialplan.Actions.{
  Action, ActionErr, ActionRegistry, create_action, type_of, dial_action, hangup_action,
  play_audio_action,
}
use switchboard.Dialplan.Executor.{
  CallSession, Cause, context_error, session_canceled, create_failed, action_failed, ExecutionError,
  Placeholder, seconds, RangeOrder, order_of, destination_var, caller_id_var, call_id_var,
}

module _ {S : Type 0} (session : CallSession S) (registry : ActionRegistry) (order : ℕ → RangeOrder)
    (route : Route) where
  -- Each placeholder of the list replaced by its value in the session, one after the other.
  abbrev pub Replaced : List Placeholder → S → Str → Str → Type 0
  Replaced [] s text result = text ≡ result
  Replaced (destination_var ∷ vs) s text result =
      Replaced vs s (replace_all (codes "${destination}") (session.destination s) text) result
  Replaced (caller_id_var ∷ vs) s text result =
      Replaced vs s (replace_all (codes "${caller_id}") (session.caller_id s) text) result
  Replaced (call_id_var ∷ vs) s text result =
      Replaced vs s (replace_all (codes "${call_id}") (session.call_id s) text) result

  -- All three are replaced, in some order.
  abbrev pub Substituted : S → Str → Str → Type 0
  Substituted s text result = (o : RangeOrder) × Replaced (order_of o) s text result

  -- What the registry makes of an action of the route.
  abbrev pub Made : ActionConfig → S → ActionErr ⊎ Action → Type 0
  Made cfg s w =
      (params : Str) × Substituted s cfg.params params
      × (create_action cfg.action_type params registry ≡ w)

  -- What an action does with its session; a number of seconds is given in nanoseconds, where these
  -- are an int64.
  abbrev pub Performs : Action → S → S × Option Str → Type 0
  Performs (dial_action target (pos n)) s r =
      (nanos : ℤ) × (n ≤ 9223372036 → nanos ≡ pos (n * 1000000000))
      × (session.dial target nanos s ≡ r)
  Performs (dial_action target (negsuc n)) s r = session.dial target (seconds (negsuc n)) s ≡ r
  Performs (hangup_action reason) s r = session.hangup reason s ≡ r
  Performs (play_audio_action file) s r = session.play_audio file s ≡ r

  abbrev pub IsLive : S → Type 0
  IsLive s = (session.context_err s ≡ none) × (session.is_terminated s ≡ false)

  -- The action is made and done in a session that is live.
  abbrev pub Succeeds : ActionConfig → S → S → Type 0
  Succeeds cfg s t = IsLive s × ((a : Action) × Made cfg s (inr a) × Performs a s (t, none))

  -- All the actions are done, in their order.
  abbrev pub Runs : List ActionConfig → S → S → Type 0
  Runs [] s t = s ≡ t
  Runs (cfg ∷ cfgs) s t = (u : S) × Succeeds cfg s u × Runs cfgs u t

  -- Why the action is not done; only one that fails itself changes the session.
  abbrev pub Stops : ActionConfig → S → S → Str → Cause → Type 0
  Stops cfg s t failed (context_error e) =
      (session.context_err s ≡ some e) × (t ≡ s) × (failed ≡ codes "context_check")
  Stops cfg s t failed session_canceled =
      (session.is_terminated s ≡ true) × (t ≡ s) × (failed ≡ codes "session_check")
  Stops cfg s t failed (create_failed e) =
      IsLive s × Made cfg s (inl e) × (t ≡ s) × (failed ≡ cfg.action_type)
  Stops cfg s t failed (action_failed e) =
      IsLive s
      × ((a : Action) × Made cfg s (inr a) × Performs a s (t, some e) × (failed ≡ type_of a))

  abbrev StepSpec : ℕ → ActionConfig → S → S × Option ExecutionError → Type 0
  StepSpec i cfg s (t, none) = Succeeds cfg s t
  StepSpec i cfg s (t, some e) =
      (e.route_id ≡ route.id)
      × (e.completed_steps ≡ i)
      × (e.total_steps ≡ length route.actions)
      × Stops cfg s t e.failed_action e.cause

  abbrev pub Executes : ℕ → List ActionConfig → S → S × Option ExecutionError → Type 0
  Executes i cfgs s (t, none) = Runs cfgs s t
  Executes i cfgs s (t, some e) =
      (e.route_id ≡ route.id)
      × (e.total_steps ≡ length route.actions)
      × ((before : List ActionConfig) × (cfg : ActionConfig) × (after : List ActionConfig) × (u : S)
          × (cfgs ≡ before ++ cfg ∷ after)
          × (e.completed_steps ≡ i + length before)
          × Runs before s u
          × Stops cfg u t e.failed_action e.cause)
