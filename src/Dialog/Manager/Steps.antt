-- ===== src/Dialog/Manager/Steps.antt =====
-- The manager's calls in any order, each at its time.
use switchboard.Prelude.{ℕ, ◌<◌, Bool, Option, Str, str_eq, nat_eq}
use switchboard.Dialog.State.{TerminateReason}
use switchboard.Dialog.Dialogs.{Uri, Request, Response}
use switchboard.Dialog.Manager.{
  Manager, Answering, create_from_invite, register_outbound, send_trying, send_ok, send_progress,
  confirm_with_ack, handle_incoming_bye, handle_incoming_cancel, terminate, watch_ack_timeout,
  sweep,
}

pub data Call : Type 0 where
  creates : Request → Call
  registers : Request → Response → Call
  sends_trying : Bool → ℕ → Call
  sends_progress : Bool → Call
  sends_ok : Answering → ℕ → Call
  acks byes cancels : Option Str → Call
  terminates : Str → TerminateReason → Call
  times_out : ℕ → Call
  sweeps : Call

-- A call on a dialog has a pointer to one that was made.
abbrev pub Held : Call → Manager → Type 0
Held (sends_trying sent h) m = h < m.next
Held (sends_ok a h) m = h < m.next
Held (times_out h) m = h < m.next
Held c m = Unit

module _ (print : Uri → Str) (parse : Str → Option Uri) (local : Uri) where
  unfoldable pub step : ℕ → Call → Manager → Manager
  step now (creates req) m = (create_from_invite now req m).0
  step now (registers req resp) m = (register_outbound print now req resp m).0
  step now (sends_trying sent h) m = (send_trying sent now h m).0
  step now (sends_progress sent) m = (send_progress sent m).0
  step now (sends_ok a h) m = (send_ok a now h m).0
  step now (acks id) m = (confirm_with_ack now id m).0
  step now (byes id) m = (handle_incoming_bye now id m).0
  step now (cancels id) m = (handle_incoming_cancel now id m).0
  step now (terminates id reason) m = (terminate parse local now id reason m).0
  step now (times_out h) m = watch_ack_timeout now h m
  step now sweeps m = sweep now m

  -- The managers that calls at any times make of one.
  pub data Reach (m : Manager) : Manager → Type 0 where
    start : Reach m m
    then_step : {u : Manager} (now : ℕ) (c : Call) → Reach m u → Held c u → Reach m (step now c u)
