-- ===== src/Dialog/Manager.antt =====
-- internal/signaling/dialog/manager.go. The dialogs are objects behind pointers: `heap` gives the
-- object of a handle, and a handle from `next` on has none yet. One handler is one step at one `now`.
pub mod Steps
pub mod Invariant
pub mod Calls
pub mod Reach
pub mod Handlers
pub mod CallFlow
pub mod Ending
pub mod ReInvite
use switchboard.Prelude.{
  ℕ, ◌+◌, Bool, true, false, not, ◌&&◌, Option, none, some, List, [], ◌∷◌, if◌then◌else◌, ◌==◌, Str,
  str_eq, nat_eq,
}
use switchboard.TtlStore
use switchboard.TtlStore.{TtlStore}
use switchboard.Dialog.State.{
  CallState, TerminateReason, early, waiting_ack, confirmed, terminated, remote_bye, cancelled,
  timed_out, local_bye, state_eq,
}
use switchboard.Dialog.Dialogs.{
  Dialog, Uri, Request, Response, inbound, outbound, DialogDirection, new_dialog,
  new_outbound_dialog, transition_to, set_session, set_invite_response, cancel, string_of,
  is_outbound,
}
use switchboard.Dialog.Build.{OutRequest, Outcome, built, refused, panics, build_bye}

-- What is handed over to be sent over SIP: an answer to the request at hand, one to the dialog's
-- INVITE, a request, or what the sipgo session sends itself. Where the handlers of BYE and CANCEL
-- fail to send an answer they log the error and go on, so that only the attempt is recorded.
pub data Sent : Type 0 where
  reply invite_reply : ℕ → Sent
  request : OutRequest → Sent
  session_bye session_answer session_ok : Sent

pub record Manager : Type 0 where
  pub dialogs : TtlStore Str ℕ
  pub heap : ℕ → Dialog
  pub next : ℕ
  -- Whether `onTerminated` is set, and the dialogs that it was called with.
  pub has_callback : Bool
  pub notified : List ℕ
  pub sent : List Sent

pub data Err : Type 0 where
  missing_call_id dialog_not_found not_sent no_session : Err
  unexpected_state : CallState → Err

pub data Result {ℓ} (A : Type ℓ) : Type ℓ where
  ok : A → Result A
  err : Err → Result A
  crashed : Result A

-- ActiveDialogTTL and TerminatedDialogTTL, in nanoseconds
abbrev pub active_dialog_ttl : ℕ
active_dialog_ttl = 14400000000000

abbrev pub terminated_dialog_ttl : ℕ
terminated_dialog_ttl = 32000000000

abbrev pub change : ℕ → (Dialog → Dialog) → Manager → Manager
change h f m = record m { heap = λ i. if h == i then f (m.heap h) else m.heap i }

abbrev pub emit : Sent → Manager → Manager
emit x m = record m { sent = x ∷ m.sent }

-- A new object and its entry.
abbrev pub store_new : ℕ → Str → Dialog → Manager → Manager × Result ℕ
store_new now id d m = (
  record m {
    dialogs = TtlStore.set now id m.next active_dialog_ttl m.dialogs;
    heap = λ i. if m.next == i then d else m.heap i;
    next = m.next + 1;
  },
  ok m.next,
)

abbrev pub store_unless : ℕ → Str → Dialog → Option ℕ → Manager → Manager × Result ℕ
store_unless now id d none m = store_new now id d m
store_unless now id d (some h) m =
    if not ((m.heap h).state == terminated) then (m, ok h) else store_new now id d m

-- `CreateFromInvite`
unfoldable pub create_from_invite : ℕ → Request → Manager → Manager × Result ℕ
create_from_invite now req m =
    if string_of req.call_id == []
    then (m, err missing_call_id)
    else store_unless now (string_of req.call_id) (new_dialog now req)
        (TtlStore.get now (string_of req.call_id) m.dialogs) m

-- `RegisterOutbound`
unfoldable pub register_outbound :
    (Uri → Str) → ℕ → Request → Response → Manager → Manager × Result ℕ
register_outbound print now req resp m =
    if string_of req.call_id == []
    then (m, err missing_call_id)
    else store_unless now (string_of req.call_id) (new_outbound_dialog print now req resp)
        (TtlStore.get now (string_of req.call_id) m.dialogs) m

-- `TransitionTo` on the object; a refusal is logged.
abbrev pub move : ℕ → ℕ → CallState → Manager → Manager
move now h new_state m = change h (λ d. (transition_to now new_state d).0) m

-- `SendTrying`; the first argument is whether `Respond` succeeds.
unfoldable pub send_trying : Bool → ℕ → ℕ → Manager → Manager × Result (Unit {0})
send_trying false now h m = (m, err not_sent)
send_trying true now h m = (move now h early (emit (invite_reply 100) m), ok tt)

-- `SendProgress`
unfoldable pub send_progress : Bool → Manager → Manager × Result (Unit {0})
send_progress false m = (m, err not_sent)
send_progress true m = (emit (invite_reply 183) m, ok tt)

-- What the sipgo session gives `SendOK`: none made, the answer not sent, or the answer it sent.
pub data Answering : Type 0 where
  no_dialog_session respond_failed : Answering
  responded : Response → Answering

-- `SendOK`
unfoldable pub send_ok : Answering → ℕ → ℕ → Manager → Manager × Result (Unit {0})
send_ok no_dialog_session now h m = (m, err no_session)
send_ok respond_failed now h m = (change h set_session m, err not_sent)
send_ok (responded resp) now h m = (
  move now h waiting_ack
      (change h (λ d. set_invite_response resp (set_session d)) (emit session_ok m)),
  ok tt,
)

-- `terminate`
unfoldable pub end_dialog : ℕ → ℕ → TerminateReason → Manager → Manager
end_dialog now h reason m =
    let m' = move now h terminated (change h (λ d. record d { terminate_reason = reason }) m) in
    record m' {
      notified = if m.has_callback then h ∷ m.notified else m.notified;
      dialogs = TtlStore.set now (m.heap h).call_id h terminated_dialog_ttl m.dialogs;
    }

-- `d.Cancel()` and `terminate`
abbrev pub cancel_and_end : ℕ → ℕ → TerminateReason → Manager → Manager
cancel_and_end now h reason m = end_dialog now h reason (change h cancel m)

abbrev pub confirm_at : ℕ → Option ℕ → Manager → Manager × Result (Unit {0})
confirm_at now none m = (m, err dialog_not_found)
confirm_at now (some h) m =
    let state = (m.heap h).state in
    if not (state == waiting_ack)
    then (m, if state == confirmed then ok tt else err (unexpected_state state))
    else (move now h confirmed m, ok tt)

-- `ConfirmWithACK`; an error of the session's `ReadAck` is logged.
unfoldable pub confirm_with_ack : ℕ → Option Str → Manager → Manager × Result (Unit {0})
confirm_with_ack now id m = confirm_at now (TtlStore.get now (string_of id) m.dialogs) m

abbrev pub bye_at : ℕ → Option ℕ → Manager → Manager × Result (Unit {0})
bye_at now none m = (emit (reply 481) m, err dialog_not_found)
bye_at now (some h) m = (
  cancel_and_end now h remote_bye
      (emit (if (m.heap h).session then session_answer else reply 200) m),
  ok tt,
)

-- `HandleIncomingBYE`; an error of `ReadBye` or `Respond` is logged.
unfoldable pub handle_incoming_bye : ℕ → Option Str → Manager → Manager × Result (Unit {0})
handle_incoming_bye now id m = bye_at now (TtlStore.get now (string_of id) m.dialogs) m

-- The 487 for the INVITE, where the dialog has its transaction: an outbound one has none.
abbrev pub with_487 : DialogDirection → List Sent → List Sent
with_487 inbound sent = invite_reply 487 ∷ sent
with_487 outbound sent = sent

abbrev pub cancel_at : ℕ → Option ℕ → Manager → Manager × Result (Unit {0})
cancel_at now none m = (emit (reply 481) m, err dialog_not_found)
cancel_at now (some h) m =
    let state = (m.heap h).state in
    if not (state == early) && not (state == waiting_ack) then (emit (reply 481) m, ok tt) else (
      cancel_and_end now h cancelled
          (record m { sent = with_487 (m.heap h).direction (reply 200 ∷ m.sent) }),
      ok tt,
    )

-- `HandleIncomingCANCEL`
unfoldable pub handle_incoming_cancel : ℕ → Option Str → Manager → Manager × Result (Unit {0})
handle_incoming_cancel now id m = cancel_at now (TtlStore.get now (string_of id) m.dialogs) m

-- The contact that `sendBYE` gives, `local` its default.
abbrev pub local_contact : Uri → Option Request → Uri
local_contact local none = local
local_contact local (some req) = elim req.contact [
  | some u ↦ u
  | none ↦ elim req.from [ some a ↦ a.address | none ↦ local ]
]

abbrev pub bye_sent : ℕ → Dialog × Outcome OutRequest → Manager → Manager × Bool
bye_sent h (d, built r) m = (emit (request r) (change h (λ x. d) m), true)
bye_sent h (d, refused e) m = (change h (λ x. d) m, true)
bye_sent h (d, panics) m = (change h (λ x. d) m, false)

-- `sendBYE`: whether it returns (an error of it is logged).
abbrev pub send_bye : (Str → Option Uri) → Uri → ℕ → Manager → Manager × Bool
send_bye parse local h m =
    let d = m.heap h in
    if d.session && not (is_outbound d.direction)
    then (emit session_bye m, true)
    else bye_sent h (build_bye parse (local_contact local d.invite_request) d) m

abbrev pub then_end : ℕ → ℕ → TerminateReason → Manager × Bool → Manager × Result (Unit {0})
then_end now h reason (m, false) = (m, crashed)
then_end now h reason (m, true) = (cancel_and_end now h reason m, ok tt)

abbrev pub is_local_bye : TerminateReason → Bool
is_local_bye local_bye = true
is_local_bye _ = false

-- The BYE that `Terminate` sends for a confirmed dialog that this side ends.
abbrev pub bye_first : (Str → Option Uri) → Uri → ℕ → TerminateReason → Manager → Manager × Bool
bye_first parse local h reason m =
    if (m.heap h).state == confirmed && is_local_bye reason
    then send_bye parse local h m
    else (m, true)

abbrev pub terminate_at :
    (Str → Option Uri)
    → Uri
    → ℕ
    → Option ℕ
    → TerminateReason
    → Manager
    → Manager × Result (Unit {0})
terminate_at parse local now none reason m = (m, err dialog_not_found)
terminate_at parse local now (some h) reason m =
    let state = (m.heap h).state in
    if state == terminated
    then (m, ok tt)
    else then_end now h reason (bye_first parse local h reason m)

-- `Terminate`
unfoldable pub terminate :
    (Str → Option Uri) → Uri → ℕ → Str → TerminateReason → Manager → Manager × Result (Unit {0})
terminate parse local now id reason m =
    terminate_at parse local now (TtlStore.get now id m.dialogs) reason m

-- The timer branch of `watchACKTimeout`; the other is taken once the context is cancelled.
unfoldable pub watch_ack_timeout : ℕ → ℕ → Manager → Manager
watch_ack_timeout now h m =
    if (m.heap h).is_cancelled
    then m
    else if (m.heap h).state == waiting_ack
    then cancel_and_end now h timed_out m
    else m

-- The sweep of the dialogs' TTL store.
unfoldable pub sweep : ℕ → Manager → Manager
sweep now m = record m { dialogs = (TtlStore.cleanup now m.dialogs).0 }
