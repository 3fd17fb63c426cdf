-- ===== src/Dialog/Tests.antt =====
-- A call from INVITE to BYE, and the theorems on dialogs there.
use switchboard.Prelude.{
  ℕ, ◌+◌, ◌≤◌, ◌≡◌, refl, ◌⊎◌, true, Option, none, some, [], ◌∷◌, arith, if◌then◌else◌, Str, codes,
  str_eq, nat_eq,
}
use switchboard.GoMap
use switchboard.TtlStore
use switchboard.TtlStore.{TtlStore}
use switchboard.Dialog.State.{
  waiting_ack, early, confirmed, local_bye, remote_bye, failed, state_eq, terminated, timed_out,
}
use switchboard.Dialog.Dialogs.{
  Dialog, Uri, NameAddr, Request, Response, new_dialog, new_outbound_dialog,
}
use switchboard.Dialog.Build.{build_re_invite}
use switchboard.Dialog.Build.InDialog.{outbound_bye, cseq_in}
use switchboard.Dialog.Build.InDialog
use switchboard.Dialog.Build.Guard.{Guarded, build_re_invite-Guarded, byes}
use switchboard.Dialog.Manager.{
  Manager, create_from_invite, handle_incoming_bye, terminate, ok, err, dialog_not_found, reply,
  session_answer, responded, send_trying, send_ok, confirm_with_ack, unexpected_state,
  terminated_dialog_ttl, watch_ack_timeout,
}
use switchboard.Dialog.Manager.Steps.{step, start, then_step, creates, byes}
use switchboard.Dialog.Manager.Invariant.{IsManager, Keeps}
use switchboard.Dialog.Manager.Reach.{Reach-Keeps}
use switchboard.Dialog.Manager.Handlers.{Ended, handle_incoming_bye_lem}
use switchboard.Dialog.Manager.CallFlow.{call_flow, created, tried, answered, confirmed_by_ack}
use switchboard.Dialog.Manager.ReInvite.{
  Releases, send_re_invite, send_re_invite-Releases, response,
}
use switchboard.Dialog.Manager.Ending.{Twice, terminate-Twice}

abbrev uri : Str → Uri
uri s = record { address = s; uri_params = [] }

abbrev party : Str → Str → NameAddr
party s tag = record { display_name = []; address = uri s; params = (codes "tag", tag) ∷ [] }

abbrev alice : NameAddr
alice = party (codes "sip:alice@a") (codes "ta")

abbrev bob : NameAddr
bob = party (codes "sip:bob@b") (codes "tb")

abbrev call_1 : Str
call_1 = codes "c1"

abbrev req : Request
req = record {
  call_id = some call_1;
  from = some alice;
  to = some bob;
  contact = some (uri (codes "sip:alice@10.0.0.1"));
  cseq = some 7;
  routes = codes "<sip:proxy>" ∷ [];
}

abbrev resp : Response
resp = record { to = some bob; contact = some (uri (codes "sip:bob@10.0.0.2")) }

-- A printer and parser of URIs without parameters.
abbrev print : Uri → Str
print u = 0 ∷ u.address

abbrev parse : Str → Option Uri
parse [] = none
parse (c ∷ s) = some (uri s)

abbrev local : Uri
local = uri (codes "sip:switchboard@localhost")

abbrev no_calls : Manager
no_calls = record {
  dialogs = TtlStore.new;
  heap = λ i. new_dialog 0 req;
  next = 0;
  has_callback = true;
  notified = [];
  sent = [];
}

no_calls-IsManager : IsManager no_calls
unfolding GoMap.get
no_calls-IsManager = record {
  held = λ id e g. absurd (ground arith);
  stopped = λ h l. absurd (omega (arith, l));
  once = tt;
}

abbrev one_call : Manager
one_call = (create_from_invite 5 req no_calls).0

abbrev inbound_call : Dialog
inbound_call = InDialog.answered 5 req resp

build_re_invite-Guarded_example :
    Guarded parse local
      (record { sdp = []; headers = [] })
      inbound_call
      (build_re_invite parse local (record { sdp = 1 ∷ []; headers = [] }) inbound_call)
build_re_invite-Guarded_example =
    build_re_invite-Guarded parse local (record { sdp = 1 ∷ []; headers = [] })
      (record { sdp = []; headers = [] }) inbound_call

abbrev bob_contact : Uri
bob_contact = uri (codes "sip:bob@10.0.0.2")

abbrev outbound_call : Dialog
outbound_call = new_outbound_dialog print 5 req resp

Reach-Keeps_example : Keeps no_calls (
    step print parse local 9 (byes (some call_1)) (step print parse local 5 (creates req) no_calls))
Reach-Keeps_example =
    Reach-Keeps print parse local no_calls
      (step print parse local 9 (byes (some call_1))
        (step print parse local 5 (creates req) no_calls))
      no_calls-IsManager (then_step 9 (byes (some call_1)) (then_step 5 (creates req) start tt) tt)

-- The Call-ID's entry in the manager that has the call.
has_call : TtlStore.get 9 call_1 one_call.dialogs ≡ some 0
unfolding create_from_invite TtlStore.get TtlStore.set GoMap.get GoMap.put
has_call = refl

handle_incoming_bye_lem_example :
    ((TtlStore.get 9 call_1 one_call.dialogs ≡ none)
      × (handle_incoming_bye 9 (some call_1) one_call
          ≡ (record one_call { sent = reply 481 ∷ one_call.sent }, err dialog_not_found)))
    ⊎ ((h : ℕ) × (TtlStore.get 9 call_1 one_call.dialogs ≡ some h)
        × ((handle_incoming_bye 9 (some call_1) one_call).1 ≡ ok tt)
        × Ended 9 h remote_bye
            (record one_call {
              sent =
                  (if (one_call.heap h).session then session_answer else reply 200) ∷ one_call.sent;
            })
            (handle_incoming_bye 9 (some call_1) one_call).0)
handle_incoming_bye_lem_example = handle_incoming_bye_lem 9 (some call_1) one_call

-- The call once it is tried and answered.
abbrev answered_call : Manager
answered_call = answered 5 6 7 req resp no_calls

terminate-Twice_example :
    Twice parse local 9 20 0 call_1 local_bye failed one_call
      (terminate parse local 9 call_1 local_bye one_call)
unfolding step create_from_invite new_dialog TtlStore.get TtlStore.set GoMap.get GoMap.put
terminate-Twice_example =
    terminate-Twice parse local 9 20 0 call_1 local_bye failed one_call
      (Reach-Keeps print parse local no_calls one_call no_calls-IsManager
        (then_step 5 (creates req) start tt)).0
      refl (λ e. ground (arith, e)) (omega arith)

call_flow_example :
    ((create_from_invite 5 req no_calls).1 ≡ ok 0)
    × ((send_trying true 6 0 (created 5 6 7 req resp no_calls)).1 ≡ ok tt)
    × (((tried 5 6 7 req resp no_calls).heap 0).state ≡ early)
    × (confirm_with_ack 8 (some call_1) (tried 5 6 7 req resp no_calls)
        ≡ (tried 5 6 7 req resp no_calls, err (unexpected_state early)))
    × ((send_ok (responded resp) 7 0 (tried 5 6 7 req resp no_calls)).1 ≡ ok tt)
    × ((answered_call.heap 0).state ≡ waiting_ack)
    × ((confirm_with_ack 8 (some call_1) answered_call).1 ≡ ok tt)
    × (((confirmed_by_ack 5 6 7 req resp no_calls 8 call_1).heap 0).state ≡ confirmed)
    × (confirm_with_ack 8 (some call_1) (confirmed_by_ack 5 6 7 req resp no_calls 8 call_1)
        ≡ (confirmed_by_ack 5 6 7 req resp no_calls 8 call_1, ok tt))
    × (watch_ack_timeout 9 0 (confirmed_by_ack 5 6 7 req resp no_calls 8 call_1)
        ≡ confirmed_by_ack 5 6 7 req resp no_calls 8 call_1)
    × (((watch_ack_timeout 9 0 answered_call).heap 0).state ≡ terminated)
    × (((watch_ack_timeout 9 0 answered_call).heap 0).terminate_reason ≡ timed_out)
    × ((t : ℕ)
        → t ≤ 9 + terminated_dialog_ttl
        → confirm_with_ack t (some call_1) (watch_ack_timeout 9 0 answered_call)
          ≡ (watch_ack_timeout 9 0 answered_call, err (unexpected_state terminated)))
unfolding TtlStore.get GoMap.get
call_flow_example =
    call_flow 5 6 7 8 9 call_1 req resp no_calls refl (λ e. ground (arith, e)) refl (omega arith)

-- A confirmed call of this side.
send_re_invite-Releases_example : Releases outbound_call true (
    send_re_invite parse local
      (record { sdp = []; headers = [] })
      true
      (response 100 [] [] ∷ response 488 [] [] ∷ [])
      outbound_call)
send_re_invite-Releases_example =
    send_re_invite-Releases parse local (record { sdp = []; headers = [] }) true
      (response 100 [] [] ∷ response 488 [] [] ∷ []) outbound_call
