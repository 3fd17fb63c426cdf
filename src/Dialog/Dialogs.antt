-- ===== src/Dialog/Dialogs.antt =====
-- internal/signaling/dialog/dialog.go: a dialog, its constructors and setters.
use switchboard.Prelude.{
  ℕ, Bool, true, false, Option, none, some, List, [], if◌then◌else◌, ◌==◌, Str, codes, str_eq,
  nat_eq,
}
use switchboard.GoMap
use switchboard.GoMap.{GoMap}
use switchboard.Dialog.State.{
  CallState, TerminateReason, initial, confirmed, terminated, can_transition_to, state_eq,
  local_bye,
}

pub data DialogDirection : Type 0 where
  inbound outbound : DialogDirection

abbrev pub is_outbound : DialogDirection → Bool
is_outbound inbound = false
is_outbound outbound = true

-- sip.Uri: its text without the parameters, and these.
pub record Uri : Type 0 where
  pub address : Str
  pub uri_params : GoMap Str Str

-- sip.FromHeader and sip.ToHeader
pub record NameAddr : Type 0 where
  pub display_name : Str
  pub address : Uri
  pub params : GoMap Str Str

-- The parts of an INVITE that the code reads.
pub record Request : Type 0 where
  pub call_id : Option Str
  pub from : Option NameAddr
  pub to : Option NameAddr
  pub contact : Option Uri
  pub cseq : Option ℕ
  pub routes : List Str

-- The parts of a response that the code reads.
pub record Response : Type 0 where
  pub to : Option NameAddr
  pub contact : Option Uri

pub record Dialog : Type 0 where
  pub call_id : Str
  pub local_tag : Str
  pub remote_tag : Str
  pub direction : DialogDirection
  pub state : CallState
  pub created_at : ℕ
  pub state_changed_at : ℕ
  -- Whether `Session` (a sipgo.DialogServerSession) is set.
  pub session : Bool
  pub invite_request : Option Request
  pub invite_response : Option Response
  pub session_id : Str
  pub remote_addr : Str
  pub remote_port : ℕ
  pub codec : Str
  pub remote_contact_uri : Str
  pub local_cseq : ℕ  -- atomic.Uint32
  pub re_invite_in_progress : Bool
  -- Whether the context is cancelled.
  pub is_cancelled : Bool
  pub terminate_reason : TerminateReason

abbrev pub string_of : Option Str → Str
string_of none = []
string_of (some s) = s

-- The "tag" parameter of a From or To header, where it has one.
abbrev pub tag_of : Option NameAddr → Option Str
tag_of none = none
tag_of (some a) = GoMap.get (codes "tag") a.params

abbrev pub cseq_or : ℕ → Option ℕ → ℕ
cseq_or n none = n
cseq_or n (some seq_no) = seq_no

-- `contact.Address.String()` of the answer's Contact, by the library's printer.
abbrev contact_string : (Uri → Str) → Option Uri → Str
contact_string print none = []
contact_string print (some u) = print u

-- `NewDialog`
unfoldable pub new_dialog : ℕ → Request → Dialog
new_dialog now req = record {
  call_id = string_of req.call_id;
  local_tag = [];
  remote_tag = string_of (tag_of req.from);
  direction = inbound;
  state = initial;
  created_at = now;
  state_changed_at = now;
  session = false;
  invite_request = some req;
  invite_response = none;
  session_id = [];
  remote_addr = [];
  remote_port = 0;
  codec = [];
  remote_contact_uri = [];
  local_cseq = cseq_or 0 req.cseq;
  re_invite_in_progress = false;
  is_cancelled = false;
  terminate_reason = local_bye;
}

-- `NewOutboundDialog`
unfoldable pub new_outbound_dialog : (Uri → Str) → ℕ → Request → Response → Dialog
new_outbound_dialog print now invite resp = record {
  call_id = string_of invite.call_id;
  local_tag = string_of (tag_of invite.from);
  remote_tag = string_of (tag_of resp.to);
  direction = outbound;
  state = confirmed;
  created_at = now;
  state_changed_at = now;
  session = false;
  invite_request = some invite;
  invite_response = some resp;
  session_id = [];
  remote_addr = [];
  remote_port = 0;
  codec = [];
  remote_contact_uri = contact_string print resp.contact;
  local_cseq = cseq_or 1 invite.cseq;
  re_invite_in_progress = false;
  is_cancelled = false;
  terminate_reason = local_bye;
}

-- `TransitionTo`: the dialog after it, and whether it was allowed.
unfoldable pub transition_to : ℕ → CallState → Dialog → Dialog × Bool
transition_to now new_state d =
    if can_transition_to d.state new_state
    then (record d { state = new_state; state_changed_at = now }, true)
    else (d, false)

abbrev pub tag_or : Str → Option Str → Str
tag_or tag none = tag
tag_or tag (some t) = t

-- `SetInviteResponse`
abbrev pub set_invite_response : Response → Dialog → Dialog
set_invite_response resp d = record d {
  invite_response = some resp;
  local_tag = tag_or d.local_tag (tag_of resp.to);
}

-- `SetSession`
abbrev pub set_session : Dialog → Dialog
set_session d = record d { session = true }

-- `SetMediaEndpoint`
abbrev pub set_media_endpoint : Str → ℕ → Str → Dialog → Dialog
set_media_endpoint addr port codec d = record d {
  remote_addr = addr;
  remote_port = port;
  codec = codec;
}

-- `SetSessionID`
abbrev pub set_session_id : Str → Dialog → Dialog
set_session_id session_id d = record d { session_id = session_id }

-- `Cancel`
abbrev pub cancel : Dialog → Dialog
cancel d = record d { is_cancelled = true }

-- `IsTerminated`
abbrev pub is_terminated : Dialog → Bool
is_terminated d = d.state == terminated

-- `CompleteReINVITE`
abbrev pub complete_re_invite : Dialog → Dialog
complete_re_invite d = record d { re_invite_in_progress = false }
