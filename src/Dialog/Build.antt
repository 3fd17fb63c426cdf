-- ===== src/Dialog/Build.antt =====
-- internal/signaling/dialog/dialog.go: `BuildBYE` and `BuildReINVITE`. The two share the code for the
-- Request-URI and the headers From, To and Call-ID in the source's copies of it; `parse` is
-- sip.ParseUri.
pub mod InDialog
pub mod Guard
pub mod Panics
use switchboard.Prelude.{
  ℕ, ◌+◌, ◌%◌, ◌^◌, Bool, true, false, not, Option, none, some, List, [], ◌∷◌, ◌++◌, if◌then◌else◌,
  ◌==◌, Str, codes, str_eq, nat_eq,
}
use switchboard.GoMap
use switchboard.GoMap.{GoMap}
use switchboard.Dialog.Dialogs.{
  Dialog, Uri, NameAddr, Request, Response, inbound, outbound, DialogDirection, complete_re_invite,
}

pub data Method : Type 0 where
  bye invite : Method

pub data Header : Type 0 where
  route_header : Str → Header
  from_header to_header : NameAddr → Header
  call_id_header : Str → Header
  cseq_header : ℕ → Method → Header
  max_forwards_header : ℕ → Header
  contact_header : Uri → Header
  custom_header : Str → Str → Header

pub record OutRequest : Type 0 where
  pub method : Method
  pub recipient : Uri
  pub headers : List Header
  pub body : List ℕ

pub data Err : Type 0 where
  missing_invite bad_contact_uri in_progress : Err

-- What a builder returns; `panics` is the nil dereference of a missing From.
pub data Outcome {ℓ} (A : Type ℓ) : Type ℓ where
  built : A → Outcome A
  refused : Err → Outcome A
  panics : Outcome A

-- Go's zero value of sip.Uri.
abbrev pub zero_uri : Uri
zero_uri = record { address = []; uri_params = [] }

abbrev pub parsed : Option Uri → Outcome Uri
parsed none = refused bad_contact_uri
parsed (some u) = built u

abbrev pub address_or : Uri → Option NameAddr → Uri
address_or u none = u
address_or u (some a) = a.address

abbrev pub contact_of : Option Response → Option Uri
contact_of none = none
contact_of (some resp) = resp.contact

abbrev pub uri_or : Uri → Option Uri → Uri
uri_or u none = u
uri_or u (some v) = v

abbrev pub sender_of : Option NameAddr → Outcome Uri
sender_of none = panics
sender_of (some a) = built a.address

abbrev pub caller_of : Option Uri → Option NameAddr → Outcome Uri
caller_of none sender = sender_of sender
caller_of (some u) sender = built (record u { uri_params = [] })

-- The Request-URI.
unfoldable pub recipient_of : (Str → Option Uri) → Dialog → Request → Outcome Uri
recipient_of parse d req =
    let callee =
      if not (d.remote_contact_uri == [])
      then parsed (parse d.remote_contact_uri)
      else built (uri_or (address_or zero_uri req.to) (contact_of d.invite_response)) in
    elim d.direction [ outbound ↦ callee | inbound ↦ caller_of req.contact req.from ]

-- The To header of an outbound dialog: its parameters are the remote tag alone.
abbrev pub tagged : Str → NameAddr → NameAddr
tagged tag a = record a { params = if tag == [] then [] else (codes "tag", tag) ∷ [] }

abbrev pub tagged_as : Str → Option NameAddr → Option NameAddr
tagged_as tag none = none
tagged_as tag (some a) = some (tagged tag a)

abbrev pub route_headers : List Str → List Header
route_headers [] = []
route_headers (r ∷ rs) = route_header r ∷ route_headers rs

abbrev pub from_headers : Option NameAddr → List Header
from_headers none = []
from_headers (some a) = from_header a ∷ []

abbrev pub to_headers : Option NameAddr → List Header
to_headers none = []
to_headers (some a) = to_header a ∷ []

abbrev pub call_id_headers : Option Str → List Header
call_id_headers none = []
call_id_headers (some id) = call_id_header id ∷ []

abbrev pub to_of : Option Response → Option NameAddr
to_of none = none
to_of (some resp) = resp.to

-- From and To, swapped for an inbound dialog.
abbrev pub parties_by : DialogDirection → Dialog → Request → List Header
parties_by outbound d req = from_headers req.from ++ to_headers (tagged_as d.remote_tag req.to)
parties_by inbound d req = from_headers (to_of d.invite_response) ++ to_headers req.from

unfoldable pub parties : Dialog → Request → List Header
parties d req = parties_by d.direction d req

-- `d.localCSeq.Add(1)`
abbrev pub next_cseq : Dialog → ℕ
next_cseq d = (d.local_cseq + 1) % 2 ^ 32

unfoldable pub request_with : Method → Uri → Uri → Dialog → Request → OutRequest
request_with method recipient local_contact d req = record {
  method = method;
  recipient = recipient;
  headers =
      route_headers req.routes
      ++ (parties d req
          ++ (call_id_headers req.call_id
              ++ (cseq_header (next_cseq d) method
                  ∷ max_forwards_header 70
                  ∷ contact_header local_contact
                  ∷ [])));
  body = [];
}

abbrev pub bye_to : Uri → Dialog → Request → Outcome Uri → Dialog × Outcome OutRequest
bye_to local_contact d req (refused e) = (d, refused e)
bye_to local_contact d req panics = (d, panics)
bye_to local_contact d req (built recipient) =
    (record d { local_cseq = next_cseq d }, built (request_with bye recipient local_contact d req))

abbrev pub bye_for :
    (Str → Option Uri) → Uri → Dialog → Option Request → Dialog × Outcome OutRequest
bye_for parse local_contact d none = (d, refused missing_invite)
bye_for parse local_contact d (some req) = bye_to local_contact d req (recipient_of parse d req)

-- `BuildBYE`
unfoldable pub build_bye : (Str → Option Uri) → Uri → Dialog → Dialog × Outcome OutRequest
build_bye parse local_contact d = bye_for parse local_contact d d.invite_request

-- `ReINVITEOptions`; `HoldType` is read by no builder.
pub record ReInviteOptions : Type 0 where
  pub sdp : List ℕ
  pub headers : List (Str × Str)

abbrev pub custom_headers : List (Str × Str) → List Header
custom_headers [] = []
custom_headers ((name, value) ∷ hs) = custom_header name value ∷ custom_headers hs

abbrev pub content_type : List ℕ → List Header
content_type [] = []
content_type (b ∷ bs) = custom_header (codes "Content-Type") (codes "application/sdp") ∷ []

abbrev pub with_options : ReInviteOptions → OutRequest → OutRequest
with_options opts r = record r {
  headers = r.headers ++ (custom_headers opts.headers ++ content_type opts.sdp);
  body = opts.sdp;
}

-- The rest of `BuildReINVITE`, on a dialog whose flag it has set.
abbrev pub re_invite_to :
    Uri → ReInviteOptions → Dialog → Request → Outcome Uri → Dialog × Outcome OutRequest
re_invite_to local_contact opts d req (refused e) = (complete_re_invite d, refused e)
re_invite_to local_contact opts d req panics = (d, panics)
re_invite_to local_contact opts d req (built recipient) = (
  record d { local_cseq = next_cseq d },
  built (with_options opts (request_with invite recipient local_contact d req)),
)

-- By the compare-and-swap of the flag.
abbrev pub re_invite_if :
    (Str → Option Uri)
    → Uri
    → ReInviteOptions
    → Dialog
    → Request
    → Bool
    → Dialog × Outcome OutRequest
re_invite_if parse local_contact opts d req true = (d, refused in_progress)
re_invite_if parse local_contact opts d req false =
    re_invite_to local_contact opts (record d { re_invite_in_progress = true }) req
      (recipient_of parse d req)

abbrev pub re_invite_for :
    (Str → Option Uri)
    → Uri
    → ReInviteOptions
    → Dialog
    → Option Request
    → Dialog × Outcome OutRequest
re_invite_for parse local_contact opts d none = (d, refused missing_invite)
re_invite_for parse local_contact opts d (some req) =
    re_invite_if parse local_contact opts d req d.re_invite_in_progress

-- `BuildReINVITE`
unfoldable pub build_re_invite :
    (Str → Option Uri) → Uri → ReInviteOptions → Dialog → Dialog × Outcome OutRequest
build_re_invite parse local_contact opts d =
    re_invite_for parse local_contact opts d d.invite_request
