-- ===== src/Dialog/Build/InDialog.antt =====
-- The requests inside a dialog: their CSeqs and their parties.
use switchboard.Prelude.{
  ℕ, ◌≡◌, refl, ◌∙◌, ◌≢◌, Option, none, some, List, [], ◌∷◌, ◌++◌, arith, eq_iff, Str, str_eq,
  nat_eq,
}
use switchboard.GoMap
use switchboard.Dialog.Dialogs.{
  Dialog, Uri, NameAddr, Request, Response, string_of, tag_of, new_dialog, set_invite_response,
  new_outbound_dialog,
}
use switchboard.Dialog.Build.{
  OutRequest, Header, build_bye, built, recipient_of, route_headers, parties, next_cseq,
  request_with, bye, call_id_headers, Method, from_headers, to_headers, tagged, from_header,
  to_header, call_id_header, cseq_header, max_forwards_header, contact_header,
}

-- The CSeq of a built request.
abbrev pub cseq_in : List Header → Option ℕ
cseq_in [] = none
cseq_in (cseq_header n m ∷ hs) = some n
cseq_in (h ∷ hs) = cseq_in hs

abbrev pub call_id_in : List Header → Option Str
call_id_in [] = none
call_id_in (call_id_header id ∷ hs) = some id
call_id_in (h ∷ hs) = call_id_in hs

-- The tag of the From header, "" where it has none.
abbrev pub from_tag : List Header → Str
from_tag [] = []
from_tag (from_header a ∷ hs) = string_of (tag_of (some a))
from_tag (h ∷ hs) = from_tag hs

abbrev pub to_tag : List Header → Str
to_tag [] = []
to_tag (to_header a ∷ hs) = string_of (tag_of (some a))
to_tag (h ∷ hs) = to_tag hs

pub skip_routes :
    (rs : List Str) (hs : List Header)
    → (cseq_in (route_headers rs ++ hs) ≡ cseq_in hs)
      × (call_id_in (route_headers rs ++ hs) ≡ call_id_in hs)
      × (from_tag (route_headers rs ++ hs) ≡ from_tag hs)
      × (to_tag (route_headers rs ++ hs) ≡ to_tag hs)
skip_routes [] hs = (refl, refl, refl, refl)
skip_routes (r ∷ rs) hs = skip_routes rs hs

-- What a request inside a dialog says of it: the CSeq, the Call-ID, and the tags of the sender and the
-- receiver.
abbrev pub Says : Dialog → Option Str → List Header → Type 0
Says d id hs =
    (cseq_in hs ≡ some (next_cseq d))
    × (call_id_in hs ≡ id)
    × (from_tag hs ≡ d.local_tag)
    × (to_tag hs ≡ d.remote_tag)

abbrev both : NameAddr → NameAddr → List Header
both caller callee = from_headers (some caller) ++ to_headers (some callee)

module _ (method : Method) (u local_contact : Uri) (d : Dialog) (req : Request)
    (caller callee : NameAddr) (id : Str) where
  request_with-Says :
      parties d req ≡ both caller callee
      → req.call_id ≡ some id
      → string_of (tag_of (some caller)) ≡ d.local_tag
      → string_of (tag_of (some callee)) ≡ d.remote_tag
      → Says d (some id) (request_with method u local_contact d req).headers
  unfolding request_with
  request_with-Says hp hi hl hr =
      let tail : List Header =
        cseq_header (next_cseq d) method
        ∷ max_forwards_header 70
        ∷ contact_header local_contact
        ∷ [] in
      let k = skip_routes req.routes (both caller callee ++ (call_id_headers (some id) ++ tail)) in
      rw (hp, hi) (k.0, k.1, k.2 ∙ hl, k.3 ∙ hr)

tag-tagged : (tag : Str) (a : NameAddr) → string_of (tag_of (some (tagged tag a))) ≡ tag
unfolding GoMap.get
tag-tagged [] a = refl
tag-tagged (c ∷ tag) a = refl

-- The dialog's answer, as the code keeps it.
abbrev pub answered : ℕ → Request → Response → Dialog
answered now req resp = set_invite_response resp (new_dialog now req)

-- A BYE of the calling side can always be built, goes to the Contact of the 200 OK, and says the same
-- of its dialog, where the URI library's `print` and `parse` are such that the printed Contact is not
-- empty and reads back as it was.
pub outbound_bye :
    (print : Uri → Str) (parse : Str → Option Uri) (local_contact remote : Uri) (now : ℕ)
    (req : Request) (resp : Response) (id : Str) (caller callee : NameAddr)
    → parse (print remote) ≡ some remote
    → print remote ≢ []
    → req.from ≡ some caller
    → req.to ≡ some callee
    → req.call_id ≡ some id
    → resp.contact ≡ some remote
    → let d = new_outbound_dialog print now req resp in
      (r : OutRequest) × (build_bye parse local_contact d
        ≡ (record d { local_cseq = next_cseq d }, built r))
      × (r.recipient ≡ remote)
      × Says d (some id) r.headers
unfolding build_bye new_outbound_dialog recipient_of request_with parties
outbound_bye print parse local_contact remote now req resp id caller callee hp hn hf ht hi hc =
    let d = new_outbound_dialog print now req resp in
    let to_remote : recipient_of parse d req ≡ built remote =
      ground (arith, eq_iff (print remote) []) in
    (
      request_with bye remote local_contact d req,
      rw to_remote refl,
      refl,
      request_with-Says bye remote local_contact d req caller (tagged d.remote_tag callee) id
          (rw (hf, ht) refl) hi (rw hf refl) (tag-tagged d.remote_tag callee),
    )
