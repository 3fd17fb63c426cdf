-- ===== src/Dialog/Build/Guard.antt =====
-- The requests of one dialog in order: the re-INVITE guard and the CSeqs.
use switchboard.Prelude.{
  ℕ, ◌+◌, ◌^◌, ◌<◌, ◌≡◌, refl, sym, ap, ◌∙◌, Bool, true, false, Option, none, some, List, [], ◌∷◌,
  ◌++◌, arith, length, Str, str_eq, nat_eq,
}
use switchboard.Dialog.Dialogs.{
  Dialog, Uri, NameAddr, Request, complete_re_invite, inbound, outbound, DialogDirection,
}
use switchboard.Dialog.Build.{
  OutRequest, Outcome, ReInviteOptions, Header, built, refused, panics, build_bye, build_re_invite,
  in_progress, Method, recipient_of, call_id_headers, parties, next_cseq, request_with, bye_to,
  re_invite_to, tagged_as, from_headers, to_headers, to_of, bye_for, re_invite_if, re_invite_for,
  bye, invite, parties_by, custom_headers, content_type, route_header, from_header, to_header,
  call_id_header, cseq_header, max_forwards_header, contact_header, custom_header,
}
use switchboard.Dialog.Build.InDialog.{cseq_in, skip_routes}

module _ (parse : Str → Option Uri) (c : Uri) where
  build_bye-flag :
      (d : Dialog)
      → ((build_bye parse c d).0.re_invite_in_progress ≡ d.re_invite_in_progress)
        × ((build_bye parse c d).0.invite_request ≡ d.invite_request)
  unfolding build_bye
  build_bye-flag d = from_invite d.invite_request refl
    where
      at :
          (req : Request) (o : Outcome Uri)
          → ((bye_to c d req o).0.re_invite_in_progress ≡ d.re_invite_in_progress)
            × ((bye_to c d req o).0.invite_request ≡ d.invite_request)
      at req (built u) = (refl, refl)
      at req (refused e) = (refl, refl)
      at req panics = (refl, refl)

      from_invite :
          (o : Option Request)
          → d.invite_request ≡ o
          → ((bye_for parse c d o).0.re_invite_in_progress ≡ d.re_invite_in_progress)
            × ((bye_for parse c d o).0.invite_request ≡ d.invite_request)
      from_invite none e = (refl, refl)
      from_invite (some req) e = at req (recipient_of parse d req)

  pending :
      (opts : ReInviteOptions) (d : Dialog) (req : Request)
      → d.re_invite_in_progress ≡ true
      → d.invite_request ≡ some req
      → build_re_invite parse c opts d ≡ (d, refused in_progress)
  unfolding build_re_invite
  pending opts d req h e =
      ap (re_invite_for parse c opts d) e ∙ ap (re_invite_if parse c opts d req) h

  abbrev pub Guarded : ReInviteOptions → Dialog → Dialog × Outcome OutRequest → Type 0
  Guarded opts d (d', built r) =
      (d.re_invite_in_progress ≡ false)
      × (d'.re_invite_in_progress ≡ true)
      × (build_re_invite parse c opts d' ≡ (d', refused in_progress))
      × ((build_re_invite parse c opts (build_bye parse c d').0).1 ≡ refused in_progress)
  Guarded opts d (d', refused e) = d' ≡ d
  Guarded opts d (d', panics) = Unit

  -- A re-INVITE is built only where none is pending; from then on another is refused and changes
  -- nothing, also after a BYE was built; a re-INVITE that is refused, for whatever reason, leaves the
  -- dialog as it was, with none pending where none was.
  pub build_re_invite-Guarded :
      (opts opts' : ReInviteOptions) (d : Dialog) → Guarded opts' d (build_re_invite parse c opts d)
  unfolding build_re_invite
  build_re_invite-Guarded opts opts' d = from_invite d.invite_request refl
    where
      at :
          (req : Request)
          → d.invite_request ≡ some req
          → d.re_invite_in_progress ≡ false
          → (o : Outcome Uri)
          → Guarded opts' d (re_invite_to c opts (record d { re_invite_in_progress = true }) req o)
      at req e h (built u) =
          let d' : Dialog = record d { re_invite_in_progress = true; local_cseq = next_cseq d } in
          let (flag, same) = build_bye-flag d' in
          (
            h,
            refl,
            pending opts' d' req refl e,
            ap (λ x. x.1) (pending opts' (build_bye parse c d').0 req flag (same ∙ e)),
          )
      at req e h (refused x) = ap (λ f. record d { re_invite_in_progress = f }) (sym h)
      at req e h panics = tt

      from_flag :
          (req : Request)
          → d.invite_request ≡ some req
          → (f : Bool) → d.re_invite_in_progress ≡ f
          → Guarded opts' d (re_invite_if parse c opts d req f)
      from_flag req e true h = refl
      from_flag req e false h = at req e h (recipient_of parse d req)

      from_invite :
          (o : Option Request)
          → d.invite_request ≡ o
          → Guarded opts' d (re_invite_for parse c opts d o)
      from_invite none e = refl
      from_invite (some req) e = from_flag req e d.re_invite_in_progress refl

two-cseq :
    (a b : Option NameAddr) (hs : List Header)
    → cseq_in ((from_headers a ++ to_headers b) ++ hs) ≡ cseq_in hs
two-cseq none none hs = refl
two-cseq none (some b) hs = refl
two-cseq (some a) none hs = refl
two-cseq (some a) (some b) hs = refl

parties-cseq :
    (d : Dialog) (req : Request) (hs : List Header) → cseq_in (parties d req ++ hs) ≡ cseq_in hs
unfolding parties
parties-cseq d req hs = by_direction d.direction
  where
    by_direction : (x : DialogDirection) → cseq_in (parties_by x d req ++ hs) ≡ cseq_in hs
    by_direction outbound = two-cseq req.from (tagged_as d.remote_tag req.to) hs
    by_direction inbound = two-cseq (to_of d.invite_response) req.from hs

ids-cseq : (id : Option Str) (hs : List Header) → cseq_in (call_id_headers id ++ hs) ≡ cseq_in hs
ids-cseq none hs = refl
ids-cseq (some id) hs = refl

append-cseq : (hs more : List Header) (n : ℕ) → cseq_in hs ≡ some n → cseq_in (hs ++ more) ≡ some n
append-cseq [] more n h = absurd (ground arith)
append-cseq (cseq_header m x ∷ hs) more n h = h
append-cseq (route_header x ∷ hs) more n h = append-cseq hs more n h
append-cseq (from_header x ∷ hs) more n h = append-cseq hs more n h
append-cseq (to_header x ∷ hs) more n h = append-cseq hs more n h
append-cseq (call_id_header x ∷ hs) more n h = append-cseq hs more n h
append-cseq (max_forwards_header x ∷ hs) more n h = append-cseq hs more n h
append-cseq (contact_header x ∷ hs) more n h = append-cseq hs more n h
append-cseq (custom_header x y ∷ hs) more n h = append-cseq hs more n h

request_with-cseq :
    (method : Method) (u c : Uri) (d : Dialog) (req : Request)
    → cseq_in (request_with method u c d req).headers ≡ some (next_cseq d)
unfolding request_with
request_with-cseq method u c d req =
    let tail : List Header =
      cseq_header (next_cseq d) method ∷ max_forwards_header 70 ∷ contact_header c ∷ [] in
    (skip_routes req.routes (parties d req ++ (call_id_headers req.call_id ++ tail))).0
    ∙ parties-cseq d req (call_id_headers req.call_id ++ tail)
    ∙ ids-cseq req.call_id tail

-- What is asked of a dialog.
pub data Call : Type 0 where
  byes completes : Call
  re_invites : ReInviteOptions → Call

module _ (parse : Str → Option Uri) (local_contact : Uri) where
  abbrev pub call : Call → Dialog → Dialog × Outcome OutRequest
  call byes d = build_bye parse local_contact d
  call (re_invites opts) d = build_re_invite parse local_contact opts d
  call completes d = (complete_re_invite d, refused in_progress)

  abbrev pub and_sent : Outcome OutRequest → List OutRequest → List OutRequest
  and_sent (built r) rs = r ∷ rs
  and_sent o rs = rs

  abbrev Next : Dialog → Dialog × Outcome OutRequest → Type 0
  Next d (d', built r) = (cseq_in r.headers ≡ some (next_cseq d)) × (d'.local_cseq ≡ next_cseq d)
  Next d (d', refused e) = d'.local_cseq ≡ d.local_cseq
  Next d (d', panics) = d'.local_cseq ≡ d.local_cseq

  call-Next : (c : Call) (d : Dialog) → Next d (call c d)
  unfolding build_bye build_re_invite
  call-Next completes d = refl
  call-Next byes d = from_invite d.invite_request
    where
      at : (req : Request) (o : Outcome Uri) → Next d (bye_to local_contact d req o)
      at req (built u) = (request_with-cseq bye u local_contact d req, refl)
      at req (refused e) = refl
      at req panics = refl

      from_invite : (o : Option Request) → Next d (bye_for parse local_contact d o)
      from_invite none = refl
      from_invite (some req) = at req (recipient_of parse d req)
  call-Next (re_invites opts) d = from_invite d.invite_request
    where
      at :
          (req : Request) (o : Outcome Uri)
          → Next d
              (re_invite_to local_contact opts (record d { re_invite_in_progress = true }) req o)
      at req (built u) = (
        append-cseq
            (request_with invite u local_contact (record d { re_invite_in_progress = true })
              req).headers
            (custom_headers opts.headers ++ content_type opts.sdp) (next_cseq d)
            (request_with-cseq invite u local_contact (record d { re_invite_in_progress = true })
              req),
        refl,
      )
      at req (refused e) = refl
      at req panics = refl

      from_flag :
          (req : Request) (f : Bool) → Next d (re_invite_if parse local_contact opts d req f)
      from_flag req true = refl
      from_flag req false = at req (recipient_of parse d req)

      from_invite : (o : Option Request) → Next d (re_invite_for parse local_contact opts d o)
      from_invite none = refl
      from_invite (some req) = from_flag req d.re_invite_in_progress

  -- The requests that the calls build.
  unfoldable pub sent : Dialog → List Call → List OutRequest
  sent d [] = []
  sent d (c ∷ cs) = and_sent (call c d).1 (sent (call c d).0 cs)

  abbrev pub Above : ℕ → List OutRequest → Type 0
  Above n [] = Unit
  Above n (r ∷ rs) = (m : ℕ) × (cseq_in r.headers ≡ some m) × (n < m) × Above m rs

  -- The requests that a dialog builds have CSeqs that go up, from above the INVITE's, whatever calls
  -- build them, as long as the 32-bit counter has room for that many.
  pub sent-Above :
      (d : Dialog) (cs : List Call)
      → d.local_cseq + length cs < 2 ^ 32
      → Above d.local_cseq (sent d cs)
  unfolding sent
  sent-Above d [] h = tt
  sent-Above d (c ∷ cs) h = ground (arith, call-Next c d, sent-Above (call c d).0 cs)
