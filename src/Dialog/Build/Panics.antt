-- ===== src/Dialog/Build/Panics.antt =====
-- Where `BuildBYE` and `BuildReINVITE` panic.
use switchboard.Prelude.{
  ◌≡◌, refl, ◌≢◌, Bool, true, false, not, Option, none, some, [], arith, if◌then◌else◌, ◌==◌, Str,
  str_eq, nat_eq,
}
use switchboard.Dialog.Dialogs.{Dialog, DialogDirection, Uri, NameAddr, Request, inbound, outbound}
use switchboard.Dialog.Build.{
  Outcome, zero_uri, parsed, address_or, contact_of, uri_or, caller_of, recipient_of, bye_to,
  bye_for, build_bye, ReInviteOptions, re_invite_to, re_invite_if, re_invite_for, build_re_invite,
  built, refused, panics,
}

-- Where a builder panics: an inbound dialog whose INVITE has neither a Contact nor a From header.
abbrev pub LacksFrom : Dialog → Type 0
LacksFrom d =
    (req : Request) × (d.invite_request ≡ some req)
    × (d.direction ≡ inbound)
    × (req.contact ≡ none)
    × (req.from ≡ none)

module _ (parse : Str → Option Uri) (d : Dialog) (req : Request) where
  parsed_fine : (o : Option Uri) → parsed o ≢ panics
  parsed_fine none e = ground (arith, e)
  parsed_fine (some u) e = ground (arith, e)

  callee_fine :
      (b : Bool) (u : Uri) → (if b then parsed (parse d.remote_contact_uri) else built u) ≢ panics
  callee_fine true u e = parsed_fine (parse d.remote_contact_uri) e
  callee_fine false u e = ground (arith, e)

  caller_panics :
      (contact : Option Uri) (sender : Option NameAddr)
      → caller_of contact sender ≡ panics
      → (contact ≡ none) × (sender ≡ none)
  caller_panics none none e = (refl, refl)
  caller_panics none (some a) e = absurd (ground (arith, e))
  caller_panics (some u) sender e = absurd (ground (arith, e))

  recipient_panics : d.invite_request ≡ some req → recipient_of parse d req ≡ panics → LacksFrom d
  unfolding recipient_of
  recipient_panics i e = by d.direction refl e
    where
      by :
          (x : DialogDirection)
          → d.direction ≡ x
          → recipient_of parse (record d { direction = x }) req ≡ panics
          → LacksFrom d
      by outbound s h = absurd (
          callee_fine (not (d.remote_contact_uri == []))
            (uri_or (address_or zero_uri req.to) (contact_of d.invite_response)) h)
      by inbound s h = let (c, f) = caller_panics req.contact req.from h in (req, i, s, c, f)

pub build_bye-LacksFrom :
    (parse : Str → Option Uri) (c : Uri) (d : Dialog)
    → (build_bye parse c d).1 ≡ panics
    → LacksFrom d
unfolding build_bye
build_bye-LacksFrom parse c d h = from_invite d.invite_request refl h
  where
    at :
        (req : Request) (o : Outcome Uri)
        → recipient_of parse d req ≡ o
        → d.invite_request ≡ some req
        → (bye_to c d req o).1 ≡ panics
        → LacksFrom d
    at req (built u) r i e = absurd (ground (arith, e))
    at req (refused x) r i e = absurd (ground (arith, e))
    at req panics r i e = recipient_panics parse d req i r

    from_invite :
        (o : Option Request) → d.invite_request ≡ o → (bye_for parse c d o).1 ≡ panics → LacksFrom d
    from_invite none i e = absurd (ground (arith, e))
    from_invite (some req) i e = at req (recipient_of parse d req) refl i e

pub re_invite-LacksFrom :
    (parse : Str → Option Uri) (c : Uri) (opts : ReInviteOptions) (d : Dialog)
    → (build_re_invite parse c opts d).1 ≡ panics
    → LacksFrom d
unfolding build_re_invite recipient_of
re_invite-LacksFrom parse c opts d h = from_invite d.invite_request refl h
  where
    flagged : Dialog
    flagged = record d { re_invite_in_progress = true }

    at :
        (req : Request) (o : Outcome Uri)
        → recipient_of parse flagged req ≡ o
        → d.invite_request ≡ some req
        → (re_invite_to c opts flagged req o).1 ≡ panics
        → LacksFrom d
    at req (built u) r i e = absurd (ground (arith, e))
    at req (refused x) r i e = absurd (ground (arith, e))
    at req panics r i e = recipient_panics parse flagged req i r

    from_flag :
        (req : Request) (b : Bool)
        → d.invite_request ≡ some req
        → (re_invite_if parse c opts d req b).1 ≡ panics
        → LacksFrom d
    from_flag req true i e = absurd (ground (arith, e))
    from_flag req false i e = at req (recipient_of parse flagged req) refl i e

    from_invite :
        (o : Option Request)
        → d.invite_request ≡ o
        → (re_invite_for parse c opts d o).1 ≡ panics
        → LacksFrom d
    from_invite none i e = absurd (ground (arith, e))
    from_invite (some req) i e = from_flag req d.re_invite_in_progress i e
