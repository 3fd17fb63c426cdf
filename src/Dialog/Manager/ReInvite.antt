-- ===== src/Dialog/Manager/ReInvite.antt =====
-- internal/signaling/dialog/manager.go: `SendReINVITE`, on the dialog's object. What the transaction
-- and the context bring is a list of events in their order; a call that is still waiting at its end has
-- not returned.
use switchboard.Prelude.{
  ℕ, ◌≡◌, refl, sym, ap, inl, inr, Bool, true, false, not, ◌&&◌, Option, List, [], ◌∷◌, ltb, leb,
  if◌then◌else◌, Bool-cases, any, ◌==◌, Str, str_eq, nat_eq,
}
use switchboard.Dialog.State.{confirmed, state_eq}
use switchboard.Dialog.Dialogs.{Dialog, Uri, complete_re_invite, is_terminated}
use switchboard.Dialog.Build.{
  Err as BuildErr, OutRequest, Outcome, ReInviteOptions, build_re_invite, built, refused, panics,
}
use switchboard.Dialog.Build.Panics.{re_invite-LacksFrom, LacksFrom}
use switchboard.Dialog.Build.Guard.{Guarded, build_re_invite-Guarded, sent}

pub data Event : Type 0 where
  context_done no_response : Event
  response : ℕ → Str → List ℕ → Event

pub record ReInviteResult : Type 0 where
  pub success : Bool
  pub status_code : ℕ
  pub reason : Str
  pub sdp : List ℕ

pub data Err : Type 0 where
  dialog_terminated not_confirmed not_sent context_error without_response : Err
  not_built : BuildErr → Err

pub data Return : Type 0 where
  returns : ReInviteResult → Return
  fails : Err → Return
  crashes waits : Return

abbrev is_provisional : ℕ → Bool
is_provisional status_code = leb 100 status_code && ltb status_code 200

abbrev is_success : ℕ → Bool
is_success status_code = leb 200 status_code && ltb status_code 300

abbrev result_of : ℕ → Str → List ℕ → ReInviteResult
result_of status_code reason body = record {
  success = is_success status_code;
  status_code = status_code;
  reason = reason;
  sdp = if is_success status_code then body else [];
}

-- The loop over the responses; the ACK of a final one is not modelled further.
unfoldable pub await : Dialog → List Event → Dialog × Return
await d [] = (d, waits)
await d (context_done ∷ es) = (complete_re_invite d, fails context_error)
await d (no_response ∷ es) = (complete_re_invite d, fails without_response)
await d (response status_code reason body ∷ es) =
    let rest = await d es in
    if is_provisional status_code
    then rest
    else (complete_re_invite d, returns (result_of status_code reason body))

-- The first argument is whether `TransactionRequest` succeeds.
abbrev pub sent_or_not : Bool → List Event → Dialog × Outcome OutRequest → Dialog × Return
sent_or_not sent es (d, refused e) = (d, fails (not_built e))
sent_or_not sent es (d, panics) = (d, crashes)
sent_or_not true es (d, built r) = await d es
sent_or_not false es (d, built r) = (complete_re_invite d, fails not_sent)

-- `SendReINVITE`
unfoldable pub send_re_invite :
    (Str → Option Uri) → Uri → ReInviteOptions → Bool → List Event → Dialog → Dialog × Return
send_re_invite parse local_contact opts sent es d =
    if is_terminated d
    then (d, fails dialog_terminated)
    else if not (d.state == confirmed)
    then (d, fails not_confirmed)
    else sent_or_not sent es (build_re_invite parse local_contact opts d)

-- What the wait ends with: an event that is no provisional response.
abbrev pub ends : Event → Bool
ends context_done = true
ends no_response = true
ends (response status_code reason body) = not (is_provisional status_code)

-- The second argument is whether the wait is given an end.
abbrev pub Releases : Dialog → Bool → Dialog × Return → Type 0
Releases d ended (d', waits) = (ended ≡ false) × (d'.re_invite_in_progress ≡ true)
Releases d ended (d', crashes) = LacksFrom d
Releases d ended (d', returns r) = d'.re_invite_in_progress ≡ false
Releases d ended (d', fails e) = d'.re_invite_in_progress ≡ d.re_invite_in_progress

await-Releases :
    (d d' : Dialog) (es : List Event)
    → d.re_invite_in_progress ≡ false
    → d'.re_invite_in_progress ≡ true
    → Releases d (any ends es) (await d' es)
unfolding await
await-Releases d d' [] h h' = (refl, h')
await-Releases d d' (context_done ∷ es) h h' = sym h
await-Releases d d' (no_response ∷ es) h h' = sym h
await-Releases d d' (response status_code reason body ∷ es) h h' =
    elim (Bool-cases (is_provisional status_code)) [
      | inl e ↦ rw e (await-Releases d d' es h h')
      | inr e ↦ rw e refl
    ]

-- `SendReINVITE` never keeps the dialog from another re-INVITE: once it returns, with a final response or
-- any error, no re-INVITE is pending that was not pending before; and it returns at the latest with the
-- first final response, closed transaction or cancelled context. It panics only for an inbound dialog whose INVITE has neither a Contact nor a From
-- header.
pub send_re_invite-Releases :
    (parse : Str → Option Uri) (c : Uri) (opts : ReInviteOptions) (sent : Bool) (es : List Event)
    (d : Dialog)
    → Releases d (any ends es) (send_re_invite parse c opts sent es d)
unfolding send_re_invite
send_re_invite-Releases parse c opts sent es d = elim (Bool-cases (is_terminated d)) [
  | inl e ↦ rw e refl
  | inr e ↦ elim (Bool-cases (d.state == confirmed)) [
    | inl f ↦
        rw (e, f)
          (at sent (build_re_invite parse c opts d) (build_re_invite-Guarded parse c opts opts d)
            (re_invite-LacksFrom parse c opts d))
    | inr f ↦ rw (e, f) refl
  ]
]
  where
    at :
        (sent : Bool) (p : Dialog × Outcome OutRequest)
        → Guarded parse c opts d p
        → (p.1 ≡ panics → LacksFrom d)
        → Releases d (any ends es) (sent_or_not sent es p)
    at sent (d', refused e) g k = ap (λ x. x.re_invite_in_progress) g
    at sent (d', panics) g k = k refl
    at false (d', built r) g k = sym g.0
    at true (d', built r) g k = await-Releases d d' es g.0 g.1
