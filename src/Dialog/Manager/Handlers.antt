-- ===== src/Dialog/Manager/Handlers.antt =====
-- The handlers of BYE and CANCEL, and the ACK timeout.
use switchboard.Prelude.{
  ℕ, ◌+◌, ◌≡◌, refl, sym, ap, ◌∙◌, ◌≢◌, ◌⊎◌, inl, inr, Bool, true, false, not, ◌&&◌, ◌||◌, Option,
  none, some, ◌∷◌, arith, leb, if◌then◌else◌, Bool-cases, Option-cases, ◌==◌, eq_iff, beq_refl, Str,
  str_eq, nat_eq,
}
use switchboard.TtlStore
use switchboard.TtlStore.{TtlStore}
use switchboard.TtlStore.View
use switchboard.Dialog.State.{
  CallState, TerminateReason, early, waiting_ack, terminated, can_transition_to_lem, remote_bye,
  cancelled, timed_out, state_eq,
}
use switchboard.Dialog.Dialogs.{Dialog, cancel, transition_to, string_of}
use switchboard.Dialog.Manager.{
  Manager, reply, cancel_and_end, end_dialog, terminated_dialog_ttl, handle_incoming_bye,
  handle_incoming_cancel, watch_ack_timeout, with_487, session_answer, dialog_not_found, ok, err,
  change,
}

-- `u` is `m` after dialog `h` has ended at `now` for the reason: it is terminated, its context
-- cancelled, found under its Call-ID for 32 seconds more and then no longer, `onTerminated` is called
-- with it where it is set, nothing is sent, and no other dialog is touched.
abbrev pub Ended : ℕ → ℕ → TerminateReason → Manager → Manager → Type 0
Ended now h reason m u =
    ((u.heap h).state ≡ terminated)
    × ((u.heap h).is_cancelled ≡ true)
    × ((u.heap h).terminate_reason ≡ reason)
    × ((t : ℕ)
        → TtlStore.get t (m.heap h).call_id u.dialogs
          ≡ (if leb t (now + terminated_dialog_ttl) then some h else none))
    × (u.notified ≡ (if m.has_callback then h ∷ m.notified else m.notified))
    × (u.sent ≡ m.sent)
    × ((i : ℕ) → i ≢ h → u.heap i ≡ m.heap i)

move_to_end :
    (now : ℕ) (d : Dialog)
    → ((transition_to now terminated d).0.state ≡ terminated)
      × ((transition_to now terminated d).0.is_cancelled ≡ d.is_cancelled)
      × ((transition_to now terminated d).0.terminate_reason ≡ d.terminate_reason)
unfolding transition_to
move_to_end now d = elim (Bool-cases (d.state == terminated)) [
  | inl e ↦ ground (arith, can_transition_to_lem d.state terminated, eq_iff d.state terminated)
  | inr e ↦ ground (arith, can_transition_to_lem d.state terminated)
]

pub change_at : (h : ℕ) (f : Dialog → Dialog) (m : Manager) → (change h f m).heap h ≡ f (m.heap h)
change_at h f m = rw (beq_refl h) refl

change_other :
    (h i : ℕ) (f : Dialog → Dialog) (m : Manager) → i ≢ h → (change h f m).heap i ≡ m.heap i
change_other h i f m n = elim (Bool-cases (h == i)) [
  | inl e ↦ absurd (n (sym ((eq_iff h i).0 e)))
  | inr e ↦ rw e refl
]

module _ (now h : ℕ) (reason : TerminateReason) (m : Manager) where
  abbrev reasoned : Dialog → Dialog
  reasoned d = record d { terminate_reason = reason }

  abbrev moved : Dialog → Dialog
  moved d = (transition_to now terminated d).0

  abbrev first : Manager
  first = change h cancel m

  abbrev second : Manager
  second = change h reasoned first

  ended-heap : (cancel_and_end now h reason m).heap h ≡ moved (reasoned (cancel (m.heap h)))
  unfolding end_dialog
  ended-heap =
      change_at h moved second
      ∙ ap moved (change_at h reasoned first ∙ ap reasoned (change_at h cancel m))

  pub cancel_and_end-Ended : Ended now h reason m (cancel_and_end now h reason m)
  unfolding end_dialog
  cancel_and_end-Ended =
      let (s, c, r) = move_to_end now (reasoned (cancel (m.heap h))) in
      let id : Str = (m.heap h).call_id in
      (
        ap (λ d. d.state) ended-heap ∙ s,
        ap (λ d. d.is_cancelled) ended-heap ∙ c,
        ap (λ d. d.terminate_reason) ended-heap ∙ r,
        λ t.
            ap (λ k. TtlStore.get t id (TtlStore.set now k h terminated_dialog_ttl m.dialogs))
              (ap (λ d. d.call_id) (change_at h cancel m))
            ∙ View.get-set now t id id h terminated_dialog_ttl m.dialogs
            ∙ rw (beq_refl id) refl,
        refl,
        refl,
        λ i n.
            change_other h i moved second n
            ∙ change_other h i reasoned first n
            ∙ change_other h i cancel m n,
      )

-- A BYE ends its dialog, whatever the dialog's state, and is answered 200 (by the sipgo session where
-- the dialog has one); a BYE for no dialog is answered 481 and changes nothing else.
pub handle_incoming_bye_lem :
    (now : ℕ) (id : Option Str) (m : Manager)
    → let r = handle_incoming_bye now id m in
      ((TtlStore.get now (string_of id) m.dialogs ≡ none)
        × (r ≡ (record m { sent = reply 481 ∷ m.sent }, err dialog_not_found)))
      ⊎ ((h : ℕ) × (TtlStore.get now (string_of id) m.dialogs ≡ some h)
          × (r.1 ≡ ok tt)
          × Ended now h remote_bye
              (record m {
                sent = (if (m.heap h).session then session_answer else reply 200) ∷ m.sent;
              })
              r.0)
unfolding handle_incoming_bye
handle_incoming_bye_lem now id m = elim (Option-cases (TtlStore.get now (string_of id) m.dialogs)) [
  | inl e ↦ inl (e, rw e refl)
  | inr (h, e) ↦ inr (h, e, rw e refl, rw e (cancel_and_end-Ended now h remote_bye _))
]

abbrev pub is_pending : CallState → Bool
is_pending state = state == early || state == waiting_ack

-- A CANCEL ends a dialog that is early or waits for its ACK: it is answered 200, and the INVITE of a
-- received call 487. In any other state, and where there is no dialog, the answer is 481 and nothing
-- else changes.
pub handle_incoming_cancel_lem :
    (now : ℕ) (id : Option Str) (m : Manager)
    → let r = handle_incoming_cancel now id m in
      ((TtlStore.get now (string_of id) m.dialogs ≡ none)
        × (r ≡ (record m { sent = reply 481 ∷ m.sent }, err dialog_not_found)))
      ⊎ ((h : ℕ) × (TtlStore.get now (string_of id) m.dialogs ≡ some h)
          × (r.1 ≡ ok tt)
          × (is_pending (m.heap h).state ≡ false → r.0 ≡ record m { sent = reply 481 ∷ m.sent })
          × (is_pending (m.heap h).state ≡ true
              → Ended now h cancelled
                  (record m { sent = with_487 (m.heap h).direction (reply 200 ∷ m.sent) })
                  r.0))
unfolding handle_incoming_cancel
handle_incoming_cancel_lem now id m =
    elim (Option-cases (TtlStore.get now (string_of id) m.dialogs)) [
      | inl e ↦ inl (e, rw e refl)
      | inr (h, e) ↦ elim (Bool-cases ((m.heap h).state == early)) [
        | inl f ↦ inr (
          h,
          e,
          rw (e, f) refl,
          rw (e, f) (λ p. absurd (ground arith)),
          rw (e, f) (λ p. cancel_and_end-Ended now h cancelled _),
        )
        | inr f ↦ elim (Bool-cases ((m.heap h).state == waiting_ack)) [
          | inl g ↦ inr (
            h,
            e,
            rw (e, f, g) refl,
            rw (e, f, g) (λ p. absurd (ground arith)),
            rw (e, f, g) (λ p. cancel_and_end-Ended now h cancelled _),
          )
          | inr g ↦ inr (
            h,
            e,
            rw (e, f, g) refl,
            rw (e, f, g) (λ p. refl),
            rw (e, f, g) (λ p. absurd (ground arith)),
          )
        ]
      ]
    ]

-- The ACK timer ends a dialog that still waits for its ACK, and does nothing to one that is confirmed,
-- terminated or cancelled.
pub watch_ack_timeout_lem :
    (now h : ℕ) (m : Manager)
    → let fires = (m.heap h).state == waiting_ack && not (m.heap h).is_cancelled in
      (fires ≡ true → Ended now h timed_out m (watch_ack_timeout now h m))
      × (fires ≡ false → watch_ack_timeout now h m ≡ m)
unfolding watch_ack_timeout
watch_ack_timeout_lem now h m = elim (Bool-cases (m.heap h).is_cancelled) [
  | inl e ↦ (λ p. absurd (ground arith), λ p. rw e refl)
  | inr e ↦ elim (Bool-cases ((m.heap h).state == waiting_ack)) [
    | inl f ↦ (λ p. rw (e, f) (cancel_and_end-Ended now h timed_out m), λ p. absurd (ground arith))
    | inr f ↦ (λ p. absurd (ground arith), λ p. rw (e, f) refl)
  ]
]
