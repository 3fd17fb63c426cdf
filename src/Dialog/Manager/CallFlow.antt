-- ===== src/Dialog/Manager/CallFlow.antt =====
-- A received call from its INVITE to the ACK, and INVITEs that come twice.
use switchboard.Prelude.{
  ℕ, ◌+◌, ◌≤◌, ◌≡◌, refl, sym, ap, ◌∙◌, ◌≢◌, inl, inr, true, false, not, none, some, [], arith, leb,
  if◌then◌else◌, Bool-cases, Option-cases, ◌==◌, eq_iff, beq_refl, Str, str_eq, nat_eq,
}
use switchboard.TtlStore
use switchboard.TtlStore.{TtlStore}
use switchboard.TtlStore.View
use switchboard.Dialog.State.{
  CallState, terminated, early, waiting_ack, confirmed, initial, state_eq, can_transition_to,
  timed_out,
}
use switchboard.Dialog.Dialogs.{
  Dialog, Request, Response, new_dialog, transition_to, string_of, set_session, set_invite_response,
}
use switchboard.Dialog.Manager.{
  Manager, Result, create_from_invite, send_trying, send_ok, confirm_with_ack, responded,
  active_dialog_ttl, ok, err, unexpected_state, change, emit, session_ok, invite_reply, store_new,
  missing_call_id, move, terminated_dialog_ttl, cancel_and_end, watch_ack_timeout,
}
use switchboard.Dialog.Manager.Handlers.{change_at, cancel_and_end-Ended}

-- A new INVITE makes a dialog of its own, which its Call-ID finds for four hours; one whose
-- Call-ID has a dialog already gets that dialog and changes nothing, unless it is terminated, when a
-- new one takes its place; one without a Call-ID is refused.
pub create_from_invite_lem :
    (now : ℕ) (req : Request) (m : Manager)
    → let id = string_of req.call_id in
      let r = create_from_invite now req m in
      (id ≡ [] → r ≡ (m, err missing_call_id))
      × ((h : ℕ)
          → id ≢ []
          → TtlStore.get now id m.dialogs ≡ some h
          → (m.heap h).state ≢ terminated
          → r ≡ (m, ok h))
      × (id ≢ []
          → ((h : ℕ) → TtlStore.get now id m.dialogs ≡ some h → (m.heap h).state ≡ terminated)
          → (r.1 ≡ ok m.next)
            × (r.0.heap m.next ≡ new_dialog now req)
            × ((t : ℕ)
                → TtlStore.get t id r.0.dialogs
                  ≡ (if leb t (now + active_dialog_ttl) then some m.next else none)))
unfolding create_from_invite
create_from_invite_lem now req m = (
  λ e. rw (eq_true e) refl,
  λ h n e s. rw (eq_false n, e, state_false h s) refl,
  λ n a. elim (Option-cases (TtlStore.get now id m.dialogs)) [
    | inl e ↦ rw (eq_false n, e) fresh
    | inr (h, e) ↦ rw (eq_false n, e, (eq_iff (m.heap h).state terminated).1 (a h e)) fresh
  ],
)
  where
    id : Str
    id = string_of req.call_id

    eq_true : id ≡ [] → (id == []) ≡ true
    eq_true e = (eq_iff id []).1 e

    eq_false : id ≢ [] → (id == []) ≡ false
    eq_false n = ground (arith, eq_iff id [])

    state_false : (h : ℕ) → (m.heap h).state ≢ terminated → ((m.heap h).state == terminated) ≡ false
    state_false h s = ground (arith, eq_iff (m.heap h).state terminated)

    fresh :
        (Result.ok m.next ≡ ok m.next)
        × ((store_new now id (new_dialog now req) m).0.heap m.next ≡ new_dialog now req)
        × ((t : ℕ)
            → TtlStore.get t id (store_new now id (new_dialog now req) m).0.dialogs
              ≡ (if leb t (now + active_dialog_ttl) then some m.next else none))
    fresh = (
      refl,
      rw (beq_refl m.next) refl,
      λ t. View.get-set now t id id m.next active_dialog_ttl m.dialogs ∙ rw (beq_refl id) refl,
    )

move_state :
    (now h : ℕ) (from to : CallState) (m : Manager)
    → (m.heap h).state ≡ from
    → can_transition_to from to ≡ true
    → ((move now h to m).heap h).state ≡ to
unfolding transition_to
move_state now h from to m e c =
    ap (λ d. d.state) (change_at h (λ d. (transition_to now to d).0) m)
    ∙ ground (arith, ap (λ s. can_transition_to s to) e)

move_same :
    (now h : ℕ) (to : CallState) (m : Manager)
    → (((move now h to m).heap h).is_cancelled ≡ (m.heap h).is_cancelled)
      × (((move now h to m).heap h).call_id ≡ (m.heap h).call_id)
unfolding transition_to
move_same now h to m =
    let e = change_at h (λ d. (transition_to now to d).0) m in
    (ground (arith, ap (λ d. d.is_cancelled) e), ground (arith, ap (λ d. d.call_id) e))

-- The ACK timer, on a dialog that still waits and on another.
timer_fires :
    (now h : ℕ) (m : Manager)
    → (m.heap h).is_cancelled ≡ false
    → (m.heap h).state ≡ waiting_ack
    → watch_ack_timeout now h m ≡ cancel_and_end now h timed_out m
unfolding watch_ack_timeout
timer_fires now h m c e = rw (c, e) refl

timer_late :
    (now h : ℕ) (state : CallState) (m : Manager)
    → (m.heap h).state ≡ state
    → (state == waiting_ack) ≡ false
    → watch_ack_timeout now h m ≡ m
unfolding watch_ack_timeout
timer_late now h state m e n = elim (Bool-cases (m.heap h).is_cancelled) [
  | inl c ↦ rw c refl
  | inr c ↦ rw (c, e, n) refl
]

confirm_found :
    (now h : ℕ) (id : Str) (state : CallState) (m : Manager)
    → TtlStore.get now id m.dialogs ≡ some h
    → (m.heap h).state ≡ state
    → confirm_with_ack now (some id) m ≡ (
        if not (state == waiting_ack)
        then (m, if state == confirmed then ok tt else err (unexpected_state state))
        else (move now h confirmed m, ok tt))
unfolding confirm_with_ack
confirm_found now h id state m e s = rw (e, s) refl

-- The manager after each step of the call.
module _ (now t2 t3 : ℕ) (req : Request) (resp : Response) (m : Manager) where
  abbrev pub created : Manager
  created = (create_from_invite now req m).0

  abbrev pub tried : Manager
  tried = (send_trying true t2 m.next created).0

  abbrev pub answered : Manager
  answered = (send_ok (responded resp) t3 m.next tried).0

  abbrev pub confirmed_by_ack : ℕ → Str → Manager
  confirmed_by_ack t4 id = (confirm_with_ack t4 (some id) answered).0

module _ (now t2 t3 t4 t5 : ℕ) (id : Str) (req : Request) (resp : Response) (m : Manager)
    (named : req.call_id ≡ some id) (nonempty : id ≢ [])
    (unused : TtlStore.get now id m.dialogs ≡ none) (in_time : t4 ≤ now + active_dialog_ttl) where
  abbrev with_invite : Manager
  with_invite = created now t2 t3 req resp m

  abbrev with_100 : Manager
  with_100 = tried now t2 t3 req resp m

  abbrev with_200 : Manager
  with_200 = answered now t2 t3 req resp m

  abbrev with_ack : Manager
  with_ack = confirmed_by_ack now t2 t3 req resp m t4 id

  abbrev with_timeout : Manager
  with_timeout = watch_ack_timeout t5 m.next with_200

  -- For a Call-ID that is not empty and has no dialog yet, the steps of a received call: INVITE, 100
  -- and 200 succeed and take its dialog from early to waiting for the ACK; an ACK before the 200 is
  -- refused. Of the ACK, within four hours of the INVITE, and the ACK timer that the 200 has started,
  -- the one that comes first decides. Where the ACK does, the dialog is confirmed, the ACK's
  -- retransmission is ignored and the timer does nothing. Where the timer does, whenever it fires, the
  -- dialog is terminated for a timeout and an ACK within the next 32 seconds is refused.
  pub call_flow :
      ((create_from_invite now req m).1 ≡ ok m.next)
      × ((send_trying true t2 m.next with_invite).1 ≡ ok tt)
      × ((with_100.heap m.next).state ≡ early)
      × (confirm_with_ack t4 (some id) with_100 ≡ (with_100, err (unexpected_state early)))
      × ((send_ok (responded resp) t3 m.next with_100).1 ≡ ok tt)
      × ((with_200.heap m.next).state ≡ waiting_ack)
      × ((confirm_with_ack t4 (some id) with_200).1 ≡ ok tt)
      × ((with_ack.heap m.next).state ≡ confirmed)
      × (confirm_with_ack t4 (some id) with_ack ≡ (with_ack, ok tt))
      × (watch_ack_timeout t5 m.next with_ack ≡ with_ack)
      × ((with_timeout.heap m.next).state ≡ terminated)
      × ((with_timeout.heap m.next).terminate_reason ≡ timed_out)
      × ((t : ℕ)
          → t ≤ t5 + terminated_dialog_ttl
          → confirm_with_ack t (some id) with_timeout
            ≡ (with_timeout, err (unexpected_state terminated)))
  unfolding send_trying send_ok new_dialog
  call_flow =
      let h : ℕ = m.next in
      let new =
        (create_from_invite_lem now req m).2 (λ e. nonempty (sym (ap string_of named) ∙ e))
          (λ i e. absurd (ground (arith, ap string_of named))) in
      let found : TtlStore.get t4 id with_invite.dialogs ≡ some h =
        ground (arith, new.2 t4, ap string_of named) in
      let s1 : (with_invite.heap h).state ≡ initial = ap (λ d. d.state) new.1 in
      let s2 : (with_100.heap h).state ≡ early =
        move_state t2 h initial early (emit (invite_reply 100) with_invite) s1 refl in
      let f : Dialog → Dialog = λ d. set_invite_response resp (set_session d) in
      let s3 : (with_200.heap h).state ≡ waiting_ack =
        move_state t3 h early waiting_ack (change h f (emit session_ok with_100))
          (ap (λ d. d.state) (change_at h f (emit session_ok with_100)) ∙ s2) refl in
      let acked = confirm_found t4 h id waiting_ack with_200 found s3 in
      let c1 : (with_invite.heap h).is_cancelled ≡ false = ap (λ d. d.is_cancelled) new.1 in
      let c2 : (with_100.heap h).is_cancelled ≡ false =
        (move_same t2 h early (emit (invite_reply 100) with_invite)).0 ∙ c1 in
      let c3 : (with_200.heap h).is_cancelled ≡ false =
        (move_same t3 h waiting_ack (change h f (emit session_ok with_100))).0
        ∙ ap (λ d. d.is_cancelled) (change_at h f (emit session_ok with_100))
        ∙ c2 in
      let k1 : (with_invite.heap h).call_id ≡ id = ap (λ d. d.call_id) new.1 ∙ ap string_of named in
      let k2 : (with_100.heap h).call_id ≡ id =
        (move_same t2 h early (emit (invite_reply 100) with_invite)).1 ∙ k1 in
      let k3 : (with_200.heap h).call_id ≡ id =
        (move_same t3 h waiting_ack (change h f (emit session_ok with_100))).1
        ∙ ap (λ d. d.call_id) (change_at h f (emit session_ok with_100))
        ∙ k2 in
      let fired : with_timeout ≡ cancel_and_end t5 h timed_out with_200 =
        timer_fires t5 h with_200 c3 s3 in
      let ended = cancel_and_end-Ended t5 h timed_out with_200 in
      let s4 : (with_ack.heap h).state ≡ confirmed =
        ap (λ r. (r.0.heap h).state) acked
        ∙ move_state t4 h waiting_ack confirmed with_200 s3 refl in
      (
        new.0,
        refl,
        s2,
        confirm_found t4 h id early with_100 found s2,
        refl,
        s3,
        ap (λ r. r.1) acked,
        s4,
        confirm_found t4 h id confirmed with_ack
            (ap (λ r. TtlStore.get t4 id r.0.dialogs) acked ∙ found) s4,
        timer_late t5 h confirmed with_ack s4 refl,
        ap (λ n. (n.heap h).state) fired ∙ ended.0,
        ap (λ n. (n.heap h).terminate_reason) fired ∙ ended.2,
        λ t l.
            ap (λ n. confirm_with_ack t (some id) n) fired
            ∙ confirm_found t h id terminated (cancel_and_end t5 h timed_out with_200)
                (ground (arith, ended.3 t, k3, l)) ended.0
            ∙ ap (λ n. (n, err (unexpected_state terminated))) (sym fired),
      )
