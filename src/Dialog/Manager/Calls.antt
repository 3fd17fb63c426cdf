-- ===== src/Dialog/Manager/Calls.antt =====
-- Each call of the manager, and its invariant.
use switchboard.Prelude.{
  ℕ, ◌<◌, ◌≡◌, refl, ◌≢◌, ◌⊎◌, inl, inr, Bool, true, false, not, ◌&&◌, Option, none, some, ◌∷◌,
  arith, if◌then◌else◌, Bool-cases, Option-cases, ◌==◌, eq_iff, Str, str_eq, nat_eq,
}
use switchboard.GoMap
use switchboard.TtlStore
use switchboard.TtlStore.{TtlStore}
use switchboard.Dialog.State.{
  TerminateReason, early, waiting_ack, confirmed, terminated, state_eq, cancelled, timed_out,
  remote_bye,
}
use switchboard.Dialog.Dialogs.{
  Dialog, Uri, cancel, set_session, set_invite_response, is_outbound, Request,
}
use switchboard.Dialog.Build.{
  OutRequest, Outcome, build_bye, built, refused, panics, recipient_of, next_cseq, bye_to, bye_for,
}
use switchboard.Dialog.Manager.{
  Manager, change, move, store_unless, cancel_and_end, bye_sent, confirm_at, bye_at, cancel_at,
  terminate_at, then_end, emit, send_ok, Answering, local_contact, send_bye, is_local_bye,
  watch_ack_timeout, no_dialog_session, respond_failed, responded, with_487, reply, session_answer,
  bye_first,
}
use switchboard.Dialog.Manager.Invariant.{
  IsManager, Keeps, Keeps-refl, Keeps-trans, change-Keeps, move-Keeps, end_dialog-Keeps,
  store_new-Keeps, Later,
}

-- What the map gives is a dialog that was made.
pub get-made :
    (now : ℕ) (id : Str) (h : ℕ) (m : Manager)
    → IsManager m
    → TtlStore.get now id m.dialogs ≡ some h
    → (h < m.next) × ((m.heap h).call_id ≡ id)
unfolding TtlStore.get
get-made now id h m v e = elim (Option-cases (GoMap.get id m.dialogs.items)) [
  | inl g ↦ absurd (ground arith)
  | inr (w, g) ↦ ground (arith, v.held id w g)
]

pub cancel_and_end-Keeps :
    (now h : ℕ) (reason : TerminateReason) (m : Manager)
    → h < m.next
    → IsManager m
    → Keeps m (cancel_and_end now h reason m)
cancel_and_end-Keeps now h reason m l v =
    let m' : Manager = change h cancel m in
    let k : Keeps m m' = change-Keeps h cancel m (refl, refl, refl, omega arith) (λ q p. refl) v in
    Keeps-trans m m' (cancel_and_end now h reason m) k
      (end_dialog-Keeps now h reason m' l (ground (arith, eq_iff h h)) k.0)

pub store_unless-Keeps :
    (now : ℕ) (id : Str) (d : Dialog) (m : Manager)
    → d.call_id ≡ id
    → d.state ≢ terminated
    → IsManager m
    → (o : Option ℕ) → Keeps m (store_unless now id d o m).0
store_unless-Keeps now id d m hi hs v none = store_new-Keeps now id d m hi hs v
store_unless-Keeps now id d m hi hs v (some h) =
    elim (Bool-cases ((m.heap h).state == terminated)) [
      | inl e ↦ rw e (store_new-Keeps now id d m hi hs v)
      | inr e ↦ rw e (Keeps-refl m v)
    ]

-- `BuildBYE` changes the CSeq alone.
abbrev Advanced : Dialog → Dialog → Type 0
Advanced d d' = (d' ≡ d) ⊎ (d' ≡ record d { local_cseq = next_cseq d })

build_bye-Advanced :
    (parse : Str → Option Uri) (c : Uri) (d : Dialog) → Advanced d (build_bye parse c d).0
unfolding build_bye
build_bye-Advanced parse c d = from_invite d.invite_request
  where
    at : (req : Request) (o : Outcome Uri) → Advanced d (bye_to c d req o).0
    at req (built u) = inr refl
    at req (refused e) = inl refl
    at req panics = inl refl

    from_invite : (o : Option Request) → Advanced d (bye_for parse c d o).0
    from_invite none = inl refl
    from_invite (some req) = at req (recipient_of parse d req)

advance-Keeps :
    (h : ℕ) (d : Dialog) (m : Manager)
    → Advanced (m.heap h) d
    → IsManager m
    → Keeps m (change h (λ x. d) m)
advance-Keeps h d m a v = change-Keeps h (λ x. d) m (later a) (same a) v
  where
    later : Advanced (m.heap h) d → Later (m.heap h) d
    later (inl e) = rw e (refl, refl, refl, omega arith)
    later (inr e) = rw e (refl, refl, refl, omega arith)

    same :
        Advanced (m.heap h) d
        → ((m.heap h).state ≡ terminated → (m.heap h).is_cancelled ≡ true)
        → d.state ≡ terminated
        → d.is_cancelled ≡ true
    same (inl e) q = rw e q
    same (inr e) q = rw e q

bye_sent-Keeps :
    (h : ℕ) (m : Manager) (p : Dialog × Outcome OutRequest)
    → Advanced (m.heap h) p.0
    → IsManager m
    → Keeps m (bye_sent h p m).0
bye_sent-Keeps h m (d, built r) a v = advance-Keeps h d m a v
bye_sent-Keeps h m (d, refused e) a v = advance-Keeps h d m a v
bye_sent-Keeps h m (d, panics) a v = advance-Keeps h d m a v

send_bye-Keeps :
    (parse : Str → Option Uri) (local : Uri) (h : ℕ) (m : Manager)
    → IsManager m
    → Keeps m (send_bye parse local h m).0
send_bye-Keeps parse local h m v =
    elim (Bool-cases ((m.heap h).session && not (is_outbound (m.heap h).direction))) [
      | inl e ↦ rw e (Keeps-refl m v)
      | inr e ↦ rw e (
          bye_sent-Keeps h m (build_bye parse c (m.heap h)) (build_bye-Advanced parse c (m.heap h))
            v)
    ]
  where
    c : Uri
    c = local_contact local (m.heap h).invite_request

then_end-Keeps :
    (now h : ℕ) (reason : TerminateReason) (m : Manager) (p : Manager × Bool)
    → h < m.next
    → Keeps m p.0
    → Keeps m (then_end now h reason p).0
then_end-Keeps now h reason m (u, false) l k = k
then_end-Keeps now h reason m (u, true) l k =
    Keeps-trans m u (cancel_and_end now h reason u) k
      (cancel_and_end-Keeps now h reason u (omega (arith, k.1)) k.0)

module _ (now : ℕ) (m : Manager) (v : IsManager m) where
  pub confirm_at-Keeps : (h : ℕ) → Keeps m (confirm_at now (some h) m).0
  confirm_at-Keeps h = elim (Bool-cases ((m.heap h).state == waiting_ack)) [
    | inl e ↦ rw e (move-Keeps now h confirmed m (inl (ground arith)) v)
    | inr e ↦ rw e (Keeps-refl m v)
  ]

  pub cancel_at-Keeps : (h : ℕ) → h < m.next → Keeps m (cancel_at now (some h) m).0
  cancel_at-Keeps h l =
      elim (Bool-cases (not ((m.heap h).state == early) && not ((m.heap h).state == waiting_ack))) [
        | inl e ↦ rw e (Keeps-refl m v)
        | inr e ↦ rw e (
            cancel_and_end-Keeps now h cancelled
              (record m { sent = with_487 (m.heap h).direction (reply 200 ∷ m.sent) }) l v)
      ]

  pub bye_first-Keeps :
      (parse : Str → Option Uri) (local : Uri) (reason : TerminateReason) (h : ℕ)
      → Keeps m (bye_first parse local h reason m).0
  bye_first-Keeps parse local reason h =
      elim (Bool-cases ((m.heap h).state == confirmed && is_local_bye reason)) [
        | inl e ↦ rw e (send_bye-Keeps parse local h m v)
        | inr e ↦ rw e (Keeps-refl m v)
      ]

  pub terminate_at-Keeps :
      (parse : Str → Option Uri) (local : Uri) (reason : TerminateReason) (h : ℕ)
      → h < m.next
      → Keeps m (terminate_at parse local now (some h) reason m).0
  terminate_at-Keeps parse local reason h l = elim (Bool-cases ((m.heap h).state == terminated)) [
    | inl e ↦ rw e (Keeps-refl m v)
    | inr e ↦ rw e (
        then_end-Keeps now h reason m (bye_first parse local h reason m) l
          (bye_first-Keeps parse local reason h))
  ]

  pub watch-Keeps : (h : ℕ) → h < m.next → Keeps m (watch_ack_timeout now h m)
  unfolding watch_ack_timeout
  watch-Keeps h l = elim (Bool-cases (m.heap h).is_cancelled) [
    | inl e ↦ rw e (Keeps-refl m v)
    | inr e ↦ elim (Bool-cases ((m.heap h).state == waiting_ack)) [
      | inl f ↦ rw (e, f) (cancel_and_end-Keeps now h timed_out m l v)
      | inr f ↦ rw (e, f) (Keeps-refl m v)
    ]
  ]

  pub send_ok-Keeps : (a : Answering) (h : ℕ) → Keeps m (send_ok a now h m).0
  unfolding send_ok
  send_ok-Keeps no_dialog_session h = Keeps-refl m v
  send_ok-Keeps respond_failed h =
      change-Keeps h set_session m (refl, refl, refl, omega arith) (λ q. q) v
  send_ok-Keeps (responded resp) h =
      let f : Dialog → Dialog = λ d. set_invite_response resp (set_session d) in
      let k : Keeps m (change h f m) =
        change-Keeps h f m (refl, refl, refl, omega arith) (λ q. q) v in
      Keeps-trans m (change h f m) (move now h waiting_ack (change h f m)) k
        (move-Keeps now h waiting_ack (change h f m) (inl (ground arith)) k.0)

  pub bye_at-Keeps : (h : ℕ) → h < m.next → Keeps m (bye_at now (some h) m).0
  bye_at-Keeps h l =
      cancel_and_end-Keeps now h remote_bye
        (emit (if (m.heap h).session then session_answer else reply 200) m) l v
