-- ===== src/Dialog/Manager/Reach.antt =====
-- The invariant and the life cycle, over all calls.
use switchboard.Prelude.{
  ℕ, ◌<◌, refl, inl, inr, Bool, true, false, Option, none, some, [], arith, Bool-cases,
  Option-cases, ◌==◌, Str, str_eq, nat_eq,
}
use switchboard.TtlStore
use switchboard.TtlStore.{TtlStore}
use switchboard.Dialog.State.{early}
use switchboard.Dialog.Dialogs.{Uri, new_dialog, new_outbound_dialog, string_of, Request, Response}
use switchboard.Dialog.Manager.{
  Manager, create_from_invite, confirm_at, bye_at, cancel_at, terminate_at, emit, register_outbound,
  send_trying, send_progress, confirm_with_ack, handle_incoming_bye, handle_incoming_cancel,
  terminate, invite_reply,
}
use switchboard.Dialog.Manager.Steps.{
  Call, Held, Reach, step, start, then_step, creates, registers, sends_trying, sends_progress,
  sends_ok, acks, byes, cancels, terminates, times_out, sweeps,
}
use switchboard.Dialog.Manager.Invariant.{
  IsManager, Keeps, Keeps-refl, Keeps-trans, move-Keeps, sweep-Keeps,
}
use switchboard.Dialog.Manager.Calls.{
  get-made, store_unless-Keeps, confirm_at-Keeps, bye_at-Keeps, cancel_at-Keeps, terminate_at-Keeps,
  watch-Keeps, send_ok-Keeps,
}

module _ (now : ℕ) (m : Manager) (v : IsManager m) where
  create-Keeps : (req : Request) → Keeps m (create_from_invite now req m).0
  unfolding create_from_invite new_dialog
  create-Keeps req = elim (Bool-cases (string_of req.call_id == [])) [
    | inl e ↦ rw e (Keeps-refl m v)
    | inr e ↦ rw e (
        store_unless-Keeps now (string_of req.call_id) (new_dialog now req) m refl (ground arith) v
          (TtlStore.get now (string_of req.call_id) m.dialogs))
  ]

  register-Keeps :
      (print : Uri → Str) (req : Request) (resp : Response)
      → Keeps m (register_outbound print now req resp m).0
  unfolding register_outbound new_outbound_dialog
  register-Keeps print req resp = elim (Bool-cases (string_of req.call_id == [])) [
    | inl e ↦ rw e (Keeps-refl m v)
    | inr e ↦ rw e (
        store_unless-Keeps now (string_of req.call_id) (new_outbound_dialog print now req resp) m
          refl (ground arith) v (TtlStore.get now (string_of req.call_id) m.dialogs))
  ]

  trying-Keeps : (sent : Bool) (h : ℕ) → Keeps m (send_trying sent now h m).0
  unfolding send_trying
  trying-Keeps false h = Keeps-refl m v
  trying-Keeps true h = move-Keeps now h early (emit (invite_reply 100) m) (inl (ground arith)) v

  progress-Keeps : (sent : Bool) → Keeps m (send_progress sent m).0
  unfolding send_progress
  progress-Keeps false = Keeps-refl m v
  progress-Keeps true = Keeps-refl m v

  -- A handler that looks its dialog up.
  found-Keeps :
      (id : Str) (f : Option ℕ → Manager)
      → Keeps m (f none)
      → ((h : ℕ) → h < m.next → Keeps m (f (some h)))
      → Keeps m (f (TtlStore.get now id m.dialogs))
  found-Keeps id f k g = elim (Option-cases (TtlStore.get now id m.dialogs)) [
    | inl e ↦ rw e k
    | inr (h, e) ↦ rw e (g h (get-made now id h m v e).0)
  ]

module _ (print : Uri → Str) (parse : Str → Option Uri) (local : Uri) where
  step-Keeps :
      (now : ℕ) (c : Call) (m : Manager)
      → Held c m
      → IsManager m
      → Keeps m (step print parse local now c m)
  unfolding step confirm_with_ack handle_incoming_bye handle_incoming_cancel terminate
  step-Keeps now (creates req) m o v = create-Keeps now m v req
  step-Keeps now (registers req resp) m o v = register-Keeps now m v print req resp
  step-Keeps now (sends_trying sent h) m o v = trying-Keeps now m v sent h
  step-Keeps now (sends_progress sent) m o v = progress-Keeps now m v sent
  step-Keeps now (sends_ok a h) m o v = send_ok-Keeps now m v a h
  step-Keeps now (acks id) m o v =
      found-Keeps now m v (string_of id) (λ o. (confirm_at now o m).0) (Keeps-refl m v)
        (λ h l. confirm_at-Keeps now m v h)
  step-Keeps now (byes id) m o v =
      found-Keeps now m v (string_of id) (λ o. (bye_at now o m).0) (Keeps-refl m v)
        (bye_at-Keeps now m v)
  step-Keeps now (cancels id) m o v =
      found-Keeps now m v (string_of id) (λ o. (cancel_at now o m).0) (Keeps-refl m v)
        (cancel_at-Keeps now m v)
  step-Keeps now (terminates id reason) m o v =
      found-Keeps now m v id (λ o. (terminate_at parse local now o reason m).0) (Keeps-refl m v)
        (terminate_at-Keeps now m v parse local reason)
  step-Keeps now (times_out h) m o v = watch-Keeps now m v h o
  step-Keeps now sweeps m o v = sweep-Keeps now m v

  -- From a manager of which this holds, whatever calls come in whatever order and times: every entry of the manager is a dialog with the
  -- entry's Call-ID, a terminated dialog has its context cancelled, no dialog's state goes back (so a
  -- terminated one stays so), and its Call-ID and direction are those it was made with.
  pub Reach-Keeps : (m u : Manager) → IsManager m → Reach print parse local m u → Keeps m u
  Reach-Keeps m u v start = Keeps-refl m v
  Reach-Keeps m u v (then_step {u = w} now c r o) =
      let k = Reach-Keeps m w v r in Keeps-trans m w u k (step-Keeps now c w o k.0)
