-- ===== src/Dialog/Manager/Ending.antt =====
-- `Terminate`, called twice.
use switchboard.Prelude.{
  ℕ, ◌+◌, ◌≤◌, ◌≡◌, refl, sym, ◌∙◌, ◌≢◌, ◌⊎◌, inl, inr, Bool, true, false, not, ◌&&◌, Option, some,
  arith, Bool-cases, ◌==◌, eq_iff, Str, str_eq, nat_eq,
}
use mathlib.Core.Path.{subst}
use switchboard.TtlStore
use switchboard.TtlStore.{TtlStore}
use switchboard.Dialog.State.{TerminateReason, terminated, state_eq, confirmed, local_bye}
use switchboard.Dialog.Dialogs.{Uri, is_outbound, Dialog}
use switchboard.Dialog.Manager.{
  Manager, Result, terminate, then_end, bye_first, cancel_and_end, terminated_dialog_ttl, ok,
  crashed, local_contact, bye_sent, send_bye, is_local_bye,
}
use switchboard.Dialog.Build.Panics.{LacksFrom, build_bye-LacksFrom}
use switchboard.Dialog.Build.{Outcome, OutRequest, build_bye, built, refused, panics}
use switchboard.Dialog.Manager.Invariant.{IsManager}
use switchboard.Dialog.Manager.Calls.{get-made, bye_first-Keeps}
use switchboard.Dialog.Manager.Handlers.{cancel_and_end-Ended}

module _ (parse : Str → Option Uri) (local : Uri) (now t h : ℕ) (id : Str)
    (reason again : TerminateReason) where
  abbrev pub Twice : Manager → Manager × Result (Unit {0}) → Type 0
  Twice m r =
      ((r.1 ≡ crashed)
        × ((m.heap h).state ≡ confirmed)
        × (reason ≡ local_bye)
        × LacksFrom (m.heap h))
      ⊎ ((r.1 ≡ ok tt)
          × ((r.0.heap h).state ≡ terminated)
          × ((r.0.heap h).terminate_reason ≡ reason)
          × (terminate parse local t id again r.0 ≡ (r.0, ok tt)))

  found_ended :
      (w : Manager)
      → (w.heap h).state ≡ terminated
      → TtlStore.get t id w.dialogs ≡ some h
      → terminate parse local t id again w ≡ (w, ok tt)
  unfolding terminate
  found_ended w s e =
      let at_end : ((w.heap h).state == terminated) ≡ true =
        (eq_iff (w.heap h).state terminated).1 s in
      rw (e, at_end) refl

  then_end-Twice :
      (m : Manager) (p : Manager × Bool)
      → (p.1 ≡ false → ((m.heap h).state ≡ confirmed) × (reason ≡ local_bye) × LacksFrom (m.heap h))
      → (p.0.heap h).call_id ≡ id
      → t ≤ now + terminated_dialog_ttl
      → Twice m (then_end now h reason p)
  then_end-Twice m (u, false) k e l = let (a, b, c) = k refl in inl (refl, a, b, c)
  then_end-Twice m (u, true) k e l =
      let (s, c, r, g, notes, sent, others) = cancel_and_end-Ended now h reason u in
      let w : Manager = cancel_and_end now h reason u in
      let got : TtlStore.get t id w.dialogs ≡ some h = ground (arith, g t, e) in
      inr (refl, s, r, found_ended w s got)

  bye_sent-panics :
      (m : Manager) (p : Dialog × Outcome OutRequest) → (bye_sent h p m).1 ≡ false → p.1 ≡ panics
  bye_sent-panics m (d, built r) e = absurd (ground (arith, e))
  bye_sent-panics m (d, refused x) e = absurd (ground (arith, e))
  bye_sent-panics m (d, panics) e = refl

  send_bye-panics : (m : Manager) → (send_bye parse local h m).1 ≡ false → LacksFrom (m.heap h)
  send_bye-panics m =
      elim (Bool-cases ((m.heap h).session && not (is_outbound (m.heap h).direction))) [
        | inl s ↦ rw s (λ e. absurd (ground (arith, e)))
        | inr s ↦
            let c : Uri = local_contact local (m.heap h).invite_request in
            rw s (λ e.
              build_bye-LacksFrom parse c (m.heap h)
                (bye_sent-panics m (build_bye parse c (m.heap h)) e))
      ]

  local_is : (x : TerminateReason) → is_local_bye x ≡ true → x ≡ local_bye
  local_is local_bye e = refl
  local_is _ e = absurd (ground (arith, e))

  bye_first-panics :
      (m : Manager)
      → (bye_first parse local h reason m).1 ≡ false
      → ((m.heap h).state ≡ confirmed) × (reason ≡ local_bye) × LacksFrom (m.heap h)
  bye_first-panics m = elim (Bool-cases ((m.heap h).state == confirmed && is_local_bye reason)) [
    | inr b ↦ rw b (λ e. absurd (ground (arith, e)))
    | inl b ↦ rw b (λ e. (
      ground (arith, b, eq_iff (m.heap h).state confirmed),
      local_is reason (ground (arith, b)),
      send_bye-panics m e,
    ))
  ]

  -- `Terminate` of a dialog that is not terminated ends it with its reason, whether a BYE is sent first
  -- or not (for a confirmed inbound dialog that this side ends, it panics where the INVITE has
  -- neither a Contact nor a From header); a second call
  -- within the 32 seconds, with whatever reason, then returns without an error and changes nothing.
  pub terminate-Twice :
      (m : Manager)
      → IsManager m
      → TtlStore.get now id m.dialogs ≡ some h
      → (m.heap h).state ≢ terminated
      → t ≤ now + terminated_dialog_ttl
      → Twice m (terminate parse local now id reason m)
  unfolding terminate
  terminate-Twice m v e n l =
      let (made, named) = get-made now id h m v e in
      let k = bye_first-Keeps now m v parse local reason h in
      let live : ((m.heap h).state == terminated) ≡ false =
        ground (arith, eq_iff (m.heap h).state terminated) in
      let p : Manager × Bool = bye_first parse local h reason m in
      let ends : terminate parse local now id reason m ≡ then_end now h reason p =
        rw (e, live) refl in
      subst (Twice m) (sym ends)
        (then_end-Twice m p (bye_first-panics m) ((k.2 h made).0 ∙ named) l)
