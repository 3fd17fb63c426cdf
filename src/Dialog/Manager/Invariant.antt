-- ===== src/Dialog/Manager/Invariant.antt =====
-- The invariant of the manager, and the life cycle of its dialogs.
use switchboard.Prelude.{
  ℕ, ◌+◌, ◌≤◌, ◌<◌, ◌≡◌, refl, ◌∙◌, ◌≢◌, ◌⊎◌, inl, inr, true, not, some, arith, if◌then◌else◌,
  Bool-cases, ◌==◌, eq_iff, Str, str_eq, nat_eq,
}
use switchboard.GoMap
use switchboard.GoMap.{GoMap}
use switchboard.TtlStore
use switchboard.TtlStore.{TtlStore}
use switchboard.Dialog.State.{
  CallState, TerminateReason, terminated, iota, state_eq, can_transition_to, can_transition_to_lem,
}
use switchboard.Dialog.Dialogs.{Dialog, transition_to}
use switchboard.Dialog.Manager.{
  Manager, change, move, store_new, end_dialog, sweep, terminated_dialog_ttl, active_dialog_ttl,
}

pub record Consistent (dialogs : TtlStore Str ℕ) (heap : ℕ → Dialog) (next : ℕ) : Type 0 where
  -- The entries are dialogs that were made, each under its own Call-ID.
  pub held :
      (id : Str) (e : TtlStore.Entry ℕ)
      → GoMap.get id dialogs.items ≡ some e
      → (e.value < next) × ((heap e.value).call_id ≡ id)
  -- The context of a terminated dialog is cancelled, so that its media stops.
  pub stopped : (h : ℕ) → h < next → (heap h).state ≡ terminated → (heap h).is_cancelled ≡ true
  pub once : GoMap.Distinct dialogs.items

abbrev pub IsManager : Manager → Type 0
IsManager m = Consistent m.dialogs m.heap m.next

-- What a dialog keeps, and that its state does not go back.
abbrev pub Later : Dialog → Dialog → Type 0
Later d d' =
    (d'.call_id ≡ d.call_id)
    × (d'.direction ≡ d.direction)
    × (d'.created_at ≡ d.created_at)
    × (iota d.state ≤ iota d'.state)

-- What each call is proved to do: the invariant, and dialogs that only go forward.
abbrev pub Keeps : Manager → Manager → Type 0
Keeps m u = IsManager u × (m.next ≤ u.next) × ((h : ℕ) → h < m.next → Later (m.heap h) (u.heap h))

pub Keeps-refl : (m : Manager) → IsManager m → Keeps m m
Keeps-refl m v = (v, omega arith, λ h l. (refl, refl, refl, omega arith))

pub Keeps-trans : (m u w : Manager) → Keeps m u → Keeps u w → Keeps m w
Keeps-trans m u w (v, n, f) (v', n', f') = (
  v',
  omega arith,
  λ h l.
      let (a, b, c, d) = f h l in
      let (a', b', c', d') = f' h (omega arith) in (a' ∙ a, b' ∙ b, c' ∙ c, omega arith),
)

pub change-Keeps :
    (h : ℕ) (f : Dialog → Dialog) (m : Manager)
    → Later (m.heap h) (f (m.heap h))
    → (((m.heap h).state ≡ terminated → (m.heap h).is_cancelled ≡ true)
        → (f (m.heap h)).state ≡ terminated
        → (f (m.heap h)).is_cancelled ≡ true)
    → IsManager m
    → Keeps m (change h f m)
change-Keeps h f m l s v = (
  record {
    held = λ id e g. ground (arith, v.held id e g, l, eq_iff h e.value);
    stopped = λ i b g. ground (arith, v.stopped i b, s, eq_iff h i);
    once = v.once;
  },
  omega arith,
  λ i b. elim (Bool-cases (h == i)) [
    | inl e ↦ ground (arith, l, eq_iff h i)
    | inr e ↦ rw e (refl, refl, refl, omega arith)
  ],
)

transition_to-Later : (now : ℕ) (s : CallState) (d : Dialog) → Later d (transition_to now s d).0
unfolding transition_to
transition_to-Later now s d = elim (Bool-cases (can_transition_to d.state s)) [
  | inl e ↦ rw e (refl, refl, refl, ground (arith, can_transition_to_lem d.state s))
  | inr e ↦ rw e (refl, refl, refl, omega arith)
]

pub move-Keeps :
    (now h : ℕ) (new_state : CallState) (m : Manager)
    → (new_state ≢ terminated) ⊎ ((m.heap h).is_cancelled ≡ true)
    → IsManager m
    → Keeps m (move now h new_state m)
unfolding transition_to
move-Keeps now h new_state m s v =
    change-Keeps h (λ d. (transition_to now new_state d).0) m
      (transition_to-Later now new_state (m.heap h)) (kept (m.heap h) s) v
  where
    kept :
        (d : Dialog)
        → (new_state ≢ terminated) ⊎ (d.is_cancelled ≡ true)
        → (d.state ≡ terminated → d.is_cancelled ≡ true)
        → (transition_to now new_state d).0.state ≡ terminated
        → (transition_to now new_state d).0.is_cancelled ≡ true
    kept d s q = elim (Bool-cases (can_transition_to d.state new_state)) [
      | inl e ↦ rw e (λ p. elim s [ inl n ↦ absurd (n p) | inr c ↦ c ])
      | inr e ↦ rw e q
    ]

pub put-IsManager :
    (now h : ℕ) (id : Str) (d : ℕ) (m : Manager)
    → h < m.next
    → (m.heap h).call_id ≡ id
    → IsManager m
    → Consistent (TtlStore.set now id h d m.dialogs) m.heap m.next
unfolding TtlStore.set
put-IsManager now h id d m l p v = record {
  held = λ id' e g. ground (
    arith,
    v.held id' e,
    GoMap.get-put id id' (record { value = h; expires_at = now + d }) m.dialogs.items,
    eq_iff id id',
  );
  stopped = v.stopped;
  once = GoMap.put-Distinct id _ m.dialogs.items v.once;
}

pub end_dialog-Keeps :
    (now h : ℕ) (reason : TerminateReason) (m : Manager)
    → h < m.next
    → (m.heap h).is_cancelled ≡ true
    → IsManager m
    → Keeps m (end_dialog now h reason m)
unfolding end_dialog
end_dialog-Keeps now h reason m l c v =
    let m1 : Manager = change h (λ d. record d { terminate_reason = reason }) m in
    let m2 : Manager = move now h terminated m1 in
    let reasoned : Keeps m m1 =
      change-Keeps h (λ d. record d { terminate_reason = reason }) m (refl, refl, refl, omega arith)
        (λ q. q) v in
    let moved : Keeps m1 m2 =
      move-Keeps now h terminated m1 (inr (ground (arith, eq_iff h h))) reasoned.0 in
    let (w, n, f) = Keeps-trans m m1 m2 reasoned moved in
    (put-IsManager now h (m.heap h).call_id terminated_dialog_ttl m2 l (f h l).0 w, n, f)

pub store_new-Keeps :
    (now : ℕ) (id : Str) (d : Dialog) (m : Manager)
    → d.call_id ≡ id
    → d.state ≢ terminated
    → IsManager m
    → Keeps m (store_new now id d m).0
store_new-Keeps now id d m hi hs v = (
  put-IsManager now m.next id active_dialog_ttl
      (record m { heap = λ i. if m.next == i then d else m.heap i; next = m.next + 1 })
      (omega arith) (ground (arith, eq_iff m.next m.next))
      (record {
        held = λ id' e g. ground (arith, v.held id' e g, eq_iff m.next e.value);
        stopped = λ i b g. ground (arith, v.stopped i, eq_iff m.next i);
        once = v.once;
      }),
  omega arith,
  λ i b. elim (Bool-cases (m.next == i)) [
    | inl e ↦ absurd (ground (arith, eq_iff m.next i))
    | inr e ↦ rw e (refl, refl, refl, omega arith)
  ],
)

pub sweep-Keeps : (now : ℕ) (m : Manager) → IsManager m → Keeps m (sweep now m)
unfolding sweep TtlStore.cleanup
sweep-Keeps now m v = (
  record {
    held = λ id e g. ground (
      arith,
      v.held id e,
      GoMap.get-select (λ (k : Str) (e : TtlStore.Entry ℕ). not (TtlStore.is_expired now e)) id
          m.dialogs.items v.once,
    );
    stopped = v.stopped;
    once = GoMap.select-Distinct _ m.dialogs.items v.once;
  },
  omega arith,
  λ h l. (refl, refl, refl, omega arith),
)
