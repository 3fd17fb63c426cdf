-- ===== src/Location/Store/Unregistration.antt =====
-- `Unregister` over the abstract map of bindings.
use switchboard.Prelude.{
  ℕ, ◌≤◌, ◌≡◌, refl, inl, inr, Bool, true, false, ◌&&◌, ◌||◌, none, some, arith, if◌then◌else◌,
  Bool-cases, Option-cases, length, ◌==◌, eq_iff, Str, str_eq, nat_eq,
}
use switchboard.GoMap
use switchboard.GoMap.{GoMap}
use switchboard.TtlStore
use switchboard.TtlStore.{TtlStore}
use switchboard.Location.Store.{Store, Bindings, Result, remaining, unregister, max_ttl, ok, err}
use switchboard.Location.Store.Time.{max_ttl-covers}
use switchboard.Location.Store.Refinement.{
  IsStore, binding_at, bindings-live, set-binding_at, set-IsStore, delete-IsStore,
  delete-binding_at, read-Distinct,
}

abbrev pub is_removed : Str → Str → Bool → Str → Str → Bool
is_removed aor id is_wildcard aor' id' = aor == aor' && (is_wildcard || id == id')

abbrev pub Removes : ℕ → (Str → Str → Bool) → Store → Store → Type 0
Removes now removed s u =
    (t : ℕ) (aor id : Str)
    → now ≤ t
    → binding_at t aor id u ≡ (if removed aor id then none else binding_at t aor id s)

abbrev pub Unregisters : ℕ → (Str → Str → Bool) → Store → Store × Result (Unit {0}) → Type 0
Unregisters now removed s (u, ok x) = IsStore u × Removes now removed s u
Unregisters now removed s (u, err e) = u ≡ s

module _ (now : ℕ) (aor id : Str) (before : Bindings) (s : Store) (v : IsStore s)
    (read : TtlStore.get now aor s.bindings ≡ some before) where
  abbrev rest : Bindings
  rest = GoMap.delete id before

  abbrev left : Store
  left = record s { bindings = remaining now aor rest s.bindings }

  distinct : GoMap.Distinct before
  distinct = ground (arith, read-Distinct now aor s v)

  remaining-Removes : IsStore left × Removes now (is_removed aor id false) s left
  remaining-Removes = elim (Bool-cases (length rest == 0)) [
    | inl e ↦ rw e (
      delete-IsStore aor s v,
      λ t aor' id' h. ground (
        arith,
        delete-binding_at t aor aor' id' s,
        GoMap.get-delete id id' before,
        GoMap.get-empty id' rest (ground arith),
        bindings-live now t aor id' s v h,
        eq_iff aor aor',
      ),
    )
    | inr e ↦ rw e (
      set-IsStore now aor rest (max_ttl now 0 rest) s (max_ttl-covers now 0 rest)
          (GoMap.delete-Distinct id before distinct) v,
      λ t aor' id' h. ground (
        arith,
        set-binding_at now aor rest (max_ttl now 0 rest) s (max_ttl-covers now 0 rest) t aor' id',
        GoMap.get-delete id id' before,
        bindings-live now t aor id' s v h,
        eq_iff aor aor',
      ),
    )
  ]

-- `Unregister` as a whole, on a well-formed store: where it succeeds, exactly the binding with the ID (all bindings of the
-- AOR for a wildcard) is gone, from then on, every other binding is as it was, and the store stays
-- well formed; where it fails, the store is as it was.
pub unregister_lem :
    (now : ℕ) (aor id : Str) (is_wildcard : Bool) (s : Store)
    → IsStore s
    → Unregisters now (is_removed aor id is_wildcard) s (unregister now aor id is_wildcard s)
unfolding unregister
unregister_lem now aor id true s v =
    (delete-IsStore aor s v, λ t aor' id' h. ground (arith, delete-binding_at t aor aor' id' s))
unregister_lem now aor id false s v = elim (Option-cases (TtlStore.get now aor s.bindings)) [
  | inl e ↦ rw e refl
  | inr (m, e) ↦ elim (Bool-cases (GoMap.has id m)) [
    | inl f ↦ rw (e, f) (remaining-Removes now aor id m s v e)
    | inr f ↦ rw (e, f) refl
  ]
]
