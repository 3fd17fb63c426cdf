-- ===== src/Location/Store/Refinement.antt =====
-- The store as a map from AORs and binding IDs to bindings with an expiry.
use switchboard.Prelude.{
  ℕ, ◌+◌, ◌≤◌, ◌≡◌, inl, inr, Option, none, some, arith, if◌then◌else◌, Bool-cases, Option-cases,
  ◌==◌, Str, str_eq, nat_eq,
}
use switchboard.GoMap
use switchboard.GoMap.{GoMap}
use switchboard.TtlStore
use switchboard.TtlStore.{TtlStore}
use switchboard.TtlStore.View
use switchboard.Location.Binding.{Binding, is_expired}
use switchboard.Location.Store.{Store, Bindings, bindings_of}

abbrev pub live : ℕ → Option Binding → Option Binding
live t none = none
live t (some b) = if is_expired t b then none else some b

pub live-some : (t : ℕ) (o : Option Binding) (b : Binding) → live t o ≡ some b → o ≡ some b
live-some t none b e = e
live-some t (some c) b e = elim (Bool-cases (is_expired t c)) [
  | inl f ↦ ground arith
  | inr f ↦ ground arith
]

-- The binding that the store gives at time `t` for an AOR and a binding ID.
abbrev pub binding_at : ℕ → Str → Str → Store → Option Binding
binding_at t aor id s = live t (GoMap.get id (bindings_of (TtlStore.get t aor s.bindings)))

pub record IsStore (s : Store) : Type 0 where
  pub aors_once : GoMap.Distinct s.bindings.items
  pub ids_once :
      (aor : Str) (e : TtlStore.Entry Bindings)
      → GoMap.get aor s.bindings.items ≡ some e
      → GoMap.Distinct e.value
  -- An AOR's entry outlives its bindings, so the sweep removes none that is alive.
  pub covers :
      (aor id : Str) (e : TtlStore.Entry Bindings) (b : Binding)
      → GoMap.get aor s.bindings.items ≡ some e
      → GoMap.get id e.value ≡ some b
      → b.expires_at ≤ e.expires_at

-- What the AOR's map holds now tells what it will hold later.
pub bindings-live :
    (now t : ℕ) (aor id : Str) (s : Store)
    → IsStore s
    → now ≤ t
    → live t (GoMap.get id (bindings_of (TtlStore.get now aor s.bindings))) ≡ binding_at t aor id s
unfolding TtlStore.get
bindings-live now t aor id s v h = elim (Option-cases (GoMap.get aor s.bindings.items)) [
  | inl e ↦ ground arith
  | inr (w, e) ↦ elim (Option-cases (GoMap.get id w.value)) [
    | inl f ↦ ground (arith, GoMap.get-nil {V = Binding} id)
    | inr (b, f) ↦ ground (arith, v.covers aor id w b e f, GoMap.get-nil {V = Binding} id)
  ]
]

module _ (now : ℕ) (aor : Str) (m : Bindings) (d : ℕ) (s : Store)
    (outlives : (id : Str) (b : Binding) → GoMap.get id m ≡ some b → b.expires_at ≤ now + d) where
  abbrev stored : Store
  stored = record s { bindings = TtlStore.set now aor m d s.bindings }

  pub set-binding_at :
      (t : ℕ) (aor' id : Str)
      → binding_at t aor' id stored
        ≡ (if aor == aor' then live t (GoMap.get id m) else binding_at t aor' id s)
  set-binding_at t aor' id = elim (Option-cases (GoMap.get id m)) [
    | inl f ↦
        ground (arith, View.get-set now t aor aor' m d s.bindings, GoMap.get-nil {V = Binding} id)
    | inr (b, f) ↦ ground (
      arith,
      View.get-set now t aor aor' m d s.bindings,
      GoMap.get-nil {V = Binding} id,
      outlives id b f,
    )
  ]

  pub set-IsStore : GoMap.Distinct m → IsStore s → IsStore stored
  unfolding TtlStore.set
  set-IsStore ids v = record {
    aors_once = GoMap.put-Distinct aor _ s.bindings.items v.aors_once;
    ids_once = λ aor' e h. ground (
      arith,
      ids,
      v.ids_once aor' e,
      GoMap.get-put aor aor' (record { value = m; expires_at = now + d }) s.bindings.items,
    );
    covers = λ aor' id e b h f. ground (
      arith,
      v.covers aor' id e b,
      outlives id b,
      GoMap.get-put aor aor' (record { value = m; expires_at = now + d }) s.bindings.items,
    );
  }

pub delete-IsStore :
    (aor : Str) (s : Store)
    → IsStore s
    → IsStore (record s { bindings = (TtlStore.delete aor s.bindings).0 })
unfolding TtlStore.delete GoMap.has
delete-IsStore aor s v = record {
  aors_once = ground (arith, v.aors_once, GoMap.delete-Distinct aor s.bindings.items v.aors_once);
  ids_once =
      λ aor' e h. ground (arith, v.ids_once aor' e, GoMap.get-delete aor aor' s.bindings.items);
  covers = λ aor' id e b h f.
      ground (arith, v.covers aor' id e b, GoMap.get-delete aor aor' s.bindings.items);
}

pub delete-binding_at :
    (t : ℕ) (aor aor' id : Str) (s : Store)
    → binding_at t aor' id (record s { bindings = (TtlStore.delete aor s.bindings).0 })
      ≡ (if aor == aor' then none else binding_at t aor' id s)
delete-binding_at t aor aor' id s =
    ground (arith, View.get-delete t aor aor' s.bindings, GoMap.get-nil {V = Binding} id)

-- The bindings that the code reads for an AOR have their IDs once.
pub read-Distinct :
    (now : ℕ) (aor : Str) (s : Store)
    → IsStore s
    → GoMap.Distinct (bindings_of (TtlStore.get now aor s.bindings))
unfolding TtlStore.get
read-Distinct now aor s v = elim (Option-cases (GoMap.get aor s.bindings.items)) [
  | inl e ↦ ground arith
  | inr (w, e) ↦ ground (arith, v.ids_once aor w e)
]
