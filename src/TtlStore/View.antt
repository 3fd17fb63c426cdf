-- ===== src/TtlStore/View.antt =====
-- What the readers see after each write, at every later time.
use switchboard.Prelude.{
  ℕ, ◌+◌, ◌≡◌, refl, sym, inl, inr, not, ◌&&◌, Option, none, some, arith, leb, if◌then◌else◌,
  Option-cases, is_some, length, Comparable, ◌==◌, eq_iff,
}
use switchboard.GoMap
use switchboard.GoMap.{GoMap}
use switchboard.TtlStore.{
  TtlStore, Entry, value_of, set, get_entry, get, delete, has, all_entries, all, len, update,
  is_expired, new_expiry,
}

-- What a key reads at `t` after an `Update` of its entry at `now`.
abbrev pub updated {κ} : {V : Type κ} → ℕ → ℕ → (V → V) → Option ℕ → Option (Entry V) → Option V
updated now t f new_ttl none = none
updated now t f new_ttl (some e) =
    if leb t (new_expiry now new_ttl e) then some (f e.value) else none

module _ {ℓ κ} {K : Type ℓ} {V : Type κ} ⦃e : Comparable K⦄ where
  abbrev pub Distinct : TtlStore K V → Type 0
  Distinct s = GoMap.Distinct s.items

  -- After `Set` the key reads the value up to the expiry and nothing later; other keys are as
  -- before.
  pub get-set :
      (now t : ℕ) (k j : K) (v : V) (d : ℕ) (s : TtlStore K V)
      → get t j (set now k v d s)
        ≡ (if k == j then (if leb t (now + d) then some v else none) else get t j s)
  unfolding get set
  get-set now t k j v d s =
      ground (arith, GoMap.get-put k j (record { value = v; expires_at = now + d }) s.items)

  pub get-delete :
      (t : ℕ) (k j : K) (s : TtlStore K V)
      → get t j (delete k s).0 ≡ (if k == j then none else get t j s)
  unfolding get delete GoMap.has
  get-delete t k j s = ground (arith, GoMap.get-delete k j s.items, eq_iff k j)

  -- `Update` of a key that is not expired changes its value by the function, and its expiry only
  -- where a new TTL is given; at a missing or expired key it does nothing and returns false.
  pub get-update :
      (now t : ℕ) (k j : K) (f : V → V) (new_ttl : Option ℕ) (s : TtlStore K V)
      → (get t j (update now k f new_ttl s).0 ≡ (
          if k == j && has now k s
          then updated now t f new_ttl (GoMap.get k s.items)
          else get t j s))
        × ((update now k f new_ttl s).1 ≡ has now k s)
  unfolding get update has
  get-update now t k j f new_ttl s = elim (Option-cases (GoMap.get k s.items)) [
    | inl h ↦ (ground arith, ground arith)
    | inr (w, h) ↦ (
      ground (
        arith,
        GoMap.get-put k j (record { value = f w.value; expires_at = new_expiry now new_ttl w })
            s.items,
      ),
      ground arith,
    )
  ]

  -- The readers agree: `Has`, `GetEntry`, `All`, `AllEntries` and `Len` tell of a key what `Get`
  -- does.
  pub readers_agree :
      (now : ℕ) (k : K) (s : TtlStore K V)
      → Distinct s
      → (has now k s ≡ is_some (get now k s))
        × (value_of (get_entry now k s) ≡ get now k s)
        × (GoMap.get k (all now s) ≡ get now k s)
        × (GoMap.get k (all_entries now s) ≡ get_entry now k s)
        × (len now s ≡ length (all now s))
  unfolding get has get_entry all len
  readers_agree now k s d = (
    ground arith,
    refl,
    ground (
      arith,
      GoMap.get-map_values (λ (e : Entry V). e.value) k
          (GoMap.select (λ (k : K) e. not (is_expired now e)) s.items),
      GoMap.get-select (λ k e. not (is_expired now e)) k s.items d,
    ),
    ground (arith, GoMap.get-select (λ k e. not (is_expired now e)) k s.items d),
    sym (GoMap.length-map_values _ _),
  )
