-- ===== src/TtlStore/Sweep.antt =====
-- The cleanup loop among the other calls.
use switchboard.Prelude.{
  ℕ, ◌+◌, ◌≤◌, ◌<◌, ◌≡◌, refl, sym, ap, ◌∙◌, true, false, not, ◌&&◌, ◌||◌, Option, none, some, List,
  [], ◌∷◌, arith, if◌then◌else◌, Comparable, ◌==◌, eq_iff, beq_refl,
}
use mathlib.Core.Path.{ap₂}
use switchboard.GoMap
use switchboard.GoMap.{GoMap}
use switchboard.TtlStore.{
  TtlStore, Entry, is_expired, get_entry, has, cleanup, unexpired, set, delete, update, new_expiry,
  value_of, get, refresh, update_at,
}
use switchboard.TtlStore.View.{Distinct}

module _ {ℓ κ} {K : Type ℓ} {V : Type κ} ⦃e : Comparable K⦄ where
  -- A sweep removes exactly the expired entries, hands exactly those to the eviction callback, and
  -- changes what no reader sees, then or later.
  pub cleanup_lem :
      (now t : ℕ) (k : K) (s : TtlStore K V)
      → Distinct s
      → now ≤ t
      → (get_entry t k (cleanup now s).0 ≡ get_entry t k s)
        × (GoMap.get k (cleanup now s).0.items ≡ get_entry now k s)
        × ((GoMap.has k (cleanup now s).1 && has now k s) ≡ false)
        × ((GoMap.has k (cleanup now s).1 || has now k s) ≡ GoMap.has k s.items)
  unfolding get_entry cleanup has GoMap.has
  cleanup_lem now t k s d h =
      let kept = GoMap.get-select (λ (k : K) (e : Entry V). not (is_expired now e)) k s.items d in
      let gone = GoMap.get-select (λ (k : K) (e : Entry V). is_expired now e) k s.items d in
      let out =
        GoMap.get-map_values (λ (e : Entry V). e.value) k
          (GoMap.select (λ (k : K) (e : Entry V). is_expired now e) s.items) in
      (ground arith, ground arith, ground arith, ground arith)

-- A call that writes, at its time. `Refresh` is not among them: it can bring an expired entry back.
pub data Op {ℓ κ} (K : Type ℓ) (V : Type κ) : Type (ℓ ⊔ κ) where
  sets : K → V → ℕ → Op K V
  deletes : K → Op K V
  updates : K → (V → V) → Option ℕ → Op K V
  sweeps : Op K V

module _ {ℓ κ} {K : Type ℓ} {V : Type κ} ⦃e : Comparable K⦄ where
  abbrev pub step : ℕ → Op K V → TtlStore K V → TtlStore K V
  step now (sets k v d) s = set now k v d s
  step now (deletes k) s = (delete k s).0
  step now (updates k f new_ttl) s = (update now k f new_ttl s).0
  step now sweeps s = (cleanup now s).0

  -- The calls in order, each a while after the one before.
  unfoldable pub run : ℕ → List (ℕ × Op K V) → TtlStore K V → TtlStore K V
  run now [] s = s
  run now ((wait, c) ∷ cs) s = run (now + wait) cs (step (now + wait) c s)

  -- The time of the last call.
  abbrev pub last : ℕ → List (ℕ × Op K V) → ℕ
  last now [] = now
  last now ((wait, c) ∷ cs) = last (now + wait) cs

  -- The same calls at the same times, with no sweep.
  abbrev unswept_step : ℕ → Op K V → TtlStore K V → TtlStore K V
  unswept_step now sweeps s = s
  unswept_step now (sets k v d) s = set now k v d s
  unswept_step now (deletes k) s = (delete k s).0
  unswept_step now (updates k f new_ttl) s = (update now k f new_ttl s).0

  unfoldable pub run_unswept : ℕ → List (ℕ × Op K V) → TtlStore K V → TtlStore K V
  run_unswept now [] s = s
  run_unswept now ((wait, c) ∷ cs) s = run_unswept (now + wait) cs (unswept_step (now + wait) c s)

  -- No reader tells the two apart from `now` on.
  abbrev SameView : ℕ → TtlStore K V → TtlStore K V → Type (ℓ ⊔ κ)
  SameView now s u =
      (t : ℕ) (k : K)
      → now ≤ t
      → unexpired t (GoMap.get k s.items) ≡ unexpired t (GoMap.get k u.items)

  entry-delete :
      (t : ℕ) (k j : K) (s : TtlStore K V)
      → unexpired t (GoMap.get j (delete k s).0.items)
        ≡ (if k == j then none else unexpired t (GoMap.get j s.items))
  unfolding delete GoMap.has
  entry-delete t k j s = ground (arith, GoMap.get-delete k j s.items, eq_iff k j)

  abbrev after_update :
      ℕ → ℕ → K → K → (V → V) → Option ℕ → Option (Entry V) → Option (Entry V) → Option (Entry V)
  after_update now t k j f new_ttl none o = o
  after_update now t k j f new_ttl (some w) o =
      if k == j
      then unexpired t (some (record { value = f w.value; expires_at = new_expiry now new_ttl w }))
      else o

  entry-update :
      (now t : ℕ) (k j : K) (f : V → V) (new_ttl : Option ℕ) (s : TtlStore K V)
      → unexpired t (GoMap.get j (update now k f new_ttl s).0.items)
        ≡ after_update now t k j f new_ttl
            (unexpired now (GoMap.get k s.items))
            (unexpired t (GoMap.get j s.items))
  unfolding update
  entry-update now t k j f new_ttl s = at (unexpired now (GoMap.get k s.items))
    where
      at :
          (o : Option (Entry V))
          → unexpired t (GoMap.get j (update_at now k f new_ttl o s).0.items)
            ≡ after_update now t k j f new_ttl o (unexpired t (GoMap.get j s.items))
      at none = refl
      at (some w) = ground (
        arith,
        GoMap.get-put k j (record { value = f w.value; expires_at = new_expiry now new_ttl w })
            s.items,
      )

  step-SameView :
      (now : ℕ) (c : Op K V) (s u : TtlStore K V)
      → Distinct s
      → SameView now s u
      → SameView now (step now c s) (unswept_step now c u)
  unfolding set get_entry
  step-SameView now (sets k v d) s u ds h t j l = ground (
    arith,
    h t j l,
    GoMap.get-put k j (record { value = v; expires_at = now + d }) s.items,
    GoMap.get-put k j (record { value = v; expires_at = now + d }) u.items,
  )
  step-SameView now (deletes k) s u ds h t j l =
      ground (arith, h t j l, entry-delete t k j s, entry-delete t k j u)
  step-SameView now (updates k f new_ttl) s u ds h t j l =
      entry-update now t k j f new_ttl s
      ∙ ap₂ (after_update now t k j f new_ttl) (h now k (omega arith)) (h t j l)
      ∙ sym (entry-update now t k j f new_ttl u)
  step-SameView now sweeps s u ds h t j l = (cleanup_lem now t j s ds l).0 ∙ h t j l

  step-Distinct : (now : ℕ) (c : Op K V) (s : TtlStore K V) → Distinct s → Distinct (step now c s)
  unfolding set update delete cleanup
  step-Distinct now (sets k v d) s ds = GoMap.put-Distinct k _ s.items ds
  step-Distinct now (deletes k) s ds = ground (arith, GoMap.delete-Distinct k s.items ds)
  step-Distinct now (updates k f new_ttl) s ds = updated (unexpired now (GoMap.get k s.items))
    where
      updated : (o : Option (Entry V)) → Distinct (update_at now k f new_ttl o s).0
      updated none = ds
      updated (some w) = GoMap.put-Distinct k _ s.items ds
  step-Distinct now sweeps s ds = GoMap.select-Distinct _ s.items ds

  run-SameView :
      (now : ℕ) (cs : List (ℕ × Op K V)) (s u : TtlStore K V)
      → Distinct s
      → SameView now s u
      → SameView (last now cs) (run now cs s) (run_unswept now cs u)
  unfolding run run_unswept
  run-SameView now [] s u ds h = h
  run-SameView now ((wait, c) ∷ cs) s u ds h =
      run-SameView (now + wait) cs (step (now + wait) c s) (unswept_step (now + wait) c u)
        (step-Distinct (now + wait) c s ds)
        (step-SameView (now + wait) c s u ds (λ t k l. h t k (omega arith)))

  -- When the cleanup loop runs makes no difference to a store with distinct keys: after any calls of `Set`, `Delete` and `Update`
  -- with any sweeps among them, every later `Get` returns what it would with no sweep at all.
  pub sweeps_invisible :
      (now t : ℕ) (k : K) (cs : List (ℕ × Op K V)) (s : TtlStore K V)
      → Distinct s
      → last now cs ≤ t
      → get t k (run now cs s) ≡ get t k (run_unswept now cs s)
  unfolding get
  sweeps_invisible now t k cs s d h = ap value_of (run-SameView now cs s s d (λ t k l. refl) t k h)

  -- `Refresh` tells swept and unswept stores apart: an expired entry that no sweep has removed yet
  -- is brought back, and after the sweep the same call returns false and changes nothing.
  pub refresh_expired :
      (now : ℕ) (k : K) (w : Entry V) (d : ℕ) (s : TtlStore K V)
      → Distinct s
      → GoMap.get k s.items ≡ some w
      → w.expires_at < now
      → (get now k s ≡ none)
        × (get now k (refresh now k d s).0 ≡ some w.value)
        × ((refresh now k d s).1 ≡ true)
        × (refresh now k d (cleanup now s).0 ≡ ((cleanup now s).0, false))
  unfolding get refresh get_entry
  refresh_expired now k w d s ds e h =
      let swept : GoMap.get k (cleanup now s).0.items ≡ none =
        (cleanup_lem now now k s ds (omega arith)).1 ∙ ground arith in
      (
        ground arith,
        ground (arith, GoMap.get-put k k (record w { expires_at = now + d }) s.items, beq_refl k),
        ground arith,
        rw swept refl,
      )
