-- ===== src/GoMap/Laws.antt =====
-- What a key holds after a write, and that writes keep the keys distinct.
use switchboard.Prelude.{
  suc, ◌≡◌, refl, ap, Bool, true, false, Option, none, some, [], ◌∷◌, arith, if◌then◌else◌, length,
  Comparable, ◌==◌, eq_iff,
}
use switchboard.GoMap.Defs.{GoMap, get, has, put, delete, Distinct, select, map_values}

module _ {ℓ κ} {K : Type ℓ} {V : Type κ} ⦃e : Comparable K⦄ where
  pub get-put :
      (k j : K) (v : V) (m : GoMap K V) → get j (put k v m) ≡ (if k == j then some v else get j m)
  unfolding get put
  get-put k j v [] = refl
  get-put k j v ((i, w) ∷ m) = ground (arith, eq_iff k j, eq_iff i k, eq_iff i j, get-put k j v m)

  pub get-delete :
      (k j : K) (m : GoMap K V) → get j (delete k m) ≡ (if k == j then none else get j m)
  unfolding get delete
  get-delete k j [] = ground arith
  get-delete k j ((i, w) ∷ m) = ground (arith, eq_iff k j, eq_iff i k, eq_iff i j, get-delete k j m)

  pub has-put :
      (k j : K) (v : V) (m : GoMap K V) → has j (put k v m) ≡ (if k == j then true else has j m)
  unfolding has
  has-put k j v m = ground (arith, get-put k j v m)

  pub has-delete :
      (k j : K) (m : GoMap K V) → has j (delete k m) ≡ (if k == j then false else has j m)
  unfolding has
  has-delete k j m = ground (arith, get-delete k j m)

  pub put-Distinct : (k : K) (v : V) (m : GoMap K V) → Distinct m → Distinct (put k v m)
  unfolding has put
  put-Distinct k v [] d = (refl, tt)
  put-Distinct k v ((i, w) ∷ m) d =
      ground (arith, eq_iff i k, eq_iff k i, get-put k i v m, put-Distinct k v m d.1)

  pub delete-Distinct : (k : K) (m : GoMap K V) → Distinct m → Distinct (delete k m)
  unfolding has delete
  delete-Distinct k [] d = tt
  delete-Distinct k ((i, w) ∷ m) d =
      ground (arith, get-delete k i m, eq_iff i k, eq_iff k i, delete-Distinct k m d.1)

  abbrev pub filtered : (K → V → Bool) → K → Option V → Option V
  filtered p k none = none
  filtered p k (some v) = if p k v then some v else none

  select_absent :
      (p : K → V → Bool) (k : K) (m : GoMap K V) → has k m ≡ false → get k (select p m) ≡ none
  unfolding has select
  select_absent p k [] h = refl
  select_absent p k ((i, w) ∷ m) h = ground (arith, select_absent p k m)

  -- A map filtered by a `range` holds what the map held where the test passes.
  pub get-select :
      (p : K → V → Bool) (k : K) (m : GoMap K V)
      → Distinct m
      → get k (select p m) ≡ filtered p k (get k m)
  unfolding select get
  get-select p k [] d = refl
  get-select p k ((i, w) ∷ m) d =
      ground (arith, eq_iff i k, select_absent p k m, get-select p k m d.1)

  pub select-Distinct : (p : K → V → Bool) (m : GoMap K V) → Distinct m → Distinct (select p m)
  unfolding has select
  select-Distinct p [] d = tt
  select-Distinct p ((i, w) ∷ m) d =
      ground (arith, select_absent p i m d.0, select-Distinct p m d.1)

abbrev pub mapped {κ μ} : {V : Type κ} {W : Type μ} → (V → W) → Option V → Option W
mapped f none = none
mapped f (some v) = some (f v)

module _ {ℓ κ μ} {K : Type ℓ} {V : Type κ} {W : Type μ} ⦃e : Comparable K⦄ where
  pub get-map_values :
      (f : V → W) (k : K) (m : GoMap K V) → get k (map_values f m) ≡ mapped f (get k m)
  unfolding get map_values
  get-map_values f k [] = refl
  get-map_values f k ((i, w) ∷ m) = ground (arith, get-map_values f k m)

module _ {ℓ κ μ} {K : Type ℓ} {V : Type κ} {W : Type μ} where
  pub length-map_values : (f : V → W) (m : GoMap K V) → length (map_values f m) ≡ length m
  unfolding map_values
  length-map_values f [] = refl
  length-map_values f (x ∷ m) = ap suc (length-map_values f m)

module _ {ℓ κ} {K : Type ℓ} {V : Type κ} ⦃e : Comparable K⦄ where
  pub get-nil : (k : K) → get {V = V} k [] ≡ none
  unfolding get
  get-nil k = refl

  pub get-cons :
      (k j : K) (v : V) (m : GoMap K V) → get j ((k, v) ∷ m) ≡ (if k == j then some v else get j m)
  unfolding get
  get-cons k j v m = refl

  pub get-empty : (k : K) (m : GoMap K V) → length m ≡ 0 → get k m ≡ none
  get-empty k [] h = get-nil k
  get-empty k (x ∷ m) h = absurd (omega (arith, h))
