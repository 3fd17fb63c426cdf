-- ===== src/GoMap/Defs.antt =====
-- The operations of Go's maps.
use mathlib.Core.Path.{◌≡◌}
use mathlib.Core.Bool.{Bool, false}
use switchboard.Prelude.{
  Option, none, some, List, [], ◌∷◌, is_some, Comparable, ◌==◌, if◌then◌else◌,
}

abbrev pub GoMap {ℓ κ} : Type ℓ → Type κ → Type (ℓ ⊔ κ)
GoMap K V = List (K × V)

module _ {ℓ κ} {K : Type ℓ} {V : Type κ} ⦃e : Comparable K⦄ where
  -- v, ok := m[k]
  unfoldable pub get : K → GoMap K V → Option V
  get k [] = none
  get k ((j, v) ∷ m) = if j == k then some v else get k m

  -- _, ok := m[k]
  unfoldable pub has : K → GoMap K V → Bool
  unfolding get
  has k m = is_some (get k m)

  -- m[k] = v
  unfoldable pub put : K → V → GoMap K V → GoMap K V
  put k v [] = (k, v) ∷ []
  put k v ((j, w) ∷ m) = if j == k then (k, v) ∷ m else (j, w) ∷ put k v m

  -- delete(m, k)
  unfoldable pub delete : K → GoMap K V → GoMap K V
  delete k [] = []
  delete k ((j, w) ∷ m) = let rest = delete k m in if j == k then rest else (j, w) ∷ rest

  -- Every key has one entry.
  abbrev pub Distinct : GoMap K V → Type 0
  Distinct [] = Unit
  Distinct ((k, v) ∷ m) = (has k m ≡ false) × Distinct m

module _ {ℓ κ} {K : Type ℓ} {V : Type κ} where
  unfoldable pub keys : GoMap K V → List K
  keys [] = []
  keys ((k, v) ∷ m) = k ∷ keys m

  -- The entries that pass a test on key and value, as a `range` with a test collects them.
  unfoldable pub select : (K → V → Bool) → GoMap K V → GoMap K V
  select p [] = []
  select p ((k, v) ∷ m) = let rest = select p m in if p k v then (k, v) ∷ rest else rest

  unfoldable pub values : GoMap K V → List V
  values [] = []
  values ((k, v) ∷ m) = v ∷ values m

module _ {ℓ κ μ} {K : Type ℓ} {V : Type κ} {W : Type μ} where
  unfoldable pub map_values : (V → W) → GoMap K V → GoMap K W
  map_values f [] = []
  map_values f ((k, v) ∷ m) = (k, f v) ∷ map_values f m
