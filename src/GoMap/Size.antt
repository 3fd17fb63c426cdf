-- ===== src/GoMap/Size.antt =====
-- `len` of a map after a write, and the entries that a `range` meets.
use switchboard.Prelude.{
  ℕ, zero, suc, ◌+◌, ◌≡◌, refl, ap, true, none, some, [], ◌∷◌, arith, if◌then◌else◌, length,
  get_elem?, any, Comparable, ◌==◌, eq_iff,
}
use switchboard.GoMap.Defs.{GoMap, get, has, put, delete, keys, Distinct}

module _ {ℓ κ} {K : Type ℓ} {V : Type κ} ⦃e : Comparable K⦄ where
  pub length-put :
      (k : K) (v : V) (m : GoMap K V)
      → length (put k v m) ≡ (if has k m then length m else length m + 1)
  unfolding has put
  length-put k v [] = ground arith
  length-put k v ((i, w) ∷ m) = ground (arith, length-put k v m)

  pub delete_absent : (k : K) (m : GoMap K V) → get k m ≡ none → delete k m ≡ m
  unfolding get delete
  delete_absent k [] h = refl
  delete_absent k ((i, w) ∷ m) h = ground (arith, delete_absent k m)

  pub length-delete :
      (k : K) (m : GoMap K V)
      → Distinct m
      → length (delete k m) + (if has k m then 1 else 0) ≡ length m
  unfolding has delete
  length-delete k [] d = ground arith
  length-delete k ((i, w) ∷ m) d =
      ground (arith, eq_iff i k, length-delete k m d.1, delete_absent k m)

  -- A key that a `range` meets is in the map.
  pub has-get_elem? :
      (m : GoMap K V) (i : ℕ) (k : K) → get_elem? (keys m) i ≡ some k → has k m ≡ true
  unfolding has keys
  has-get_elem? [] i k h = ground arith
  has-get_elem? ((j, v) ∷ m) zero k h = ground (arith, eq_iff j k)
  has-get_elem? ((j, v) ∷ m) (suc i) k h = ground (arith, has-get_elem? m i k h)

  -- A `range` over the keys meets exactly the keys of the map.
  pub any-keys : (k : K) (m : GoMap K V) → any (λ j. j == k) (keys m) ≡ has k m
  unfolding has keys
  any-keys k [] = refl
  any-keys k ((i, w) ∷ m) = ground (arith, any-keys k m)

  pub length-keys : (m : GoMap K V) → length (keys m) ≡ length m
  unfolding keys
  length-keys [] = refl
  length-keys (x ∷ m) = ap suc (length-keys m)
