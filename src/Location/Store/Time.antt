-- ===== src/Location/Store/Time.antt =====
-- Expiry: the accepted intervals, and the TTL that an AOR is stored with.
use switchboard.Prelude.{
  ℕ, ◌+◌, ◌≤◌, ◌<◌, ◌≡◌, refl, ◌⊎◌, inl, inr, none, some, [], ◌∷◌, arith, ltb, if◌then◌else◌,
  Bool-cases, ℤ, is_positive, to_ℕ, Str, str_eq, nat_eq,
}
use switchboard.GoMap
use switchboard.GoMap.{GoMap}
use switchboard.Location.Binding.{Binding, ttl}
use switchboard.Location.Store.{Store, Bindings, normalize, max_ttl}

-- `Register` takes an interval between the minimum and the maximum as it is asked, the default
-- interval where none is asked (or a negative one), cuts a longer one down to the maximum, and
-- refuses exactly a shorter one. What it takes lies in the limits.
pub normalize_lem :
    (s : Store) (expires : ℤ)
    → s.min_expires ≤ s.max_expires
    → let asked = if is_positive expires then to_ℕ expires else s.default_expires in
      ((asked < s.min_expires) × (normalize s expires ≡ none))
      ⊎ ((n : ℕ) × (normalize s expires ≡ some n)
          × (s.min_expires ≤ n)
          × (n ≤ s.max_expires)
          × (asked ≤ s.max_expires → n ≡ asked)
          × (s.max_expires ≤ asked → n ≡ s.max_expires))
unfolding normalize
normalize_lem s expires h =
    let asked = if is_positive expires then to_ℕ expires else s.default_expires in
    elim (Bool-cases (ltb asked s.min_expires)) [
      | inl e ↦ inl (ground arith, rw e refl)
      | inr e ↦ elim (Bool-cases (ltb s.max_expires asked)) [
        | inl f ↦ inr (s.max_expires, rw (e, f) refl, h, ground arith, λ l. ground arith, λ l. refl)
        | inr f ↦
            inr (asked, rw (e, f) refl, ground arith, ground arith, λ l. refl, λ l. ground arith)
      ]
    ]

pub max_ttl-longest : (now longest : ℕ) (m : Bindings) → longest ≤ max_ttl now longest m
unfolding max_ttl
max_ttl-longest now longest [] = omega arith
max_ttl-longest now longest ((id, b) ∷ m) =
    ground (arith, max_ttl-longest now (if ltb longest (ttl now b) then ttl now b else longest) m)

-- No binding of the map outlives the TTL that the AOR is stored with.
pub max_ttl-covers :
    (now longest : ℕ) (m : Bindings) (id : Str) (b : Binding)
    → GoMap.get id m ≡ some b
    → b.expires_at ≤ now + max_ttl now longest m
unfolding max_ttl GoMap.get
max_ttl-covers now longest [] id b e = absurd (ground arith)
max_ttl-covers now longest ((j, c) ∷ m) id b e = ground (
  arith,
  max_ttl-longest now (if ltb longest (ttl now c) then ttl now c else longest) m,
  max_ttl-covers now (if ltb longest (ttl now c) then ttl now c else longest) m id b,
)
