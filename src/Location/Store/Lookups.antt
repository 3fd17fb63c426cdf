-- ===== src/Location/Store/Lookups.antt =====
-- What `Lookup` and `LookupOne` give of the abstract map of bindings.
use switchboard.Prelude.{
  ℕ, zero, suc, ◌≡◌, refl, sym, ap, ◌∙◌, ◌↔◌, ◌⊎◌, inl, inr, true, false, Option, none, some, List,
  [], ◌∷◌, arith, Bool-cases, get_elem?, All, ℤ, ltz, ◌==◌, eq_iff, beq_refl, Str, pos, negsuc,
  str_eq, nat_eq,
}
use mathlib.Core.Path.{subst}
use switchboard.GoMap
use switchboard.GoMap.{GoMap}
use switchboard.TtlStore
use switchboard.Location.Binding.{
  Binding, is_expired, Float32, ltf, nan, minus_infinity, plus_infinity, finite,
}
use switchboard.Location.Store.{
  Store, Bindings, bindings_of, active, lookup, effective_q, minus_one_f,
}
use switchboard.Location.Store.Refinement.{IsStore, live, live-some, binding_at, read-Distinct}

abbrev pub Listed : Binding → List Binding → Type 0
Listed b bs = (i : ℕ) × (get_elem? bs i ≡ some b)

-- Under the head's key nothing else is found.
get-tail :
    (j id : Str) (c b : Binding) (m : Bindings)
    → GoMap.Distinct ((j, c) ∷ m)
    → GoMap.get id m ≡ some b
    → GoMap.get id ((j, c) ∷ m) ≡ some b
unfolding GoMap.get GoMap.has
get-tail j id c b m d e = ground (arith, d, e, eq_iff j id)

active-live :
    (now : ℕ) (m : Bindings) (b : Binding)
    → GoMap.Distinct m
    → Listed b (active now m)
    → (id : Str) × (live now (GoMap.get id m) ≡ some b)
unfolding GoMap.select GoMap.values GoMap.get
active-live now [] b d (i, h) = absurd (ground (arith, h))
active-live now ((j, c) ∷ m) b d l = elim (Bool-cases (is_expired now c)) [
  | inl e ↦ later (active-live now m b d.1 (subst (Listed b) (skipped e) l))
  | inr e ↦ at e (λ i h. active-live now m b d.1 (i, h)) (subst (Listed b) (kept e) l)
]
  where
    skipped : is_expired now c ≡ true → active now ((j, c) ∷ m) ≡ active now m
    skipped e = rw e refl

    kept : is_expired now c ≡ false → active now ((j, c) ∷ m) ≡ c ∷ active now m
    kept e = rw e refl

    later :
        (id : Str) × (live now (GoMap.get id m) ≡ some b)
        → (id : Str) × (live now (GoMap.get id ((j, c) ∷ m)) ≡ some b)
    later (id, f) =
        let g = live-some now (GoMap.get id m) b f in
        (id, ap (live now) (get-tail j id c b m d g ∙ sym g) ∙ f)

    at :
        is_expired now c ≡ false
        → ((i : ℕ)
            → get_elem? (active now m) i ≡ some b
            → (id : Str) × (live now (GoMap.get id m) ≡ some b))
        → Listed b (c ∷ active now m)
        → (id : Str) × (live now (GoMap.get id ((j, c) ∷ m)) ≡ some b)
    at e rest (zero, h) = (j, ground (arith, h, e, beq_refl j))
    at e rest (suc i, h) = later (rest i h)

live-active :
    (now : ℕ) (m : Bindings) (b : Binding) (id : Str)
    → live now (GoMap.get id m) ≡ some b
    → Listed b (active now m)
unfolding GoMap.select GoMap.values GoMap.get
live-active now [] b id e = absurd (ground arith)
live-active now ((j, c) ∷ m) b id e = elim (Bool-cases (j == id)) [
  | inl same ↦ (0, ground arith)
  | inr other ↦ later (live-active now m b id (ground arith))
]
  where
    later : Listed b (active now m) → Listed b (active now ((j, c) ∷ m))
    later (i, h) = elim (Bool-cases (is_expired now c)) [
      | inl x ↦ (i, rw x h)
      | inr x ↦ (suc i, rw x h)
    ]

-- On a well-formed store `Lookup` returns exactly the live bindings of the AOR.
pub lookup_lem :
    (now : ℕ) (aor : Str) (s : Store) (b : Binding)
    → IsStore s
    → Listed b (lookup now aor s) ↔ ((id : Str) × (binding_at now aor id s ≡ some b))
unfolding lookup
lookup_lem now aor s b v = (
  active-live now (bindings_of (TtlStore.get now aor s.bindings)) b (read-Distinct now aor s v),
  λ (id, e). live-active now (bindings_of (TtlStore.get now aor s.bindings)) b id e,
)

ltz_trans : (a b c : ℤ) → ltz a b ≡ true → ltz b c ≡ true → ltz a c ≡ true
ltz_trans (pos a) (pos b) (pos c) h g = ground (arith, h, g)
ltz_trans (pos a) (pos b) (negsuc c) h g = absurd (ground (arith, g))
ltz_trans (pos a) (negsuc b) c h g = absurd (ground (arith, h))
ltz_trans (negsuc a) (pos b) (pos c) h g = refl
ltz_trans (negsuc a) (pos b) (negsuc c) h g = absurd (ground (arith, g))
ltz_trans (negsuc a) (negsuc b) (pos c) h g = refl
ltz_trans (negsuc a) (negsuc b) (negsuc c) h g = ground (arith, h, g)

ltf_trans : (p q r : Float32) → ltf p q ≡ true → ltf q r ≡ true → ltf p r ≡ true
ltf_trans (finite a) (finite b) (finite c) h g = ltz_trans a b c h g
ltf_trans nan q r h g = absurd (ground (arith, h))
ltf_trans minus_infinity q nan h g = absurd (ground (arith, g))
ltf_trans minus_infinity q minus_infinity h g = absurd (ground (arith, g))
ltf_trans minus_infinity q plus_infinity h g = refl
ltf_trans minus_infinity q (finite c) h g = refl
ltf_trans plus_infinity q r h g = absurd (ground (arith, h))
ltf_trans (finite a) nan r h g = absurd (ground (arith, h))
ltf_trans (finite a) minus_infinity r h g = absurd (ground (arith, h))
ltf_trans (finite a) plus_infinity r h g = absurd (ground (arith, g))
ltf_trans (finite a) (finite b) nan h g = absurd (ground (arith, g))
ltf_trans (finite a) (finite b) minus_infinity h g = absurd (ground (arith, g))
ltf_trans (finite a) (finite b) plus_infinity h g = refl

ltf_irrefl : (p : Float32) → ltf p p ≡ false
ltf_irrefl nan = refl
ltf_irrefl minus_infinity = refl
ltf_irrefl plus_infinity = refl
ltf_irrefl (finite (pos n)) = ground arith
ltf_irrefl (finite (negsuc n)) = ground arith

pub ltf_asym : (p q : Float32) → ltf p q ≡ true → ltf q p ≡ false
ltf_asym p q h = elim (Bool-cases (ltf q p)) [
  | inl g ↦ absurd (ground (arith, ltf_trans p q p h g, ltf_irrefl p))
  | inr g ↦ g
]

-- No binding of the list has a q-value above `q`.
abbrev pub NoneAbove : Float32 → List Binding → Type 0
NoneAbove q bs = All (λ c. ltf q (effective_q c) ≡ false) bs

-- What the loop chooses from `best` with its q-value on.
abbrev Chosen : Option Binding → Float32 → List Binding → Option Binding → Type 0
Chosen best q bs none = (best ≡ none) × NoneAbove q bs
Chosen best q bs (some b) =
    ((best ≡ some b) × NoneAbove q bs)
    ⊎ (Listed b bs × (ltf q (effective_q b) ≡ true) × NoneAbove (effective_q b) bs)

-- The answer of `LookupOne` among the live bindings of the AOR.
abbrev pub Picks : List Binding → Option Binding → Type 0
Picks bs none = NoneAbove minus_one_f bs
Picks bs (some b) =
    Listed b bs × (ltf minus_one_f (effective_q b) ≡ true) × NoneAbove (effective_q b) bs
