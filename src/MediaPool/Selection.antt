-- ===== src/MediaPool/Selection.antt =====
-- `selectMember`: which member it picks, and in which turn.
use switchboard.Prelude.{
  ℕ, zero, suc, ◌+◌, ◌-◌, ◌%◌, ◌<◌, ◌≡◌, refl, ap, ◌∙◌, ◌≢◌, ◌⊎◌, inl, inr, Bool, true, false,
  Option, none, some, List, [], ◌∷◌, arith, leb, if◌then◌else◌, Bool-cases, length, get_elem?, ◌==◌,
  eq_iff, Str, nat_eq, str_eq,
}
use native.Mathlib.Nat.{mod-eq_of_lt, mod-add-mod, add-mod_right, mod-lt}
use switchboard.GoMap
use switchboard.GoMap.{GoMap}
use switchboard.MediaPool.{
  PoolMember, is_available, available_members, Pool, found, select_member, no_available_members, ok,
  err,
}

-- A node whose member is healthy, connected and active.
pub data Available (ms : GoMap Str PoolMember) (id : Str) : Type 0 where
  available : (m : PoolMember) → GoMap.get id ms ≡ some m → is_available m ≡ true → Available ms id

Available-cons :
    (j : Str) (n : PoolMember) (ms : GoMap Str PoolMember) (id : Str)
    → GoMap.has j ms ≡ false
    → Available ms id
    → Available ((j, n) ∷ ms) id
unfolding GoMap.get GoMap.has
Available-cons j n ms id fresh (available m e a) = available m (ground (arith, eq_iff j id)) a

module _ (j : Str) (n : PoolMember) (ms : GoMap Str PoolMember) (id : Str)
    (fresh : GoMap.has j ms ≡ false)
    (later : (i : ℕ) → get_elem? (available_members ms) i ≡ some id → Available ms id) where
  pick_first :
      (b : Bool)
      → is_available n ≡ b
      → (i : ℕ)
      → get_elem? (if b then j ∷ available_members ms else available_members ms) i ≡ some id
      → Available ((j, n) ∷ ms) id
  unfolding GoMap.get
  pick_first true e zero f = available n (ground (arith, eq_iff j id)) e
  pick_first true e (suc i) f = Available-cons j n ms id fresh (later i f)
  pick_first false e i f = Available-cons j n ms id fresh (later i f)

get_elem?-available :
    (ms : GoMap Str PoolMember) (id : Str)
    → GoMap.Distinct ms
    → (i : ℕ) → get_elem? (available_members ms) i ≡ some id
    → Available ms id
get_elem?-available [] id d i h = absurd (ground arith)
get_elem?-available ((j, n) ∷ ms) id d i h =
    pick_first j n ms id d.0 (get_elem?-available ms id d.1) (is_available n) refl i h

found-eq-ok : (o : Option Str) (id : Str) → found o ≡ ok id → o ≡ some id
found-eq-ok none id h = cc
found-eq-ok (some x) id h = cc

-- A selected member is healthy, has a transport and is active: draining and disabled members are
-- never picked.
pub select_member-Available :
    (p : Pool) (id : Str)
    → GoMap.Distinct p.members
    → (select_member p).1 ≡ ok id
    → Available p.members id
unfolding select_member
select_member-Available p id d h = elim (Bool-cases (length (available_members p.members) == 0)) [
  | inl e ↦ absurd (cc (rw e at h))
  | inr e ↦ get_elem?-available p.members id d _ (found-eq-ok _ id (rw e at h))
]

get_elem?-below {ℓ} :
    {A : Type ℓ} (xs : List A) (i : ℕ) → i < length xs → (a : A) × (get_elem? xs i ≡ some a)
get_elem?-below [] i h = elim h [ ]
get_elem?-below (x ∷ xs) zero h = (x, refl)
get_elem?-below (x ∷ xs) (suc i) h = get_elem?-below xs i (omega arith)

length-zero {ℓ} : {A : Type ℓ} (xs : List A) → (length xs == 0) ≡ true → xs ≡ []
length-zero [] h = refl
length-zero (x ∷ xs) h = absurd (ground arith)

-- `selectMember` fails only where no member is available, and then changes nothing.
pub select_member_total :
    (p : Pool)
    → ((available_members p.members ≡ []) × (select_member p ≡ (p, err no_available_members)))
      ⊎ ((id : Str) × ((select_member p).1 ≡ ok id))
unfolding select_member
select_member_total p = elim (Bool-cases (length (available_members p.members) == 0)) [
  | inl e ↦ inl (length-zero (available_members p.members) e, rw e refl)
  | inr e ↦
      let n = length (available_members p.members) in
      let (id, f) =
        get_elem?-below (available_members p.members)
          ((p.next_index + 1) % 18446744073709551616 % n) (ground arith) in
      inr (id, rw e (rw f refl))
]

-- The pool after k selections.
unfoldable pub selects : ℕ → Pool → Pool
selects zero p = p
selects (suc k) p = selects k (select_member p).0

select_member_next :
    (p : Pool)
    → length (available_members p.members) ≢ 0
    → p.next_index + 1 < 18446744073709551616
    → select_member p ≡ (
      record p { next_index = p.next_index + 1 },
      found (
          get_elem?
            (available_members p.members)
            ((p.next_index + 1) % length (available_members p.members))),
    )
unfolding select_member
select_member_next p h w = elim (Bool-cases (length (available_members p.members) == 0)) [
  | inl e ↦ absurd (ground arith)
  | inr e ↦ rw e (rw (mod-eq_of_lt w) refl)
]

selects_lem :
    (k : ℕ) (p : Pool)
    → length (available_members p.members) ≢ 0
    → p.next_index + k < 18446744073709551616
    → selects k p ≡ record p { next_index = p.next_index + k }
unfolding selects
selects_lem zero p h w = ground arith
selects_lem (suc k) p h w = rw (select_member_next p h (omega arith)) (
    selects_lem k (record p { next_index = p.next_index + 1 }) h (omega arith)
    ∙ ap (λ n. record p { next_index = n }) (omega arith))

-- The turn in which `i` comes next, after a counter that stands at `next`.
turn : ℕ → ℕ → ℕ → ℕ
turn n next i = if leb ((next + 1) % n) i then i - (next + 1) % n else i + n - (next + 1) % n

turn_lem : (n next i : ℕ) → i < n → (turn n next i < n) × ((next + turn n next i + 1) % n ≡ i)
unfolding turn
turn_lem n next i h = ground (
  arith,
  mod-lt (next + 1) {m = n},
  mod-add-mod (next + 1) n (turn n next i),
  mod-eq_of_lt {n = i} {m = n} h,
  add-mod_right i n,
)

-- While the members stay as they are and the counter does not wrap, every one of the n available
-- members is picked within n selections.
pub round_robin :
    (p : Pool) (i : ℕ) (id : Str)
    → get_elem? (available_members p.members) i ≡ some id
    → i < length (available_members p.members)
    → p.next_index + length (available_members p.members) < 18446744073709551616
    → (k : ℕ) × (k < length (available_members p.members))
      × ((select_member (selects k p)).1 ≡ ok id)
round_robin p i id e h w =
    let n = length (available_members p.members) in
    let (soon, hits) = turn_lem n p.next_index i h in
    (
      turn n p.next_index i,
      soon,
      rw (selects_lem (turn n p.next_index i) p (ground arith) (omega arith)) (
          rw
            (select_member_next (record p { next_index = p.next_index + turn n p.next_index i })
              (ground arith) (omega arith))
            (rw (hits, e) refl)),
    )
