-- ===== src/PortPool/Invariant.antt =====
-- The ports of a pool and its two maps.
use switchboard.Prelude.{
  ℕ, zero, suc, ◌+◌, ◌%◌, ◌≤◌, ◌≡◌, refl, inl, inr, Bool, true, false, ◌&&◌, ◌||◌, [], arith, ltb,
  leb, Bool-cases, Option-cases, length, get_elem?, ◌==◌, nat_eq,
}
use switchboard.GoMap
use switchboard.GoMap.{GoMap}
use switchboard.PortPool.{PortPool, fill, new_port_pool, round_up, take_port, allocate, release}

-- The ports that `NewPortPool min max` is to manage: the even ones from `min` up to below `max`.
abbrev pub in_range : ℕ → ℕ → ℕ → Bool
in_range min_port max_port port = leb min_port port && ltb port max_port && port % 2 == 0

pub record Inv (p : PortPool) : Type 0 where
  pub min_even : p.min_port % 2 ≡ 0
  pub available_once : GoMap.Distinct p.available
  pub allocated_once : GoMap.Distinct p.allocated
  pub disjoint : (port : ℕ) → GoMap.has port p.available ≡ true → GoMap.has port p.allocated ≡ false
  pub covers :
      (port : ℕ)
      → (GoMap.has port p.available || GoMap.has port p.allocated)
        ≡ in_range p.min_port p.max_port port

has-fill :
    (f port max_port : ℕ) (m : GoMap ℕ Bool) (k : ℕ)
    → port % 2 ≡ 0
    → max_port ≤ port + f
    → GoMap.has k (fill f port max_port m) ≡ (GoMap.has k m || in_range port max_port k)
unfolding fill
has-fill zero port max_port m k e h = ground arith
has-fill (suc f) port max_port m k e h =
    ground
      (arith, has-fill f (port + 2) max_port (GoMap.put port true m) k, GoMap.has-put port k true m)

fill-Distinct :
    (f port max_port : ℕ) (m : GoMap ℕ Bool)
    → GoMap.Distinct m
    → GoMap.Distinct (fill f port max_port m)
unfolding fill
fill-Distinct zero port max_port m d = d
fill-Distinct (suc f) port max_port m d = ground (
  arith,
  fill-Distinct f (port + 2) max_port (GoMap.put port true m) (GoMap.put-Distinct port true m d),
)

pub new_port_pool-Inv : (min_port max_port : ℕ) → Inv (new_port_pool min_port max_port)
unfolding new_port_pool GoMap.has
new_port_pool-Inv min_port max_port = record {
  min_even = ground arith;
  available_once = fill-Distinct max_port (round_up min_port) max_port [] tt;
  allocated_once = tt;
  disjoint = λ port h. refl;
  covers = λ port. ground (arith, has-fill max_port (round_up min_port) max_port [] port);
}

take-Inv :
    (port : ℕ) (p : PortPool)
    → GoMap.has port p.available ≡ true
    → Inv p
    → Inv (record p {
      available = GoMap.delete port p.available;
      allocated = GoMap.put port true p.allocated;
    })
take-Inv port p free v = record {
  min_even = v.min_even;
  available_once = GoMap.delete-Distinct port p.available v.available_once;
  allocated_once = GoMap.put-Distinct port true p.allocated v.allocated_once;
  disjoint = λ k h. ground (
    arith,
    GoMap.has-delete port k p.available,
    GoMap.has-put port k true p.allocated,
    v.disjoint k,
  );
  covers = λ k. ground (
    arith,
    GoMap.has-delete port k p.available,
    GoMap.has-put port k true p.allocated,
    v.covers k,
    v.disjoint port,
  );
}

give-Inv :
    (port : ℕ) (p : PortPool)
    → GoMap.has port p.allocated ≡ true
    → Inv p
    → Inv (record p {
      allocated = GoMap.delete port p.allocated;
      available = GoMap.put port true p.available;
    })
give-Inv port p lent v = record {
  min_even = v.min_even;
  available_once = GoMap.put-Distinct port true p.available v.available_once;
  allocated_once = GoMap.delete-Distinct port p.allocated v.allocated_once;
  disjoint = λ k h. ground (
    arith,
    GoMap.has-put port k true p.available,
    GoMap.has-delete port k p.allocated,
    v.disjoint k,
  );
  covers = λ k. ground (
    arith,
    GoMap.has-put port k true p.available,
    GoMap.has-delete port k p.allocated,
    v.covers k,
  );
}

-- `Allocate` and `Release` keep the invariant: no port is lost, made up, or in both maps.
pub allocate-Inv : (pick : ℕ) (p : PortPool) → Inv p → Inv (allocate pick p).0
unfolding allocate
allocate-Inv pick p v =
    elim (Option-cases (get_elem? (GoMap.keys p.available) (pick % length p.available))) [
      | inl e ↦ rw (e, take_port) v
      | inr (k, e) ↦ rw (e, take_port) (take-Inv k p (GoMap.has-get_elem? p.available _ k e) v)
    ]

pub release-Inv : (rtp_port : ℕ) (p : PortPool) → Inv p → Inv (release rtp_port p)
unfolding release
release-Inv port p v = elim (Bool-cases (GoMap.has port p.allocated)) [
  | inl e ↦ rw e (give-Inv port p e v)
  | inr e ↦ rw e v
]
