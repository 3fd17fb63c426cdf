-- ===== src/PortPool/Calls.antt =====
-- What the calls on a pool return, over every history of a pool.
use switchboard.Prelude.{
  ℕ, zero, suc, ◌+◌, ◌%◌, ◌≤◌, ◌≡◌, refl, ◌∙◌, ◌⊎◌, inl, inr, Bool, true, false, Option, none, some,
  List, [], ◌∷◌, arith, if◌then◌else◌, Bool-cases, length, get_elem?, ◌==◌, beq_refl, nat_eq,
}
use switchboard.GoMap
use switchboard.GoMap.{GoMap}
use switchboard.PortPool.{
  PortPool, no_ports_available, new_port_pool, allocate, release, available, allocated, Err,
  take_port,
}
use switchboard.PortPool.Invariant.{Inv, new_port_pool-Inv, allocate-Inv, release-Inv}

-- One call of a client; the argument of `allocates` is the port that the `range` met first.
pub data Call : Type 0 where
  allocates releases : ℕ → Call

abbrev pub step : PortPool → Call → PortPool
step p (allocates pick) = (allocate pick p).0
step p (releases rtp_port) = release rtp_port p

unfoldable pub run : PortPool → List Call → PortPool
run p [] = p
run p (c ∷ cs) = run (step p c) cs

step-Inv : (p : PortPool) (c : Call) → Inv p → Inv (step p c)
step-Inv p (allocates pick) v = allocate-Inv pick p v
step-Inv p (releases rtp_port) v = release-Inv rtp_port p v

run-Inv_of : (p : PortPool) (cs : List Call) → Inv p → Inv (run p cs)
unfolding run
run-Inv_of p [] v = v
run-Inv_of p (c ∷ cs) v = run-Inv_of (step p c) cs (step-Inv p c v)

pub run-Inv :
    (min_port max_port : ℕ) (cs : List Call) → Inv (run (new_port_pool min_port max_port) cs)
run-Inv min_port max_port cs = run-Inv_of _ cs (new_port_pool-Inv min_port max_port)

-- `q` is `p` with the pair moved from the available ports to the allocated ones.
pub record Taken (p q : PortPool) (rtp_port rtcp_port : ℕ) : Type 0 where
  pub even : rtp_port % 2 ≡ 0
  pub next : rtcp_port ≡ rtp_port + 1
  pub above : p.min_port ≤ rtp_port
  pub below : rtcp_port ≤ p.max_port
  pub free : GoMap.has rtp_port p.allocated ≡ false
  pub lent :
      (k : ℕ) → GoMap.has k q.allocated ≡ (if rtp_port == k then true else GoMap.has k p.allocated)
  pub gone :
      (k : ℕ) → GoMap.has k q.available ≡ (if rtp_port == k then false else GoMap.has k p.available)
  pub one_less : available q + 1 ≡ available p
  pub one_more : allocated q ≡ allocated p + 1

abbrev pub Allocates : PortPool → PortPool × (Err ⊎ (ℕ × ℕ)) → Type 0
Allocates p (q, inl e) =
    (available p ≡ 0) × (q ≡ p) × (e ≡ no_ports_available p.min_port p.max_port)
Allocates p (q, inr (rtp_port, rtcp_port)) = Taken p q rtp_port rtcp_port

length-keys : (m : GoMap ℕ Bool) (i : ℕ) → get_elem? (GoMap.keys m) i ≡ none → length m ≤ i
unfolding GoMap.keys
length-keys [] i h = omega arith
length-keys ((k, v) ∷ m) zero h = cc
length-keys ((k, v) ∷ m) (suc i) h = omega (arith, length-keys m i h)

take_port-Allocates :
    (p : PortPool) (o : Option ℕ)
    → Inv p
    → (o ≡ none → length p.available ≡ 0)
    → ((k : ℕ) → o ≡ some k → GoMap.has k p.available ≡ true)
    → Allocates p (take_port p o)
unfolding take_port available allocated
take_port-Allocates p none v empty met = (empty refl, refl, refl)
take_port-Allocates p (some k) v empty met =
    let here = met k refl in
    record {
      even = ground (arith, v.covers k);
      next = refl;
      above = ground (arith, v.covers k);
      below = ground (arith, v.covers k, v.min_even);
      free = v.disjoint k here;
      lent = λ j. GoMap.has-put k j true p.allocated;
      gone = λ j. GoMap.has-delete k j p.available;
      one_less = ground (arith, GoMap.length-delete k p.available v.available_once);
      one_more = ground (arith, GoMap.length-put k true p.allocated, v.disjoint k);
    }

none_met : (n pick : ℕ) → n ≤ pick % n → n ≡ 0
none_met n pick h = ground arith

-- `Allocate` fails only on a pool with no port available, whatever the order of the `range`, and
-- then changes nothing. Otherwise the pair that it returns is an even port of the range and its
-- successor, at most `maxPort`; the port was not allocated, it is allocated and not available
-- afterwards, no other port moves, and the two counts change by one.
pub allocate-Allocates : (pick : ℕ) (p : PortPool) → Inv p → Allocates p (allocate pick p)
unfolding allocate
allocate-Allocates pick p v =
    take_port-Allocates p _ v
      (λ e.
        none_met (length p.available) pick (length-keys p.available (pick % length p.available) e))
      (λ k e. GoMap.has-get_elem? p.available _ k e)

pub record Returned (p q : PortPool) (rtp_port : ℕ) : Type 0 where
  pub lent :
      (k : ℕ) → GoMap.has k q.allocated ≡ (if rtp_port == k then false else GoMap.has k p.allocated)
  pub free :
      (k : ℕ) → GoMap.has k q.available ≡ (if rtp_port == k then true else GoMap.has k p.available)
  pub one_more : available q ≡ available p + 1
  pub one_less : allocated q + 1 ≡ allocated p

-- `Release` of a port that is not allocated changes nothing.
pub release_unknown :
    (rtp_port : ℕ) (p : PortPool) → GoMap.has rtp_port p.allocated ≡ false → release rtp_port p ≡ p
unfolding release
release_unknown port p h = rw h

-- `Release` of an allocated port makes it available, and moves no other port.
pub release-Returned :
    (rtp_port : ℕ) (p : PortPool)
    → Inv p
    → GoMap.has rtp_port p.allocated ≡ true
    → Returned p (release rtp_port p) rtp_port
unfolding release available allocated
release-Returned port p v h = rw h (record {
  lent = λ k. GoMap.has-delete port k p.allocated;
  free = λ k. GoMap.has-put port k true p.available;
  one_more = ground (arith, GoMap.length-put port true p.available, v.disjoint port);
  one_less = ground (arith, GoMap.length-delete port p.allocated v.allocated_once);
})

-- An allocated port cannot be released twice: the second `Release` changes nothing.
pub release_twice :
    (rtp_port : ℕ) (p : PortPool)
    → Inv p
    → release rtp_port (release rtp_port p) ≡ release rtp_port p
release_twice port p v = elim (Bool-cases (GoMap.has port p.allocated)) [
  | inl e ↦ release_unknown port _ (rw ((release-Returned port p v e).lent port) (rw beq_refl))
  | inr e ↦ release_unknown port _ (rw (release_unknown port p e) e)
]

total : PortPool → ℕ
total p = available p + allocated p

total-allocate : (pick : ℕ) (p : PortPool) → Inv p → total (allocate pick p).0 ≡ total p
unfolding total
total-allocate pick p v = total_of (allocate pick p) (allocate-Allocates pick p v)
  where
    total_of :
        (r : PortPool × (Err ⊎ (ℕ × ℕ)))
        → Allocates p r
        → available r.0 + allocated r.0 ≡ available p + allocated p
    total_of (q, inl e) a = rw a.1
    total_of (q, inr (rtp, rtcp)) a = omega arith

total-release : (rtp_port : ℕ) (p : PortPool) → Inv p → total (release rtp_port p) ≡ total p
unfolding total
total-release port p v = elim (Bool-cases (GoMap.has port p.allocated)) [
  | inl e ↦ omega (arith, release-Returned port p v e)
  | inr e ↦ rw (release_unknown port p e)
]

-- No history changes the number of pairs, available and allocated together.
pub total-run :
    (p : PortPool) (cs : List Call)
    → Inv p
    → available (run p cs) + allocated (run p cs) ≡ available p + allocated p
unfolding run total
total-run p [] v = refl
total-run p (allocates pick ∷ cs) v =
    total-run (allocate pick p).0 cs (allocate-Inv pick p v) ∙ total-allocate pick p v
total-run p (releases port ∷ cs) v =
    total-run (release port p) cs (release-Inv port p v) ∙ total-release port p v
