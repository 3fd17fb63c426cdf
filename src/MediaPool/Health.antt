-- ===== src/MediaPool/Health.antt =====
-- `checkAllHealth` and `checkMemberHealth`. What the transport answers is an argument: whether
-- `NewGRPCTransport` connects, and what `Ready` returns afterwards.
use switchboard.Prelude.{
  ◌+◌, ◌<◌, ◌≡◌, refl, Bool, true, false, not, ◌&&◌, Option, none, some, List, [], ◌∷◌, arith, ltb,
  leb, if◌then◌else◌, length, All, eq_iff, Str, str_eq,
}
use native.Mathlib.Nat.{add-zero}
use switchboard.GoMap.{GoMap}
use switchboard.GoMap
use switchboard.MediaPool.{Pool, PoolMember, add_one32, reaches}

pub record Probe : Type 0 where
  pub connects : Bool
  pub ready : Bool

-- `checkMemberHealth`: a member with no transport tries to connect.
unfoldable pub check_member_health : Probe → PoolMember → PoolMember × Bool
check_member_health q m =
    if not m.transport && not q.connects
    then (m, false)
    else (record m { transport = true }, q.ready)

-- The counters and the thresholds of the loop body of `checkAllHealth`.
unfoldable pub count_check : Pool → PoolMember → Bool → PoolMember
count_check p m true =
    let successes = add_one32 m.success_count in
    record m {
      healthy = if not m.healthy && reaches successes p.healthy_threshold then true else m.healthy;
      fail_count = 0;
      success_count = successes;
    }
count_check p m false =
    let fails = add_one32 m.fail_count in
    record m {
      healthy = if m.healthy && reaches fails p.unhealthy_threshold then false else m.healthy;
      fail_count = fails;
      success_count = 0;
    }

unfoldable pub check_member : Pool → Probe → PoolMember → PoolMember
unfolding check_member_health count_check
check_member p q m = let (m', healthy) = check_member_health q m in count_check p m' healthy

check_members : Pool → (Str → Probe) → GoMap Str PoolMember → GoMap Str PoolMember
check_members p probe [] = []
check_members p probe ((id, m) ∷ ms) = (id, check_member p (probe id) m) ∷ check_members p probe ms

-- `checkAllHealth`
unfoldable pub check_all_health : (Str → Probe) → Pool → Pool
unfolding check_members check_member
check_all_health probe p = record p { members = check_members p probe p.members }

-- The checks of one member over time.
unfoldable pub checks : Pool → List Probe → PoolMember → PoolMember
checks p [] m = m
checks p (q ∷ qs) m = checks p qs (check_member p q m)

-- A member goes down by consecutive failures: after one or more checks that all fail, it is healthy
-- exactly if it was before and the failures, counted on from its fail count, are still fewer than
-- `UnhealthyThreshold`; none of them brings it back.
pub unhealthy_after :
    (p : Pool) (q : Probe) (qs : List Probe) (m : PoolMember)
    → All (λ q. q.ready ≡ false) (q ∷ qs)
    → m.fail_count + length (q ∷ qs) < 2147483648
    → (checks p (q ∷ qs) m).healthy
      ≡ (m.healthy && ltb (m.fail_count + length (q ∷ qs)) p.unhealthy_threshold)
unfolding checks check_member
unhealthy_after p q [] m a w = ground (arith, a)
unhealthy_after p q (r ∷ rs) m a w =
    ground (arith, a.0, unhealthy_after p r rs (check_member p q m) a.1)

-- A member comes back by consecutive successes: after any checks that all find it connected and
-- ready, it is healthy exactly if the successes, counted from its last failure, have reached
-- `HealthyThreshold`.
pub healthy_after :
    (p : Pool) (qs : List Probe) (m : PoolMember)
    → All (λ q. (q.connects ≡ true) × (q.ready ≡ true)) qs
    → m.healthy ≡ leb p.healthy_threshold m.success_count
    → m.success_count + length qs < 2147483648
    → (checks p qs m).healthy ≡ leb p.healthy_threshold (m.success_count + length qs)
unfolding checks check_member
healthy_after p [] m a h w = rw add-zero h
healthy_after p (q ∷ qs) m a h w = ground (arith, healthy_after p qs (check_member p q m) a.1)

-- A check leaves a member healthy only with a transport, if that held before, and leaves its drain
-- state and its address alone.
pub check_member-transport :
    (p : Pool) (q : Probe) (m : PoolMember)
    → (m.healthy ≡ true → m.transport ≡ true)
    → ((check_member p q m).healthy ≡ true → (check_member p q m).transport ≡ true)
      × (m.transport ≡ true → (check_member p q m).transport ≡ true)
      × ((check_member p q m).drain_state ≡ m.drain_state)
      × ((check_member p q m).address ≡ m.address)
unfolding check_member
check_member-transport p q m h = (λ e. ground arith, λ e. ground arith, ground arith, ground arith)

abbrev pub probed : Pool → Probe → Option PoolMember → Option PoolMember
probed p q none = none
probed p q (some m) = some (check_member p q m)

get-check_members :
    (p : Pool) (probe : Str → Probe) (id : Str) (ms : GoMap Str PoolMember)
    → GoMap.get id (check_members p probe ms) ≡ probed p (probe id) (GoMap.get id ms)
unfolding check_members GoMap.get
get-check_members p probe id [] = refl
get-check_members p probe id ((j, m) ∷ ms) =
    ground (arith, eq_iff j id, get-check_members p probe id ms)

-- A round of checks gives every node its own check, and no other change.
pub get-check_all_health :
    (probe : Str → Probe) (p : Pool) (id : Str)
    → GoMap.get id (check_all_health probe p).members ≡ probed p (probe id) (GoMap.get id p.members)
unfolding check_all_health
get-check_all_health probe p id = get-check_members p probe id p.members

check_members-Distinct :
    (p : Pool) (probe : Str → Probe) (ms : GoMap Str PoolMember)
    → GoMap.Distinct ms
    → GoMap.Distinct (check_members p probe ms)
unfolding check_members GoMap.has
check_members-Distinct p probe [] d = tt
check_members-Distinct p probe ((j, m) ∷ ms) d =
    (ground (arith, get-check_members p probe j ms), check_members-Distinct p probe ms d.1)

pub check_all_health-Distinct :
    (probe : Str → Probe) (p : Pool)
    → GoMap.Distinct p.members
    → GoMap.Distinct (check_all_health probe p).members
unfolding check_all_health
check_all_health-Distinct probe p d = check_members-Distinct p probe p.members d
