-- ===== src/MediaPool/Tests.antt =====
-- Runs of the pool of RTP managers, and its theorems at concrete pools.
use switchboard.Prelude.{
  ℕ, ◌<◌, ◌≡◌, refl, inl, Bool, true, false, some, [], ◌∷◌, arith, Str, codes, nat_eq, str_eq,
}
use switchboard.GoMap
use switchboard.MediaPool.{
  Pool, PoolMember, select_member, track_session, get_member_for_session, active, ok,
}
use switchboard.MediaPool.Selection.{selects, round_robin}
use switchboard.MediaPool.Drain.{starts, apply, drain_life_cycle, specified}
use switchboard.MediaPool.Health.{Probe, checks, unhealthy_after}
use switchboard.MediaPool.Sessions.{
  create_session, bridge_media, create_session_pending_remote_on_node, new_pool, created, ready,
}
use switchboard.MediaPool.Sessions.Invariant.{IsPool}
use switchboard.MediaPool.Sessions.Reach.{
  Reach, next, creates, creates_near, Reach-IsPool, new_pool-IsPool,
}
use switchboard.MediaPool.Sessions.Affinity.{bridge_near}

abbrev up : Str → PoolMember
up address = record {
  address = address;
  transport = true;
  healthy = true;
  drain_state = active;
  fail_count = 0;
  success_count = 0;
}

abbrev node_a : Str
node_a = codes "rtp-0"

abbrev node_b : Str
node_b = codes "rtp-1"

abbrev leg_a : Str
leg_a = codes "s1"

abbrev leg_b : Str
leg_b = codes "s2"

abbrev two_nodes : Pool
two_nodes = record {
  members = (node_a, up (codes "h0:9090")) ∷ (node_b, up (codes "h1:9090")) ∷ [];
  session_to_node = [];
  node_to_sessions = [];
  next_index = 0;
  unhealthy_threshold = 3;
  healthy_threshold = 2;
}

abbrev nodes : GoMap.GoMap Str (Str × Bool)
nodes = (node_a, (codes "h0:9090", true)) ∷ (node_b, (codes "h1:9090", true)) ∷ []

nodes-Distinct : GoMap.Distinct nodes
unfolding GoMap.has
nodes-Distinct = (refl, (refl, tt))

two_nodes-IsPool : IsPool two_nodes × (ready two_nodes ≡ true)
unfolding new_pool
two_nodes-IsPool = new_pool-IsPool nodes 3 2 two_nodes nodes-Distinct refl

-- One session on each node.
abbrev busy : Pool
busy = record two_nodes {
  session_to_node = (leg_a, node_a) ∷ (leg_b, node_b) ∷ [];
  node_to_sessions = (node_a, (leg_a, tt) ∷ []) ∷ (node_b, (leg_b, tt) ∷ []) ∷ [];
}

Reach-IsPool_example :
    IsPool
      (create_session_pending_remote_on_node leg_a
        (some leg_b)
        (create_session (some leg_a) two_nodes).0).0
unfolding create_session select_member track_session created GoMap.get GoMap.put
Reach-IsPool_example =
    Reach-IsPool
      (next (next Reach.here (creates (some leg_a) (inl refl)))
        (creates_near leg_a (some leg_b) (inl refl)))
      two_nodes-IsPool.0

round_robin_example : (k : ℕ) × (k < 2) × ((select_member (selects k two_nodes)).1 ≡ ok node_a)
round_robin_example = round_robin two_nodes 0 node_a refl (omega arith) (omega arith)

drain_life_cycle_example :
    apply (starts node_a) two_nodes
    ≡ specified (starts node_a) two_nodes (GoMap.get node_a two_nodes.members)
drain_life_cycle_example = drain_life_cycle (starts node_a) two_nodes

abbrev fails : Probe
fails = record { connects = true; ready = false }

abbrev passes : Probe
passes = record { connects = true; ready = true }

unhealthy_after_example :
    (checks two_nodes (fails ∷ fails ∷ fails ∷ []) (up node_a)).healthy ≡ false
unhealthy_after_example =
    unhealthy_after two_nodes fails (fails ∷ fails ∷ []) (up node_a) (refl, (refl, (refl, tt)))
      (omega arith)

bridge_near_example :
    let r = create_session_pending_remote_on_node leg_a (some (codes "s9")) busy in
    (r.1 ≡ ok (codes "s9"))
    × (get_member_for_session (codes "s9") r.0 ≡ some (node_a, up (codes "h0:9090")))
    × (bridge_media leg_a (codes "s9") r.0 ≡ ok (node_a, up (codes "h0:9090")))
unfolding get_member_for_session GoMap.get
bridge_near_example = bridge_near leg_a (codes "s9") busy node_a (up (codes "h0:9090")) refl
