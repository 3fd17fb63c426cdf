-- ===== src/RtpBridge/Tests.antt =====
-- Runs of a bridge manager, and the theorems at concrete managers.
use switchboard.Prelude.{
  ℕ, ◌≤◌, ◌≡◌, refl, sym, true, false, none, List, [], ◌∷◌, map, arith, length, All, Str, codes,
  pos, str_eq, nat_eq,
}
use mathlib.Core.Path.{subst}
use switchboard.GoMap
use switchboard.RtpBridge
use switchboard.RtpBridge.{
  Bridge, Endpoint, Network, Manager, Result, new_manager, create_bridge, destroy_by_session,
  no_socket, is_session_bridged, bridge_count,
}
use switchboard.RtpBridge.Calls.{
  IsManager, Creates, create_bridge_lem, Ends, destroy_by_session_lem,
}
use switchboard.RtpBridge.Relay.{
  Round, datagram, read_error, is_stopped, relays_lem, relay_a_to_b, relay_b_to_a, Stats, Counters,
  buffer, delivered, after,
}

abbrev side : Str → ℕ → Endpoint
side id port = record {
  session_id = id;
  local_addr = codes "10.0.0.1";
  local_port = port;
  remote_addr = codes "10.9.9.9";
  remote_port = pos 4000;
  conn = no_socket;
}

abbrev open_network : Network
open_network = record { parses = λ ip. true; binds = λ port. true }

abbrev two_sides : Manager
two_sides =
    (create_bridge open_network (codes "b1") (side (codes "s1") 10000) (side (codes "s2") 10002)
      new_manager).0

new_manager-IsManager : IsManager new_manager
new_manager-IsManager = record {
  bridges_once = tt;
  sessions_once = tt;
  relays = λ k b h. absurd (ground (arith, GoMap.get-nil {V = Bridge} k));
  keyed = λ k b s h i. absurd (ground (arith, GoMap.get-nil {V = Bridge} k));
  indexed = λ s k h. absurd (ground (arith, GoMap.get-nil {V = Str} s));
}

fresh_bridge : GoMap.get (codes "b1") new_manager.bridges ≡ none
unfolding GoMap.get
fresh_bridge = refl

create_bridge_lem_example :
    Creates open_network
      (codes "b1")
      (side (codes "s1") 10000)
      (side (codes "s2") 10002)
      new_manager
      (create_bridge open_network
        (codes "b1")
        (side (codes "s1") 10000)
        (side (codes "s2") 10002)
        new_manager)
create_bridge_lem_example =
    create_bridge_lem open_network (codes "b1") (side (codes "s1") 10000) (side (codes "s2") 10002)
      new_manager new_manager-IsManager fresh_bridge

two_sides-IsManager : IsManager two_sides
two_sides-IsManager = Creates-IsManager_of _ (
    create_bridge_lem open_network (codes "b1") (side (codes "s1") 10000) (side (codes "s2") 10002)
      new_manager new_manager-IsManager fresh_bridge)
  where
    Creates-IsManager_of :
        (r : Manager × Result)
        → Creates open_network
            (codes "b1")
            (side (codes "s1") 10000)
            (side (codes "s2") 10002)
            new_manager
            r
        → IsManager r.0
    Creates-IsManager_of (n, RtpBridge.ok k) c = c.0
    Creates-IsManager_of (n, RtpBridge.err e) c = subst IsManager (sym c.0) new_manager-IsManager

s2_bridged : is_session_bridged (codes "s2") two_sides ≡ true
unfolding is_session_bridged create_bridge RtpBridge.bind_sockets GoMap.has GoMap.get GoMap.put
s2_bridged = refl

destroy_by_session_lem_example :
    Ends (codes "s2") two_sides (destroy_by_session (codes "s2") two_sides)
destroy_by_session_lem_example = destroy_by_session_lem (codes "s2") two_sides two_sides-IsManager

abbrev rounds : List Round
rounds =
    datagram (1 ∷ 2 ∷ []) true
    ∷ read_error false
    ∷ datagram (3 ∷ []) false
    ∷ datagram (4 ∷ []) true
    ∷ is_stopped
    ∷ datagram (5 ∷ []) true
    ∷ []

abbrev no_packets : Counters
no_packets = record { packets = 0; bytes = 0 }

abbrev no_stats : Stats
no_stats = record { a_to_b = no_packets; b_to_a = no_packets }

relays_lem_example :
    ((relay_a_to_b rounds no_stats).0 ≡ map buffer (delivered rounds))
    × ((relay_a_to_b rounds no_stats).1
        ≡ record no_stats { a_to_b = after (relay_a_to_b rounds no_stats).0 no_packets })
    × ((relay_b_to_a rounds no_stats).0 ≡ map buffer (delivered rounds))
    × ((relay_b_to_a rounds no_stats).1
        ≡ record no_stats { b_to_a = after (relay_b_to_a rounds no_stats).0 no_packets })
    × All (λ d. length d ≤ 1500) (map buffer (delivered rounds))
    × (All (λ d. length d ≤ 1500) (delivered rounds)
        → map buffer (delivered rounds) ≡ delivered rounds)
relays_lem_example =
    relays_lem rounds no_stats (omega arith) (omega arith) (omega arith) (omega arith)
