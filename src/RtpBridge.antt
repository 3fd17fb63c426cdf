-- ===== src/RtpBridge.antt =====
-- internal/rtpmanager/bridge/bridge.go: the bridges between two sessions of an RTP manager. A method
-- that takes the manager's mutex is one step. What the network gives is an argument: which
-- addresses `net.ParseIP` reads, and whether each socket can be bound.
pub mod Relay
pub mod Invariant
pub mod Calls
mod Tests
use switchboard.Prelude.{
  ℕ, Bool, true, false, not, ◌&&◌, ◌||◌, Option, none, some, [], ◌∷◌, if◌then◌else◌, length, ℤ,
  ◌==◌, Str, pos, negsuc, str_eq, nat_eq,
}
use switchboard.GoMap
use switchboard.GoMap.{GoMap}

-- The field `conn` of an endpoint.
pub data Socket : Type 0 where
  no_socket open_socket closed_socket : Socket

pub record Endpoint : Type 0 where
  pub session_id : Str
  pub local_addr : Str
  pub local_port : ℕ
  pub remote_addr : Str
  pub remote_port : ℤ
  pub conn : Socket

pub record Bridge : Type 0 where
  pub id : Str
  pub session_a : Endpoint
  pub session_b : Endpoint
  pub active : Bool
  -- Whether `cancel` was called on the bridge's context.
  pub cancelled : Bool

pub record Manager : Type 0 where
  pub bridges : GoMap Str Bridge
  pub session_map : GoMap Str Str

pub data Err : Type 0 where
  already_bridged : Str → Str → Err
  no_remote invalid_ip : Str → Err
  bind_failed : ℕ → Err
  bridge_not_found : Str → Err

pub data Result : Type 0 where
  ok : Str → Result
  err : Err → Result

-- `NewManager`
abbrev pub new_manager : Manager
new_manager = record { bridges = []; session_map = [] }

pub record Network : Type 0 where
  pub parses : Str → Bool
  pub binds : ℕ → Bool

-- endpoint.RemoteAddr == "" || endpoint.RemotePort == 0
abbrev pub lacks_remote : Endpoint → Bool
lacks_remote e = (e.remote_addr == []) || is_zero e.remote_port
  where
    is_zero : ℤ → Bool
    is_zero (pos n) = n == 0
    is_zero (negsuc n) = false

-- Whether the second port can be bound: not the port that the first socket has just taken, unless it
-- is 0, which asks for any free port.
abbrev pub binds_after : Network → ℕ → ℕ → Bool
binds_after net first port = net.binds port && (not (first == port) || (port == 0))

-- `bindSockets`: the two endpoints after it, and the error where there is one.
unfoldable pub bind_sockets : Network → Endpoint → Endpoint → Endpoint × Endpoint × Option Err
bind_sockets net a b =
    if not (net.parses a.remote_addr)
    then (a, b, some (invalid_ip a.remote_addr))
    else if not (net.parses b.remote_addr)
    then (a, b, some (invalid_ip b.remote_addr))
    else if not (net.binds a.local_port)
    then (a, b, some (bind_failed a.local_port))
    else if not (binds_after net a.local_port b.local_port)
    then (record a { conn = closed_socket }, b, some (bind_failed b.local_port))
    else (record a { conn = open_socket }, record b { conn = open_socket }, none)

abbrev pub insert : Str → Endpoint × Endpoint × Option Err → Manager → Manager × Result
insert bridge_id (a, b, some e) m = (m, err e)
insert bridge_id (a, b, none) m = (
  record {
    bridges =
        GoMap.put bridge_id
          (record {
            id = bridge_id;
            session_a = a;
            session_b = b;
            active = true;
            cancelled = false;
          })
          m.bridges;
    session_map = GoMap.put b.session_id bridge_id (GoMap.put a.session_id bridge_id m.session_map);
  },
  ok bridge_id,
)

-- The guards on the remote endpoints, and what follows.
abbrev pub validated : Network → Str → Endpoint → Endpoint → Manager → Manager × Result
validated net bridge_id a b m =
    if lacks_remote a
    then (m, err (no_remote a.session_id))
    else if lacks_remote b
    then (m, err (no_remote b.session_id))
    else insert bridge_id (bind_sockets net a b) m

abbrev pub unless_bridged :
    Network → Str → Endpoint → Endpoint → Option Str → Option Str → Manager → Manager × Result
unless_bridged net bridge_id a b (some other) in_b m = (m, err (already_bridged a.session_id other))
unless_bridged net bridge_id a b none (some other) m = (m, err (already_bridged b.session_id other))
unless_bridged net bridge_id a b none none m = validated net bridge_id a b m

-- `CreateBridge`: `bridge_id` is the ID that is drawn.
unfoldable pub create_bridge : Network → Str → Endpoint → Endpoint → Manager → Manager × Result
create_bridge net bridge_id a b m =
    unless_bridged net bridge_id a b (GoMap.get a.session_id m.session_map)
      (GoMap.get b.session_id m.session_map) m

abbrev pub close_socket : Socket → Socket
close_socket no_socket = no_socket
close_socket _ = closed_socket

abbrev pub closes : Endpoint → Endpoint
closes e = record e { conn = close_socket e.conn }

-- What `destroyBridgeLocked` does to the bridge itself, which its relays see.
abbrev pub stopped : Bridge → Bridge
stopped b = record b {
  session_a = closes b.session_a;
  session_b = closes b.session_b;
  active = false;
  cancelled = true;
}

-- `destroyBridgeLocked`, on the manager.
unfoldable pub destroy_bridge_locked : Bridge → Manager → Manager
destroy_bridge_locked b m = record {
  bridges = GoMap.delete b.id m.bridges;
  session_map =
      GoMap.delete b.session_b.session_id (GoMap.delete b.session_a.session_id m.session_map);
}

abbrev pub destroy_found : Str → Option Bridge → Manager → Manager × Option Err × Option Bridge
destroy_found bridge_id none m = (m, some (bridge_not_found bridge_id), none)
destroy_found bridge_id (some b) m = (destroy_bridge_locked b m, none, some (stopped b))

-- `DestroyBridge`; the last component is the bridge that was stopped.
unfoldable pub destroy_bridge : Str → Manager → Manager × Option Err × Option Bridge
destroy_bridge bridge_id m = destroy_found bridge_id (GoMap.get bridge_id m.bridges) m

abbrev pub destroy_of : Str → Option Bridge → Manager → Manager × Str × Option Bridge
destroy_of bridge_id none m = (m, bridge_id, none)
destroy_of bridge_id (some b) m = (destroy_bridge_locked b m, bridge_id, some (stopped b))

abbrev pub destroy_at : Option Str → Manager → Manager × Str × Option Bridge
destroy_at none m = (m, [], none)
destroy_at (some bridge_id) m = destroy_of bridge_id (GoMap.get bridge_id m.bridges) m

-- `DestroyBySession`; it returns no error.
unfoldable pub destroy_by_session : Str → Manager → Manager × Str × Option Bridge
destroy_by_session session_id m = destroy_at (GoMap.get session_id m.session_map) m

-- `GetBridge`
unfoldable pub get_bridge : Str → Manager → Option Bridge
get_bridge bridge_id m = GoMap.get bridge_id m.bridges

abbrev pub bridge_at : Option Str → Manager → Option Bridge
bridge_at none m = none
bridge_at (some bridge_id) m = GoMap.get bridge_id m.bridges

-- `GetBridgeBySession`
unfoldable pub get_bridge_by_session : Str → Manager → Option Bridge
get_bridge_by_session session_id m = bridge_at (GoMap.get session_id m.session_map) m

-- `IsSessionBridged`
unfoldable pub is_session_bridged : Str → Manager → Bool
is_session_bridged session_id m = GoMap.has session_id m.session_map

-- `Count`
unfoldable pub bridge_count : Manager → ℕ
bridge_count m = length m.bridges

-- The loop of `CloseAll`, over the bridges that the map had.
abbrev pub destroy_each : GoMap Str Bridge → Manager → Manager
destroy_each [] m = m
destroy_each ((id, b) ∷ bs) m = destroy_each bs (destroy_bridge_locked b m)

-- `CloseAll`
unfoldable pub close_all : Manager → Manager
close_all m = destroy_each m.bridges m
