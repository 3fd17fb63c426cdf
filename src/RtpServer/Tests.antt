-- ===== src/RtpServer/Tests.antt =====
-- Runs of an RTP manager's server, and the theorems at concrete servers.
use switchboard.Prelude.{
  ℕ, ◌+◌, ◌≡◌, refl, true, false, none, some, List, [], ◌∷◌, ℤ, Str, codes, pos, str_eq, nat_eq,
}
use switchboard.GoMap
use switchboard.PortPool
use switchboard.PortPool.{new_port_pool}
use switchboard.RtpSession
use switchboard.RtpSession.{Session, new_manager, state_created, create_with, session_of_call}
use switchboard.RtpBridge
use switchboard.RtpBridge.{Bridge, Endpoint, Network, open_socket}
use switchboard.RtpServer.{
  Server, new_server, create_session, bridge_media, destroy_session, is_terminated, close,
}
use switchboard.RtpServer.State.{
  IsServer, Reach, starts, next, step, creates, bridges_media, Reach-IsServer, close_lem,
}
use switchboard.RtpServer.Bridging.{bridge_media_lem, Bridges, destroy_session-Leaks, end_of}

abbrev pcmu : List Str
pcmu = codes "0" ∷ []

abbrev open_network : Network
open_network = record { parses = λ ip. true; binds = λ port. true }

abbrev v0 : Server
v0 = new_server 10000 10008 (codes "10.0.0.1")

abbrev v1 : Server
v1 = step v0 (creates 0 (codes "s1") 7 (codes "c1") (codes "10.9.9.9") (pos 4000) pcmu)

abbrev v2 : Server
v2 = step v1 (creates 0 (codes "s2") 8 (codes "c2") (codes "10.9.9.8") (pos 4002) pcmu)

abbrev v3 : Server
v3 = step v2 (bridges_media open_network (codes "b1") (codes "s1") (codes "s2"))

abbrev session_with : Str → Str → ℕ → Str → ℤ → ℕ → Session
session_with id call_id port addr remote at = record {
  id = id;
  call_id = call_id;
  local_addr = codes "10.0.0.1";
  local_port = port;
  rtcp_port = port + 1;
  remote_addr = addr;
  remote_port = remote;
  codec = codes "0";
  state = state_created;
  created_at = at;
}

abbrev s1 : Session
s1 = session_with (codes "s1") (codes "c1") 10000 (codes "10.9.9.9") (pos 4000) 7

abbrev s2 : Session
s2 = session_with (codes "s2") (codes "c2") 10002 (codes "10.9.9.8") (pos 4002) 8

v0_none : GoMap.get (codes "s1") v0.sessions.sessions ≡ none
unfolding new_server create_session new_manager RtpSession.create_session create_with
    session_of_call new_port_pool PortPool.fill PortPool.allocate PortPool.take_port GoMap.get
    GoMap.put GoMap.keys GoMap.delete
v0_none = refl

v1_none : GoMap.get (codes "s2") v1.sessions.sessions ≡ none
unfolding new_server create_session new_manager RtpSession.create_session create_with
    session_of_call new_port_pool PortPool.fill PortPool.allocate PortPool.take_port GoMap.get
    GoMap.put GoMap.keys GoMap.delete
v1_none = refl

v2_none : GoMap.get (codes "b1") v2.bridges.bridges ≡ none
unfolding new_server create_session new_manager RtpSession.create_session create_with
    session_of_call new_port_pool PortPool.fill PortPool.allocate PortPool.take_port GoMap.get
    GoMap.put GoMap.keys GoMap.delete
v2_none = refl

v2_s1 : GoMap.get (codes "s1") v2.sessions.sessions ≡ some s1
unfolding new_server create_session new_manager RtpSession.create_session create_with
    session_of_call new_port_pool PortPool.fill PortPool.allocate PortPool.take_port GoMap.get
    GoMap.put GoMap.keys GoMap.delete
v2_s1 = refl

v2_s2 : GoMap.get (codes "s2") v2.sessions.sessions ≡ some s2
unfolding new_server create_session new_manager RtpSession.create_session create_with
    session_of_call new_port_pool PortPool.fill PortPool.allocate PortPool.take_port GoMap.get
    GoMap.put GoMap.keys GoMap.delete
v2_s2 = refl

v3_s1 : GoMap.get (codes "s1") v3.sessions.sessions ≡ some (RtpSession.as_bridged s1)
unfolding new_server create_session new_manager RtpSession.create_session create_with
    session_of_call new_port_pool PortPool.fill PortPool.allocate PortPool.take_port GoMap.get
    GoMap.put GoMap.keys GoMap.delete bridge_media RtpSession.get_session_endpoint
    RtpSession.set_session_bridged RtpSession.change RtpBridge.create_bridge RtpBridge.bind_sockets
v3_s1 = refl

v3_led : GoMap.get (codes "s1") v3.bridges.session_map ≡ some (codes "b1")
unfolding new_server create_session new_manager RtpSession.create_session create_with
    session_of_call new_port_pool PortPool.fill PortPool.allocate PortPool.take_port GoMap.get
    GoMap.put GoMap.keys GoMap.delete bridge_media RtpSession.get_session_endpoint
    RtpSession.set_session_bridged RtpSession.change RtpBridge.create_bridge RtpBridge.bind_sockets
v3_led = refl

abbrev b1 : Bridge
b1 = record {
  id = codes "b1";
  session_a = record (end_of (codes "s1") s1) { conn = open_socket };
  session_b = record (end_of (codes "s2") s2) { conn = open_socket };
  active = true;
  cancelled = false;
}

v3_b1 : GoMap.get (codes "b1") v3.bridges.bridges ≡ some b1
unfolding new_server create_session new_manager RtpSession.create_session create_with
    session_of_call new_port_pool PortPool.fill PortPool.allocate PortPool.take_port GoMap.get
    GoMap.put GoMap.keys GoMap.delete bridge_media RtpSession.get_session_endpoint
    RtpSession.set_session_bridged RtpSession.change RtpBridge.create_bridge RtpBridge.bind_sockets
v3_b1 = refl

v2-Reach : Reach v2
v2-Reach =
    next v1 (creates 0 (codes "s2") 8 (codes "c2") (codes "10.9.9.8") (pos 4002) pcmu)
      (next v0 (creates 0 (codes "s1") 7 (codes "c1") (codes "10.9.9.9") (pos 4000) pcmu)
        (starts 10000 10008 (codes "10.0.0.1")) v0_none)
      v1_none

v3-Reach : Reach v3
v3-Reach =
    next v2 (bridges_media open_network (codes "b1") (codes "s1") (codes "s2")) v2-Reach v2_none

v3-IsServer : IsServer v3
v3-IsServer = Reach-IsServer v3 v3-Reach

Reach-IsServer_example : IsServer v3
Reach-IsServer_example = Reach-IsServer v3 v3-Reach

bridge_media_lem_example :
    Bridges open_network
      (codes "b1")
      s1
      s2
      v2
      (bridge_media open_network (codes "b1") (codes "s1") (codes "s2") v2)
bridge_media_lem_example =
    bridge_media_lem open_network (codes "b1") s1 s2 v2 (Reach-IsServer v2 v2-Reach) v2_none v2_s1
      v2_s2

destroy_session-Leaks_example :
    let after = destroy_session (codes "s1") v3 in
    (after.1 ≡ is_terminated)
    × (GoMap.get (codes "s1") after.0.sessions.sessions ≡ none)
    × (GoMap.has 10000 after.0.sessions.port_pool.available ≡ true)
    × (RtpBridge.get_bridge_by_session (codes "s1") after.0.bridges ≡ some b1)
    × (true ≡ true)
    × (open_socket ≡ open_socket)
    × (open_socket ≡ open_socket)
destroy_session-Leaks_example =
    destroy_session-Leaks (codes "s1") (codes "b1") (RtpSession.as_bridged s1) b1 v3 v3-IsServer
      v3_s1 v3_led v3_b1

close_lem_example :
    ((close v3).sessions.sessions ≡ [])
    × ((close v3).sessions.call_to_session ≡ [])
    × ((port : ℕ) → GoMap.has port (close v3).sessions.port_pool.allocated ≡ false)
    × ((k : Str) → GoMap.get k (close v3).bridges.bridges ≡ none)
    × ((id : Str) → GoMap.get id (close v3).bridges.session_map ≡ none)
close_lem_example = close_lem v3 v3-IsServer
