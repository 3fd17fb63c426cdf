-- ===== src/RtpServer.antt =====
-- internal/rtpmanager/server/server.go: the RPCs of an RTP manager, over its session manager and its
-- bridge manager. An RPC runs as one step. Error texts are the errors themselves.
pub mod State
pub mod Bridging
mod Tests
use switchboard.Prelude.{
  ℕ, ◌%◌, ◌^◌, ◌⊎◌, inl, inr, not, Option, none, some, List, [], if◌then◌else◌, ℤ, ◌==◌, Str,
  str_eq, nat_eq,
}
use switchboard.GoMap
use switchboard.PortPool
use switchboard.PortPool.{PortPool, new_port_pool, available}
use switchboard.Sdp.{Description}
use switchboard.RtpSession
use switchboard.RtpSession.{ok, err}
use switchboard.RtpBridge
use switchboard.RtpBridge.{Endpoint, Network, no_socket}

pub record Server : Type 0 where
  pub sessions : RtpSession.Manager
  pub bridges : RtpBridge.Manager

-- `NewServer`
unfoldable pub new_server : ℕ → ℕ → Str → Server
new_server rtp_port_min rtp_port_max advertise_addr = record {
  sessions = RtpSession.new_manager (new_port_pool rtp_port_min rtp_port_max) advertise_addr;
  bridges = RtpBridge.new_manager;
}

pub data Status : Type 0 where
  is_created is_active is_bridged is_terminated : Status
  session_error : RtpSession.Err → Status
  bridge_error : RtpBridge.Err → Status
  id_required : Status

pub record CreateSessionResponse : Type 0 where
  pub session_id : Str
  pub local_addr : Str
  -- An int32 in Go; a port fits.
  pub local_port : ℕ
  pub selected_codec : Str
  pub sdp_body : Option Description
  pub status : Status

abbrev create_response : RtpSession.Result → CreateSessionResponse
create_response (err e) = record {
  session_id = [];
  local_addr = [];
  local_port = 0;
  selected_codec = [];
  sdp_body = none;
  status = session_error e;
}
create_response (ok s sdp) = record {
  session_id = s.id;
  local_addr = s.local_addr;
  local_port = s.local_port % 2 ^ 32;
  selected_codec = s.codec;
  sdp_body = some sdp;
  status = is_created;
}

-- `CreateSession`
unfoldable pub create_session :
    ℕ → Str → ℕ → Str → Str → ℤ → List Str → Server → Server × CreateSessionResponse
create_session pick session_id now call_id remote_addr remote_port offered s =
    let (m, r) =
      RtpSession.create_session pick session_id now call_id remote_addr remote_port offered
        s.sessions in
    (record s { sessions = m }, create_response r)

abbrev status_or : Status → Option RtpSession.Err → Status
status_or done none = done
status_or done (some e) = session_error e

-- `DestroySession`
unfoldable pub destroy_session : Str → Server → Server × Status
destroy_session session_id s =
    let (m, e, t) = RtpSession.destroy_session session_id s.sessions in
    (record s { sessions = m }, status_or is_terminated e)

-- `UpdateSessionRemote`
unfoldable pub update_session_remote : Str → Str → ℤ → Server → Server × Status
update_session_remote session_id remote_addr remote_port s =
    let (m, e) = RtpSession.update_remote_endpoint session_id remote_addr remote_port s.sessions in
    (record s { sessions = m }, status_or is_active e)

-- `Health`: the number of sessions and of available ports, as int32.
unfoldable pub health : Server → ℕ × ℕ
health s = (RtpSession.count s.sessions % 2 ^ 32, available s.sessions.port_pool % 2 ^ 32)

abbrev pub endpoint_of : Str → Str × ℕ × Str × ℤ → Endpoint
endpoint_of session_id (local_addr, local_port, remote_addr, remote_port) = record {
  session_id = session_id;
  local_addr = local_addr;
  local_port = local_port;
  remote_addr = remote_addr;
  remote_port = remote_port;
  conn = no_socket;
}

abbrev pub mark_bridged : Str → Str → RtpSession.Manager → RtpSession.Manager
mark_bridged a b m = (RtpSession.set_session_bridged b (RtpSession.set_session_bridged a m).0).0

abbrev pub bridged :
    Str → Str → Server → RtpBridge.Manager × RtpBridge.Result → Server × Str × Status
bridged a b s (m, RtpBridge.err e) = (record s { bridges = m }, [], bridge_error e)
bridged a b s (m, RtpBridge.ok id) =
    (record { sessions = mark_bridged a b s.sessions; bridges = m }, id, is_bridged)

abbrev pub bridge_endpoints :
    Network
    → Str
    → Str
    → Str
    → Server
    → RtpSession.Err ⊎ (Str × ℕ × Str × ℤ)
    → RtpSession.Err ⊎ (Str × ℕ × Str × ℤ)
    → Server × Str × Status
bridge_endpoints net id a b s (inl e) eb = (s, [], session_error e)
bridge_endpoints net id a b s (inr ea) (inl e) = (s, [], session_error e)
bridge_endpoints net id a b s (inr ea) (inr eb) =
    bridged a b s (RtpBridge.create_bridge net id (endpoint_of a ea) (endpoint_of b eb) s.bridges)

-- `BridgeMedia`
unfoldable pub bridge_media : Network → Str → Str → Str → Server → Server × Str × Status
bridge_media net bridge_id session_a session_b s =
    bridge_endpoints net bridge_id session_a session_b s
      (RtpSession.get_session_endpoint session_a s.sessions)
      (RtpSession.get_session_endpoint session_b s.sessions)

abbrev unbridge_status : Option RtpBridge.Err → Status
unbridge_status none = is_terminated
unbridge_status (some e) = bridge_error e

-- `UnbridgeMedia`
unfoldable pub unbridge_media : Str → Str → Server → Server × Str × Status
unbridge_media bridge_id session_id s =
    let by_id = RtpBridge.destroy_bridge bridge_id s.bridges in
    let by_session = RtpBridge.destroy_by_session session_id s.bridges in
    if not (bridge_id == [])
    then (record s { bridges = by_id.0 }, bridge_id, unbridge_status by_id.1)
    else if not (session_id == [])
    then (record s { bridges = by_session.0 }, by_session.1, is_terminated)
    else (s, [], id_required)

-- `Close`
unfoldable pub close : Server → Server
close s = record {
  sessions = RtpSession.close_all s.sessions;
  bridges = RtpBridge.close_all s.bridges;
}
