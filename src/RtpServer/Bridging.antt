-- ===== src/RtpServer/Bridging.antt =====
-- `BridgeMedia`, and what becomes of a bridge when its sessions end.
use switchboard.Prelude.{
  ◌≡◌, refl, ap, true, false, Option, none, some, [], arith, beq_refl, Str, str_eq, nat_eq,
}
use switchboard.GoMap
use switchboard.RtpSession
use switchboard.RtpSession.{Session, get_session, state_bridged}
use switchboard.RtpSession.Life.{set_session_bridged-get, destroy_session_lem, Destroys}
use switchboard.RtpBridge
use switchboard.RtpBridge.{Socket, no_socket, Network, Bridge, Endpoint, open_socket}
use switchboard.RtpBridge.Calls.{create_bridge_lem, CanBridge, Creates}
use switchboard.RtpServer.{
  Server, destroy_session, bridge_media, endpoint_of, bridged, mark_bridged, is_bridged,
  is_terminated, Status,
}
use switchboard.RtpServer.State.{IsServer}

abbrev pub end_of : Str → Session → Endpoint
end_of id s = endpoint_of id (s.local_addr, s.local_port, s.remote_addr, s.remote_port)

-- The side of a bridge that stands for a session.
abbrev pub side_of : Socket → Session → Endpoint
side_of conn s = record {
  session_id = s.id;
  local_addr = s.local_addr;
  local_port = s.local_port;
  remote_addr = s.remote_addr;
  remote_port = s.remote_port;
  conn = conn;
}

abbrev pub state_of : Option Session → Option RtpSession.SessionState
state_of none = none
state_of (some s) = some s.state

-- What `BridgeMedia` answers for two sessions that exist.
abbrev pub Bridges : Network → Str → Session → Session → Server → Server × Str × Status → Type 0
Bridges net k a b s (t, id, is_bridged) =
    (id ≡ k)
    × CanBridge net (side_of no_socket a) (side_of no_socket b) s.bridges
    × (RtpBridge.get_bridge k t.bridges
        ≡ some (record {
          id = k;
          session_a = side_of open_socket a;
          session_b = side_of open_socket b;
          active = true;
          cancelled = false;
        }))
    × (RtpBridge.get_bridge_by_session a.id t.bridges ≡ RtpBridge.get_bridge k t.bridges)
    × (RtpBridge.get_bridge_by_session b.id t.bridges ≡ RtpBridge.get_bridge k t.bridges)
    × (state_of (get_session a.id t.sessions) ≡ some state_bridged)
    × (state_of (get_session b.id t.sessions) ≡ some state_bridged)
Bridges net k a b s (t, id, status) = (t ≡ s) × (id ≡ [])

marked :
    (a b : Str) (x y : Session) (m : RtpSession.Manager)
    → GoMap.get a m.sessions ≡ some x
    → GoMap.get b m.sessions ≡ some y
    → (state_of (get_session a (mark_bridged a b m)) ≡ some state_bridged)
      × (state_of (get_session b (mark_bridged a b m)) ≡ some state_bridged)
unfolding get_session
marked a b x y m ha hb = (
  ground (
    arith,
    set_session_bridged-get b a (RtpSession.set_session_bridged a m).0,
    set_session_bridged-get a a m,
    beq_refl a,
  ),
  ground (
    arith,
    set_session_bridged-get b b (RtpSession.set_session_bridged a m).0,
    set_session_bridged-get a b m,
    beq_refl b,
  ),
)

bridged-Bridges :
    (net : Network) (k : Str) (a b : Session) (s : Server)
    (r : RtpBridge.Manager × RtpBridge.Result)
    → GoMap.get a.id s.sessions.sessions ≡ some a
    → GoMap.get b.id s.sessions.sessions ≡ some b
    → Creates net k (end_of a.id a) (end_of b.id b) s.bridges r
    → Bridges net k a b s (bridged a.id b.id s r)
unfolding RtpBridge.get_bridge_by_session RtpBridge.get_bridge
bridged-Bridges net k a b s (m, RtpBridge.ok id) ha hb (v, e, can, led, put) =
    let (sa, sb) = marked a.id b.id a b s.sessions ha hb in
    let led_to : (j : Str)
        → GoMap.get j m.session_map ≡ some k
        → RtpBridge.bridge_at (GoMap.get j m.session_map) m ≡ GoMap.get k m.bridges =
      λ j h. rw h refl in
    (
      e,
      can,
      ground (arith, put k, beq_refl k),
      led_to a.id (ground (arith, led a.id, beq_refl a.id)),
      led_to b.id (ground (arith, led b.id, beq_refl b.id)),
      sa,
      sb,
    )
bridged-Bridges net k a b s (m, RtpBridge.err e) ha hb c =
    (ap (λ x. record s { bridges = x }) c.0, refl)

-- `BridgeMedia` of two sessions that exist, under a fresh ID, on a well-formed server: where it
-- answers that they are bridged, neither was in a bridge, both had a remote endpoint and their local
-- ports could be bound. The new bridge is active and has the endpoints of the two sessions, local and
-- remote, each with its socket open; both sessions lead to it and are in state bridged. Where it answers anything else, it changes nothing.
pub bridge_media_lem :
    (net : Network) (k : Str) (a b : Session) (s : Server)
    → IsServer s
    → GoMap.get k s.bridges.bridges ≡ none
    → GoMap.get a.id s.sessions.sessions ≡ some a
    → GoMap.get b.id s.sessions.sessions ≡ some b
    → Bridges net k a b s (bridge_media net k a.id b.id s)
unfolding bridge_media RtpSession.get_session_endpoint
bridge_media_lem net k a b s v fresh ha hb =
    rw (ha, hb)
      (bridged-Bridges net k a b s _ ha hb
        (create_bridge_lem net k (end_of a.id a) (end_of b.id b) s.bridges v.1 fresh))

-- What `DestroySession` does to the bridge of its session: nothing. The session is gone and its pair
-- of ports can be allocated again, while the bridge is still there, active, with open sockets.
pub destroy_session-Leaks :
    (id k : Str) (a : Session) (b : Bridge) (s : Server)
    → IsServer s
    → GoMap.get id s.sessions.sessions ≡ some a
    → GoMap.get id s.bridges.session_map ≡ some k
    → GoMap.get k s.bridges.bridges ≡ some b
    → let after = destroy_session id s in
      (after.1 ≡ is_terminated)
      × (GoMap.get id after.0.sessions.sessions ≡ none)
      × (GoMap.has a.local_port after.0.sessions.port_pool.available ≡ true)
      × (RtpBridge.get_bridge_by_session id after.0.bridges ≡ some b)
      × (b.active ≡ true)
      × (b.session_a.conn ≡ open_socket)
      × (b.session_b.conn ≡ open_socket)
unfolding destroy_session RtpBridge.get_bridge_by_session
destroy_session-Leaks id k a b s v ha hk hb =
    let (e, none_left, free) = leaks _ (destroy_session_lem id s.sessions v.0) in
    let (same, act, ca, cb) = v.1.relays k b hb in
    (rw e refl, none_left, free, rw hk hb, act, ca, cb)
  where
    leaks :
        (r : RtpSession.Manager × Option RtpSession.Err × Option Session)
        → Destroys id s.sessions r
        → (r.1 ≡ none)
          × (GoMap.get id r.0.sessions ≡ none)
          × (GoMap.has a.local_port r.0.port_pool.available ≡ true)
    leaks (n, none, some t) (w, e, (x, g, te), gone) = (
      refl,
      ground (arith, gone.sessions id, e, beq_refl id),
      ground (arith, gone.ports.free a.local_port, ha, g, te, beq_refl a.local_port),
    )
    leaks (n, none, none) d = absurd d
    leaks (n, some e, some t) d = absurd d
    leaks (n, some e, none) d = absurd (ground (arith, ha, d))
