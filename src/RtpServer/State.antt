-- ===== src/RtpServer/State.antt =====
-- The two managers of a server, over every history.
use switchboard.Prelude.{
  ℕ, ◌≡◌, refl, sym, ◌⊎◌, inl, inr, false, none, List, [], arith, Bool-cases, Option-cases, ℤ, ◌==◌,
  Str, str_eq, nat_eq,
}
use mathlib.Core.Path.{subst}
use switchboard.GoMap
use switchboard.GoMap.{GoMap}
use switchboard.RtpSession
use switchboard.RtpSession.{Fresh}
use switchboard.RtpSession.Creation
use switchboard.RtpSession.Reach.{close_all-lent, Reach-IsManager, step-IsManager, bridges, closes}
use switchboard.RtpBridge
use switchboard.RtpBridge.{Network, Bridge, Endpoint}
use switchboard.RtpBridge.Calls
use switchboard.RtpBridge.Calls.{
  each-IsManager, create_bridge_lem, destroy_bridge-IsManager, destroy_by_session-IsManager,
}
use switchboard.RtpServer.{
  Server, create_session, destroy_session, update_session_remote, bridge_media, unbridge_media,
  close, new_server, bridge_endpoints, endpoint_of, bridged, mark_bridged,
}

abbrev pub IsServer : Server → Type 0
IsServer s = Creation.IsManager s.sessions × Calls.IsManager s.bridges

-- A call of `CloseAll` of the bridge manager.
pub close_bridges :
    (m : RtpBridge.Manager)
    → Calls.IsManager m
    → Calls.IsManager (RtpBridge.close_all m)
      × ((k : Str) → GoMap.get k (RtpBridge.close_all m).bridges ≡ none)
unfolding RtpBridge.close_all
close_bridges m v = each-IsManager m.bridges m (λ k. refl) v.bridges_once v

-- `Close` on a well-formed server: no session, no call, no bridge and no bridged session is left, and
-- no port stays allocated.
pub close_lem :
    (s : Server)
    → IsServer s
    → ((close s).sessions.sessions ≡ [])
      × ((close s).sessions.call_to_session ≡ [])
      × ((port : ℕ) → GoMap.has port (close s).sessions.port_pool.allocated ≡ false)
      × ((k : Str) → GoMap.get k (close s).bridges.bridges ≡ none)
      × ((id : Str) → GoMap.get id (close s).bridges.session_map ≡ none)
unfolding close RtpSession.close_all
close_lem s (v, w) =
    let (x, none_left) = close_bridges s.bridges w in
    (refl, refl, close_all-lent s.sessions v, none_left, λ id. unled id x none_left)
  where
    unled :
        (id : Str)
        → Calls.IsManager (RtpBridge.close_all s.bridges)
        → ((k : Str) → GoMap.get k (RtpBridge.close_all s.bridges).bridges ≡ none)
        → GoMap.get id (RtpBridge.close_all s.bridges).session_map ≡ none
    unled id x none_left =
        elim (Option-cases (GoMap.get id (RtpBridge.close_all s.bridges).session_map)) [
          | inl e ↦ e
          | inr (k, e) ↦ let (b, g, i) = x.indexed id k e in absurd (ground (arith, g, none_left k))
        ]

-- An RPC; the IDs that are drawn and what the network gives come with it.
pub data Call : Type 0 where
  creates : ℕ → Str → ℕ → Str → Str → ℤ → List Str → Call
  destroys : Str → Call
  updates : Str → Str → ℤ → Call
  bridges_media : Network → Str → Str → Str → Call
  unbridges_media : Str → Str → Call
  closes_all : Call

abbrev pub step : Server → Call → Server
step s (creates pick id now c ra rp offered) = (create_session pick id now c ra rp offered s).0
step s (destroys id) = (destroy_session id s).0
step s (updates id ra rp) = (update_session_remote id ra rp s).0
step s (bridges_media net k a b) = (bridge_media net k a b s).0
step s (unbridges_media k id) = (unbridge_media k id s).0
step s closes_all = close s

abbrev pub Draws : Server → Call → Type 0
Draws s (creates pick id now c ra rp offered) = GoMap.get id s.sessions.sessions ≡ none
Draws s (bridges_media net k a b) = GoMap.get k s.bridges.bridges ≡ none
Draws s c = Unit

pub data Reach : Server → Type 0 where
  starts : (min_port max_port : ℕ) (addr : Str) → Reach (new_server min_port max_port addr)
  next : (s : Server) (c : Call) → Reach s → Draws s c → Reach (step s c)

new_bridges : Calls.IsManager RtpBridge.new_manager
new_bridges = record {
  bridges_once = tt;
  sessions_once = tt;
  relays = λ k b h. absurd (ground (arith, GoMap.get-nil {V = Bridge} k));
  keyed = λ k b s h i. absurd (ground (arith, GoMap.get-nil {V = Bridge} k));
  indexed = λ s k h. absurd (ground (arith, GoMap.get-nil {V = Str} s));
}

mark_bridged-IsManager :
    (a b : Str) (m : RtpSession.Manager)
    → Creation.IsManager m
    → Creation.IsManager (mark_bridged a b m)
mark_bridged-IsManager a b m v = step-IsManager _ (bridges b) tt (step-IsManager m (bridges a) tt v)

module _ (s : Server) (v : IsServer s) where
  created-IsServer :
      (a b k : Str) (net : Network) (x y : Endpoint) (r : RtpBridge.Manager × RtpBridge.Result)
      → Calls.Creates net k x y s.bridges r
      → IsServer (bridged a b s r).0
  created-IsServer a b k net x y (m, RtpBridge.ok id) c =
      (mark_bridged-IsManager a b s.sessions v.0, c.0)
  created-IsServer a b k net x y (m, RtpBridge.err e) c = (v.0, subst Calls.IsManager (sym c.0) v.1)

  endpoints-IsServer :
      (net : Network) (k a b : Str) (ea eb : RtpSession.Err ⊎ (Str × ℕ × Str × ℤ))
      → GoMap.get k s.bridges.bridges ≡ none
      → IsServer (bridge_endpoints net k a b s ea eb).0
  endpoints-IsServer net k a b (inl e) eb fresh = v
  endpoints-IsServer net k a b (inr ea) (inl e) fresh = v
  endpoints-IsServer net k a b (inr ea) (inr eb) fresh =
      created-IsServer a b k net (endpoint_of a ea) (endpoint_of b eb) _
        (create_bridge_lem net k (endpoint_of a ea) (endpoint_of b eb) s.bridges v.1 fresh)

  unbridge-IsServer : (k id : Str) → IsServer (unbridge_media k id s).0
  unfolding unbridge_media
  unbridge-IsServer k id = elim (Bool-cases (k == [])) [
    | inr e ↦ rw e (v.0, destroy_bridge-IsManager k s.bridges v.1)
    | inl e ↦ elim (Bool-cases (id == [])) [
      | inr f ↦ rw (e, f) (v.0, destroy_by_session-IsManager id s.bridges v.1)
      | inl f ↦ rw (e, f) v
    ]
  ]

step-IsServer : (s : Server) (c : Call) → Draws s c → IsServer s → IsServer (step s c)
unfolding create_session destroy_session update_session_remote bridge_media close
step-IsServer s (creates pick id now c ra rp offered) d v =
    (step-IsManager s.sessions (RtpSession.Reach.creates pick id now c ra rp offered) d v.0, v.1)
step-IsServer s (destroys id) d v =
    (step-IsManager s.sessions (RtpSession.Reach.destroys id) tt v.0, v.1)
step-IsServer s (updates id ra rp) d v =
    (step-IsManager s.sessions (RtpSession.Reach.updates id ra rp) tt v.0, v.1)
step-IsServer s (bridges_media net k a b) d v = endpoints-IsServer s v net k a b _ _ d
step-IsServer s (unbridges_media k id) d v = unbridge-IsServer s v k id
step-IsServer s closes_all d v =
    (step-IsManager s.sessions closes tt v.0, (close_bridges s.bridges v.1).0)

-- Over any sequence of RPCs to a new server: the session manager leaks no port, and its sessions and
-- calls correspond; each bridge is active with open sockets, and a session is in at most one bridge.
pub Reach-IsServer : (s : Server) → Reach s → IsServer s
unfolding new_server
Reach-IsServer _ (starts min_port max_port addr) =
    (Reach-IsManager _ (RtpSession.Reach.starts min_port max_port addr), new_bridges)
Reach-IsServer _ (next s c r d) = step-IsServer s c d (Reach-IsServer s r)
