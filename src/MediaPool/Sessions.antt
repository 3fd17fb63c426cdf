-- ===== src/MediaPool/Sessions.antt =====
-- The methods that create, use and end sessions. What the gRPC transport answers is an argument:
-- the new session's ID, or none for an error.
pub mod Invariant
pub mod Reach
pub mod Affinity
use switchboard.Prelude.{
  ℕ, Bool, not, ◌||◌, Option, none, some, [], ◌∷◌, if◌then◌else◌, any, ◌==◌, Str, str_eq,
}
use switchboard.GoMap
use switchboard.GoMap.{GoMap}
use switchboard.MediaPool.{
  Pool, is_disabled, PoolMember, Err, Result, add_one32, select_member, track_session,
  untrack_session, get_member_by_id, get_member_for_session, with_member, bridge_not_found,
  node_not_found, node_not_healthy, node_disabled, session_not_found, create_failed,
  different_managers, ok, err, active,
}

-- After the call of a creating RPC at the member: a failure counts against it, a success tracks
-- the session.
unfoldable pub created : Str → PoolMember → Option Str → Pool → Pool × Result Str
created node_id m none p = (
  with_member node_id (record m { fail_count = add_one32 m.fail_count }) p,
  err (create_failed m.address),
)
created node_id m (some session_id) p = (track_session session_id node_id p, ok session_id)

-- The selected node's member, a pointer in the source.
abbrev pub created_at : Str → Option PoolMember → Option Str → Pool → Pool × Result Str
created_at node_id none outcome p = (p, err (node_not_found node_id))
created_at node_id (some m) outcome p = created node_id m outcome p

abbrev pub on_selected : Pool × Result Str → Option Str → Pool × Result Str
on_selected (p, err e) outcome = (p, err e)
on_selected (p, ok node_id) outcome = created_at node_id (GoMap.get node_id p.members) outcome p

-- `CreateSession`
unfoldable pub create_session : Option Str → Pool → Pool × Result Str
create_session outcome p = on_selected (select_member p) outcome

-- `CreateSessionPendingRemote`, the same code around another RPC
unfoldable pub create_session_pending_remote : Option Str → Pool → Pool × Result Str
create_session_pending_remote outcome p = on_selected (select_member p) outcome

abbrev create_on : Str → Option PoolMember → Option Str → Pool → Pool × Result Str
create_on node_id none outcome p = (p, err (node_not_found node_id))
create_on node_id (some m) outcome p =
    if not m.healthy || not m.transport
    then (p, err (node_not_healthy node_id))
    else if is_disabled m.drain_state
    then (p, err (node_disabled node_id))
    else created node_id m outcome p

-- `CreateSessionOnNode`
unfoldable pub create_session_on_node : Str → Option Str → Pool → Pool × Result Str
create_session_on_node node_id outcome p = create_on node_id (get_member_by_id node_id p) outcome p

abbrev pub create_near : Option (Str × PoolMember) → Option Str → Pool → Pool × Result Str
create_near none outcome p = on_selected (select_member p) outcome
create_near (some (node_id, m)) outcome p = created node_id m outcome p

-- `CreateSessionPendingRemoteOnNode`: on the node of the peer session, or on a selected one where
-- the peer is not tracked.
unfoldable pub create_session_pending_remote_on_node : Str → Option Str → Pool → Pool × Result Str
create_session_pending_remote_on_node peer_session_id outcome p =
    create_near (get_member_for_session peer_session_id p) outcome p

abbrev destroy_at : Str → Option (Str × PoolMember) → Option Err → Pool → Pool × Option Err
destroy_at session_id none outcome p = (p, some (session_not_found session_id))
destroy_at session_id (some (node_id, m)) outcome p = (untrack_session session_id p, outcome)

-- `DestroySession`: the session is untracked whatever the RPC answers.
unfoldable pub destroy_session : Str → Option Err → Pool → Pool × Option Err
destroy_session session_id outcome p =
    destroy_at session_id (get_member_for_session session_id p) outcome p

-- `PlayAudio`, `StopAudio`, `UpdateSessionRemote`: the member that the RPC is made at.
unfoldable pub affine_call : Str → Pool → Result (Str × PoolMember)
affine_call session_id p = elim (get_member_for_session session_id p) [
  | none ↦ err (session_not_found session_id)
  | some at ↦ ok at
]

abbrev bridge_at :
    Str → Str → Option (Str × PoolMember) → Option (Str × PoolMember) → Result (Str × PoolMember)
bridge_at a b none mb = err (session_not_found a)
bridge_at a b (some ma) none = err (session_not_found b)
bridge_at a b (some (na, ma)) (some (nb, mb)) =
    if not (ma.address == mb.address)
    then err (different_managers ma.address mb.address)
    else ok (na, ma)

-- `BridgeMedia`: the member that the RPC is made at, for two sessions on one RTP manager.
unfoldable pub bridge_media : Str → Str → Pool → Result (Str × PoolMember)
bridge_media session_a session_b p =
    bridge_at session_a session_b (get_member_for_session session_a p)
      (get_member_for_session session_b p)

-- The loop of `UnbridgeMedia`: `unbridges` says at which nodes the RPC succeeds.
unbridge_any : (Str → Bool) → GoMap Str PoolMember → Result Str
unbridge_any unbridges [] = err bridge_not_found
unbridge_any unbridges ((id, m) ∷ ms) =
    let rest = unbridge_any unbridges ms in
    if not m.transport || not m.healthy then rest else if unbridges id then ok id else rest

-- `UnbridgeMedia`
unfoldable pub unbridge_media : (Str → Bool) → Pool → Result Str
unfolding unbridge_any
unbridge_media unbridges p = unbridge_any unbridges p.members

-- `Ready`
unfoldable pub ready : Pool → Bool
ready p = any (λ (id, m). m.healthy) p.members

abbrev new_member : Str × Bool → PoolMember
new_member (address, connected) = record {
  address = address;
  transport = connected;
  healthy = connected;
  drain_state = active;
  fail_count = 0;
  success_count = 0;
}

abbrev new_members : GoMap Str (Str × Bool) → GoMap Str PoolMember
new_members [] = []
new_members ((id, a) ∷ nodes) = (id, new_member a) ∷ new_members nodes

-- `NewPool`: the nodes with their addresses, and whether `NewGRPCTransport` connects to each. The
-- loop over `nodeAddresses` fills `members` in this order.
unfoldable pub new_pool : GoMap Str (Str × Bool) → ℕ → ℕ → Option Pool
new_pool nodes unhealthy_threshold healthy_threshold =
    if any (λ (id, m). m.healthy) (new_members nodes)
    then some (record {
      members = new_members nodes;
      session_to_node = [];
      node_to_sessions = [];
      next_index = 0;
      unhealthy_threshold = unhealthy_threshold;
      healthy_threshold = healthy_threshold;
    })
    else none
