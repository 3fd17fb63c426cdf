-- ===== src/MediaPool.antt =====
-- internal/signaling/mediaclient/pool.go: the pool of RTP managers, with session affinity, drain
-- states and health checks. The slice `members` and the map `membersByID` hold the same pointers:
-- one map from node IDs, in the order of the slice, stands for both. What a call of the gRPC
-- transport returns is an argument.
pub mod Tracking
pub mod Selection
pub mod Drain
pub mod Health
pub mod Sessions
mod Tests
use switchboard.Prelude.{
  ℕ, ◌+◌, ◌%◌, Bool, true, false, ◌&&◌, Option, none, some, List, [], ◌∷◌, ltb, leb, if◌then◌else◌,
  length, get_elem?, ◌==◌, Str, nat_eq, str_eq,
}
use switchboard.GoMap
use switchboard.GoMap.{GoMap}

pub data DrainState : Type 0 where
  active draining disabled : DrainState

abbrev pub is_active : DrainState → Bool
is_active active = true
is_active _ = false

abbrev pub is_draining : DrainState → Bool
is_draining draining = true
is_draining _ = false

abbrev pub is_disabled : DrainState → Bool
is_disabled disabled = true
is_disabled _ = false

-- `transport` says whether the pointer is set. The counters are the bit patterns of an int32.
pub record PoolMember : Type 0 where
  pub address : Str
  pub transport : Bool
  pub healthy : Bool
  pub drain_state : DrainState
  pub fail_count : ℕ
  pub success_count : ℕ

-- map[string]struct{}
abbrev pub SessionSet : Type 0
SessionSet = GoMap Str (Unit {0})

pub record Pool : Type 0 where
  pub members : GoMap Str PoolMember
  pub session_to_node : GoMap Str Str
  pub node_to_sessions : GoMap Str SessionSet
  pub next_index : ℕ  -- uint64
  pub unhealthy_threshold : ℕ
  pub healthy_threshold : ℕ

pub data Err : Type 0 where
  no_available_members bridge_not_found : Err
  node_not_found node_not_healthy node_disabled session_not_found : Str → Err
  not_active not_draining : Str → DrainState → Err
  already_active create_failed : Str → Err
  different_managers : Str → Str → Err

pub data Result {ℓ} (A : Type ℓ) : Type ℓ where
  ok : A → Result A
  err : Err → Result A

-- atomic.Int32.Add(1)
abbrev pub add_one32 : ℕ → ℕ
add_one32 n = (n + 1) % 4294967296

-- int(n) >= threshold, for the signed value of the pattern `n`
abbrev pub reaches : ℕ → ℕ → Bool
reaches n threshold = ltb n 2147483648 && leb threshold n

abbrev pub is_available : PoolMember → Bool
is_available m = m.healthy && m.transport && is_active m.drain_state

-- The loop of `selectMember`, in the order of the slice.
abbrev pub available_members : GoMap Str PoolMember → List Str
available_members [] = []
available_members ((id, m) ∷ ms) =
    let rest = available_members ms in if is_available m then id ∷ rest else rest

abbrev pub found : Option Str → Result Str
found none = err no_available_members
found (some id) = ok id

-- `selectMember`: the counter is left alone where no member is available.
unfoldable pub select_member : Pool → Pool × Result Str
select_member p =
    let ids = available_members p.members in
    let next = (p.next_index + 1) % 18446744073709551616 in
    if length ids == 0
    then (p, err no_available_members)
    else (record p { next_index = next }, found (get_elem? ids (next % length ids)))

abbrev pub set_of : Option SessionSet → SessionSet
set_of none = []
set_of (some sessions) = sessions

-- `trackSession`
unfoldable pub track_session : Str → Str → Pool → Pool
track_session session_id node_id p = record p {
  session_to_node = GoMap.put session_id node_id p.session_to_node;
  node_to_sessions =
      GoMap.put node_id (GoMap.put session_id tt (set_of (GoMap.get node_id p.node_to_sessions)))
        p.node_to_sessions;
}

-- The inner part of `untrackSession`: an emptied set is removed.
abbrev pub drop_session :
    Str → Str → Option SessionSet → GoMap Str SessionSet → GoMap Str SessionSet
drop_session session_id node_id none index = index
drop_session session_id node_id (some sessions) index =
    if length (GoMap.delete session_id sessions) == 0
    then GoMap.delete node_id index
    else GoMap.put node_id (GoMap.delete session_id sessions) index

abbrev pub untrack_from : Str → Option Str → Pool → Pool
untrack_from session_id none p = p
untrack_from session_id (some node_id) p = record p {
  session_to_node = GoMap.delete session_id p.session_to_node;
  node_to_sessions =
      drop_session session_id node_id (GoMap.get node_id p.node_to_sessions) p.node_to_sessions;
}

-- `untrackSession`
unfoldable pub untrack_session : Str → Pool → Pool
untrack_session session_id p = untrack_from session_id (GoMap.get session_id p.session_to_node) p

-- `SessionsOnNode`, in some order
unfoldable pub sessions_on_node : Str → Pool → List Str
sessions_on_node node_id p = GoMap.keys (set_of (GoMap.get node_id p.node_to_sessions))

-- `GetMemberByID`
abbrev pub get_member_by_id : Str → Pool → Option PoolMember
get_member_by_id node_id p = GoMap.get node_id p.members

abbrev pub member_of : Option Str → Pool → Option (Str × PoolMember)
member_of none p = none
member_of (some node_id) p = elim (GoMap.get node_id p.members) [
  | none ↦ none
  | some m ↦ some (node_id, m)
]

-- `getMemberForSession`
unfoldable pub get_member_for_session : Str → Pool → Option (Str × PoolMember)
get_member_for_session session_id p = member_of (GoMap.get session_id p.session_to_node) p

-- A write through the member's pointer.
abbrev pub with_member : Str → PoolMember → Pool → Pool
with_member node_id m p = record p { members = GoMap.put node_id m p.members }
