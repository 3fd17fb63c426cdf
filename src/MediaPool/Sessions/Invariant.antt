-- ===== src/MediaPool/Sessions/Invariant.antt =====
-- What holds of a pool between two calls, whatever the calls, the RPCs' answers and the checks.
use switchboard.Prelude.{
  ℕ, ◌≡◌, refl, ◌⊎◌, inl, inr, Bool, true, false, not, ◌||◌, Option, none, some, arith,
  if◌then◌else◌, Bool-cases, Option-cases, length, ◌==◌, eq_iff, beq_refl, Str, nat_eq, str_eq,
}
use switchboard.GoMap
use switchboard.GoMap.{GoMap}
use switchboard.MediaPool.{
  Pool, PoolMember, track_session, with_member, select_member, untrack_session, is_disabled, Result,
  available_members, get_member_for_session, node_not_healthy, node_disabled, ok, err, Err,
}
use switchboard.MediaPool.Selection.{Available, available, select_member-Available}
use switchboard.MediaPool.Tracking.{IsIndexed, track_session-IsIndexed, untrack_session-IsIndexed}
use switchboard.MediaPool.Sessions.{
  created, on_selected, create_session_on_node, create_session_pending_remote_on_node,
  destroy_session,
}

abbrev pub has_transport : Option PoolMember → Bool
has_transport none = false
has_transport (some m) = m.transport

pub record IsPool (p : Pool) : Type 0 where
  pub nodes_once : GoMap.Distinct p.members
  pub indexed : IsIndexed p
  pub owners :
      (session_id node_id : Str)
      → GoMap.get session_id p.session_to_node ≡ some node_id
      → has_transport (GoMap.get node_id p.members) ≡ true

pub with_member-IsPool :
    (node_id : Str) (m m' : PoolMember) (p : Pool)
    → GoMap.get node_id p.members ≡ some m
    → m'.transport ≡ m.transport
    → IsPool p
    → IsPool (with_member node_id m' p)
with_member-IsPool n m m' p e t v = record {
  nodes_once = GoMap.put-Distinct n m' p.members v.nodes_once;
  indexed = record {
    agree = v.indexed.agree;
    sessions_once = v.indexed.sessions_once;
    sets_once = v.indexed.sets_once;
    no_empty = v.indexed.no_empty;
  };
  owners = λ s k h. ground (arith, v.owners s k h, GoMap.get-put n k m' p.members, eq_iff n k);
}

-- The ID that an RPC answers with is not tracked before the call, or on the same node after it: no
-- call moves a session from one node to another.
abbrev pub IsFresh : Option Str → Pool → Pool → Type 0
IsFresh none p q = Unit
IsFresh (some session_id) p q =
    (GoMap.get session_id p.session_to_node ≡ none)
    ⊎ (GoMap.get session_id p.session_to_node ≡ GoMap.get session_id q.session_to_node)

track_session-IsPool :
    (s n : Str) (m : PoolMember) (p : Pool)
    → GoMap.get n p.members ≡ some m
    → m.transport ≡ true
    → IsFresh (some s) p (track_session s n p)
    → IsPool p
    → IsPool (track_session s n p)
unfolding track_session
track_session-IsPool s n m p e t f v = record {
  nodes_once = v.nodes_once;
  indexed = track_session-IsIndexed s n p v.indexed (own f);
  owners = λ r k h. ground (arith, v.owners r k, GoMap.get-put s r n p.session_to_node, eq_iff s r);
}
  where
    own :
        IsFresh (some s) p (track_session s n p)
        → (GoMap.get s p.session_to_node ≡ none) ⊎ (GoMap.get s p.session_to_node ≡ some n)
    own (inl h) = inl h
    own (inr h) = inr (ground (arith, h, GoMap.get-put s s n p.session_to_node, beq_refl s))

untrack_session-IsPool : (s : Str) (p : Pool) → IsPool p → IsPool (untrack_session s p)
unfolding untrack_session
untrack_session-IsPool s p v = record {
  nodes_once = ground (arith, v.nodes_once);
  indexed = untrack_session-IsIndexed s p v.indexed;
  owners =
      λ r k h. ground (arith, v.owners r k, GoMap.get-delete s r p.session_to_node, eq_iff s r);
}

created-IsPool :
    (n : Str) (m : PoolMember) (outcome : Option Str) (p : Pool)
    → GoMap.get n p.members ≡ some m
    → m.transport ≡ true
    → IsFresh outcome p (created n m outcome p).0
    → IsPool p
    → IsPool (created n m outcome p).0
unfolding created
created-IsPool n m none p e t f v = with_member-IsPool n m _ p e refl v
created-IsPool n m (some s) p e t f v = track_session-IsPool s n m p e t f v

next_index-IsPool : (k : ℕ) (p : Pool) → IsPool p → IsPool (record p { next_index = k })
next_index-IsPool k p v = record {
  nodes_once = v.nodes_once;
  indexed = record {
    agree = v.indexed.agree;
    sessions_once = v.indexed.sessions_once;
    sets_once = v.indexed.sets_once;
    no_empty = v.indexed.no_empty;
  };
  owners = v.owners;
}

-- `selectMember` changes the counter only.
pub select_member_frame :
    (p : Pool)
    → ((select_member p).0.members ≡ p.members)
      × ((select_member p).0.session_to_node ≡ p.session_to_node)
unfolding select_member
select_member_frame p = (ground arith, ground arith)

select_member-IsPool : (p : Pool) → IsPool p → IsPool (select_member p).0
unfolding select_member
select_member-IsPool p v = elim (Bool-cases (length (available_members p.members) == 0)) [
  | inl e ↦ rw e v
  | inr e ↦ rw e (next_index-IsPool _ p v)
]

-- A node that an RPC can be made at.
abbrev IsConnected : Pool → Str → Type 0
IsConnected p id = (m : PoolMember) × (GoMap.get id p.members ≡ some m) × (m.transport ≡ true)

Available-transport : (p : Pool) (id : Str) → Available p.members id → IsConnected p id
Available-transport p id (available m e a) = (m, e, ground arith)

on_selected-of :
    (q : Pool) (r : Result Str) (outcome : Option Str)
    → ((id : Str) → r ≡ ok id → IsConnected q id)
    → IsFresh outcome q (on_selected (q, r) outcome).0
    → IsPool q
    → IsPool (on_selected (q, r) outcome).0
on_selected-of q (err e) outcome c f v = v
on_selected-of q (ok id) outcome c f v =
    let (m, e, t) = c id refl in rw e (created-IsPool id m outcome q e t (rw e at f) v)

IsFresh-eq :
    (outcome : Option Str) (p q r : Pool)
    → q.session_to_node ≡ p.session_to_node
    → IsFresh outcome p r
    → IsFresh outcome q r
IsFresh-eq none p q r e f = tt
IsFresh-eq (some s) p q r e f = rw e f

pub on_selected-IsPool :
    (outcome : Option Str) (p : Pool)
    → IsFresh outcome p (on_selected (select_member p) outcome).0
    → IsPool p
    → IsPool (on_selected (select_member p) outcome).0
on_selected-IsPool outcome p f v =
    on_selected-of (select_member p).0 (select_member p).1 outcome
      (λ id e.
        let (m, g, t) = Available-transport p id (select_member-Available p id v.nodes_once e) in
        (m, rw ((select_member_frame p).0) g, t))
      (IsFresh-eq outcome p (select_member p).0 (on_selected (select_member p) outcome).0
        (select_member_frame p).1 f)
      (select_member-IsPool p v)

pub create_session_on_node-IsPool :
    (n : Str) (outcome : Option Str) (p : Pool)
    → IsFresh outcome p (create_session_on_node n outcome p).0
    → IsPool p
    → IsPool (create_session_on_node n outcome p).0
unfolding create_session_on_node
create_session_on_node-IsPool n outcome p f v = elim (Option-cases (GoMap.get n p.members)) [
  | inl e ↦ rw e v
  | inr (m, e) ↦
      rw e (on_node m e (m.healthy) (m.transport) refl (is_disabled m.drain_state) (rw e at f))
]
  where
    on_node :
        (m : PoolMember)
        → GoMap.get n p.members ≡ some m
        → (h t : Bool) → m.transport ≡ t
        → (d : Bool)
        → IsFresh outcome p
            (if not h || not t
              then (p, err (node_not_healthy n))
              else if d
              then (p, err (node_disabled n))
              else created n m outcome p).0
        → IsPool
            (if not h || not t
              then (p, err (node_not_healthy n))
              else if d
              then (p, err (node_disabled n))
              else created n m outcome p).0
    on_node m e true true r true f = v
    on_node m e true true r false f = created-IsPool n m outcome p e r f v
    on_node m e true false r d f = v
    on_node m e false t r d f = v

-- The member that owns a tracked session is connected.
pub member_for_session :
    (s : Str) (p : Pool) (n : Str) (m : PoolMember)
    → get_member_for_session s p ≡ some (n, m)
    → IsPool p
    → (GoMap.get s p.session_to_node ≡ some n)
      × (GoMap.get n p.members ≡ some m)
      × (m.transport ≡ true)
unfolding get_member_for_session
member_for_session s p n m e v = ground (arith, v.owners s n)

pub near-IsPool :
    (peer : Str) (outcome : Option Str) (p : Pool)
    → IsFresh outcome p (create_session_pending_remote_on_node peer outcome p).0
    → IsPool p
    → IsPool (create_session_pending_remote_on_node peer outcome p).0
unfolding create_session_pending_remote_on_node
near-IsPool peer outcome p f v = elim (Option-cases (get_member_for_session peer p)) [
  | inl e ↦ rw e (on_selected-IsPool outcome p (rw e at f) v)
  | inr ((n, m), e) ↦
      let (_, g, t) = member_for_session peer p n m e v in
      rw e (created-IsPool n m outcome p g t (rw e at f) v)
]

pub destroy_session-IsPool :
    (s : Str) (outcome : Option Err) (p : Pool) → IsPool p → IsPool (destroy_session s outcome p).0
unfolding destroy_session
destroy_session-IsPool s outcome p v = elim (Option-cases (get_member_for_session s p)) [
  | inl e ↦ rw e v
  | inr (at, e) ↦ rw e (untrack_session-IsPool s p v)
]
