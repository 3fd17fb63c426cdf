-- ===== src/MediaPool/Sessions/Affinity.antt =====
-- Session affinity: where the calls for a session go.
use switchboard.Prelude.{
  ◌≡◌, refl, ◌∙◌, ◌≢◌, Option, none, some, arith, if◌then◌else◌, ◌==◌, eq_iff, beq_refl, Str,
  nat_eq, str_eq,
}
use switchboard.GoMap
use switchboard.MediaPool.{
  Pool, PoolMember, track_session, get_member_for_session, ok, Err, untrack_session, member_of,
  session_not_found, different_managers, err,
}
use switchboard.MediaPool.Sessions.{
  created, create_session_pending_remote_on_node, bridge_media, destroy_session, affine_call,
}

-- Tracking changes the owner of its session and of no other.
member-track_session :
    (s t n : Str) (p : Pool)
    → get_member_for_session t (track_session s n p)
      ≡ (if s == t then member_of (some n) p else get_member_for_session t p)
unfolding get_member_for_session track_session
member-track_session s t n p = ground (arith, GoMap.get-put s t n p.session_to_node)

member-untrack_session :
    (s t : Str) (p : Pool)
    → get_member_for_session t (untrack_session s p)
      ≡ (if s == t then none else get_member_for_session t p)
unfolding get_member_for_session untrack_session
member-untrack_session s t p = ground (arith, GoMap.get-delete s t p.session_to_node, eq_iff s t)

member_of-node :
    (s : Str) (p : Pool) (n : Str) (m : PoolMember)
    → get_member_for_session s p ≡ some (n, m)
    → member_of (some n) p ≡ some (n, m)
unfolding get_member_for_session
member_of-node s p n m e = ground arith

create_near-tracks :
    (peer s : Str) (p : Pool) (n : Str) (m : PoolMember)
    → get_member_for_session peer p ≡ some (n, m)
    → create_session_pending_remote_on_node peer (some s) p ≡ (track_session s n p, ok s)
unfolding create_session_pending_remote_on_node created
create_near-tracks peer s p n m e = rw e refl

-- A session created near a tracked peer is owned by the peer's node, and the two can be bridged:
-- `BridgeMedia` makes its RPC at that node, whatever else the pool holds. Neither method looks at
-- the node's health or drain state: this holds of a node that is draining or disabled too.
pub bridge_near :
    (peer s : Str) (p : Pool) (n : Str) (m : PoolMember)
    → get_member_for_session peer p ≡ some (n, m)
    → let r = create_session_pending_remote_on_node peer (some s) p in
      (r.1 ≡ ok s)
      × (get_member_for_session s r.0 ≡ some (n, m))
      × (bridge_media peer s r.0 ≡ ok (n, m))
unfolding bridge_media
bridge_near peer s p n m e = rw (create_near-tracks peer s p n m e) (
  refl,
  ground (arith, member-track_session s s n p, member_of-node peer p n m e, beq_refl s),
  ground (
    arith,
    member-track_session s s n p,
    member-track_session s peer n p,
    member_of-node peer p n m e,
    beq_refl s,
    beq_refl m.address,
  ),
)

-- `DestroySession` of a tracked session unlinks it whatever the RPC answers: later calls for it
-- find no manager, a second `DestroySession` fails, and the owner of no other session changes.
pub destroy_forgets :
    (s : Str) (outcome later : Option Err) (p : Pool) (n : Str) (m : PoolMember)
    → get_member_for_session s p ≡ some (n, m)
    → let q = (destroy_session s outcome p).0 in
      ((destroy_session s outcome p).1 ≡ outcome)
      × (affine_call s q ≡ err (session_not_found s))
      × (destroy_session s later q ≡ (q, some (session_not_found s)))
      × ((t : Str) → s ≢ t → get_member_for_session t q ≡ get_member_for_session t p)
unfolding destroy_session affine_call
destroy_forgets s outcome later p n m e =
    let gone : get_member_for_session s (untrack_session s p) ≡ none =
      member-untrack_session s s p ∙ rw (beq_refl s) in
    rw e (
      refl,
      rw (gone, affine_call) refl,
      rw gone refl,
      λ t ne. ground (arith, member-untrack_session s t p, eq_iff s t),
    )

-- Bridging two sessions of managers at different addresses is refused, and never reaches an RPC.
pub bridge_media_apart :
    (a b : Str) (p : Pool) (na nb : Str) (ma mb : PoolMember)
    → get_member_for_session a p ≡ some (na, ma)
    → get_member_for_session b p ≡ some (nb, mb)
    → ma.address ≢ mb.address
    → bridge_media a b p ≡ err (different_managers ma.address mb.address)
unfolding bridge_media
bridge_media_apart a b p na nb ma mb ea eb ne =
    rw (ea, eb) (ground (arith, eq_iff ma.address mb.address))
