-- ===== src/Drain/Start.antt =====
-- The start of a drain.
use mathlib.Core.Path.{subst}
use switchboard.Prelude.{
  ℕ, ◌≡◌, refl, ◌≢◌, inl, inr, Option, none, some, arith, Option-cases, beq_refl, Str, str_eq,
  nat_eq,
}
use switchboard.GoMap
use switchboard.GoMap.{GoMap}
use switchboard.MediaPool.{
  Pool, PoolMember, DrainState, draining, disabled, active, sessions_on_node, ok, with_member,
  select_member,
}
use switchboard.MediaPool.Selection.{Available, available, select_member-Available}
use switchboard.MediaPool.Drain
use switchboard.Drain.{
  DrainRequest, DrainOperation, Coordinator, Result, done, fails, already_in_progress,
  start_operation, started, new_operation,
}
use switchboard.Drain.Outcome.{IsDraining}

abbrev pub Starts : DrainRequest → Coordinator → Coordinator × Result DrainOperation → Type 0
Starts req c (d, fails e) = d ≡ c
Starts req c (d, done op) =
    (GoMap.get req.node_id c.active_drains ≡ none)
    × IsDraining req.node_id d.pool
    × (op ≡ new_operation req (sessions_on_node req.node_id c.pool))
    × (GoMap.get req.node_id d.active_drains ≡ some c.next)
    × (GoMap.get c.next d.operations ≡ some op)
    × (start_operation req d ≡ (d, fails (already_in_progress req.node_id)))
    × ((id : Str) → (select_member d.pool).1 ≡ ok id → id ≢ req.node_id)

refuses_again :
    (req : DrainRequest) (n : ℕ) (c : Coordinator)
    → GoMap.get req.node_id c.active_drains ≡ some n
    → start_operation req c ≡ (c, fails (already_in_progress req.node_id))
unfolding start_operation
refuses_again req n c e = rw e refl

not_selected :
    (node_id : Str) (p : Pool)
    → GoMap.Distinct p.members
    → IsDraining node_id p
    → (id : Str) → (select_member p).1 ≡ ok id
    → id ≢ node_id
not_selected node_id p u (m, e, d) id h same = draining_available (select_member-Available p id u h)
  where
    draining_available : Available p.members id → ⊥
    draining_available (available n f a) =
        absurd (ground (arith, a, e, d, subst (λ k. GoMap.get k p.members ≡ some n) same f))

started-Starts :
    (req : DrainRequest) (c : Coordinator) (m : PoolMember) (s : DrainState)
    → GoMap.Distinct c.pool.members
    → GoMap.get req.node_id c.active_drains ≡ none
    → GoMap.get req.node_id c.pool.members ≡ some m
    → m.drain_state ≡ s
    → Starts req c (
        started req
          (Drain.answer
            (Drain.starts req.node_id)
            c.pool
            m
            (Drain.target (Drain.starts req.node_id) s))
          c)
unfolding sessions_on_node
started-Starts req c m draining u a e f = refl
started-Starts req c m disabled u a e f = refl
started-Starts req c m active u a e f =
    let id : Str = req.node_id in
    let p : Pool = with_member id (record m { drain_state = draining }) c.pool in
    let lost : IsDraining id p = (
      record m { drain_state = draining },
      ground (
        arith,
        GoMap.get-put id id (record m { drain_state = draining }) c.pool.members,
        beq_refl id,
      ),
      refl,
    ) in
    let tracked : GoMap.get id (GoMap.put id c.next c.active_drains) ≡ some c.next =
      ground (arith, GoMap.get-put id id c.next c.active_drains, beq_refl id) in
    (
      a,
      lost,
      refl,
      tracked,
      ground (
        arith,
        GoMap.get-put c.next c.next (new_operation req (sessions_on_node id c.pool)) c.operations,
        beq_refl c.next,
      ),
      refuses_again req c.next _ tracked,
      not_selected id p (GoMap.put-Distinct id _ c.pool.members u) lost,
    )

-- `StartDrain`, where node IDs are distinct. It succeeds only for a node with no drain under way. The
-- node is draining then, and a session is no longer created on it by selection; the operation has the
-- sessions of the node, and a second `StartDrain` is refused as long as it is tracked. Where it
-- fails, nothing changes.
pub start_operation_lem :
    (req : DrainRequest) (c : Coordinator)
    → GoMap.Distinct c.pool.members
    → Starts req c (start_operation req c)
unfolding start_operation
start_operation_lem req c u = elim (Option-cases (GoMap.get req.node_id c.active_drains)) [
  | inr (n, e) ↦ rw e refl
  | inl a ↦
      rw (a, Drain.drain_life_cycle (Drain.starts req.node_id) c.pool)
        (member (GoMap.get req.node_id c.pool.members) refl a)
]
  where
    member :
        (o : Option PoolMember)
        → GoMap.get req.node_id c.pool.members ≡ o
        → GoMap.get req.node_id c.active_drains ≡ none
        → Starts req c (started req (Drain.specified (Drain.starts req.node_id) c.pool o) c)
    member none e a = refl
    member (some m) e a = started-Starts req c m m.drain_state u a e refl
