-- ===== src/MediaPool/Sessions/Reach.antt =====
-- The invariant of the pool over histories of calls.
use mathlib.Core.Option.{some-injective}
use mathlib.Core.Path.{subst}
use switchboard.Prelude.{
  ℕ, ◌≡◌, refl, ◌∙◌, inl, inr, Bool, true, Option, none, some, [], ◌∷◌, arith, Bool-cases, any, Str,
  nat_eq, str_eq,
}
use switchboard.GoMap
use switchboard.MediaPool.{Pool, DrainState, PoolMember, Err}
use switchboard.MediaPool.Drain.{Call, apply, node, target, answer, specified, drain_life_cycle}
use switchboard.MediaPool.Health.{
  Probe, check_member, check_all_health, probed, get-check_all_health, check_all_health-Distinct,
}
use switchboard.MediaPool.Sessions.{
  create_session, create_session_pending_remote, create_session_on_node,
  create_session_pending_remote_on_node, destroy_session, new_members, ready, new_pool,
}
use switchboard.MediaPool.Sessions.Invariant.{
  IsPool, has_transport, with_member-IsPool, IsFresh, on_selected-IsPool,
  create_session_on_node-IsPool, near-IsPool, destroy_session-IsPool,
}

answer-IsPool :
    (c : Call) (p : Pool) (m : PoolMember) (t : Option DrainState)
    → GoMap.get (node c) p.members ≡ some m
    → IsPool p
    → IsPool (answer c p m t).0
answer-IsPool c p m none e v = v
answer-IsPool c p m (some t) e v = with_member-IsPool (node c) m _ p e refl v

specified-IsPool :
    (c : Call) (p : Pool) (o : Option PoolMember)
    → GoMap.get (node c) p.members ≡ o
    → IsPool p
    → IsPool (specified c p o).0
specified-IsPool c p none e v = v
specified-IsPool c p (some m) e v = answer-IsPool c p m (target c m.drain_state) e v

apply-IsPool : (c : Call) (p : Pool) → IsPool p → IsPool (apply c p).0
apply-IsPool c p v = rw (drain_life_cycle c p) (specified-IsPool c p _ refl v)

check_member-keeps :
    (p : Pool) (q : Probe) (m : PoolMember)
    → m.transport ≡ true
    → (check_member p q m).transport ≡ true
unfolding check_member
check_member-keeps p q m t = ground arith

probed-transport :
    (p : Pool) (q : Probe) (o : Option PoolMember)
    → has_transport o ≡ true
    → has_transport (probed p q o) ≡ true
probed-transport p q none h = h
probed-transport p q (some m) h = check_member-keeps p q m h

check_all_health-IsPool :
    (probe : Str → Probe) (p : Pool) → IsPool p → IsPool (check_all_health probe p)
check_all_health-IsPool probe p v = record {
  nodes_once = check_all_health-Distinct probe p v.nodes_once;
  indexed =
      unfold check_all_health in
      record {
        agree = v.indexed.agree;
        sessions_once = v.indexed.sessions_once;
        sets_once = v.indexed.sets_once;
        no_empty = v.indexed.no_empty;
      };
  owners = λ s n h.
      rw (get-check_all_health probe p n)
        (probed-transport p (probe n) _ (v.owners s n (unfold check_all_health in h)));
}

-- One call of a method that changes the pool, with the answer of its RPC, or a round of checks.
pub data Step (p : Pool) : Pool → Type 0 where
  creates :
      (outcome : Option Str)
      → IsFresh outcome p (create_session outcome p).0
      → Step p (create_session outcome p).0
  creates_pending :
      (outcome : Option Str)
      → IsFresh outcome p (create_session_pending_remote outcome p).0
      → Step p (create_session_pending_remote outcome p).0
  creates_on_node :
      (n : Str) (outcome : Option Str)
      → IsFresh outcome p (create_session_on_node n outcome p).0
      → Step p (create_session_on_node n outcome p).0
  creates_near :
      (peer : Str) (outcome : Option Str)
      → IsFresh outcome p (create_session_pending_remote_on_node peer outcome p).0
      → Step p (create_session_pending_remote_on_node peer outcome p).0
  destroys : (s : Str) (outcome : Option Err) → Step p (destroy_session s outcome p).0
  drains : (c : Call) → Step p (apply c p).0
  checks : (probe : Str → Probe) → Step p (check_all_health probe p)

pub data Reach (p : Pool) : Pool → Type 0 where
  here : Reach p p
  next : {q r : Pool} → Reach p q → Step q r → Reach p r

pub Step-IsPool : {p q : Pool} → Step p q → IsPool p → IsPool q
unfolding create_session create_session_pending_remote
Step-IsPool {p} (creates outcome f) v = on_selected-IsPool outcome p f v
Step-IsPool {p} (creates_pending outcome f) v = on_selected-IsPool outcome p f v
Step-IsPool {p} (creates_on_node n outcome f) v = create_session_on_node-IsPool n outcome p f v
Step-IsPool {p} (creates_near peer outcome f) v = near-IsPool peer outcome p f v
Step-IsPool {p} (destroys s outcome) v = destroy_session-IsPool s outcome p v
Step-IsPool {p} (drains c) v = apply-IsPool c p v
Step-IsPool {p} (checks probe) v = check_all_health-IsPool probe p v

-- Whatever the calls, the RPCs' outcomes and the checks, in any order, as long as no RPC answers with
-- the ID of a session that the pool tracks on another node: the node IDs stay distinct, the two session maps stay inverse to each other with no empty set, and every tracked session is
-- owned by a known member with a transport, so no call dereferences a nil one.
pub Reach-IsPool : {p q : Pool} → Reach p q → IsPool p → IsPool q
Reach-IsPool here v = v
Reach-IsPool (next r s) v = Step-IsPool s (Reach-IsPool r v)

has-new_members :
    (k : Str) (nodes : GoMap.GoMap Str (Str × Bool))
    → GoMap.has k (new_members nodes) ≡ GoMap.has k nodes
unfolding GoMap.has
has-new_members k [] = refl
has-new_members k ((id, a) ∷ nodes) = ground (arith, has-new_members k nodes)

new_members-Distinct :
    (nodes : GoMap.GoMap Str (Str × Bool))
    → GoMap.Distinct nodes
    → GoMap.Distinct (new_members nodes)
new_members-Distinct [] d = tt
new_members-Distinct ((id, a) ∷ nodes) d =
    (has-new_members id nodes ∙ d.0, new_members-Distinct nodes d.1)

-- A pool that `NewPool` returns satisfies the invariant, and some member of it is healthy.
pub new_pool-IsPool :
    (nodes : GoMap.GoMap Str (Str × Bool)) (unhealthy_threshold healthy_threshold : ℕ) (p : Pool)
    → GoMap.Distinct nodes
    → new_pool nodes unhealthy_threshold healthy_threshold ≡ some p
    → IsPool p × (ready p ≡ true)
unfolding new_pool ready GoMap.get GoMap.has
new_pool-IsPool nodes u h p d e =
    elim (Bool-cases (any (λ (id, m). m.healthy) (new_members nodes))) [
      | inl b ↦
          subst (λ q. IsPool q × (ready q ≡ true)) (some-injective _ _ (rw b at e))
            (
              record {
                nodes_once = new_members-Distinct nodes d;
                indexed = record {
                  agree = λ n s. refl;
                  sessions_once = tt;
                  sets_once = λ n. tt;
                  no_empty = λ n s f. cc;
                };
                owners = λ s n f. cc;
              },
              b,
            )
      | inr b ↦ absurd (cc (rw b at e))
    ]
