-- ===== src/MediaPool/Tracking.antt =====
-- The session index: `sessionToNode` and its reverse `nodeToSessions`.
use switchboard.Prelude.{
  ◌≡◌, refl, ◌∙◌, ◌≢◌, ◌⊎◌, inl, inr, Bool, true, false, Option, none, some, [], ◌∷◌, arith,
  if◌then◌else◌, Bool-cases, Option-cases, length, any, ◌==◌, eq_iff, Str, nat_eq, str_eq,
}
use switchboard.GoMap
use switchboard.GoMap.{GoMap}
use switchboard.MediaPool.{
  Pool, set_of, track_session, SessionSet, drop_session, untrack_from, untrack_session,
  sessions_on_node,
}

-- Whether the reverse index has the session under the node.
abbrev pub indexed : Pool → Str → Str → Bool
indexed p node_id session_id = GoMap.has session_id (set_of (GoMap.get node_id p.node_to_sessions))

abbrev pub owned_by : Option Str → Str → Bool
owned_by none node_id = false
owned_by (some owner) node_id = owner == node_id

pub record IsIndexed (p : Pool) : Type 0 where
  pub agree :
      (node_id session_id : Str)
      → indexed p node_id session_id ≡ owned_by (GoMap.get session_id p.session_to_node) node_id
  pub sessions_once : GoMap.Distinct p.session_to_node
  pub sets_once : (node_id : Str) → GoMap.Distinct (set_of (GoMap.get node_id p.node_to_sessions))
  pub no_empty :
      (node_id : Str) (sessions : SessionSet)
      → GoMap.get node_id p.node_to_sessions ≡ some sessions
      → length sessions ≢ 0

length-put-ne : (k : Str) (m : SessionSet) → length (GoMap.put k tt m) ≢ 0
unfolding GoMap.put
length-put-ne k [] = omega arith
length-put-ne k ((j, v) ∷ m) = ground arith

-- Tracking a session that is not tracked yet, or tracked on the same node, keeps the two maps
-- inverse to each other.
pub track_session-IsIndexed :
    (session_id node_id : Str) (p : Pool)
    → IsIndexed p
    → (GoMap.get session_id p.session_to_node ≡ none)
      ⊎ (GoMap.get session_id p.session_to_node ≡ some node_id)
    → IsIndexed (track_session session_id node_id p)
unfolding track_session GoMap.has
track_session-IsIndexed s n p v own = record {
  agree = λ m t. ground (
    arith,
    GoMap.get-put n m (GoMap.put s tt (set_of (GoMap.get n p.node_to_sessions))) p.node_to_sessions,
    GoMap.get-put s t n p.session_to_node,
    GoMap.get-put s t tt (set_of (GoMap.get n p.node_to_sessions)),
    v.agree m t,
    eq_iff n m,
    eq_iff s t,
  );
  sessions_once = GoMap.put-Distinct s n _ v.sessions_once;
  sets_once = λ m. ground (
    arith,
    GoMap.get-put n m (GoMap.put s tt (set_of (GoMap.get n p.node_to_sessions))) p.node_to_sessions,
    GoMap.put-Distinct s tt _ (v.sets_once n),
    v.sets_once m,
    eq_iff n m,
  );
  no_empty = λ m sessions h. ground (
    arith,
    GoMap.get-put n m (GoMap.put s tt (set_of (GoMap.get n p.node_to_sessions))) p.node_to_sessions,
    length-put-ne s (set_of (GoMap.get n p.node_to_sessions)),
    v.no_empty m sessions,
    eq_iff n m,
  );
}

-- What `untrackSession` leaves of a node's set.
abbrev shrink : Str → Option SessionSet → Option SessionSet
shrink s none = none
shrink s (some sessions) =
    if length (GoMap.delete s sessions) == 0 then none else some (GoMap.delete s sessions)

get-drop_session :
    (s n m : Str) (o : Option SessionSet) (index : GoMap Str SessionSet)
    → GoMap.get n index ≡ o
    → GoMap.get m (drop_session s n o index) ≡ (if n == m then shrink s o else GoMap.get m index)
get-drop_session s n m none index e = ground (arith, eq_iff n m)
get-drop_session s n m (some set) index e =
    ground (arith, GoMap.get-delete n m index, GoMap.get-put n m (GoMap.delete s set) index)

shrink_empty : (set : SessionSet) → (length set == 0) ≡ true → [] ≡ set
shrink_empty [] h = refl
shrink_empty (x ∷ set) h = absurd (ground arith)

set_of-shrink : (s : Str) (o : Option SessionSet) → set_of (shrink s o) ≡ GoMap.delete s (set_of o)
unfolding GoMap.delete
set_of-shrink s none = refl
set_of-shrink s (some set) = elim (Bool-cases (length (GoMap.delete s set) == 0)) [
  | inl e ↦ rw e (shrink_empty (GoMap.delete s set) e)
  | inr e ↦ rw e refl
]

-- Untracking keeps the two maps inverse to each other and leaves no empty set behind.
pub untrack_session-IsIndexed :
    (session_id : Str) (p : Pool) → IsIndexed p → IsIndexed (untrack_session session_id p)
unfolding untrack_session GoMap.has
untrack_session-IsIndexed s p v = elim (Option-cases (GoMap.get s p.session_to_node)) [
  | inl e ↦ rw (e, untrack_from) v
  | inr (n, e) ↦
      rw (e, untrack_from)
        (let o = GoMap.get n p.node_to_sessions in
          let at = λ (m : Str). get-drop_session s n m o p.node_to_sessions refl in
          record {
            agree = λ m t. ground (
              arith,
              at m,
              set_of-shrink s o,
              GoMap.get-delete s t (set_of o),
              GoMap.get-delete s t p.session_to_node,
              v.agree m t,
              eq_iff n m,
              eq_iff s t,
            );
            sessions_once = GoMap.delete-Distinct s _ v.sessions_once;
            sets_once = λ m. ground (
              arith,
              at m,
              set_of-shrink s o,
              GoMap.delete-Distinct s _ (v.sets_once n),
              v.sets_once m,
              eq_iff n m,
            );
            no_empty = λ m sessions h. ground (arith, at m, v.no_empty m sessions, eq_iff n m);
          })
]

-- `SessionsOnNode` lists exactly the sessions that `sessionToNode` maps to the node.
pub sessions_on_node_lem :
    (p : Pool) (node_id session_id : Str)
    → IsIndexed p
    → any (λ s. s == session_id) (sessions_on_node node_id p)
      ≡ owned_by (GoMap.get session_id p.session_to_node) node_id
unfolding sessions_on_node
sessions_on_node_lem p n s v = GoMap.any-keys s _ ∙ v.agree n s
