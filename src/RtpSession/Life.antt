-- ===== src/RtpSession/Life.antt =====
-- The end of sessions, and histories of a manager.
use switchboard.Prelude.{
  ◌≡◌, refl, inl, inr, Option, none, some, arith, if◌then◌else◌, Bool-cases, Option-cases, ◌==◌,
  eq_iff, Str, str_eq, nat_eq,
}
use switchboard.GoMap
use switchboard.GoMap.{GoMap}
use switchboard.PortPool.{PortPool, release}
use switchboard.PortPool.Invariant.{release-Inv}
use switchboard.PortPool.Calls.{release-Returned, Returned}
use switchboard.RtpSession.{
  as_bridged, set_session_bridged, Session, Manager, change, destroy_session, session_not_found,
  Err, state_terminated,
}
use switchboard.RtpSession.Invariant.{IsManaged, remove-IsManaged}
use switchboard.RtpSession.Creation.{IsManager}

-- A change of a session that keeps its identity and its ports.
abbrev pub Keeps : (Session → Session) → Type 0
Keeps f =
    (s : Session)
    → ((f s).id ≡ s.id)
      × ((f s).call_id ≡ s.call_id)
      × ((f s).local_port ≡ s.local_port)
      × ((f s).rtcp_port ≡ s.rtcp_port)

changed-IsManaged :
    (id : Str) (s r : Session) (sessions : GoMap Str Session) (calls : GoMap Str Str) (p : PortPool)
    → GoMap.get id sessions ≡ some s
    → (r.id ≡ s.id)
      × (r.call_id ≡ s.call_id)
      × (r.local_port ≡ s.local_port)
      × (r.rtcp_port ≡ s.rtcp_port)
    → IsManaged sessions calls p
    → IsManaged (GoMap.put id r sessions) calls p
changed-IsManaged id s r sessions calls p here same v = record {
  pool_ok = v.pool_ok;
  sessions_once = GoMap.put-Distinct id r sessions v.sessions_once;
  calls_once = v.calls_once;
  keyed = λ k t h.
      ground (arith, GoMap.get-put id k r sessions, eq_iff id k, v.keyed k t, v.keyed id s);
  indexed = λ c k h.
      let (t, g, tc) = v.indexed c k h in
      elim (Bool-cases (id == k)) [
        | inl e ↦ (r, ground (arith, GoMap.get-put id k r sessions), ground (arith, eq_iff id k))
        | inr e ↦ (t, ground (arith, GoMap.get-put id k r sessions), tc)
      ];
  ported = λ k t h.
      ground (arith, GoMap.get-put id k r sessions, eq_iff id k, v.ported k t, v.ported id s);
  apart = λ k j t u h g e. ground (
    arith,
    GoMap.get-put id k r sessions,
    GoMap.get-put id j r sessions,
    eq_iff id k,
    eq_iff id j,
    v.apart k j t u,
    v.apart id j s u,
    v.apart k id t s,
  );
  owned = λ port h.
      let (k, t, g, tp) = v.owned port h in
      elim (Bool-cases (id == k)) [
        | inl e ↦ (k, r, ground (arith, GoMap.get-put id k r sessions), ground (arith, eq_iff id k))
        | inr e ↦ (k, t, ground (arith, GoMap.get-put id k r sessions), tp)
      ];
}

pub change-IsManager :
    (id : Str) (f : Session → Session) (m : Manager)
    → Keeps f
    → IsManager m
    → IsManager (change id f m).0
unfolding change
change-IsManager id f m keeps v = elim (Option-cases (GoMap.get id m.sessions)) [
  | inl e ↦ rw (change, e) v
  | inr (s, e) ↦
      rw (change, e)
        (changed-IsManaged id s (f s) m.sessions m.call_to_session m.port_pool e (keeps s) v)
]

-- `n` is `m` without the session `s`.
pub record Removes (m n : Manager) (s : Session) : Type 0 where
  pub ports : Returned m.port_pool n.port_pool s.local_port
  pub sessions :
      (k : Str) → GoMap.get k n.sessions ≡ (if s.id == k then none else GoMap.get k m.sessions)
  pub calls :
      (k : Str)
      → GoMap.get k n.call_to_session
        ≡ (if s.call_id == k then none else GoMap.get k m.call_to_session)

abbrev pub Destroys : Str → Manager → Manager × Option Err × Option Session → Type 0
Destroys id m (n, none, some s) =
    IsManager n
    × (s.id ≡ id)
    × ((r : Session) × (GoMap.get id m.sessions ≡ some r)
        × (s ≡ record r { state = state_terminated }))
    × Removes m n s
Destroys id m (n, some e, none) =
    (n ≡ m) × (e ≡ session_not_found id) × (GoMap.get id m.sessions ≡ none)
Destroys id m r = ⊥

-- `DestroySession`, on a well-formed manager: of a session that exists, it takes the session out of
-- the maps, marks it terminated and gives its pair of ports back to the pool, and touches no other session, call
-- or port; of any other ID, it fails and changes nothing.
pub destroy_session_lem :
    (id : Str) (m : Manager) → IsManager m → Destroys id m (destroy_session id m)
unfolding destroy_session
destroy_session_lem id m v = elim (Option-cases (GoMap.get id m.sessions)) [
  | inl e ↦ rw (destroy_session, e) (refl, refl, e)
  | inr (s, e) ↦
      let back = release-Returned s.local_port m.port_pool v.pool_ok (v.ported id s e).0 in
      let same : s.id ≡ id = (v.keyed id s e).0 in
      rw (destroy_session, e)
        (
          remove-IsManaged m.sessions m.call_to_session m.port_pool
              (release s.local_port m.port_pool) id s e
              (release-Inv s.local_port m.port_pool v.pool_ok) back v,
          same,
          (s, e, refl),
          record {
            ports = back;
            sessions = λ k. rw same (GoMap.get-delete id k m.sessions);
            calls = λ k. GoMap.get-delete s.call_id k m.call_to_session;
          },
        )
]

-- What a marked manager holds under an ID.
pub set_session_bridged-get :
    (a j : Str) (m : Manager)
    → GoMap.get j (set_session_bridged a m).0.sessions ≡ (
        if a == j then GoMap.mapped as_bridged (GoMap.get j m.sessions) else GoMap.get j m.sessions)
unfolding set_session_bridged change
set_session_bridged-get a j m = elim (Option-cases (GoMap.get a m.sessions)) [
  | inl e ↦ rw (change, e) (ground (arith, eq_iff a j))
  | inr (s, e) ↦
      rw (change, e) (ground (arith, GoMap.get-put a j (as_bridged s) m.sessions, eq_iff a j))
]
