-- ===== src/RtpSession/Invariant.antt =====
-- What holds of a session manager between two calls.
use switchboard.Prelude.{
  ℕ, ◌+◌, ◌≡◌, inl, inr, true, none, some, arith, Bool-cases, ◌==◌, eq_iff, beq_refl, Str, str_eq,
  nat_eq,
}
use switchboard.GoMap
use switchboard.GoMap.{GoMap}
use switchboard.PortPool.{PortPool}
use switchboard.PortPool.Invariant.{Inv}
use switchboard.PortPool.Calls.{Taken, Returned}
use switchboard.RtpSession.{Session}

-- Each session is the one of its call, each call's session exists, and the allocated ports are
-- exactly those of the sessions, no two of which share one.
pub record IsManaged (sessions : GoMap Str Session) (calls : GoMap Str Str) (pool : PortPool)
    : Type 0 where
  pub pool_ok : Inv pool
  pub sessions_once : GoMap.Distinct sessions
  pub calls_once : GoMap.Distinct calls
  pub keyed :
      (id : Str) (s : Session)
      → GoMap.get id sessions ≡ some s
      → (s.id ≡ id) × (GoMap.get s.call_id calls ≡ some id)
  pub indexed :
      (call_id id : Str)
      → GoMap.get call_id calls ≡ some id
      → (s : Session) × (GoMap.get id sessions ≡ some s) × (s.call_id ≡ call_id)
  pub ported :
      (id : Str) (s : Session)
      → GoMap.get id sessions ≡ some s
      → (GoMap.has s.local_port pool.allocated ≡ true) × (s.rtcp_port ≡ s.local_port + 1)
  pub apart :
      (id jd : Str) (s t : Session)
      → GoMap.get id sessions ≡ some s
      → GoMap.get jd sessions ≡ some t
      → s.local_port ≡ t.local_port
      → id ≡ jd
  pub owned :
      (port : ℕ)
      → GoMap.has port pool.allocated ≡ true
      → (id : Str) × (s : Session) × (GoMap.get id sessions ≡ some s) × (s.local_port ≡ port)

module _ (sessions : GoMap Str Session) (calls : GoMap Str Str) (p q : PortPool) where
  -- A new session under a fresh ID, for a call that has none, on a pair that the pool gave.
  pub insert-IsManaged :
      (id : Str) (s : Session)
      → GoMap.get id sessions ≡ none
      → GoMap.get s.call_id calls ≡ none
      → s.id ≡ id
      → Inv q
      → Taken p q s.local_port s.rtcp_port
      → IsManaged sessions calls p
      → IsManaged (GoMap.put id s sessions) (GoMap.put s.call_id id calls) q
  insert-IsManaged id s fresh new e q_ok t v = record {
    pool_ok = q_ok;
    sessions_once = GoMap.put-Distinct id s sessions v.sessions_once;
    calls_once = GoMap.put-Distinct s.call_id id calls v.calls_once;
    keyed = λ k r h. ground (
      arith,
      GoMap.get-put id k s sessions,
      eq_iff id k,
      v.keyed k r,
      GoMap.get-put s.call_id r.call_id id calls,
      eq_iff s.call_id r.call_id,
    );
    indexed = λ c k h. elim (Bool-cases (s.call_id == c)) [
      | inl f ↦ (
        s,
        ground
            (arith, GoMap.get-put id k s sessions, beq_refl k, GoMap.get-put s.call_id c id calls),
        ground (arith, eq_iff s.call_id c),
      )
      | inr f ↦
          let (r, g, rc) = v.indexed c k (ground (arith, GoMap.get-put s.call_id c id calls)) in
          (r, ground (arith, GoMap.get-put id k s sessions, eq_iff id k), rc)
    ];
    ported = λ k r h. ground (
      arith,
      GoMap.get-put id k s sessions,
      v.ported k r,
      t.lent r.local_port,
      beq_refl s.local_port,
      t.next,
      eq_iff s.local_port r.local_port,
    );
    apart = λ k j r u h g same. ground (
      arith,
      GoMap.get-put id k s sessions,
      GoMap.get-put id j s sessions,
      eq_iff id k,
      eq_iff id j,
      v.apart k j r u,
      v.ported k r,
      v.ported j u,
      t.free,
    );
    owned = λ port h. elim (Bool-cases (s.local_port == port)) [
      | inl f ↦ (
        id,
        s,
        ground (arith, GoMap.get-put id id s sessions, beq_refl id),
        ground (arith, eq_iff s.local_port port),
      )
      | inr f ↦
          let (k, r, g, rp) = v.owned port (ground (arith, t.lent port)) in
          (k, r, ground (arith, GoMap.get-put id k s sessions, eq_iff id k), rp)
    ];
  }

  pub remove-IsManaged :
      (id : Str) (s : Session)
      → GoMap.get id sessions ≡ some s
      → Inv q
      → Returned p q s.local_port
      → IsManaged sessions calls p
      → IsManaged (GoMap.delete id sessions) (GoMap.delete s.call_id calls) q
  remove-IsManaged id s here q_ok t v = record {
    pool_ok = q_ok;
    sessions_once = GoMap.delete-Distinct id sessions v.sessions_once;
    calls_once = GoMap.delete-Distinct s.call_id calls v.calls_once;
    keyed = λ k r h. ground (
      arith,
      GoMap.get-delete id k sessions,
      eq_iff id k,
      v.keyed k r,
      v.keyed id s,
      GoMap.get-delete s.call_id r.call_id calls,
      eq_iff s.call_id r.call_id,
    );
    indexed = λ c k h.
        let (r, g, rc) = v.indexed c k (ground (arith, GoMap.get-delete s.call_id c calls)) in
        (
          r,
          ground (
            arith,
            GoMap.get-delete id k sessions,
            eq_iff id k,
            GoMap.get-delete s.call_id c calls,
            eq_iff s.call_id c,
          ),
          rc,
        );
    ported = λ k r h. ground (
      arith,
      GoMap.get-delete id k sessions,
      eq_iff id k,
      v.ported k r,
      t.lent r.local_port,
      v.apart id k s r,
      eq_iff s.local_port r.local_port,
    );
    apart = λ k j r u h g same.
        ground
          (arith, GoMap.get-delete id k sessions, GoMap.get-delete id j sessions, v.apart k j r u);
    owned = λ port h.
        let (k, r, g, rp) = v.owned port (ground (arith, t.lent port)) in
        (
          k,
          r,
          ground (
            arith,
            GoMap.get-delete id k sessions,
            eq_iff id k,
            t.lent port,
            eq_iff s.local_port port,
          ),
          rp,
        );
  }
