-- ===== src/RtpSession/RoundTrip.antt =====
-- A session that is created and destroyed again.
use switchboard.Prelude.{
  ℕ, ◌≡◌, refl, ap, ◌≢◌, inl, inr, true, Option, none, some, List, arith, ℤ, eq_iff, Str, str_eq,
  nat_eq,
}
use mathlib.Core.Path.{subst}
use switchboard.GoMap
use switchboard.PortPool.{available}
use switchboard.PortPool.Invariant.{Inv}
use switchboard.RtpSession.{
  offers_pcmu, no_ports, no_codec, session_not_found, playback_failed, Fresh, Err, Session, Manager,
  Result, ok, err, destroy_session, create_session,
}
use switchboard.RtpSession.Creation.{
  IsManager, Creates, create_with-Creates, Adds, SamePorts, Taken-available,
}
use switchboard.RtpSession.Life.{Destroys, destroy_session_lem, Removes}

-- The two managers have the same sessions, calls and ports; the order of their maps may differ.
pub record SameManager (m n : Manager) : Type 0 where
  pub sessions : (k : Str) → GoMap.get k n.sessions ≡ GoMap.get k m.sessions
  pub calls : (k : Str) → GoMap.get k n.call_to_session ≡ GoMap.get k m.call_to_session
  pub ports : SamePorts m.port_pool n.port_pool

restored :
    (m n o : Manager) (s t : Session)
    → Inv m.port_pool
    → (t.id ≡ s.id) × (t.call_id ≡ s.call_id) × (t.local_port ≡ s.local_port)
    → Adds m n s
    → Removes n o t
    → SameManager m o
restored m n o s t v same a r = record {
  sessions = λ k. ground (arith, a.sessions k, r.sessions k, eq_iff s.id k, a.none_before);
  calls = λ k. ground (arith, a.calls k, r.calls k, eq_iff s.call_id k, a.none_before);
  ports = record {
    lent = λ k. ground (arith, a.ports.lent k, r.ports.lent k, eq_iff s.local_port k, a.ports.free);
    free = λ k. ground (
      arith,
      a.ports.gone k,
      r.ports.free k,
      eq_iff s.local_port k,
      Taken-available m.port_pool n.port_pool s.local_port s.rtcp_port v a.ports,
    );
  };
}

abbrev Undone : Manager → Manager × Option Err × Option Session → Type 0
Undone m (o, e, t) = (e ≡ none) × SameManager m o

destroyed :
    (m n : Manager) (s : Session) (r : Manager × Option Err × Option Session)
    → Inv m.port_pool
    → GoMap.get s.id n.sessions ≡ some s
    → Adds m n s
    → Destroys s.id n r
    → Undone m r
destroyed m n s (o, none, some t) v here a (w, e, (r, g, te), gone) =
    (refl, restored m n o s t v (ground (arith, here, g, te)) a gone)
destroyed m n s (o, none, none) v here a k = absurd k
destroyed m n s (o, some e, some t) v here a k = absurd k
destroyed m n s (o, some e, none) v here a k = absurd (ground (arith, here, k))

undoes :
    (call_id : Str) (f : Fresh) (offered : List Str) (m : Manager) (r : Manager × Result)
    → IsManager m
    → GoMap.get call_id m.call_to_session ≡ none
    → offers_pcmu offered ≡ true
    → available m.port_pool ≢ 0
    → Creates call_id f offered m r
    → Undone m (destroy_session f.session_id r.0)
undoes c f o m (n, ok s d) v new pcmu free (w, sc, g, _, inl same) =
    absurd (ground (arith, v.keyed s.id s (subst (λ x. GoMap.get s.id x.sessions ≡ some s) same g)))
undoes c f o m (n, ok s d) v new pcmu free (w, sc, g, _, inr (a, _, e)) =
    subst (λ id. Undone m (destroy_session id n)) (ap (λ x. x.id) e)
      (destroyed m n s _ v.pool_ok g a (destroy_session_lem s.id n w))
undoes c f o m (n, err (no_ports e)) v new pcmu free k = absurd (free k.1)
undoes c f o m (n, err no_codec) v new pcmu free k = absurd (ground (arith, k, pcmu))
undoes c f o m (n, err (session_not_found e)) v new pcmu free k = absurd k
undoes c f o m (n, err (playback_failed e)) v new pcmu free k = absurd k

-- A call without a session gets one, under a fresh ID, from a pool that has a port, with PCMU offered:
-- destroying that session succeeds, and leaves the sessions, the calls and both sets of ports as they
-- were before it was created.
pub create_destroy :
    (pick : ℕ) (session_id : Str) (now : ℕ) (call_id remote_addr : Str) (remote_port : ℤ)
    (offered : List Str) (m : Manager)
    → IsManager m
    → GoMap.get session_id m.sessions ≡ none
    → GoMap.get call_id m.call_to_session ≡ none
    → offers_pcmu offered ≡ true
    → available m.port_pool ≢ 0
    → let created = create_session pick session_id now call_id remote_addr remote_port offered m in
      let ended = destroy_session session_id created.0 in (ended.1 ≡ none) × SameManager m ended.0
unfolding create_session
create_destroy pick id now c ra rp offered m v fresh new pcmu free =
    undoes c _ offered m _ v new pcmu free (create_with-Creates pick c _ offered m v fresh)
