-- ===== src/RtpSession/Creation.antt =====
-- `CreateSession` and `CreateSessionPendingRemote` on every branch.
use switchboard.Prelude.{
  ℕ, ◌+◌, ◌≡◌, refl, sym, ap, ◌⊎◌, inl, inr, true, false, none, some, List, [], arith,
  if◌then◌else◌, Bool-cases, Option-cases, length, ℤ, ◌==◌, eq_iff, beq_refl, Str, pos, str_eq,
  nat_eq,
}
use mathlib.Core.Path.{subst}
use switchboard.GoMap
use switchboard.GoMap.{GoMap}
use switchboard.PortPool
use switchboard.PortPool.{PortPool, allocate, release, no_ports_available, available}
use switchboard.PortPool.Invariant.{Inv, allocate-Inv, release-Inv}
use switchboard.PortPool.Calls.{allocate-Allocates, Allocates, Taken, release-Returned}
use switchboard.Sdp.{build_response_sdp}
use switchboard.RtpSession.{
  create_session, create_session_pending_remote, state_created, state_pending_remote, Session,
  Manager, Result, ok, err, no_ports, no_codec, Fresh, new_session, create_with, unless_exists,
  on_ports, session_of_call, offers_pcmu,
}
use switchboard.RtpSession.Invariant.{IsManaged, insert-IsManaged}

abbrev pub IsManager : Manager → Type 0
IsManager m = IsManaged m.sessions m.call_to_session m.port_pool

-- The two pools have the same ports in each map; the order of the maps may differ.
pub record SamePorts (p q : PortPool) : Type 0 where
  pub lent : (k : ℕ) → GoMap.has k q.allocated ≡ GoMap.has k p.allocated
  pub free : (k : ℕ) → GoMap.has k q.available ≡ GoMap.has k p.available

-- `n` is `m` with the session `s` added.
pub record Adds (m n : Manager) (s : Session) : Type 0 where
  pub ports : Taken m.port_pool n.port_pool s.local_port s.rtcp_port
  pub none_before :
      (GoMap.get s.id m.sessions ≡ none) × (GoMap.get s.call_id m.call_to_session ≡ none)
  pub sessions :
      (k : Str) → GoMap.get k n.sessions ≡ (if s.id == k then some s else GoMap.get k m.sessions)
  pub calls :
      (k : Str)
      → GoMap.get k n.call_to_session
        ≡ (if s.call_id == k then some s.id else GoMap.get k m.call_to_session)
  pub one_more : length n.sessions ≡ length m.sessions + 1

abbrev pub Creates : Str → Fresh → List Str → Manager → Manager × Result → Type 0
Creates call_id f offered m (n, ok s sdp) =
    IsManager n
    × (s.call_id ≡ call_id)
    × (GoMap.get s.id n.sessions ≡ some s)
    × (sdp ≡ build_response_sdp m.advertise_addr s.local_port s.codec)
    × ((n ≡ m)
        ⊎ (Adds m n s
            × (offers_pcmu offered ≡ true)
            × (s ≡ new_session call_id s.local_port s.rtcp_port f m.advertise_addr)))
Creates call_id f offered m (n, err (no_ports e)) =
    (n ≡ m) × (available m.port_pool ≡ 0) × (GoMap.get call_id m.call_to_session ≡ none)
Creates call_id f offered m (n, err no_codec) =
    IsManager n
    × (n.sessions ≡ m.sessions)
    × (n.call_to_session ≡ m.call_to_session)
    × SamePorts m.port_pool n.port_pool
    × (offers_pcmu offered ≡ false)
Creates call_id f offered m (n, err e) = ⊥

-- A pair that is given back at once.
pub undone :
    (p q : PortPool) (rtp_port rtcp_port : ℕ)
    → Inv q
    → Taken p q rtp_port rtcp_port
    → GoMap.has rtp_port p.available ≡ true
    → SamePorts p (release rtp_port q)
undone p q rtp rtcp v t here =
    let back = release-Returned rtp q v (ground (arith, t.lent rtp, beq_refl rtp)) in
    record {
      lent = λ k. ground (arith, back.lent k, t.lent k, t.free, eq_iff rtp k);
      free = λ k. ground (arith, back.free k, t.gone k, here, eq_iff rtp k);
    }

-- A port that the pool gave was available.
pub Taken-available :
    (p q : PortPool) (rtp_port rtcp_port : ℕ)
    → Inv p
    → Taken p q rtp_port rtcp_port
    → GoMap.has rtp_port p.available ≡ true
Taken-available p q rtp rtcp v t =
    ground (arith, v.covers rtp, t.even, t.next, t.above, t.below, t.free)

pub SamePorts-IsManaged :
    (sessions : GoMap Str Session) (calls : GoMap Str Str) (p q : PortPool)
    → Inv q
    → SamePorts p q
    → IsManaged sessions calls p
    → IsManaged sessions calls q
SamePorts-IsManaged sessions calls p q w same v = record {
  pool_ok = w;
  sessions_once = v.sessions_once;
  calls_once = v.calls_once;
  keyed = v.keyed;
  indexed = v.indexed;
  ported = λ id s h. ground (arith, v.ported id s, same.lent s.local_port);
  apart = v.apart;
  owned = λ port h. v.owned port (ground (arith, same.lent port));
}

put_fresh :
    (id : Str) (s : Session) (m : GoMap Str Session)
    → GoMap.get id m ≡ none
    → length (GoMap.put id s m) ≡ length m + 1
unfolding GoMap.has
put_fresh id s m h = ground (arith, GoMap.length-put id s m, h)

module _ (call_id : Str) (f : Fresh) (offered : List Str) (m : Manager) (v : IsManager m)
    (fresh : GoMap.get f.session_id m.sessions ≡ none)
    (new : GoMap.get call_id m.call_to_session ≡ none) where
  on_ports-Creates :
      (r : PortPool × (PortPool.Err ⊎ (ℕ × ℕ)))
      → Inv r.0
      → Allocates m.port_pool r
      → Creates call_id f offered m (on_ports call_id f offered m r)
  on_ports-Creates (q, inl e) w a = (ap (λ x. record m { port_pool = x }) a.1, a.0, new)
  on_ports-Creates (q, inr (rtp, rtcp)) w t = elim (Bool-cases (offers_pcmu offered)) [
    | inl o ↦
        let s : Session = new_session call_id rtp rtcp f m.advertise_addr in
        rw o (
          insert-IsManaged m.sessions m.call_to_session m.port_pool q f.session_id s fresh new refl
              w t v,
          refl,
          rw (GoMap.get-put f.session_id f.session_id s m.sessions, beq_refl f.session_id) refl,
          refl,
          inr (
            record {
              ports = t;
              none_before = (fresh, new);
              sessions = λ k. GoMap.get-put f.session_id k s m.sessions;
              calls = λ k. GoMap.get-put call_id k f.session_id m.call_to_session;
              one_more = put_fresh f.session_id s m.sessions fresh;
            },
            o,
            refl,
          ),
        )
    | inr o ↦
        let same =
          undone m.port_pool q rtp rtcp w t (Taken-available m.port_pool q rtp rtcp v.pool_ok t) in
        rw o (
          SamePorts-IsManaged m.sessions m.call_to_session m.port_pool _ (release-Inv rtp q w) same
              v,
          refl,
          refl,
          same,
          o,
        )
  ]

session_of_call-none :
    (call_id : Str) (m : Manager)
    → GoMap.get call_id m.call_to_session ≡ none
    → session_of_call call_id m ≡ none
unfolding session_of_call
session_of_call-none c m e = rw (session_of_call, e) refl

session_of_call-some :
    (call_id : Str) (m : Manager) (id : Str) (s : Session)
    → GoMap.get call_id m.call_to_session ≡ some id
    → GoMap.get id m.sessions ≡ some s
    → session_of_call call_id m ≡ some s
unfolding session_of_call
session_of_call-some c m id s e g = rw (session_of_call, e) g

-- `CreateSession` and `CreateSessionPendingRemote` share this.
pub create_with-Creates :
    (pick : ℕ) (call_id : Str) (f : Fresh) (offered : List Str) (m : Manager)
    → IsManager m
    → GoMap.get f.session_id m.sessions ≡ none
    → Creates call_id f offered m (create_with pick call_id f offered m)
unfolding create_with
create_with-Creates pick c f offered m v fresh =
    elim (Option-cases (GoMap.get c m.call_to_session)) [
      | inl e ↦
          subst (λ o. Creates c f offered m (unless_exists pick c f offered m o))
            (sym (session_of_call-none c m e))
            (on_ports-Creates c f offered m v fresh e (allocate pick m.port_pool)
              (allocate-Inv pick m.port_pool v.pool_ok)
              (allocate-Allocates pick m.port_pool v.pool_ok))
      | inr (id, e) ↦
          let (s, g, sc) = v.indexed c id e in
          subst (λ o. Creates c f offered m (unless_exists pick c f offered m o))
            (sym (session_of_call-some c m id s e g))
            (
              v,
              sc,
              subst (λ k. GoMap.get k m.sessions ≡ some s) (sym (v.keyed id s g).0) g,
              refl,
              inl refl,
            )
    ]

-- On a well-formed manager, with a session ID that is not in use: both creating methods keep it well
-- formed. What they return is the session of the call, with the answer for its port, and the manager
-- has it under its ID. It is either the session that the call had, and nothing changes, or a new one
-- with PCMU offered: its pair of ports was free, and no other session, call or port changes. They
-- fail for want of a port only where the pool has none, and change nothing; they fail for want of a
-- codec only where PCMU is not offered, and no session, call or port changes.
pub create_session_lem :
    (pick : ℕ) (session_id : Str) (now : ℕ) (call_id remote_addr : Str) (remote_port : ℤ)
    (offered : List Str) (m : Manager)
    → IsManager m
    → GoMap.get session_id m.sessions ≡ none
    → Creates call_id
        (record {
          session_id = session_id;
          at = now;
          to_addr = remote_addr;
          to_port = remote_port;
          first_state = state_created;
        })
        offered
        m
        (create_session pick session_id now call_id remote_addr remote_port offered m)
      × Creates call_id
          (record {
            session_id = session_id;
            at = now;
            to_addr = [];
            to_port = pos 0;
            first_state = state_pending_remote;
          })
          offered
          m
          (create_session_pending_remote pick session_id now call_id offered m)
unfolding create_session create_session_pending_remote
create_session_lem pick id now c ra rp offered m v fresh =
    (create_with-Creates pick c _ offered m v fresh, create_with-Creates pick c _ offered m v fresh)
