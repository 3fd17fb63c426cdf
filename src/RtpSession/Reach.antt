-- ===== src/RtpSession/Reach.antt =====
-- Histories of a session manager.
use switchboard.Prelude.{
  ℕ, ◌≡◌, refl, sym, inl, inr, Bool, true, false, ◌||◌, Option, none, some, List, [], ◌∷◌, arith,
  if◌then◌else◌, Option-cases, ℤ, ◌==◌, eq_iff, beq_refl, Str, str_eq, nat_eq,
}
use mathlib.Core.Path.{subst}
use switchboard.GoMap
use switchboard.GoMap.{GoMap}
use switchboard.PortPool.{PortPool, release, new_port_pool}
use switchboard.PortPool.Invariant.{Inv, release-Inv, new_port_pool-Inv}
use switchboard.RtpSession.{
  Fresh, Err, no_ports, no_codec, session_not_found, playback_failed, Session, Manager, Result, ok,
  err, destroy_session, create_session, create_session_pending_remote, update_remote_endpoint,
  set_session_bridged, new_manager, close_all, release_all,
}
use switchboard.RtpSession.Playback.{play_audio, EventChannel}
use switchboard.RtpSession.Invariant.{IsManaged}
use switchboard.RtpSession.Creation.{IsManager, Creates, create_with-Creates}
use switchboard.RtpSession.Life.{change-IsManager, Destroys, destroy_session_lem}

has-release :
    (port k : ℕ) (p : PortPool)
    → GoMap.has k (release port p).allocated
      ≡ (if port == k then false else GoMap.has k p.allocated)
unfolding release
has-release port k p = ground (arith, GoMap.has-delete port k p.allocated, eq_iff port k)

abbrev holds : ℕ → GoMap Str Session → Bool
holds k [] = false
holds k ((id, s) ∷ ss) = (s.local_port == k) || holds k ss

get-holds :
    (id : Str) (s : Session) (ss : GoMap Str Session)
    → GoMap.get id ss ≡ some s
    → holds s.local_port ss ≡ true
unfolding GoMap.get
get-holds id s [] h = ground arith
get-holds id s ((jd, r) ∷ ss) h = ground (arith, get-holds id s ss, beq_refl s.local_port)

release_all-Inv : (ss : GoMap Str Session) (p : PortPool) → Inv p → Inv (release_all ss p)
release_all-Inv [] p v = v
release_all-Inv ((id, s) ∷ ss) p v =
    release_all-Inv ss (release s.local_port p) (release-Inv s.local_port p v)

release_all-lent :
    (ss : GoMap Str Session) (p : PortPool) (k : ℕ)
    → (GoMap.has k p.allocated ≡ true → holds k ss ≡ true)
    → GoMap.has k (release_all ss p).allocated ≡ false
release_all-lent [] p k h = ground arith
release_all-lent ((id, s) ∷ ss) p k h =
    release_all-lent ss (release s.local_port p) k
      (λ g. ground (arith, h, has-release s.local_port k p))

-- `CloseAll` gives every pair back: no port stays allocated.
pub close_all-lent :
    (m : Manager) → IsManager m → (k : ℕ) → GoMap.has k (close_all m).port_pool.allocated ≡ false
unfolding close_all
close_all-lent m v k = release_all-lent m.sessions m.port_pool k (λ h.
    let (id, s, g, e) = v.owned k h in
    subst (λ j. holds j m.sessions ≡ true) e (get-holds id s m.sessions g))

empty-IsManaged :
    (p : PortPool) → Inv p → ((k : ℕ) → GoMap.has k p.allocated ≡ false) → IsManaged [] [] p
empty-IsManaged p v none_lent = record {
  pool_ok = v;
  sessions_once = tt;
  calls_once = tt;
  keyed = λ id s h. absurd (ground (arith, GoMap.get-nil {V = Session} id));
  indexed = λ c id h. absurd (ground (arith, GoMap.get-nil {V = Str} c));
  ported = λ id s h. absurd (ground (arith, GoMap.get-nil {V = Session} id));
  apart = λ id jd s t h g e. absurd (ground (arith, GoMap.get-nil {V = Session} id));
  owned = λ k h. absurd (ground (arith, none_lent k));
}

-- A call of a client of the manager. The first three arguments of a creating one are the port that
-- the pool meets first, the ID that is drawn, and the time.
pub data Call : Type 0 where
  creates : ℕ → Str → ℕ → Str → Str → ℤ → List Str → Call
  creates_pending : ℕ → Str → ℕ → Str → List Str → Call
  updates : Str → Str → ℤ → Call
  bridges destroys : Str → Call
  plays : Option Str → Str → Str → EventChannel → Call
  closes : Call

abbrev pub step : Manager → Call → Manager
step m (creates pick id now c ra rp offered) = (create_session pick id now c ra rp offered m).0
step m (creates_pending pick id now c offered) =
    (create_session_pending_remote pick id now c offered m).0
step m (updates id ra rp) = (update_remote_endpoint id ra rp m).0
step m (bridges id) = (set_session_bridged id m).0
step m (destroys id) = (destroy_session id m).0
step m (plays outcome id file ch) = (play_audio outcome id file ch m).manager
step m closes = close_all m

-- The IDs that are drawn are not in use.
abbrev pub Draws : Manager → Call → Type 0
Draws m (creates pick id now c ra rp offered) = GoMap.get id m.sessions ≡ none
Draws m (creates_pending pick id now c offered) = GoMap.get id m.sessions ≡ none
Draws m c = Unit

pub data Reach : Manager → Type 0 where
  starts :
      (min_port max_port : ℕ) (addr : Str)
      → Reach (new_manager (new_port_pool min_port max_port) addr)
  next : (m : Manager) (c : Call) → Reach m → Draws m c → Reach (step m c)

Creates-IsManager :
    (c : Str) (f : Fresh) (o : List Str) (m : Manager) (r : Manager × Result)
    → IsManager m
    → Creates c f o m r
    → IsManager r.0
Creates-IsManager c f o m (n, ok s d) v k = k.0
Creates-IsManager c f o m (n, err (no_ports e)) v k = subst IsManager (sym k.0) v
Creates-IsManager c f o m (n, err no_codec) v k = k.0
Creates-IsManager c f o m (n, err (session_not_found e)) v k = absurd k
Creates-IsManager c f o m (n, err (playback_failed e)) v k = absurd k

Destroys-IsManager :
    (id : Str) (m : Manager) (r : Manager × Option Err × Option Session)
    → IsManager m
    → Destroys id m r
    → IsManager r.0
Destroys-IsManager id m (n, none, some s) v k = k.0
Destroys-IsManager id m (n, some e, none) v k = subst IsManager (sym k.0) v
Destroys-IsManager id m (n, some e, some s) v k = absurd k
Destroys-IsManager id m (n, none, none) v k = absurd k

play-IsManager :
    (outcome : Option Str) (id file : Str) (ch : EventChannel) (m : Manager)
    → IsManager m
    → IsManager (play_audio outcome id file ch m).manager
unfolding play_audio
play-IsManager outcome id file ch m v = elim (Option-cases (GoMap.get id m.sessions)) [
  | inl e ↦ rw (play_audio, e) v
  | inr (s, e) ↦ rw (play_audio, e) (change-IsManager id _ m (λ r. (refl, refl, refl, refl)) v)
]

pub step-IsManager : (m : Manager) (c : Call) → Draws m c → IsManager m → IsManager (step m c)
unfolding create_session create_session_pending_remote update_remote_endpoint set_session_bridged
    close_all
step-IsManager m (creates pick id now c ra rp offered) d v =
    Creates-IsManager c _ offered m _ v (create_with-Creates pick c _ offered m v d)
step-IsManager m (creates_pending pick id now c offered) d v =
    Creates-IsManager c _ offered m _ v (create_with-Creates pick c _ offered m v d)
step-IsManager m (updates id ra rp) d v = change-IsManager id _ m (λ r. (refl, refl, refl, refl)) v
step-IsManager m (bridges id) d v = change-IsManager id _ m (λ r. (refl, refl, refl, refl)) v
step-IsManager m (destroys id) d v = Destroys-IsManager id m _ v (destroy_session_lem id m v)
step-IsManager m (plays outcome id file ch) d v = play-IsManager outcome id file ch m v
step-IsManager m closes d v =
    empty-IsManaged _ (release_all-Inv m.sessions m.port_pool v.pool_ok) (close_all-lent m v)

new_pool-lent :
    (min_port max_port k : ℕ) → GoMap.has k (new_port_pool min_port max_port).allocated ≡ false
unfolding new_port_pool GoMap.has GoMap.get
new_pool-lent min_port max_port k = refl

-- After any calls on a new manager, the pool's invariant holds, each session is the one that its call
-- leads to and each call leads to a session, and the allocated ports of the pool are exactly the
-- RTP ports of the sessions, no two of which share one: no pair of ports leaks.
pub Reach-IsManager : (m : Manager) → Reach m → IsManager m
unfolding new_manager
Reach-IsManager _ (starts min_port max_port addr) =
    empty-IsManaged _ (new_port_pool-Inv min_port max_port) (new_pool-lent min_port max_port)
Reach-IsManager _ (next m c r d) = step-IsManager m c d (Reach-IsManager m r)
