-- ===== src/RtpSession.antt =====
-- internal/rtpmanager/session/manager.go: the media sessions of an RTP manager over its port pool. A
-- method that takes the manager's mutex is one step. A session is reached through its ID only, so
-- the map holds the session itself. What `media.LocalService` answers is an argument.
pub mod Invariant
pub mod Creation
pub mod Life
pub mod Playback
pub mod Reach
pub mod RoundTrip
mod Tests
use switchboard.Prelude.{
  ℕ, ◌⊎◌, inl, inr, Bool, Option, none, some, List, [], ◌∷◌, if◌then◌else◌, length, any, ℤ, ◌==◌,
  Str, codes, pos, str_eq, nat_eq,
}
use switchboard.GoMap
use switchboard.GoMap.{GoMap}
use switchboard.PortPool
use switchboard.PortPool.{PortPool, no_ports_available, allocate, release}
use switchboard.Sdp.{Description, build_response_sdp}

pub data SessionState : Type 0 where
  state_unspecified state_created state_active state_terminated state_error state_pending_remote
        state_bridged :
      SessionState

pub record Session : Type 0 where
  pub id : Str
  pub call_id : Str
  pub local_addr : Str
  pub local_port : ℕ
  pub rtcp_port : ℕ
  pub remote_addr : Str
  pub remote_port : ℤ
  pub codec : Str
  pub state : SessionState
  pub created_at : ℕ

pub record Manager : Type 0 where
  pub sessions : GoMap Str Session
  pub call_to_session : GoMap Str Str
  pub port_pool : PortPool
  pub advertise_addr : Str

pub data Err : Type 0 where
  no_ports : PortPool.Err → Err
  no_codec : Err
  session_not_found : Str → Err
  playback_failed : Str → Err

pub data Result : Type 0 where
  ok : Session → Description → Result
  err : Err → Result

-- `NewManager`
unfoldable pub new_manager : PortPool → Str → Manager
new_manager port_pool advertise_addr = record {
  sessions = [];
  call_to_session = [];
  port_pool = port_pool;
  advertise_addr = advertise_addr;
}

-- The guard of the creating methods: the session of the call, where the call has one.
unfoldable pub session_of_call : Str → Manager → Option Session
session_of_call call_id m = elim (GoMap.get call_id m.call_to_session) [
  | none ↦ none
  | some session_id ↦ GoMap.get session_id m.sessions
]

-- The loop over `offeredCodecs`, as a test: only PCMU is selected.
abbrev pub offers_pcmu : List Str → Bool
offers_pcmu offered = any (λ codec. codec == codes "0") offered

-- What a creating method fills in: the ID that `uuid.New` draws, the remote endpoint and the state.
pub record Fresh : Type 0 where
  pub session_id : Str
  pub at : ℕ
  pub to_addr : Str
  pub to_port : ℤ
  pub first_state : SessionState

abbrev pub new_session : Str → ℕ → ℕ → Fresh → Str → Session
new_session call_id rtp_port rtcp_port f advertise_addr = record {
  id = f.session_id;
  call_id = call_id;
  local_addr = advertise_addr;
  local_port = rtp_port;
  rtcp_port = rtcp_port;
  remote_addr = f.to_addr;
  remote_port = f.to_port;
  codec = codes "0";
  state = f.first_state;
  created_at = f.at;
}

-- From `Allocate` on.
abbrev pub on_ports :
    Str → Fresh → List Str → Manager → PortPool × (PortPool.Err ⊎ (ℕ × ℕ)) → Manager × Result
on_ports call_id f offered m (pool, inl e) = (record m { port_pool = pool }, err (no_ports e))
on_ports call_id f offered m (pool, inr (rtp_port, rtcp_port)) =
    if offers_pcmu offered
    then (
      record m {
        sessions =
            GoMap.put f.session_id (new_session call_id rtp_port rtcp_port f m.advertise_addr)
              m.sessions;
        call_to_session = GoMap.put call_id f.session_id m.call_to_session;
        port_pool = pool;
      },
      ok (new_session call_id rtp_port rtcp_port f m.advertise_addr)
          (build_response_sdp m.advertise_addr rtp_port (codes "0")),
    )
    else (record m { port_pool = release rtp_port pool }, err no_codec)

abbrev pub unless_exists : ℕ → Str → Fresh → List Str → Manager → Option Session → Manager × Result
unless_exists pick call_id f offered m none =
    on_ports call_id f offered m (allocate pick m.port_pool)
unless_exists pick call_id f offered m (some s) =
    (m, ok s (build_response_sdp m.advertise_addr s.local_port s.codec))

-- The code that both creating methods share.
unfoldable pub create_with : ℕ → Str → Fresh → List Str → Manager → Manager × Result
create_with pick call_id f offered m =
    unless_exists pick call_id f offered m (session_of_call call_id m)

-- `CreateSession`: `pick` is the port that `Allocate` meets first, `session_id` and `now` what
-- `uuid.New` and `time.Now` give.
unfoldable pub create_session : ℕ → Str → ℕ → Str → Str → ℤ → List Str → Manager → Manager × Result
create_session pick session_id now call_id remote_addr remote_port offered m =
    create_with pick call_id
      (record {
        session_id = session_id;
        at = now;
        to_addr = remote_addr;
        to_port = remote_port;
        first_state = state_created;
      })
      offered m

-- `CreateSessionPendingRemote`
unfoldable pub create_session_pending_remote :
    ℕ → Str → ℕ → Str → List Str → Manager → Manager × Result
create_session_pending_remote pick session_id now call_id offered m =
    create_with pick call_id
      (record {
        session_id = session_id;
        at = now;
        to_addr = [];
        to_port = pos 0;
        first_state = state_pending_remote;
      })
      offered m

-- `GetSession`
unfoldable pub get_session : Str → Manager → Option Session
get_session session_id m = GoMap.get session_id m.sessions

-- A change of the session under an ID, and the error where there is none.
unfoldable pub change : Str → (Session → Session) → Manager → Manager × Option Err
change session_id f m = elim (GoMap.get session_id m.sessions) [
  | none ↦ (m, some (session_not_found session_id))
  | some s ↦ (record m { sessions = GoMap.put session_id (f s) m.sessions }, none)
]

abbrev pub activated : SessionState → SessionState
activated state_pending_remote = state_active
activated s = s

abbrev pub with_remote : Str → ℤ → Session → Session
with_remote remote_addr remote_port s = record s {
  remote_addr = remote_addr;
  remote_port = remote_port;
  state = activated s.state;
}

-- `UpdateRemoteEndpoint`
unfoldable pub update_remote_endpoint : Str → Str → ℤ → Manager → Manager × Option Err
update_remote_endpoint session_id remote_addr remote_port m =
    change session_id (with_remote remote_addr remote_port) m

abbrev pub as_bridged : Session → Session
as_bridged s = record s { state = state_bridged }

-- `SetSessionBridged`
unfoldable pub set_session_bridged : Str → Manager → Manager × Option Err
set_session_bridged session_id m = change session_id as_bridged m

abbrev pub endpoint_from : Str → Option Session → Err ⊎ (Str × ℕ × Str × ℤ)
endpoint_from session_id none = inl (session_not_found session_id)
endpoint_from session_id (some s) = inr (s.local_addr, s.local_port, s.remote_addr, s.remote_port)

-- `GetSessionEndpoint`
unfoldable pub get_session_endpoint : Str → Manager → Err ⊎ (Str × ℕ × Str × ℤ)
get_session_endpoint session_id m = endpoint_from session_id (GoMap.get session_id m.sessions)

-- `DestroySession`; the last component is the session whose playback is stopped, in its last state.
unfoldable pub destroy_session : Str → Manager → Manager × Option Err × Option Session
destroy_session session_id m = elim (GoMap.get session_id m.sessions) [
  | none ↦ (m, some (session_not_found session_id), none)
  | some s ↦ (
    record m {
      sessions = GoMap.delete session_id m.sessions;
      call_to_session = GoMap.delete s.call_id m.call_to_session;
      port_pool = release s.local_port m.port_pool;
    },
    none,
    some (record s { state = state_terminated }),
  )
]

-- `Count`
unfoldable pub count : Manager → ℕ
count m = length m.sessions

-- The loop of `CloseAll`.
abbrev pub release_all : GoMap Str Session → PortPool → PortPool
release_all [] p = p
release_all ((id, s) ∷ ss) p = release_all ss (release s.local_port p)

-- `CloseAll`
unfoldable pub close_all : Manager → Manager
close_all m = record m {
  sessions = [];
  call_to_session = [];
  port_pool = release_all m.sessions m.port_pool;
}
