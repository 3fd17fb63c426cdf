-- ===== src/RtpSession/Tests.antt =====
-- Runs of a session manager, and the theorems at concrete managers.
use switchboard.Prelude.{
  ◌≡◌, refl, none, some, List, [], ◌∷◌, arith, Str, codes, pos, str_eq, nat_eq,
}
use switchboard.GoMap
use switchboard.PortPool
use switchboard.PortPool.{PortPool, new_port_pool, available, release}
use switchboard.RtpSession.{
  Session, Manager, new_manager, create_session, create_session_pending_remote, destroy_session,
  state_created, state_pending_remote, session_of_call, create_with,
}
use switchboard.RtpSession.Creation.{IsManager, Creates, create_session_lem}
use switchboard.RtpSession.Reach.{Reach, starts, next, creates, Reach-IsManager, step, Call}
use switchboard.RtpSession.RoundTrip.{create_destroy, SameManager}

abbrev m0 : Manager
m0 = new_manager (new_port_pool 10000 10004) (codes "10.0.0.1")

abbrev pcmu : List Str
pcmu = codes "8" ∷ codes "0" ∷ []

abbrev first_call : Call
first_call = creates 0 (codes "s1") 7 (codes "c1") (codes "10.9.9.9") (pos 4000) pcmu

abbrev m1 : Manager
m1 = step m0 first_call

s1_drawn : GoMap.get (codes "s1") m0.sessions ≡ none
unfolding new_manager GoMap.get
s1_drawn = refl

abbrev s1 : Session
s1 = record {
  id = codes "s1";
  call_id = codes "c1";
  local_addr = codes "10.0.0.1";
  local_port = 10000;
  rtcp_port = 10001;
  remote_addr = codes "10.9.9.9";
  remote_port = pos 4000;
  codec = codes "0";
  state = state_created;
  created_at = 7;
}

m1_sessions : m1.sessions ≡ (codes "s1", s1) ∷ []
unfolding new_manager create_session create_with session_of_call new_port_pool PortPool.fill
    PortPool.allocate PortPool.take_port GoMap.get GoMap.put GoMap.keys GoMap.delete
m1_sessions = refl

m1_calls : m1.call_to_session ≡ (codes "c1", codes "s1") ∷ []
unfolding new_manager create_session create_with session_of_call new_port_pool PortPool.fill
    PortPool.allocate PortPool.take_port GoMap.get GoMap.put GoMap.keys GoMap.delete
m1_calls = refl

m1_ports : available m1.port_pool ≡ 1
unfolding available new_manager create_session create_with session_of_call new_port_pool
    PortPool.fill PortPool.allocate PortPool.take_port GoMap.get GoMap.put GoMap.keys GoMap.delete
m1_ports = refl

m1-Reach : Reach m1
m1-Reach = next m0 first_call (starts 10000 10004 (codes "10.0.0.1")) s1_drawn

s1_found : GoMap.get (codes "s1") m1.sessions ≡ some s1
unfolding GoMap.get
s1_found = rw m1_sessions refl

s2_drawn : GoMap.get (codes "s2") m1.sessions ≡ none
unfolding GoMap.get
s2_drawn = rw m1_sessions refl

c2_new : GoMap.get (codes "c2") m1.call_to_session ≡ none
unfolding GoMap.get
c2_new = rw m1_calls refl

m1-IsManager : IsManager m1
m1-IsManager = Reach-IsManager m1 m1-Reach

create_session_lem_example :
    Creates
      (codes "c2")
      (record {
        session_id = codes "s2";
        at = 9;
        to_addr = [];
        to_port = pos 5000;
        first_state = state_created;
      })
      pcmu
      m1
      (create_session 1 (codes "s2") 9 (codes "c2") [] (pos 5000) pcmu m1)
    × Creates
        (codes "c2")
        (record {
          session_id = codes "s2";
          at = 9;
          to_addr = [];
          to_port = pos 0;
          first_state = state_pending_remote;
        })
        pcmu
        m1
        (create_session_pending_remote 1 (codes "s2") 9 (codes "c2") pcmu m1)
create_session_lem_example =
    create_session_lem 1 (codes "s2") 9 (codes "c2") [] (pos 5000) pcmu m1 m1-IsManager s2_drawn

create_destroy_example :
    let created = create_session 1 (codes "s2") 9 (codes "c2") [] (pos 5000) pcmu m1 in
    let ended = destroy_session (codes "s2") created.0 in (ended.1 ≡ none) × SameManager m1 ended.0
create_destroy_example =
    create_destroy 1 (codes "s2") 9 (codes "c2") [] (pos 5000) pcmu m1 m1-IsManager s2_drawn c2_new
      refl (λ e. absurd (ground (arith, m1_ports, e)))
