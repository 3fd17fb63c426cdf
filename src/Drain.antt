-- ===== src/Drain.antt =====
-- internal/signaling/drain/coordinator.go and state.go: the drain of an RTP manager node, over the pool
-- model. A drain operation is shared by pointer: it stands under a number in `operations`. The
-- migrations of one drain run in parallel; what each gives is an argument, in the order in which
-- they are counted, together with its effect on the pool.
pub mod Outcome
pub mod Start
mod Tests
use switchboard.Prelude.{
  ℕ, ◌+◌, Bool, true, false, not, ◌&&◌, Option, none, some, List, [], ◌∷◌, ◌++◌, if◌then◌else◌,
  length, ◌==◌, Str, str_eq, nat_eq,
}
use switchboard.GoMap
use switchboard.GoMap.{GoMap}
use switchboard.MediaPool
use switchboard.MediaPool.{
  Pool, PoolMember, DrainState, draining, disabled, active, is_active, sessions_on_node,
  get_member_by_id, ok, err,
}
use switchboard.MediaPool.Drain

-- A string in Go; `no_mode` is its zero value.
pub data DrainMode : Type 0 where
  graceful aggressive no_mode : DrainMode

pub record DrainRequest : Type 0 where
  pub node_id : Str
  pub mode : DrainMode
  pub timeout : ℕ

-- `DefaultDrainTimeout`, in seconds.
unfoldable pub default_drain_timeout : DrainMode → ℕ
default_drain_timeout aggressive = 30
default_drain_timeout _ = 120

-- Why a session, or the drain, failed.
pub data SessionError : Type 0 where
  migration_error : Str → Str → SessionError
  no_target : SessionError

pub record DrainStatus : Type 0 where
  pub node_id : Str
  pub state : DrainState
  pub mode : DrainMode
  pub total_sessions : ℕ
  pub migrated_count : ℕ
  pub failed_count : ℕ
  pub errors : List SessionError

pub record DrainOperation : Type 0 where
  pub status : DrainStatus
  -- In nanoseconds in Go.
  pub timeout : ℕ
  -- The sessions that the node had.
  pub sessions : List Str
  pub cancelled : Bool
  -- Whether the channel `completed` is closed.
  pub completed : Bool

pub record Coordinator : Type 0 where
  pub pool : Pool
  pub active_drains : GoMap Str ℕ
  pub operations : GoMap ℕ DrainOperation
  pub next : ℕ

-- `NewCoordinator`
abbrev pub new_coordinator : Pool → Coordinator
new_coordinator pool = record { pool = pool; active_drains = []; operations = []; next = 0 }

pub data Err : Type 0 where
  already_in_progress no_drain no_node : Str → Err
  pool_refuses : MediaPool.Err → Err

pub data Result {ℓ} (A : Type ℓ) : Type ℓ where
  done : A → Result A
  fails : Err → Result A

abbrev pub timeout_of : DrainRequest → ℕ
timeout_of req = if req.timeout == 0 then default_drain_timeout req.mode else req.timeout

abbrev pub new_operation : DrainRequest → List Str → DrainOperation
new_operation req sessions = record {
  status = record {
    node_id = req.node_id;
    state = draining;
    mode = req.mode;
    total_sessions = length sessions;
    migrated_count = 0;
    failed_count = 0;
    errors = [];
  };
  timeout = timeout_of req;
  sessions = sessions;
  cancelled = false;
  completed = false;
}

-- From the pool's answer on.
abbrev pub started :
    DrainRequest
    → Pool × MediaPool.Result (Unit {0})
    → Coordinator
    → Coordinator × Result DrainOperation
started req (p, err e) c = (record c { pool = p }, fails (pool_refuses e))
started req (p, ok u) c = (
  record {
    pool = p;
    active_drains = GoMap.put req.node_id c.next c.active_drains;
    operations = GoMap.put c.next (new_operation req (sessions_on_node req.node_id p)) c.operations;
    next = c.next + 1;
  },
  done (new_operation req (sessions_on_node req.node_id p)),
)

abbrev pub unless_draining :
    DrainRequest → Option ℕ → Coordinator → Coordinator × Result DrainOperation
unless_draining req (some n) c = (c, fails (already_in_progress req.node_id))
unless_draining req none c = started req (Drain.start_drain req.node_id c.pool) c

-- `Coordinator.StartDrain`, before it starts `runDrain`
unfoldable pub start_operation : DrainRequest → Coordinator → Coordinator × Result DrainOperation
start_operation req c = unless_draining req (GoMap.get req.node_id c.active_drains) c

-- `findTargetNode`: the pool's members in the order of its slice.
abbrev pub find_target_node : Str → GoMap Str PoolMember → Option Str
find_target_node exclude [] = none
find_target_node exclude ((id, m) ∷ ms) =
    let rest = find_target_node exclude ms in
    if not (id == exclude) && m.healthy && is_active m.drain_state then some id else rest

-- What `MigrateSession` gives, or that the semaphore was not acquired.
pub data Migration : Type 0 where
  is_migrated is_skipped not_acquired : Migration
  is_failed : Str → Migration

pub record MigrationResult : Type 0 where
  pub session_id : Str
  pub result : Migration
  pub effect : Pool → Pool

-- The block under `countMu`.
abbrev pub count_result : Str → Migration → DrainStatus → DrainStatus
count_result session_id is_migrated s = record s { migrated_count = s.migrated_count + 1 }
count_result session_id (is_failed e) s = record s {
  failed_count = s.failed_count + 1;
  errors = s.errors ++ migration_error session_id e ∷ [];
}
count_result session_id _ s = s

abbrev pub count_all : List MigrationResult → DrainStatus → DrainStatus
count_all [] s = s
count_all (r ∷ rs) s = count_all rs (count_result r.session_id r.result s)

abbrev pub migrate_all : List MigrationResult → Pool → Pool
migrate_all [] p = p
migrate_all (r ∷ rs) p = migrate_all rs (r.effect p)

-- `completeDrain`: the pool and the operation's status.
abbrev pub completed_by : DrainStatus → Pool × MediaPool.Result (Unit {0}) → Pool × DrainStatus
completed_by s (p, err e) = (p, s)
completed_by s (p, ok u) = (p, record s { state = disabled })

unfoldable pub finish_drain : Str → DrainStatus → Pool → Pool × DrainStatus
finish_drain node_id s p = completed_by s (Drain.complete_drain node_id p)

-- `failDrain`
unfoldable pub fail_drain : Str → DrainStatus → Pool → Pool × DrainStatus
fail_drain node_id s p = (
  (Drain.cancel_drain node_id p).0,
  record s { state = active; errors = s.errors ++ no_target ∷ [] },
)

-- From the target node on.
abbrev pub migrate_to :
    Option Str → Str → List MigrationResult → DrainStatus → Pool → Pool × DrainStatus
migrate_to none node_id rs s p = fail_drain node_id s p
migrate_to (some target) node_id rs s p =
    let moved = migrate_all rs p in
    if length (sessions_on_node node_id moved) == 0
    then finish_drain node_id (count_all rs s) moved
    else (moved, count_all rs s)

-- `runDrain`, on the pool and the status of its operation
unfoldable pub run_drain :
    Str → List Str → List MigrationResult → DrainStatus → Pool → Pool × DrainStatus
run_drain node_id sessions rs s p =
    if length sessions == 0
    then finish_drain node_id s p
    else migrate_to (find_target_node node_id p.members) node_id rs s p

abbrev pub ran : ℕ → List MigrationResult → Option DrainOperation → Coordinator → Coordinator
ran n rs none c = c
ran n rs (some op) c =
    let (p, s) = run_drain op.status.node_id op.sessions rs op.status c.pool in
    record c {
      pool = p;
      operations =
          GoMap.put n (record op { status = s; completed = true; cancelled = true }) c.operations;
    }

-- `runDrain` of an operation, with its deferred calls
unfoldable pub run_operation : ℕ → List MigrationResult → Coordinator → Coordinator
run_operation n rs c = ran n rs (GoMap.get n c.operations) c

abbrev pub status_of_member : Str → Option PoolMember → Pool → Result DrainStatus
status_of_member node_id none p = fails (no_node node_id)
status_of_member node_id (some m) p = done (record {
  node_id = node_id;
  state = m.drain_state;
  mode = no_mode;
  total_sessions = length (sessions_on_node node_id p);
  migrated_count = 0;
  failed_count = 0;
  errors = [];
})

abbrev pub cancelled_by :
    Str → ℕ → Pool × MediaPool.Result (Unit {0}) → Coordinator → Coordinator × Result (Unit {0})
cancelled_by node_id n (p, err e) c = (record c { pool = p }, fails (pool_refuses e))
cancelled_by node_id n (p, ok u) c =
    (record c { pool = p; active_drains = GoMap.delete node_id c.active_drains }, done tt)

abbrev pub status_at : Str → Option ℕ → Coordinator → Result DrainStatus
status_at node_id none c = status_of_member node_id (get_member_by_id node_id c.pool) c.pool
status_at node_id (some n) c = elim (GoMap.get n c.operations) [
  | none ↦ fails (no_drain node_id)
  | some op ↦ done op.status
]

-- `GetDrainStatus`
unfoldable pub get_drain_status : Str → Coordinator → Result DrainStatus
get_drain_status node_id c = status_at node_id (GoMap.get node_id c.active_drains) c

-- A call of the operation's cancel function.
abbrev pub cancel_operation : ℕ → Option DrainOperation → Coordinator → Coordinator
cancel_operation n none c = c
cancel_operation n (some op) c = record c {
  operations = GoMap.put n (record op { cancelled = true }) c.operations;
}

abbrev pub cancel_at : Str → Option ℕ → Coordinator → Coordinator × Result (Unit {0})
cancel_at node_id none c = (c, fails (no_drain node_id))
cancel_at node_id (some n) c =
    cancelled_by node_id n (Drain.cancel_drain node_id c.pool)
      (cancel_operation n (GoMap.get n c.operations) c)

-- `Coordinator.CancelDrain`
unfoldable pub cancel_running : Str → Coordinator → Coordinator × Result (Unit {0})
cancel_running node_id c = cancel_at node_id (GoMap.get node_id c.active_drains) c

abbrev pub is_completed : Option DrainOperation → Bool
is_completed none = false
is_completed (some op) = op.completed

-- `Cleanup`
unfoldable pub cleanup_drains : Coordinator → Coordinator
cleanup_drains c = record c {
  active_drains =
      GoMap.select (λ id n. not (is_completed (GoMap.get n c.operations))) c.active_drains;
}
