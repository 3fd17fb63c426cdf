-- ===== src/Drain/Tests.antt =====
-- Runs of the drain coordinator, and its theorems at a pool of two nodes.
use switchboard.Prelude.{
  ◌≡◌, refl, ◌≢◌, true, none, some, List, [], ◌∷◌, length, Str, codes, str_eq, nat_eq,
}
use switchboard.GoMap
use switchboard.MediaPool.{
  Pool, PoolMember, DrainState, active, draining, sessions_on_node, untrack_session, track_session,
}
use switchboard.Drain.{
  new_coordinator, DrainRequest, DrainStatus, new_operation, start_operation, find_target_node,
  MigrationResult, migrate_all, run_drain, graceful, migration_error, is_migrated, is_failed,
}
use switchboard.Drain.Outcome.{IsDraining, Disables, Fails, Migrates, run_drain_lem}
use switchboard.Drain.Start.{Starts, start_operation_lem}

abbrev member : DrainState → PoolMember
member state = record {
  address = codes "h:9090";
  transport = true;
  healthy = true;
  drain_state = state;
  fail_count = 0;
  success_count = 0;
}

abbrev old_node : Str
old_node = codes "rtp-0"

abbrev new_node : Str
new_node = codes "rtp-1"

-- Two sessions on the first node.
abbrev pool_with : DrainState → Pool
pool_with state = record {
  members = (old_node, member state) ∷ (new_node, member active) ∷ [];
  session_to_node = (codes "s1", old_node) ∷ (codes "s2", old_node) ∷ [];
  node_to_sessions = (old_node, (codes "s1", tt) ∷ (codes "s2", tt) ∷ []) ∷ [];
  next_index = 0;
  unhealthy_threshold = 3;
  healthy_threshold = 2;
}

abbrev request : DrainRequest
request = record { node_id = old_node; mode = graceful; timeout = 0 }

pool-Distinct : (state : DrainState) → GoMap.Distinct (pool_with state).members
unfolding GoMap.has
pool-Distinct state = (refl, (refl, tt))

start_operation_lem_example :
    Starts request
      (new_coordinator (pool_with active))
      (start_operation request (new_coordinator (pool_with active)))
start_operation_lem_example =
    start_operation_lem request (new_coordinator (pool_with active)) (pool-Distinct active)

-- The first session moves to the other node, and the second one fails.
abbrev results : List MigrationResult
results =
    record {
      session_id = codes "s1";
      result = is_migrated;
      effect = λ p. track_session (codes "s1") new_node (untrack_session (codes "s1") p);
    }
    ∷ record { session_id = codes "s2"; result = is_failed (codes "timeout"); effect = λ p. p }
    ∷ []

abbrev sessions : List Str
sessions = codes "s1" ∷ codes "s2" ∷ []

abbrev status : DrainStatus
status = (new_operation request sessions).status

still_draining : IsDraining old_node (pool_with draining)
unfolding GoMap.get
still_draining = (member draining, refl, refl)

left_draining : IsDraining old_node (migrate_all results (pool_with draining))
unfolding GoMap.get track_session untrack_session
left_draining = (member draining, refl, refl)

drained_counts :
    (run_drain old_node sessions results status (pool_with draining)).1 ≡ record status {
      migrated_count = 1;
      failed_count = 1;
      errors = migration_error (codes "s2") (codes "timeout") ∷ [];
    }
unfolding run_drain GoMap.get GoMap.put GoMap.delete sessions_on_node track_session untrack_session
    GoMap.keys
drained_counts = refl

run_drain_lem_example :
    let after = run_drain old_node sessions results status (pool_with draining) in
    (length sessions ≡ 0 → Disables old_node status after)
    × (length sessions ≢ 0
        → find_target_node old_node (pool_with draining).members ≡ none
        → Fails old_node status after)
    × ((target : Str)
        → length sessions ≢ 0
        → find_target_node old_node (pool_with draining).members ≡ some target
        → Migrates old_node results status (pool_with draining) after)
run_drain_lem_example =
    run_drain_lem old_node sessions results status (pool_with draining) still_draining left_draining
