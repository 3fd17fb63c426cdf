-- ===== src/Drain/Outcome.antt =====
-- What a drain starts with, and what it comes to.
use mathlib.Core.Path.{subst}
use mathlib.Core.List.{append_assoc, append-nil}
use switchboard.Prelude.{
  ℕ, suc, ◌+◌, ◌≡◌, refl, sym, ap, ◌∙◌, ◌≢◌, inl, inr, Bool, true, false, none, some, List, [], ◌∷◌,
  ◌++◌, arith, if◌then◌else◌, Bool-cases, length, ◌==◌, beq_refl, Str, str_eq, nat_eq,
}
use switchboard.GoMap
use switchboard.GoMap.{GoMap}
use switchboard.MediaPool.{
  Pool, PoolMember, DrainState, draining, disabled, active, sessions_on_node, ok, with_member,
}
use switchboard.MediaPool.Drain
use switchboard.Drain.{
  DrainStatus, SessionError, migration_error, no_target, Migration, MigrationResult, is_migrated,
  is_skipped, not_acquired, is_failed, count_result, count_all, migrate_all, finish_drain,
  fail_drain, migrate_to, run_drain, find_target_node,
}

abbrev pub failure_of : Str → Migration → List SessionError
failure_of session_id (is_failed e) = migration_error session_id e ∷ []
failure_of session_id _ = []

-- The errors of the migrations that failed, in their order.
abbrev pub failures : List MigrationResult → List SessionError
failures [] = []
failures (r ∷ rs) = failure_of r.session_id r.result ++ failures rs

abbrev pub is_done : Migration → Bool
is_done is_migrated = true
is_done _ = false

-- How many migrations succeeded.
abbrev pub successes : List MigrationResult → ℕ
successes [] = 0
successes (r ∷ rs) = (if is_done r.result then 1 else 0) + successes rs

-- `t` is `s` with so many more errors and successes.
pub record Counted (fs : List SessionError) (n : ℕ) (s t : DrainStatus) : Type 0 where
  pub errors : t.errors ≡ s.errors ++ fs
  pub failed : t.failed_count ≡ s.failed_count + length fs
  pub migrated : t.migrated_count ≡ s.migrated_count + n

Counted-cons :
    (id : Str) (x : Migration) (fs : List SessionError) (n : ℕ) (s t : DrainStatus)
    → Counted fs n (count_result id x s) t
    → Counted (failure_of id x ++ fs) ((if is_done x then 1 else 0) + n) s t
Counted-cons id is_migrated fs n s t c = record {
  errors = c.errors;
  failed = c.failed;
  migrated = omega (arith, c.migrated);
}
Counted-cons id is_skipped fs n s t c = record {
  errors = c.errors;
  failed = c.failed;
  migrated = omega (arith, c.migrated);
}
Counted-cons id not_acquired fs n s t c = record {
  errors = c.errors;
  failed = c.failed;
  migrated = omega (arith, c.migrated);
}
Counted-cons id (is_failed e) fs n s t c = record {
  errors = c.errors ∙ append_assoc s.errors (migration_error id e ∷ []) fs;
  failed = omega (arith, c.failed);
  migrated = omega (arith, c.migrated);
}

count_all-Counted :
    (rs : List MigrationResult) (s : DrainStatus)
    → Counted (failures rs) (successes rs) s (count_all rs s)
count_all-Counted [] s = record {
  errors = sym (append-nil s.errors);
  failed = omega arith;
  migrated = omega arith;
}
count_all-Counted (r ∷ rs) s =
    Counted-cons r.session_id r.result (failures rs) (successes rs) s _
      (count_all-Counted rs (count_result r.session_id r.result s))

-- A status after a drain that leaves the node in a state.
abbrev pub Leaves : Str → DrainState → Pool × DrainStatus → Type 0
Leaves node_id state (p, s) =
    (s.state ≡ state)
    × ((m : PoolMember) × (GoMap.get node_id p.members ≡ some m) × (m.drain_state ≡ state))

abbrev pub IsDraining : Str → Pool → Type 0
IsDraining node_id p =
    (m : PoolMember) × (GoMap.get node_id p.members ≡ some m) × (m.drain_state ≡ draining)

complete_draining :
    (node_id : Str) (p : Pool) (m : PoolMember)
    → GoMap.get node_id p.members ≡ some m
    → m.drain_state ≡ draining
    → Drain.complete_drain node_id p
      ≡ (with_member node_id (record m { drain_state = disabled }) p, ok tt)
complete_draining id p m e d =
    Drain.drain_life_cycle (Drain.completes id) p
    ∙ ap (Drain.specified (Drain.completes id) p) e
    ∙ ap (λ s. Drain.answer (Drain.completes id) p m (Drain.target (Drain.completes id) s)) d

cancel_draining :
    (node_id : Str) (p : Pool) (m : PoolMember)
    → GoMap.get node_id p.members ≡ some m
    → m.drain_state ≡ draining
    → Drain.cancel_drain node_id p
      ≡ (with_member node_id (record m { drain_state = active }) p, ok tt)
cancel_draining id p m e d =
    Drain.drain_life_cycle (Drain.cancels id) p
    ∙ ap (Drain.specified (Drain.cancels id) p) e
    ∙ ap (λ s. Drain.answer (Drain.cancels id) p m (Drain.target (Drain.cancels id) s)) d

got_back :
    (node_id : Str) (m : PoolMember) (p : Pool)
    → GoMap.get node_id (with_member node_id m p).members ≡ some m
got_back id m p = ground (arith, GoMap.get-put id id m p.members, beq_refl id)

-- The pool and the status after a drain that disables the node.
abbrev pub Disables : Str → DrainStatus → Pool × DrainStatus → Type 0
Disables node_id s r = Leaves node_id disabled r × (r.1 ≡ record s { state = disabled })

finish_drain-Disables :
    (node_id : Str) (s : DrainStatus) (p : Pool)
    → IsDraining node_id p
    → Disables node_id s (finish_drain node_id s p)
unfolding finish_drain
finish_drain-Disables id s p (m, e, d) =
    rw (complete_draining id p m e d)
      ((refl, (record m { drain_state = disabled }, got_back id _ p, refl)), refl)

abbrev pub Fails : Str → DrainStatus → Pool × DrainStatus → Type 0
Fails node_id s r =
    Leaves node_id active r
    × (r.1 ≡ record s { state = active; errors = s.errors ++ no_target ∷ [] })

fail_drain-Fails :
    (node_id : Str) (s : DrainStatus) (p : Pool)
    → IsDraining node_id p
    → Fails node_id s (fail_drain node_id s p)
unfolding fail_drain
fail_drain-Fails id s p (m, e, d) =
    rw (cancel_draining id p m e d)
      ((refl, (record m { drain_state = active }, got_back id _ p, refl)), refl)

-- What the migrations come to, in a pool that they have left.
abbrev pub Migrates : Str → List MigrationResult → DrainStatus → Pool → Pool × DrainStatus → Type 0
Migrates node_id rs s p r =
    Counted (failures rs) (successes rs) s r.1
    × (length (sessions_on_node node_id (migrate_all rs p)) ≡ 0 → Leaves node_id disabled r)
    × (length (sessions_on_node node_id (migrate_all rs p)) ≢ 0
        → (r.0 ≡ migrate_all rs p) × (r.1.state ≡ s.state))

count_all-state : (rs : List MigrationResult) (s : DrainStatus) → (count_all rs s).state ≡ s.state
count_all-state [] s = refl
count_all-state (r ∷ rs) s =
    count_all-state rs (count_result r.session_id r.result s) ∙ same r.session_id r.result
  where
    same : (id : Str) (x : Migration) → (count_result id x s).state ≡ s.state
    same id is_migrated = refl
    same id is_skipped = refl
    same id not_acquired = refl
    same id (is_failed e) = refl

disabled-Counted :
    (fs : List SessionError) (n : ℕ) (s t u : DrainStatus)
    → u ≡ record t { state = disabled }
    → Counted fs n s t
    → Counted fs n s u
disabled-Counted fs n s t u e c =
    subst (Counted fs n s) (sym e)
      (record { errors = c.errors; failed = c.failed; migrated = c.migrated })

migrate_to-Migrates :
    (target node_id : Str) (rs : List MigrationResult) (s : DrainStatus) (p : Pool)
    → IsDraining node_id (migrate_all rs p)
    → Migrates node_id rs s p (migrate_to (some target) node_id rs s p)
migrate_to-Migrates target id rs s p d =
    elim (Bool-cases (length (sessions_on_node id (migrate_all rs p)) == 0)) [
      | inl e ↦
          let (leaves, same) = finish_drain-Disables id (count_all rs s) (migrate_all rs p) d in
          rw e (
            disabled-Counted (failures rs) (successes rs) s (count_all rs s) _ same
                (count_all-Counted rs s),
            λ h. leaves,
            λ h. absurd (h (ground (arith, e))),
          )
      | inr e ↦ rw e (
        count_all-Counted rs s,
        λ h. absurd (ground (arith, e, h)),
        λ h. (refl, count_all-state rs s),
      )
    ]

not_zero : (n : ℕ) → (suc n == 0) ≡ false
not_zero n = ground arith

-- `runDrain` of a node that is draining, and that the migrations leave draining. With no session to
-- move, the node is disabled. With sessions but no other healthy active node, the node is active
-- again, and the status says so with one more error. Otherwise every result is counted, once: the
-- successes, and the failures with an error for each in their order; a session that was skipped or not
-- tried is neither. The node is then disabled where no session is left on it, and stays draining
-- where one is.
pub run_drain_lem :
    (node_id : Str) (sessions : List Str) (rs : List MigrationResult) (s : DrainStatus) (p : Pool)
    → IsDraining node_id p
    → IsDraining node_id (migrate_all rs p)
    → (length sessions ≡ 0 → Disables node_id s (run_drain node_id sessions rs s p))
      × (length sessions ≢ 0
          → find_target_node node_id p.members ≡ none
          → Fails node_id s (run_drain node_id sessions rs s p))
      × ((target : Str)
          → length sessions ≢ 0
          → find_target_node node_id p.members ≡ some target
          → Migrates node_id rs s p (run_drain node_id sessions rs s p))
unfolding run_drain
run_drain_lem id [] rs s p d w =
    (λ h. finish_drain-Disables id s p d, λ h. absurd (h refl), λ t h. absurd (h refl))
run_drain_lem id (x ∷ xs) rs s p d w = (
  λ h. absurd (ground (arith, h)),
  λ h e. rw (not_zero (length xs), e) (fail_drain-Fails id s p d),
  λ t h e. rw (not_zero (length xs), e) (migrate_to-Migrates t id rs s p w),
)
