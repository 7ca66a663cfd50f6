-- ===== src/Runs/Safe.antt =====
-- What every sequence of transactions of the three scripts keeps.
use hermes_ops.Orchestrator.Tables.{IntegrationStatus}
use hermes_ops.Prelude.{◌≤◌, String, ◌≡◌, refl, sym, subst, true, arith}
use hermes_ops.Prelude.Result.{IfOk-of}
use hermes_ops.Runs.Exclusive.{works_on, one_run_works_on}
use hermes_ops.Runs.Exclusive.Integrations.{
  record_non_integration-IsExclusive, prepare_integration-IsExclusive,
  finalize_completed-IsExclusive, mark_ambiguous_failure-IsExclusive,
}
use hermes_ops.Runs.Exclusive.Recoveries.{
  resume_ready-IsExclusive, resume_commit-IsExclusive, rollback_committing-IsExclusive,
  apply_block-IsExclusive,
}
use hermes_ops.Runs.Exclusive.Rules.{Exclusive, IfStored}
use hermes_ops.Runs.Exclusive.Transactions.{
  begin_reserve-IsExclusive, begin_start-IsExclusive, begin_fail-IsExclusive,
  command_heartbeat-IsExclusive, submit_store-IsExclusive, rollback_start-IsExclusive,
  cancel_run-IsExclusive,
}
use hermes_ops.Runs.Integrator.{Settled}
use hermes_ops.Runs.Once.{is_completed, is_opened, opened_for, completed_for, Once}
use hermes_ops.Runs.Once.Integrations.{
  record_non_integration-Once, prepare_integration-Once, finalize_completed-Once,
  mark_ambiguous_failure-Once,
}
use hermes_ops.Runs.Once.Recoveries.{
  resume_ready-Once, resume_commit-Once, rollback_committing-Once, apply_block-Once,
}
use hermes_ops.Runs.Once.Transactions.{
  begin_reserve-Once, begin_start-Once, begin_fail-Once, command_heartbeat-Once, submit_store-Once,
  rollback_start-Once, cancel_run-Once,
}
use hermes_ops.Runs.Recovery.{insert_recovery, finish_recovery, rollback_without_snapshot}
use hermes_ops.Runs.System.{Step, Reach}
use hermes_ops.Runs.Tables.{RunDb}
use hermes_ops.Runs.Transaction.{rollback_finish}
use hermes_ops.Sql.{count_where}
use hermes_ops.Sql.Laws.{count_mono}

Step-IsExclusive : (db db' : RunDb) → Step db db' → Exclusive db → Exclusive db'
unfolding rollback_finish insert_recovery finish_recovery rollback_without_snapshot
Step-IsExclusive db db' (Step.reserved p r b o config base now e) x =
    IfOk-of Exclusive _ db' e (begin_reserve-IsExclusive db p r b o config base now x)
Step-IsExclusive db db' (Step.started r s now run f t e) x =
    IfOk-of Exclusive _ db' e (begin_start-IsExclusive db r s now run f t x)
Step-IsExclusive db db' (Step.start_failed r now e) x =
    IfOk-of Exclusive _ db' e (begin_fail-IsExclusive db r now x)
Step-IsExclusive db db' (Step.beat r now e) x =
    IfOk-of Exclusive _ db' e (command_heartbeat-IsExclusive db r now x)
Step-IsExclusive db db' (Step.submitted run c now e) x =
    subst Exclusive (sym e) (submit_store-IsExclusive db run c now x)
Step-IsExclusive db db' (Step.rollback_started r v now e) x =
    IfOk-of Exclusive _ db' e (rollback_start-IsExclusive db r v now x)
Step-IsExclusive db db' (Step.rolled_back run now e) x =
    subst Exclusive (sym e) (cancel_run-IsExclusive db run "ROLLBACK_COMPLETED" now x)
Step-IsExclusive db db' (Step.settled r o draw d a e) x =
    IfOk-of (IfStored Exclusive) _ (Settled.stored db') e
      (record_non_integration-IsExclusive db r o draw d a x)
Step-IsExclusive db db' (Step.prepared seen o draw d e) x =
    IfOk-of (IfStored Exclusive) _ (Settled.stored db') e
      (prepare_integration-IsExclusive db seen o draw d x)
Step-IsExclusive db db' (Step.finalized r i m now e) x =
    IfOk-of Exclusive _ db' e (finalize_completed-IsExclusive db r i m now x)
Step-IsExclusive db db' (Step.left_ambiguous run i reason m now f e) x =
    subst Exclusive (sym e) (mark_ambiguous_failure-IsExclusive db run i reason m now x)
Step-IsExclusive db db' (Step.recovery_begun i o run d now e) x = subst Exclusive (sym e) x
Step-IsExclusive db db' (Step.recovery_ended i o f now e) x = subst Exclusive (sym e) x
Step-IsExclusive db db' (Step.resume_readied r s now e) x =
    IfOk-of Exclusive _ db' e (resume_ready-IsExclusive db r s now x)
Step-IsExclusive db db' (Step.commit_resumed r i m now e) x =
    IfOk-of Exclusive _ db' e (resume_commit-IsExclusive db r i m now x)
Step-IsExclusive db db' (Step.start_aborted run now e) x =
    subst Exclusive (sym e) (cancel_run-IsExclusive db run "RECOVERY_SNAPSHOT_START_ABORTED" now x)
Step-IsExclusive db db' (Step.commit_rolled_back r now e) x =
    IfOk-of Exclusive _ db' e (rollback_committing-IsExclusive db r now x)
Step-IsExclusive db db' (Step.human_asked r o a now e) x =
    IfOk-of Exclusive _ db' e (apply_block-IsExclusive db r o a now x)

Step-Once : (db db' : RunDb) → Step db db' → Exclusive db → Once db → Once db'
unfolding rollback_finish insert_recovery finish_recovery rollback_without_snapshot
Step-Once db db' (Step.reserved p r b owner config base now e) x o =
    IfOk-of Once _ db' e (begin_reserve-Once db p r b owner config base now o)
Step-Once db db' (Step.started r s now run f t e) x o =
    IfOk-of Once _ db' e (begin_start-Once db r s now run f t x o)
Step-Once db db' (Step.start_failed r now e) x o = IfOk-of Once _ db' e (begin_fail-Once db r now o)
Step-Once db db' (Step.beat r now e) x o = IfOk-of Once _ db' e (command_heartbeat-Once db r now o)
Step-Once db db' (Step.submitted run c now e) x o =
    subst Once (sym e) (submit_store-Once db run c now o)
Step-Once db db' (Step.rollback_started r v now e) x o =
    IfOk-of Once _ db' e (rollback_start-Once db r v now o)
Step-Once db db' (Step.rolled_back run now e) x o =
    subst Once (sym e) (cancel_run-Once db run "ROLLBACK_COMPLETED" now o)
Step-Once db db' (Step.settled r owner draw d a e) x o =
    IfOk-of (IfStored Once) _ (Settled.stored db') e
      (record_non_integration-Once db r owner draw d a o)
Step-Once db db' (Step.prepared seen owner draw d e) x o =
    IfOk-of (IfStored Once) _ (Settled.stored db') e
      (prepare_integration-Once db seen owner draw d x o)
Step-Once db db' (Step.finalized r i m now e) x o =
    IfOk-of Once _ db' e (finalize_completed-Once db r i m now o)
Step-Once db db' (Step.left_ambiguous run i reason m now f e) x o =
    subst Once (sym e) (mark_ambiguous_failure-Once db run i reason m now f o)
Step-Once db db' (Step.recovery_begun i owner run d now e) x o = subst Once (sym e) o
Step-Once db db' (Step.recovery_ended i outcome f now e) x o = subst Once (sym e) o
Step-Once db db' (Step.resume_readied r s now e) x o =
    IfOk-of Once _ db' e (resume_ready-Once db r s now o)
Step-Once db db' (Step.commit_resumed r i m now e) x o =
    IfOk-of Once _ db' e (resume_commit-Once db r i m now o)
Step-Once db db' (Step.start_aborted run now e) x o =
    subst Once (sym e) (cancel_run-Once db run "RECOVERY_SNAPSHOT_START_ABORTED" now o)
Step-Once db db' (Step.commit_rolled_back r now e) x o =
    IfOk-of Once _ db' e (rollback_committing-Once db r now o)
Step-Once db db' (Step.human_asked r owner a now e) x o =
    IfOk-of Once _ db' e (apply_block-Once db r owner a now o)

pub Reach-IsSafe :
    (start db : RunDb) → Reach start db → Exclusive start × Once start → Exclusive db × Once db
Reach-IsSafe start db Reach.begin safe = safe
Reach-IsSafe start db (Reach.next {db = middle} reach step) safe =
    let (x, o) = Reach-IsSafe start middle reach safe in
    (Step-IsExclusive middle db step x, Step-Once middle db step x o)

-- From tables in which every run at work holds its project's lock and each run has at most one
-- integration, none while it is early, whatever transactions of the three scripts run and in
-- whatever order, at most one run is ever at work in a project: SNAPSHOTTING, RUNNING, REVIEWING,
-- WAITING_HUMAN or COMMITTING. A begin's second transaction is taken to find its run still
-- SNAPSHOTTING, and a failure to be reported of an integration that was not refused.
pub one_run_at_work :
    (start db : RunDb) (project_id : String)
    → Reach start db
    → Exclusive start
    → Once start
    → count_where (works_on project_id) db.runs ≤ 1
one_run_at_work start db project_id reach x o =
    one_run_works_on db.runs db.locks project_id (Reach-IsSafe start db reach (x, o)).0

completed-opened : (s : IntegrationStatus) → is_completed s ≡ true → is_opened s ≡ true
completed-opened IntegrationStatus.completed h = refl
completed-opened _ h = absurd (ground arith)

-- Under the conditions of `one_run_at_work`, a run's change is integrated at most once: at most one
-- of its integrations is ever COMPLETED, so the unique index on completed integrations is never
-- violated.
pub one_integration_completes :
    (start db : RunDb) (run_id : String)
    → Reach start db
    → Exclusive start
    → Once start
    → count_where (completed_for run_id) db.integrations ≤ 1
one_integration_completes start db run_id reach x o =
    let safe = Reach-IsSafe start db reach (x, o) in
    ground (
      arith,
      safe.0.run_ids run_id,
      safe.1 run_id,
      count_mono (completed_for run_id) (opened_for run_id) db.integrations
          (λ i h. ground (arith, completed-opened i.status)),
    )
