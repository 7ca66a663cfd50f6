-- ===== src/Runs/Recovery.antt =====
-- The transactions of scripts/hermesops-recovery.py. Git, the clean-up of sandboxes and the checks
-- of the snapshot's files are outside. `run` is the row that `get_run` reads in the transaction.
use hermes_ops.Orchestrator.Gates.{is_pending_approval}
use hermes_ops.Orchestrator.Tables.{Timestamp, RunStatus, ApprovalStatus, IntegrationStatus}
use hermes_ops.Prelude.{
  string_column, ℕ, String, Bool, true, false, not, ◌&&◌, Option, none, some, List, [], ◌∷◌, ◌++◌,
  ltb, nat_beq, if◌then◌else◌, ◌==◌, is_some_eq,
}
use hermes_ops.Prelude.Result.{Result, ◌>>=◌, ok, err}
use hermes_ops.Runs.Assess.{Decision, Evidence, is_resumable, decided, assess_run}
use hermes_ops.Runs.Integrator.Commits.{
  set_waiting, is_prepared, is_committing, set_completed, or_else,
}
use hermes_ops.Runs.Tables.{
  not_stale, integration_changed, repository_invalid, constraint, decision_changed,
  heartbeat_invalid, project_locked, wrong_status, run_changed, wrong_commit, RecoveryDecision,
  RunRow, Lock, ApprovalRow, IntegrationRow, RecoveryOutcome, RunDb, is_run, locks_run,
  locks_project, add_run_event, beat_lock, set_run, RunError, with_run,
}
use hermes_ops.Runs.Transaction.{cancel_run}
use hermes_ops.Sql.{update_where, fetch_one, count_where, exists_where, delete_where}

-- What there is to do, if anything.
abbrev pub decision_of : Decision → Option RecoveryDecision
decision_of Decision.no_action = none
decision_of Decision.resume_safe = some RecoveryDecision.resume_safe
decision_of Decision.rollback_safe = some RecoveryDecision.rollback_safe
decision_of Decision.block_human = some RecoveryDecision.block_human

unfoldable pub check_stale : Option ℕ → ℕ → Bool → Result RunError Unit
check_stale age stale_seconds true = ok tt
check_stale none stale_seconds false = err heartbeat_invalid
check_stale (some age) stale_seconds false = if ltb age stale_seconds then err not_stale else ok tt

-- `expected_decision and decision != expected_decision`
abbrev pub is_expected : Option RecoveryDecision → RecoveryDecision → Bool
is_expected none decision = true
is_expected (some expected) decision = decided (some expected) decision

-- The checks of `recover_run` before anything is written: `ok none` is NO_ACTION. The age is that
-- of the heartbeat, in seconds, `none` if it cannot be read.
unfoldable pub recover_check :
    Evidence
    → Option RecoveryDecision
    → Option ℕ
    → ℕ
    → Bool
    → Result RunError (Option RecoveryDecision)
unfolding assess_run check_stale
recover_check e expected age stale_seconds force = elim (decision_of (assess_run e)) [
  | none ↦ ok none
  | some decision ↦
      if not (is_expected expected decision)
      then err decision_changed
      else (check_stale age stale_seconds force >>= λ checked. ok (some decision))
]

unfoldable pub insert_recovery :
    RunDb → (recovery_id owner : String) → RunRow → RecoveryDecision → Timestamp → RunDb
insert_recovery db recovery_id owner observed decision now = record db {
  recoveries =
      db.recoveries
      ++ record {
        recovery_id = recovery_id;
        run_id = observed.run_id;
        controller_owner = owner;
        observed_status = observed.status;
        decision = decision;
        outcome = RecoveryOutcome.assessed;
        failure_reason = none;
        created_at = now;
        finished_at = none;
      }
        ∷ [];
}

unfoldable pub finish_recovery :
    RunDb → String → RecoveryOutcome → Option String → Timestamp → RunDb
unfolding update_where
finish_recovery db recovery_id outcome failure_reason now = record db {
  recoveries =
      update_where (λ r. r.recovery_id == recovery_id)
        (λ r. record r {
          outcome = outcome;
          failure_reason = failure_reason;
          finished_at = some now;
        })
        db.recoveries;
}

-- The holder of the lock that `ensure_lock_for_block` inserts: `transaction_owner or owner`.
abbrev pub owner_or : Option String → String → String
owner_or none owner = owner
owner_or (some o) owner = if o == "" then owner else o

-- The second key of the table, `run_id`, fails as a constraint.
unfoldable pub ensure_lock_for_block :
    RunDb → RunRow → String → Timestamp → Result RunError (List Lock)
unfolding fetch_one exists_where
ensure_lock_for_block db run owner now = elim (fetch_one (locks_project run.project_id) db.locks) [
  | some lock ↦ if lock.run_id == run.run_id then ok db.locks else err project_locked
  | none ↦
      if exists_where (locks_run run.run_id) db.locks
      then err constraint
      else ok (
          db.locks
          ++ record {
            project_id = run.project_id;
            run_id = run.run_id;
            holder = owner_or run.transaction_owner owner;
            acquired_at = now;
            heartbeat_at = now;
          }
            ∷ [])
]

abbrev pub same_running : RunStatus → RunStatus → Bool
same_running RunStatus.running RunStatus.running = true
same_running RunStatus.reviewing RunStatus.reviewing = true
same_running _ _ = false

-- `apply_resume` of a run that was observed RUNNING or REVIEWING.
unfoldable pub resume_ready : RunDb → String → RunStatus → Timestamp → Result RunError RunDb
unfolding with_run update_where
resume_ready db run_id observed now = with_run db run_id (λ run.
    if not (same_running observed observed)
    then err wrong_status
    else ok (
        add_run_event
          (record db {
            runs =
                update_where (λ r. is_run run_id r && same_running observed r.status)
                  (λ r. record r {
                    recovery_decision = some RecoveryDecision.resume_safe;
                    heartbeat_at = now;
                  })
                  db.runs;
            locks = beat_lock run_id now db.locks;
          })
          run "RECOVERY_RESUME_READY" "INFO"))

abbrev pub can_resume_commit : RunStatus → Bool
can_resume_commit RunStatus.committing = true
can_resume_commit RunStatus.recovering = true
can_resume_commit _ = false

-- The default branch that `apply_resume` ends with; `merged` is where the fast-forward went.
unfoldable pub resume_head : RunRow → (main_head merged : String) → Bool → Result RunError String
resume_head run main_head merged is_clean =
    let head = if is_some_eq run.base_commit main_head then merged else main_head in
    if not (is_some_eq run.result_commit head)
    then err wrong_commit
    else if is_clean
    then ok head
    else err repository_invalid

abbrev pub recoverable_with : String → IntegrationRow → Bool
recoverable_with integration_id i = i.integration_id == integration_id && is_resumable i.status

abbrev pub set_recovered : String → Timestamp → IntegrationRow → IntegrationRow
set_recovered main_head now i = record i {
  status = IntegrationStatus.completed;
  main_after = some main_head;
  failure_reason = none;
  finished_at = some now;
}

-- The last transaction of `apply_resume`. `integration_id` is that of the record read before.
unfoldable pub resume_commit :
    RunDb → (run_id integration_id main_head : String) → Timestamp → Result RunError RunDb
unfolding with_run update_where count_where delete_where
resume_commit db run_id integration_id main_head now = with_run db run_id (λ run.
    if not (can_resume_commit run.status)
    then err run_changed
    else if nat_beq (count_where (recoverable_with integration_id) db.integrations) 1
    then ok (
        add_run_event
          (record db {
            integrations =
                update_where (recoverable_with integration_id) (set_recovered main_head now)
                  db.integrations;
            locks = delete_where (locks_run run_id) db.locks;
            runs =
                update_where (is_run run_id) (set_completed (some RecoveryDecision.resume_safe) now)
                  db.runs;
          })
          run "RECOVERY_INTEGRATION_COMPLETED" "INFO")
    else err integration_changed)

-- `rollback_without_snapshot`; `run` was read before the worktree was removed.
unfoldable pub rollback_without_snapshot : RunDb → RunRow → Timestamp → RunDb
unfolding cancel_run
rollback_without_snapshot db run now = cancel_run db run "RECOVERY_SNAPSHOT_START_ABORTED" now

-- `COALESCE(finished_at, ?)`
abbrev pub or_now : Option Timestamp → Timestamp → Option Timestamp
or_now none now = some now
or_now (some t) now = some t

-- The PREPARED integrations of a run fail; a reason that is there is kept.
abbrev pub fail_prepared : String → String → Timestamp → List IntegrationRow → List IntegrationRow
fail_prepared run_id reason now integrations =
    update_where (λ i. i.run_id == run_id && is_prepared i.status)
      (λ i. record i {
        status = IntegrationStatus.failed;
        failure_reason = or_else i.failure_reason (some reason);
        finished_at = or_now i.finished_at now;
      })
      integrations

-- The transaction of `apply_rollback` before it calls the rollback command.
unfoldable pub rollback_committing : RunDb → String → Timestamp → Result RunError RunDb
unfolding with_run update_where
rollback_committing db run_id now = with_run db run_id (λ run.
    if is_committing run.status
    then ok (
        set_run run_id
          (λ r. record r {
            status = RunStatus.recovering;
            recovery_decision = some RecoveryDecision.rollback_safe;
            heartbeat_at = now;
          })
          (record db {
            integrations =
                fail_prepared run_id "Cancelled by ROLLBACK_SAFE recovery" now db.integrations;
          }))
    else ok db)

abbrev pub is_pending_of : String → ApprovalRow → Bool
is_pending_of run_id a = a.run_id == run_id && is_pending_approval a.status

-- A pending approval is used again, else one is made.
unfoldable pub ensure_approval :
    List ApprovalRow → (run_id approval_id : String) → Timestamp → List ApprovalRow
unfolding exists_where
ensure_approval approvals run_id approval_id now =
    if exists_where (is_pending_of run_id) approvals
    then approvals
    else (approvals
        ++ record {
          approval_id = approval_id;
          run_id = run_id;
          status = ApprovalStatus.pending;
          created_at = now;
          resolved_at = none;
        }
          ∷ [])

unfoldable pub apply_block :
    RunDb → (run_id owner approval_id : String) → Timestamp → Result RunError RunDb
unfolding with_run update_where ensure_lock_for_block ensure_approval
apply_block db run_id owner approval_id now = with_run db run_id (λ run.
    ensure_lock_for_block db run owner now >>= λ locks. ok (
      add_run_event
        (record db {
          approvals = ensure_approval db.approvals run_id approval_id now;
          integrations =
              fail_prepared run_id "Recovery requires human decision" now db.integrations;
          runs = update_where (is_run run_id) (set_waiting now) db.runs;
          locks = beat_lock run_id now locks;
        })
        run "RECOVERY_BLOCKED_HUMAN" "CRITICAL"))
