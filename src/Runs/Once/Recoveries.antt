-- ===== src/Runs/Once/Recoveries.antt =====
-- The transactions of scripts/hermesops-recovery.py keep the count of integrations.
use hermes_ops.Orchestrator.Tables.{Timestamp, RunStatus}
use hermes_ops.Prelude.{string_column, String, refl, not, arith, nat_beq, if_both, List}
use hermes_ops.Prelude.Result.{IfOk, IfOk-bind}
use hermes_ops.Runs.Exclusive.Rules.{with_run-IfOk, is_prepared-opened, is_resumable-opened}
use hermes_ops.Runs.Integrator.Commits.{is_committing}
use hermes_ops.Runs.Once.{IsOnce, Once}
use hermes_ops.Runs.Once.Keeps.{runs-IsOnce, integrations-IsOnce}
use hermes_ops.Runs.Recovery.{
  ensure_lock_for_block, same_running, resume_ready, can_resume_commit, resume_commit,
  fail_prepared, rollback_committing, apply_block, recoverable_with, set_recovered,
}
use hermes_ops.Runs.Tables.{RunRow, RunDb, IntegrationRow}
use hermes_ops.Sql.{count_where}

pub resume_ready-Once :
    (db : RunDb) (run_id : String) (observed : RunStatus) (now : Timestamp)
    → Once db
    → IfOk Once (resume_ready db run_id observed now)
unfolding resume_ready
resume_ready-Once db run_id observed now o = with_run-IfOk Once db run_id _ (λ run e.
    if_both (IfOk Once) (not (same_running observed observed)) (λ _. tt)
      (λ _. runs-IsOnce db.runs db.integrations _ _ (λ r. (refl, λ h. ground arith)) o))

pub resume_commit-Once :
    (db : RunDb) (run_id integration_id main_head : String) (now : Timestamp)
    → Once db
    → IfOk Once (resume_commit db run_id integration_id main_head now)
unfolding resume_commit
resume_commit-Once db run_id integration_id main_head now o =
    with_run-IfOk Once db run_id _ (λ run e.
      if_both (IfOk Once) (not (can_resume_commit run.status)) (λ _. tt)
        (λ _.
          if_both (IfOk Once)
            (nat_beq (count_where (recoverable_with integration_id) db.integrations) 1)
            (λ _.
              runs-IsOnce db.runs _ _ _ (λ r. (refl, λ h. ground arith))
                (integrations-IsOnce db.runs db.integrations (recoverable_with integration_id)
                  (set_recovered main_head now)
                  (λ i. (refl, λ h. is_resumable-opened i.status (ground arith))) o))
            (λ _. tt)))

fail_prepared-IsOnce :
    (runs : List RunRow) (run_id reason : String) (now : Timestamp)
    (integrations : List IntegrationRow)
    → IsOnce runs integrations
    → IsOnce runs (fail_prepared run_id reason now integrations)
fail_prepared-IsOnce runs run_id reason now integrations o =
    integrations-IsOnce runs integrations _ _
      (λ i. (refl, λ h. is_prepared-opened i.status (ground arith))) o

pub rollback_committing-Once :
    (db : RunDb) (run_id : String) (now : Timestamp)
    → Once db
    → IfOk Once (rollback_committing db run_id now)
unfolding rollback_committing
rollback_committing-Once db run_id now o = with_run-IfOk Once db run_id _ (λ run e.
    if_both (IfOk Once) (is_committing run.status)
      (λ _.
        runs-IsOnce db.runs _ _ _ (λ r. (refl, λ h. ground arith))
          (fail_prepared-IsOnce db.runs run_id "Cancelled by ROLLBACK_SAFE recovery" now
            db.integrations o))
      (λ _. o))

pub apply_block-Once :
    (db : RunDb) (run_id owner approval_id : String) (now : Timestamp)
    → Once db
    → IfOk Once (apply_block db run_id owner approval_id now)
unfolding apply_block
apply_block-Once db run_id owner approval_id now o = with_run-IfOk Once db run_id _ (λ run e.
    IfOk-bind Once (ensure_lock_for_block db run owner now) _ (λ locks l.
      runs-IsOnce db.runs _ _ _ (λ r. (refl, λ h. ground arith))
        (fail_prepared-IsOnce db.runs run_id "Recovery requires human decision" now db.integrations
          o)))
