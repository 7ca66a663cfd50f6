-- ===== src/Runs/System.antt =====
-- The transactions of the three scripts in any order, by any process: SQLite runs one
-- `BEGIN IMMEDIATE` transaction at a time, so an execution is a sequence of them.
use hermes_ops.Orchestrator.Tables.{Timestamp, RunStatus, IntegrationDecision}
use hermes_ops.Prelude.{String, ◌≡◌, Bool, Option, some}
use hermes_ops.Prelude.Result.{ok}
use hermes_ops.Runs.Integrator.{stored, ReviewAction}
use hermes_ops.Runs.Integrator.Commits.{
  IntegrationDraw, record_non_integration, prepare_integration, finalize_completed,
  mark_ambiguous_failure,
}
use hermes_ops.Runs.Once.{refused_with}
use hermes_ops.Runs.Recovery.{
  insert_recovery, finish_recovery, resume_ready, resume_commit, rollback_without_snapshot,
  rollback_committing, apply_block,
}
use hermes_ops.Runs.Tables.{RecoveryDecision, RunRow, RecoveryOutcome, RunDb, is_run}
use hermes_ops.Runs.Transaction.{
  begin_reserve, begin_start, begin_fail, command_heartbeat, submit_store, rollback_start,
  rollback_finish, ConfigFile,
}
use hermes_ops.Sql.{fetch_one, count_where}

pub data Step (db db' : RunDb) : Type 0 where
  reserved :
      (project_id run_id branch_name owner : String) (config : ConfigFile) (base : Option String)
      (now : Timestamp)
      → begin_reserve db project_id run_id branch_name owner config base now ≡ ok db'
      → Step db db'
  -- nobody has recovered the run while the snapshot was made
  started :
      (run_id snapshot_id : String) (now : Timestamp) (run : RunRow)
      → fetch_one (is_run run_id) db.runs ≡ some run
      → run.status ≡ RunStatus.snapshotting
      → begin_start db run_id snapshot_id now ≡ ok db'
      → Step db db'
  start_failed :
      (run_id : String) (now : Timestamp) → begin_fail db run_id now ≡ ok db' → Step db db'
  beat :
      (run_id : String) (now : Timestamp) → command_heartbeat db run_id now ≡ ok db' → Step db db'
  submitted :
      (run : RunRow) (result_commit : String) (now : Timestamp)
      → db' ≡ submit_store db run result_commit now
      → Step db db'
  rollback_started :
      (run_id : String) (files_valid : Bool) (now : Timestamp)
      → rollback_start db run_id files_valid now ≡ ok db'
      → Step db db'
  rolled_back : (run : RunRow) (now : Timestamp) → db' ≡ rollback_finish db run now → Step db db'
  settled :
      (run_id owner : String) (draw : IntegrationDraw) (decision : IntegrationDecision)
      (action : ReviewAction)
      → record_non_integration db run_id owner draw decision action ≡ ok (stored db')
      → Step db db'
  prepared :
      (seen : RunRow) (owner : String) (draw : IntegrationDraw) (decision : IntegrationDecision)
      → prepare_integration db seen owner draw decision ≡ ok (stored db')
      → Step db db'
  finalized :
      (run_id integration_id main_after : String) (now : Timestamp)
      → finalize_completed db run_id integration_id main_after now ≡ ok db'
      → Step db db'
  -- `integrate_approved` gives the integration that it prepared
  left_ambiguous :
      (run : RunRow) (integration_id reason : String) (main_after : Option String) (now : Timestamp)
      → count_where (refused_with integration_id) db.integrations ≡ 0
      → db' ≡ mark_ambiguous_failure db run integration_id reason main_after now
      → Step db db'
  recovery_begun :
      (recovery_id owner : String) (observed : RunRow) (decision : RecoveryDecision)
      (now : Timestamp)
      → db' ≡ insert_recovery db recovery_id owner observed decision now
      → Step db db'
  recovery_ended :
      (recovery_id : String) (outcome : RecoveryOutcome) (failure_reason : Option String)
      (now : Timestamp)
      → db' ≡ finish_recovery db recovery_id outcome failure_reason now
      → Step db db'
  resume_readied :
      (run_id : String) (observed : RunStatus) (now : Timestamp)
      → resume_ready db run_id observed now ≡ ok db'
      → Step db db'
  commit_resumed :
      (run_id integration_id main_head : String) (now : Timestamp)
      → resume_commit db run_id integration_id main_head now ≡ ok db'
      → Step db db'
  start_aborted :
      (run : RunRow) (now : Timestamp) → db' ≡ rollback_without_snapshot db run now → Step db db'
  commit_rolled_back :
      (run_id : String) (now : Timestamp) → rollback_committing db run_id now ≡ ok db' → Step db db'
  human_asked :
      (run_id owner approval_id : String) (now : Timestamp)
      → apply_block db run_id owner approval_id now ≡ ok db'
      → Step db db'

pub data Reach (start : RunDb) : RunDb → Type 0 where
  begin : Reach start start
  next : {db db' : RunDb} → Reach start db → Step db db' → Reach start db'
