-- ===== src/Runs/Tables.antt =====
-- The tables of runs and of their locks, of migrations 001, 003, 006 and 007, with the columns that the
-- three scripts read or write. The orchestrator's tables stand beside them: its `runs`, `approvals`
-- and `integrations` are not used here.
use hermes_ops.Orchestrator.Tables.{
  Timestamp, RunStatus, ApprovalStatus, IntegrationDecision, IntegrationStatus, Db,
}
use hermes_ops.Prelude.{string_column, String, Bool, Option, none, some, List, [], ◌∷◌, ◌++◌, ◌==◌}
use hermes_ops.Prelude.Result.{Result, err}
use hermes_ops.Sql.{update_where, fetch_one}

pub data RecoveryDecision : Type 0 where
  resume_safe rollback_safe block_human : RecoveryDecision

pub record Project : Type 0 where
  pub project_id : String
  pub enabled : Bool

pub record RunRow : Type 0 where
  pub run_id : String
  pub project_id : String
  pub status : RunStatus
  pub recovery_decision : Option RecoveryDecision
  pub base_commit : Option String
  pub result_commit : Option String
  pub branch_name : String
  pub transaction_owner : Option String
  pub heartbeat_at : Timestamp
  pub submitted_at : Option Timestamp
  pub finished_at : Option Timestamp

-- `project_id` is the primary key, and `run_id` is unique.
pub record Lock : Type 0 where
  pub project_id : String
  pub run_id : String
  pub holder : String
  pub acquired_at : Timestamp
  pub heartbeat_at : Timestamp

pub record Snapshot : Type 0 where
  pub snapshot_id : String
  pub run_id : String
  pub verified_at : Option Timestamp

pub record ApprovalRow : Type 0 where
  pub approval_id : String
  pub run_id : String
  pub status : ApprovalStatus
  pub created_at : Timestamp
  pub resolved_at : Option Timestamp

pub record IntegrationRow : Type 0 where
  pub integration_id : String
  pub run_id : String
  pub decision : IntegrationDecision
  pub status : IntegrationStatus
  pub reviewed_commit : Option String
  pub main_after : Option String
  pub approval_id : Option String
  pub failure_reason : Option String
  pub created_at : Timestamp
  pub finished_at : Option Timestamp

pub data RecoveryOutcome : Type 0 where
  assessed resumed rolled_back blocked failed : RecoveryOutcome

pub record RecoveryRow : Type 0 where
  pub recovery_id : String
  pub run_id : String
  pub controller_owner : String
  pub observed_status : RunStatus
  pub decision : RecoveryDecision
  pub outcome : RecoveryOutcome
  pub failure_reason : Option String
  pub created_at : Timestamp
  pub finished_at : Option Timestamp

-- A row of `events`, as these scripts write it.
pub record RunEvent : Type 0 where
  pub project_id : String
  pub run_id : String
  pub event_type : String
  pub severity : String

pub record RunDb : Type 0 where
  pub projects : List Project
  pub runs : List RunRow
  pub locks : List Lock
  pub snapshots : List Snapshot
  pub approvals : List ApprovalRow
  pub integrations : List IntegrationRow
  pub recoveries : List RecoveryRow
  pub events : List RunEvent
  pub orchestration : Db

abbrev pub is_run : String → RunRow → Bool
is_run run_id r = r.run_id == run_id

-- `WHERE run_id = ?` on the locks
abbrev pub locks_run : String → Lock → Bool
locks_run run_id l = l.run_id == run_id

-- `WHERE project_id = ?` on the locks
abbrev pub locks_project : String → Lock → Bool
locks_project project_id l = l.project_id == project_id

abbrev pub add_run_event : RunDb → RunRow → String → String → RunDb
add_run_event db run event_type severity = record db {
  events =
      db.events
      ++ record {
        project_id = run.project_id;
        run_id = run.run_id;
        event_type = event_type;
        severity = severity;
      }
        ∷ [];
}

-- The two UPDATEs of a heartbeat: of the run and of its lock.
abbrev pub beat_lock : String → Timestamp → List Lock → List Lock
beat_lock run_id now locks =
    update_where (locks_run run_id) (λ l. record l { heartbeat_at = now }) locks

abbrev pub set_run : String → (RunRow → RunRow) → RunDb → RunDb
set_run run_id f db = record db { runs = update_where (is_run run_id) f db.runs }

-- The messages of `fail`, and the errors of sqlite3 at a key that is taken.
pub data RunError : Type 0 where
  unknown_project project_disabled project_locked repository_invalid : RunError
  unknown_run wrong_status snapshot_invalid worktree_invalid : RunError
  nothing_committed owner_mismatch lock_absent duplicate_integration : RunError
  run_changed wrong_commit integration_absent constraint : RunError
  multiple_objectives multiple_plans unsupported_action : RunError
  decision_changed heartbeat_invalid not_stale integration_changed : RunError
  config_absent config_unreadable default_branch_absent : RunError

-- `get_run`: each run has its project, by a foreign key.
unfoldable pub with_run :
    {A : Type 0} → RunDb → String → (RunRow → Result RunError A) → Result RunError A
unfolding fetch_one
with_run db run_id use_run = elim (fetch_one (is_run run_id) db.runs) [
  | none ↦ err unknown_run
  | some run ↦ use_run run
]
