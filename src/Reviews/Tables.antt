-- ===== src/Reviews/Tables.antt =====
-- The tables that scripts/hermesops_review_assignment.py reads or writes, with those columns.
use Prim.Native.String.{◌++◌}
use hermes_ops.Commands.Store.{Journal, ControllerError}
use hermes_ops.Orchestrator.Tables.{Timestamp}
use hermes_ops.Prelude.{string_column, ℕ, String, Bool, true, false, ◌&&◌, Option, List, ◌==◌}
use hermes_ops.Prelude.Json.{Json}

pub data AssignmentStatus : Type 0 where
  assigned claimed completed failed cancelled : AssignmentStatus

pub record Assignment : Type 0 where
  pub assignment_id : String
  pub run_id : String
  pub orchestration_attempt_id : String
  pub assignment_number : ℕ
  pub role_id : String
  pub source_profile : String
  pub status : AssignmentStatus
  pub assigned_by : String
  pub claim_owner : Option String
  pub review_execution_id : Option String
  pub review_id : Option String
  pub failure_code : Option String
  pub assigned_at : Timestamp
  pub claimed_at : Option Timestamp
  pub heartbeat_at : Option Timestamp
  pub finished_at : Option Timestamp

-- The flags are 0 or 1 by the table's checks.
pub record Role : Type 0 where
  pub role_id : String
  pub profile_name : String
  pub role_kind : String
  pub workspace_mode : String
  pub may_commit : Bool
  pub may_push : Bool
  pub network_enabled : Bool
  pub enabled : Bool

pub record RunProject : Type 0 where
  pub run_id : String
  pub project_id : String

pub record AttemptRun : Type 0 where
  pub attempt_id : String
  pub run_id : Option String

pub record ReviewExecution : Type 0 where
  pub execution_id : String
  pub run_id : String
  pub role_id : String
  pub source_profile : String
  pub review_id : Option String
  pub finished_at : Option Timestamp

-- A row of `events`; its payload is the journal's data with the assignment's key.
pub record LegacyEvent : Type 0 where
  pub project_id : String
  pub run_id : String
  pub task_id : Option String
  pub event_type : String
  pub severity : String
  pub assignment_id : String
  pub payload : Json
  pub created_at : Timestamp

pub record ReviewDb : Type 0 where
  pub assignments : List Assignment
  pub roles : List Role
  pub runs : List RunProject
  pub attempts : List AttemptRun
  pub executions : List ReviewExecution
  pub events : List LegacyEvent
  pub journal : Journal

-- The messages of `ReviewerAssignmentError`; `integrity` is an error of sqlite3 at a constraint or
-- a trigger of migration 019, and a `ControllerError` is one of the journal.
pub data ReviewError : Type 0 where
  invalid_identifier invalid_text invalid_failure_code : ReviewError
  role_unavailable role_policy run_unavailable attempt_mismatch : ReviewError
  sequence_exhausted invalid_number assignment_unavailable : ReviewError
  cannot_claim claim_lost cannot_finish review_required finish_lost failure_lost : ReviewError
  integrity : ReviewError
  journal_refused : ControllerError → ReviewError

-- `status IN ('ASSIGNED', 'CLAIMED')`
abbrev pub is_active : AssignmentStatus → Bool
is_active AssignmentStatus.assigned = true
is_active AssignmentStatus.claimed = true
is_active _ = false

abbrev pub is_assigned : AssignmentStatus → Bool
is_assigned AssignmentStatus.assigned = true
is_assigned _ = false

abbrev pub is_claimed : AssignmentStatus → Bool
is_claimed AssignmentStatus.claimed = true
is_claimed _ = false

-- `WHERE assignment_id=?`
abbrev pub is_assignment : String → Assignment → Bool
is_assignment assignment_id a = a.assignment_id == assignment_id

-- The rows of the partial index `idx_reviewer_assignments_one_active_run`.
abbrev pub is_active_for : String → Assignment → Bool
is_active_for run_id a = a.run_id == run_id && is_active a.status

-- Who acts for an execution of the reviewer.
abbrev pub reviewer_owner : String → String
reviewer_owner execution_id = "reviewer:" ++ execution_id
