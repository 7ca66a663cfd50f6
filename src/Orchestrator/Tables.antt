-- ===== src/Orchestrator/Tables.antt =====
-- The tables of the control-plane database that scripts/hermesops-orchestrator.py works on, with
-- the columns of migrations 001, 007, 009 and 010 that its operations read or write.
-- A timestamp is its number of milliseconds: the texts have one fixed format, which sorts alike.
use hermes_ops.Prelude.{
  ℕ, String, true, ◌≡◌, ◌↔◌, Option, List, [], ◌∷◌, ◌++◌, Comparable, nat_beq, arith, ℤ,
}
use hermes_ops.Prelude.Json.{Json, Fields, obj, field, text, text_or_null}

abbrev pub Timestamp : Type 0
Timestamp = ℕ

pub data TaskStatus : Type 0 where
  pending ready running blocked completed failed cancelled : TaskStatus

pub data PlanStatus : Type 0 where
  draft ready running blocked completed failed cancelled : PlanStatus

pub data AttemptStatus : Type 0 where
  running completed failed abandoned cancelled : AttemptStatus

pub data RunStatus : Type 0 where
  queued snapshotting running reviewing waiting_human committing : RunStatus
  recovering completed failed cancelled : RunStatus

pub data ObjectiveStatus : Type 0 where
  queued planning running pause_requested paused cancel_requested : ObjectiveStatus
  completed failed cancelled : ObjectiveStatus

pub data TaskKind : Type 0 where
  pipeline noop test_sleep test_fail : TaskKind

pub data Source : Type 0 where
  ai declarative test : Source

pub data Severity : Type 0 where
  info warning error : Severity

pub record Task : Type 0 where
  pub orchestration_task_id : String
  pub plan_id : String
  pub task_key : String
  pub kind : TaskKind
  pub project_id : Option String
  pub role_id : Option String
  pub status : TaskStatus
  pub priority : ℤ
  pub instruction : String
  pub acceptance_json : Json
  pub marker : Option String
  pub max_attempts : ℕ
  pub attempt_count : ℕ
  pub result_json : Json
  pub failure_reason : Option String
  pub created_at : Timestamp
  pub started_at : Option Timestamp
  pub heartbeat_at : Option Timestamp
  pub finished_at : Option Timestamp

pub record Plan : Type 0 where
  pub plan_id : String
  pub objective : String
  pub source : Source
  pub status : PlanStatus
  pub max_parallel_tasks : ℕ
  pub created_at : Timestamp
  pub started_at : Option Timestamp
  pub heartbeat_at : Option Timestamp
  pub finished_at : Option Timestamp
  pub last_error : Option String

pub record Dependency : Type 0 where
  pub plan_id : String
  pub orchestration_task_id : String
  pub depends_on_task_id : String

pub record Attempt : Type 0 where
  pub attempt_id : String
  pub orchestration_task_id : String
  pub attempt_number : ℕ
  pub status : AttemptStatus
  pub executor_instance_id : Option String
  pub run_id : Option String
  pub worker_execution_id : Option String
  pub review_execution_id : Option String
  pub integration_id : Option String
  pub result_json : Json
  pub failure_reason : Option String
  pub started_at : Timestamp
  pub heartbeat_at : Timestamp
  pub finished_at : Option Timestamp

pub record Objective : Type 0 where
  pub objective_id : String
  -- what `json.loads` makes of the text, if it is JSON
  pub project_scope_json : Option Json
  pub source : Source
  pub status : ObjectiveStatus
  pub priority : ℤ
  pub not_before : Timestamp
  pub planning_max_attempts : ℕ
  pub planning_attempt_count : ℕ
  pub plan_id : Option String
  pub created_at : Timestamp
  pub started_at : Option Timestamp
  pub heartbeat_at : Timestamp
  pub finished_at : Option Timestamp
  pub paused_at : Option Timestamp
  pub last_error : Option String

pub record Run : Type 0 where
  pub run_id : String
  pub project_id : String
  pub status : RunStatus

pub data ApprovalStatus : Type 0 where
  pending approved rejected expired cancelled : ApprovalStatus

pub record Approval : Type 0 where
  pub approval_id : String
  pub run_id : String
  pub status : ApprovalStatus

pub data IntegrationDecision : Type 0 where
  approve reject block_human : IntegrationDecision

pub data IntegrationStatus : Type 0 where
  prepared completed rejected blocked failed : IntegrationStatus

pub record Integration : Type 0 where
  pub run_id : String
  pub decision : IntegrationDecision
  pub status : IntegrationStatus

-- A row of `events`; its creation time is not kept, since none of the operations reads it.
pub record Event : Type 0 where
  pub event_type : String
  pub severity : Severity
  pub payload_json : Json

pub record ObjectiveEvent : Type 0 where
  pub objective_id : String
  pub event_type : String
  pub old_status : Option ObjectiveStatus
  pub new_status : Option ObjectiveStatus
  pub payload_json : Json

pub record Db : Type 0 where
  pub plans : List Plan
  pub tasks : List Task
  pub dependencies : List Dependency
  pub attempts : List Attempt
  pub objectives : List Objective
  pub runs : List Run
  pub approvals : List Approval
  pub integrations : List Integration
  pub events : List Event
  pub objective_events : List ObjectiveEvent

abbrev pub task_tag : TaskStatus → ℕ
task_tag TaskStatus.pending = 0
task_tag TaskStatus.ready = 1
task_tag TaskStatus.running = 2
task_tag TaskStatus.blocked = 3
task_tag TaskStatus.completed = 4
task_tag TaskStatus.failed = 5
task_tag TaskStatus.cancelled = 6

pub task_beq_iff : (a b : TaskStatus) → (nat_beq (task_tag a) (task_tag b) ≡ true) ↔ (a ≡ b)
task_beq_iff a b = ground arith

instance abbrev pub task_status_column : Comparable TaskStatus
task_status_column = record {
  same = λ a b. nat_beq (task_tag a) (task_tag b);
  same_iff = task_beq_iff;
}

-- `add_event`: the plan and the task stand first in the payload.
unfoldable pub add_event : Db → String → Option String → String → Severity → Fields → Db
add_event db plan_id task_id event_type severity payload = record db {
  events =
      db.events
      ++ record {
        event_type = event_type;
        severity = severity;
        payload_json = obj (
            field "plan_id" (text plan_id)
              (field "orchestration_task_id" (text_or_null task_id) payload));
      }
        ∷ [];
}
