-- ===== src/Orchestrator/Reserve.antt =====
-- `reserve_attempt` of scripts/hermesops-orchestrator.py: a READY task starts, if its plan, objective,
-- project and budget allow it.
pub mod Inversion
pub mod Start
use hermes_ops.Orchestrator.Gates.{
  has_id, is_plan, runs_in_plan, plan_has_active_human_gate, project_is_busy,
}
use hermes_ops.Orchestrator.Tables.{
  Timestamp, TaskStatus, PlanStatus, AttemptStatus, ObjectiveStatus, TaskKind, Severity, Task, Plan,
  Objective, Db, add_event, task_status_column,
}
use hermes_ops.Prelude.{
  ◌==◌, string_column, ℕ, ◌+◌, String, Bool, true, false, not, ◌&&◌, Option, none, some, List, [],
  ◌∷◌, ◌++◌, leb, nat_beq, if◌then◌else◌, is_some_eq, coalesce, filter, pos,
}
use hermes_ops.Prelude.Json.{Json, Fields}
use hermes_ops.Prelude.Result.{Result, ok, err}
use hermes_ops.Sql.{update_where, fetch_one, count_where}

-- Why a reservation is refused: the messages of `fail`.
pub data Refusal : Type 0 where
  unknown_task plan_disappeared many_objectives plan_waiting_human : Refusal
  attempts_exhausted plan_full project_busy lost_race : Refusal
  task_not_ready : TaskStatus → Refusal
  plan_not_active : PlanStatus → Refusal
  objective_not_running : ObjectiveStatus → Refusal

abbrev pub is_active_plan : PlanStatus → Bool
is_active_plan PlanStatus.ready = true
is_active_plan PlanStatus.running = true
is_active_plan _ = false

abbrev pub is_running_objective : ObjectiveStatus → Bool
is_running_objective ObjectiveStatus.running = true
is_running_objective _ = false

-- `WHERE plan_id = ?` on the objectives
abbrev pub of_plan : String → Objective → Bool
of_plan plan_id o = is_some_eq o.plan_id plan_id

unfoldable pub objectives_refusal : List Objective → Option Refusal
objectives_refusal [] = none
objectives_refusal (o ∷ []) =
    if is_running_objective o.status then none else some (Refusal.objective_not_running o.status)
objectives_refusal (o ∷ p ∷ os) = some many_objectives

-- The checks from the objective on, once the plan is found.
unfoldable pub capacity_refusal : Db → Task → Plan → Option Refusal
unfolding count_where plan_has_active_human_gate project_is_busy
capacity_refusal db task plan =
    if plan_has_active_human_gate db task.plan_id
    then some plan_waiting_human
    else if leb plan.max_parallel_tasks (count_where (runs_in_plan task.plan_id) db.tasks)
    then some plan_full
    else if project_is_busy db task.project_id task.orchestration_task_id
    then some project_busy
    else none

unfoldable pub plan_refusal : Db → Task → Option Plan → Option Refusal
unfolding objectives_refusal capacity_refusal
plan_refusal db task none = some plan_disappeared
plan_refusal db task (some plan) =
    if is_active_plan plan.status
    then elim (objectives_refusal (filter (of_plan task.plan_id) db.objectives)) [
      | some r ↦ some r
      | none ↦ capacity_refusal db task plan
    ]
    else some (plan_not_active plan.status)

unfoldable pub reservation_ineligibility_reason : Db → Task → Option Refusal
unfolding fetch_one plan_refusal
reservation_ineligibility_reason db task =
    if not (task.status == TaskStatus.ready)
    then some (task_not_ready task.status)
    else if leb task.max_attempts task.attempt_count
    then some attempts_exhausted
    else plan_refusal db task (fetch_one (is_plan task.plan_id) db.plans)

abbrev pub is_ready_task : String → Task → Bool
is_ready_task task_id t = has_id task_id t && t.status == TaskStatus.ready

abbrev pub start_task : ℕ → Timestamp → Task → Task
start_task attempt_number now t = record t {
  status = TaskStatus.running;
  attempt_count = attempt_number;
  started_at = some (coalesce t.started_at now);
  heartbeat_at = some now;
  failure_reason = none;
}

abbrev pub kind_text : TaskKind → String
kind_text TaskKind.pipeline = "PIPELINE"
kind_text TaskKind.noop = "NOOP"
kind_text TaskKind.test_sleep = "TEST_SLEEP"
kind_text TaskKind.test_fail = "TEST_FAIL"

-- The writes of a granted reservation; `attempt_id` holds the fresh uuid.
unfoldable pub start_attempt : Db → Task → String → String → Timestamp → Db
unfolding update_where add_event
start_attempt db task instance_id attempt_id now =
    let id = task.orchestration_task_id in
    let attempt_number = task.attempt_count + 1 in
    add_event
      (record db {
        tasks = update_where (is_ready_task id) (start_task attempt_number now) db.tasks;
        attempts =
            db.attempts
            ++ record {
              attempt_id = attempt_id;
              orchestration_task_id = id;
              attempt_number = attempt_number;
              status = AttemptStatus.running;
              executor_instance_id = some instance_id;
              run_id = none;
              worker_execution_id = none;
              review_execution_id = none;
              integration_id = none;
              result_json = Json.obj Fields.end;
              failure_reason = none;
              started_at = now;
              heartbeat_at = now;
              finished_at = none;
            }
              ∷ [];
      })
      task.plan_id (some id) "ORCHESTRATION_TASK_STARTED" Severity.info
      (Fields.field "attempt_id" (Json.text attempt_id) (
        Fields.field "attempt_number" (Json.int (pos attempt_number))
          (Fields.field "kind" (Json.text (kind_text task.kind)) Fields.end)))

unfoldable pub reserve_found :
    Db → Task → String → String → Timestamp → Option Refusal → Result Refusal (Db × ℕ × Task)
unfolding count_where start_attempt
reserve_found db task instance_id attempt_id now (some reason) = err reason
reserve_found db task instance_id attempt_id now none =
    if nat_beq (count_where (is_ready_task task.orchestration_task_id) db.tasks) 1
    then ok (start_attempt db task instance_id attempt_id now, task.attempt_count + 1, task)
    else err lost_race

unfoldable pub reserve_row :
    Db → String → String → Timestamp → Option Task → Result Refusal (Db × ℕ × Task)
unfolding reserve_found reservation_ineligibility_reason
reserve_row db instance_id attempt_id now none = err unknown_task
reserve_row db instance_id attempt_id now (some task) =
    reserve_found db task instance_id attempt_id now (reservation_ineligibility_reason db task)

-- A refusal rolls the transaction back.
unfoldable pub reserve_attempt :
    Db → String → String → String → Timestamp → Result Refusal (Db × ℕ × Task)
unfolding fetch_one reserve_row
reserve_attempt db task_id instance_id attempt_id now =
    reserve_row db instance_id attempt_id now (fetch_one (has_id task_id) db.tasks)
