-- ===== src/Orchestrator/Finish.antt =====
-- The ends of a task's execution: `finish_task_success`, `finish_task_failure`,
-- `finish_task_waiting_human` and the branch that they share when a human gate is active.
-- `task` is the row that `reserve_attempt` returned.
pub mod Keeps
use hermes_ops.Orchestrator.Gates.{
  human_gate_error, human_gate_deferred_error, cancellation_recovery_error,
  cancellation_pending_error, has_id, is_plan, in_plan, plan_has_active_human_gate,
  plan_has_authorized_integration_in_flight,
}
use hermes_ops.Orchestrator.Tables.{
  task_status_column, Timestamp, TaskStatus, PlanStatus, AttemptStatus, ObjectiveStatus, Severity,
  Task, Plan, Attempt, Db, add_event,
}
use hermes_ops.Prelude.{
  ◌==◌, string_column, String, Bool, true, false, not, ◌&&◌, ◌||◌, Option, none, some, ltb,
  if◌then◌else◌, is_some_eq,
}
use hermes_ops.Prelude.Json.{Json, Fields}
use hermes_ops.Sql.{update_where, fetch_one, exists_where}

abbrev runs : AttemptStatus → Bool
runs AttemptStatus.running = true
runs _ = false

abbrev pub is_running_attempt : String → Attempt → Bool
is_running_attempt attempt_id a = a.attempt_id == attempt_id && runs a.status

abbrev pub is_running_task : String → Task → Bool
is_running_task task_id t = has_id task_id t && t.status == TaskStatus.running

-- `COALESCE(?, result_json)`
abbrev pub result_or : Option Json → Json → Json
result_or none old = old
result_or (some new) old = new

-- The end of the attempt, in the three functions.
abbrev end_attempt :
    String → AttemptStatus → Option Json → (Option String → Option String) → Timestamp → Db → Db
end_attempt attempt_id status result reason now db = record db {
  attempts =
      update_where (is_running_attempt attempt_id)
        (λ a. record a {
          status = status;
          result_json = result_or result a.result_json;
          failure_reason = reason a.failure_reason;
          heartbeat_at = now;
          finished_at = some now;
        })
        db.attempts;
}

abbrev attempt_text : AttemptStatus → String
attempt_text AttemptStatus.running = "RUNNING"
attempt_text AttemptStatus.completed = "COMPLETED"
attempt_text AttemptStatus.failed = "FAILED"
attempt_text AttemptStatus.abandoned = "ABANDONED"
attempt_text AttemptStatus.cancelled = "CANCELLED"

abbrev pub block_task : Option Json → Timestamp → Task → Task
block_task result now t = record t {
  status = TaskStatus.blocked;
  result_json = result_or result t.result_json;
  failure_reason = some human_gate_error;
  heartbeat_at = some now;
  finished_at = some now;
}

unfoldable pub finish_running_task_blocked_by_human_gate :
    Db → Task → String → AttemptStatus → Option Json → Option String → Timestamp → Db
unfolding update_where add_event
finish_running_task_blocked_by_human_gate db task attempt_id status result reason now =
    let id = task.orchestration_task_id in
    let ended = end_attempt attempt_id status result (λ old. reason) now db in
    add_event
      (record ended { tasks = update_where (is_running_task id) (block_task result now) db.tasks })
      task.plan_id (some id) "ORCHESTRATION_TASK_BLOCKED_HUMAN" Severity.warning
      (Fields.field "attempt_id" (Json.text attempt_id) (
        Fields.field "parallel_gate" (Json.bool true)
          (Fields.field "attempt_status" (Json.text (attempt_text status)) Fields.end)))

abbrev pub complete_task : Json → Timestamp → Task → Task
complete_task result now t = record t {
  status = TaskStatus.completed;
  result_json = result;
  failure_reason = none;
  heartbeat_at = some now;
  finished_at = some now;
}

-- `authorized_integration` reads `result`: a PIPELINE whose integration is done.
unfoldable pub finish_task_success : Db → Task → String → Json → Bool → Timestamp → Db
unfolding finish_running_task_blocked_by_human_gate update_where add_event
    plan_has_active_human_gate
finish_task_success db task attempt_id result authorized_integration now =
    let id = task.orchestration_task_id in
    if plan_has_active_human_gate db task.plan_id && not authorized_integration
    then finish_running_task_blocked_by_human_gate db task attempt_id AttemptStatus.completed
        (some result) none now
    else (let ended =
          end_attempt attempt_id AttemptStatus.completed (some result) (λ old. old) now db in
        add_event
          (record ended {
            tasks = update_where (is_running_task id) (complete_task result now) db.tasks;
          })
          task.plan_id (some id) "ORCHESTRATION_TASK_COMPLETED" Severity.info
          (Fields.field "attempt_id" (Json.text attempt_id) Fields.end))

-- `finished_at = CASE WHEN ? = 'FAILED' THEN ? ELSE NULL END`
abbrev pub retry_or_fail : Bool → String → Timestamp → Task → Task
retry_or_fail retry error now t = record t {
  status = if retry then TaskStatus.ready else TaskStatus.failed;
  failure_reason = some error;
  heartbeat_at = some now;
  finished_at = if retry then none else some now;
}

-- The update of the task does not ask for its status: it takes any row with the id.
fail_current : Db → Task → String → String → Timestamp → Option Task → Db
unfolding finish_running_task_blocked_by_human_gate update_where add_event
    plan_has_active_human_gate
fail_current db task attempt_id error now none = db
fail_current db task attempt_id error now (some current) =
    let id = task.orchestration_task_id in
    let retry = ltb current.attempt_count current.max_attempts in
    if plan_has_active_human_gate db task.plan_id
    then finish_running_task_blocked_by_human_gate db task attempt_id AttemptStatus.failed none
        (some error) now
    else (let ended = end_attempt attempt_id AttemptStatus.failed none (λ old. some error) now db in
        add_event
          (record ended {
            tasks = update_where (has_id id) (retry_or_fail retry error now) db.tasks;
          })
          task.plan_id (some id)
          (if retry then "ORCHESTRATION_TASK_RETRY" else "ORCHESTRATION_TASK_FAILED")
          (if retry then Severity.warning else Severity.error)
          (Fields.field "attempt_id" (Json.text attempt_id) (
            Fields.field "failure_reason" (Json.text error)
              (Fields.field "retry" (Json.bool retry) Fields.end))))

unfoldable pub finish_task_failure : Db → Task → String → String → Timestamp → Db
unfolding fail_current fetch_one
finish_task_failure db task attempt_id error now =
    fail_current db task attempt_id error now
      (fetch_one (has_id task.orchestration_task_id) db.tasks)

-- `objective_queue` rows of the plan with a cancellation requested or done
abbrev pub is_cancelling : ObjectiveStatus → Bool
is_cancelling ObjectiveStatus.cancel_requested = true
is_cancelling ObjectiveStatus.cancelled = true
is_cancelling _ = false

abbrev pub is_blockable_plan : PlanStatus → Bool
is_blockable_plan PlanStatus.ready = true
is_blockable_plan PlanStatus.running = true
is_blockable_plan PlanStatus.blocked = true
is_blockable_plan _ = false

-- The rows that a human gate stops: what waits in the plan, and the task itself while it runs.
abbrev pub gate_stops : String → String → Task → Bool
gate_stops plan_id task_id t =
    in_plan plan_id t
    && (t.status == TaskStatus.pending
        || t.status == TaskStatus.ready
        || has_id task_id t && t.status == TaskStatus.running)

abbrev keep_error : String → String → Option String → Option String
keep_error kept new old = if is_some_eq old kept then old else some new

-- The branch taken when the operator has asked for a cancellation.
unfoldable pub waiting_human_cancelled : Db → Task → String → Json → Timestamp → Db
unfolding update_where add_event
waiting_human_cancelled db task attempt_id result now =
    let id = task.orchestration_task_id in
    let ended = end_attempt attempt_id AttemptStatus.completed (some result) (λ old. old) now db in
    add_event
      (record ended {
        tasks =
            update_where
              (λ t.
                has_id id t && (t.status == TaskStatus.running || t.status == TaskStatus.blocked))
              (λ t. record t {
                status = TaskStatus.blocked;
                result_json = result;
                failure_reason =
                    keep_error cancellation_recovery_error cancellation_pending_error
                      t.failure_reason;
                heartbeat_at = some now;
                finished_at = some now;
              })
              db.tasks;
        plans =
            update_where (λ p. is_plan task.plan_id p && is_blockable_plan p.status)
              (λ p. record p {
                status = PlanStatus.blocked;
                heartbeat_at = some now;
                last_error =
                    keep_error cancellation_recovery_error cancellation_pending_error p.last_error;
              })
              db.plans;
      })
      task.plan_id (some id) "ORCHESTRATION_HUMAN_GATE_SUPERSEDED_BY_CANCELLATION" Severity.warning
      (Fields.field "attempt_id" (Json.text attempt_id) Fields.end)

abbrev pub gate_plan : Bool → Timestamp → Plan → Plan
gate_plan deferred now p =
    if deferred
    then record p { heartbeat_at = some now; last_error = some human_gate_deferred_error }
    else record p {
      status = PlanStatus.blocked;
      heartbeat_at = some now;
      last_error = some human_gate_error;
    }

abbrev pub is_starting_plan : PlanStatus → Bool
is_starting_plan PlanStatus.ready = true
is_starting_plan PlanStatus.running = true
is_starting_plan _ = false

unfoldable pub waiting_human_gated : Db → Task → String → Json → Timestamp → Db
unfolding update_where add_event plan_has_authorized_integration_in_flight
waiting_human_gated db task attempt_id result now =
    let id = task.orchestration_task_id in
    let deferred = plan_has_authorized_integration_in_flight db task.plan_id in
    let ended = end_attempt attempt_id AttemptStatus.completed (some result) (λ old. old) now db in
    add_event
      (record ended {
        tasks =
            update_where (gate_stops task.plan_id id)
              (λ t. record t {
                status = TaskStatus.blocked;
                result_json = if has_id id t then result else t.result_json;
                failure_reason = some human_gate_error;
                heartbeat_at = some now;
                finished_at = some now;
              })
              db.tasks;
        plans =
            update_where
              (λ p.
                is_plan task.plan_id p
                && (if deferred then is_starting_plan p.status else is_blockable_plan p.status))
              (gate_plan deferred now) db.plans;
      })
      task.plan_id (some id) "ORCHESTRATION_TASK_BLOCKED_HUMAN" Severity.warning
      (Fields.field "attempt_id" (Json.text attempt_id)
        (Fields.field "deferred" (Json.bool deferred) Fields.end))

unfoldable pub finish_task_waiting_human : Db → Task → String → Json → Timestamp → Db
unfolding waiting_human_cancelled waiting_human_gated exists_where
finish_task_waiting_human db task attempt_id result now =
    if exists_where (λ o. is_some_eq o.plan_id task.plan_id && is_cancelling o.status) db.objectives
    then waiting_human_cancelled db task attempt_id result now
    else waiting_human_gated db task attempt_id result now
