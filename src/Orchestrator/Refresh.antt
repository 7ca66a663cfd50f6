-- ===== src/Orchestrator/Refresh.antt =====
-- `refresh_plan_states` of scripts/hermesops-orchestrator.py: what waits becomes READY or BLOCKED,
-- and the plan follows its tasks.
pub mod Parents
pub mod Keeps
use hermes_ops.Orchestrator.Dag.{parents}
use hermes_ops.Orchestrator.Gates.{
  human_gate_error, human_gate_deferred_error, cancellation_recovery_error,
  cancellation_pending_error, has_id, is_plan, in_plan, is_blocked, plan_has_active_human_gate,
  plan_has_authorized_integration_in_flight,
}
use hermes_ops.Orchestrator.Tables.{
  Timestamp, TaskStatus, PlanStatus, Severity, Task, Plan, Dependency, Db, add_event,
  task_status_column,
}
use hermes_ops.Prelude.{
  ◌==◌, string_column, String, Bool, true, false, not, ◌&&◌, ◌||◌, Option, none, some, List, [],
  ◌∷◌, ◌++◌, map, leb, if◌then◌else◌, is_some_eq, coalesce, any, all, filter, leb_ℤ,
}
use hermes_ops.Prelude.Json.{Json, Fields}
use hermes_ops.Sql.{update_where, fetch_one, order_by}
use hermes_ops.Sql.Laws.{one}

-- The statuses of the tasks with one id.
unfoldable pub statuses_of : String → List Task → List TaskStatus
statuses_of task_id [] = []
statuses_of task_id (t ∷ tasks) =
    let rest = statuses_of task_id tasks in if has_id task_id t then t.status ∷ rest else rest

-- The dependencies of one task, joined with the tasks depended on.
unfoldable pub parent_statuses : List Dependency → List Task → String → List TaskStatus
unfolding statuses_of
parent_statuses [] tasks task_id = []
parent_statuses (d ∷ deps) tasks task_id =
    let rest = parent_statuses deps tasks task_id in
    if d.orchestration_task_id == task_id
    then statuses_of d.depends_on_task_id tasks ++ rest
    else rest

abbrev pub is_completed : TaskStatus → Bool
is_completed s = s == TaskStatus.completed

abbrev pub is_lost : TaskStatus → Bool
is_lost TaskStatus.failed = true
is_lost TaskStatus.blocked = true
is_lost TaskStatus.cancelled = true
is_lost _ = false

abbrev pub is_open : TaskStatus → Bool
is_open TaskStatus.ready = true
is_open TaskStatus.running = true
is_open TaskStatus.pending = true
is_open _ = false

abbrev pub is_pending_task : String → Task → Bool
is_pending_task task_id t = has_id task_id t && t.status == TaskStatus.pending

-- A waiting task of a lost dependency.
unfoldable pub block_lost : String → Timestamp → Db → String → Db
unfolding update_where add_event
block_lost plan_id now db id =
    add_event
      (record db {
        tasks =
            update_where (is_pending_task id)
              (λ t. record t {
                status = TaskStatus.blocked;
                failure_reason = some "dependency did not complete successfully";
                heartbeat_at = some now;
                finished_at = some now;
              })
              db.tasks;
      })
      plan_id (some id) "ORCHESTRATION_TASK_BLOCKED" Severity.warning
      (Fields.field "reason" (Json.text "dependency-failed") Fields.end)

-- A waiting task whose dependencies are completed.
unfoldable pub release : Timestamp → Db → String → Db
unfolding update_where
release now db id = record db {
  tasks =
      update_where (is_pending_task id)
        (λ t. record t { status = TaskStatus.ready; heartbeat_at = some now }) db.tasks;
}

-- One turn of the loop over the tasks; `task` is the row that was fetched before the loop.
unfoldable pub refresh_task : String → Timestamp → Db → Task → Db
unfolding parent_statuses block_lost release
refresh_task plan_id now db task =
    let parents = parent_statuses db.dependencies db.tasks task.orchestration_task_id in
    if not (task.status == TaskStatus.pending)
    then db
    else if any is_lost parents
    then block_lost plan_id now db task.orchestration_task_id
    else if all is_completed parents
    then release now db task.orchestration_task_id
    else db

unfoldable pub refresh_tasks : String → Timestamp → Db → List Task → Db
unfolding refresh_task
refresh_tasks plan_id now db [] = db
refresh_tasks plan_id now db (task ∷ tasks) =
    refresh_tasks plan_id now (refresh_task plan_id now db task) tasks

-- `ORDER BY priority, created_at`
abbrev pub before : Task → Task → Bool
before a b =
    if not (leb_ℤ b.priority a.priority)
    then true
    else leb_ℤ a.priority b.priority && leb a.created_at b.created_at

abbrev pub set_plan : String → (Plan → Plan) → Db → Db
set_plan plan_id f db = record db { plans = update_where (is_plan plan_id) f db.plans }

abbrev pub plan_statuses : String → List Task → List TaskStatus
plan_statuses plan_id tasks = map (λ t. t.status) (filter (in_plan plan_id) tasks)

abbrev pub is_kept_error : Option String → Bool
is_kept_error e =
    is_some_eq e cancellation_recovery_error || is_some_eq e cancellation_pending_error

abbrev pub start_if_ready : PlanStatus → PlanStatus
start_if_ready PlanStatus.ready = PlanStatus.running
start_if_ready s = s

abbrev pub is_nonempty : List TaskStatus → Bool
is_nonempty [] = false
is_nonempty (s ∷ l) = true

-- The tests of the part after the loop, on the plan's row from the start of the transaction.
abbrev pub is_deferred_gate : Db → String → Plan → Bool
is_deferred_gate db plan_id plan =
    plan_has_active_human_gate db plan_id && is_some_eq plan.last_error human_gate_deferred_error

abbrev pub stays_blocked : Db → String → Plan → Bool
stays_blocked db plan_id plan =
    is_blocked plan.status
    && (plan_has_active_human_gate db plan_id && is_some_eq plan.last_error human_gate_error
        || is_kept_error plan.last_error)

abbrev pub is_done : Db → String → Bool
is_done db plan_id =
    is_nonempty (plan_statuses plan_id db.tasks)
    && all is_completed (plan_statuses plan_id db.tasks)

abbrev pub is_stuck : Db → String → Bool
is_stuck db plan_id =
    any is_lost (plan_statuses plan_id db.tasks)
    && not (any is_open (plan_statuses plan_id db.tasks))

abbrev pub beat : Timestamp → Plan → Plan
beat now p = record p { heartbeat_at = some now }

abbrev pub block_plan : Timestamp → Plan → Plan
block_plan now p = record p {
  status = PlanStatus.blocked;
  heartbeat_at = some now;
  last_error = some human_gate_error;
}

abbrev pub complete_plan : Timestamp → Plan → Plan
complete_plan now p = record p {
  status = PlanStatus.completed;
  heartbeat_at = some now;
  finished_at = some now;
  last_error = none;
}

abbrev pub fail_plan : Timestamp → Plan → Plan
fail_plan now p = record p {
  status = PlanStatus.failed;
  heartbeat_at = some now;
  finished_at = some now;
  last_error = some "one or more tasks failed";
}

abbrev pub start_plan : Timestamp → Plan → Plan
start_plan now p = record p {
  status = start_if_ready p.status;
  started_at = some (coalesce p.started_at now);
  heartbeat_at = some now;
}

-- The part after the loop; `plan` is the row that was fetched at the start.
unfoldable pub refresh_plan : String → Timestamp → Plan → Db → Db
unfolding update_where add_event plan_has_active_human_gate
    plan_has_authorized_integration_in_flight
refresh_plan plan_id now plan db =
    if is_deferred_gate db plan_id plan
    then (if plan_has_authorized_integration_in_flight db plan_id
        then set_plan plan_id (beat now) db
        else add_event (set_plan plan_id (block_plan now) db) plan_id none
            "ORCHESTRATION_PLAN_BLOCKED_HUMAN" Severity.warning
            (Fields.field "deferred" (Json.bool true) Fields.end))
    else if stays_blocked db plan_id plan
    then set_plan plan_id (beat now) db
    else if is_done db plan_id
    then add_event (set_plan plan_id (complete_plan now) db) plan_id none
        "ORCHESTRATION_PLAN_COMPLETED" Severity.info Fields.end
    else if is_stuck db plan_id
    then add_event (set_plan plan_id (fail_plan now) db) plan_id none "ORCHESTRATION_PLAN_FAILED"
        Severity.error Fields.end
    else set_plan plan_id (start_plan now) db

abbrev pub is_refreshable : PlanStatus → Bool
is_refreshable PlanStatus.ready = true
is_refreshable PlanStatus.running = true
is_refreshable PlanStatus.blocked = true
is_refreshable _ = false

unfoldable pub refresh_found : String → Timestamp → Db → Option Plan → Db
unfolding refresh_tasks refresh_plan order_by
refresh_found plan_id now db none = db
refresh_found plan_id now db (some plan) =
    if is_refreshable plan.status
    then refresh_plan plan_id now plan
        (refresh_tasks plan_id now db (order_by before (filter (in_plan plan_id) db.tasks)))
    else db

unfoldable pub refresh_plan_states : Db → String → Timestamp → Db
unfolding refresh_found fetch_one
refresh_plan_states db plan_id now =
    refresh_found plan_id now db (fetch_one (is_plan plan_id) db.plans)
