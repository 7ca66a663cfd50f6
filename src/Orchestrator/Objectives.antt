-- ===== src/Orchestrator/Objectives.antt =====
-- The orchestrator's transactions on objectives: `cancel_objective_plan` and
-- `synchronize_objective_states` of scripts/hermesops-orchestrator.py.
pub mod Keeps
use hermes_ops.Orchestrator.Gates.{
  is_plan, in_plan, objective_running_tasks, cancellation_cleanup_pending,
}
use hermes_ops.Orchestrator.Tables.{
  task_status_column, Timestamp, TaskStatus, PlanStatus, ObjectiveStatus, Plan, Objective, Db,
}
use hermes_ops.Prelude.{
  string_column, String, Bool, true, false, not, ◌&&◌, Option, none, some, List, [], ◌∷◌, ◌++◌, leb,
  nat_beq, if◌then◌else◌, ◌==◌, coalesce, filter,
}
use hermes_ops.Prelude.Json.{Json, Fields, text_or_null}
use hermes_ops.Sql.{update_where, fetch_one, order_by}

abbrev pub is_terminal : ObjectiveStatus → Bool
is_terminal ObjectiveStatus.completed = true
is_terminal ObjectiveStatus.failed = true
is_terminal ObjectiveStatus.cancelled = true
is_terminal _ = false

abbrev pub is_terminal_plan : PlanStatus → Bool
is_terminal_plan PlanStatus.completed = true
is_terminal_plan PlanStatus.failed = true
is_terminal_plan PlanStatus.cancelled = true
is_terminal_plan _ = false

-- `status IN ('PENDING', 'READY', 'BLOCKED')`
abbrev pub is_waiting : TaskStatus → Bool
is_waiting TaskStatus.pending = true
is_waiting TaskStatus.ready = true
is_waiting TaskStatus.blocked = true
is_waiting _ = false

abbrev pub objective_text : ObjectiveStatus → String
objective_text ObjectiveStatus.queued = "QUEUED"
objective_text ObjectiveStatus.planning = "PLANNING"
objective_text ObjectiveStatus.running = "RUNNING"
objective_text ObjectiveStatus.pause_requested = "PAUSE_REQUESTED"
objective_text ObjectiveStatus.paused = "PAUSED"
objective_text ObjectiveStatus.cancel_requested = "CANCEL_REQUESTED"
objective_text ObjectiveStatus.completed = "COMPLETED"
objective_text ObjectiveStatus.failed = "FAILED"
objective_text ObjectiveStatus.cancelled = "CANCELLED"

-- `f"OBJECTIVE_{new}"`
abbrev pub objective_event : ObjectiveStatus → String
objective_event ObjectiveStatus.queued = "OBJECTIVE_QUEUED"
objective_event ObjectiveStatus.planning = "OBJECTIVE_PLANNING"
objective_event ObjectiveStatus.running = "OBJECTIVE_RUNNING"
objective_event ObjectiveStatus.pause_requested = "OBJECTIVE_PAUSE_REQUESTED"
objective_event ObjectiveStatus.paused = "OBJECTIVE_PAUSED"
objective_event ObjectiveStatus.cancel_requested = "OBJECTIVE_CANCEL_REQUESTED"
objective_event ObjectiveStatus.completed = "OBJECTIVE_COMPLETED"
objective_event ObjectiveStatus.failed = "OBJECTIVE_FAILED"
objective_event ObjectiveStatus.cancelled = "OBJECTIVE_CANCELLED"

abbrev pub is_objective : String → Objective → Bool
is_objective objective_id o = o.objective_id == objective_id

unfoldable pub add_objective_event :
    Db → String → String → Option ObjectiveStatus → Option ObjectiveStatus → Fields → Db
add_objective_event db objective_id event_type old new payload = record db {
  objective_events =
      db.objective_events
      ++ record {
        objective_id = objective_id;
        event_type = event_type;
        old_status = old;
        new_status = new;
        payload_json = Json.obj payload;
      }
        ∷ [];
}

-- With no plan there is nothing to cancel. RUNNING tasks are left alone.
unfoldable pub cancel_objective_plan : Db → Option String → Timestamp → Db
unfolding update_where
cancel_objective_plan db none now = db
cancel_objective_plan db (some plan_id) now = record db {
  tasks =
      update_where (λ t. in_plan plan_id t && is_waiting t.status)
        (λ t. record t {
          status = TaskStatus.cancelled;
          heartbeat_at = some now;
          finished_at = some now;
          failure_reason = some (coalesce t.failure_reason "objective cancelled");
        })
        db.tasks;
  plans =
      update_where (λ p. is_plan plan_id p && not (is_terminal_plan p.status))
        (λ p. record p {
          status = PlanStatus.cancelled;
          heartbeat_at = some now;
          finished_at = some now;
          last_error = some "objective cancelled";
        })
        db.plans;
}

-- The new status and error of an objective whose plan has ended.
abbrev pub follow_plan : Option PlanStatus → Option (ObjectiveStatus × Option String)
follow_plan (some PlanStatus.completed) = some (ObjectiveStatus.completed, none)
follow_plan (some PlanStatus.failed) =
    some (ObjectiveStatus.failed, some "linked orchestration plan failed")
follow_plan (some PlanStatus.cancelled) =
    some (ObjectiveStatus.cancelled, some "linked orchestration plan cancelled")
follow_plan _ = none

-- The choice of `new` and `error` in one turn of the loop.
unfoldable pub synchronized_status :
    Db
    → Option String
    → Option PlanStatus
    → ObjectiveStatus
    → Option (ObjectiveStatus × Option String)
unfolding objective_running_tasks cancellation_cleanup_pending
synchronized_status db plan_id plan_status ObjectiveStatus.cancel_requested =
    if nat_beq (objective_running_tasks db plan_id) 0
      && not (cancellation_cleanup_pending db plan_id)
    then some (ObjectiveStatus.cancelled, some "cancelled by operator")
    else none
synchronized_status db plan_id plan_status ObjectiveStatus.pause_requested =
    if nat_beq (objective_running_tasks db plan_id) 0
    then some (ObjectiveStatus.paused, none)
    else follow_plan plan_status
synchronized_status db plan_id plan_status _ = follow_plan plan_status

abbrev pub set_objective : String → (Objective → Objective) → Db → Db
set_objective objective_id f db = record db {
  objectives = update_where (is_objective objective_id) f db.objectives;
}

abbrev pub is_paused : ObjectiveStatus → Bool
is_paused ObjectiveStatus.paused = true
is_paused _ = false

abbrev pub move_objective : ObjectiveStatus → Option String → Timestamp → Objective → Objective
move_objective new error now o = record o {
  status = new;
  heartbeat_at = now;
  paused_at = if is_paused new then some now else o.paused_at;
  finished_at = if is_terminal new then some now else none;
  last_error = error;
}

abbrev pub is_cancel_requested : ObjectiveStatus → Bool
is_cancel_requested ObjectiveStatus.cancel_requested = true
is_cancel_requested _ = false

-- A status that differs from the old one is written, with its event; any other row has its
-- heartbeat renewed. No choice of `synchronized_status` is the old status.
unfoldable pub apply_status :
    Db → Objective → Timestamp → Option (ObjectiveStatus × Option String) → Db
unfolding cancel_objective_plan update_where add_objective_event
apply_status db row now none =
    set_objective row.objective_id (λ o. record o { heartbeat_at = now }) db
apply_status db row now (some (new, error)) =
    let cleared =
      if is_cancel_requested row.status then cancel_objective_plan db row.plan_id now else db in
    add_objective_event (set_objective row.objective_id (move_objective new error now) cleared)
      row.objective_id (objective_event new) (some row.status) (some new)
      (Fields.field "plan_id" (text_or_null row.plan_id) Fields.end)

-- `LEFT JOIN orchestration_plans`
abbrev pub linked_plan_status : List Plan → Option String → Option PlanStatus
linked_plan_status plans none = none
linked_plan_status plans (some plan_id) = elim (fetch_one (is_plan plan_id) plans) [
  | none ↦ none
  | some p ↦ some p.status
]

unfoldable pub synchronize_rows : List Plan → Timestamp → Db → List Objective → Db
unfolding synchronized_status apply_status fetch_one
synchronize_rows plans now db [] = db
synchronize_rows plans now db (row ∷ rows) =
    synchronize_rows plans now
      (apply_status db row now
        (synchronized_status db row.plan_id (linked_plan_status plans row.plan_id) row.status))
      rows

-- The rows and the plans' statuses are those of the start of the transaction.
unfoldable pub synchronize_objective_states : Db → Timestamp → Db
unfolding synchronize_rows order_by
synchronize_objective_states db now = synchronize_rows db.plans now db (
    order_by (λ a b. leb a.created_at b.created_at)
      (filter (λ o. not (is_terminal o.status)) db.objectives))
