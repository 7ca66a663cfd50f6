-- ===== src/Orchestrator/Dispatch.antt =====
-- The orchestrator's transactions on whole plans: `promote_planned_objective`, `command_activate`
-- and `command_cancel` of scripts/hermesops-orchestrator.py.
pub mod Keeps
use hermes_ops.Orchestrator.Gates.{is_plan, in_plan, runs_in_plan}
use hermes_ops.Orchestrator.Objectives.{
  is_terminal, is_terminal_plan, is_waiting, objective_event, is_objective, add_objective_event,
}
use hermes_ops.Orchestrator.Tables.{
  Timestamp, TaskStatus, PlanStatus, ObjectiveStatus, Plan, Objective, Db,
}
use hermes_ops.Prelude.{
  String, Bool, true, false, ◌&&◌, Option, none, some, ltb, leb, nat_beq, if◌then◌else◌, coalesce,
}
use hermes_ops.Prelude.Json.{Json, Fields}
use hermes_ops.Prelude.Result.{ok, err, Result}
use hermes_ops.Sql.{update_where, fetch_one, count_where}

abbrev pub ready_if_draft : Timestamp → Plan → Plan
ready_if_draft now p = record p {
  status = PlanStatus.ready;
  heartbeat_at = some now;
  last_error = none;
}

abbrev pub is_draft : PlanStatus → Bool
is_draft PlanStatus.draft = true
is_draft _ = false

abbrev pub is_queued : ObjectiveStatus → Bool
is_queued ObjectiveStatus.queued = true
is_queued _ = false

-- The status and error of a dispatched objective, from its plan's status.
abbrev pub promoted : PlanStatus → ObjectiveStatus × Option String
promoted PlanStatus.completed = (ObjectiveStatus.completed, none)
promoted PlanStatus.failed = (ObjectiveStatus.failed, some "linked orchestration plan failed")
promoted PlanStatus.cancelled =
    (ObjectiveStatus.cancelled, some "linked orchestration plan cancelled")
promoted _ = (ObjectiveStatus.running, none)

abbrev pub is_running : ObjectiveStatus → Bool
is_running ObjectiveStatus.running = true
is_running _ = false

abbrev pub dispatch_objective : ObjectiveStatus → Option String → Timestamp → Objective → Objective
dispatch_objective new error now o = record o {
  status = new;
  started_at = some (coalesce o.started_at now);
  heartbeat_at = now;
  finished_at = if is_terminal new then some now else none;
  paused_at = none;
  last_error = error;
}

-- The writes for a row found with its plan; `none` if the update did not meet one row.
unfoldable pub promote_found : Db → Objective → String → Plan → Timestamp → Option (Db × String)
unfolding count_where update_where add_objective_event
promote_found db row plan_id plan now =
    let (new, error) = promoted plan.status in
    let open_one = λ (o : Objective). is_objective row.objective_id o && is_queued o.status in
    if nat_beq (count_where open_one db.objectives) 1
    then some (
      add_objective_event
          (record db {
            plans =
                if is_draft plan.status
                then update_where (λ p. is_plan plan_id p && is_draft p.status) (ready_if_draft now)
                    db.plans
                else db.plans;
            objectives = update_where open_one (dispatch_objective new error now) db.objectives;
          })
          row.objective_id (if is_running new then "OBJECTIVE_DISPATCHED" else objective_event new)
          (some ObjectiveStatus.queued) (some new)
          (Fields.field "plan_id" (Json.text plan_id) Fields.end),
      plan_id,
    )
    else none

unfoldable pub promote_plan : Db → Objective → Timestamp → Option String → Option (Db × String)
unfolding promote_found fetch_one
promote_plan db row now none = none
promote_plan db row now (some plan_id) = elim (fetch_one (is_plan plan_id) db.plans) [
  | none ↦ none
  | some plan ↦ promote_found db row plan_id plan now
]

-- A row is due if it is QUEUED and its time has come; every source may be dispatched.
unfoldable pub promote_planned_objective : Db → String → Timestamp → Option (Db × String)
unfolding promote_plan fetch_one
promote_planned_objective db objective_id now =
    elim (fetch_one (λ o. is_objective objective_id o && is_queued o.status && leb o.not_before now)
      db.objectives) [ none ↦ none | some row ↦ promote_plan db row now row.plan_id ]

-- `UPDATE ... SET status = 'READY' WHERE plan_id = ? AND status = 'DRAFT'`
abbrev pub is_draft_plan : String → Plan → Bool
is_draft_plan plan_id p = is_plan plan_id p && is_draft p.status

unfoldable pub open_draft : Db → String → Timestamp → Db
unfolding update_where
open_draft db plan_id now = record db {
  plans = update_where (is_draft_plan plan_id) (ready_if_draft now) db.plans;
}

-- Its one transaction; `refresh_plan_states` follows in another. `none` stands for the failure "Plan
-- can only be activated from DRAFT".
unfoldable pub command_activate : Db → String → Timestamp → Option Db
unfolding count_where open_draft
command_activate db plan_id now =
    if nat_beq (count_where (is_draft_plan plan_id) db.plans) 1
    then some (open_draft db plan_id now)
    else none

pub data CancelRefusal : Type 0 where
  unknown_plan task_running : CancelRefusal
  already_terminal : PlanStatus → CancelRefusal

-- The writes of a cancellation; the RUNNING tasks were excluded before.
unfoldable pub cancel_plan : Db → String → Timestamp → Db
unfolding update_where
cancel_plan db plan_id now = record db {
  tasks =
      update_where (λ t. in_plan plan_id t && is_waiting t.status)
        (λ t. record t {
          status = TaskStatus.cancelled;
          heartbeat_at = some now;
          finished_at = some now;
        })
        db.tasks;
  plans =
      update_where (is_plan plan_id)
        (λ p. record p {
          status = PlanStatus.cancelled;
          heartbeat_at = some now;
          finished_at = some now;
        })
        db.plans;
}

unfoldable pub cancel_plan_found : Db → String → Timestamp → Option Plan → Result CancelRefusal Db
unfolding count_where cancel_plan
cancel_plan_found db plan_id now none = err unknown_plan
cancel_plan_found db plan_id now (some plan) =
    if is_terminal_plan plan.status
    then err (already_terminal plan.status)
    else if ltb 0 (count_where (runs_in_plan plan_id) db.tasks)
    then err task_running
    else ok (cancel_plan db plan_id now)

unfoldable pub command_cancel : Db → String → Timestamp → Result CancelRefusal Db
unfolding cancel_plan_found fetch_one
command_cancel db plan_id now =
    cancel_plan_found db plan_id now (fetch_one (is_plan plan_id) db.plans)
