-- ===== src/Commands/Plans.antt =====
-- What a command asks of the plan of an objective: the helpers that
-- scripts/hermesops-objectives.py and controller_api/objective_commands.py each spell out.
use hermes_ops.Orchestrator.Gates.{
  is_plan, in_plan, runs_in_plan, is_approve, is_authorized, joined,
}
use hermes_ops.Orchestrator.Objectives.{is_terminal, is_terminal_plan, is_waiting, is_paused}
use hermes_ops.Orchestrator.Tables.{
  task_status_column, Timestamp, TaskStatus, PlanStatus, RunStatus, ObjectiveStatus, Objective, Db,
}
use hermes_ops.Prelude.{
  string_column, ℕ, String, Bool, true, false, not, ◌&&◌, ◌||◌, Option, none, some, nat_beq,
  if◌then◌else◌, ◌==◌, is_some_eq, coalesce,
}
use hermes_ops.Sql.{update_where, count_where, exists_where}

unfoldable pub running_task_count : Db → Option String → ℕ
unfolding count_where
running_task_count db none = 0
running_task_count db (some plan_id) = count_where (runs_in_plan plan_id) db.tasks

-- `run.status IN ('COMMITTING', 'COMPLETED')`
abbrev pub is_committed : RunStatus → Bool
is_committed RunStatus.committing = true
is_committed RunStatus.completed = true
is_committed _ = false

-- An integration of the run was approved and begun.
abbrev pub is_integrated : Db → String → Bool
is_integrated db run_id =
    exists_where (λ i. i.run_id == run_id && is_approve i.decision && is_authorized i.status)
      db.integrations

unfoldable pub integration_point_of_no_return : Db → Option String → Bool
unfolding exists_where
integration_point_of_no_return db none = false
integration_point_of_no_return db (some plan_id) =
    exists_where
      (λ attempt.
        exists_where
          (λ run.
            is_some_eq attempt.run_id run.run_id
            && joined db plan_id attempt (λ t. true)
            && (is_committed run.status || is_integrated db run.run_id))
          db.runs)
      db.attempts

-- `run.status IN ('SNAPSHOTTING', ..., 'RECOVERING')`
abbrev pub is_active_run : RunStatus → Bool
is_active_run RunStatus.snapshotting = true
is_active_run RunStatus.running = true
is_active_run RunStatus.reviewing = true
is_active_run RunStatus.waiting_human = true
is_active_run RunStatus.committing = true
is_active_run RunStatus.recovering = true
is_active_run _ = false

-- `COUNT(DISTINCT run.run_id)` over the join: `run_id` is the key of `runs`, so a row counts once.
unfoldable pub active_run_count : Db → Option String → ℕ
unfolding count_where exists_where
active_run_count db none = 0
active_run_count db (some plan_id) =
    count_where
      (λ run.
        is_active_run run.status
        && exists_where
            (λ attempt.
              is_some_eq attempt.run_id run.run_id && joined db plan_id attempt (λ t. true))
            db.attempts)
      db.runs

-- Every status that a plan can have is met.
unfoldable pub resumed_status_for_plan : Option PlanStatus → ObjectiveStatus
resumed_status_for_plan none = ObjectiveStatus.queued
resumed_status_for_plan (some PlanStatus.draft) = ObjectiveStatus.queued
resumed_status_for_plan (some PlanStatus.ready) = ObjectiveStatus.queued
resumed_status_for_plan (some PlanStatus.running) = ObjectiveStatus.queued
resumed_status_for_plan (some PlanStatus.blocked) = ObjectiveStatus.running
resumed_status_for_plan (some PlanStatus.completed) = ObjectiveStatus.completed
resumed_status_for_plan (some PlanStatus.failed) = ObjectiveStatus.failed
resumed_status_for_plan (some PlanStatus.cancelled) = ObjectiveStatus.cancelled

-- The `last_error` of a resumed objective.
abbrev pub resumed_error : ObjectiveStatus → Option String
resumed_error ObjectiveStatus.failed = some "linked orchestration plan failed"
resumed_error ObjectiveStatus.cancelled = some "linked orchestration plan cancelled"
resumed_error _ = none

abbrev pub is_planning : ObjectiveStatus → Bool
is_planning ObjectiveStatus.planning = true
is_planning _ = false

abbrev pub is_cancelled : ObjectiveStatus → Bool
is_cancelled ObjectiveStatus.cancelled = true
is_cancelled _ = false

-- `new` of a pause and of a cancellation.
unfoldable pub pause_status : Db → Objective → ObjectiveStatus
unfolding running_task_count
pause_status db row =
    if is_planning row.status || not (nat_beq (running_task_count db row.plan_id) 0)
    then ObjectiveStatus.pause_requested
    else ObjectiveStatus.paused

unfoldable pub cancel_status : Db → Objective → ObjectiveStatus
unfolding running_task_count active_run_count
cancel_status db row =
    if is_planning row.status
      || not (nat_beq (running_task_count db row.plan_id) 0)
      || not (nat_beq (active_run_count db row.plan_id) 0)
    then ObjectiveStatus.cancel_requested
    else ObjectiveStatus.cancelled

-- The columns that the three UPDATE statements set.
abbrev pub set_paused : ObjectiveStatus → Timestamp → Objective → Objective
set_paused new now o = record o {
  status = new;
  heartbeat_at = now;
  paused_at = if is_paused new then some now else o.paused_at;
  last_error = none;
}

abbrev pub set_resumed : ObjectiveStatus → Timestamp → Objective → Objective
set_resumed new now o = record o {
  status = new;
  heartbeat_at = now;
  paused_at = none;
  finished_at = if is_terminal new then some now else none;
  last_error = resumed_error new;
}

abbrev pub set_cancelled : ObjectiveStatus → Timestamp → Objective → Objective
set_cancelled new now o = record o {
  status = new;
  heartbeat_at = now;
  finished_at = if is_cancelled new then some now else none;
  last_error = if is_cancelled new then some "cancelled by operator" else o.last_error;
}

-- `cancel_plan_in_transaction`, and `_cancel_plan` of the controller.
unfoldable pub cancel_plan_in_transaction : Db → Option String → Timestamp → Db
unfolding update_where
cancel_plan_in_transaction db none now = db
cancel_plan_in_transaction db (some plan_id) now = record db {
  tasks =
      update_where (λ t. in_plan plan_id t && is_waiting t.status)
        (λ t. record t {
          status = TaskStatus.cancelled;
          heartbeat_at = some now;
          finished_at = some now;
          failure_reason = some (coalesce t.failure_reason "objective cancelled");
        })
        db.tasks;
  plans =
      update_where (λ p. is_plan plan_id p && not (is_terminal_plan p.status))
        (λ p. record p {
          status = PlanStatus.cancelled;
          heartbeat_at = some now;
          finished_at = some now;
          last_error = some "objective cancelled";
        })
        db.plans;
}
