-- ===== src/Commands/Cli.antt =====
-- `command_pause`, `command_resume` and `command_cancel` of scripts/hermesops-objectives.py. A call
-- of `fail` rolls back first, so that the tables are as they were.
use hermes_ops.Commands.Plans.{
  integration_point_of_no_return, resumed_status_for_plan, is_cancelled, pause_status,
  cancel_status, set_paused, set_resumed, set_cancelled, cancel_plan_in_transaction,
}
use hermes_ops.Orchestrator.Gates.{is_plan}
use hermes_ops.Orchestrator.Objectives.{
  is_terminal, is_objective, add_objective_event, set_objective, is_paused, linked_plan_status,
}
use hermes_ops.Orchestrator.Tables.{Timestamp, ObjectiveStatus, Plan, Objective, Db}
use hermes_ops.Prelude.{String, Bool, true, false, not, Option, none, some, List, if◌then◌else◌}
use hermes_ops.Prelude.Json.{Fields}
use hermes_ops.Prelude.Result.{Result, ok, err}
use hermes_ops.Sql.{update_where, fetch_one}

-- The messages of `fail`.
pub data CommandError : Type 0 where
  unknown_objective cancellation_pending terminal not_paused : CommandError
  plan_disappeared integration_committed : CommandError

-- A command on a row that was found by its key.
unfoldable pub on_objective :
    Db → String → (Objective → Result CommandError Db) → Result CommandError Db
unfolding fetch_one
on_objective db objective_id command = elim (fetch_one (is_objective objective_id) db.objectives) [
  | none ↦ err CommandError.unknown_objective
  | some row ↦ command row
]

-- The last UPDATE of a command and its event.
unfoldable pub move_row : Db → Objective → String → ObjectiveStatus → (Objective → Objective) → Db
unfolding update_where add_objective_event
move_row db row event_type new f =
    add_objective_event (set_objective row.objective_id f db) row.objective_id event_type
      (some row.status) (some new) Fields.end

abbrev pub pause_write : Db → Timestamp → Objective → Db
pause_write db now row =
    let new = pause_status db row in
    move_row db row (if is_paused new then "OBJECTIVE_PAUSED" else "OBJECTIVE_PAUSE_REQUESTED") new
      (set_paused new now)

unfoldable pub pause_row : Db → Timestamp → Objective → ObjectiveStatus → Result CommandError Db
unfolding pause_status move_row
pause_row db now row ObjectiveStatus.cancel_requested = err CommandError.cancellation_pending
pause_row db now row ObjectiveStatus.completed = err CommandError.terminal
pause_row db now row ObjectiveStatus.failed = err CommandError.terminal
pause_row db now row ObjectiveStatus.cancelled = err CommandError.terminal
pause_row db now row ObjectiveStatus.paused = ok db
pause_row db now row _ = ok (pause_write db now row)

unfoldable pub command_pause : Db → String → Timestamp → Result CommandError Db
unfolding on_objective pause_row
command_pause db objective_id now =
    on_objective db objective_id (λ row. pause_row db now row row.status)

-- The plan is named but its row is gone.
unfoldable pub is_orphan : List Plan → Option String → Bool
unfolding fetch_one
is_orphan plans none = false
is_orphan plans (some plan_id) = elim (fetch_one (is_plan plan_id) plans) [
  | none ↦ true
  | some p ↦ false
]

unfoldable pub resume_row : Db → Timestamp → Objective → Result CommandError Db
unfolding resumed_status_for_plan move_row is_orphan fetch_one
resume_row db now row =
    let new = resumed_status_for_plan (linked_plan_status db.plans row.plan_id) in
    if not (is_paused row.status)
    then err CommandError.not_paused
    else if is_orphan db.plans row.plan_id
    then err CommandError.plan_disappeared
    else ok (move_row db row "OBJECTIVE_RESUMED" new (set_resumed new now))

unfoldable pub command_resume : Db → String → Timestamp → Result CommandError Db
unfolding on_objective resume_row
command_resume db objective_id now = on_objective db objective_id (resume_row db now)

unfoldable pub cancel_row : Db → Timestamp → Objective → Result CommandError Db
unfolding cancel_status move_row cancel_plan_in_transaction integration_point_of_no_return
cancel_row db now row =
    let new = cancel_status db row in
    let cleared = if is_cancelled new then cancel_plan_in_transaction db row.plan_id now else db in
    if is_terminal row.status
    then err CommandError.terminal
    else if integration_point_of_no_return db row.plan_id
    then err CommandError.integration_committed
    else ok (
        move_row cleared row
          (if is_cancelled new then "OBJECTIVE_CANCELLED" else "OBJECTIVE_CANCEL_REQUESTED") new
          (set_cancelled new now))

unfoldable pub command_cancel : Db → String → Timestamp → Result CommandError Db
unfolding on_objective cancel_row
command_cancel db objective_id now = on_objective db objective_id (cancel_row db now)
