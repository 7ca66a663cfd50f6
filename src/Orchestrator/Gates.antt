-- ===== src/Orchestrator/Gates.antt =====
-- The questions that scripts/hermesops-orchestrator.py asks of the tables before it changes them:
-- human gates, integrations in flight, busy projects, running work of an objective's plan.
use hermes_ops.Orchestrator.Tables.{
  Task, TaskStatus, task_status_column, Plan, PlanStatus, Attempt, RunStatus, ApprovalStatus,
  IntegrationDecision, IntegrationStatus, Db,
}
use hermes_ops.Prelude.{
  ℕ, String, Bool, true, false, not, Option, none, some, ◌==◌, ◌&&◌, ltb, is_some_eq, string_column,
}
use hermes_ops.Sql.{fetch_one, count_where, exists_where}

abbrev pub human_gate_error : String
human_gate_error = "waiting for human decision"

abbrev pub human_gate_deferred_error : String
human_gate_deferred_error = "waiting for in-flight integration before human decision"

abbrev pub cancellation_recovery_error : String
cancellation_recovery_error = "cancellation cleanup requires recovery"

abbrev pub cancellation_pending_error : String
cancellation_pending_error = "objective cancellation cleanup pending"

-- `WHERE orchestration_task_id = ?`
abbrev pub has_id : String → Task → Bool
has_id task_id t = t.orchestration_task_id == task_id

-- `WHERE plan_id = ?` on the plans
abbrev pub is_plan : String → Plan → Bool
is_plan plan_id p = p.plan_id == plan_id

-- `WHERE plan_id = ?` on the tasks
abbrev pub in_plan : String → Task → Bool
in_plan plan_id t = t.plan_id == plan_id

-- `WHERE plan_id = ? AND status = 'RUNNING'`
abbrev pub runs_in_plan : String → Task → Bool
runs_in_plan plan_id t = in_plan plan_id t && t.status == TaskStatus.running

-- `WHERE project_id = ? AND status = 'RUNNING'`
abbrev pub writes_to : String → Task → Bool
writes_to project_id t = is_some_eq t.project_id project_id && t.status == TaskStatus.running

abbrev pub is_pending_approval : ApprovalStatus → Bool
is_pending_approval ApprovalStatus.pending = true
is_pending_approval _ = false

abbrev pub is_approve : IntegrationDecision → Bool
is_approve IntegrationDecision.approve = true
is_approve _ = false

-- `integration.status IN ('PREPARED', 'COMPLETED', 'FAILED')`
abbrev pub is_authorized : IntegrationStatus → Bool
is_authorized IntegrationStatus.prepared = true
is_authorized IntegrationStatus.completed = true
is_authorized IntegrationStatus.failed = true
is_authorized _ = false

abbrev pub is_blocked : PlanStatus → Bool
is_blocked PlanStatus.blocked = true
is_blocked _ = false

-- The attempts that carry a run, joined with their tasks of one plan.
abbrev pub joined : Db → String → Attempt → (Task → Bool) → Bool
joined db plan_id attempt p =
    exists_where
      (λ t. t.orchestration_task_id == attempt.orchestration_task_id && in_plan plan_id t && p t)
      db.tasks

-- A pending approval of a run of one of the plan's attempts.
unfoldable pub plan_has_active_human_gate : Db → String → Bool
unfolding exists_where
plan_has_active_human_gate db plan_id =
    exists_where
      (λ approval.
        is_pending_approval approval.status
        && exists_where
            (λ attempt.
              is_some_eq attempt.run_id approval.run_id && joined db plan_id attempt (λ t. true))
            db.attempts)
      db.approvals

-- `run.status IN ('COMMITTING', 'RECOVERING') OR (run.status='COMPLETED' AND task.status='RUNNING')`
abbrev pub is_in_flight : RunStatus → Task → Bool
is_in_flight RunStatus.committing t = true
is_in_flight RunStatus.recovering t = true
is_in_flight RunStatus.completed t = t.status == TaskStatus.running
is_in_flight _ t = false

unfoldable pub plan_has_authorized_integration_in_flight : Db → String → Bool
unfolding exists_where
plan_has_authorized_integration_in_flight db plan_id =
    exists_where
      (λ attempt.
        exists_where
          (λ run.
            is_some_eq attempt.run_id run.run_id
            && joined db plan_id attempt (is_in_flight run.status)
            && exists_where
                (λ integration.
                  integration.run_id == run.run_id
                  && is_approve integration.decision
                  && is_authorized integration.status)
                db.integrations)
          db.runs)
      db.attempts

unfoldable pub plan_is_waiting_human : Db → String → Bool
unfolding fetch_one plan_has_active_human_gate
plan_is_waiting_human db plan_id = elim (fetch_one (is_plan plan_id) db.plans) [
  | none ↦ false
  | some row ↦
      plan_has_active_human_gate db plan_id
      && is_blocked row.status
      && is_some_eq row.last_error human_gate_error
]

unfoldable pub plan_has_pending_human_gate : Db → String → Bool
unfolding fetch_one plan_has_active_human_gate
plan_has_pending_human_gate db plan_id = elim (fetch_one (is_plan plan_id) db.plans) [
  | none ↦ false
  | some row ↦
      plan_has_active_human_gate db plan_id && is_some_eq row.last_error human_gate_deferred_error
]

-- Another RUNNING task of the same project; a task with no project never waits for one.
unfoldable pub project_is_busy : Db → Option String → String → Bool
unfolding count_where
project_is_busy db none task_id = false
project_is_busy db (some project_id) task_id =
    ltb 0 (count_where (λ t. writes_to project_id t && not (has_id task_id t)) db.tasks)

-- `objective_running_tasks`, with no plan there is no task.
unfoldable pub objective_running_tasks : Db → Option String → ℕ
unfolding count_where
objective_running_tasks db none = 0
objective_running_tasks db (some plan_id) = count_where (runs_in_plan plan_id) db.tasks

abbrev pub is_finished_run : RunStatus → Bool
is_finished_run RunStatus.completed = true
is_finished_run RunStatus.failed = true
is_finished_run RunStatus.cancelled = true
is_finished_run _ = false

unfoldable pub cancellation_cleanup_pending : Db → Option String → Bool
unfolding exists_where
cancellation_cleanup_pending db none = false
cancellation_cleanup_pending db (some plan_id) =
    exists_where
      (λ attempt.
        exists_where
          (λ run.
            is_some_eq attempt.run_id run.run_id
            && joined db plan_id attempt (λ t. true)
            && not (is_finished_run run.status))
          db.runs)
      db.attempts
