-- ===== src/Orchestrator/Reserve/Inversion.antt =====
-- What a granted reservation tells of the tables, and what it writes.
use hermes_ops.Orchestrator.Gates.{
  has_id, is_plan, runs_in_plan, plan_has_active_human_gate, project_is_busy,
}
use hermes_ops.Orchestrator.Reserve.{
  start_attempt, ok, is_active_plan, reservation_ineligibility_reason, reserve_attempt,
}
use hermes_ops.Orchestrator.Tables.{Timestamp, TaskStatus, Task, Plan, Db}
use hermes_ops.Prelude.{ℕ, ◌<◌, String, ◌≡◌, true, false, none, some, inl, inr, arith, Option-cases}
use hermes_ops.Sql.{fetch_one, count_where}

module _ (db : Db) (task_id instance_id attempt_id : String) (now : Timestamp) where
  -- A reservation that is granted has found the task, has no reason against it, and writes
  -- `start_attempt`.
  pub reserve_attempt-ok :
      (db' : Db) (n : ℕ) (t : Task)
      → reserve_attempt db task_id instance_id attempt_id now ≡ ok (db', n, t)
      → (fetch_one (has_id task_id) db.tasks ≡ some t)
        × (reservation_ineligibility_reason db t ≡ none)
        × (db' ≡ start_attempt db t instance_id attempt_id now)
  unfolding reserve_attempt
  reserve_attempt-ok db' n t h = ground arith

module _ (db : Db) (t : Task) where
  -- The conditions of a start.
  pub record CanStart : Type 0 where
    pub plan : Plan
    pub is_ready : t.status ≡ TaskStatus.ready
    pub in_budget : t.attempt_count < t.max_attempts
    pub plan_found : fetch_one (is_plan t.plan_id) db.plans ≡ some plan
    pub plan_active : is_active_plan plan.status ≡ true
    pub no_gate : plan_has_active_human_gate db t.plan_id ≡ false
    pub has_room : count_where (runs_in_plan t.plan_id) db.tasks < plan.max_parallel_tasks
    pub not_busy : project_is_busy db t.project_id t.orchestration_task_id ≡ false

  pub CanStart-of_eligible : reservation_ineligibility_reason db t ≡ none → CanStart
  unfolding reservation_ineligibility_reason
  CanStart-of_eligible h = elim (Option-cases (fetch_one (is_plan t.plan_id) db.plans)) [
    | inl e ↦ ground arith
    | inr (plan, e) ↦ record {
      plan = plan;
      is_ready = ground arith;
      in_budget = ground arith;
      plan_found = e;
      plan_active = ground arith;
      no_gate = ground arith;
      has_room = ground arith;
      not_busy = ground arith;
    }
  ]
