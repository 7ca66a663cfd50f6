-- ===== src/Orchestrator/Reserve/Start.antt =====
-- A granted reservation keeps the invariant.
use hermes_ops.Orchestrator.Gates.{is_plan, runs_in_plan, has_id, writes_to, project_is_busy}
use hermes_ops.Orchestrator.Invariant.{IsSound, is_over_budget, is_premature}
use hermes_ops.Orchestrator.Refresh.Parents.{in_order-update}
use hermes_ops.Orchestrator.Reserve.{ok, is_ready_task, start_task, start_attempt, reserve_attempt}
use hermes_ops.Orchestrator.Reserve.Inversion.{CanStart-of_eligible, CanStart, reserve_attempt-ok}
use hermes_ops.Orchestrator.Tables.{Plan, task_status_column, Timestamp, TaskStatus, Task, Db}
use hermes_ops.Prelude.{
  is_some_eq, string_column, ◌+◌, ◌≤◌, String, ◌≡◌, Bool, some, List, arith, inl, inr, eq_iff, ◌==◌,
  Bool-cases, is_some_eq-some, ℕ, refl, sym, subst,
}
use hermes_ops.Sql.{update_where, fetch_one, count_where}
use hermes_ops.Sql.Laws.{one, count-update_found, count-split_found, fetch_one-meets}

module _ (db : Db) (t : Task) (now : Timestamp)
    (found : fetch_one (has_id t.orchestration_task_id) db.tasks ≡ some t) (can : CanStart db t)
    (sound : IsSound db) where
  abbrev started : List Task
  started =
      update_where (is_ready_task t.orchestration_task_id) (start_task (t.attempt_count + 1) now)
        db.tasks

  -- The rows that a test counts change by the one row that starts.
  count-started :
      (p : Task → Bool)
      → count_where p started + one (p t)
        ≡ count_where p db.tasks + one (p (start_task (t.attempt_count + 1) now t))
  count-started p = ground (
    arith,
    count-update_found p (has_id t.orchestration_task_id)
        (λ (r : Task). r.status == TaskStatus.ready) (start_task (t.attempt_count + 1) now) db.tasks
        t found (sound.task_ids t.orchestration_task_id),
    can.is_ready,
  )

  started-task_ids : (i : String) → count_where (has_id i) started ≤ 1
  started-task_ids i = ground (arith, count-started (has_id i), sound.task_ids i)

  -- No other task of the project runs, so none does.
  idle_project : (p : String) → t.project_id ≡ some p → count_where (writes_to p) db.tasks ≡ 0
  unfolding project_is_busy
  idle_project p e = ground (
    arith,
    count-split_found (writes_to p) (has_id t.orchestration_task_id) db.tasks t found
        (sound.task_ids t.orchestration_task_id),
    can.not_busy,
    can.is_ready,
    e,
  )

  started-one_writer : (p : String) → count_where (writes_to p) started ≤ 1
  started-one_writer p = elim (Bool-cases (is_some_eq t.project_id p)) [
    | inl e ↦
        ground
          (arith, count-started (writes_to p), idle_project p (is_some_eq-some t.project_id p e))
    | inr e ↦ ground (arith, count-started (writes_to p), sound.one_writer p, e)
  ]

  started-within_limit :
      (i : String) (plan : Plan)
      → fetch_one (is_plan i) db.plans ≡ some plan
      → count_where (runs_in_plan i) started ≤ plan.max_parallel_tasks
  started-within_limit i plan e = elim (Bool-cases (t.plan_id == i)) [
    | inl h ↦ rw (← (eq_iff t.plan_id i).0 h) (
        ground (
          arith,
          count-started (runs_in_plan t.plan_id),
          can.has_room,
          can.is_ready,
          can.plan_found,
          (rw (← (eq_iff t.plan_id i).0 h) at e),
        ))
    | inr h ↦ ground (arith, count-started (runs_in_plan i), sound.within_limit i plan e, h)
  ]

  started-in_budget : count_where is_over_budget started ≡ 0
  started-in_budget = ground (arith, count-started is_over_budget, sound.in_budget, can.in_budget)

  started-in_order : count_where (is_premature db.dependencies started) started ≡ 0
  started-in_order =
      in_order-update (record { same_id = λ r. refl; stays = λ r m c. ground arith })
        db.dependencies db.tasks (λ r m l. inl (ground arith)) sound.in_order

  -- A granted start keeps the invariant.
  pub start_attempt-IsSound :
      (instance_id attempt_id : String) → IsSound (start_attempt db t instance_id attempt_id now)
  unfolding start_attempt
  start_attempt-IsSound instance_id attempt_id = record {
    task_ids = started-task_ids;
    one_writer = started-one_writer;
    within_limit = started-within_limit;
    in_budget = started-in_budget;
    in_order = started-in_order;
  }

-- A reservation, granted or refused, leaves the tables sound: a granted one starts the task found,
-- and no other writer of its project, no full plan and no spent budget lets it through.
pub reserve_attempt-IsSound :
    (db : Db) (task_id instance_id attempt_id : String) (now : Timestamp) (db' : Db) (n : ℕ)
    (t : Task)
    → IsSound db
    → reserve_attempt db task_id instance_id attempt_id now ≡ ok (db', n, t)
    → IsSound db'
reserve_attempt-IsSound db task_id instance_id attempt_id now db' n t sound h =
    let (found, eligible, written) =
      reserve_attempt-ok db task_id instance_id attempt_id now db' n t h in
    let same =
      (eq_iff t.orchestration_task_id task_id).0
        (fetch_one-meets (has_id task_id) db.tasks t found) in
    rw written (
      start_attempt-IsSound db t now
        (subst (λ k. fetch_one (has_id k) db.tasks ≡ some t) (sym same) found)
        (CanStart-of_eligible db t eligible) sound instance_id attempt_id)
