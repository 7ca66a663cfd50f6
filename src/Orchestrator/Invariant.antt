-- ===== src/Orchestrator/Invariant.antt =====
-- What holds of the tables between two transactions of the orchestrator.
pub mod Quiet
use hermes_ops.Orchestrator.Gates.{has_id, is_plan, runs_in_plan, writes_to}
use hermes_ops.Orchestrator.Refresh.{parent_statuses, is_completed}
use hermes_ops.Orchestrator.Tables.{TaskStatus, Task, Plan, Dependency, Db}
use hermes_ops.Prelude.{◌≤◌, String, ◌≡◌, Bool, true, false, not, ◌&&◌, some, List, ltb, all}
use hermes_ops.Sql.{fetch_one, count_where}

-- A task that has been let go: its dependencies must be completed.
abbrev pub is_released : TaskStatus → Bool
is_released TaskStatus.ready = true
is_released TaskStatus.running = true
is_released TaskStatus.completed = true
is_released TaskStatus.failed = true
is_released _ = false

abbrev pub is_premature : List Dependency → List Task → Task → Bool
is_premature deps tasks t =
    is_released t.status
    && not (all is_completed (parent_statuses deps tasks t.orchestration_task_id))

abbrev pub is_over_budget : Task → Bool
is_over_budget t = ltb t.max_attempts t.attempt_count

pub record IsSound (db : Db) : Type 0 where
  -- the primary key of `orchestration_tasks`
  pub task_ids : (i : String) → count_where (has_id i) db.tasks ≤ 1
  -- one active writer for each project
  pub one_writer : (p : String) → count_where (writes_to p) db.tasks ≤ 1
  -- a plan runs at most `max_parallel_tasks` of its tasks
  pub within_limit :
      (i : String) (plan : Plan)
      → fetch_one (is_plan i) db.plans ≡ some plan
      → count_where (runs_in_plan i) db.tasks ≤ plan.max_parallel_tasks
  -- no task has more attempts than its budget
  pub in_budget : count_where is_over_budget db.tasks ≡ 0
  -- no task was let go before its dependencies were completed
  pub in_order : count_where (is_premature db.dependencies db.tasks) db.tasks ≡ 0
