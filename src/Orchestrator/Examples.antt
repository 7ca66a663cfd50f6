-- ===== src/Orchestrator/Examples.antt =====
-- Tests of the orchestrator's transactions, and its theorems at concrete tables.
use hermes_ops.Orchestrator.Finish.{finish_task_failure}
use hermes_ops.Orchestrator.Invariant.{IsSound}
use hermes_ops.Orchestrator.Refresh.{parent_statuses, refresh_plan_states}
use hermes_ops.Orchestrator.Refresh.Keeps.{refresh_plan_states-IsSound}
use hermes_ops.Orchestrator.Reserve.{Refusal, start_task, start_attempt, reserve_attempt}
use hermes_ops.Orchestrator.Reserve.Start.{reserve_attempt-IsSound}
use hermes_ops.Orchestrator.System.{failed, reserved, refreshed, here, next, Reach, Reach-IsSound}
use hermes_ops.Orchestrator.Tables.{TaskStatus, PlanStatus, TaskKind, Source, Task, Plan, Db}
use hermes_ops.Prelude.{ℕ, String, ◌≡◌, refl, none, some, [], ◌∷◌, arith, eq_iff, pos, map}
use hermes_ops.Prelude.Json.{Json, Fields}
use hermes_ops.Prelude.Members.{count}
use hermes_ops.Prelude.Result.{ok, err}
use hermes_ops.Sql.{fetch_one, count_where, update_where}

abbrev plan_a : Plan
plan_a = record {
  plan_id = "plan-a";
  objective = "ship";
  source = Source.test;
  status = PlanStatus.running;
  max_parallel_tasks = 2;
  created_at = 1;
  started_at = none;
  heartbeat_at = none;
  finished_at = none;
  last_error = none;
}

-- A task of the plan with an id, a project, a status and a number of attempts made.
abbrev task_of : String → String → TaskStatus → ℕ → Task
task_of id project status count = record {
  orchestration_task_id = id;
  plan_id = "plan-a";
  task_key = id;
  kind = TaskKind.pipeline;
  project_id = some project;
  role_id = some "worker";
  status = status;
  priority = pos 100;
  instruction = "do";
  acceptance_json = Json.null;
  marker = none;
  max_attempts = 2;
  attempt_count = count;
  result_json = Json.obj Fields.end;
  failure_reason = none;
  created_at = 1;
  started_at = none;
  heartbeat_at = none;
  finished_at = none;
}

-- Task "b" depends on task "a", of the same project.
abbrev tables : TaskStatus → ℕ → TaskStatus → Db
tables first count second = record {
  plans = plan_a ∷ [];
  tasks = task_of "a" "web" first count ∷ task_of "b" "web" second 0 ∷ [];
  dependencies =
      record { plan_id = "plan-a"; orchestration_task_id = "b"; depends_on_task_id = "a" } ∷ [];
  attempts = [];
  objectives = [];
  runs = [];
  approvals = [];
  integrations = [];
  events = [];
  objective_events = [];
}

abbrev fresh : Db
fresh = tables TaskStatus.pending 0 TaskStatus.pending

fresh-IsSound : IsSound fresh
unfolding count_where fetch_one parent_statuses
fresh-IsSound = record {
  task_ids = λ i. ground (arith, eq_iff "a" i, eq_iff "b" i, eq_iff "a" "b");
  one_writer = λ p. ground arith;
  within_limit = λ i plan e. ground arith;
  in_budget = refl;
  in_order = refl;
}

-- The first task is let go, the second waits for it.
abbrev refreshed_db : Db
refreshed_db = refresh_plan_states fresh "plan-a" 5

abbrev ready_a : Task
ready_a = record (task_of "a" "web" TaskStatus.ready 0) { heartbeat_at = some 5 }

refresh_releases : refreshed_db.tasks ≡ ready_a ∷ task_of "b" "web" TaskStatus.pending 0 ∷ []
unfolding refresh_plan_states
refresh_releases = refl

abbrev reserved_db : Db
reserved_db = start_attempt refreshed_db ready_a "i" "attempt-1" 6

reserve_a : reserve_attempt refreshed_db "a" "i" "attempt-1" 6 ≡ ok (reserved_db, 1, ready_a)
unfolding reserve_attempt refresh_plan_states start_attempt
reserve_a = refl

reserve_b_refused :
    reserve_attempt refreshed_db "b" "i" "attempt-2" 6
    ≡ err (Refusal.task_not_ready TaskStatus.pending)
unfolding reserve_attempt refresh_plan_states
reserve_b_refused = refl

abbrev failed_db : Db
failed_db = finish_task_failure reserved_db ready_a "attempt-1" "boom" 7

abbrev running_a : Task
running_a = start_task 1 6 ready_a

run_of_a : Reach fresh failed_db
unfolding reserve_attempt refresh_plan_states start_attempt fetch_one update_where
run_of_a =
    next
      (next (next here (refreshed "plan-a" 5 refl))
        (reserved "a" "i" "attempt-1" 6 1 ready_a reserve_a))
      (failed ready_a running_a "attempt-1" "boom" 7 refl refl refl)

Reach-IsSound_example : IsSound failed_db
Reach-IsSound_example = Reach-IsSound fresh failed_db run_of_a fresh-IsSound

retry_of_a :
    map {B = TaskStatus × ℕ} (λ t. (t.status, t.attempt_count)) failed_db.tasks
    ≡ (TaskStatus.ready, 1) ∷ (TaskStatus.pending, 0) ∷ []
unfolding refresh_plan_states start_attempt finish_task_failure
retry_of_a = refl

reserve_attempt-IsSound_example : IsSound reserved_db
reserve_attempt-IsSound_example =
    reserve_attempt-IsSound refreshed_db "a" "i" "attempt-1" 6 reserved_db 1 ready_a
      (refresh_plan_states-IsSound fresh "plan-a" 5 fresh-IsSound) reserve_a
