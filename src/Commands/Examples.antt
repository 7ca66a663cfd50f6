-- ===== src/Commands/Examples.antt =====
-- Commands at concrete tables, and the theorems at them.
use hermes_ops.Commands.Cli
use hermes_ops.Commands.Agree.{
  of_controller, of_cli, command_line, find_and_apply_alike, is_change, takes,
}
use hermes_ops.Commands.Closes.{is_open_in, command_cancel_closes}
use hermes_ops.Commands.Controller.{find_and_apply, command_objective}
use hermes_ops.Commands.Journal.{emit}
use hermes_ops.Commands.Plans.{integration_point_of_no_return, active_run_count, set_cancelled}
use hermes_ops.Commands.Replay.{command_objective_again}
use hermes_ops.Commands.Request.{Host, Request, Draw, Command, single_project_id}
use hermes_ops.Commands.Store.{Response, Store, Screen}
use hermes_ops.Orchestrator.Objectives.{is_objective}
use hermes_ops.Orchestrator.Tables.{
  TaskStatus, PlanStatus, ObjectiveStatus, TaskKind, Source, Task, Plan, Objective, Db,
  task_status_column,
}
use hermes_ops.Prelude.{
  ℕ, String, ◌≡◌, refl, subst, false, Option, none, some, [], ◌∷◌, pos, string_column, true, ◌==◌,
}
use hermes_ops.Prelude.Json.{Json, Items, Fields}
use hermes_ops.Prelude.Result.{ok, err}
use hermes_ops.Sql.{fetch_one, count_where}

abbrev web_objective : Objective
web_objective = record {
  objective_id = "objective-00000000000000000000000000000abc";
  project_scope_json = some (Json.arr (Items.cons (Json.text "web") Items.nil));
  source = Source.ai;
  status = ObjectiveStatus.running;
  priority = pos 100;
  not_before = 1;
  planning_max_attempts = 3;
  planning_attempt_count = 1;
  plan_id = some "plan-a";
  created_at = 1;
  started_at = some 2;
  heartbeat_at = 2;
  finished_at = none;
  paused_at = none;
  last_error = none;
}

abbrev web_plan : Plan
web_plan = record {
  plan_id = "plan-a";
  objective = "ship";
  source = Source.ai;
  status = PlanStatus.running;
  max_parallel_tasks = 1;
  created_at = 1;
  started_at = none;
  heartbeat_at = none;
  finished_at = none;
  last_error = none;
}

abbrev web_task : TaskStatus → Task
web_task status = record {
  orchestration_task_id = "a";
  plan_id = "plan-a";
  task_key = "a";
  kind = TaskKind.pipeline;
  project_id = some "web";
  role_id = some "worker";
  status = status;
  priority = pos 100;
  instruction = "do";
  acceptance_json = Json.null;
  marker = none;
  max_attempts = 2;
  attempt_count = 0;
  result_json = Json.obj Fields.end;
  failure_reason = none;
  created_at = 1;
  started_at = none;
  heartbeat_at = none;
  finished_at = none;
}

-- One objective, whose plan has one task.
abbrev tables : TaskStatus → Db
tables status = record {
  plans = web_plan ∷ [];
  tasks = web_task status ∷ [];
  dependencies = [];
  attempts = [];
  objectives = web_objective ∷ [];
  runs = [];
  approvals = [];
  integrations = [];
  events = [];
  objective_events = [];
}

abbrev toy_screen : Screen
toy_screen = record {
  is_forbidden = λ s. s == "secret";
  is_sensitive = λ key. key == "token";
  encoded_size = λ data_json. 200;
}

abbrev store_of : TaskStatus → Store
store_of status = record {
  db = tables status;
  idempotency = [];
  operations = [];
  audit = [];
  journal = record { screen = toy_screen; rows = []; last = 7 };
}

-- Toy hashes: the tests need only that they are functions.
abbrev toy_host : Host
toy_host = record {
  session_fingerprint = λ token. token;
  key_hash = λ token key. key;
  request_hash = λ token method route body. route;
  strip = λ s. s;
  lower = λ s. s;
}

abbrev cancel_request : Request
cancel_request = record {
  session_token = "session";
  idempotency_key = "key-00001";
  route = "/cancel";
  objective_id = "objective-00000000000000000000000000000abc";
  command = "cancel";
  body = Fields.end;
}

abbrev draw_at : ℕ → Draw
draw_at n = record { now = n; operation_id = "operation"; meta = Json.null }

-- The answer to the first request.
abbrev answer : Response
answer = record {
  operation = record {
    operation_id = "operation";
    command_kind = "objective.cancel";
    objective_id = "objective-00000000000000000000000000000abc";
    raw_state = "CANCELLED";
    created_at = 10;
  };
  meta = Json.null;
}

abbrev after_cancel : Store
after_cancel =
    elim (command_objective toy_host (draw_at 10) (store_of TaskStatus.ready) cancel_request) [
      | ok (s, r) ↦ s
      | err e ↦ store_of TaskStatus.ready
    ]

cancel_answered :
    command_objective toy_host (draw_at 10) (store_of TaskStatus.ready) cancel_request
    ≡ ok (after_cancel, answer)
unfolding command_objective
cancel_answered = refl

journal_after : after_cancel.journal.last ≡ 8
unfolding command_objective
journal_after = refl

command_objective_again_example :
    command_objective toy_host (draw_at 99) after_cancel cancel_request ≡ ok (after_cancel, answer)
command_objective_again_example =
    command_objective_again toy_host cancel_request (draw_at 10) (draw_at 99)
      (store_of TaskStatus.ready) after_cancel answer cancel_answered

-- The journal takes the events of web's changes where every state is written in one way.
abbrev plain_host : Host
plain_host = record toy_host { lower = λ s. "changed" }

web-takes :
    (event_type : String) (new : ObjectiveStatus)
    → takes plain_host
        (draw_at 10)
        (store_of TaskStatus.running)
        web_objective
        false
        (some "web")
        event_type
        new
      ≡ true
unfolding emit
web-takes event_type new = refl

web_scope :
    (row : Objective)
    → fetch_one
        (is_objective "objective-00000000000000000000000000000abc")
        (tables TaskStatus.running).objectives
      ≡ some row
    → (project : Option String) × (single_project_id row.project_scope_json ≡ ok project)
      × ((event_type : String) (new : ObjectiveStatus)
          → is_change event_type ≡ true
          → takes plain_host
              (draw_at 10)
              (store_of TaskStatus.running)
              row
              false
              project
              event_type
              new
            ≡ true)
unfolding fetch_one single_project_id
web_scope row e =
    let same : web_objective ≡ row = cc in
    subst
      (λ (r : Objective).
        (project : Option String) × (single_project_id r.project_scope_json ≡ ok project)
        × ((event_type : String) (new : ObjectiveStatus)
            → is_change event_type ≡ true
            → takes plain_host (draw_at 10) (store_of TaskStatus.running) r false project event_type
                new
              ≡ true))
      same (some "web", refl, λ event_type new h. web-takes event_type new)

find_and_apply_alike_example :
    of_controller (
      find_and_apply plain_host
        (draw_at 10)
        (store_of TaskStatus.running)
        cancel_request
        false
        Command.cancel)
    ≡ of_cli (
        command_line Command.cancel
          (tables TaskStatus.running)
          "objective-00000000000000000000000000000abc"
          10)
find_and_apply_alike_example =
    find_and_apply_alike plain_host (draw_at 10) (store_of TaskStatus.running) cancel_request false
      Command.cancel web_scope

abbrev cancelled_row : Objective
cancelled_row = set_cancelled ObjectiveStatus.cancelled 10 web_objective

abbrev cancelled_db : Db
cancelled_db =
    elim (Cli.command_cancel (tables TaskStatus.ready) "objective-00000000000000000000000000000abc"
      10) [ ok db ↦ db | err e ↦ tables TaskStatus.ready ]

cancel_done :
    (Cli.command_cancel (tables TaskStatus.ready) "objective-00000000000000000000000000000abc" 10
      ≡ ok cancelled_db)
    × (fetch_one
          (is_objective "objective-00000000000000000000000000000abc")
          (tables TaskStatus.ready).objectives
        ≡ some web_objective)
    × (fetch_one (is_objective "objective-00000000000000000000000000000abc") cancelled_db.objectives
        ≡ some cancelled_row)
unfolding Cli.command_cancel fetch_one
cancel_done = (refl, refl, refl)

command_cancel_closes_example :
    (count_where (is_open_in "plan-a") cancelled_db.tasks ≡ 0)
    × (active_run_count (tables TaskStatus.ready) (some "plan-a") ≡ 0)
    × (integration_point_of_no_return (tables TaskStatus.ready) (some "plan-a") ≡ false)
command_cancel_closes_example =
    command_cancel_closes (tables TaskStatus.ready) cancelled_db
      "objective-00000000000000000000000000000abc" "plan-a" 10 web_objective cancelled_row
      cancel_done.1 refl cancel_done.0 cancel_done.2 refl
