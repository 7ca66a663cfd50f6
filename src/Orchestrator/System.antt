-- ===== src/Orchestrator/System.antt =====
-- The modelled transactions of the orchestrator and the operator's commands in any order, by any thread
-- or process: SQLite runs one `BEGIN IMMEDIATE` transaction at a time, so an execution is a sequence.
use hermes_ops.Commands.Cli
use hermes_ops.Commands.Keeps
use hermes_ops.Commands.Controller.{command_objective}
use hermes_ops.Commands.Request.{Host, Request, Draw}
use hermes_ops.Commands.Store.{Response, Store}
use hermes_ops.Orchestrator.Dispatch.{promote_planned_objective, command_activate, command_cancel}
use hermes_ops.Orchestrator.Dispatch.Keeps.{
  promote_planned_objective-IsSound, command_activate-IsSound, command_cancel-IsSound,
}
use hermes_ops.Orchestrator.Finish.{
  finish_task_success, finish_task_failure, finish_task_waiting_human,
}
use hermes_ops.Orchestrator.Finish.Keeps.{
  finish_task_success-IsSound, finish_task_waiting_human-IsSound, finish_task_failure-IsSound,
}
use hermes_ops.Orchestrator.Gates.{has_id}
use hermes_ops.Orchestrator.Invariant.{IsSound}
use hermes_ops.Orchestrator.Objectives.{synchronize_objective_states}
use hermes_ops.Orchestrator.Objectives.Keeps.{synchronize_objective_states-IsSound}
use hermes_ops.Orchestrator.Refresh.{refresh_plan_states}
use hermes_ops.Orchestrator.Refresh.Keeps.{refresh_plan_states-IsSound}
use hermes_ops.Orchestrator.Reserve.{reserve_attempt}
use hermes_ops.Orchestrator.Reserve.Start.{reserve_attempt-IsSound}
use hermes_ops.Orchestrator.Tables.{task_status_column, Timestamp, TaskStatus, Task, Db}
use hermes_ops.Prelude.{string_column, ℕ, String, ◌≡◌, Bool, true, some, ◌==◌, sym, subst}
use hermes_ops.Prelude.Json.{Json}
use hermes_ops.Prelude.Result.{ok}
use hermes_ops.Sql.{fetch_one}

pub data Step (db db' : Db) : Type 0 where
  refreshed :
      (plan_id : String) (now : Timestamp) → db' ≡ refresh_plan_states db plan_id now → Step db db'
  reserved :
      (task_id instance_id attempt_id : String) (now : Timestamp) (n : ℕ) (t : Task)
      → reserve_attempt db task_id instance_id attempt_id now ≡ ok (db', n, t)
      → Step db db'
  succeeded :
      (task : Task) (attempt_id : String) (result : Json) (authorized : Bool) (now : Timestamp)
      → db' ≡ finish_task_success db task attempt_id result authorized now
      → Step db db'
  -- a thread reports the failure of a task that it still runs
  failed :
      (task current : Task) (attempt_id error : String) (now : Timestamp)
      → fetch_one (has_id task.orchestration_task_id) db.tasks ≡ some current
      → (current.status == TaskStatus.running) ≡ true
      → db' ≡ finish_task_failure db task attempt_id error now
      → Step db db'
  gated :
      (task : Task) (attempt_id : String) (result : Json) (now : Timestamp)
      → db' ≡ finish_task_waiting_human db task attempt_id result now
      → Step db db'
  synchronized : (now : Timestamp) → db' ≡ synchronize_objective_states db now → Step db db'
  promoted :
      (objective_id plan_id : String) (now : Timestamp)
      → promote_planned_objective db objective_id now ≡ some (db', plan_id)
      → Step db db'
  activated :
      (plan_id : String) (now : Timestamp)
      → command_activate db plan_id now ≡ some db'
      → Step db db'
  cancelled :
      (plan_id : String) (now : Timestamp) → command_cancel db plan_id now ≡ ok db' → Step db db'
  -- the operator's commands, from the command line and over HTTP
  pause_commanded :
      (objective_id : String) (now : Timestamp)
      → Cli.command_pause db objective_id now ≡ ok db'
      → Step db db'
  resume_commanded :
      (objective_id : String) (now : Timestamp)
      → Cli.command_resume db objective_id now ≡ ok db'
      → Step db db'
  cancel_commanded :
      (objective_id : String) (now : Timestamp)
      → Cli.command_cancel db objective_id now ≡ ok db'
      → Step db db'
  requested :
      (host : Host) (draw : Draw) (store after : Store) (request : Request) (response : Response)
      → store.db ≡ db
      → after.db ≡ db'
      → command_objective host draw store request ≡ ok (after, response)
      → Step db db'

pub data Reach (db : Db) : Db → Type 0 where
  here : Reach db db
  next : {db' db'' : Db} → Reach db db' → Step db' db'' → Reach db db''

pub Step-IsSound : (db db' : Db) → Step db db' → IsSound db → IsSound db'
Step-IsSound db db' (refreshed plan_id now e) s =
    rw e (refresh_plan_states-IsSound db plan_id now s)
Step-IsSound db db' (reserved task_id instance_id attempt_id now n t e) s =
    reserve_attempt-IsSound db task_id instance_id attempt_id now db' n t s e
Step-IsSound db db' (succeeded task attempt_id result authorized now e) s =
    rw e (finish_task_success-IsSound db task attempt_id now result authorized s)
Step-IsSound db db' (failed task current attempt_id error now found runs e) s =
    rw e (finish_task_failure-IsSound db task attempt_id now error current found runs s)
Step-IsSound db db' (gated task attempt_id result now e) s =
    rw e (finish_task_waiting_human-IsSound db task attempt_id now result s)
Step-IsSound db db' (synchronized now e) s = rw e (synchronize_objective_states-IsSound db now s)
Step-IsSound db db' (promoted objective_id plan_id now e) s =
    promote_planned_objective-IsSound db objective_id now db' plan_id s e
Step-IsSound db db' (activated plan_id now e) s = command_activate-IsSound db plan_id now db' s e
Step-IsSound db db' (cancelled plan_id now e) s = command_cancel-IsSound db plan_id now db' s e
Step-IsSound db db' (pause_commanded objective_id now e) s =
    Keeps.command_pause-IsSound db db' objective_id now s e
Step-IsSound db db' (resume_commanded objective_id now e) s =
    Keeps.command_resume-IsSound db db' objective_id now s e
Step-IsSound db db' (cancel_commanded objective_id now e) s =
    Keeps.command_cancel-IsSound db db' objective_id now s e
Step-IsSound db db' (requested host draw store after request response e e' h) s = subst IsSound e' (
    Keeps.command_objective-IsSound host draw store after request response (subst IsSound (sym e) s)
      h)

-- From sound tables, any sequence of these transactions leads to sound tables: the refresh of a
-- plan, the reservation of an attempt, the end of a RUNNING task by success, failure or a human
-- gate, the synchronisation of the objectives, the promotion of a planned objective, the activation
-- and the cancellation of a plan, and the operator's pause, resume and cancel from the command line
-- and over HTTP. In sound tables task ids are unique, each project has at most one RUNNING task, no
-- plan has more RUNNING tasks than its `max_parallel_tasks`, no task has more attempts than its
-- `max_attempts`, and every task that is READY, RUNNING, COMPLETED or FAILED has only COMPLETED
-- dependencies. A failure is reported only for a task that is RUNNING. The recovery of interrupted
-- tasks and of cancellations, heartbeats of attempts and the insertion of a plan are not among the
-- transactions.
pub Reach-IsSound : (db db' : Db) → Reach db db' → IsSound db → IsSound db'
Reach-IsSound db db' here sound = sound
Reach-IsSound db db' (next {db' = mid} r step) sound =
    Step-IsSound mid db' step (Reach-IsSound db mid r sound)
