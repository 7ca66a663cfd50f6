-- ===== src/Commands/Closes.antt =====
-- A cancellation that is final leaves no open work in the objective's plan.
use hermes_ops.Commands.Cli
use hermes_ops.Commands.Cli.{on_objective, move_row, cancel_row}
use hermes_ops.Commands.Plans.{
  running_task_count, integration_point_of_no_return, active_run_count, is_cancelled, cancel_status,
  cancel_plan_in_transaction, set_cancelled,
}
use hermes_ops.Orchestrator.Gates.{in_plan, runs_in_plan}
use hermes_ops.Orchestrator.Objectives.{is_waiting, add_objective_event, is_objective}
use hermes_ops.Orchestrator.Tables.{Timestamp, TaskStatus, Task, Objective, Db}
use hermes_ops.Prelude.{
  String, ◌≡◌, refl, Bool, true, false, ◌&&◌, some, List, [], ◌∷◌, arith, coalesce, subst, Option,
  none, eq_iff,
}
use hermes_ops.Prelude.Result.{ok}
use hermes_ops.Sql.{update_where, fetch_one, count_where}
use hermes_ops.Sql.Laws.{fetch_one-meets}

-- A task that may still run.
abbrev pub is_open : TaskStatus → Bool
is_open TaskStatus.completed = false
is_open TaskStatus.failed = false
is_open TaskStatus.cancelled = false
is_open _ = true

abbrev pub is_open_in : String → Task → Bool
is_open_in plan_id t = in_plan plan_id t && is_open t.status

open_after :
    (plan_id : String) (f : Task → Task) (rows : List Task)
    → ((r : Task) → is_open (f r).status ≡ false)
    → count_where
        (is_open_in plan_id)
        (update_where (λ t. in_plan plan_id t && is_waiting t.status) f rows)
      ≡ count_where (runs_in_plan plan_id) rows
unfolding count_where update_where
open_after plan_id f [] closes = refl
open_after plan_id f (r ∷ rows) closes = ground (arith, open_after plan_id f rows closes, closes r)

fetch_one-update {ℓ} :
    {A : Type ℓ} (q : A → Bool) (f : A → A) (rows : List A) (t : A)
    → ((r : A) → q (f r) ≡ q r)
    → fetch_one q rows ≡ some t
    → fetch_one q (update_where q f rows) ≡ some (f t)
unfolding fetch_one update_where
fetch_one-update q f [] t same h = cc
fetch_one-update q f (r ∷ rows) t same h = ground (arith, fetch_one-update q f rows t same, same r)

module _ (db : Db) (now : Timestamp) (row : Objective) (plan_id : String)
    (planned : row.plan_id ≡ some plan_id)
    (final : is_cancelled (cancel_status db row) ≡ true) where
  nothing_runs :
      (count_where (runs_in_plan plan_id) db.tasks ≡ 0) × (active_run_count db (some plan_id) ≡ 0)
  unfolding cancel_status running_task_count
  nothing_runs = ground arith

  cancel_row-closes :
      (db' : Db)
      → cancel_row db now row ≡ ok db'
      → (count_where (is_open_in plan_id) db'.tasks ≡ 0)
        × (integration_point_of_no_return db (some plan_id) ≡ false)
  unfolding cancel_row move_row add_objective_event cancel_plan_in_transaction
  cancel_row-closes db' h =
      let closed =
        open_after plan_id
          (λ t. record t {
            status = TaskStatus.cancelled;
            heartbeat_at = some now;
            finished_at = some now;
            failure_reason = some (coalesce t.failure_reason "objective cancelled");
          })
          db.tasks (λ r. refl) in
      ground (arith, closed, nothing_runs)

cancel_plan-objectives :
    (db : Db) (plan_id : Option String) (now : Timestamp)
    → (cancel_plan_in_transaction db plan_id now).objectives ≡ db.objectives
unfolding cancel_plan_in_transaction
cancel_plan-objectives db none now = refl
cancel_plan-objectives db (some plan_id) now = refl

-- The objectives as a cancellation leaves them.
cancel_row-objectives :
    (db db' : Db) (now : Timestamp) (row : Objective)
    → cancel_row db now row ≡ ok db'
    → db'.objectives
      ≡ update_where
          (is_objective row.objective_id)
          (set_cancelled (cancel_status db row) now)
          db.objectives
unfolding cancel_row move_row add_objective_event
cancel_row-objectives db db' now row h = ground (arith, cancel_plan-objectives db row.plan_id now)

cancel_row-status :
    (db db' : Db) (now : Timestamp) (row row' : Objective) (objective_id : String)
    → fetch_one (is_objective objective_id) db.objectives ≡ some row
    → cancel_row db now row ≡ ok db'
    → fetch_one (is_objective objective_id) db'.objectives ≡ some row'
    → row'.status ≡ cancel_status db row
cancel_row-status db db' now row row' objective_id found h found' =
    let same : row.objective_id ≡ objective_id =
      (eq_iff row.objective_id objective_id).0
        (fetch_one-meets (is_objective objective_id) db.objectives row found) in
    let made = cancel_row-objectives db db' now row h in
    let updated =
      fetch_one-update (is_objective objective_id) (set_cancelled (cancel_status db row) now)
        db.objectives row (λ r. refl) found in
    ground (arith, made, updated, same, found')

-- If a cancellation of an objective with a plan leaves it CANCELLED, then no task of the plan can
-- run any more, no run of it was active, and none had passed the integration point of no return.
pub command_cancel_closes :
    (db db' : Db) (objective_id plan_id : String) (now : Timestamp) (row row' : Objective)
    → fetch_one (is_objective objective_id) db.objectives ≡ some row
    → row.plan_id ≡ some plan_id
    → Cli.command_cancel db objective_id now ≡ ok db'
    → fetch_one (is_objective objective_id) db'.objectives ≡ some row'
    → is_cancelled row'.status ≡ true
    → (count_where (is_open_in plan_id) db'.tasks ≡ 0)
      × (active_run_count db (some plan_id) ≡ 0)
      × (integration_point_of_no_return db (some plan_id) ≡ false)
unfolding Cli.command_cancel on_objective
command_cancel_closes db db' objective_id plan_id now row row' found planned h found' final =
    let done : cancel_row db now row ≡ ok db' = ground arith in
    let status = cancel_row-status db db' now row row' objective_id found done found' in
    let last : is_cancelled (cancel_status db row) ≡ true =
      subst (λ s. is_cancelled s ≡ true) status final in
    let (closed, open_gate) = cancel_row-closes db now row plan_id planned last db' done in
    (closed, (nothing_runs db now row plan_id planned last).1, open_gate)
