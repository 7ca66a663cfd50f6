-- ===== src/Orchestrator/Invariant/Quiet.antt =====
-- An update that starts no task keeps the invariant: the shared part of every transaction but the
-- reservation.
use hermes_ops.Orchestrator.Gates.{has_id, is_plan, runs_in_plan, writes_to}
use hermes_ops.Orchestrator.Invariant.{is_released, is_over_budget, IsSound}
use hermes_ops.Orchestrator.Refresh.{is_completed}
use hermes_ops.Orchestrator.Refresh.Parents.{parents_done, in_order-update}
use hermes_ops.Orchestrator.Tables.{task_status_column, TaskStatus, Task, Plan, Db}
use hermes_ops.Prelude.{
  string_column, ◌≤◌, String, ◌≡◌, refl, ◌⊎◌, inl, inr, Bool, true, some, List, [], ◌∷◌, arith,
  ◌==◌, Bool-cases, ℕ, ap, Option,
}
use hermes_ops.Sql.{update_where, fetch_one, count_where}
use hermes_ops.Sql.Laws.{count-update_le}

abbrev pub SamePlans : List Plan → List Plan → Type 0
SamePlans plans plans' =
    (i : String) (p' : Plan)
    → fetch_one (is_plan i) plans' ≡ some p'
    → (p : Plan) × (fetch_one (is_plan i) plans ≡ some p)
      × (p.max_parallel_tasks ≡ p'.max_parallel_tasks)

pub SamePlans-refl : (plans : List Plan) → SamePlans plans plans
SamePlans-refl plans i p' e = (p', e, refl)

pub SamePlans-update :
    (q : Plan → Bool) (f : Plan → Plan) (plans : List Plan)
    → ((p : Plan) → (f p).plan_id ≡ p.plan_id)
    → ((p : Plan) → (f p).max_parallel_tasks ≡ p.max_parallel_tasks)
    → SamePlans plans (update_where q f plans)
unfolding fetch_one update_where
SamePlans-update q f [] hi hm i p' e = cc
SamePlans-update q f (p ∷ plans) hi hm i p' e = elim (Bool-cases (p.plan_id == i)) [
  | inl m ↦ (p, ground (arith), ground (arith, hi p, hm p))
  | inr m ↦
      let (r, found, same) = SamePlans-update q f plans hi hm i p' (ground (arith, hi p)) in
      (r, ground (arith), same)
]

-- The columns of a task that the invariant reads, but for its status.
abbrev pub frame : Task → String × String × Option String × ℕ × ℕ
frame t = (t.orchestration_task_id, t.plan_id, t.project_id, t.attempt_count, t.max_attempts)

-- An update of the tasks that changes the statuses alone of what the invariant reads, starts
-- nothing, and lets go only what was let go before or has its dependencies completed.
pub record IsQuiet (db : Db) (q : Task → Bool) (f : Task → Task) : Type 0 where
  pub same : (r : Task) → frame (f r) ≡ frame r
  pub no_start :
      (r : Task)
      → q r ≡ true
      → ((f r).status == TaskStatus.running) ≡ true
      → (r.status == TaskStatus.running) ≡ true
  pub stays :
      (r : Task) → q r ≡ true → is_completed r.status ≡ true → is_completed (f r).status ≡ true
  pub lets :
      (r : Task)
      → q r ≡ true
      → is_released (f r).status ≡ true
      → (is_released r.status ≡ true)
        ⊎ (parents_done db.dependencies db.tasks r.orchestration_task_id ≡ true)

module _ (db db' : Db) {q : Task → Bool} {f : Task → Task} (quiet : IsQuiet db q f) where
  count_update :
      (p : Task → Bool)
      → ((r : Task) → q r ≡ true → p (f r) ≡ true → p r ≡ true)
      → count_where p (update_where q f db.tasks) ≤ count_where p db.tasks
  count_update p h = count-update_le p q f db.tasks h

  -- The update of the tasks, with the dependencies left alone and no plan's limit changed.
  pub quiet-IsSound :
      db'.tasks ≡ update_where q f db.tasks
      → db'.dependencies ≡ db.dependencies
      → SamePlans db.plans db'.plans
      → IsSound db
      → IsSound db'
  quiet-IsSound et ed sp sound = record {
    task_ids = λ i. rw et (
        omega (
          arith,
          count_update (has_id i) (λ r m h. ground (arith, quiet.same r)),
          sound.task_ids i,
        ));
    one_writer = λ p. rw et (
        omega (
          arith,
          count_update (writes_to p) (λ r m h. ground (arith, quiet.same r, quiet.no_start r m)),
          sound.one_writer p,
        ));
    within_limit = λ i p' e.
        let (p, found, same) = sp i p' e in
        rw et (
          omega (
            arith,
            count_update (runs_in_plan i)
                (λ r m h. ground (arith, quiet.same r, quiet.no_start r m)),
            sound.within_limit i p found,
            same,
          ));
    in_budget = rw et (
        omega (
          arith,
          count_update is_over_budget (λ r m h. ground (arith, quiet.same r)),
          sound.in_budget,
        ));
    in_order =
        rw (et, ed)
          (in_order-update
            (record {
              same_id =
                  λ r. ap (λ (c : String × String × Option String × ℕ × ℕ). c.0) (quiet.same r);
              stays = quiet.stays;
            })
            db.dependencies db.tasks quiet.lets sound.in_order);
  }
