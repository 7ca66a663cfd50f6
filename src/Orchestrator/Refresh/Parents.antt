-- ===== src/Orchestrator/Refresh/Parents.antt =====
-- Completed dependencies stay completed under the updates that the orchestrator makes.
use hermes_ops.Orchestrator.Invariant.{is_released, is_premature}
use hermes_ops.Orchestrator.Refresh.{statuses_of, parent_statuses, is_completed}
use hermes_ops.Orchestrator.Tables.{TaskStatus, Task, Dependency}
use hermes_ops.Prelude.{String, ◌≡◌, refl, ◌⊎◌, Bool, true, ◌&&◌, List, [], ◌∷◌, ◌++◌, arith, all}
use hermes_ops.Sql.{update_where, count_where}
use hermes_ops.Sql.Laws.{count-update_le, count_mono}

abbrev pub parents_done : List Dependency → List Task → String → Bool
parents_done deps tasks task_id = all is_completed (parent_statuses deps tasks task_id)

all-append_completed :
    (xs ys : List TaskStatus)
    → all is_completed (xs ++ ys) ≡ (all is_completed xs && all is_completed ys)
all-append_completed [] ys = refl
all-append_completed (x ∷ xs) ys = ground (arith, all-append_completed xs ys)

-- An update that keeps the ids and takes no task out of COMPLETED.
pub record KeepsDone (q : Task → Bool) (f : Task → Task) : Type 0 where
  pub same_id : (r : Task) → (f r).orchestration_task_id ≡ r.orchestration_task_id
  pub stays :
      (r : Task) → q r ≡ true → is_completed r.status ≡ true → is_completed (f r).status ≡ true

module _ {q : Task → Bool} {f : Task → Task} (keep : KeepsDone q f) where
  statuses_of-update :
      (k : String) (tasks : List Task)
      → all is_completed (statuses_of k tasks) ≡ true
      → all is_completed (statuses_of k (update_where q f tasks)) ≡ true
  unfolding statuses_of update_where
  statuses_of-update k [] h = refl
  statuses_of-update k (r ∷ tasks) h =
      ground (arith, statuses_of-update k tasks, keep.same_id r, keep.stays r)

  pub parents_done-update :
      (deps : List Dependency) (tasks : List Task) (i : String)
      → parents_done deps tasks i ≡ true
      → parents_done deps (update_where q f tasks) i ≡ true
  unfolding parent_statuses
  parents_done-update [] tasks i h = refl
  parents_done-update (d ∷ deps) tasks i h = ground (
    arith,
    parents_done-update deps tasks i,
    statuses_of-update d.depends_on_task_id tasks,
    all-append_completed (statuses_of d.depends_on_task_id tasks) (parent_statuses deps tasks i),
    all-append_completed (statuses_of d.depends_on_task_id (update_where q f tasks))
        (parent_statuses deps (update_where q f tasks) i),
  )

  -- The update lets go only tasks that were let go before, or whose dependencies are completed.
  pub in_order-update :
      (deps : List Dependency) (tasks : List Task)
      → ((r : Task)
          → q r ≡ true
          → is_released (f r).status ≡ true
          → (is_released r.status ≡ true)
            ⊎ (parents_done deps tasks r.orchestration_task_id ≡ true))
      → count_where (is_premature deps tasks) tasks ≡ 0
      → count_where (is_premature deps (update_where q f tasks)) (update_where q f tasks) ≡ 0
  in_order-update deps tasks lets h =
      let le1 = count-update_le (is_premature deps (update_where q f tasks)) q f tasks (λ r m p.
        ground (
          arith,
          lets r m,
          keep.same_id r,
          parents_done-update deps tasks r.orchestration_task_id,
        )) in
      let le2 =
        count_mono (is_premature deps (update_where q f tasks)) (is_premature deps tasks) tasks
          (λ r p. ground (arith, parents_done-update deps tasks r.orchestration_task_id)) in
      omega arith
