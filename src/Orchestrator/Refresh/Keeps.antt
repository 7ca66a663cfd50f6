-- ===== src/Orchestrator/Refresh/Keeps.antt =====
-- `refresh_plan_states` keeps the invariant.
use hermes_ops.Orchestrator.Gates.{is_plan, plan_has_authorized_integration_in_flight, in_plan}
use hermes_ops.Orchestrator.Invariant.{IsSound}
use hermes_ops.Orchestrator.Invariant.Quiet.{
  SamePlans-refl, quiet-IsSound, SamePlans, SamePlans-update,
}
use hermes_ops.Orchestrator.Refresh.{
  block_lost, release, refresh_task, refresh_tasks, refresh_plan, parent_statuses, is_lost,
  is_deferred_gate, stays_blocked, is_done, is_stuck, beat, block_plan, complete_plan, fail_plan,
  start_plan, refresh_plan_states, is_refreshable, refresh_found, before,
}
use hermes_ops.Orchestrator.Refresh.Parents.{parents_done}
use hermes_ops.Orchestrator.Tables.{
  Timestamp, Task, Db, add_event, Plan, task_status_column, TaskStatus,
}
use hermes_ops.Prelude.{
  String, ◌≡◌, refl, sym, subst, inr, true, arith, eq_iff, List, [], ◌∷◌, if_both, string_column,
  not, ◌==◌, any, Option, none, filter,
}
use hermes_ops.Sql.{fetch_one, update_where, order_by}
use mathlib.Core.Option.{some}

module _ (plan_id : String) (now : Timestamp) (db : Db) where
  block_lost-IsSound : (id : String) → IsSound db → IsSound (block_lost plan_id now db id)
  unfolding block_lost add_event
  block_lost-IsSound id sound =
      quiet-IsSound db _
        (record {
          same = λ r. refl;
          no_start = λ r m h. ground arith;
          stays = λ r m h. ground arith;
          lets = λ r m h. ground arith;
        })
        refl refl (SamePlans-refl db.plans) sound

  release-IsSound :
      (id : String)
      → parents_done db.dependencies db.tasks id ≡ true
      → IsSound db
      → IsSound (release now db id)
  unfolding release
  release-IsSound id done sound =
      quiet-IsSound db _
        (record {
          same = λ r. refl;
          no_start = λ r m h. ground arith;
          stays = λ r m h. ground arith;
          lets = λ r m h. inr (
              subst (λ i. parents_done db.dependencies db.tasks i ≡ true)
                (sym ((eq_iff r.orchestration_task_id id).0 (ground arith))) done);
        })
        refl refl (SamePlans-refl db.plans) sound

  refresh_task-IsSound : (task : Task) → IsSound db → IsSound (refresh_task plan_id now db task)
  unfolding refresh_task
  refresh_task-IsSound task sound =
      if_both IsSound (not (task.status == TaskStatus.pending)) (λ _. sound)
        (λ _.
          if_both IsSound
            (any is_lost (parent_statuses db.dependencies db.tasks task.orchestration_task_id))
            (λ _. block_lost-IsSound task.orchestration_task_id sound)
            (λ _.
              if_both IsSound (parents_done db.dependencies db.tasks task.orchestration_task_id)
                (λ done. release-IsSound task.orchestration_task_id done sound) (λ _. sound)))

refresh_tasks-IsSound :
    (plan_id : String) (now : Timestamp) (db : Db) (tasks : List Task)
    → IsSound db
    → IsSound (refresh_tasks plan_id now db tasks)
unfolding refresh_tasks
refresh_tasks-IsSound plan_id now db [] sound = sound
refresh_tasks-IsSound plan_id now db (task ∷ tasks) sound =
    refresh_tasks-IsSound plan_id now (refresh_task plan_id now db task) tasks
      (refresh_task-IsSound plan_id now db task sound)

-- Tables that differ in their plans alone, up to limits.
pub plans-IsSound :
    (db db' : Db)
    → db'.tasks ≡ db.tasks
    → db'.dependencies ≡ db.dependencies
    → SamePlans db.plans db'.plans
    → IsSound db
    → IsSound db'
plans-IsSound db db' et ed sp sound = record {
  task_ids = λ i. rw et (sound.task_ids i);
  one_writer = λ p. rw et (sound.one_writer p);
  within_limit = λ i p' e.
      let (p, found, same) = sp i p' e in rw et (omega (arith, sound.within_limit i p found, same));
  in_budget = rw et sound.in_budget;
  in_order = rw (et, ed) sound.in_order;
}

-- The plan's row alone changes, and not in its limit.
set_plan-IsSound :
    (plan_id : String) (f : Plan → Plan) (db db' : Db)
    → ((p : Plan) → (f p).plan_id ≡ p.plan_id)
    → ((p : Plan) → (f p).max_parallel_tasks ≡ p.max_parallel_tasks)
    → db'.tasks ≡ db.tasks
    → db'.dependencies ≡ db.dependencies
    → db'.plans ≡ update_where (is_plan plan_id) f db.plans
    → IsSound db
    → IsSound db'
set_plan-IsSound plan_id f db db' hi hm et ed ep =
    plans-IsSound db db' et ed (rw ep (SamePlans-update (is_plan plan_id) f db.plans hi hm))

refresh_plan-IsSound :
    (plan_id : String) (now : Timestamp) (plan : Plan) (db : Db)
    → IsSound db
    → IsSound (refresh_plan plan_id now plan db)
unfolding refresh_plan
refresh_plan-IsSound plan_id now plan db sound =
    if_both IsSound (is_deferred_gate db plan_id plan)
      (λ _.
        if_both IsSound (plan_has_authorized_integration_in_flight db plan_id)
          (λ _.
            set_plan-IsSound plan_id (beat now) db _ (λ p. refl) (λ p. refl) refl refl refl sound)
          (λ _.
            set_plan-IsSound plan_id (block_plan now) db _ (λ p. refl) (λ p. refl) refl refl refl
              sound))
      (λ _.
        if_both IsSound (stays_blocked db plan_id plan)
          (λ _.
            set_plan-IsSound plan_id (beat now) db _ (λ p. refl) (λ p. refl) refl refl refl sound)
          (λ _.
            if_both IsSound (is_done db plan_id)
              (λ _.
                set_plan-IsSound plan_id (complete_plan now) db _ (λ p. refl) (λ p. refl) refl refl
                  refl sound)
              (λ _.
                if_both IsSound (is_stuck db plan_id)
                  (λ _.
                    set_plan-IsSound plan_id (fail_plan now) db _ (λ p. refl) (λ p. refl) refl refl
                      refl sound)
                  (λ _.
                    set_plan-IsSound plan_id (start_plan now) db _ (λ p. refl) (λ p. refl) refl refl
                      refl sound))))

refresh_found-IsSound :
    (plan_id : String) (now : Timestamp) (db : Db) (found : Option Plan)
    → IsSound db
    → IsSound (refresh_found plan_id now db found)
unfolding refresh_found
refresh_found-IsSound plan_id now db none sound = sound
refresh_found-IsSound plan_id now db (some plan) sound =
    if_both IsSound (is_refreshable plan.status)
      (λ _.
        refresh_plan-IsSound plan_id now plan
          (refresh_tasks plan_id now db (order_by before (filter (in_plan plan_id) db.tasks)))
          (refresh_tasks-IsSound plan_id now db
            (order_by before (filter (in_plan plan_id) db.tasks)) sound))
      (λ _. sound)

pub refresh_plan_states-IsSound :
    (db : Db) (plan_id : String) (now : Timestamp)
    → IsSound db
    → IsSound (refresh_plan_states db plan_id now)
unfolding refresh_plan_states
refresh_plan_states-IsSound db plan_id now sound =
    refresh_found-IsSound plan_id now db (fetch_one (is_plan plan_id) db.plans) sound
