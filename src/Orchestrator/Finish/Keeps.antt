-- ===== src/Orchestrator/Finish/Keeps.antt =====
-- The ends of an execution keep the invariant.
use hermes_ops.Orchestrator.Finish.{
  is_running_task, finish_running_task_blocked_by_human_gate, finish_task_success, retry_or_fail,
  finish_task_failure, is_cancelling, waiting_human_cancelled, waiting_human_gated,
  finish_task_waiting_human, is_blockable_plan, gate_plan, is_starting_plan,
}
use hermes_ops.Orchestrator.Gates.{
  has_id, plan_has_active_human_gate, is_plan, plan_has_authorized_integration_in_flight,
}
use hermes_ops.Orchestrator.Invariant.{IsSound}
use hermes_ops.Orchestrator.Invariant.Quiet.{SamePlans-refl, SamePlans-update, quiet-IsSound}
use hermes_ops.Orchestrator.Tables.{
  task_status_column, Timestamp, TaskStatus, AttemptStatus, Task, Db,
}
use hermes_ops.Prelude.{
  string_column, String, ◌≡◌, refl, inl, Bool, true, not, ◌&&◌, Option, none, some, arith, ltb,
  ◌==◌, is_some_eq, if_both, if◌then◌else◌,
}
use hermes_ops.Prelude.Json.{Json}
use hermes_ops.Sql.{fetch_one, exists_where}
use hermes_ops.Sql.Laws.{update-found_guard}

module _ (db : Db) (task : Task) (attempt_id : String) (now : Timestamp) where
  pub blocked_by_gate-IsSound :
      (status : AttemptStatus) (result : Option Json) (reason : Option String)
      → IsSound db
      → IsSound
          (finish_running_task_blocked_by_human_gate db task attempt_id status result reason now)
  unfolding finish_running_task_blocked_by_human_gate
  blocked_by_gate-IsSound status result reason sound =
      quiet-IsSound db _
        (record {
          same = λ r. refl;
          no_start = λ r m h. ground arith;
          stays = λ r m h. ground arith;
          lets = λ r m h. ground arith;
        })
        refl refl (SamePlans-refl db.plans) sound

  -- A success, with or without a human gate.
  pub finish_task_success-IsSound :
      (result : Json) (authorized : Bool)
      → IsSound db
      → IsSound (finish_task_success db task attempt_id result authorized now)
  unfolding finish_task_success
  finish_task_success-IsSound result authorized sound =
      if_both IsSound (plan_has_active_human_gate db task.plan_id && not authorized)
        (λ _. blocked_by_gate-IsSound AttemptStatus.completed (some result) none sound)
        (λ _.
          quiet-IsSound db _
            (record {
              same = λ r. refl;
              no_start = λ r m h. ground arith;
              stays = λ r m h. refl;
              lets = λ r m h. inl (ground arith);
            })
            refl refl (SamePlans-refl db.plans) sound)

  waiting_human_cancelled-IsSound :
      (result : Json) → IsSound db → IsSound (waiting_human_cancelled db task attempt_id result now)
  unfolding waiting_human_cancelled
  waiting_human_cancelled-IsSound result sound =
      quiet-IsSound db _
        (record {
          same = λ r. refl;
          no_start = λ r m h. ground arith;
          stays = λ r m h. ground arith;
          lets = λ r m h. ground arith;
        })
        refl refl (SamePlans-update _ _ db.plans (λ p. refl) (λ p. refl)) sound

  waiting_human_gated-IsSound :
      (result : Json) → IsSound db → IsSound (waiting_human_gated db task attempt_id result now)
  unfolding waiting_human_gated
  waiting_human_gated-IsSound result sound =
      quiet-IsSound db _
        (record {
          same = λ r. refl;
          no_start = λ r m h. ground arith;
          stays = λ r m h. ground arith;
          lets = λ r m h. ground arith;
        })
        refl refl
        (SamePlans-update
          (λ p.
            is_plan task.plan_id p
            && (if plan_has_authorized_integration_in_flight db task.plan_id
                then is_starting_plan p.status
                else is_blockable_plan p.status))
          (gate_plan (plan_has_authorized_integration_in_flight db task.plan_id) now) db.plans
          (λ p. ground arith) (λ p. ground arith))
        sound

  -- A gate, with or without a cancellation that supersedes it.
  pub finish_task_waiting_human-IsSound :
      (result : Json)
      → IsSound db
      → IsSound (finish_task_waiting_human db task attempt_id result now)
  unfolding finish_task_waiting_human
  finish_task_waiting_human-IsSound result sound =
      if_both IsSound
        (exists_where (λ o. is_some_eq o.plan_id task.plan_id && is_cancelling o.status)
          db.objectives)
        (λ _. waiting_human_cancelled-IsSound result sound)
        (λ _. waiting_human_gated-IsSound result sound)

  -- A failure of a task that runs. The update takes any row with the task's id, so the invariant
  -- rests on the task's being in RUNNING.
  pub finish_task_failure-IsSound :
      (error : String) (current : Task)
      → fetch_one (has_id task.orchestration_task_id) db.tasks ≡ some current
      → (current.status == TaskStatus.running) ≡ true
      → IsSound db
      → IsSound (finish_task_failure db task attempt_id error now)
  unfolding finish_task_failure
  finish_task_failure-IsSound error current found runs sound =
      rw (found, finish_task_failure)
        (if_both IsSound (plan_has_active_human_gate db task.plan_id)
          (λ _. blocked_by_gate-IsSound AttemptStatus.failed none (some error) sound)
          (λ _.
            quiet-IsSound db _ {q = is_running_task task.orchestration_task_id}
              {f = retry_or_fail (ltb current.attempt_count current.max_attempts) error now}
              (record {
                same = λ r. refl;
                no_start = λ r m h. ground arith;
                stays = λ r m h. ground arith;
                lets = λ r m h. inl (ground arith);
              })
              (update-found_guard (has_id task.orchestration_task_id)
                (λ (r : Task). r.status == TaskStatus.running)
                (retry_or_fail (ltb current.attempt_count current.max_attempts) error now) db.tasks
                current found (sound.task_ids task.orchestration_task_id) runs)
              refl (SamePlans-refl db.plans) sound))
