-- ===== src/Runs/Exclusive/Integrations.antt =====
-- The transactions of scripts/hermesops-integrator.py keep the locks exclusive.
use hermes_ops.Orchestrator.Tables.{Timestamp, IntegrationDecision}
use hermes_ops.Prelude.{
  String, refl, not, Option, arith, if_both, subst, string_column, ◌==◌, ◌&&◌, nat_beq, is_some_eq,
}
use hermes_ops.Prelude.Result.{IfOk}
use hermes_ops.Runs.Exclusive.{IsExclusive}
use hermes_ops.Runs.Exclusive.Keeps.{update-IsExclusive, beat_lock-IsExclusive, release-IsExclusive}
use hermes_ops.Runs.Exclusive.Rules.{
  Exclusive, with_run-IfOk, is_reviewing-needs, IfStored, settle_review-IfStored,
}
use hermes_ops.Runs.Integrator.{ReviewAction}
use hermes_ops.Runs.Integrator.Commits.{
  IntegrationDraw, store_non_integration, record_non_integration, is_begun, is_as_seen,
  store_prepared, prepare_integration, is_prepared, is_committing, finalize_completed,
  mark_ambiguous_failure,
}
use hermes_ops.Runs.Tables.{RunRow, RunDb, is_run, locks_run}
use hermes_ops.Sql.{exists_where, count_where, delete_where}
use hermes_ops.Sql.Laws.{update-found_guard}

store_non_integration-IfStored :
    (db : RunDb) (draw : IntegrationDraw) (decision : IntegrationDecision) (action : ReviewAction)
    (run : RunRow)
    → Exclusive db
    → IfOk (IfStored Exclusive) (store_non_integration db draw decision action run)
unfolding store_non_integration
store_non_integration-IfStored db draw decision ReviewAction.integrate run x = tt
store_non_integration-IfStored db draw decision ReviewAction.reject run x =
    beat_lock-IsExclusive db.runs db.locks run.run_id draw.now x
store_non_integration-IfStored db draw decision ReviewAction.block_human run x =
    beat_lock-IsExclusive _ db.locks run.run_id draw.now (
      update-IsExclusive db.runs db.locks _ _
        (λ r. (refl, refl, λ h. is_reviewing-needs r.status (ground arith))) x)

pub record_non_integration-IsExclusive :
    (db : RunDb) (run_id owner : String) (draw : IntegrationDraw) (decision : IntegrationDecision)
    (action : ReviewAction)
    → Exclusive db
    → IfOk (IfStored Exclusive) (record_non_integration db run_id owner draw decision action)
unfolding record_non_integration
record_non_integration-IsExclusive db run_id owner draw decision action x =
    settle_review-IfStored Exclusive db run_id owner _
      (λ run e. store_non_integration-IfStored db draw decision action run x)

pub prepare_integration-IsExclusive :
    (db : RunDb) (seen : RunRow) (owner : String) (draw : IntegrationDraw)
    (decision : IntegrationDecision)
    → Exclusive db
    → IfOk (IfStored Exclusive) (prepare_integration db seen owner draw decision)
unfolding prepare_integration store_prepared
prepare_integration-IsExclusive db seen owner draw decision x =
    settle_review-IfStored Exclusive db seen.run_id owner _ (λ run e.
      if_both (IfOk (IfStored Exclusive))
        (exists_where (λ i. i.run_id == run.run_id && is_begun i.status) db.integrations) (λ _. tt)
        (λ _.
          if_both (IfOk (IfStored Exclusive)) (nat_beq (count_where (is_as_seen seen) db.runs) 1)
            (λ _. beat_lock-IsExclusive _ db.locks run.run_id draw.now (
              update-IsExclusive db.runs db.locks _ _
                (λ r. (refl, refl, λ h. is_reviewing-needs r.status (ground arith))) x))
            (λ _. tt)))

pub finalize_completed-IsExclusive :
    (db : RunDb) (run_id integration_id main_after : String) (now : Timestamp)
    → Exclusive db
    → IfOk Exclusive (finalize_completed db run_id integration_id main_after now)
unfolding finalize_completed
finalize_completed-IsExclusive db run_id integration_id main_after now x =
    with_run-IfOk Exclusive db run_id _ (λ run e.
      if_both (IfOk Exclusive) (not (is_committing run.status)) (λ _. tt)
        (λ committing.
          if_both (IfOk Exclusive) (not (is_some_eq run.result_commit main_after)) (λ _. tt)
            (λ _.
              if_both (IfOk Exclusive)
                (not (
                  exists_where (λ i. i.integration_id == integration_id && is_prepared i.status)
                    db.integrations))
                (λ _. tt)
                (λ _.
                  subst (λ runs. IsExclusive runs (delete_where (locks_run run_id) db.locks))
                    (update-found_guard (is_run run_id) (λ r. is_committing r.status) _ db.runs run
                      e (x.run_ids run_id) (ground arith))
                    (release-IsExclusive db.runs db.locks run_id _ (λ r. (refl, refl, refl)) x)))))

pub mark_ambiguous_failure-IsExclusive :
    (db : RunDb) (run : RunRow) (integration_id reason : String) (main_after : Option String)
    (now : Timestamp)
    → Exclusive db
    → Exclusive (mark_ambiguous_failure db run integration_id reason main_after now)
unfolding mark_ambiguous_failure
mark_ambiguous_failure-IsExclusive db run integration_id reason main_after now x =
    update-IsExclusive db.runs db.locks _ _ (λ r. (refl, refl, λ h. ground arith)) x
