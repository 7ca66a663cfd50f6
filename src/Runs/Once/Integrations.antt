-- ===== src/Runs/Once/Integrations.antt =====
-- The transactions of scripts/hermesops-integrator.py keep the count of integrations.
use hermes_ops.Orchestrator.Tables.{Timestamp, IntegrationDecision, IntegrationStatus}
use hermes_ops.Prelude.{
  string_column, String, ◌≡◌, refl, sym, subst, not, ◌&&◌, Option, some, arith, nat_beq, ◌==◌,
  if_both, ◌≤◌, true, nat_beq_iff, is_some_eq,
}
use hermes_ops.Prelude.Result.{IfOk}
use hermes_ops.Runs.Exclusive.Rules.{
  Exclusive, with_run-IfOk, IfStored, settle_review-IfStored, is_reviewing-early,
  is_prepared-opened,
}
use hermes_ops.Runs.Integrator.{ReviewAction}
use hermes_ops.Runs.Integrator.Commits.{
  IntegrationDraw, integration_of, store_non_integration, record_non_integration, is_begun,
  is_as_seen, store_prepared, prepare_integration, is_still, set_committing, is_committing,
  finalize_completed, mark_ambiguous_failure, set_integrated, prepared_with, set_ambiguous,
}
use hermes_ops.Runs.Once.{IsOnce, Once, is_opened, refused_with}
use hermes_ops.Runs.Once.Keeps.{runs-IsOnce, refused-IsOnce, opened-IsOnce, integrations-IsOnce}
use hermes_ops.Runs.Tables.{RunRow, RunDb, is_run}
use hermes_ops.Sql.{fetch_one, count_where, exists_where}
use hermes_ops.Sql.Laws.{fetch_one-meets, count-found_and}
use hermes_ops.Sql.Rows.{update-none_other}
use mathlib.Core.Option.{none}

store_non_integration-Once :
    (db : RunDb) (draw : IntegrationDraw) (decision : IntegrationDecision) (action : ReviewAction)
    (run : RunRow)
    → Once db
    → IfOk (IfStored Once) (store_non_integration db draw decision action run)
unfolding store_non_integration
store_non_integration-Once db draw decision ReviewAction.integrate run o = tt
store_non_integration-Once db draw decision ReviewAction.reject run o =
    refused-IsOnce db.runs db.integrations _ refl o
store_non_integration-Once db draw decision ReviewAction.block_human run o =
    refused-IsOnce _ db.integrations _ refl
      (runs-IsOnce db.runs db.integrations _ _ (λ r. (refl, λ h. ground arith)) o)

pub record_non_integration-Once :
    (db : RunDb) (run_id owner : String) (draw : IntegrationDraw) (decision : IntegrationDecision)
    (action : ReviewAction)
    → Once db
    → IfOk (IfStored Once) (record_non_integration db run_id owner draw decision action)
unfolding record_non_integration
record_non_integration-Once db run_id owner draw decision action o =
    settle_review-IfStored Once db run_id owner _
      (λ run e. store_non_integration-Once db draw decision action run o)

-- The one row that is as it was seen is the row that was read.
found-is_still :
    (db : RunDb) (seen run : RunRow)
    → fetch_one (is_run seen.run_id) db.runs ≡ some run
    → count_where (is_run seen.run_id) db.runs ≤ 1
    → nat_beq (count_where (is_as_seen seen) db.runs) 1 ≡ true
    → is_still seen run ≡ true
found-is_still db seen run e u one_row = ground (
  arith,
  count-found_and (is_still seen) (is_run seen.run_id) db.runs run e u,
  (nat_beq_iff (count_where (is_as_seen seen) db.runs) 1).0 one_row,
)

pub prepare_integration-Once :
    (db : RunDb) (seen : RunRow) (owner : String) (draw : IntegrationDraw)
    (decision : IntegrationDecision)
    → Exclusive db
    → Once db
    → IfOk (IfStored Once) (prepare_integration db seen owner draw decision)
unfolding prepare_integration store_prepared
prepare_integration-Once db seen owner draw decision x o =
    settle_review-IfStored Once db seen.run_id owner _ (λ run ready.
      if_both (IfOk (IfStored Once))
        (exists_where (λ i. i.run_id == run.run_id && is_begun i.status) db.integrations) (λ _. tt)
        (λ _.
          if_both (IfOk (IfStored Once)) (nat_beq (count_where (is_as_seen seen) db.runs) 1)
            (λ one_row.
              let still = found-is_still db seen run ready.found (x.run_ids seen.run_id) one_row in
              let same =
                (string_column.same_iff run.run_id seen.run_id).0
                  (fetch_one-meets (is_run seen.run_id) db.runs run ready.found) in
              let row =
                integration_of draw.integration_id run decision IntegrationStatus.prepared
                  draw.main_before none none draw.now in
              opened-IsOnce db.runs db.integrations seen.run_id (is_still seen)
                (set_committing draw.now) run row (λ r. (refl, refl)) ready.found
                (x.run_ids seen.run_id) still (is_reviewing-early run.status (ground arith)) same o)
            (λ _. tt)))

pub finalize_completed-Once :
    (db : RunDb) (run_id integration_id main_after : String) (now : Timestamp)
    → Once db
    → IfOk Once (finalize_completed db run_id integration_id main_after now)
unfolding finalize_completed
finalize_completed-Once db run_id integration_id main_after now o =
    with_run-IfOk Once db run_id _ (λ run e.
      if_both (IfOk Once) (not (is_committing run.status)) (λ _. tt)
        (λ committing.
          if_both (IfOk Once) (not (is_some_eq run.result_commit main_after)) (λ _. tt)
            (λ _.
              if_both (IfOk Once)
                (not (exists_where (prepared_with integration_id) db.integrations)) (λ _. tt)
                (λ _.
                  runs-IsOnce db.runs _ _ _ (λ r. (refl, λ h. ground arith))
                    (integrations-IsOnce db.runs db.integrations (prepared_with integration_id)
                      (set_integrated main_after now)
                      (λ i. (refl, λ h. is_prepared-opened i.status (ground arith))) o)))))

-- The integration is not one that was refused.
pub mark_ambiguous_failure-Once :
    (db : RunDb) (run : RunRow) (integration_id reason : String) (main_after : Option String)
    (now : Timestamp)
    → count_where (refused_with integration_id) db.integrations ≡ 0
    → Once db
    → Once (mark_ambiguous_failure db run integration_id reason main_after now)
unfolding mark_ambiguous_failure
mark_ambiguous_failure-Once db run integration_id reason main_after now none_refused o =
    runs-IsOnce db.runs _ _ _ (λ r. (refl, λ h. ground arith))
      (subst (IsOnce db.runs)
        (sym (
          update-none_other (λ i. not (is_opened i.status))
            (λ i. i.integration_id == integration_id) _ db.integrations none_refused))
        (integrations-IsOnce db.runs db.integrations
          (λ i. i.integration_id == integration_id && not (not (is_opened i.status)))
          (set_ambiguous reason main_after now) (λ i. (refl, λ h. ground arith)) o))
