-- ===== src/Runs/Integrator.antt =====
-- The decisions and transactions of scripts/hermesops-integrator.py. Git and the checks of the
-- snapshot's files are outside.
pub mod Commits
use hermes_ops.Orchestrator.Gates.{is_pending_approval, joined}
use hermes_ops.Orchestrator.Tables.{
  RunStatus, ObjectiveStatus, Plan, Objective, IntegrationDecision, Db,
}
use hermes_ops.Prelude.{
  string_column, String, Bool, true, false, not, ◌&&◌, ◌||◌, Option, none, some, List, [], ◌∷◌,
  if◌then◌else◌, ◌==◌, is_some_eq, filter,
}
use hermes_ops.Prelude.Result.{Result, ◌>>=◌, ok, err}
use hermes_ops.Runs.Tables.{
  owner_mismatch, multiple_plans, lock_absent, multiple_objectives, wrong_status, RunRow, Lock,
  RunDb, locks_run, RunError, with_run,
}
use hermes_ops.Sql.{fetch_one, exists_where}

pub data Verdict : Type 0 where
  pass pass_with_debt fix security performance architecture human : Verdict

pub data ReviewAction : Type 0 where
  integrate reject block_human : ReviewAction

-- `none` is the call of `fail` at an inconsistent pair.
unfoldable pub classify_decision : IntegrationDecision → Verdict → Option ReviewAction
classify_decision IntegrationDecision.approve Verdict.pass = some ReviewAction.integrate
classify_decision IntegrationDecision.approve Verdict.pass_with_debt = some ReviewAction.integrate
classify_decision IntegrationDecision.reject Verdict.fix = some ReviewAction.reject
classify_decision IntegrationDecision.reject Verdict.security = some ReviewAction.reject
classify_decision IntegrationDecision.reject Verdict.performance = some ReviewAction.reject
classify_decision IntegrationDecision.reject Verdict.architecture = some ReviewAction.reject
classify_decision IntegrationDecision.block_human Verdict.human = some ReviewAction.block_human
classify_decision _ _ = none

-- `get_lock`, then `validate_owner`.
unfoldable pub validate_owner : RunDb → RunRow → String → Result RunError Lock
unfolding fetch_one
validate_owner db run owner = elim (fetch_one (locks_run run.run_id) db.locks) [
  | none ↦ err lock_absent
  | some lock ↦
      if owner == "" || not (is_some_eq run.transaction_owner owner)
      then err owner_mismatch
      else if lock.holder == owner && lock.project_id == run.project_id
      then ok lock
      else err owner_mismatch
]

-- An attempt of the run belongs to a task of the plan.
abbrev pub run_in_plan : Db → String → String → Bool
run_in_plan o run_id plan_id =
    exists_where
      (λ attempt. is_some_eq attempt.run_id run_id && joined o plan_id attempt (λ t. true))
      o.attempts

-- The objectives of the plans that the run's attempts belong to: `SELECT DISTINCT` by their key.
abbrev pub objectives_of_run : Db → String → List Objective
objectives_of_run o run_id =
    filter
      (λ objective. elim objective.plan_id [
        | none ↦ false
        | some plan_id ↦ run_in_plan o run_id plan_id
      ])
      o.objectives

unfoldable pub sole_status : List Objective → Result RunError (Option ObjectiveStatus)
sole_status [] = ok none
sole_status (o ∷ []) = ok (some o.status)
sole_status (o ∷ p ∷ rest) = err multiple_objectives

unfoldable pub objective_status_for_run : Db → String → Result RunError (Option ObjectiveStatus)
unfolding sole_status exists_where
objective_status_for_run o run_id = sole_status (objectives_of_run o run_id)

-- A pending approval of any run of the plan.
unfoldable pub has_pending_approval : RunDb → String → Bool
unfolding exists_where
has_pending_approval db plan_id =
    exists_where
      (λ approval.
        is_pending_approval approval.status && run_in_plan db.orchestration approval.run_id plan_id)
      db.approvals

unfoldable pub gate_of_plans : RunDb → List Plan → Result RunError Bool
unfolding has_pending_approval
gate_of_plans db [] = ok false
gate_of_plans db (p ∷ []) = ok (has_pending_approval db p.plan_id)
gate_of_plans db (p ∷ q ∷ rest) = err multiple_plans

unfoldable pub run_plan_has_active_human_gate : RunDb → String → Result RunError Bool
unfolding gate_of_plans exists_where
run_plan_has_active_human_gate db run_id =
    gate_of_plans db
      (filter (λ p. run_in_plan db.orchestration run_id p.plan_id) db.orchestration.plans)

abbrev pub is_cancelling : Option ObjectiveStatus → Bool
is_cancelling (some ObjectiveStatus.cancel_requested) = true
is_cancelling (some ObjectiveStatus.cancelled) = true
is_cancelling _ = false

abbrev pub is_reviewing : RunStatus → Bool
is_reviewing RunStatus.reviewing = true
is_reviewing _ = false

-- What an attempt to settle a review came to; the first two write nothing.
pub data Settled : Type 0 where
  cancelled blocked : Settled
  stored : RunDb → Settled

-- The checks that both ways to settle a review make first, on the row read in the transaction.
unfoldable pub settle_review :
    RunDb → String → String → (RunRow → Result RunError Settled) → Result RunError Settled
unfolding with_run validate_owner objective_status_for_run run_plan_has_active_human_gate
settle_review db run_id owner store = with_run db run_id (λ run.
    validate_owner db run owner >>= λ lock.
    if not (is_reviewing run.status)
    then err wrong_status
    else (objective_status_for_run db.orchestration run_id >>= λ status.
        if is_cancelling status
        then ok cancelled
        else (run_plan_has_active_human_gate db run_id >>= λ gate.
            if gate then ok blocked else store run)))
