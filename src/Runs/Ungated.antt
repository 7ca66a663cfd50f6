-- ===== src/Runs/Ungated.antt =====
-- What the checks of the objective and of the human gate in scripts/hermesops-integrator.py show,
-- approval by approval and objective by objective.
-- A pending approval of a run that shares a plan with this one.
use hermes_ops.Runs.Integrator.{is_cancelling}
use hermes_ops.Orchestrator.Gates.{is_pending_approval}
use hermes_ops.Orchestrator.Tables.{ObjectiveStatus, Plan, Objective, Db}
use hermes_ops.Prelude.{
  String, ◌≡◌, refl, ap, ◌∙◌, Bool, true, false, ◌&&◌, Option, none, some, List, [], ◌∷◌, arith,
  filter,
}
use hermes_ops.Prelude.Result.{ok}
use hermes_ops.Runs.Integrator.{
  run_in_plan, sole_status, objective_status_for_run, has_pending_approval, gate_of_plans,
  run_plan_has_active_human_gate,
}
use hermes_ops.Runs.Tables.{ApprovalRow, RunDb}
use hermes_ops.Sql.{exists_where}

abbrev pub waits_beside : Db → String → ApprovalRow → Bool
waits_beside o run_id a =
    is_pending_approval a.status
    && exists_where
        (λ plan. run_in_plan o run_id plan.plan_id && run_in_plan o a.run_id plan.plan_id) o.plans

abbrev pub is_ending : ObjectiveStatus → Bool
is_ending ObjectiveStatus.cancel_requested = true
is_ending ObjectiveStatus.cancelled = true
is_ending _ = false

abbrev pub aims_at : Db → String → Objective → Bool
aims_at o run_id objective = elim objective.plan_id [
  | none ↦ false
  | some plan_id ↦ run_in_plan o run_id plan_id
]

exists-filter :
    {A : Type 0} (p q : A → Bool) (rows : List A)
    → exists_where (λ a. p a && q a) rows ≡ exists_where q (filter p rows)
unfolding exists_where
exists-filter p q [] = refl
exists-filter p q (a ∷ rows) = ground (arith, exists-filter p q rows)

not_ending : (s : ObjectiveStatus) → is_cancelling (some s) ≡ false → is_ending s ≡ false
not_ending ObjectiveStatus.cancel_requested h = cc
not_ending ObjectiveStatus.cancelled h = cc
not_ending _ h = ground arith

sole_wanted :
    (found : List Objective) (status : Option ObjectiveStatus)
    → sole_status found ≡ ok status
    → is_cancelling status ≡ false
    → exists_where (λ o. is_ending o.status) found ≡ false
unfolding sole_status exists_where
sole_wanted [] status h c = refl
sole_wanted (o ∷ []) status h c =
    let same : some o.status ≡ status = cc in
    ground (arith, not_ending o.status (ap is_cancelling same ∙ c))
sole_wanted (o ∷ p ∷ rest) status h c = cc

pub objective_wanted :
    (o : Db) (run_id : String) (status : Option ObjectiveStatus)
    → objective_status_for_run o run_id ≡ ok status
    → is_cancelling status ≡ false
    → exists_where
        (λ objective. aims_at o run_id objective && is_ending objective.status)
        o.objectives
      ≡ false
unfolding objective_status_for_run
objective_wanted o run_id status h c =
    exists-filter (aims_at o run_id) (λ objective. is_ending objective.status) o.objectives
    ∙ sole_wanted (filter (aims_at o run_id) o.objectives) status h c

exists-never :
    {A : Type 0} (p : A → Bool) (rows : List A)
    → ((a : A) → p a ≡ false)
    → exists_where p rows ≡ false
unfolding exists_where
exists-never p [] h = refl
exists-never p (a ∷ rows) h = ground (arith, exists-never p rows h, h a)

pub exists-congr :
    {A : Type 0} (p q : A → Bool) (rows : List A)
    → ((a : A) → p a ≡ q a)
    → exists_where p rows ≡ exists_where q rows
unfolding exists_where
exists-congr p q [] h = refl
exists-congr p q (a ∷ rows) h = ground (arith, exists-congr p q rows h, h a)

-- A pending approval of a run of one of these plans.
abbrev waits_in : Db → List Plan → ApprovalRow → Bool
waits_in o plans a =
    is_pending_approval a.status && exists_where (λ plan. run_in_plan o a.run_id plan.plan_id) plans

plans_ungated :
    (db : RunDb) (plans : List Plan)
    → gate_of_plans db plans ≡ ok false
    → exists_where (waits_in db.orchestration plans) db.approvals ≡ false
unfolding gate_of_plans has_pending_approval exists_where
plans_ungated db [] h = exists-never (waits_in db.orchestration []) db.approvals (λ a. ground arith)
plans_ungated db (p ∷ []) h =
    exists-congr (waits_in db.orchestration (p ∷ []))
      (λ a. is_pending_approval a.status && run_in_plan db.orchestration a.run_id p.plan_id)
      db.approvals (λ a. ground arith)
    ∙ cc
plans_ungated db (p ∷ q ∷ rest) h = cc

pub run_ungated :
    (db : RunDb) (run_id : String)
    → run_plan_has_active_human_gate db run_id ≡ ok false
    → exists_where (waits_beside db.orchestration run_id) db.approvals ≡ false
unfolding run_plan_has_active_human_gate
run_ungated db run_id h =
    exists-congr (waits_beside db.orchestration run_id) _ db.approvals (λ a.
      ap (λ b. is_pending_approval a.status && b)
        (exists-filter (λ plan. run_in_plan db.orchestration run_id plan.plan_id)
          (λ plan. run_in_plan db.orchestration a.run_id plan.plan_id) db.orchestration.plans))
    ∙ plans_ungated db
        (filter (λ p. run_in_plan db.orchestration run_id p.plan_id) db.orchestration.plans) h
