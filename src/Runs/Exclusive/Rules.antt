-- ===== src/Runs/Exclusive/Rules.antt =====
-- What the transactions' proofs share.
use hermes_ops.Orchestrator.Tables.{RunStatus, IntegrationStatus, ObjectiveStatus}
use hermes_ops.Prelude.{
  String, ◌≡◌, refl, some, arith, option_both, string_column, true, not, if_both, ap, ◌∙◌, false,
  Option,
}
use hermes_ops.Prelude.Result.{Result, IfOk, IfOk-bind, ok}
use hermes_ops.Runs.Assess.{is_snapshotting, is_resumable}
use hermes_ops.Runs.Exclusive.{IsExclusive, needs_lock}
use hermes_ops.Runs.Integrator.{
  stored, is_cancelling, is_reviewing, validate_owner, objective_status_for_run,
  run_plan_has_active_human_gate, Settled, settle_review,
}
use hermes_ops.Runs.Integrator.Commits.{is_prepared}
use hermes_ops.Runs.Once.{is_early, is_opened}
use hermes_ops.Runs.Tables.{RunRow, RunDb, is_run, RunError, with_run, Lock}
use hermes_ops.Runs.Transaction.{is_running}
use hermes_ops.Sql.{fetch_one}

abbrev pub Exclusive : RunDb → Type 0
Exclusive db = IsExclusive db.runs db.locks

pub with_run-IfOk :
    {A : Type 0} (P : A → Type 0) (db : RunDb) (run_id : String)
    (use_run : RunRow → Result RunError A)
    → ((run : RunRow) → fetch_one (is_run run_id) db.runs ≡ some run → IfOk P (use_run run))
    → IfOk P (with_run db run_id use_run)
unfolding with_run
with_run-IfOk P db run_id use_run h =
    option_both (IfOk P) (fetch_one (is_run run_id) db.runs) (λ e. tt) h

pub is_running-needs : (s : RunStatus) → is_running s ≡ true → needs_lock s ≡ true
is_running-needs RunStatus.running h = refl
is_running-needs _ h = absurd (ground arith)

pub is_reviewing-needs : (s : RunStatus) → is_reviewing s ≡ true → needs_lock s ≡ true
is_reviewing-needs RunStatus.reviewing h = refl
is_reviewing-needs _ h = absurd (ground arith)

-- Of what a review settles to, only a stored table is looked at.
abbrev pub IfStored : (RunDb → Type 0) → Settled → Type 0
IfStored P (stored db) = P db
IfStored P _ = Unit

-- What `settle_review` has checked before it stores anything.
pub record IsSettleable (db : RunDb) (run_id owner : String) (run : RunRow) : Type 0 where
  pub found : fetch_one (is_run run_id) db.runs ≡ some run
  pub lock : Lock
  pub owned : validate_owner db run owner ≡ ok lock
  pub reviewing : is_reviewing run.status ≡ true
  pub objective_status : Option ObjectiveStatus
  pub objective : objective_status_for_run db.orchestration run_id ≡ ok objective_status
  pub goes_on : is_cancelling objective_status ≡ false
  pub ungated : run_plan_has_active_human_gate db run_id ≡ ok false

pub settle_review-IfStored :
    (P : RunDb → Type 0) (db : RunDb) (run_id owner : String)
    (store : RunRow → Result RunError Settled)
    → ((run : RunRow) → IsSettleable db run_id owner run → IfOk (IfStored P) (store run))
    → IfOk (IfStored P) (settle_review db run_id owner store)
unfolding settle_review
settle_review-IfStored P db run_id owner store h = with_run-IfOk (IfStored P) db run_id _ (λ run e.
    IfOk-bind (IfStored P) (validate_owner db run owner) _ (λ lock l.
      if_both (IfOk (IfStored P)) (not (is_reviewing run.status)) (λ _. tt)
        (λ r.
          IfOk-bind (IfStored P) (objective_status_for_run db.orchestration run_id) _ (λ status o.
            if_both (IfOk (IfStored P)) (is_cancelling status) (λ _. tt)
              (λ c. IfOk-bind (IfStored P) (run_plan_has_active_human_gate db run_id) _ (λ gate g.
                if_both (IfOk (IfStored P)) gate (λ _. tt)
                  (λ none_active. h run (record {
                    found = e;
                    lock = lock;
                    owned = l;
                    reviewing = ground arith;
                    objective_status = status;
                    objective = o;
                    goes_on = c;
                    ungated = g ∙ ap ok none_active;
                  }))))))))

pub is_snapshotting-early : (s : RunStatus) → is_snapshotting s ≡ true → is_early s ≡ true
is_snapshotting-early RunStatus.snapshotting h = refl
is_snapshotting-early _ h = absurd (ground arith)

pub is_running-early : (s : RunStatus) → is_running s ≡ true → is_early s ≡ true
is_running-early RunStatus.running h = refl
is_running-early _ h = absurd (ground arith)

pub is_reviewing-early : (s : RunStatus) → is_reviewing s ≡ true → is_early s ≡ true
is_reviewing-early RunStatus.reviewing h = refl
is_reviewing-early _ h = absurd (ground arith)

pub is_prepared-opened : (s : IntegrationStatus) → is_prepared s ≡ true → is_opened s ≡ true
is_prepared-opened IntegrationStatus.prepared h = refl
is_prepared-opened _ h = absurd (ground arith)

pub is_resumable-opened : (s : IntegrationStatus) → is_resumable s ≡ true → is_opened s ≡ true
is_resumable-opened IntegrationStatus.prepared h = refl
is_resumable-opened IntegrationStatus.failed h = refl
is_resumable-opened _ h = absurd (ground arith)
