-- ===== src/Runs/Integrator/Commits.antt =====
-- The transactions of scripts/hermesops-integrator.py: a review that integrates nothing, and the
-- three of an integration.
use hermes_ops.Orchestrator.Tables.{
  Timestamp, RunStatus, ApprovalStatus, IntegrationDecision, IntegrationStatus,
}
use hermes_ops.Prelude.{
  string_column, String, Bool, true, false, not, ◌&&◌, Option, none, some, [], ◌∷◌, ◌++◌, nat_beq,
  if◌then◌else◌, ◌==◌, is_some_eq,
}
use hermes_ops.Prelude.Result.{Result, ok, err}
use hermes_ops.Runs.Integrator.{stored, ReviewAction, is_reviewing, Settled, settle_review}
use hermes_ops.Runs.Tables.{
  integration_absent, run_changed, wrong_commit, unsupported_action, duplicate_integration,
  wrong_status, RecoveryDecision, RunRow, IntegrationRow, RunDb, is_run, locks_run, add_run_event,
  beat_lock, RunError, with_run,
}
use hermes_ops.Sql.{update_where, count_where, exists_where, delete_where}

-- The row of `insert_integration`.
abbrev pub integration_of :
    String
    → RunRow
    → IntegrationDecision
    → IntegrationStatus
    → Option String
    → Option String
    → Option Timestamp
    → Timestamp
    → IntegrationRow
integration_of id run decision status main_before approval_id finished_at now = record {
  integration_id = id;
  run_id = run.run_id;
  decision = decision;
  status = status;
  reviewed_commit = run.result_commit;
  main_after = main_before;
  approval_id = approval_id;
  failure_reason = none;
  created_at = now;
  finished_at = finished_at;
}

-- The identifiers that a call draws, and the commit that the default branch is at.
pub record IntegrationDraw : Type 0 where
  pub integration_id : String
  pub approval_id : String
  pub main_before : Option String
  pub now : Timestamp

abbrev pub set_waiting : Timestamp → RunRow → RunRow
set_waiting now r = record r {
  status = RunStatus.waiting_human;
  recovery_decision = some RecoveryDecision.block_human;
  heartbeat_at = now;
}

unfoldable pub store_non_integration :
    RunDb → IntegrationDraw → IntegrationDecision → ReviewAction → RunRow → Result RunError Settled
unfolding update_where
store_non_integration db draw decision ReviewAction.reject run =
    let row =
      integration_of draw.integration_id run decision IntegrationStatus.rejected draw.main_before
        none (some draw.now) draw.now in
    ok (
      stored (
        add_run_event
          (record db {
            integrations = db.integrations ++ row ∷ [];
            locks = beat_lock run.run_id draw.now db.locks;
          })
          run "INTEGRATION_REJECTED" "WARNING"))
store_non_integration db draw decision ReviewAction.block_human run =
    let row =
      integration_of draw.integration_id run decision IntegrationStatus.blocked draw.main_before
        (some draw.approval_id) (some draw.now) draw.now in
    ok (
      stored (
        add_run_event
          (record db {
            approvals =
                db.approvals
                ++ record {
                  approval_id = draw.approval_id;
                  run_id = run.run_id;
                  status = ApprovalStatus.pending;
                  created_at = draw.now;
                  resolved_at = none;
                }
                  ∷ [];
            runs =
                update_where (λ r. is_run run.run_id r && is_reviewing r.status)
                  (set_waiting draw.now) db.runs;
            integrations = db.integrations ++ row ∷ [];
            locks = beat_lock run.run_id draw.now db.locks;
          })
          run "INTEGRATION_BLOCKED_HUMAN" "WARNING"))
store_non_integration db draw decision ReviewAction.integrate run = err unsupported_action

unfoldable pub record_non_integration :
    RunDb
    → String
    → String
    → IntegrationDraw
    → IntegrationDecision
    → ReviewAction
    → Result RunError Settled
unfolding settle_review store_non_integration
record_non_integration db run_id owner draw decision action =
    settle_review db run_id owner (store_non_integration db draw decision action)

-- `status IN ('PREPARED', 'COMPLETED')`
abbrev pub is_begun : IntegrationStatus → Bool
is_begun IntegrationStatus.prepared = true
is_begun IntegrationStatus.completed = true
is_begun _ = false

-- `column = ?` where both may be NULL: NULL equals nothing.
abbrev pub same_commit : Option String → Option String → Bool
same_commit a none = false
same_commit a (some b) = is_some_eq a b

-- The guard of the UPDATE to COMMITTING; `seen` is the row that the review was validated against.
abbrev pub is_still : RunRow → RunRow → Bool
is_still seen r =
    is_reviewing r.status
    && same_commit r.result_commit seen.result_commit
    && same_commit r.base_commit seen.base_commit

abbrev pub is_as_seen : RunRow → RunRow → Bool
is_as_seen seen r = is_run seen.run_id r && is_still seen r

abbrev pub set_committing : Timestamp → RunRow → RunRow
set_committing now r = record r { status = RunStatus.committing; heartbeat_at = now }

unfoldable pub store_prepared :
    RunDb → IntegrationDraw → IntegrationDecision → RunRow → RunRow → Result RunError Settled
unfolding update_where count_where exists_where
store_prepared db draw decision seen run =
    let row =
      integration_of draw.integration_id run decision IntegrationStatus.prepared draw.main_before
        none none draw.now in
    if exists_where (λ i. i.run_id == run.run_id && is_begun i.status) db.integrations
    then err duplicate_integration
    else if nat_beq (count_where (is_as_seen seen) db.runs) 1
    then ok (
        stored (
          add_run_event
            (record db {
              integrations = db.integrations ++ row ∷ [];
              runs = update_where (is_as_seen seen) (set_committing draw.now) db.runs;
              locks = beat_lock run.run_id draw.now db.locks;
            })
            run "INTEGRATION_PREPARED" "INFO"))
    else err run_changed

-- The first transaction of `integrate_approved`.
unfoldable pub prepare_integration :
    RunDb → RunRow → String → IntegrationDraw → IntegrationDecision → Result RunError Settled
unfolding settle_review store_prepared
prepare_integration db seen owner draw decision =
    settle_review db seen.run_id owner (store_prepared db draw decision seen)

abbrev pub is_prepared : IntegrationStatus → Bool
is_prepared IntegrationStatus.prepared = true
is_prepared _ = false

abbrev pub is_committing : RunStatus → Bool
is_committing RunStatus.committing = true
is_committing _ = false

abbrev pub set_completed : Option RecoveryDecision → Timestamp → RunRow → RunRow
set_completed decision now r = record r {
  status = RunStatus.completed;
  recovery_decision = decision;
  finished_at = some now;
  heartbeat_at = now;
}

abbrev pub set_integrated : String → Timestamp → IntegrationRow → IntegrationRow
set_integrated main_after now i = record i {
  status = IntegrationStatus.completed;
  main_after = some main_after;
  finished_at = some now;
}

-- The PREPARED integration with this key.
abbrev pub prepared_with : String → IntegrationRow → Bool
prepared_with integration_id i = i.integration_id == integration_id && is_prepared i.status

-- `main_after` is the commit that the default branch came to.
unfoldable pub finalize_completed :
    RunDb → String → String → String → Timestamp → Result RunError RunDb
unfolding with_run update_where delete_where exists_where
finalize_completed db run_id integration_id main_after now = with_run db run_id (λ run.
    if not (is_committing run.status)
    then err wrong_status
    else if not (is_some_eq run.result_commit main_after)
    then err wrong_commit
    else if not (exists_where (prepared_with integration_id) db.integrations)
    then err integration_absent
    else ok (
        add_run_event
          (record db {
            integrations =
                update_where (prepared_with integration_id) (set_integrated main_after now)
                  db.integrations;
            locks = delete_where (locks_run run_id) db.locks;
            runs =
                update_where (λ r. is_run run_id r && is_committing r.status)
                  (set_completed none now) db.runs;
          })
          run "INTEGRATION_COMPLETED" "INFO"))

-- `COALESCE(?, column)`
abbrev pub or_else : Option String → Option String → Option String
or_else none b = b
or_else (some a) b = some a

abbrev pub set_ambiguous : String → Option String → Timestamp → IntegrationRow → IntegrationRow
set_ambiguous reason main_after now i = record i {
  status = IntegrationStatus.failed;
  main_after = or_else main_after i.main_after;
  failure_reason = some reason;
  finished_at = some now;
}

unfoldable pub mark_ambiguous_failure :
    RunDb → RunRow → String → String → Option String → Timestamp → RunDb
unfolding update_where
mark_ambiguous_failure db run integration_id reason main_after now =
    add_run_event
      (record db {
        integrations =
            update_where (λ i. i.integration_id == integration_id)
              (set_ambiguous reason main_after now) db.integrations;
        runs =
            update_where (λ r. is_run run.run_id r && is_committing r.status)
              (λ r. record r {
                status = RunStatus.recovering;
                recovery_decision = some RecoveryDecision.block_human;
                heartbeat_at = now;
              })
              db.runs;
      })
      run "INTEGRATION_FAILED_AMBIGUOUS" "CRITICAL"
