-- ===== src/Runs/Once/Transactions.antt =====
-- The transactions of scripts/hermesops-transaction.py keep the count of integrations.
use hermes_ops.Orchestrator.Tables.{Timestamp, RunStatus}
use hermes_ops.Prelude.{
  string_column, String, ◌≡◌, refl, sym, subst, Bool, not, ◌||◌, Option, some, arith, ◌==◌,
  option_both, if_both,
}
use hermes_ops.Prelude.Result.{IfOk, IfOk-bind, IfOk-of}
use hermes_ops.Runs.Assess.{is_snapshotting}
use hermes_ops.Runs.Exclusive.Rules.{
  Exclusive, with_run-IfOk, is_snapshotting-early, is_running-early,
}
use hermes_ops.Runs.Once.{IsOnce, Once}
use hermes_ops.Runs.Once.Keeps.{runs-IsOnce, begun-IsOnce}
use hermes_ops.Runs.Tables.{RunRow, RunDb, is_run, locks_run, locks_project}
use hermes_ops.Runs.Transaction.{
  reserve_rows, begin_reserve, begin_start, begin_fail, can_heartbeat, command_heartbeat,
  submit_store, can_rollback, verify_snapshot, rollback_start, cancel_run, ConfigFile, load_project,
}
use hermes_ops.Sql.{fetch_one, exists_where}
use hermes_ops.Sql.Laws.{update-found_guard}

pub begin_reserve-Once :
    (db : RunDb) (project_id run_id branch_name owner : String) (config : ConfigFile)
    (base : Option String) (now : Timestamp)
    → Once db
    → IfOk Once (begin_reserve db project_id run_id branch_name owner config base now)
unfolding begin_reserve reserve_rows
begin_reserve-Once db project_id run_id branch_name owner config base now o =
    IfOk-bind Once (load_project db project_id config) _ (λ project e.
      if_both (IfOk Once) (not project.enabled) (λ _. tt)
        (λ _.
          if_both (IfOk Once) (exists_where (locks_project project_id) db.locks) (λ _. tt)
            (λ free.
              option_both (IfOk Once) base (λ e. tt)
                (λ commit e.
                  if_both (IfOk Once)
                    (exists_where (is_run run_id) db.runs
                      || exists_where (locks_run run_id) db.locks)
                    (λ _. tt) (λ fresh. begun-IsOnce db.runs db.integrations _ o)))))

pub begin_start-Once :
    (db : RunDb) (run_id snapshot_id : String) (now : Timestamp) (run : RunRow)
    → fetch_one (is_run run_id) db.runs ≡ some run
    → run.status ≡ RunStatus.snapshotting
    → Exclusive db
    → Once db
    → IfOk Once (begin_start db run_id snapshot_id now)
unfolding begin_start
begin_start-Once db run_id snapshot_id now run e s x o = with_run-IfOk Once db run_id _ (λ seen f.
    subst (λ runs. IsOnce runs db.integrations)
      (sym (
        update-found_guard (is_run run_id) (λ r. is_snapshotting r.status) _ db.runs run e
          (x.run_ids run_id) (ground arith)))
      (runs-IsOnce db.runs db.integrations _ _
        (λ r. (refl, λ h. is_snapshotting-early r.status (ground arith))) o))

pub begin_fail-Once :
    (db : RunDb) (run_id : String) (now : Timestamp)
    → Once db
    → IfOk Once (begin_fail db run_id now)
unfolding begin_fail
begin_fail-Once db run_id now o =
    with_run-IfOk Once db run_id _
      (λ run e. runs-IsOnce db.runs db.integrations _ _ (λ r. (refl, λ h. ground arith)) o)

pub command_heartbeat-Once :
    (db : RunDb) (run_id : String) (now : Timestamp)
    → Once db
    → IfOk Once (command_heartbeat db run_id now)
unfolding command_heartbeat
command_heartbeat-Once db run_id now o = with_run-IfOk Once db run_id _ (λ run e.
    if_both (IfOk Once) (not (can_heartbeat run.status)) (λ _. tt)
      (λ _. runs-IsOnce db.runs db.integrations _ _ (λ r. (refl, λ h. ground arith)) o))

pub submit_store-Once :
    (db : RunDb) (run : RunRow) (result_commit : String) (now : Timestamp)
    → Once db
    → Once (submit_store db run result_commit now)
unfolding submit_store
submit_store-Once db run result_commit now o =
    runs-IsOnce db.runs db.integrations _ _
      (λ r. (refl, λ h. is_running-early r.status (ground arith))) o

verify_snapshot-Once :
    (db : RunDb) (run_id : String) (files_valid : Bool) (now : Timestamp)
    → Once db
    → IfOk Once (verify_snapshot db run_id files_valid now)
unfolding verify_snapshot
verify_snapshot-Once db run_id files_valid now o =
    if_both (IfOk Once)
      (not (exists_where (λ s. s.run_id == run_id) db.snapshots) || not files_valid) (λ _. tt)
      (λ _. o)

pub rollback_start-Once :
    (db : RunDb) (run_id : String) (files_valid : Bool) (now : Timestamp)
    → Once db
    → IfOk Once (rollback_start db run_id files_valid now)
unfolding rollback_start
rollback_start-Once db run_id files_valid now o = with_run-IfOk Once db run_id _ (λ run e.
    if_both (IfOk Once) (not (can_rollback run.status)) (λ _. tt)
      (λ _. IfOk-bind Once (verify_snapshot db run_id files_valid now) _ (λ checked v.
        runs-IsOnce checked.runs checked.integrations _ _ (λ r. (refl, λ h. ground arith))
          (IfOk-of Once (verify_snapshot db run_id files_valid now) checked v
            (verify_snapshot-Once db run_id files_valid now o)))))

pub cancel_run-Once :
    (db : RunDb) (run : RunRow) (event_type : String) (now : Timestamp)
    → Once db
    → Once (cancel_run db run event_type now)
unfolding cancel_run
cancel_run-Once db run event_type now o =
    runs-IsOnce db.runs db.integrations _ _ (λ r. (refl, λ h. ground arith)) o
