-- ===== src/Runs/Exclusive/Transactions.antt =====
-- The transactions of scripts/hermesops-transaction.py keep the locks exclusive.
use hermes_ops.Orchestrator.Tables.{Timestamp, RunStatus}
use hermes_ops.Prelude.{
  String, ◌≡◌, refl, not, Option, some, arith, if_both, sym, subst, option_both, string_column,
  ◌||◌, ◌==◌, Bool,
}
use hermes_ops.Prelude.Result.{IfOk, IfOk-bind, IfOk-of}
use hermes_ops.Runs.Assess.{is_snapshotting}
use hermes_ops.Runs.Exclusive.{IsExclusive}
use hermes_ops.Runs.Exclusive.Keeps.{
  update-IsExclusive, beat_lock-IsExclusive, release-IsExclusive, lock-IsExclusive, run-IsExclusive,
  exists-last, is_held-found,
}
use hermes_ops.Runs.Exclusive.Rules.{Exclusive, with_run-IfOk, is_running-needs}
use hermes_ops.Runs.Tables.{RunRow, RunDb, is_run, with_run, locks_run, locks_project}
use hermes_ops.Runs.Transaction.{
  reserve_rows, begin_reserve, begin_start, begin_fail, can_heartbeat, command_heartbeat,
  submit_store, can_rollback, verify_snapshot, rollback_start, cancel_run, ConfigFile, load_project,
}
use hermes_ops.Sql.{fetch_one, exists_where}
use hermes_ops.Sql.Laws.{update-found_guard}

pub begin_reserve-IsExclusive :
    (db : RunDb) (project_id run_id branch_name owner : String) (config : ConfigFile)
    (base : Option String) (now : Timestamp)
    → Exclusive db
    → IfOk Exclusive (begin_reserve db project_id run_id branch_name owner config base now)
unfolding begin_reserve reserve_rows
begin_reserve-IsExclusive db project_id run_id branch_name owner config base now x =
    IfOk-bind Exclusive (load_project db project_id config) _ (λ project e.
      if_both (IfOk Exclusive) (not project.enabled) (λ _. tt)
        (λ _.
          if_both (IfOk Exclusive) (exists_where (locks_project project_id) db.locks) (λ _. tt)
            (λ free.
              option_both (IfOk Exclusive) base (λ e. tt)
                (λ commit e.
                  if_both (IfOk Exclusive)
                    (exists_where (is_run run_id) db.runs
                      || exists_where (locks_run run_id) db.locks)
                    (λ _. tt)
                    (λ fresh.
                      run-IsExclusive db.runs _ _ (ground arith)
                        (is_held-found _ _ (exists-last db.locks _))
                        (lock-IsExclusive db.runs db.locks _ (ground arith) free x))))))

pub begin_start-IsExclusive :
    (db : RunDb) (run_id snapshot_id : String) (now : Timestamp) (run : RunRow)
    → fetch_one (is_run run_id) db.runs ≡ some run
    → run.status ≡ RunStatus.snapshotting
    → Exclusive db
    → IfOk Exclusive (begin_start db run_id snapshot_id now)
unfolding begin_start with_run
begin_start-IsExclusive db run_id snapshot_id now run e s x =
    with_run-IfOk Exclusive db run_id _ (λ seen f. beat_lock-IsExclusive _ db.locks run_id now (
      subst (λ runs. IsExclusive runs db.locks)
        (sym (
          update-found_guard (is_run run_id) (λ r. is_snapshotting r.status) _ db.runs run e
            (x.run_ids run_id) (ground arith)))
        (update-IsExclusive db.runs db.locks _ _ (λ r. (refl, refl, λ h. ground arith)) x)))

pub begin_fail-IsExclusive :
    (db : RunDb) (run_id : String) (now : Timestamp)
    → Exclusive db
    → IfOk Exclusive (begin_fail db run_id now)
unfolding begin_fail
begin_fail-IsExclusive db run_id now x =
    with_run-IfOk Exclusive db run_id _
      (λ run e. release-IsExclusive db.runs db.locks run_id _ (λ r. (refl, refl, refl)) x)

pub command_heartbeat-IsExclusive :
    (db : RunDb) (run_id : String) (now : Timestamp)
    → Exclusive db
    → IfOk Exclusive (command_heartbeat db run_id now)
unfolding command_heartbeat
command_heartbeat-IsExclusive db run_id now x = with_run-IfOk Exclusive db run_id _ (λ run e.
    if_both (IfOk Exclusive) (not (can_heartbeat run.status)) (λ _. tt)
      (λ _.
        beat_lock-IsExclusive _ db.locks run_id now
          (update-IsExclusive db.runs db.locks _ _ (λ r. (refl, refl, λ h. ground arith)) x)))

pub submit_store-IsExclusive :
    (db : RunDb) (run : RunRow) (result_commit : String) (now : Timestamp)
    → Exclusive db
    → Exclusive (submit_store db run result_commit now)
unfolding submit_store
submit_store-IsExclusive db run result_commit now x =
    beat_lock-IsExclusive _ db.locks run.run_id now (
      update-IsExclusive db.runs db.locks _ _
        (λ r. (refl, refl, λ h. is_running-needs r.status (ground arith))) x)

verify_snapshot-IsExclusive :
    (db : RunDb) (run_id : String) (files_valid : Bool) (now : Timestamp)
    → Exclusive db
    → IfOk Exclusive (verify_snapshot db run_id files_valid now)
unfolding verify_snapshot
verify_snapshot-IsExclusive db run_id files_valid now x =
    if_both (IfOk Exclusive)
      (not (exists_where (λ s. s.run_id == run_id) db.snapshots) || not files_valid) (λ _. tt)
      (λ _. x)

pub rollback_start-IsExclusive :
    (db : RunDb) (run_id : String) (files_valid : Bool) (now : Timestamp)
    → Exclusive db
    → IfOk Exclusive (rollback_start db run_id files_valid now)
unfolding rollback_start
rollback_start-IsExclusive db run_id files_valid now x =
    with_run-IfOk Exclusive db run_id _ (λ run e.
      if_both (IfOk Exclusive) (not (can_rollback run.status)) (λ _. tt)
        (λ _. IfOk-bind Exclusive (verify_snapshot db run_id files_valid now) _ (λ checked v.
          update-IsExclusive checked.runs checked.locks _ _ (λ r. (refl, refl, λ h. ground arith))
            (IfOk-of Exclusive (verify_snapshot db run_id files_valid now) checked v
              (verify_snapshot-IsExclusive db run_id files_valid now x)))))

pub cancel_run-IsExclusive :
    (db : RunDb) (run : RunRow) (event_type : String) (now : Timestamp)
    → Exclusive db
    → Exclusive (cancel_run db run event_type now)
unfolding cancel_run
cancel_run-IsExclusive db run event_type now x =
    release-IsExclusive db.runs db.locks run.run_id _ (λ r. (refl, refl, refl)) x
