-- ===== src/Runs/Exclusive/Recoveries.antt =====
-- The transactions of scripts/hermesops-recovery.py keep the locks exclusive.
use hermes_ops.Orchestrator.Tables.{Timestamp, RunStatus}
use hermes_ops.Prelude.{
  String, ◌≡◌, refl, not, some, arith, if_both, sym, subst, option_both, string_column, ◌==◌, true,
  ◌&&◌, nat_beq, ◌∙◌, ==_refl,
}
use hermes_ops.Prelude.Result.{IfOk, IfOk-bind, IfOk-of}
use hermes_ops.Runs.Assess.{is_resumable}
use hermes_ops.Runs.Exclusive.{IsExclusive, locks_both}
use hermes_ops.Runs.Exclusive.Keeps.{
  update-IsExclusive, beat_lock-IsExclusive, release-IsExclusive, lock-IsExclusive,
  exists-locks_both, exists-last, rework-IsExclusive,
}
use hermes_ops.Runs.Exclusive.Rules.{Exclusive, with_run-IfOk}
use hermes_ops.Runs.Integrator.Commits.{is_committing, set_waiting}
use hermes_ops.Runs.Recovery.{
  same_running, resume_ready, can_resume_commit, resume_commit, rollback_committing,
  ensure_lock_for_block, apply_block, owner_or,
}
use hermes_ops.Runs.Tables.{Lock, RunRow, RunDb, is_run, locks_run, locks_project}
use hermes_ops.Sql.{update_where, fetch_one, exists_where, count_where}
use hermes_ops.Sql.Laws.{update-found_guard, fetch_one-meets}
use hermes_ops.Sql.Rows.{fetch_one-none, exists-fetch_and}
use mathlib.Core.List.{List}

pub resume_ready-IsExclusive :
    (db : RunDb) (run_id : String) (observed : RunStatus) (now : Timestamp)
    → Exclusive db
    → IfOk Exclusive (resume_ready db run_id observed now)
unfolding resume_ready
resume_ready-IsExclusive db run_id observed now x = with_run-IfOk Exclusive db run_id _ (λ run e.
    if_both (IfOk Exclusive) (not (same_running observed observed)) (λ _. tt)
      (λ _.
        beat_lock-IsExclusive _ db.locks run_id now
          (update-IsExclusive db.runs db.locks _ _ (λ r. (refl, refl, λ h. ground arith)) x)))

pub resume_commit-IsExclusive :
    (db : RunDb) (run_id integration_id main_head : String) (now : Timestamp)
    → Exclusive db
    → IfOk Exclusive (resume_commit db run_id integration_id main_head now)
unfolding resume_commit
resume_commit-IsExclusive db run_id integration_id main_head now x =
    with_run-IfOk Exclusive db run_id _ (λ run e.
      if_both (IfOk Exclusive) (not (can_resume_commit run.status)) (λ _. tt)
        (λ _.
          if_both (IfOk Exclusive)
            (nat_beq
              (count_where (λ i. i.integration_id == integration_id && is_resumable i.status)
                db.integrations)
              1)
            (λ _. release-IsExclusive db.runs db.locks run_id _ (λ r. (refl, refl, refl)) x)
            (λ _. tt)))

pub rollback_committing-IsExclusive :
    (db : RunDb) (run_id : String) (now : Timestamp)
    → Exclusive db
    → IfOk Exclusive (rollback_committing db run_id now)
unfolding rollback_committing
rollback_committing-IsExclusive db run_id now x = with_run-IfOk Exclusive db run_id _ (λ run e.
    if_both (IfOk Exclusive) (is_committing run.status)
      (λ _. update-IsExclusive db.runs db.locks _ _ (λ r. (refl, refl, λ h. ground arith)) x)
      (λ _. x))

-- With these locks the run may wait for a human.
abbrev IsBlocked : List RunRow → String → Timestamp → List Lock → Type 0
IsBlocked runs run_id now locks =
    IsExclusive (update_where (is_run run_id) (set_waiting now) runs) locks

block-IsBlocked :
    (runs : List RunRow) (locks : List Lock) (run_id : String) (now : Timestamp) (run : RunRow)
    → fetch_one (is_run run_id) runs ≡ some run
    → exists_where (locks_both run.run_id run.project_id) locks ≡ true
    → IsExclusive runs locks
    → IsBlocked runs run_id now locks
block-IsBlocked runs locks run_id now run e has x =
    let same = fetch_one-meets (is_run run_id) runs run e in
    subst (λ rows. IsExclusive rows locks)
      (sym (
        update-found_guard (is_run run_id) (λ r. r.project_id == run.project_id) (set_waiting now)
          runs run e (x.run_ids run_id) (==_refl run.project_id)))
      (rework-IsExclusive runs locks _ _ (λ r. (refl, refl))
        (λ r m.
          let run_same : run.run_id ≡ r.run_id = ground (
            arith,
            string_column.same_iff r.run_id run_id,
            string_column.same_iff run.run_id run_id,
          ) in
          let project_same : run.project_id ≡ r.project_id =
            ground (arith, string_column.same_iff r.project_id run.project_id) in
          exists-locks_both locks run r (sym run_same) (sym project_same) ∙ has)
        x)

ensure_lock-IsBlocked :
    (db : RunDb) (run : RunRow) (run_id owner : String) (now : Timestamp)
    → fetch_one (is_run run_id) db.runs ≡ some run
    → Exclusive db
    → IfOk (IsBlocked db.runs run_id now) (ensure_lock_for_block db run owner now)
unfolding ensure_lock_for_block
ensure_lock-IsBlocked db run run_id owner now e x =
    option_both (IfOk (IsBlocked db.runs run_id now))
      (fetch_one (locks_project run.project_id) db.locks)
      (λ free.
        let no_project = fetch_one-none (locks_project run.project_id) db.locks free in
        if_both (IfOk (IsBlocked db.runs run_id now)) (exists_where (locks_run run.run_id) db.locks)
          (λ _. tt)
          (λ fresh.
            let lock : Lock = record {
              project_id = run.project_id;
              run_id = run.run_id;
              holder = owner_or run.transaction_owner owner;
              acquired_at = now;
              heartbeat_at = now;
            } in
            block-IsBlocked db.runs _ run_id now run e (exists-last db.locks lock)
              (lock-IsExclusive db.runs db.locks lock fresh no_project x)))
      (λ lock found.
        if_both (IfOk (IsBlocked db.runs run_id now)) (lock.run_id == run.run_id)
          (λ own.
            block-IsBlocked db.runs db.locks run_id now run e
              (exists-fetch_and (locks_run run.run_id) (locks_project run.project_id) db.locks lock
                found own)
              x)
          (λ _. tt))

pub apply_block-IsExclusive :
    (db : RunDb) (run_id owner approval_id : String) (now : Timestamp)
    → Exclusive db
    → IfOk Exclusive (apply_block db run_id owner approval_id now)
unfolding apply_block
apply_block-IsExclusive db run_id owner approval_id now x =
    with_run-IfOk Exclusive db run_id _ (λ run e.
      IfOk-bind Exclusive (ensure_lock_for_block db run owner now) _ (λ locks l.
        beat_lock-IsExclusive _ locks run_id now (
          IfOk-of (IsBlocked db.runs run_id now) (ensure_lock_for_block db run owner now) locks l
            (ensure_lock-IsBlocked db run run_id owner now e x))))
