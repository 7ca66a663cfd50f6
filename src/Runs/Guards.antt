-- ===== src/Runs/Guards.antt =====
-- When a run may begin, and what a rollback leaves of it: scripts/hermesops-transaction.py.
use hermes_ops.Orchestrator.Tables.{Timestamp, RunStatus}
use hermes_ops.Prelude.{
  string_column, String, ◌≡◌, true, false, not, ◌||◌, Option, some, ◌==◌, all, refl, inl, inr, Bool,
  arith, Option-cases,
}
use hermes_ops.Prelude.Result.{err}
use hermes_ops.Runs.Exclusive.{works_on, is_held, unlocked-works_on}
use hermes_ops.Runs.Exclusive.Rules.{Exclusive}
use hermes_ops.Runs.Recovery.{is_pending_of}
use hermes_ops.Runs.Tables.{
  project_locked, Project, RunRow, RunDb, is_run, locks_run, locks_project,
}
use hermes_ops.Runs.Transaction.{
  begin_reserve, cancel_run, rollback_finish, ConfigFile, load_project,
}
use hermes_ops.Sql.{fetch_one, exists_where}
use hermes_ops.Sql.Laws.{fetch_one-meets}
use hermes_ops.Sql.Rows.{
  all-fetch_one, exists-delete_none, fetch_one_exists, exists-update_none, all-updated,
}

works_on-locked :
    (db : RunDb) (project_id : String) (run : RunRow)
    → Exclusive db
    → fetch_one (works_on project_id) db.runs ≡ some run
    → exists_where (locks_project project_id) db.locks ≡ true
works_on-locked db project_id run x at_work =
    elim (Option-cases (fetch_one (locks_project project_id) db.locks)) [
      | inl free ↦ absurd (
          ground (
            arith,
            fetch_one-meets (works_on project_id) db.runs run at_work,
            unlocked-works_on db.locks project_id run free
                (all-fetch_one (is_held db.locks) (works_on project_id) db.runs run x.held at_work),
          ))
      | inr (lock, e) ↦ fetch_one_exists (locks_project project_id) db.locks lock e
    ]

-- While a run is at work in an enabled project whose configuration is there with its default
-- branch, no other run begins there: `begin` fails because the project is locked, whatever the
-- state of its repository. The tables are those in which every run at work holds its project's lock.
pub begin_fails_while_at_work :
    (db : RunDb) (project : Project) (run_id branch_name owner default_branch : String)
    (base : Option String) (now : Timestamp) (run : RunRow)
    → Exclusive db
    → fetch_one (λ p. p.project_id == project.project_id) db.projects ≡ some project
    → project.enabled ≡ true
    → fetch_one (works_on project.project_id) db.runs ≡ some run
    → begin_reserve db project.project_id run_id branch_name owner
        (ConfigFile.parsed (some default_branch))
        base
        now
      ≡ err project_locked
unfolding begin_reserve load_project
begin_fails_while_at_work db project run_id branch_name owner default_branch base now run x found on
      at_work =
    let locked = works_on-locked db project.project_id run x at_work in
    rw (found, on, locked, begin_reserve, load_project) refl

abbrev pub is_cancelled_run : RunStatus → Bool
is_cancelled_run RunStatus.cancelled = true
is_cancelled_run _ = false

-- A run that is cancelled by a rollback has no lock and no pending approval left, whatever else
-- changed before; and no row of it is in any other state.
pub rollback_closes :
    (db : RunDb) (run : RunRow) (now : Timestamp)
    → let after = rollback_finish db run now in
      (exists_where (locks_run run.run_id) after.locks ≡ false)
      × (exists_where (is_pending_of run.run_id) after.approvals ≡ false)
      × (all (λ r. not (is_run run.run_id r) || is_cancelled_run r.status) after.runs ≡ true)
unfolding rollback_finish cancel_run
rollback_closes db run now = (
  exists-delete_none (locks_run run.run_id) db.locks,
  exists-update_none (is_pending_of run.run_id) _ db.approvals (λ a. ground arith),
  all-updated (is_run run.run_id) (λ r. is_cancelled_run r.status) _ db.runs (λ r. refl),
)
