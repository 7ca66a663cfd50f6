-- ===== src/Runs/Exclusive.antt =====
-- Which runs hold their project: the tables `runs` and `project_locks` of the three scripts.
pub mod Keeps
pub mod Rules
pub mod Transactions
pub mod Integrations
pub mod Recoveries
use hermes_ops.Orchestrator.Tables.{RunStatus}
use hermes_ops.Prelude.{
  string_column, ◌≤◌, String, ◌≡◌, subst, inl, inr, Bool, true, false, not, ◌&&◌, ◌||◌, some, List,
  arith, ◌==◌, Option-cases, all, none,
}
use hermes_ops.Runs.Tables.{RunRow, Lock, is_run, locks_run, locks_project}
use hermes_ops.Sql.{fetch_one, count_where, exists_where}
use hermes_ops.Sql.Rows.{count-all_mono, exists-fetch_one, fetch_one-none, exists_narrow}
use native.Mathlib.Omega.{arith}

-- A run in one of these states works on its project, or may go on to.
abbrev pub needs_lock : RunStatus → Bool
needs_lock RunStatus.snapshotting = true
needs_lock RunStatus.running = true
needs_lock RunStatus.reviewing = true
needs_lock RunStatus.waiting_human = true
needs_lock RunStatus.committing = true
needs_lock _ = false

abbrev pub locks_both : (run_id project_id : String) → Lock → Bool
locks_both run_id project_id l = locks_run run_id l && locks_project project_id l

unfoldable pub is_held : List Lock → RunRow → Bool
unfolding exists_where
is_held locks r = not (needs_lock r.status) || exists_where (locks_both r.run_id r.project_id) locks

-- A run that is at work in a project.
abbrev pub works_on : String → RunRow → Bool
works_on project_id r = r.project_id == project_id && needs_lock r.status

-- The keys of the two tables are unique, and every run that is at work holds its project's lock.
pub record IsExclusive (runs : List RunRow) (locks : List Lock) : Type 0 where
  pub run_ids : (x : String) → count_where (is_run x) runs ≤ 1
  pub lock_runs : (x : String) → count_where (locks_run x) locks ≤ 1
  pub lock_projects : (p : String) → count_where (locks_project p) locks ≤ 1
  pub held : all (is_held locks) runs ≡ true

-- The lock of a project belongs to the run that is at work in it.
lock-works_on :
    (locks : List Lock) (project_id : String) (lock : Lock) (r : RunRow)
    → count_where (locks_project project_id) locks ≤ 1
    → fetch_one (locks_project project_id) locks ≡ some lock
    → is_held locks r ≡ true
    → works_on project_id r ≡ true
    → is_run lock.run_id r ≡ true
unfolding is_held
lock-works_on locks project_id lock r u found h w =
    let same = (string_column.same_iff r.project_id project_id).0 (ground arith) in
    let both : exists_where (λ l. locks_run r.run_id l && locks_project project_id l) locks ≡ true =
      subst (λ p. exists_where (locks_both r.run_id p) locks ≡ true) same (ground arith) in
    ground (
      arith,
      exists-fetch_one (locks_run r.run_id) (locks_project project_id) locks lock found u both,
      string_column.same_iff lock.run_id r.run_id,
      string_column.same_iff r.run_id lock.run_id,
    )

pub unlocked-works_on :
    (locks : List Lock) (project_id : String) (r : RunRow)
    → fetch_one (locks_project project_id) locks ≡ none
    → is_held locks r ≡ true
    → works_on project_id r ≡ false
unfolding is_held
unlocked-works_on locks project_id r e h =
    let none_locks = fetch_one-none (locks_project project_id) locks e in
    ground (
      arith,
      exists_narrow (locks_both r.run_id r.project_id) (locks_project project_id) locks,
      string_column.same_iff r.project_id project_id,
    )

-- At most one run is at work in a project.
pub one_run_works_on :
    (runs : List RunRow) (locks : List Lock) (project_id : String)
    → IsExclusive runs locks
    → count_where (works_on project_id) runs ≤ 1
one_run_works_on runs locks project_id x =
    elim (Option-cases (fetch_one (locks_project project_id) locks)) [
      | inl e ↦
          let mono =
            count-all_mono (is_held locks) (works_on project_id) (is_run "") runs
              (λ r h w. absurd (ground (arith, unlocked-works_on locks project_id r e h))) x.held in
          ground (arith, x.run_ids "", mono)
      | inr (lock, e) ↦
          let mono =
            count-all_mono (is_held locks) (works_on project_id) (is_run lock.run_id) runs
              (λ r. lock-works_on locks project_id lock r (x.lock_projects project_id) e) x.held in
          ground (arith, x.run_ids lock.run_id, mono)
    ]
