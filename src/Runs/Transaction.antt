-- ===== src/Runs/Transaction.antt =====
-- The transactions of scripts/hermesops-transaction.py. Git and the files of a snapshot are outside:
-- what the script asks of them is an argument. A command with work on files between two database
-- transactions has a function for each.
use hermes_ops.Runs.Tables.{default_branch_absent}
use hermes_ops.Runs.Tables.{config_unreadable}
use hermes_ops.Runs.Tables.{config_absent}
use hermes_ops.Orchestrator.Gates.{is_pending_approval}
use hermes_ops.Orchestrator.Tables.{Timestamp, RunStatus, ApprovalStatus}
use hermes_ops.Prelude.{
  string_column, String, Bool, true, false, not, ◌&&◌, ◌||◌, Option, none, some, List, [], ◌∷◌,
  ◌++◌, if◌then◌else◌, ◌==◌, is_some_eq,
}
use hermes_ops.Prelude.Result.{Result, ◌>>=◌, ok, err}
use hermes_ops.Runs.Tables.{
  constraint, repository_invalid, nothing_committed, project_locked, project_disabled,
  worktree_invalid, rollback_safe, snapshot_invalid, wrong_status, unknown_project, RunRow,
  ApprovalRow, RunDb, is_run, locks_run, locks_project, add_run_event, beat_lock, set_run, RunError,
  with_run, Project,
}
use hermes_ops.Sql.{update_where, fetch_one, exists_where, delete_where}

-- The rows of a new run and of its lock.
unfoldable pub reserve_rows :
    RunDb → (project_id run_id branch_name owner base_commit : String) → Timestamp → RunDb
reserve_rows db project_id run_id branch_name owner base_commit now =
    let run : RunRow = record {
      run_id = run_id;
      project_id = project_id;
      status = RunStatus.snapshotting;
      recovery_decision = none;
      base_commit = some base_commit;
      result_commit = none;
      branch_name = branch_name;
      transaction_owner = some owner;
      heartbeat_at = now;
      submitted_at = none;
      finished_at = none;
    } in
    add_run_event
      (record db {
        runs = db.runs ++ run ∷ [];
        locks =
            db.locks
            ++ record {
              project_id = project_id;
              run_id = run_id;
              holder = owner;
              acquired_at = now;
              heartbeat_at = now;
            }
              ∷ [];
      })
      run "TRANSACTION_RESERVED" "INFO"

-- What `load_project` finds at the project's `config_source`: no file, one that cannot be parsed, or
-- its `git.default_branch`, if that is a text.
pub data ConfigFile : Type 0 where
  absent unreadable : ConfigFile
  parsed : Option String → ConfigFile

abbrev pub check_config : ConfigFile → Result RunError String
check_config ConfigFile.absent = err config_absent
check_config ConfigFile.unreadable = err config_unreadable
check_config (ConfigFile.parsed none) = err default_branch_absent
check_config (ConfigFile.parsed (some branch)) = ok branch

unfoldable pub load_project : RunDb → String → ConfigFile → Result RunError Project
unfolding fetch_one
load_project db project_id config = elim (fetch_one (λ p. p.project_id == project_id) db.projects) [
  | none ↦ err unknown_project
  | some project ↦ (check_config config >>= λ default_branch. ok project)
]

-- `command_begin` up to its first commit. `base_commit` is what `validate_repository` returns, or
-- `none` if it fails; the identifiers are fresh.
unfoldable pub begin_reserve :
    RunDb
    → (project_id run_id branch_name owner : String) → ConfigFile
    → Option String
    → Timestamp
    → Result RunError RunDb
unfolding load_project exists_where reserve_rows
begin_reserve db project_id run_id branch_name owner config base_commit now =
    load_project db project_id config >>= λ project.
    if not project.enabled
    then err project_disabled
    else if exists_where (locks_project project_id) db.locks
    then err project_locked
    else elim base_commit [
      | none ↦ err repository_invalid
      | some base ↦
          if exists_where (is_run run_id) db.runs || exists_where (locks_run run_id) db.locks
          then err constraint
          else ok (reserve_rows db project_id run_id branch_name owner base now)
    ]

-- The second transaction, once the snapshot and the worktree stand. The run is that of the first.
unfoldable pub begin_start :
    RunDb → (run_id snapshot_id : String) → Timestamp → Result RunError RunDb
unfolding update_where with_run
begin_start db run_id snapshot_id now = with_run db run_id (λ run. ok (
    add_run_event
      (record db {
        snapshots =
            db.snapshots
            ++ record { snapshot_id = snapshot_id; run_id = run_id; verified_at = none } ∷ [];
        runs =
            update_where (is_run run_id)
              (λ r. record r { status = RunStatus.running; heartbeat_at = now }) db.runs;
        locks = beat_lock run_id now db.locks;
      })
      run "TRANSACTION_STARTED" "INFO"))

-- The handler of an exception after the first transaction.
unfoldable pub begin_fail : RunDb → String → Timestamp → Result RunError RunDb
unfolding update_where delete_where with_run
begin_fail db run_id now = with_run db run_id (λ run. ok (
    add_run_event
      (record db {
        locks = delete_where (locks_run run_id) db.locks;
        runs =
            update_where (is_run run_id)
              (λ r. record r {
                status = RunStatus.failed;
                finished_at = some now;
                heartbeat_at = now;
              })
              db.runs;
      })
      run "TRANSACTION_START_FAILED" "ERROR"))

abbrev pub can_heartbeat : RunStatus → Bool
can_heartbeat RunStatus.running = true
can_heartbeat RunStatus.reviewing = true
can_heartbeat RunStatus.recovering = true
can_heartbeat _ = false

unfoldable pub command_heartbeat : RunDb → String → Timestamp → Result RunError RunDb
unfolding update_where with_run
command_heartbeat db run_id now = with_run db run_id (λ run.
    if not (can_heartbeat run.status)
    then err wrong_status
    else ok (record db {
      runs = update_where (is_run run_id) (λ r. record r { heartbeat_at = now }) db.runs;
      locks = beat_lock run_id now db.locks;
    }))

-- What `command_submit` finds in the worktree.
pub record Worktree : Type 0 where
  pub registered : Bool
  pub branch : String
  pub clean : Bool
  pub head : String
  pub base_is_ancestor : Bool

abbrev pub is_running : RunStatus → Bool
is_running RunStatus.running = true
is_running _ = false

-- The checks before the database transaction: the commit to submit.
unfoldable pub submit_check : RunRow → Worktree → Result RunError String
submit_check run tree =
    if not (is_running run.status)
    then err wrong_status
    else if not tree.registered || not (tree.branch == run.branch_name) || not tree.clean
    then err worktree_invalid
    else if is_some_eq run.base_commit tree.head
    then err nothing_committed
    else if tree.base_is_ancestor
    then ok tree.head
    else err worktree_invalid

-- `run` is the row that was read before the worktree was looked at.
unfoldable pub submit_store : RunDb → RunRow → String → Timestamp → RunDb
unfolding update_where
submit_store db run result_commit now =
    add_run_event
      (record db {
        runs =
            update_where (λ r. is_run run.run_id r && is_running r.status)
              (λ r. record r {
                status = RunStatus.reviewing;
                result_commit = some result_commit;
                submitted_at = some now;
                heartbeat_at = now;
              })
              db.runs;
        locks = beat_lock run.run_id now db.locks;
      })
      run "TRANSACTION_SUBMITTED" "INFO"

abbrev pub can_rollback : RunStatus → Bool
can_rollback RunStatus.snapshotting = true
can_rollback RunStatus.running = true
can_rollback RunStatus.reviewing = true
can_rollback RunStatus.waiting_human = true
can_rollback RunStatus.recovering = true
can_rollback RunStatus.failed = true
can_rollback _ = false

-- `verify_snapshot`: the files are checked outside, the row is marked.
unfoldable pub verify_snapshot : RunDb → String → Bool → Timestamp → Result RunError RunDb
unfolding exists_where update_where
verify_snapshot db run_id files_valid now =
    if not (exists_where (λ s. s.run_id == run_id) db.snapshots) || not files_valid
    then err snapshot_invalid
    else ok (record db {
      snapshots =
          update_where (λ s. s.run_id == run_id) (λ s. record s { verified_at = some now })
            db.snapshots;
    })

-- The first transaction of `command_rollback`.
unfoldable pub rollback_start : RunDb → String → Bool → Timestamp → Result RunError RunDb
unfolding update_where with_run verify_snapshot
rollback_start db run_id files_valid now = with_run db run_id (λ run.
    if not (can_rollback run.status)
    then err wrong_status
    else (verify_snapshot db run_id files_valid now >>= λ checked. ok (
        add_run_event
          (set_run run_id
            (λ r. record r {
              status = RunStatus.recovering;
              recovery_decision = some rollback_safe;
              heartbeat_at = now;
            })
            checked)
          run "ROLLBACK_STARTED" "WARNING")))

abbrev pub cancel_approvals : String → Timestamp → List ApprovalRow → List ApprovalRow
cancel_approvals run_id now approvals =
    update_where (λ a. a.run_id == run_id && is_pending_approval a.status)
      (λ a. record a { status = ApprovalStatus.cancelled; resolved_at = some now }) approvals

-- A cancelled run: its approvals are closed, its lock is gone.
unfoldable pub cancel_run : RunDb → RunRow → String → Timestamp → RunDb
unfolding update_where delete_where
cancel_run db run event_type now =
    add_run_event
      (record db {
        approvals = cancel_approvals run.run_id now db.approvals;
        locks = delete_where (locks_run run.run_id) db.locks;
        runs =
            update_where (is_run run.run_id)
              (λ r. record r {
                status = RunStatus.cancelled;
                recovery_decision = some rollback_safe;
                finished_at = some now;
                heartbeat_at = now;
              })
              db.runs;
      })
      run event_type "WARNING"

-- The second transaction, once the worktree is removed.
unfoldable pub rollback_finish : RunDb → RunRow → Timestamp → RunDb
unfolding cancel_run
rollback_finish db run now = cancel_run db run "ROLLBACK_COMPLETED" now
