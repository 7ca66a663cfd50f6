-- ===== src/Runs/Assess.antt =====
-- `assess_run` of scripts/hermesops-recovery.py: what to do about an interrupted run. The evidence
-- of Git and of the snapshot's files is an argument; a key that is not there is `none` or `false`.
use hermes_ops.Orchestrator.Tables.{RunStatus, IntegrationStatus}
use hermes_ops.Prelude.{
  string_column, String, Bool, true, false, not, ◌&&◌, ◌||◌, Option, none, some, if◌then◌else◌,
  ◌==◌, is_some_eq,
}
use hermes_ops.Runs.Integrator.Commits.{is_committing}
use hermes_ops.Runs.Tables.{RecoveryDecision, RunRow, Lock, IntegrationRow}

pub data Decision : Type 0 where
  no_action resume_safe rollback_safe block_human : Decision

-- `repository_evidence`
pub record Repository : Type 0 where
  pub default_branch : Option String
  pub repository_present : Bool
  pub repository_branch : Option String
  pub repository_head : Option String
  pub repository_clean : Bool
  pub worktree_present : Bool
  pub worktree_registered : Bool
  pub worktree_clean : Bool
  pub worktree_branch : Option String
  pub worktree_head : Option String
  pub base_is_ancestor : Bool

-- `snapshot_evidence`
pub record SnapshotEvidence : Type 0 where
  pub present : Bool
  pub valid : Bool

pub record Evidence : Type 0 where
  pub run : RunRow
  pub lock : Option Lock
  pub snapshot : SnapshotEvidence
  pub repository : Repository
  pub integration : Option IntegrationRow

-- Python's `==` on a text or None.
abbrev pub same_text : Option String → Option String → Bool
same_text none none = true
same_text none (some b) = false
same_text (some a) b = is_some_eq b a

abbrev pub is_given : Option String → Bool
is_given none = false
is_given (some s) = not (s == "")

abbrev pub is_terminal_run : RunStatus → Bool
is_terminal_run RunStatus.completed = true
is_terminal_run RunStatus.cancelled = true
is_terminal_run _ = false

abbrev pub is_snapshotting : RunStatus → Bool
is_snapshotting RunStatus.snapshotting = true
is_snapshotting _ = false

-- A worktree that is there, known to Git and clean.
abbrev pub worktree_stands : Repository → Bool
worktree_stands r = r.worktree_present && r.worktree_registered && r.worktree_clean

abbrev pub worktree_gone : Repository → Bool
worktree_gone r = not r.worktree_present && not r.worktree_registered

abbrev pub main_at_base : Evidence → Bool
main_at_base e = same_text e.repository.repository_head e.run.base_commit

abbrev pub main_at_result : Evidence → Bool
main_at_result e = same_text e.repository.repository_head e.run.result_commit

abbrev pub is_resumable : IntegrationStatus → Bool
is_resumable IntegrationStatus.prepared = true
is_resumable IntegrationStatus.failed = true
is_resumable _ = false

-- `status in ("PREPARED", "FAILED")`
abbrev pub can_resume_integration : Option IntegrationRow → Bool
can_resume_integration none = false
can_resume_integration (some i) = is_resumable i.status

abbrev pub has_integration : Option IntegrationRow → Bool
has_integration none = false
has_integration (some i) = true

abbrev pub decided : Option RecoveryDecision → RecoveryDecision → Bool
decided (some RecoveryDecision.resume_safe) RecoveryDecision.resume_safe = true
decided (some RecoveryDecision.rollback_safe) RecoveryDecision.rollback_safe = true
decided (some RecoveryDecision.block_human) RecoveryDecision.block_human = true
decided _ _ = false

-- The last `else`: a snapshot that is valid, and a default branch at one of the two commits.
unfoldable pub decide_by_status : Evidence → RunStatus → Decision
decide_by_status e RunStatus.waiting_human = Decision.block_human
decide_by_status e RunStatus.committing =
    if not (can_resume_integration e.integration)
    then Decision.block_human
    else if main_at_result e
    then Decision.resume_safe
    else if main_at_base e
        && worktree_stands e.repository
        && same_text e.repository.worktree_head e.run.result_commit
        && e.repository.base_is_ancestor
    then Decision.resume_safe
    else Decision.block_human
decide_by_status e RunStatus.running =
    if not (main_at_base e)
    then Decision.block_human
    else if worktree_stands e.repository
        && same_text e.repository.worktree_branch (some e.run.branch_name)
        && e.repository.base_is_ancestor
    then Decision.resume_safe
    else if worktree_gone e.repository
    then Decision.rollback_safe
    else Decision.block_human
decide_by_status e RunStatus.reviewing =
    if not (main_at_base e)
    then Decision.block_human
    else if is_given e.run.result_commit
        && worktree_stands e.repository
        && same_text e.repository.worktree_head e.run.result_commit
    then Decision.resume_safe
    else if worktree_gone e.repository
    then Decision.rollback_safe
    else Decision.block_human
decide_by_status e RunStatus.failed =
    if main_at_base e then Decision.rollback_safe else Decision.block_human
decide_by_status e RunStatus.recovering =
    if decided e.run.recovery_decision RecoveryDecision.rollback_safe && main_at_base e
    then Decision.rollback_safe
    else if decided e.run.recovery_decision RecoveryDecision.block_human
    then Decision.block_human
    else if decided e.run.recovery_decision RecoveryDecision.resume_safe
        && has_integration e.integration
        && (main_at_base e || main_at_result e)
    then Decision.resume_safe
    else Decision.block_human
decide_by_status e RunStatus.snapshotting = Decision.rollback_safe
decide_by_status e _ = Decision.block_human

-- The chain of tests, before the lock is looked at.
unfoldable pub first_decision : Evidence → Decision
unfolding decide_by_status
first_decision e =
    if is_terminal_run e.run.status
    then Decision.no_action
    else if not e.repository.repository_present
    then Decision.block_human
    else if not (same_text e.repository.repository_branch e.repository.default_branch)
    then Decision.block_human
    else if not e.repository.repository_clean
    then Decision.block_human
    else if is_snapshotting e.run.status && not e.snapshot.present
    then (if main_at_base e then Decision.rollback_safe else Decision.block_human)
    else if not e.snapshot.valid
    then Decision.block_human
    else if not (main_at_base e || main_at_result e)
    then Decision.block_human
    else decide_by_status e e.run.status

abbrev pub has_lock : Option Lock → Bool
has_lock none = false
has_lock (some l) = true

abbrev pub is_resume : Decision → Bool
is_resume Decision.resume_safe = true
is_resume _ = false

-- Without its lock a run is resumed only past the fast-forward.
unfoldable pub assess_run : Evidence → Decision
unfolding first_decision
assess_run e =
    let decision = first_decision e in
    if is_resume decision
      && not (has_lock e.lock)
      && not (is_committing e.run.status && main_at_result e)
    then Decision.block_human
    else decision
