-- ===== src/Runs/Decisions.antt =====
-- What the recovery's decisions of scripts/hermesops-recovery.py rest on.
use hermes_ops.Orchestrator.Tables.{RunStatus}
use hermes_ops.Prelude.{
  if◌then◌else◌, ℕ, ◌≤◌, ◌≡◌, refl, ◌⊎◌, Bool, true, ◌&&◌, ◌||◌, Option, some, arith, string_column,
  ap, false, none, option_both, subst, inl, inr, if_both, ◌∙◌, ◌↔◌,
}
use hermes_ops.Prelude.Result.{ok, bind_ok, Result, bind-ok}
use hermes_ops.Runs.Assess.{
  is_resume, Decision, Evidence, same_text, is_snapshotting, worktree_stands, main_at_base,
  main_at_result, has_integration, decide_by_status, first_decision, has_lock, assess_run,
  can_resume_integration,
}
use hermes_ops.Runs.Integrator.Commits.{is_committing}
use hermes_ops.Runs.Recovery.{
  decision_of, check_stale, is_expected, recover_check, same_running, can_resume_commit,
}
use hermes_ops.Runs.Tables.{RecoveryDecision, IntegrationRow, RunError}
use mathlib.Core.Bool.{not}

-- The evidence without which nothing is done without a human.
abbrev pub repository_stands : Evidence → Bool
repository_stands e =
    e.repository.repository_present
    && same_text e.repository.repository_branch e.repository.default_branch
    && e.repository.repository_clean

abbrev pub can_lack_lock : Evidence → Bool
can_lack_lock e = is_committing e.run.status && main_at_result e

decide_by_status-rollback :
    (e : Evidence) (s : RunStatus)
    → decide_by_status e s ≡ Decision.rollback_safe
    → (is_snapshotting s || main_at_base e) ≡ true
unfolding decide_by_status
decide_by_status-rollback e RunStatus.queued h = cc
decide_by_status-rollback e RunStatus.snapshotting h = refl
decide_by_status-rollback e RunStatus.running h = ground arith
decide_by_status-rollback e RunStatus.reviewing h = ground arith
decide_by_status-rollback e RunStatus.waiting_human h = cc
decide_by_status-rollback e RunStatus.committing h = ground arith
decide_by_status-rollback e RunStatus.completed h = cc
decide_by_status-rollback e RunStatus.failed h = ground arith
decide_by_status-rollback e RunStatus.cancelled h = cc
decide_by_status-rollback e RunStatus.recovering h = ground arith

-- The recovery manager's `assess_run` decides ROLLBACK_SAFE only if the default branch is there,
-- checked out, clean and at the commit that the run started from, or at its result commit if the
-- run is still SNAPSHOTTING.
pub rollback_leaves_main :
    (e : Evidence)
    → assess_run e ≡ Decision.rollback_safe
    → (repository_stands e && (main_at_base e || is_snapshotting e.run.status && main_at_result e))
      ≡ true
unfolding assess_run first_decision
rollback_leaves_main e h = ground (arith, decide_by_status-rollback e e.run.status)

can_resume-has :
    (i : Option IntegrationRow) → can_resume_integration i ≡ true → has_integration i ≡ true
can_resume-has none h = cc
can_resume-has (some i) h = refl

decide_by_status-resume :
    (e : Evidence) (s : RunStatus)
    → decide_by_status e s ≡ Decision.resume_safe
    → (same_running s s && main_at_base e && (worktree_stands e.repository)
        || can_resume_commit s
          && has_integration e.integration
          && (main_at_base e || main_at_result e))
      ≡ true
unfolding decide_by_status
decide_by_status-resume e RunStatus.queued h = cc
decide_by_status-resume e RunStatus.snapshotting h = cc
decide_by_status-resume e RunStatus.running h = ground arith
decide_by_status-resume e RunStatus.reviewing h = ground arith
decide_by_status-resume e RunStatus.waiting_human h = cc
decide_by_status-resume e RunStatus.committing h = ground (arith, can_resume-has e.integration)
decide_by_status-resume e RunStatus.completed h = cc
decide_by_status-resume e RunStatus.failed h = ground arith
decide_by_status-resume e RunStatus.cancelled h = cc
decide_by_status-resume e RunStatus.recovering h = ground arith

assess_resume :
    (d : Decision) (lock free : Bool)
    → (if is_resume d && not lock && not free then Decision.block_human else d)
      ≡ Decision.resume_safe
    → (d ≡ Decision.resume_safe) × ((lock || free) ≡ true)
assess_resume Decision.no_action lock free h = cc
assess_resume Decision.resume_safe lock free h = (refl, ground arith)
assess_resume Decision.rollback_safe lock free h = cc
assess_resume Decision.block_human lock free h = cc

and_true :
    (a b : Bool) {c d : Bool} → (a && b) ≡ true → c ≡ true → d ≡ true → (a && b && c && d) ≡ true
and_true a b h i j = ground arith

pub first_decision-resume :
    (e : Evidence)
    → first_decision e ≡ Decision.resume_safe
    → ((repository_stands e && e.snapshot.valid) ≡ true)
      × (decide_by_status e e.run.status ≡ Decision.resume_safe)
unfolding first_decision
first_decision-resume e h = (ground arith, ground arith)

pub assess_run-resume :
    (e : Evidence)
    → assess_run e ≡ Decision.resume_safe
    → (first_decision e ≡ Decision.resume_safe) × ((has_lock e.lock || can_lack_lock e) ≡ true)
unfolding assess_run
assess_run-resume e h = assess_resume (first_decision e) (has_lock e.lock) (can_lack_lock e) h

-- A run is resumed on its own only if the default branch is there, checked out and clean, the
-- snapshot is valid, and the run has its lock or its merge is already done; and either it is
-- RUNNING or REVIEWING over an unmoved default branch with its clean worktree, or it is COMMITTING
-- or RECOVERING with a record of its integration and the default branch at one of the two commits.
pub resume_rests_on :
    (e : Evidence)
    → assess_run e ≡ Decision.resume_safe
    → (repository_stands e
        && e.snapshot.valid
        && (has_lock e.lock || can_lack_lock e)
        && (same_running e.run.status e.run.status && main_at_base e && worktree_stands e.repository
            || can_resume_commit e.run.status
              && has_integration e.integration
              && (main_at_base e || main_at_result e)))
      ≡ true
resume_rests_on e h =
    let (first, lock) = assess_run-resume e h in
    let (stands, by_status) = first_decision-resume e first in
    and_true (repository_stands e) e.snapshot.valid stands lock
      (decide_by_status-resume e e.run.status by_status)

running_ends : (s : RunStatus) → same_running s s ≡ true → can_resume_commit s ≡ false
running_ends RunStatus.running h = refl
running_ends RunStatus.reviewing h = refl
running_ends _ h = absurd (ground arith)

check_stale-ok :
    (age : Option ℕ) (stale_seconds : ℕ) (force : Bool) (u : Unit)
    → check_stale age stale_seconds force ≡ ok u
    → (force ≡ true) ⊎ ((n : ℕ) × (age ≡ some n) × (stale_seconds ≤ n))
unfolding check_stale
check_stale-ok age stale_seconds true u h = inl refl
check_stale-ok none stale_seconds false u h = cc
check_stale-ok (some n) stale_seconds false u h = inr (n, refl, ground arith)

-- The decision is that of the evidence, the caller expects none or this one, and the run is stale
-- or forced.
abbrev pub IsCalledFor :
    Evidence → Option RecoveryDecision → Option ℕ → ℕ → Bool → RecoveryDecision → Type 0
IsCalledFor e expected age stale_seconds force decision =
    (decision_of (assess_run e) ≡ some decision)
    × ((expected ≡ none) ⊎ (expected ≡ some decision))
    × ((force ≡ true) ⊎ ((n : ℕ) × (age ≡ some n) × (stale_seconds ≤ n)))

is_expected-same :
    (expected : Option RecoveryDecision) (decision : RecoveryDecision)
    → is_expected expected decision ≡ true
    → (expected ≡ none) ⊎ (expected ≡ some decision)
is_expected-same none decision h = inl refl
is_expected-same (some RecoveryDecision.resume_safe) RecoveryDecision.resume_safe h = inr refl
is_expected-same (some RecoveryDecision.rollback_safe) RecoveryDecision.rollback_safe h = inr refl
is_expected-same (some RecoveryDecision.block_human) RecoveryDecision.block_human h = inr refl
is_expected-same (some _) _ h = absurd (ground arith)

expects_itself : (decision : RecoveryDecision) → is_expected (some decision) decision ≡ true
expects_itself RecoveryDecision.resume_safe = refl
expects_itself RecoveryDecision.rollback_safe = refl
expects_itself RecoveryDecision.block_human = refl

same-is_expected :
    (expected : Option RecoveryDecision) (decision : RecoveryDecision)
    → (expected ≡ none) ⊎ (expected ≡ some decision)
    → is_expected expected decision ≡ true
same-is_expected expected decision (inl e) = ap (λ x. is_expected x decision) e
same-is_expected expected decision (inr e) =
    ap (λ x. is_expected x decision) e ∙ expects_itself decision

stale-check_stale :
    (age : Option ℕ) (stale_seconds : ℕ) (force : Bool)
    → (force ≡ true) ⊎ ((n : ℕ) × (age ≡ some n) × (stale_seconds ≤ n))
    → check_stale age stale_seconds force ≡ ok tt
unfolding check_stale
stale-check_stale age stale_seconds true h = refl
stale-check_stale age stale_seconds false (inl h) = cc
stale-check_stale none stale_seconds false (inr (n, e, le)) = cc
stale-check_stale (some m) stale_seconds false (inr (n, e, le)) = ground arith

called_for :
    (e : Evidence) (expected : Option RecoveryDecision) (age : Option ℕ) (stale_seconds : ℕ)
    (force : Bool) (decision : RecoveryDecision)
    → recover_check e expected age stale_seconds force ≡ ok (some decision)
    → IsCalledFor e expected age stale_seconds force decision
unfolding recover_check
called_for e expected age stale_seconds force decision =
    option_both
      (λ (r : Result RunError (Option RecoveryDecision)).
        r ≡ ok (some decision) → IsCalledFor e expected age stale_seconds force decision)
      (decision_of (assess_run e)) (λ none_found h. cc)
      (λ found same.
        if_both
          (λ (r : Result RunError (Option RecoveryDecision)).
            r ≡ ok (some decision) → IsCalledFor e expected age stale_seconds force decision)
          (not (is_expected expected found)) (λ x h. cc)
          (λ x h.
            let (u, stale, end) =
              bind_ok (check_stale age stale_seconds force) (λ checked. ok (some found)) h in
            let named : found ≡ decision = cc in
            subst (IsCalledFor e expected age stale_seconds force) named (
              same,
              is_expected-same expected found (ground arith),
              check_stale-ok age stale_seconds force u stale,
            )))

acts :
    (e : Evidence) (expected : Option RecoveryDecision) (age : Option ℕ) (stale_seconds : ℕ)
    (force : Bool) (decision : RecoveryDecision)
    → IsCalledFor e expected age stale_seconds force decision
    → recover_check e expected age stale_seconds force ≡ ok (some decision)
unfolding recover_check
acts e expected age stale_seconds force decision (called, same, stale) =
    option_both (λ (r : Result RunError (Option RecoveryDecision)). r ≡ ok (some decision))
      (decision_of (assess_run e)) (λ none_found. cc)
      (λ found found_is.
        let named : found ≡ decision = cc in
        let expects : is_expected expected found ≡ true =
          ap (is_expected expected) named ∙ same-is_expected expected decision same in
        if_both (λ (r : Result RunError (Option RecoveryDecision)). r ≡ ok (some decision))
          (not (is_expected expected found)) (λ x. absurd (ground arith))
          (λ x.
            bind-ok (check_stale age stale_seconds force) (λ checked. ok (some found)) tt
              (ok (some decision)) (stale-check_stale age stale_seconds force stale)
              (ap (λ d. ok (some d)) named)))

-- `recover_run` goes on to act on a decision exactly if the evidence calls for it, the caller named
-- that decision or none, and the heartbeat of the run is old enough or the recovery is forced.
pub recover_check-IsCalledFor :
    (e : Evidence) (expected : Option RecoveryDecision) (age : Option ℕ) (stale_seconds : ℕ)
    (force : Bool) (decision : RecoveryDecision)
    → (recover_check e expected age stale_seconds force ≡ ok (some decision))
      ↔ IsCalledFor e expected age stale_seconds force decision
recover_check-IsCalledFor e expected age stale_seconds force decision = (
  called_for e expected age stale_seconds force decision,
  acts e expected age stale_seconds force decision,
)
