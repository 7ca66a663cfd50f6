-- ===== src/Runs/Resuming.antt =====
-- `apply_resume` of scripts/hermesops-recovery.py, for a run whose integration was interrupted.
use hermes_ops.Orchestrator.Tables.{RunStatus, Timestamp}
use hermes_ops.Prelude.{
  string_column, String, ◌≡◌, refl, ap, Bool, true, false, not, ◌&&◌, ◌||◌, some, List, [], ◌∷◌,
  arith, ◌==◌, is_some_eq, ==_refl, all, ◌∙◌, nat_beq, if◌then◌else◌, nat_beq_iff, option_both, sym,
}
use hermes_ops.Prelude.Result.{ok, Result, err}
use hermes_ops.Runs.Assess.{
  Decision, Evidence, same_text, is_resumable, assess_run, can_resume_integration, decide_by_status,
}
use hermes_ops.Runs.Decisions.{resume_rests_on, first_decision-resume, assess_run-resume}
use hermes_ops.Runs.Integrator.Commits.{set_completed}
use hermes_ops.Runs.Once.{is_completed}
use hermes_ops.Runs.Recovery.{
  same_running, can_resume_commit, resume_head, recoverable_with, set_recovered, resume_commit,
}
use hermes_ops.Runs.Tables.{
  integration_changed, run_changed, RecoveryDecision, RunRow, IntegrationRow, RunDb, is_run,
  locks_run, add_run_event, with_run, RunError,
}
use hermes_ops.Sql.{update_where, fetch_one, count_where, exists_where, delete_where}
use hermes_ops.Sql.Laws.{one, fetch_one-meets}
use hermes_ops.Sql.Rows.{exists-delete_none, all-updated}

abbrev pub is_completed_run : RunStatus → Bool
is_completed_run RunStatus.completed = true
is_completed_run _ = false

abbrev pub has_key : String → IntegrationRow → Bool
has_key integration_id i = i.integration_id == integration_id

-- COMPLETED, with the default branch at this commit after it.
abbrev pub completed_at : String → String → IntegrationRow → Bool
completed_at integration_id head i =
    has_key integration_id i && is_completed i.status && is_some_eq i.main_after head

-- No row of the run is in another state than COMPLETED, its lock is gone, and the integration is
-- COMPLETED at the commit.
abbrev pub IsResumed : RunDb → String → String → String → Type 0
IsResumed db run_id integration_id head =
    (all (λ r. not (is_run run_id r) || is_completed_run r.status) db.runs ≡ true)
    × (exists_where (locks_run run_id) db.locks ≡ false)
    × (exists_where (completed_at integration_id head) db.integrations ≡ true)

running_ends : (s : RunStatus) → same_running s s ≡ true → can_resume_commit s ≡ false
running_ends RunStatus.running h = refl
running_ends RunStatus.reviewing h = refl
running_ends _ h = absurd (ground arith)

head_reaches :
    (run : RunRow) (head result : String)
    → run.result_commit ≡ some result
    → (same_text (some head) run.base_commit || same_text (some head) run.result_commit) ≡ true
    → resume_head run head result true ≡ ok result
unfolding resume_head
head_reaches run head result r h = ground (
  arith,
  ap (λ c. is_some_eq c head) r,
  ap (λ c. is_some_eq c result) r,
  ==_refl result,
  string_column.same_iff result head,
)

-- The branch that the fast-forward leaves.
head_of_resumed :
    (e : Evidence) (head result : String)
    → assess_run e ≡ Decision.resume_safe
    → can_resume_commit e.run.status ≡ true
    → e.repository.repository_head ≡ some head
    → e.run.result_commit ≡ some result
    → resume_head e.run head result true ≡ ok result
unfolding resume_head
head_of_resumed e head result h c at r = head_reaches e.run head result r (
    ground (
      arith,
      resume_rests_on e h,
      running_ends e.run.status,
      ap (λ m. same_text m e.run.base_commit) at,
      ap (λ m. same_text m e.run.result_commit) at,
    ))

count-none :
    {A : Type 0} (p q : A → Bool) (rows : List A)
    → ((a : A) → q a ≡ true → p a ≡ true)
    → count_where p rows ≡ 0
    → count_where q rows ≡ 0
unfolding count_where
count-none p q [] sub h = refl
count-none p q (a ∷ rows) sub h = ground (arith, count-none p q rows sub, sub a)

-- The one row with an identifier is the one found.
count-sole :
    {A : Type 0} (p q : A → Bool) (rows : List A) (found : A)
    → ((a : A) → q a ≡ true → p a ≡ true)
    → count_where p rows ≡ 1
    → fetch_one p rows ≡ some found
    → q found ≡ true
    → count_where q rows ≡ 1
unfolding count_where fetch_one
count-sole p q [] found sub one e h = cc
count-sole p q (a ∷ rows) found sub one e h =
    ground (arith, count-none p q rows sub, count-sole p q rows found sub, sub a)

-- The tables of the last transaction.
abbrev resumed_tables : RunDb → String → RunRow → (integration_id head : String) → Timestamp → RunDb
resumed_tables db run_id run integration_id head now =
    add_run_event
      (record db {
        integrations =
            update_where (recoverable_with integration_id) (set_recovered head now) db.integrations;
        locks = delete_where (locks_run run_id) db.locks;
        runs =
            update_where (is_run run_id) (set_completed (some RecoveryDecision.resume_safe) now)
              db.runs;
      })
      run "RECOVERY_INTEGRATION_COMPLETED" "INFO"

resumed_by :
    (db : RunDb) (run : RunRow) (integration_id head : String) (now : Timestamp)
    → fetch_one (is_run run.run_id) db.runs ≡ some run
    → can_resume_commit run.status ≡ true
    → count_where (recoverable_with integration_id) db.integrations ≡ 1
    → resume_commit db run.run_id integration_id head now
      ≡ ok (resumed_tables db run.run_id run integration_id head now)
unfolding resume_commit with_run
resumed_by db run integration_id head now found can one =
    option_both
      (λ (r : Result RunError RunDb).
        r ≡ ok (resumed_tables db run.run_id run integration_id head now))
      (fetch_one (is_run run.run_id) db.runs) (λ e. cc)
      (λ row e.
        let same : row ≡ run = cc in
        let can_row : can_resume_commit row.status ≡ true =
          ap (λ (q : RunRow). can_resume_commit q.status) same ∙ can in
        let outcome : (if not (can_resume_commit row.status)
              then err run_changed
              else if nat_beq (count_where (recoverable_with integration_id) db.integrations) 1
              then ok (resumed_tables db run.run_id row integration_id head now)
              else err integration_changed)
            ≡ ok (resumed_tables db run.run_id row integration_id head now) =
          ground (
            arith,
            nat_beq_iff (count_where (recoverable_with integration_id) db.integrations) 1,
          ) in
        outcome ∙ ap (λ q. ok (resumed_tables db run.run_id q integration_id head now)) same)

exists-updated :
    {A : Type 0} (q p : A → Bool) (f : A → A) (rows : List A)
    → ((a : A) → q a ≡ true → p (f a) ≡ true)
    → count_where q rows ≡ 1
    → exists_where p (update_where q f rows) ≡ true
unfolding count_where exists_where update_where
exists-updated q p f [] h one = cc
exists-updated q p f (a ∷ rows) h one = ground (arith, exists-updated q p f rows h, h a)

ended :
    (db : RunDb) (run : RunRow) (integration_id head : String) (now : Timestamp)
    → count_where (recoverable_with integration_id) db.integrations ≡ 1
    → IsResumed
        (resumed_tables db run.run_id run integration_id head now)
        run.run_id
        integration_id
        head
ended db run integration_id head now one = (
  all-updated (is_run run.run_id) (λ r. is_completed_run r.status) _ db.runs (λ r. refl),
  exists-delete_none (locks_run run.run_id) db.locks,
  exists-updated (recoverable_with integration_id) (completed_at integration_id head)
      (set_recovered head now) db.integrations (λ i. ground (arith, ==_refl head)) one,
)

committing_resumable :
    (e : Evidence) (i : IntegrationRow)
    → decide_by_status e RunStatus.committing ≡ Decision.resume_safe
    → e.integration ≡ some i
    → is_resumable i.status ≡ true
unfolding decide_by_status
committing_resumable e i h there = ground (arith, ap can_resume_integration there)

-- What `assess_run` has seen of the integration of a COMMITTING run.
resumable_seen :
    (e : Evidence) (i : IntegrationRow)
    → assess_run e ≡ Decision.resume_safe
    → e.run.status ≡ RunStatus.committing
    → e.integration ≡ some i
    → is_resumable i.status ≡ true
resumable_seen e i h committing there =
    let (first, lock) = assess_run-resume e h in
    let (stands, by_status) = first_decision-resume e first in
    committing_resumable e i (sym (ap (decide_by_status e) committing) ∙ by_status) there

pub resume_completes :
    (e : Evidence) (db : RunDb) (i : IntegrationRow) (head result : String) (now : Timestamp)
    → assess_run e ≡ Decision.resume_safe
    → e.run.status ≡ RunStatus.committing
    → e.repository.repository_head ≡ some head
    → e.run.result_commit ≡ some result
    → e.integration ≡ some i
    → fetch_one (is_run e.run.run_id) db.runs ≡ some e.run
    → fetch_one (has_key i.integration_id) db.integrations ≡ some i
    → count_where (has_key i.integration_id) db.integrations ≡ 1
    → (resume_head e.run head result true ≡ ok result)
      × ((after : RunDb) × (resume_commit db e.run.run_id i.integration_id result now ≡ ok after)
          × IsResumed after e.run.run_id i.integration_id result)
resume_completes e db i head result now h committing at r seen found there sole =
    let can : can_resume_commit e.run.status ≡ true = ap can_resume_commit committing in
    let status = resumable_seen e i h committing seen in
    let recoverable =
      count-sole (has_key i.integration_id) (recoverable_with i.integration_id) db.integrations i
        (λ x. ground arith) sole there
        (ground (arith, fetch_one-meets (has_key i.integration_id) db.integrations i there)) in
    (
      head_of_resumed e head result h can at r,
      (
        resumed_tables db e.run.run_id e.run i.integration_id result now,
        resumed_by db e.run i.integration_id result now found can recoverable,
        ended db e.run i.integration_id result now recoverable,
      ),
    )
