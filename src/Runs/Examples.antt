-- ===== src/Runs/Examples.antt =====
-- A run of one project, from its begin to its integration, and what the recovery finds of it.
use hermes_ops.Orchestrator.Tables.{RunStatus, IntegrationDecision, IntegrationStatus, Db}
use hermes_ops.Prelude.{
  string_column, ◌≤◌, ◌≡◌, refl, true, false, not, ◌&&◌, ◌||◌, none, some, [], ◌∷◌, arith, ◌==◌,
  all, ◌↔◌,
}
use hermes_ops.Prelude.Result.{Result, ok, err}
use hermes_ops.Runs.Assess.{
  Decision, Repository, Evidence, is_snapshotting, worktree_stands, main_at_base, main_at_result,
  has_integration, decide_by_status, first_decision, has_lock, assess_run,
}
use hermes_ops.Runs.Decisions.{
  repository_stands, can_lack_lock, rollback_leaves_main, resume_rests_on,
  recover_check-IsCalledFor, IsCalledFor,
}
use hermes_ops.Runs.Exclusive.{is_held, works_on}
use hermes_ops.Runs.Exclusive.Rules.{Exclusive}
use hermes_ops.Runs.Guards.{begin_fails_while_at_work, is_cancelled_run, rollback_closes}
use hermes_ops.Runs.Integrating.{IntegrationBegins, integration_begins}
use hermes_ops.Runs.Integrator.{
  validate_owner, sole_status, objective_status_for_run, has_pending_approval, gate_of_plans,
  run_plan_has_active_human_gate, Settled, settle_review,
}
use hermes_ops.Runs.Integrator.Commits.{
  IntegrationDraw, integration_of, store_prepared, prepare_integration,
}
use hermes_ops.Runs.Once.{completed_for, Once}
use hermes_ops.Runs.Recovery.{
  check_stale, recover_check, same_running, can_resume_commit, resume_head, is_pending_of,
  resume_commit,
}
use hermes_ops.Runs.Resuming.{has_key, IsResumed, resume_completes}
use hermes_ops.Runs.Safe.{Reach-IsSafe, one_run_at_work, one_integration_completes}
use hermes_ops.Runs.System.{Step, Reach}
use hermes_ops.Runs.Tables.{
  project_locked, Project, resume_safe, RunRow, Lock, RunDb, is_run, locks_run, RunError, with_run,
  IntegrationRow,
}
use hermes_ops.Runs.Transaction.{
  reserve_rows, begin_reserve, begin_start, submit_store, rollback_finish, ConfigFile, load_project,
}
use hermes_ops.Sql.{update_where, fetch_one, count_where, exists_where}

abbrev or_db : Result RunError RunDb → RunDb → RunDb
or_db (ok db) other = db
or_db (err e) other = other

abbrev stored_or : Result RunError Settled → RunDb → RunDb
stored_or (ok (Settled.stored db)) other = db
stored_or _ other = other

abbrev no_orchestration : Db
no_orchestration = record {
  plans = [];
  tasks = [];
  dependencies = [];
  attempts = [];
  objectives = [];
  runs = [];
  approvals = [];
  integrations = [];
  events = [];
  objective_events = [];
}

abbrev demo : Project
demo = record { project_id = "demo"; enabled = true }

abbrev config : ConfigFile
config = ConfigFile.parsed (some "main")

abbrev idle_db : RunDb
idle_db = record {
  projects = demo ∷ [];
  runs = [];
  locks = [];
  snapshots = [];
  approvals = [];
  integrations = [];
  recoveries = [];
  events = [];
  orchestration = no_orchestration;
}

idle-IsExclusive : Exclusive idle_db
unfolding is_held count_where
idle-IsExclusive = record {
  run_ids = λ x. omega arith;
  lock_runs = λ x. omega arith;
  lock_projects = λ p. omega arith;
  held = refl;
}

idle-Once : Once idle_db
unfolding count_where
idle-Once x = omega arith

abbrev reserved_db : RunDb
reserved_db = reserve_rows idle_db "demo" "run-1" "work/run-1" "ops" "aaaa" 5

idle-reserved :
    begin_reserve idle_db "demo" "run-1" "work/run-1" "ops" config (some "aaaa") 5 ≡ ok reserved_db
unfolding begin_reserve load_project reserve_rows fetch_one exists_where
idle-reserved = refl

abbrev snapshotting_run : RunRow
snapshotting_run = record {
  run_id = "run-1";
  project_id = "demo";
  status = RunStatus.snapshotting;
  recovery_decision = none;
  base_commit = some "aaaa";
  result_commit = none;
  branch_name = "work/run-1";
  transaction_owner = some "ops";
  heartbeat_at = 5;
  submitted_at = none;
  finished_at = none;
}

abbrev started_db : RunDb
started_db = or_db (begin_start reserved_db "run-1" "snapshot-1" 6) idle_db

reserved-started : begin_start reserved_db "run-1" "snapshot-1" 6 ≡ ok started_db
unfolding begin_start with_run fetch_one reserve_rows update_where
reserved-started = refl

reserved-fetch : fetch_one (is_run "run-1") reserved_db.runs ≡ some snapshotting_run
unfolding reserve_rows fetch_one
reserved-fetch = refl

abbrev running_run : RunRow
running_run = record snapshotting_run { status = RunStatus.running; heartbeat_at = 6 }

abbrev submitted_db : RunDb
submitted_db = submit_store started_db running_run "bbbb" 7

abbrev reviewed_run : RunRow
reviewed_run = record running_run {
  status = RunStatus.reviewing;
  result_commit = some "bbbb";
  heartbeat_at = 7;
  submitted_at = some 7;
}

abbrev draw : IntegrationDraw
draw = record {
  integration_id = "integration-1";
  approval_id = "approval-1";
  main_before = some "aaaa";
  now = 8;
}

abbrev prepared_db : RunDb
prepared_db =
    stored_or (prepare_integration submitted_db reviewed_run "ops" draw IntegrationDecision.approve)
      idle_db

submitted-prepared :
    prepare_integration submitted_db reviewed_run "ops" draw IntegrationDecision.approve
    ≡ ok (Settled.stored prepared_db)
unfolding begin_start with_run fetch_one reserve_rows update_where submit_store prepare_integration
    settle_review store_prepared validate_owner objective_status_for_run sole_status
    run_plan_has_active_human_gate gate_of_plans has_pending_approval count_where exists_where
submitted-prepared = refl

idle-Reach : Reach idle_db prepared_db
idle-Reach =
    Reach.next
      (Reach.next
        (Reach.next
          (Reach.next Reach.begin
            (Step.reserved "demo" "run-1" "work/run-1" "ops" config (some "aaaa") 5 idle-reserved))
          (Step.started "run-1" "snapshot-1" 6 snapshotting_run reserved-fetch refl
            reserved-started))
        (Step.submitted running_run "bbbb" 7 refl))
      (Step.prepared reviewed_run "ops" draw IntegrationDecision.approve submitted-prepared)

one_run_at_work_example : count_where (works_on "demo") prepared_db.runs ≤ 1
one_run_at_work_example =
    one_run_at_work idle_db prepared_db "demo" idle-Reach idle-IsExclusive idle-Once

one_integration_completes_example : count_where (completed_for "run-1") prepared_db.integrations ≤ 1
one_integration_completes_example =
    one_integration_completes idle_db prepared_db "run-1" idle-Reach idle-IsExclusive idle-Once

submitted-sole : count_where (is_run "run-1") submitted_db.runs ≤ 1
unfolding begin_start with_run fetch_one reserve_rows update_where submit_store count_where
submitted-sole = omega arith

integration_begins_example : IntegrationBegins submitted_db reviewed_run "ops" draw prepared_db
integration_begins_example =
    integration_begins submitted_db reviewed_run "ops" draw IntegrationDecision.approve prepared_db
      submitted-sole submitted-prepared

prepared-at_work :
    fetch_one (works_on "demo") prepared_db.runs
    ≡ some (record reviewed_run { status = RunStatus.committing; heartbeat_at = 8 })
unfolding begin_start with_run fetch_one reserve_rows update_where submit_store prepare_integration
    settle_review store_prepared validate_owner objective_status_for_run sole_status
    run_plan_has_active_human_gate gate_of_plans has_pending_approval count_where exists_where
prepared-at_work = refl

prepared-demo : fetch_one (λ p. p.project_id == "demo") prepared_db.projects ≡ some demo
unfolding begin_start with_run fetch_one reserve_rows update_where submit_store prepare_integration
    settle_review store_prepared validate_owner objective_status_for_run sole_status
    run_plan_has_active_human_gate gate_of_plans has_pending_approval count_where exists_where
prepared-demo = refl

begin_fails_while_at_work_example :
    begin_reserve prepared_db "demo" "run-2" "work/run-2" "ops" config (some "aaaa") 9
    ≡ err project_locked
begin_fails_while_at_work_example =
    begin_fails_while_at_work prepared_db demo "run-2" "work/run-2" "ops" "main" (some "aaaa") 9
      (record reviewed_run { status = RunStatus.committing; heartbeat_at = 8 })
      (Reach-IsSafe idle_db prepared_db idle-Reach (idle-IsExclusive, idle-Once)).0 prepared-demo
      refl prepared-at_work

rollback_closes_example :
    let after = rollback_finish submitted_db reviewed_run 9 in
    (exists_where (locks_run "run-1") after.locks ≡ false)
    × (exists_where (is_pending_of "run-1") after.approvals ≡ false)
    × (all (λ r. not (is_run "run-1" r) || is_cancelled_run r.status) after.runs ≡ true)
rollback_closes_example = rollback_closes submitted_db reviewed_run 9

abbrev clean_repository : Repository
clean_repository = record {
  default_branch = some "main";
  repository_present = true;
  repository_branch = some "main";
  repository_head = some "aaaa";
  repository_clean = true;
  worktree_present = true;
  worktree_registered = true;
  worktree_clean = true;
  worktree_branch = some "work/run-1";
  worktree_head = some "bbbb";
  base_is_ancestor = true;
}

abbrev lock : Lock
lock = record {
  project_id = "demo";
  run_id = "run-1";
  holder = "ops";
  acquired_at = 5;
  heartbeat_at = 7;
}

-- The recovery finds an integration that stopped before the fast-forward.
abbrev committing_evidence : Evidence
committing_evidence = record {
  run = record reviewed_run { status = RunStatus.committing };
  lock = some lock;
  snapshot = record { present = true; valid = true };
  repository = clean_repository;
  integration = some (
      integration_of "integration-1" reviewed_run IntegrationDecision.approve
        IntegrationStatus.prepared (some "aaaa") none none 8);
}

-- The worktree of a RUNNING run is gone.
abbrev gone_evidence : Evidence
gone_evidence = record committing_evidence {
  run = running_run;
  repository = record clean_repository {
    worktree_present = false;
    worktree_registered = false;
    worktree_clean = false;
  };
  integration = none;
}

committing-resume : assess_run committing_evidence ≡ Decision.resume_safe
unfolding assess_run first_decision decide_by_status
committing-resume = refl

gone-rollback : assess_run gone_evidence ≡ Decision.rollback_safe
unfolding assess_run first_decision decide_by_status
gone-rollback = refl

rollback_leaves_main_example :
    (repository_stands gone_evidence
      && (main_at_base gone_evidence
          || is_snapshotting RunStatus.running && main_at_result gone_evidence))
    ≡ true
rollback_leaves_main_example = rollback_leaves_main gone_evidence gone-rollback

resume_rests_on_example :
    (repository_stands committing_evidence
      && true
      && (has_lock committing_evidence.lock || can_lack_lock committing_evidence)
      && (same_running RunStatus.committing RunStatus.committing
            && main_at_base committing_evidence
            && worktree_stands clean_repository
          || can_resume_commit RunStatus.committing
            && has_integration committing_evidence.integration
            && (main_at_base committing_evidence || main_at_result committing_evidence)))
    ≡ true
resume_rests_on_example = resume_rests_on committing_evidence committing-resume

abbrev prepared_integration : IntegrationRow
prepared_integration =
    integration_of "integration-1" reviewed_run IntegrationDecision.approve
      IntegrationStatus.prepared (some "aaaa") none none 8

abbrev committing_db : RunDb
committing_db = record idle_db {
  runs = committing_evidence.run ∷ [];
  locks = lock ∷ [];
  integrations = prepared_integration ∷ [];
}

run-committing : fetch_one (is_run "run-1") committing_db.runs ≡ some committing_evidence.run
unfolding fetch_one
run-committing = refl

integration-found :
    fetch_one (has_key "integration-1") committing_db.integrations ≡ some prepared_integration
unfolding fetch_one
integration-found = refl

integration-sole : count_where (has_key "integration-1") committing_db.integrations ≡ 1
unfolding count_where
integration-sole = refl

resume_completes_example :
    (resume_head committing_evidence.run "aaaa" "bbbb" true ≡ ok "bbbb")
    × ((after : RunDb) × (resume_commit committing_db "run-1" "integration-1" "bbbb" 9 ≡ ok after)
        × IsResumed after "run-1" "integration-1" "bbbb")
resume_completes_example =
    resume_completes committing_evidence committing_db prepared_integration "aaaa" "bbbb" 9
      committing-resume refl refl refl refl run-committing integration-found integration-sole

called-for : recover_check committing_evidence none (some 901) 900 false ≡ ok (some resume_safe)
unfolding recover_check check_stale assess_run first_decision decide_by_status
called-for = refl

recover_check-IsCalledFor_example :
    (recover_check committing_evidence (some resume_safe) (some 901) 900 false
      ≡ ok (some resume_safe))
    ↔ IsCalledFor committing_evidence (some resume_safe) (some 901) 900 false resume_safe
recover_check-IsCalledFor_example =
    recover_check-IsCalledFor committing_evidence (some resume_safe) (some 901) 900 false
      resume_safe
