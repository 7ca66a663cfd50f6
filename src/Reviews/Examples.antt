-- ===== src/Reviews/Examples.antt =====
-- A reviewer is assigned to a run, claims the assignment, and is abandoned.
use hermes_ops.Commands.Journal.{emit}
use hermes_ops.Commands.Request.{text_length, all_chars, after_prefix}
use hermes_ops.Prelude.{
  string_column, String, ◌≡◌, refl, true, false, none, some, [], ◌∷◌, arith, ◌==◌, all, ℕ, ◌+◌, ◌≤◌,
  subst, ◌⊎◌,
}
use hermes_ops.Prelude.Result.{Result, ok, err, is_ok}
use hermes_ops.Reviews.Assignments.{
  next_assignment_number, add_review_event, new_assignment, create_assignment, claim_admitted,
  claim_assignment, set_claimed,
}
use hermes_ops.Reviews.Checks.{
  validate_assignment_id, is_text, validate_text, find_role, run_project, with_assignment,
  insert_assignment, is_insertable,
}
use hermes_ops.Reviews.Numbers.{next_assignment_number-follows, reaches}
use hermes_ops.Reviews.Recovering.{has_valid_id, Cleared, recovery_clears, abandoned_event}
use hermes_ops.Reviews.Sound.{IsSound, is_numbered}
use hermes_ops.Reviews.System.{Step, Reach, Reach-stays-IsSound, Reach-keeps_history}
use hermes_ops.Reviews.Tables.{
  sequence_exhausted, AssignmentStatus, Assignment, Role, ReviewDb, ReviewError, is_assignment,
  is_active_for,
}
use hermes_ops.Sql.{update_where, fetch_one, count_where, exists_where}

abbrev value_or : Result ReviewError ReviewDb → ReviewDb → ReviewDb
value_or (ok db) other = db
value_or (err e) other = other

abbrev role : Role
role = record {
  role_id = "security-reviewer";
  profile_name = "ops-security";
  role_kind = "reviewer";
  workspace_mode = "read_only";
  may_commit = false;
  may_push = false;
  network_enabled = false;
  enabled = true;
}

abbrev idle_db : ReviewDb
idle_db = record {
  assignments = [];
  roles = role ∷ [];
  runs = record { run_id = "run-1"; project_id = "demo" } ∷ [];
  attempts = record { attempt_id = "attempt-1"; run_id = some "run-1" } ∷ [];
  executions =
      record {
        execution_id = "execution-1";
        run_id = "run-1";
        role_id = "security-reviewer";
        source_profile = "ops-security";
        review_id = none;
        finished_at = none;
      }
      ∷ [];
  events = [];
  journal = record {
    screen = record {
      is_forbidden = λ s. s == "secret";
      is_sensitive = λ key. key == "token";
      encoded_size = λ data_json. 200;
    };
    rows = [];
    last = 0;
  };
}

abbrev assignment_id : String
assignment_id = "review-assignment-0123456789abcdef0123456789abcdef"

idle-IsSound : IsSound idle_db.assignments
unfolding count_where
idle-IsSound = record {
  ids = λ x. omega arith;
  numbers = λ r n. omega arith;
  active = λ r. omega arith;
  shaped = refl;
}

abbrev created_db : ReviewDb
created_db =
    value_or
      (create_assignment idle_db assignment_id "run-1" "attempt-1" 1 "security-reviewer"
        "orchestrator" 5)
      idle_db

idle-created :
    create_assignment idle_db assignment_id "run-1" "attempt-1" 1 "security-reviewer" "orchestrator"
      5
    ≡ ok created_db
unfolding create_assignment validate_text is_text find_role run_project fetch_one insert_assignment
    add_review_event text_length all_chars exists_where emit is_insertable validate_assignment_id
    after_prefix
idle-created = refl

abbrev claimed_db : ReviewDb
claimed_db =
    value_or
      (claim_assignment created_db assignment_id "run-1" "security-reviewer" "ops-security"
        "execution-1" "task-1" 6)
      idle_db

created-claimed :
    claim_assignment created_db assignment_id "run-1" "security-reviewer" "ops-security"
      "execution-1" "task-1" 6
    ≡ ok claimed_db
unfolding create_assignment validate_text is_text find_role run_project fetch_one insert_assignment
    add_review_event text_length all_chars exists_where emit claim_assignment validate_assignment_id
    after_prefix with_assignment claim_admitted count_where update_where is_insertable
created-claimed = refl

idle-Reach : Reach idle_db claimed_db
idle-Reach =
    Reach.next
      (Reach.next Reach.begin (
        Step.created assignment_id "run-1" "attempt-1" 1 "security-reviewer" "orchestrator" 5
          idle-created))
      (Step.claimed assignment_id "run-1" "security-reviewer" "ops-security" "execution-1" "task-1"
        6 created-claimed)

Reach-stays-IsSound_example : IsSound claimed_db.assignments
Reach-stays-IsSound_example = Reach-stays-IsSound idle_db claimed_db idle-Reach idle-IsSound

abbrev ended : Assignment
ended = record {
  assignment_id = "review-assignment-ffffffffffffffffffffffffffffffff";
  run_id = "run-1";
  orchestration_attempt_id = "attempt-0";
  assignment_number = 1;
  role_id = "security-reviewer";
  source_profile = "ops-security";
  status = AssignmentStatus.failed;
  assigned_by = "orchestrator";
  claim_owner = none;
  review_execution_id = none;
  review_id = none;
  failure_code = some "RECOVERY_ABANDONED";
  assigned_at = 1;
  claimed_at = none;
  heartbeat_at = none;
  finished_at = some 2;
}

-- The assignments of a run that was recovered once before.
abbrev second_db : ReviewDb
second_db = record idle_db { assignments = ended ∷ [] }

abbrev second_created : ReviewDb
second_created =
    value_or
      (create_assignment second_db assignment_id "run-1" "attempt-1" 2 "security-reviewer"
        "orchestrator" 5)
      idle_db

second-created :
    create_assignment second_db assignment_id "run-1" "attempt-1" 2 "security-reviewer"
      "orchestrator" 5
    ≡ ok second_created
unfolding create_assignment validate_text is_text find_role run_project fetch_one insert_assignment
    add_review_event text_length all_chars exists_where emit is_insertable validate_assignment_id
    after_prefix
second-created = refl

second-ended :
    fetch_one
      (is_assignment "review-assignment-ffffffffffffffffffffffffffffffff")
      second_db.assignments
    ≡ some ended
unfolding fetch_one
second-ended = refl

Reach-keeps_history_example :
    fetch_one
      (is_assignment "review-assignment-ffffffffffffffffffffffffffffffff")
      second_created.assignments
    ≡ some ended
Reach-keeps_history_example =
    Reach-keeps_history second_db second_created
      "review-assignment-ffffffffffffffffffffffffffffffff" ended
      (Reach.next Reach.begin (
        Step.created assignment_id "run-1" "attempt-1" 2 "security-reviewer" "orchestrator" 5
          second-created))
      second-ended refl

claimed-valid : all has_valid_id claimed_db.assignments ≡ true
unfolding create_assignment validate_text is_text find_role run_project fetch_one insert_assignment
    add_review_event text_length all_chars exists_where emit claim_assignment validate_assignment_id
    after_prefix with_assignment claim_admitted count_where update_where is_insertable
claimed-valid = refl

claimed-project : run_project claimed_db "run-1" ≡ ok "demo"
unfolding create_assignment validate_text is_text find_role run_project fetch_one insert_assignment
    add_review_event text_length all_chars exists_where emit claim_assignment validate_assignment_id
    after_prefix with_assignment claim_admitted count_where update_where is_insertable
claimed-project = refl

supervisor-text : is_text 200 "supervisor" ≡ true
unfolding is_text text_length all_chars
supervisor-text = refl

abbrev claimed_row : Assignment
claimed_row =
    set_claimed "reviewer:execution-1" "execution-1" 6
      (new_assignment assignment_id "run-1" "attempt-1" 1 role "orchestrator" 5)

claimed-active : fetch_one (is_active_for "run-1") claimed_db.assignments ≡ some claimed_row
unfolding create_assignment validate_text is_text find_role run_project fetch_one insert_assignment
    add_review_event text_length all_chars exists_where emit claim_assignment validate_assignment_id
    after_prefix with_assignment claim_admitted count_where update_where is_insertable
claimed-active = refl

row-taken :
    is_ok (emit "supervisor" (abandoned_event "demo" 9 claimed_row) claimed_db.journal) ≡ true
unfolding create_assignment validate_text is_text find_role run_project fetch_one insert_assignment
    add_review_event text_length all_chars exists_where emit claim_assignment validate_assignment_id
    after_prefix with_assignment claim_admitted count_where update_where is_insertable
row-taken = refl

claimed-taken :
    (a : Assignment)
    → fetch_one (is_active_for "run-1") claimed_db.assignments ≡ some a
    → is_ok (emit "supervisor" (abandoned_event "demo" 9 a) claimed_db.journal) ≡ true
claimed-taken a e =
    let own = claimed-active in
    let same : claimed_row ≡ a = cc in
    subst (λ r. is_ok (emit "supervisor" (abandoned_event "demo" 9 r) claimed_db.journal) ≡ true)
      same row-taken

recovery_clears_example : Cleared claimed_db "run-1" "supervisor" 9
recovery_clears_example =
    recovery_clears claimed_db "run-1" "supervisor" "demo" 9
      (Reach-stays-IsSound idle_db claimed_db idle-Reach idle-IsSound) claimed-valid claimed-project
      supervisor-text claimed-taken

next_assignment_number-follows_example :
    ((n : ℕ) × (next_assignment_number second_db "run-1" ≡ ok n)
      × (1 ≤ n)
      × (n ≤ 1000)
      × (exists_where (reaches "run-1" n) second_db.assignments ≡ false)
      × ((n ≡ 1)
          ⊎ ((m : ℕ) × (n ≡ m + 1)
              × (exists_where (is_numbered "run-1" m) second_db.assignments ≡ true))))
    ⊎ ((next_assignment_number second_db "run-1" ≡ err sequence_exhausted)
        × (exists_where (reaches "run-1" 1000) second_db.assignments ≡ true))
next_assignment_number-follows_example = next_assignment_number-follows second_db "run-1"
