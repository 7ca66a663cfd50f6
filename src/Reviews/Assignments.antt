-- ===== src/Reviews/Assignments.antt =====
-- `create_assignment`, `claim_assignment` and `finish_assignment`, each within a transaction of its
-- caller. `now` is the clock.
use hermes_ops.Commands.Journal.{emit}
use hermes_ops.Commands.Request.{text_length, is_between}
use hermes_ops.Commands.Store.{ControllerError, JournalEvent}
use hermes_ops.Orchestrator.Tables.{Timestamp}
use hermes_ops.Prelude.{
  string_column, ℕ, ◌+◌, String, Bool, false, not, ◌&&◌, Option, none, some, List, [], ◌∷◌, ◌++◌,
  ltb, nat_beq, if◌then◌else◌, ◌==◌, is_some_eq, pos,
}
use hermes_ops.Prelude.Json.{Json, Fields}
use hermes_ops.Prelude.Result.{Result, ◌>>=◌, ok, err}
use hermes_ops.Reviews.Checks.{
  validate_assignment_id, validate_text, find_role, run_project, with_assignment, insert_assignment,
  claim_links,
}
use hermes_ops.Reviews.Tables.{
  journal_refused, claim_lost, integrity, attempt_mismatch, cannot_claim, sequence_exhausted,
  invalid_number, AssignmentStatus, Assignment, Role, ReviewDb, ReviewError, is_assigned,
  is_assignment, reviewer_owner,
}
use hermes_ops.Sql.{update_where, fetch_one, count_where, exists_where}

-- `next_assignment_number`
unfoldable pub max_number : String → List Assignment → ℕ
max_number run_id [] = 0
max_number run_id (a ∷ rest) =
    let below = max_number run_id rest in
    if a.run_id == run_id && ltb below a.assignment_number then a.assignment_number else below

unfoldable pub next_assignment_number : ReviewDb → String → Result ReviewError ℕ
unfolding max_number
next_assignment_number db run_id =
    let value = max_number run_id db.assignments + 1 in
    if is_between 1 1000 value then ok value else err sequence_exhausted

-- The journal's event of an assignment.
abbrev pub review_event :
    Assignment → (project_id event_type causation_id : String) → Json → Timestamp → ℕ → JournalEvent
review_event a project_id event_type causation_id payload now sequence = record {
  sequence = sequence;
  event_type = event_type;
  aggregate_type = "review";
  aggregate_id = a.assignment_id;
  causation_id = some causation_id;
  project_id = some project_id;
  objective_id = none;
  occurred_at = now;
  redacted_data_json = payload;
}

-- An error of the journal is no `ReviewerAssignmentError`: it goes through.
abbrev pub from_journal : {A : Type 0} → Result ControllerError A → Result ReviewError A
from_journal (ok a) = ok a
from_journal (err e) = err (journal_refused e)

-- `_legacy_event` and `_journal`, which each operation calls with the same data.
unfoldable pub add_review_event :
    ReviewDb
    → Assignment
    → (project_id : String) → Option String
    → (legacy_type severity event_type actor_id causation_id : String) → Json
    → Timestamp
    → Result ReviewError ReviewDb
unfolding emit
add_review_event db a project_id task_id legacy_type severity event_type actor_id causation_id
      payload now =
    from_journal
      (emit actor_id (review_event a project_id event_type causation_id payload now) db.journal)
    >>= λ journal. ok (record db {
      events =
          db.events
          ++ record {
            project_id = project_id;
            run_id = a.run_id;
            task_id = task_id;
            event_type = legacy_type;
            severity = severity;
            assignment_id = a.assignment_id;
            payload = payload;
            created_at = now;
          }
            ∷ [];
      journal = journal;
    })

abbrev pub created_data : ℕ → Role → Json
created_data number role = Json.obj (
    Fields.field "assignment_number" (Json.int (pos number)) (
      Fields.field "role_id" (Json.text role.role_id) (
        Fields.field "source_profile" (Json.text role.profile_name)
          (Fields.field "status" (Json.text "assigned") Fields.end))))

abbrev pub is_attempt_of : ReviewDb → (run_id attempt_id : String) → Bool
is_attempt_of db run_id attempt_id =
    elim (fetch_one (λ a. a.attempt_id == attempt_id) db.attempts) [
      | none ↦ false
      | some attempt ↦ is_some_eq attempt.run_id run_id
    ]

-- The row of the INSERT.
abbrev pub new_assignment :
    (assignment_id run_id attempt_id : String) → ℕ → Role → String → Timestamp → Assignment
new_assignment assignment_id run_id attempt_id number role assigned_by now = record {
  assignment_id = assignment_id;
  run_id = run_id;
  orchestration_attempt_id = attempt_id;
  assignment_number = number;
  role_id = role.role_id;
  source_profile = role.profile_name;
  status = AssignmentStatus.assigned;
  assigned_by = assigned_by;
  claim_owner = none;
  review_execution_id = none;
  review_id = none;
  failure_code = none;
  assigned_at = now;
  claimed_at = none;
  heartbeat_at = none;
  finished_at = none;
}

-- `assignment_id` is the identifier drawn.
unfoldable pub create_assignment :
    ReviewDb
    → (assignment_id run_id attempt_id : String) → ℕ
    → (role_id assigned_by : String) → Timestamp
    → Result ReviewError ReviewDb
unfolding validate_text find_role run_project fetch_one insert_assignment add_review_event
create_assignment db assignment_id run_id attempt_id number role_id assigned_by now =
    validate_text run_id >>= λ r. validate_text attempt_id >>= λ t.
    validate_text assigned_by >>= λ b.
    if not (is_between 1 1000 number)
    then err invalid_number
    else (find_role db role_id >>= λ role. run_project db run_id >>= λ project_id.
        if not (is_attempt_of db run_id attempt_id)
        then err attempt_mismatch
        else (let new =
              new_assignment assignment_id run_id attempt_id number role assigned_by now in
            insert_assignment db new >>= λ assignments.
            add_review_event (record db { assignments = assignments }) new project_id none
              "REVIEW_ASSIGNMENT_CREATED" "INFO" "review.assignment_created" assigned_by attempt_id
              (created_data number role) now))

abbrev pub can_claim : Assignment → (run_id role_id source_profile : String) → Bool
can_claim a run_id role_id source_profile =
    is_assigned a.status
    && a.run_id == run_id
    && a.role_id == role_id
    && a.source_profile == source_profile

abbrev pub set_claimed : (owner execution_id : String) → Timestamp → Assignment → Assignment
set_claimed owner execution_id now a = record a {
  status = AssignmentStatus.claimed;
  claim_owner = some owner;
  review_execution_id = some execution_id;
  claimed_at = some now;
  heartbeat_at = some now;
}

abbrev pub claimed_data : Assignment → String → Json
claimed_data a execution_id = Json.obj (
    Fields.field "assignment_number" (Json.int (pos a.assignment_number)) (
      Fields.field "review_execution_id" (Json.text execution_id) (
        Fields.field "role_id" (Json.text a.role_id)
          (Fields.field "status" (Json.text "claimed") Fields.end))))

-- The execution has another assignment.
abbrev pub is_executed_by : (execution_id assignment_id : String) → Assignment → Bool
is_executed_by execution_id assignment_id a =
    is_some_eq a.review_execution_id execution_id && not (a.assignment_id == assignment_id)

-- The constraints on a claim: the link, the unique execution, and the length of the owner.
unfoldable pub claim_admitted : ReviewDb → Assignment → (owner execution_id : String) → Bool
unfolding exists_where text_length
claim_admitted db a owner execution_id =
    exists_where (claim_links a execution_id) db.executions
    && not (exists_where (is_executed_by execution_id a.assignment_id) db.assignments)
    && is_between 1 200 (text_length owner)

abbrev pub assigned_with : String → Assignment → Bool
assigned_with assignment_id a = is_assignment assignment_id a && is_assigned a.status

unfoldable pub claim_assignment :
    ReviewDb
    → (assignment_id run_id role_id source_profile execution_id task_id : String) → Timestamp
    → Result ReviewError ReviewDb
unfolding validate_assignment_id validate_text with_assignment count_where update_where run_project
    claim_admitted add_review_event
claim_assignment db assignment_id run_id role_id source_profile execution_id task_id now =
    validate_assignment_id assignment_id >>= λ i. validate_text execution_id >>= λ e.
    validate_text task_id >>= λ t. with_assignment db assignment_id (λ row.
      let owner = reviewer_owner execution_id in
      if not (can_claim row run_id role_id source_profile)
      then err cannot_claim
      else if not (claim_admitted db row owner execution_id)
      then err integrity
      else if not (nat_beq (count_where (assigned_with assignment_id) db.assignments) 1)
      then err claim_lost
      else (run_project db run_id >>= λ project_id.
          add_review_event
            (record db {
              assignments =
                  update_where (assigned_with assignment_id) (set_claimed owner execution_id now)
                    db.assignments;
            })
            row project_id (some task_id) "REVIEW_ASSIGNMENT_CLAIMED" "INFO"
            "review.assignment_claimed" owner execution_id (claimed_data row execution_id) now))
