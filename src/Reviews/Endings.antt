-- ===== src/Reviews/Endings.antt =====
-- `finish_assignment`, `fail_active_assignment` and `recover_active_assignments`.
use hermes_ops.Orchestrator.Tables.{Timestamp}
use hermes_ops.Prelude.{
  string_column, ℕ, suc, String, Bool, true, false, not, ◌&&◌, Option, none, some, List, [], ◌∷◌,
  leb, nat_beq, if◌then◌else◌, ◌==◌, is_some_eq, coalesce, filter, pos,
}
use hermes_ops.Prelude.Json.{Json, Fields}
use hermes_ops.Prelude.Result.{Result, ◌>>=◌, ok, err}
use hermes_ops.Reviews.Assignments.{add_review_event}
use hermes_ops.Reviews.Checks.{
  validate_assignment_id, validate_text, validate_failure_code, run_project, with_assignment,
  completion_links,
}
use hermes_ops.Reviews.Tables.{
  finish_lost, integrity, failure_lost, cannot_finish, review_required, assignment_unavailable,
  AssignmentStatus, Assignment, ReviewDb, ReviewError, is_active, is_claimed, is_assignment,
  is_active_for, reviewer_owner,
}
use hermes_ops.Sql.{update_where, fetch_one, count_where, exists_where, order_by}
use hermes_ops.Sql.Laws.{one}

abbrev pub can_finish : Assignment → (run_id execution_id : String) → Bool
can_finish a run_id execution_id =
    is_claimed a.status && a.run_id == run_id && is_some_eq a.review_execution_id execution_id

-- What an execution ended with: its review, or a failure.
pub data Ending : Type 0 where
  reviewed : String → Ending
  failed_with : String → Ending

-- A success needs a review; a failure needs a code.
unfoldable pub check_ending : Bool → Option String → String → Result ReviewError Ending
unfolding validate_failure_code
check_ending true none failure_code = err review_required
check_ending true (some review_id) failure_code =
    if review_id == "" then err review_required else ok (reviewed review_id)
check_ending false review_id failure_code =
    validate_failure_code failure_code >>= λ stored_failure. ok (failed_with stored_failure)

abbrev pub set_ended : Ending → Timestamp → Assignment → Assignment
set_ended (reviewed review_id) now a = record a {
  status = AssignmentStatus.completed;
  review_id = some review_id;
  failure_code = none;
  heartbeat_at = some now;
  finished_at = some now;
}
set_ended (failed_with code) now a = record a {
  status = AssignmentStatus.failed;
  review_id = none;
  failure_code = some code;
  heartbeat_at = some now;
  finished_at = some now;
}

abbrev pub is_reviewed_by : (review_id assignment_id : String) → Assignment → Bool
is_reviewed_by review_id assignment_id a =
    is_some_eq a.review_id review_id && not (a.assignment_id == assignment_id)

-- The constraints on an ending: the link of a completion, and the unique review.
unfoldable pub ending_admitted : ReviewDb → Assignment → (execution_id : String) → Ending → Bool
unfolding exists_where
ending_admitted db a execution_id (reviewed review_id) =
    exists_where (completion_links a execution_id review_id) db.executions
    && not (exists_where (is_reviewed_by review_id a.assignment_id) db.assignments)
ending_admitted db a execution_id (failed_with code) = true

abbrev pub ended_data : Assignment → String → Ending → Json
ended_data a execution_id (reviewed review_id) = Json.obj (
    Fields.field "assignment_number" (Json.int (pos a.assignment_number)) (
      Fields.field "review_execution_id" (Json.text execution_id) (
        Fields.field "review_present" (Json.bool true) (
          Fields.field "failure_code" Json.null
            (Fields.field "status" (Json.text "completed") Fields.end)))))
ended_data a execution_id (failed_with code) = Json.obj (
    Fields.field "assignment_number" (Json.int (pos a.assignment_number)) (
      Fields.field "review_execution_id" (Json.text execution_id) (
        Fields.field "review_present" (Json.bool false) (
          Fields.field "failure_code" (Json.text code)
            (Fields.field "status" (Json.text "failed") Fields.end)))))

abbrev pub add_ending_event :
    ReviewDb
    → Assignment
    → (project_id execution_id task_id : String) → Ending
    → Timestamp
    → Result ReviewError ReviewDb
add_ending_event db a project_id execution_id task_id (reviewed review_id) now =
    add_review_event db a project_id (some task_id) "REVIEW_ASSIGNMENT_COMPLETED" "INFO"
      "review.assignment_completed" (reviewer_owner execution_id) execution_id
      (ended_data a execution_id (reviewed review_id)) now
add_ending_event db a project_id execution_id task_id (failed_with code) now =
    add_review_event db a project_id (some task_id) "REVIEW_ASSIGNMENT_FAILED" "ERROR"
      "review.assignment_failed" (reviewer_owner execution_id) execution_id
      (ended_data a execution_id (failed_with code)) now

abbrev pub claimed_with : String → Assignment → Bool
claimed_with assignment_id a = is_assignment assignment_id a && is_claimed a.status

unfoldable pub finish_assignment :
    ReviewDb
    → (assignment_id run_id execution_id task_id : String) → Bool
    → (review_id : Option String) → (failure_code : String) → Timestamp
    → Result ReviewError ReviewDb
unfolding validate_assignment_id with_assignment run_project check_ending ending_admitted
    count_where update_where add_review_event
finish_assignment db assignment_id run_id execution_id task_id success review_id failure_code now =
    validate_assignment_id assignment_id >>= λ i. with_assignment db assignment_id (λ row.
      if not (can_finish row run_id execution_id)
      then err cannot_finish
      else (run_project db run_id >>= λ project_id.
          check_ending success review_id failure_code >>= λ ending.
          if not (ending_admitted db row execution_id ending)
          then err integrity
          else if not (nat_beq (count_where (claimed_with assignment_id) db.assignments) 1)
          then err finish_lost
          else add_ending_event
              (record db {
                assignments =
                    update_where (claimed_with assignment_id) (set_ended ending now) db.assignments;
              })
              row project_id execution_id task_id ending now))

-- `CASE WHEN status='CLAIMED' THEN COALESCE(heartbeat_at, ?) ELSE NULL END`
abbrev pub failed_heartbeat : Assignment → Timestamp → Option Timestamp
failed_heartbeat a now = if is_claimed a.status then some (coalesce a.heartbeat_at now) else none

abbrev pub set_failed : String → Timestamp → Assignment → Assignment
set_failed code now a = record a {
  status = AssignmentStatus.failed;
  review_id = none;
  failure_code = some code;
  heartbeat_at = failed_heartbeat a now;
  finished_at = some now;
}

abbrev pub active_with : String → Assignment → Bool
active_with assignment_id a = is_assignment assignment_id a && is_active a.status

abbrev pub failed_data : Assignment → String → Json
failed_data a code = Json.obj (
    Fields.field "assignment_number" (Json.int (pos a.assignment_number)) (
      Fields.field "failure_code" (Json.text code)
        (Fields.field "status" (Json.text "failed") Fields.end)))

-- The call once its row is found: `false` if the assignment had already ended.
unfoldable pub fail_row :
    ReviewDb
    → (assignment_id actor_id code : String) → Timestamp
    → Assignment
    → Result ReviewError (ReviewDb × Bool)
unfolding count_where update_where run_project add_review_event
fail_row db assignment_id actor_id code now row =
    if not (is_active row.status)
    then ok (db, false)
    else if not (nat_beq (count_where (active_with assignment_id) db.assignments) 1)
    then err failure_lost
    else (run_project db row.run_id >>= λ project_id.
        add_review_event
          (record db {
            assignments =
                update_where (active_with assignment_id) (set_failed code now) db.assignments;
          })
          row project_id none "REVIEW_ASSIGNMENT_FAILED" "ERROR" "review.assignment_failed" actor_id
          row.orchestration_attempt_id (failed_data row code) now
        >>= λ after. ok (after, true))

unfoldable pub fail_active_assignment :
    ReviewDb
    → (assignment_id actor_id failure_code : String) → Timestamp
    → Result ReviewError (ReviewDb × Bool)
unfolding validate_assignment_id validate_text validate_failure_code fetch_one fail_row
fail_active_assignment db assignment_id actor_id failure_code now =
    validate_assignment_id assignment_id >>= λ i. validate_text actor_id >>= λ a.
    validate_failure_code failure_code >>= λ code.
    elim (fetch_one (is_assignment assignment_id) db.assignments) [
      | none ↦ err assignment_unavailable
      | some row ↦ fail_row db assignment_id actor_id code now row
    ]

-- The loop over the assignments that were active at the start, and the number of those failed. One
-- time stands for the times of the calls.
unfoldable pub fail_all :
    ReviewDb → List Assignment → String → Timestamp → Result ReviewError (ReviewDb × ℕ)
unfolding fail_active_assignment
fail_all db [] actor_id now = ok (db, 0)
fail_all db (a ∷ rest) actor_id now =
    fail_active_assignment db a.assignment_id actor_id "RECOVERY_ABANDONED" now >>= λ (after, one).
    fail_all after rest actor_id now >>= λ (end, n). ok (end, if one then suc n else n)

abbrev pub number_leb : Assignment → Assignment → Bool
number_leb a b = leb a.assignment_number b.assignment_number

unfoldable pub recover_active_assignments :
    ReviewDb → (run_id actor_id : String) → Timestamp → Result ReviewError (ReviewDb × ℕ)
unfolding order_by fail_all
recover_active_assignments db run_id actor_id now =
    fail_all db (order_by number_leb (filter (is_active_for run_id) db.assignments)) actor_id now
