-- ===== src/Reviews/Checks.antt =====
-- What scripts/hermesops_review_assignment.py checks before it writes, and what the constraints of
-- migration 019 check that it does not.
use Prim.Native.Char.{code, Char}
use hermes_ops.Commands.Request.{text_length, all_chars, is_between, is_hex_char, after_prefix}
use hermes_ops.Prelude.{
  string_column, ℕ, String, Bool, true, false, not, ◌&&◌, ◌||◌, Option, none, some, List, [], ◌∷◌,
  ◌++◌, leb, nat_beq, if◌then◌else◌, ◌==◌, is_some_eq,
}
use hermes_ops.Prelude.Result.{Result, ok, err, is_ok}
use hermes_ops.Reviews.Tables.{
  role_policy, invalid_failure_code, invalid_text, run_unavailable, assignment_unavailable,
  role_unavailable, integrity, invalid_identifier, Assignment, Role, ReviewExecution, ReviewDb,
  ReviewError, is_assignment, is_active_for, is_assigned,
}
use hermes_ops.Sql.{fetch_one, exists_where}

-- `ASSIGNMENT_ID_PATTERN`
unfoldable pub validate_assignment_id : String → Result ReviewError String
unfolding after_prefix text_length all_chars
validate_assignment_id s = elim (after_prefix "review-assignment-" s) [
  | none ↦ err invalid_identifier
  | some rest ↦
      if nat_beq (text_length rest) 32 && all_chars is_hex_char rest
      then ok s
      else err invalid_identifier
]

-- No control character, and 1 to 200 characters.
unfoldable pub is_text : ℕ → String → Bool
unfolding text_length all_chars
is_text maximum s = is_between 1 maximum (text_length s) && all_chars (λ c. leb 32 (code c)) s

unfoldable pub validate_text : String → Result ReviewError String
unfolding is_text
validate_text s = if is_text 200 s then ok s else err invalid_text

-- `[A-Z]`
abbrev pub is_capital : Char → Bool
is_capital c = is_between 65 90 (code c)

-- `[A-Z0-9_]`
abbrev pub is_code_char : Char → Bool
is_code_char c = is_capital c || is_between 48 57 (code c) || nat_beq (code c) 95

-- `FAILURE_CODE_PATTERN`
unfoldable pub is_failure_code : String → Bool
unfolding text_length all_chars
is_failure_code String.[] = false
is_failure_code (String.◌∷◌ c s) =
    is_capital c && is_between 2 63 (text_length s) && all_chars is_code_char s

unfoldable pub validate_failure_code : String → Result ReviewError String
unfolding is_failure_code
validate_failure_code s = if is_failure_code s then ok s else err invalid_failure_code

abbrev pub may_review : Role → Bool
may_review r =
    r.enabled
    && r.role_kind == "reviewer"
    && r.workspace_mode == "read_only"
    && not r.may_commit
    && not r.may_push
    && not r.network_enabled

-- `_role`
unfoldable pub find_role : ReviewDb → String → Result ReviewError Role
unfolding fetch_one
find_role db role_id = elim (fetch_one (λ r. r.role_id == role_id) db.roles) [
  | none ↦ err role_unavailable
  | some role ↦ if may_review role then ok role else err role_policy
]

-- `_run_project`; the column is never NULL.
unfoldable pub run_project : ReviewDb → String → Result ReviewError String
unfolding fetch_one
run_project db run_id = elim (fetch_one (λ r. r.run_id == run_id) db.runs) [
  | none ↦ err run_unavailable
  | some run ↦ ok run.project_id
]

-- The row of an assignment, or the error that each operation raises without it.
unfoldable pub with_assignment :
    ReviewDb → String → (Assignment → Result ReviewError ReviewDb) → Result ReviewError ReviewDb
unfolding fetch_one
with_assignment db assignment_id use_row =
    elim (fetch_one (is_assignment assignment_id) db.assignments) [
      | none ↦ err assignment_unavailable
      | some row ↦ use_row row
    ]

-- `IS NULL`
abbrev pub is_none {ℓ} : {A : Type ℓ} → Option A → Bool
is_none none = true
is_none (some a) = false

-- `NEW.column IS NOT NULL AND column = NEW.column`
abbrev pub same_link : Option String → Option String → Bool
same_link none old = false
same_link (some link) old = is_some_eq old link

-- `reviewer_assignment_no_replace_insert`; the table's keys are among these.
abbrev pub conflicts_with : Assignment → Assignment → Bool
conflicts_with new a =
    a.assignment_id == new.assignment_id
    || a.run_id == new.run_id && nat_beq a.assignment_number new.assignment_number
    || a.orchestration_attempt_id == new.orchestration_attempt_id
      && nat_beq a.assignment_number new.assignment_number
    || same_link new.review_execution_id a.review_execution_id
    || same_link new.review_id a.review_id

-- `reviewer_assignment_insert_policy_guard`, for the role of the row.
abbrev pub permits : Assignment → Role → Bool
permits new r = r.role_id == new.role_id && r.profile_name == new.source_profile && may_review r

-- The columns of an ASSIGNED row that are NULL.
abbrev pub is_unclaimed : Assignment → Bool
is_unclaimed a =
    is_none a.claim_owner
    && is_none a.review_execution_id
    && is_none a.review_id
    && is_none a.failure_code
    && is_none a.claimed_at
    && is_none a.heartbeat_at
    && is_none a.finished_at

-- The checks of the columns, the policy for an insertion, and the foreign keys. A time has its form.
unfoldable pub is_insertable : ReviewDb → Assignment → Bool
unfolding exists_where text_length validate_assignment_id
is_insertable db new =
    is_ok (validate_assignment_id new.assignment_id)
    && is_between 1 1000 new.assignment_number
    && is_between 1 128 (text_length new.source_profile)
    && is_between 1 200 (text_length new.assigned_by)
    && is_assigned new.status
    && is_unclaimed new
    && exists_where (permits new) db.roles
    && exists_where (λ run. run.run_id == new.run_id) db.runs
    && exists_where (λ attempt. attempt.attempt_id == new.orchestration_attempt_id) db.attempts

-- The INSERT; the second test is `idx_reviewer_assignments_one_active_run`.
unfoldable pub insert_assignment : ReviewDb → Assignment → Result ReviewError (List Assignment)
unfolding exists_where is_insertable
insert_assignment db new =
    if exists_where (conflicts_with new) db.assignments
      || exists_where (λ a. is_active_for new.run_id a) db.assignments
      || not (is_insertable db new)
    then err integrity
    else ok (db.assignments ++ new ∷ [])

-- `reviewer_assignment_claim_link_guard`
abbrev pub claim_links : Assignment → String → ReviewExecution → Bool
claim_links a execution_id e =
    e.execution_id == execution_id
    && e.run_id == a.run_id
    && e.role_id == a.role_id
    && e.source_profile == a.source_profile
    && is_none e.review_id
    && is_none e.finished_at

-- `reviewer_assignment_completion_link_guard`
abbrev pub completion_links : Assignment → String → String → ReviewExecution → Bool
completion_links a execution_id review_id e =
    e.execution_id == execution_id
    && e.run_id == a.run_id
    && e.role_id == a.role_id
    && e.source_profile == a.source_profile
    && is_some_eq e.review_id review_id
    && not (is_none e.finished_at)
