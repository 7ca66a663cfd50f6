-- ===== src/Reviews/Keeps.antt =====
-- The operations keep the assignments sound, and leave those that have ended as they are.
use hermes_ops.Commands.Journal.{emit}
use hermes_ops.Commands.Request.{is_between}
use hermes_ops.Orchestrator.Tables.{Timestamp}
use hermes_ops.Prelude.{
  string_column, ℕ, String, ◌≡◌, refl, ap, Bool, true, false, not, ◌&&◌, some, arith, nat_beq, ◌==◌,
  option_both, if_both, ◌||◌, Option, filter, none,
}
use hermes_ops.Prelude.Json.{Json}
use hermes_ops.Prelude.Result.{Result, IfOk, IfOk-bind, IfOk-of, ok}
use hermes_ops.Reviews.Assignments.{
  add_review_event, is_attempt_of, create_assignment, can_claim, set_claimed, claim_admitted,
  assigned_with, claim_assignment, new_assignment, review_event, from_journal, created_data,
  claimed_data,
}
use hermes_ops.Reviews.Checks.{
  validate_assignment_id, validate_text, find_role, run_project, with_assignment, insert_assignment,
  is_none, validate_failure_code, conflicts_with, is_insertable,
}
use hermes_ops.Reviews.Endings.{
  can_finish, Ending, check_ending, set_ended, ending_admitted, add_ending_event, claimed_with,
  finish_assignment, set_failed, active_with, fail_row, fail_active_assignment, fail_all,
  number_leb, recover_active_assignments, ended_data, failed_data,
}
use hermes_ops.Reviews.Sound.{
  IsSound, fits_status, is_shaped, KeepsAssignment, update-IsSound, insert-IsSound,
}
use hermes_ops.Reviews.Tables.{
  AssignmentStatus, Assignment, ReviewDb, ReviewError, is_active, is_assigned, is_claimed,
  is_assignment, reviewer_owner, is_active_for,
}
use hermes_ops.Sql.{update_where, fetch_one, count_where, exists_where, order_by}
use hermes_ops.Sql.Laws.{one}
use hermes_ops.Sql.Rows.{fetch-update_other, fetch-append_one}
use mathlib.Core.List.{List, [], ◌∷◌}

abbrev pub Sound : ReviewDb → Type 0
Sound db = IsSound db.assignments

-- The row of an ended assignment stays.
abbrev pub KeepsHistory : ReviewDb → ReviewDb → Type 0
KeepsHistory db after =
    (x : String) (row : Assignment)
    → fetch_one (is_assignment x) db.assignments ≡ some row
    → is_active row.status ≡ false
    → fetch_one (is_assignment x) after.assignments ≡ some row

-- What an operation leads to: sound tables, with the history of the old ones.
abbrev pub Follows : ReviewDb → ReviewDb → Type 0
Follows db after = (Sound db → Sound after) × KeepsHistory db after

pub Follows-refl : (db : ReviewDb) → Follows db db
Follows-refl db = (λ s. s, λ x row e h. e)

pub Follows-trans : (a b c : ReviewDb) → Follows a b → Follows b c → Follows a c
Follows-trans a b c (s, k) (t, l) = (λ x. t (s x), λ x row e h. l x row (k x row e h) h)

-- An update of active rows.
update-Follows :
    (db : ReviewDb) (q : Assignment → Bool) (f : Assignment → Assignment)
    → KeepsAssignment q f
    → ((a : Assignment) → q a ≡ true → is_active a.status ≡ true)
    → Follows db (record db { assignments = update_where q f db.assignments })
update-Follows db q f k live = (
  update-IsSound db.assignments q f k,
  λ x row e h.
      fetch-update_other (is_assignment x) q f db.assignments row e (λ a. ap (λ i. i == x) (k a).0)
        (ground (arith, live row)),
)

with_assignment-IfOk :
    (P : ReviewDb → Type 0) (db : ReviewDb) (assignment_id : String)
    (use_row : Assignment → Result ReviewError ReviewDb)
    → ((a : Assignment) → IfOk P (use_row a))
    → IfOk P (with_assignment db assignment_id use_row)
unfolding with_assignment
with_assignment-IfOk P db assignment_id use_row h =
    option_both (IfOk P) (fetch_one (is_assignment assignment_id) db.assignments) (λ e. tt)
      (λ a e. h a)

insert_assignment-Follows :
    (db : ReviewDb) (new : Assignment)
    → is_shaped new ≡ true
    → IfOk (λ rows. Follows db (record db { assignments = rows })) (insert_assignment db new)
unfolding insert_assignment
insert_assignment-Follows db new fits =
    if_both (IfOk (λ rows. Follows db (record db { assignments = rows })))
      (exists_where (conflicts_with new) db.assignments
        || exists_where (is_active_for new.run_id) db.assignments
        || not (is_insertable db new))
      (λ _. tt)
      (λ fresh. (
        insert-IsSound db.assignments new (ground arith) (ground arith) fits,
        λ x row e h. fetch-append_one (is_assignment x) db.assignments new row e,
      ))

-- An event that is stored leaves the assignments alone.
add_review_event-Follows :
    (db after : ReviewDb) (a : Assignment) (project_id : String) (task_id : Option String)
    (legacy_type severity event_type actor_id causation_id : String) (payload : Json)
    (now : Timestamp)
    → Follows db after
    → IfOk (Follows db) (
        add_review_event after a project_id task_id legacy_type severity event_type actor_id
          causation_id payload now)
unfolding add_review_event
add_review_event-Follows db after a project_id task_id legacy_type severity event_type actor_id
      causation_id payload now f =
    IfOk-bind (Follows db)
      (from_journal (
        emit actor_id (review_event a project_id event_type causation_id payload now)
          after.journal))
      _ (λ journal e. f)

is_assigned-active : (s : AssignmentStatus) → is_assigned s ≡ true → is_active s ≡ true
is_assigned-active AssignmentStatus.assigned h = refl
is_assigned-active _ h = absurd (ground arith)

is_claimed-active : (s : AssignmentStatus) → is_claimed s ≡ true → is_active s ≡ true
is_claimed-active AssignmentStatus.claimed h = refl
is_claimed-active _ h = absurd (ground arith)

assigned-fits :
    (a : Assignment) (s : AssignmentStatus)
    → fits_status a s ≡ true
    → is_assigned s ≡ true
    → (is_none a.review_id && is_none a.failure_code && is_none a.finished_at) ≡ true
unfolding fits_status
assigned-fits a AssignmentStatus.assigned h e = ground arith
assigned-fits a _ h e = absurd (ground arith)

claims :
    (owner execution_id assignment_id : String) (now : Timestamp)
    → KeepsAssignment (assigned_with assignment_id) (set_claimed owner execution_id now)
unfolding is_shaped fits_status
claims owner execution_id assignment_id now a = (
  refl,
  refl,
  refl,
  λ h. is_assigned-active a.status (ground arith),
  λ h. ground (arith, assigned-fits a a.status),
)

pub create_assignment-Follows :
    (db : ReviewDb) (assignment_id run_id attempt_id : String) (number : ℕ)
    (role_id assigned_by : String) (now : Timestamp)
    → IfOk
        (Follows db)
        (create_assignment db assignment_id run_id attempt_id number role_id assigned_by now)
unfolding create_assignment is_shaped fits_status
create_assignment-Follows db assignment_id run_id attempt_id number role_id assigned_by now =
    IfOk-bind (Follows db) (validate_text run_id) _ (λ r hr.
      IfOk-bind (Follows db) (validate_text attempt_id) _ (λ t ht.
        IfOk-bind (Follows db) (validate_text assigned_by) _ (λ b hb.
          if_both (IfOk (Follows db)) (not (is_between 1 1000 number)) (λ _. tt)
            (λ numbered. IfOk-bind (Follows db) (find_role db role_id) _ (λ role hrole.
              IfOk-bind (Follows db) (run_project db run_id) _ (λ project_id hp.
                if_both (IfOk (Follows db)) (not (is_attempt_of db run_id attempt_id)) (λ _. tt)
                  (λ attempted.
                    IfOk-bind (Follows db)
                      (insert_assignment db (
                        new_assignment assignment_id run_id attempt_id number role assigned_by now))
                      _
                      (λ assignments inserted.
                        add_review_event-Follows db (record db { assignments = assignments })
                          (new_assignment assignment_id run_id attempt_id number role assigned_by
                            now)
                          project_id none "REVIEW_ASSIGNMENT_CREATED" "INFO"
                          "review.assignment_created" assigned_by attempt_id
                          (created_data number role) now
                          (IfOk-of (λ rows. Follows db (record db { assignments = rows }))
                            (insert_assignment db (
                              new_assignment assignment_id run_id attempt_id number role assigned_by
                                now))
                            assignments inserted
                            (insert_assignment-Follows db
                              (new_assignment assignment_id run_id attempt_id number role
                                assigned_by now)
                              (ground arith)))))))))))

pub claim_assignment-Follows :
    (db : ReviewDb) (assignment_id run_id role_id source_profile execution_id task_id : String)
    (now : Timestamp)
    → IfOk
        (Follows db)
        (claim_assignment db assignment_id run_id role_id source_profile execution_id task_id now)
unfolding claim_assignment
claim_assignment-Follows db assignment_id run_id role_id source_profile execution_id task_id now =
    IfOk-bind (Follows db) (validate_assignment_id assignment_id) _ (λ i hi.
      IfOk-bind (Follows db) (validate_text execution_id) _ (λ e he.
        IfOk-bind (Follows db) (validate_text task_id) _ (λ t ht.
          with_assignment-IfOk (Follows db) db assignment_id _ (λ row.
            if_both (IfOk (Follows db)) (not (can_claim row run_id role_id source_profile))
              (λ _. tt)
              (λ can.
                if_both (IfOk (Follows db))
                  (not (claim_admitted db row (reviewer_owner execution_id) execution_id)) (λ _. tt)
                  (λ admitted.
                    if_both (IfOk (Follows db))
                      (not (nat_beq (count_where (assigned_with assignment_id) db.assignments) 1))
                      (λ _. tt)
                      (λ found. IfOk-bind (Follows db) (run_project db run_id) _ (λ project_id hp.
                        add_review_event-Follows db
                          (record db {
                            assignments =
                                update_where (assigned_with assignment_id)
                                  (set_claimed (reviewer_owner execution_id) execution_id now)
                                  db.assignments;
                          })
                          row project_id (some task_id) "REVIEW_ASSIGNMENT_CLAIMED" "INFO"
                          "review.assignment_claimed" (reviewer_owner execution_id) execution_id
                          (claimed_data row execution_id) now
                          (update-Follows db (assigned_with assignment_id)
                            (set_claimed (reviewer_owner execution_id) execution_id now)
                            (claims (reviewer_owner execution_id) execution_id assignment_id now)
                            (λ a h. is_assigned-active a.status (ground arith)))))))))))

claimed-fits :
    (a : Assignment) (s : AssignmentStatus)
    → fits_status a s ≡ true
    → is_claimed s ≡ true
    → (not (is_none a.claim_owner)
        && not (is_none a.review_execution_id)
        && not (is_none a.claimed_at))
      ≡ true
unfolding fits_status
claimed-fits a AssignmentStatus.claimed h e = ground arith
claimed-fits a _ h e = absurd (ground arith)

ends :
    (ending : Ending) (assignment_id : String) (now : Timestamp)
    → KeepsAssignment (claimed_with assignment_id) (set_ended ending now)
unfolding is_shaped fits_status
ends (Ending.reviewed review_id) assignment_id now a = (
  refl,
  refl,
  refl,
  λ h. is_claimed-active a.status (ground arith),
  λ h. ground (arith, claimed-fits a a.status),
)
ends (Ending.failed_with code) assignment_id now a =
    (refl, refl, refl, λ h. is_claimed-active a.status (ground arith), λ h. ground arith)

add_ending_event-Follows :
    (db after : ReviewDb) (row : Assignment) (project_id execution_id task_id : String)
    (ending : Ending) (now : Timestamp)
    → Follows db after
    → IfOk (Follows db) (add_ending_event after row project_id execution_id task_id ending now)
add_ending_event-Follows db after row project_id execution_id task_id (Ending.reviewed r) now f =
    add_review_event-Follows db after row project_id (some task_id) "REVIEW_ASSIGNMENT_COMPLETED"
      "INFO" "review.assignment_completed" (reviewer_owner execution_id) execution_id
      (ended_data row execution_id (Ending.reviewed r)) now f
add_ending_event-Follows db after row project_id execution_id task_id (Ending.failed_with c) now f =
    add_review_event-Follows db after row project_id (some task_id) "REVIEW_ASSIGNMENT_FAILED"
      "ERROR" "review.assignment_failed" (reviewer_owner execution_id) execution_id
      (ended_data row execution_id (Ending.failed_with c)) now f

pub finish_assignment-Follows :
    (db : ReviewDb) (assignment_id run_id execution_id task_id : String) (success : Bool)
    (review_id : Option String) (failure_code : String) (now : Timestamp)
    → IfOk (Follows db) (
        finish_assignment db assignment_id run_id execution_id task_id success review_id
          failure_code now)
unfolding finish_assignment
finish_assignment-Follows db assignment_id run_id execution_id task_id success review_id
      failure_code now =
    IfOk-bind (Follows db) (validate_assignment_id assignment_id) _ (λ i hi.
      with_assignment-IfOk (Follows db) db assignment_id _ (λ row.
        if_both (IfOk (Follows db)) (not (can_finish row run_id execution_id)) (λ _. tt)
          (λ can. IfOk-bind (Follows db) (run_project db run_id) _ (λ project_id hp.
            IfOk-bind (Follows db) (check_ending success review_id failure_code) _ (λ ending he.
              if_both (IfOk (Follows db)) (not (ending_admitted db row execution_id ending))
                (λ _. tt)
                (λ admitted.
                  if_both (IfOk (Follows db))
                    (not (nat_beq (count_where (claimed_with assignment_id) db.assignments) 1))
                    (λ _. tt)
                    (λ found.
                      add_ending_event-Follows db
                        (record db {
                          assignments =
                              update_where (claimed_with assignment_id) (set_ended ending now)
                                db.assignments;
                        })
                        row project_id execution_id task_id ending now
                        (update-Follows db (claimed_with assignment_id) (set_ended ending now)
                          (ends ending assignment_id now)
                          (λ a h. is_claimed-active a.status (ground arith))))))))))

-- `fail_active_assignment` and what follows it return a value beside the tables.
abbrev pub FollowsFirst : {A : Type 0} → ReviewDb → ReviewDb × A → Type 0
FollowsFirst db (after, a) = Follows db after

fails :
    (code assignment_id : String) (now : Timestamp)
    → KeepsAssignment (active_with assignment_id) (set_failed code now)
unfolding is_shaped fits_status
fails code assignment_id now a = (refl, refl, refl, λ h. ground arith, λ h. ground arith)

pub fail_active_assignment-Follows :
    (db : ReviewDb) (assignment_id actor_id failure_code : String) (now : Timestamp)
    → IfOk (FollowsFirst db) (fail_active_assignment db assignment_id actor_id failure_code now)
unfolding fail_active_assignment fail_row
fail_active_assignment-Follows db assignment_id actor_id failure_code now =
    IfOk-bind (FollowsFirst db) (validate_assignment_id assignment_id) _ (λ i hi.
      IfOk-bind (FollowsFirst db) (validate_text actor_id) _ (λ a ha.
        IfOk-bind (FollowsFirst db) (validate_failure_code failure_code) _ (λ code hc.
          option_both (IfOk (FollowsFirst db))
            (fetch_one (is_assignment assignment_id) db.assignments) (λ e. tt)
            (λ row e.
              if_both (IfOk (FollowsFirst db)) (not (is_active row.status)) (λ _. Follows-refl db)
                (λ live.
                  if_both (IfOk (FollowsFirst db))
                    (not (nat_beq (count_where (active_with assignment_id) db.assignments) 1))
                    (λ _. tt)
                    (λ found.
                      IfOk-bind (FollowsFirst db) (run_project db row.run_id) _ (λ project_id hp.
                        let failed : ReviewDb = record db {
                          assignments =
                              update_where (active_with assignment_id) (set_failed code now)
                                db.assignments;
                        } in
                        IfOk-bind (FollowsFirst db)
                          (add_review_event failed row project_id none "REVIEW_ASSIGNMENT_FAILED"
                            "ERROR" "review.assignment_failed" actor_id row.orchestration_attempt_id
                            (failed_data row code) now)
                          (λ after. ok (after, true))
                          (λ after stored.
                            IfOk-of (Follows db)
                              (add_review_event failed row project_id none
                                "REVIEW_ASSIGNMENT_FAILED" "ERROR" "review.assignment_failed"
                                actor_id row.orchestration_attempt_id (failed_data row code) now)
                              after stored
                              (add_review_event-Follows db failed row project_id none
                                "REVIEW_ASSIGNMENT_FAILED" "ERROR" "review.assignment_failed"
                                actor_id row.orchestration_attempt_id (failed_data row code) now
                                (update-Follows db (active_with assignment_id) (set_failed code now)
                                  (fails code assignment_id now) (λ b h. ground arith)))))))))))

fail_all-Follows :
    (db : ReviewDb) (rows : List Assignment) (actor_id : String) (now : Timestamp)
    → IfOk (FollowsFirst db) (fail_all db rows actor_id now)
unfolding fail_all
fail_all-Follows db [] actor_id now = Follows-refl db
fail_all-Follows db (a ∷ rest) actor_id now =
    IfOk-bind (FollowsFirst db)
      (fail_active_assignment db a.assignment_id actor_id "RECOVERY_ABANDONED" now) _
      (λ (after, one) hf.
        IfOk-bind (FollowsFirst db) (fail_all after rest actor_id now) _ (λ (end, n) hr.
          Follows-trans db after end
            (IfOk-of (FollowsFirst db)
              (fail_active_assignment db a.assignment_id actor_id "RECOVERY_ABANDONED" now)
              (after, one) hf
              (fail_active_assignment-Follows db a.assignment_id actor_id "RECOVERY_ABANDONED" now))
            (IfOk-of (FollowsFirst after) (fail_all after rest actor_id now) (end, n) hr
              (fail_all-Follows after rest actor_id now))))

pub recover_active_assignments-Follows :
    (db : ReviewDb) (run_id actor_id : String) (now : Timestamp)
    → IfOk (FollowsFirst db) (recover_active_assignments db run_id actor_id now)
unfolding recover_active_assignments
recover_active_assignments-Follows db run_id actor_id now =
    fail_all-Follows db (order_by number_leb (filter (is_active_for run_id) db.assignments))
      actor_id now
