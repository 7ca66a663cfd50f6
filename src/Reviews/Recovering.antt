-- ===== src/Reviews/Recovering.antt =====
-- What `recover_active_assignments` leaves.
use hermes_ops.Commands.Journal.{emit}
use hermes_ops.Commands.Request.{text_length, all_chars}
use hermes_ops.Commands.Store.{Journal, JournalEvent}
use hermes_ops.Orchestrator.Tables.{Timestamp}
use hermes_ops.Prelude.{
  ◌≤◌, String, ◌≡◌, refl, inl, Bool, true, false, some, List, [], ◌∷◌, arith, all, filter, inr,
  none, Bool-cases, sym, ap, subst, ◌∙◌, not, nat_beq, nat_beq_iff, string_column, Option-cases,
  option_both, ==_refl, if_both, ℕ, ◌++◌,
}
use hermes_ops.Prelude.Result.{ok, is_ok, is_ok-value, bind-ok, Result, err}
use hermes_ops.Reviews.Assignments.{add_review_event, review_event, from_journal}
use hermes_ops.Reviews.Checks.{
  validate_assignment_id, is_text, run_project, validate_text, validate_failure_code,
  is_failure_code,
}
use hermes_ops.Reviews.Endings.{
  fail_active_assignment, fail_all, recover_active_assignments, set_failed, active_with,
  failed_data, fail_row, number_leb,
}
use hermes_ops.Reviews.Sound.{IsSound}
use hermes_ops.Reviews.Tables.{
  assignment_unavailable, Assignment, ReviewDb, is_active_for, is_active, is_assignment,
  ReviewError,
}
use hermes_ops.Sql.{fetch_one, count_where, exists_where, order_by, update_where}
use hermes_ops.Sql.Laws.{
  one, count-update_found, fetch_one-meets, count-found_and, order_by-one, order_by-none,
}
use hermes_ops.Sql.Rows.{all-fetch_one, count-not_exists, fetch_one-none, exists-count_none}

filter-none :
    {A : Type 0} (p : A → Bool) (rows : List A) → count_where p rows ≡ 0 → filter p rows ≡ []
unfolding count_where
filter-none p [] h = refl
filter-none p (r ∷ rows) h = ground (arith, filter-none p rows)

-- A run has no active assignment, or one.
filter-one :
    {A : Type 0} (p : A → Bool) (rows : List A) (a : A)
    → fetch_one p rows ≡ some a
    → count_where p rows ≤ 1
    → (filter p rows ≡ a ∷ []) × (count_where p rows ≡ 1)
unfolding count_where fetch_one
filter-one p [] a e u = cc
filter-one p (r ∷ rows) a e u = elim (Bool-cases (p r)) [
  | inl h ↦
      let none_left : count_where p rows ≡ 0 = ground arith in
      let rest = filter-none p rows none_left in
      let same : r ≡ a = ground arith in (ground (arith, rest, same), ground arith)
  | inr h ↦
      let (f, c) = filter-one p rows a (ground arith) (ground arith) in
      (ground (arith, f), ground (arith, c))
]

fetch_one-counts :
    {A : Type 0} (p k : A → Bool) (rows : List A) (a : A)
    → fetch_one p rows ≡ some a
    → k a ≡ true
    → 1 ≤ count_where k rows
unfolding count_where fetch_one
fetch_one-counts p k [] a e h = cc
fetch_one-counts p k (r ∷ rows) a e h = ground (arith, fetch_one-counts p k rows a)

fetch_one-by_key :
    {A : Type 0} (p k : A → Bool) (rows : List A) (a : A)
    → fetch_one p rows ≡ some a
    → k a ≡ true
    → count_where k rows ≤ 1
    → fetch_one k rows ≡ some a
unfolding count_where fetch_one
fetch_one-by_key p k [] a e h u = cc
fetch_one-by_key p k (r ∷ rows) a e h u =
    ground (arith, fetch_one-by_key p k rows a, fetch_one-counts p k rows a)

-- Every identifier has the form that `create_assignment` gives it.
abbrev pub has_valid_id : Assignment → Bool
has_valid_id a = is_ok (validate_assignment_id a.assignment_id)

-- The event of a failure that the recovery makes.
abbrev pub abandoned_event : (project_id : String) → Timestamp → Assignment → ℕ → JournalEvent
abandoned_event project_id now a =
    review_event a project_id "review.assignment_failed" a.orchestration_attempt_id
      (failed_data a "RECOVERY_ABANDONED") now

-- The database after an active assignment was failed.
abbrev failed_db : ReviewDb → (project_id : String) → Timestamp → Assignment → Journal → ReviewDb
failed_db db project_id now a journal = record db {
  assignments =
      update_where (active_with a.assignment_id) (set_failed "RECOVERY_ABANDONED" now)
        db.assignments;
  events =
      db.events
      ++ record {
        project_id = project_id;
        run_id = a.run_id;
        task_id = none;
        event_type = "REVIEW_ASSIGNMENT_FAILED";
        severity = "ERROR";
        assignment_id = a.assignment_id;
        payload = failed_data a "RECOVERY_ABANDONED";
        created_at = now;
      }
        ∷ [];
  journal = journal;
}

add_failed :
    (db : ReviewDb) (actor_id project_id : String) (now : Timestamp) (a : Assignment)
    (journal : Journal)
    → emit actor_id (abandoned_event project_id now a) db.journal ≡ ok journal
    → add_review_event
        (record db {
          assignments =
              update_where
                (active_with a.assignment_id)
                (set_failed "RECOVERY_ABANDONED" now)
                db.assignments;
        })
        a
        project_id
        none
        "REVIEW_ASSIGNMENT_FAILED"
        "ERROR"
        "review.assignment_failed"
        actor_id
        a.orchestration_attempt_id
        (failed_data a "RECOVERY_ABANDONED")
        now
      ≡ ok (failed_db db project_id now a journal)
unfolding add_review_event
add_failed db actor_id project_id now a journal stored =
    bind-ok (from_journal (emit actor_id (abandoned_event project_id now a) db.journal)) _ journal _
      (ap from_journal stored) refl

abandoned-code : validate_failure_code "RECOVERY_ABANDONED" ≡ ok "RECOVERY_ABANDONED"
unfolding validate_failure_code is_failure_code text_length all_chars
abandoned-code = refl

fail_row-active :
    (db : ReviewDb) (actor_id project_id : String) (now : Timestamp) (a : Assignment)
    (journal : Journal)
    → IsSound db.assignments
    → emit actor_id (abandoned_event project_id now a) db.journal ≡ ok journal
    → fetch_one (is_assignment a.assignment_id) db.assignments ≡ some a
    → is_active a.status ≡ true
    → run_project db a.run_id ≡ ok project_id
    → fail_row db a.assignment_id actor_id "RECOVERY_ABANDONED" now a
      ≡ ok (failed_db db project_id now a journal, true)
unfolding fail_row
fail_row-active db actor_id project_id now a journal s stored found live known =
    let Fails : Result ReviewError (ReviewDb × Bool) → Type 0 =
      λ r. r ≡ ok (failed_db db project_id now a journal, true) in
    if_both Fails (not (is_active a.status)) (λ h. absurd (ground arith))
      (λ h.
        if_both Fails (not (nat_beq (count_where (active_with a.assignment_id) db.assignments) 1))
          (λ lost. absurd (
            ground (
              arith,
              count-found_and (λ r. is_active r.status) (is_assignment a.assignment_id)
                  db.assignments a found (s.ids a.assignment_id),
              nat_beq_iff (count_where (active_with a.assignment_id) db.assignments) 1,
            )))
          (λ held.
            bind-ok (run_project db a.run_id) _ project_id _ known
              (bind-ok _ _ _ _ (add_failed db actor_id project_id now a journal stored) refl)))

fail_active-one :
    (db : ReviewDb) (actor_id project_id : String) (now : Timestamp) (a : Assignment)
    (journal : Journal)
    → IsSound db.assignments
    → emit actor_id (abandoned_event project_id now a) db.journal ≡ ok journal
    → has_valid_id a ≡ true
    → fetch_one (is_assignment a.assignment_id) db.assignments ≡ some a
    → is_active a.status ≡ true
    → run_project db a.run_id ≡ ok project_id
    → is_text 200 actor_id ≡ true
    → fail_active_assignment db a.assignment_id actor_id "RECOVERY_ABANDONED" now
      ≡ ok (failed_db db project_id now a journal, true)
unfolding fail_active_assignment validate_text
fail_active-one db actor_id project_id now a journal s stored valid found live known actor =
    let (i, hi) = is_ok-value (validate_assignment_id a.assignment_id) valid in
    bind-ok (validate_assignment_id a.assignment_id) _ i _ hi (
      bind-ok (validate_text actor_id) _ actor_id _ (ground arith) (
        bind-ok (validate_failure_code "RECOVERY_ABANDONED")
          (λ code. elim (fetch_one (is_assignment a.assignment_id) db.assignments) [
            | none ↦ err assignment_unavailable
            | some row ↦ fail_row db a.assignment_id actor_id code now row
          ])
          "RECOVERY_ABANDONED" _ abandoned-code
          (option_both
            (λ (r : Result ReviewError (ReviewDb × Bool)).
              r ≡ ok (failed_db db project_id now a journal, true))
            (fetch_one (is_assignment a.assignment_id) db.assignments)
            {x = err assignment_unavailable}
            {f = fail_row db a.assignment_id actor_id "RECOVERY_ABANDONED" now} (λ e. cc)
            (λ row e.
              let same : a ≡ row = cc in
              subst
                (λ r.
                  fail_row db a.assignment_id actor_id "RECOVERY_ABANDONED" now r
                  ≡ ok (failed_db db project_id now a journal, true))
                same
                (fail_row-active db actor_id project_id now a journal s stored found live known)))))

-- The recovery returns how many active assignments the run had, and leaves it none.
abbrev pub Cleared : ReviewDb → (run_id actor_id : String) → Timestamp → Type 0
Cleared db run_id actor_id now =
    (after : ReviewDb) × (recover_active_assignments db run_id actor_id now
      ≡ ok (after, count_where (is_active_for run_id) db.assignments))
    × (exists_where (is_active_for run_id) after.assignments ≡ false)

recovery-none :
    (db : ReviewDb) (run_id actor_id : String) (now : Timestamp)
    → fetch_one (is_active_for run_id) db.assignments ≡ none
    → Cleared db run_id actor_id now
unfolding recover_active_assignments fail_all
recovery-none db run_id actor_id now e =
    let absent = fetch_one-none (is_active_for run_id) db.assignments e in
    let zero = count-not_exists (is_active_for run_id) db.assignments absent in
    let nothing = filter-none (is_active_for run_id) db.assignments zero in
    let sorted = ap (order_by number_leb) nothing ∙ order_by-none number_leb in
    (
      db,
      ap (λ rows. fail_all db rows actor_id now) sorted ∙ ap (λ n. ok (db, n)) (sym zero),
      absent,
    )

-- Once the one active assignment is failed, none is active.
failed-inactive :
    (db : ReviewDb) (run_id : String) (now : Timestamp) (a : Assignment)
    → IsSound db.assignments
    → fetch_one (is_assignment a.assignment_id) db.assignments ≡ some a
    → is_active_for run_id a ≡ true
    → count_where (is_active_for run_id) db.assignments ≡ 1
    → exists_where (is_active_for run_id) (
        update_where
          (active_with a.assignment_id)
          (set_failed "RECOVERY_ABANDONED" now)
          db.assignments)
      ≡ false
failed-inactive db run_id now a s found live only = exists-count_none (is_active_for run_id) _ (
    ground (
      arith,
      count-update_found (is_active_for run_id) (is_assignment a.assignment_id)
          (λ r. is_active r.status) (set_failed "RECOVERY_ABANDONED" now) db.assignments a found
          (s.ids a.assignment_id),
    ))

recovery-one :
    (db : ReviewDb) (run_id actor_id project_id : String) (now : Timestamp) (a : Assignment)
    → IsSound db.assignments
    → fetch_one (is_active_for run_id) db.assignments ≡ some a
    → has_valid_id a ≡ true
    → run_project db run_id ≡ ok project_id
    → is_text 200 actor_id ≡ true
    → is_ok (emit actor_id (abandoned_event project_id now a) db.journal) ≡ true
    → Cleared db run_id actor_id now
unfolding recover_active_assignments fail_all
recovery-one db run_id actor_id project_id now a s first valid known actor taken =
    let (journal, stored) =
      is_ok-value (emit actor_id (abandoned_event project_id now a) db.journal) taken in
    let live = fetch_one-meets (is_active_for run_id) db.assignments a first in
    let (only, one) = filter-one (is_active_for run_id) db.assignments a first (s.active run_id) in
    let found =
      fetch_one-by_key (is_active_for run_id) (is_assignment a.assignment_id) db.assignments a first
        (==_refl a.assignment_id) (s.ids a.assignment_id) in
    let same : run_id ≡ a.run_id =
      sym ((string_column.same_iff a.run_id run_id).0 (ground arith)) in
    let own : run_project db a.run_id ≡ ok project_id =
      subst (λ r. run_project db r ≡ ok project_id) same known in
    let sorted = ap (order_by number_leb) only ∙ order_by-one number_leb a in
    let failed =
      fail_active-one db actor_id project_id now a journal s stored valid found (ground arith) own
        actor in
    (
      failed_db db project_id now a journal,
      ap (λ rows. fail_all db rows actor_id now) sorted
          ∙ bind-ok (fail_active_assignment db a.assignment_id actor_id "RECOVERY_ABANDONED" now) _
              _ _ failed refl
          ∙ ap (λ n. ok (failed_db db project_id now a journal, n)) (sym one),
      failed-inactive db run_id now a s found live one,
    )

-- With sound assignments whose identifiers have their form, the recovery of a run that exists, by an
-- actor whose name is admitted, succeeds, if the journal takes the event of the failure of the run's
-- active assignment, where it has one: it leaves the run with no active assignment and returns how
-- many it had.
pub recovery_clears :
    (db : ReviewDb) (run_id actor_id project_id : String) (now : Timestamp)
    → IsSound db.assignments
    → all has_valid_id db.assignments ≡ true
    → run_project db run_id ≡ ok project_id
    → is_text 200 actor_id ≡ true
    → ((a : Assignment)
        → fetch_one (is_active_for run_id) db.assignments ≡ some a
        → is_ok (emit actor_id (abandoned_event project_id now a) db.journal) ≡ true)
    → (after : ReviewDb) × (recover_active_assignments db run_id actor_id now
        ≡ ok (after, count_where (is_active_for run_id) db.assignments))
      × (exists_where (is_active_for run_id) after.assignments ≡ false)
recovery_clears db run_id actor_id project_id now s valid known actor taken =
    elim (Option-cases (fetch_one (is_active_for run_id) db.assignments)) [
      | inl none_active ↦ recovery-none db run_id actor_id now none_active
      | inr (a, found) ↦
          recovery-one db run_id actor_id project_id now a s found
            (all-fetch_one has_valid_id (is_active_for run_id) db.assignments a valid found) known
            actor (taken a found)
    ]
