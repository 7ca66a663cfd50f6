-- ===== src/Reviews/Sound.antt =====
-- What is always true of the assignments, and the writes that keep it.
use hermes_ops.Commands.Request.{is_between}
use hermes_ops.Prelude.{
  string_column, ℕ, ◌≤◌, String, ◌≡◌, ap, ◌∙◌, Bool, true, false, not, ◌&&◌, List, [], ◌∷◌, ◌++◌,
  arith, nat_beq, ◌==◌, all, nat_beq_iff,
}
use hermes_ops.Reviews.Checks.{conflicts_with, is_none}
use hermes_ops.Reviews.Tables.{
  AssignmentStatus, Assignment, is_active, is_assignment, is_active_for,
}
use hermes_ops.Sql.{update_where, count_where, exists_where}
use hermes_ops.Sql.Laws.{count-update_le, count-update_same}
use hermes_ops.Sql.Rows.{all-append_one, all-update, exists_narrow, count-append_le}

-- The CHECK of migration 019 on the columns of each status.
unfoldable pub fits_status : Assignment → AssignmentStatus → Bool
fits_status a AssignmentStatus.assigned =
    is_none a.claim_owner
    && is_none a.review_execution_id
    && is_none a.review_id
    && is_none a.failure_code
    && is_none a.claimed_at
    && is_none a.heartbeat_at
    && is_none a.finished_at
fits_status a AssignmentStatus.claimed =
    not (is_none a.claim_owner)
    && not (is_none a.review_execution_id)
    && is_none a.review_id
    && is_none a.failure_code
    && not (is_none a.claimed_at)
    && not (is_none a.heartbeat_at)
    && is_none a.finished_at
fits_status a AssignmentStatus.completed =
    not (is_none a.claim_owner)
    && not (is_none a.review_execution_id)
    && not (is_none a.review_id)
    && is_none a.failure_code
    && not (is_none a.claimed_at)
    && not (is_none a.heartbeat_at)
    && not (is_none a.finished_at)
fits_status a AssignmentStatus.failed =
    is_none a.review_id && not (is_none a.failure_code) && not (is_none a.finished_at)
fits_status a AssignmentStatus.cancelled =
    is_none a.review_id && is_none a.failure_code && not (is_none a.finished_at)

unfoldable pub is_shaped : Assignment → Bool
unfolding fits_status
is_shaped a = fits_status a a.status && is_between 1 1000 a.assignment_number

abbrev pub is_numbered : String → ℕ → Assignment → Bool
is_numbered run_id n a = a.run_id == run_id && nat_beq a.assignment_number n

-- The keys are unique, a run has at most one active assignment, and every row has the columns of
-- its status.
pub record IsSound (rows : List Assignment) : Type 0 where
  pub ids : (x : String) → count_where (is_assignment x) rows ≤ 1
  pub numbers : (run_id : String) (n : ℕ) → count_where (is_numbered run_id n) rows ≤ 1
  pub active : (run_id : String) → count_where (is_active_for run_id) rows ≤ 1
  pub shaped : all is_shaped rows ≡ true

-- An update that leaves the keys, makes no row active, and leaves the columns right.
abbrev pub KeepsAssignment : (Assignment → Bool) → (Assignment → Assignment) → Type 0
KeepsAssignment q f =
    (a : Assignment)
    → ((f a).assignment_id ≡ a.assignment_id)
      × ((f a).run_id ≡ a.run_id)
      × ((f a).assignment_number ≡ a.assignment_number)
      × ((q a && is_active (f a).status) ≡ true → is_active a.status ≡ true)
      × ((q a && is_shaped a) ≡ true → is_shaped (f a) ≡ true)

pub update-IsSound :
    (rows : List Assignment) (q : Assignment → Bool) (f : Assignment → Assignment)
    → KeepsAssignment q f
    → IsSound rows
    → IsSound (update_where q f rows)
update-IsSound rows q f k s = record {
  ids = λ x. ground (
    arith,
    s.ids x,
    count-update_same (is_assignment x) q f rows (λ a. ap (λ i. i == x) (k a).0),
  );
  numbers = λ run_id n. ground (
    arith,
    s.numbers run_id n,
    count-update_same (is_numbered run_id n) q f rows (λ a.
        let (i, r, m, live, fits) = k a in
        ap (λ y. y == run_id && nat_beq (f a).assignment_number n) r
        ∙ ap (λ m. a.run_id == run_id && nat_beq m n) m),
  );
  active = λ run_id. ground (
    arith,
    s.active run_id,
    count-update_le (is_active_for run_id) q f rows
        (λ a m h. let (i, r, number, live, rest) = k a in ground (arith, ap (λ y. y == run_id) r)),
  );
  shaped =
      all-update is_shaped is_shaped q f rows
        (λ a h m. let (i, r, number, live, fits) = k a in fits (ground arith)) (λ a h m. h)
        s.shaped;
}

-- A row is added whose keys are new, for a run with no active assignment.
pub insert-IsSound :
    (rows : List Assignment) (new : Assignment)
    → exists_where (conflicts_with new) rows ≡ false
    → exists_where (is_active_for new.run_id) rows ≡ false
    → is_shaped new ≡ true
    → IsSound rows
    → IsSound (rows ++ new ∷ [])
insert-IsSound rows new fresh idle fits s = record {
  ids = λ x. count-append_le (is_assignment x) rows new (s.ids x) (λ e.
      exists_narrow (is_assignment x) (conflicts_with new) rows
        (λ a m. ground (
          arith,
          string_column.same_iff new.assignment_id x,
          string_column.same_iff a.assignment_id x,
          string_column.same_iff a.assignment_id new.assignment_id,
        ))
        fresh);
  numbers = λ run_id n. count-append_le (is_numbered run_id n) rows new (s.numbers run_id n) (λ e.
      exists_narrow (is_numbered run_id n) (conflicts_with new) rows
        (λ a m. ground (
          arith,
          string_column.same_iff new.run_id run_id,
          string_column.same_iff a.run_id run_id,
          string_column.same_iff a.run_id new.run_id,
          nat_beq_iff new.assignment_number n,
          nat_beq_iff a.assignment_number n,
          nat_beq_iff a.assignment_number new.assignment_number,
        ))
        fresh);
  active = λ run_id. count-append_le (is_active_for run_id) rows new (s.active run_id) (λ e.
      exists_narrow (is_active_for run_id) (is_active_for new.run_id) rows
        (λ a m. ground (
          arith,
          string_column.same_iff new.run_id run_id,
          string_column.same_iff a.run_id run_id,
          string_column.same_iff a.run_id new.run_id,
        ))
        idle);
  shaped = all-append_one is_shaped rows new s.shaped fits;
}
