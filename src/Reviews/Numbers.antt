-- ===== src/Reviews/Numbers.antt =====
-- The numbers of the assignments of a run.
use hermes_ops.Commands.Request.{is_between}
use hermes_ops.Prelude.{
  string_column, ℕ, ◌+◌, ◌≤◌, ◌<◌, String, ◌≡◌, refl, ◌⊎◌, inl, inr, true, false, ◌&&◌, List, [],
  ◌∷◌, arith, nat_beq_iff, ◌==◌, if_both, leb, ltb, Bool, Bool-cases,
}
use hermes_ops.Prelude.Result.{ok, err, Result}
use hermes_ops.Reviews.Assignments.{max_number, next_assignment_number}
use hermes_ops.Reviews.Sound.{is_numbered}
use hermes_ops.Reviews.Tables.{sequence_exhausted, Assignment, ReviewDb, ReviewError}
use hermes_ops.Sql.{exists_where}
use hermes_ops.Sql.Rows.{exists_narrow}

-- An assignment of the run with at least this number.
abbrev pub reaches : String → ℕ → Assignment → Bool
reaches run_id n a = a.run_id == run_id && leb n a.assignment_number

max_number-reached :
    (run_id : String) (n : ℕ) (rows : List Assignment)
    → max_number run_id rows < n
    → exists_where (reaches run_id n) rows ≡ false
unfolding max_number exists_where
max_number-reached run_id n [] h = refl
max_number-reached run_id n (a ∷ rows) h = ground (arith, max_number-reached run_id n rows)

max_number-taken :
    (run_id : String) (rows : List Assignment)
    → (max_number run_id rows ≡ 0)
      ⊎ (exists_where (is_numbered run_id (max_number run_id rows)) rows ≡ true)
unfolding max_number exists_where
max_number-taken run_id [] = inl refl
max_number-taken run_id (a ∷ rows) =
    let below = max_number run_id rows in
    if_both (λ n. (n ≡ 0) ⊎ (exists_where (is_numbered run_id n) (a ∷ rows) ≡ true))
      (a.run_id == run_id && ltb below a.assignment_number)
      (λ own. inr (ground (arith, nat_beq_iff a.assignment_number a.assignment_number)))
      (λ other. elim (max_number-taken run_id rows) [
        | inl none_yet ↦ inl none_yet
        | inr held ↦ inr (ground arith)
      ])

-- The number that comes next for a run is between 1 and 1000; every assignment of the run has a
-- smaller one, and it is 1 or the number after that of an assignment of the run. Where no number
-- comes next, an assignment of the run has the number 1000 or a greater one.
pub next_assignment_number-follows :
    (db : ReviewDb) (run_id : String)
    → ((n : ℕ) × (next_assignment_number db run_id ≡ ok n)
        × (1 ≤ n)
        × (n ≤ 1000)
        × (exists_where (reaches run_id n) db.assignments ≡ false)
        × ((n ≡ 1)
            ⊎ ((m : ℕ) × (n ≡ m + 1)
                × (exists_where (is_numbered run_id m) db.assignments ≡ true))))
      ⊎ ((next_assignment_number db run_id ≡ err sequence_exhausted)
          × (exists_where (reaches run_id 1000) db.assignments ≡ true))
unfolding next_assignment_number
next_assignment_number-follows db run_id =
    let top = max_number run_id db.assignments in
    let Follows : Result ReviewError ℕ → Type 0 = λ r.
      ((n : ℕ) × (r ≡ ok n)
        × (1 ≤ n)
        × (n ≤ 1000)
        × (exists_where (reaches run_id n) db.assignments ≡ false)
        × ((n ≡ 1)
            ⊎ ((m : ℕ) × (n ≡ m + 1)
                × (exists_where (is_numbered run_id m) db.assignments ≡ true))))
      ⊎ ((r ≡ err sequence_exhausted)
          × (exists_where (reaches run_id 1000) db.assignments ≡ true)) in
    if_both Follows (is_between 1 1000 (top + 1))
      (λ between. inl (
        top + 1,
        refl,
        omega arith,
        ground arith,
        max_number-reached run_id (top + 1) db.assignments (omega arith),
        elim (max_number-taken run_id db.assignments) [
          | inl none_yet ↦ inl (omega (arith, none_yet))
          | inr held ↦ inr (top, refl, held)
        ],
      ))
      (λ outside. inr (
        refl,
        elim (max_number-taken run_id db.assignments) [
          | inl none_yet ↦ absurd (ground (arith, none_yet))
          | inr held ↦ elim (Bool-cases (exists_where (reaches run_id 1000) db.assignments)) [
            | inl high ↦ high
            | inr low ↦
                let unheld =
                  exists_narrow (is_numbered run_id top) (reaches run_id 1000) db.assignments
                    (λ a h. ground (arith, nat_beq_iff a.assignment_number top)) low in
                absurd (ground arith)
          ]
        ],
      ))
