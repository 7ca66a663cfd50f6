-- ===== src/Reviews/System.antt =====
-- The operations on assignments in any order: each runs within a transaction of its caller, and
use hermes_ops.Orchestrator.Tables.{Timestamp}
use hermes_ops.Prelude.{ℕ, String, ◌≡◌, sym, subst, Bool, false, Option, some}
use hermes_ops.Prelude.Result.{IfOk-of, ok}
use hermes_ops.Reviews.Assignments.{create_assignment, claim_assignment}
use hermes_ops.Reviews.Endings.{
  finish_assignment, fail_active_assignment, recover_active_assignments,
}
use hermes_ops.Reviews.Keeps.{
  Follows, Follows-refl, Follows-trans, create_assignment-Follows, claim_assignment-Follows,
  finish_assignment-Follows, FollowsFirst, fail_active_assignment-Follows,
  recover_active_assignments-Follows,
}
use hermes_ops.Reviews.Sound.{IsSound}
use hermes_ops.Reviews.Tables.{Assignment, ReviewDb, is_active, is_assignment}
use hermes_ops.Sql.{fetch_one}

-- SQLite runs one such transaction at a time. The other tables may change between two of them.

pub data Step (db after : ReviewDb) : Type 0 where
  created :
      (assignment_id run_id attempt_id : String) (number : ℕ) (role_id assigned_by : String)
      (now : Timestamp)
      → create_assignment db assignment_id run_id attempt_id number role_id assigned_by now
        ≡ ok after
      → Step db after
  claimed :
      (assignment_id run_id role_id source_profile execution_id task_id : String) (now : Timestamp)
      → claim_assignment db assignment_id run_id role_id source_profile execution_id task_id now
        ≡ ok after
      → Step db after
  finished :
      (assignment_id run_id execution_id task_id : String) (success : Bool)
      (review_id : Option String) (failure_code : String) (now : Timestamp)
      → finish_assignment db assignment_id run_id execution_id task_id success review_id
          failure_code now
        ≡ ok after
      → Step db after
  failed :
      (assignment_id actor_id failure_code : String) (now : Timestamp) (changed : Bool)
      → fail_active_assignment db assignment_id actor_id failure_code now ≡ ok (after, changed)
      → Step db after
  recovered :
      (run_id actor_id : String) (now : Timestamp) (n : ℕ)
      → recover_active_assignments db run_id actor_id now ≡ ok (after, n)
      → Step db after
  others_changed : after.assignments ≡ db.assignments → Step db after

pub data Reach (start : ReviewDb) : ReviewDb → Type 0 where
  begin : Reach start start
  next : {db after : ReviewDb} → Reach start db → Step db after → Reach start after

Step-Follows : (db after : ReviewDb) → Step db after → Follows db after
Step-Follows db after (Step.created i r t n o b now e) =
    IfOk-of (Follows db) _ after e (create_assignment-Follows db i r t n o b now)
Step-Follows db after (Step.claimed i r o p x t now e) =
    IfOk-of (Follows db) _ after e (claim_assignment-Follows db i r o p x t now)
Step-Follows db after (Step.finished i r x t s v c now e) =
    IfOk-of (Follows db) _ after e (finish_assignment-Follows db i r x t s v c now)
Step-Follows db after (Step.failed i a c now changed e) =
    IfOk-of (FollowsFirst db) _ (after, changed) e (fail_active_assignment-Follows db i a c now)
Step-Follows db after (Step.recovered r a now n e) =
    IfOk-of (FollowsFirst db) _ (after, n) e (recover_active_assignments-Follows db r a now)
Step-Follows db after (Step.others_changed same) = (
  λ s. subst IsSound (sym same) s,
  λ x row e h. subst (λ rows. fetch_one (is_assignment x) rows ≡ some row) (sym same) e,
)

Reach-Follows : (start db : ReviewDb) → Reach start db → Follows start db
Reach-Follows start db Reach.begin = Follows-refl start
Reach-Follows start db (Reach.next {db = middle} reach step) =
    Follows-trans start middle db (Reach-Follows start middle reach) (Step-Follows middle db step)

-- From sound assignments every sequence of operations leads to sound ones: identifiers and the
-- numbers within a run stay unique, a run never has two active assignments, each number is between
-- 1 and 1000, and each row has exactly the columns that migration 019 asks of its status, so that
-- this check of the table never fails.
pub Reach-stays-IsSound :
    (start db : ReviewDb) → Reach start db → IsSound start.assignments → IsSound db.assignments
Reach-stays-IsSound start db reach s = (Reach-Follows start db reach).0 s

-- An assignment that has ended is never changed or lost, whatever operations follow: the triggers
-- that keep the history never fire.
pub Reach-keeps_history :
    (start db : ReviewDb) (assignment_id : String) (row : Assignment)
    → Reach start db
    → fetch_one (is_assignment assignment_id) start.assignments ≡ some row
    → is_active row.status ≡ false
    → fetch_one (is_assignment assignment_id) db.assignments ≡ some row
Reach-keeps_history start db assignment_id row reach e h =
    (Reach-Follows start db reach).1 assignment_id row e h
