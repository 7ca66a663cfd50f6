-- ===== src/Orchestrator/Objectives/Keeps.antt =====
-- The transactions on objectives keep the invariant of the tasks.
use hermes_ops.Orchestrator.Invariant.{IsSound}
use hermes_ops.Orchestrator.Invariant.Quiet.{SamePlans-refl, SamePlans-update, quiet-IsSound}
use hermes_ops.Orchestrator.Objectives.{
  is_terminal, cancel_objective_plan, synchronized_status, is_cancel_requested, apply_status,
  linked_plan_status, synchronize_rows, synchronize_objective_states,
}
use hermes_ops.Orchestrator.Refresh.Keeps.{plans-IsSound}
use hermes_ops.Orchestrator.Tables.{Timestamp, ObjectiveStatus, Plan, Objective, Db}
use hermes_ops.Prelude.{
  String, refl, not, Option, none, some, List, [], ◌∷◌, arith, leb, if◌then◌else◌, if_both, filter,
}
use hermes_ops.Sql.{order_by}

pub cancel_objective_plan-IsSound :
    (db : Db) (plan_id : Option String) (now : Timestamp)
    → IsSound db
    → IsSound (cancel_objective_plan db plan_id now)
unfolding cancel_objective_plan
cancel_objective_plan-IsSound db none now sound = sound
cancel_objective_plan-IsSound db (some plan_id) now sound =
    quiet-IsSound db _
      (record {
        same = λ r. refl;
        no_start = λ r m h. ground arith;
        stays = λ r m h. ground arith;
        lets = λ r m h. ground arith;
      })
      refl refl (SamePlans-update _ _ db.plans (λ p. refl) (λ p. refl)) sound

apply_status-IsSound :
    (db : Db) (row : Objective) (now : Timestamp)
    (choice : Option (ObjectiveStatus × Option String))
    → IsSound db
    → IsSound (apply_status db row now choice)
unfolding apply_status
apply_status-IsSound db row now none sound =
    plans-IsSound db _ refl refl (SamePlans-refl db.plans) sound
apply_status-IsSound db row now (some (new, error)) sound =
    let cleared =
      if is_cancel_requested row.status then cancel_objective_plan db row.plan_id now else db in
    plans-IsSound cleared _ refl refl (SamePlans-refl cleared.plans) (
      if_both IsSound (is_cancel_requested row.status)
        (λ _. cancel_objective_plan-IsSound db row.plan_id now sound) (λ _. sound))

synchronize_rows-IsSound :
    (plans : List Plan) (now : Timestamp) (db : Db) (rows : List Objective)
    → IsSound db
    → IsSound (synchronize_rows plans now db rows)
unfolding synchronize_rows
synchronize_rows-IsSound plans now db [] sound = sound
synchronize_rows-IsSound plans now db (row ∷ rows) sound =
    let choice =
      synchronized_status db row.plan_id (linked_plan_status plans row.plan_id) row.status in
    synchronize_rows-IsSound plans now (apply_status db row now choice) rows
      (apply_status-IsSound db row now choice sound)

pub synchronize_objective_states-IsSound :
    (db : Db) (now : Timestamp) → IsSound db → IsSound (synchronize_objective_states db now)
unfolding synchronize_objective_states
synchronize_objective_states-IsSound db now sound =
    synchronize_rows-IsSound db.plans now db
      (order_by (λ a b. leb a.created_at b.created_at)
        (filter (λ o. not (is_terminal o.status)) db.objectives))
      sound
