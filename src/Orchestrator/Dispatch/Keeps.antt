-- ===== src/Orchestrator/Dispatch/Keeps.antt =====
-- The transactions on whole plans keep the invariant of the tasks.
use hermes_ops.Orchestrator.Dispatch.{
  ok, ready_if_draft, is_draft, promote_found, promote_planned_objective, command_activate,
  command_cancel, is_queued, promote_plan, cancel_plan_found, cancel_plan, is_draft_plan,
  open_draft,
}
use hermes_ops.Orchestrator.Gates.{is_plan}
use hermes_ops.Orchestrator.Invariant.{IsSound}
use hermes_ops.Orchestrator.Invariant.Quiet.{
  SamePlans, SamePlans-refl, SamePlans-update, quiet-IsSound,
}
use hermes_ops.Orchestrator.Objectives.{is_objective}
use hermes_ops.Orchestrator.Refresh.Keeps.{plans-IsSound}
use hermes_ops.Orchestrator.Tables.{Timestamp, Plan, Objective, Db}
use hermes_ops.Prelude.{
  String, ◌≡◌, refl, subst, ◌&&◌, some, arith, if_both, inl, inr, Option, none, leb, Option-cases,
}
use hermes_ops.Sql.{fetch_one}

promote_found-IsSound :
    (db : Db) (row : Objective) (plan_id : String) (plan : Plan) (now : Timestamp) (db' : Db)
    (i : String)
    → IsSound db
    → promote_found db row plan_id plan now ≡ some (db', i)
    → IsSound db'
unfolding promote_found
promote_found-IsSound db row plan_id plan now db' i sound h =
    plans-IsSound db db' (ground arith) (ground arith)
      (subst (SamePlans db.plans) (ground arith) (
        if_both (SamePlans db.plans) (is_draft plan.status)
          (λ _.
            SamePlans-update (is_draft_plan plan_id) (ready_if_draft now) db.plans (λ p. refl)
              (λ p. refl))
          (λ _. SamePlans-refl db.plans)))
      sound

promote_plan-IsSound :
    (db : Db) (row : Objective) (now : Timestamp) (linked : Option String) (db' : Db) (i : String)
    → IsSound db
    → promote_plan db row now linked ≡ some (db', i)
    → IsSound db'
unfolding promote_plan
promote_plan-IsSound db row now none db' i sound h = cc
promote_plan-IsSound db row now (some plan_id) db' i sound h =
    elim (Option-cases (fetch_one (is_plan plan_id) db.plans)) [
      | inl e ↦ ground arith
      | inr (plan, e) ↦
          promote_found-IsSound db row plan_id plan now db' i sound (rw (e, promote_plan) at h)
    ]

-- A dispatch keeps the invariant.
pub promote_planned_objective-IsSound :
    (db : Db) (objective_id : String) (now : Timestamp) (db' : Db) (i : String)
    → IsSound db
    → promote_planned_objective db objective_id now ≡ some (db', i)
    → IsSound db'
unfolding promote_planned_objective
promote_planned_objective-IsSound db objective_id now db' i sound h =
    elim (Option-cases (
      fetch_one (λ o. is_objective objective_id o && is_queued o.status && leb o.not_before now)
        db.objectives)) [
          | inl e ↦ ground arith
          | inr (row, e) ↦
              promote_plan-IsSound db row now row.plan_id db' i sound
                (rw (e, promote_planned_objective) at h)
        ]

command_activate-eq :
    (db : Db) (plan_id : String) (now : Timestamp) (db' : Db)
    → command_activate db plan_id now ≡ some db'
    → open_draft db plan_id now ≡ db'
unfolding command_activate open_draft
command_activate-eq db plan_id now db' h = ground arith

-- An activation keeps the invariant.
pub command_activate-IsSound :
    (db : Db) (plan_id : String) (now : Timestamp) (db' : Db)
    → IsSound db
    → command_activate db plan_id now ≡ some db'
    → IsSound db'
unfolding command_activate open_draft
command_activate-IsSound db plan_id now db' sound h =
    let opened : Db = open_draft db plan_id now in
    subst IsSound (command_activate-eq db plan_id now db' h) (
      plans-IsSound db opened refl refl (SamePlans-update _ _ db.plans (λ p. refl) (λ p. refl))
        sound)

cancel_plan-IsSound :
    (db : Db) (plan_id : String) (now : Timestamp)
    → IsSound db
    → IsSound (cancel_plan db plan_id now)
unfolding cancel_plan
cancel_plan-IsSound db plan_id now sound =
    quiet-IsSound db _
      (record {
        same = λ r. refl;
        no_start = λ r m h. ground arith;
        stays = λ r m h. ground arith;
        lets = λ r m h. ground arith;
      })
      refl refl (SamePlans-update _ _ db.plans (λ p. refl) (λ p. refl)) sound

cancel_plan_found-eq :
    (db : Db) (plan_id : String) (now : Timestamp) (found : Option Plan) (db' : Db)
    → cancel_plan_found db plan_id now found ≡ ok db'
    → cancel_plan db plan_id now ≡ db'
unfolding cancel_plan_found
cancel_plan_found-eq db plan_id now none db' h = cc
cancel_plan_found-eq db plan_id now (some plan) db' h = ground arith

-- A cancellation of a plan keeps the invariant.
pub command_cancel-IsSound :
    (db : Db) (plan_id : String) (now : Timestamp) (db' : Db)
    → IsSound db
    → command_cancel db plan_id now ≡ ok db'
    → IsSound db'
unfolding command_cancel
command_cancel-IsSound db plan_id now db' sound h =
    subst IsSound (cancel_plan_found-eq db plan_id now (fetch_one (is_plan plan_id) db.plans) db' h)
      (cancel_plan-IsSound db plan_id now sound)
