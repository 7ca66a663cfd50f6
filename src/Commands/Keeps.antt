-- ===== src/Commands/Keeps.antt =====
-- The commands keep the invariant of the orchestrator's tables, from the command line and over HTTP.
use hermes_ops.Commands.Change.{run_command-Kept}
use hermes_ops.Commands.Cli.{
  command_cancel, CommandError, on_objective, move_row, pause_write, pause_row, command_pause,
  resume_row, command_resume, cancel_row,
}
use hermes_ops.Commands.Controller.{settle, command_objective}
use hermes_ops.Commands.Plans.{
  resumed_status_for_plan, is_cancelled, pause_status, cancel_status, set_paused, set_resumed,
  set_cancelled, cancel_plan_in_transaction,
}
use hermes_ops.Commands.Replay.{session_fp, key_hash, reserved_of, replayed_same, carried_out}
use hermes_ops.Commands.Request.{Host, Request, Draw}
use hermes_ops.Commands.Store.{
  Response, Store, is_key, complete_idempotency, record_operation, add_audit,
}
use hermes_ops.Orchestrator.Invariant.{IsSound}
use hermes_ops.Orchestrator.Invariant.Quiet.{SamePlans-refl}
use hermes_ops.Orchestrator.Objectives.{
  is_objective, add_objective_event, cancel_objective_plan, set_objective, is_paused,
  linked_plan_status,
}
use hermes_ops.Orchestrator.Objectives.Keeps.{cancel_objective_plan-IsSound}
use hermes_ops.Orchestrator.Refresh.Keeps.{plans-IsSound}
use hermes_ops.Orchestrator.Tables.{Timestamp, ObjectiveStatus, Objective, Db}
use hermes_ops.Prelude.{
  String, ◌≡◌, refl, sym, subst, inl, inr, Option, none, some, arith, if◌then◌else◌, Option-cases,
  if_both,
}
use hermes_ops.Prelude.Json.{Fields}
use hermes_ops.Prelude.Result.{Result, ok}
use hermes_ops.Sql.{fetch_one}

cancel_plan_in_transaction-same :
    (db : Db) (plan_id : Option String) (now : Timestamp)
    → cancel_plan_in_transaction db plan_id now ≡ cancel_objective_plan db plan_id now
unfolding cancel_plan_in_transaction cancel_objective_plan
cancel_plan_in_transaction-same db none now = refl
cancel_plan_in_transaction-same db (some plan_id) now = refl

cancel_plan_in_transaction-IsSound :
    (plan_id : Option String) (now : Timestamp) (db : Db)
    → IsSound db
    → IsSound (cancel_plan_in_transaction db plan_id now)
cancel_plan_in_transaction-IsSound plan_id now db sound =
    subst IsSound (sym (cancel_plan_in_transaction-same db plan_id now))
      (cancel_objective_plan-IsSound db plan_id now sound)

write-IsSound :
    (row : Objective) (db : Db) (f : Objective → Objective) (event_type : String)
    (new : ObjectiveStatus) (payload : Fields)
    → IsSound db
    → IsSound (
        add_objective_event
          (set_objective row.objective_id f db)
          row.objective_id
          event_type
          (some row.status)
          (some new)
          payload)
unfolding add_objective_event
write-IsSound row db f event_type new payload sound =
    plans-IsSound db _ refl refl (SamePlans-refl db.plans) sound

move_row-IsSound :
    (db : Db) (row : Objective) (event_type : String) (new : ObjectiveStatus)
    (f : Objective → Objective)
    → IsSound db
    → IsSound (move_row db row event_type new f)
unfolding move_row
move_row-IsSound db row event_type new f sound =
    write-IsSound row db f event_type new Fields.end sound

pause_row-IsSound :
    (db db' : Db) (now : Timestamp) (row : Objective) (status : ObjectiveStatus)
    → IsSound db
    → pause_row db now row status ≡ ok db'
    → IsSound db'
unfolding pause_row
pause_row-IsSound db db' now row ObjectiveStatus.cancel_requested sound h = cc
pause_row-IsSound db db' now row ObjectiveStatus.completed sound h = cc
pause_row-IsSound db db' now row ObjectiveStatus.failed sound h = cc
pause_row-IsSound db db' now row ObjectiveStatus.cancelled sound h = cc
pause_row-IsSound db db' now row ObjectiveStatus.paused sound h =
    let same : db ≡ db' = cc in subst IsSound same sound
pause_row-IsSound db db' now row _ sound h =
    let same : pause_write db now row ≡ db' = cc in
    let new = pause_status db row in
    subst IsSound same (
      move_row-IsSound db row
        (if is_paused new then "OBJECTIVE_PAUSED" else "OBJECTIVE_PAUSE_REQUESTED") new
        (set_paused new now) sound)

-- A command that ends has found its row.
pub on_objective-ok :
    (db db' : Db) (objective_id : String) (command : Objective → Result CommandError Db)
    → on_objective db objective_id command ≡ ok db'
    → (row : Objective) × (fetch_one (is_objective objective_id) db.objectives ≡ some row)
      × (command row ≡ ok db')
unfolding on_objective
on_objective-ok db db' objective_id command h =
    elim (Option-cases (fetch_one (is_objective objective_id) db.objectives)) [
      | inl e ↦ absurd (ground arith)
      | inr (row, e) ↦ (row, e, ground arith)
    ]

pub command_pause-IsSound :
    (db db' : Db) (objective_id : String) (now : Timestamp)
    → IsSound db
    → command_pause db objective_id now ≡ ok db'
    → IsSound db'
unfolding command_pause
command_pause-IsSound db db' objective_id now sound h =
    let (row, e, r) =
      on_objective-ok db db' objective_id (λ row. pause_row db now row row.status) h in
    pause_row-IsSound db db' now row row.status sound r

pub command_resume-IsSound :
    (db db' : Db) (objective_id : String) (now : Timestamp)
    → IsSound db
    → command_resume db objective_id now ≡ ok db'
    → IsSound db'
unfolding command_resume resume_row
command_resume-IsSound db db' objective_id now sound h =
    let (row, e, r) = on_objective-ok db db' objective_id (resume_row db now) h in
    let new = resumed_status_for_plan (linked_plan_status db.plans row.plan_id) in
    let same : move_row db row "OBJECTIVE_RESUMED" new (set_resumed new now) ≡ db' = ground arith in
    subst IsSound same (move_row-IsSound db row "OBJECTIVE_RESUMED" new (set_resumed new now) sound)

pub command_cancel-IsSound :
    (db db' : Db) (objective_id : String) (now : Timestamp)
    → IsSound db
    → command_cancel db objective_id now ≡ ok db'
    → IsSound db'
unfolding command_cancel cancel_row
command_cancel-IsSound db db' objective_id now sound h =
    let (row, e, r) = on_objective-ok db db' objective_id (cancel_row db now) h in
    let new = cancel_status db row in
    let cleared = if is_cancelled new then cancel_plan_in_transaction db row.plan_id now else db in
    let event = if is_cancelled new then "OBJECTIVE_CANCELLED" else "OBJECTIVE_CANCEL_REQUESTED" in
    let same : move_row cleared row event new (set_cancelled new now) ≡ db' = ground arith in
    subst IsSound same (
      move_row-IsSound cleared row event new (set_cancelled new now) (
        if_both IsSound (is_cancelled new)
          (λ _. cancel_plan_in_transaction-IsSound row.plan_id now db sound) (λ _. sound)))

settle-IsSound :
    (host : Host) (draw : Draw) (request : Request) (done : Store × ObjectiveStatus)
    → IsSound done.0.db
    → IsSound (settle host draw request done).0.db
unfolding settle complete_idempotency add_audit record_operation
settle-IsSound host draw request done sound = sound

-- Over HTTP, whatever the request: a replay changes nothing.
pub command_objective-IsSound :
    (host : Host) (draw : Draw) (store after : Store) (request : Request) (response : Response)
    → IsSound store.db
    → command_objective host draw store request ≡ ok (after, response)
    → IsSound after.db
unfolding reserved_of
command_objective-IsSound host draw store after request response sound h =
    let found =
      fetch_one (is_key (session_fp host request) (key_hash host request)) store.idempotency in
    elim (Option-cases found) [
      | inl e ↦
          let (done, ran, end) = carried_out host request draw store after response e h in
          subst (λ (p : Store × Response). IsSound p.0.db) end
            (settle-IsSound host draw request done
              (run_command-Kept IsSound write-IsSound cancel_plan_in_transaction-IsSound host draw
                (reserved_of host request store) request done.0 done.1 sound ran).1)
      | inr (row, e) ↦
          subst (λ s. IsSound s.db) (replayed_same host request draw store after response row e h)
            sound
    ]
