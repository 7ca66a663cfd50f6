-- ===== src/Commands/Change.antt =====
-- What the controller's command on a row leaves alone, and what it makes of the tables.
use hermes_ops.Commands.Controller.{
  change_row, and_state, pause_objective, resume_objective, cancel_objective, apply_command,
  find_and_apply, run_command, changed_event,
}
use hermes_ops.Commands.Journal.{emit}
use hermes_ops.Commands.Plans.{
  cancel_plan_in_transaction, is_cancelled, cancel_status, set_cancelled, resumed_status_for_plan,
  set_resumed,
}
use hermes_ops.Commands.Request.{
  Host, Draw, single_project_id, Command, Request, read_command, validate_command_body, is_given,
}
use hermes_ops.Commands.Store.{Store}
use hermes_ops.Orchestrator.Objectives.{
  add_objective_event, set_objective, linked_plan_status, is_objective,
}
use hermes_ops.Orchestrator.Tables.{ObjectiveStatus, Objective, Db, Timestamp}
use hermes_ops.Prelude.{
  String, ◌≡◌, sym, subst, inl, inr, Bool, some, arith, refl, if◌then◌else◌, if_both, Option,
  Option-cases,
}
use hermes_ops.Prelude.Json.{Json, Fields}
use hermes_ops.Prelude.Result.{bind_ok, Result-cases, ok, ◌>>=◌}
use hermes_ops.Sql.{fetch_one}

-- The objective's row and its event are all that `change_row` writes in the orchestrator's tables.
pub change_row-ok :
    (host : Host) (draw : Draw) (store : Store) (row : Objective) (given : Bool)
    (event_type : String) (new : ObjectiveStatus) (f : Objective → Objective) (after : Store)
    → change_row host draw store row given event_type new f ≡ ok after
    → (after.idempotency ≡ store.idempotency)
      × (after.db
          ≡ add_objective_event
              (set_objective row.objective_id f store.db)
              row.objective_id
              event_type
              (some row.status)
              (some new)
              (Fields.field "reason_present" (Json.bool given) Fields.end))
unfolding change_row
change_row-ok host draw store row given event_type new f after h =
    elim (Result-cases (single_project_id row.project_scope_json)) [
      | inl (p, e) ↦
          elim (Result-cases (
            emit "operator:local-controller-session"
              (changed_event host draw row p event_type new given) store.journal)) [
                | inl (j, s) ↦ ground arith
                | inr (x, s) ↦ ground arith
              ]
      | inr (x, e) ↦ ground arith
    ]

module _ (host : Host) (draw : Draw) (store : Store) (row : Objective) (given : Bool) where
  -- A property of tables that neither the row of an objective nor a cancelled plan can break.
  module _ (P : Db → Type 0)
      (rows : (db : Db) (f : Objective → Objective) (event_type : String) (new : ObjectiveStatus)
          (payload : Fields)
        → P db
        → P (
            add_objective_event
              (set_objective row.objective_id f db)
              row.objective_id
              event_type
              (some row.status)
              (some new)
              payload))
      (plans : (db : Db) → P db → P (cancel_plan_in_transaction db row.plan_id draw.now)) where
    pub Kept : Store → Type 0
    Kept after = (after.idempotency ≡ store.idempotency) × P after.db

    changed :
        (db : Db) (event_type : String) (new : ObjectiveStatus) (f : Objective → Objective)
        (after : Store) (state : ObjectiveStatus)
        → P db
        → and_state new (change_row host draw (record store { db = db }) row given event_type new f)
          ≡ ok (after, state)
        → Kept after
    unfolding Kept
    changed db event_type new f after state p h =
        let (mid, e, r) =
          bind_ok (change_row host draw (record store { db = db }) row given event_type new f) _
            h in
        let (same, made) =
          change_row-ok host draw (record store { db = db }) row given event_type new f mid e in
        let at_mid : Kept mid = (same, subst P (sym made) (rows db f event_type new _ p)) in
        let same_end : mid ≡ after = cc in subst Kept same_end at_mid

    pub pause_objective-Kept :
        (status : ObjectiveStatus) (after : Store) (state : ObjectiveStatus)
        → P store.db
        → pause_objective host draw store row given status ≡ ok (after, state)
        → Kept after
    unfolding pause_objective Kept
    pause_objective-Kept ObjectiveStatus.cancel_requested after state p h = cc
    pause_objective-Kept ObjectiveStatus.completed after state p h = cc
    pause_objective-Kept ObjectiveStatus.failed after state p h = cc
    pause_objective-Kept ObjectiveStatus.cancelled after state p h = cc
    pause_objective-Kept ObjectiveStatus.paused after state p h =
        let same_end : store ≡ after = cc in subst Kept same_end (refl, p)
    pause_objective-Kept _ after state p h = changed store.db _ _ _ after state p h

    pub resume_objective-Kept :
        (after : Store) (state : ObjectiveStatus)
        → P store.db
        → resume_objective host draw store row given ≡ ok (after, state)
        → Kept after
    unfolding resume_objective
    resume_objective-Kept after state p h =
        let new = resumed_status_for_plan (linked_plan_status store.db.plans row.plan_id) in
        changed store.db "OBJECTIVE_RESUMED" new (set_resumed new draw.now) after state p
          (ground arith)

    pub cancel_objective-Kept :
        (after : Store) (state : ObjectiveStatus)
        → P store.db
        → cancel_objective host draw store row given ≡ ok (after, state)
        → Kept after
    unfolding cancel_objective
    cancel_objective-Kept after state p h =
        let new = cancel_status store.db row in
        let cleared =
          if is_cancelled new
          then cancel_plan_in_transaction store.db row.plan_id draw.now
          else store.db in
        changed cleared
          (if is_cancelled new then "OBJECTIVE_CANCELLED" else "OBJECTIVE_CANCEL_REQUESTED") new
          (set_cancelled new draw.now) after state
          (if_both P (is_cancelled new) (λ _. plans store.db p) (λ _. p)) (ground arith)

    pub apply_command-Kept :
        (command : Command) (after : Store) (state : ObjectiveStatus)
        → P store.db
        → apply_command host draw store row given command ≡ ok (after, state)
        → Kept after
    unfolding apply_command
    apply_command-Kept Command.pause after state p h =
        pause_objective-Kept row.status after state p h
    apply_command-Kept Command.resume after state p h = resume_objective-Kept after state p h
    apply_command-Kept Command.cancel after state p h = cancel_objective-Kept after state p h

-- The same of a command that finds its row, and of the whole request.
module _ (P : Db → Type 0)
    (rows : (row : Objective) (db : Db) (f : Objective → Objective) (event_type : String)
        (new : ObjectiveStatus) (payload : Fields)
      → P db
      → P (
          add_objective_event
            (set_objective row.objective_id f db)
            row.objective_id
            event_type
            (some row.status)
            (some new)
            payload))
    (plans : (plan_id : Option String) (now : Timestamp) (db : Db)
      → P db
      → P (cancel_plan_in_transaction db plan_id now))
    (host : Host) (draw : Draw) (store : Store) (request : Request) where
  find_and_apply-Kept :
      (given : Bool) (command : Command) (after : Store) (state : ObjectiveStatus)
      → P store.db
      → find_and_apply host draw store request given command ≡ ok (after, state)
      → (after.idempotency ≡ store.idempotency) × P after.db
  unfolding find_and_apply Kept
  find_and_apply-Kept given command after state p h =
      elim (Option-cases (fetch_one (is_objective request.objective_id) store.db.objectives)) [
        | inl e ↦ absurd (ground arith)
        | inr (row, e) ↦
            apply_command-Kept host draw store row given P (rows row) (plans row.plan_id draw.now)
              command after state p (ground arith)
      ]

  pub run_command-Kept :
      (after : Store) (state : ObjectiveStatus)
      → P store.db
      → run_command host draw store request ≡ ok (after, state)
      → (after.idempotency ≡ store.idempotency) × P after.db
  unfolding run_command
  run_command-Kept after state p h = elim (Option-cases (read_command request.command)) [
    | inl e ↦ absurd (ground arith)
    | inr (command, e) ↦
        let reads : (validate_command_body host.strip request.body >>= λ reason.
        find_and_apply host draw store request (is_given reason) command)
            ≡ ok (after, state) =
          ground arith in
        let (reason, er, applied) =
          bind_ok (validate_command_body host.strip request.body)
            (λ reason. find_and_apply host draw store request (is_given reason) command) reads in
        find_and_apply-Kept (is_given reason) command after state p applied
  ]
