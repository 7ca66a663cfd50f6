-- ===== src/Commands/Agree.antt =====
-- The HTTP controller and the command line carry out the same commands: both are written out, in
-- controller_api/objective_commands.py and in scripts/hermesops-objectives.py.
use hermes_ops.Commands.Cli.{
  command_cancel, CommandError, move_row, pause_row, command_pause, resume_row, command_resume,
  cancel_row, on_objective,
}
use hermes_ops.Commands.Controller.{
  refuse, change_row, and_state, pause_objective, resume_objective, cancel_objective, apply_command,
  find_and_apply, changed_event,
}
use hermes_ops.Commands.Journal.{emit}
use hermes_ops.Commands.Plans.{
  resumed_status_for_plan, is_cancelled, pause_status, cancel_status, set_paused, set_resumed,
  set_cancelled, cancel_plan_in_transaction,
}
use hermes_ops.Commands.Request.{Host, Draw, Command, single_project_id, Request}
use hermes_ops.Commands.Store.{ControllerError, Store}
use hermes_ops.Orchestrator.Objectives.{
  add_objective_event, is_paused, linked_plan_status, is_objective, set_objective,
}
use hermes_ops.Orchestrator.Tables.{Timestamp, ObjectiveStatus, Objective, Db, ObjectiveEvent}
use hermes_ops.Prelude.{
  String, ◌≡◌, refl, Bool, Option, map, arith, if◌then◌else◌, ap, some, List, [], ◌∷◌, ◌++◌, sym,
  ◌∙◌, none, string_column, true, false, ◌||◌, ◌==◌,
}
use hermes_ops.Prelude.Json.{Json, Fields}
use hermes_ops.Prelude.Result.{Result, ok, err, is_ok, is_ok-value}
use hermes_ops.Sql.{fetch_one}

-- The answer of the controller where the command line fails.
unfoldable pub http_error : CommandError → ControllerError
http_error CommandError.unknown_objective = refuse 404 "objective_not_found"
http_error CommandError.cancellation_pending = refuse 409 "objective_cancel_pending"
http_error CommandError.terminal = refuse 409 "objective_terminal"
http_error CommandError.not_paused = refuse 409 "objective_not_paused"
http_error CommandError.plan_disappeared = refuse 503 "objective_plan_unavailable"
http_error CommandError.integration_committed = refuse 409 "objective_integration_committed"

-- The events carry different payloads.
abbrev pub without_payload : ObjectiveEvent → ObjectiveEvent
without_payload e = record e { payload_json = Json.null }

unfoldable pub without_payloads : Db → Db
without_payloads db = record db { objective_events = map without_payload db.objective_events }

unfoldable pub of_controller :
    Result ControllerError (Store × ObjectiveStatus) → Result ControllerError Db
unfolding without_payloads
of_controller (ok (store, new)) = ok (without_payloads store.db)
of_controller (err e) = err e

unfoldable pub of_cli : Result CommandError Db → Result ControllerError Db
unfolding without_payloads http_error
of_cli (ok db) = ok (without_payloads db)
of_cli (err e) = err (http_error e)

unfoldable pub command_line : Command → Db → String → Timestamp → Result CommandError Db
unfolding command_pause command_resume command_cancel
command_line Command.pause db objective_id now = command_pause db objective_id now
command_line Command.resume db objective_id now = command_resume db objective_id now
command_line Command.cancel db objective_id now = command_cancel db objective_id now

map_last :
    (events : List ObjectiveEvent) (e : ObjectiveEvent)
    → map without_payload (events ++ e ∷ []) ≡ map without_payload events ++ without_payload e ∷ []
map_last [] e = refl
map_last (x ∷ events) e = ap (λ rest. without_payload x ∷ rest) (map_last events e)

payload_free :
    (db : Db) (objective_id event_type : String) (old new : Option ObjectiveStatus) (p q : Fields)
    → without_payloads (add_objective_event db objective_id event_type old new p)
      ≡ without_payloads (add_objective_event db objective_id event_type old new q)
unfolding without_payloads add_objective_event
payload_free db objective_id event_type old new p q =
    ap (λ events. record db { objective_events = events })
      (map_last db.objective_events _ ∙ sym (map_last db.objective_events _))

-- Both look for the row first.
look_up_alike :
    (found : Option Objective)
    (over_http : Objective → Result ControllerError (Store × ObjectiveStatus))
    (on_line : Objective → Result CommandError Db)
    → ((row : Objective) → found ≡ some row → of_controller (over_http row) ≡ of_cli (on_line row))
    → of_controller
        (elim found [ none ↦ err (refuse 404 "objective_not_found") | some row ↦ over_http row ])
      ≡ of_cli (elim found [ none ↦ err CommandError.unknown_objective | some row ↦ on_line row ])
unfolding of_controller of_cli
look_up_alike none over_http on_line alike = refl
look_up_alike (some row) over_http on_line alike = alike row refl

-- The kinds of the events of a pause, a resumption and a cancellation.
abbrev pub is_change : String → Bool
is_change event_type =
    event_type == "OBJECTIVE_PAUSED"
    || event_type == "OBJECTIVE_PAUSE_REQUESTED"
    || event_type == "OBJECTIVE_RESUMED"
    || event_type == "OBJECTIVE_CANCELLED"
    || event_type == "OBJECTIVE_CANCEL_REQUESTED"

-- Whether the journal takes the event of a change to this status.
abbrev pub takes :
    Host → Draw → Store → Objective → Bool → Option String → String → ObjectiveStatus → Bool
takes host draw store row given project event_type new = is_ok (
    emit "operator:local-controller-session"
      (changed_event host draw row project event_type new given) store.journal)

either_change :
    (b : Bool) (x y : String)
    → is_change x ≡ true
    → is_change y ≡ true
    → is_change (if b then x else y) ≡ true
either_change true x y h i = h
either_change false x y h i = i

module _ (host : Host) (draw : Draw) (store : Store) (row : Objective) (given : Bool)
    (project : Option String) (scope : single_project_id row.project_scope_json ≡ ok project)
    (admitted : (event_type : String) (new : ObjectiveStatus)
      → is_change event_type ≡ true
      → takes host draw store row given project event_type new ≡ true) where
  -- Both write the row and an event of the same kind.
  changes_alike :
      (db : Db) (event_type : String) (new : ObjectiveStatus) (f : Objective → Objective)
      → is_change event_type ≡ true
      → of_controller (
          and_state new
            (change_row host draw (record store { db = db }) row given event_type new f))
        ≡ of_cli (ok (move_row db row event_type new f))
  unfolding change_row move_row of_controller of_cli without_payloads add_objective_event
  changes_alike db event_type new f change =
      let (journal, stored) =
        is_ok-value
          (emit "operator:local-controller-session"
            (changed_event host draw row project event_type new given) store.journal)
          (admitted event_type new change) in
      rw (scope, stored, of_controller)
        (ap ok (
          payload_free (set_objective row.objective_id f db) row.objective_id event_type
            (some row.status) (some new)
            (Fields.field "reason_present" (Json.bool given) Fields.end) Fields.end))

  pause_alike :
      (status : ObjectiveStatus)
      → of_controller (pause_objective host draw store row given status)
        ≡ of_cli (pause_row store.db draw.now row status)
  unfolding pause_objective pause_row of_controller of_cli http_error
  pause_alike ObjectiveStatus.cancel_requested = refl
  pause_alike ObjectiveStatus.completed = refl
  pause_alike ObjectiveStatus.failed = refl
  pause_alike ObjectiveStatus.cancelled = refl
  pause_alike ObjectiveStatus.paused = refl
  pause_alike _ =
      let new = pause_status store.db row in
      changes_alike store.db
        (if is_paused new then "OBJECTIVE_PAUSED" else "OBJECTIVE_PAUSE_REQUESTED") new
        (set_paused new draw.now)
        (either_change (is_paused new) "OBJECTIVE_PAUSED" "OBJECTIVE_PAUSE_REQUESTED" refl refl)

  resume_alike :
      of_controller (resume_objective host draw store row given)
      ≡ of_cli (resume_row store.db draw.now row)
  unfolding resume_objective resume_row of_controller of_cli http_error
  resume_alike =
      let new = resumed_status_for_plan (linked_plan_status store.db.plans row.plan_id) in
      ground (arith, changes_alike store.db "OBJECTIVE_RESUMED" new (set_resumed new draw.now) refl)

  cancel_alike :
      of_controller (cancel_objective host draw store row given)
      ≡ of_cli (cancel_row store.db draw.now row)
  unfolding cancel_objective cancel_row of_controller of_cli http_error
  cancel_alike =
      let new = cancel_status store.db row in
      let cleared =
        if is_cancelled new
        then cancel_plan_in_transaction store.db row.plan_id draw.now
        else store.db in
      ground (
        arith,
        changes_alike cleared
            (if is_cancelled new then "OBJECTIVE_CANCELLED" else "OBJECTIVE_CANCEL_REQUESTED") new
            (set_cancelled new draw.now)
            (either_change (is_cancelled new) "OBJECTIVE_CANCELLED" "OBJECTIVE_CANCEL_REQUESTED"
              refl refl),
      )

-- A command over HTTP does what the command line does, but for the payloads of the events, and it
-- fails where the command line fails, with the matching error. If the objective is found, its
-- project scope must be readable, and the journal must take the event of the change: its texts and
-- its data must pass the journal's checks.
pub find_and_apply_alike :
    (host : Host) (draw : Draw) (store : Store) (request : Request) (given : Bool)
    (command : Command)
    → ((row : Objective)
        → fetch_one (is_objective request.objective_id) store.db.objectives ≡ some row
        → (project : Option String) × (single_project_id row.project_scope_json ≡ ok project)
          × ((event_type : String) (new : ObjectiveStatus)
              → is_change event_type ≡ true
              → takes host draw store row given project event_type new ≡ true))
    → of_controller (find_and_apply host draw store request given command)
      ≡ of_cli (command_line command store.db request.objective_id draw.now)
unfolding find_and_apply apply_command command_line on_objective
find_and_apply_alike host draw store request given Command.pause scopes =
    look_up_alike (fetch_one (is_objective request.objective_id) store.db.objectives) _ _ (λ row e.
      let (project, scope, admitted) = scopes row e in
      pause_alike host draw store row given project scope admitted row.status)
find_and_apply_alike host draw store request given Command.resume scopes =
    look_up_alike (fetch_one (is_objective request.objective_id) store.db.objectives) _ _ (λ row e.
      let (project, scope, admitted) = scopes row e in
      resume_alike host draw store row given project scope admitted)
find_and_apply_alike host draw store request given Command.cancel scopes =
    look_up_alike (fetch_one (is_objective request.objective_id) store.db.objectives) _ _ (λ row e.
      let (project, scope, admitted) = scopes row e in
      cancel_alike host draw store row given project scope admitted)
