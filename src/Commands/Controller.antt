-- ===== src/Commands/Controller.antt =====
-- `command_objective` of controller_api/objective_commands.py. An exception rolls the transaction
-- back: an error leaves the store as it was.
use Prim.Native.String.{◌++◌}
use hermes_ops.Commands.Cli.{is_orphan}
use hermes_ops.Commands.Journal.{emit}
use hermes_ops.Commands.Plans.{
  integration_point_of_no_return, resumed_status_for_plan, is_cancelled, pause_status,
  cancel_status, set_paused, set_resumed, set_cancelled, cancel_plan_in_transaction,
}
use hermes_ops.Commands.Request.{
  Host, Request, Draw, Command, read_command, validate_idempotency_key, is_objective_id,
  validate_command_body, single_project_id, is_given,
}
use hermes_ops.Commands.Store.{
  ControllerError, Operation, Response, JournalEvent, Store, replay_or_reserve,
  complete_idempotency, record_operation, add_audit,
}
use hermes_ops.Orchestrator.Objectives.{
  is_terminal, objective_text, is_objective, add_objective_event, set_objective, is_paused,
  linked_plan_status,
}
use hermes_ops.Orchestrator.Tables.{ObjectiveStatus, Objective}
use hermes_ops.Prelude.{ℕ, String, ◌⊎◌, inl, inr, Bool, not, Option, none, some, if◌then◌else◌}
use hermes_ops.Prelude.Json.{Json, Fields}
use hermes_ops.Prelude.Result.{Result, ◌>>=◌, ok, err}
use hermes_ops.Sql.{update_where, fetch_one}

abbrev pub refuse : ℕ → String → ControllerError
refuse status code = record { status = status; code = code }

-- The states of the journal are the statuses in lower case.
abbrev pub changed_event :
    Host → Draw → Objective → Option String → String → ObjectiveStatus → Bool → ℕ → JournalEvent
changed_event host draw row project_id event_type new reason_present sequence = record {
  sequence = sequence;
  event_type = "objective.state_changed";
  aggregate_type = "objective";
  aggregate_id = row.objective_id;
  causation_id = some draw.operation_id;
  project_id = project_id;
  objective_id = some row.objective_id;
  occurred_at = draw.now;
  redacted_data_json = Json.obj (
      Fields.field "previous_state" (Json.text (host.lower (objective_text row.status))) (
        Fields.field "state" (Json.text (host.lower (objective_text new))) (
          Fields.field "reason_code" (Json.text (host.lower event_type))
            (Fields.field "reason_present" (Json.bool reason_present) Fields.end))));
}

-- An UPDATE of the objective and `_add_event`, both of one transaction.
unfoldable pub change_row :
    Host
    → Draw
    → Store
    → Objective
    → Bool
    → String
    → ObjectiveStatus
    → (Objective → Objective)
    → Result ControllerError Store
unfolding add_objective_event update_where emit single_project_id
change_row host draw store row reason_present event_type new f =
    single_project_id row.project_scope_json >>= λ project_id.
    emit "operator:local-controller-session"
      (changed_event host draw row project_id event_type new reason_present) store.journal
    >>= λ journal. ok (record store {
      db =
          add_objective_event (set_objective row.objective_id f store.db) row.objective_id
            event_type (some row.status) (some new)
            (Fields.field "reason_present" (Json.bool reason_present) Fields.end);
      journal = journal;
    })

-- The store with the new status.
abbrev pub and_state :
    ObjectiveStatus
    → Result ControllerError Store
    → Result ControllerError (Store × ObjectiveStatus)
and_state new changed = changed >>= λ s. ok (s, new)

module _ (host : Host) (draw : Draw) (store : Store) (row : Objective) (reason_present : Bool) where
  unfoldable pub pause_objective :
      ObjectiveStatus → Result ControllerError (Store × ObjectiveStatus)
  unfolding pause_status change_row
  pause_objective ObjectiveStatus.cancel_requested = err (refuse 409 "objective_cancel_pending")
  pause_objective ObjectiveStatus.completed = err (refuse 409 "objective_terminal")
  pause_objective ObjectiveStatus.failed = err (refuse 409 "objective_terminal")
  pause_objective ObjectiveStatus.cancelled = err (refuse 409 "objective_terminal")
  pause_objective ObjectiveStatus.paused = ok (store, ObjectiveStatus.paused)
  pause_objective _ =
      let new = pause_status store.db row in
      and_state new (
        change_row host draw store row reason_present
          (if is_paused new then "OBJECTIVE_PAUSED" else "OBJECTIVE_PAUSE_REQUESTED") new
          (set_paused new draw.now))

  unfoldable pub resume_objective : Result ControllerError (Store × ObjectiveStatus)
  unfolding resumed_status_for_plan change_row is_orphan fetch_one
  resume_objective =
      let new = resumed_status_for_plan (linked_plan_status store.db.plans row.plan_id) in
      if not (is_paused row.status)
      then err (refuse 409 "objective_not_paused")
      else if is_orphan store.db.plans row.plan_id
      then err (refuse 503 "objective_plan_unavailable")
      else and_state new (
          change_row host draw store row reason_present "OBJECTIVE_RESUMED" new
            (set_resumed new draw.now))

  unfoldable pub cancel_objective : Result ControllerError (Store × ObjectiveStatus)
  unfolding cancel_status change_row cancel_plan_in_transaction integration_point_of_no_return
  cancel_objective =
      let new = cancel_status store.db row in
      let cleared =
        if is_cancelled new
        then cancel_plan_in_transaction store.db row.plan_id draw.now
        else store.db in
      if is_terminal row.status
      then err (refuse 409 "objective_terminal")
      else if integration_point_of_no_return store.db row.plan_id
      then err (refuse 409 "objective_integration_committed")
      else and_state new (
          change_row host draw (record store { db = cleared }) row reason_present
            (if is_cancelled new then "OBJECTIVE_CANCELLED" else "OBJECTIVE_CANCEL_REQUESTED") new
            (set_cancelled new draw.now))

  unfoldable pub apply_command : Command → Result ControllerError (Store × ObjectiveStatus)
  unfolding pause_objective resume_objective cancel_objective
  apply_command Command.pause = pause_objective row.status
  apply_command Command.resume = resume_objective
  apply_command Command.cancel = cancel_objective

-- The command on the row of the objective, which must be there.
unfoldable pub find_and_apply :
    Host
    → Draw
    → Store
    → Request
    → Bool
    → Command
    → Result ControllerError (Store × ObjectiveStatus)
unfolding fetch_one apply_command
find_and_apply host draw store request reason_present command =
    elim (fetch_one (is_objective request.objective_id) store.db.objectives) [
      | none ↦ err (refuse 404 "objective_not_found")
      | some row ↦ apply_command host draw store row reason_present command
    ]

-- The checks of a request that is no replay, and its command.
unfoldable pub run_command :
    Host → Draw → Store → Request → Result ControllerError (Store × ObjectiveStatus)
unfolding is_objective_id read_command validate_command_body find_and_apply
run_command host draw store request =
    if not (is_objective_id request.objective_id)
    then err (refuse 400 "invalid_objective_id")
    else elim (read_command request.command) [
      | none ↦ err (refuse 409 "objective_command_unavailable")
      | some command ↦
          (validate_command_body host.strip request.body >>= λ reason.
          find_and_apply host draw store request (is_given reason) command)
    ]

-- The operation, the audit row and the response, which the key keeps.
unfoldable pub settle : Host → Draw → Request → Store × ObjectiveStatus → Store × Response
unfolding record_operation add_audit complete_idempotency
settle host draw request (store, new) =
    let kind = "objective." ++ request.command in
    let session_fp = host.session_fingerprint request.session_token in
    let key_hash = host.key_hash request.session_token request.idempotency_key in
    let operation : Operation = record {
      operation_id = draw.operation_id;
      command_kind = kind;
      objective_id = request.objective_id;
      raw_state = objective_text new;
      created_at = draw.now;
    } in
    let payload : Response = record { operation = operation; meta = draw.meta } in
    let audited = add_audit (record_operation store operation) (record {
      operation_id = draw.operation_id;
      action = kind;
      resource_id = request.objective_id;
      session_fingerprint = session_fp;
      idempotency_key_hash = key_hash;
      request_hash = host.request_hash request.session_token "POST" request.route request.body;
      created_at = draw.now;
    }) in
    (complete_idempotency audited session_fp key_hash payload draw.operation_id, payload)

-- What follows the look-up of the key.
unfoldable pub replay_or_run :
    Host → Draw → Request → Store → Response ⊎ Store → Result ControllerError (Store × Response)
unfolding run_command settle
replay_or_run host draw request store (inl response) = ok (store, response)
replay_or_run host draw request store (inr reserved) =
    run_command host draw reserved request >>= λ done. ok (settle host draw request done)

-- The status of the response is 202, replayed or not.
unfoldable pub command_objective :
    Host → Draw → Store → Request → Result ControllerError (Store × Response)
unfolding validate_idempotency_key replay_or_reserve replay_or_run
command_objective host draw store request =
    if not (validate_idempotency_key request.idempotency_key)
    then err (refuse 400 "invalid_idempotency_key")
    else replay_or_reserve store (host.session_fingerprint request.session_token)
        (host.key_hash request.session_token request.idempotency_key) "POST" request.route
        (host.request_hash request.session_token "POST" request.route request.body)
      >>= replay_or_run host draw request store
