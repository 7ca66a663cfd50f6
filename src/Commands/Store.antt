-- ===== src/Commands/Store.antt =====
-- The controller's tables: the orchestrator's, and those of the command store of
-- controller_api/objective_commands.py, with the journal of controller_api/event_journal.py.
use hermes_ops.Orchestrator.Tables.{Timestamp, Db}
use hermes_ops.Prelude.{
  string_column, ℕ, String, ◌⊎◌, inl, inr, Bool, not, ◌&&◌, ◌||◌, Option, none, some, List, [], ◌∷◌,
  ◌++◌, if◌then◌else◌, ◌==◌,
}
use hermes_ops.Prelude.Json.{Json}
use hermes_ops.Prelude.Result.{Result, ◌>>=◌, ok, err}
use hermes_ops.Sql.{update_where, fetch_one}

pub record ControllerError : Type 0 where
  pub status : ℕ
  pub code : String

-- The payload of `_operation_payload`; its state is always "succeeded".
pub record Operation : Type 0 where
  pub operation_id : String
  pub command_kind : String
  pub objective_id : String
  pub raw_state : String
  pub created_at : Timestamp

pub record Response : Type 0 where
  pub operation : Operation
  pub meta : Json

-- A row of `controller_idempotency`; the response is missing while its command is in progress.
pub record Idempotency : Type 0 where
  pub session_fingerprint : String
  pub key_hash : String
  pub method : String
  pub route : String
  pub request_hash : String
  pub response : Option Response
  pub operation_id : Option String

pub record Audit : Type 0 where
  pub operation_id : String
  pub action : String
  pub resource_id : String
  pub session_fingerprint : String
  pub idempotency_key_hash : String
  pub request_hash : String
  pub created_at : Timestamp

pub record JournalEvent : Type 0 where
  pub sequence : ℕ
  pub event_type : String
  pub aggregate_type : String
  pub aggregate_id : String
  pub causation_id : Option String
  pub project_id : Option String
  pub objective_id : Option String
  pub occurred_at : Timestamp
  pub redacted_data_json : Json

-- What the journal's module asks of Python's library: whether `_FORBIDDEN_VALUE` is found in a text,
-- whether the parts of a key are sensitive, and the bytes of `canonical_json`.
pub record Screen : Type 0 where
  pub is_forbidden : String → Bool
  pub is_sensitive : String → Bool
  pub encoded_size : Json → ℕ

-- `last` is the row of `sqlite_sequence`: AUTOINCREMENT never gives a number twice. Nothing writes
-- the screen.
pub record Journal : Type 0 where
  pub screen : Screen
  pub rows : List JournalEvent
  pub last : ℕ

pub record Store : Type 0 where
  pub db : Db
  pub idempotency : List Idempotency
  pub operations : List Operation
  pub audit : List Audit
  pub journal : Journal

-- `session_fingerprint=? AND key_hash=?`
abbrev pub is_key : String → String → Idempotency → Bool
is_key session_fp key_hash row = row.session_fingerprint == session_fp && row.key_hash == key_hash

-- The row of a key that was used: its response, if the request is the same.
unfoldable pub replay_row : String → String → String → Idempotency → Result ControllerError Response
replay_row method route request_hash row =
    if not (row.method == method)
      || not (row.route == route)
      || not (row.request_hash == request_hash)
    then err (record { status = 409; code = "idempotency_conflict" })
    else elim row.response [
      | none ↦ err (record { status = 409; code = "command_in_progress" })
      | some response ↦ ok response
    ]

-- The response to replay, or the store with the key reserved.
unfoldable pub replay_or_reserve :
    Store → String → String → String → String → String → Result ControllerError (Response ⊎ Store)
unfolding fetch_one replay_row
replay_or_reserve store session_fp key_hash method route request_hash =
    elim (fetch_one (is_key session_fp key_hash) store.idempotency) [
      | none ↦ ok (
          inr (record store {
            idempotency =
                store.idempotency
                ++ record {
                  session_fingerprint = session_fp;
                  key_hash = key_hash;
                  method = method;
                  route = route;
                  request_hash = request_hash;
                  response = none;
                  operation_id = none;
                }
                  ∷ [];
          }))
      | some row ↦ (replay_row method route request_hash row >>= λ response. ok (inl response))
    ]

unfoldable pub complete_idempotency : Store → String → String → Response → String → Store
unfolding update_where
complete_idempotency store session_fp key_hash payload operation_id = record store {
  idempotency =
      update_where (is_key session_fp key_hash)
        (λ row. record row { response = some payload; operation_id = some operation_id })
        store.idempotency;
}

unfoldable pub record_operation : Store → Operation → Store
record_operation store operation = record store { operations = store.operations ++ operation ∷ [] }

unfoldable pub add_audit : Store → Audit → Store
add_audit store row = record store { audit = store.audit ++ row ∷ [] }
