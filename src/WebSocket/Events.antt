-- ===== src/WebSocket/Events.antt =====
-- The replay of the journal over a WebSocket: `bounds` and `read_after` of
-- controller_api/event_journal.py, `_replay_bounds` and `_drain_event_batch` of
-- controller_api/websocket_transport.py. A row that can be read is its envelope.
use hermes_ops.Commands.Journal.{aggregate_types, is_event_text, is_optional_text, validate_data}
use hermes_ops.Commands.Store.{ControllerError, JournalEvent, Journal, Screen}
use hermes_ops.Prelude.{
  ℕ, ◌+◌, String, Bool, false, ◌||◌, Option, none, some, List, [], ◌∷◌, ltb, leb, if◌then◌else◌,
  take, filter, not, ◌&&◌, all, string_column, mem,
}
use hermes_ops.Prelude.Result.{Result, ok, err, is_ok}
use hermes_ops.Sql.{order_by}

abbrev pub max_replay_batch : ℕ
max_replay_batch = 100

abbrev pub max_replay_window : ℕ
max_replay_window = 500

-- `MIN(sequence)` and `COALESCE(MAX(sequence), 0)`
unfoldable pub oldest : List JournalEvent → Option ℕ
oldest [] = none
oldest (e ∷ rows) = elim (oldest rows) [
  | none ↦ some e.sequence
  | some n ↦ some (if leb e.sequence n then e.sequence else n)
]

unfoldable pub latest : List JournalEvent → ℕ
latest [] = 0
latest (e ∷ rows) = let rest = latest rows in if leb e.sequence rest then rest else e.sequence

-- Whether a client at this cursor must refresh its snapshot instead.
unfoldable pub replay_unavailable : List JournalEvent → ℕ → Bool
unfolding oldest latest
replay_unavailable rows after_sequence =
    ltb (latest rows) after_sequence
    || elim (oldest rows) [ none ↦ false | some n ↦ ltb (after_sequence + 1) n ]
    || ltb (after_sequence + max_replay_window) (latest rows)

abbrev pub by_sequence : JournalEvent → JournalEvent → Bool
by_sequence a b = leb a.sequence b.sequence

-- `_row_to_envelope` reads the row: its texts and its data pass the checks of an event again. The
-- columns that a row of the model lacks, and the type of the event, are taken to have their form.
unfoldable pub is_readable : Screen → JournalEvent → Bool
unfolding is_event_text validate_data
is_readable screen e =
    leb 1 e.sequence
    && mem e.aggregate_type aggregate_types
    && is_event_text e.aggregate_id
    && is_optional_text e.causation_id
    && is_optional_text e.project_id
    && is_optional_text e.objective_id
    && is_ok (validate_data screen e.redacted_data_json)

-- `WHERE sequence > ? ORDER BY sequence LIMIT ?`, for a call without a project or event types.
unfoldable pub newer_rows : List JournalEvent → ℕ → ℕ → List JournalEvent
unfolding order_by
newer_rows rows after_sequence limit =
    take limit (order_by by_sequence (filter (λ e. ltb after_sequence e.sequence) rows))

unfoldable pub read_after : Journal → ℕ → ℕ → Result ControllerError (List JournalEvent)
unfolding newer_rows is_readable
read_after journal after_sequence limit =
    let rows = newer_rows journal.rows after_sequence limit in
    if all (is_readable journal.screen) rows
    then ok rows
    else err (record { status = 503; code = "event_journal_corrupt" })

-- What ends the stream: an error of the controller, or `send_json` raised one of the connection.
pub data StreamError : Type 0 where
  refused : ControllerError → StreamError
  send_failed : StreamError

-- The loop over a batch: the events sent, with the cursor or the error that ends the stream. `sends`
-- says whether the connection takes an event.
unfoldable pub deliver :
    (String → Bool)
    → (JournalEvent → Bool)
    → ℕ
    → List JournalEvent
    → List JournalEvent × Result StreamError ℕ
deliver selected sends cursor [] = ([], ok cursor)
deliver selected sends cursor (e ∷ batch) =
    let rest = deliver selected sends e.sequence batch in
    if leb e.sequence cursor
    then ([], err (refused (record { status = 503; code = "event_stream_order_invalid" })))
    else if not (selected e.aggregate_type)
    then rest
    else if sends e
    then (e ∷ rest.0, rest.1)
    else ([], err send_failed)

unfoldable pub deliver_read :
    (String → Bool)
    → (JournalEvent → Bool)
    → ℕ
    → Result ControllerError (List JournalEvent)
    → List JournalEvent × Result StreamError ℕ
unfolding deliver
deliver_read selected sends cursor (err e) = ([], err (refused e))
deliver_read selected sends cursor (ok batch) = deliver selected sends cursor batch

unfoldable pub drain_event_batch :
    Journal → ℕ → (String → Bool) → (JournalEvent → Bool) → List JournalEvent × Result StreamError ℕ
unfolding read_after deliver_read
drain_event_batch journal cursor selected sends =
    deliver_read selected sends cursor (read_after journal cursor max_replay_batch)
