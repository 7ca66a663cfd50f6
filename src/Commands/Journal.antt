-- ===== src/Commands/Journal.antt =====
-- `EventJournal.emit` of controller_api/event_journal.py, with its checks. Every call names the type
-- of its event and of the actor as a literal that fits, takes its time from `utc_now`, and draws a
-- correlation and an identifier of the right form, so those checks are left out; so is an error of
-- sqlite3 at the INSERT.
use hermes_ops.Commands.Request.{text_length, all_chars, is_between}
use hermes_ops.Commands.Store.{ControllerError, JournalEvent, Screen, Journal}
use hermes_ops.Prelude.{
  string_column, ℕ, suc, ◌+◌, String, Bool, true, not, ◌&&◌, ◌||◌, Option, none, some, List, [],
  ◌∷◌, ◌++◌, leb, nat_beq, if◌then◌else◌, mem,
}
use hermes_ops.Prelude.Json.{Json, Items, Fields}
use hermes_ops.Prelude.Result.{Result, ◌>>=◌, ok, err}
use Prim.Native.Char.{Char, code}

-- The texts that the journal takes: `_validate_text` with a value.
unfoldable pub is_event_text : String → Bool
unfolding text_length all_chars
is_event_text s = is_between 1 200 (text_length s) && all_chars (λ c. leb 32 (code c)) s

-- `_validate_text` where the value may be None.
abbrev pub is_optional_text : Option String → Bool
is_optional_text none = true
is_optional_text (some s) = is_event_text s

abbrev pub aggregate_types : List String
aggregate_types =
    "system" ∷ "project" ∷ "objective" ∷ "task" ∷ "run" ∷ "review" ∷ "recovery" ∷ "sandbox"
    ∷ "sandbox_build" ∷ "backup" ∷ "notification" ∷ "confirmation" ∷ "audit" ∷ []

-- Tab, line feed and carriage return are let through.
abbrev pub is_value_char : Char → Bool
is_value_char c =
    leb 32 (code c) || nat_beq (code c) 9 || nat_beq (code c) 10 || nat_beq (code c) 13

unfoldable pub is_value_text : Screen → String → Bool
unfolding text_length all_chars
is_value_text screen s =
    leb (text_length s) 4096 && all_chars is_value_char s && not (screen.is_forbidden s)

unfoldable pub is_data_key : Screen → String → Bool
unfolding text_length all_chars
is_data_key screen key =
    is_between 1 128 (text_length key)
    && not (screen.is_sensitive key)
    && all_chars (λ c. leb 32 (code c)) key

-- `nodes` counts every value that `visit` is called on.
unfoldable mutual
  pub nodes : Json → ℕ
  nodes (Json.arr items) = suc (item_nodes items)
  nodes (Json.obj fields) = suc (field_nodes fields)
  nodes _ = 1

  item_nodes : Items → ℕ
  item_nodes Items.nil = 0
  item_nodes (Items.cons v items) = nodes v + item_nodes items

  field_nodes : Fields → ℕ
  field_nodes Fields.end = 0
  field_nodes (Fields.field key v fields) = nodes v + field_nodes fields

-- The other tests of `visit` on a value at this depth. The literal of a float is finite.
unfoldable mutual
  unfolding is_value_text is_data_key

  pub visit : Screen → Json → ℕ → Bool
  visit screen (Json.text s) depth = leb depth 8 && is_value_text screen s
  visit screen (Json.arr items) depth = leb depth 8 && visit_items screen items (suc depth)
  visit screen (Json.obj fields) depth = leb depth 8 && visit_fields screen fields (suc depth)
  visit screen _ depth = leb depth 8

  visit_items : Screen → Items → ℕ → Bool
  visit_items screen Items.nil depth = true
  visit_items screen (Items.cons v items) depth =
      visit screen v depth && visit_items screen items depth

  visit_fields : Screen → Fields → ℕ → Bool
  visit_fields screen Fields.end depth = true
  visit_fields screen (Fields.field key v fields) depth =
      is_data_key screen key && (visit screen v depth && visit_fields screen fields depth)

unfoldable pub validate_data : Screen → Json → Result ControllerError Unit
unfolding nodes visit
validate_data screen data_json =
    if leb (nodes data_json) 512
      && visit screen data_json 0
      && leb (screen.encoded_size data_json) 16384
    then ok tt
    else err (record { status = 503; code = "event_journal_redaction_failed" })

-- The texts of an event.
unfoldable pub has_event_texts : String → JournalEvent → Bool
unfolding is_event_text
has_event_texts actor_id e =
    mem e.aggregate_type aggregate_types
    && is_event_text actor_id
    && is_event_text e.aggregate_id
    && is_optional_text e.project_id
    && is_optional_text e.objective_id
    && is_optional_text e.causation_id

unfoldable pub validate_event : Screen → String → JournalEvent → Result ControllerError Unit
unfolding validate_data has_event_texts
validate_event screen actor_id e =
    if not (has_event_texts actor_id e)
    then err (record { status = 503; code = "event_journal_input_invalid" })
    else validate_data screen e.redacted_data_json

-- The journal with the event under the next number. `actor_id` is checked; its column is left out.
unfoldable pub emit : String → (ℕ → JournalEvent) → Journal → Result ControllerError Journal
unfolding validate_event
emit actor_id event journal =
    let stored = event (journal.last + 1) in
    validate_event journal.screen actor_id stored >>= λ checked.
    ok (record journal { rows = journal.rows ++ stored ∷ []; last = journal.last + 1 })
