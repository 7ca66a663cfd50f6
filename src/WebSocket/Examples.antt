-- ===== src/WebSocket/Examples.antt =====
-- Frames on the wire, a replay, and the theorems at concrete bytes.
use hermes_ops.WebSocket.Events.{send_failed}
use hermes_ops.WebSocket.Delivery.{is_wanted}
use hermes_ops.Commands.Store.{JournalEvent, Journal}
use hermes_ops.Prelude.{
  ◌≡◌, refl, Bool, true, some, [], ◌∷◌, ◌++◌, arith, string_column, ℕ, ◌≤◌, ◌<◌, String, ◌⊎◌, none,
  ltb, ◌==◌, filter,
}
use hermes_ops.Prelude.Json.{Json}
use hermes_ops.Prelude.Result.{ok, err}
use hermes_ops.WebSocket.Bounds.{IsAccepted, read_client_frame-IsAccepted}
use hermes_ops.WebSocket.Delivery.{drain_event_batch-exact, Delivered}
use hermes_ops.WebSocket.Events.{drain_event_batch, is_readable}
use hermes_ops.WebSocket.Frame.{
  protocol, Bytes, read_client_frame, encode_client_frame, encode_server_frame,
}
use hermes_ops.WebSocket.Growing.{is_growing, cursor_after, IsNumbered}
use hermes_ops.WebSocket.Roundtrip.{IsSendable, read_client_frame-encode_client_frame}

abbrev any_text : Bytes → Bool
any_text bs = true

abbrev key : Bytes
key = 0x37 ∷ 0xfa ∷ 0x21 ∷ 0x3d ∷ []

abbrev hello : Bytes
hello = b'H' ∷ b'e' ∷ b'l' ∷ b'l' ∷ b'o' ∷ []

-- The masked "Hello" of RFC 6455, section 5.7.
hello_encoded :
    encode_client_frame 1 hello key
    ≡ 0x81 ∷ 0x85 ∷ 0x37 ∷ 0xfa ∷ 0x21 ∷ 0x3d ∷ 0x7f ∷ 0x9f ∷ 0x4d ∷ 0x51 ∷ 0x58 ∷ []
unfolding encode_client_frame
hello_encoded = refl

server_hello : encode_server_frame 1 hello ≡ some (0x81 ∷ 5 ∷ hello)
unfolding encode_server_frame
server_hello = refl

unmasked_refused :
    read_client_frame any_text 65536 (0x81 ∷ 5 ∷ hello)
    ≡ err (protocol 1002 "client frame must be masked")
unfolding read_client_frame
unmasked_refused = refl

hello-IsSendable : IsSendable any_text 65536 1 hello key
hello-IsSendable = record {
  known_opcode = refl;
  fits = omega arith;
  short_control = λ h. cc;
  good_close = λ h. cc;
  four = refl;
  mask_bytes = omega arith;
  payload_bytes = omega arith;
}

read_client_frame-encode_client_frame_example :
    read_client_frame any_text 65536 (encode_client_frame 1 hello key ++ 0x89 ∷ [])
    ≡ ok (record { opcode = 1; payload = hello }, 0x89 ∷ [])
read_client_frame-encode_client_frame_example =
    read_client_frame-encode_client_frame any_text 65536 1 hello key hello-IsSendable (omega arith)
      (0x89 ∷ [])

read_client_frame-IsAccepted_example :
    IsAccepted any_text 65536 (record { opcode = 1; payload = hello })
read_client_frame-IsAccepted_example =
    read_client_frame-IsAccepted any_text 65536 (encode_client_frame 1 hello key ++ 0x89 ∷ [])
      (0x89 ∷ []) (record { opcode = 1; payload = hello })
      read_client_frame-encode_client_frame_example

-- Two events of an objective and one of a task, a number left out.
abbrev event_of : String → ℕ → JournalEvent
event_of aggregate_type sequence = record {
  sequence = sequence;
  event_type = "objective.state_changed";
  aggregate_type = aggregate_type;
  aggregate_id = "id";
  causation_id = none;
  project_id = none;
  objective_id = none;
  occurred_at = 1;
  redacted_data_json = Json.null;
}

abbrev journal_of_three : Journal
journal_of_three = record {
  screen = record {
    is_forbidden = λ s. s == "secret";
    is_sensitive = λ key. key == "token";
    encoded_size = λ data_json. 4;
  };
  rows = event_of "objective" 1 ∷ event_of "task" 2 ∷ event_of "objective" 4 ∷ [];
  last = 4;
}

abbrev is_objective_event : String → Bool
is_objective_event aggregate_type = aggregate_type == "objective"

abbrev takes_all : JournalEvent → Bool
takes_all e = true

-- The connection is lost before the event 4.
abbrev takes_early : JournalEvent → Bool
takes_early e = ltb e.sequence 4

drain_three :
    drain_event_batch journal_of_three 1 is_objective_event takes_all
    ≡ (event_of "objective" 4 ∷ [], ok 4)
unfolding drain_event_batch
drain_three = refl

drain_lost :
    drain_event_batch journal_of_three 0 is_objective_event takes_early
    ≡ (event_of "objective" 1 ∷ [], err send_failed)
unfolding drain_event_batch
drain_lost = refl

three-IsNumbered : IsNumbered journal_of_three
unfolding is_growing cursor_after is_readable
three-IsNumbered = record { growing = refl; given = omega arith; readable = refl }

drain_event_batch-exact_example :
    (cursor' : ℕ) × Delivered takes_early
      (drain_event_batch journal_of_three 0 is_objective_event takes_early)
      (filter (is_wanted 0 cursor' is_objective_event) journal_of_three.rows)
      cursor'
    × (0 ≤ cursor')
    × ((0 < cursor') ⊎ (filter (λ e. ltb 0 e.sequence) journal_of_three.rows ≡ []))
drain_event_batch-exact_example =
    drain_event_batch-exact journal_of_three 0 is_objective_event takes_early three-IsNumbered
