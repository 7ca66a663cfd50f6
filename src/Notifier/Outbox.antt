-- ===== src/Notifier/Outbox.antt =====
-- The outbox and its deliveries, with the columns that the operations read or write. A timestamp is
-- in milliseconds; the channels' own work is outside.
use Prim.Native.Nat.{min}
use hermes_ops.Commands.Request.{is_between}
use hermes_ops.Orchestrator.Tables.{Timestamp}
use hermes_ops.Prelude.{
  string_column, ℕ, zero, suc, ◌+◌, ◌*◌, ◌^◌, String, Bool, true, false, not, ◌&&◌, ◌||◌, Option,
  none, some, List, [], ◌∷◌, ◌++◌, ltb, leb, nat_beq, if◌then◌else◌, ◌==◌, coalesce,
}
use hermes_ops.Sql.{update_where, fetch_one, exists_where, order_by}

pub data NoteStatus : Type 0 where
  pending delivering retry delivered dead_letter suppressed : NoteStatus

pub data NoteSeverity : Type 0 where
  info warning critical : NoteSeverity

pub data Channel : Type 0 where
  file telegram : Channel

pub record Note : Type 0 where
  pub notification_id : String
  pub dedupe_key : String
  pub severity : NoteSeverity
  pub channel : Channel
  pub status : NoteStatus
  pub attempt_count : ℕ
  pub max_attempts : ℕ
  pub next_attempt_at : Timestamp
  pub lease_owner : Option String
  pub lease_expires_at : Option Timestamp
  pub last_error : Option String
  pub created_at : Timestamp
  pub updated_at : Timestamp
  pub delivered_at : Option Timestamp

-- `UNIQUE (notification_id, attempt_number)`
pub record Delivery : Type 0 where
  pub notification_id : String
  pub attempt_number : ℕ
  pub success : Bool
  pub failure_reason : Option String
  pub finished_at : Timestamp

pub record NoteDb : Type 0 where
  pub outbox : List Note
  pub deliveries : List Delivery

abbrev pub is_note : String → Note → Bool
is_note id n = n.notification_id == id

-- `INSERT OR IGNORE` over the two unique columns.
unfoldable pub enqueue :
    NoteDb
    → (id dedupe_key : String) → NoteSeverity
    → Channel
    → ℕ
    → Timestamp
    → NoteDb × Option String
unfolding exists_where
enqueue db id dedupe_key severity channel max_attempts now =
    if exists_where (λ n. n.dedupe_key == dedupe_key || is_note id n) db.outbox
    then (db, none)
    else (
      record db {
        outbox =
            db.outbox
            ++ record {
              notification_id = id;
              dedupe_key = dedupe_key;
              severity = severity;
              channel = channel;
              status = NoteStatus.pending;
              attempt_count = 0;
              max_attempts = max_attempts;
              next_attempt_at = now;
              lease_owner = none;
              lease_expires_at = none;
              last_error = none;
              created_at = now;
              updated_at = now;
              delivered_at = none;
            }
              ∷ [];
      },
      some id,
    )

abbrev pub is_delivering : NoteStatus → Bool
is_delivering NoteStatus.delivering = true
is_delivering _ = false

-- `lease_expires_at IS NULL OR lease_expires_at <= ?`
abbrev pub is_expired : Timestamp → Option Timestamp → Bool
is_expired now none = true
is_expired now (some expires) = leb expires now

abbrev pub is_abandoned : Timestamp → Note → Bool
is_abandoned now n = is_delivering n.status && is_expired now n.lease_expires_at

abbrev pub set_retry : Timestamp → Note → Note
set_retry now n = record n {
  status = NoteStatus.retry;
  lease_owner = none;
  lease_expires_at = none;
  next_attempt_at = now;
  updated_at = now;
  last_error = some (coalesce n.last_error "delivery lease expired");
}

unfoldable pub reconcile_abandoned_deliveries : NoteDb → Timestamp → NoteDb
unfolding update_where
reconcile_abandoned_deliveries db now = record db {
  outbox = update_where (is_abandoned now) (set_retry now) db.outbox;
}

-- `status IN ('PENDING', 'RETRY')`
abbrev pub is_waiting : NoteStatus → Bool
is_waiting NoteStatus.pending = true
is_waiting NoteStatus.retry = true
is_waiting _ = false

abbrev pub same_channel : Channel → Channel → Bool
same_channel Channel.file Channel.file = true
same_channel Channel.telegram Channel.telegram = true
same_channel _ _ = false

-- An argument that is not given leaves its clause out.
abbrev pub on_channel : Option Channel → Note → Bool
on_channel none n = true
on_channel (some c) n = same_channel n.channel c

abbrev pub with_id : Option String → Note → Bool
with_id none n = true
with_id (some id) n = is_note id n

abbrev pub is_due : Timestamp → Option Channel → Option String → Note → Bool
is_due now channel id n =
    is_waiting n.status && leb n.next_attempt_at now && on_channel channel n && with_id id n

abbrev pub rank : NoteSeverity → ℕ
rank NoteSeverity.critical = 0
rank NoteSeverity.warning = 1
rank NoteSeverity.info = 2

-- The ORDER BY of `claim_one`.
abbrev pub note_leb : Note → Note → Bool
note_leb a b =
    ltb (rank a.severity) (rank b.severity)
    || nat_beq (rank a.severity) (rank b.severity) && leb a.created_at b.created_at

abbrev pub set_delivering : (owner : String) → (expires now : Timestamp) → Note → Note
set_delivering owner expires now n = record n {
  status = NoteStatus.delivering;
  lease_owner = some owner;
  lease_expires_at = some expires;
  updated_at = now;
}

-- The first transaction of `claim_one`, with the key of the row that it claims.
unfoldable pub claim_one :
    NoteDb
    → (owner : String) → (lease now : Timestamp) → Option Channel
    → Option String
    → NoteDb × Option String
unfolding reconcile_abandoned_deliveries fetch_one order_by update_where
claim_one db owner lease now channel id =
    let reconciled = reconcile_abandoned_deliveries db now in
    elim (fetch_one (is_due now channel id) (order_by note_leb reconciled.outbox)) [
      | none ↦ (reconciled, none)
      | some n ↦ (
        record reconciled {
          outbox =
              update_where (is_note n.notification_id) (set_delivering owner (now + lease) now)
                reconciled.outbox;
        },
        some n.notification_id,
      )
    ]

-- The second read of `claim_one`.
unfoldable pub read_claimed : NoteDb → String → Option Note
unfolding fetch_one
read_claimed db id = fetch_one (is_note id) db.outbox

abbrev pub is_numbered_delivery : String → ℕ → Delivery → Bool
is_numbered_delivery id number d = d.notification_id == id && nat_beq d.attempt_number number

-- `text[:n]`
unfoldable pub cut_text : ℕ → String → String
cut_text n String.[] = String.[]
cut_text zero (String.◌∷◌ c s) = String.[]
cut_text (suc n) (String.◌∷◌ c s) = String.◌∷◌ c (cut_text n s)

-- `min(3600, base * 2 ** (attempt_number - 1))` seconds.
unfoldable pub backoff_seconds : ℕ → ℕ → ℕ
backoff_seconds base zero = min 3600 base
backoff_seconds base (suc n) = min 3600 (base * 2 ^ n)

abbrev pub set_delivered : ℕ → Timestamp → Note → Note
set_delivered number finished n = record n {
  status = NoteStatus.delivered;
  attempt_count = number;
  lease_owner = none;
  lease_expires_at = none;
  last_error = none;
  updated_at = finished;
  delivered_at = some finished;
}

-- `error or "delivery failed"`
abbrev pub error_text : Option String → String
error_text none = "delivery failed"
error_text (some error) = if error == "" then "delivery failed" else error

abbrev pub set_undelivered : Bool → ℕ → Timestamp → Option String → Timestamp → Note → Note
set_undelivered terminal number next_attempt error finished n = record n {
  status = if terminal then NoteStatus.dead_letter else NoteStatus.retry;
  attempt_count = number;
  next_attempt_at = next_attempt;
  lease_owner = none;
  lease_expires_at = none;
  last_error = some (cut_text 1000 (error_text error));
  updated_at = finished;
}

-- The UPDATE after an attempt; `row` is what the deliverer holds. `later` is the clock that the next
-- attempt is counted from.
abbrev pub set_finished :
    Note → Bool → (error : Option String) → (base : ℕ) → (finished later : Timestamp) → Note → Note
set_finished row true error base finished later = set_delivered (row.attempt_count + 1) finished
set_finished row false error base finished later =
    set_undelivered (leb row.max_attempts (row.attempt_count + 1)) (row.attempt_count + 1)
      (later + backoff_seconds base (row.attempt_count + 1) * 1000) error finished

-- `none` is an error of sqlite3: the number is taken, or outside 1 to 20.
unfoldable pub finish_delivery :
    NoteDb
    → Note
    → Bool
    → (error : Option String) → (base : ℕ) → (finished later : Timestamp) → Option NoteDb
unfolding exists_where update_where
finish_delivery db row success error base finished later =
    if exists_where (is_numbered_delivery row.notification_id (row.attempt_count + 1)) db.deliveries
      || not (is_between 1 20 (row.attempt_count + 1))
    then none
    else some (record db {
      deliveries =
          db.deliveries
          ++ record {
            notification_id = row.notification_id;
            attempt_number = row.attempt_count + 1;
            success = success;
            failure_reason = error;
            finished_at = finished;
          }
            ∷ [];
      outbox =
          update_where (is_note row.notification_id)
            (set_finished row success error base finished later) db.outbox;
    })
