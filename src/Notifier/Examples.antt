-- ===== src/Notifier/Examples.antt =====
-- A notification is claimed and its first delivery fails.
use hermes_ops.Notifier.Finish.{Recorded}
use hermes_ops.Notifier.Outbox.{
  NoteStatus, NoteSeverity, Channel, Note, NoteDb, is_note, enqueue, reconcile_abandoned_deliveries,
  claim_one, read_claimed, set_finished, finish_delivery,
}
use hermes_ops.Notifier.Sound.{RowSound}
use hermes_ops.Notifier.System.{Step, Reach, System, held_at, IsSystemSound, deliveries-RowSound}
use hermes_ops.Prelude.{◌≡◌, refl, false, none, some, [], ◌∷◌, arith}
use hermes_ops.Sql.{update_where, fetch_one, count_where, exists_where, order_by}

abbrev start : System
start = record { db = record { outbox = []; deliveries = [] }; held = [] }

start-IsSystemSound : IsSystemSound start
unfolding count_where fetch_one exists_where held_at
start-IsSystemSound = record {
  outbox = record { ids = λ x. omega arith; rows = λ x n e. cc; absent = λ x e. refl };
  held = λ place row e. cc;
}

abbrev queued_db : NoteDb
queued_db =
    (enqueue start.db "notification-1" "approval:1:PENDING:FILE" NoteSeverity.critical Channel.file
      5 10).0

abbrev claimed_db : NoteDb
claimed_db = (claim_one queued_db "notifier-1" 120000 11 none none).0

abbrev claimed_note : Note
claimed_note = record {
  notification_id = "notification-1";
  dedupe_key = "approval:1:PENDING:FILE";
  severity = NoteSeverity.critical;
  channel = Channel.file;
  status = NoteStatus.delivering;
  attempt_count = 0;
  max_attempts = 5;
  next_attempt_at = 10;
  lease_owner = some "notifier-1";
  lease_expires_at = some 120011;
  last_error = none;
  created_at = 10;
  updated_at = 11;
  delivered_at = none;
}

claimed-read : read_claimed claimed_db "notification-1" ≡ some claimed_note
unfolding enqueue claim_one reconcile_abandoned_deliveries read_claimed exists_where fetch_one
    order_by update_where
claimed-read = refl

abbrev failed_db : NoteDb
failed_db = Recorded claimed_note claimed_db false (some "OSError: disk is full") 15 20 21

claimed-failed :
    finish_delivery claimed_db claimed_note false (some "OSError: disk is full") 15 20 21
    ≡ some failed_db
unfolding enqueue claim_one reconcile_abandoned_deliveries exists_where fetch_one order_by
    update_where finish_delivery
claimed-failed = refl

start-Reach : Reach start (record { db = failed_db; held = claimed_note ∷ [] })
unfolding held_at
start-Reach =
    Reach.next
      (Reach.next
        (Reach.next
          (Reach.next Reach.begin (
            Step.enqueued "notification-1" "approval:1:PENDING:FILE" NoteSeverity.critical
              Channel.file 5 10 (omega arith) refl))
          (Step.claimed "notifier-1" 120000 11 none none refl))
        (Step.read "notification-1" claimed_note claimed-read refl refl))
      (Step.recorded 0 claimed_note false (some "OSError: disk is full") 15 20 21 failed_db refl
        claimed-failed refl)

abbrev failed_note : Note
failed_note = set_finished claimed_note false (some "OSError: disk is full") 15 20 21 claimed_note

failed-fetch : fetch_one (is_note "notification-1") failed_db.outbox ≡ some failed_note
unfolding enqueue claim_one reconcile_abandoned_deliveries exists_where fetch_one order_by
    update_where
failed-fetch = refl

deliveries-RowSound_example : RowSound failed_db.deliveries failed_note
deliveries-RowSound_example =
    deliveries-RowSound start (record { db = failed_db; held = claimed_note ∷ [] }) "notification-1"
      failed_note start-Reach start-IsSystemSound failed-fetch
