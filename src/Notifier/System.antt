-- ===== src/Notifier/System.antt =====
-- The notifier's processes in any order: each transaction runs alone, and between the claim of a
-- notification and the record of its delivery the deliverer holds the row that it read.
use hermes_ops.Commands.Request.{is_between}
use hermes_ops.Notifier.Finish.{Recorded, recorded-IsSound, recorded-HeldSound}
use hermes_ops.Notifier.Keeps.{
  delivering-open, enqueue-IsSound, claim_one-IsSound, claim_one-HeldSound, enqueue-HeldSound,
}
use hermes_ops.Notifier.Outbox.{
  NoteSeverity, Channel, Note, NoteDb, is_note, enqueue, is_delivering, claim_one, read_claimed,
  is_numbered_delivery, finish_delivery,
}
use hermes_ops.Notifier.Sound.{IsSound, RowSound, HeldSound}
use hermes_ops.Orchestrator.Tables.{Timestamp}
use hermes_ops.Prelude.{
  ℕ, zero, suc, ◌+◌, ◌≤◌, String, ◌≡◌, refl, sym, subst, Bool, true, false, not, ◌||◌, Option, none,
  some, List, [], ◌∷◌, arith, string_column, if_both,
}
use hermes_ops.Sql.{fetch_one, exists_where}
use hermes_ops.Sql.Laws.{fetch_one-meets}

pub record System : Type 0 where
  pub db : NoteDb
  pub held : List Note

-- The rows that are held, by their place.
unfoldable pub held_at : ℕ → List Note → Option Note
held_at n [] = none
held_at zero (h ∷ held) = some h
held_at (suc n) (h ∷ held) = held_at n held

pub data Step (s after : System) : Type 0 where
  enqueued :
      (id dedupe_key : String) (severity : NoteSeverity) (channel : Channel) (max_attempts : ℕ)
      (now : Timestamp)
      → 1 ≤ max_attempts
      → after ≡ record s { db = (enqueue s.db id dedupe_key severity channel max_attempts now).0 }
      → Step s after
  claimed :
      (owner : String) (lease now : Timestamp) (channel : Option Channel) (wanted : Option String)
      → after ≡ record s { db = (claim_one s.db owner lease now channel wanted).0 }
      → Step s after
  -- the claimed row is read again, while it is still DELIVERING
  read :
      (id : String) (row : Note)
      → read_claimed s.db id ≡ some row
      → is_delivering row.status ≡ true
      → after ≡ record s { held = row ∷ s.held }
      → Step s after
  -- by a deliverer, however late
  recorded :
      (place : ℕ) (row : Note) (success : Bool) (error : Option String) (base : ℕ)
      (finished later : Timestamp) (db : NoteDb)
      → held_at place s.held ≡ some row
      → finish_delivery s.db row success error base finished later ≡ some db
      → after ≡ record s { db = db }
      → Step s after

pub data Reach (start : System) : System → Type 0 where
  begin : Reach start start
  next : {s after : System} → Reach start s → Step s after → Reach start after

-- The outbox is sound, and so is what is held of it.
pub record IsSystemSound (s : System) : Type 0 where
  pub outbox : IsSound s.db
  pub held : (place : ℕ) (row : Note) → held_at place s.held ≡ some row → HeldSound s.db.outbox row

-- A row that was read is a row of the outbox.
read-HeldSound :
    (db : NoteDb) (id : String) (row : Note)
    → read_claimed db id ≡ some row
    → is_delivering row.status ≡ true
    → HeldSound db.outbox row
unfolding read_claimed
read-HeldSound db id row e live =
    let own =
      (string_column.same_iff row.notification_id id).0
        (fetch_one-meets (is_note id) db.outbox row e) in
    (
      row,
      subst (λ x. fetch_one (is_note x) db.outbox ≡ some row) (sym own) e,
      omega arith,
      refl,
      λ _. delivering-open row.status live,
    )

held_at-cons :
    (P : Note → Type 0) (h : Note) (held : List Note)
    → P h
    → ((place : ℕ) (row : Note) → held_at place held ≡ some row → P row)
    → (place : ℕ) (row : Note) → held_at place (h ∷ held) ≡ some row
    → P row
unfolding held_at
held_at-cons P h held ph rest zero row e = let same : h ≡ row = cc in subst P same ph
held_at-cons P h held ph rest (suc place) row e = rest place row e

-- A record that was made is the one of its row and of an unused number.
finish_delivery-recorded :
    (db : NoteDb) (row : Note) (success : Bool) (error : Option String) (base : ℕ)
    (finished later : Timestamp) (after : NoteDb)
    → finish_delivery db row success error base finished later ≡ some after
    → (exists_where (is_numbered_delivery row.notification_id (row.attempt_count + 1)) db.deliveries
        ≡ false)
      × (Recorded row db success error base finished later ≡ after)
unfolding finish_delivery
finish_delivery-recorded db row success error base finished later after =
    if_both
      (λ (r : Option NoteDb).
        r ≡ some after
        → (exists_where (is_numbered_delivery row.notification_id (row.attempt_count + 1))
              db.deliveries
            ≡ false)
          × (Recorded row db success error base finished later ≡ after))
      (exists_where (is_numbered_delivery row.notification_id (row.attempt_count + 1)) db.deliveries
        || not (is_between 1 20 (row.attempt_count + 1)))
      (λ taken h. cc) (λ free h. (ground arith, cc))

Step-IsSystemSound : (s after : System) → Step s after → IsSystemSound s → IsSystemSound after
Step-IsSystemSound s after (Step.enqueued i k v c m now limit e) x =
    subst IsSystemSound (sym e) (record {
      outbox = enqueue-IsSound s.db i k v c m now limit x.outbox;
      held = λ place row h. enqueue-HeldSound s.db i k v c m now row (x.held place row h);
    })
Step-IsSystemSound s after (Step.claimed o lease now c w e) x =
    subst IsSystemSound (sym e) (record {
      outbox = claim_one-IsSound s.db o lease now c w x.outbox;
      held =
          λ place row h. claim_one-HeldSound s.db o lease now c w row x.outbox (x.held place row h);
    })
Step-IsSystemSound s after (Step.read i row r live e) x = subst IsSystemSound (sym e) (record {
  outbox = x.outbox;
  held = held_at-cons (HeldSound s.db.outbox) row s.held (read-HeldSound s.db i row r live) x.held;
})
Step-IsSystemSound s after (Step.recorded place row success error base t t' db h f e) x =
    let (free, same) = finish_delivery-recorded s.db row success error base t t' db f in
    let holds = x.held place row h in
    subst IsSystemSound (sym e) (
      subst (λ d. IsSystemSound (record s { db = d })) same
        (record {
          outbox = recorded-IsSound s.db row success error base t t' free holds x.outbox;
          held = λ other r g.
              recorded-HeldSound s.db row r success error base t t' free holds (x.held other r g)
                x.outbox;
        }))

Reach-IsSystemSound : (start s : System) → Reach start s → IsSystemSound start → IsSystemSound s
Reach-IsSystemSound start s Reach.begin x = x
Reach-IsSystemSound start s (Reach.next {s = middle} reach step) x =
    Step-IsSystemSound middle s step (Reach-IsSystemSound start middle reach x)

-- From a sound outbox, whatever the notifier's processes do and however late a deliverer records
-- what it did, the deliveries of a notification in the outbox are numbered from 1 to its count of
-- attempts, which is at most its limit, at most one of them succeeded, and none unless it is
-- DELIVERED. A claimed row is taken to be read again while it is still DELIVERING.
pub deliveries-RowSound :
    (start s : System) (id : String) (n : Note)
    → Reach start s
    → IsSystemSound start
    → fetch_one (is_note id) s.db.outbox ≡ some n
    → RowSound s.db.deliveries n
deliveries-RowSound start s id n reach x e =
    (Reach-IsSystemSound start s reach x).outbox.rows id n e
