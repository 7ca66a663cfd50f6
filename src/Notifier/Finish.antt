-- ===== src/Notifier/Finish.antt =====
-- `finish_delivery` keeps the outbox sound, for a row that a deliverer holds.
use hermes_ops.Commands.Request.{is_between}
use hermes_ops.Notifier.Outbox.{Note, Delivery, NoteDb, is_numbered_delivery, set_finished, is_note}
use hermes_ops.Notifier.Sound.{IsSound, is_open, delivers, RowSound, HeldSound, open-undelivered}
use hermes_ops.Orchestrator.Tables.{Timestamp}
use hermes_ops.Prelude.{
  string_column, ℕ, ◌+◌, ◌≤◌, String, ◌≡◌, subst, Bool, true, false, some, List, [], ◌∷◌, ◌++◌,
  arith, if◌then◌else◌, ◌==◌, refl, sym, ap, ◌∙◌, inl, inr, nat_beq_iff, Option-cases, if_both,
  Bool-cases, Option,
}
use hermes_ops.Sql.{exists_where, update_where, fetch_one}
use hermes_ops.Sql.Laws.{fetch_one-meets, count-update_same}
use hermes_ops.Sql.Rows.{count-append_one, exists-append_one, fetch-update_some, fetch-update_none}

-- The row that is held has the number of attempts of the outbox, or the number is taken.
held-current :
    (db : NoteDb) (h c : Note)
    → RowSound db.deliveries c
    → c.notification_id ≡ h.notification_id
    → h.attempt_count ≤ c.attempt_count
    → exists_where (is_numbered_delivery h.notification_id (h.attempt_count + 1)) db.deliveries
      ≡ false
    → h.attempt_count ≡ c.attempt_count
held-current db h c s same le unused =
    let taken =
      subst
        (λ x.
          exists_where (is_numbered_delivery x (h.attempt_count + 1)) db.deliveries
          ≡ is_between 1 c.attempt_count (h.attempt_count + 1))
        same (s.taken (h.attempt_count + 1)) in
    ground (arith, taken, unused)

abbrev delivery_of : Note → Bool → Option String → Timestamp → Delivery
delivery_of h success error finished = record {
  notification_id = h.notification_id;
  attempt_number = h.attempt_count + 1;
  success = success;
  failure_reason = error;
  finished_at = finished;
}

-- The number that is recorded is the next.
taken-next :
    (deliveries : List Delivery) (h c : Note) (success : Bool) (error : Option String)
    (finished : Timestamp) (number : ℕ)
    → c.notification_id ≡ h.notification_id
    → h.attempt_count ≡ c.attempt_count
    → RowSound deliveries c
    → exists_where
        (is_numbered_delivery c.notification_id number)
        (deliveries ++ delivery_of h success error finished ∷ [])
      ≡ is_between 1 (h.attempt_count + 1) number
taken-next deliveries h c success error finished number same current s = ground (
  arith,
  exists-append_one (is_numbered_delivery c.notification_id number) deliveries
      (delivery_of h success error finished),
  s.taken number,
  string_column.same_iff h.notification_id c.notification_id,
  nat_beq_iff (h.attempt_count + 1) number,
)

-- The row that an attempt is recorded of.
finished-RowSound :
    (deliveries : List Delivery) (h c : Note) (success : Bool) (error : Option String) (base : ℕ)
    (finished later : Timestamp)
    → c.notification_id ≡ h.notification_id
    → h.attempt_count ≡ c.attempt_count
    → h.max_attempts ≡ c.max_attempts
    → is_open c.status ≡ true
    → RowSound deliveries c
    → RowSound
        (deliveries ++ delivery_of h success error finished ∷ [])
        (set_finished h success error base finished later c)
finished-RowSound deliveries h c true error base finished later same current max live s = record {
  taken = λ number. taken-next deliveries h c true error finished number same current s;
  within = ground (arith, s.room live);
  room = λ opened. absurd (ground arith);
  once = ground (
    arith,
    count-append_one (delivers c.notification_id) deliveries (delivery_of h true error finished),
    s.once,
    open-undelivered c.status,
  );
}
finished-RowSound deliveries h c false error base finished later same current max live s = record {
  taken = λ number. taken-next deliveries h c false error finished number same current s;
  within = ground (arith, s.room live);
  room = λ opened. ground arith;
  once = ground (
    arith,
    count-append_one (delivers c.notification_id) deliveries (delivery_of h false error finished),
    s.once,
    open-undelivered c.status,
  );
}

-- The rows of other notifications.
other-RowSound :
    (deliveries : List Delivery) (d : Delivery) (n : Note)
    → (d.notification_id == n.notification_id) ≡ false
    → RowSound deliveries n
    → RowSound (deliveries ++ d ∷ []) n
other-RowSound deliveries d n other s = record {
  taken = λ number. ground (
    arith,
    exists-append_one (is_numbered_delivery n.notification_id number) deliveries d,
    s.taken number,
  );
  within = s.within;
  room = s.room;
  once = ground (arith, count-append_one (delivers n.notification_id) deliveries d, s.once);
}

abbrev pub Recorded : Note → NoteDb → Bool → Option String → ℕ → Timestamp → Timestamp → NoteDb
Recorded h db success error base finished later = record db {
  deliveries = db.deliveries ++ delivery_of h success error finished ∷ [];
  outbox =
      update_where (is_note h.notification_id) (set_finished h success error base finished later)
        db.outbox;
}

set_finished-id :
    (h : Note) (success : Bool) (error : Option String) (base : ℕ) (finished later : Timestamp)
    (n : Note)
    → ((set_finished h success error base finished later n).notification_id ≡ n.notification_id)
set_finished-id h true error base finished later n = refl
set_finished-id h false error base finished later n = refl

recorded-row :
    (db : NoteDb) (h c : Note) (success : Bool) (error : Option String) (base : ℕ)
    (finished later : Timestamp)
    → exists_where (is_numbered_delivery h.notification_id (h.attempt_count + 1)) db.deliveries
      ≡ false
    → fetch_one (is_note h.notification_id) db.outbox ≡ some c
    → h.attempt_count ≤ c.attempt_count
    → h.max_attempts ≡ c.max_attempts
    → (h.attempt_count ≡ c.attempt_count → is_open c.status ≡ true)
    → RowSound db.deliveries c
    → (x : String) (r : Note) → fetch_one (is_note x) db.outbox ≡ some r
    → RowSound db.deliveries r
    → RowSound (db.deliveries ++ delivery_of h success error finished ∷ []) (
        if is_note h.notification_id r
        then set_finished h success error base finished later r
        else r)
recorded-row db h c success error base finished later unused found le max live sc x r e s =
    if_both (RowSound (db.deliveries ++ delivery_of h success error finished ∷ []))
      (is_note h.notification_id r)
      (λ own.
        let r_id = (string_column.same_iff r.notification_id h.notification_id).0 own in
        let r_key =
          (string_column.same_iff r.notification_id x).0
            (fetch_one-meets (is_note x) db.outbox r e) in
        let same : r ≡ c =
          let moved = subst (λ y. fetch_one (is_note y) db.outbox ≡ some r) (sym r_key ∙ r_id) e in
          cc in
        let c_id : c.notification_id ≡ h.notification_id =
          subst (λ (n : Note). n.notification_id ≡ h.notification_id) same r_id in
        let current = held-current db h c sc c_id le unused in
        subst
          (λ n.
            RowSound (db.deliveries ++ delivery_of h success error finished ∷ [])
              (set_finished h success error base finished later n))
          (sym same)
          (finished-RowSound db.deliveries h c success error base finished later c_id current max
            (live current) sc))
      (λ other.
        other-RowSound db.deliveries (delivery_of h success error finished) r
          (ground (
            arith,
            string_column.same_iff h.notification_id r.notification_id,
            string_column.same_iff r.notification_id h.notification_id,
          ))
          s)

pub recorded-IsSound :
    (db : NoteDb) (h : Note) (success : Bool) (error : Option String) (base : ℕ)
    (finished later : Timestamp)
    → exists_where (is_numbered_delivery h.notification_id (h.attempt_count + 1)) db.deliveries
      ≡ false
    → HeldSound db.outbox h
    → IsSound db
    → IsSound (Recorded h db success error base finished later)
recorded-IsSound db h success error base finished later unused (c, found, le, max, live) s =
    let f = set_finished h success error base finished later in
    let own = is_note h.notification_id in
    let keys = λ (x : String) (n : Note).
      ap (λ i. i == x) (set_finished-id h success error base finished later n) in
    record {
      ids = λ x. ground (arith, s.ids x, count-update_same (is_note x) own f db.outbox (keys x));
      rows = λ x n there. elim (Option-cases (fetch_one (is_note x) db.outbox)) [
        | inl e ↦ absurd (ground (arith, fetch-update_none (is_note x) own f db.outbox (keys x) e))
        | inr (r, e) ↦
            let after = fetch-update_some (is_note x) own f db.outbox r (keys x) e in
            let is_n : (if own r then f r else r) ≡ n = cc in
            subst (RowSound (db.deliveries ++ delivery_of h success error finished ∷ [])) is_n (
              recorded-row db h c success error base finished later unused found le max live
                (s.rows h.notification_id c found) x r e (s.rows x r e))
      ];
      absent = λ x none_found. elim (Option-cases (fetch_one (is_note x) db.outbox)) [
        | inl e ↦ elim (Bool-cases (h.notification_id == x)) [
          | inl own_x ↦ absurd (
              let same = (string_column.same_iff h.notification_id x).0 own_x in
              let moved = subst (λ y. fetch_one (is_note y) db.outbox ≡ some c) same found in
              ground arith)
          | inr other_x ↦ ground (
            arith,
            exists-append_one (λ d. d.notification_id == x) db.deliveries
                (delivery_of h success error finished),
            s.absent x e,
          )
        ]
        | inr (r, e) ↦
            absurd (ground (arith, fetch-update_some (is_note x) own f db.outbox r (keys x) e))
      ];
    }

set_finished-count :
    (h : Note) (success : Bool) (error : Option String) (base : ℕ) (finished later : Timestamp)
    (n : Note)
    → (set_finished h success error base finished later n).attempt_count ≡ h.attempt_count + 1
set_finished-count h true error base finished later n = refl
set_finished-count h false error base finished later n = refl

set_finished-max :
    (h : Note) (success : Bool) (error : Option String) (base : ℕ) (finished later : Timestamp)
    (n : Note)
    → (set_finished h success error base finished later n).max_attempts ≡ n.max_attempts
set_finished-max h true error base finished later n = refl
set_finished-max h false error base finished later n = refl

-- The row that another deliverer holds of the same notification.
held-count :
    (db : NoteDb) (h b c : Note) (x : String)
    → exists_where (is_numbered_delivery h.notification_id (h.attempt_count + 1)) db.deliveries
      ≡ false
    → fetch_one (is_note h.notification_id) db.outbox ≡ some b
    → h.attempt_count ≤ b.attempt_count
    → fetch_one (is_note x) db.outbox ≡ some c
    → RowSound db.deliveries b
    → is_note h.notification_id c ≡ true
    → h.attempt_count ≡ c.attempt_count
held-count db h b c x unused found_h le found s own =
    let c_h = (string_column.same_iff c.notification_id h.notification_id).0 own in
    let c_x =
      (string_column.same_iff c.notification_id x).0
        (fetch_one-meets (is_note x) db.outbox c found) in
    let moved = subst (λ y. fetch_one (is_note y) db.outbox ≡ some c) (sym c_x ∙ c_h) found in
    let same : b ≡ c = cc in
    let b_h =
      (string_column.same_iff b.notification_id h.notification_id).0
        (fetch_one-meets (is_note h.notification_id) db.outbox b found_h) in
    held-current db h b s b_h le unused ∙ ap (λ (n : Note). n.attempt_count) same

pub recorded-HeldSound :
    (db : NoteDb) (h other : Note) (success : Bool) (error : Option String) (base : ℕ)
    (finished later : Timestamp)
    → exists_where (is_numbered_delivery h.notification_id (h.attempt_count + 1)) db.deliveries
      ≡ false
    → HeldSound db.outbox h
    → HeldSound db.outbox other
    → IsSound db
    → HeldSound (Recorded h db success error base finished later).outbox other
recorded-HeldSound db h other success error base finished later unused
      (b, found_h, le_h, max_h, live_h) (c, found, le, max, live) s =
    let f = set_finished h success error base finished later in
    let own = is_note h.notification_id in
    let after =
      fetch-update_some (is_note other.notification_id) own f db.outbox c
        (λ n.
          ap (λ i. i == other.notification_id)
            (set_finished-id h success error base finished later n))
        found in
    let current = λ (m : own c ≡ true).
      held-count db h b c other.notification_id unused found_h le_h found
        (s.rows h.notification_id b found_h) m in
    (
      (if own c then f c else c),
      after,
      if_both (λ (n : Note). other.attempt_count ≤ n.attempt_count) (own c)
          (λ m. ground (arith, current m, set_finished-count h success error base finished later c))
          (λ _. le),
      if_both (λ (n : Note). other.max_attempts ≡ n.max_attempts) (own c)
          (λ m. max ∙ sym (set_finished-max h success error base finished later c)) (λ _. max),
      if_both (λ (n : Note). other.attempt_count ≡ n.attempt_count → is_open n.status ≡ true)
          (own c)
          (λ m e.
            absurd
              (ground (arith, current m, set_finished-count h success error base finished later c)))
          (λ _. live),
    )
