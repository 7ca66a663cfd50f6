-- ===== src/Notifier/Keeps.antt =====
-- The operations keep the outbox sound, and what the deliverers hold.
use hermes_ops.Notifier.Outbox.{
  is_waiting, NoteStatus, NoteSeverity, Channel, Note, NoteDb, is_note, enqueue, is_delivering,
  is_abandoned, set_retry, reconcile_abandoned_deliveries, is_due, note_leb, set_delivering,
  claim_one, Delivery, is_numbered_delivery,
}
use hermes_ops.Notifier.Sound.{
  update-IsSound, is_open, IsSound, RowSound, HeldSound, KeepsNote, update-HeldSound, delivers,
}
use hermes_ops.Orchestrator.Tables.{Timestamp}
use hermes_ops.Prelude.{
  string_column, ℕ, ◌+◌, ◌≤◌, String, ◌≡◌, refl, sym, subst, ◌∙◌, inl, inr, true, false, ◌&&◌, ◌||◌,
  Option, some, List, [], ◌∷◌, ◌++◌, arith, ◌==◌, Option-cases, option_both, ==_refl, if_both,
}
use hermes_ops.Sql.{update_where, fetch_one, count_where, exists_where, order_by}
use hermes_ops.Sql.Laws.{update-found_guard, exists-order_by}
use hermes_ops.Sql.Rows.{
  fetch_one-none, exists_narrow, exists-fetch_one, count-append_le, fetch-append_one,
  exists-fetch_first, count-not_exists, fetch-append_new,
}

pub delivering-open : (s : NoteStatus) → is_delivering s ≡ true → is_open s ≡ true
delivering-open NoteStatus.delivering h = refl
delivering-open _ h = absurd (ground arith)

waiting-open : (s : NoteStatus) → is_waiting s ≡ true → is_open s ≡ true
waiting-open NoteStatus.pending h = refl
waiting-open NoteStatus.retry h = refl
waiting-open _ h = absurd (ground arith)

new-RowSound :
    (deliveries : List Delivery) (new : Note)
    → exists_where (λ d. d.notification_id == new.notification_id) deliveries ≡ false
    → new.attempt_count ≡ 0
    → 1 ≤ new.max_attempts
    → RowSound deliveries new
new-RowSound deliveries new absent none_yet limit = record {
  taken = λ number. ground (
    arith,
    exists_narrow (is_numbered_delivery new.notification_id number)
        (λ d. d.notification_id == new.notification_id) deliveries (λ d h. ground arith) absent,
  );
  within = ground (arith, none_yet, limit);
  room = λ _. ground (arith, none_yet, limit);
  once = ground (
    arith,
    count-not_exists (delivers new.notification_id) deliveries (
        exists_narrow (delivers new.notification_id) (λ d. d.notification_id == new.notification_id)
          deliveries (λ d h. ground arith) absent),
  );
}

-- A notification without deliveries, whose key is new.
insert-IsSound :
    (db : NoteDb) (new : Note)
    → exists_where (is_note new.notification_id) db.outbox ≡ false
    → new.attempt_count ≡ 0
    → 1 ≤ new.max_attempts
    → is_open new.status ≡ true
    → IsSound db
    → IsSound (record db { outbox = db.outbox ++ new ∷ [] })
insert-IsSound db new fresh none_yet limit opened s = record {
  ids = λ x. count-append_le (is_note x) db.outbox new (s.ids x) (λ e.
      subst (λ k. exists_where (is_note k) db.outbox ≡ false)
        ((string_column.same_iff new.notification_id x).0 e) fresh);
  rows = λ x n found. elim (Option-cases (fetch_one (is_note x) db.outbox)) [
    | inl e ↦
        let (same, key) = fetch-append_new (is_note x) db.outbox new n e found in
        let key_same = (string_column.same_iff new.notification_id x).0 key in
        let none_given =
          subst (λ k. exists_where (λ d. d.notification_id == k) db.deliveries ≡ false)
            (sym key_same) (s.absent x e) in
        subst (RowSound db.deliveries) same
          (new-RowSound db.deliveries new none_given none_yet limit)
    | inr (c, e) ↦
        let same : c ≡ n = let kept = fetch-append_one (is_note x) db.outbox new c e in cc in
        subst (RowSound db.deliveries) same (s.rows x c e)
  ];
  absent = λ x none_found. elim (Option-cases (fetch_one (is_note x) db.outbox)) [
    | inl e ↦ s.absent x e
    | inr (c, e) ↦ absurd (ground (arith, fetch-append_one (is_note x) db.outbox new c e))
  ];
}

-- A notification is added.
pub enqueue-IsSound :
    (db : NoteDb) (id dedupe_key : String) (severity : NoteSeverity) (channel : Channel)
    (max_attempts : ℕ) (now : Timestamp)
    → 1 ≤ max_attempts
    → IsSound db
    → IsSound (enqueue db id dedupe_key severity channel max_attempts now).0
unfolding enqueue
enqueue-IsSound db id dedupe_key severity channel max_attempts now limit s =
    if_both (λ (r : NoteDb × Option String). IsSound r.0)
      (exists_where (λ n. n.dedupe_key == dedupe_key || is_note id n) db.outbox) (λ _. s)
      (λ fresh.
        insert-IsSound db _
          (exists_narrow (is_note id) (λ n. n.dedupe_key == dedupe_key || is_note id n) db.outbox
            (λ n h. ground arith) fresh)
          refl limit refl s)

pub enqueue-HeldSound :
    (db : NoteDb) (id dedupe_key : String) (severity : NoteSeverity) (channel : Channel)
    (max_attempts : ℕ) (now : Timestamp) (h : Note)
    → HeldSound db.outbox h
    → HeldSound (enqueue db id dedupe_key severity channel max_attempts now).0.outbox h
unfolding enqueue
enqueue-HeldSound db id dedupe_key severity channel max_attempts now h (c, found, le, max, live) =
    if_both (λ (r : NoteDb × Option String). HeldSound (r.0).outbox h)
      (exists_where (λ n. n.dedupe_key == dedupe_key || is_note id n) db.outbox)
      (λ _. (c, found, le, max, live))
      (λ _. (c, fetch-append_one (is_note h.notification_id) db.outbox _ c found, le, max, live))

reconcile-KeepsNote : (now : Timestamp) → KeepsNote (is_abandoned now) (set_retry now)
reconcile-KeepsNote now n = (refl, refl, refl, λ m. delivering-open n.status (ground arith), refl)

-- The claimed row was due when it was found.
claim-KeepsNote :
    (owner : String) (expires now : Timestamp) (channel : Option Channel) (wanted : Option String)
    (id : String)
    → KeepsNote
        (λ n. is_note id n && is_due now channel wanted n)
        (set_delivering owner expires now)
claim-KeepsNote owner expires now channel wanted id n =
    (refl, refl, refl, λ m. waiting-open n.status (ground arith), refl)

claim-guard :
    (outbox : List Note) (now : Timestamp) (channel : Option Channel) (wanted : Option String)
    (n : Note) (owner : String) (expires : Timestamp)
    → ((x : String) → count_where (is_note x) outbox ≤ 1)
    → fetch_one (is_due now channel wanted) (order_by note_leb outbox) ≡ some n
    → update_where (is_note n.notification_id) (set_delivering owner expires now) outbox
      ≡ update_where
          (λ m. is_note n.notification_id m && is_due now channel wanted m)
          (set_delivering owner expires now)
          outbox
claim-guard outbox now channel wanted n owner expires u e =
    let due = is_due now channel wanted in
    let own = is_note n.notification_id in
    let both : exists_where (λ m. due m && own m) (order_by note_leb outbox) ≡ true =
      exists-fetch_first due own (order_by note_leb outbox) n e (==_refl n.notification_id) in
    let there : exists_where (λ m. due m && own m) outbox ≡ true =
      sym (exists-order_by (λ m. due m && own m) note_leb outbox) ∙ both in
    elim (Option-cases (fetch_one own outbox)) [
      | inl none_own ↦ absurd (
          ground (
            arith,
            exists_narrow (λ m. due m && own m) own outbox (λ m h. ground arith)
                (fetch_one-none own outbox none_own),
          ))
      | inr (m, found) ↦
          update-found_guard own due (set_delivering owner expires now) outbox m found
            (u n.notification_id)
            (exists-fetch_one due own outbox m found (u n.notification_id) there)
    ]

pub claim_one-IsSound :
    (db : NoteDb) (owner : String) (lease now : Timestamp) (channel : Option Channel)
    (wanted : Option String)
    → IsSound db
    → IsSound (claim_one db owner lease now channel wanted).0
unfolding claim_one reconcile_abandoned_deliveries
claim_one-IsSound db owner lease now channel wanted s =
    let r = update-IsSound db (is_abandoned now) (set_retry now) (reconcile-KeepsNote now) s in
    let outbox = update_where (is_abandoned now) (set_retry now) db.outbox in
    option_both (λ (c : NoteDb × Option String). IsSound c.0)
      (fetch_one (is_due now channel wanted) (order_by note_leb outbox)) (λ e. r)
      (λ n e.
        subst (λ rows. IsSound (record db { outbox = rows }))
          (sym (claim-guard outbox now channel wanted n owner (now + lease) r.ids e))
          (update-IsSound (record db { outbox = outbox }) _ (set_delivering owner (now + lease) now)
            (claim-KeepsNote owner (now + lease) now channel wanted n.notification_id) r))

pub claim_one-HeldSound :
    (db : NoteDb) (owner : String) (lease now : Timestamp) (channel : Option Channel)
    (wanted : Option String) (h : Note)
    → IsSound db
    → HeldSound db.outbox h
    → HeldSound (claim_one db owner lease now channel wanted).0.outbox h
unfolding claim_one reconcile_abandoned_deliveries
claim_one-HeldSound db owner lease now channel wanted h s held =
    let r = update-IsSound db (is_abandoned now) (set_retry now) (reconcile-KeepsNote now) s in
    let outbox = update_where (is_abandoned now) (set_retry now) db.outbox in
    let after =
      update-HeldSound db.outbox (is_abandoned now) (set_retry now) h (reconcile-KeepsNote now)
        held in
    option_both (λ (c : NoteDb × Option String). HeldSound (c.0).outbox h)
      (fetch_one (is_due now channel wanted) (order_by note_leb outbox)) (λ e. after)
      (λ n e.
        subst (λ rows. HeldSound rows h)
          (sym (claim-guard outbox now channel wanted n owner (now + lease) r.ids e))
          (update-HeldSound outbox _ (set_delivering owner (now + lease) now) h
            (claim-KeepsNote owner (now + lease) now channel wanted n.notification_id) after))
