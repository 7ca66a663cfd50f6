-- ===== src/Notifier/Sound.antt =====
-- What is always true of the outbox, and the writes that keep it.
use hermes_ops.Commands.Request.{is_between}
use hermes_ops.Notifier.Outbox.{NoteStatus, Note, Delivery, NoteDb, is_note, is_numbered_delivery}
use hermes_ops.Prelude.{
  string_column, ℕ, ◌+◌, ◌≤◌, String, ◌≡◌, Bool, true, false, ◌&&◌, none, some, List, if◌then◌else◌,
  ◌==◌, refl, sym, ap, subst, ◌∙◌, inl, inr, arith, Option-cases, if_both,
}
use hermes_ops.Prelude.Members.{count}
use hermes_ops.Sql.{update_where, fetch_one, count_where, exists_where}
use hermes_ops.Sql.Laws.{one, count-update_same}
use hermes_ops.Sql.Rows.{fetch-update_some, fetch-update_none}

abbrev pub is_open : NoteStatus → Bool
is_open NoteStatus.pending = true
is_open NoteStatus.retry = true
is_open NoteStatus.delivering = true
is_open _ = false

abbrev pub is_delivered : NoteStatus → Bool
is_delivered NoteStatus.delivered = true
is_delivered _ = false

-- A successful delivery of a notification.
abbrev pub delivers : String → Delivery → Bool
delivers id d = d.notification_id == id && d.success

-- The deliveries of a notification are numbered from 1 to its count of attempts, which leaves room
-- for another while it is open; at most one succeeded, and none unless it is DELIVERED.
pub record RowSound (deliveries : List Delivery) (n : Note) : Type 0 where
  pub taken :
      (number : ℕ)
      → exists_where (is_numbered_delivery n.notification_id number) deliveries
        ≡ is_between 1 n.attempt_count number
  pub within : n.attempt_count ≤ n.max_attempts
  pub room : is_open n.status ≡ true → n.attempt_count + 1 ≤ n.max_attempts
  pub once : count_where (delivers n.notification_id) deliveries ≤ one (is_delivered n.status)

-- What a deliverer holds is a row of the outbox as it was: a later row has more attempts, and one
-- with the same number of attempts is still open.
abbrev pub HeldSound : List Note → Note → Type 0
HeldSound outbox h =
    (c : Note) × (fetch_one (is_note h.notification_id) outbox ≡ some c)
    × (h.attempt_count ≤ c.attempt_count)
    × (h.max_attempts ≡ c.max_attempts)
    × (h.attempt_count ≡ c.attempt_count → is_open c.status ≡ true)

pub record IsSound (db : NoteDb) : Type 0 where
  pub ids : (x : String) → count_where (is_note x) db.outbox ≤ 1
  pub rows :
      (x : String) (n : Note) → fetch_one (is_note x) db.outbox ≡ some n → RowSound db.deliveries n
  pub absent :
      (x : String)
      → fetch_one (is_note x) db.outbox ≡ none
      → exists_where (λ d. d.notification_id == x) db.deliveries ≡ false

-- An update that leaves the keys, the counts, and what is open or delivered.
abbrev pub KeepsNote : (Note → Bool) → (Note → Note) → Type 0
KeepsNote q f =
    (n : Note)
    → ((f n).notification_id ≡ n.notification_id)
      × ((f n).attempt_count ≡ n.attempt_count)
      × ((f n).max_attempts ≡ n.max_attempts)
      × (q n ≡ true → is_open n.status ≡ true)
      × (is_open (f n).status ≡ true)

pub open-undelivered : (s : NoteStatus) → is_open s ≡ true → is_delivered s ≡ false
open-undelivered NoteStatus.delivered h = cc
open-undelivered NoteStatus.pending h = refl
open-undelivered NoteStatus.retry h = refl
open-undelivered NoteStatus.delivering h = refl
open-undelivered NoteStatus.dead_letter h = refl
open-undelivered NoteStatus.suppressed h = refl

RowSound-keeps :
    (deliveries : List Delivery) (q : Note → Bool) (f : Note → Note) (n : Note)
    → KeepsNote q f
    → RowSound deliveries n
    → RowSound deliveries (if q n then f n else n)
RowSound-keeps deliveries q f n k s =
    if_both (RowSound deliveries) (q n)
      (λ m.
        let (id, count, max, was_open, now_open) = k n in
        let still : is_open n.status ≡ true = was_open m in
        record {
          taken = λ number.
              ap (λ x. exists_where (is_numbered_delivery x number) deliveries) id
              ∙ s.taken number
              ∙ ap (λ c. is_between 1 c number) (sym count);
          within = ground (arith, s.within, count, max);
          room = λ _. ground (arith, s.room still, count, max);
          once =
              subst (λ x. count_where (delivers x) deliveries ≤ one (is_delivered (f n).status))
                (sym id) (ground (arith, s.once, open-undelivered n.status));
        })
      (λ _. s)

pub update-IsSound :
    (db : NoteDb) (q : Note → Bool) (f : Note → Note)
    → KeepsNote q f
    → IsSound db
    → IsSound (record db { outbox = update_where q f db.outbox })
update-IsSound db q f k s =
    let same = λ (x : String) (n : Note). ap (λ i. i == x) (k n).0 in
    record {
      ids = λ x. ground (arith, s.ids x, count-update_same (is_note x) q f db.outbox (same x));
      rows = λ x n found. elim (Option-cases (fetch_one (is_note x) db.outbox)) [
        | inl e ↦ absurd (ground (arith, fetch-update_none (is_note x) q f db.outbox (same x) e))
        | inr (c, e) ↦
            let after = fetch-update_some (is_note x) q f db.outbox c (same x) e in
            let is_n : (if q c then f c else c) ≡ n = cc in
            subst (RowSound db.deliveries) is_n
              (RowSound-keeps db.deliveries q f c k (s.rows x c e))
      ];
      absent = λ x none_found. elim (Option-cases (fetch_one (is_note x) db.outbox)) [
        | inl e ↦ s.absent x e
        | inr (c, e) ↦
            absurd (ground (arith, fetch-update_some (is_note x) q f db.outbox c (same x) e))
      ];
    }

pub update-HeldSound :
    (outbox : List Note) (q : Note → Bool) (f : Note → Note) (h : Note)
    → KeepsNote q f
    → HeldSound outbox h
    → HeldSound (update_where q f outbox) h
update-HeldSound outbox q f h k (c, found, le, max, live) =
    let after =
      fetch-update_some (is_note h.notification_id) q f outbox c
        (λ n. ap (λ i. i == h.notification_id) (k n).0) found in
    let (id, count, limit, was_open, now_open) = k c in
    (
      (if q c then f c else c),
      after,
      if_both (λ (n : Note). h.attempt_count ≤ n.attempt_count) (q c) (λ _. ground (arith, count))
          (λ _. le),
      if_both (λ (n : Note). h.max_attempts ≡ n.max_attempts) (q c) (λ _. ground (arith, limit))
          (λ _. max),
      if_both (λ (n : Note). h.attempt_count ≡ n.attempt_count → is_open n.status ≡ true) (q c)
          (λ _ e. now_open) (λ _. live),
    )
