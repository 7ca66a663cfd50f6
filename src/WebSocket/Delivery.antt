-- ===== src/WebSocket/Delivery.antt =====
-- What a client at a cursor is sent of the journal.
use hermes_ops.Commands.Store.{JournalEvent, Journal}
use hermes_ops.Prelude.{
  ℕ, zero, suc, ◌≤◌, String, ◌≡◌, refl, sym, Bool, true, ◌&&◌, List, [], ◌∷◌, arith, ltb, leb, take,
  filter, ◌<◌, ap, ◌∙◌, ◌++◌, ◌⊎◌, inl, inr, subst, false, all, if_both, string_column,
}
use hermes_ops.Prelude.Result.{ok, Result, err}
use hermes_ops.WebSocket.Events.{
  send_failed, deliver, read_after, drain_event_batch, is_readable, newer_rows, StreamError,
  deliver_read,
}
use hermes_ops.WebSocket.Growing.{
  is_growing, cursor_after, order_by-growing, newer-growing, cursor_after-grows, moves_on,
  taken_up_to, filter_twice, IsNumbered,
}
use mathlib.Core.Bool.{not}

-- What a batch comes to: all of what it selects was sent, or what stands before an event that the
-- connection does not take.
abbrev pub Delivered :
    (JournalEvent → Bool)
    → List JournalEvent × Result StreamError ℕ
    → List JournalEvent
    → ℕ
    → Type 0
Delivered sends (sent, end) due cursor =
    ((end ≡ ok cursor) × (sent ≡ due))
    ⊎ ((end ≡ err send_failed)
        × ((e : JournalEvent) × (unsent : List JournalEvent) × (due ≡ sent ++ e ∷ unsent)
            × (sends e ≡ false)))

module _ (selected : String → Bool) (sends : JournalEvent → Bool) where
  Delivered-cons :
      (e : JournalEvent) (done : List JournalEvent × Result StreamError ℕ) (due : List JournalEvent)
      (cursor : ℕ)
      → Delivered sends done due cursor
      → Delivered sends (e ∷ done.0, done.1) (e ∷ due) cursor
  Delivered-cons e (sent, end) due cursor (inl (h, same)) = inl (h, ap (λ es. e ∷ es) same)
  Delivered-cons e (sent, end) due cursor (inr (h, (d, unsent, split, fails))) =
      inr (h, (d, unsent, ap (λ es. e ∷ es) split, fails))

  deliver-growing :
      (c limit : ℕ) (rows : List JournalEvent)
      → is_growing c rows ≡ true
      → Delivered sends
          (deliver selected sends c (take limit rows))
          (filter (λ e. selected e.aggregate_type) (take limit rows))
          (cursor_after c (take limit rows))
  unfolding is_growing deliver cursor_after
  deliver-growing c zero rows h = inl (refl, refl)
  deliver-growing c (suc limit) [] h = inl (refl, refl)
  deliver-growing c (suc limit) (e ∷ rows) h =
      let g : JournalEvent → Bool = λ d. selected d.aggregate_type in
      let batch = take limit rows in
      let cursor' = cursor_after e.sequence batch in
      let rest = deliver-growing e.sequence limit rows (ground arith) in
      let At : List JournalEvent × Result StreamError ℕ → Type 0 =
        λ r. Delivered sends r (filter g (e ∷ batch)) cursor' in
      if_both At (leb e.sequence c) (λ old. absurd (ground arith))
        (λ new.
          if_both At (not (selected e.aggregate_type))
            (λ skipped.
              let same : filter g batch ≡ filter g (e ∷ batch) = ground arith in
              subst (λ due. Delivered sends (deliver selected sends e.sequence batch) due cursor')
                same rest)
            (λ chosen.
              let same : e ∷ filter g batch ≡ filter g (e ∷ batch) = ground arith in
              if_both At (sends e)
                (λ taken.
                  subst
                    (λ due.
                      Delivered sends
                        (
                          e ∷ (deliver selected sends e.sequence batch).0,
                          (deliver selected sends e.sequence batch).1,
                        )
                        due cursor')
                    same
                    (Delivered-cons e (deliver selected sends e.sequence batch) (filter g batch)
                      cursor' rest))
                (λ fails. inr (refl, (e, filter g batch, sym same, fails)))))

abbrev pub is_wanted : ℕ → ℕ → (String → Bool) → JournalEvent → Bool
is_wanted cursor cursor' selected e =
    ltb cursor e.sequence && (leb e.sequence cursor' && selected e.aggregate_type)

all-filter :
    (p q : JournalEvent → Bool) (rows : List JournalEvent)
    → all p rows ≡ true
    → all p (filter q rows) ≡ true
all-filter p q [] h = refl
all-filter p q (e ∷ rows) h = ground (arith, all-filter p q rows)

all-take :
    (p : JournalEvent → Bool) (limit : ℕ) (rows : List JournalEvent)
    → all p rows ≡ true
    → all p (take limit rows) ≡ true
all-take p zero rows h = refl
all-take p (suc limit) [] h = refl
all-take p (suc limit) (e ∷ rows) h = ground (arith, all-take p limit rows)

read_after-numbered :
    (journal : Journal) (cursor limit : ℕ)
    → IsNumbered journal
    → read_after journal cursor limit
      ≡ ok (take limit (filter (λ e. ltb cursor e.sequence) journal.rows))
unfolding read_after newer_rows
read_after-numbered journal cursor limit numbered =
    let newer = filter (λ e. ltb cursor e.sequence) journal.rows in
    let growing = newer-growing 0 cursor journal.rows numbered.growing in
    let readable = all-take (is_readable journal.screen) limit newer (
      all-filter (is_readable journal.screen) (λ e. ltb cursor e.sequence) journal.rows
        numbered.readable) in
    rw (order_by-growing cursor newer growing, readable) refl

-- What a client of a numbered journal, whose rows can be read, is due of a batch is, in order, the
-- events above the old cursor and up to the new that its topics select; the new cursor is beyond the
-- old unless the journal has no newer event. Either all of them are sent and the cursor is moved to
-- the new one, or those are sent that stand before an event which the connection does not take, and
-- the stream ends there with the connection's error.
pub drain_event_batch-exact :
    (journal : Journal) (cursor : ℕ) (selected : String → Bool) (sends : JournalEvent → Bool)
    → IsNumbered journal
    → (cursor' : ℕ) × Delivered sends
        (drain_event_batch journal cursor selected sends)
        (filter (is_wanted cursor cursor' selected) journal.rows)
        cursor'
      × (cursor ≤ cursor')
      × ((cursor < cursor') ⊎ (filter (λ e. ltb cursor e.sequence) journal.rows ≡ []))
unfolding drain_event_batch deliver_read
drain_event_batch-exact journal cursor selected sends numbered =
    let newer = filter (λ e. ltb cursor e.sequence) journal.rows in
    let growing = newer-growing 0 cursor journal.rows numbered.growing in
    let g : JournalEvent → Bool = λ e. selected e.aggregate_type in
    let cursor' = cursor_after cursor (take 100 newer) in
    let due =
      taken_up_to cursor 100 g newer growing
      ∙ filter_twice (λ e. ltb cursor e.sequence) (λ e. leb e.sequence cursor' && g e)
          journal.rows in
    (
      cursor',
      subst (λ es. Delivered sends (drain_event_batch journal cursor selected sends) es cursor') due
          (subst
            (λ batch.
              Delivered sends (deliver_read selected sends cursor batch) (filter g (take 100 newer))
                cursor')
            (sym (read_after-numbered journal cursor 100 numbered))
            (deliver-growing selected sends cursor 100 newer growing)),
      cursor_after-grows cursor 100 newer growing,
      moves_on cursor 99 newer growing,
    )
