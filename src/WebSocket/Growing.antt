-- ===== src/WebSocket/Growing.antt =====
-- A journal whose rows are numbered in growing order, as `EventJournal.emit` of
-- controller_api/event_journal.py leaves it.
use hermes_ops.Commands.Journal.{
  aggregate_types, is_event_text, is_optional_text, validate_data, emit, validate_event,
  has_event_texts,
}
use hermes_ops.Commands.Request.{texts}
use hermes_ops.Commands.Store.{JournalEvent, Journal, Screen}
use hermes_ops.Prelude.{
  ℕ, zero, suc, ◌≤◌, String, ◌≡◌, refl, sym, Bool, true, ◌&&◌, List, [], ◌∷◌, arith, ltb, leb, take,
  filter, ◌+◌, ◌<◌, ap, ◌++◌, ◌⊎◌, inl, inr, subst, false, all, string_column, if◌then◌else◌, mem,
}
use hermes_ops.Prelude.Result.{ok, Result, bind_ok, is_ok, err}
use hermes_ops.Sql.{order_by}
use hermes_ops.Sql.Rows.{all-append_one}
use hermes_ops.WebSocket.Events.{by_sequence, is_readable}
use mathlib.Core.Bool.{not}

-- The rows of a journal that only `emit` writes have growing numbers.
unfoldable pub is_growing : ℕ → List JournalEvent → Bool
is_growing n [] = true
is_growing n (e ∷ rows) = ltb n e.sequence && is_growing e.sequence rows

-- The cursor after a batch.
unfoldable pub cursor_after : ℕ → List JournalEvent → ℕ
cursor_after c [] = c
cursor_after c (e ∷ batch) = cursor_after e.sequence batch

pub order_by-growing :
    (n : ℕ) (rows : List JournalEvent) → is_growing n rows ≡ true → order_by by_sequence rows ≡ rows
unfolding order_by is_growing
order_by-growing n [] h = refl
order_by-growing n (e ∷ []) h = refl
order_by-growing n (e ∷ d ∷ rows) h = ground (arith, order_by-growing e.sequence (d ∷ rows))

growing_from_less :
    (n m : ℕ) (rows : List JournalEvent)
    → n ≤ m
    → is_growing m rows ≡ true
    → is_growing n rows ≡ true
unfolding is_growing
growing_from_less n m [] le h = refl
growing_from_less n m (e ∷ rows) le h = ground arith

filter-growing :
    (n : ℕ) (p : JournalEvent → Bool) (rows : List JournalEvent)
    → is_growing n rows ≡ true
    → is_growing n (filter p rows) ≡ true
unfolding is_growing
filter-growing n p [] h = refl
filter-growing n p (e ∷ rows) h =
    ground (arith, filter-growing e.sequence p rows, growing_from_less n e.sequence (filter p rows))

pub newer-growing :
    (n c : ℕ) (rows : List JournalEvent)
    → is_growing n rows ≡ true
    → is_growing c (filter (λ e. ltb c e.sequence) rows) ≡ true
unfolding is_growing
newer-growing n c [] h = refl
newer-growing n c (e ∷ rows) h =
    ground (
      arith,
      newer-growing e.sequence c rows,
      filter-growing e.sequence (λ d. ltb c d.sequence) rows,
    )

pub cursor_after-grows :
    (c limit : ℕ) (rows : List JournalEvent)
    → is_growing c rows ≡ true
    → c ≤ cursor_after c (take limit rows)
unfolding is_growing cursor_after
cursor_after-grows c zero rows h = omega arith
cursor_after-grows c (suc limit) [] h = omega arith
cursor_after-grows c (suc limit) (e ∷ rows) h =
    ground (arith, cursor_after-grows e.sequence limit rows)

pub moves_on :
    (c limit : ℕ) (rows : List JournalEvent)
    → is_growing c rows ≡ true
    → (c < cursor_after c (take (suc limit) rows)) ⊎ (rows ≡ [])
unfolding is_growing cursor_after
moves_on c limit [] h = inr refl
moves_on c limit (e ∷ rows) h = inl (ground (arith, cursor_after-grows e.sequence limit rows))

-- No row is at or below a number that all rows exceed.
none_below :
    (n c : ℕ) (g : JournalEvent → Bool) (rows : List JournalEvent)
    → c ≤ n
    → is_growing n rows ≡ true
    → filter (λ e. leb e.sequence c && g e) rows ≡ []
unfolding is_growing
none_below n c g [] le h = refl
none_below n c g (e ∷ rows) le h = ground (arith, none_below e.sequence c g rows)

pub taken_up_to :
    (c limit : ℕ) (g : JournalEvent → Bool) (rows : List JournalEvent)
    → is_growing c rows ≡ true
    → filter g (take limit rows)
      ≡ filter (λ e. leb e.sequence (cursor_after c (take limit rows)) && g e) rows
unfolding is_growing cursor_after
taken_up_to c zero g rows h = sym (none_below c c g rows (omega arith) h)
taken_up_to c (suc limit) g [] h = refl
taken_up_to c (suc limit) g (e ∷ rows) h =
    ground (arith, taken_up_to e.sequence limit g rows, cursor_after-grows e.sequence limit rows)

pub filter_twice :
    (p g : JournalEvent → Bool) (rows : List JournalEvent)
    → filter g (filter p rows) ≡ filter (λ e. p e && g e) rows
filter_twice p g [] = refl
filter_twice p g (e ∷ rows) = ground (arith, filter_twice p g rows)

-- Rows that can be read, numbered in growing order from 1 on, none above the last number given out.
pub record IsNumbered (journal : Journal) : Type 0 where
  pub growing : is_growing 0 journal.rows ≡ true
  pub given : cursor_after 0 journal.rows ≤ journal.last
  pub readable : all (is_readable journal.screen) journal.rows ≡ true

growing-append :
    (n : ℕ) (rows : List JournalEvent) (e : JournalEvent)
    → is_growing n rows ≡ true
    → cursor_after n rows < e.sequence
    → (is_growing n (rows ++ e ∷ []) ≡ true) × (cursor_after n (rows ++ e ∷ []) ≡ e.sequence)
unfolding is_growing cursor_after
growing-append n [] e h lt = ground arith
growing-append n (d ∷ rows) e h lt = ground (arith, growing-append d.sequence rows e)

passed :
    {E A : Type 0} (b : Bool) (e : E) (r : Result E A)
    → is_ok (if not b then err e else r) ≡ true
    → (b ≡ true) × (is_ok r ≡ true)
passed true e r h = (refl, h)
passed false e r h = cc

reordered :
    (kind actor aggregate project objective causation number payload : Bool)
    → (kind && actor && aggregate && project && objective && causation) ≡ true
    → number ≡ true
    → payload ≡ true
    → (number && kind && aggregate && causation && project && objective && payload) ≡ true
reordered kind actor aggregate project objective causation number payload h n d = ground arith

is_positive : (n m : ℕ) → m ≡ n + 1 → leb 1 m ≡ true
is_positive n m h = ground arith

validated-is_readable :
    (screen : Screen) (actor_id : String) (e : JournalEvent)
    → leb 1 e.sequence ≡ true
    → is_ok (validate_event screen actor_id e) ≡ true
    → is_readable screen e ≡ true
unfolding validate_event has_event_texts is_readable
validated-is_readable screen actor_id e positive h =
    let (texts, payload) =
      passed (has_event_texts actor_id e)
        (record { status = 503; code = "event_journal_input_invalid" })
        (validate_data screen e.redacted_data_json) h in
    reordered (mem e.aggregate_type aggregate_types) (is_event_text actor_id)
      (is_event_text e.aggregate_id) (is_optional_text e.project_id)
      (is_optional_text e.objective_id) (is_optional_text e.causation_id) (leb 1 e.sequence)
      (is_ok (validate_data screen e.redacted_data_json)) texts positive payload

-- An event that is stored with the number it is given keeps the journal numbered and readable.
pub emit-IsNumbered :
    (actor_id : String) (event : ℕ → JournalEvent) (journal after : Journal)
    → ((n : ℕ) → (event n).sequence ≡ n)
    → emit actor_id event journal ≡ ok after
    → IsNumbered journal
    → IsNumbered after
unfolding emit
emit-IsNumbered actor_id event journal after own stored numbered =
    let new = event (journal.last + 1) in
    let (growing, given) =
      growing-append 0 journal.rows new numbered.growing
        (omega (arith, own (journal.last + 1), numbered.given)) in
    let (checked, valid, end) = bind_ok (validate_event journal.screen actor_id new) _ stored in
    let readable =
      validated-is_readable journal.screen actor_id new
        (is_positive journal.last new.sequence (own (journal.last + 1))) (ap is_ok valid) in
    let same : (record journal { rows = journal.rows ++ new ∷ []; last = journal.last + 1 })
        ≡ after =
      cc in
    subst IsNumbered same (record {
      growing = growing;
      given = omega (arith, own (journal.last + 1), given);
      readable =
          all-append_one (is_readable journal.screen) journal.rows new numbered.readable readable;
    })
