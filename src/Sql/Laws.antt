-- ===== src/Sql/Laws.antt =====
-- How updates of a table change the rows that a query counts or finds.
use hermes_ops.Prelude.{
  ℕ, ◌+◌, ◌≤◌, ◌≡◌, refl, Bool, true, ◌&&◌, some, List, [], ◌∷◌, arith, if◌then◌else◌, not,
  string_column, Comparable, mem,
}
use hermes_ops.Prelude.Members.{count, mem-count}
use hermes_ops.Sql.{insert_by, update_where, fetch_one, count_where, order_by, exists_where}

-- A row counts once if the test holds of it.
abbrev pub one : Bool → ℕ
one b = if b then 1 else 0

module _ {ℓ} {A : Type ℓ} where
  -- A query that no row meets is met by no row that is updated either.
  pub update_where_none :
      (q g : A → Bool) (f : A → A) (rows : List A)
      → count_where q rows ≡ 0
      → update_where (λ r. q r && g r) f rows ≡ rows
  unfolding count_where update_where
  update_where_none q g f [] h = refl
  update_where_none q g f (r ∷ rows) h = ground (arith, update_where_none q g f rows)

  update_none :
      (q : A → Bool) (f : A → A) (rows : List A)
      → count_where q rows ≡ 0
      → update_where q f rows ≡ rows
  unfolding count_where update_where
  update_none q f [] h = refl
  update_none q f (r ∷ rows) h = ground (arith, update_none q f rows)

  count-without_none :
      (p q : A → Bool) (rows : List A)
      → count_where q rows ≡ 0
      → count_where (λ r. p r && not (q r)) rows ≡ count_where p rows
  unfolding count_where
  count-without_none p q [] h = refl
  count-without_none p q (r ∷ rows) h = ground (arith, count-without_none p q rows)

  count-and_none :
      (p q : A → Bool) (rows : List A)
      → count_where q rows ≡ 0
      → count_where (λ r. q r && p r) rows ≡ 0
  unfolding count_where
  count-and_none p q [] h = refl
  count-and_none p q (r ∷ rows) h = ground (arith, count-and_none p q rows)

  -- The update of a row found by a key that at most one row has.
  pub count-update_found :
      (p q g : A → Bool) (f : A → A) (rows : List A) (t : A)
      → fetch_one q rows ≡ some t
      → count_where q rows ≤ 1
      → count_where p (update_where (λ r. q r && g r) f rows) + one (p t)
        ≡ count_where p rows + one (p (if g t then f t else t))
  unfolding count_where update_where fetch_one
  count-update_found p q g f [] t h u = cc
  count-update_found p q g f (r ∷ rows) t h u =
      ground (arith, update_where_none q g f rows, count-update_found p q g f rows t)

  -- No row that did not meet `p` meets it after the update.
  pub count-update_le :
      (p q : A → Bool) (f : A → A) (rows : List A)
      → ((r : A) → q r ≡ true → p (f r) ≡ true → p r ≡ true)
      → count_where p (update_where q f rows) ≤ count_where p rows
  unfolding count_where update_where
  count-update_le p q f [] h = omega arith
  count-update_le p q f (r ∷ rows) h = ground (arith, count-update_le p q f rows h, h r)

  pub fetch_one-meets :
      (q : A → Bool) (rows : List A) (t : A) → fetch_one q rows ≡ some t → q t ≡ true
  unfolding fetch_one
  fetch_one-meets q [] t h = cc
  fetch_one-meets q (r ∷ rows) t h = ground (arith, fetch_one-meets q rows t)

  -- The rows that a query counts are the one that was found and those without its key.
  pub count-split_found :
      (p q : A → Bool) (rows : List A) (t : A)
      → fetch_one q rows ≡ some t
      → count_where q rows ≤ 1
      → count_where (λ r. p r && not (q r)) rows + one (p t) ≡ count_where p rows
  unfolding count_where fetch_one
  count-split_found p q [] t h u = cc
  count-split_found p q (r ∷ rows) t h u =
      ground (arith, count-without_none p q rows, count-split_found p q rows t)

  -- An update that leaves the test as it was leaves the count.
  pub count-update_same :
      (p q : A → Bool) (f : A → A) (rows : List A)
      → ((r : A) → p (f r) ≡ p r)
      → count_where p (update_where q f rows) ≡ count_where p rows
  unfolding count_where update_where
  count-update_same p q f [] h = refl
  count-update_same p q f (r ∷ rows) h = ground (arith, count-update_same p q f rows h, h r)

  pub count_mono :
      (p q : A → Bool) (rows : List A)
      → ((r : A) → p r ≡ true → q r ≡ true)
      → count_where p rows ≤ count_where q rows
  unfolding count_where
  count_mono p q [] h = omega arith
  count_mono p q (r ∷ rows) h = ground (arith, count_mono p q rows h, h r)

  -- The row found by a key counts once, if no other row has the key.
  pub count-found_and :
      (p q : A → Bool) (rows : List A) (t : A)
      → fetch_one q rows ≡ some t
      → count_where q rows ≤ 1
      → count_where (λ r. q r && p r) rows ≡ one (p t)
  unfolding count_where fetch_one
  count-found_and p q [] t h u = cc
  count-found_and p q (r ∷ rows) t h u =
      ground (arith, count-and_none p q rows, count-found_and p q rows t)

  -- A guard that the one row found meets may be left out of the update.
  pub update-found_guard :
      (q g : A → Bool) (f : A → A) (rows : List A) (t : A)
      → fetch_one q rows ≡ some t
      → count_where q rows ≤ 1
      → g t ≡ true
      → update_where q f rows ≡ update_where (λ r. q r && g r) f rows
  unfolding count_where update_where fetch_one
  update-found_guard q g f [] t h u gt = refl
  update-found_guard q g f (r ∷ rows) t h u gt =
      ground
        (arith, update_where_none q g f rows, update-found_guard q g f rows t, update_none q f rows)

exists-insert_by :
    {A : Type 0} (p : A → Bool) (le : A → A → Bool) (r : A) (rows : List A)
    → exists_where p (insert_by le r rows) ≡ exists_where p (r ∷ rows)
unfolding exists_where insert_by
exists-insert_by p le r [] = refl
exists-insert_by p le r (s ∷ rows) = ground (arith, exists-insert_by p le r rows)

-- Sorting keeps what a query finds.
pub exists-order_by :
    {A : Type 0} (p : A → Bool) (le : A → A → Bool) (rows : List A)
    → exists_where p (order_by le rows) ≡ exists_where p rows
unfolding exists_where order_by
exists-order_by p le [] = refl
exists-order_by p le (r ∷ rows) =
    ground (arith, exists-insert_by p le r (order_by le rows), exists-order_by p le rows)

-- There is nothing to sort in one row.
pub order_by-one {ℓ} : {A : Type ℓ} (le : A → A → Bool) (a : A) → order_by le (a ∷ []) ≡ a ∷ []
unfolding order_by insert_by
order_by-one le a = refl

pub order_by-none {ℓ} : {A : Type ℓ} (le : A → A → Bool) → order_by le [] ≡ []
unfolding order_by
order_by-none le = refl

-- Sorting keeps what a list holds.
module _ {ℓ} {A : Type ℓ} ⦃column : Comparable A⦄ where
  count-insert_by :
      (le : A → A → Bool) (a r : A) (rows : List A)
      → count a (insert_by le r rows) ≡ count a (r ∷ rows)
  unfolding insert_by
  count-insert_by le a r [] = refl
  count-insert_by le a r (s ∷ rows) = ground (arith, count-insert_by le a r rows)

  pub count-order_by :
      (le : A → A → Bool) (a : A) (rows : List A) → count a (order_by le rows) ≡ count a rows
  unfolding order_by
  count-order_by le a [] = refl
  count-order_by le a (r ∷ rows) =
      ground (arith, count-insert_by le a r (order_by le rows), count-order_by le a rows)

  pub mem-order_by :
      (le : A → A → Bool) (a : A) (rows : List A) → mem a (order_by le rows) ≡ mem a rows
  mem-order_by le a rows =
      ground (arith, mem-count a (order_by le rows), mem-count a rows, count-order_by le a rows)
