-- ===== src/Sql/Rows.antt =====
-- How a condition on every row, and the rows that have a key, change when a table is updated.
use hermes_ops.Prelude.{
  ◌+◌, ◌≤◌, ◌≡◌, refl, Bool, true, false, ◌&&◌, ◌||◌, none, some, List, [], ◌∷◌, ◌++◌, arith, all,
  not, if◌then◌else◌,
}
use hermes_ops.Sql.{exists_where, update_where, fetch_one, count_where, delete_where}
use hermes_ops.Sql.Laws.{one}

module _ {ℓ} {A : Type ℓ} where
  pub all-append_one :
      (p : A → Bool) (rows : List A) (x : A)
      → all p rows ≡ true
      → p x ≡ true
      → all p (rows ++ x ∷ []) ≡ true
  all-append_one p [] x h hx = ground (arith)
  all-append_one p (r ∷ rows) x h hx = ground (arith, all-append_one p rows x)

  -- The condition may change with the update, as long as each row meets it afterwards.
  pub all-update :
      (p p' q : A → Bool) (f : A → A) (rows : List A)
      → ((r : A) → p r ≡ true → q r ≡ true → p' (f r) ≡ true)
      → ((r : A) → p r ≡ true → q r ≡ false → p' r ≡ true)
      → all p rows ≡ true
      → all p' (update_where q f rows) ≡ true
  unfolding update_where
  all-update p p' q f [] hit miss h = refl
  all-update p p' q f (r ∷ rows) hit miss h =
      ground (arith, all-update p p' q f rows hit miss, hit r, miss r)

  pub all_imp :
      (p p' : A → Bool) (rows : List A)
      → ((r : A) → p r ≡ true → p' r ≡ true)
      → all p rows ≡ true
      → all p' rows ≡ true
  all_imp p p' [] imp h = refl
  all_imp p p' (r ∷ rows) imp h = ground (arith, all_imp p p' rows imp, imp r)

  pub all-fetch_one :
      (p q : A → Bool) (rows : List A) (t : A)
      → all p rows ≡ true
      → fetch_one q rows ≡ some t
      → p t ≡ true
  unfolding fetch_one
  all-fetch_one p q [] t h e = cc
  all-fetch_one p q (r ∷ rows) t h e = ground (arith, all-fetch_one p q rows t)

  pub count-append_one :
      (p : A → Bool) (rows : List A) (x : A)
      → count_where p (rows ++ x ∷ []) ≡ count_where p rows + one (p x)
  unfolding count_where
  count-append_one p [] x = ground (arith)
  count-append_one p (r ∷ rows) x = ground (arith, count-append_one p rows x)

  pub count-not_exists :
      (p : A → Bool) (rows : List A) → exists_where p rows ≡ false → count_where p rows ≡ 0
  unfolding count_where exists_where
  count-not_exists p [] h = refl
  count-not_exists p (r ∷ rows) h = ground (arith, count-not_exists p rows)

  pub exists-append_one :
      (p : A → Bool) (rows : List A) (x : A)
      → exists_where p (rows ++ x ∷ []) ≡ (exists_where p rows || p x)
  unfolding exists_where
  exists-append_one p [] x = ground (arith)
  exists-append_one p (r ∷ rows) x = ground (arith, exists-append_one p rows x)

  pub exists-update_same :
      (p q : A → Bool) (f : A → A) (rows : List A)
      → ((r : A) → p (f r) ≡ p r)
      → exists_where p (update_where q f rows) ≡ exists_where p rows
  unfolding exists_where update_where
  exists-update_same p q f [] h = refl
  exists-update_same p q f (r ∷ rows) h = ground (arith, exists-update_same p q f rows h, h r)

  -- A row that a query finds and that the deletion spares is still found.
  pub exists-delete :
      (p q : A → Bool) (rows : List A)
      → ((r : A) → p r ≡ true → q r ≡ false)
      → exists_where p (delete_where q rows) ≡ exists_where p rows
  unfolding exists_where delete_where
  exists-delete p q [] h = refl
  exists-delete p q (r ∷ rows) h = ground (arith, exists-delete p q rows h, h r)

  pub count-delete_le :
      (p q : A → Bool) (rows : List A) → count_where p (delete_where q rows) ≤ count_where p rows
  unfolding count_where delete_where
  count-delete_le p q [] = omega arith
  count-delete_le p q (r ∷ rows) = ground (arith, count-delete_le p q rows)

  pub exists-delete_none :
      (q : A → Bool) (rows : List A) → exists_where q (delete_where q rows) ≡ false
  unfolding exists_where delete_where
  exists-delete_none q [] = refl
  exists-delete_none q (r ∷ rows) = ground (arith, exists-delete_none q rows)

  pub fetch_one_exists :
      (q : A → Bool) (rows : List A) (t : A)
      → fetch_one q rows ≡ some t
      → exists_where q rows ≡ true
  unfolding fetch_one exists_where
  fetch_one_exists q [] t h = cc
  fetch_one_exists q (r ∷ rows) t h = ground (arith, fetch_one_exists q rows t)

  pub fetch_one-none :
      (q : A → Bool) (rows : List A) → fetch_one q rows ≡ none → exists_where q rows ≡ false
  unfolding fetch_one exists_where
  fetch_one-none q [] h = refl
  fetch_one-none q (r ∷ rows) h = ground (arith, fetch_one-none q rows)

  -- A narrower query finds nothing where the wider one finds nothing.
  pub exists_narrow :
      (p q : A → Bool) (rows : List A)
      → ((r : A) → p r ≡ true → q r ≡ true)
      → exists_where q rows ≡ false
      → exists_where p rows ≡ false
  unfolding exists_where
  exists_narrow p q [] h n = refl
  exists_narrow p q (r ∷ rows) h n = ground (arith, exists_narrow p q rows h, h r)

  -- Under a condition on every row, one query counts no more than another.
  pub count-all_mono :
      (h p q : A → Bool) (rows : List A)
      → ((r : A) → h r ≡ true → p r ≡ true → q r ≡ true)
      → all h rows ≡ true
      → count_where p rows ≤ count_where q rows
  unfolding count_where
  count-all_mono h p q [] imp e = omega arith
  count-all_mono h p q (r ∷ rows) imp e = ground (arith, count-all_mono h p q rows imp, imp r)

  count-exists_and :
      (p q : A → Bool) (rows : List A)
      → exists_where (λ r. p r && q r) rows ≡ true
      → 1 ≤ count_where q rows
  unfolding count_where exists_where
  count-exists_and p q [] e = cc
  count-exists_and p q (r ∷ rows) e = ground (arith, count-exists_and p q rows)

  -- Where at most one row has a key, a row that is found by it and a query that meets one of its
  -- rows are about the same row.
  pub exists-fetch_one :
      (p q : A → Bool) (rows : List A) (t : A)
      → fetch_one q rows ≡ some t
      → count_where q rows ≤ 1
      → exists_where (λ r. p r && q r) rows ≡ true
      → p t ≡ true
  unfolding count_where fetch_one exists_where
  exists-fetch_one p q [] t h u e = cc
  exists-fetch_one p q (r ∷ rows) t h u e =
      ground (arith, exists-fetch_one p q rows t, count-exists_and p q rows)

  pub exists-fetch_and :
      (p q : A → Bool) (rows : List A) (t : A)
      → fetch_one q rows ≡ some t
      → p t ≡ true
      → exists_where (λ r. p r && q r) rows ≡ true
  unfolding fetch_one exists_where
  exists-fetch_and p q [] t h e = cc
  exists-fetch_and p q (r ∷ rows) t h e = ground (arith, exists-fetch_and p q rows t)

  -- Where no row of the update meets another query, its negation may be added to the guard.
  pub update-none_other :
      (p q : A → Bool) (f : A → A) (rows : List A)
      → count_where (λ r. q r && p r) rows ≡ 0
      → update_where q f rows ≡ update_where (λ r. q r && not (p r)) f rows
  unfolding count_where update_where
  update-none_other p q f [] h = refl
  update-none_other p q f (r ∷ rows) h = ground (arith, update-none_other p q f rows)

  -- An update that every row it meets stops meeting the query.
  pub exists-update_none :
      (q : A → Bool) (f : A → A) (rows : List A)
      → ((r : A) → q (f r) ≡ false)
      → exists_where q (update_where q f rows) ≡ false
  unfolding exists_where update_where
  exists-update_none q f [] h = refl
  exists-update_none q f (r ∷ rows) h = ground (arith, exists-update_none q f rows h, h r)

  pub all-updated :
      (q p : A → Bool) (f : A → A) (rows : List A)
      → ((r : A) → p (f r) ≡ true)
      → all (λ r. not (q r) || p r) (update_where q f rows) ≡ true
  unfolding update_where
  all-updated q p f [] h = refl
  all-updated q p f (r ∷ rows) h = ground (arith, all-updated q p f rows h, h r)

  -- A row is added that is the first to meet the query.
  pub count-append_le :
      (p : A → Bool) (rows : List A) (x : A)
      → count_where p rows ≤ 1
      → (p x ≡ true → exists_where p rows ≡ false)
      → count_where p (rows ++ x ∷ []) ≤ 1
  count-append_le p rows x u absent =
      ground (arith, count-append_one p rows x, count-not_exists p rows)

  -- A row that the update does not meet is found as it was.
  pub fetch-update_other :
      (k q : A → Bool) (f : A → A) (rows : List A) (t : A)
      → fetch_one k rows ≡ some t
      → ((r : A) → k (f r) ≡ k r)
      → q t ≡ false
      → fetch_one k (update_where q f rows) ≡ some t
  unfolding fetch_one update_where
  fetch-update_other k q f [] t e same other = cc
  fetch-update_other k q f (r ∷ rows) t e same other =
      ground (arith, fetch-update_other k q f rows t, same r)

  pub fetch-append_one :
      (k : A → Bool) (rows : List A) (x t : A)
      → fetch_one k rows ≡ some t
      → fetch_one k (rows ++ x ∷ []) ≡ some t
  unfolding fetch_one
  fetch-append_one k [] x t e = cc
  fetch-append_one k (r ∷ rows) x t e = ground (arith, fetch-append_one k rows x t)

  pub exists-count_none :
      (p : A → Bool) (rows : List A) → count_where p rows ≡ 0 → exists_where p rows ≡ false
  unfolding count_where exists_where
  exists-count_none p [] h = refl
  exists-count_none p (r ∷ rows) h = ground (arith, exists-count_none p rows)

  pub exists-or_none :
      (p q : A → Bool) (rows : List A)
      → exists_where p rows ≡ false
      → exists_where q rows ≡ false
      → exists_where (λ r. p r || q r) rows ≡ false
  unfolding exists_where
  exists-or_none p q [] h i = refl
  exists-or_none p q (r ∷ rows) h i = ground (arith, exists-or_none p q rows)

  -- An update that leaves the key is seen in the row found by it.
  pub fetch-update_some :
      (k q : A → Bool) (f : A → A) (rows : List A) (t : A)
      → ((r : A) → k (f r) ≡ k r)
      → fetch_one k rows ≡ some t
      → fetch_one k (update_where q f rows) ≡ some (if q t then f t else t)
  unfolding fetch_one update_where
  fetch-update_some k q f [] t same e = cc
  fetch-update_some k q f (r ∷ rows) t same e =
      ground (arith, fetch-update_some k q f rows t same, same r)

  pub fetch-update_none :
      (k q : A → Bool) (f : A → A) (rows : List A)
      → ((r : A) → k (f r) ≡ k r)
      → fetch_one k rows ≡ none
      → fetch_one k (update_where q f rows) ≡ none
  unfolding fetch_one update_where
  fetch-update_none k q f [] same e = refl
  fetch-update_none k q f (r ∷ rows) same e =
      ground (arith, fetch-update_none k q f rows same, same r)

  pub exists-fetch_first :
      (p q : A → Bool) (rows : List A) (t : A)
      → fetch_one p rows ≡ some t
      → q t ≡ true
      → exists_where (λ r. p r && q r) rows ≡ true
  unfolding fetch_one exists_where
  exists-fetch_first p q [] t h e = cc
  exists-fetch_first p q (r ∷ rows) t h e = ground (arith, exists-fetch_first p q rows t)

  -- A row that is found only once another is added is that other.
  pub fetch-append_new :
      (k : A → Bool) (rows : List A) (x t : A)
      → fetch_one k rows ≡ none
      → fetch_one k (rows ++ x ∷ []) ≡ some t
      → (x ≡ t) × (k x ≡ true)
  unfolding fetch_one
  fetch-append_new k [] x t e f = (ground arith, ground arith)
  fetch-append_new k (r ∷ rows) x t e f = fetch-append_new k rows x t (ground arith) (ground arith)
