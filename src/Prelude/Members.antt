-- ===== src/Prelude/Members.antt =====
-- Membership and multiplicity in lists of comparable values.
use hermes_ops.Prelude.{
  false, ◌∷◌, true, Bool, List, string_column, ℕ, suc, ◌+◌, ◌≤◌, ◌<◌, ◌≡◌, refl, inl, inr, not,
  ◌&&◌, ◌||◌, [], ◌++◌, arith, ltb, if◌then◌else◌, Comparable, ◌==◌, Bool-cases, ==_refl, length,
  all, mem,
}

abbrev pub is_empty {ℓ} : {A : Type ℓ} → List A → Bool
is_empty [] = true
is_empty (x ∷ xs) = false

module _ {ℓ} {A : Type ℓ} ⦃column : Comparable A⦄ where
  abbrev pub count : A → List A → ℕ
  count a [] = 0
  count a (x ∷ xs) = let rest = count a xs in if a == x then suc rest else rest

  -- `discard` on a set that is kept as a list.
  unfoldable pub remove : A → List A → List A
  remove a [] = []
  remove a (x ∷ xs) = let rest = remove a xs in if x == a then rest else x ∷ rest

  -- One copy less.
  erase : A → List A → List A
  erase a [] = []
  erase a (x ∷ xs) = if a == x then xs else x ∷ erase a xs

  pub mem-append : (a : A) (xs ys : List A) → mem a (xs ++ ys) ≡ (mem a xs || mem a ys)
  mem-append a [] ys = refl
  mem-append a (x ∷ xs) ys = ground (arith, mem-append a xs ys)

  pub count-append : (a : A) (xs ys : List A) → count a (xs ++ ys) ≡ count a xs + count a ys
  count-append a [] ys = omega arith
  count-append a (x ∷ xs) ys = ground (arith, count-append a xs ys)

  pub mem-count : (a : A) (xs : List A) → mem a xs ≡ ltb 0 (count a xs)
  mem-count a [] = refl
  mem-count a (x ∷ xs) = ground (arith, mem-count a xs)

  pub mem-remove : (a k : A) (xs : List A) → mem a (remove k xs) ≡ (mem a xs && not (a == k))
  unfolding remove
  mem-remove a k [] = refl
  mem-remove a k (x ∷ xs) =
      ground
        (arith, mem-remove a k xs, column.same_iff a x, column.same_iff x k, column.same_iff a k)

  pub is_empty-remove : (k : A) (xs : List A) → is_empty xs ≡ true → is_empty (remove k xs) ≡ true
  unfolding remove
  is_empty-remove k [] h = refl
  is_empty-remove k (x ∷ xs) h = cc

  pub remove-remove : (k : A) (xs : List A) → remove k (remove k xs) ≡ remove k xs
  unfolding remove
  remove-remove k [] = refl
  remove-remove k (x ∷ xs) = ground (arith, remove-remove k xs)

  pub is_empty_of_none : (xs : List A) → ((a : A) → mem a xs ≡ false) → is_empty xs ≡ true
  is_empty_of_none [] h = refl
  is_empty_of_none (x ∷ xs) h = ground (arith, h x, ==_refl x)

  pub all_of_mem :
      (q : A → Bool) (xs : List A) → ((a : A) → mem a xs ≡ true → q a ≡ true) → all q xs ≡ true
  all_of_mem q [] h = refl
  all_of_mem q (x ∷ xs) h =
      ground (arith, h x, ==_refl x, all_of_mem q xs (λ a m. h a (ground arith)))

  pub mem_of_all :
      (q : A → Bool) (xs : List A) (a : A) → all q xs ≡ true → mem a xs ≡ true → q a ≡ true
  mem_of_all q [] a h m = cc
  mem_of_all q (x ∷ xs) a h m = elim (Bool-cases (a == x)) [
    | inl e ↦ rw ((column.same_iff a x).0 e) (ground arith)
    | inr e ↦ mem_of_all q xs a (ground arith) (ground arith)
  ]

  count-erase :
      (a c : A) (xs : List A)
      → 0 < count a xs
      → count c (erase a xs) + (if c == a then 1 else 0) ≡ count c xs
  unfolding erase
  count-erase a c [] h = omega arith
  count-erase a c (x ∷ xs) h =
      ground
        (arith, count-erase a c xs, column.same_iff a x, column.same_iff c x, column.same_iff c a)

  length-erase : (a : A) (xs : List A) → 0 < count a xs → length (erase a xs) + 1 ≡ length xs
  unfolding erase
  length-erase a [] h = omega arith
  length-erase a (x ∷ xs) h = ground (arith, length-erase a xs)

  -- A list that holds nothing more often than another is no longer.
  pub length_le_of_count :
      (xs ys : List A) → ((a : A) → count a xs ≤ count a ys) → length xs ≤ length ys
  length_le_of_count [] ys h = omega arith
  length_le_of_count (x ∷ xs) ys h =
      let here : 0 < count x ys = ground (arith, h x, ==_refl x) in
      omega (
        arith,
        length-erase x ys here,
        length_le_of_count xs (erase x ys) (λ a. ground (arith, h a, count-erase x a ys here)),
      )

  -- And if it is as long, it holds the same values as often.
  pub count_eq_of_length :
      (xs ys : List A)
      → ((a : A) → count a xs ≤ count a ys)
      → length xs ≡ length ys
      → (a : A) → count a xs ≡ count a ys
  count_eq_of_length [] [] h e a = refl
  count_eq_of_length [] (y ∷ ys) h e a = absurd (omega arith)
  count_eq_of_length (x ∷ xs) ys h e a =
      let here : 0 < count x ys = ground (arith, h x, ==_refl x) in
      ground (
        arith,
        count-erase x a ys here,
        count_eq_of_length xs (erase x ys) (λ c. ground (arith, h c, count-erase x c ys here))
            (omega (arith, length-erase x ys here)) a,
      )
