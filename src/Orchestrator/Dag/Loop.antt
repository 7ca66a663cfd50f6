-- ===== src/Orchestrator/Dag/Loop.antt =====
-- The invariant of `while ready`, kept by each round.
use hermes_ops.Orchestrator.Dag.{
  Node, keys, parents, children, Progress, text_leb, drain, initial, visit_children, round,
}
use hermes_ops.Orchestrator.Dag.Visit.{Visited, visit_children-Visited}
use hermes_ops.Prelude.{
  string_column, ◌+◌, ◌≤◌, String, ◌≡◌, refl, Bool, true, not, ◌&&◌, ◌||◌, List, [], ◌∷◌, ◌++◌,
  arith, eq_iff, ==_refl, all, mem, ℕ, inl, inr, ◌==◌, Bool-cases, length, filter, length-append,
  zero, suc, ◌∙◌,
}
use hermes_ops.Prelude.Members.{
  is_empty, count, mem-append, count-append, mem-count, mem-remove, is_empty-remove, all_of_mem,
  length_le_of_count,
}
use hermes_ops.Sql.{order_by}
use hermes_ops.Sql.Laws.{count-order_by, mem-order_by}

-- Every key comes after its parents; `seen` is what came before the list.
abbrev pub after_parents : (String → List String) → List String → List String → Bool
after_parents ps seen [] = true
after_parents ps seen (k ∷ ks) = all (λ p. mem p seen) (ps k) && after_parents ps (k ∷ seen) ks

after_parents-append :
    (ps : String → List String) (seen xs : List String) (k : String)
    → after_parents ps seen xs ≡ true
    → ((p : String) → mem p (ps k) ≡ true → (mem p xs || mem p seen) ≡ true)
    → after_parents ps seen (xs ++ k ∷ []) ≡ true
after_parents-append ps seen [] k h m = ground (arith, all_of_mem (λ p. mem p seen) (ps k) m)
after_parents-append ps seen (x ∷ xs) k h m =
    ground
      (arith, after_parents-append ps (x ∷ seen) xs k (ground arith) (λ p e. ground (arith, m p e)))

pub record IsOrdered (nodes : List Node) (s : Progress) : Type 0 where
  -- what a key waits for is what has not been taken of its parents
  pub waits :
      (c p : String) → mem p (s.waiting c) ≡ (mem p (parents nodes c) && not (mem p s.order))
  -- a key is taken or ready exactly when it waits for nothing
  pub queued :
      (c : String)
      → mem c (keys nodes) ≡ true
      → (mem c s.order || mem c s.ready) ≡ is_empty (s.waiting c)
  pub known : (c : String) → (mem c s.order || mem c s.ready) ≡ true → mem c (keys nodes) ≡ true
  pub once : (c : String) → count c s.order + count c s.ready ≤ 1
  pub sorted : after_parents (parents nodes) [] s.order ≡ true

abbrev pub UniqueKeys : List Node → Type 0
UniqueKeys nodes = (c : String) → count c (keys nodes) ≤ 1

parents-known :
    (nodes : List Node) (c p : String) → mem p (parents nodes c) ≡ true → mem c (keys nodes) ≡ true
unfolding parents
parents-known [] c p h = cc
parents-known (n ∷ nodes) c p h =
    ground (arith, parents-known nodes c p, eq_iff n.key c, eq_iff c n.key)

children-known :
    (nodes : List Node) (k c : String) → mem c (children nodes k) ≡ true → mem c (keys nodes) ≡ true
unfolding children
children-known [] k c h = cc
children-known (n ∷ nodes) k c h = ground (arith, children-known nodes k c)

pub mem-children :
    (nodes : List Node) (k c : String)
    → count c (keys nodes) ≤ 1
    → mem c (children nodes k) ≡ mem k (parents nodes c)
unfolding children parents
mem-children [] k c u = refl
mem-children (n ∷ nodes) k c u = ground (
  arith,
  mem-children nodes k c,
  eq_iff n.key c,
  eq_iff c n.key,
  children-known nodes k c,
  mem-count c (keys nodes),
)

mem-filter :
    (f : String → Bool) (c : String) (ks : List String) → mem c (filter f ks) ≡ (mem c ks && f c)
mem-filter f c [] = refl
mem-filter f c (k ∷ ks) = elim (Bool-cases (c == k)) [
  | inl e ↦ rw ((eq_iff c k).0 e) (ground (arith, mem-filter f k ks, ==_refl k))
  | inr e ↦ ground (arith, mem-filter f c ks)
]

count-filter :
    (f : String → Bool) (c : String) (ks : List String) → count c (filter f ks) ≤ count c ks
count-filter f c [] = omega arith
count-filter f c (k ∷ ks) = ground (arith, count-filter f c ks)

is_empty_of_length : (xs : List String) → length xs ≤ 0 → xs ≡ []
is_empty_of_length [] h = refl
is_empty_of_length (x ∷ xs) h = absurd (omega arith)

module _ (nodes : List Node) (unique : UniqueKeys nodes) where
  -- One round, with the key that is taken off the list of ready keys.
  pub round-IsOrdered :
      (s s' : Progress) (key : String) (rest cs : List String)
      → s.ready ≡ key ∷ rest
      → ((c : String) → mem c cs ≡ mem key (parents nodes c))
      → Visited key cs (record s { ready = rest; order = s.order ++ key ∷ [] }) s'
      → IsOrdered nodes s
      → IsOrdered nodes s'
  round-IsOrdered s s' key rest cs er ec v inv =
      let here : mem key s.ready ≡ true = ground (arith, ==_refl key) in
      let taken = inv.known key (ground arith) in
      record {
        waits = λ c p. ground (
          arith,
          v.waits c,
          v.same_order,
          inv.waits c p,
          ec c,
          mem-append p s.order (key ∷ []),
          mem-remove p key (s.waiting c),
          eq_iff p key,
        );
        queued = λ c m. ground (
          arith,
          v.waits c,
          v.readies c,
          v.same_order,
          inv.queued c m,
          mem-append c s.order (key ∷ []),
          is_empty-remove key (s.waiting c),
        );
        known = λ c m. ground (
          arith,
          v.readies c,
          v.same_order,
          ec c,
          parents-known nodes c key,
          inv.known c,
          taken,
          mem-append c s.order (key ∷ []),
          eq_iff c key,
        );
        once = λ c. ground (
          arith,
          v.once c,
          v.same_order,
          inv.once c,
          count-append c s.order (key ∷ []),
          mem-count c rest,
          v.readies c,
          mem-count c s'.ready,
          mem-count c (s.order ++ key ∷ []),
          mem-append c s.order (key ∷ []),
          mem-count c s.order,
        );
        sorted = rw v.same_order (
            after_parents-append (parents nodes) [] s.order key inv.sorted
              (λ p m. ground (arith, inv.waits key p, inv.queued key taken)));
      }

  -- The start: the keys with no parents are ready.
  pub initial-IsOrdered : IsOrdered nodes (initial nodes)
  unfolding initial
  initial-IsOrdered =
      let roots = filter (λ k. is_empty (parents nodes k)) (keys nodes) in
      record {
        waits = λ c p. ground arith;
        queued = λ c m. ground (
          arith,
          mem-order_by text_leb c roots,
          mem-filter (λ k. is_empty (parents nodes k)) c (keys nodes),
        );
        known = λ c m. ground (
          arith,
          mem-order_by text_leb c roots,
          mem-filter (λ k. is_empty (parents nodes k)) c (keys nodes),
        );
        once = λ c. ground (
          arith,
          count-order_by text_leb c roots,
          count-filter (λ k. is_empty (parents nodes k)) c (keys nodes),
          unique c,
        );
        sorted = refl;
      }

  -- The list of the taken and the ready keys is no longer than that of all keys.
  room : (s : Progress) → IsOrdered nodes s → length s.order + length s.ready ≤ length (keys nodes)
  room s inv = omega (
    arith,
    length-append s.order s.ready,
    length_le_of_count (s.order ++ s.ready) (keys nodes) (λ a. ground (
      arith,
      count-append a s.order s.ready,
      inv.once a,
      inv.known a,
      mem-count a s.order,
      mem-count a s.ready,
      mem-count a (keys nodes),
    )),
  )

  abbrev pub Ended : Progress → Type 0
  Ended s = IsOrdered nodes s × (s.ready ≡ [])

  round-Ended :
      (loop : Progress → Progress) (fuel : ℕ)
      → ((s : Progress)
          → length (keys nodes) ≤ fuel + length s.order
          → IsOrdered nodes s
          → Ended (loop s))
      → (s : Progress) (ready : List String) → s.ready ≡ ready
      → length (keys nodes) ≤ suc fuel + length s.order
      → IsOrdered nodes s
      → Ended (round nodes loop s ready)
  unfolding round
  round-Ended loop fuel ih s [] e h inv = (inv, e)
  round-Ended loop fuel ih s (key ∷ ready) e h inv =
      let cs = order_by text_leb (children nodes key) in
      let s0 : Progress = record s { ready = ready; order = s.order ++ key ∷ [] } in
      let v = visit_children-Visited key s0 cs in
      ih (visit_children key s0 cs)
        (rw v.same_order (omega (arith, length-append s.order (key ∷ []))))
        (round-IsOrdered s (visit_children key s0 cs) key ready cs e
          (λ c. mem-order_by text_leb c (children nodes key) ∙ mem-children nodes key c (unique c))
          v inv)

  -- With a round for each key that is not taken, the loop ends with no key ready.
  pub drain-Ended :
      (fuel : ℕ) (s : Progress)
      → length (keys nodes) ≤ fuel + length s.order
      → IsOrdered nodes s
      → Ended (drain nodes fuel s)
  unfolding drain
  drain-Ended zero s h inv = (inv, is_empty_of_length s.ready (omega (arith, room s inv)))
  drain-Ended (suc fuel) s h inv =
      round-Ended (drain nodes fuel) fuel (drain-Ended fuel) s s.ready refl h inv
