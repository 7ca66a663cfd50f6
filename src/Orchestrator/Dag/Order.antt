-- ===== src/Orchestrator/Dag/Order.antt =====
-- What `topological_order` returns, and when it fails.
use hermes_ops.Orchestrator.Dag.{Node, keys, parents, Progress, drain, initial, topological_order}
use hermes_ops.Orchestrator.Dag.Loop.{
  after_parents, UniqueKeys, initial-IsOrdered, Ended, drain-Ended,
}
use hermes_ops.Prelude.{
  string_column, ℕ, suc, ◌<◌, String, ◌≡◌, refl, ap, true, List, [], ◌∷◌, arith, length, all, mem,
  zero, inl, inr, Bool-cases,
}
use hermes_ops.Prelude.Members.{
  count, mem-count, count_eq_of_length, is_empty_of_none, mem_of_all, length_le_of_count,
}
use hermes_ops.Prelude.Result.{ok}

abbrev pub KnownParents : List Node → Type 0
KnownParents nodes = all (λ n. all (λ p. mem p (keys nodes)) n.dependencies) nodes ≡ true

length-keys : (nodes : List Node) → length (keys nodes) ≡ length nodes
length-keys [] = refl
length-keys (n ∷ nodes) = ap suc (length-keys nodes)

parents-in_keys :
    (ks : List String) (nodes : List Node) (c p : String)
    → all (λ n. all (λ q. mem q ks) n.dependencies) nodes ≡ true
    → mem p (parents nodes c) ≡ true
    → mem p ks ≡ true
unfolding parents
parents-in_keys ks [] c p h m = cc
parents-in_keys ks (n ∷ nodes) c p h m =
    ground (arith, parents-in_keys ks nodes c p, mem_of_all (λ q. mem q ks) n.dependencies p)

module _ (nodes : List Node) (unique : UniqueKeys nodes) where
  finished : Progress
  finished = drain nodes (length nodes) (initial nodes)

  finished-Ended : Ended nodes unique finished
  unfolding finished
  finished-Ended =
      drain-Ended nodes unique (length nodes) (initial nodes) (omega (arith, length-keys nodes))
        (initial-IsOrdered nodes unique)

  -- The order that is returned holds each key of the plan as often as the plan does, which is once,
  -- and every key stands after all its dependencies.
  pub topological_order-sorted :
      (order : List String)
      → topological_order nodes ≡ ok order
      → ((c : String) → count c order ≡ count c (keys nodes))
        × (after_parents (parents nodes) [] order ≡ true)
  unfolding topological_order finished
  topological_order-sorted order h =
      let (inv, done) = finished-Ended in
      let e : finished.order ≡ order = ground arith in
      rw (← e) (
        count_eq_of_length finished.order (keys nodes)
            (λ a. ground (
              arith,
              inv.once a,
              inv.known a,
              mem-count a finished.order,
              mem-count a (keys nodes),
            ))
            (ground arith),
        inv.sorted,
      )

  -- By induction on the rank, every key is taken.
  taken :
      (rank : String → ℕ)
      → KnownParents nodes
      → ((c p : String) → mem p (parents nodes c) ≡ true → rank p < rank c)
      → (k : ℕ) (c : String) → rank c < k
      → mem c (keys nodes) ≡ true
      → mem c finished.order ≡ true
  taken rank known ranked zero c h m = absurd (omega arith)
  taken rank known ranked (suc k) c h m =
      let (inv, done) = finished-Ended in
      let none_left = is_empty_of_none (finished.waiting c) (λ p.
        elim (Bool-cases (mem p (parents nodes c))) [
          | inl e ↦ ground (
            arith,
            inv.waits c p,
            taken rank known ranked k p (omega (arith, ranked c p e))
                (parents-in_keys (keys nodes) nodes c p known e),
          )
          | inr e ↦ ground (arith, inv.waits c p)
        ]) in
      ground (arith, inv.queued c m, none_left, done)

  -- A plan whose keys can be ranked above their dependencies, all of them known, is put in order:
  -- a cycle is reported only where no ranking exists.
  pub topological_order_complete :
      (rank : String → ℕ)
      → KnownParents nodes
      → ((c p : String) → mem p (parents nodes c) ≡ true → rank p < rank c)
      → (order : List String) × (topological_order nodes ≡ ok order)
  unfolding topological_order finished
  topological_order_complete rank known ranked =
      let (inv, done) = finished-Ended in
      let shorter = length_le_of_count finished.order (keys nodes) (λ a.
        ground
          (arith, inv.once a, inv.known a, mem-count a finished.order, mem-count a (keys nodes))) in
      let longer = length_le_of_count (keys nodes) finished.order (λ a. ground (
        arith,
        unique a,
        taken rank known ranked (suc (rank a)) a (omega arith),
        mem-count a finished.order,
        mem-count a (keys nodes),
      )) in
      (finished.order, ground (arith))
