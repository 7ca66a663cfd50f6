-- ===== src/Orchestrator/Dag/Visit.antt =====
-- The inner loop over the children of the key that is taken, seen from any other key.
use hermes_ops.Orchestrator.Dag.{Progress, visit_child, text_leb, visit_children}
use hermes_ops.Prelude.{
  string_column, ◌≤◌, String, ◌≡◌, inl, inr, not, ◌&&◌, ◌||◌, arith, eq_iff, if◌then◌else◌, ◌==◌,
  Bool-cases, ==_refl, mem, refl, ◌∙◌, List, [], ◌∷◌, ◌++◌,
}
use hermes_ops.Prelude.Members.{
  is_empty, count, remove, mem-append, count-append, mem-count, remove-remove,
}
use hermes_ops.Sql.Laws.{count-order_by, mem-order_by}

module _ (key : String) where
  visit_child-order : (s : Progress) (child : String) → (visit_child key s child).order ≡ s.order
  unfolding visit_child
  visit_child-order s child = ground arith

  visit_child-waiting :
      (s : Progress) (child c : String)
      → (visit_child key s child).waiting c
        ≡ (if c == child then remove key (s.waiting c) else s.waiting c)
  unfolding visit_child
  visit_child-waiting s child c = elim (Bool-cases (c == child)) [
    | inl e ↦ rw ((eq_iff c child).0 e) (ground (arith, ==_refl child))
    | inr e ↦ ground arith
  ]

  visit_child-ready :
      (s : Progress) (child c : String)
      → mem c (visit_child key s child).ready ≡ (
          mem c s.ready
          || (c == child && is_empty (remove key (s.waiting c)) && not (mem c s.order)))
  unfolding visit_child
  visit_child-ready s child c = elim (Bool-cases (c == child)) [
    | inl e ↦ rw ((eq_iff c child).0 e) (
        ground (
          arith,
          ==_refl child,
          mem-order_by text_leb child (s.ready ++ child ∷ []),
          mem-append child s.ready (child ∷ []),
        ))
    | inr e ↦
        ground (
          arith,
          mem-order_by text_leb c (s.ready ++ child ∷ []),
          mem-append c s.ready (child ∷ []),
        )
  ]

  visit_child-once :
      (s : Progress) (child c : String)
      → count c (visit_child key s child).ready ≤ (if mem c s.ready then count c s.ready else 1)
  unfolding visit_child
  visit_child-once s child c = elim (Bool-cases (c == child)) [
    | inl e ↦ rw ((eq_iff c child).0 e) (
        ground (
          arith,
          mem-count child s.ready,
          count-order_by text_leb child (s.ready ++ child ∷ []),
          count-append child s.ready (child ∷ []),
        ))
    | inr e ↦ ground (
      arith,
      mem-count c s.ready,
      count-order_by text_leb c (s.ready ++ child ∷ []),
      count-append c s.ready (child ∷ []),
    )
  ]

-- What the loop over a list of children changes.
pub record Visited (key : String) (cs : List String) (s s' : Progress) : Type 0 where
  pub same_order : s'.order ≡ s.order
  pub waits :
      (c : String) → s'.waiting c ≡ (if mem c cs then remove key (s.waiting c) else s.waiting c)
  pub readies :
      (c : String)
      → mem c s'.ready ≡ (
          mem c s.ready || (mem c cs && is_empty (remove key (s.waiting c)) && not (mem c s.order)))
  pub once : (c : String) → count c s'.ready ≤ (if mem c s.ready then count c s.ready else 1)

module _ (key : String) where
  pub visit_children-Visited :
      (s : Progress) (cs : List String) → Visited key cs s (visit_children key s cs)
  unfolding visit_children
  visit_children-Visited s [] = record {
    same_order = refl;
    waits = λ c. refl;
    readies = λ c. ground arith;
    once = λ c. ground (arith, mem-count c s.ready);
  }
  visit_children-Visited s (child ∷ rest) =
      let s1 = visit_child key s child in
      let v = visit_children-Visited s1 rest in
      record {
        same_order = v.same_order ∙ visit_child-order key s child;
        waits = λ c.
            ground (
              arith,
              v.waits c,
              visit_child-waiting key s child c,
              remove-remove key (s.waiting c),
            );
        readies = λ c. ground (
          arith,
          v.readies c,
          visit_child-waiting key s child c,
          visit_child-ready key s child c,
          visit_child-order key s child,
          remove-remove key (s.waiting c),
        );
        once = λ c. ground (
          arith,
          v.once c,
          visit_child-once key s child c,
          mem-count c s1.ready,
          mem-count c s.ready,
        );
      }
