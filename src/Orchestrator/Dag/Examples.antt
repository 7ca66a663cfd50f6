-- ===== src/Orchestrator/Dag/Examples.antt =====
-- `topological_order` on a plan of four tasks, on a cycle, and its theorems at the plan.
use hermes_ops.Orchestrator.Dag.{Node, keys, parents, OrderError, topological_order}
use hermes_ops.Orchestrator.Dag.Loop.{after_parents, UniqueKeys}
use hermes_ops.Orchestrator.Dag.Order.{topological_order-sorted, topological_order_complete}
use hermes_ops.Prelude.{
  string_column, ℕ, ◌<◌, String, ◌≡◌, refl, true, List, [], ◌∷◌, arith, eq_iff, if◌then◌else◌, ◌==◌,
  mem,
}
use hermes_ops.Prelude.Members.{count}
use hermes_ops.Prelude.Result.{ok, err}

abbrev node : String → List String → Node
node key dependencies = record { key = key; dependencies = dependencies }

abbrev diamond : List Node
diamond =
    node "test" ("api" ∷ "web" ∷ [])
    ∷ node "web" ("core" ∷ [])
    ∷ node "api" ("core" ∷ [])
    ∷ node "core" []
    ∷ []

diamond_order : topological_order diamond ≡ ok ("core" ∷ "api" ∷ "web" ∷ "test" ∷ [])
unfolding topological_order
diamond_order = refl

loop_cycle :
    topological_order (node "a" ("b" ∷ []) ∷ node "b" ("a" ∷ []) ∷ []) ≡ err OrderError.cycle
unfolding topological_order
loop_cycle = refl

diamond_unique : UniqueKeys diamond
diamond_unique c = ground (
  arith,
  eq_iff c "test",
  eq_iff c "web",
  eq_iff c "api",
  eq_iff c "core",
  eq_iff "test" "web",
  eq_iff "test" "api",
  eq_iff "test" "core",
  eq_iff "web" "api",
  eq_iff "web" "core",
  eq_iff "api" "core",
)

topological_order-sorted_example :
    ((c : String) → count c ("core" ∷ "api" ∷ "web" ∷ "test" ∷ []) ≡ count c (keys diamond))
    × (after_parents (parents diamond) [] ("core" ∷ "api" ∷ "web" ∷ "test" ∷ []) ≡ true)
topological_order-sorted_example =
    topological_order-sorted diamond diamond_unique ("core" ∷ "api" ∷ "web" ∷ "test" ∷ [])
      diamond_order

abbrev level : String → ℕ
level c = if c == "test" then 2 else if c == "core" then 0 else 1

diamond_ranked : (c p : String) → mem p (parents diamond c) ≡ true → level p < level c
unfolding parents
diamond_ranked c p m = ground (
  arith,
  eq_iff p "test",
  eq_iff p "web",
  eq_iff p "api",
  eq_iff p "core",
  eq_iff c "test",
  eq_iff c "web",
  eq_iff c "api",
  eq_iff c "core",
  eq_iff "test" "web",
  eq_iff "test" "api",
  eq_iff "test" "core",
  eq_iff "web" "core",
  eq_iff "api" "core",
  eq_iff "test" c,
  eq_iff "web" c,
  eq_iff "api" c,
  eq_iff "core" c,
)

topological_order_complete_example : (order : List String) × (topological_order diamond ≡ ok order)
topological_order_complete_example =
    topological_order_complete diamond diamond_unique level refl diamond_ranked
