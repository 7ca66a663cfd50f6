-- ===== src/Orchestrator/Dag.antt =====
-- `topological_order` of scripts/hermesops-orchestrator.py. The dictionaries of dependencies and of
-- children are functions of a key, and a set is a list of its values.
pub mod Visit
pub mod Loop
pub mod Order
mod Examples
use Prim.Native.Char.{code}
use hermes_ops.Prelude.{
  string_column, ℕ, zero, suc, String, Bool, true, false, not, ◌&&◌, List, [], ◌∷◌, ◌++◌, map, ltb,
  nat_beq, if◌then◌else◌, ◌==◌, length, all, filter, mem,
}
use hermes_ops.Prelude.Members.{is_empty, remove}
use hermes_ops.Prelude.Result.{Result, ok, err}
use hermes_ops.Sql.{order_by}

pub record Node : Type 0 where
  pub key : String
  pub dependencies : List String

-- Python's order of texts: by code points.
unfoldable pub text_leb : String → String → Bool
text_leb String.[] t = true
text_leb (String.◌∷◌ c s) String.[] = false
text_leb (String.◌∷◌ c s) (String.◌∷◌ d t) =
    let rest = text_leb s t in
    if ltb (code c) (code d) then true else if ltb (code d) (code c) then false else rest

abbrev pub keys : List Node → List String
keys nodes = map (λ n. n.key) nodes

-- `dependencies[key]`
unfoldable pub parents : List Node → String → List String
parents [] k = []
parents (n ∷ nodes) k = if n.key == k then n.dependencies else parents nodes k

-- `reverse[key]`
unfoldable pub children : List Node → String → List String
children [] k = []
children (n ∷ nodes) k =
    let rest = children nodes k in if mem k n.dependencies then n.key ∷ rest else rest

pub record Progress : Type 0 where
  pub waiting : String → List String
  pub ready : List String
  pub order : List String

-- One child of the key taken: it may become ready.
unfoldable pub visit_child : String → Progress → String → Progress
unfolding remove order_by text_leb
visit_child key s child =
    let left = remove key (s.waiting child) in
    let waiting = λ (c : String). if c == child then left else s.waiting c in
    if is_empty left && not (mem child s.order) && not (mem child s.ready)
    then record s { waiting = waiting; ready = order_by text_leb (s.ready ++ child ∷ []) }
    else record s { waiting = waiting }

unfoldable pub visit_children : String → Progress → List String → Progress
unfolding visit_child
visit_children key s [] = s
visit_children key s (child ∷ rest) = visit_children key (visit_child key s child) rest

-- One round of `while ready`, and then the loop; it ends when no key is ready.
unfoldable pub round : List Node → (Progress → Progress) → Progress → List String → Progress
unfolding visit_children children order_by text_leb
round nodes loop s [] = s
round nodes loop s (key ∷ ready) = loop (
    visit_children key (record s { ready = ready; order = s.order ++ key ∷ [] })
      (order_by text_leb (children nodes key)))

-- `while ready`, on fuel: a round for each key is enough.
unfoldable pub drain : List Node → ℕ → Progress → Progress
unfolding round
drain nodes zero s = s
drain nodes (suc fuel) s = round nodes (drain nodes fuel) s s.ready

unfoldable pub initial : List Node → Progress
unfolding parents order_by text_leb
initial nodes = record {
  waiting = parents nodes;
  ready = order_by text_leb (filter (λ k. is_empty (parents nodes k)) (keys nodes));
  order = [];
}

pub data OrderError : Type 0 where
  unknown_parent cycle : OrderError

-- The fill of `reverse` fails with a KeyError at a parent that is no key.
unfoldable pub topological_order : List Node → Result OrderError (List String)
unfolding drain initial
topological_order nodes =
    let done = drain nodes (length nodes) (initial nodes) in
    if all (λ n. all (λ p. mem p (keys nodes)) n.dependencies) nodes
    then (if nat_beq (length done.order) (length (keys nodes)) then ok done.order else err cycle)
    else err unknown_parent
