-- ===== src/Knowledge/Closure.antt =====
-- `KnowledgeGraph.prerequisite_closure`: a breadth-first search down to a depth. A set is a list
-- without order; the queue's fuel is one round for the start and one for each edge.
pub mod Visit
pub mod Measure
pub mod Search
pub mod Exact
use minecraft_ai.Prelude.{
  ℕ, zero, suc, ◌+◌, Bool, true, false, List, [], ◌∷◌, ◌++◌, Option, none, some, leb, length, Str,
  contains,
}
use minecraft_ai.Knowledge.{KnowledgeEdge}
use minecraft_ai.Knowledge.Graph.{KnowledgeGraph, has_node, requirements}

-- the nodes to visit, with their depths
abbrev pub Queue : Type 0
Queue = List (Str × ℕ)

-- `missing_node` and `missing_edge` are KeyErrors; `stuck` is the model out of fuel
pub data Closure : Type 0 where
  missing_node missing_edge stuck : Closure
  closed : (result : List Str) → Closure

-- the edges of a node at this depth
unfoldable pub visit : ℕ → List KnowledgeEdge → List Str → Queue → List Str × Queue
unfolding contains
visit depth [] result queue = (result, queue)
visit depth (e ∷ es) result queue = elim (contains result e.target) [
  | true ↦ visit depth es result queue
  | false ↦ visit depth es (e.target ∷ result) (queue ++ (e.target, suc depth) ∷ [])
]

module _ (g : KnowledgeGraph) (max_depth : ℕ) where
  unfoldable pub search : (fuel : ℕ) → List Str → Queue → Closure
  unfolding visit requirements
  search zero result queue = stuck
  search (suc fuel) result [] = closed result
  search (suc fuel) result ((current, depth) ∷ queue) = elim (leb max_depth depth) [
    | true ↦ search fuel result queue
    | false ↦ elim (requirements g current) [
      | none ↦ missing_edge
      | some es ↦ let after = visit depth es result queue in search fuel after.0 after.1
    ]
  ]

  unfoldable pub prerequisite_closure : Str → Closure
  unfolding search has_node
  prerequisite_closure node_id = elim (has_node g node_id) [
    | false ↦ missing_node
    | true ↦ search (2 + length g.edges) [] ((node_id, 0) ∷ [])
  ]
