-- ===== src/Knowledge/Examples.antt =====
-- Queries on the small graph, and an edge that is replaced.
use minecraft_ai.Prelude.{ℕ, [], ◌∷◌, ◌≡◌, ◌↔◌, ◌≤◌, refl, some, true, Str, List, codes, contains}
use minecraft_ai.Knowledge.{requires, KnowledgeEdge}
use minecraft_ai.Knowledge.Graph.{
  KnowledgeGraph, new_graph, add_node, refused, missing_endpoint, has_node, add_edge, outgoing,
  incoming, is_requirement, requirements,
}
use minecraft_ai.Knowledge.Added.{Settled, Built-IsWell, add_edge-Settled}
use minecraft_ai.Knowledge.Found.{Finds, outgoing-Finds}
use minecraft_ai.Knowledge.Closure.{closed, missing_node, prerequisite_closure}
use minecraft_ai.Knowledge.Closure.Search.{Needs}
use minecraft_ai.Knowledge.Closure.Exact.{prerequisite_closure_lem}
use minecraft_ai.Knowledge.Sample.{edge_of, graph_or, sample, sample-Built}

-- the edge under the id moves to another node
abbrev moved : KnowledgeEdge
moved = edge_of (codes "a") (codes "sticks") (codes "planks") requires

abbrev after_move : KnowledgeGraph
after_move = graph_or sample (add_edge moved sample)

moved_away : requirements after_move (codes "craft") ≡ some []
unfolding requirements add_edge add_node new_graph
moved_away = refl

moved_here : requirements after_move (codes "sticks") ≡ some (moved ∷ [])
unfolding requirements add_edge add_node new_graph
moved_here = refl

unknown_end :
    add_edge (edge_of (codes "g") (codes "craft") (codes "dirt") requires) sample
    ≡ refused missing_endpoint
unfolding add_edge add_node new_graph
unknown_end = refl

closure_of_craft : prerequisite_closure sample 64 (codes "craft") ≡ closed (codes "planks" ∷ [])
unfolding prerequisite_closure add_edge add_node new_graph
closure_of_craft = refl

closure_of_dirt : prerequisite_closure sample 64 (codes "dirt") ≡ missing_node
unfolding prerequisite_closure add_edge add_node new_graph
closure_of_dirt = refl

has_craft : has_node sample (codes "craft") ≡ true
unfolding has_node add_edge add_node new_graph
has_craft = refl

add_edge-Settled_example : Settled moved sample (add_edge moved sample)
add_edge-Settled_example = add_edge-Settled moved sample (Built-IsWell sample sample-Built)

outgoing-Finds_example :
    Finds
      (λ e. e.source)
      sample
      (codes "craft")
      is_requirement
      (outgoing sample (codes "craft") is_requirement)
    × Finds
        (λ e. e.target)
        sample
        (codes "craft")
        is_requirement
        (incoming sample (codes "craft") is_requirement)
outgoing-Finds_example =
    outgoing-Finds sample (codes "craft") is_requirement (Built-IsWell sample sample-Built)

prerequisite_closure_lem_example :
    (r : List Str) × (prerequisite_closure sample 64 (codes "craft") ≡ closed r)
    × ((t : Str)
        → (contains r t ≡ true) ↔ ((k : ℕ) × (1 ≤ k) × (k ≤ 64) × Needs sample (codes "craft") k t))
prerequisite_closure_lem_example =
    prerequisite_closure_lem sample 64 (codes "craft") (Built-IsWell sample sample-Built) has_craft
