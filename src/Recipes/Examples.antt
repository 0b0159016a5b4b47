-- ===== src/Recipes/Examples.antt =====
-- The members of a tag, and the ways to acquire planks on the small graph.
use minecraft_ai.Prelude.{
  [], ◌∷◌, ◌≡◌, refl, some, true, List, Option, none, Str, str_leb, codes, map,
}
use minecraft_ai.Knowledge.Graph.{new_graph, add_node, add_edge}
use minecraft_ai.Knowledge.Sample.{sample}
use minecraft_ai.Recipes.{RequirementChoice, AcquisitionMethod, tag_members, acquisition_methods}

members_of_logs :
    tag_members sample true 32 (codes "logs") ≡ some (codes "birch" ∷ codes "oak" ∷ [])
unfolding tag_members add_edge add_node new_graph str_leb
members_of_logs = refl

abbrev choices : Option (List AcquisitionMethod) → List (List (List Str))
choices none = []
choices (some ms) =
    map (λ (m : AcquisitionMethod). map (λ (c : RequirementChoice). c.alternatives) m.requirements)
      ms

choices_for_planks :
    choices (acquisition_methods sample (codes "planks"))
    ≡ ((codes "birch" ∷ codes "oak" ∷ []) ∷ []) ∷ []
unfolding acquisition_methods add_edge add_node new_graph str_leb
choices_for_planks = refl
