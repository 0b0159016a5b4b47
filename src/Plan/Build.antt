-- ===== src/Plan/Build.antt =====
-- `plan_graph_from_steps` of plan_graph.py.
use minecraft_ai.Prelude.{
  ℕ, ◌+◌, ◌/◌, ◌%◌, List, [], ◌∷◌, ◌++◌, map, if◌then◌else◌, Str, same, codes, Dict, insert, Option,
  none, some,
}
use minecraft_ai.Outcome.{Outcome, returned, raised}
use minecraft_ai.Plan.Text.{
  PythonText, is_empty, replace, normalized_plan_text, sanitize_plan_steps,
}
use minecraft_ai.Skills.{SkillSpec, SkillLibrary}
use minecraft_ai.Plan.Skills.{alternative_skill_ids}
use minecraft_ai.Plan.Graph.{PlanNode, PlanGraph, ready, validated}

-- f"n{index:02d}" for an index of at most two digits
abbrev pub step_node_id : ℕ → Str
step_node_id index = codes "n" ++ (48 + index / 10) ∷ (48 + index % 10) ∷ []

abbrev pub alternative_node_id : Str → Str → Str
alternative_node_id node_id skill_id = node_id ++ codes ":alt:" ++ skill_id

abbrev pub ready_node : Str → Str → Option Str → Option Str → List Str → PlanNode
ready_node id label skill parent alternatives = record {
  node_id = id;
  objective = label;
  skill_id = skill;
  parent_id = parent;
  alternative_ids = alternatives;
  prerequisite_ids = [];
  state = ready;
  attempts = 0;
  consecutive_failures = 0;
  block_reason = none;
}

-- the alternatives of one step, each a node of its own
unfoldable pub add_alternatives : Str → List Str → Dict PlanNode → Outcome (Dict PlanNode)
unfolding validated
add_alternatives node_id [] nodes = returned nodes
add_alternatives node_id (alt ∷ alts) nodes =
    let id = alternative_node_id node_id alt in
    elim (validated (ready_node id alt (some alt) (some node_id) [])) [
      | raised e ↦ raised e
      | returned n ↦ add_alternatives node_id alts (insert id n nodes)
    ]

-- the skills that could stand in for the one a step is bound to
unfoldable pub step_alternatives : Option SkillLibrary → Option Str → List Str
unfolding alternative_skill_ids
step_alternatives (some skills) (some skill_id) = alternative_skill_ids skills skill_id
step_alternatives _ _ = []

-- what an iteration of the loop adds to the nodes
unfoldable pub add_step :
    Str → Str → Option Str → List Str → Dict PlanNode → Outcome (Dict PlanNode)
unfolding add_alternatives validated
add_step node_id label skill_id alts nodes = elim (add_alternatives node_id alts nodes) [
  | raised e ↦ raised e
  | returned nodes' ↦
      elim (validated
        (ready_node node_id label skill_id none (map (alternative_node_id node_id) alts))) [
          | raised e ↦ raised e
          | returned n ↦ returned (insert node_id n nodes')
        ]
]

module _ (py : PythonText) where
  -- the first skill of the library whose name reads like the step
  unfoldable pub bound_skill : Str → Dict SkillSpec → Option Str
  unfolding normalized_plan_text
  bound_skill step [] = none
  bound_skill step ((skill_id, _) ∷ specs) =
      let rest = bound_skill step specs in
      if same (normalized_plan_text py skill_id) (normalized_plan_text py step)
      then some skill_id
      else rest

  unfoldable pub bind_plan_step_skill : Str → Option SkillLibrary → Option Str
  unfolding bound_skill normalized_plan_text replace
  bind_plan_step_skill step none =
      let normalized = normalized_plan_text py step in
      if is_empty normalized then none else some (replace 32 95 normalized)
  bind_plan_step_skill step (some skills) = bound_skill step skills.specs

  -- the loop from an index on, with the nodes and the order so far
  unfoldable pub add_steps :
      Option SkillLibrary
      → ℕ
      → List Str
      → Dict PlanNode
      → List Str
      → Outcome (Dict PlanNode × List Str)
  unfolding bind_plan_step_skill step_alternatives add_step
  add_steps skills index [] nodes order = returned (nodes, order)
  add_steps skills index (label ∷ labels) nodes order =
      let skill_id = bind_plan_step_skill label skills in
      elim (add_step (step_node_id index) label skill_id (step_alternatives skills skill_id)
        nodes) [
          | raised e ↦ raised e
          | returned nodes' ↦
              add_steps skills (index + 1) labels nodes' (order ++ step_node_id index ∷ [])
        ]

  unfoldable pub plan_graph_from_steps :
      List Str → Option Str → Option SkillLibrary → Outcome PlanGraph
  unfolding sanitize_plan_steps add_steps
  plan_graph_from_steps steps goal skills =
      elim (add_steps skills 0 (sanitize_plan_steps py steps) [] []) [
        | raised e ↦ raised e
        | returned (built, ids) ↦
            returned (record { goal_id = goal; nodes = built; order = ids; cursor = 0 })
      ]
