-- ===== src/Planning/Examples.antt =====
-- The plan for a pickaxe on a small tree.
use minecraft_ai.Prelude.{
  In, str_leb, ◌+◌, ℕ, ◌++◌, true, false, List, [], ◌∷◌, Option, ◌≡◌, refl, some, none, Str, same,
  codes, contains, All, values, map,
}
use minecraft_ai.Planning.{Goal, player, PlanStep, Plan, ids, ready}
use minecraft_ai.Planning.Names.{step_name}
use minecraft_ai.Planning.Tree.{
  Acquisition, AcquisitionPlan, plan_of, own_of, no_more, alternative, no_slot, slot, plan_of_tree,
}
use minecraft_ai.Knowledge.Graph.{has_node, add_edge, add_node, new_graph}
use minecraft_ai.Knowledge.Added.{Built-IsWell}
use minecraft_ai.Knowledge.Sample.{sample, sample-Built}
use minecraft_ai.Planning.Expand.{
  PlanFloats, acquisition_options, best_acquisition_plan, make_dependency_plan,
}
use minecraft_ai.Planning.Whole.{
  IsLeast, best_acquisition_plan-IsLeast, make_dependency_plan-IsNumbered,
}
use minecraft_ai.Planning.Flatten.{IsNumbered, last_target}
use minecraft_ai.Planning.Ready.{ready-plan_of_tree}

abbrev pickaxe_goal : Goal
pickaxe_goal = record {
  goal_id = codes "g";
  description = codes "a pickaxe";
  target_node = some (codes "pickaxe");
  source = player;
  priority = 0;
  domain = codes "general";
  deadline_ns = none;
  parent_goal_id = none;
}

abbrev crafted : Str → ℕ → Acquisition
crafted name cost = record {
  target = name;
  quantity = 1;
  method = some (codes "craft");
  output_quantity = 1;
  already_available = false;
  unresolved = false;
  cyclic = false;
  estimated_leaf_cost = cost;
}

abbrev raw : Str → ℕ → AcquisitionPlan
raw name cost = plan_of (record (crafted name cost) { method = none; unresolved = true }) no_slot

abbrev here : Str → AcquisitionPlan
here name = plan_of (record (crafted name 0) { method = none; already_available = true }) no_slot

-- planks from one of two kinds of logs, and sticks at hand
abbrev pickaxe : AcquisitionPlan
pickaxe = plan_of (crafted (codes "pickaxe") 2) (
    slot (alternative (raw (codes "oak") 3) (alternative (raw (codes "birch") 2) no_more))
      (slot no_more (slot (alternative (here (codes "stick")) no_more) no_slot)))

abbrev as_one : ℕ → Str
as_one n = codes "1"

abbrev joined : List Str → Str
joined [] = []
joined (x ∷ xs) = x ++ joined xs

abbrev descriptions : Option Plan → List (Str × List Str)
descriptions none = []
descriptions (some plan) =
    map (λ (step : PlanStep). (step.description, step.prerequisites)) (values plan.steps)

pickaxe_steps :
    descriptions (plan_of_tree as_one pickaxe_goal pickaxe)
    ≡ (codes "Acquire external/raw birch x1", [])
      ∷ (codes "Use available stick x1", [])
      ∷ (codes "Obtain pickaxe x1 via craft", codes "step-0000" ∷ codes "step-0001" ∷ [])
      ∷ []
unfolding plan_of_tree same values
pickaxe_steps = refl

long_name : step_name 12345 ≡ codes "step-12345"
unfolding step_name
long_name = refl

abbrev no_plan : Plan
no_plan = record { goal = pickaxe_goal; steps = [] }

abbrev plan_or_none : Option Plan → Plan
plan_or_none none = no_plan
plan_or_none (some plan) = plan

abbrev pickaxe_plan : Plan
unfolding plan_of_tree
pickaxe_plan = plan_or_none (plan_of_tree as_one pickaxe_goal pickaxe)

abbrev all_done : List Str
all_done = codes "step-0000" ∷ codes "step-0001" ∷ codes "step-0002" ∷ []

pickaxe_planned : plan_of_tree as_one pickaxe_goal pickaxe ≡ some pickaxe_plan
unfolding plan_of_tree same
pickaxe_planned = refl

none_ready : ready all_done pickaxe_plan ≡ []
unfolding ready plan_of_tree same
none_ready = refl

ready-plan_of_tree_example : All (λ id. contains all_done id ≡ true) (ids pickaxe_plan.steps)
ready-plan_of_tree_example =
    ready-plan_of_tree as_one pickaxe_goal pickaxe all_done pickaxe_plan pickaxe_planned none_ready

abbrev saturated : PlanFloats
saturated = record { plus = λ a b. a + b; times = λ a b. a; divided = λ a b. a }

abbrev sticks_goal : Goal
sticks_goal = record pickaxe_goal { target_node = some (codes "sticks") }

sticks_steps :
    descriptions (make_dependency_plan as_one saturated sample sticks_goal)
    ≡ (codes "Acquire external/raw birch x1", [])
      ∷ (codes "Obtain planks x1 via saw", codes "step-0000" ∷ [])
      ∷ (codes "Obtain sticks x1 via craft", codes "step-0001" ∷ [])
      ∷ []
unfolding make_dependency_plan add_edge add_node new_graph str_leb values
sticks_steps = refl

has_sticks : has_node sample (codes "sticks") ≡ true
unfolding has_node add_edge add_node new_graph
has_sticks = refl

best_acquisition_plan-IsLeast_example :
    (options : List AcquisitionPlan) × (best : AcquisitionPlan) × (acquisition_options saturated
        sample []
        (codes "sticks")
        1
        24
      ≡ some options)
    × (best_acquisition_plan saturated sample [] (codes "sticks") 1 24 ≡ some best)
    × In best options
    × IsLeast best options
    × ((own_of best).target ≡ codes "sticks")
best_acquisition_plan-IsLeast_example =
    best_acquisition_plan-IsLeast saturated sample [] (codes "sticks") 1 24
      (Built-IsWell sample sample-Built) has_sticks

make_dependency_plan-IsNumbered_example :
    (plan : Plan) × (make_dependency_plan as_one saturated sample sticks_goal ≡ some plan)
    × (plan.goal ≡ sticks_goal)
    × IsNumbered 0 plan.steps
    × (last_target plan.steps ≡ some (codes "sticks"))
make_dependency_plan-IsNumbered_example =
    make_dependency_plan-IsNumbered as_one saturated sample sticks_goal (codes "sticks")
      (Built-IsWell sample sample-Built) refl has_sticks
