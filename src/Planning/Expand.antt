-- ===== src/Planning/Expand.antt =====
-- DependencyPlanner of planning.py: the expansion of a target into acquisition trees and the plan for
-- the best one. `left` is max_depth - depth. none stands for an error of the graph or of the plan.
use minecraft_ai.Prelude.{
  ℕ, zero, suc, true, false, List, [], ◌∷◌, ◌++◌, Option, none, some, if◌then◌else◌, Str, codes,
  contains, sort_by,
}
use minecraft_ai.Knowledge.Graph.{KnowledgeGraph, has_node}
use minecraft_ai.Recipes.{RequirementChoice, AcquisitionMethod, one, max_of, acquisition_methods}
use minecraft_ai.Planning.{Goal, Plan}
use minecraft_ai.Planning.Tree.{
  Acquisition, AcquisitionPlan, plan_of, Slot, no_more, alternative, Slots, no_slot, slot, own_of,
  plan_sort_key, least, plan_of_tree,
}

-- the rounded operations on floats that are not negative
pub record PlanFloats : Type 0 where
  pub plus : ℕ → ℕ → ℕ
  pub times : ℕ → ℕ → ℕ
  pub divided : ℕ → ℕ → ℕ

unfoldable pub slot_of : List AcquisitionPlan → Slot
slot_of [] = no_more
slot_of (p ∷ ps) = alternative p (slot_of ps)

-- `AcquisitionPlan(target=…, quantity=…)` with the defaults of the other fields
unfoldable pub leaf : Str → ℕ → Acquisition
unfolding one
leaf target quantity = record {
  target = target;
  quantity = quantity;
  method = none;
  output_quantity = one;
  already_available = false;
  unresolved = false;
  cyclic = false;
  estimated_leaf_cost = 0;
}

unfoldable pub available_plan : Str → ℕ → AcquisitionPlan
unfolding leaf
available_plan target quantity =
    plan_of (record (leaf target quantity) { already_available = true }) no_slot

unfoldable pub cyclic_plan : Str → ℕ → AcquisitionPlan
unfolding leaf
cyclic_plan target quantity = plan_of (record (leaf target quantity) { cyclic = true }) no_slot

unfoldable pub unresolved_plan : Str → (quantity cost : ℕ) → AcquisitionPlan
unfolding leaf
unresolved_plan target quantity cost =
    plan_of (record (leaf target quantity) { unresolved = true; estimated_leaf_cost = cost })
      no_slot

unfoldable pub by_key : List AcquisitionPlan → List AcquisitionPlan
unfolding sort_by plan_sort_key
by_key = sort_by plan_sort_key

-- `child` is the expansion of an alternative
module _ (fl : PlanFloats) (child : Str → ℕ → Option (List AcquisitionPlan)) where
  unfoldable pub alternatives_from : List Str → ℕ → Option (List AcquisitionPlan)
  alternatives_from [] quantity = some []
  alternatives_from (name ∷ names) quantity = elim (child name quantity) [
    | none ↦ none
    | some plans ↦ elim (alternatives_from names quantity) [
      | none ↦ none
      | some more ↦ some (plans ++ more)
    ]
  ]

  -- a slot from the sorted alternatives, and its cost
  unfoldable pub slot_from : (process : Str) → ℕ → List AcquisitionPlan → Slot × ℕ
  unfolding slot_of own_of unresolved_plan
  slot_from process required [] = (
    alternative (unresolved_plan (codes "unresolved:" ++ process) required required) no_more,
    required,
  )
  slot_from process required (p ∷ ps) = (slot_of (p ∷ ps), (own_of p).estimated_leaf_cost)

  unfoldable pub slots_from :
      (process : Str) (batches : ℕ) → List RequirementChoice → (leaf_cost : ℕ) → Option (Slots × ℕ)
  unfolding alternatives_from slot_from by_key
  slots_from process batches [] leaf_cost = some (no_slot, leaf_cost)
  slots_from process batches (r ∷ rs) leaf_cost =
      let required = fl.times r.quantity batches in
      elim (alternatives_from r.alternatives required) [
        | none ↦ none
        | some found ↦
            let made = slot_from process required (by_key found) in
            elim (slots_from process batches rs (fl.plus leaf_cost made.1)) [
              | none ↦ none
              | some (slots, cost) ↦ some (slot made.0 slots, cost)
            ]
      ]

  unfoldable pub batches_of : (requested output : ℕ) → ℕ
  unfolding one
  batches_of requested output = max_of one (fl.divided requested (max_of one output))

  unfoldable pub expand_method : AcquisitionMethod → ℕ → Option AcquisitionPlan
  unfolding slots_from batches_of leaf
  expand_method m requested =
      elim (slots_from m.process (batches_of requested m.output_quantity) m.requirements 0) [
        | none ↦ none
        | some (slots, cost) ↦ some (
            plan_of
              (record (leaf m.target requested) {
                method = some m.process;
                output_quantity = m.output_quantity;
                estimated_leaf_cost = cost;
              })
              slots)
      ]

  unfoldable pub expand_methods : List AcquisitionMethod → ℕ → Option (List AcquisitionPlan)
  unfolding expand_method
  expand_methods [] requested = some []
  expand_methods (m ∷ ms) requested = elim (expand_method m requested) [
    | none ↦ none
    | some plan ↦ elim (expand_methods ms requested) [
      | none ↦ none
      | some plans ↦ some (plan ∷ plans)
    ]
  ]

module _ (fl : PlanFloats) (g : KnowledgeGraph) (available : List Str) where
  unfoldable pub expand : (left : ℕ) → Str → ℕ → (path : List Str) → Option (List AcquisitionPlan)
  unfolding contains available_plan cyclic_plan unresolved_plan acquisition_methods expand_methods
      by_key
  expand zero target quantity path =
      if contains available target
      then some (available_plan target quantity ∷ [])
      else (if contains path target
          then some (cyclic_plan target quantity ∷ [])
          else some (unresolved_plan target quantity 0 ∷ []))
  expand (suc left) target quantity path =
      let child = λ (t : Str) (q : ℕ). expand left t q (target ∷ path) in
      let inside : Option (List AcquisitionPlan) = elim (acquisition_methods g target) [
        | none ↦ none
        | some [] ↦ some (unresolved_plan target quantity quantity ∷ [])
        | some (m ∷ ms) ↦ elim (expand_methods fl child (m ∷ ms) quantity) [
          | none ↦ none
          | some plans ↦ some (by_key plans)
        ]
      ] in
      if contains available target
      then some (available_plan target quantity ∷ [])
      else (if contains path target then some (cyclic_plan target quantity ∷ []) else inside)

  unfoldable pub acquisition_options :
      Str → (quantity max_depth : ℕ) → Option (List AcquisitionPlan)
  unfolding has_node expand one
  acquisition_options target quantity max_depth = elim (has_node g target) [
    | false ↦ none
    | true ↦ expand max_depth target (max_of one quantity) []
  ]

  unfoldable pub best_acquisition_plan : Str → (quantity max_depth : ℕ) → Option AcquisitionPlan
  unfolding acquisition_options unresolved_plan least slot_of
  best_acquisition_plan target quantity max_depth =
      elim (acquisition_options target quantity max_depth) [
        | none ↦ none
        | some [] ↦ some (unresolved_plan target quantity 0)
        | some (p ∷ ps) ↦ some (least p (slot_of ps))
      ]

-- `general` is the text of a quantity
unfoldable pub make_dependency_plan :
    (general : ℕ → Str) → PlanFloats → KnowledgeGraph → Goal → Option Plan
unfolding best_acquisition_plan plan_of_tree one
make_dependency_plan general fl g goal = elim goal.target_node [
  | none ↦ some (record { goal = goal; steps = [] })
  | some target ↦ elim (best_acquisition_plan fl g [] target one 24) [
    | none ↦ none
    | some tree ↦ plan_of_tree general goal tree
  ]
]
