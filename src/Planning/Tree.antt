-- ===== src/Planning/Tree.antt =====
-- Acquisition trees of planning.py and their flattening into a plan. A slot lists the alternatives
-- for one requirement; the recursion into the cheapest one is on fuel, and the height of the tree is
-- enough. A quantity and a cost is a float that is not negative, in units of 2 ^ -1074.
use minecraft_ai.Prelude.{
  from_keys, ℕ, zero, suc, ◌+◌, Bool, true, false, List, [], ◌∷◌, ◌++◌, Option, none, some, ◌&&◌,
  ◌||◌, not, ltb, ◌==◌, if◌then◌else◌, Str, codes,
}
use minecraft_ai.Planning.{Goal, PlanStep, Plan, add}
use minecraft_ai.Planning.Names.{step_name}

pub record Acquisition : Type 0 where
  pub target : Str
  pub quantity : ℕ
  pub method : Option Str
  pub output_quantity : ℕ
  pub already_available : Bool
  pub unresolved : Bool
  pub cyclic : Bool
  pub estimated_leaf_cost : ℕ

-- `requirements` is the list of slots
mutual
  pub data AcquisitionPlan : Type 0 where
    plan_of : (own : Acquisition) (requirements : Slots) → AcquisitionPlan

  pub data Slot : Type 0 where
    no_more : Slot
    alternative : AcquisitionPlan → Slot → Slot

  pub data Slots : Type 0 where
    no_slot : Slots
    slot : Slot → Slots → Slots

unfoldable pub own_of : AcquisitionPlan → Acquisition
own_of (plan_of own requirements) = own

unfoldable pub slot_count : Slots → ℕ
slot_count no_slot = 0
slot_count (slot s rest) = suc (slot_count rest)

unfoldable pub requirement_count : AcquisitionPlan → ℕ
unfolding slot_count
requirement_count (plan_of own requirements) = slot_count requirements

abbrev pub bit : Bool → ℕ
bit true = 1
bit false = 0

unfoldable pub plan_sort_key : AcquisitionPlan → List ℕ
unfolding own_of requirement_count
plan_sort_key p =
    let own = own_of p in
    bit own.cyclic
    ∷ bit own.unresolved
    ∷ bit (not own.already_available)
    ∷ own.estimated_leaf_cost
    ∷ requirement_count p
    ∷ []

-- `a < b` of two tuples
unfoldable pub tuple_ltb : List ℕ → List ℕ → Bool
tuple_ltb [] [] = false
tuple_ltb [] (y ∷ ys) = true
tuple_ltb (x ∷ xs) [] = false
tuple_ltb (x ∷ xs) (y ∷ ys) = ltb x y || (x == y && tuple_ltb xs ys)

-- `min(slot, key=_plan_sort_key)` of the best so far and the rest: the first of the least
unfoldable pub least : AcquisitionPlan → Slot → AcquisitionPlan
unfolding plan_sort_key tuple_ltb
least best no_more = best
least best (alternative p rest) =
    least (if tuple_ltb (plan_sort_key p) (plan_sort_key best) then p else best) rest

unfoldable pub prerequisites_of : List Str → Option Str → List Str
unfolding from_keys
prerequisites_of child_ids none = child_ids
prerequisites_of child_ids (some parent) = from_keys [] (child_ids ++ parent ∷ [])

-- the plan so far and the counter
pub record Progress : Type 0 where
  pub plan : Plan
  pub counter : ℕ

-- the cheapest alternative of each slot, by `flatten_plan`; a slot without any is passed over
unfoldable pub flatten_slots :
    (flatten_plan : AcquisitionPlan → Progress → Option (Str × Progress))
    → Slots
    → Progress
    → Option (List Str × Progress)
unfolding least
flatten_slots flatten_plan no_slot s = some ([], s)
flatten_slots flatten_plan (slot no_more rest) s = flatten_slots flatten_plan rest s
flatten_slots flatten_plan (slot (alternative p ps) rest) s = elim (flatten_plan (least p ps) s) [
  | none ↦ none
  | some (child, after) ↦ elim (flatten_slots flatten_plan rest after) [
    | none ↦ none
    | some (children, later) ↦ some (child ∷ children, later)
  ]
]

-- `general` is the text of a quantity, `f"{quantity:g}"`
module _ (general : ℕ → Str) where
  unfoldable pub describe : Acquisition → Str
  describe own =
      let amount = own.target ++ codes " x" ++ general own.quantity in
      if own.already_available
      then codes "Use available " ++ amount
      else (if own.unresolved
          then codes "Acquire external/raw " ++ amount
          else codes "Obtain "
            ++ amount
            ++ elim own.method [ none ↦ [] | some method ↦ codes " via " ++ method ])

  unfoldable pub step_of :
      Acquisition → (goal_id : Str) → List Str → Option Str → (counter : ℕ) → PlanStep
  unfolding step_name describe prerequisites_of
  step_of own goal_id child_ids parent_step counter = record {
    step_id = step_name counter;
    goal_id = goal_id;
    description = describe own;
    target_node = some own.target;
    skill_id = none;
    prerequisites = prerequisites_of child_ids parent_step;
    estimated_cost = own.estimated_leaf_cost;
    risk = 0;
  }

  -- the step of a tree whose children are in the plan; none for the ValueError of `add`
  unfoldable pub add_step :
      Acquisition → (goal_id : Str) → List Str → Option Str → Progress → Option (Str × Progress)
  unfolding step_of add
  add_step own goal_id child_ids parent_step s =
      let step = step_of own goal_id child_ids parent_step s.counter in
      elim (add step s.plan) [
        | none ↦ none
        | some plan ↦ some (step.step_id, record { plan = plan; counter = suc s.counter })
      ]

  unfoldable pub flatten :
      (fuel : ℕ)
      → AcquisitionPlan
      → (goal_id : Str) → Option Str
      → Progress
      → Option (Str × Progress)
  unfolding add_step flatten_slots
  flatten zero tree goal_id parent_step s = none
  flatten (suc fuel) (plan_of own requirements) goal_id parent_step s =
      elim (flatten_slots (λ p t. flatten fuel p goal_id none t) requirements s) [
        | none ↦ none
        | some (child_ids, after) ↦ add_step own goal_id child_ids parent_step after
      ]

-- the number of plans in a tree, which is fuel enough for it
unfoldable mutual
  pub size : AcquisitionPlan → ℕ
  size (plan_of own requirements) = suc (slots_size requirements)

  pub slot_size : Slot → ℕ
  slot_size no_more = 0
  slot_size (alternative p rest) = size p + slot_size rest

  pub slots_size : Slots → ℕ
  slots_size no_slot = 0
  slots_size (slot s rest) = slot_size s + slots_size rest

abbrev pub empty : Goal → Progress
empty goal = record { plan = record { goal = goal; steps = [] }; counter = 0 }

module _ (general : ℕ → Str) where
  unfoldable pub plan_of_tree : Goal → AcquisitionPlan → Option Plan
  unfolding flatten size
  plan_of_tree goal tree = elim (flatten general (size tree) tree goal.goal_id none (empty goal)) [
    | none ↦ none
    | some (_, after) ↦ some after.plan
  ]
