-- ===== src/Planning.antt =====
-- Goals, steps and plans of planning.py. A cost, a risk and a priority is a float that is not
-- negative, in units of 2 ^ -1074; two texts that Python formats are parameters.
pub mod Names
pub mod Tree
pub mod Flatten
pub mod Ready
pub mod Expand
pub mod Options
pub mod Whole
pub mod Examples
use minecraft_ai.Prelude.{
  ℕ, Bool, List, [], ◌∷◌, ◌++◌, Option, none, some, ◌&&◌, not, all, select, map, if◌then◌else◌, Str,
  codes, contains, update, difference, Dict, lookup, insert, values, sort_by,
}
use minecraft_ai.Prelude.Int.{ℤ}

pub data GoalSource : Type 0 where
  survival progression role player custom opportunity : GoalSource

pub record Goal : Type 0 where
  pub goal_id : Str
  pub description : Str
  pub target_node : Option Str
  pub source : GoalSource
  pub priority : ℕ
  pub domain : Str
  pub deadline_ns : Option ℤ
  pub parent_goal_id : Option Str

pub record PlanStep : Type 0 where
  pub step_id : Str
  pub goal_id : Str
  pub description : Str
  pub target_node : Option Str
  pub skill_id : Option Str
  pub prerequisites : List Str
  pub estimated_cost : ℕ
  pub risk : ℕ

pub record Plan : Type 0 where
  pub goal : Goal
  pub steps : Dict PlanStep

-- none for the ValueError of a step that is there
unfoldable pub add : PlanStep → Plan → Option Plan
unfolding lookup insert
add step plan = elim (lookup step.step_id plan.steps) [
  | none ↦ some (record plan { steps = insert step.step_id step plan.steps })
  | some _ ↦ none
]

unfoldable pub is_ready : List Str → PlanStep → Bool
unfolding contains
is_ready completed step =
    not (contains completed step.step_id) && all (contains completed) step.prerequisites

unfoldable pub ready : List Str → Plan → List PlanStep
unfolding is_ready values
ready completed plan = select (is_ready completed) (values plan.steps)

-- the keys of a dict
unfoldable pub ids : Dict PlanStep → List Str
ids [] = []
ids ((k, step) ∷ d) = k ∷ ids d

unfoldable pub missing : List Str → PlanStep → List Str
unfolding update difference
missing known step = difference (update [] step.prerequisites) known

-- `shown` is the text of a list of texts
module _ (shown : List Str → Str) where
  unfoldable pub errors_of : List Str → List PlanStep → List Str
  unfolding missing sort_by
  errors_of known [] = []
  errors_of known (step ∷ steps) =
      let rest = errors_of known steps in
      elim (missing known step) [
        | [] ↦ rest
        | x ∷ xs ↦
            (step.step_id ++ codes " missing prerequisites " ++ shown (sort_by (λ s. s) (x ∷ xs)))
            ∷ rest
      ]

  unfoldable pub validate : Plan → List Str
  unfolding errors_of ids values
  validate plan = errors_of (ids plan.steps) (values plan.steps)
