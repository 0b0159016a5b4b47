-- ===== src/Plan/Graph.antt =====
-- PlanNode and PlanGraph of plan_graph.py. The cursor starts at 0 and is only ever raised, so it
-- is a natural number. The two estimates of a node, which nothing reads, are left out.
use minecraft_ai.Prelude.{
  ℕ, ◌+◌, Bool, true, false, List, [], ◌∷◌, ◌++◌, ◌||◌, ◌&&◌, leb, length, get_elem?, set,
  if◌then◌else◌, Str, same, contains, codes, Dict, lookup, insert, Option, none, some,
}
use minecraft_ai.Outcome.{Raised, Outcome, returned, raised, other_exception, Exec}
use minecraft_ai.Plan.Text.{PythonText, is_empty, normalized_plan_text}
use minecraft_ai.Skills.{SkillLibrary}
use minecraft_ai.Plan.Skills.{alternative_skill_ids}

pub data PlanNodeState : Type 0 where
  ready running succeeded blocked failed suspended : PlanNodeState

pub record PlanNode : Type 0 where
  pub node_id : Str
  pub objective : Str
  pub skill_id : Option Str
  pub parent_id : Option Str
  pub alternative_ids : List Str
  pub prerequisite_ids : List Str
  pub state : PlanNodeState
  pub attempts : ℕ
  pub consecutive_failures : ℕ
  pub block_reason : Option Str

pub record PlanGraph : Type 0 where
  pub goal_id : Option Str
  pub nodes : Dict PlanNode
  pub order : List Str
  pub cursor : ℕ

abbrev pub key_error : Raised
key_error = record { fault = other_exception "KeyError"; notes = [] }

-- pydantic's check of the length of the objective when a node is made
unfoldable pub validated : PlanNode → Outcome PlanNode
validated n =
    if leb 1 (length n.objective) && leb (length n.objective) 120
    then returned n
    else raised (record { fault = other_exception "ValidationError"; notes = [] })

unfoldable pub current : PlanGraph → Outcome (Option PlanNode)
unfolding lookup
current g = elim (get_elem? g.order g.cursor) [
  | none ↦ returned none
  | some id ↦ elim (lookup id g.nodes) [ none ↦ raised key_error | some n ↦ returned (some n) ]
]

-- `self.nodes[node.node_id] = node`
abbrev pub put : PlanNode → PlanGraph → PlanGraph
put n g = record g { nodes = insert n.node_id n g.nodes }

abbrev pub is_skill : Option Str → Str → Bool
is_skill none skill_id = false
is_skill (some s) skill_id = same s skill_id

abbrev pub is_unbound : Option Str → Bool
is_unbound none = true
is_unbound (some _) = false

-- `state in {BLOCKED, FAILED}`, and with SUCCEEDED
abbrev pub is_out : PlanNodeState → Bool
is_out blocked = true
is_out failed = true
is_out _ = false

abbrev pub is_over : PlanNodeState → Bool
is_over succeeded = true
is_over s = is_out s

unfoldable pub mark_running : Str → Exec PlanGraph (Unit {0})
unfolding current
mark_running skill_id g = elim (current g) [
  | raised e ↦ (raised e, g)
  | returned none ↦ (returned tt, g)
  | returned (some n) ↦
      if is_skill n.skill_id skill_id
      then (returned tt, put (record n { state = running }) g)
      else (returned tt, g)
]

-- the first alternative in the graph that is neither over nor the node itself
unfoldable pub open_alternative : Dict PlanNode → Str → List Str → Option PlanNode
unfolding lookup
open_alternative nodes node_id [] = none
open_alternative nodes node_id (alt_id ∷ alt_ids) =
    let rest = open_alternative nodes node_id alt_ids in
    elim (lookup alt_id nodes) [
      | none ↦ rest
      | some c ↦ if is_over c.state || same c.node_id node_id then rest else some c
    ]

-- the skills of the nodes that are blocked or failed
unfoldable pub used_skills : Dict PlanNode → List Str
used_skills [] = []
used_skills ((_, n) ∷ nodes) =
    let rest = used_skills nodes in
    elim n.skill_id [ none ↦ rest | some s ↦ if is_out n.state then s ∷ rest else rest ]

-- the first id that is not used
unfoldable pub first_unused : List Str → List Str → Option Str
first_unused used [] = none
first_unused used (x ∷ xs) =
    let rest = first_unused used xs in if contains used x then rest else some x

-- the node that is made for another skill
abbrev pub sibling_node : PlanNode → Str → PlanNode
sibling_node node skill_id = record {
  node_id = node.node_id ++ codes ":alt:" ++ skill_id;
  objective = skill_id;
  skill_id = some skill_id;
  parent_id = some node.node_id;
  alternative_ids = node.alternative_ids;
  prerequisite_ids = [];
  state = ready;
  attempts = 0;
  consecutive_failures = 0;
  block_reason = none;
}

-- the skills that `_next_alternative` may propose, past the alternatives in the graph
unfoldable pub proposal : Dict PlanNode → PlanNode → Option SkillLibrary → Option Str
unfolding used_skills first_unused alternative_skill_ids
proposal nodes node none = none
proposal nodes node (some skills) = elim node.skill_id [
  | none ↦ none
  | some s ↦ first_unused (s ∷ used_skills nodes) (alternative_skill_ids skills s)
]

unfoldable pub next_alternative :
    Dict PlanNode → PlanNode → Option SkillLibrary → Outcome (Option PlanNode)
unfolding open_alternative proposal validated
next_alternative nodes node skills =
    elim (open_alternative nodes node.node_id node.alternative_ids) [
      | some c ↦ returned (some c)
      | none ↦ elim (proposal nodes node skills) [
        | none ↦ returned none
        | some s ↦ elim (validated (sibling_node node s)) [
          | raised e ↦ raised e
          | returned n ↦ returned (some n)
        ]
      ]
    ]

-- `node.parent_id or node.node_id`
abbrev pub parent_or_self : PlanNode → Str
parent_or_self n = elim n.parent_id [
  | none ↦ n.node_id
  | some p ↦ if is_empty p then n.node_id else p
]

abbrev pub block : Str → PlanNode → PlanNode
block reason n = record n {
  state = blocked;
  attempts = n.attempts + 1;
  consecutive_failures = n.consecutive_failures + 1;
  block_reason = some reason;
}

-- the sibling takes the blocked node's place in the order
abbrev pub take_over : PlanNode → PlanNode → PlanGraph → PlanGraph
take_over node sibling g =
    let replacement : PlanNode = record sibling {
      state = ready;
      parent_id = some (parent_or_self node);
    } in
    record g {
      nodes = insert replacement.node_id replacement g.nodes;
      order = set g.order g.cursor replacement.node_id;
    }

module _ (py : PythonText) where
  unfoldable pub same_skill : PlanNode → Str → Bool
  unfolding normalized_plan_text
  same_skill n skill_id =
      is_skill n.skill_id skill_id
      || same (normalized_plan_text py n.objective) (normalized_plan_text py skill_id)

  unfoldable pub mark_succeeded : Str → Bool → Exec PlanGraph Bool
  unfolding current same_skill
  mark_succeeded skill_id allow_unbound g = elim (current g) [
    | raised e ↦ (raised e, g)
    | returned none ↦ (returned false, g)
    | returned (some n) ↦
        let done : PlanNode = record n {
          state = succeeded;
          consecutive_failures = 0;
          block_reason = none;
        } in
        if same_skill n skill_id || (allow_unbound && is_unbound n.skill_id)
        then (returned true, record (put done g) { cursor = g.cursor + 1 })
        else (returned false, g)
  ]

  -- `block_current_method` past its guard
  unfoldable pub block_node : PlanNode → Str → Option SkillLibrary → Exec PlanGraph Bool
  unfolding next_alternative
  block_node n reason skills g =
      let g' = put (block reason n) g in
      elim (next_alternative g'.nodes (block reason n) skills) [
        | raised e ↦ (raised e, g')
        | returned none ↦ (returned true, record g' { cursor = g.cursor + 1 })
        | returned (some sibling) ↦ (returned true, take_over (block reason n) sibling g')
      ]

  unfoldable pub block_current_method : Str → Str → Option SkillLibrary → Exec PlanGraph Bool
  unfolding current same_skill block_node
  block_current_method skill_id reason skills g = elim (current g) [
    | raised e ↦ (raised e, g)
    | returned none ↦ (returned false, g)
    | returned (some n) ↦
        if same_skill n skill_id then block_node n reason skills g else (returned false, g)
  ]
