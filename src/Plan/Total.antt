-- ===== src/Plan/Total.antt =====
-- That `plan_graph_from_steps` returns a graph: its labels and the names of a library's skills fit.
use minecraft_ai.Prelude.{
  ℕ, zero, suc, ◌+◌, ◌≤◌, Bool, true, false, List, [], ◌∷◌, ◌++◌, ◌≡◌, refl, inl, inr, ◌&&◌, leb,
  length, length-append, take, map, All, All-map, In, values, lookup, Str, Dict, insert, Option,
  none, some, Option-cases, arith,
}
use minecraft_ai.Outcome.{returned}
use minecraft_ai.Plan.Text.{PythonText, is_empty, squeeze, dropped, sanitize_plan_steps}
use minecraft_ai.Skills.{SkillSpec, SkillLibrary}
use minecraft_ai.Plan.Skills.{alternative_skill_ids}
use minecraft_ai.Plan.Graph.{PlanNode, PlanGraph, validated}
use minecraft_ai.Plan.Build.{
  add_alternatives, add_step, add_steps, plan_graph_from_steps, step_node_id, alternative_node_id,
  ready_node, step_alternatives, bind_plan_step_skill,
}
use minecraft_ai.Plan.Sound.{is_sound}
use minecraft_ai.Plan.Run.{plan_graph_from_steps-is_sound}
use minecraft_ai.Plan.Bounds.{Kept, sanitize_plan_steps_lem, alternative_skill_ids_lem}

-- a text that may be a node's objective
abbrev pub fits : Str → Bool
fits s = leb 1 (length s) && leb (length s) 120

length-take_le : (n : ℕ) (s : Str) → length (take n s) ≤ n
length-take_le zero s = omega arith
length-take_le (suc n) [] = omega arith
length-take_le (suc n) (c ∷ s) = omega (arith, length-take_le n s)

fits-take : (s : Str) → is_empty s ≡ false → fits (take 120 s) ≡ true
fits-take [] h = cc
fits-take (c ∷ s) h = ground (arith, length-take_le 119 s)

Kept-fits : (py : PythonText) (steps : List Str) (l : Str) → Kept py steps l → fits l ≡ true
unfolding dropped
Kept-fits py steps l (raw, m, h, e) = rw e (fits-take (squeeze py raw) (ground (arith, h)))

validated-fits : (n : PlanNode) → fits n.objective ≡ true → validated n ≡ returned n
unfolding validated
validated-fits n h = ground (arith, h)

In-All :
    (xs : List SkillSpec) (o : SkillSpec)
    → All (λ x. fits x.skill_id ≡ true) xs
    → In o xs
    → fits o.skill_id ≡ true
In-All [] o h m = absurd m
In-All (x ∷ xs) o h m = elim m [ inl p ↦ rw (← p) h.0 | inr n ↦ In-All xs o h.1 n ]

abbrev Fits : List Str → Type 0
Fits xs = All (λ s. fits s ≡ true) xs

-- the skills of a library, if there is one
abbrev pub skills_of : Option SkillLibrary → List SkillSpec
skills_of none = []
skills_of (some skills) = values skills.specs

alternatives_fit :
    (skills : Option SkillLibrary) (skill : Option Str)
    → All (λ o. fits o.skill_id ≡ true) (skills_of skills)
    → Fits (step_alternatives skills skill)
unfolding step_alternatives alternative_skill_ids
alternatives_fit none none h = tt
alternatives_fit none (some s) h = tt
alternatives_fit (some skills) none h = tt
alternatives_fit (some skills) (some s) h = elim (Option-cases (lookup s skills.specs)) [
  | inl p ↦ let e : alternative_skill_ids skills s ≡ [] = ground (arith, p) in rw e tt
  | inr (spec, p) ↦
      let (bound, fresh, offered) = alternative_skill_ids_lem skills s spec p in
      All-map (λ c (o, m, q, a, w, s'). rw (← q) (In-All (values skills.specs) o h m))
        (alternative_skill_ids skills s) offered
]

add_alternatives_lem :
    (id : Str) (alts : List Str) (nodes : Dict PlanNode)
    → Fits alts
    → (d : Dict PlanNode) × (add_alternatives id alts nodes ≡ returned d)
unfolding add_alternatives
add_alternatives_lem id [] nodes h = (nodes, refl)
add_alternatives_lem id (alt ∷ alts) nodes h =
    let made = ready_node (alternative_node_id id alt) alt (some alt) (some id) [] in
    let (d, p) = add_alternatives_lem id alts (insert made.node_id made nodes) h.1 in
    (d, ground (arith, p, validated-fits made h.0))

add_step_lem :
    (id label : Str) (skill : Option Str) (alts : List Str) (nodes : Dict PlanNode)
    → fits label ≡ true
    → Fits alts
    → (d : Dict PlanNode) × (add_step id label skill alts nodes ≡ returned d)
unfolding add_step
add_step_lem id label skill alts nodes h k =
    let made = ready_node id label skill none (map (alternative_node_id id) alts) in
    let (d, p) = add_alternatives_lem id alts nodes k in
    (insert id made d, ground (arith, p, validated-fits made h))

module _ (py : PythonText) (skills : Option SkillLibrary)
    (fit : All (λ o. fits o.skill_id ≡ true) (skills_of skills)) where
  add_steps_lem :
      (index : ℕ) (labels : List Str) (nodes : Dict PlanNode) (ids : List Str)
      → Fits labels
      → (d : Dict PlanNode) × (made : List Str) × (add_steps py skills index labels nodes ids
          ≡ returned (d, made))
        × (length made ≡ length ids + length labels)
  unfolding add_steps
  add_steps_lem index [] nodes ids h = (nodes, ids, refl, omega arith)
  add_steps_lem index (label ∷ labels) nodes ids h =
      let id = step_node_id index in
      let skill = bind_plan_step_skill py label skills in
      let alts = step_alternatives skills skill in
      let (d, p) = add_step_lem id label skill alts nodes h.0 (alternatives_fit skills skill fit) in
      let (d', made, q, l) = add_steps_lem (index + 1) labels d (ids ++ id ∷ []) h.1 in
      (d', made, ground (arith, p, q), omega (arith, l, length-append ids (id ∷ [])))

  -- If the names of the library's skills are of 1 to 120 characters, `plan_graph_from_steps` returns
  -- a graph: it is sound, its cursor is 0, and it has a node for each label that was kept.
  pub plan_graph_from_steps-returns :
      (steps : List Str) (goal : Option Str)
      → (g : PlanGraph) × (plan_graph_from_steps py steps goal skills ≡ returned g)
        × (is_sound g ≡ true)
        × (g.cursor ≡ 0)
        × (length g.order ≡ length (sanitize_plan_steps py steps))
  unfolding plan_graph_from_steps
  plan_graph_from_steps-returns steps goal =
      let labels = sanitize_plan_steps py steps in
      let (bound, kept) = sanitize_plan_steps_lem py steps in
      let (d, ids, p, l) =
        add_steps_lem 0 labels [] [] (All-map (Kept-fits py steps) labels kept) in
      let g : PlanGraph = record { goal_id = goal; nodes = d; order = ids; cursor = 0 } in
      let e : plan_graph_from_steps py steps goal skills ≡ returned g = ground (arith, p) in
      (g, e, plan_graph_from_steps-is_sound py skills steps goal g e, refl, omega (arith, l))
