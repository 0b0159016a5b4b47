-- ===== src/Planning/Whole.antt =====
-- From a goal to its plan: the best option of the expansion, flattened.
use mathlib.Core.Path.{subst}
use minecraft_ai.Prelude.{
  ℕ, Bool, true, List, [], ◌∷◌, ◌≡◌, refl, sym, ap, ◌∙◌, ◌⊎◌, inl, inr, some, not, if◌then◌else◌,
  Str, str_leb, str_leb_total, All, In, Bool-cases, arith,
}
use minecraft_ai.Knowledge.Graph.{KnowledgeGraph, has_node}
use minecraft_ai.Knowledge.Added.{IsWell}
use minecraft_ai.Knowledge.Closure.Search.{All-at}
use minecraft_ai.Recipes.{one}
use minecraft_ai.Planning.{Goal, Plan}
use minecraft_ai.Planning.Tree.{
  AcquisitionPlan, own_of, plan_sort_key, tuple_ltb, least, plan_of_tree,
}
use minecraft_ai.Planning.Flatten.{IsNumbered, last_target, plan_of_tree-IsNumbered}
use minecraft_ai.Planning.Expand.{
  PlanFloats, slot_of, acquisition_options, best_acquisition_plan, make_dependency_plan,
}
use minecraft_ai.Planning.Options.{acquisition_options-IsOptions}

-- the order of tuples is that of texts
tuple_ltb_lem : (xs ys : List ℕ) → tuple_ltb xs ys ≡ not (str_leb ys xs)
unfolding tuple_ltb str_leb
tuple_ltb_lem [] [] = refl
tuple_ltb_lem [] (y ∷ ys) = refl
tuple_ltb_lem (x ∷ xs) [] = refl
tuple_ltb_lem (x ∷ xs) (y ∷ ys) = ground (arith, tuple_ltb_lem xs ys)

str_leb_trans : (r s t : Str) → str_leb r s ≡ true → str_leb s t ≡ true → str_leb r t ≡ true
unfolding str_leb
str_leb_trans [] s t h k = refl
str_leb_trans (a ∷ r) [] t h k = absurd (cc h)
str_leb_trans (a ∷ r) (b ∷ s) [] h k = absurd (cc k)
str_leb_trans (a ∷ r) (b ∷ s) (c ∷ t) h k = ground (arith, h, k, str_leb_trans r s t)

-- no plan of the list has a lower key
abbrev pub IsLeast : AcquisitionPlan → List AcquisitionPlan → Type 0
IsLeast p = All (λ q. str_leb (plan_sort_key p) (plan_sort_key q) ≡ true)

str_leb_refl : (s : Str) → str_leb s s ≡ true
unfolding str_leb
str_leb_refl [] = refl
str_leb_refl (c ∷ s) = ground (arith, str_leb_refl s)

-- the least of a plan and a list
abbrev Chosen : AcquisitionPlan → AcquisitionPlan → List AcquisitionPlan → Type 0
Chosen chosen p ps =
    (str_leb (plan_sort_key chosen) (plan_sort_key p) ≡ true)
    × IsLeast chosen ps
    × ((p ≡ chosen) ⊎ In chosen ps)

least-Chosen :
    (p : AcquisitionPlan) (ps : List AcquisitionPlan) → Chosen (least p (slot_of ps)) p ps
unfolding least slot_of
least-Chosen p [] = (str_leb_refl (plan_sort_key p), tt, inl refl)
least-Chosen p (q ∷ ps) =
    let key = plan_sort_key in
    let Wanted : Bool → Type 0 = λ b. Chosen (least (if b then q else p) (slot_of ps)) p (q ∷ ps) in
    elim (Bool-cases (tuple_ltb (key q) (key p))) [
      | inl h ↦
          let (low, all_low, member) = least-Chosen q ps in
          let below : str_leb (key q) (key p) ≡ true =
            ground (arith, h, tuple_ltb_lem (key q) (key p), str_leb_total (key p) (key q)) in
          subst Wanted (sym h)
            (str_leb_trans _ (key q) (key p) low below, (low, all_low), inr member)
      | inr h ↦
          let (low, all_low, member) = least-Chosen p ps in
          let below : str_leb (key p) (key q) ≡ true =
            ground (arith, h, tuple_ltb_lem (key q) (key p)) in
          subst Wanted (sym h) (
            low,
            (str_leb_trans _ (key p) (key q) low below, all_low),
            elim member [ inl e ↦ inl e | inr m ↦ inr (inr m) ],
          )
    ]

module _ (fl : PlanFloats) (g : KnowledgeGraph) (available : List Str) where
  best_acquisition_plan_lem :
      (target : Str) (quantity max_depth : ℕ) (p : AcquisitionPlan) (ps : List AcquisitionPlan)
      → acquisition_options fl g available target quantity max_depth ≡ some (p ∷ ps)
      → best_acquisition_plan fl g available target quantity max_depth ≡ some (least p (slot_of ps))
  unfolding best_acquisition_plan
  best_acquisition_plan_lem target quantity max_depth p ps h = ground (arith, h)

-- For a node of a well-formed graph the best plan is one of the options, none of which has a lower
-- key, and it is for the node.
pub best_acquisition_plan-IsLeast :
    (fl : PlanFloats) (g : KnowledgeGraph) (available : List Str) (target : Str)
    (quantity max_depth : ℕ)
    → IsWell g
    → has_node g target ≡ true
    → (options : List AcquisitionPlan) × (best : AcquisitionPlan) × (acquisition_options fl g
          available target quantity max_depth
        ≡ some options)
      × (best_acquisition_plan fl g available target quantity max_depth ≡ some best)
      × In best options
      × IsLeast best options
      × ((own_of best).target ≡ target)
best_acquisition_plan-IsLeast fl g available target quantity max_depth w h =
    let (p, ps, e, for_target) =
      acquisition_options-IsOptions fl g available target quantity max_depth w h in
    let (low, all_low, member) = least-Chosen p ps in
    (
      p ∷ ps,
      least p (slot_of ps),
      e,
      best_acquisition_plan_lem fl g available target quantity max_depth p ps e,
      member,
      (low, all_low),
      All-at (λ (q : AcquisitionPlan). (own_of q).target ≡ target) (p ∷ ps) _ for_target member,
    )

make_dependency_plan_lem :
    (general : ℕ → Str) (fl : PlanFloats) (g : KnowledgeGraph) (goal : Goal) (target : Str)
    (tree : AcquisitionPlan)
    → goal.target_node ≡ some target
    → best_acquisition_plan fl g [] target one 24 ≡ some tree
    → make_dependency_plan general fl g goal ≡ plan_of_tree general goal tree
unfolding make_dependency_plan
make_dependency_plan_lem general fl g goal target tree t e = ground (arith, t, e)

-- A goal whose target is a node of a well-formed graph gets a plan, with no error from the graph or
-- the plan. The steps are numbered, each waits for earlier ones only, and the last one is for the
-- goal's target.
pub make_dependency_plan-IsNumbered :
    (general : ℕ → Str) (fl : PlanFloats) (g : KnowledgeGraph) (goal : Goal) (target : Str)
    → IsWell g
    → goal.target_node ≡ some target
    → has_node g target ≡ true
    → (plan : Plan) × (make_dependency_plan general fl g goal ≡ some plan)
      × (plan.goal ≡ goal)
      × IsNumbered 0 plan.steps
      × (last_target plan.steps ≡ some target)
make_dependency_plan-IsNumbered general fl g goal target w t h =
    let (_, tree, _, e, _, _, for_target) =
      best_acquisition_plan-IsLeast fl g [] target one 24 w h in
    let (plan, e', same_goal, numbered, last) = plan_of_tree-IsNumbered general goal tree in
    (
      plan,
      make_dependency_plan_lem general fl g goal target tree t e ∙ e',
      same_goal,
      numbered,
      last ∙ ap some for_target,
    )
