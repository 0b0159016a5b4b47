-- ===== src/Planning/Ready.antt =====
-- Plans that flattening makes are valid, and no step of one waits forever.
use minecraft_ai.Prelude.{
  ◌≢◌, ℕ, suc, ◌+◌, ◌≤◌, ◌<◌, Bool, true, List, [], ◌∷◌, ◌≡◌, refl, ap, ◌∙◌, inl, inr, some, ◌⊎◌,
  all, select, length, Str, same, same_iff, contains, update, difference, All-update, Dict, values,
  All, All-map, arith, Bool-cases,
}
use minecraft_ai.Planning.{Goal, PlanStep, Plan, is_ready, ready, ids, missing, errors_of, validate}
use minecraft_ai.Planning.Names.{step_name}
use minecraft_ai.Planning.Tree.{AcquisitionPlan, plan_of_tree}
use minecraft_ai.Planning.Flatten.{Earlier, IsNumbered, plan_of_tree-IsNumbered}

all_lem : (test : Str → Bool) (xs : List Str) → All (λ x. test x ≡ true) xs → all test xs ≡ true
all_lem test [] h = refl
all_lem test (x ∷ xs) h = ground (arith, h.0, all_lem test xs h.1)

-- a set whose items are all in another
difference_none :
    (held out : List Str) → All (λ x. contains out x ≡ true) held → difference held out ≡ []
unfolding difference
difference_none [] out h = refl
difference_none (x ∷ xs) out h = let rest = difference_none xs out h.1 in ground (arith, h.0, rest)

contains-ids :
    (i j : ℕ) (d : Dict PlanStep)
    → IsNumbered i d
    → i ≤ j
    → j < i + length d
    → contains (ids d) (step_name j) ≡ true
unfolding contains ids
contains-ids i j [] h l u = absurd (omega arith)
contains-ids i j ((k, step) ∷ d) h l u =
    let (named, _, _, rest) = h in
    elim (Bool-cases (same k (step_name j))) [
      | inl e ↦ ground (arith, e)
      | inr e ↦
          let apart : i ≢ j =
            λ p. absurd (cc (e, (same_iff k (step_name j)).1 (named ∙ ap step_name p))) in
          let next = contains-ids (suc i) j d rest (omega (arith, apart)) (omega arith) in
          ground (arith, e, next)
    ]

-- all steps are named, and wait for steps that `known` names
errors_of-IsNumbered :
    (shown : List Str → Str) (known : List Str) (i n : ℕ) (d : Dict PlanStep)
    → IsNumbered i d
    → i + length d ≤ n
    → ((j : ℕ) → j < n → contains known (step_name j) ≡ true)
    → errors_of shown known (values d) ≡ []
unfolding errors_of values missing
errors_of-IsNumbered shown known i n [] h l all_known = refl
errors_of-IsNumbered shown known i n ((k, step) ∷ d) h l all_known =
    let (_, _, waits, rest) = h in
    let is_known : (id : Str) → Earlier i id → contains known id ≡ true =
      λ id (j, e, u). rw e (all_known j (omega arith)) in
    let prerequisites = All-map is_known step.prerequisites waits in
    let gone =
      difference_none (update [] step.prerequisites) known
        (All-update (λ x. contains known x ≡ true) [] step.prerequisites tt prerequisites) in
    let others = errors_of-IsNumbered shown known (suc i) n d rest (omega arith) all_known in
    ground (arith, gone, others)

-- For every tree, `validate` has nothing to say on the plan that flattening makes.
pub validate-plan_of_tree :
    (shown : List Str → Str) (general : ℕ → Str) (goal : Goal) (tree : AcquisitionPlan)
    → (plan : Plan) × (plan_of_tree general goal tree ≡ some plan) × (validate shown plan ≡ [])
unfolding validate
validate-plan_of_tree shown general goal tree =
    let (plan, e, _, numbered, _) = plan_of_tree-IsNumbered general goal tree in
    (
      plan,
      e,
      errors_of-IsNumbered shown (ids plan.steps) 0 (length plan.steps) plan.steps numbered
          (omega arith) (λ j u. contains-ids 0 j plan.steps numbered (omega arith) (omega arith)),
    )

lt_suc : (j i : ℕ) → j < suc i → (j < i) ⊎ (j ≡ i)
lt_suc j i h = ground arith

done_if_not_ready :
    (completed : List Str) (i : ℕ) (d : Dict PlanStep)
    → IsNumbered i d
    → ((j : ℕ) → j < i → contains completed (step_name j) ≡ true)
    → select (is_ready completed) (values d) ≡ []
    → All (λ id. contains completed id ≡ true) (ids d)
unfolding is_ready values ids
done_if_not_ready completed i [] h before none_ready = tt
done_if_not_ready completed i ((k, step) ∷ d) h before none_ready =
    let (named, id, waits, rest) = h in
    let is_done : (id : Str) → Earlier i id → contains completed id ≡ true =
      λ id (j, e, u). rw e (before j u) in
    let prerequisites =
      all_lem (contains completed) step.prerequisites (All-map is_done step.prerequisites waits) in
    let own : contains completed step.step_id ≡ true = ground (arith, prerequisites, none_ready) in
    let others : select (is_ready completed) (values d) ≡ [] = ground (arith, own, none_ready) in
    let named_done : contains completed (step_name i) ≡ true = rw (← id) own in
    (
      rw named named_done,
      done_if_not_ready completed (suc i) d rest
          (λ j u. elim (lt_suc j i u) [ inl l ↦ before j l | inr p ↦ rw p named_done ]) others,
    )

-- When no step of a tree's plan is ready, every step is completed.
pub ready-plan_of_tree :
    (general : ℕ → Str) (goal : Goal) (tree : AcquisitionPlan) (completed : List Str) (plan : Plan)
    → plan_of_tree general goal tree ≡ some plan
    → ready completed plan ≡ []
    → All (λ id. contains completed id ≡ true) (ids plan.steps)
unfolding ready
ready-plan_of_tree general goal tree completed plan e none_ready =
    let (made, e', _, made_numbered, _) = plan_of_tree-IsNumbered general goal tree in
    let same_plan : made ≡ plan = cc (e, e') in
    let numbered : IsNumbered 0 plan.steps = rw (← same_plan) made_numbered in
    done_if_not_ready completed 0 plan.steps numbered (λ j u. absurd (omega arith)) none_ready
