-- ===== src/Planning/Flatten.antt =====
-- Flattening a tree always gives a plan: no id is used twice, and a step waits for earlier steps.
use minecraft_ai.Prelude.{
  ℕ, zero, suc, ◌+◌, ◌≤◌, ◌<◌, List, [], ◌∷◌, ◌++◌, ◌≡◌, refl, ap, sym, ◌∙◌, inl, inr, Option, none,
  some, length, Str, same, same_iff, Dict, lookup, insert, All, All-map, length-append, arith,
  Bool-cases,
}
use minecraft_ai.Planning.{Goal, PlanStep, Plan, add}
use minecraft_ai.Planning.Names.{step_name, step_name_injective}
use minecraft_ai.Planning.Tree.{
  Acquisition, AcquisitionPlan, plan_of, own_of, Slot, no_more, alternative, Slots, no_slot, slot,
  plan_sort_key, tuple_ltb, least, prerequisites_of, Progress, step_of, add_step, flatten,
  flatten_slots, empty, size, slot_size, slots_size, plan_of_tree,
}

-- the id of a step before the `i`-th
abbrev pub Earlier : ℕ → Str → Type 0
Earlier i id = (j : ℕ) × (id ≡ step_name j) × (j < i)

Earlier-le : (i k : ℕ) → i ≤ k → (id : Str) → Earlier i id → Earlier k id
Earlier-le i k h id (j, e, l) = (j, e, omega arith)

-- the steps are named from `i` on, and each waits for earlier steps only
abbrev pub IsNumbered : ℕ → Dict PlanStep → Type 0
IsNumbered i [] = Unit
IsNumbered i ((k, step) ∷ d) =
    (k ≡ step_name i)
    × (step.step_id ≡ step_name i)
    × All (Earlier i) step.prerequisites
    × IsNumbered (suc i) d

lookup-IsNumbered :
    (i n : ℕ) (d : Dict PlanStep)
    → IsNumbered i d
    → i + length d ≤ n
    → lookup (step_name n) d ≡ none
unfolding lookup
lookup-IsNumbered i n [] h l = refl
lookup-IsNumbered i n ((k, step) ∷ d) h l = elim (Bool-cases (same k (step_name n))) [
  | inl e ↦
      let (named, _, _, _) = h in
      let i_is_n = step_name_injective i n (sym named ∙ (same_iff k (step_name n)).0 e) in
      absurd (omega (arith, i_is_n))
  | inr e ↦ let (_, _, _, rest) = h in rw e (lookup-IsNumbered (suc i) n d rest (omega arith))
]

insert-absent :
    (k : Str) (v : PlanStep) (d : Dict PlanStep)
    → lookup k d ≡ none
    → insert k v d ≡ d ++ (k, v) ∷ []
unfolding lookup insert
insert-absent k v [] h = refl
insert-absent k v ((j, w) ∷ d) h = elim (Bool-cases (same j k)) [
  | inl e ↦ ground arith
  | inr e ↦
      let rest : lookup k d ≡ none = ground arith in
      rw e (ap (λ x. (j, w) ∷ x) (insert-absent k v d rest))
]

abbrev appended : PlanStep → Plan → Plan
appended step plan = record plan { steps = plan.steps ++ (step.step_id, step) ∷ [] }

add-absent :
    (step : PlanStep) (plan : Plan)
    → lookup step.step_id plan.steps ≡ none
    → add step plan ≡ some (appended step plan)
unfolding add
add-absent step plan h = ground (arith, h, insert-absent step.step_id step plan.steps h)

IsNumbered-end :
    (i n : ℕ) (d : Dict PlanStep) (step : PlanStep)
    → IsNumbered i d
    → i + length d ≡ n
    → step.step_id ≡ step_name n
    → All (Earlier n) step.prerequisites
    → IsNumbered i (d ++ (step.step_id, step) ∷ [])
IsNumbered-end i n [] step h e p a =
    let e' : n ≡ i = omega arith in
    (p ∙ ap step_name e', p ∙ ap step_name e', All-map (Earlier-le n i (omega arith)) _ a, tt)
IsNumbered-end i n ((k, s) ∷ d) step h e p a =
    let (named, id, waits, rest) = h in
    (named, id, waits, IsNumbered-end (suc i) n d step rest (omega arith) p a)

-- the target of the last step
abbrev pub last_target : Dict PlanStep → Option Str
last_target [] = none
last_target ((k, s) ∷ []) = s.target_node
last_target ((k, s) ∷ x ∷ d) = last_target (x ∷ d)

last_target_end :
    (d : Dict PlanStep) (k : Str) (s : PlanStep) → last_target (d ++ (k, s) ∷ []) ≡ s.target_node
last_target_end [] k s = refl
last_target_end (x ∷ []) k s = refl
last_target_end (x ∷ y ∷ d) k s = last_target_end (y ∷ d) k s

record Good (s : Progress) : Type 0 where
  numbered : IsNumbered 0 s.plan.steps
  counted : s.counter ≡ length s.plan.steps

record Grown (s s' : Progress) : Type 0 where
  good : Good s'
  later : s.counter ≤ s'.counter
  same_goal : s'.plan.goal ≡ s.plan.goal

Grown-refl : (s : Progress) → Good s → Grown s s
Grown-refl s good = record { good = good; later = omega arith; same_goal = refl }

Grown-trans : (r s t : Progress) → Grown r s → Grown s t → Grown r t
Grown-trans r s t g h = record {
  good = h.good;
  later = omega (arith, g.later, h.later);
  same_goal = h.same_goal ∙ g.same_goal;
}

size-least :
    (best : AcquisitionPlan) (rest : Slot) → size (least best rest) ≤ size best + slot_size rest
unfolding least slot_size
size-least best no_more = omega arith
size-least best (alternative p rest) =
    elim (Bool-cases (tuple_ltb (plan_sort_key p) (plan_sort_key best))) [
      | inl e ↦ rw e (omega (arith, size-least p rest))
      | inr e ↦ rw e (omega (arith, size-least best rest))
    ]

module _ (general : ℕ → Str) where
  abbrev Flattened : Str → Option (Str × Progress) → Progress → Type 0
  Flattened target outcome s =
      (id : Str) × (s' : Progress) × (outcome ≡ some (id, s'))
      × Earlier s'.counter id
      × Grown s s'
      × (last_target s'.plan.steps ≡ some target)

  abbrev FlattenedSlots : Option (List Str × Progress) → Progress → Type 0
  FlattenedSlots outcome s =
      (ids : List Str) × (s' : Progress) × (outcome ≡ some (ids, s'))
      × All (Earlier s'.counter) ids
      × Grown s s'

  add_step_added :
      (own : Acquisition) (goal_id : Str) (children : List Str) (s : Progress) (plan : Plan)
      → add (step_of general own goal_id children none s.counter) s.plan ≡ some plan
      → add_step general own goal_id children none s
        ≡ some (step_name s.counter, record { plan = plan; counter = suc s.counter })
  unfolding add_step step_of
  add_step_added own goal_id children s plan e = ground (arith, e)

  add_step-Flattened :
      (own : Acquisition) (goal_id : Str) (children : List Str) (s : Progress)
      → Good s
      → All (Earlier s.counter) children
      → Flattened own.target (add_step general own goal_id children none s) s
  unfolding step_of prerequisites_of
  add_step-Flattened own goal_id children s good a =
      let step = step_of general own goal_id children none s.counter in
      let absent =
        lookup-IsNumbered 0 s.counter s.plan.steps good.numbered (omega (arith, good.counted)) in
      let plan = appended step s.plan in
      let numbered =
        IsNumbered-end 0 s.counter s.plan.steps step good.numbered (omega (arith, good.counted))
          refl a in
      (
        step_name s.counter,
        record { plan = plan; counter = suc s.counter },
        add_step_added own goal_id children s plan (add-absent step s.plan absent),
        (s.counter, refl, omega arith),
        record {
          good = record {
            numbered = numbered;
            counted =
                omega (arith, good.counted, length-append s.plan.steps ((step.step_id, step) ∷ []));
          };
          later = omega arith;
          same_goal = refl;
        },
        last_target_end s.plan.steps step.step_id step,
      )

  flatten_slots_next :
      (flatten_plan : AcquisitionPlan → Progress → Option (Str × Progress)) (p : AcquisitionPlan)
      (ps : Slot) (rest : Slots) (s : Progress) (id : Str) (after : Progress) (children : List Str)
      (later : Progress)
      → flatten_plan (least p ps) s ≡ some (id, after)
      → flatten_slots flatten_plan rest after ≡ some (children, later)
      → flatten_slots flatten_plan (slot (alternative p ps) rest) s ≡ some (id ∷ children, later)
  unfolding flatten_slots
  flatten_slots_next flatten_plan p ps rest s id after children later e e' = ground (arith, e, e')

  flatten_slots-Flattened :
      (fuel : ℕ) (flatten_plan : AcquisitionPlan → Progress → Option (Str × Progress))
      → ((p : AcquisitionPlan) (s : Progress)
          → Good s
          → size p ≤ fuel
          → Flattened (own_of p).target (flatten_plan p s) s)
      → (slots : Slots) (s : Progress) → Good s
      → slots_size slots ≤ fuel
      → FlattenedSlots (flatten_slots flatten_plan slots s) s
  unfolding flatten_slots slots_size slot_size
  flatten_slots-Flattened fuel flatten_plan each no_slot s good l =
      ([], s, refl, tt, Grown-refl s good)
  flatten_slots-Flattened fuel flatten_plan each (slot no_more rest) s good l =
      flatten_slots-Flattened fuel flatten_plan each rest s good (omega arith)
  flatten_slots-Flattened fuel flatten_plan each (slot (alternative p ps) rest) s good l =
      let (id, after, e, earlier, grown, _) =
        each (least p ps) s good (omega (arith, size-least p ps)) in
      let (ids, s', e', all_earlier, grown') =
        flatten_slots-Flattened fuel flatten_plan each rest after grown.good (omega arith) in
      (
        id ∷ ids,
        s',
        flatten_slots_next flatten_plan p ps rest s id after ids s' e e',
        (Earlier-le after.counter s'.counter grown'.later id earlier, all_earlier),
        Grown-trans s after s' grown grown',
      )

  flatten_next :
      (fuel : ℕ) (own : Acquisition) (slots : Slots) (goal_id : Str) (s : Progress) (ids : List Str)
      (after : Progress) (result : Str × Progress)
      → flatten_slots (λ p t. flatten general fuel p goal_id none t) slots s ≡ some (ids, after)
      → add_step general own goal_id ids none after ≡ some result
      → flatten general (suc fuel) (plan_of own slots) goal_id none s ≡ some result
  unfolding flatten
  flatten_next fuel own slots goal_id s ids after result e e' = ground (arith, e, e')

  flatten-Flattened :
      (fuel : ℕ) (tree : AcquisitionPlan) (goal_id : Str) (s : Progress)
      → Good s
      → size tree ≤ fuel
      → Flattened (own_of tree).target (flatten general fuel tree goal_id none s) s
  unfolding size own_of
  flatten-Flattened zero (plan_of own slots) goal_id s good l = absurd (omega arith)
  flatten-Flattened (suc fuel) (plan_of own slots) goal_id s good l =
      let (ids, after, e, earlier, grown) =
        flatten_slots-Flattened fuel (λ p t. flatten general fuel p goal_id none t)
          (λ p t g k. flatten-Flattened fuel p goal_id t g k) slots s good (omega arith) in
      let (id, s', e', id_earlier, grown', last) =
        add_step-Flattened own goal_id ids after grown.good earlier in
      (
        id,
        s',
        flatten_next fuel own slots goal_id s ids after (id, s') e e',
        id_earlier,
        Grown-trans s after s' grown grown',
        last,
      )

plan_of_tree_flattened :
    (general : ℕ → Str) (goal : Goal) (tree : AcquisitionPlan) (id : Str) (s : Progress)
    → flatten general (size tree) tree goal.goal_id none (empty goal) ≡ some (id, s)
    → plan_of_tree general goal tree ≡ some s.plan
unfolding plan_of_tree
plan_of_tree_flattened general goal tree id s e = ground (arith, e)

-- Every tree gives a plan for its goal. Its steps are named step-0000, step-0001 and on, each once,
-- each waits for steps before it only, and the last one is for the tree's target.
pub plan_of_tree-IsNumbered :
    (general : ℕ → Str) (goal : Goal) (tree : AcquisitionPlan)
    → (plan : Plan) × (plan_of_tree general goal tree ≡ some plan)
      × (plan.goal ≡ goal)
      × IsNumbered 0 plan.steps
      × (last_target plan.steps ≡ some (own_of tree).target)
plan_of_tree-IsNumbered general goal tree =
    let (id, s', e, _, grown, last) =
      flatten-Flattened general (size tree) tree goal.goal_id (empty goal)
        (record { numbered = tt; counted = refl }) (omega arith) in
    (
      s'.plan,
      plan_of_tree_flattened general goal tree id s' e,
      grown.same_goal,
      grown.good.numbered,
      last,
    )
