-- ===== src/Planning/Options.antt =====
-- The expansion of a node of a well-formed graph ends with no error, in options for that node.
use mathlib.Core.Path.{subst}
use minecraft_ai.Prelude.{
  ℕ, zero, suc, true, false, List, [], ◌∷◌, ◌++◌, ◌≡◌, refl, sym, ap, inl, inr, Option, some, Str,
  contains, All, In, All-sort_by, In-sort_by, Bool-cases, Option-cases, arith,
}
use minecraft_ai.Knowledge.{KnowledgeEdge}
use minecraft_ai.Knowledge.Graph.{KnowledgeGraph, has_node}
use minecraft_ai.Knowledge.Added.{IsWell}
use minecraft_ai.Recipes.{RequirementChoice, AcquisitionMethod, one, max_of, acquisition_methods}
use minecraft_ai.Recipes.Tags.{AreNodes}
use minecraft_ai.Recipes.Methods.{IsMethod, AreMethods, acquisition_methods-AreMethods}
use minecraft_ai.Planning.Tree.{
  AcquisitionPlan, plan_of, Slots, no_slot, slot, own_of, plan_sort_key,
}
use minecraft_ai.Planning.Expand.{
  PlanFloats, leaf, available_plan, cyclic_plan, unresolved_plan, by_key, alternatives_from,
  slot_from, slots_from, batches_of, expand_method, expand_methods, expand, acquisition_options,
}

-- at least one option, each for the target
abbrev pub IsOptions : Str → Option (List AcquisitionPlan) → Type 0
IsOptions target outcome =
    (p : AcquisitionPlan) × (ps : List AcquisitionPlan) × (outcome ≡ some (p ∷ ps))
    × All (λ q. (own_of q).target ≡ target) (p ∷ ps)

module _ (g : KnowledgeGraph) (fl : PlanFloats) (child : Str → ℕ → Option (List AcquisitionPlan))
    (total : (t : Str) (q : ℕ) → has_node g t ≡ true → IsOptions t (child t q)) where
  alternatives_from_next :
      (name : Str) (names : List Str) (quantity : ℕ) (plans more : List AcquisitionPlan)
      → child name quantity ≡ some plans
      → alternatives_from fl child names quantity ≡ some more
      → alternatives_from fl child (name ∷ names) quantity ≡ some (plans ++ more)
  unfolding alternatives_from
  alternatives_from_next name names quantity plans more h h' = ground (arith, h, h')

  alternatives_from-returns :
      (names : List Str) (quantity : ℕ)
      → AreNodes g names
      → (plans : List AcquisitionPlan) × (alternatives_from fl child names quantity ≡ some plans)
  unfolding alternatives_from
  alternatives_from-returns [] quantity a = ([], refl)
  alternatives_from-returns (name ∷ names) quantity a =
      let (p, ps, h, _) = total name quantity a.0 in
      let (more, h') = alternatives_from-returns names quantity a.1 in
      ((p ∷ ps) ++ more, alternatives_from_next name names quantity (p ∷ ps) more h h')

  slots_from_next :
      (process : Str) (batches : ℕ) (r : RequirementChoice) (rs : List RequirementChoice) (cost : ℕ)
      (found : List AcquisitionPlan) (slots : Slots) (total_cost : ℕ)
      → alternatives_from fl child r.alternatives (fl.times r.quantity batches) ≡ some found
      → slots_from fl child process batches rs
          (fl.plus cost (slot_from fl child process (fl.times r.quantity batches) (by_key found)).1)
        ≡ some (slots, total_cost)
      → slots_from fl child process batches (r ∷ rs) cost
        ≡ some (
          slot (slot_from fl child process (fl.times r.quantity batches) (by_key found)).0 slots,
          total_cost,
        )
  unfolding slots_from
  slots_from_next process batches r rs cost found slots total_cost h h' = ground (arith, h, h')

  slots_from-returns :
      (process : Str) (batches : ℕ) (rs : List RequirementChoice) (cost : ℕ)
      → All (λ (r : RequirementChoice). AreNodes g r.alternatives) rs
      → (made : Slots × ℕ) × (slots_from fl child process batches rs cost ≡ some made)
  unfolding slots_from
  slots_from-returns process batches [] cost a = ((no_slot, cost), refl)
  slots_from-returns process batches (r ∷ rs) cost a =
      let required = fl.times r.quantity batches in
      let (found, h) = alternatives_from-returns r.alternatives required a.0 in
      let made = slot_from fl child process required (by_key found) in
      let ((slots, total_cost), h') =
        slots_from-returns process batches rs (fl.plus cost made.1) a.1 in
      (
        (slot made.0 slots, total_cost),
        slots_from_next process batches r rs cost found slots total_cost h h',
      )

  expand_method-returns :
      (target : Str) (output : KnowledgeEdge) (m : AcquisitionMethod) (requested : ℕ)
      → IsMethod g target output m
      → (p : AcquisitionPlan) × (expand_method fl child m requested ≡ some p)
        × ((own_of p).target ≡ target)
  unfolding expand_method own_of leaf
  expand_method-returns target output m requested im =
      let ((slots, cost), h) =
        slots_from-returns m.process (batches_of fl child requested m.output_quantity)
          m.requirements 0 im.nodes in
      (
        plan_of
            (record (leaf m.target requested) {
              method = some m.process;
              output_quantity = m.output_quantity;
              estimated_leaf_cost = cost;
            })
            slots,
        ground (arith, h),
        im.for_target,
      )

  expand_methods_next :
      (m : AcquisitionMethod) (ms : List AcquisitionMethod) (requested : ℕ) (p : AcquisitionPlan)
      (ps : List AcquisitionPlan)
      → expand_method fl child m requested ≡ some p
      → expand_methods fl child ms requested ≡ some ps
      → expand_methods fl child (m ∷ ms) requested ≡ some (p ∷ ps)
  unfolding expand_methods
  expand_methods_next m ms requested p ps h h' = ground (arith, h, h')

  expand_methods-returns :
      (target : Str) (outputs : List KnowledgeEdge) (ms : List AcquisitionMethod) (requested : ℕ)
      → AreMethods g target outputs ms
      → (ps : List AcquisitionPlan) × (expand_methods fl child ms requested ≡ some ps)
        × All (λ q. (own_of q).target ≡ target) ps
  unfolding expand_methods
  expand_methods-returns target [] [] requested a = ([], refl, tt)
  expand_methods-returns target [] (m ∷ ms) requested a = absurd a
  expand_methods-returns target (output ∷ outputs) [] requested a = absurd a
  expand_methods-returns target (output ∷ outputs) (m ∷ ms) requested a =
      let (p, h, t) = expand_method-returns target output m requested a.0 in
      let (ps, h', ts) = expand_methods-returns target outputs ms requested a.1 in
      (p ∷ ps, expand_methods_next m ms requested p ps h h', (t, ts))

In_nonempty :
    (x : AcquisitionPlan) (xs : List AcquisitionPlan)
    → In x xs
    → (q : AcquisitionPlan) × (qs : List AcquisitionPlan) × (xs ≡ q ∷ qs)
In_nonempty x [] m = absurd m
In_nonempty x (q ∷ qs) m = (q, qs, refl)

by_key-IsOptions :
    (target : Str) (p : AcquisitionPlan) (ps : List AcquisitionPlan)
    → All (λ q. (own_of q).target ≡ target) (p ∷ ps)
    → IsOptions target (some (by_key (p ∷ ps)))
unfolding by_key
by_key-IsOptions target p ps a =
    let (q, qs, e) =
      In_nonempty p (by_key (p ∷ ps)) ((In-sort_by plan_sort_key p (p ∷ ps)).1 (inl refl)) in
    let for_target = All-sort_by plan_sort_key (λ r. (own_of r).target ≡ target) (p ∷ ps) a in
    (q, qs, ap some e, subst (All (λ r. (own_of r).target ≡ target)) e for_target)

expand_methods_none :
    (fl : PlanFloats) (child : Str → ℕ → Option (List AcquisitionPlan)) (m : AcquisitionMethod)
    (ms : List AcquisitionMethod) (requested : ℕ)
    → expand_methods fl child (m ∷ ms) requested ≡ some []
    → ⊥
unfolding expand_methods
expand_methods_none fl child m ms requested h =
    elim (Option-cases (expand_method fl child m requested)) [
      | inl e ↦ ground (arith, e, h)
      | inr (p, e) ↦ elim (Option-cases (expand_methods fl child ms requested)) [
        | inl e' ↦ ground (arith, e, e', h)
        | inr (ps, e') ↦ ground (arith, e, e', h)
      ]
    ]

module _ (fl : PlanFloats) (g : KnowledgeGraph) (available : List Str) where
  expand_available :
      (left : ℕ) (target : Str) (quantity : ℕ) (path : List Str)
      → contains available target ≡ true
      → expand fl g available left target quantity path ≡ some (available_plan target quantity ∷ [])
  unfolding expand
  expand_available zero target quantity path h = ground (arith, h)
  expand_available (suc left) target quantity path h = ground (arith, h)

  expand_cyclic :
      (left : ℕ) (target : Str) (quantity : ℕ) (path : List Str)
      → contains available target ≡ false
      → contains path target ≡ true
      → expand fl g available left target quantity path ≡ some (cyclic_plan target quantity ∷ [])
  unfolding expand
  expand_cyclic zero target quantity path h c = ground (arith, h, c)
  expand_cyclic (suc left) target quantity path h c = ground (arith, h, c)

  expand_end :
      (target : Str) (quantity : ℕ) (path : List Str)
      → contains available target ≡ false
      → contains path target ≡ false
      → expand fl g available zero target quantity path
        ≡ some (unresolved_plan target quantity 0 ∷ [])
  unfolding expand
  expand_end target quantity path h c = ground (arith, h, c)

  expand_raw :
      (left : ℕ) (target : Str) (quantity : ℕ) (path : List Str)
      → contains available target ≡ false
      → contains path target ≡ false
      → acquisition_methods g target ≡ some []
      → expand fl g available (suc left) target quantity path
        ≡ some (unresolved_plan target quantity quantity ∷ [])
  unfolding expand
  expand_raw left target quantity path h c m = ground (arith, h, c, m)

  -- the expansion of the alternatives one level down
  abbrev below : ℕ → Str → List Str → Str → ℕ → Option (List AcquisitionPlan)
  below left target path t q = expand fl g available left t q (target ∷ path)

  expand_made :
      (left : ℕ) (target : Str) (quantity : ℕ) (path : List Str) (m : AcquisitionMethod)
      (ms : List AcquisitionMethod) (plans : List AcquisitionPlan)
      → contains available target ≡ false
      → contains path target ≡ false
      → acquisition_methods g target ≡ some (m ∷ ms)
      → expand_methods fl (below left target path) (m ∷ ms) quantity ≡ some plans
      → expand fl g available (suc left) target quantity path ≡ some (by_key plans)
  unfolding expand
  expand_made left target quantity path m ms plans h c e e' = ground (arith, h, c, e, e')

  made-IsOptions :
      (left : ℕ) (target : Str) (quantity : ℕ) (path : List Str) (ms : List AcquisitionMethod)
      (plans : List AcquisitionPlan)
      → contains available target ≡ false
      → contains path target ≡ false
      → acquisition_methods g target ≡ some ms
      → expand_methods fl (below left target path) ms quantity ≡ some plans
      → All (λ q. (own_of q).target ≡ target) plans
      → IsOptions target (expand fl g available (suc left) target quantity path)
  unfolding own_of unresolved_plan leaf
  made-IsOptions left target quantity path [] plans a c e e' t =
      (_, _, expand_raw left target quantity path a c e, (refl, tt))
  made-IsOptions left target quantity path (m ∷ ms) [] a c e e' t =
      absurd (expand_methods_none fl (below left target path) m ms quantity e')
  made-IsOptions left target quantity path (m ∷ ms) (p ∷ plans) a c e e' t =
      subst (IsOptions target)
        (sym (expand_made left target quantity path m ms (p ∷ plans) a c e e'))
        (by_key-IsOptions target p plans t)

  pub expand-IsOptions :
      IsWell g
      → (left : ℕ) (target : Str) (quantity : ℕ) (path : List Str) → has_node g target ≡ true
      → IsOptions target (expand fl g available left target quantity path)
  unfolding own_of available_plan cyclic_plan unresolved_plan leaf
  expand-IsOptions w zero target quantity path h = elim (Bool-cases (contains available target)) [
    | inl a ↦ (_, _, expand_available zero target quantity path a, (refl, tt))
    | inr a ↦ elim (Bool-cases (contains path target)) [
      | inl c ↦ (_, _, expand_cyclic zero target quantity path a c, (refl, tt))
      | inr c ↦ (_, _, expand_end target quantity path a c, (refl, tt))
    ]
  ]
  expand-IsOptions w (suc left) target quantity path h =
      elim (Bool-cases (contains available target)) [
        | inl a ↦ (_, _, expand_available (suc left) target quantity path a, (refl, tt))
        | inr a ↦ elim (Bool-cases (contains path target)) [
          | inl c ↦ (_, _, expand_cyclic (suc left) target quantity path a c, (refl, tt))
          | inr c ↦
              let (outputs, _, (ms, e, are_methods)) =
                acquisition_methods-AreMethods g target w h in
              let child = below left target path in
              let (plans, e', for_target) =
                expand_methods-returns g fl child
                  (λ t q k. expand-IsOptions w left t q (target ∷ path) k) target outputs ms
                  quantity are_methods in
              made-IsOptions left target quantity path ms plans a c e e' for_target
        ]
      ]

  acquisition_options_lem :
      (target : Str) (quantity max_depth : ℕ)
      → has_node g target ≡ true
      → acquisition_options fl g available target quantity max_depth
        ≡ expand fl g available max_depth target (max_of one quantity) []
  unfolding acquisition_options
  acquisition_options_lem target quantity max_depth h = ground (arith, h)

  -- For a node of a well-formed graph there is an option, with no KeyError, and each is for the node.
  pub acquisition_options-IsOptions :
      (target : Str) (quantity max_depth : ℕ)
      → IsWell g
      → has_node g target ≡ true
      → IsOptions target (acquisition_options fl g available target quantity max_depth)
  acquisition_options-IsOptions target quantity max_depth w h =
      subst (IsOptions target) (sym (acquisition_options_lem target quantity max_depth h))
        (expand-IsOptions w max_depth target (max_of one quantity) [] h)
