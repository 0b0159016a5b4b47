-- ===== src/Plan/Sound.antt =====
-- Sound plan graphs: every id of the order has a node, and every node stands under its own id.
use minecraft_ai.Prelude.{
  ℕ, zero, suc, ◌+◌, ◌≤◌, Bool, true, false, List, [], ◌∷◌, ◌≡◌, refl, ◌⊎◌, ◌&&◌, not, str_eq, leb,
  length, get_elem?, set, all, Str, same, same_iff, Dict, lookup, insert, lookup-insert, Option,
  none, some, arith, Option-cases, Bool-cases, inl, inr,
}
use minecraft_ai.Outcome.{other_exception, Outcome, returned, raised, Outcome-cases}
use minecraft_ai.Plan.Text.{PythonText}
use minecraft_ai.Skills.{SkillLibrary}
use minecraft_ai.Plan.Graph.{
  PlanNode, PlanGraph, current, put, block, take_over, next_alternative, mark_running,
  mark_succeeded, block_node, block_current_method, validated, proposal, open_alternative,
  sibling_node, ready, running, succeeded, parent_or_self,
}

-- `k in d`
abbrev pub has : Dict PlanNode → Str → Bool
has d k = elim (lookup k d) [ none ↦ false | some _ ↦ true ]

abbrev pub keyed : Dict PlanNode → Bool
keyed [] = true
keyed ((k, n) ∷ d) = same n.node_id k && keyed d

abbrev pub is_sound : PlanGraph → Bool
is_sound g = keyed g.nodes && (all (has g.nodes) g.order && leb g.cursor (length g.order))

pub keyed-insert :
    (k : Str) (n : PlanNode) (d : Dict PlanNode)
    → keyed d ≡ true
    → same n.node_id k ≡ true
    → keyed (insert k n d) ≡ true
unfolding insert
keyed-insert k n [] hd hn = ground arith
keyed-insert k n ((j, m) ∷ d) hd hn =
    ground (arith, same_iff j k, same_iff n.node_id k, same_iff n.node_id j, keyed-insert k n d)

pub keyed-lookup :
    (k : Str) (d : Dict PlanNode) (n : PlanNode)
    → keyed d ≡ true
    → lookup k d ≡ some n
    → n.node_id ≡ k
unfolding lookup
keyed-lookup k [] n hd hl = cc
keyed-lookup k ((j, m) ∷ d) n hd hl =
    ground (arith, same_iff j k, same_iff m.node_id j, keyed-lookup k d n)

pub has-insert :
    (k j : Str) (n : PlanNode) (d : Dict PlanNode) → has d j ≡ true → has (insert k n d) j ≡ true
has-insert k j n d h = ground (arith, lookup-insert k j n d)

pub has-inserted : (k : Str) (n : PlanNode) (d : Dict PlanNode) → has (insert k n d) k ≡ true
has-inserted k n d = ground (arith, lookup-insert k k n d, same_iff k k)

pub all-insert :
    (k : Str) (n : PlanNode) (d : Dict PlanNode) (ids : List Str)
    → all (has d) ids ≡ true
    → all (has (insert k n d)) ids ≡ true
all-insert k n d [] h = refl
all-insert k n d (i ∷ ids) h = ground (arith, has-insert k i n d, all-insert k n d ids)

pub all-set :
    (d : Dict PlanNode) (ids : List Str) (i : ℕ) (id : Str)
    → all (has d) ids ≡ true
    → has d id ≡ true
    → all (has d) (set ids i id) ≡ true
all-set d [] i id h hd = refl
all-set d (x ∷ ids) zero id h hd = ground arith
all-set d (x ∷ ids) (suc i) id h hd = ground (arith, all-set d ids i id)

pub length-set : (ids : List Str) (i : ℕ) (id : Str) → length (set ids i id) ≡ length ids
length-set [] i id = refl
length-set (x ∷ ids) zero id = refl
length-set (x ∷ ids) (suc i) id = omega (arith, length-set ids i id)

pub all-get_elem? :
    (d : Dict PlanNode) (ids : List Str) (i : ℕ) (id : Str)
    → all (has d) ids ≡ true
    → get_elem? ids i ≡ some id
    → (has d id ≡ true) × (i + 1 ≤ length ids)
all-get_elem? d [] i id h e = cc
all-get_elem? d (x ∷ ids) zero id h e = ground arith
all-get_elem? d (x ∷ ids) (suc i) id h e = ground (arith, all-get_elem? d ids i id)

has-lookup : (k : Str) (d : Dict PlanNode) → has d k ≡ true → (n : PlanNode) × (lookup k d ≡ some n)
has-lookup k d h = elim (Option-cases (lookup k d)) [
  | inl p ↦ absurd (ground (arith, p))
  | inr f ↦ f
]

pub current_lem :
    (g : PlanGraph)
    → is_sound g ≡ true
    → (current g ≡ returned none)
      ⊎ ((n : PlanNode) × (current g ≡ returned (some n))
          × (has g.nodes n.node_id ≡ true)
          × (g.cursor + 1 ≤ length g.order))
unfolding current
current_lem g h = elim (Option-cases (get_elem? g.order g.cursor)) [
  | inl p ↦ inl (ground (arith, p))
  | inr (id, p) ↦
      let held = all-get_elem? g.nodes g.order g.cursor id (ground arith) p in
      let (n, q) = has-lookup id g.nodes held.0 in
      let r = keyed-lookup id g.nodes n (ground arith) q in
      inr (n, ground (arith, p, q), rw r held.0, held.1)
]

-- a call's outcome is no KeyError
abbrev pub no_key_error : {A : Type 0} → Outcome A → Bool
no_key_error (returned _) = true
no_key_error (raised e) = elim e.fault [
  | other_exception name ↦ not (str_eq name "KeyError")
  | _ ↦ true
]

-- What a call on a sound graph `g` does: the graph stays sound, the order keeps its length, the
-- cursor moves on by at most one, and no KeyError is raised.
abbrev pub Keeps : {A : Type 0} → PlanGraph → Outcome A × PlanGraph → Type 0
Keeps g (r, g') =
    (is_sound g' ≡ true)
    × (length g'.order ≡ length g.order)
    × (g.cursor ≤ g'.cursor)
    × (g'.cursor ≤ g.cursor + 1)
    × (no_key_error r ≡ true)

module _ (g : PlanGraph) (n : PlanNode) (h : is_sound g ≡ true) where
  pub put-is_sound : is_sound (put n g) ≡ true
  put-is_sound = ground (
    arith,
    same_iff n.node_id n.node_id,
    keyed-insert n.node_id n g.nodes,
    all-insert n.node_id n g.nodes g.order,
  )

  pub take_over-is_sound : (node : PlanNode) → is_sound (take_over node n g) ≡ true
  take_over-is_sound node =
      let m : PlanNode = record n { state = ready; parent_id = some (parent_or_self node) } in
      ground (
        arith,
        same_iff n.node_id n.node_id,
        keyed-insert n.node_id m g.nodes,
        all-set (insert n.node_id m g.nodes) g.order g.cursor n.node_id,
        has-inserted n.node_id m g.nodes,
        length-set g.order g.cursor n.node_id,
        all-insert n.node_id m g.nodes g.order,
      )

validated_lem : (n : PlanNode) → no_key_error (validated n) ≡ true
unfolding validated
validated_lem n = elim (Bool-cases (leb 1 (length n.objective) && leb (length n.objective) 120)) [
  | inl p ↦ rw p refl
  | inr p ↦ rw p refl
]

-- the node that `_next_alternative` makes may be refused, but nothing is looked up in vain
next_alternative_lem :
    (nodes : Dict PlanNode) (node : PlanNode) (skills : Option SkillLibrary)
    → no_key_error (next_alternative nodes node skills) ≡ true
unfolding next_alternative
next_alternative_lem nodes node skills =
    elim (Option-cases (open_alternative nodes node.node_id node.alternative_ids)) [
      | inr (c, p) ↦ ground (arith, p)
      | inl p ↦ elim (Option-cases (proposal nodes node skills)) [
        | inl q ↦ ground (arith, p, q)
        | inr (s, q) ↦ elim (Outcome-cases (validated (sibling_node node s))) [
          | inl (n, r) ↦ ground (arith, p, q, r)
          | inr (e, r) ↦ ground (arith, p, q, r, validated_lem (sibling_node node s))
        ]
      ]
    ]

module _ (g : PlanGraph) (h : is_sound g ≡ true) where
  pub mark_running-Keeps : (skill_id : Str) → Keeps g (mark_running skill_id g)
  unfolding mark_running
  mark_running-Keeps skill_id = elim (current_lem g h) [
    | inl p ↦ ground (arith, p)
    | inr (n, p, f, l) ↦ ground (arith, p, put-is_sound g (record n { state = running }) h)
  ]

  module _ (py : PythonText) where
    pub mark_succeeded-Keeps :
        (skill_id : Str) (allow_unbound : Bool)
        → Keeps g (mark_succeeded py skill_id allow_unbound g)
    unfolding mark_succeeded
    mark_succeeded-Keeps skill_id allow_unbound = elim (current_lem g h) [
      | inl p ↦ ground (arith, p)
      | inr (n, p, f, l) ↦
          let done : PlanNode = record n {
            state = succeeded;
            consecutive_failures = 0;
            block_reason = none;
          } in
          ground (arith, p, put-is_sound g done h)
    ]

    block_node-Keeps :
        (n : PlanNode) (reason : Str) (skills : Option SkillLibrary)
        → g.cursor + 1 ≤ length g.order
        → Keeps g (block_node py n reason skills g)
    unfolding block_node
    block_node-Keeps n reason skills f =
        let g' = put (block reason n) g in
        let h' = put-is_sound g (block reason n) h in
        let fine = next_alternative_lem g'.nodes (block reason n) skills in
        elim (Outcome-cases (next_alternative g'.nodes (block reason n) skills)) [
          | inr (e, p) ↦ ground (arith, p)
          | inl (none, p) ↦ ground (arith, p)
          | inl (some m, p) ↦ ground (
            arith,
            p,
            take_over-is_sound g' m h' (block reason n),
            length-set g.order g.cursor m.node_id,
          )
        ]

    pub block_current_method-Keeps :
        (skill_id reason : Str) (skills : Option SkillLibrary)
        → Keeps g (block_current_method py skill_id reason skills g)
    unfolding block_current_method
    block_current_method-Keeps skill_id reason skills = elim (current_lem g h) [
      | inl p ↦ ground (arith, p)
      | inr (n, p, f, l) ↦ ground (arith, p, block_node-Keeps n reason skills l)
    ]
