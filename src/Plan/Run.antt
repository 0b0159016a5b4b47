-- ===== src/Plan/Run.antt =====
-- Sequences of calls of a plan graph's methods, and the graphs that `plan_graph_from_steps` makes.
use minecraft_ai.Prelude.{
  ℕ, ◌+◌, ◌≤◌, Bool, true, List, [], ◌∷◌, ◌++◌, ◌≡◌, refl, ◌&&◌, length, all, Str, same_iff, Dict,
  insert, Option, none, some, arith, inl, inr, map,
}
use minecraft_ai.Outcome.{Outcome, returned, Outcome-cases}
use minecraft_ai.Plan.Text.{PythonText, sanitize_plan_steps}
use minecraft_ai.Skills.{SkillLibrary}
use minecraft_ai.Plan.Graph.{
  PlanNode, PlanGraph, mark_running, mark_succeeded, block_current_method, validated,
}
use minecraft_ai.Plan.Build.{
  add_alternatives, add_step, add_steps, plan_graph_from_steps, step_node_id, alternative_node_id,
  ready_node, step_alternatives, bind_plan_step_skill,
}
use minecraft_ai.Plan.Sound.{
  is_sound, keyed, has, no_key_error, mark_running-Keeps, mark_succeeded-Keeps,
  block_current_method-Keeps, keyed-insert, all-insert, has-inserted,
}

pub data Call : Type 0 where
  running_call : (skill_id : Str) → Call
  succeeded_call : (skill_id : Str) (allow_unbound : Bool) → Call
  blocked_call : (skill_id reason : Str) (skills : Option SkillLibrary) → Call

-- whether the outcome was no KeyError, and the graph
abbrev pub without_error : {A : Type 0} → Outcome A × PlanGraph → Bool × PlanGraph
without_error (r, g) = (no_key_error r, g)

module _ (py : PythonText) where
  abbrev pub call : Call → PlanGraph → Bool × PlanGraph
  call (running_call skill_id) g = without_error (mark_running skill_id g)
  call (succeeded_call skill_id allow) g = without_error (mark_succeeded py skill_id allow g)
  call (blocked_call skill_id reason skills) g =
      without_error (block_current_method py skill_id reason skills g)

  abbrev pub play : List Call → PlanGraph → Bool × PlanGraph
  play [] g = (true, g)
  play (c ∷ cs) g =
      let (fine, g') = call c g in let (rest_fine, g'') = play cs g' in (fine && rest_fine, g'')

  call-Keeps :
      (c : Call) (g : PlanGraph)
      → is_sound g ≡ true
      → ((call c g).0 ≡ true)
        × (is_sound (call c g).1 ≡ true)
        × (length (call c g).1.order ≡ length g.order)
        × (g.cursor ≤ (call c g).1.cursor)
  call-Keeps (running_call s) g h = ground (arith, mark_running-Keeps g h s)
  call-Keeps (succeeded_call s a) g h = ground (arith, mark_succeeded-Keeps g h py s a)
  call-Keeps (blocked_call s r l) g h = ground (arith, block_current_method-Keeps g h py s r l)

  -- Any sequence of calls on a sound graph leaves it sound, raises no KeyError, keeps the length of
  -- the order, and never moves the cursor back nor past the order's end.
  pub play-is_sound :
      (cs : List Call) (g : PlanGraph)
      → is_sound g ≡ true
      → ((play cs g).0 ≡ true)
        × (is_sound (play cs g).1 ≡ true)
        × (length (play cs g).1.order ≡ length g.order)
        × (g.cursor ≤ (play cs g).1.cursor)
        × ((play cs g).1.cursor ≤ length g.order)
  play-is_sound [] g h = ground arith
  play-is_sound (c ∷ cs) g h =
      let (fine, h', same_length, forward) = call-Keeps c g h in
      let (fine', h'', same_length', forward', bound) = play-is_sound cs (call c g).1 h' in
      ground arith

validated_same : (n m : PlanNode) → validated n ≡ returned m → n ≡ m
unfolding validated
validated_same n m h = ground arith

-- the graph under construction: nodes under their own ids, and the ids of the order among them
abbrev Built : Dict PlanNode → List Str → Type 0
Built nodes ids = (keyed nodes ≡ true) × (all (has nodes) ids ≡ true)

insert-Built :
    (n m : PlanNode) (nodes : Dict PlanNode) (ids : List Str)
    → Built nodes ids
    → validated m ≡ returned n
    → Built (insert m.node_id n nodes) ids
insert-Built n m nodes ids (k, a) h = ground (
  arith,
  validated_same m n h,
  same_iff m.node_id m.node_id,
  keyed-insert m.node_id n nodes,
  all-insert m.node_id n nodes ids,
)

add_alternatives-Built :
    (id : Str) (alts : List Str) (nodes d : Dict PlanNode) (ids : List Str)
    → Built nodes ids
    → add_alternatives id alts nodes ≡ returned d
    → Built d ids
unfolding add_alternatives
add_alternatives-Built id [] nodes d ids b h = ground arith
add_alternatives-Built id (alt ∷ alts) nodes d ids b h =
    let made = ready_node (alternative_node_id id alt) alt (some alt) (some id) [] in
    elim (Outcome-cases (validated made)) [
      | inr (e, p) ↦ absurd (ground (arith, p))
      | inl (n, p) ↦
          add_alternatives-Built id alts (insert made.node_id n nodes) d ids
            (insert-Built n made nodes ids b p) (ground (arith, p))
    ]

all-end :
    (d : Dict PlanNode) (ids : List Str) (id : Str)
    → all (has d) ids ≡ true
    → has d id ≡ true
    → all (has d) (ids ++ id ∷ []) ≡ true
all-end d [] id h k = ground arith
all-end d (x ∷ ids) id h k = ground (arith, all-end d ids id)

add_step-Built :
    (id label : Str) (skill : Option Str) (alts : List Str) (nodes d : Dict PlanNode)
    (ids : List Str)
    → Built nodes ids
    → add_step id label skill alts nodes ≡ returned d
    → Built d (ids ++ id ∷ [])
unfolding add_step
add_step-Built id label skill alts nodes d ids b h =
    let made = ready_node id label skill none (map (alternative_node_id id) alts) in
    elim (Outcome-cases (add_alternatives id alts nodes)) [
      | inr (e, p) ↦ absurd (ground (arith, p))
      | inl (d', p) ↦ elim (Outcome-cases (validated made)) [
        | inr (e, q) ↦ absurd (ground (arith, p, q))
        | inl (n, q) ↦
            let b' =
              insert-Built n made d' ids (add_alternatives-Built id alts nodes d' ids b p) q in
            ground (arith, p, q, b', has-inserted id n d', all-end (insert id n d') ids id)
      ]
    ]

module _ (py : PythonText) (skills : Option SkillLibrary) where
  add_steps-Built :
      (index : ℕ) (labels : List Str) (nodes d : Dict PlanNode) (ids made : List Str)
      → Built nodes ids
      → add_steps py skills index labels nodes ids ≡ returned (d, made)
      → Built d made
  unfolding add_steps
  add_steps-Built index [] nodes d ids made b h = ground arith
  add_steps-Built index (label ∷ labels) nodes d ids made b h =
      let id = step_node_id index in
      let skill = bind_plan_step_skill py label skills in
      let alts = step_alternatives skills skill in
      elim (Outcome-cases (add_step id label skill alts nodes)) [
        | inr (e, p) ↦ absurd (ground (arith, p))
        | inl (d', p) ↦
            add_steps-Built (index + 1) labels d' d (ids ++ id ∷ []) made
              (add_step-Built id label skill alts nodes d' ids b p) (ground (arith, p))
      ]

  -- A graph that `plan_graph_from_steps` returns is sound.
  pub plan_graph_from_steps-is_sound :
      (steps : List Str) (goal : Option Str) (g : PlanGraph)
      → plan_graph_from_steps py steps goal skills ≡ returned g
      → is_sound g ≡ true
  unfolding plan_graph_from_steps
  plan_graph_from_steps-is_sound steps goal g h =
      elim (Outcome-cases (add_steps py skills 0 (sanitize_plan_steps py steps) [] [])) [
        | inr (e, p) ↦ absurd (ground (arith, p))
        | inl ((d, ids), p) ↦
            ground (
              arith,
              p,
              add_steps-Built 0 (sanitize_plan_steps py steps) [] d [] ids (refl, refl) p,
            )
      ]
