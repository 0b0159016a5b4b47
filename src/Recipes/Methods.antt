-- ===== src/Recipes/Methods.antt =====
-- The ways to acquire a target: one for each edge into it, whose choices cover every requirement.
use minecraft_ai.Prelude.{
  Option, none, true, List, [], ◌∷◌, ◌≡◌, refl, ◌∙◌, some, Str, All, In, arith,
}
use minecraft_ai.Knowledge.{KnowledgeEdge}
use minecraft_ai.Knowledge.Graph.{KnowledgeGraph, has_node, requirements, ways_to_obtain, is_way}
use minecraft_ai.Knowledge.Added.{IsWell}
use minecraft_ai.Knowledge.Found.{Finds, outgoing-Finds, stored_nodes}
use minecraft_ai.Knowledge.Closure.Search.{Requires, requirements-Listed}
use minecraft_ai.Recipes.{
  group_key, RequirementChoice, AcquisitionMethod, group_requirement_edges, choices_of, method_of,
  methods_of, acquisition_methods,
}
use minecraft_ai.Recipes.Tags.{AreNodes}
use minecraft_ai.Recipes.Groups.{group_requirement_edges-IsGrouping}
use minecraft_ai.Recipes.Choices.{Covers, choices_of-ChosenAll}

-- The slot of a requirement: edges that name the same alternative group share one, and any other
-- edge, of no group or the empty one, has a slot of its own.
abbrev pub SlotOf : Option Str → (edge_id slot : Str) → Type 0
SlotOf none edge_id slot = edge_id ≡ slot
SlotOf (some []) edge_id slot = edge_id ≡ slot
SlotOf (some (c ∷ cs)) edge_id slot = (c ∷ cs) ≡ slot

-- the edges of the choice are requirements in one slot
abbrev pub InOneSlot : (KnowledgeEdge → Type 0) → RequirementChoice → Type 0
InOneSlot P c =
    (slot : Str) × ((x : Str)
      → In x c.source_edge_ids
      → (e : KnowledgeEdge) × P e × (e.edge_id ≡ x) × SlotOf e.alternative_group e.edge_id slot)

group_key-SlotOf :
    (e : KnowledgeEdge) (o : Option Str) (k : Str)
    → e.alternative_group ≡ o
    → group_key e ≡ k
    → SlotOf o e.edge_id k
unfolding group_key
group_key-SlotOf e none k q h = ground (arith, q, h)
group_key-SlotOf e (some []) k q h = ground (arith, q, h)
group_key-SlotOf e (some (c ∷ cs)) k q h = ground (arith, q, h)

module _ (g : KnowledgeGraph) where
  -- a way to obtain the target by an edge
  pub record IsMethod (target : Str) (output : KnowledgeEdge) (m : AcquisitionMethod) : Type 0 where
    pub for_target : m.target ≡ target
    pub by_process : m.process ≡ output.source
    pub same_output : (m.output_quantity ≡ output.quantity) × (m.output_kind ≡ output.kind)
    pub covered :
        (e : KnowledgeEdge)
        → Requires g output.source e
        → (c : RequirementChoice) × In c m.requirements × Covers g c e
    pub slots :
        (c : RequirementChoice) → In c m.requirements → InOneSlot (Requires g output.source) c
    pub nodes : All (λ (c : RequirementChoice). AreNodes g c.alternatives) m.requirements

  -- one method for each edge
  abbrev pub AreMethods : Str → List KnowledgeEdge → List AcquisitionMethod → Type 0
  AreMethods target [] [] = Unit
  AreMethods target [] (m ∷ ms) = ⊥
  AreMethods target (output ∷ outputs) [] = ⊥
  AreMethods target (output ∷ outputs) (m ∷ ms) =
      IsMethod target output m × AreMethods target outputs ms

  module _ (w : IsWell g) where
    method_with : Str → KnowledgeEdge → List RequirementChoice → AcquisitionMethod
    method_with target output choices = record {
      target = target;
      process = output.source;
      output_quantity = output.quantity;
      output_kind = output.kind;
      requirements = choices;
      provenance_source = output.provenance.source_id;
    }

    method_of_lem :
        (target : Str) (output : KnowledgeEdge) (raw : List KnowledgeEdge)
        (choices : List RequirementChoice)
        → requirements g output.source ≡ some raw
        → choices_of g (group_requirement_edges raw) ≡ some choices
        → method_of g target output ≡ some (method_with target output choices)
    unfolding method_of method_with
    method_of_lem target output raw choices h h' = ground (arith, h, h')

    method_of-IsMethod :
        (target : Str) (output : KnowledgeEdge)
        → (m : AcquisitionMethod) × (method_of g target output ≡ some m) × IsMethod target output m
    unfolding method_with
    method_of-IsMethod target output =
        let (raw, h, listed) = requirements-Listed g output.source w in
        let grouping = group_requirement_edges-IsGrouping raw in
        let stored : (es : List KnowledgeEdge) (e : KnowledgeEdge)
            → In es (group_requirement_edges raw)
            → In e es
            → has_node g e.target ≡ true =
          λ es e m n.
            let (_, keyed) = grouping.keyed es m in
            (stored_nodes g e w ((listed e).0 (keyed e n).0).0).1 in
        let (choices, h', nodes, covers, from) =
          choices_of-ChosenAll g w (group_requirement_edges raw) stored in
        (
          method_with target output choices,
          method_of_lem target output raw choices h h',
          record {
            for_target = refl;
            by_process = refl;
            same_output = (refl, refl);
            covered = λ e q. let (es, m, n) = grouping.covers e ((listed e).1 q) in covers es e m n;
            slots = λ c m.
                let (es, n, own) = from c m in
                let (k, keyed) = grouping.keyed es n in
                (
                  k,
                  λ x i.
                      let (e, j, q) = own x i in
                      let (there, key_is) = keyed e j in
                      (
                        e,
                        (listed e).0 there,
                        q,
                        group_key-SlotOf e e.alternative_group k refl key_is,
                      ),
                );
            nodes = nodes;
          },
        )

    methods_of_next :
        (target : Str) (output : KnowledgeEdge) (outputs : List KnowledgeEdge)
        (m : AcquisitionMethod) (ms : List AcquisitionMethod)
        → method_of g target output ≡ some m
        → methods_of g target outputs ≡ some ms
        → methods_of g target (output ∷ outputs) ≡ some (m ∷ ms)
    unfolding methods_of
    methods_of_next target output outputs m ms h h' = ground (arith, h, h')

    methods_of-AreMethods :
        (target : Str) (outputs : List KnowledgeEdge)
        → (ms : List AcquisitionMethod) × (methods_of g target outputs ≡ some ms)
          × AreMethods target outputs ms
    unfolding methods_of
    methods_of-AreMethods target [] = ([], refl, tt)
    methods_of-AreMethods target (output ∷ outputs) =
        let (m, h, is_method) = method_of-IsMethod target output in
        let (ms, h', are_methods) = methods_of-AreMethods target outputs in
        (m ∷ ms, methods_of_next target output outputs m ms h h', (is_method, are_methods))

    acquisition_methods_lem :
        (target : Str) (outputs : List KnowledgeEdge)
        → has_node g target ≡ true
        → ways_to_obtain g target ≡ some outputs
        → acquisition_methods g target ≡ methods_of g target outputs
    unfolding acquisition_methods
    acquisition_methods_lem target outputs h e = ground (arith, h, e)

    ways_to_obtain-Finds :
        (target : Str) → Finds (λ e. e.target) g target is_way (ways_to_obtain g target)
    unfolding ways_to_obtain
    ways_to_obtain-Finds target = (outgoing-Finds g target is_way w).1

pub acquisition_methods-AreMethods :
    (g : KnowledgeGraph) (target : Str)
    → IsWell g
    → has_node g target ≡ true
    → (outputs : List KnowledgeEdge) × (ways_to_obtain g target ≡ some outputs)
      × ((ms : List AcquisitionMethod) × (acquisition_methods g target ≡ some ms)
          × AreMethods g target outputs ms)
acquisition_methods-AreMethods g target w h =
    let (outputs, e, _) = ways_to_obtain-Finds g w target in
    let (ms, h', are_methods) = methods_of-AreMethods g w target outputs in
    (outputs, e, (ms, acquisition_methods_lem g w target outputs h e ∙ h', are_methods))
