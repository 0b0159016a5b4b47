-- ===== src/Recipes/Choices.antt =====
-- The choices of a method: each offers all that satisfies its edges, and only nodes of the graph.
use mathlib.Core.Path.{subst}
use minecraft_ai.Prelude.{
  ℕ, ◌≤◌, true, List, [], ◌∷◌, ◌++◌, ◌≡◌, refl, sym, ◌∙◌, inl, inr, Option, some, Str, update,
  In-update_held, In-update_added, All-update, lookup, All, In, In-append_left, In-append_end,
  In-append_split, ◌⊎◌, In-sort_by, All-sort_by, Bool-cases, arith,
}
use minecraft_ai.Knowledge.{KnowledgeNode, KnowledgeEdge}
use minecraft_ai.Knowledge.Graph.{KnowledgeGraph, has_node}
use minecraft_ai.Knowledge.Added.{IsWell}
use minecraft_ai.Knowledge.Found.{has_node-lookup}
use minecraft_ai.Recipes.{
  RequirementChoice, is_tag, sorted_texts, tag_members, one, max_of, alternatives_of, choice_of,
  choices_of,
}
use minecraft_ai.Recipes.Tags.{AreNodes, tag_members-FindsNodes}

max_of-le : (a b : ℕ) → (a ≤ max_of a b) × (b ≤ max_of a b)
max_of-le a b = (ground arith, ground arith)

some_texts : {o : Option (List Str)} {a b : List Str} → o ≡ some a → o ≡ some b → a ≡ b
some_texts h h' = cc (h, h')

module _ (g : KnowledgeGraph) where
  -- the choice offers whatever satisfies the edge, at least in its quantity
  pub record Covers (c : RequirementChoice) (e : KnowledgeEdge) : Type 0 where
    pub listed : In e.edge_id c.source_edge_ids
    pub enough : e.quantity ≤ c.quantity
    pub offers :
        (found : List Str)
        → alternatives_of g e ≡ some found
        → (x : Str) → In x found
        → In x c.alternatives

  module _ (w : IsWell g) where
    alternatives_members :
        (e : KnowledgeEdge) (node : KnowledgeNode) (ms : List Str)
        → has_node g e.target ≡ true
        → lookup e.target g.nodes ≡ some node
        → is_tag node.kind ≡ true
        → tag_members g true 32 e.target ≡ some ms
        → AreNodes g ms
        → (found : List Str) × (alternatives_of g e ≡ some found) × AreNodes g found
    unfolding alternatives_of
    alternatives_members e node [] h q t r a = (e.target ∷ [], ground (arith, q, t, r), (h, tt))
    alternatives_members e node (m ∷ ms) h q t r a = (m ∷ ms, ground (arith, q, t, r), a)

    alternatives_of-AreNodes :
        (e : KnowledgeEdge)
        → has_node g e.target ≡ true
        → (found : List Str) × (alternatives_of g e ≡ some found) × AreNodes g found
    unfolding alternatives_of
    alternatives_of-AreNodes e h =
        let (node, q) = has_node-lookup g e.target h in
        elim (Bool-cases (is_tag node.kind)) [
          | inr t ↦ (e.target ∷ [], ground (arith, q, t), (h, tt))
          | inl t ↦
              let (ms, r, a) = tag_members-FindsNodes g w true 32 e.target h in
              alternatives_members e node ms h q t r a
        ]

    choice_of_next :
        (e : KnowledgeEdge) (es : List KnowledgeEdge) (alternatives : List Str) (quantity : ℕ)
        (ids : List Str) (found : List Str)
        → alternatives_of g e ≡ some found
        → choice_of g (e ∷ es) alternatives quantity ids
          ≡ choice_of g es
              (update alternatives found)
              (max_of quantity e.quantity)
              (ids ++ e.edge_id ∷ [])
    unfolding choice_of
    choice_of_next e es alternatives quantity ids found h = ground (arith, h)

    -- a choice with at least what was collected so far
    record Collected (alternatives : List Str) (quantity : ℕ) (ids : List Str)
        (c : RequirementChoice) : Type 0 where
      keeps : (x : Str) → In x alternatives → In x c.alternatives
      more : quantity ≤ c.quantity
      keeps_ids : (x : Str) → In x ids → In x c.source_edge_ids

    -- each listed id was collected before or is that of an edge
    abbrev FromEdges : List KnowledgeEdge → List Str → RequirementChoice → Type 0
    FromEdges es ids c =
        (x : Str)
        → In x c.source_edge_ids
        → In x ids ⊎ ((e : KnowledgeEdge) × In e es × (e.edge_id ≡ x))

    Chosen : List KnowledgeEdge → List Str → ℕ → List Str → Option RequirementChoice → Type 0
    Chosen es alternatives quantity ids outcome =
        (c : RequirementChoice) × (outcome ≡ some c)
        × Collected alternatives quantity ids c
        × AreNodes g c.alternatives
        × ((e : KnowledgeEdge) → In e es → Covers c e)
        × FromEdges es ids c

    choice_of-Chosen :
        (es : List KnowledgeEdge) (alternatives : List Str) (quantity : ℕ) (ids : List Str)
        → ((e : KnowledgeEdge) → In e es → has_node g e.target ≡ true)
        → AreNodes g alternatives
        → Chosen es alternatives quantity ids (choice_of g es alternatives quantity ids)
    unfolding choice_of Chosen sorted_texts
    choice_of-Chosen [] alternatives quantity ids stored a = (
      record {
        alternatives = sorted_texts alternatives;
        quantity = quantity;
        source_edge_ids = ids;
      },
      refl,
      record {
        keeps = λ x m. (In-sort_by (λ s. s) x alternatives).1 m;
        more = omega arith;
        keeps_ids = λ x m. m;
      },
      All-sort_by (λ s. s) (λ x. has_node g x ≡ true) alternatives a,
      λ e m. absurd m,
      λ x m. inl m,
    )
    choice_of-Chosen (e ∷ es) alternatives quantity ids stored a =
        let (found, h, b) = alternatives_of-AreNodes e (stored e (inl refl)) in
        let (c, q, kept, nodes, rest, from) =
          choice_of-Chosen es (update alternatives found) (max_of quantity e.quantity)
            (ids ++ e.edge_id ∷ []) (λ f m. stored f (inr m))
            (All-update (λ x. has_node g x ≡ true) alternatives found a b) in
        let max_ge = max_of-le quantity e.quantity in
        let own : Covers c e = record {
          listed = kept.keeps_ids e.edge_id (In-append_end e.edge_id ids);
          enough = omega (arith, kept.more, max_ge.1);
          offers = λ found' h' x m.
              kept.keeps x
                (In-update_added alternatives found x (subst (In x) (some_texts h' h) m));
        } in
        (
          c,
          choice_of_next e es alternatives quantity ids found h ∙ q,
          record {
            keeps = λ x m. kept.keeps x (In-update_held alternatives found x m);
            more = omega (arith, kept.more, max_ge.0);
            keeps_ids = λ x m. kept.keeps_ids x (In-append_left x ids (e.edge_id ∷ []) m);
          },
          nodes,
          λ f. elim [ inl p ↦ subst (Covers c) p own | inr m ↦ rest f m ],
          λ x m. elim (from x m) [
            | inr (f, n, p) ↦ inr (f, inr n, p)
            | inl n ↦ elim (In-append_split x e.edge_id ids n) [
              | inl old ↦ inl old
              | inr p ↦ inr (e, inl refl, p)
            ]
          ],
        )

    choices_of_next :
        (es : List KnowledgeEdge) (groups : List (List KnowledgeEdge)) (c : RequirementChoice)
        (cs : List RequirementChoice)
        → choice_of g es [] one [] ≡ some c
        → choices_of g groups ≡ some cs
        → choices_of g (es ∷ groups) ≡ some (c ∷ cs)
    unfolding choices_of
    choices_of_next es groups c cs h h' = ground (arith, h, h')

    abbrev pub AllNodes : List RequirementChoice → Type 0
    AllNodes = All (λ (c : RequirementChoice). AreNodes g c.alternatives)

    -- the listed ids are those of edges of one group
    abbrev FromGroup : List (List KnowledgeEdge) → RequirementChoice → Type 0
    FromGroup groups c =
        (es : List KnowledgeEdge) × In es groups
        × ((x : Str) → In x c.source_edge_ids → (e : KnowledgeEdge) × In e es × (e.edge_id ≡ x))

    abbrev pub ChosenAll : List (List KnowledgeEdge) → Option (List RequirementChoice) → Type 0
    ChosenAll groups outcome =
        (cs : List RequirementChoice) × (outcome ≡ some cs)
        × AllNodes cs
        × ((es : List KnowledgeEdge) (e : KnowledgeEdge)
            → In es groups
            → In e es
            → (c : RequirementChoice) × In c cs × Covers c e)
        × ((c : RequirementChoice) → In c cs → FromGroup groups c)

    pub choices_of-ChosenAll :
        (groups : List (List KnowledgeEdge))
        → ((es : List KnowledgeEdge) (e : KnowledgeEdge)
            → In es groups
            → In e es
            → has_node g e.target ≡ true)
        → ChosenAll groups (choices_of g groups)
    unfolding choices_of Chosen
    choices_of-ChosenAll [] stored = ([], refl, tt, λ es e m. absurd m, λ c m. absurd m)
    choices_of-ChosenAll (es ∷ groups) stored =
        let (c, h, _, nodes, covers, from) =
          choice_of-Chosen es [] one [] (λ e m. stored es e (inl refl) m) tt in
        let (cs, h', all_nodes, later, later_from) =
          choices_of-ChosenAll groups (λ fs e m n. stored fs e (inr m) n) in
        (
          c ∷ cs,
          choices_of_next es groups c cs h h',
          (nodes, all_nodes),
          λ fs e. elim [
            | inl p ↦ λ n. (c, inl refl, covers e (subst (In e) (sym p) n))
            | inr m ↦ λ n. let (d, k, cover) = later fs e m n in (d, inr k, cover)
          ],
          λ d. elim [
            | inl p ↦
                subst (λ (z : RequirementChoice). FromGroup (es ∷ groups) z) p
                  (es, inl refl, λ x m. elim (from x m) [ inl n ↦ absurd n | inr o ↦ o ])
            | inr m ↦ let (fs, k, own) = later_from d m in (fs, inr k, own)
          ],
        )
