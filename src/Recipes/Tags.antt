-- ===== src/Recipes/Tags.antt =====
-- The members of a tag: the search ends, and finds nodes of the graph.
use mathlib.Core.Path.{subst}
use minecraft_ai.Prelude.{
  ℕ, zero, suc, ◌+◌, ◌≤◌, ◌<◌, Bool, true, false, List, [], ◌∷◌, ◌≡◌, refl, sym, ap, ◌∙◌, inl, inr,
  Option, some, ◌&&◌, ◌||◌, ltb, length, Str, same, same_iff, contains, Dict, lookup, All, In,
  All-sort_by, Bool-cases, Option-cases, arith,
}
use minecraft_ai.Knowledge.{KnowledgeNode, EdgeKind, KnowledgeEdge}
use minecraft_ai.Knowledge.Index.{Index, at}
use minecraft_ai.Knowledge.Graph.{KnowledgeGraph, has_node, edges_of, incoming}
use minecraft_ai.Knowledge.Added.{IsWell}
use minecraft_ai.Knowledge.Found.{outgoing-Finds, lookup-All, has_node-lookup, stored_nodes}
use minecraft_ai.Recipes.{
  is_tag, is_member_of, sorted_texts, add_text, Stack, unvisited, tag_edges, search_tags,
  tag_members,
}

-- texts that are nodes of the graph
abbrev pub AreNodes : KnowledgeGraph → List Str → Type 0
AreNodes g xs = All (λ x. has_node g x ≡ true) xs

add_text-AreNodes :
    (g : KnowledgeGraph) (x : Str) (xs : List Str)
    → has_node g x ≡ true
    → AreNodes g xs
    → AreNodes g (add_text x xs)
unfolding add_text
add_text-AreNodes g x xs h a = elim (Bool-cases (contains xs x)) [
  | inl c ↦ rw c a
  | inr c ↦ rw c (h, a)
]

unvisited-cons :
    (n : Str) (v : List Str) (index : Index) → unvisited (n ∷ v) index ≤ unvisited v index
unfolding contains
unvisited-cons n v [] = omega arith
unvisited-cons n v ((k, ids) ∷ index) = ground (arith, unvisited-cons n v index)

unvisited-at :
    (n : Str) (v : List Str) (index : Index)
    → contains v n ≡ false
    → unvisited (n ∷ v) index + length (at index n) ≤ unvisited v index
unfolding contains at lookup
unvisited-at n v [] h = omega arith
unvisited-at n v ((k, ids) ∷ index) h = elim (Bool-cases (same k n)) [
  | inl p ↦
      let k_is_n = (same_iff k n).0 p in
      let back = (same_iff n k).1 (sym k_is_n) in
      let before : contains v k ≡ false = subst (λ x. contains v x ≡ false) (sym k_is_n) h in
      ground (arith, p, back, before, unvisited-cons n v index)
  | inr p ↦ let rest = unvisited-at n v index h in ground (arith, p, rest)
]

length-edges_of :
    (edges : Dict KnowledgeEdge) (allowed : EdgeKind → Bool) (ids : List Str)
    (es : List KnowledgeEdge)
    → edges_of edges allowed ids ≡ some es
    → length es ≤ length ids
unfolding edges_of
length-edges_of edges allowed [] es h = ground (arith, h)
length-edges_of edges allowed (id ∷ ids) es h = elim (Option-cases (lookup id edges)) [
  | inl n ↦ absurd (ground (arith, n, h))
  | inr (e, s) ↦ elim (Option-cases (edges_of edges allowed ids)) [
    | inl n ↦ absurd (ground (arith, s, n, h))
    | inr (rest, q) ↦
        let shorter = length-edges_of edges allowed ids rest q in ground (arith, s, q, h, shorter)
  ]
]

length-incoming :
    (g : KnowledgeGraph) (n : Str) (allowed : EdgeKind → Bool) (es : List KnowledgeEdge)
    → incoming g n allowed ≡ some es
    → length es ≤ length (at g.in_ids n)
unfolding incoming
length-incoming g n allowed es h = length-edges_of g.edges allowed (at g.in_ids n) es h

module _ (g : KnowledgeGraph) (w : IsWell g) (recursive : Bool) (max_depth : ℕ) where
  child_of :
      (e : KnowledgeEdge)
      → lookup e.edge_id g.edges ≡ some e
      → (child : KnowledgeNode) × (lookup e.source g.nodes ≡ some child)
        × (has_node g child.node_id ≡ true)
  child_of e h =
      let (from_node, _) = stored_nodes g e w h in
      let (child, q) = has_node-lookup g e.source from_node in
      let keyed : child.node_id ≡ e.source =
        lookup-All (λ id (n : KnowledgeNode). n.node_id ≡ id) g.nodes e.source child w.nodes_keyed
          q in
      (child, q, ap (has_node g) keyed ∙ from_node)

  tag_edges_inner :
      (d : ℕ) (e : KnowledgeEdge) (es : List KnowledgeEdge) (leaves : List Str) (stack : Stack)
      (child : KnowledgeNode)
      → lookup e.source g.nodes ≡ some child
      → (recursive && is_tag child.kind) ≡ true
      → tag_edges g recursive max_depth d (e ∷ es) leaves stack
        ≡ tag_edges g recursive max_depth d es leaves ((child.node_id, suc d) ∷ stack)
  unfolding tag_edges
  tag_edges_inner d e es leaves stack child h t = ground (arith, h, t)

  tag_edges_leaf :
      (d : ℕ) (e : KnowledgeEdge) (es : List KnowledgeEdge) (leaves : List Str) (stack : Stack)
      (child : KnowledgeNode)
      → lookup e.source g.nodes ≡ some child
      → (recursive && is_tag child.kind) ≡ false
      → tag_edges g recursive max_depth d (e ∷ es) leaves stack
        ≡ tag_edges g recursive max_depth d es (add_text child.node_id leaves) stack
  unfolding tag_edges
  tag_edges_leaf d e es leaves stack child h t = ground (arith, h, t)

  -- one tag is left for nodes of the graph and at most one entry for each edge
  abbrev Visited : ℕ → Option (List Str × Stack) → Type 0
  Visited size outcome =
      (leaves : List Str) × (stack : Stack) × (outcome ≡ some (leaves, stack))
      × AreNodes g leaves
      × (length stack ≤ size)

  Visited-le : (m n : ℕ) (o : Option (List Str × Stack)) → m ≤ n → Visited m o → Visited n o
  Visited-le m n o l (leaves, stack, e, a, b) = (leaves, stack, e, a, omega arith)

  tag_edges-Visited :
      (d : ℕ) (es : List KnowledgeEdge) (leaves : List Str) (stack : Stack)
      → ((e : KnowledgeEdge) → In e es → lookup e.edge_id g.edges ≡ some e)
      → AreNodes g leaves
      → Visited (length stack + length es) (tag_edges g recursive max_depth d es leaves stack)
  unfolding tag_edges
  tag_edges-Visited d [] leaves stack stored a = (leaves, stack, refl, a, omega arith)
  tag_edges-Visited d (e ∷ es) leaves stack stored a =
      let (child, q, is_node) = child_of e (stored e (inl refl)) in
      let Wanted : Option (List Str × Stack) → Type 0 = Visited (length stack + suc (length es)) in
      elim (Bool-cases (recursive && is_tag child.kind)) [
        | inl t ↦
            let entries : Stack = (child.node_id, suc d) ∷ stack in
            subst Wanted (sym (tag_edges_inner d e es leaves stack child q t)) (
              Visited-le _ _ _ (omega arith)
                (tag_edges-Visited d es leaves entries (λ f m. stored f (inr m)) a))
        | inr t ↦ subst Wanted (sym (tag_edges_leaf d e es leaves stack child q t)) (
            Visited-le _ _ _ (omega arith) (
              tag_edges-Visited d es (add_text child.node_id leaves) stack (λ f m. stored f (inr m))
                (add_text-AreNodes g child.node_id leaves is_node a)))
      ]

  search_tags_skip :
      (fuel : ℕ) (n : Str) (d : ℕ) (stack : Stack) (visited leaves : List Str)
      → (contains visited n || ltb max_depth d) ≡ true
      → search_tags g recursive max_depth (suc fuel) ((n, d) ∷ stack) visited leaves
        ≡ search_tags g recursive max_depth fuel stack visited leaves
  unfolding search_tags
  search_tags_skip fuel n d stack visited leaves h = ground (arith, h)

  search_tags_visit :
      (fuel : ℕ) (n : Str) (d : ℕ) (stack : Stack) (visited leaves : List Str)
      (es : List KnowledgeEdge) (leaves' : List Str) (stack' : Stack)
      → (contains visited n || ltb max_depth d) ≡ false
      → incoming g n is_member_of ≡ some es
      → tag_edges g recursive max_depth d es leaves stack ≡ some (leaves', stack')
      → search_tags g recursive max_depth (suc fuel) ((n, d) ∷ stack) visited leaves
        ≡ search_tags g recursive max_depth fuel stack' (n ∷ visited) leaves'
  unfolding search_tags
  search_tags_visit fuel n d stack visited leaves es leaves' stack' h e t = ground (arith, h, e, t)

  abbrev pub FindsNodes : Option (List Str) → Type 0
  FindsNodes outcome = (r : List Str) × (outcome ≡ some r) × AreNodes g r

  search_tags-FindsNodes :
      (fuel : ℕ) (stack : Stack) (visited leaves : List Str)
      → AreNodes g leaves
      → length stack + unvisited visited g.in_ids < fuel
      → FindsNodes (search_tags g recursive max_depth fuel stack visited leaves)
  unfolding search_tags sorted_texts
  search_tags-FindsNodes zero stack visited leaves a l = absurd (omega arith)
  search_tags-FindsNodes (suc fuel) [] visited leaves a l =
      (sorted_texts leaves, refl, All-sort_by (λ s. s) (λ x. has_node g x ≡ true) leaves a)
  search_tags-FindsNodes (suc fuel) ((n, d) ∷ stack) visited leaves a l =
      elim (Bool-cases (contains visited n || ltb max_depth d)) [
        | inl h ↦
            subst FindsNodes (sym (search_tags_skip fuel n d stack visited leaves h))
              (search_tags-FindsNodes fuel stack visited leaves a (omega arith))
        | inr h ↦
            let (es, e, listed) = (outgoing-Finds g n is_member_of w).1 in
            let (leaves', stack', t, a', b) =
              tag_edges-Visited d es leaves stack (λ x m. ((listed x).0 m).0) a in
            let fresh : contains visited n ≡ false = ground (arith, h) in
            let less = unvisited-at n visited g.in_ids fresh in
            let few = length-incoming g n is_member_of es e in
            subst FindsNodes
              (sym (search_tags_visit fuel n d stack visited leaves es leaves' stack' h e t))
              (search_tags-FindsNodes fuel stack' (n ∷ visited) leaves' a'
                (omega (arith, less, few, b)))
      ]

  tag_members_tag :
      (n : Str) (node : KnowledgeNode)
      → lookup n g.nodes ≡ some node
      → is_tag node.kind ≡ true
      → tag_members g recursive max_depth n
        ≡ search_tags g recursive max_depth (2 + unvisited [] g.in_ids) ((n, 0) ∷ []) [] []
  unfolding tag_members
  tag_members_tag n node h t = ground (arith, h, t)

  tag_members_plain :
      (n : Str) (node : KnowledgeNode)
      → lookup n g.nodes ≡ some node
      → is_tag node.kind ≡ false
      → tag_members g recursive max_depth n ≡ some (n ∷ [])
  unfolding tag_members
  tag_members_plain n node h t = ground (arith, h, t)

  -- For a node of a well-formed graph the search ends with no KeyError, and gives nodes of the graph.
  pub tag_members-FindsNodes :
      (n : Str) → has_node g n ≡ true → FindsNodes (tag_members g recursive max_depth n)
  tag_members-FindsNodes n h =
      let (node, q) = has_node-lookup g n h in
      elim (Bool-cases (is_tag node.kind)) [
        | inl t ↦
            subst FindsNodes (sym (tag_members_tag n node q t))
              (search_tags-FindsNodes _ ((n, 0) ∷ []) [] [] tt (omega arith))
        | inr t ↦ (n ∷ [], tag_members_plain n node q t, (h, tt))
      ]
