-- ===== src/Knowledge/Found.antt =====
-- What the queries at a node find: exactly the stored edges with that end and an allowed kind.
use minecraft_ai.Prelude.{
  Bool, true, false, List, [], ◌∷◌, Option, none, some, ◌≡◌, ◌↔◌, refl, sym, ap, ◌∙◌, ◌⊎◌, inl, inr,
  if◌then◌else◌, Str, same, same_iff, contains, Dict, lookup, All, In, Bool-cases, Option-cases,
  arith,
}
use mathlib.Core.Path.{subst}
use minecraft_ai.Knowledge.{EdgeKind, KnowledgeNode, KnowledgeEdge}
use minecraft_ai.Knowledge.Index.{Index, at, IsExact, ends, ends-some}
use minecraft_ai.Knowledge.Graph.{KnowledgeGraph, has_node, edges_of, outgoing, incoming}
use minecraft_ai.Knowledge.Added.{IsChecked, IsWell}

some_injective : (a b : KnowledgeEdge) → some a ≡ some b → a ≡ b
some_injective a b h = cc h

apart : false ≡ true → ⊥
apart h = cc h

if_true : (b : Bool) (x y : List KnowledgeEdge) → b ≡ true → some (if b then x else y) ≡ some x
if_true b x y h = rw h refl

if_false : (b : Bool) (x y : List KnowledgeEdge) → b ≡ false → some (if b then x else y) ≡ some y
if_false b x y h = rw h refl

module _ (edges : Dict KnowledgeEdge) (allowed : EdgeKind → Bool) where
  abbrev is_stored : Str → Bool
  is_stored id = elim (lookup id edges) [ none ↦ false | some _ ↦ true ]

  -- an edge of one of the ids
  abbrev Listed : KnowledgeEdge → List Str → Type 0
  Listed e ids =
      (id : Str) × (contains ids id ≡ true) × (lookup id edges ≡ some e) × (allowed e.kind ≡ true)

  abbrev Gathered : List Str → Type 0
  Gathered ids =
      (es : List KnowledgeEdge) × (edges_of edges allowed ids ≡ some es)
      × ((e : KnowledgeEdge) → In e es ↔ Listed e ids)

  Listed-later :
      (e : KnowledgeEdge) (id : Str) (ids : List Str) → Listed e ids → Listed e (id ∷ ids)
  unfolding contains
  Listed-later e id ids (i, c, s, a) = (i, ground (arith, c), s, a)

  stored_edge : (id : Str) → is_stored id ≡ true → (e : KnowledgeEdge) × (lookup id edges ≡ some e)
  stored_edge id h = elim (Option-cases (lookup id edges)) [
    | inl n ↦ absurd (ground (arith, n, h))
    | inr found_edge ↦ found_edge
  ]

  stored_ends :
      (end : KnowledgeEdge → Str) (id n : Str) → ends end edges id n ≡ true → is_stored id ≡ true
  stored_ends end id n h = ground (arith, h)

  edges_of_next :
      (id : Str) (ids : List Str) (e : KnowledgeEdge) (es : List KnowledgeEdge)
      → lookup id edges ≡ some e
      → edges_of edges allowed ids ≡ some es
      → edges_of edges allowed (id ∷ ids) ≡ some (if allowed e.kind then e ∷ es else es)
  unfolding edges_of
  edges_of_next id ids e es s q = ground (arith, s, q)

  Listed-first :
      (id : Str) (ids : List Str) (e : KnowledgeEdge)
      → lookup id edges ≡ some e
      → allowed e.kind ≡ true
      → Listed e (id ∷ ids)
  unfolding contains
  Listed-first id ids e s a = let own = (same_iff id id).1 refl in (id, ground (arith, own), s, a)

  -- an id of a longer list is its first one or a later one
  Listed-split :
      (id : Str) (ids : List Str) (first e : KnowledgeEdge)
      → lookup id edges ≡ some first
      → Listed e (id ∷ ids)
      → (first ≡ e) ⊎ Listed e ids
  unfolding contains
  Listed-split id ids first e s (i, c, s', a) = elim (Bool-cases (same id i)) [
    | inl p ↦
        inl (some_injective first e (sym s ∙ (ap (λ k. lookup k edges) ((same_iff id i).0 p) ∙ s')))
    | inr p ↦ inr (i, ground (arith, p, c), s', a)
  ]

  gathered : (ids : List Str) → All (λ id. is_stored id ≡ true) ids → Gathered ids
  unfolding edges_of contains
  gathered [] h = ([], refl, λ e. (λ m. absurd m, λ (i, c, _, _). absurd (cc c)))
  gathered (id ∷ ids) h =
      let (es, q, listed) = gathered ids h.1 in
      let (first, s) = stored_edge id h.0 in
      let next = edges_of_next id ids first es s q in
      elim (Bool-cases (allowed first.kind)) [
        | inl a ↦ (
          first ∷ es,
          next ∙ if_true (allowed first.kind) (first ∷ es) es a,
          λ e. (
            elim [
              | inl p ↦ subst (λ x. Listed x (id ∷ ids)) p (Listed-first id ids first s a)
              | inr m ↦ Listed-later e id ids ((listed e).0 m)
            ],
            λ l. elim (Listed-split id ids first e s l) [
              | inl p ↦ inl p
              | inr k ↦ inr ((listed e).1 k)
            ],
          ),
        )
        | inr a ↦ (
          es,
          next ∙ if_false (allowed first.kind) (first ∷ es) es a,
          λ e. (
            λ m. Listed-later e id ids ((listed e).0 m),
            λ l. elim (Listed-split id ids first e s l) [
              | inl p ↦
                  let (_, _, _, is_allowed) = l in
                  absurd (apart (sym a ∙ (ap (λ x. allowed x.kind) p ∙ is_allowed)))
              | inr k ↦ (listed e).1 k
            ],
          ),
        )
      ]

All-contains :
    (P : Str → Type 0) (xs : List Str) → ((x : Str) → contains xs x ≡ true → P x) → All P xs
unfolding contains
All-contains P [] f = tt
All-contains P (x ∷ xs) f =
    let own = (same_iff x x).1 refl in
    (f x (ground (arith, own)), All-contains P xs (λ y c. f y (ground (arith, c))))

pub lookup-All :
    {V : Type 0} (P : Str → V → Type 0) (d : Dict V) (id : Str) (v : V)
    → All (λ (k, x). P k x) d
    → lookup id d ≡ some v
    → P id v
unfolding lookup
lookup-All P [] id v a h = absurd (cc h)
lookup-All P ((k, x) ∷ d) id v a h = elim (Bool-cases (same k id)) [
  | inl p ↦
      let x_is_v : x ≡ v = ground (arith, p, h) in
      subst (λ y. P id y) x_is_v (subst (λ y. P y x) ((same_iff k id).0 p) a.0)
  | inr p ↦ let later : lookup id d ≡ some v = ground (arith, p, h) in lookup-All P d id v a.1 later
]

-- exactly the stored edges with this end at the node, of an allowed kind
abbrev pub Finds :
    (KnowledgeEdge → Str)
    → KnowledgeGraph
    → Str
    → (EdgeKind → Bool)
    → Option (List KnowledgeEdge)
    → Type 0
Finds end g n allowed outcome =
    (es : List KnowledgeEdge) × (outcome ≡ some es)
    × ((e : KnowledgeEdge)
        → In e es ↔ ((lookup e.edge_id g.edges ≡ some e) × (end e ≡ n) × (allowed e.kind ≡ true)))

found :
    (end : KnowledgeEdge → Str) (g : KnowledgeGraph) (index : Index) (n : Str)
    (allowed : EdgeKind → Bool)
    → IsExact end g.edges index
    → All (λ (id, e). IsChecked g id e) g.edges
    → Finds end g n allowed (edges_of g.edges allowed (at index n))
found end g index n allowed x checked =
    let stored =
      All-contains (λ id. is_stored g.edges allowed id ≡ true) (at index n)
        (λ id c. stored_ends g.edges allowed end id n (sym (x.exact id n) ∙ c)) in
    let (es, q, listed) = gathered g.edges allowed (at index n) stored in
    (
      es,
      q,
      λ e. (
        λ m.
            let (id, c, s, a) = (listed e).0 m in
            let keyed = (lookup-All (IsChecked g) g.edges id e checked s).keyed in
            let here = sym (ends-some end g.edges id e n s) ∙ (sym (x.exact id n) ∙ c) in
            (ap (λ k. lookup k g.edges) keyed ∙ s, (same_iff (end e) n).0 here, a),
        λ (s, at_n, a).
            let here = ends-some end g.edges e.edge_id e n s ∙ (same_iff (end e) n).1 at_n in
            (listed e).1 (e.edge_id, x.exact e.edge_id n ∙ here, s, a),
      ),
    )

-- In a well-formed graph neither query fails. `outgoing` gives exactly the stored edges from the
-- node of an allowed kind, `incoming` those into it.
pub outgoing-Finds :
    (g : KnowledgeGraph) (n : Str) (allowed : EdgeKind → Bool)
    → IsWell g
    → Finds (λ e. e.source) g n allowed (outgoing g n allowed)
      × Finds (λ e. e.target) g n allowed (incoming g n allowed)
unfolding outgoing incoming
outgoing-Finds g n allowed w = (
  found (λ e. e.source) g g.out_ids n allowed w.out_exact w.checked,
  found (λ e. e.target) g g.in_ids n allowed w.in_exact w.checked,
)

pub has_node-lookup :
    (g : KnowledgeGraph) (n : Str)
    → has_node g n ≡ true
    → (node : KnowledgeNode) × (lookup n g.nodes ≡ some node)
unfolding has_node
has_node-lookup g n h = elim (Option-cases (lookup n g.nodes)) [
  | inl e ↦ absurd (ground (arith, e, h))
  | inr found_node ↦ found_node
]

pub lookup-has_node :
    (g : KnowledgeGraph) (n : Str) (node : KnowledgeNode)
    → lookup n g.nodes ≡ some node
    → has_node g n ≡ true
unfolding has_node
lookup-has_node g n node h = ground (arith, h)

-- the ends of a stored edge
pub stored_nodes :
    (g : KnowledgeGraph) (e : KnowledgeEdge)
    → IsWell g
    → lookup e.edge_id g.edges ≡ some e
    → (has_node g e.source ≡ true) × (has_node g e.target ≡ true)
stored_nodes g e w h =
    let c = lookup-All (IsChecked g) g.edges e.edge_id e w.checked h in (c.from_node, c.to_node)
