-- ===== src/Knowledge/Added.antt =====
-- Nodes and edges keep a graph well-formed: both indices are exact, and every edge is checked.
use minecraft_ai.Prelude.{
  true, false, [], ◌∷◌, Option, some, ◌≡◌, refl, ◌∙◌, inl, inr, ◌&&◌, if◌then◌else◌, Str, same,
  same_iff, Dict, lookup, insert, lookup-insert, values, All, All-map, Bool-cases, Option-cases,
  arith,
}
use mathlib.Core.Path.{subst}
use minecraft_ai.Knowledge.{GameVersion, key, KnowledgeNode, KnowledgeEdge}
use minecraft_ai.Knowledge.Index.{
  Index, append, IsExact, IsFree, IsFree-none, remove-IsFree, append-IsExact, empty-IsExact,
}
use minecraft_ai.Knowledge.Graph.{
  KnowledgeGraph, new_graph, add_node, has_node, version_mismatch, missing_endpoint, absent_id,
  Added, refused, added, unindexed, indexed, add_edge, edge_errors, all_errors, validate,
}

-- an edge under its id, between nodes of the graph and of its version
pub record IsChecked (g : KnowledgeGraph) (id : Str) (e : KnowledgeEdge) : Type 0 where
  pub keyed : e.edge_id ≡ id
  pub from_node : has_node g e.source ≡ true
  pub to_node : has_node g e.target ≡ true
  pub versioned : same e.provenance.version_key (key g.version) ≡ true

pub record IsWell (g : KnowledgeGraph) : Type 0 where
  pub out_exact : IsExact (λ e. e.source) g.edges g.out_ids
  pub in_exact : IsExact (λ e. e.target) g.edges g.in_ids
  pub checked : All (λ (id, e). IsChecked g id e) g.edges
  pub nodes_keyed : All (λ (id, n). n.node_id ≡ id) g.nodes

All-insert :
    {V : Type 0} (P : Str → V → Type 0) (k : Str) (v : V) (d : Dict V)
    → All (λ (id, x). P id x) d
    → P k v
    → All (λ (id, x). P id x) (insert k v d)
unfolding insert
All-insert P k v [] a p = (p, tt)
All-insert P k v ((j, w) ∷ d) a p = elim (Bool-cases (same j k)) [
  | inl q ↦ let here : P j v = rw ((same_iff j k).0 q) p in rw q (here, a.1)
  | inr q ↦ rw q (a.0, All-insert P k v d a.1 p)
]

has_node-add_node :
    (node : KnowledgeNode) (g : KnowledgeGraph) (n : Str)
    → has_node g n ≡ true
    → has_node (add_node node g) n ≡ true
unfolding has_node add_node
has_node-add_node node g n h = ground (arith, h, lookup-insert node.node_id n node g.nodes)

IsChecked-add_node :
    (node : KnowledgeNode) (g : KnowledgeGraph) (id : Str) (e : KnowledgeEdge)
    → IsChecked g id e
    → IsChecked (add_node node g) id e
unfolding add_node
IsChecked-add_node node g id e c = record {
  keyed = c.keyed;
  from_node = has_node-add_node node g e.source c.from_node;
  to_node = has_node-add_node node g e.target c.to_node;
  versioned = c.versioned;
}

new_graph-IsWell : (version : GameVersion) → IsWell (new_graph version)
unfolding new_graph
new_graph-IsWell version = record {
  out_exact = empty-IsExact (λ e. e.source);
  in_exact = empty-IsExact (λ e. e.target);
  checked = tt;
  nodes_keyed = tt;
}

add_node-IsWell : (node : KnowledgeNode) (g : KnowledgeGraph) → IsWell g → IsWell (add_node node g)
unfolding add_node
add_node-IsWell node g w = record {
  out_exact = w.out_exact;
  in_exact = w.in_exact;
  checked = All-map (λ (id, e) c. IsChecked-add_node node g id e c) g.edges w.checked;
  nodes_keyed =
      All-insert (λ id (n : KnowledgeNode). n.node_id ≡ id) node.node_id node g.nodes w.nodes_keyed
        refl;
}

-- the old edge can be taken out of both indices
unindexed-IsFree :
    (g : KnowledgeGraph) (id : Str)
    → IsWell g
    → (out_ids : Index) × (in_ids : Index) × (unindexed (lookup id g.edges) id g
        ≡ some (out_ids, in_ids))
      × IsFree (λ e. e.source) id g.edges out_ids
      × IsFree (λ e. e.target) id g.edges in_ids
unfolding unindexed
unindexed-IsFree g id w = elim (Option-cases (lookup id g.edges)) [
  | inl h ↦ (
    g.out_ids,
    g.in_ids,
    rw h refl,
    IsFree-none (λ e. e.source) g.edges g.out_ids id w.out_exact h,
    IsFree-none (λ e. e.target) g.edges g.in_ids id w.in_exact h,
  )
  | inr (old, h) ↦
      let (out_ids, e, f) = remove-IsFree (λ e. e.source) g.edges g.out_ids id old w.out_exact h in
      let (in_ids, e', f') = remove-IsFree (λ e. e.target) g.edges g.in_ids id old w.in_exact h in
      (out_ids, in_ids, ground (arith, h, e, e'), f, f')
]

-- the graph after an edge, with these indices before it
abbrev extended : KnowledgeEdge → Index → Index → KnowledgeGraph → KnowledgeGraph
extended edge out_ids in_ids g = record g {
  edges = insert edge.edge_id edge g.edges;
  out_ids = append edge.source edge.edge_id out_ids;
  in_ids = append edge.target edge.edge_id in_ids;
}

indexed_lem :
    (edge : KnowledgeEdge) (g : KnowledgeGraph) (out_ids in_ids : Index)
    → unindexed (lookup edge.edge_id g.edges) edge.edge_id g ≡ some (out_ids, in_ids)
    → indexed edge g ≡ added (extended edge out_ids in_ids g)
unfolding indexed
indexed_lem edge g out_ids in_ids h = ground (arith, h)

-- what an outcome says of the edge and the graph
abbrev pub Settled : KnowledgeEdge → KnowledgeGraph → Added → Type 0
Settled edge g (refused version_mismatch) = same edge.provenance.version_key (key g.version) ≡ false
Settled edge g (refused missing_endpoint) =
    (has_node g edge.source && has_node g edge.target) ≡ false
Settled edge g (refused absent_id) = ⊥
Settled edge g (added g') = IsWell g' × (lookup edge.edge_id g'.edges ≡ some edge)

if_same :
    (id : Str) (e : KnowledgeEdge) (o : Option KnowledgeEdge)
    → (if same id id then some e else o) ≡ some e
if_same id e o = rw ((same_iff id id).1 refl) refl

-- the check reads the nodes and the version only
IsChecked-extended :
    (g g' : KnowledgeGraph) (id : Str) (e : KnowledgeEdge)
    → g.nodes ≡ g'.nodes
    → g.version ≡ g'.version
    → IsChecked g id e
    → IsChecked g' id e
unfolding has_node
IsChecked-extended g g' id e n v c = record {
  keyed = c.keyed;
  from_node = rw (← n) c.from_node;
  to_node = rw (← n) c.to_node;
  versioned = rw (← v) c.versioned;
}

indexed-IsWell :
    (edge : KnowledgeEdge) (g : KnowledgeGraph)
    → IsWell g
    → same edge.provenance.version_key (key g.version) ≡ true
    → has_node g edge.source ≡ true
    → has_node g edge.target ≡ true
    → (g' : KnowledgeGraph) × (indexed edge g ≡ added g')
      × IsWell g'
      × (lookup edge.edge_id g'.edges ≡ some edge)
indexed-IsWell edge g w v from_node to_node =
    let id = edge.edge_id in
    let (out_ids, in_ids, e, f, f') = unindexed-IsFree g id w in
    let g' = extended edge out_ids in_ids g in
    let own : IsChecked g id edge = record {
      keyed = refl;
      from_node = from_node;
      to_node = to_node;
      versioned = v;
    } in
    (
      g',
      indexed_lem edge g out_ids in_ids e,
      record {
        out_exact = append-IsExact (λ x. x.source) g.edges out_ids id edge f;
        in_exact = append-IsExact (λ x. x.target) g.edges in_ids id edge f';
        checked =
            All-map (λ (k, x) c. IsChecked-extended g g' k x refl refl c) g'.edges
              (All-insert (IsChecked g) id edge g.edges w.checked own);
        nodes_keyed = w.nodes_keyed;
      },
      lookup-insert id id edge g.edges ∙ if_same id edge (lookup id g.edges),
    )

-- An edge of another version, or without one of its ends in the graph, is refused for that reason.
-- Every other edge is stored under its id, in place of an earlier one, and the graph stays
-- well-formed; removing the earlier one from the indices never fails.
pub add_edge-Settled :
    (edge : KnowledgeEdge) (g : KnowledgeGraph) → IsWell g → Settled edge g (add_edge edge g)
unfolding add_edge
add_edge-Settled edge g w = elim (Bool-cases (same edge.provenance.version_key (key g.version))) [
  | inr v ↦ rw v v
  | inl v ↦ elim (Bool-cases (has_node g edge.source)) [
    | inr s ↦ rw v (rw s (ground (arith, s)))
    | inl s ↦ elim (Bool-cases (has_node g edge.target)) [
      | inr t ↦ rw v (rw s (rw t (ground (arith, s, t))))
      | inl t ↦
          let (g', e, w', stored) = indexed-IsWell edge g w v s t in
          rw v (rw s (rw t (rw e (w', stored))))
    ]
  ]
]

-- the graphs that nodes and edges build
pub data Built : KnowledgeGraph → Type 0 where
  start : (version : GameVersion) → Built (new_graph version)
  node : {g : KnowledgeGraph} (n : KnowledgeNode) → Built g → Built (add_node n g)
  edge : {g g' : KnowledgeGraph} (e : KnowledgeEdge) → Built g → add_edge e g ≡ added g' → Built g'

pub Built-IsWell : (g : KnowledgeGraph) → Built g → IsWell g
Built-IsWell _ (start version) = new_graph-IsWell version
Built-IsWell _ (node {g} n b) = add_node-IsWell n g (Built-IsWell g b)
Built-IsWell g' (edge {g} e b h) =
    (subst (Settled e g) h (add_edge-Settled e g (Built-IsWell g b))).0

edge_errors-IsChecked :
    (g : KnowledgeGraph) (id : Str) (e : KnowledgeEdge) → IsChecked g id e → edge_errors g e ≡ []
unfolding edge_errors
edge_errors-IsChecked g id e c = rw c.from_node (rw c.to_node (rw c.versioned refl))

all_errors-IsChecked :
    (g : KnowledgeGraph) (d : Dict KnowledgeEdge)
    → All (λ (id, e). IsChecked g id e) d
    → all_errors g (values d) ≡ []
unfolding all_errors values
all_errors-IsChecked g [] a = refl
all_errors-IsChecked g ((id, e) ∷ d) a =
    rw (edge_errors-IsChecked g id e a.0) (all_errors-IsChecked g d a.1)

-- `validate` finds no error in a graph that nodes and edges built.
pub validate-Built : (g : KnowledgeGraph) → Built g → validate g ≡ []
unfolding validate
validate-Built g b = all_errors-IsChecked g g.edges (Built-IsWell g b).checked
