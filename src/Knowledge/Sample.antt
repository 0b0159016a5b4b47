-- ===== src/Knowledge/Sample.antt =====
-- A small graph for the tests: sticks from planks, and planks from a tag of two kinds of logs.
use minecraft_ai.Prelude.{List, [], ◌∷◌, none, ◌≡◌, refl, ◌⊎◌, inl, inr, Str, codes}
use mathlib.Core.Path.{subst}
use minecraft_ai.Prelude.{sym}
use minecraft_ai.Knowledge.{
  GameVersion, bedrock, NodeKind, item, process, tag, EdgeKind, requires, produces, member_of,
  KnowledgeNode, KnowledgeEdge,
}
use minecraft_ai.Knowledge.Graph.{
  KnowledgeGraph, new_graph, add_node, GraphError, Added, refused, added, add_edge,
}
use minecraft_ai.Knowledge.Added.{Built, start, node, edge}

abbrev pub version_1 : GameVersion
version_1 = record { edition = bedrock; version_id = codes "1" }

abbrev pub node_of : Str → NodeKind → KnowledgeNode
node_of id kind = record { node_id = id; kind = kind; name = id; namespace = codes "minecraft" }

abbrev pub edge_of : Str → Str → Str → EdgeKind → KnowledgeEdge
edge_of id source target kind = record {
  edge_id = id;
  source = source;
  target = target;
  kind = kind;
  quantity = 1;
  alternative_group = none;
  conditions = [];
  provenance = record { source_id = codes "s"; version_key = codes "bedrock:1"; confidence = 1 };
}

abbrev pub graph_or : KnowledgeGraph → Added → KnowledgeGraph
graph_or g (refused e) = g
graph_or g (added g') = g'

abbrev pub add_nodes : List KnowledgeNode → KnowledgeGraph → KnowledgeGraph
add_nodes [] g = g
add_nodes (n ∷ ns) g = add_nodes ns (add_node n g)

-- an edge that is refused is passed over
abbrev pub add_edges : List KnowledgeEdge → KnowledgeGraph → KnowledgeGraph
add_edges [] g = g
add_edges (e ∷ es) g = add_edges es (graph_or g (add_edge e g))

add_nodes-Built : (ns : List KnowledgeNode) (g : KnowledgeGraph) → Built g → Built (add_nodes ns g)
add_nodes-Built [] g b = b
add_nodes-Built (n ∷ ns) g b = add_nodes-Built ns (add_node n g) (node n b)

Added-cases :
    (a : Added) → ((e : GraphError) × (a ≡ refused e)) ⊎ ((g : KnowledgeGraph) × (a ≡ added g))
Added-cases (refused e) = inl (e, refl)
Added-cases (added g) = inr (g, refl)

graph_or-Built :
    (e : KnowledgeEdge) (g : KnowledgeGraph) → Built g → Built (graph_or g (add_edge e g))
graph_or-Built e g b = elim (Added-cases (add_edge e g)) [
  | inl (_, h) ↦ subst (λ a. Built (graph_or g a)) (sym h) b
  | inr (_, h) ↦ subst (λ a. Built (graph_or g a)) (sym h) (edge e b h)
]

add_edges-Built : (es : List KnowledgeEdge) (g : KnowledgeGraph) → Built g → Built (add_edges es g)
add_edges-Built [] g b = b
add_edges-Built (e ∷ es) g b = add_edges-Built es (graph_or g (add_edge e g)) (graph_or-Built e g b)

abbrev sample_nodes : List KnowledgeNode
sample_nodes =
    node_of (codes "sticks") item
    ∷ node_of (codes "craft") process
    ∷ node_of (codes "planks") item
    ∷ node_of (codes "saw") process
    ∷ node_of (codes "logs") tag
    ∷ node_of (codes "oak") item
    ∷ node_of (codes "birch") item
    ∷ []

abbrev sample_edges : List KnowledgeEdge
sample_edges =
    edge_of (codes "a") (codes "craft") (codes "planks") requires
    ∷ edge_of (codes "b") (codes "craft") (codes "sticks") produces
    ∷ edge_of (codes "c") (codes "saw") (codes "logs") requires
    ∷ edge_of (codes "d") (codes "saw") (codes "planks") produces
    ∷ edge_of (codes "e") (codes "oak") (codes "logs") member_of
    ∷ edge_of (codes "f") (codes "birch") (codes "logs") member_of
    ∷ []

abbrev pub sample : KnowledgeGraph
sample = add_edges sample_edges (add_nodes sample_nodes (new_graph version_1))

pub sample-Built : Built sample
sample-Built =
    add_edges-Built sample_edges (add_nodes sample_nodes (new_graph version_1))
      (add_nodes-Built sample_nodes (new_graph version_1) (start version_1))
