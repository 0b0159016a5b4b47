-- ===== src/Knowledge/Graph.antt =====
-- The operations of KnowledgeGraph: nodes, edges and the queries at a node.
use minecraft_ai.Prelude.{
  Bool, true, false, List, [], ◌∷◌, ◌++◌, Option, none, some, ◌||◌, not, if◌then◌else◌, Str, same,
  codes, Dict, lookup, insert, values,
}
use minecraft_ai.Knowledge.{
  GameVersion, key, EdgeKind, requires, alternative_requires, produces, drops, crafts, cooks,
  smiths, brews, trades, barters, requires_tool, requires_dimension, requires_structure,
  advancement_requires, achievement_requires, KnowledgeNode, KnowledgeEdge,
}
use minecraft_ai.Knowledge.Index.{Index, at, append, remove}

pub record KnowledgeGraph : Type 0 where
  pub version : GameVersion
  pub nodes : Dict KnowledgeNode
  pub edges : Dict KnowledgeEdge
  pub out_ids : Index
  pub in_ids : Index

unfoldable pub new_graph : GameVersion → KnowledgeGraph
new_graph version = record { version = version; nodes = []; edges = []; out_ids = []; in_ids = [] }

unfoldable pub add_node : KnowledgeNode → KnowledgeGraph → KnowledgeGraph
unfolding insert
add_node node g = record g { nodes = insert node.node_id node g.nodes }

unfoldable pub has_node : KnowledgeGraph → Str → Bool
unfolding lookup
has_node g n = elim (lookup n g.nodes) [ none ↦ false | some _ ↦ true ]

-- `add_edge` raises ValueError for another version and KeyError for a missing end; `list.remove`
-- raises ValueError for an id that is not there
pub data GraphError : Type 0 where
  version_mismatch missing_endpoint absent_id : GraphError

pub data Added : Type 0 where
  refused : GraphError → Added
  added : KnowledgeGraph → Added

-- both indices without the edge that had the id
unfoldable pub unindexed : Option KnowledgeEdge → Str → KnowledgeGraph → Option (Index × Index)
unfolding remove
unindexed none id g = some (g.out_ids, g.in_ids)
unindexed (some previous) id g = elim (remove previous.source id g.out_ids) [
  | none ↦ none
  | some out_ids ↦ elim (remove previous.target id g.in_ids) [
    | none ↦ none
    | some in_ids ↦ some (out_ids, in_ids)
  ]
]

unfoldable pub indexed : KnowledgeEdge → KnowledgeGraph → Added
unfolding lookup unindexed insert append
indexed edge g = elim (unindexed (lookup edge.edge_id g.edges) edge.edge_id g) [
  | none ↦ refused absent_id
  | some (out_ids, in_ids) ↦ added (record g {
    edges = insert edge.edge_id edge g.edges;
    out_ids = append edge.source edge.edge_id out_ids;
    in_ids = append edge.target edge.edge_id in_ids;
  })
]

unfoldable pub add_edge : KnowledgeEdge → KnowledgeGraph → Added
unfolding same key has_node indexed
add_edge edge g =
    let result = indexed edge g in
    if not (same edge.provenance.version_key (key g.version))
    then refused version_mismatch
    else (if not (has_node g edge.source) || not (has_node g edge.target)
        then refused missing_endpoint
        else result)

-- `[self.edges[id] for id in ids if …]`, none for a KeyError
unfoldable pub edges_of :
    Dict KnowledgeEdge → (EdgeKind → Bool) → List Str → Option (List KnowledgeEdge)
unfolding lookup
edges_of edges allowed [] = some []
edges_of edges allowed (id ∷ ids) = elim (lookup id edges) [
  | none ↦ none
  | some e ↦ elim (edges_of edges allowed ids) [
    | none ↦ none
    | some rest ↦ if allowed e.kind then some (e ∷ rest) else some rest
  ]
]

unfoldable pub outgoing : KnowledgeGraph → Str → (EdgeKind → Bool) → Option (List KnowledgeEdge)
unfolding edges_of at
outgoing g n allowed = edges_of g.edges allowed (at g.out_ids n)

unfoldable pub incoming : KnowledgeGraph → Str → (EdgeKind → Bool) → Option (List KnowledgeEdge)
unfolding edges_of at
incoming g n allowed = edges_of g.edges allowed (at g.in_ids n)

unfoldable pub is_requirement : EdgeKind → Bool
is_requirement requires = true
is_requirement alternative_requires = true
is_requirement requires_tool = true
is_requirement requires_dimension = true
is_requirement requires_structure = true
is_requirement advancement_requires = true
is_requirement achievement_requires = true
is_requirement _ = false

unfoldable pub is_way : EdgeKind → Bool
is_way produces = true
is_way drops = true
is_way crafts = true
is_way cooks = true
is_way smiths = true
is_way brews = true
is_way trades = true
is_way barters = true
is_way _ = false

unfoldable pub requirements : KnowledgeGraph → Str → Option (List KnowledgeEdge)
unfolding outgoing is_requirement
requirements g n = outgoing g n is_requirement

unfoldable pub ways_to_obtain : KnowledgeGraph → Str → Option (List KnowledgeEdge)
unfolding incoming is_way
ways_to_obtain g n = incoming g n is_way

unfoldable pub edge_errors : KnowledgeGraph → KnowledgeEdge → List Str
unfolding has_node same key
edge_errors g e =
    (if has_node g e.source
      then []
      else (codes "missing source " ++ e.source ++ codes " for " ++ e.edge_id) ∷ [])
    ++ (if has_node g e.target
        then []
        else (codes "missing target " ++ e.target ++ codes " for " ++ e.edge_id) ∷ [])
    ++ (if same e.provenance.version_key (key g.version)
        then []
        else (codes "version mismatch on " ++ e.edge_id) ∷ [])

unfoldable pub all_errors : KnowledgeGraph → List KnowledgeEdge → List Str
unfolding edge_errors
all_errors g [] = []
all_errors g (e ∷ es) = edge_errors g e ++ all_errors g es

unfoldable pub validate : KnowledgeGraph → List Str
unfolding all_errors values
validate g = all_errors g (values g.edges)
