-- ===== src/Spatial/Route.antt =====
-- TopologicalWaypointGraph of memory/spatial.py, for graphs and sums in which distances and costs are
-- numbers that are not negative: the class does not check its floats, and with a NaN or a negative
-- one the search may go on for ever. `heapq` is kept as the list of its entries in their order, from which the least is popped.
pub mod Sound
pub mod Relaxed
pub mod Complete
pub mod Ends
use minecraft_ai.Prelude.{
  ℕ, zero, suc, ◌+◌, Bool, true, false, List, [], ◌∷◌, ◌++◌, map, Option, none, some, leb, ltb,
  if◌then◌else◌, Str, same, Dict, lookup, insert, place,
}
use minecraft_ai.Spatial.Places.{
  SpatialFloats, SpatialPlaceMemory, metric_xyz, distance_to, get_place,
}

-- an edge whose distance and safety are numbers that are not negative; the metadata is left out
pub record WaypointEdge : Type 0 where
  pub source_id : Str
  pub target_id : Str
  pub distance : ℕ
  pub safety : ℕ
  pub traversable : Bool

pub record TopologicalWaypointGraph : Type 0 where
  pub edges : Dict (List WaypointEdge)

-- `self.edges.get(id, [])`
unfoldable pub edges_from : Dict (List WaypointEdge) → Str → List WaypointEdge
unfolding lookup
edges_from edges id = elim (lookup id edges) [ none ↦ [] | some es ↦ es ]

-- one direction of `add_edge`
unfoldable pub append_edge : WaypointEdge → TopologicalWaypointGraph → TopologicalWaypointGraph
unfolding edges_from insert
append_edge e g = record g {
  edges = insert e.source_id (edges_from g.edges e.source_id ++ e ∷ []) g.edges;
}

unfoldable pub add_edge :
    (source target : Str) (distance safety : ℕ) (bidirectional : Bool)
    → TopologicalWaypointGraph
    → TopologicalWaypointGraph
unfolding append_edge
add_edge source target d s bidirectional g =
    let there : WaypointEdge = record {
      source_id = source;
      target_id = target;
      distance = d;
      safety = s;
      traversable = true;
    } in
    let back : WaypointEdge = record {
      source_id = target;
      target_id = source;
      distance = d;
      safety = s;
      traversable = true;
    } in
    let g' = append_edge there g in if bidirectional then append_edge back g' else g'

-- an entry of the heap: its estimate, its cost, its place and the path there
pub record Entry : Type 0 where
  pub estimate : ℕ
  pub cost : ℕ
  pub place_id : Str
  pub path : List Str

-- A text with an end mark below all its characters; the order of tuples is the order of such lists.
abbrev pub marked : Str → Str
marked s = map suc s ++ 0 ∷ []

abbrev pub marked_all : List Str → Str
marked_all [] = []
marked_all (s ∷ ss) = marked s ++ marked_all ss

abbrev pub entry_key : Entry → Str
entry_key e = e.estimate ∷ e.cost ∷ marked e.place_id ++ marked_all e.path

pub record Frontier : Type 0 where
  pub open_set : List Entry
  pub best_cost : Dict ℕ

-- the sums of the search
pub record RouteFloats : Type 0 where
  -- `cost_so_far + edge.distance / max(0.1, edge.safety)`
  pub edge_cost : ℕ → WaypointEdge → ℕ
  -- `next_cost + heuristic(…)`
  pub plus : ℕ → ℕ → ℕ

module _ (fl : SpatialFloats) (sums : RouteFloats) where
  -- the straight distance to the goal, or 0 where either is not known
  unfoldable pub heuristic : SpatialPlaceMemory fl → Str → Str → ℕ
  unfolding get_place metric_xyz distance_to
  heuristic memory goal_id place_id = elim (get_place fl place_id memory) [
    | none ↦ 0
    | some p ↦ elim (get_place fl goal_id memory) [
      | none ↦ 0
      | some goal_place ↦ elim (metric_xyz fl goal_place) [
        | none ↦ 0
        | some at ↦ elim (distance_to fl p at) [ none ↦ 0 | some d ↦ d ]
      ]
    ]
  ]

  -- `best_cost.get(id, float("inf"))`
  unfoldable pub cost_of : Dict ℕ → Str → ℕ
  unfolding lookup
  cost_of best id = elim (lookup id best) [ none ↦ fl.infinity | some c ↦ c ]

  module _ (h : Str → ℕ) where
    -- the entry that a better way to the edge's target makes
    abbrev pub reached : ℕ → List Str → WaypointEdge → Entry
    reached cost_so_far way e = record {
      estimate = sums.plus (sums.edge_cost cost_so_far e) (h e.target_id);
      cost = sums.edge_cost cost_so_far e;
      place_id = e.target_id;
      path = way ++ e.target_id ∷ [];
    }

    abbrev pub push : Entry → Frontier → Frontier
    push n s = record {
      open_set = place entry_key n s.open_set;
      best_cost = insert n.place_id n.cost s.best_cost;
    }

    -- one edge out of the current place
    unfoldable pub relax : ℕ → List Str → WaypointEdge → Frontier → Frontier
    unfolding cost_of place insert
    relax cost_so_far way e s =
        let n = reached cost_so_far way e in
        if e.traversable
        then (if leb (cost_of s.best_cost n.place_id) n.cost then s else push n s)
        else s

    unfoldable pub relax_all : ℕ → List Str → List WaypointEdge → Frontier → Frontier
    unfolding relax
    relax_all cost_so_far way [] s = s
    relax_all cost_so_far way (e ∷ es) s = relax_all cost_so_far way es (relax cost_so_far way e s)

    -- the `while` loop; none where the fuel is out
    unfoldable pub search_from :
        Dict (List WaypointEdge) → Str → ℕ → (open_set : List Entry) → Dict ℕ → Option (List Str)
    unfolding cost_of relax_all edges_from same
    search_from edges goal_id zero entries best = none
    search_from edges goal_id (suc fuel) [] best = some []
    search_from edges goal_id (suc fuel) (n ∷ entries) best =
        let s : Frontier = record { open_set = entries; best_cost = best } in
        let next = relax_all n.cost n.path (edges_from edges n.place_id) s in
        elim (ltb (cost_of best n.place_id) n.cost) [
          | true ↦ search_from edges goal_id fuel entries best
          | false ↦ elim (same n.place_id goal_id) [
            | true ↦ some n.path
            | false ↦ search_from edges goal_id fuel next.open_set next.best_cost
          ]
        ]

  -- the entry that the search starts with
  abbrev pub first_entry : (Str → ℕ) → Str → Entry
  first_entry h start_id = record {
    estimate = h start_id;
    cost = 0;
    place_id = start_id;
    path = start_id ∷ [];
  }

  unfoldable pub find_path :
      ℕ → Str → Str → SpatialPlaceMemory fl → TopologicalWaypointGraph → Option (List Str)
  unfolding heuristic search_from same lookup
  find_path fuel start_id goal_id memory g =
      let h = heuristic memory goal_id in
      let found =
        search_from h g.edges goal_id fuel (first_entry h start_id ∷ []) ((start_id, 0) ∷ []) in
      if same start_id goal_id
      then some (start_id ∷ [])
      else elim (lookup start_id g.edges) [ none ↦ some [] | some _ ↦ found ]
