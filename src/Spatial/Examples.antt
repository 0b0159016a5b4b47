-- ===== src/Spatial/Examples.antt =====
-- Places and routes on a small map, with whole numbers for floats.
use minecraft_ai.Prelude.{
  ℕ, ◌+◌, ◌-◌, ◌*◌, ◌/◌, ◌≤◌, Bool-cases, true, List, [], ◌∷◌, ◌≡◌, refl, inl, inr, none, some, ltb,
  if◌then◌else◌, Str, same, codes, str_leb, lookup, arith,
}
use minecraft_ai.Prelude.Int.{pos}
use minecraft_ai.Spatial.Places.{SpatialFloats, PlaceRecord, SpatialPlaceMemory, base, find_nearest}
use minecraft_ai.Spatial.Route.{
  WaypointEdge, TopologicalWaypointGraph, edges_from, RouteFloats, find_path,
}
use minecraft_ai.Spatial.Route.Sound.{Walk, stay, go, find_path-Walk}
use minecraft_ai.Spatial.Route.Ends.{find_path-returns}
use minecraft_ai.Spatial.Route.Complete.{IsClosed, find_path-finds}

abbrev apart : ℕ → ℕ → ℕ
apart a b = (a - b) + (b - a)

-- distances along the axes, and a bound of all costs
abbrev whole : SpatialFloats
whole = record {
  Float = ℕ;
  distance = λ (x, y, z) (x', y', z'). apart x x' + (apart y y' + apart z z');
  infinity = 100000;
}

-- rounding: from 1000 on a sum keeps its thousands only, as a double keeps its leading digits
abbrev rounded : ℕ → ℕ
rounded n = if ltb n 1000 then n else n / 1000 * 1000

abbrev sums : RouteFloats
sums = record { edge_cost = λ c e. rounded (c + e.distance); plus = λ a b. rounded (a + b) }

abbrev at_x : Str → ℕ → PlaceRecord whole
at_x id x = record {
  place_id = id;
  kind = base;
  pose_xyz = some (x, 64, 0);
  x = none;
  y = none;
  z = none;
  dimension = codes "overworld";
  last_visited_ns = pos 0;
  visit_count = 1;
  resource_types = [];
  importance = 0;
}

abbrev memory : SpatialPlaceMemory whole
memory = record {
  places =
      (codes "a", at_x (codes "a") 0)
      ∷ (codes "b", at_x (codes "b") 50)
      ∷ (codes "c", at_x (codes "c") 100)
      ∷ [];
}

nearest_b :
    find_nearest whole (60, 64, 0) none none (codes "overworld") none memory
    ≡ some (at_x (codes "b") 50)
unfolding find_nearest same
nearest_b = refl

abbrev edge : Str → Str → ℕ → WaypointEdge
edge source target d = record {
  source_id = source;
  target_id = target;
  distance = d;
  safety = 1;
  traversable = true;
}

-- a – b – c, and a slow direct edge from a to c
abbrev map_edges : TopologicalWaypointGraph
map_edges = record {
  edges =
      (codes "a", edge (codes "a") (codes "b") 50 ∷ edge (codes "a") (codes "c") 300 ∷ [])
      ∷ (codes "b", edge (codes "b") (codes "c") 50 ∷ [])
      ∷ [];
}

route_a_c :
    find_path whole sums 20 (codes "a") (codes "c") memory map_edges
    ≡ some (codes "a" ∷ codes "b" ∷ codes "c" ∷ [])
unfolding find_path same str_leb
route_a_c = refl

find_path-Walk_example :
    Walk map_edges.edges (codes "a") (codes "c") (codes "a" ∷ codes "b" ∷ codes "c" ∷ [])
find_path-Walk_example =
    find_path-Walk whole sums 20 (codes "a") (codes "c") memory map_edges (codes "a")
      (codes "b" ∷ codes "c" ∷ []) route_a_c

find_path-returns_example :
    (p : List Str) × (find_path whole sums 600002 (codes "a") (codes "c") memory map_edges ≡ some p)
find_path-returns_example =
    find_path-returns whole sums 600002 (codes "a") (codes "c") memory map_edges (omega arith)

-- a cost of 1000 absorbs the edges of the map
absorbed : (c d : ℕ) → d ≤ 300 → c ≤ 1000 → rounded (c + d) ≤ 1000
absorbed c d l h = ground (arith, l, h)

map_edges-IsClosed : IsClosed sums map_edges.edges 1000
unfolding edges_from lookup same
map_edges-IsClosed u = elim (Bool-cases (same (codes "a") u)) [
  | inl a ↦ rw a (λ c h. absorbed c 50 (omega arith) h, (λ c h. absorbed c 300 (omega arith) h, tt))
  | inr a ↦ elim (Bool-cases (same (codes "b") u)) [
    | inl b ↦ rw (a, b) (λ c h. absorbed c 50 (omega arith) h, tt)
    | inr b ↦ rw (a, b) tt
  ]
]

direct : Walk map_edges.edges (codes "a") (codes "c") (codes "a" ∷ codes "c" ∷ [])
unfolding edges_from lookup same
direct = go (stay refl refl) (edge (codes "a") (codes "c") 300) (inr (inl refl)) refl refl refl

find_path-finds_example :
    (x : Str) × (p : List Str) × (find_path whole sums 600002
        (codes "a")
        (codes "c")
        memory
        map_edges
      ≡ some (x ∷ p))
    × Walk map_edges.edges (codes "a") (codes "c") (x ∷ p)
find_path-finds_example =
    find_path-finds whole sums 1000 600002 (codes "a") (codes "c") memory map_edges
      (codes "a" ∷ codes "c" ∷ []) (omega arith) map_edges-IsClosed direct (omega arith)

-- A short edge between places that are remembered as far apart: the straight distance of b to the
-- goal is more than the way, and the costlier direct edge is taken.
abbrev portal : TopologicalWaypointGraph
portal = record {
  edges =
      (codes "a", edge (codes "a") (codes "b") 1 ∷ edge (codes "a") (codes "c") 10 ∷ [])
      ∷ (codes "b", edge (codes "b") (codes "c") 1 ∷ [])
      ∷ [];
}

portal_route :
    find_path whole sums 20 (codes "a") (codes "c") memory portal
    ≡ some (codes "a" ∷ codes "c" ∷ [])
unfolding find_path same str_leb
portal_route = refl
