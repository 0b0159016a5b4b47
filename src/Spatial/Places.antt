-- ===== src/Spatial/Places.antt =====
-- PlaceRecord and SpatialPlaceMemory of memory/spatial.py. A distance, a rating and a radius is a
-- float that is not negative, in units of 2 ^ -1074; coordinates and distances between them are
-- those of a parameter. The fields that nothing here reads are left out.
pub mod Nearest
use minecraft_ai.Prelude.{
  ℕ, suc, ◌+◌, Bool, true, false, List, [], ◌∷◌, Option, none, some, ◌&&◌, not, leb, ltb,
  if◌then◌else◌, Str, same, contains, Dict, lookup, insert, values, select, map, sort_by, ◌^◌, ◌-◌,
}
use minecraft_ai.Prelude.Int.{ℤ, leb_ℤ}

pub data PlaceKind : Type 0 where
  base shelter village ore_vein landmark portal chest farm mine : PlaceKind
  danger_zone death_spot crafting_site waypoint : PlaceKind

pub PlaceKind-discrete : Discrete PlaceKind
PlaceKind-discrete = hlevel

-- the float arithmetic of the module
pub record SpatialFloats : Type 1 where
  pub Float : Type 0
  -- `math.sqrt` of the sum of the squares of the differences
  pub distance : Float × Float × Float → Float × Float × Float → ℕ
  -- `float("inf")`
  pub infinity : ℕ

module _ (fl : SpatialFloats) where
  abbrev pub Xyz : Type 0
  Xyz = fl.Float × fl.Float × fl.Float

  pub record PlaceRecord : Type 0 where
    pub place_id : Str
    pub kind : PlaceKind
    -- `pose_belief.metric_xyz`
    pub pose_xyz : Option Xyz
    pub x : Option fl.Float
    pub y : Option fl.Float
    pub z : Option fl.Float
    pub dimension : Str
    pub last_visited_ns : ℤ
    pub visit_count : ℕ
    pub resource_types : List Str
    pub importance : ℕ

  pub record SpatialPlaceMemory : Type 0 where
    pub places : Dict PlaceRecord

  abbrev pub all_three : Option fl.Float → Option fl.Float → Option fl.Float → Option Xyz
  all_three (some x) (some y) (some z) = some (x, y, z)
  all_three _ _ _ = none

  unfoldable pub metric_xyz : PlaceRecord → Option Xyz
  metric_xyz p = elim p.pose_xyz [ some at ↦ some at | none ↦ all_three p.x p.y p.z ]

  unfoldable pub distance_to : PlaceRecord → Xyz → Option ℕ
  unfolding metric_xyz
  distance_to p target = elim (metric_xyz p) [
    | none ↦ none
    | some own ↦ some (fl.distance own target)
  ]

  -- an earlier record keeps its visits and its last one
  unfoldable pub upsert : PlaceRecord → SpatialPlaceMemory → PlaceRecord × SpatialPlaceMemory
  unfolding lookup insert
  upsert place memory = elim (lookup place.place_id memory.places) [
    | none ↦ (place, record memory { places = insert place.place_id place memory.places })
    | some existing ↦
        let visits =
          if ltb (existing.visit_count + 1) place.visit_count
          then place.visit_count
          else existing.visit_count + 1 in
        let visited =
          if leb_ℤ place.last_visited_ns existing.last_visited_ns
          then existing.last_visited_ns
          else place.last_visited_ns in
        let updated = record place { visit_count = visits; last_visited_ns = visited } in
        (updated, record memory { places = insert place.place_id updated memory.places })
  ]

  unfoldable pub get_place : Str → SpatialPlaceMemory → Option PlaceRecord
  unfolding lookup
  get_place place_id memory = lookup place_id memory.places

  -- `self.places.pop(place_id, None)`
  unfoldable pub drop_key : Str → Dict PlaceRecord → Dict PlaceRecord
  drop_key k [] = []
  drop_key k ((j, p) ∷ d) = let rest = drop_key k d in if same j k then rest else (j, p) ∷ rest

  unfoldable pub remove : Str → SpatialPlaceMemory → SpatialPlaceMemory
  unfolding drop_key
  remove place_id memory = record memory { places = drop_key place_id memory.places }

  abbrev pub is_kind : Option PlaceKind → PlaceKind → Bool
  is_kind none k = true
  is_kind (some wanted) k = elim (PlaceKind-discrete k wanted) [ yes _ ↦ true | no _ ↦ false ]

  abbrev pub has_resource : Option Str → PlaceRecord → Bool
  has_resource none p = true
  has_resource (some resource) p = contains p.resource_types resource

  abbrev pub within : Option ℕ → ℕ → Bool
  within none d = true
  within (some max_distance) d = leb d max_distance

  -- how far a place is that the search may return
  unfoldable pub candidate_distance :
      Xyz → Option PlaceKind → Option Str → Str → Option ℕ → PlaceRecord → Option ℕ
  unfolding distance_to same contains PlaceKind-discrete
  candidate_distance at kind resource dimension max_distance p =
      if not (same p.dimension dimension)
      then none
      else if not (is_kind kind p.kind)
      then none
      else if not (has_resource resource p)
      then none
      else elim (distance_to p at) [
        | none ↦ none
        | some d ↦ if within max_distance d then some d else none
      ]

  -- the loop, with the best record and distance so far
  unfoldable pub nearest_of :
      (PlaceRecord → Option ℕ) → Option PlaceRecord → ℕ → List PlaceRecord → Option PlaceRecord
  nearest_of measure best best_dist [] = best
  nearest_of measure best best_dist (p ∷ ps) = elim (measure p) [
    | none ↦ nearest_of measure best best_dist ps
    | some d ↦ elim (ltb d best_dist) [
      | true ↦ nearest_of measure (some p) d ps
      | false ↦ nearest_of measure best best_dist ps
    ]
  ]

  unfoldable pub find_nearest :
      Xyz → Option PlaceKind → Option Str → Str → Option ℕ → SpatialPlaceMemory → Option PlaceRecord
  unfolding nearest_of candidate_distance values
  find_nearest at kind resource dimension max_distance memory =
      nearest_of (candidate_distance at kind resource dimension max_distance) none fl.infinity
        (values memory.places)

  -- the places of a kind within the radius, with their distances
  unfoldable pub in_radius :
      Xyz → ℕ → Str → Option PlaceKind → List PlaceRecord → List (ℕ × PlaceRecord)
  unfolding candidate_distance
  in_radius at radius dimension kind [] = []
  in_radius at radius dimension kind (p ∷ ps) =
      let others = in_radius at radius dimension kind ps in
      elim (candidate_distance at kind none dimension (some radius) p) [
        | none ↦ others
        | some d ↦ (d, p) ∷ others
      ]

  unfoldable pub find_in_radius :
      Xyz → ℕ → Str → Option PlaceKind → SpatialPlaceMemory → List PlaceRecord
  unfolding in_radius values sort_by
  find_in_radius at radius dimension kind memory =
      map (λ (d, p). p)
        (sort_by (λ (d, p). d ∷ []) (in_radius at radius dimension kind (values memory.places)))

  -- The most important first: an importance is at most 1, which is 2 ^ 1074 units.
  unfoldable pub query_by_resource : Str → Str → SpatialPlaceMemory → List PlaceRecord
  unfolding values sort_by same contains
  query_by_resource resource dimension memory =
      sort_by (λ p. (2 ^ 1074 - p.importance) ∷ [])
        (select (λ p. same p.dimension dimension && contains p.resource_types resource)
          (values memory.places))
