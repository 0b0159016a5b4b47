-- ===== src/Spatial/Route/Sound.antt =====
-- Every route that the search returns is a walk along traversable edges.
use minecraft_ai.Prelude.{
  ℕ, zero, suc, true, List, [], ◌∷◌, ◌++◌, ◌≡◌, refl, inl, inr, some, leb, ltb, Str, same, same_iff,
  Dict, lookup, All, All-map, sym, All-place, In, All-In, arith, Bool-cases, Option-cases,
}
use minecraft_ai.Spatial.Places.{SpatialFloats, SpatialPlaceMemory}
use minecraft_ai.Spatial.Route.{
  WaypointEdge, TopologicalWaypointGraph, edges_from, Entry, entry_key, Frontier, RouteFloats,
  heuristic, cost_of, reached, push, relax, relax_all, search_from, first_entry, find_path,
}

-- the walks from `start`, each with its path
pub data Walk (edges : Dict (List WaypointEdge)) (start : Str) : Str → List Str → Type 0 where
  stay : {v : Str} {p : List Str} → v ≡ start → p ≡ start ∷ [] → Walk edges start v p
  go :
      {u v : Str} {way p : List Str}
      → Walk edges start u way
      → (e : WaypointEdge) → In e (edges_from edges u)
      → e.traversable ≡ true
      → v ≡ e.target_id
      → p ≡ way ++ v ∷ []
      → Walk edges start v p

module _ (fl : SpatialFloats) (sums : RouteFloats) (h : Str → ℕ) where
  -- a property of the entries that relaxing keeps
  module _ (P : Entry → Type 0) where
    pub relax-All :
        (c : ℕ) (way : List Str) (e : WaypointEdge) (s : Frontier)
        → (e.traversable ≡ true → P (reached fl sums h c way e))
        → All P s.open_set
        → All P (relax fl sums h c way e s).open_set
    unfolding relax
    relax-All c way e s new m =
        let n = reached fl sums h c way e in
        let same_set = relax fl sums h c way e s ≡ s in
        elim (Bool-cases e.traversable) [
          | inr f ↦ let q : same_set = ground (arith, f) in rw q m
          | inl t ↦ elim (Bool-cases (leb (cost_of fl sums s.best_cost n.place_id) n.cost)) [
            | inl worse ↦ let q : same_set = ground (arith, t, worse) in rw q m
            | inr better ↦
                let q : relax fl sums h c way e s ≡ push fl sums h n s =
                  ground (arith, t, better) in
                rw q (All-place entry_key P n s.open_set (new t) m)
          ]
        ]

    pub relax_all-All :
        (c : ℕ) (way : List Str) (es : List WaypointEdge) (s : Frontier)
        → All (λ e. e.traversable ≡ true → P (reached fl sums h c way e)) es
        → All P s.open_set
        → All P (relax_all fl sums h c way es s).open_set
    unfolding relax_all
    relax_all-All c way [] s new m = m
    relax_all-All c way (e ∷ es) s new m =
        relax_all-All c way es (relax fl sums h c way e s) new.1 (relax-All c way e s new.0 m)

  module _ (edges : Dict (List WaypointEdge)) (start : Str) where
    abbrev Led : Entry → Type 0
    Led n = Walk edges start n.place_id n.path

    reached-Led :
        (n : Entry)
        → Led n
        → All
            (λ e. e.traversable ≡ true → Led (reached fl sums h n.cost n.path e))
            (edges_from edges n.place_id)
    reached-Led n w =
        All-map (λ e m. λ t. go w e m t refl refl) (edges_from edges n.place_id)
          (All-In (edges_from edges n.place_id))

    pub search_from-Walk :
        (goal : Str) (fuel : ℕ) (entries : List Entry) (best : Dict ℕ) (x : Str) (p : List Str)
        → All Led entries
        → search_from fl sums h edges goal fuel entries best ≡ some (x ∷ p)
        → Walk edges start goal (x ∷ p)
    unfolding search_from
    search_from-Walk goal zero entries best x p m r = cc
    search_from-Walk goal (suc fuel) [] best x p m r = cc
    search_from-Walk goal (suc fuel) (n ∷ entries) best x p m r =
        let s : Frontier = record { open_set = entries; best_cost = best } in
        let next = relax_all fl sums h n.cost n.path (edges_from edges n.place_id) s in
        elim (Bool-cases (ltb (cost_of fl sums best n.place_id) n.cost)) [
          | inl old ↦ search_from-Walk goal fuel entries best x p m.1 (ground (arith, old))
          | inr new ↦ elim (Bool-cases (same n.place_id goal)) [
            | inl at ↦
                let q : n.path ≡ x ∷ p = ground (arith, new, at) in
                let r : n.place_id ≡ goal = ground (arith, at, same_iff n.place_id goal) in
                rw (← q, ← r) m.0
            | inr away ↦
                search_from-Walk goal fuel next.open_set next.best_cost x p
                  (relax_all-All Led n.cost n.path (edges_from edges n.place_id) s
                    (reached-Led n m.0) m.1)
                  (ground (arith, new, away))
          ]
        ]

-- A path that `find_path` returns, if it is not empty, is a walk from the start to the goal.
pub find_path-Walk :
    (fl : SpatialFloats) (sums : RouteFloats) (fuel : ℕ) (start goal : Str)
    (memory : SpatialPlaceMemory fl) (g : TopologicalWaypointGraph) (x : Str) (p : List Str)
    → find_path fl sums fuel start goal memory g ≡ some (x ∷ p)
    → Walk g.edges start goal (x ∷ p)
unfolding find_path
find_path-Walk fl sums fuel start goal memory g x p r = elim (Bool-cases (same start goal)) [
  | inl at ↦
      let q : start ∷ [] ≡ x ∷ p = ground (arith, at) in
      let e : start ≡ goal = ground (arith, at, same_iff start goal) in rw (← q) (stay (sym e) refl)
  | inr away ↦ elim (Option-cases (lookup start g.edges)) [
    | inl gone ↦ absurd (ground (arith, away, gone))
    | inr (es, yes_es) ↦
        let h = heuristic fl sums memory goal in
        search_from-Walk fl sums h g.edges start goal fuel (first_entry fl sums h start ∷ [])
          ((start, 0) ∷ []) x p (stay refl refl, tt) (ground (arith, away, yes_es))
  ]
]
