-- ===== src/Spatial/Route/Ends.antt =====
-- The search ends: each entry that is pushed lowers a cost that is known.
use minecraft_ai.Prelude.{
  ℕ, zero, suc, ◌+◌, ◌*◌, ◌≤◌, ◌<◌, true, List, [], ◌∷◌, ◌++◌, map, ◌≡◌, refl, sym, ap, ◌⊎◌, inl,
  inr, some, leb, ltb, length, if◌then◌else◌, Str, same, same_iff, Dict, lookup, insert,
  lookup-insert, place, All, In, All-In, All-map, arith, Bool-cases, Option-cases,
}
use minecraft_ai.Spatial.Places.{SpatialFloats, SpatialPlaceMemory}
use minecraft_ai.Spatial.Route.{
  WaypointEdge, TopologicalWaypointGraph, edges_from, Entry, entry_key, Frontier, RouteFloats,
  heuristic, cost_of, reached, push, relax, relax_all, search_from, first_entry, find_path,
}

-- the places that the edges lead to
abbrev pub edge_targets : List WaypointEdge → List Str
edge_targets = map (λ e. e.target_id)

abbrev pub all_targets : Dict (List WaypointEdge) → List Str
all_targets [] = []
all_targets ((_, es) ∷ d) = edge_targets es ++ all_targets d

In-append : (a : Str) (xs ys : List Str) → In a xs ⊎ In a ys → In a (xs ++ ys)
In-append a [] ys (inl h) = absurd h
In-append a [] ys (inr h) = h
In-append a (x ∷ xs) ys (inl (inl p)) = inl p
In-append a (x ∷ xs) ys (inl (inr m)) = inr (In-append a xs ys (inl m))
In-append a (x ∷ xs) ys (inr h) = inr (In-append a xs ys (inr h))

In-edge_targets :
    (e : WaypointEdge) (es : List WaypointEdge) → In e es → In e.target_id (edge_targets es)
In-edge_targets e [] h = absurd h
In-edge_targets e (x ∷ es) (inl p) = inl (ap (λ (y : WaypointEdge). y.target_id) p)
In-edge_targets e (x ∷ es) (inr m) = inr (In-edge_targets e es m)

In-all_targets :
    (d : Dict (List WaypointEdge)) (u : Str) (e : WaypointEdge)
    → In e (edges_from d u)
    → In e.target_id (all_targets d)
unfolding edges_from lookup
In-all_targets [] u e h = absurd h
In-all_targets ((k, es) ∷ d) u e h = elim (Bool-cases (same k u)) [
  | inl at ↦
      let q : edges_from ((k, es) ∷ d) u ≡ es = ground (arith, at) in
      In-append e.target_id (edge_targets es) (all_targets d)
        (inl (In-edge_targets e es (rw q at h)))
  | inr away ↦
      let q : edges_from ((k, es) ∷ d) u ≡ edges_from d u = ground (arith, away) in
      In-append e.target_id (edge_targets es) (all_targets d)
        (inr (In-all_targets d u e (rw q at h)))
]

-- what holds of all items holds of each
at_In : (us : List Str) (a : Str) (xs : List Str) → All (λ v. In v us) xs → In a xs → In a us
at_In us a [] m h = absurd h
at_In us a (x ∷ xs) m (inl p) = rw (← p) m.0
at_In us a (x ∷ xs) m (inr k) = at_In us a xs m.1 k

length-place : (n : Entry) (xs : List Entry) → length (place entry_key n xs) ≡ suc (length xs)
unfolding place
length-place n [] = refl
length-place n (x ∷ xs) = ground (arith, length-place n xs)

module _ (fl : SpatialFloats) (sums : RouteFloats) where
  -- the sum of the known costs, where an unknown cost is infinite
  abbrev potential : Dict ℕ → List Str → ℕ
  potential best [] = 0
  potential best (u ∷ us) = cost_of fl sums best u + potential best us

  pub cost_of-insert :
      (best : Dict ℕ) (v u : Str) (c : ℕ)
      → cost_of fl sums (insert v c best) u ≡ (if same v u then c else cost_of fl sums best u)
  unfolding cost_of
  cost_of-insert best v u c = ground (arith, lookup-insert v u c best)

  potential-le :
      (best : Dict ℕ) (v : Str) (c : ℕ) (us : List Str)
      → c ≤ cost_of fl sums best v
      → potential (insert v c best) us ≤ potential best us
  potential-le best v c [] h = omega arith
  potential-le best v c (u ∷ us) h =
      ground (arith, cost_of-insert best v u c, same_iff v u, potential-le best v c us h)

  potential-lt :
      (best : Dict ℕ) (v : Str) (c : ℕ) (us : List Str)
      → In v us
      → c < cost_of fl sums best v
      → potential (insert v c best) us < potential best us
  potential-lt best v c [] m h = absurd m
  potential-lt best v c (u ∷ us) (inl p) h =
      let same_place : same v u ≡ true = (same_iff v u).1 (sym p) in
      ground (arith, cost_of-insert best v u c, p, same_place, potential-le best v c us)
  potential-lt best v c (u ∷ us) (inr m) h =
      ground (arith, cost_of-insert best v u c, same_iff v u, potential-lt best v c us m h)

  cost_of_first : (start u : Str) → cost_of fl sums ((start, 0) ∷ []) u ≤ fl.infinity
  unfolding cost_of lookup
  cost_of_first start u = ground arith

  potential_first :
      (start : Str) (us : List Str) → potential ((start, 0) ∷ []) us ≤ length us * fl.infinity
  potential_first start [] = omega arith
  potential_first start (u ∷ us) =
      let ih = potential_first start us in let one = cost_of_first start u in grind arith

  module _ (h : Str → ℕ) (us : List Str) where
    -- the rounds that are left at most
    abbrev work : List Entry → Dict ℕ → ℕ
    work entries best = 2 * potential best us + length entries

    relax-le :
        (c : ℕ) (way : List Str) (e : WaypointEdge) (s : Frontier)
        → In e.target_id us
        → work (relax fl sums h c way e s).open_set (relax fl sums h c way e s).best_cost
          ≤ work s.open_set s.best_cost
    unfolding relax
    relax-le c way e s m =
        let n = reached fl sums h c way e in
        elim (Bool-cases e.traversable) [
          | inr f ↦ ground (arith, f)
          | inl t ↦ elim (Bool-cases (leb (cost_of fl sums s.best_cost n.place_id) n.cost)) [
            | inl worse ↦ ground (arith, t, worse)
            | inr better ↦
                let q : relax fl sums h c way e s ≡ push fl sums h n s =
                  ground (arith, t, better) in
                let below : n.cost < cost_of fl sums s.best_cost n.place_id =
                  ground (arith, better) in
                rw q (
                  omega (
                    arith,
                    potential-lt s.best_cost n.place_id n.cost us m below,
                    length-place n s.open_set,
                  ))
          ]
        ]

    relax_all-le :
        (c : ℕ) (way : List Str) (es : List WaypointEdge) (s : Frontier)
        → All (λ e. In e.target_id us) es
        → work (relax_all fl sums h c way es s).open_set (relax_all fl sums h c way es s).best_cost
          ≤ work s.open_set s.best_cost
    unfolding relax_all
    relax_all-le c way [] s m = omega arith
    relax_all-le c way (e ∷ es) s m =
        omega (arith, relax-le c way e s m.0, relax_all-le c way es (relax fl sums h c way e s) m.1)

    search_from-returns :
        (edges : Dict (List WaypointEdge)) (goal : Str) (fuel : ℕ) (entries : List Entry)
        (best : Dict ℕ)
        → All (λ v. In v us) (all_targets edges)
        → work entries best < fuel
        → (p : List Str) × (search_from fl sums h edges goal fuel entries best ≡ some p)
    unfolding search_from
    search_from-returns edges goal zero entries best m w = absurd (omega arith)
    search_from-returns edges goal (suc fuel) [] best m w = ([], refl)
    search_from-returns edges goal (suc fuel) (n ∷ entries) best m w =
        let s : Frontier = record { open_set = entries; best_cost = best } in
        let es = edges_from edges n.place_id in
        let next = relax_all fl sums h n.cost n.path es s in
        let known : All (λ e. In e.target_id us) es =
          All-map
            (λ e k.
              at_In us e.target_id (all_targets edges) m (In-all_targets edges n.place_id e k))
            es (All-In es) in
        elim (Bool-cases (ltb (cost_of fl sums best n.place_id) n.cost)) [
          | inl old ↦
              let (p, q) = search_from-returns edges goal fuel entries best m (omega arith) in
              (p, ground (arith, old, q))
          | inr new ↦ elim (Bool-cases (same n.place_id goal)) [
            | inl at ↦ (n.path, ground (arith, new, at))
            | inr away ↦
                let (p, q) =
                  search_from-returns edges goal fuel next.open_set next.best_cost m
                    (omega (arith, relax_all-le n.cost n.path es s known)) in
                (p, ground (arith, new, away, q))
          ]
        ]

  -- Where distances and costs are numbers that are not negative, `find_path` returns if its fuel exceeds twice the number of places that the edges lead to, times
  -- the bound of all costs, plus one.
  pub find_path-returns :
      (fuel : ℕ) (start goal : Str) (memory : SpatialPlaceMemory fl) (g : TopologicalWaypointGraph)
      → 2 * (length (all_targets g.edges) * fl.infinity) + 1 < fuel
      → (p : List Str) × (find_path fl sums fuel start goal memory g ≡ some p)
  unfolding find_path
  find_path-returns fuel start goal memory g w =
      let h = heuristic fl sums memory goal in
      let us = all_targets g.edges in
      let (p, q) =
        search_from-returns h us g.edges goal fuel (first_entry fl sums h start ∷ [])
          ((start, 0) ∷ []) (All-In us) (omega (arith, potential_first start us, w)) in
      elim (Bool-cases (same start goal)) [
        | inl at ↦ (start ∷ [], ground (arith, at))
        | inr away ↦ elim (Option-cases (lookup start g.edges)) [
          | inl gone ↦ ([], ground (arith, away, gone))
          | inr (es, there) ↦ (p, ground (arith, away, there, q))
        ]
      ]
