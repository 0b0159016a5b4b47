-- ===== src/Spatial/Route/Complete.antt =====
-- Where some walk leads to the goal, the search returns a route.
use minecraft_ai.Prelude.{
  ℕ, zero, suc, ◌+◌, ◌*◌, ◌<◌, ◌≤◌, Bool, true, false, List, [], ◌∷◌, ◌++◌, ◌≡◌, refl, ap, ◌∙◌, ◌⊎◌,
  inl, inr, some, ltb, length, Str, same, same_iff, Dict, lookup, All, In, All-map, arith,
  Bool-cases, Option-cases,
}
use minecraft_ai.Spatial.Places.{SpatialFloats, SpatialPlaceMemory}
use minecraft_ai.Spatial.Route.{
  WaypointEdge, TopologicalWaypointGraph, edges_from, Entry, Frontier, RouteFloats, heuristic,
  cost_of, relax, relax_all, search_from, first_entry, find_path,
}
use minecraft_ai.Spatial.Route.Sound.{Walk, stay, go, relax_all-All, find_path-Walk}
use minecraft_ai.Spatial.Route.Ends.{all_targets, find_path-returns}
use minecraft_ai.Spatial.Route.Relaxed.{known, Pending, relax-Relaxed}

-- the targets of traversable edges have a known cost
abbrev Reaches : List WaypointEdge → Dict ℕ → Type 0
Reaches es best = All (λ e. e.traversable ≡ true → known best e.target_id ≡ true) es

abbrev is_cons : List Str → Bool
is_cons [] = false
is_cons (_ ∷ _) = true

is_cons-end : (way : List Str) (x : Str) → is_cons (way ++ x ∷ []) ≡ true
is_cons-end [] x = refl
is_cons-end (_ ∷ _) x = refl

is_cons_split : (p : List Str) → is_cons p ≡ true → (x : Str) × (rest : List Str) × (p ≡ x ∷ rest)
is_cons_split [] h = cc
is_cons_split (x ∷ rest) h = (x, rest, refl)

reach_edge :
    (best : Dict ℕ) (e : WaypointEdge) (es : List WaypointEdge)
    → Reaches es best
    → In e es
    → e.traversable ≡ true
    → known best e.target_id ≡ true
reach_edge best e [] r m t = absurd m
reach_edge best e (x ∷ es) r (inl p) t =
    let known_target : (e.traversable ≡ true → known best e.target_id ≡ true) = rw (← p) r.0 in
    known_target t
reach_edge best e (x ∷ es) r (inr m) t = reach_edge best e es r.1 m t

-- Adding the cost of an edge of the graph to a cost up to `top` gives a cost up to `top`. Rounding
-- makes it so for doubles: a sum of 2 ^ 54 times the greatest cost of an edge absorbs any more.
abbrev pub IsClosed : RouteFloats → Dict (List WaypointEdge) → (top : ℕ) → Type 0
IsClosed sums edges top =
    (u : Str) → All (λ e. (c : ℕ) → c ≤ top → sums.edge_cost c e ≤ top) (edges_from edges u)

le_lt : {a b c : ℕ} → a ≤ b → b < c → a < c
le_lt l m = omega (arith, l, m)

module _ (fl : SpatialFloats) (sums : RouteFloats) (h : Str → ℕ) where
  record RelaxedAll (es : List WaypointEdge) (s s' : Frontier) : Type 0 where
    keeps : (u : Str) → known s.best_cost u ≡ true → known s'.best_cost u ≡ true
    pending : (u : Str) → Pending fl sums h u s → Pending fl sums h u s'
    fresh :
        (u : Str)
        → known s'.best_cost u ≡ true
        → (known s.best_cost u ≡ true) ⊎ Pending fl sums h u s'
    reaches : Reaches es s'.best_cost

  relax_all-Relaxed :
      (c : ℕ) (way : List Str) (es : List WaypointEdge) (s : Frontier)
      → All (λ e. sums.edge_cost c e < fl.infinity) es
      → RelaxedAll es s (relax_all fl sums h c way es s)
  unfolding relax_all
  relax_all-Relaxed c way [] s less = record {
    keeps = λ u k. k;
    pending = λ u w. w;
    fresh = λ u k. inl k;
    reaches = tt;
  }
  relax_all-Relaxed c way (e ∷ es) s less =
      let one = relax-Relaxed fl sums h c way e s less.0 in
      let others = relax_all-Relaxed c way es (relax fl sums h c way e s) less.1 in
      record {
        keeps = λ u k. others.keeps u (one.keeps u k);
        pending = λ u w. others.pending u (one.pending u w);
        fresh = λ u k. elim (others.fresh u k) [
          | inr w ↦ inr w
          | inl k' ↦ elim (one.fresh u k') [ inl k'' ↦ inl k'' | inr w ↦ inr (others.pending u w) ]
        ];
        reaches = (λ t. others.keeps e.target_id (one.reaches t), others.reaches);
      }

  module _ (edges : Dict (List WaypointEdge)) (goal : Str) where
    -- a place that has been expanded, which the goal never is
    abbrev Expanded : Str → Dict ℕ → Type 0
    Expanded u best = (same u goal ≡ false) × Reaches (edges_from edges u) best

    -- every place with a known cost waits or was expanded
    abbrev Inv : Frontier → Type 0
    Inv s = (u : Str) → known s.best_cost u ≡ true → Pending fl sums h u s ⊎ Expanded u s.best_cost

    Inv-skip :
        (n : Entry) (entries : List Entry) (best : Dict ℕ)
        → Inv (record { open_set = n ∷ entries; best_cost = best })
        → ltb (cost_of fl sums best n.place_id) n.cost ≡ true
        → Inv (record { open_set = entries; best_cost = best })
    Inv-skip n entries best inv old u k = elim (inv u k) [
      | inr x ↦ inr x
      | inl w ↦ elim w.waits [
        | inr m ↦
            inl (record { entry = w.entry; waits = m; at_place = w.at_place; current = w.current })
        | inl p ↦ absurd (ground (arith, old, p, w.at_place, w.current))
      ]
    ]

    Inv-expand :
        (n : Entry) (entries : List Entry) (best : Dict ℕ)
        → Inv (record { open_set = n ∷ entries; best_cost = best })
        → same n.place_id goal ≡ false
        → All (λ e. sums.edge_cost n.cost e < fl.infinity) (edges_from edges n.place_id)
        → Inv (
            relax_all fl sums h n.cost n.path
              (edges_from edges n.place_id)
              (record { open_set = entries; best_cost = best }))
    Inv-expand n entries best inv away less u k =
        let s : Frontier = record { open_set = entries; best_cost = best } in
        let r = relax_all-Relaxed n.cost n.path (edges_from edges n.place_id) s less in
        elim (r.fresh u k) [
          | inr w ↦ inl w
          | inl k' ↦ elim (inv u k') [
            | inr (off, x) ↦
                inr (off, All-map (λ e f. λ t. r.keeps e.target_id (f t)) (edges_from edges u) x)
            | inl w ↦ elim w.waits [
              | inr m ↦ inl (
                  r.pending u (record {
                    entry = w.entry;
                    waits = m;
                    at_place = w.at_place;
                    current = w.current;
                  }))
              | inl p ↦
                  let q : n.place_id ≡ u = ap (λ (x : Entry). x.place_id) p ∙ w.at_place in
                  inr (rw (← q) (away, r.reaches))
            ]
          ]
        ]

    -- with no entry left, every place that a walk leads to has been expanded
    walked :
        (start : Str) (best : Dict ℕ)
        → Inv (record { open_set = []; best_cost = best })
        → known best start ≡ true
        → {u : Str} {p : List Str} → Walk edges start u p
        → (known best u ≡ true) × Expanded u best
    walked start best inv k (stay e q) = elim (inv start k) [
      | inl w ↦ absurd w.waits
      | inr x ↦ rw e (k, x)
    ]
    walked start best inv k (go {u} w e m t v q) =
        let (off, x) = (walked start best inv k w).1 in
        let k' : known best e.target_id ≡ true = reach_edge best e (edges_from edges u) x m t in
        elim (inv e.target_id k') [ inl w' ↦ absurd w'.waits | inr x' ↦ rw v (k', x') ]

    -- The costs stay below a bound, and a path is not empty.
    abbrev Fine : (top : ℕ) → Entry → Type 0
    Fine top n = (n.cost ≤ top) × (is_cons n.path ≡ true)

    search_from-finds :
        (top : ℕ) (below : top < fl.infinity) (closed : IsClosed sums edges top) (start : Str)
        (way : List Str) (fuel : ℕ) (entries : List Entry) (best : Dict ℕ) (p : List Str)
        → Walk edges start goal way
        → All (Fine top) entries
        → Inv (record { open_set = entries; best_cost = best })
        → known best start ≡ true
        → search_from fl sums h edges goal fuel entries best ≡ some p
        → is_cons p ≡ true
    unfolding search_from
    search_from-finds top below closed start way zero entries best p w m inv k r = cc
    search_from-finds top below closed start way (suc fuel) [] best p w m inv k r =
        let (off, x) = (walked start best inv k w).1 in
        absurd (ground (arith, off, same_iff goal goal))
    search_from-finds top below closed start way (suc fuel) (n ∷ entries) best p w m inv k r =
        let s : Frontier = record { open_set = entries; best_cost = best } in
        let es = edges_from edges n.place_id in
        let next = relax_all fl sums h n.cost n.path es s in
        let low : All (λ e. sums.edge_cost n.cost e ≤ top) es =
          All-map (λ e f. f n.cost m.0.0) es (closed n.place_id) in
        let less : All (λ e. sums.edge_cost n.cost e < fl.infinity) es =
          All-map (λ e l. le_lt l below) es low in
        elim (Bool-cases (ltb (cost_of fl sums best n.place_id) n.cost)) [
          | inl old ↦
              search_from-finds top below closed start way fuel entries best p w m.1
                (Inv-skip n entries best inv old) k (ground (arith, old))
          | inr new ↦ elim (Bool-cases (same n.place_id goal)) [
            | inl at ↦ let q : n.path ≡ p = ground (arith, new, at) in rw (← q) m.0.1
            | inr away ↦
                search_from-finds top below closed start way fuel next.open_set next.best_cost p w
                  (relax_all-All fl sums h (Fine top) n.cost n.path es s
                    (All-map (λ e f. λ t. (f, is_cons-end n.path e.target_id)) es low) m.1)
                  (Inv-expand n entries best inv away less)
                  ((relax_all-Relaxed n.cost n.path es s less).keeps start k)
                  (ground (arith, new, away))
          ]
        ]

-- no edge leads out of the start, so no walk leaves it
stays :
    (edges : Dict (List WaypointEdge)) (start : Str) {u : Str} {p : List Str}
    → edges_from edges start ≡ []
    → Walk edges start u p
    → u ≡ start
stays edges start e (stay q r) = q
stays edges start e (go {u} w x m t v r) =
    let at : u ≡ start = stays edges start e w in absurd (rw (at, e) at m)

module _ (fl : SpatialFloats) (sums : RouteFloats) where
  Inv-first :
      (h : Str → ℕ) (edges : Dict (List WaypointEdge)) (start goal : Str)
      → Inv fl sums h edges goal
          (record { open_set = first_entry fl sums h start ∷ []; best_cost = (start, 0) ∷ [] })
  unfolding lookup cost_of
  Inv-first h edges start goal u k =
      let at : same start u ≡ true = ground (arith, k) in
      inl (record {
        entry = first_entry fl sums h start;
        waits = inl refl;
        at_place = (same_iff start u).0 at;
        current = ground (arith, at);
      })

  find_path_nonempty :
      (top fuel : ℕ) (start goal : Str) (memory : SpatialPlaceMemory fl)
      (g : TopologicalWaypointGraph) (way p : List Str)
      → top < fl.infinity
      → IsClosed sums g.edges top
      → Walk g.edges start goal way
      → find_path fl sums fuel start goal memory g ≡ some p
      → is_cons p ≡ true
  unfolding find_path edges_from lookup
  find_path_nonempty top fuel start goal memory g way p below closed w r =
      elim (Bool-cases (same start goal)) [
        | inl at ↦ let q : start ∷ [] ≡ p = ground (arith, at) in rw (← q) refl
        | inr away ↦ elim (Option-cases (lookup start g.edges)) [
          | inl gone ↦
              let none_out : edges_from g.edges start ≡ [] = ground (arith, gone) in
              let at : goal ≡ start = stays g.edges start none_out w in
              absurd (ground (arith, away, at, same_iff start goal))
          | inr (es, there) ↦
              let h = heuristic fl sums memory goal in
              search_from-finds fl sums h g.edges goal top below closed start way fuel
                (first_entry fl sums h start ∷ []) ((start, 0) ∷ []) p w ((omega arith, refl), tt)
                (Inv-first h g.edges start goal) (ground (arith, same_iff start start))
                (ground (arith, away, there))
        ]
      ]

  -- Where distances and costs are numbers that are not negative, some finite cost bounds all sums
  -- along the edges of the graph, and some walk leads from the start to the goal, `find_path` with
  -- enough fuel returns a path that is not empty, and that is a walk from the start to the goal.
  pub find_path-finds :
      (top fuel : ℕ) (start goal : Str) (memory : SpatialPlaceMemory fl)
      (g : TopologicalWaypointGraph) (way : List Str)
      → top < fl.infinity
      → IsClosed sums g.edges top
      → Walk g.edges start goal way
      → 2 * (length (all_targets g.edges) * fl.infinity) + 1 < fuel
      → (x : Str) × (p : List Str) × (find_path fl sums fuel start goal memory g ≡ some (x ∷ p))
        × Walk g.edges start goal (x ∷ p)
  find_path-finds top fuel start goal memory g way below closed w f =
      let (p, q) = find_path-returns fl sums fuel start goal memory g f in
      let full = find_path_nonempty top fuel start goal memory g way p below closed w q in
      let (x, rest, e) = is_cons_split p full in
      let r : find_path fl sums fuel start goal memory g ≡ some (x ∷ rest) = rw (← e) q in
      (x, rest, r, find_path-Walk fl sums fuel start goal memory g x rest r)
