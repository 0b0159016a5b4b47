-- ===== src/Spatial/Route/Relaxed.antt =====
-- What relaxing an edge does to the known costs and to the entries that wait.
use minecraft_ai.Prelude.{
  ℕ, ◌<◌, Bool, true, false, List, ◌≡◌, refl, ◌⊎◌, inl, inr, none, some, leb, if◌then◌else◌, Str,
  same, same_iff, Dict, lookup, insert, lookup-insert, In, In-place, arith, Bool-cases,
}
use minecraft_ai.Spatial.Places.{SpatialFloats}
use minecraft_ai.Spatial.Route.{
  WaypointEdge, Entry, entry_key, Frontier, RouteFloats, cost_of, reached, push, relax,
}
use minecraft_ai.Spatial.Route.Ends.{cost_of-insert}

-- a place whose cost is known
abbrev pub known : Dict ℕ → Str → Bool
known best u = elim (lookup u best) [ none ↦ false | some _ ↦ true ]

module _ (fl : SpatialFloats) (sums : RouteFloats) (h : Str → ℕ) where
  -- an open entry that stands for the known cost of `u`
  pub record Pending (u : Str) (s : Frontier) : Type 0 where
    pub entry : Entry
    pub waits : In entry s.open_set
    pub at_place : entry.place_id ≡ u
    pub current : entry.cost ≡ cost_of fl sums s.best_cost u

  known-insert :
      (best : Dict ℕ) (v u : Str) (c : ℕ)
      → known (insert v c best) u ≡ (if same v u then true else known best u)
  known-insert best v u c = ground (arith, lookup-insert v u c best)

  push-Pending : (n : Entry) (s : Frontier) → Pending n.place_id (push fl sums h n s)
  push-Pending n s = record {
    entry = n;
    waits = (In-place entry_key n n s.open_set).1 (inl refl);
    at_place = refl;
    current = ground (
      arith,
      cost_of-insert fl sums s.best_cost n.place_id n.place_id n.cost,
      same_iff n.place_id n.place_id,
    );
  }

  -- a place that waits still does, maybe by the entry that is pushed
  push-keeps : (n : Entry) (u : Str) (s : Frontier) → Pending u s → Pending u (push fl sums h n s)
  push-keeps n u s w = elim (Bool-cases (same n.place_id u)) [
    | inl at ↦ rw (← ((same_iff n.place_id u).0 at)) (push-Pending n s)
    | inr away ↦ record {
      entry = w.entry;
      waits = (In-place entry_key w.entry n s.open_set).1 (inr w.waits);
      at_place = w.at_place;
      current =
          ground (arith, away, cost_of-insert fl sums s.best_cost n.place_id u n.cost, w.current);
    }
  ]

  -- what relaxing one edge does
  pub record Relaxed (e : WaypointEdge) (s s' : Frontier) : Type 0 where
    pub keeps : (u : Str) → known s.best_cost u ≡ true → known s'.best_cost u ≡ true
    pub pending : (u : Str) → Pending u s → Pending u s'
    pub fresh :
        (u : Str) → known s'.best_cost u ≡ true → (known s.best_cost u ≡ true) ⊎ Pending u s'
    pub reaches : e.traversable ≡ true → known s'.best_cost e.target_id ≡ true

  push-Relaxed :
      (c : ℕ) (way : List Str) (e : WaypointEdge) (s : Frontier)
      → Relaxed e s (push fl sums h (reached fl sums h c way e) s)
  push-Relaxed c way e s =
      let n = reached fl sums h c way e in
      record {
        keeps = λ u k. ground (arith, k, known-insert s.best_cost n.place_id u n.cost);
        pending = λ u w. push-keeps n u s w;
        fresh = λ u k. elim (Bool-cases (same n.place_id u)) [
          | inl at ↦ inr (rw (← ((same_iff n.place_id u).0 at)) (push-Pending n s))
          | inr away ↦ inl (ground (arith, k, away, known-insert s.best_cost n.place_id u n.cost))
        ];
        reaches = λ t. ground (
          arith,
          known-insert s.best_cost n.place_id n.place_id n.cost,
          same_iff n.place_id n.place_id,
        );
      }

  -- an infinite cost is unknown
  known_below :
      (best : Dict ℕ) (u : Str) (c : ℕ)
      → c < fl.infinity
      → leb (cost_of fl sums best u) c ≡ true
      → known best u ≡ true
  unfolding cost_of
  known_below best u c less k = ground arith

  pub relax-Relaxed :
      (c : ℕ) (way : List Str) (e : WaypointEdge) (s : Frontier)
      → sums.edge_cost c e < fl.infinity
      → Relaxed e s (relax fl sums h c way e s)
  unfolding relax
  relax-Relaxed c way e s less =
      let n = reached fl sums h c way e in
      let left : (e.traversable ≡ true → known s.best_cost e.target_id ≡ true) → Relaxed e s s =
        λ r. record { keeps = λ u k. k; pending = λ u w. w; fresh = λ u k. inl k; reaches = r } in
      elim (Bool-cases e.traversable) [
        | inr f ↦ let q : relax fl sums h c way e s ≡ s = ground (arith, f) in rw q (left (λ t. cc))
        | inl t ↦ elim (Bool-cases (leb (cost_of fl sums s.best_cost n.place_id) n.cost)) [
          | inl worse ↦
              let q : relax fl sums h c way e s ≡ s = ground (arith, t, worse) in
              rw q (left (λ t'. known_below s.best_cost n.place_id n.cost less worse))
          | inr better ↦
              let q : relax fl sums h c way e s ≡ push fl sums h n s = ground (arith, t, better) in
              rw q (push-Relaxed c way e s)
        ]
      ]
