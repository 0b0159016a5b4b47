-- ===== src/Spatial/Places/Nearest.antt =====
-- `find_nearest` returns a place that no other matching place is nearer than.
use minecraft_ai.Prelude.{
  ℕ, ◌≤◌, ◌<◌, List, [], ◌∷◌, ◌≡◌, refl, ◌⊎◌, inl, inr, Option, none, some, ltb, Str, All, All-map,
  In, values, arith, Bool-cases, Option-cases,
}
use minecraft_ai.Spatial.Places.{
  SpatialFloats, Xyz, PlaceKind, PlaceRecord, SpatialPlaceMemory, candidate_distance, nearest_of,
  find_nearest,
}

module _ (fl : SpatialFloats) where
  -- how far a place is, where one that does not match is infinitely far
  abbrev pub far : (PlaceRecord fl → Option ℕ) → PlaceRecord fl → ℕ
  far measure p = elim (measure p) [ none ↦ fl.infinity | some d ↦ d ]

  -- Either nothing is nearer than `limit` and the result is `best`, or the result is a nearest place.
  abbrev pub IsNearest :
      (PlaceRecord fl → Option ℕ)
      → Option (PlaceRecord fl)
      → ℕ
      → List (PlaceRecord fl)
      → Option (PlaceRecord fl)
      → Type 0
  IsNearest measure best limit ps r =
      ((r ≡ best) × All (λ q. limit ≤ far measure q) ps)
      ⊎ ((p : PlaceRecord fl) × (r ≡ some p)
          × In p ps
          × (far measure p < limit)
          × All (λ q. far measure p ≤ far measure q) ps)

  -- a place that is no nearer
  pass :
      (measure : PlaceRecord fl → Option ℕ) (best : Option (PlaceRecord fl)) (limit : ℕ)
      (p : PlaceRecord fl) (ps : List (PlaceRecord fl)) (r : Option (PlaceRecord fl))
      → limit ≤ far measure p
      → IsNearest measure best limit ps r
      → IsNearest measure best limit (p ∷ ps) r
  pass measure best limit p ps r h (inl (e, m)) = inl (e, (h, m))
  pass measure best limit p ps r h (inr (q, e, i, l, m)) =
      inr (q, e, inr i, l, (omega (arith, l, h), m))

  -- a nearer place
  improve :
      (measure : PlaceRecord fl → Option ℕ) (best : Option (PlaceRecord fl)) (limit d : ℕ)
      (p : PlaceRecord fl) (ps : List (PlaceRecord fl)) (r : Option (PlaceRecord fl))
      → far measure p ≡ d
      → d < limit
      → IsNearest measure (some p) d ps r
      → IsNearest measure best limit (p ∷ ps) r
  improve measure best limit d p ps r e h (inl (e', m)) = inr (
    p,
    e',
    inl refl,
    omega (arith, e, h),
    (omega arith, All-map (λ x k. omega (arith, e, k)) ps m),
  )
  improve measure best limit d p ps r e h (inr (q, e', i, l, m)) =
      inr (q, e', inr i, omega (arith, l, h), (omega (arith, e, l), m))

  nearest_of-IsNearest :
      (measure : PlaceRecord fl → Option ℕ) (best : Option (PlaceRecord fl)) (limit : ℕ)
      (ps : List (PlaceRecord fl))
      → limit ≤ fl.infinity
      → IsNearest measure best limit ps (nearest_of fl measure best limit ps)
  unfolding nearest_of
  nearest_of-IsNearest measure best limit [] h = inl (refl, tt)
  nearest_of-IsNearest measure best limit (p ∷ ps) h =
      let skipped = nearest_of-IsNearest measure best limit ps h in
      elim (Option-cases (measure p)) [
        | inl e ↦
            let r : nearest_of fl measure best limit (p ∷ ps)
                ≡ nearest_of fl measure best limit ps =
              ground (arith, e) in
            rw r (pass measure best limit p ps _ (ground (arith, e)) skipped)
        | inr (d, e) ↦ elim (Bool-cases (ltb d limit)) [
          | inl nearer ↦
              let taken = nearest_of-IsNearest measure (some p) d ps (ground (arith, nearer)) in
              let r : nearest_of fl measure best limit (p ∷ ps)
                  ≡ nearest_of fl measure (some p) d ps =
                ground (arith, e, nearer) in
              rw r (
                improve measure best limit d p ps _ (ground (arith, e)) (ground (arith, nearer))
                  taken)
          | inr further ↦
              let r : nearest_of fl measure best limit (p ∷ ps)
                  ≡ nearest_of fl measure best limit ps =
                ground (arith, e, further) in
              rw r (pass measure best limit p ps _ (ground (arith, e, further)) skipped)
        ]
      ]

  -- `find_nearest` returns none where every matching place is infinitely far, and else a matching
  -- place such that no matching place is nearer.
  find_nearest-IsNearest :
      (at : Xyz fl) (kind : Option PlaceKind) (resource : Option Str) (dimension : Str)
      (max_distance : Option ℕ) (memory : SpatialPlaceMemory fl)
      → IsNearest
          (candidate_distance fl at kind resource dimension max_distance)
          none
          fl.infinity
          (values memory.places)
          (find_nearest fl at kind resource dimension max_distance memory)
  unfolding find_nearest
  find_nearest-IsNearest at kind resource dimension max_distance memory =
      nearest_of-IsNearest (candidate_distance fl at kind resource dimension max_distance) none
        fl.infinity (values memory.places) (omega arith)
