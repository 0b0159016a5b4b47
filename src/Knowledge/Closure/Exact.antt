-- ===== src/Knowledge/Closure/Exact.antt =====
-- The closure ends, and is exactly what the start needs within the depth.
use mathlib.Core.Path.{subst}
use minecraft_ai.Prelude.{
  ℕ, zero, suc, ◌+◌, ◌≤◌, ◌<◌, true, false, List, [], ◌∷◌, ◌≡◌, ◌↔◌, refl, sym, ◌∙◌, inl, inr, some,
  leb, leb→le, length, Str, contains, In, Bool-cases, arith,
}
use minecraft_ai.Knowledge.{KnowledgeEdge}
use minecraft_ai.Knowledge.Graph.{KnowledgeGraph, has_node, requirements}
use minecraft_ai.Knowledge.Added.{IsWell}
use minecraft_ai.Knowledge.Closure.{Queue, Closure, closed, visit, search, prerequisite_closure}
use minecraft_ai.Knowledge.Closure.Visit.{visit-IsVisited}
use minecraft_ai.Knowledge.Closure.Measure.{unseen, unseen-le, visit-le}
use minecraft_ai.Knowledge.Closure.Search.{
  Needs, itself, through, requirements-Listed, Inv, Inv-first, Inv-skip, Inv-visit,
}

module _ (g : KnowledgeGraph) (max_depth : ℕ) where
  search_skip :
      (fuel : ℕ) (r : List Str) (n : Str) (d : ℕ) (q : Queue)
      → leb max_depth d ≡ true
      → search g max_depth (suc fuel) r ((n, d) ∷ q) ≡ search g max_depth fuel r q
  unfolding search
  search_skip fuel r n d q h = ground (arith, h)

  search-visit :
      (fuel : ℕ) (r : List Str) (n : Str) (d : ℕ) (q : Queue) (es : List KnowledgeEdge)
      → leb max_depth d ≡ false
      → requirements g n ≡ some es
      → search g max_depth (suc fuel) r ((n, d) ∷ q)
        ≡ search g max_depth fuel (visit d es r q).0 (visit d es r q).1
  unfolding search
  search-visit fuel r n d q es h e = ground (arith, h, e)

  closure_search :
      (start : Str)
      → has_node g start ≡ true
      → prerequisite_closure g max_depth start
        ≡ search g max_depth (2 + length g.edges) [] ((start, 0) ∷ [])
  unfolding prerequisite_closure
  closure_search start h = ground (arith, h)

  module _ (start : Str) (w : IsWell g) where
    -- a result that keeps the invariant with an empty queue
    abbrev Ends : Closure → Type 0
    Ends outcome =
        (r : List Str) × (outcome ≡ closed r) × ((done : Queue) × Inv g max_depth start done [] r)

    search-Ends :
        (fuel : ℕ) (done q : Queue) (r : List Str)
        → Inv g max_depth start done q r
        → length q + unseen r g.edges < fuel
        → Ends (search g max_depth fuel r q)
    unfolding search
    search-Ends zero done q r i l = absurd (omega arith)
    search-Ends (suc fuel) done [] r i l = (r, refl, (done, i))
    search-Ends (suc fuel) done ((n, d) ∷ q) r i l = elim (Bool-cases (leb max_depth d)) [
      | inl h ↦ subst Ends (sym (search_skip fuel r n d q h)) (
          search-Ends fuel ((n, d) ∷ done) q r
            (Inv-skip g max_depth start done q r n d i (leb→le max_depth d h)) (omega arith))
      | inr h ↦
          let (es, e, listed) = requirements-Listed g n w in
          let v = visit d es r q in
          let less = visit-le g.edges d es r q (λ x m. ((listed x).0 m).0) in
          subst Ends (sym (search-visit fuel r n d q es h e)) (
            search-Ends fuel ((n, d) ∷ done) v.1 v.0
              (Inv-visit g max_depth start done q r n d es v.0 v.1 i (ground arith) listed
                (visit-IsVisited d es r q))
              (omega (arith, less)))
    ]

    -- every chain within the depth was visited, no later than its length
    visited :
        (done : Queue) (r : List Str)
        → Inv g max_depth start done [] r
        → (k : ℕ) (t : Str) → Needs g start k t
        → k ≤ max_depth
        → (j : ℕ) × In (t, j) done × (j ≤ k)
    visited done r i _ _ itself l = elim i.started [
      | inl m ↦ (0, m, omega arith)
      | inr m ↦ absurd m
    ]
    visited done r i _ _ (through {k} {n} e u x) l =
        let (j, m, b) = visited done r i k n u (omega arith) in
        let (_, (j', s, b')) = i.expanded (n, j) m (omega (arith, b)) e x in
        elim s [ inl m' ↦ (j', m', omega (arith, b, b')) | inr m' ↦ absurd m' ]

    Needs-found :
        (done : Queue) (r : List Str)
        → Inv g max_depth start done [] r
        → (k : ℕ) (t : Str) → Needs g start k t
        → 1 ≤ k
        → k ≤ max_depth
        → contains r t ≡ true
    Needs-found done r i _ _ itself p l = absurd (omega arith)
    Needs-found done r i _ _ (through {k} {n} e u x) p l =
        let (j, m, b) = visited done r i k n u (omega arith) in
        (i.expanded (n, j) m (omega (arith, b)) e x).0

-- In a well-formed graph the closure of a node ends with no error. It holds a node exactly if some
-- chain of one to `max_depth` requirement edges leads there; a chain may lead back to the start.
pub prerequisite_closure_lem :
    (g : KnowledgeGraph) (max_depth : ℕ) (start : Str)
    → IsWell g
    → has_node g start ≡ true
    → (r : List Str) × (prerequisite_closure g max_depth start ≡ closed r)
      × ((t : Str)
          → (contains r t ≡ true) ↔ ((k : ℕ) × (1 ≤ k) × (k ≤ max_depth) × Needs g start k t))
prerequisite_closure_lem g max_depth start w h =
    let bound = unseen-le [] g.edges in
    let (r, e, (done, i)) =
      search-Ends g max_depth start w (2 + length g.edges) [] ((start, 0) ∷ []) []
        (Inv-first g max_depth start) (omega (arith, bound)) in
    (
      r,
      closure_search g max_depth start h ∙ e,
      λ t. (
        λ c. i.found_needs t c,
        λ (k, p, l, u). Needs-found g max_depth start w done r i k t u p l,
      ),
    )
