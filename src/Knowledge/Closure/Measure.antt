-- ===== src/Knowledge/Closure/Measure.antt =====
-- The edges whose targets are not found yet, which bound the rounds of the search.
use mathlib.Core.Path.{subst}
use minecraft_ai.Prelude.{
  ℕ, suc, ◌+◌, ◌≤◌, true, false, List, [], ◌∷◌, ◌++◌, ◌≡◌, refl, sym, inl, inr, some, length,
  length-append, if◌then◌else◌, Str, same, contains, Dict, lookup, In, Bool-cases, arith,
}
use minecraft_ai.Knowledge.{KnowledgeEdge}
use minecraft_ai.Knowledge.Closure.{Queue, visit}
use minecraft_ai.Knowledge.Closure.Visit.{visit_known, visit_new, contains-first, contains-later}

abbrev pub unseen : List Str → Dict KnowledgeEdge → ℕ
unseen r [] = 0
unseen r ((k, e) ∷ d) = (if contains r e.target then 0 else 1) + unseen r d

pub unseen-le : (r : List Str) (d : Dict KnowledgeEdge) → unseen r d ≤ length d
unseen-le r [] = omega arith
unseen-le r ((k, e) ∷ d) = ground (arith, unseen-le r d)

unseen-cons : (t : Str) (r : List Str) (d : Dict KnowledgeEdge) → unseen (t ∷ r) d ≤ unseen r d
unfolding contains
unseen-cons t r [] = omega arith
unseen-cons t r ((k, e) ∷ d) = ground (arith, unseen-cons t r d)

unseen-found :
    (id : Str) (e : KnowledgeEdge) (r : List Str) (d : Dict KnowledgeEdge)
    → lookup id d ≡ some e
    → contains r e.target ≡ false
    → suc (unseen (e.target ∷ r) d) ≤ unseen r d
unfolding lookup
unseen-found id e r [] h c = absurd (cc h)
unseen-found id e r ((k, x) ∷ d) h c = elim (Bool-cases (same k id)) [
  | inl p ↦
      let x_is_e : x ≡ e = ground (arith, p, h) in
      let own = contains-first e.target r in
      let here : contains (e.target ∷ r) x.target ≡ true =
        subst (λ y. contains (e.target ∷ r) y.target ≡ true) (sym x_is_e) own in
      let before : contains r x.target ≡ false =
        subst (λ y. contains r y.target ≡ false) (sym x_is_e) c in
      ground (arith, here, before, unseen-cons e.target r d)
  | inr p ↦
      let later : lookup id d ≡ some e = ground (arith, p, h) in
      let rest = unseen-found id e r d later c in
      let head = contains-later e.target x.target r in
      elim (Bool-cases (contains r x.target)) [
        | inl m ↦ ground (arith, m, head m, rest)
        | inr m ↦ ground (arith, m, rest)
      ]
]

-- A round on stored edges does not grow the queue and the unseen edges together.
pub visit-le :
    (edges : Dict KnowledgeEdge) (d : ℕ) (es : List KnowledgeEdge) (r : List Str) (q : Queue)
    → ((e : KnowledgeEdge) → In e es → lookup e.edge_id edges ≡ some e)
    → length (visit d es r q).1 + unseen (visit d es r q).0 edges ≤ length q + unseen r edges
unfolding visit
visit-le edges d [] r q stored = omega arith
visit-le edges d (e ∷ es) r q stored =
    let size : List Str × Queue → ℕ = λ v. length v.1 + unseen v.0 edges in
    let later : (f : KnowledgeEdge) → In f es → lookup f.edge_id edges ≡ some f =
      λ f m. stored f (inr m) in
    elim (Bool-cases (contains r e.target)) [
      | inl h ↦
          subst (λ v. size v ≤ length q + unseen r edges) (sym (visit_known d e es r q h))
            (visit-le edges d es r q later)
      | inr h ↦
          let q' = q ++ (e.target, suc d) ∷ [] in
          let rest = visit-le edges d es (e.target ∷ r) q' later in
          let less = unseen-found e.edge_id e r edges (stored e (inl refl)) h in
          subst (λ v. size v ≤ length q + unseen r edges) (sym (visit_new d e es r q h))
            (omega (arith, rest, less, length-append q ((e.target, suc d) ∷ [])))
    ]
