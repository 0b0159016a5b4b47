-- ===== src/Knowledge/Closure/Visit.antt =====
-- What visiting the edges of one node does to the result and the queue.
use minecraft_ai.Prelude.{
  ℕ, suc, ◌≤◌, true, false, List, [], ◌∷◌, ◌++◌, ◌≡◌, refl, sym, ap, ◌∙◌, ◌⊎◌, inl, inr, Str, same,
  same_iff, contains, All, All-append, In, In-append_left, In-append_end, In-append_split,
  Bool-cases, arith,
}
use mathlib.Core.Path.{subst}
use minecraft_ai.Knowledge.{KnowledgeEdge}
use minecraft_ai.Knowledge.Closure.{Queue, visit}

-- each entry's depth is that of any later one, or one less
abbrev pub IsOrdered : Queue → Type 0
IsOrdered [] = Unit
IsOrdered ((n, d) ∷ q) = All (λ (m, k). (d ≤ k) × (k ≤ suc d)) q × IsOrdered q

-- the entries of a round: of its depth or one more
abbrev pub IsNear : ℕ → Queue → Type 0
IsNear d q = All (λ (m, k). (d ≤ k) × (k ≤ suc d)) q

IsOrdered-end :
    (d : ℕ) (t : Str) (q : Queue) → IsNear d q → IsOrdered q → IsOrdered (q ++ (t, suc d) ∷ [])
IsOrdered-end d t [] near o = (tt, tt)
IsOrdered-end d t ((n, k) ∷ q) near o = (
  All-append (λ (m, j). (k ≤ j) × (j ≤ suc k)) q ((t, suc d) ∷ []) o.0
      ((omega (arith, near.0.0, near.0.1), omega (arith, near.0.0, near.0.1)), tt),
  IsOrdered-end d t q near.1 o.1,
)

-- from the result and queue before a round to those after it
pub record IsVisited (d : ℕ) (es : List KnowledgeEdge) (r : List Str) (q : Queue) (r' : List Str)
    (q' : Queue) : Type 0 where
  pub keeps : (t : Str) → contains r t ≡ true → contains r' t ≡ true
  pub keeps_queued : (x : Str × ℕ) → In x q → In x q'
  pub fresh : (t : Str) → contains r' t ≡ true → (contains r t ≡ true) ⊎ In (t, suc d) q'
  pub fresh_queued :
      (x : Str × ℕ)
      → In x q'
      → In x q ⊎ ((x.1 ≡ suc d) × ((e : KnowledgeEdge) × In e es × (e.target ≡ x.0)))
  pub found : (e : KnowledgeEdge) → In e es → contains r' e.target ≡ true
  pub ordered : IsNear d q → IsOrdered q → IsOrdered q'

pub contains-first : (t : Str) (r : List Str) → contains (t ∷ r) t ≡ true
unfolding contains
contains-first t r = let own = (same_iff t t).1 refl in ground (arith, own)

pub contains-later : (t u : Str) (r : List Str) → contains r u ≡ true → contains (t ∷ r) u ≡ true
unfolding contains
contains-later t u r h = ground (arith, h)

contains-cons_split :
    (t u : Str) (r : List Str) → contains (t ∷ r) u ≡ true → (t ≡ u) ⊎ (contains r u ≡ true)
unfolding contains
contains-cons_split t u r h = elim (Bool-cases (same t u)) [
  | inl p ↦ inl ((same_iff t u).0 p)
  | inr p ↦ inr (ground (arith, p, h))
]

IsVisited-known :
    (d : ℕ) (e : KnowledgeEdge) (es : List KnowledgeEdge) (r : List Str) (q : Queue) (r' : List Str)
    (q' : Queue)
    → contains r e.target ≡ true
    → IsVisited d es r q r' q'
    → IsVisited d (e ∷ es) r q r' q'
IsVisited-known d e es r q r' q' h v = record {
  keeps = v.keeps;
  keeps_queued = v.keeps_queued;
  fresh = v.fresh;
  fresh_queued = λ x m. elim (v.fresh_queued x m) [
    | inl k ↦ inl k
    | inr (p, (f, k, t)) ↦ inr (p, (f, inr k, t))
  ];
  found = λ f. elim [
    | inl p ↦ v.keeps f.target (ap (λ x. contains r x.target) (sym p) ∙ h)
    | inr k ↦ v.found f k
  ];
  ordered = v.ordered;
}

IsVisited-new :
    (d : ℕ) (e : KnowledgeEdge) (es : List KnowledgeEdge) (r : List Str) (q : Queue) (r' : List Str)
    (q' : Queue)
    → IsVisited d es (e.target ∷ r) (q ++ (e.target, suc d) ∷ []) r' q'
    → IsVisited d (e ∷ es) r q r' q'
IsVisited-new d e es r q r' q' v =
    let t = e.target in
    let entry : Str × ℕ = (t, suc d) in
    let queued = v.keeps_queued entry (In-append_end entry q) in
    record {
      keeps = λ u h. v.keeps u (contains-later t u r h);
      keeps_queued = λ x m. v.keeps_queued x (In-append_left x q (entry ∷ []) m);
      fresh = λ u h. elim (v.fresh u h) [
        | inr m ↦ inr m
        | inl k ↦ elim (contains-cons_split t u r k) [
          | inl p ↦ inr (subst (λ s. In (s, suc d) q') p queued)
          | inr m ↦ inl m
        ]
      ];
      fresh_queued = λ x m. elim (v.fresh_queued x m) [
        | inl k ↦ elim (In-append_split x entry q k) [
          | inl old ↦ inl old
          | inr p ↦
              inr (sym (ap (λ (y : Str × ℕ). y.1) p), (e, inl refl, ap (λ (y : Str × ℕ). y.0) p))
        ]
        | inr (p, (f, k, u)) ↦ inr (p, (f, inr k, u))
      ];
      found = λ f. elim [
        | inl p ↦ ap (λ x. contains r' x.target) (sym p) ∙ v.keeps t (contains-first t r)
        | inr k ↦ v.found f k
      ];
      ordered = λ near o.
          v.ordered
            (All-append (λ (m, k). (d ≤ k) × (k ≤ suc d)) q (entry ∷ []) near
              ((omega arith, omega arith), tt))
            (IsOrdered-end d t q near o);
    }

pub visit_known :
    (d : ℕ) (e : KnowledgeEdge) (es : List KnowledgeEdge) (r : List Str) (q : Queue)
    → contains r e.target ≡ true
    → visit d (e ∷ es) r q ≡ visit d es r q
unfolding visit
visit_known d e es r q h = ground (arith, h)

pub visit_new :
    (d : ℕ) (e : KnowledgeEdge) (es : List KnowledgeEdge) (r : List Str) (q : Queue)
    → contains r e.target ≡ false
    → visit d (e ∷ es) r q ≡ visit d es (e.target ∷ r) (q ++ (e.target, suc d) ∷ [])
unfolding visit
visit_new d e es r q h = ground (arith, h)

pub visit-IsVisited :
    (d : ℕ) (es : List KnowledgeEdge) (r : List Str) (q : Queue)
    → IsVisited d es r q (visit d es r q).0 (visit d es r q).1
unfolding visit
visit-IsVisited d [] r q = record {
  keeps = λ t h. h;
  keeps_queued = λ x m. m;
  fresh = λ t h. inl h;
  fresh_queued = λ x m. inl m;
  found = λ e m. absurd m;
  ordered = λ near o. o;
}
visit-IsVisited d (e ∷ es) r q =
    let Wanted : List Str × Queue → Type 0 = λ v. IsVisited d (e ∷ es) r q v.0 v.1 in
    elim (Bool-cases (contains r e.target)) [
      | inl h ↦
          subst Wanted (sym (visit_known d e es r q h))
            (IsVisited-known d e es r q _ _ h (visit-IsVisited d es r q))
      | inr h ↦ subst Wanted (sym (visit_new d e es r q h)) (
          IsVisited-new d e es r q _ _
            (visit-IsVisited d es (e.target ∷ r) (q ++ (e.target, suc d) ∷ [])))
    ]
