-- ===== src/Knowledge/Closure/Search.antt =====
-- The invariant of the search: the queue by depth, and every visited node expanded.
use mathlib.Core.Path.{subst}
use minecraft_ai.Prelude.{
  ℕ, zero, suc, ◌≤◌, ◌<◌, true, List, [], ◌∷◌, ◌≡◌, ◌↔◌, refl, sym, ap, ◌⊎◌, inl, inr, some, Str,
  contains, lookup, All, In, arith,
}
use minecraft_ai.Knowledge.{KnowledgeEdge}
use minecraft_ai.Knowledge.Graph.{KnowledgeGraph, is_requirement, requirements}
use minecraft_ai.Knowledge.Added.{IsWell}
use minecraft_ai.Knowledge.Found.{outgoing-Finds}
use minecraft_ai.Knowledge.Closure.{Queue}
use minecraft_ai.Knowledge.Closure.Visit.{IsOrdered, IsVisited}

-- a stored requirement edge from the node
abbrev pub Requires : KnowledgeGraph → Str → KnowledgeEdge → Type 0
Requires g n e =
    (lookup e.edge_id g.edges ≡ some e) × (e.source ≡ n) × (is_requirement e.kind ≡ true)

-- a chain of so many requirement edges from the start to the node
pub data Needs (g : KnowledgeGraph) (start : Str) : ℕ → Str → Type 0 where
  itself : Needs g start zero start
  through :
      {k : ℕ} {n : Str} (e : KnowledgeEdge)
      → Needs g start k n
      → Requires g n e
      → Needs g start (suc k) e.target

-- the requirements of a node in a well-formed graph
abbrev pub Listed : KnowledgeGraph → Str → Type 0
Listed g n =
    (es : List KnowledgeEdge) × (requirements g n ≡ some es)
    × ((e : KnowledgeEdge) → In e es ↔ Requires g n e)

pub requirements-Listed : (g : KnowledgeGraph) (n : Str) → IsWell g → Listed g n
unfolding requirements
requirements-Listed g n w = (outgoing-Finds g n is_requirement w).0

pub All-at : {A : Type 0} (P : A → Type 0) (xs : List A) (x : A) → All P xs → In x xs → P x
All-at P [] x a m = absurd m
All-at P (y ∷ ys) x a (inl p) = subst P p a.0
All-at P (y ∷ ys) x a (inr m) = All-at P ys x a.1 m

module _ (g : KnowledgeGraph) (max_depth : ℕ) (start : Str) where
  -- visited or in the queue
  abbrev pub Seen : Queue → Queue → Str × ℕ → Type 0
  Seen done q x = In x done ⊎ In x q

  pub record Inv (done q : Queue) (r : List Str) : Type 0 where
    pub queued_needs : (x : Str × ℕ) → In x q → Needs g start x.1 x.0
    pub found_needs :
        (t : Str) → contains r t ≡ true → (k : ℕ) × (1 ≤ k) × (k ≤ max_depth) × Needs g start k t
    pub ordered : IsOrdered q
    pub done_first : (x y : Str × ℕ) → In x done → In y q → x.1 ≤ y.1
    pub recorded : (t : Str) → contains r t ≡ true → (k : ℕ) × Seen done q (t, k)
    pub expanded :
        (x : Str × ℕ)
        → In x done
        → suc x.1 ≤ max_depth
        → (e : KnowledgeEdge) → Requires g x.0 e
        → (contains r e.target ≡ true) × ((k : ℕ) × Seen done q (e.target, k) × (k ≤ suc x.1))
    pub started : Seen done q (start, 0)

  pub Inv-first : Inv [] ((start, 0) ∷ []) []
  unfolding contains
  Inv-first = record {
    queued_needs = λ x. elim [
      | inl p ↦ subst (λ (y : Str × ℕ). Needs g start y.1 y.0) p itself
      | inr m ↦ absurd m
    ];
    found_needs = λ t h. absurd (cc h);
    ordered = (tt, tt);
    done_first = λ x y m. absurd m;
    recorded = λ t h. absurd (cc h);
    expanded = λ x m. absurd m;
    started = inr (inl refl);
  }

  -- the head of the queue is visited
  Seen-head : (done q : Queue) (h x : Str × ℕ) → Seen done (h ∷ q) x → Seen (h ∷ done) q x
  Seen-head done q h x (inl m) = inl (inr m)
  Seen-head done q h x (inr (inl p)) = inl (inl p)
  Seen-head done q h x (inr (inr m)) = inr m

  -- what the invariant says of the head and the entries after it
  head_first :
      (done q : Queue) (r : List Str) (n : Str) (d : ℕ)
      → Inv done ((n, d) ∷ q) r
      → (x y : Str × ℕ) → In x ((n, d) ∷ done)
      → In y q
      → x.1 ≤ y.1
  head_first done q r n d i x y (inl p) m =
      let near = All-at (λ (m, k). (d ≤ k) × (k ≤ suc d)) q y i.ordered.0 m in
      let same_depth : d ≡ x.1 = ap (λ (z : Str × ℕ). z.1) p in omega (arith, near.0, same_depth)
  head_first done q r n d i x y (inr k) m = i.done_first x y k (inr m)

  done_low :
      (done q : Queue) (r : List Str) (n : Str) (d : ℕ)
      → Inv done ((n, d) ∷ q) r
      → (x : Str × ℕ) → In x ((n, d) ∷ done)
      → x.1 ≤ d
  done_low done q r n d i x (inl p) =
      let same_depth : d ≡ x.1 = ap (λ (z : Str × ℕ). z.1) p in omega (arith, same_depth)
  done_low done q r n d i x (inr k) = i.done_first x (n, d) k (inl refl)

  pub Inv-skip :
      (done q : Queue) (r : List Str) (n : Str) (d : ℕ)
      → Inv done ((n, d) ∷ q) r
      → max_depth ≤ d
      → Inv ((n, d) ∷ done) q r
  Inv-skip done q r n d i far = record {
    queued_needs = λ x m. i.queued_needs x (inr m);
    found_needs = i.found_needs;
    ordered = i.ordered.1;
    done_first = head_first done q r n d i;
    recorded = λ t c. let (k, s) = i.recorded t c in (k, Seen-head done q (n, d) (t, k) s);
    expanded = λ x. elim [
      | inl p ↦ λ l.
          let same_depth : d ≡ x.1 = ap (λ (z : Str × ℕ). z.1) p in
          absurd (omega (arith, far, l, same_depth))
      | inr m ↦ λ l e u.
          let (c, (k, s, b)) = i.expanded x m l e u in
          (c, (k, Seen-head done q (n, d) (e.target, k) s, b))
    ];
    started = Seen-head done q (n, d) (start, 0) i.started;
  }

  -- how deep a node is that was found before or in the round of the head
  recorded_near :
      (done q : Queue) (r : List Str) (n : Str) (d : ℕ) (es : List KnowledgeEdge) (r' : List Str)
      (q' : Queue)
      → Inv done ((n, d) ∷ q) r
      → IsVisited d es r q r' q'
      → (t : Str) → contains r' t ≡ true
      → (k : ℕ) × Seen ((n, d) ∷ done) q' (t, k) × (k ≤ suc d)
  recorded_near done q r n d es r' q' i v t c = elim (v.fresh t c) [
    | inr m ↦ (suc d, inr m, omega arith)
    | inl old ↦
        let (k, s) = i.recorded t old in
        elim s [
          | inl m ↦
              let before = i.done_first (t, k) (n, d) m (inl refl) in
              (k, inl (inr m), omega (arith, before))
          | inr m ↦ elim m [
            | inl p ↦
                let same_depth : d ≡ k = ap (λ (z : Str × ℕ). z.1) p in
                (k, inl (inl p), omega (arith, same_depth))
            | inr l ↦
                let near = All-at (λ (m, k). (d ≤ k) × (k ≤ suc d)) q (t, k) i.ordered.0 l in
                (k, inr (v.keeps_queued (t, k) l), near.1)
          ]
        ]
  ]

  Seen-visited :
      (done q : Queue) (r : List Str) (n : Str) (d : ℕ) (es : List KnowledgeEdge) (r' : List Str)
      (q' : Queue)
      → IsVisited d es r q r' q'
      → (x : Str × ℕ) → Seen done ((n, d) ∷ q) x
      → Seen ((n, d) ∷ done) q' x
  Seen-visited done q r n d es r' q' v x s = elim (Seen-head done q (n, d) x s) [
    | inl m ↦ inl m
    | inr m ↦ inr (v.keeps_queued x m)
  ]

  pub Inv-visit :
      (done q : Queue) (r : List Str) (n : Str) (d : ℕ) (es : List KnowledgeEdge) (r' : List Str)
      (q' : Queue)
      → Inv done ((n, d) ∷ q) r
      → d < max_depth
      → ((e : KnowledgeEdge) → In e es ↔ Requires g n e)
      → IsVisited d es r q r' q'
      → Inv ((n, d) ∷ done) q' r'
  Inv-visit done q r n d es r' q' i within listed v =
      let head_needs : Needs g start d n = i.queued_needs (n, d) (inl refl) in
      let fresh_needs : (x : Str × ℕ)
          → In x q'
          → In x q ⊎ ((x.1 ≡ suc d) × Needs g start (suc d) x.0) =
        λ x m. elim (v.fresh_queued x m) [
          | inl k ↦ inl k
          | inr (p, (e, k, t)) ↦
              inr (p, subst (Needs g start (suc d)) t (through e head_needs ((listed e).0 k)))
        ] in
      record {
        queued_needs = λ x m. elim (fresh_needs x m) [
          | inl k ↦ i.queued_needs x (inr k)
          | inr (p, u) ↦ subst (λ k. Needs g start k x.0) (sym p) u
        ];
        found_needs = λ t c. elim (v.fresh t c) [
          | inl old ↦ i.found_needs t old
          | inr m ↦ elim (fresh_needs (t, suc d) m) [
            | inl k ↦ (suc d, omega arith, omega arith, i.queued_needs (t, suc d) (inr k))
            | inr (_, u) ↦ (suc d, omega arith, omega arith, u)
          ]
        ];
        ordered = v.ordered i.ordered.0 i.ordered.1;
        done_first = λ x y m k. elim (v.fresh_queued y k) [
          | inl old ↦ head_first done q r n d i x y m old
          | inr (p, _) ↦ let before = done_low done q r n d i x m in omega (arith, p, before)
        ];
        recorded = λ t c. let (k, s, _) = recorded_near done q r n d es r' q' i v t c in (k, s);
        expanded = λ x. elim [
          | inl p ↦ λ l e u.
              let u' = subst (λ (z : Str × ℕ). Requires g z.0 e) (sym p) u in
              let same_depth : d ≡ x.1 = ap (λ (z : Str × ℕ). z.1) p in
              let c = v.found e ((listed e).1 u') in
              let (k, s, b) = recorded_near done q r n d es r' q' i v e.target c in
              (c, (k, s, omega (arith, b, same_depth)))
          | inr m ↦ λ l e u.
              let (c, (k, s, b)) = i.expanded x m l e u in
              (v.keeps e.target c, (k, Seen-visited done q r n d es r' q' v (e.target, k) s, b))
        ];
        started = Seen-visited done q r n d es r' q' v (start, 0) i.started;
      }
