-- ===== src/Knowledge/Index.antt =====
-- `_out` and `_in` of the graph: the ids of the edges at one of their ends, by node.
use minecraft_ai.Prelude.{
  Bool, true, false, List, [], ◌∷◌, ◌++◌, Option, none, some, ◌≡◌, refl, ap, ◌∙◌, inl, inr, not,
  ◌&&◌, ◌||◌, if◌then◌else◌, Str, same, same_iff, contains, Dict, lookup, insert, lookup-insert,
  Bool-cases, arith,
}
use minecraft_ai.Knowledge.{KnowledgeEdge}

abbrev pub Index : Type 0
Index = Dict (List Str)

-- a defaultdict has no ids at a node that is not there
unfoldable pub at : Index → Str → List Str
unfolding lookup
at index n = elim (lookup n index) [ none ↦ [] | some ids ↦ ids ]

-- `index[n].append(id)`
unfoldable pub append : Str → Str → Index → Index
unfolding at insert
append n id index = insert n (at index n ++ id ∷ []) index

-- the list without the first `id`
unfoldable pub removed : Str → List Str → List Str
removed id [] = []
removed id (x ∷ xs) = let rest = removed id xs in if same x id then xs else x ∷ rest

-- `index[n].remove(id)`, none for the ValueError
unfoldable pub remove : Str → Str → Index → Option Index
unfolding at contains removed insert
remove n id index =
    if contains (at index n) id then some (insert n (removed id (at index n)) index) else none

unfoldable pub unique : List Str → Bool
unique [] = true
unique (x ∷ xs) = not (contains xs x) && unique xs

same_refl : (s : Str) → same s s ≡ true
same_refl s = (same_iff s s).1 refl

contains-append :
    (xs : List Str) (a b : Str) → contains (xs ++ a ∷ []) b ≡ (contains xs b || same a b)
unfolding contains
contains-append [] a b = ground arith
contains-append (x ∷ xs) a b = ground (arith, contains-append xs a b)

unique-append :
    (xs : List Str) (a : Str)
    → unique xs ≡ true
    → contains xs a ≡ false
    → unique (xs ++ a ∷ []) ≡ true
unfolding contains unique
unique-append [] a u c = refl
unique-append (x ∷ xs) a u c =
    let rest = unique-append xs a in
    ground (arith, rest, contains-append xs a x, same_iff a x, same_iff x a)

contains-removed :
    (id j : Str) (xs : List Str)
    → unique xs ≡ true
    → contains (removed id xs) j ≡ (contains xs j && not (same id j))
unfolding contains unique removed
contains-removed id j [] u = refl
contains-removed id j (x ∷ xs) u =
    ground (arith, contains-removed id j xs, same_iff x id, same_iff x j, same_iff id j)

unique-removed : (id : Str) (xs : List Str) → unique xs ≡ true → unique (removed id xs) ≡ true
unfolding contains unique removed
unique-removed id [] u = refl
unique-removed id (x ∷ xs) u = ground (arith, unique-removed id xs, contains-removed id x xs)

at-insert :
    (n m : Str) (ids : List Str) (index : Index)
    → at (insert n ids index) m ≡ (if same n m then ids else at index m)
unfolding at
at-insert n m ids index = ground (arith, lookup-insert n m ids index)

module _ (end : KnowledgeEdge → Str) where
  -- the edge `id` has `n` at this end
  abbrev pub ends : Dict KnowledgeEdge → Str → Str → Bool
  ends edges id n = elim (lookup id edges) [ none ↦ false | some e ↦ same (end e) n ]

  -- the index has exactly the ids of the edges, each once
  pub record IsExact (edges : Dict KnowledgeEdge) (index : Index) : Type 0 where
    pub exact : (id n : Str) → contains (at index n) id ≡ ends edges id n
    pub once : (n : Str) → unique (at index n) ≡ true

  -- no edge `id` any more
  pub record IsFree (id : Str) (edges : Dict KnowledgeEdge) (index : Index) : Type 0 where
    pub left : (j n : Str) → contains (at index n) j ≡ (ends edges j n && not (same id j))
    pub once : (n : Str) → unique (at index n) ≡ true

  ends-insert :
      (edges : Dict KnowledgeEdge) (id : Str) (e : KnowledgeEdge) (j n : Str)
      → ends (insert id e edges) j n ≡ (if same id j then same (end e) n else ends edges j n)
  ends-insert edges id e j n = ground (arith, lookup-insert id j e edges)

  ends-none :
      (edges : Dict KnowledgeEdge) (id n : Str) → lookup id edges ≡ none → ends edges id n ≡ false
  ends-none edges id n h = ground (arith, h)

  pub ends-some :
      (edges : Dict KnowledgeEdge) (id : Str) (e : KnowledgeEdge) (n : Str)
      → lookup id edges ≡ some e
      → ends edges id n ≡ same (end e) n
  ends-some edges id e n h = ground (arith, h)

  -- where there was no edge `id`
  pub IsFree-none :
      (edges : Dict KnowledgeEdge) (index : Index) (id : Str)
      → IsExact edges index
      → lookup id edges ≡ none
      → IsFree id edges index
  IsFree-none edges index id x h = record {
    left = λ j n. elim (Bool-cases (same id j)) [
      | inl e ↦
          let id_is_j = (same_iff id j).0 e in
          let gone : ends edges j n ≡ false = rw (← id_is_j) (ends-none edges id n h) in
          ground (arith, x.exact j n, gone)
      | inr e ↦ ground (arith, e, x.exact j n)
    ];
    once = x.once;
  }

  -- the edge that was there is taken out of the index
  pub remove-IsFree :
      (edges : Dict KnowledgeEdge) (index : Index) (id : Str) (old : KnowledgeEdge)
      → IsExact edges index
      → lookup id edges ≡ some old
      → (index' : Index) × (remove (end old) id index ≡ some index') × IsFree id edges index'
  unfolding remove
  remove-IsFree edges index id old x h =
      let n = end old in
      let own : (m : Str) → ends edges id m ≡ same n m = λ m. ends-some edges id old m h in
      let there : contains (at index n) id ≡ true = x.exact id n ∙ (own n ∙ same_refl n) in
      let ids = removed id (at index n) in
      (
        insert n ids index,
        rw there refl,
        record {
          left = λ j m. elim (Bool-cases (same n m)) [
            | inl e ↦
                let n_is_m = (same_iff n m).0 e in
                rw (at-insert n m ids index) (
                  rw e (
                    contains-removed id j (at index n) (x.once n)
                    ∙ ap (λ b. b && not (same id j)) (x.exact j n ∙ ap (ends edges j) n_is_m)))
            | inr e ↦ rw (at-insert n m ids index) (
                rw e (elim (Bool-cases (same id j)) [
                  | inl i ↦
                      let id_is_j = (same_iff id j).0 i in
                      let none_here : ends edges j m ≡ false = rw (← id_is_j) (own m ∙ e) in
                      ground (arith, x.exact j m, none_here)
                  | inr i ↦ ground (arith, i, x.exact j m)
                ]))
          ];
          once = λ m. rw (at-insert n m ids index) (elim (Bool-cases (same n m)) [
            | inl e ↦ rw e (unique-removed id (at index n) (x.once n))
            | inr e ↦ rw e (x.once m)
          ]);
        },
      )

  appended_exact :
      (edges : Dict KnowledgeEdge) (index : Index) (id : Str) (e : KnowledgeEdge)
      → IsFree id edges index
      → (j m : Str)
      → contains (if same (end e) m then at index (end e) ++ id ∷ [] else at index m) j
        ≡ (if same id j then same (end e) m else ends edges j m)
  appended_exact edges index id e f j m = elim (Bool-cases (same (end e) m)) [
    | inl p ↦
        let here = ap (at index) ((same_iff (end e) m).0 p) in
        rw p (rw here (ground (arith, p, contains-append (at index m) id j, f.left j m)))
    | inr p ↦ rw p (ground (arith, p, f.left j m))
  ]

  -- the new edge is put into the index
  pub append-IsExact :
      (edges : Dict KnowledgeEdge) (index : Index) (id : Str) (e : KnowledgeEdge)
      → IsFree id edges index
      → IsExact (insert id e edges) (append (end e) id index)
  unfolding append
  append-IsExact edges index id e f =
      let n = end e in
      let ids = at index n ++ id ∷ [] in
      record {
        exact = λ j m.
            rw (at-insert n m ids index)
              (rw (ends-insert edges id e j m) (appended_exact edges index id e f j m));
        once = λ m. rw (at-insert n m ids index) (elim (Bool-cases (same n m)) [
          | inl p ↦
              let absent : contains (at index n) id ≡ false =
                ground (arith, f.left id n, same_refl id) in
              rw p (unique-append (at index n) id (f.once n) absent)
          | inr p ↦ rw p (f.once m)
        ]);
      }

  pub empty-IsExact : IsExact [] []
  unfolding lookup contains at unique
  empty-IsExact = record { exact = λ id n. refl; once = λ n. refl }
