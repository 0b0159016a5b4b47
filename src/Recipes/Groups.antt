-- ===== src/Recipes/Groups.antt =====
-- Grouping requirement edges: every edge is in the group of its key, and in no other.
use mathlib.Core.Path.{subst}
use minecraft_ai.Prelude.{
  List, [], ◌∷◌, ◌++◌, ◌≡◌, refl, sym, ap, ◌∙◌, ◌⊎◌, inl, inr, Option, some, if◌then◌else◌, Str,
  same, same_iff, Dict, lookup, insert, lookup-insert, In, In-append_left, In-append_end,
  In-append_split, Bool-cases, Option-cases, arith,
}
use minecraft_ai.Knowledge.{KnowledgeEdge}
use minecraft_ai.Recipes.{
  group_key, group_at, order_with, group_edges, groups_of, group_requirement_edges,
}

abbrev Groups : Type 0
Groups = Dict (List KnowledgeEdge)

group_at-insert :
    (k j : Str) (es : List KnowledgeEdge) (groups : Groups)
    → group_at (insert k es groups) j ≡ (if same k j then es else group_at groups j)
unfolding group_at
group_at-insert k j es groups = ground (arith, lookup-insert k j es groups)

-- the groups with one edge more
abbrev grouped : KnowledgeEdge → Groups → Groups
grouped e groups = insert (group_key e) (group_at groups (group_key e) ++ e ∷ []) groups

abbrev Belongs : KnowledgeEdge → Str → Groups → Type 0
Belongs e k groups = In e (group_at groups k)

grouped_keeps :
    (e f : KnowledgeEdge) (k : Str) (groups : Groups)
    → Belongs f k groups
    → Belongs f k (grouped e groups)
grouped_keeps e f k groups m = elim (Bool-cases (same (group_key e) k)) [
  | inl p ↦
      let k_is = (same_iff (group_key e) k).0 p in
      let m' = subst (λ j. In f (group_at groups j)) (sym k_is) m in
      rw (group_at-insert (group_key e) k (group_at groups (group_key e) ++ e ∷ []) groups)
        (rw p (In-append_left f (group_at groups (group_key e)) (e ∷ []) m'))
  | inr p ↦
      rw (group_at-insert (group_key e) k (group_at groups (group_key e) ++ e ∷ []) groups) (rw p m)
]

grouped_own : (e : KnowledgeEdge) (groups : Groups) → Belongs e (group_key e) (grouped e groups)
grouped_own e groups =
    let k = group_key e in
    rw (group_at-insert k k (group_at groups k ++ e ∷ []) groups)
      (rw ((same_iff k k).1 refl) (In-append_end e (group_at groups k)))

grouped_split :
    (e f : KnowledgeEdge) (k : Str) (groups : Groups)
    → Belongs f k (grouped e groups)
    → Belongs f k groups ⊎ ((e ≡ f) × (group_key e ≡ k))
grouped_split e f k groups m =
    let at_k = group_at-insert (group_key e) k (group_at groups (group_key e) ++ e ∷ []) groups in
    let m' = subst (In f) at_k m in
    elim (Bool-cases (same (group_key e) k)) [
      | inl p ↦
          let k_is = (same_iff (group_key e) k).0 p in
          let both : In f (group_at groups (group_key e) ++ e ∷ []) =
            subst
              (λ b. In f (if b then group_at groups (group_key e) ++ e ∷ [] else group_at groups k))
              p m' in
          elim (In-append_split f e (group_at groups (group_key e)) both) [
            | inl old ↦ inl (subst (λ j. In f (group_at groups j)) k_is old)
            | inr q ↦ inr (q, k_is)
          ]
      | inr p ↦ inl (
          subst
            (λ b. In f (if b then group_at groups (group_key e) ++ e ∷ [] else group_at groups k)) p
            m')
    ]

-- the order with the key of one edge more
abbrev ordered : KnowledgeEdge → Groups → List Str → List Str
ordered e groups order = order_with (lookup (group_key e) groups) (group_key e) order

-- every key of a group stands in the order
abbrev IsListed : Groups → List Str → Type 0
IsListed groups order = (k : Str) (es : List KnowledgeEdge) → lookup k groups ≡ some es → In k order

ordered_keeps :
    (e : KnowledgeEdge) (groups : Groups) (order : List Str) (k : Str)
    → In k order
    → In k (ordered e groups order)
unfolding order_with
ordered_keeps e groups order k m =
    let Wanted : Option (List KnowledgeEdge) → Type 0 =
      λ o. In k (order_with o (group_key e) order) in
    elim (Option-cases (lookup (group_key e) groups)) [
      | inl h ↦ subst Wanted (sym h) (In-append_left k order (group_key e ∷ []) m)
      | inr (es, h) ↦ subst Wanted (sym h) m
    ]

ordered_own :
    (e : KnowledgeEdge) (groups : Groups) (order : List Str)
    → IsListed groups order
    → In (group_key e) (ordered e groups order)
unfolding order_with
ordered_own e groups order l =
    let Wanted : Option (List KnowledgeEdge) → Type 0 =
      λ o. In (group_key e) (order_with o (group_key e) order) in
    elim (Option-cases (lookup (group_key e) groups)) [
      | inl h ↦ subst Wanted (sym h) (In-append_end (group_key e) order)
      | inr (es, h) ↦ subst Wanted (sym h) (l (group_key e) es h)
    ]

IsListed-grouped :
    (e : KnowledgeEdge) (groups : Groups) (order : List Str)
    → IsListed groups order
    → IsListed (grouped e groups) (ordered e groups order)
IsListed-grouped e groups order l k es h = elim (Bool-cases (same (group_key e) k)) [
  | inl p ↦
      subst (λ j. In j (ordered e groups order)) ((same_iff (group_key e) k).0 p)
        (ordered_own e groups order l)
  | inr p ↦
      let at_k = lookup-insert (group_key e) k (group_at groups (group_key e) ++ e ∷ []) groups in
      let old : lookup k groups ≡ some es = ground (arith, p, at_k, h) in
      ordered_keeps e groups order k (l k es old)
]

record Grouped (es : List KnowledgeEdge) (groups : Groups) (order : List Str) (groups' : Groups)
    (order' : List Str) : Type 0 where
  keeps : (f : KnowledgeEdge) (k : Str) → Belongs f k groups → Belongs f k groups'
  keeps_order : (k : Str) → In k order → In k order'
  own : (e : KnowledgeEdge) → In e es → Belongs e (group_key e) groups' × In (group_key e) order'
  only :
      (f : KnowledgeEdge) (k : Str)
      → Belongs f k groups'
      → Belongs f k groups ⊎ (In f es × (group_key f ≡ k))

group_edges-Grouped :
    (es : List KnowledgeEdge) (groups : Groups) (order : List Str)
    → IsListed groups order
    → Grouped es groups order (group_edges es groups order).0 (group_edges es groups order).1
unfolding group_edges
group_edges-Grouped [] groups order l = record {
  keeps = λ f k m. m;
  keeps_order = λ k m. m;
  own = λ e m. absurd m;
  only = λ f k m. inl m;
}
group_edges-Grouped (e ∷ es) groups order l =
    let rest =
      group_edges-Grouped es (grouped e groups) (ordered e groups order)
        (IsListed-grouped e groups order l) in
    record {
      keeps = λ f k m. rest.keeps f k (grouped_keeps e f k groups m);
      keeps_order = λ k m. rest.keeps_order k (ordered_keeps e groups order k m);
      own = λ f. elim [
        | inl p ↦
            subst
              (λ x.
                Belongs x (group_key x) (group_edges (e ∷ es) groups order).0
                × In (group_key x) (group_edges (e ∷ es) groups order).1)
              p
              (
                rest.keeps e (group_key e) (grouped_own e groups),
                rest.keeps_order (group_key e) (ordered_own e groups order l),
              )
        | inr m ↦ rest.own f m
      ];
      only = λ f k m. elim (rest.only f k m) [
        | inr (n, p) ↦ inr (inr n, p)
        | inl old ↦ elim (grouped_split e f k groups old) [
          | inl n ↦ inl n
          | inr (p, q) ↦ inr (inl p, sym (ap group_key p) ∙ q)
        ]
      ];
    }

-- every edge is in some group, and a group has edges of the list with one key
pub record IsGrouping (es : List KnowledgeEdge) (groups : List (List KnowledgeEdge)) : Type 0 where
  pub covers :
      (e : KnowledgeEdge) → In e es → (group : List KnowledgeEdge) × In group groups × In e group
  pub keyed :
      (group : List KnowledgeEdge)
      → In group groups
      → (k : Str) × ((e : KnowledgeEdge) → In e group → In e es × (group_key e ≡ k))

In-groups_of :
    (groups : Groups) (k : Str) (order : List Str)
    → In k order
    → In (group_at groups k) (groups_of groups order)
unfolding groups_of
In-groups_of groups k [] m = absurd m
In-groups_of groups k (j ∷ order) (inl p) = inl (ap (group_at groups) p)
In-groups_of groups k (j ∷ order) (inr m) = inr (In-groups_of groups k order m)

In-groups_of_split :
    (groups : Groups) (group : List KnowledgeEdge) (order : List Str)
    → In group (groups_of groups order)
    → (k : Str) × (group_at groups k ≡ group)
unfolding groups_of
In-groups_of_split groups group [] m = absurd m
In-groups_of_split groups group (j ∷ order) (inl p) = (j, p)
In-groups_of_split groups group (j ∷ order) (inr m) = In-groups_of_split groups group order m

pub group_requirement_edges-IsGrouping :
    (es : List KnowledgeEdge) → IsGrouping es (group_requirement_edges es)
unfolding group_requirement_edges group_at lookup
group_requirement_edges-IsGrouping es =
    let none_listed : IsListed [] [] = λ k fs h. absurd (cc h) in
    let g = group_edges-Grouped es [] [] none_listed in
    let groups = (group_edges es [] []).0 in
    record {
      covers = λ e m.
          let (own, listed) = g.own e m in
          (
            group_at groups (group_key e),
            In-groups_of groups (group_key e) (group_edges es [] []).1 listed,
            own,
          );
      keyed = λ group m.
          let (k, p) = In-groups_of_split groups group (group_edges es [] []).1 m in
          (
            k,
            λ e n. elim (g.only e k (subst (In e) (sym p) n)) [
              | inl nowhere ↦ absurd nowhere
              | inr found ↦ found
            ],
          );
    }
