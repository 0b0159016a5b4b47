-- ===== src/Prelude/Sort.antt =====
-- `sorted(items, key=…)` for text keys, and the order of texts by code points.
use mathlib.Core.List.{List, [], ◌∷◌}
use mathlib.Core.Bool.{Bool, true, false, ◌||◌, ◌&&◌}
use mathlib.Core.Path.{◌≡◌, refl}
use mathlib.Core.Logic.{◌⊎◌, inl, inr, ◌↔◌}
use native.Mathlib.Omega.{arith}
use minecraft_ai.Prelude.Tests.{if◌then◌else◌, ltb, ◌==◌, Bool-cases}
use minecraft_ai.Prelude.Lists.{In, All}
use minecraft_ai.Prelude.Strings.{Str}

-- `s <= t`
unfoldable pub str_leb : Str → Str → Bool
str_leb [] t = true
str_leb (c ∷ s) [] = false
str_leb (c ∷ s) (d ∷ t) = ltb c d || (c == d && str_leb s t)

pub str_leb_total : (s t : Str) → str_leb s t ≡ false → str_leb t s ≡ true
unfolding str_leb
str_leb_total [] t h = cc
str_leb_total (c ∷ s) [] h = refl
str_leb_total (c ∷ s) (d ∷ t) h = ground (arith, str_leb_total s t)

module _ {A : Type 0} (key : A → Str) where
  -- into its place, before the items with an equal key
  unfoldable pub place : A → List A → List A
  place a [] = a ∷ []
  place a (x ∷ xs) = if str_leb (key a) (key x) then a ∷ x ∷ xs else x ∷ place a xs

  -- the first item is placed last, so items with equal keys keep their order
  unfoldable pub sort_by : List A → List A
  unfolding place
  sort_by [] = []
  sort_by (x ∷ xs) = place x (sort_by xs)

  -- each item's key is at most the next one's
  abbrev pub IsSortedBy : List A → Type 0
  IsSortedBy [] = Unit
  IsSortedBy (x ∷ []) = Unit
  IsSortedBy (x ∷ y ∷ ys) = (str_leb (key x) (key y) ≡ true) × IsSortedBy (y ∷ ys)

  place-IsSortedBy : (a : A) (xs : List A) → IsSortedBy xs → IsSortedBy (place a xs)
  unfolding place
  place-IsSortedBy a [] h = tt
  place-IsSortedBy a (x ∷ []) h = ground (arith, str_leb_total (key a) (key x))
  place-IsSortedBy a (x ∷ y ∷ ys) h =
      ground (arith, str_leb_total (key a) (key x), place-IsSortedBy a (y ∷ ys) h.1)

  pub sort_by-IsSortedBy : (xs : List A) → IsSortedBy (sort_by xs)
  unfolding sort_by
  sort_by-IsSortedBy [] = tt
  sort_by-IsSortedBy (x ∷ xs) = place-IsSortedBy x (sort_by xs) (sort_by-IsSortedBy xs)

  pub In-place : (b a : A) (xs : List A) → In b (place a xs) ↔ ((a ≡ b) ⊎ In b xs)
  unfolding place
  In-place b a [] = (λ h. h, λ h. h)
  In-place b a (x ∷ xs) = elim (Bool-cases (str_leb (key a) (key x))) [
    | inl e ↦ rw e (λ h. h, λ h. h)
    | inr e ↦ rw e (
      elim [
        | inl p ↦ inr (inl p)
        | inr m ↦ elim ((In-place b a xs).0 m) [ inl q ↦ inl q | inr n ↦ inr (inr n) ]
      ],
      elim [
        | inl q ↦ inr ((In-place b a xs).1 (inl q))
        | inr m ↦ elim m [ inl p ↦ inl p | inr n ↦ inr ((In-place b a xs).1 (inr n)) ]
      ],
    )
  ]

  pub In-sort_by : (b : A) (xs : List A) → In b (sort_by xs) ↔ In b xs
  unfolding sort_by
  In-sort_by b [] = (λ h. h, λ h. h)
  In-sort_by b (x ∷ xs) = (
    λ h. elim ((In-place b x (sort_by xs)).0 h) [
      | inl p ↦ inl p
      | inr m ↦ inr ((In-sort_by b xs).0 m)
    ],
    λ h.
        (In-place b x (sort_by xs)).1
          (elim h [ inl p ↦ inl p | inr m ↦ inr ((In-sort_by b xs).1 m) ]),
  )

  -- what holds of every item
  module _ {κ} (P : A → Type κ) where
    pub All-place : (a : A) (xs : List A) → P a → All P xs → All P (place a xs)
    unfolding place
    All-place a [] h m = (h, tt)
    All-place a (x ∷ xs) h m = elim (Bool-cases (str_leb (key a) (key x))) [
      | inl e ↦ rw e (h, m)
      | inr e ↦ rw e (m.0, All-place a xs h m.1)
    ]

    pub All-sort_by : (xs : List A) → All P xs → All P (sort_by xs)
    unfolding sort_by
    All-sort_by [] m = tt
    All-sort_by (x ∷ xs) m = All-place x (sort_by xs) m.0 (All-sort_by xs m.1)
