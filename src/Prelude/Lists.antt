-- ===== src/Prelude/Lists.antt =====
-- Lists measured by native numbers, and predicates on all their items.
use Prim.Native.Nat.{ℕ, zero, suc, ◌+◌}
use mathlib.Core.Path.{◌≡◌, refl}
use mathlib.Core.Bool.{Bool, true, false, ◌&&◌, ◌||◌}
use mathlib.Core.Logic.{◌⊎◌, inl, inr, ◌↔◌}
use mathlib.Core.Option.{Option, none, some}
use mathlib.Core.List.{List, [], ◌∷◌, ◌++◌}
use native.Mathlib.Omega.{arith}

module _ {ℓ} {A : Type ℓ} where
  abbrev pub length : List A → ℕ
  length [] = 0
  length (x ∷ xs) = suc (length xs)

  abbrev pub get_elem? : List A → ℕ → Option A
  get_elem? [] i = none
  get_elem? (x ∷ xs) zero = some x
  get_elem? (x ∷ xs) (suc i) = get_elem? xs i

  abbrev pub take : ℕ → List A → List A
  take zero xs = []
  take (suc n) [] = []
  take (suc n) (x ∷ xs) = x ∷ take n xs

  abbrev pub drop : ℕ → List A → List A
  drop zero xs = xs
  drop (suc n) [] = []
  drop (suc n) (x ∷ xs) = drop n xs

  -- A write out of bounds changes nothing.
  abbrev pub set : List A → ℕ → A → List A
  set [] i v = []
  set (x ∷ xs) zero v = v ∷ xs
  set (x ∷ xs) (suc i) v = x ∷ set xs i v

  -- `any(test(x) for x in xs)` and `all(test(x) for x in xs)`
  abbrev pub any : (A → Bool) → List A → Bool
  any test [] = false
  any test (x ∷ xs) = test x || any test xs

  abbrev pub all : (A → Bool) → List A → Bool
  all test [] = true
  all test (x ∷ xs) = test x && all test xs

  -- `[x for x in xs if test(x)]`
  abbrev pub select : (A → Bool) → List A → List A
  select test [] = []
  select test (x ∷ xs) =
      let rest = select test xs in elim (test x) [ true ↦ x ∷ rest | false ↦ rest ]

  -- a predicate that holds of every item
  abbrev pub All {κ} : (A → Type κ) → List A → Type κ
  All P [] = Unit
  All P (x ∷ xs) = P x × All P xs

  pub length-append : (xs ys : List A) → length (xs ++ ys) ≡ length xs + length ys
  length-append [] ys = omega arith
  length-append (x ∷ xs) ys = omega (arith, length-append xs ys)

  pub All-append {κ} : (P : A → Type κ) (xs ys : List A) → All P xs → All P ys → All P (xs ++ ys)
  All-append P [] ys hx hy = hy
  All-append P (x ∷ xs) ys hx hy = (hx.0, All-append P xs ys hx.1 hy)

  pub All-map {κ μ} :
      {P : A → Type κ} {Q : A → Type μ}
      → ((a : A) → P a → Q a)
      → (xs : List A) → All P xs
      → All Q xs
  All-map f [] h = tt
  All-map f (x ∷ xs) h = (f x h.0, All-map f xs h.1)

module _ {A : Type 0} where
  -- `a` stands in the list
  abbrev pub In : A → List A → Type 0
  In a [] = ⊥
  In a (x ∷ xs) = (x ≡ a) ⊎ In a xs

  In-select_step :
      (test : A → Bool) (a x : A) (kept xs : List A) (b : Bool)
      → test x ≡ b
      → In a kept ↔ (In a xs × (test a ≡ true))
      → In a (elim (test x) [ true ↦ x ∷ kept | false ↦ kept ]) ↔ (In a (x ∷ xs) × (test a ≡ true))
  In-select_step test a x kept xs true e ih = rw e (
    elim [ inl p ↦ (inl p, rw (← p) e) | inr m ↦ (inr (ih.0 m).0, (ih.0 m).1) ],
    λ (m, t). elim m [ inl p ↦ inl p | inr n ↦ inr (ih.1 (n, t)) ],
  )
  In-select_step test a x kept xs false e ih = rw e (
    λ m. (inr (ih.0 m).0, (ih.0 m).1),
    λ (m, t). elim m [ inl p ↦ absurd (cc (p, e, t)) | inr n ↦ ih.1 (n, t) ],
  )

  -- membership in a filtered list
  pub In-select :
      (test : A → Bool) (a : A) (xs : List A) → In a (select test xs) ↔ (In a xs × (test a ≡ true))
  In-select test a [] = (λ h. absurd h, λ h. absurd h.0)
  In-select test a (x ∷ xs) =
      In-select_step test a x (select test xs) xs (test x) refl (In-select test a xs)

  pub All-In : (xs : List A) → All (λ x. In x xs) xs
  All-In [] = tt
  All-In (x ∷ xs) = (inl refl, All-map (λ a m. inr m) xs (All-In xs))

  pub In-append_left : (x : A) (xs ys : List A) → In x xs → In x (xs ++ ys)
  In-append_left x [] ys m = absurd m
  In-append_left x (y ∷ xs) ys (inl p) = inl p
  In-append_left x (y ∷ xs) ys (inr m) = inr (In-append_left x xs ys m)

  pub In-append_end : (x : A) (xs : List A) → In x (xs ++ x ∷ [])
  In-append_end x [] = inl refl
  In-append_end x (y ∷ xs) = inr (In-append_end x xs)

  pub In-append_split : (x y : A) (xs : List A) → In x (xs ++ y ∷ []) → In x xs ⊎ (y ≡ x)
  In-append_split x y [] (inl p) = inr p
  In-append_split x y [] (inr m) = absurd m
  In-append_split x y (z ∷ xs) (inl p) = inl (inl p)
  In-append_split x y (z ∷ xs) (inr m) = elim (In-append_split x y xs m) [
    | inl k ↦ inl (inr k)
    | inr p ↦ inr p
  ]
