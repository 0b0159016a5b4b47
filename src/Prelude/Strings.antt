-- ===== src/Prelude/Strings.antt =====
-- Python text as the list of its code points, and sets of texts in the order of insertion.
use Prim.Native.Nat.{ℕ}
use Prim.Native.Char.{code}
use Prim.Native.String.{String}
use mathlib.Core.Path.{◌≡◌, refl, subst}
use mathlib.Core.Logic.{◌↔◌, inl, inr}
use mathlib.Core.Bool.{Bool, true, false, ◌&&◌, ◌||◌, not}
use mathlib.Core.List.{List, [], ◌∷◌, ◌++◌}
use native.Mathlib.Omega.{arith}
use minecraft_ai.Prelude.Tests.{◌==◌, if◌then◌else◌, Bool-cases}
use minecraft_ai.Prelude.Lists.{select, In, All}

abbrev pub Str : Type 0
Str = List ℕ

-- the code points of a literal
abbrev pub codes : String → Str
codes String.[] = []
codes (String.◌∷◌ c s) = code c ∷ codes s

unfoldable pub same : Str → Str → Bool
same [] [] = true
same [] (d ∷ t) = false
same (c ∷ s) [] = false
same (c ∷ s) (d ∷ t) = c == d && same s t

pub same_iff : (s t : Str) → (same s t ≡ true) ↔ (s ≡ t)
unfolding same
same_iff [] [] = (λ h. refl, λ h. refl)
same_iff [] (d ∷ t) = (λ h. cc, λ h. cc)
same_iff (c ∷ s) [] = (λ h. cc, λ h. cc)
same_iff (c ∷ s) (d ∷ t) = ground (arith, same_iff s t)

-- `x in xs`
unfoldable pub contains : List Str → Str → Bool
contains [] a = false
contains (x ∷ xs) a = same x a || contains xs a

-- `set.update`: adds what is not there yet
unfoldable pub update : List Str → List Str → List Str
update held [] = held
update held (x ∷ xs) = update (if contains held x then held else x ∷ held) xs

-- `tuple(dict.fromkeys(items))`: the first of equal items stays
unfoldable pub from_keys : List Str → List Str → List Str
unfolding contains
from_keys seen [] = seen
from_keys seen (x ∷ xs) = from_keys (if contains seen x then seen else seen ++ x ∷ []) xs

-- `set.difference_update`, and the difference of two sets
unfoldable pub difference : List Str → List Str → List Str
difference held out = select (λ x. not (contains out x)) held

pub contains-In : (xs : List Str) (x : Str) → contains xs x ≡ true → In x xs
unfolding contains
contains-In [] x h = absurd (cc h)
contains-In (y ∷ xs) x h = elim (Bool-cases (same y x)) [
  | inl p ↦ inl ((same_iff y x).0 p)
  | inr p ↦ let later : contains xs x ≡ true = ground (arith, p, h) in inr (contains-In xs x later)
]

pub In-update_held : (held xs : List Str) (x : Str) → In x held → In x (update held xs)
unfolding update
In-update_held held [] x m = m
In-update_held held (y ∷ xs) x m = elim (Bool-cases (contains held y)) [
  | inl c ↦ rw c (In-update_held held xs x m)
  | inr c ↦ rw c (In-update_held (y ∷ held) xs x (inr m))
]

pub In-update_added : (held xs : List Str) (x : Str) → In x xs → In x (update held xs)
unfolding update
In-update_added held [] x m = absurd m
In-update_added held (y ∷ xs) x (inl p) = elim (Bool-cases (contains held y)) [
  | inl c ↦
      let there = subst (λ z. In z held) p (contains-In held y c) in
      rw c (In-update_held held xs x there)
  | inr c ↦ rw c (In-update_held (y ∷ held) xs x (inl p))
]
In-update_added held (y ∷ xs) x (inr m) = elim (Bool-cases (contains held y)) [
  | inl c ↦ rw c (In-update_added held xs x m)
  | inr c ↦ rw c (In-update_added (y ∷ held) xs x m)
]

pub All-update :
    (P : Str → Type 0) (held xs : List Str) → All P held → All P xs → All P (update held xs)
unfolding update
All-update P held [] h a = h
All-update P held (y ∷ xs) h a = elim (Bool-cases (contains held y)) [
  | inl c ↦ rw c (All-update P held xs h a.1)
  | inr c ↦ rw c (All-update P (y ∷ held) xs (a.0, h) a.1)
]
