-- ===== src/Planning/Names.antt =====
-- The ids of steps, `f"step-{counter[0]:04d}"`: different counters give different ids.
use minecraft_ai.Prelude.{
  ℕ, zero, suc, ◌+◌, ◌*◌, ◌-◌, ◌/◌, ◌%◌, ◌<◌, [], ◌∷◌, ◌++◌, ◌≡◌, refl, ap, sym, ◌∙◌, ltb, ltb→lt,
  if◌then◌else◌, length, drop, Str, codes, inl, inr, Bool-cases, arith,
}

-- the decimal digits of `n` before `later`; fuel above `n` is enough, since n / 10 < n
unfoldable pub decimal : (fuel n : ℕ) → Str → Str
decimal zero n later = later
decimal (suc fuel) n later =
    let more = decimal fuel (n / 10) ((48 + n % 10) ∷ later) in
    if ltb n 10 then (48 + n % 10) ∷ later else more

unfoldable pub zeros : ℕ → Str → Str
zeros zero s = s
zeros (suc n) s = 48 ∷ zeros n s

unfoldable pub step_name : ℕ → Str
unfolding decimal zeros
step_name n = let digits = decimal (suc n) n [] in codes "step-" ++ zeros (4 - length digits) digits

-- the number that digits are read as, after `r`
unfoldable read : ℕ → Str → ℕ
read r [] = r
read r (d ∷ ds) = read (10 * r + (d - 48)) ds

read-decimal : (fuel n : ℕ) (later : Str) → n < fuel → read 0 (decimal fuel n later) ≡ read n later
unfolding read decimal
read-decimal zero n later h = ground arith
read-decimal (suc fuel) n later h = elim (Bool-cases (ltb n 10)) [
  | inl e ↦ rw e (ap (λ r. read r later) (omega (arith, ltb→lt n 10 e)))
  | inr e ↦ rw e (
      read-decimal fuel (n / 10) ((48 + n % 10) ∷ later) (grind (arith, e, h))
      ∙ ap (λ r. read r later) (omega arith))
]

read-zeros : (k : ℕ) (s : Str) → read 0 (zeros k s) ≡ read 0 s
unfolding read zeros
read-zeros zero s = refl
read-zeros (suc k) s = read-zeros k s

abbrev number : Str → ℕ
number s = read 0 (drop 5 s)

number-step_name : (n : ℕ) → number (step_name n) ≡ n
unfolding step_name read
number-step_name n =
    read-zeros (4 - length (decimal (suc n) n [])) (decimal (suc n) n [])
    ∙ read-decimal (suc n) n [] (ground arith)

pub step_name_injective : (a b : ℕ) → step_name a ≡ step_name b → a ≡ b
step_name_injective a b p = sym (number-step_name a) ∙ (ap number p ∙ number-step_name b)
