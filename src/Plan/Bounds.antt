-- ===== src/Plan/Bounds.antt =====
-- Which labels `sanitize_plan_steps` keeps and which skills `alternative_skill_ids` offers.
use minecraft_ai.Prelude.{
  ℕ, ◌≤◌, ◌<◌, Bool, true, false, List, [], ◌∷◌, ◌++◌, ◌≡◌, refl, inl, inr, ◌||◌, ◌&&◌, not, leb,
  length, length-append, take, All, All-append, All-In, In, sort_by, All-sort_by, if◌then◌else◌,
  values, lookup, Str, same, same_iff, contains, some, Bool-cases, arith,
}
use minecraft_ai.Plan.Text.{
  PythonText, squeeze, normalized_plan_text, dropped, repeats_last, clean, sanitize_plan_steps,
}
use minecraft_ai.Skills.{is_withdrawn, SkillSpec, SkillLibrary}
use minecraft_ai.Plan.Skills.{shares_effect, ranked, rank_key, first_four, alternative_skill_ids}

module _ (py : PythonText) where
  -- a label that one of the steps gives, once it is squeezed, kept and cut to 120 characters
  abbrev pub Kept : List Str → Str → Type 0
  Kept steps l =
      (raw : Str) × In raw steps
      × (dropped py (squeeze py raw) ≡ false)
      × (l ≡ take 120 (squeeze py raw))

  clean-Kept :
      (whole cleaned steps : List Str)
      → All (λ raw. In raw whole) steps
      → All (Kept whole) cleaned
      → All (Kept whole) (clean py cleaned steps)
  unfolding clean
  clean-Kept whole cleaned [] m h = h
  clean-Kept whole cleaned (raw ∷ steps) m h =
      let text = squeeze py raw in
      let longer = cleaned ++ take 120 text ∷ [] in
      let out = dropped py text || repeats_last py cleaned (normalized_plan_text py text) in
      elim (Bool-cases out) [
        | inl p ↦
            let e : clean py cleaned (raw ∷ steps) ≡ clean py cleaned steps = ground (arith, p) in
            rw e (clean-Kept whole cleaned steps m.1 h)
        | inr p ↦
            let kept : All (Kept whole) longer =
              All-append (Kept whole) cleaned (take 120 text ∷ []) h
                ((raw, m.0, ground (arith, p), refl), tt) in
            elim (Bool-cases (leb 5 (length longer))) [
              | inl q ↦
                  let e : clean py cleaned (raw ∷ steps) ≡ longer = ground (arith, p, q) in
                  rw e kept
              | inr q ↦
                  let e : clean py cleaned (raw ∷ steps) ≡ clean py longer steps =
                    ground (arith, p, q) in
                  rw e (clean-Kept whole longer steps m.1 kept)
            ]
      ]

  length-clean :
      (cleaned steps : List Str) → length cleaned < 5 → length (clean py cleaned steps) ≤ 5
  unfolding clean
  length-clean cleaned [] h = omega arith
  length-clean cleaned (raw ∷ steps) h =
      let text = squeeze py raw in
      let longer = cleaned ++ take 120 text ∷ [] in
      ground (
        arith,
        length-append cleaned (take 120 text ∷ []),
        length-clean cleaned steps,
        length-clean longer steps,
      )

  -- At most five labels are kept, and each is one of the steps.
  pub sanitize_plan_steps_lem :
      (steps : List Str)
      → (length (sanitize_plan_steps py steps) ≤ 5)
        × All (Kept steps) (sanitize_plan_steps py steps)
  unfolding sanitize_plan_steps
  sanitize_plan_steps_lem steps =
      (length-clean [] steps (omega arith), clean-Kept steps [] steps (All-In steps) tt)

-- a skill that may stand in for the skill of `spec`
abbrev pub StandsIn : SkillSpec → Str → List SkillSpec → Str → Type 0
StandsIn spec skill_id others c =
    (other : SkillSpec) × In other others
    × (other.skill_id ≡ c)
    × (same c skill_id ≡ false)
    × (is_withdrawn other.stage ≡ false)
    × ((shares_effect spec other || contains spec.recovery_skills c) ≡ true)

ranked-StandsIn :
    (spec : SkillSpec) (skill_id : Str) (whole others : List SkillSpec)
    → All (λ o. In o whole) others
    → All (λ p. StandsIn spec skill_id whole p.1) (ranked spec skill_id others)
unfolding ranked
ranked-StandsIn spec skill_id whole [] m = tt
ranked-StandsIn spec skill_id whole (o ∷ others) m =
    let rest = ranked-StandsIn spec skill_id whole others m.1 in
    elim (Bool-cases (same o.skill_id skill_id || is_withdrawn o.stage)) [
      | inl p ↦
          let e : ranked spec skill_id (o ∷ others) ≡ ranked spec skill_id others =
            ground (arith, p) in
          rw e rest
      | inr p ↦
          let a : same o.skill_id skill_id ≡ false = ground (arith, p) in
          let w : is_withdrawn o.stage ≡ false = ground (arith, p) in
          elim (Bool-cases (shares_effect spec o)) [
            | inl q ↦
                let e : ranked spec skill_id (o ∷ others)
                    ≡ (0, o.skill_id) ∷ ranked spec skill_id others =
                  ground (arith, p, q) in
                rw e ((o, m.0, refl, a, w, ground (arith, q)), rest)
            | inr q ↦ elim (Bool-cases (contains spec.recovery_skills o.skill_id)) [
              | inl r ↦
                  let e : ranked spec skill_id (o ∷ others)
                      ≡ (1, o.skill_id) ∷ ranked spec skill_id others =
                    ground (arith, p, q, r) in
                  rw e ((o, m.0, refl, a, w, ground (arith, q, r)), rest)
              | inr r ↦
                  let e : ranked spec skill_id (o ∷ others) ≡ ranked spec skill_id others =
                    ground (arith, p, q, r) in
                  rw e rest
            ]
          ]
    ]

abbrev pub no_repeat : List Str → Bool
no_repeat [] = true
no_repeat (x ∷ xs) = not (contains xs x) && no_repeat xs

length-first_four :
    (seen : List Str) (rest : List (ℕ × Str)) → length seen < 4 → length (first_four seen rest) ≤ 4
unfolding first_four
length-first_four seen [] h = omega arith
length-first_four seen ((rank, c) ∷ rest) h = elim (Bool-cases (contains seen c)) [
  | inl p ↦ ground (arith, p, length-first_four seen rest)
  | inr p ↦ ground (arith, p, length-append seen (c ∷ []), length-first_four (seen ++ c ∷ []) rest)
]

-- the list after a turn of the loop
abbrev with_next : List Str → Str → List Str
with_next seen c = if contains seen c then seen else seen ++ c ∷ []

-- a property that a turn keeps, given a fact about each candidate, holds of the result
module _ (P : Str → Type 0) where
  with_next-All : (seen : List Str) (c : Str) → All P seen → P c → All P (with_next seen c)
  with_next-All seen c h m = elim (Bool-cases (contains seen c)) [
    | inl p ↦ rw p h
    | inr p ↦ rw p (All-append P seen (c ∷ []) h (m, tt))
  ]

  first_four-All :
      (seen : List Str) (rest : List (ℕ × Str))
      → All P seen
      → All (λ p. P p.1) rest
      → All P (first_four seen rest)
  unfolding first_four
  first_four-All seen [] h m = h
  first_four-All seen ((rank, c) ∷ rest) h m =
      let next = with_next-All seen c h m.0 in
      elim (Bool-cases (leb 4 (length (with_next seen c)))) [
        | inl q ↦
            let e : first_four seen ((rank, c) ∷ rest) ≡ with_next seen c = ground (arith, q) in
            rw e next
        | inr q ↦
            let e : first_four seen ((rank, c) ∷ rest) ≡ first_four (with_next seen c) rest =
              ground (arith, q) in
            rw e (first_four-All (with_next seen c) rest next m.1)
      ]

contains-end : (xs : List Str) (c x : Str) → contains (xs ++ c ∷ []) x ≡ (contains xs x || same c x)
unfolding contains
contains-end [] c x = ground arith
contains-end (y ∷ xs) c x = ground (arith, contains-end xs c x)

no_repeat-end :
    (xs : List Str) (c : Str)
    → no_repeat xs ≡ true
    → contains xs c ≡ false
    → no_repeat (xs ++ c ∷ []) ≡ true
unfolding contains
no_repeat-end [] c h k = ground arith
no_repeat-end (x ∷ xs) c h k =
    ground (arith, same_iff x c, same_iff c x, contains-end xs c x, no_repeat-end xs c)

no_repeat-first_four :
    (seen : List Str) (rest : List (ℕ × Str))
    → no_repeat seen ≡ true
    → no_repeat (first_four seen rest) ≡ true
unfolding first_four
no_repeat-first_four seen [] h = h
no_repeat-first_four seen ((rank, c) ∷ rest) h = elim (Bool-cases (contains seen c)) [
  | inl p ↦ ground (arith, p, no_repeat-first_four seen rest)
  | inr p ↦ ground (arith, p, no_repeat-end seen c, no_repeat-first_four (seen ++ c ∷ []) rest)
]

-- The skills offered in place of a skill of the library are at most four and all different, and
-- each is another skill of the library, not withdrawn, that shares an effect or is a recovery.
pub alternative_skill_ids_lem :
    (skills : SkillLibrary) (skill_id : Str) (spec : SkillSpec)
    → lookup skill_id skills.specs ≡ some spec
    → (length (alternative_skill_ids skills skill_id) ≤ 4)
      × (no_repeat (alternative_skill_ids skills skill_id) ≡ true)
      × All (StandsIn spec skill_id (values skills.specs)) (alternative_skill_ids skills skill_id)
unfolding alternative_skill_ids
alternative_skill_ids_lem skills skill_id spec h =
    let others = values skills.specs in
    let P = StandsIn spec skill_id others in
    let sorted = sort_by rank_key (ranked spec skill_id others) in
    let e : alternative_skill_ids skills skill_id ≡ first_four [] sorted = ground (arith, h) in
    rw e (
      length-first_four [] sorted (omega arith),
      no_repeat-first_four [] sorted refl,
      first_four-All P [] sorted tt (
          All-sort_by rank_key (λ p. P p.1) (ranked spec skill_id others)
            (ranked-StandsIn spec skill_id others others (All-In others))),
    )
