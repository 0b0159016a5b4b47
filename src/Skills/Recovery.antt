-- ===== src/Skills/Recovery.antt =====
-- `select_learned_recovery` of skills/recovery.py. Whether a skill may start now, which is
-- `initiation_satisfied` on the blackboard, is an argument.
pub mod Chosen
pub mod Examples
use minecraft_ai.Prelude.{
  ℕ, ◌+◌, ◌<◌, ◌≤◌, Bool, true, false, List, [], ◌∷◌, Option, none, some, ◌≡◌, refl, sym, ap, ◌∙◌,
  ◌⊎◌, inl, inr, ◌&&◌, ◌||◌, not, ltb, leb, if◌then◌else◌, Str, same, Dict, lookup, insert, values,
  from_keys, contains, In, All, Bool-cases, Option-cases, arith, ◌++◌,
}
use minecraft_ai.Skills.{SkillSpec, SkillLibrary, Key, stats_at, decisive_attempts, is_withdrawn}
use minecraft_ai.Skills.Tolerance.{
  SkillFloats, contextual_failure_streak, hierarchical_success_probability,
}

-- `0 if stats is None else stats.decisive_attempts`
unfoldable pub decisive_at : Key → SkillLibrary → ℕ
unfolding stats_at decisive_attempts
decisive_at k lib = elim (stats_at k lib.stats) [ none ↦ 0 | some s ↦ decisive_attempts s ]

unfoldable attempts_of : (context_key : Str) → SkillLibrary → List SkillSpec → Dict ℕ → Dict ℕ
unfolding decisive_at insert
attempts_of context_key lib [] attempts = attempts
attempts_of context_key lib (c ∷ cs) attempts =
    attempts_of context_key lib cs
      (insert c.skill_id (decisive_at (c.skill_id, context_key) lib) attempts)

unfoldable sum : List ℕ → ℕ
sum [] = 0
sum (n ∷ ns) = n + sum ns

module _ (fl : SkillFloats) where
  -- the first of the greatest
  unfoldable pub greatest :
      fl.Float × SkillSpec → List (fl.Float × SkillSpec) → fl.Float × SkillSpec
  greatest best [] = best
  greatest best (x ∷ xs) = greatest (if fl.ltb_float best.0 x.0 then x else best) xs

  unfoldable pub first_greatest : List (fl.Float × SkillSpec) → Option SkillSpec
  unfolding greatest
  first_greatest [] = none
  first_greatest (x ∷ xs) = some (greatest x xs).1

module _ (fl : SkillFloats) (feasible : SkillSpec → Bool) (context_key : Str)
    (max_context_failures : ℕ) (lib : SkillLibrary) where
  unfoldable pub is_eligible : Str → SkillSpec → Bool
  unfolding contextual_failure_streak
  is_eligible recovery_id c =
      not (
        is_withdrawn c.stage
        || leb max_context_failures (contextual_failure_streak fl (recovery_id, context_key) lib))
      && feasible c

  unfoldable pub candidates_among : List Str → List SkillSpec
  unfolding lookup is_eligible
  candidates_among [] = []
  candidates_among (recovery_id ∷ ids) =
      let rest = candidates_among ids in
      elim (lookup recovery_id lib.specs) [
        | none ↦ rest
        | some c ↦ if is_eligible recovery_id c then c ∷ rest else rest
      ]

  module _ (exploration_strength log_total : fl.Float) where
    -- none for the ValueError of the strength 1.0
    unfoldable pub score : SkillSpec → Option fl.Float
    unfolding hierarchical_success_probability decisive_at
    score c = elim (hierarchical_success_probability fl (c.skill_id, context_key) (fl.of_ℕ 1) lib) [
      | none ↦ none
      | some mean ↦ some (
          fl.plus mean (
            fl.times exploration_strength (
              fl.sqrt (
                fl.divided log_total
                  (fl.plus (fl.of_ℕ 1) (fl.of_ℕ (decisive_at (c.skill_id, context_key) lib)))))))
    ]

    unfoldable pub scored : List SkillSpec → Option (List (fl.Float × SkillSpec))
    unfolding score
    scored [] = some []
    scored (c ∷ cs) =
        let rest = scored cs in
        elim (score c) [
          | none ↦ none
          | some s ↦ elim rest [ none ↦ none | some xs ↦ some ((s, c) ∷ xs) ]
        ]

  unfoldable pub log_total_of : List SkillSpec → fl.Float
  unfolding attempts_of sum values
  log_total_of cs =
      fl.log (fl.plus (fl.of_ℕ 2) (fl.of_ℕ (sum (values (attempts_of context_key lib cs [])))))

  -- none for a ValueError
  unfoldable pub select_learned_recovery :
      (recovery_ids : List Str) → (exploration_strength : fl.Float) → Option (Option SkillSpec)
  unfolding from_keys candidates_among scored first_greatest log_total_of
  select_learned_recovery recovery_ids exploration_strength =
      let candidates = candidates_among (from_keys [] recovery_ids) in
      if ltb max_context_failures 1 || not (fl.is_exploration exploration_strength)
      then none
      else elim (scored exploration_strength (log_total_of candidates) candidates) [
        | none ↦ none
        | some xs ↦ some (first_greatest fl xs)
      ]
