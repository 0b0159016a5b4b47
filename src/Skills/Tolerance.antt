-- ===== src/Skills/Tolerance.antt =====
-- What SkillLibrary derives from the statistics: sums, scores, and whether a skill is blocked.
use minecraft_ai.Prelude.{
  ℕ, ◌+◌, Bool, false, [], ◌∷◌, Option, none, some, ◌&&◌, ◌||◌, not, if◌then◌else◌, Str, same,
  lookup,
}
use minecraft_ai.Prelude.Int.{ℤ, pos, ◌+ℤ◌, leb_ℤ, max_ℤ, min_ℤ}
use minecraft_ai.Skills.{
  SkillStats, new_stats, decisive_attempts, Key, Stats, stats_at, SkillLibrary,
}

-- the sum over the items that pass the test, without the streaks
unfoldable pub summed : (Key → Bool) → Stats → SkillStats
summed test [] = new_stats
summed test ((k, s) ∷ rest) =
    let more = summed test rest in
    if test k
    then record {
      successes = s.successes + more.successes;
      failures = s.failures + more.failures;
      timeouts = s.timeouts + more.timeouts;
      cancellations = s.cancellations + more.cancellations;
      consecutive_failures = 0;
      censored_failures = s.censored_failures + more.censored_failures;
    }
    else more

unfoldable pub has_stats : (Key → Bool) → Stats → Bool
has_stats test [] = false
has_stats test ((k, s) ∷ rest) = test k || has_stats test rest

unfoldable pub combined_stats : Str → SkillLibrary → Option SkillStats
unfolding summed has_stats
combined_stats skill_id lib =
    let matches = λ (k : Key). same k.0 skill_id in
    if has_stats matches lib.stats then some (summed matches lib.stats) else none

-- the sum of the decisive attempts of the items that pass the test
unfoldable pub decisive_sum : (Key → Bool) → Stats → ℕ
unfolding decisive_attempts
decisive_sum test [] = 0
decisive_sum test ((k, s) ∷ rest) =
    let more = decisive_sum test rest in if test k then decisive_attempts s + more else more

-- floats, with the roundings of their operations
pub record SkillFloats : Type 1 where
  pub Float : Type 0
  pub of_ℕ : ℕ → Float
  pub plus : Float → Float → Float
  pub times : Float → Float → Float
  pub divided : Float → Float → Float
  pub sqrt : Float → Float
  -- 1.5
  pub one_and_half : Float
  -- `math.isfinite(x) and x > 0`
  pub is_strength : Float → Bool
  pub log : Float → Float
  -- not a NaN
  pub is_number : Float → Bool
  pub ltb_float : Float → Float → Bool
  -- `math.isfinite(x) and x >= 0`
  pub is_exploration : Float → Bool
  -- `int(round(x))`
  pub rounded : Float → ℤ

module _ (fl : SkillFloats) where
  unfoldable pub contextual_score : Key → SkillLibrary → fl.Float
  unfolding stats_at decisive_attempts
  contextual_score k lib = elim (stats_at k lib.stats) [
    | none ↦ fl.of_ℕ 0
    | some s ↦
        fl.divided (fl.plus (fl.of_ℕ s.successes) (fl.of_ℕ 1))
          (fl.plus (fl.of_ℕ (decisive_attempts s)) (fl.of_ℕ 2))
  ]

  -- none for the ValueError of the strength
  unfoldable pub hierarchical_success_probability :
      Key → (prior_strength : fl.Float) → SkillLibrary → Option fl.Float
  unfolding summed decisive_sum stats_at decisive_attempts
  hierarchical_success_probability k prior_strength lib =
      let elsewhere = λ (j : Key). same j.0 k.0 && not (same j.1 k.1) in
      let prior =
        fl.divided (fl.plus (fl.of_ℕ (summed elsewhere lib.stats).successes) (fl.of_ℕ 1))
          (fl.plus (fl.of_ℕ (decisive_sum elsewhere lib.stats)) (fl.of_ℕ 2)) in
      if not (fl.is_strength prior_strength) then none else elim (stats_at k lib.stats) [
        | none ↦ some prior
        | some s ↦ some (
            fl.divided (fl.plus (fl.of_ℕ s.successes) (fl.times prior_strength prior))
              (fl.plus (fl.of_ℕ (decisive_attempts s)) prior_strength))
      ]

  unfoldable pub contextual_failure_streak : Key → SkillLibrary → ℕ
  unfolding stats_at
  contextual_failure_streak k lib = elim (stats_at k lib.stats) [
    | none ↦ 0
    | some s ↦ s.consecutive_failures
  ]

  -- the trials that a traversal skill has beyond the least
  unfoldable pub extra_trials : Key → fl.Float → SkillLibrary → ℤ
  unfolding stats_at decisive_attempts
  extra_trials k probability lib =
      let decisive = elim (stats_at k lib.stats) as (λ o. ℕ) [
        | none ↦ 0
        | some s ↦ decisive_attempts s
      ] in
      let uncertainty = fl.divided (fl.of_ℕ 1) (fl.sqrt (fl.plus (fl.of_ℕ 1) (fl.of_ℕ decisive))) in
      fl.rounded (fl.plus (fl.times probability (fl.of_ℕ 2)) (fl.times uncertainty fl.one_and_half))

  unfoldable pub is_traversal : Str → SkillLibrary → Bool
  unfolding lookup
  is_traversal skill_id lib = elim (lookup skill_id lib.specs) [
    | none ↦ false
    | some spec ↦ spec.traversal
  ]

  -- none for the ValueError of the strength 1.0
  unfoldable pub failure_tolerance :
      Key → (min_tolerance max_tolerance : ℤ) → SkillLibrary → Option ℤ
  unfolding is_traversal hierarchical_success_probability extra_trials
  failure_tolerance k min_tolerance max_tolerance lib =
      if is_traversal k.0 lib
      then elim (hierarchical_success_probability k (fl.of_ℕ 1) lib) [
        | none ↦ none
        | some probability ↦ some (
            max_ℤ min_tolerance
              (min_ℤ max_tolerance (min_tolerance +ℤ extra_trials k probability lib)))
      ]
      else some min_tolerance

  unfoldable pub is_contextually_blocked :
      Key → (min_tolerance max_tolerance : ℤ) → SkillLibrary → Option Bool
  unfolding contextual_failure_streak failure_tolerance
  is_contextually_blocked k min_tolerance max_tolerance lib =
      elim (failure_tolerance k min_tolerance max_tolerance lib) [
        | none ↦ none
        | some tolerance ↦ some (leb_ℤ tolerance (pos (contextual_failure_streak k lib)))
      ]
