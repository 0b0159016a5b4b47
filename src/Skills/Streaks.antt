-- ===== src/Skills/Streaks.antt =====
-- What a recorded success does to the streaks of failures, and so to the skills that are blocked.
use minecraft_ai.Prelude.{
  ◌-◌, true, false, some, ◌≡◌, refl, sym, ap, ◌∙◌, inl, inr, if◌then◌else◌, same, same_iff, arith,
  Bool-cases, Option-cases,
}
use minecraft_ai.Prelude.Int.{ℤ, pos, leb_ℤ, max_ℤ, min_ℤ, ◌+ℤ◌, ◌<ℤ◌}
use mathlib.Core.Path.{subst}
use minecraft_ai.Skills.{
  succeeded, SkillRun, SkillStats, Key, stats_at, SkillLibrary, counted, is_success, relieved,
  observed, record_run,
}
use minecraft_ai.Skills.Tolerance.{
  SkillFloats, hierarchical_success_probability, contextual_failure_streak, extra_trials,
  is_traversal, failure_tolerance, is_contextually_blocked,
}
use minecraft_ai.Skills.Observed.{
  key_of, stats_or_new, change, stats_after, is_finished, recorded, record_run-recorded,
}

module _ (fl : SkillFloats) where
  streak_lem :
      (k : Key) (lib : SkillLibrary)
      → contextual_failure_streak fl k lib ≡ (stats_or_new k lib.stats).consecutive_failures
  unfolding contextual_failure_streak
  streak_lem k lib = ground arith

  pub probability_some :
      (k : Key) (strength : fl.Float) (lib : SkillLibrary)
      → fl.is_strength strength ≡ true
      → (p : fl.Float) × (hierarchical_success_probability fl k strength lib ≡ some p)
  unfolding hierarchical_success_probability
  probability_some k strength lib h = elim (Option-cases (stats_at k lib.stats)) [
    | inl n ↦ rw h (rw n (_, refl))
    | inr (s, n) ↦ rw h (rw n (_, refl))
  ]

  max_le : (a b : ℤ) → leb_ℤ a (max_ℤ a b) ≡ true
  max_le a b = ground arith

  -- the tolerance is at least the least one
  tolerance_le :
      (k : Key) (least most : ℤ) (lib : SkillLibrary)
      → fl.is_strength (fl.of_ℕ 1) ≡ true
      → (t : ℤ) × (failure_tolerance fl k least most lib ≡ some t) × (leb_ℤ least t ≡ true)
  unfolding failure_tolerance
  tolerance_le k least most lib h =
      let (p, e) = probability_some k (fl.of_ℕ 1) lib h in
      elim (Bool-cases (is_traversal fl k.0 lib)) [
        | inl y ↦
            rw y (rw e (_, refl, max_le least (min_ℤ most (least +ℤ extra_trials fl k p lib))))
        | inr y ↦ rw y (least, refl, ground arith)
      ]

  not_blocked :
      (k : Key) (least most : ℤ) (lib : SkillLibrary)
      → fl.is_strength (fl.of_ℕ 1) ≡ true
      → pos 0 <ℤ least
      → contextual_failure_streak fl k lib ≡ 0
      → is_contextually_blocked fl k least most lib ≡ some false
  unfolding is_contextually_blocked
  not_blocked k least most lib h l e =
      let (t, f, g) = tolerance_le k least most lib h in ground (arith, f, g, l, e)

  change_streak :
      (run : SkillRun) (k : Key) (s : SkillStats)
      → run.outcome ≡ succeeded
      → (change run k s).consecutive_failures ≡ (
          if same k.1 run.context_key
          then if same k.0 run.skill_id then 0 else s.consecutive_failures - 1
          else s.consecutive_failures)
  unfolding observed counted is_success relieved
  change_streak run k s h = ground (arith, h)

  -- Recording a success raises nothing. It takes the streak of failures of its skill in its context
  -- to 0 and shortens the streak of every other skill in that context by one, where it has any;
  -- streaks in other contexts stay. With a least tolerance above 0 the skill is then not blocked in
  -- that context, provided that 1.0 passes as a strength of the prior.
  pub record_run-relieves :
      (run : SkillRun) (lib : SkillLibrary) (least most : ℤ)
      → run.outcome ≡ succeeded
      → fl.is_strength (fl.of_ℕ 1) ≡ true
      → pos 0 <ℤ least
      → (lib' : SkillLibrary) × (record_run run lib ≡ some lib')
        × (((k : Key)
              → contextual_failure_streak fl k lib' ≡ (
                  if same k.1 run.context_key
                  then if same k.0 run.skill_id then 0 else contextual_failure_streak fl k lib - 1
                  else contextual_failure_streak fl k lib))
            × (is_contextually_blocked fl (key_of run) least most lib' ≡ some false))
  record_run-relieves run lib least most h strength l =
      let lib' = recorded run lib in
      let streak : (k : Key)
          → contextual_failure_streak fl k lib' ≡ (
              if same k.1 run.context_key
              then if same k.0 run.skill_id then 0 else contextual_failure_streak fl k lib - 1
              else contextual_failure_streak fl k lib) =
        λ k. rw (streak_lem k lib) (
          streak_lem k lib'
          ∙ ap (λ (s : SkillStats). s.consecutive_failures) (stats_after run k lib.stats)
          ∙ change_streak run k (stats_or_new k lib.stats) h) in
      let own : contextual_failure_streak fl (key_of run) lib' ≡ 0 = ground (
        arith,
        streak (key_of run),
        (same_iff run.context_key run.context_key).1 refl,
        (same_iff run.skill_id run.skill_id).1 refl,
      ) in
      (
        lib',
        record_run-recorded run lib (subst (λ o. is_finished o ≡ true) (sym h) refl),
        (streak, not_blocked (key_of run) least most lib' strength l own),
      )
