-- ===== src/Skills/Manager/Examples.antt =====
-- A manager with an empty library and database, and a few calls of it.
use minecraft_ai.Prelude.{
  Bool, map, ℕ, ◌*◌, ◌/◌, true, false, List, [], ◌∷◌, Option, none, some, ◌≡◌, refl, ◌⊎◌, Str,
  codes, lookup, ltb, In, arith, same,
}
use minecraft_ai.Skills.{
  SkillSpec, SkillRun, SkillStats, SkillOutcome, stats_at, candidate, experimental, failed,
  succeeded,
}
use minecraft_ai.Skills.Manager.{Tables, SkillLifecycleManager, SkillPromotionEvidence, Rates}
use minecraft_ai.Skills.Manager.Calls.{
  Call, creating, recording, evaluating, call_all, Grants, Was, IsInStep,
}
use minecraft_ai.Skills.Manager.Stages.{call_all-IsInStep, call_all-Grants}

-- whole percents
abbrev percents : Rates
percents = record {
  Rate = ℕ;
  ratio = λ a b. a * 100 / b;
  zero_rate = 0;
  percent = λ n. n;
  ltb_rate = ltb;
}

abbrev chop : Str
chop = codes "chop"

abbrev day : Str
day = codes "day"

abbrev new_manager : SkillLifecycleManager
new_manager = record {
  library = record { specs = []; stats = [] };
  db = some (record { skills = []; skill_stats = [] });
}

new_manager-IsInStep : IsInStep new_manager
unfolding lookup
new_manager-IsInStep = (λ k spec h. ground (arith, h), λ t h k. ground (arith, h))

abbrev evidence : ℕ → ℕ → SkillPromotionEvidence
evidence samples successes = record {
  sample_count = samples;
  successes = successes;
  context_count = 3;
  critical_safety_failures = 0;
  protected_regression = false;
}

abbrev run : Str → SkillOutcome → SkillRun
run name outcome = record {
  skill_id = name;
  outcome = outcome;
  context_key = day;
  failure_code = none;
}

-- too low a rate first, then enough
abbrev calls : List (Call × Bool)
calls =
    (creating true chop [] candidate, true)
    ∷ (evaluating chop (evidence 20 13), true)
    ∷ (evaluating chop (evidence 20 14), true)
    ∷ []

abbrev promoted_chop : SkillSpec
promoted_chop = record {
  skill_id = chop;
  version = 2;
  stage = experimental;
  expected_effects = [];
  recovery_skills = [];
  traversal = false;
}

chop_promoted : lookup chop (call_all percents calls new_manager).library.specs ≡ some promoted_chop
unfolding call_all same
chop_promoted = refl

call_all-IsInStep_example : IsInStep (call_all percents calls new_manager)
call_all-IsInStep_example =
    call_all-IsInStep percents calls new_manager (refl, (refl, (refl, tt))) new_manager-IsInStep

call_all-Grants_example :
    Was [] chop experimental
    ⊎ ((c : Call) × (saves : Bool) × In (c, saves) calls × Grants percents c chop experimental)
call_all-Grants_example =
    call_all-Grants percents calls new_manager new_manager-IsInStep.0 chop promoted_chop
      chop_promoted

-- a skill fails, and another then succeeds in its context
abbrev after_relief : SkillLifecycleManager
after_relief =
    call_all percents
      ((recording (run chop failed), true) ∷ (recording (run day succeeded), true) ∷ []) new_manager

abbrev streak : Option SkillStats → Option ℕ
streak none = none
streak (some s) = some s.consecutive_failures

abbrev saved_streak : Option Tables → Option ℕ
saved_streak none = none
saved_streak (some t) = streak (stats_at (chop, day) t.skill_stats)

-- the streak is shorter in the library, and not in the database
relief_not_saved :
    (streak (stats_at (chop, day) after_relief.library.stats) ≡ some 0)
    × (saved_streak after_relief.db ≡ some 1)
unfolding call_all same stats_at
relief_not_saved = (refl, refl)

-- a write that fails raises, and leaves the library ahead of the database
abbrev unsaved : SkillLifecycleManager
unsaved = call_all percents ((creating true chop [] candidate, false) ∷ []) new_manager

abbrev saved_skill : Option Tables → Option SkillSpec
saved_skill none = none
saved_skill (some t) = lookup chop t.skills

library_ahead :
    (map (λ (x : Str × SkillSpec). x.1.version) unsaved.library.specs ≡ 1 ∷ [])
    × (saved_skill unsaved.db ≡ none)
unfolding call_all same lookup
library_ahead = (refl, refl)
