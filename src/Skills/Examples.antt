-- ===== src/Skills/Examples.antt =====
-- A library with two skills, and a history of their runs.
use minecraft_ai.Prelude.{
  ℕ, ◌+◌, ◌*◌, ◌/◌, Bool, true, false, List, [], ◌∷◌, Option, none, some, ◌≡◌, refl, ltb, map, Str,
  codes, lookup, if◌then◌else◌, same, same_iff, ◌-◌, arith,
}
use minecraft_ai.Prelude.Int.{pos, ◌+ℤ◌}
use minecraft_ai.Skills.{
  SkillSpec, SkillRun, SkillStats, SkillFailureCode, SkillLibrary, candidate, trusted, succeeded,
  failed, timed_out, locomotion_unverified, locomotion_stalled, record_run,
}
use minecraft_ai.Skills.Tolerance.{SkillFloats, contextual_failure_streak, is_contextually_blocked}
use minecraft_ai.Skills.Observed.{stats_or_new}
use minecraft_ai.Skills.Counts.{Tallies, record_all, record_all-Tallies}
use minecraft_ai.Skills.Streaks.{record_run-relieves}
use minecraft_ai.Skills.Versions.{
  Edit, registering, recording, promoting, edit_all, AreKeyed, Advances, edit_all-Advances,
}

-- whole numbers stand for floats
abbrev pub whole : SkillFloats
whole = record {
  Float = ℕ;
  of_ℕ = λ n. n;
  plus = λ a b. a + b;
  times = λ a b. a * b;
  divided = λ a b. a / b;
  sqrt = λ a. a;
  one_and_half = 2;
  is_strength = λ a. ltb 0 a;
  log = λ a. a;
  is_number = λ a. true;
  ltb_float = ltb;
  is_exploration = λ a. true;
  rounded = λ a. pos a;
}

abbrev pub skill : Str → Bool → SkillSpec
skill name traversal = record {
  skill_id = name;
  version = 1;
  stage = candidate;
  expected_effects = [];
  recovery_skills = [];
  traversal = traversal;
}

abbrev pub chop : Str
chop = codes "chop"

abbrev pub walk : Str
walk = codes "walk"

abbrev pub day : Str
day = codes "day"

abbrev pub none_run : SkillLibrary
none_run = record { specs = (chop, skill chop false) ∷ (walk, skill walk true) ∷ []; stats = [] }

abbrev pub failure : Str → SkillFailureCode → SkillRun
failure name code = record {
  skill_id = name;
  outcome = failed;
  context_key = day;
  failure_code = some code;
}

abbrev success : Str → SkillRun
success name = record {
  skill_id = name;
  outcome = succeeded;
  context_key = day;
  failure_code = none;
}

-- two failures of chopping, of which one counts, a timeout of it, and a failure of walking
abbrev pub history : List SkillRun
history =
    failure chop locomotion_stalled
    ∷ failure chop locomotion_unverified
    ∷ record { skill_id = chop; outcome = timed_out; context_key = day; failure_code = none }
    ∷ failure walk locomotion_stalled
    ∷ []

abbrev pub or_else : SkillLibrary → Option SkillLibrary → SkillLibrary
or_else lib none = lib
or_else lib (some lib') = lib'

abbrev pub tired : SkillLibrary
tired = or_else none_run (record_all history none_run)

-- the counts of failed and timed out runs and the streak
abbrev counts : SkillStats → ℕ × ℕ × ℕ × ℕ
counts s = (s.failures, s.censored_failures, s.timeouts, s.consecutive_failures)

tired_counts : counts (stats_or_new (chop, day) tired.stats) ≡ (2, 1, 1, 2)
unfolding record_all same
tired_counts = refl

chop_blocked : is_contextually_blocked whole (chop, day) (pos 2) (pos 5) tired ≡ some true
unfolding is_contextually_blocked record_all same ◌+ℤ◌
chop_blocked = refl

walk_open : is_contextually_blocked whole (walk, day) (pos 2) (pos 5) tired ≡ some false
unfolding is_contextually_blocked record_all same ◌+ℤ◌
walk_open = refl

record_all-Tallies_example :
    (lib' : SkillLibrary) × (record_all history none_run ≡ some lib')
    × ((lib'.specs ≡ none_run.specs)
        × ((k : Str × Str)
            → Tallies k history (stats_or_new k none_run.stats) (stats_or_new k lib'.stats)))
record_all-Tallies_example = record_all-Tallies history none_run (refl, (refl, (refl, (refl, tt))))

record_run-relieves_example :
    (lib' : SkillLibrary) × (record_run (success walk) tired ≡ some lib')
    × (((k : Str × Str)
          → contextual_failure_streak whole k lib' ≡ (
              if same k.1 day
              then if same k.0 walk then 0 else contextual_failure_streak whole k tired - 1
              else contextual_failure_streak whole k tired))
        × (is_contextually_blocked whole (walk, day) (pos 2) (pos 5) lib' ≡ some false))
record_run-relieves_example =
    record_run-relieves whole (success walk) tired (pos 2) (pos 5) refl refl (omega arith)

none_run-AreKeyed : AreKeyed none_run.specs
unfolding lookup
none_run-AreKeyed k spec h = ground (arith, h, same_iff chop k, same_iff walk k)

-- a promotion, an update that is not later, and one that is
abbrev updates : List Edit
updates =
    promoting chop trusted
    ∷ registering (skill chop true)
    ∷ registering (record (skill chop true) { version = 3 })
    ∷ recording (success chop)
    ∷ []

versions : map (λ (x : Str × SkillSpec). x.1.version) (edit_all updates none_run).specs ≡ 3 ∷ 1 ∷ []
unfolding edit_all same
versions = refl

edit_all-Advances_example :
    AreKeyed (edit_all updates none_run).specs
    × Advances none_run.specs (edit_all updates none_run).specs
edit_all-Advances_example = edit_all-Advances updates none_run none_run-AreKeyed
