-- ===== src/Skills.antt =====
-- SkillLibrary of skills/library.py: skills with their versions and stages, and the statistics of
-- their runs. Float arithmetic is a parameter; the fields that nothing here reads are left out.
pub mod Tolerance
pub mod Observed
pub mod Counts
pub mod Streaks
pub mod Versions
pub mod Manager
pub mod Recovery
pub mod Examples
use minecraft_ai.Prelude.{
  ℕ, suc, ◌+◌, ◌-◌, Bool, true, false, List, [], ◌∷◌, ◌++◌, Option, none, some, ◌&&◌, ◌||◌, not,
  ltb, leb, if◌then◌else◌, map, Str, same, Dict, lookup, insert,
}
use minecraft_ai.Prelude.Int.{ℤ, pos, ◌+ℤ◌, leb_ℤ, max_ℤ, min_ℤ}

pub data SkillStage : Type 0 where
  candidate experimental trusted preferred deprecated retired : SkillStage

-- `traversal` is whether `outcome_kind` is set
pub record SkillSpec : Type 0 where
  pub skill_id : Str
  pub version : ℕ
  pub stage : SkillStage
  pub expected_effects : List Str
  pub recovery_skills : List Str
  pub traversal : Bool

pub data SkillOutcome : Type 0 where
  running succeeded failed timed_out cancelled : SkillOutcome

-- why a failure is counted as no evidence, and the other causes
pub data SkillFailureCode : Type 0 where
  locomotion_stalled locomotion_unverified controller_starvation : SkillFailureCode
  resource_pickup_unverified mining_unsafe_scene mining_target_unverified : SkillFailureCode
  mining_target_mismatch mining_tool_unverified mining_wrong_tool : SkillFailureCode
  mining_target_changed mining_tool_changed mining_camera_changed : SkillFailureCode
  mining_movement_changed mining_conflicting_input mining_episode_changed : SkillFailureCode
  mining_visual_signal_lost mining_visual_stagnation : SkillFailureCode
  mining_acquisition_timeout mining_lease_expired : SkillFailureCode

pub record SkillRun : Type 0 where
  pub skill_id : Str
  pub outcome : SkillOutcome
  pub context_key : Str
  pub failure_code : Option SkillFailureCode

pub record SkillStats : Type 0 where
  pub successes : ℕ
  pub failures : ℕ
  pub timeouts : ℕ
  pub cancellations : ℕ
  pub consecutive_failures : ℕ
  pub censored_failures : ℕ

abbrev pub new_stats : SkillStats
new_stats = record {
  successes = 0;
  failures = 0;
  timeouts = 0;
  cancellations = 0;
  consecutive_failures = 0;
  censored_failures = 0;
}

unfoldable pub decisive_attempts : SkillStats → ℕ
decisive_attempts s = s.successes + (s.failures - s.censored_failures) + s.timeouts

unfoldable pub attempts : SkillStats → ℕ
attempts s = s.successes + s.failures + s.timeouts + s.cancellations

-- a skill's id and a context
abbrev pub Key : Type 0
Key = Str × Str

abbrev pub same_key : Key → Key → Bool
same_key (a, b) (c, d) = same a c && same b d

abbrev pub Stats : Type 0
Stats = List (Key × SkillStats)

-- `stats.get(key)`
unfoldable pub stats_at : Key → Stats → Option SkillStats
stats_at k [] = none
stats_at k ((j, s) ∷ rest) = if same_key j k then some s else stats_at k rest

pub record SkillLibrary : Type 0 where
  pub specs : Dict SkillSpec
  pub stats : Stats

-- none for the ValueError of a version that is not later
unfoldable pub register : SkillSpec → SkillLibrary → Option SkillLibrary
unfolding lookup insert
register spec lib =
    let updated = record lib { specs = insert spec.skill_id spec lib.specs } in
    elim (lookup spec.skill_id lib.specs) [
      | none ↦ some updated
      | some existing ↦ if leb spec.version existing.version then none else some updated
    ]

-- none for the KeyError
unfoldable pub get : Str → SkillLibrary → Option SkillSpec
unfolding lookup
get skill_id lib = lookup skill_id lib.specs

-- `stats.setdefault(key, SkillStats())`
unfoldable pub with_key : Key → Stats → Stats
unfolding stats_at
with_key k stats = elim (stats_at k stats) [ none ↦ stats ++ (k, new_stats) ∷ [] | some _ ↦ stats ]

unfoldable pub is_censored : Option SkillFailureCode → Bool
is_censored (some locomotion_unverified) = true
is_censored (some controller_starvation) = true
is_censored (some _) = false
is_censored none = false

-- the statistics of the run's own key
unfoldable pub counted : SkillRun → SkillStats → SkillStats
unfolding is_censored
counted run s = elim run.outcome [
  | running ↦ s
  | succeeded ↦ record s { successes = suc s.successes; consecutive_failures = 0 }
  | failed ↦
      if is_censored run.failure_code
      then record s { failures = suc s.failures; censored_failures = suc s.censored_failures }
      else record s { failures = suc s.failures; consecutive_failures = suc s.consecutive_failures }
  | timed_out ↦ record s {
    timeouts = suc s.timeouts;
    consecutive_failures = suc s.consecutive_failures;
  }
  | cancelled ↦ record s { cancellations = suc s.cancellations }
]

unfoldable pub is_success : SkillOutcome → Bool
is_success succeeded = true
is_success _ = false

-- a success shortens the streaks of the other skills in its context
unfoldable pub relieved : SkillStats → SkillStats
relieved s = record s { consecutive_failures = s.consecutive_failures - 1 }

-- one item of the statistics after the run
unfoldable pub observed : SkillRun → Key × SkillStats → Key × SkillStats
unfolding counted is_success relieved
observed run (k, s) =
    if same_key k (run.skill_id, run.context_key)
    then (k, counted run s)
    else (if is_success run.outcome
          && same k.1 run.context_key
          && not (same k.0 run.skill_id)
          && ltb 0 s.consecutive_failures
        then (k, relieved s)
        else (k, s))

-- `record`, none for the ValueError of a run that is not finished
unfoldable pub record_run : SkillRun → SkillLibrary → Option SkillLibrary
unfolding with_key observed
record_run run lib =
    let updated = record lib {
      stats = map (observed run) (with_key (run.skill_id, run.context_key) lib.stats);
    } in
    elim run.outcome [
      | running ↦ none
      | succeeded ↦ some updated
      | failed ↦ some updated
      | timed_out ↦ some updated
      | cancelled ↦ some updated
    ]

-- `stage in {SkillStage.DEPRECATED, SkillStage.RETIRED}`
abbrev pub is_withdrawn : SkillStage → Bool
is_withdrawn deprecated = true
is_withdrawn retired = true
is_withdrawn _ = false

unfoldable pub stage_order : SkillStage → ℕ
stage_order candidate = 0
stage_order experimental = 1
stage_order trusted = 2
stage_order preferred = 3
stage_order deprecated = 4
stage_order retired = 5

-- none for the KeyError of a missing skill and the ValueError of a step back
unfoldable pub promote : Str → SkillStage → SkillLibrary → Option (SkillSpec × SkillLibrary)
unfolding get stage_order insert
promote skill_id stage lib = elim (get skill_id lib) [
  | none ↦ none
  | some current ↦
      let updated = record current { stage = stage; version = suc current.version } in
      if ltb (stage_order stage) (stage_order current.stage) && not (is_withdrawn stage)
      then none
      else some (updated, record lib { specs = insert skill_id updated lib.specs })
]
