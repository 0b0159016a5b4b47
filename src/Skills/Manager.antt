-- ===== src/Skills/Manager.antt =====
-- SkillLifecycleManager of skills/editor.py, and the two tables of memory/storage.py it writes to.
-- Whether
-- pydantic accepts the fields that are left out and whether a write succeeds are arguments.
pub mod Calls
pub mod Promotion
pub mod Stages
pub mod Examples
use minecraft_ai.Prelude.{
  ℕ, suc, ◌+◌, Bool, true, false, List, [], ◌∷◌, ◌++◌, Option, none, some, ◌&&◌, ◌||◌, not, ltb,
  leb, ◌==◌, if◌then◌else◌, length, Str, codes, Dict, lookup, insert,
}
use minecraft_ai.Skills.{
  SkillStage, candidate, experimental, trusted, preferred, deprecated, retired, SkillSpec, SkillRun,
  SkillStats, Key, same_key, Stats, stats_at, SkillLibrary, register, get, record_run, promote,
}

-- the tables `skills` and `skill_stats`, each with its key
pub record Tables : Type 0 where
  pub skills : Dict SkillSpec
  pub skill_stats : Stats

-- an upsert of `skill_stats`
unfoldable pub insert_stats : Key → SkillStats → Stats → Stats
insert_stats k s [] = (k, s) ∷ []
insert_stats k s ((j, r) ∷ rest) =
    if same_key j k then (j, s) ∷ rest else (j, r) ∷ insert_stats k s rest

unfoldable pub save_skill : SkillSpec → Tables → Tables
unfolding insert
save_skill spec t = record t { skills = insert spec.skill_id spec t.skills }

unfoldable pub save_skill_stats : Key → SkillStats → Tables → Tables
unfolding insert_stats
save_skill_stats k s t = record t { skill_stats = insert_stats k s t.skill_stats }

pub record SkillLifecycleManager : Type 0 where
  pub library : SkillLibrary
  pub db : Option Tables

-- the database after `if self.db is not None: self.db.save_skill(spec)`; a write that fails raises
-- and leaves it
unfoldable pub stored : (saves : Bool) → SkillSpec → Option Tables → Option Tables
unfolding save_skill
stored saves spec none = none
stored saves spec (some t) = if saves then some (save_skill spec t) else some t

-- whether that raised
unfoldable pub write_fails : (saves : Bool) → Option Tables → Bool
write_fails saves none = false
write_fails saves (some _) = not saves

-- A result, none where it raised, beside the manager as it is then: the library has the skill before
-- it is saved. none for the ValueError of `register` too.
unfoldable pub register_and_save :
    (saves : Bool) → SkillSpec → SkillLifecycleManager → Option SkillSpec × SkillLifecycleManager
unfolding register stored write_fails
register_and_save saves spec m = elim (register spec m.library) [
  | none ↦ (none, m)
  | some library ↦ (
    if write_fails saves m.db then none else some spec,
    record { library = library; db = stored saves spec m.db },
  )
]

unfoldable pub next_version : Str → SkillLibrary → ℕ
unfolding lookup
next_version skill_id lib = elim (lookup skill_id lib.specs) [
  | none ↦ 1
  | some existing ↦ suc existing.version
]

-- the specification that `create_skill` builds
unfoldable pub new_spec : Str → List Str → SkillStage → SkillLibrary → SkillSpec
unfolding next_version
new_spec skill_id recovery_skills stage lib = record {
  skill_id = skill_id;
  version = next_version skill_id lib;
  stage = stage;
  expected_effects = [];
  recovery_skills = recovery_skills;
  traversal = false;
}

-- none for a ValidationError; `fits` is whether the fields left out are accepted
unfoldable pub create_skill :
    (fits saves : Bool)
    → Str
    → (recovery_skills : List Str) → SkillStage
    → SkillLifecycleManager
    → Option SkillSpec × SkillLifecycleManager
unfolding new_spec register_and_save
create_skill fits saves skill_id recovery_skills stage m =
    if fits && leb 1 (length skill_id) && leb (length skill_id) 256
    then register_and_save saves (new_spec skill_id recovery_skills stage m.library) m
    else (none, m)

-- the copy of a skill that `edit_skill` makes
unfoldable pub edited : Option (List Str) → SkillSpec → SkillSpec
edited recovery_skills current = record current {
  version = suc current.version;
  recovery_skills = elim recovery_skills [ none ↦ current.recovery_skills | some given ↦ given ];
}

-- none for the KeyError; `model_copy` validates nothing
unfoldable pub edit_skill :
    (saves : Bool)
    → Str
    → (recovery_skills : Option (List Str)) → SkillLifecycleManager
    → Option SkillSpec × SkillLifecycleManager
unfolding get edited register_and_save
edit_skill saves skill_id recovery_skills m = elim (get skill_id m.library) [
  | none ↦ (none, m)
  | some current ↦ register_and_save saves (edited recovery_skills current) m
]

-- `save_skill_stats` of the run's key, where there is a database and the write succeeds
unfoldable pub stored_stats : (saves : Bool) → Key → Stats → Option Tables → Option Tables
unfolding stats_at save_skill_stats
stored_stats saves k stats none = none
stored_stats saves k stats (some t) = elim (stats_at k stats) [
  | none ↦ some t
  | some s ↦ if saves then some (save_skill_stats k s t) else some t
]

-- `record`, which returns the statistics of the run's key and saves them
unfoldable pub record_and_save :
    (saves : Bool) → SkillRun → SkillLifecycleManager → Option SkillStats × SkillLifecycleManager
unfolding record_run stats_at stored_stats write_fails
record_and_save saves run m = elim (record_run run m.library) [
  | none ↦ (none, m)
  | some library ↦ (
    if write_fails saves m.db then none else stats_at (run.skill_id, run.context_key) library.stats,
    record {
      library = library;
      db = stored_stats saves (run.skill_id, run.context_key) library.stats m.db;
    },
  )
]

pub record SkillPromotionEvidence : Type 0 where
  pub sample_count : ℕ
  pub successes : ℕ
  pub context_count : ℕ
  pub critical_safety_failures : ℕ
  pub protected_regression : Bool

-- rates of success and their order
pub record Rates : Type 1 where
  pub Rate : Type 0
  -- a / b, for b above 0
  pub ratio : ℕ → ℕ → Rate
  pub zero_rate : Rate
  -- n / 100
  pub percent : ℕ → Rate
  pub ltb_rate : Rate → Rate → Bool

-- the next stage, and the samples, contexts and percents of success that it takes
unfoldable pub requirement : SkillStage → Option (SkillStage × ℕ × ℕ × ℕ)
requirement candidate = some (experimental, 20, 3, 70)
requirement experimental = some (trusted, 50, 5, 80)
requirement trusted = some (preferred, 100, 8, 90)
requirement preferred = none
requirement deprecated = none
requirement retired = none

-- `stage in {SkillStage.PREFERRED, SkillStage.RETIRED}`
abbrev pub is_final : SkillStage → Bool
is_final preferred = true
is_final retired = true
is_final _ = false

-- the parent's skills, or `retreat`
unfoldable pub or_retreat : List Str → List Str
or_retreat [] = codes "retreat" ∷ []
or_retreat (x ∷ xs) = x ∷ xs

unfoldable pub fallback_or : List Str → List Str → List Str
unfolding or_retreat
fallback_or [] recovery_skills = or_retreat recovery_skills
fallback_or (x ∷ xs) recovery_skills = x ∷ xs

abbrev pub candidate_id : Str → Str
candidate_id target_id = target_id ++ codes "_recovery_candidate"

unfoldable pub draft_recovery_candidate :
    (fits saves : Bool)
    → Str
    → (fallback_skills : List Str) → SkillLifecycleManager
    → Option SkillSpec × SkillLifecycleManager
unfolding get fallback_or create_skill
draft_recovery_candidate fits saves target_id fallback_skills m = elim (get target_id m.library) [
  | none ↦ (none, m)
  | some parent ↦
      create_skill fits saves (candidate_id target_id)
        (fallback_or fallback_skills parent.recovery_skills) candidate m
]

module _ (r : Rates) where
  unfoldable pub success_rate : SkillPromotionEvidence → r.Rate
  success_rate e =
      if not (e.sample_count == 0) then r.ratio e.successes e.sample_count else r.zero_rate

  -- the evidence falls short of a requirement
  unfoldable pub falls_short : (samples contexts percents : ℕ) → SkillPromotionEvidence → Bool
  unfolding success_rate
  falls_short samples contexts percents e =
      ltb e.sample_count samples
      || ltb e.context_count contexts
      || r.ltb_rate (success_rate e) (r.percent percents)

  -- none where it raises; the value is the skill that was promoted, if one was
  unfoldable pub evaluate_and_promote :
      (saves : Bool)
      → Str
      → SkillPromotionEvidence
      → SkillLifecycleManager
      → Option (Option SkillSpec) × SkillLifecycleManager
  unfolding get requirement falls_short promote stored write_fails
  evaluate_and_promote saves skill_id e m = elim (get skill_id m.library) [
    | none ↦ (none, m)
    | some spec ↦
        if is_final spec.stage || not (e.critical_safety_failures == 0) || e.protected_regression
        then (some none, m)
        else elim (requirement spec.stage) [
          | none ↦ (some none, m)
          | some (next_stage, samples, contexts, percents) ↦
              if falls_short samples contexts percents e
              then (some none, m)
              else elim (promote skill_id next_stage m.library) [
                | none ↦ (none, m)
                | some (promoted, library) ↦ (
                  if write_fails saves m.db then none else some (some promoted),
                  record { library = library; db = stored saves promoted m.db },
                )
              ]
        ]
  ]
