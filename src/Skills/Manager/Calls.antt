-- ===== src/Skills/Manager/Calls.antt =====
-- Sequences of calls of the manager: the database stays the image of the library.
use mathlib.Core.Path.{subst}
use minecraft_ai.Prelude.{
  ℕ, Bool, false, List, [], ◌∷◌, Option, none, some, ◌≤◌, ◌≡◌, refl, sym, ap, ◌⊎◌, inl, inr, Str,
  Dict, lookup, insert, length, leb, ◌&&◌, Bool-cases, Option-cases, arith,
}
use minecraft_ai.Skills.{
  SkillStage, candidate, experimental, trusted, preferred, SkillSpec, SkillRun, register, get,
  record_run,
}
use minecraft_ai.Skills.Versions.{AreKeyed}
use minecraft_ai.Skills.Manager.{
  Tables, save_skill_stats, stored_stats, SkillLifecycleManager, stored, register_and_save,
  new_spec, edited, create_skill, edit_skill, record_and_save, SkillPromotionEvidence, Rates,
  fallback_or, candidate_id, draft_recovery_candidate, evaluate_and_promote,
}

-- the calls with what they are given
pub data Call : Type 0 where
  creating : (fits : Bool) → Str → List Str → SkillStage → Call
  editing : Str → Option (List Str) → Call
  recording : SkillRun → Call
  evaluating : Str → SkillPromotionEvidence → Call
  drafting : (fits : Bool) → Str → List Str → Call

-- the manager after a call, whatever it returns or raises
abbrev pub after : {A : Type 0} → A × SkillLifecycleManager → SkillLifecycleManager
after r = r.1

-- what each stage takes
pub data Takes : SkillStage → (samples contexts percents : ℕ) → Type 0 where
  takes_experimental : Takes experimental 20 3 70
  takes_trusted : Takes trusted 50 5 80
  takes_preferred : Takes preferred 100 8 90

module _ (r : Rates) where
  unfoldable pub call : Call → (saves : Bool) → SkillLifecycleManager → SkillLifecycleManager
  unfolding create_skill edit_skill record_and_save evaluate_and_promote draft_recovery_candidate
  call (creating fits skill_id recovery stage) saves m =
      after (create_skill fits saves skill_id recovery stage m)
  call (editing skill_id recovery) saves m = after (edit_skill saves skill_id recovery m)
  call (recording run) saves m = after (record_and_save saves run m)
  call (evaluating skill_id e) saves m = after (evaluate_and_promote r saves skill_id e m)
  call (drafting fits target fallback) saves m =
      after (draft_recovery_candidate fits saves target fallback m)

  -- the calls, each with whether its write succeeds
  unfoldable pub call_all : List (Call × Bool) → SkillLifecycleManager → SkillLifecycleManager
  unfolding call
  call_all [] m = m
  call_all ((c, saves) ∷ calls) m = call_all calls (call c saves m)

  -- the evidence is what a stage takes: enough samples and contexts, a rate of success that is not
  -- less than the percents, no critical safety failure and no protected regression
  pub record IsEvidence (stage : SkillStage) (e : SkillPromotionEvidence) : Type 0 where
    pub samples : ℕ
    pub contexts : ℕ
    pub percents : ℕ
    pub row : Takes stage samples contexts percents
    pub enough_samples : samples ≤ e.sample_count
    pub enough_contexts : contexts ≤ e.context_count
    pub enough_rate : r.ltb_rate (r.ratio e.successes e.sample_count) (r.percent percents) ≡ false
    pub is_safe : e.critical_safety_failures ≡ 0
    pub no_regression : e.protected_regression ≡ false

  -- the call gives the skill the stage
  abbrev pub Grants : Call → Str → SkillStage → Type 0
  Grants (creating fits skill_id _ stage') k stage = (skill_id ≡ k) × (stage' ≡ stage)
  Grants (editing _ _) k stage = ⊥
  Grants (recording _) k stage = ⊥
  Grants (evaluating skill_id e) k stage = (skill_id ≡ k) × IsEvidence stage e
  Grants (drafting fits target _) k stage = (candidate_id target ≡ k) × (candidate ≡ stage)

-- the skill was there in that stage
abbrev pub Was : Dict SkillSpec → Str → SkillStage → Type 0
Was specs k stage = (old : SkillSpec) × (lookup k specs ≡ some old) × (old.stage ≡ stage)

-- the database holds the skills of the library
abbrev pub Mirrors : SkillLifecycleManager → Type 0
Mirrors m = (t : Tables) → m.db ≡ some t → (k : Str) → lookup k t.skills ≡ lookup k m.library.specs

-- every skill is under its id, in the database too
abbrev pub IsInStep : SkillLifecycleManager → Type 0
IsInStep m = AreKeyed m.library.specs × Mirrors m

-- what a call may make of the manager: a skill is stored, or the skills are as before
abbrev pub Stores :
    (saves : Bool)
    → (Str → SkillStage → Type 0)
    → SkillLifecycleManager
    → SkillLifecycleManager
    → Type 0
Stores saves G m m' =
    (spec : SkillSpec) × (m'.library.specs ≡ insert spec.skill_id spec m.library.specs)
    × ((m'.db ≡ stored saves spec m.db)
        × (G spec.skill_id spec.stage ⊎ Was m.library.specs spec.skill_id spec.stage))

-- the tables may have other statistics
abbrev pub Keeps : SkillLifecycleManager → SkillLifecycleManager → Type 0
Keeps m m' =
    (m'.library.specs ≡ m.library.specs)
    × ((t' : Tables) → m'.db ≡ some t' → (t : Tables) × (m.db ≡ some t) × (t'.skills ≡ t.skills))

abbrev pub Effect :
    (saves : Bool)
    → (Str → SkillStage → Type 0)
    → SkillLifecycleManager
    → SkillLifecycleManager
    → Type 0
Effect saves G m m' = Keeps m m' ⊎ Stores saves G m m'

module _ (saves : Bool) (G : Str → SkillStage → Type 0) where
  pub unchanged : (m : SkillLifecycleManager) → Effect saves G m m
  unchanged m = inl (refl, λ t h. (t, h, refl))

  pub same_Effect : (m m' : SkillLifecycleManager) → m' ≡ m → Effect saves G m m'
  same_Effect m m' e = subst (Effect saves G m) (sym e) (unchanged m)

  register_and_save-Effect :
      (spec : SkillSpec) (m : SkillLifecycleManager)
      → G spec.skill_id spec.stage ⊎ Was m.library.specs spec.skill_id spec.stage
      → Effect saves G m (after (register_and_save saves spec m))
  unfolding register_and_save register
  register_and_save-Effect spec m why = elim (Option-cases (lookup spec.skill_id m.library.specs)) [
    | inl n ↦ inr (spec, ground (arith, n), (ground (arith, n), why))
    | inr (old, n) ↦ elim (Bool-cases (leb spec.version old.version)) [
      | inl b ↦ same_Effect m (after (register_and_save saves spec m)) (ground (arith, n, b))
      | inr b ↦ inr (spec, ground (arith, n, b), (ground (arith, n, b), why))
    ]
  ]

  pub create_skill-Effect :
      (fits : Bool) (skill_id : Str) (recovery : List Str) (stage : SkillStage)
      (m : SkillLifecycleManager)
      → G skill_id stage
      → Effect saves G m (after (create_skill fits saves skill_id recovery stage m))
  unfolding create_skill new_spec
  create_skill-Effect fits skill_id recovery stage m why =
      elim (Bool-cases (fits && leb 1 (length skill_id) && leb (length skill_id) 256)) [
        | inl b ↦
            rw b (register_and_save-Effect (new_spec skill_id recovery stage m.library) m (inl why))
        | inr b ↦ rw b (unchanged m)
      ]

  edit_skill_unknown :
      (skill_id : Str) (recovery : Option (List Str)) (m : SkillLifecycleManager)
      → lookup skill_id m.library.specs ≡ none
      → edit_skill saves skill_id recovery m ≡ (none, m)
  unfolding edit_skill get
  edit_skill_unknown skill_id recovery m n = ground (arith, n)

  edit_skill_known :
      (skill_id : Str) (recovery : Option (List Str)) (m : SkillLifecycleManager) (old : SkillSpec)
      → lookup skill_id m.library.specs ≡ some old
      → edit_skill saves skill_id recovery m ≡ register_and_save saves (edited recovery old) m
  unfolding edit_skill get
  edit_skill_known skill_id recovery m old n = ground (arith, n)

  pub edit_skill-Effect :
      (skill_id : Str) (recovery : Option (List Str)) (m : SkillLifecycleManager)
      → AreKeyed m.library.specs
      → Effect saves G m (after (edit_skill saves skill_id recovery m))
  unfolding edited
  edit_skill-Effect skill_id recovery m keyed =
      elim (Option-cases (lookup skill_id m.library.specs)) [
        | inl n ↦
            same_Effect m (after (edit_skill saves skill_id recovery m))
              (ap after (edit_skill_unknown skill_id recovery m n))
        | inr (old, n) ↦
            let own : lookup old.skill_id m.library.specs ≡ some old =
              subst (λ k. lookup k m.library.specs ≡ some old) (sym (keyed skill_id old n)) n in
            subst (λ o. Effect saves G m (after o))
              (sym (edit_skill_known skill_id recovery m old n))
              (register_and_save-Effect (edited recovery old) m (inr (old, own, refl)))
      ]

  draft_unknown :
      (fits : Bool) (target : Str) (fallback : List Str) (m : SkillLifecycleManager)
      → lookup target m.library.specs ≡ none
      → draft_recovery_candidate fits saves target fallback m ≡ (none, m)
  unfolding draft_recovery_candidate get
  draft_unknown fits target fallback m n = ground (arith, n)

  draft_known :
      (fits : Bool) (target : Str) (fallback : List Str) (m : SkillLifecycleManager)
      (old : SkillSpec)
      → lookup target m.library.specs ≡ some old
      → draft_recovery_candidate fits saves target fallback m
        ≡ create_skill fits saves
            (candidate_id target)
            (fallback_or fallback old.recovery_skills)
            candidate
            m
  unfolding draft_recovery_candidate get
  draft_known fits target fallback m old n = ground (arith, n)

  pub draft-Effect :
      (fits : Bool) (target : Str) (fallback : List Str) (m : SkillLifecycleManager)
      → G (candidate_id target) candidate
      → Effect saves G m (after (draft_recovery_candidate fits saves target fallback m))
  draft-Effect fits target fallback m why = elim (Option-cases (lookup target m.library.specs)) [
    | inl n ↦
        same_Effect m (after (draft_recovery_candidate fits saves target fallback m))
          (ap after (draft_unknown fits target fallback m n))
    | inr (old, n) ↦
        subst (λ o. Effect saves G m (after o)) (sym (draft_known fits target fallback m old n))
          (create_skill-Effect fits (candidate_id target) (fallback_or fallback old.recovery_skills)
            candidate m why)
  ]

  record_and_save_specs :
      (run : SkillRun) (m : SkillLifecycleManager)
      → (after (record_and_save saves run m)).library.specs ≡ m.library.specs
  unfolding record_and_save record_run
  record_and_save_specs run m = ground arith

  record_and_save_tables :
      (run : SkillRun) (m : SkillLifecycleManager) (t' : Tables)
      → (after (record_and_save saves run m)).db ≡ some t'
      → (t : Tables) × (m.db ≡ some t) × (t'.skills ≡ t.skills)
  unfolding record_and_save record_run stored_stats save_skill_stats
  record_and_save_tables run m t' h = elim (Option-cases m.db) [
    | inl n ↦ absurd (ground (arith, n, h))
    | inr (t, n) ↦ (t, n, ground (arith, n, h))
  ]

  pub record_and_save-Effect :
      (run : SkillRun) (m : SkillLifecycleManager)
      → Effect saves G m (after (record_and_save saves run m))
  record_and_save-Effect run m = inl (record_and_save_specs run m, record_and_save_tables run m)
