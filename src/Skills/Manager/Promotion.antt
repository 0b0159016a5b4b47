-- ===== src/Skills/Manager/Promotion.antt =====
-- What an evaluation makes of a skill, and how the stages of skills come about.
use mathlib.Core.Path.{subst}
use minecraft_ai.Prelude.{
  ◌≤◌, ℕ, suc, Bool, true, false, none, some, ◌≡◌, refl, sym, ap, ◌∙◌, inl, inr, Str, lookup,
  insert, ltb, ◌||◌, not, Bool-cases, Option-cases, arith, ◌==◌,
}
use minecraft_ai.Skills.{
  candidate, experimental, trusted, preferred, deprecated, retired, SkillStage, SkillSpec, get,
  promote, stage_order,
}
use minecraft_ai.Skills.Versions.{AreKeyed}
use minecraft_ai.Skills.Manager.{
  SkillLifecycleManager, stored, SkillPromotionEvidence, Rates, requirement, is_final, falls_short,
  evaluate_and_promote, success_rate,
}
use minecraft_ai.Skills.Manager.Calls.{
  Call, creating, editing, recording, evaluating, drafting, after, call, Grants, Effect, Takes,
  takes_experimental, takes_trusted, takes_preferred, same_Effect, create_skill-Effect,
  edit_skill-Effect, record_and_save-Effect, draft-Effect,
}

-- the copy of a skill that `promote` makes
abbrev promoted : SkillStage → SkillSpec → SkillSpec
promoted stage old = record old { stage = stage; version = suc old.version }

-- some stage is the next one
requirement_ascends :
    (stage next : SkillStage) (a b c : ℕ)
    → requirement stage ≡ some (next, a, b, c)
    → ltb (stage_order next) (stage_order stage) ≡ false
unfolding requirement stage_order
requirement_ascends stage next a b c h = ground (arith, h)

-- what the requirements take
requirement-Takes :
    (stage next : SkillStage) (a b c : ℕ)
    → requirement stage ≡ some (next, a, b, c)
    → Takes next a b c
unfolding requirement
requirement-Takes candidate next a b c h =
    let p : (experimental, 20, 3, 70) ≡ (next, a, b, c) = cc h in
    subst (λ (x : SkillStage × ℕ × ℕ × ℕ). Takes x.0 x.1 x.2 x.3) p takes_experimental
requirement-Takes experimental next a b c h =
    let p : (trusted, 50, 5, 80) ≡ (next, a, b, c) = cc h in
    subst (λ (x : SkillStage × ℕ × ℕ × ℕ). Takes x.0 x.1 x.2 x.3) p takes_trusted
requirement-Takes trusted next a b c h =
    let p : (preferred, 100, 8, 90) ≡ (next, a, b, c) = cc h in
    subst (λ (x : SkillStage × ℕ × ℕ × ℕ). Takes x.0 x.1 x.2 x.3) p takes_preferred
requirement-Takes preferred next a b c h = absurd (cc h)
requirement-Takes deprecated next a b c h = absurd (cc h)
requirement-Takes retired next a b c h = absurd (cc h)

Takes-positive : {stage : SkillStage} {a b c : ℕ} → Takes stage a b c → 1 ≤ a
Takes-positive takes_experimental = omega arith
Takes-positive takes_trusted = omega arith
Takes-positive takes_preferred = omega arith

module _ (r : Rates) (saves : Bool) where
  -- the library and the database after a promotion
  abbrev promoting : Str → SkillSpec → SkillLifecycleManager → SkillLifecycleManager
  promoting skill_id spec m = record {
    library = record m.library { specs = insert skill_id spec m.library.specs };
    db = stored saves spec m.db;
  }

  module _ (skill_id : Str) (e : SkillPromotionEvidence) (m : SkillLifecycleManager) where
    abbrev result : SkillLifecycleManager
    result = after (evaluate_and_promote r saves skill_id e m)

    evaluate_unknown : lookup skill_id m.library.specs ≡ none → result ≡ m
    unfolding evaluate_and_promote get
    evaluate_unknown n = ground (arith, n)

    module _ (old : SkillSpec) (n : lookup skill_id m.library.specs ≡ some old) where
      evaluate_barred :
          is_final old.stage || not (e.critical_safety_failures == 0) || e.protected_regression
            ≡ true
          → result ≡ m
      unfolding evaluate_and_promote get
      evaluate_barred b = ground (arith, n, b)

      evaluate_no_next : requirement old.stage ≡ none → result ≡ m
      unfolding evaluate_and_promote get
      evaluate_no_next b = ground (arith, n, b)

      module _ (next : SkillStage) (samples contexts percents : ℕ)
          (q : requirement old.stage ≡ some (next, samples, contexts, percents)) where
        evaluate_short : falls_short r samples contexts percents e ≡ true → result ≡ m
        unfolding evaluate_and_promote get
        evaluate_short b = ground (arith, n, q, b)

        evaluate_promotes :
            is_final old.stage || not (e.critical_safety_failures == 0) || e.protected_regression
              ≡ false
            → falls_short r samples contexts percents e ≡ false
            → result ≡ promoting skill_id (promoted next old) m
        unfolding evaluate_and_promote get promote
        evaluate_promotes b f =
            let up = requirement_ascends old.stage next samples contexts percents q in
            ground (arith, n, q, b, f, up)

      falls_short_parts :
          (samples contexts percents : ℕ)
          → 1 ≤ samples
          → falls_short r samples contexts percents e ≡ false
          → (samples ≤ e.sample_count)
            × (contexts ≤ e.context_count)
            × (r.ltb_rate (r.ratio e.successes e.sample_count) (r.percent percents) ≡ false)
      unfolding falls_short success_rate
      falls_short_parts samples contexts percents l h = ground (arith, l, h)

      zero_of : (n : ℕ) → not (n == 0) ≡ false → n ≡ 0
      zero_of n h = ground (arith, h)

      is_safe : (a b c : Bool) → a || b || c ≡ false → (a ≡ false) × (b ≡ false) × (c ≡ false)
      is_safe a b c h = ground (arith, h)

      -- an evaluation changes nothing, or the evidence is what the stage takes
      evaluate_known :
          AreKeyed m.library.specs → Effect saves (Grants r (evaluating skill_id e)) m result
      evaluate_known keyed =
          let G = Grants r (evaluating skill_id e) in
          let barred =
            is_final old.stage || not (e.critical_safety_failures == 0) || e.protected_regression in
          elim (Bool-cases barred) [
            | inl b ↦ same_Effect saves G m result (evaluate_barred b)
            | inr b ↦ elim (Option-cases (requirement old.stage)) [
              | inl q ↦ same_Effect saves G m result (evaluate_no_next q)
              | inr ((next, samples, contexts, percents), q) ↦
                  elim (Bool-cases (falls_short r samples contexts percents e)) [
                    | inl f ↦
                        same_Effect saves G m result
                          (evaluate_short next samples contexts percents q f)
                    | inr f ↦
                        let (_, safe, regression) =
                          is_safe (is_final old.stage) (not (e.critical_safety_failures == 0))
                            e.protected_regression b in
                        let own = keyed skill_id old n in
                        let row = requirement-Takes old.stage next samples contexts percents q in
                        let (samples_ok, contexts_ok, rate_ok) =
                          falls_short_parts samples contexts percents (Takes-positive row) f in
                        let eq = evaluate_promotes next samples contexts percents q b f in
                        inr (
                          promoted next old,
                          ap (λ (x : SkillLifecycleManager). x.library.specs) eq
                              ∙ ap (λ k. insert k (promoted next old) m.library.specs) (sym own),
                          (
                            ap (λ (x : SkillLifecycleManager). x.db) eq,
                            inl (
                              sym own,
                              record {
                                samples = samples;
                                contexts = contexts;
                                percents = percents;
                                row = row;
                                enough_samples = samples_ok;
                                enough_contexts = contexts_ok;
                                enough_rate = rate_ok;
                                is_safe = zero_of e.critical_safety_failures safe;
                                no_regression = regression;
                              },
                            ),
                          ),
                        )
                  ]
            ]
          ]

  evaluate-Effect :
      (skill_id : Str) (e : SkillPromotionEvidence) (m : SkillLifecycleManager)
      → AreKeyed m.library.specs
      → Effect saves
          (Grants r (evaluating skill_id e))
          m
          (after (evaluate_and_promote r saves skill_id e m))
  evaluate-Effect skill_id e m keyed = elim (Option-cases (lookup skill_id m.library.specs)) [
    | inl n ↦
        same_Effect saves (Grants r (evaluating skill_id e)) m
          (after (evaluate_and_promote r saves skill_id e m)) (evaluate_unknown skill_id e m n)
    | inr (old, n) ↦ evaluate_known skill_id e m old n keyed
  ]

  pub call-Effect :
      (c : Call) (m : SkillLifecycleManager)
      → AreKeyed m.library.specs
      → Effect saves (Grants r c) m (call r c saves m)
  unfolding call
  call-Effect (creating fits skill_id recovery stage) m keyed =
      create_skill-Effect saves (Grants r (creating fits skill_id recovery stage)) fits skill_id
        recovery stage m (refl, refl)
  call-Effect (editing skill_id recovery) m keyed =
      edit_skill-Effect saves (Grants r (editing skill_id recovery)) skill_id recovery m keyed
  call-Effect (recording run) m keyed =
      record_and_save-Effect saves (Grants r (recording run)) run m
  call-Effect (evaluating skill_id e) m keyed = evaluate-Effect skill_id e m keyed
  call-Effect (drafting fits target fallback) m keyed =
      draft-Effect saves (Grants r (drafting fits target fallback)) fits target fallback m
        (refl, refl)
