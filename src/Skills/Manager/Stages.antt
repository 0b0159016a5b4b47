-- ===== src/Skills/Manager/Stages.antt =====
-- Along any calls of the manager: the database mirrors the library, and stages are granted.
use mathlib.Core.Path.{subst}
use minecraft_ai.Prelude.{
  Bool, true, All, List, [], ◌∷◌, Option, none, some, ◌≡◌, refl, sym, ap, ◌∙◌, ◌⊎◌, inl, inr, Str,
  same, same_iff, Dict, lookup, insert, lookup-insert, Bool-cases, In, arith, if◌then◌else◌,
}
use minecraft_ai.Skills.{SkillStage, SkillSpec}
use minecraft_ai.Skills.Versions.{AreKeyed}
use minecraft_ai.Skills.Manager.{Tables, save_skill, SkillLifecycleManager, stored, Rates}
use minecraft_ai.Skills.Manager.Calls.{Mirrors, Call, call, call_all, Grants, Was, IsInStep, Effect}
use minecraft_ai.Skills.Manager.Promotion.{call-Effect}

insert-AreKeyed :
    (spec : SkillSpec) (specs : Dict SkillSpec)
    → AreKeyed specs
    → AreKeyed (insert spec.skill_id spec specs)
insert-AreKeyed spec specs keyed k s h =
    ground (arith, h, lookup-insert spec.skill_id k spec specs, same_iff spec.skill_id k, keyed k s)

insert-mirrors :
    (spec : SkillSpec) (a b : Dict SkillSpec) (k : Str)
    → lookup k a ≡ lookup k b
    → lookup k (insert spec.skill_id spec a) ≡ lookup k (insert spec.skill_id spec b)
insert-mirrors spec a b k h =
    lookup-insert spec.skill_id k spec a
    ∙ ap (λ x. if same spec.skill_id k then some spec else x) h
    ∙ sym (lookup-insert spec.skill_id k spec b)

stored-saves :
    (spec : SkillSpec) (db : Option Tables) (t' : Tables)
    → stored true spec db ≡ some t'
    → (t : Tables) × (db ≡ some t) × (t'.skills ≡ insert spec.skill_id spec t.skills)
unfolding stored save_skill
stored-saves spec none t' h = absurd (ground (arith, h))
stored-saves spec (some t) t' h = (t, refl, ground (arith, h))

module _ (saves : Bool) (G : Str → SkillStage → Type 0) (m m' : SkillLifecycleManager) where
  Effect-AreKeyed : AreKeyed m.library.specs → Effect saves G m m' → AreKeyed m'.library.specs
  Effect-AreKeyed keyed (inl (specs, _)) = subst AreKeyed (sym specs) keyed
  Effect-AreKeyed keyed (inr (spec, specs, _)) =
      subst AreKeyed (sym specs) (insert-AreKeyed spec m.library.specs keyed)

  Effect-Mirrors : saves ≡ true → Mirrors m → Effect saves G m m' → Mirrors m'
  Effect-Mirrors ok mirrors (inl (specs, tables)) t' h k =
      let (t, h', e) = tables t' h in ap (lookup k) e ∙ mirrors t h' k ∙ ap (lookup k) (sym specs)
  Effect-Mirrors ok mirrors (inr (spec, specs, (db, _))) t' h k =
      let saved : m'.db ≡ stored true spec m.db = subst (λ b. m'.db ≡ stored b spec m.db) ok db in
      let (t, h', e) = stored-saves spec m.db t' (sym saved ∙ h) in
      ap (lookup k) e
      ∙ insert-mirrors spec t.skills m.library.specs k (mirrors t h' k)
      ∙ ap (lookup k) (sym specs)

  Effect-Was :
      (k : Str) (spec : SkillSpec)
      → Effect saves G m m'
      → lookup k m'.library.specs ≡ some spec
      → Was m.library.specs k spec.stage ⊎ G k spec.stage
  Effect-Was k spec (inl (specs, _)) h = inl (spec, ap (lookup k) (sym specs) ∙ h, refl)
  Effect-Was k spec (inr (s, specs, (_, why))) h =
      let found : lookup k (insert s.skill_id s m.library.specs) ≡ some spec =
        ap (lookup k) (sym specs) ∙ h in
      elim (Bool-cases (same s.skill_id k)) [
        | inl b ↦
            let is_spec : s ≡ spec =
              ground (arith, found, b, lookup-insert s.skill_id k s m.library.specs) in
            let is_k = (same_iff s.skill_id k).0 b in
            elim why [
              | inl g ↦ inr (subst (λ x. G k x.stage) is_spec (subst (λ x. G x s.stage) is_k g))
              | inr w ↦ inl (
                  subst (λ x. Was m.library.specs k x.stage) is_spec
                    (subst (λ x. Was m.library.specs x s.stage) is_k w))
            ]
        | inr b ↦
            inl (spec, ground (arith, found, b, lookup-insert s.skill_id k s m.library.specs), refl)
      ]

module _ (r : Rates) where
  -- Whatever the calls of the manager, refused ones included, if their writes to the database succeed:
  -- every skill is in the library under its id, and with a database it holds under every id the skill
  -- that the library holds, if both were so at first. A write that fails leaves the library ahead.
  pub call_all-IsInStep :
      (calls : List (Call × Bool)) (m : SkillLifecycleManager)
      → All (λ (x : Call × Bool). x.1 ≡ true) calls
      → IsInStep m
      → IsInStep (call_all r calls m)
  unfolding call_all
  call_all-IsInStep [] m ok h = h
  call_all-IsInStep ((c, saves) ∷ calls) m ok (keyed, mirrors) =
      let effect = call-Effect r saves c m keyed in
      call_all-IsInStep calls (call r c saves m) ok.1 (
        Effect-AreKeyed saves (Grants r c) m (call r c saves m) keyed effect,
        Effect-Mirrors saves (Grants r c) m (call r c saves m) ok.0 mirrors effect,
      )

  -- After any calls of the manager, failed writes included, the stage of a skill is one that it had at
  -- first, or that a call of the history gave it: its creation in that stage, the draft of it as a
  -- candidate, or an evaluation with no critical safety failure, no protected regression, and at
  -- least 20 samples in 3 contexts with a rate of success not below 70% for EXPERIMENTAL, 50 in 5 and
  -- 80% for TRUSTED, 100 in 8 and 90% for PREFERRED.
  pub call_all-Grants :
      (calls : List (Call × Bool)) (m : SkillLifecycleManager)
      → AreKeyed m.library.specs
      → (k : Str) (spec : SkillSpec) → lookup k (call_all r calls m).library.specs ≡ some spec
      → Was m.library.specs k spec.stage
        ⊎ ((c : Call) × (saves : Bool) × In (c, saves) calls × Grants r c k spec.stage)
  unfolding call_all
  call_all-Grants [] m keyed k spec e = inl (spec, e, refl)
  call_all-Grants ((c, saves) ∷ calls) m keyed k spec e =
      let effect = call-Effect r saves c m keyed in
      let next = Effect-AreKeyed saves (Grants r c) m (call r c saves m) keyed effect in
      elim (call_all-Grants calls (call r c saves m) next k spec e) [
        | inl (old, f, same_stage) ↦
            elim (Effect-Was saves (Grants r c) m (call r c saves m) k old effect f) [
              | inl w ↦ inl (subst (Was m.library.specs k) same_stage w)
              | inr g ↦ inr (c, saves, inl refl, subst (Grants r c k) same_stage g)
            ]
        | inr (c', saves', i, g) ↦ inr (c', saves', inr i, g)
      ]
