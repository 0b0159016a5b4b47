-- ===== src/Skills/Versions.antt =====
-- A skill of the library changes only with a later version.
use minecraft_ai.Prelude.{
  suc, ◌<◌, List, [], ◌∷◌, none, some, ◌≡◌, refl, sym, ◌∙◌, ◌⊎◌, inl, inr, ltb, leb, not, ◌&&◌, Str,
  same, same_iff, Dict, lookup, insert, lookup-insert, Bool-cases, Option-cases, arith,
}
use mathlib.Core.Path.{subst}
use minecraft_ai.Skills.{
  SkillStage, SkillSpec, SkillRun, SkillLibrary, register, get, record_run, promote, is_withdrawn,
  stage_order,
}

-- the calls that change the library
pub data Edit : Type 0 where
  registering : SkillSpec → Edit
  recording : SkillRun → Edit
  promoting : Str → SkillStage → Edit

-- a call that raises has changed nothing
unfoldable pub edit : Edit → SkillLibrary → SkillLibrary
unfolding register record_run promote
edit (registering spec) lib = elim (register spec lib) [ none ↦ lib | some lib' ↦ lib' ]
edit (recording run) lib = elim (record_run run lib) [ none ↦ lib | some lib' ↦ lib' ]
edit (promoting skill_id stage) lib = elim (promote skill_id stage lib) [
  | none ↦ lib
  | some (_, lib') ↦ lib'
]

unfoldable pub edit_all : List Edit → SkillLibrary → SkillLibrary
unfolding edit
edit_all [] lib = lib
edit_all (e ∷ edits) lib = edit_all edits (edit e lib)

-- every skill is there under its id
abbrev pub AreKeyed : Dict SkillSpec → Type 0
AreKeyed specs = (k : Str) (spec : SkillSpec) → lookup k specs ≡ some spec → spec.skill_id ≡ k

-- each skill stays as it is or gets a later version
abbrev pub Advances : Dict SkillSpec → Dict SkillSpec → Type 0
Advances specs specs' =
    (k : Str) (spec : SkillSpec)
    → lookup k specs ≡ some spec
    → (spec' : SkillSpec) × (lookup k specs' ≡ some spec')
      × ((spec' ≡ spec) ⊎ (spec.version < spec'.version))

abbrev KeepsUp : Dict SkillSpec → Dict SkillSpec → Type 0
KeepsUp specs specs' = AreKeyed specs' × Advances specs specs'

same_KeepsUp : (specs : Dict SkillSpec) → AreKeyed specs → KeepsUp specs specs
same_KeepsUp specs keyed = (keyed, λ k spec h. (spec, h, inl refl))

insert-KeepsUp :
    (k : Str) (new : SkillSpec) (specs : Dict SkillSpec)
    → AreKeyed specs
    → new.skill_id ≡ k
    → ((old : SkillSpec) → lookup k specs ≡ some old → old.version < new.version)
    → KeepsUp specs (insert k new specs)
insert-KeepsUp k new specs keyed own later = (
  λ j spec h. ground (arith, h, lookup-insert k j new specs, same_iff k j, own, keyed j spec),
  λ j spec h. elim (Bool-cases (same k j)) [
    | inl e ↦
        let k_is = (same_iff k j).0 e in
        (
          new,
          ground (arith, lookup-insert k j new specs, e),
          inr (later spec (subst (λ x. lookup x specs ≡ some spec) (sym k_is) h)),
        )
    | inr e ↦ (spec, ground (arith, lookup-insert k j new specs, e, h), inl refl)
  ],
)

abbrev Later : Str → SkillSpec → Dict SkillSpec → Type 0
Later k new specs = (old : SkillSpec) → lookup k specs ≡ some old → old.version < new.version

-- the skills are as before, or one was assigned
abbrev Assigns : Str → SkillSpec → Dict SkillSpec → Dict SkillSpec → Type 0
Assigns k new specs specs' =
    (specs' ≡ specs) ⊎ ((specs' ≡ insert k new specs) × ((new.skill_id ≡ k) × Later k new specs))

register-Assigns :
    (spec : SkillSpec) (lib : SkillLibrary)
    → Assigns spec.skill_id spec lib.specs (edit (registering spec) lib).specs
unfolding edit register
register-Assigns spec lib = elim (Option-cases (lookup spec.skill_id lib.specs)) [
  | inl n ↦ inr (ground (arith, n), (refl, λ old h. ground (arith, h, n)))
  | inr (old, n) ↦ elim (Bool-cases (leb spec.version old.version)) [
    | inl b ↦ inl (ground (arith, n, b))
    | inr b ↦ inr (ground (arith, n, b), (refl, λ old' h. ground (arith, h, n, b)))
  ]
]

edit-recording :
    (run : SkillRun) (lib : SkillLibrary) → (edit (recording run) lib).specs ≡ lib.specs
unfolding edit record_run
edit-recording run lib = ground arith

edit-promoting_unknown :
    (skill_id : Str) (stage : SkillStage) (lib : SkillLibrary)
    → lookup skill_id lib.specs ≡ none
    → edit (promoting skill_id stage) lib ≡ lib
unfolding edit promote get
edit-promoting_unknown skill_id stage lib n = ground (arith, n)

-- the specification that a promotion gives
abbrev promoted : SkillStage → SkillSpec → SkillSpec
promoted stage old = record old { stage = stage; version = suc old.version }

promote-Assigns :
    (skill_id : Str) (stage : SkillStage) (lib : SkillLibrary) (old : SkillSpec)
    → AreKeyed lib.specs
    → lookup skill_id lib.specs ≡ some old
    → Assigns skill_id (promoted stage old) lib.specs (edit (promoting skill_id stage) lib).specs
unfolding edit promote get
promote-Assigns skill_id stage lib old keyed n =
    elim (Bool-cases
      (ltb (stage_order stage) (stage_order old.stage) && not (is_withdrawn stage))) [
        | inl b ↦ inl (ground (arith, n, b))
        | inr b ↦ inr (ground (arith, n, b), (keyed skill_id old n, λ old' h. ground (arith, h, n)))
      ]

Assigns-KeepsUp :
    (k : Str) (new : SkillSpec) (specs specs' : Dict SkillSpec)
    → AreKeyed specs
    → Assigns k new specs specs'
    → KeepsUp specs specs'
Assigns-KeepsUp k new specs specs' keyed (inl e) =
    subst (KeepsUp specs) (sym e) (same_KeepsUp specs keyed)
Assigns-KeepsUp k new specs specs' keyed (inr (e, (own, later))) =
    subst (KeepsUp specs) (sym e) (insert-KeepsUp k new specs keyed own later)

edit-KeepsUp :
    (e : Edit) (lib : SkillLibrary) → AreKeyed lib.specs → KeepsUp lib.specs (edit e lib).specs
edit-KeepsUp (registering spec) lib keyed =
    Assigns-KeepsUp spec.skill_id spec lib.specs (edit (registering spec) lib).specs keyed
      (register-Assigns spec lib)
edit-KeepsUp (recording run) lib keyed =
    subst (KeepsUp lib.specs) (sym (edit-recording run lib)) (same_KeepsUp lib.specs keyed)
edit-KeepsUp (promoting skill_id stage) lib keyed =
    elim (Option-cases (lookup skill_id lib.specs)) [
      | inl n ↦
          subst (λ l. KeepsUp lib.specs l.specs) (sym (edit-promoting_unknown skill_id stage lib n))
            (same_KeepsUp lib.specs keyed)
      | inr (old, n) ↦
          Assigns-KeepsUp skill_id (promoted stage old) lib.specs
            (edit (promoting skill_id stage) lib).specs keyed
            (promote-Assigns skill_id stage lib old keyed n)
    ]

later_trans :
    (a b c : SkillSpec)
    → (b ≡ a) ⊎ (a.version < b.version)
    → (c ≡ b) ⊎ (b.version < c.version)
    → (c ≡ a) ⊎ (a.version < c.version)
later_trans a b c (inl p) (inl q) = inl (q ∙ p)
later_trans a b c (inl p) (inr q) = inr (subst (λ x. x.version < c.version) p q)
later_trans a b c (inr p) (inl q) = inr (subst (λ x. a.version < x.version) (sym q) p)
later_trans a b c (inr p) (inr q) = inr (omega (arith, p, q))

Advances-trans : (a b c : Dict SkillSpec) → Advances a b → Advances b c → Advances a c
Advances-trans a b c f g k spec h =
    let (spec', h', p) = f k spec h in
    let (spec'', h'', q) = g k spec' h' in (spec'', h'', later_trans spec spec' spec'' p q)

-- Whatever is registered, recorded and promoted, refused calls included, every skill stays in the
-- library under its id, and its specification is the one that was there or has a later version.
pub edit_all-Advances :
    (edits : List Edit) (lib : SkillLibrary)
    → AreKeyed lib.specs
    → AreKeyed (edit_all edits lib).specs × Advances lib.specs (edit_all edits lib).specs
unfolding edit_all
edit_all-Advances [] lib keyed = same_KeepsUp lib.specs keyed
edit_all-Advances (e ∷ edits) lib keyed =
    let (keyed', first) = edit-KeepsUp e lib keyed in
    let (keyed'', rest) = edit_all-Advances edits (edit e lib) keyed' in
    (
      keyed'',
      Advances-trans lib.specs (edit e lib).specs (edit_all edits (edit e lib)).specs first rest,
    )
