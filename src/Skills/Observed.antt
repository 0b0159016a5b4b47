-- ===== src/Skills/Observed.antt =====
-- What one recorded run makes of the statistics of every key.
use mathlib.Core.Path.{subst}
use minecraft_ai.Prelude.{
  Bool, true, false, [], ◌∷◌, ◌++◌, none, some, ◌≡◌, refl, ap, ◌∙◌, inl, inr, if◌then◌else◌, map,
  same_iff, Bool-cases, Option-cases, arith,
}
use minecraft_ai.Skills.{
  SkillOutcome, running, SkillRun, SkillStats, new_stats, Key, same_key, Stats, stats_at,
  SkillLibrary, with_key, relieved, observed, record_run,
}

pub same_key_iff : (j k : Key) → same_key j k ≡ true → j ≡ k
same_key_iff (a, b) (c, d) h =
    let first = (same_iff a c).0 in
    let second = (same_iff b d).0 in ground (arith, h, first, second)

abbrev pub key_of : SkillRun → Key
key_of run = (run.skill_id, run.context_key)

-- the statistics of a key, new ones where there are none
abbrev pub stats_or_new : Key → Stats → SkillStats
stats_or_new k stats = elim (stats_at k stats) [ none ↦ new_stats | some s ↦ s ]

-- what the run makes of the statistics of a key
abbrev pub change : SkillRun → Key → SkillStats → SkillStats
change run k s = (observed run (k, s)).1

observed_key : (run : SkillRun) (x : Key × SkillStats) → (observed run x).0 ≡ x.0
unfolding observed
observed_key run (k, s) = ground arith

observed-change :
    (run : SkillRun) (k : Key) (s : SkillStats) → observed run (k, s) ≡ (k, change run k s)
unfolding observed
observed-change run k s = ground arith

stats_at-map :
    (run : SkillRun) (k : Key) (stats : Stats)
    → stats_at k (map (observed run) stats)
      ≡ elim (stats_at k stats) [ none ↦ none | some s ↦ some (change run k s) ]
unfolding stats_at
stats_at-map run k [] = refl
stats_at-map run k ((j, s) ∷ stats) =
    let rest = stats_at-map run k stats in
    rw (observed_key run (j, s)) (elim (Bool-cases (same_key j k)) [
      | inl e ↦ rw e (ap (λ x. some (change run x s)) (same_key_iff j k e))
      | inr e ↦ rw e rest
    ])

stats_at-append :
    (k j : Key) (stats : Stats)
    → stats_at k (stats ++ (j, new_stats) ∷ []) ≡ elim (stats_at k stats) [
      | none ↦ if same_key j k then some new_stats else none
      | some s ↦ some s
    ]
unfolding stats_at
stats_at-append k j [] = refl
stats_at-append k j ((i, s) ∷ stats) = elim (Bool-cases (same_key i k)) [
  | inl e ↦ rw e refl
  | inr e ↦ rw e (stats_at-append k j stats)
]

stats_or_new-append :
    (k j : Key) (stats : Stats)
    → stats_or_new k (stats ++ (j, new_stats) ∷ []) ≡ stats_or_new k stats
stats_or_new-append k j stats = ground (arith, stats_at-append k j stats)

stats_or_new-with_key :
    (k j : Key) (stats : Stats) → stats_or_new k (with_key j stats) ≡ stats_or_new k stats
unfolding with_key
stats_or_new-with_key k j stats = ground (arith, stats_or_new-append k j stats)

-- what a run makes of any key, whether it had statistics or not
pub stats_or_new-map :
    (run : SkillRun) (k : Key) (stats : Stats)
    → (stats_at k stats ≡ none → change run k new_stats ≡ new_stats)
    → stats_or_new k (map (observed run) stats) ≡ change run k (stats_or_new k stats)
stats_or_new-map run k stats h = elim (Option-cases (stats_at k stats)) [
  | inl n ↦ ground (arith, n, h n, stats_at-map run k stats)
  | inr (s, n) ↦ ground (arith, n, stats_at-map run k stats)
]

-- the run's own key is there after `setdefault`
with_key_own : (k : Key) (stats : Stats) → stats_at k (with_key k stats) ≡ none → ⊥
unfolding with_key
with_key_own k stats h =
    let own : same_key k k ≡ true =
      ground (arith, (same_iff k.0 k.0).1 refl, (same_iff k.1 k.1).1 refl) in
    ground (arith, own, h, stats_at-append k k stats)

change_new :
    (run : SkillRun) (k : Key)
    → same_key k (key_of run) ≡ false
    → change run k new_stats ≡ new_stats
unfolding observed relieved
change_new run k h = ground (arith, h)

-- The statistics of every key after a run.
pub stats_after :
    (run : SkillRun) (k : Key) (stats : Stats)
    → stats_or_new k (map (observed run) (with_key (key_of run) stats))
      ≡ change run k (stats_or_new k stats)
stats_after run k stats =
    let kept = stats_or_new-with_key k (key_of run) stats in
    stats_or_new-map run k (with_key (key_of run) stats) (λ n.
      elim (Bool-cases (same_key k (key_of run))) [
        | inl e ↦
            let k_is = same_key_iff k (key_of run) e in
            absurd (
              with_key_own (key_of run) stats
                (subst (λ x. stats_at x (with_key (key_of run) stats) ≡ none) k_is n))
        | inr e ↦ change_new run k e
      ])
    ∙ ap (change run k) kept

abbrev pub is_finished : SkillOutcome → Bool
is_finished running = false
is_finished _ = true

-- the library after a run that is finished
abbrev pub recorded : SkillRun → SkillLibrary → SkillLibrary
recorded run lib = record lib { stats = map (observed run) (with_key (key_of run) lib.stats) }

pub record_run-recorded :
    (run : SkillRun) (lib : SkillLibrary)
    → is_finished run.outcome ≡ true
    → record_run run lib ≡ some (recorded run lib)
unfolding record_run
record_run-recorded run lib h = ground (arith, h)
