-- ===== src/Skills/Counts.antt =====
-- The counters of a key count its runs in the history, however the runs of the keys interleave.
use minecraft_ai.Prelude.{
  ℕ, ◌+◌, Bool, true, false, List, [], ◌∷◌, Option, none, some, ◌≡◌, refl, sym, ◌∙◌, ◌&&◌,
  if◌then◌else◌, All, arith,
}
use mathlib.Core.Path.{subst}
use minecraft_ai.Skills.{
  SkillOutcome, failed, timed_out, cancelled, SkillRun, SkillStats, Key, same_key, SkillLibrary,
  is_censored, counted, is_success, relieved, observed, record_run,
}
use minecraft_ai.Skills.Observed.{
  key_of, stats_or_new, change, stats_after, is_finished, recorded, record_run-recorded,
}

-- `record` for each run of a history, none when one raises
unfoldable pub record_all : List SkillRun → SkillLibrary → Option SkillLibrary
unfolding record_run
record_all [] lib = some lib
record_all (run ∷ runs) lib = elim (record_run run lib) [
  | none ↦ none
  | some lib' ↦ record_all runs lib'
]

abbrev pub is_failure : SkillOutcome → Bool
is_failure failed = true
is_failure _ = false

abbrev pub is_timeout : SkillOutcome → Bool
is_timeout timed_out = true
is_timeout _ = false

abbrev pub is_cancelled : SkillOutcome → Bool
is_cancelled cancelled = true
is_cancelled _ = false

-- how many runs of the key pass the test
abbrev pub tally : (SkillRun → Bool) → Key → List SkillRun → ℕ
tally test k [] = 0
tally test k (run ∷ runs) =
    (if same_key k (key_of run) && test run then 1 else 0) + tally test k runs

-- each counter grows by the runs of its kind
pub record Tallies (k : Key) (runs : List SkillRun) (s s' : SkillStats) : Type 0 where
  pub successes : s'.successes ≡ s.successes + tally (λ r. is_success r.outcome) k runs
  pub failures : s'.failures ≡ s.failures + tally (λ r. is_failure r.outcome) k runs
  pub timeouts : s'.timeouts ≡ s.timeouts + tally (λ r. is_timeout r.outcome) k runs
  pub cancellations :
      s'.cancellations ≡ s.cancellations + tally (λ r. is_cancelled r.outcome) k runs
  pub censored :
      s'.censored_failures
      ≡ s.censored_failures + tally (λ r. is_failure r.outcome && is_censored r.failure_code) k runs

-- one run
change-Tallies :
    (run : SkillRun) (k : Key) (s : SkillStats) → Tallies k (run ∷ []) s (change run k s)
unfolding observed counted is_success relieved
change-Tallies run k s = record {
  successes = ground arith;
  failures = ground arith;
  timeouts = ground arith;
  cancellations = ground arith;
  censored = ground arith;
}

cons-Tallies :
    (k : Key) (run : SkillRun) (runs : List SkillRun) (s t u : SkillStats)
    → Tallies k (run ∷ []) s t
    → Tallies k runs t u
    → Tallies k (run ∷ runs) s u
cons-Tallies k run runs s t u first rest = record {
  successes = omega (arith, first.successes, rest.successes);
  failures = omega (arith, first.failures, rest.failures);
  timeouts = omega (arith, first.timeouts, rest.timeouts);
  cancellations = omega (arith, first.cancellations, rest.cancellations);
  censored = omega (arith, first.censored, rest.censored);
}

record_all_next :
    (run : SkillRun) (runs : List SkillRun) (lib lib' : SkillLibrary)
    → record_run run lib ≡ some lib'
    → record_all (run ∷ runs) lib ≡ record_all runs lib'
unfolding record_all
record_all_next run runs lib lib' h = ground (arith, h)

-- Recording a history of finished runs raises nothing, keeps the skills, and for every skill and
-- context adds to each counter the number of the history's runs of that kind with that key.
pub record_all-Tallies :
    (runs : List SkillRun) (lib : SkillLibrary)
    → All (λ r. is_finished r.outcome ≡ true) runs
    → (lib' : SkillLibrary) × (record_all runs lib ≡ some lib')
      × ((lib'.specs ≡ lib.specs)
          × ((k : Key) → Tallies k runs (stats_or_new k lib.stats) (stats_or_new k lib'.stats)))
unfolding record_all
record_all-Tallies [] lib h = (
  lib,
  refl,
  (
    refl,
    λ k. record {
      successes = omega arith;
      failures = omega arith;
      timeouts = omega arith;
      cancellations = omega arith;
      censored = omega arith;
    },
  ),
)
record_all-Tallies (run ∷ runs) lib (h, hs) =
    let (lib', e, (kept, tallies)) = record_all-Tallies runs (recorded run lib) hs in
    (
      lib',
      record_all_next run runs lib (recorded run lib) (record_run-recorded run lib h) ∙ e,
      (
        kept,
        λ k.
            cons-Tallies k run runs (stats_or_new k lib.stats)
              (stats_or_new k (recorded run lib).stats) (stats_or_new k lib'.stats)
              (subst (Tallies k (run ∷ []) (stats_or_new k lib.stats))
                (sym (stats_after run k lib.stats))
                (change-Tallies run k (stats_or_new k lib.stats)))
              (tallies k),
      ),
    )
