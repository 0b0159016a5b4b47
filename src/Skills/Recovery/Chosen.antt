-- ===== src/Skills/Recovery/Chosen.antt =====
-- Which skill `select_learned_recovery` gives.
use mathlib.Core.Path.{subst}
use minecraft_ai.Prelude.{
  ℕ, ◌<◌, ◌≤◌, Bool, true, false, List, [], ◌∷◌, Option, none, some, ◌≡◌, refl, sym, ap, ◌⊎◌, inl,
  inr, if◌then◌else◌, Str, lookup, from_keys, contains, In, In-append_split, In-append_left,
  In-append_end, contains-In, map, All, Bool-cases, Option-cases, arith, ◌++◌,
}
use minecraft_ai.Skills.{SkillSpec, SkillLibrary, is_withdrawn}
use minecraft_ai.Skills.Tolerance.{SkillFloats, contextual_failure_streak}
use minecraft_ai.Skills.Streaks.{probability_some}
use minecraft_ai.Skills.Recovery.{
  is_eligible, candidates_among, score, scored, greatest, first_greatest, log_total_of,
  select_learned_recovery,
}

-- The order of the doubles: with a NaN `<` is false, so that only the last law needs a number.
pub record IsOrder (fl : SkillFloats) : Type 0 where
  pub irreflexive : (a : fl.Float) → fl.ltb_float a a ≡ false
  pub asymmetric : (a b : fl.Float) → fl.ltb_float a b ≡ true → fl.ltb_float b a ≡ false
  pub connected :
      (a b c : fl.Float)
      → fl.is_number b ≡ true
      → fl.ltb_float b a ≡ false
      → fl.ltb_float c b ≡ false
      → fl.ltb_float c a ≡ false

-- no score is a NaN
abbrev pub NumberOf : (fl : SkillFloats) → Option fl.Float → Type 0
NumberOf fl none = Unit
NumberOf fl (some s) = fl.is_number s ≡ true

abbrev pub AreNumbers : (fl : SkillFloats) → (SkillSpec → Option fl.Float) → List SkillSpec → Type 0
AreNumbers fl score_of = All (λ c. NumberOf fl (score_of c))

numbers_of :
    (fl : SkillFloats) (score_of : SkillSpec → Option fl.Float) (xs : List (fl.Float × SkillSpec))
    → All (λ x. score_of x.1 ≡ some x.0) xs
    → AreNumbers fl score_of (map (λ (x : fl.Float × SkillSpec). x.1) xs)
    → All (λ x. fl.is_number x.0 ≡ true) xs
numbers_of fl score_of [] e h = tt
numbers_of fl score_of (x ∷ xs) e h =
    (subst (NumberOf fl) e.0 h.0, numbers_of fl score_of xs e.1 h.1)

module _ (fl : SkillFloats) (feasible : SkillSpec → Bool) (context_key : Str)
    (max_context_failures : ℕ) (lib : SkillLibrary) where
  -- a declared skill that is known, not withdrawn, below the limit of failures, and feasible
  pub record IsCandidate (ids : List Str) (c : SkillSpec) : Type 0 where
    pub recovery_id : Str
    pub declared : In recovery_id ids
    pub known : lookup recovery_id lib.specs ≡ some c
    pub not_withdrawn : is_withdrawn c.stage ≡ false
    pub few_failures :
        contextual_failure_streak fl (recovery_id, context_key) lib < max_context_failures
    pub is_feasible : feasible c ≡ true

  abbrev among : List Str → List SkillSpec
  among = candidates_among fl feasible context_key max_context_failures lib

  eligible_parts :
      (k : Str) (c : SkillSpec)
      → is_eligible fl feasible context_key max_context_failures lib k c ≡ true
      → (is_withdrawn c.stage ≡ false)
        × (contextual_failure_streak fl (k, context_key) lib < max_context_failures)
        × (feasible c ≡ true)
  unfolding is_eligible
  eligible_parts k c h = ground (arith, h)

  among_unknown :
      (k : Str) (ids : List Str) → lookup k lib.specs ≡ none → among (k ∷ ids) ≡ among ids
  unfolding candidates_among
  among_unknown k ids n = ground (arith, n)

  among_known :
      (k : Str) (ids : List Str) (c : SkillSpec)
      → lookup k lib.specs ≡ some c
      → among (k ∷ ids) ≡ (
          if is_eligible fl feasible context_key max_context_failures lib k c
          then c ∷ among ids
          else among ids)
  unfolding candidates_among
  among_known k ids c n = ground (arith, n)

  eligible_of :
      (k : Str) (c : SkillSpec)
      → is_withdrawn c.stage ≡ false
      → contextual_failure_streak fl (k, context_key) lib < max_context_failures
      → feasible c ≡ true
      → is_eligible fl feasible context_key max_context_failures lib k c ≡ true
  unfolding is_eligible
  eligible_of k c a b d = ground (arith, a, b, d)

  among_own :
      (k : Str) (c : SkillSpec) (ids : List Str)
      → In k ids
      → lookup k lib.specs ≡ some c
      → is_eligible fl feasible context_key max_context_failures lib k c ≡ true
      → In c (among ids)
  among_own k c [] m n h = absurd m
  among_own k c (j ∷ ids) (inl p) n h =
      subst (λ i. In c (among (i ∷ ids))) (sym p)
        (subst (In c) (sym (among_known k ids c n)) (rw h (inl refl)))
  among_own k c (j ∷ ids) (inr m) n h =
      let later = among_own k c ids m n h in
      elim (Option-cases (lookup j lib.specs)) [
        | inl o ↦ subst (In c) (sym (among_unknown j ids o)) later
        | inr (d, o) ↦
            subst (In c) (sym (among_known j ids d o))
              (elim (Bool-cases
                (is_eligible fl feasible context_key max_context_failures lib j d)) [
                  | inl b ↦ rw b (inr later)
                  | inr b ↦ rw b later
                ])
      ]

  among-IsCandidate :
      (all ids : List Str) → ((k : Str) → In k ids → In k all) → All (IsCandidate all) (among ids)
  unfolding candidates_among
  among-IsCandidate all [] h = tt
  among-IsCandidate all (k ∷ ids) h =
      let rest = among-IsCandidate all ids (λ j i. h j (inr i)) in
      elim (Option-cases (lookup k lib.specs)) [
        | inl n ↦ subst (All (IsCandidate all)) (sym (among_unknown k ids n)) rest
        | inr (c, n) ↦
            subst (All (IsCandidate all)) (sym (among_known k ids c n))
              (elim (Bool-cases
                (is_eligible fl feasible context_key max_context_failures lib k c)) [
                  | inl b ↦
                      let (current, few, ready) = eligible_parts k c b in
                      rw b (
                        record {
                          recovery_id = k;
                          declared = h k (inl refl);
                          known = n;
                          not_withdrawn = current;
                          few_failures = few;
                          is_feasible = ready;
                        },
                        rest,
                      )
                  | inr b ↦ rw b rest
                ])
      ]

  module _ (strength log_total : fl.Float) where
    abbrev score_of : SkillSpec → Option fl.Float
    score_of = score fl feasible context_key max_context_failures lib strength log_total

    -- each skill with its score
    abbrev AreScored : List SkillSpec → List (fl.Float × SkillSpec) → Type 0
    AreScored cs xs =
        (map (λ (x : fl.Float × SkillSpec). x.1) xs ≡ cs) × All (λ x. score_of x.1 ≡ some x.0) xs

    score_some :
        (c : SkillSpec) → fl.is_strength (fl.of_ℕ 1) ≡ true → (s : fl.Float) × (score_of c ≡ some s)
    unfolding score
    score_some c h =
        let (p, e) = probability_some fl (c.skill_id, context_key) (fl.of_ℕ 1) lib h in
        rw (e, score) (_, refl)

    scored_next :
        (c : SkillSpec) (cs : List SkillSpec) (s : fl.Float) (xs : List (fl.Float × SkillSpec))
        → score_of c ≡ some s
        → scored fl feasible context_key max_context_failures lib strength log_total cs ≡ some xs
        → scored fl feasible context_key max_context_failures lib strength log_total (c ∷ cs)
          ≡ some ((s, c) ∷ xs)
    unfolding scored
    scored_next c cs s xs h h' = ground (arith, h, h')

    scored-AreScored :
        (cs : List SkillSpec)
        → fl.is_strength (fl.of_ℕ 1) ≡ true
        → (xs : List (fl.Float × SkillSpec)) × (scored fl feasible context_key max_context_failures
              lib strength log_total cs
            ≡ some xs)
          × AreScored cs xs
    unfolding scored
    scored-AreScored [] h = ([], refl, (refl, tt))
    scored-AreScored (c ∷ cs) h =
        let (s, e) = score_some c h in
        let (xs, f, (same_skills, scores)) = scored-AreScored cs h in
        ((s, c) ∷ xs, scored_next c cs s xs e f, (ap (λ ys. c ∷ ys) same_skills, (e, scores)))

module _ (fl : SkillFloats) (o : IsOrder fl) where
  -- one of the items, with no item above it
  abbrev IsTop : fl.Float × SkillSpec → List (fl.Float × SkillSpec) → fl.Float × SkillSpec → Type 0
  IsTop best xs top =
      In top (best ∷ xs)
      × ((fl.ltb_float top.0 best.0 ≡ false) × All (λ x. fl.ltb_float top.0 x.0 ≡ false) xs)

  greatest_next :
      (best x : fl.Float × SkillSpec) (xs : List (fl.Float × SkillSpec)) (b : Bool)
      → fl.ltb_float best.0 x.0 ≡ b
      → greatest fl (if b then x else best) xs ≡ greatest fl best (x ∷ xs)
  unfolding greatest
  greatest_next best x xs b h = ap (λ y. greatest fl (if y then x else best) xs) (sym h)

  greatest-IsTop :
      (best : fl.Float × SkillSpec) (xs : List (fl.Float × SkillSpec))
      → fl.is_number best.0 ≡ true
      → All (λ x. fl.is_number x.0 ≡ true) xs
      → IsTop best xs (greatest fl best xs)
  unfolding greatest
  greatest-IsTop best [] n ns = (inl refl, (o.irreflexive best.0, tt))
  greatest-IsTop best (x ∷ xs) n ns =
      let (i, (above, rest)) = greatest-IsTop x xs ns.0 ns.1 in
      let (i', (above', rest')) = greatest-IsTop best xs n ns.1 in
      elim (Bool-cases (fl.ltb_float best.0 x.0)) [
        | inl b ↦ subst (IsTop best (x ∷ xs)) (greatest_next best x xs true b) (
          inr i,
          (
            o.connected best.0 x.0 (greatest fl x xs).0 ns.0 (o.asymmetric best.0 x.0 b) above,
            (above, rest),
          ),
        )
        | inr b ↦ subst (IsTop best (x ∷ xs)) (greatest_next best x xs false b) (
          elim i' [ inl e ↦ inl e | inr j ↦ inr (inr j) ],
          (above', (o.connected x.0 best.0 (greatest fl best xs).0 n b above', rest')),
        )
      ]

All-both :
    {A : Type 0} → (P Q : A → Type 0) (xs : List A) → All P xs → All Q xs → All (λ x. P x × Q x) xs
All-both P Q [] p q = tt
All-both P Q (x ∷ xs) p q = ((p.0, q.0), All-both P Q xs p.1 q.1)

-- the keys are among the items
from_keys_In : (k : Str) (seen xs : List Str) → In k (from_keys seen xs) → In k seen ⊎ In k xs
unfolding from_keys
from_keys_In k seen [] m = inl m
from_keys_In k seen (x ∷ xs) m =
    let old = from_keys_In k seen xs in
    let more = from_keys_In k (seen ++ x ∷ []) xs in
    elim (Bool-cases (contains seen x)) [
      | inl b ↦
          elim (old (subst (λ t. In k (from_keys (if t then seen else seen ++ x ∷ []) xs)) b m)) [
            | inl i ↦ inl i
            | inr i ↦ inr (inr i)
          ]
      | inr b ↦
          elim (more (subst (λ t. In k (from_keys (if t then seen else seen ++ x ∷ []) xs)) b m)) [
            | inl i ↦ elim (In-append_split k x seen i) [ inl j ↦ inl j | inr j ↦ inr (inl j) ]
            | inr i ↦ inr (inr i)
          ]
    ]

from_keys_keeps : (k : Str) (seen xs : List Str) → In k seen → In k (from_keys seen xs)
unfolding from_keys
from_keys_keeps k seen [] m = m
from_keys_keeps k seen (x ∷ xs) m =
    let old = from_keys_keeps k seen xs m in
    let more = from_keys_keeps k (seen ++ x ∷ []) xs (In-append_left k seen (x ∷ []) m) in
    elim (Bool-cases (contains seen x)) [ inl b ↦ rw b old | inr b ↦ rw b more ]

from_keys_own : (k : Str) (seen xs : List Str) → In k xs → In k (from_keys seen xs)
unfolding from_keys
from_keys_own k seen [] m = absurd m
from_keys_own k seen (x ∷ xs) (inl p) = elim (Bool-cases (contains seen x)) [
  | inl b ↦ rw b (from_keys_keeps k seen xs (subst (λ y. In y seen) p (contains-In seen x b)))
  | inr b ↦ rw b (
      from_keys_keeps k (seen ++ x ∷ []) xs
        (subst (λ y. In y (seen ++ x ∷ [])) p (In-append_end x seen)))
]
from_keys_own k seen (x ∷ xs) (inr m) =
    let old = from_keys_own k seen xs m in
    let more = from_keys_own k (seen ++ x ∷ []) xs m in
    elim (Bool-cases (contains seen x)) [ inl b ↦ rw b old | inr b ↦ rw b more ]

-- none only without candidates, else the candidate with the greatest score
abbrev pub IsChoice :
    (fl : SkillFloats) → (SkillSpec → Option fl.Float) → List SkillSpec → Option SkillSpec → Type 0
IsChoice fl score_of candidates none = candidates ≡ []
IsChoice fl score_of candidates (some c) =
    (s : fl.Float) × (xs : List (fl.Float × SkillSpec)) × (map (λ (x : fl.Float × SkillSpec). x.1)
        xs
      ≡ candidates)
    × (In (s, c) xs)
    × All (λ (x : fl.Float × SkillSpec). (score_of x.1 ≡ some x.0) × (fl.ltb_float s x.0 ≡ false))
        xs

module _ (fl : SkillFloats) (feasible : SkillSpec → Bool) (context_key : Str)
    (max_context_failures : ℕ) (lib : SkillLibrary) where
  first_greatest-IsChoice :
      (strength log_total : fl.Float) (cs : List SkillSpec) (xs : List (fl.Float × SkillSpec))
      → IsOrder fl
      → AreNumbers fl (score fl feasible context_key max_context_failures lib strength log_total) cs
      → AreScored fl feasible context_key max_context_failures lib strength log_total cs xs
      → IsChoice fl
          (score fl feasible context_key max_context_failures lib strength log_total)
          cs
          (first_greatest fl xs)
  unfolding first_greatest
  first_greatest-IsChoice strength log_total cs [] o numbers (e, _) = sym e
  first_greatest-IsChoice strength log_total cs (x ∷ xs) o numbers (e, scores) =
      let score_of = score fl feasible context_key max_context_failures lib strength log_total in
      let ns =
        numbers_of fl score_of (x ∷ xs) scores (subst (AreNumbers fl score_of) (sym e) numbers) in
      let (i, (above, rest)) = greatest-IsTop fl o x xs ns.0 ns.1 in
      let top = greatest fl x xs in
      (
        top.0,
        x ∷ xs,
        e,
        i,
        All-both
            (λ y.
              score fl feasible context_key max_context_failures lib strength log_total y.1
              ≡ some y.0)
            (λ y. fl.ltb_float top.0 y.0 ≡ false) (x ∷ xs) scores (above, rest),
      )

  select_next :
      (ids : List Str) (strength : fl.Float) (xs : List (fl.Float × SkillSpec))
      → 1 ≤ max_context_failures
      → fl.is_exploration strength ≡ true
      → (let cs =
            candidates_among fl feasible context_key max_context_failures lib (from_keys [] ids) in
          scored fl feasible context_key max_context_failures lib strength
            (log_total_of fl feasible context_key max_context_failures lib cs)
            cs)
        ≡ some xs
      → select_learned_recovery fl feasible context_key max_context_failures lib ids strength
        ≡ some (first_greatest fl xs)
  unfolding select_learned_recovery
  select_next ids strength xs l h e = ground (arith, l, h, e)

  -- the candidates of the selection, and their scores
  abbrev pub candidates_of : List Str → List SkillSpec
  candidates_of ids =
      candidates_among fl feasible context_key max_context_failures lib (from_keys [] ids)

  abbrev pub score_in : List Str → fl.Float → SkillSpec → Option fl.Float
  score_in ids strength =
      score fl feasible context_key max_context_failures lib strength
        (log_total_of fl feasible context_key max_context_failures lib (candidates_of ids))

  -- With a limit of failures of at least 1, a finite strength of exploration that is not negative,
  -- a strength 1.0 of the prior that passes, and no score that is a NaN, the selection raises
  -- nothing. Its candidates are exactly the skills that are declared, known, not withdrawn, below the
  -- limit of failures in the context, and feasible. It gives none only when there is no candidate,
  -- and otherwise a candidate such that no candidate has a greater score.
  pub select_learned_recovery-IsChoice :
      (recovery_ids : List Str) (strength : fl.Float)
      → 1 ≤ max_context_failures
      → fl.is_exploration strength ≡ true
      → fl.is_strength (fl.of_ℕ 1) ≡ true
      → IsOrder fl
      → AreNumbers fl (score_in recovery_ids strength) (candidates_of recovery_ids)
      → (choice : Option SkillSpec) × (select_learned_recovery fl feasible context_key
            max_context_failures lib recovery_ids strength
          ≡ some choice)
        × All
            (IsCandidate fl feasible context_key max_context_failures lib recovery_ids)
            (candidates_of recovery_ids)
        × ((c : SkillSpec)
            → IsCandidate fl feasible context_key max_context_failures lib recovery_ids c
            → In c (candidates_of recovery_ids))
        × IsChoice fl (score_in recovery_ids strength) (candidates_of recovery_ids) choice
  select_learned_recovery-IsChoice ids strength l h one o numbers =
      let cs =
        candidates_among fl feasible context_key max_context_failures lib (from_keys [] ids) in
      let total = log_total_of fl feasible context_key max_context_failures lib cs in
      let (xs, e, are_scored) =
        scored-AreScored fl feasible context_key max_context_failures lib strength total cs one in
      (
        first_greatest fl xs,
        select_next ids strength xs l h e,
        among-IsCandidate fl feasible context_key max_context_failures lib ids (from_keys [] ids)
            (λ k m. elim (from_keys_In k [] ids m) [ inl i ↦ absurd i | inr i ↦ i ]),
        λ c p.
            among_own fl feasible context_key max_context_failures lib p.recovery_id c
              (from_keys [] ids) (from_keys_own p.recovery_id [] ids p.declared) p.known
              (eligible_of fl feasible context_key max_context_failures lib p.recovery_id c
                p.not_withdrawn p.few_failures p.is_feasible),
        first_greatest-IsChoice strength total cs xs o numbers are_scored,
      )
