-- ===== src/Skills/Recovery/Examples.antt =====
-- Two skills to recover with, of which one has failed.
use minecraft_ai.Prelude.{
  ℕ, none, In, Bool, true, List, [], ◌∷◌, Option, some, ◌≡◌, refl, All, Str, codes, same, arith,
}
use minecraft_ai.Skills.{SkillSpec}
use minecraft_ai.Skills.Counts.{record_all}
use minecraft_ai.Skills.Recovery.{select_learned_recovery}
use minecraft_ai.Skills.Recovery.Chosen.{
  IsOrder, IsCandidate, IsChoice, NumberOf, AreNumbers, candidates_of, score_in,
  select_learned_recovery-IsChoice,
}
use minecraft_ai.Skills.Examples.{whole, skill, chop, walk, day, tired}

whole-IsOrder : IsOrder whole
whole-IsOrder = record {
  irreflexive = λ a. ground arith;
  asymmetric = λ a b h. ground (arith, h);
  connected = λ a b c n h h'. ground (arith, h, h');
}

abbrev ids : List Str
ids = chop ∷ walk ∷ chop ∷ codes "swim" ∷ []

abbrev anything : SkillSpec → Bool
anything c = true

walk_chosen :
    select_learned_recovery whole anything day 2 tired ids 1 ≡ some (some (skill walk true))
unfolding select_learned_recovery record_all same
walk_chosen = refl

whole_number : (o : Option ℕ) → NumberOf whole o
whole_number none = tt
whole_number (some s) = refl

whole-AreNumbers :
    (score_of : SkillSpec → Option ℕ) (cs : List SkillSpec) → AreNumbers whole score_of cs
whole-AreNumbers score_of [] = tt
whole-AreNumbers score_of (c ∷ cs) = (whole_number (score_of c), whole-AreNumbers score_of cs)

select_learned_recovery-IsChoice_example :
    (choice : Option SkillSpec) × (select_learned_recovery whole anything day 2 tired ids 1
      ≡ some choice)
    × All
        (IsCandidate whole anything day 2 tired ids)
        (candidates_of whole anything day 2 tired ids)
    × ((c : SkillSpec)
        → IsCandidate whole anything day 2 tired ids c
        → In c (candidates_of whole anything day 2 tired ids))
    × IsChoice whole
        (score_in whole anything day 2 tired ids 1)
        (candidates_of whole anything day 2 tired ids)
        choice
select_learned_recovery-IsChoice_example =
    select_learned_recovery-IsChoice whole anything day 2 tired ids 1 (omega arith) refl refl
      whole-IsOrder
      (whole-AreNumbers (score_in whole anything day 2 tired ids 1)
        (candidates_of whole anything day 2 tired ids))
