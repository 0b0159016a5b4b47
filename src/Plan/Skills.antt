-- ===== src/Plan/Skills.antt =====
-- What plan_graph.py reads of the skill library, and `alternative_skill_ids`.
use minecraft_ai.Prelude.{
  ℕ, Bool, true, false, List, [], ◌∷◌, ◌++◌, ◌||◌, leb, length, any, if◌then◌else◌, Str, same,
  contains, lookup, values, none, some, sort_by,
}
use minecraft_ai.Skills.{is_withdrawn, SkillSpec, SkillLibrary}

-- `effects & set(other.expected_effects)` is not empty
abbrev pub shares_effect : SkillSpec → SkillSpec → Bool
shares_effect spec other = any (contains other.expected_effects) spec.expected_effects

-- the loop over the library
unfoldable pub ranked : SkillSpec → Str → List SkillSpec → List (ℕ × Str)
ranked spec skill_id [] = []
ranked spec skill_id (other ∷ others) =
    let rest = ranked spec skill_id others in
    if same other.skill_id skill_id || is_withdrawn other.stage
    then rest
    else if shares_effect spec other
    then (0, other.skill_id) ∷ rest
    else if contains spec.recovery_skills other.skill_id
    then (1, other.skill_id) ∷ rest
    else rest

-- the order of the pairs, rank first
abbrev pub rank_key : ℕ × Str → Str
rank_key (rank, skill_id) = rank ∷ skill_id

-- the first four different ones
unfoldable pub first_four : List Str → List (ℕ × Str) → List Str
first_four seen [] = seen
first_four seen ((rank, candidate_id) ∷ rest) =
    let seen' = if contains seen candidate_id then seen else seen ++ candidate_id ∷ [] in
    elim (leb 4 (length seen')) [ true ↦ seen' | false ↦ first_four seen' rest ]

unfoldable pub alternative_skill_ids : SkillLibrary → Str → List Str
unfolding ranked first_four sort_by lookup values
alternative_skill_ids skills skill_id = elim (lookup skill_id skills.specs) [
  | none ↦ []
  | some spec ↦ first_four [] (sort_by rank_key (ranked spec skill_id (values skills.specs)))
]
