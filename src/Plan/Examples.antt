-- ===== src/Plan/Examples.antt =====
-- Labels, alternatives and graphs at concrete inputs.
use minecraft_ai.Prelude.{
  ℕ, ◌+◌, ◌≤◌, true, false, List, [], ◌∷◌, ◌≡◌, refl, ◌&&◌, leb, any, length, Str, codes, map,
  values, zero, suc, contains, insert, str_leb, lookup, same, none, some, ◌==◌, if◌then◌else◌,
}
use minecraft_ai.Outcome.{returned}
use minecraft_ai.Plan.Text.{PythonText, sanitize_plan_steps}
use minecraft_ai.Skills.{SkillSpec, SkillLibrary, trusted}
use minecraft_ai.Plan.Skills.{alternative_skill_ids}
use minecraft_ai.Plan.Graph.{PlanGraph, mark_running, mark_succeeded, block_current_method}
use minecraft_ai.Plan.Build.{ready_node, plan_graph_from_steps}
use minecraft_ai.Plan.Sound.{is_sound}
use minecraft_ai.Plan.Run.{Call, running_call, succeeded_call, blocked_call, play, play-is_sound}
use minecraft_ai.Plan.Total.{plan_graph_from_steps-returns}

-- the text rules for ASCII; a full stop stands for the pattern of fact keys
abbrev ascii : PythonText
ascii = record {
  casefold = map (λ c. if leb 65 c && leb c 90 then c + 32 else c);
  is_space = λ c. c == 32;
  fact_key_plan_step = any (λ c. c == 46);
  schema_placeholder_plan_step = λ s. false;
}

abbrev skill : Str → List Str → List Str → SkillSpec
skill name effects recovery = record {
  skill_id = name;
  stage = trusted;
  expected_effects = effects;
  recovery_skills = recovery;
  version = 1;
  traversal = false;
}

abbrev chop : Str
chop = codes "chop"

abbrev chop_slow : Str
chop_slow = codes "chop_slow"

abbrev look : Str
look = codes "look"

abbrev wood : List Str
wood = codes "wood" ∷ []

abbrev forest : SkillLibrary
forest = record {
  specs =
      (chop, skill chop wood (look ∷ []))
      ∷ (look, skill look [] [])
      ∷ (chop_slow, skill chop_slow wood [])
      ∷ [];
  stats = [];
}

abbrev steps : List Str
steps = codes "Chop" ∷ codes "none" ∷ codes " chop " ∷ codes "scene.tree" ∷ codes "look" ∷ []

labels_kept : sanitize_plan_steps ascii steps ≡ codes "Chop" ∷ codes "look" ∷ []
unfolding sanitize_plan_steps contains same
labels_kept = refl

chop_alternatives : alternative_skill_ids forest chop ≡ chop_slow ∷ look ∷ []
unfolding alternative_skill_ids same contains str_leb
chop_alternatives = refl

-- two equal labels of more than 120 characters are both kept: the cut one is compared
abbrev long_step : ℕ → Str
long_step zero = []
long_step (suc n) = 97 ∷ long_step n

long_repeat : length (sanitize_plan_steps ascii (long_step 121 ∷ long_step 121 ∷ [])) ≡ 2
unfolding sanitize_plan_steps contains same
long_repeat = refl

abbrev first_plan : PlanGraph
first_plan = record {
  goal_id = none;
  nodes =
      (codes "n00", ready_node (codes "n00") chop (some chop) none [])
      ∷ (codes "n01", ready_node (codes "n01") look (some look) none [])
      ∷ [];
  order = codes "n00" ∷ codes "n01" ∷ [];
  cursor = 0;
}

abbrev calls : List Call
calls =
    running_call chop
    ∷ blocked_call chop (codes "stuck") (some forest)
    ∷ succeeded_call chop_slow false
    ∷ succeeded_call look false
    ∷ []

-- the blocked skill is replaced by another, and both steps are then done
calls_end : (play ascii calls first_plan).1.cursor ≡ 2
unfolding mark_running mark_succeeded block_current_method same insert contains str_leb
calls_end = refl

play-is_sound_example :
    ((play ascii calls first_plan).0 ≡ true)
    × (is_sound (play ascii calls first_plan).1 ≡ true)
    × (length (play ascii calls first_plan).1.order ≡ length first_plan.order)
    × (first_plan.cursor ≤ (play ascii calls first_plan).1.cursor)
    × ((play ascii calls first_plan).1.cursor ≤ length first_plan.order)
unfolding lookup same
play-is_sound_example = play-is_sound ascii calls first_plan refl

plan_graph_from_steps-returns_example :
    (g : PlanGraph) × (plan_graph_from_steps ascii steps none (some forest) ≡ returned g)
    × (is_sound g ≡ true)
    × (g.cursor ≡ 0)
    × (length g.order ≡ length (sanitize_plan_steps ascii steps))
unfolding values
plan_graph_from_steps-returns_example =
    plan_graph_from_steps-returns ascii (some forest) (refl, (refl, (refl, tt))) steps none
