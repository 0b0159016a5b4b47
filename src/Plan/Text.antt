-- ===== src/Plan/Text.antt =====
-- The labels of a plan, `sanitize_plan_steps` of plan_graph.py. What Python's str and re decide
-- for all of Unicode is a parameter: `casefold`, `isspace`, and whether the two patterns match.
use minecraft_ai.Prelude.{
  ℕ, Bool, true, false, List, [], ◌∷◌, ◌++◌, ◌||◌, ◌==◌, leb, length, take, map, if◌then◌else◌, Str,
  same, contains, codes,
}

pub record PythonText : Type 0 where
  pub casefold : Str → Str
  pub is_space : ℕ → Bool
  pub fact_key_plan_step : Str → Bool
  pub schema_placeholder_plan_step : Str → Bool

abbrev pub sentinel_plan_steps : List Str
sentinel_plan_steps = map codes (
    "null" ∷ "none" ∷ "n/a" ∷ "na" ∷ "nil" ∷ "undefined" ∷ "unknown" ∷ "noop" ∷ "no-op" ∷ "no op"
    ∷ "-" ∷ "--" ∷ "." ∷ "..." ∷ "continue plan execution" ∷ "next step if successful" ∷ [])

abbrev pub is_empty : Str → Bool
is_empty [] = true
is_empty (_ ∷ _) = false

-- `text.replace(old, new)` for single characters
unfoldable pub replace : ℕ → ℕ → Str → Str
replace old new [] = []
replace old new (c ∷ s) = (if c == old then new else c) ∷ replace old new s

-- `" ".join(words)`
unfoldable pub join : List Str → Str
join [] = []
join (w ∷ []) = w
join (w ∷ v ∷ ws) = w ++ 32 ∷ join (v ∷ ws)

module _ (py : PythonText) where
  -- `text.split()` with the word read so far
  unfoldable pub split_from : Str → Str → List Str
  split_from [] [] = []
  split_from (w ∷ word) [] = (w ∷ word) ∷ []
  split_from [] (c ∷ s) = elim (py.is_space c) [
    | true ↦ split_from [] s
    | false ↦ split_from (c ∷ []) s
  ]
  split_from (w ∷ word) (c ∷ s) = elim (py.is_space c) [
    | true ↦ (w ∷ word) ∷ split_from [] s
    | false ↦ split_from (w ∷ word ++ c ∷ []) s
  ]

  -- `" ".join(text.split())`
  unfoldable pub squeeze : Str → Str
  unfolding split_from join
  squeeze s = join (split_from [] s)

  unfoldable pub normalized_plan_text : Str → Str
  unfolding squeeze replace
  normalized_plan_text value = squeeze (replace 45 32 (replace 95 32 (py.casefold value)))

  -- the tests of the loop that drop a label
  unfoldable pub dropped : Str → Bool
  unfolding normalized_plan_text
  dropped text =
      is_empty text
      || (is_empty (normalized_plan_text text)
          || (contains sentinel_plan_steps (normalized_plan_text text)
              || (py.fact_key_plan_step (py.casefold text)
                  || py.schema_placeholder_plan_step text)))

  -- `cleaned and _normalized_plan_text(cleaned[-1]) == normalized`
  unfoldable pub repeats_last : List Str → Str → Bool
  unfolding normalized_plan_text
  repeats_last [] normalized = false
  repeats_last (x ∷ []) normalized = same (normalized_plan_text x) normalized
  repeats_last (x ∷ y ∷ ys) normalized = repeats_last (y ∷ ys) normalized

  -- the loop, with what is cleaned so far
  unfoldable pub clean : List Str → List Str → List Str
  unfolding dropped repeats_last squeeze normalized_plan_text
  clean cleaned [] = cleaned
  clean cleaned (raw ∷ steps) =
      let text = squeeze raw in
      let longer = cleaned ++ take 120 text ∷ [] in
      elim (dropped text || repeats_last cleaned (normalized_plan_text text)) [
        | true ↦ clean cleaned steps
        | false ↦ elim (leb 5 (length longer)) [ true ↦ longer | false ↦ clean longer steps ]
      ]

  unfoldable pub sanitize_plan_steps : List Str → List Str
  unfolding clean
  sanitize_plan_steps steps = clean [] steps
