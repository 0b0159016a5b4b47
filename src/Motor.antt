-- ===== src/Motor.antt =====
-- BootstrapMotorPolicy of control/motor.py, the hand-written motor policy. The rounding of floats is
-- a parameter; a mode is taken in lower case, and the limits of the mouse are those of an action.
pub mod Held
pub mod Mouse
pub mod Examples
use minecraft_ai.Prelude.{
  ℕ, ◌+◌, ◌*◌, ◌%◌, ◌^◌, Bool, true, false, List, [], ◌∷◌, ◌++◌, Option, none, some, ◌&&◌, ◌||◌,
  not, leb, ltb, ◌==◌, if◌then◌else◌, Str, codes, contains, difference, sort_by,
}
use minecraft_ai.Prelude.Int.{ℤ, pos, negsuc, sub_ℕ, ◌+ℤ◌, ◌-ℤ◌, leb_ℤ, ltb_ℤ, max_ℤ, min_ℤ}
use minecraft_ai.Outcome.{Raised, Outcome, returned, raised, other_exception, Exec}
use minecraft_ai.Safety.Lease.{MotorAction}

-- what the policy does with floats
pub record MouseFloats : Type 1 where
  pub Float : Type 0
  -- `abs(error) <= self.mouse_deadzone`
  pub in_deadzone : Float → Bool
  -- `int(round(error * self.mouse_gain))`, or none where the product is infinite or not a number
  pub scaled : Float → Option ℤ
  -- `int(round(previous + self.mouse_smoothing * (target - previous)))`
  pub blended : (previous target : ℤ) → ℤ

-- `sorted(items)`
unfoldable pub sorted : List Str → List Str
unfolding sort_by
sorted = sort_by (λ s. s)

-- `items.add(x)`
unfoldable pub add_key : Str → List Str → List Str
unfolding contains
add_key x xs = if contains xs x then xs else x ∷ xs

unfoldable pub starts_with : Str → Str → Bool
starts_with [] s = true
starts_with (c ∷ prefix) [] = false
starts_with (c ∷ prefix) (d ∷ s) = c == d && starts_with prefix s

-- `max(-limit, min(limit, value))`
unfoldable pub bounded : ℤ → ℕ → ℤ
bounded value limit = max_ℤ (sub_ℕ 0 limit) (min_ℤ (pos limit) value)

-- 0.65 in units of 2 ^ -1074
unfoldable pub reliable_confidence : ℕ
reliable_confidence = 5854679515581645 * 2 ^ 1021

pub record MotorIntent : Type 0 where
  pub mode : Str
  -- the truth of three of the parameters
  pub sprint : Bool
  pub sneak : Bool
  pub jump : Bool

module _ (fl : MouseFloats) where
  -- a fact with its value's truth, and its number if it has one
  pub record Observation : Type 0 where
    pub truth : Bool
    pub number : Option fl.Float
    pub source : Str
    pub confidence : ℕ

  -- `blackboard.fact(key, min_confidence=…)` during one call
  abbrev pub Board : Type 0
  Board = Str → ℕ → Option Observation

  pub record BootstrapMotorPolicy : Type 0 where
    pub max_mouse_step : ℕ
    pub max_mouse_acceleration : ℕ
    pub held_keys : List Str
    pub held_buttons : List Str
    pub last_sequence : ℤ
    pub tick_count : ℕ
    pub last_mouse_dx : ℤ
    pub last_mouse_dy : ℤ

  unfoldable pub number_of : Board → Str → Option fl.Float
  unfolding reliable_confidence
  number_of board key = elim (board key reliable_confidence) [
    | none ↦ none
    | some fact ↦ fact.number
  ]

  abbrev pub from_bootstrap : Observation → Bool
  from_bootstrap fact = starts_with (codes "bootstrap:") fact.source

  unfoldable pub reliable_truth : Board → Str → Bool
  unfolding reliable_confidence starts_with
  reliable_truth board key = elim (board key reliable_confidence) [
    | none ↦ false
    | some fact ↦ not (from_bootstrap fact) && fact.truth
  ]

  -- the step that the error asks for, or none where the rounding raises
  unfoldable pub aim_step : BootstrapMotorPolicy → fl.Float → Option ℤ
  unfolding bounded
  aim_step p error =
      if fl.in_deadzone error
      then some (pos 0)
      else elim (fl.scaled error) [ none ↦ none | some v ↦ some (bounded v p.max_mouse_step) ]

  unfoldable pub smoothed : BootstrapMotorPolicy → ℤ → ℤ → ℤ
  unfolding bounded
  smoothed p previous target =
      let delta = bounded (fl.blended previous target -ℤ previous) p.max_mouse_acceleration in
      bounded (previous +ℤ delta) p.max_mouse_step

  unfoldable pub smooth_mouse : BootstrapMotorPolicy → fl.Float → ℤ → Option ℤ
  unfolding aim_step smoothed
  smooth_mouse p error previous = elim (aim_step p error) [
    | none ↦ none
    | some target ↦ some (smoothed p previous target)
  ]

  -- the mouse step along one axis; without a position it is 0
  unfoldable pub mouse_step : BootstrapMotorPolicy → Option fl.Float → ℤ → Option ℤ
  unfolding smooth_mouse
  mouse_step p none previous = some (pos 0)
  mouse_step p (some error) previous = smooth_mouse p error previous

  abbrev pub is_mode : List Str → MotorIntent → Bool
  is_mode modes intent = contains modes intent.mode

  -- the fact says that the scene cannot be played
  abbrev pub unplayable : Option Observation → Bool
  unplayable none = false
  unplayable (some fact) = not fact.truth

  abbrev pub obstacle_detected : Option Observation → Bool
  obstacle_detected none = false
  obstacle_detected (some fact) =
      leb reliable_confidence fact.confidence && (not (from_bootstrap fact) && fact.truth)

  abbrev pub is_true : Option Observation → Bool
  is_true none = false
  is_true (some fact) = fact.truth

  -- movement, swimming and climbing
  unfoldable pub movement_keys : Board → MotorIntent → List Str
  unfolding reliable_truth add_key contains reliable_confidence starts_with
  movement_keys board intent =
      let forward = add_key (codes "w") [] in
      let back = add_key (codes "s") [] in
      if unplayable (board (codes "scene.playable") reliable_confidence)
      then []
      else if reliable_truth board (codes "environment.underwater")
      then add_key (codes "w") (add_key (codes "space") [])
      else if is_mode
          (codes "approach"
            ∷ codes "navigate"
            ∷ codes "explore"
            ∷ codes "mine"
            ∷ codes "attack"
            ∷ codes "use"
            ∷ [])
          intent
      then if obstacle_detected (board (codes "obstacle.ahead") 0)
        then add_key (codes "space") forward
        else forward
      else if is_mode (codes "retreat" ∷ codes "backoff" ∷ []) intent
      then if is_true (board (codes "danger.immediate") 0)
        then add_key (codes "space") back
        else back
      else []

  -- `keys.add(x)` if the test holds
  abbrev pub add_if : Bool → Str → List Str → List Str
  add_if test x xs = if test then add_key x xs else xs

  unfoldable pub parameter_keys : MotorIntent → List Str → List Str
  unfolding add_key
  parameter_keys intent keys =
      add_if intent.jump (codes "space")
        (add_if intent.sneak (codes "shift") (add_if intent.sprint (codes "ctrl") keys))

  abbrev pub attacks : Bool → MotorIntent → Bool
  attacks visible intent = is_mode (codes "attack" ∷ []) intent && visible

  abbrev pub mines : Bool → MotorIntent → Bool
  mines visible intent = is_mode (codes "mine" ∷ []) intent && visible

  -- every third tick of an attack steps aside
  unfoldable pub strafe_keys : Bool → MotorIntent → ℕ → List Str → List Str
  unfolding add_key contains
  strafe_keys visible intent tick keys =
      if not (mines visible intent) && (attacks visible intent && tick % 3 == 0)
      then add_key (if ltb (tick % 6) 3 then codes "a" else codes "d") keys
      else keys

  unfoldable pub desired_buttons : Bool → MotorIntent → ℕ → List Str
  unfolding contains
  desired_buttons visible intent tick =
      if mines visible intent
      then codes "left" ∷ []
      else if attacks visible intent
      then if tick % 3 == 0 then [] else codes "left" ∷ []
      else if is_mode (codes "use" ∷ codes "place" ∷ codes "eat" ∷ []) intent
      then codes "right" ∷ []
      else []

  -- the action that turns what is held into what is wanted
  unfoldable pub difference_action :
      BootstrapMotorPolicy → ℕ → (keys buttons : List Str) → (dx dy : ℤ) → MotorAction
  unfolding sorted
  difference_action p seq keys buttons dx dy = record {
    sequence = seq;
    keys_down = sorted (difference keys p.held_keys);
    keys_up = sorted (difference p.held_keys keys);
    buttons_down = sorted (difference buttons p.held_buttons);
    buttons_up = sorted (difference p.held_buttons buttons);
    mouse_dx = dx;
    mouse_dy = dy;
    cursor_x = none;
    cursor_y = none;
    camera_semantics = "world";
    duration_ms = 50;
  }

  abbrev pub value_error : Raised
  value_error = record { fault = other_exception "ValueError"; notes = [] }

  -- `act` past the mouse
  unfoldable pub press_keys :
      Board → MotorIntent → ℕ → (dx dy : ℤ) → Exec BootstrapMotorPolicy MotorAction
  unfolding reliable_truth movement_keys parameter_keys strafe_keys desired_buttons
      difference_action
  press_keys board intent seq dx dy p =
      let visible = reliable_truth board (codes "target.visible") in
      let keys =
        strafe_keys visible intent p.tick_count
          (parameter_keys intent (movement_keys board intent)) in
      let buttons = desired_buttons visible intent p.tick_count in
      (
        returned (difference_action p seq keys buttons dx dy),
        record p {
          held_keys = keys;
          held_buttons = buttons;
          last_mouse_dx = dx;
          last_mouse_dy = dy;
        },
      )

  -- the keys once the mouse is known; its rounding raises before anything is pressed
  abbrev pub press_at :
      Board → MotorIntent → ℕ → Option ℤ → Option ℤ → Exec BootstrapMotorPolicy MotorAction
  press_at board intent seq none dy p = (raised value_error, p)
  press_at board intent seq (some x) none p = (raised value_error, p)
  press_at board intent seq (some x) (some y) p = press_keys board intent seq x y p

  -- a coordinate of the target, if the target is visible
  unfoldable pub target_number : Board → Str → Option fl.Float
  unfolding number_of reliable_truth
  target_number board key =
      if reliable_truth board (codes "target.visible") then number_of board key else none

  unfoldable pub move : Board → MotorIntent → ℕ → Exec BootstrapMotorPolicy MotorAction
  unfolding target_number mouse_step press_keys
  move board intent seq p =
      press_at board intent seq
        (mouse_step p (target_number board (codes "target.dx")) p.last_mouse_dx)
        (mouse_step p (target_number board (codes "target.dy")) p.last_mouse_dy) p

  unfoldable pub act : Board → MotorIntent → ℕ → Exec BootstrapMotorPolicy MotorAction
  unfolding move
  act board intent seq p =
      let p' = record p { last_sequence = pos seq; tick_count = p.tick_count + 1 } in
      let moved = move board intent seq p' in
      if leb_ℤ (pos seq) p.last_sequence then (raised value_error, p) else moved

  unfoldable pub notify_inputs_released : BootstrapMotorPolicy → BootstrapMotorPolicy
  notify_inputs_released p = record p {
    held_keys = [];
    held_buttons = [];
    last_mouse_dx = pos 0;
    last_mouse_dy = pos 0;
  }

  -- the sequence after the last one, which is at least -1
  abbrev pub next_sequence : ℤ → ℕ
  next_sequence (pos n) = n + 1
  next_sequence (negsuc _) = 0

  unfoldable pub reset : BootstrapMotorPolicy → MotorAction × BootstrapMotorPolicy
  unfolding sorted notify_inputs_released
  reset p =
      let seq = next_sequence p.last_sequence in
      let action : MotorAction = record {
        sequence = seq;
        keys_down = [];
        keys_up = sorted p.held_keys;
        buttons_down = [];
        buttons_up = sorted p.held_buttons;
        mouse_dx = pos 0;
        mouse_dy = pos 0;
        cursor_x = none;
        cursor_y = none;
        camera_semantics = "world";
        duration_ms = 0;
      } in
      (action, record (notify_inputs_released p) { last_sequence = pos seq })
