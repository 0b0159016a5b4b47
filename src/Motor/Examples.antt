-- ===== src/Motor/Examples.antt =====
-- The motor policy on a small board; a float is a whole number here.
use minecraft_ai.Prelude.{
  ◌^◌, true, false, List, [], ◌∷◌, ◌≡◌, refl, Option, none, some, if◌then◌else◌, same, codes,
  contains, str_leb, difference, update, lookup, arith,
}
use minecraft_ai.Prelude.Int.{ℤ, pos, negsuc, ◌+ℤ◌, ◌-ℤ◌, leb_ℤ}
use minecraft_ai.Safety.Lease.{MotorAction}
use minecraft_ai.Safety.Backend.{new_fake, fake_press, fake_release_all}
use minecraft_ai.Motor.{
  MouseFloats, Observation, Board, MotorIntent, BootstrapMotorPolicy, act, reset,
  notify_inputs_released, reliable_confidence,
}
use minecraft_ai.Motor.Held.{Event, acting, after, Agrees, after-Agrees}
use minecraft_ai.Motor.Mouse.{Smooth, act-Smooth}

-- errors are in pixels; the blend goes three pixels towards the target
abbrev whole : MouseFloats
whole = record {
  Float = ℤ;
  in_deadzone = λ e. leb_ℤ e (pos 1);
  scaled = λ e. some e;
  blended = λ previous target. if leb_ℤ target previous then previous else previous +ℤ pos 3;
}

abbrev seen : Option ℤ → Observation whole
seen n = record { truth = true; number = n; source = codes "detector"; confidence = 2 ^ 1074 }

abbrev board : Board whole
board key confidence = lookup key (
    (codes "target.visible", seen none)
    ∷ (codes "target.dx", seen (some (pos 9)))
    ∷ (codes "obstacle.ahead", seen none)
    ∷ [])

abbrev attack : MotorIntent
attack = record { mode = codes "attack"; sprint = true; sneak = false; jump = false }

abbrev policy : BootstrapMotorPolicy whole
policy = record {
  max_mouse_step = 28;
  max_mouse_acceleration = 4;
  held_keys = [];
  held_buttons = [];
  last_sequence = negsuc 0;
  tick_count = 0;
  last_mouse_dx = pos 0;
  last_mouse_dy = pos 0;
}

abbrev attack_then_rest : List (Event whole)
attack_then_rest = acting board attack 0 ∷ acting board attack 0 ∷ acting board attack 1 ∷ []

-- an attack runs and jumps with the left button down; the repeated sequence is refused
held_in_attack :
    (after whole attack_then_rest (policy, new_fake)).1.held_keys
    ≡ codes "w" ∷ codes "space" ∷ codes "ctrl" ∷ []
unfolding act reset notify_inputs_released fake_press fake_release_all same contains str_leb ◌+ℤ◌
    ◌-ℤ◌ reliable_confidence lookup difference update
held_in_attack = refl

after-Agrees_example : Agrees whole (codes "w") (after whole attack_then_rest (policy, new_fake))
after-Agrees_example =
    after-Agrees whole (codes "w") attack_then_rest (policy, new_fake) (refl, refl)

abbrev first_action : MotorAction
first_action = record {
  sequence = 0;
  keys_down = codes "ctrl" ∷ codes "space" ∷ codes "w" ∷ [];
  keys_up = [];
  buttons_down = codes "left" ∷ [];
  buttons_up = [];
  mouse_dx = pos 3;
  mouse_dy = pos 0;
  cursor_x = none;
  cursor_y = none;
  camera_semantics = "world";
  duration_ms = 50;
}

act-Smooth_example :
    (first_action.sequence ≡ 0)
    × (leb_ℤ (pos 0) policy.last_sequence ≡ false)
    × Smooth whole policy policy.last_mouse_dx first_action.mouse_dx
    × Smooth whole policy policy.last_mouse_dy first_action.mouse_dy
    × ((act whole board attack 0 policy).1.last_mouse_dx ≡ first_action.mouse_dx)
    × ((act whole board attack 0 policy).1.last_mouse_dy ≡ first_action.mouse_dy)
unfolding act same contains str_leb ◌+ℤ◌ ◌-ℤ◌ reliable_confidence lookup difference
act-Smooth_example =
    act-Smooth whole board attack 0 policy first_action
      ((omega arith, omega arith), (omega arith, omega arith)) refl
