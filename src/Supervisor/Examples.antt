-- ===== src/Supervisor/Examples.antt =====
-- A supervisor over the fake backend, from its start to a faulted lease.
use minecraft_ai.Prelude.{ℕ, ◌+◌, true, false, ◌≡◌, refl, ◌⊎◌, inl, List, [], ◌∷◌, none, some}
use minecraft_ai.Prelude.Int.{pos, ◌-ℤ◌, ◌+ℤ◌}
use minecraft_ai.Outcome.{returned}
use minecraft_ai.Safety.State.{armed, stopped, running}
use minecraft_ai.Safety.Lease.{MotorAction, MotorLease, action_kinds, is_subset, mem}
use minecraft_ai.Safety.Backend.{
  Fake, new_fake, fake_backend, fake_bind_lease, fake_apply, fake_release_all, fake_clear_lease,
}
use minecraft_ai.Safety.Gate.Admission.{Permits}
use minecraft_ai.Supervisor.{Supervisor, Readings, start, stop}
use minecraft_ai.Supervisor.Commands.{apply_motor_action, arm, activate, watch}
use minecraft_ai.Supervisor.Effects.{stop_lem, watch_revokes, apply_motor_action-Permits}
use minecraft_ai.Supervisor.Trace.{
  Command, starting_up, arming, activating, command, serve, new_supervisor, serve-IsGuarded,
}

abbrev at : ℕ → Readings
at t = record {
  emergency = false;
  pause = false;
  pause_again = false;
  reason = "emergency-stop";
  now = t;
  now' = t + 1;
  now'' = t + 2;
  new_id = "lease-1";
  session = "session";
  persisted = λ n. returned tt;
}

abbrev look : MotorAction
look = record {
  sequence = 0;
  keys_down = [];
  keys_up = [];
  buttons_down = [];
  buttons_up = [];
  mouse_dx = pos 3;
  mouse_dy = pos 4;
  cursor_x = none;
  cursor_y = none;
  camera_semantics = "world";
  duration_ms = 50;
}

abbrev start_up : List (Command × Readings)
start_up = (starting_up, at 10) ∷ (arming "window", at 20) ∷ (activating, at 30) ∷ []

abbrev live : Supervisor Fake
live = serve fake_backend start_up (new_supervisor new_fake)

live_runs : live.state ≡ running
unfolding serve command start arm activate fake_bind_lease fake_release_all fake_clear_lease ◌-ℤ◌
live_runs = refl

looks : (apply_motor_action fake_backend "lease-1" (returned look) (at 40) live).0 ≡ returned 0
unfolding serve command start arm activate apply_motor_action fake_bind_lease fake_apply
    fake_release_all fake_clear_lease action_kinds is_subset mem ◌-ℤ◌ ◌+ℤ◌
looks = refl

apply_motor_action-Permits_example :
    (live.state ≡ running)
    × (false ≡ false)
    × ((at 40).pause ≡ false)
    × ((a : MotorAction) × (l : MotorLease) × (returned look ≡ returned a)
        × (0 ≡ a.sequence)
        × Permits live.motor "lease-1" a 41 l
        × ((fake_apply a live.motor.backend).0 ≡ returned tt))
apply_motor_action-Permits_example =
    apply_motor_action-Permits fake_backend "lease-1" (returned look) (at 40) live 0 looks

lease_is_live :
    live.motor.lease
    ≡ some (record {
      lease_id = "lease-1";
      session_id = "session";
      target_instance = "window";
      backend_id = "fake";
      expires_monotonic_ns = 3000000020;
      allowed_actions = "keyboard" ∷ "button" ∷ "mouse" ∷ [];
      max_action_duration_ms = 250;
      first_sequence = 0;
    })
unfolding serve command start arm activate fake_bind_lease fake_release_all fake_clear_lease ◌-ℤ◌
lease_is_live = refl

serve-IsGuarded_example : (live.state ≡ armed) ⊎ (live.state ≡ running)
serve-IsGuarded_example = serve-IsGuarded fake_backend start_up new_fake _ lease_is_live

stop_lem_example :
    ((stop fake_backend (returned tt) live).1.state ≡ stopped)
    × ((stop fake_backend (returned tt) live).1.motor.lease ≡ none)
    × ((stop fake_backend (returned tt) live).1.stop_requested ≡ true)
stop_lem_example = stop_lem fake_backend (returned tt) live

abbrev pulled : Readings
pulled = record (at 50) { emergency = true }

watch_revokes_example : (watch fake_backend pulled live).1.motor.lease ≡ none
watch_revokes_example =
    watch_revokes fake_backend pulled live (serve-IsGuarded fake_backend start_up new_fake)
      (inl (inl refl))
