-- ===== src/Safety/Examples.antt =====
-- The gate over the fake backend at concrete inputs.
use minecraft_ai.Prelude.{
  if◌then◌else◌, leb, ◌*◌, ◌+◌, ◌⊎◌, ◌≤◌, List, [], ◌∷◌, ◌++◌, ◌≡◌, refl, none, some, arith, codes,
  true, false,
}
use minecraft_ai.Prelude.Int.{pos, ◌-ℤ◌}
use minecraft_ai.Outcome.{Raised, returned, raised, other_exception}
use minecraft_ai.Safety.State.{stopped, starting, safe_idle, armed, running, validate_transition}
use minecraft_ai.Safety.State.Paths.{Chain, here, next, Entered, running_needs_arming}
use minecraft_ai.Safety.Lease.{integer, MotorAction, MotorLease, action_kinds, is_subset, mem}
use minecraft_ai.Safety.Backend.{
  InputBackend, Fake, new_fake, fake_backend, fake_bind_lease, fake_apply, fake_release_all,
  fake_clear_lease,
}
use minecraft_ai.Safety.Revocation.{MotorGate, new_gate}
use minecraft_ai.Safety.Gate.{issue, renew, apply, check_expiry, optional_ttl}
use minecraft_ai.Safety.Gate.Admission.{Permits, cleared}
use minecraft_ai.Safety.Gate.Effects.{Refused, apply-Permits, apply-refuses}
use minecraft_ai.Safety.Gate.Failure.{call-FailsSafe, check_expiry_lem}
use minecraft_ai.Safety.Gate.Run.{error, Call, issuing, applying, call, run}
use minecraft_ai.Safety.Gate.Neutral.{IsNeutral, run-IsNeutral}
use minecraft_ai.Safety.Gate.Order.{Ascending, run-Ascending}
use minecraft_ai.Safety.Gate.Ceiling.{run-expires-le}

abbrev press_w : MotorAction
press_w = record {
  sequence = 0;
  keys_down = codes "w" ∷ [];
  keys_up = [];
  buttons_down = [];
  buttons_up = [];
  mouse_dx = pos 0;
  mouse_dy = pos 0;
  cursor_x = none;
  cursor_y = none;
  camera_semantics = "world";
  duration_ms = 50;
}

abbrev release_w : MotorAction
release_w = record press_w { sequence = 1; keys_down = []; keys_up = codes "w" ∷ [] }

abbrev opening : Call
opening =
    issuing "lease-1" "session" "window" (integer (pos 750)) ("keyboard" ∷ []) (integer (pos 250))
      (integer (pos 0)) 1000

abbrev play : List Call
play =
    applying "lease-1" press_w (some (integer (pos 5000))) 2000 2001
    ∷ applying "lease-1" release_w none 3000 3001
    ∷ applying "lease-1" press_w none 4000 4001
    ∷ []

abbrev leased : MotorGate Fake
leased = run fake_backend (opening ∷ []) (new_gate new_fake)

-- the replayed action is refused, and the refusal ends the lease
play_ends : (run fake_backend play leased).revocation_reason ≡ "replay-or-out-of-order-action"
unfolding run call issue renew apply check_expiry fake_bind_lease fake_apply fake_release_all
    fake_clear_lease action_kinds is_subset mem ◌-ℤ◌
play_ends = refl

accepted : (apply fake_backend "lease-1" press_w none 2000 2001 leased).0 ≡ returned tt
unfolding run call issue renew apply check_expiry fake_bind_lease fake_apply fake_release_all
    fake_clear_lease action_kinds is_subset mem ◌-ℤ◌
accepted = refl

leased_lease :
    leased.lease
    ≡ some (record {
      lease_id = "lease-1";
      session_id = "session";
      target_instance = "window";
      backend_id = "fake";
      expires_monotonic_ns = 750001000;
      allowed_actions = "keyboard" ∷ [];
      max_action_duration_ms = 250;
      first_sequence = 0;
    })
unfolding run call issue renew apply check_expiry fake_bind_lease fake_apply fake_release_all
    fake_clear_lease action_kinds is_subset mem ◌-ℤ◌
leased_lease = refl

apply-Permits_example :
    (l : MotorLease) × Permits leased "lease-1" press_w 2000 l
    × ((fake_backend.apply press_w leased.backend).0 ≡ returned tt)
    × ((apply fake_backend "lease-1" press_w none 2000 2001 leased).1.last_sequence ≡ pos 0)
apply-Permits_example = apply-Permits fake_backend "lease-1" press_w none 2000 2001 leased accepted

-- an action that comes after the lease has expired
late : (l : MotorLease) → ¬ Permits leased "lease-1" press_w 750001000 l
late l p = let alive = p.alive in let e = p.current in ground (arith, leased_lease)

apply-refuses_example :
    Refused fake_backend leased
      (apply fake_backend "lease-1" press_w none 750001000 750001001 leased).1
    × ((e : Raised) × ((apply fake_backend "lease-1" press_w none 750001000 750001001 leased).0
          ≡ raised e))
unfolding optional_ttl
apply-refuses_example =
    apply-refuses fake_backend "lease-1" press_w none none 750001000 750001001 leased refl late

-- a backend that fails in the middle of an action, and again in the cleanup
abbrev broken : InputBackend Fake
broken = record fake_backend {
  apply = λ a f. (raised (record { fault = other_exception "XError"; notes = [] }), f);
  release_all = λ f. (raised (record { fault = other_exception "OSError"; notes = [] }), f);
}

broken_reports :
    (apply broken "lease-1" press_w none 2000 2001 leased).0
    ≡ raised (record {
      fault = other_exception "XError";
      notes = ("motor cleanup also failed", "OSError") ∷ [];
    })
unfolding run call issue renew apply check_expiry fake_bind_lease fake_apply fake_release_all
    fake_clear_lease action_kinds is_subset mem ◌-ℤ◌
broken_reports = refl

call-FailsSafe_example :
    (call broken (applying "lease-1" press_w none 2000 2001) leased ≡ leased)
    ⊎ ((call broken (applying "lease-1" press_w none 2000 2001) leased).lease ≡ none)
unfolding run call error issue renew apply check_expiry fake_bind_lease fake_apply fake_release_all
    fake_clear_lease action_kinds is_subset mem ◌-ℤ◌
call-FailsSafe_example =
    call-FailsSafe broken (applying "lease-1" press_w none 2000 2001) leased
      (record {
        fault = other_exception "XError";
        notes = ("motor cleanup also failed", "OSError") ∷ [];
      })
      refl refl

abbrev renewed : MotorLease
renewed = record {
  lease_id = "lease-1";
  session_id = "session";
  target_instance = "window";
  backend_id = "fake";
  expires_monotonic_ns = 3000003000;
  allowed_actions = "keyboard" ∷ [];
  max_action_duration_ms = 250;
  first_sequence = 0;
}

renews : (renew fake_backend "lease-1" (integer (pos 3000)) 2000 3000 leased).0 ≡ returned renewed
unfolding run call issue renew apply check_expiry fake_bind_lease fake_apply fake_release_all
    fake_clear_lease action_kinds is_subset mem ◌-ℤ◌
renews = refl

abbrev first_lease : MotorLease
first_lease = record renewed { expires_monotonic_ns = 750001000 }

check_expiry_example : check_expiry fake_backend 900 leased ≡ (
    if leb 750001000 900
    then (
      returned true,
      record leased {
        backend = cleared fake_backend leased.backend;
        lease = none;
        revocation_reason = "watchdog-expired";
      },
    )
    else (returned false, leased))
unfolding fake_release_all fake_clear_lease
check_expiry_example = check_expiry_lem fake_backend 900 leased first_lease leased_lease refl refl

run-IsNeutral_example : IsNeutral (run fake_backend (opening ∷ play) (new_gate new_fake))
run-IsNeutral_example = run-IsNeutral (opening ∷ play)

run-Ascending_example :
    (new : List MotorAction) × ((run fake_backend play leased).backend.actions
      ≡ leased.backend.actions ++ new)
    × Ascending leased.last_sequence new
run-Ascending_example = run-Ascending play leased (omega arith)

abbrev refreshed : MotorLease
refreshed = record first_lease { expires_monotonic_ns = 5000002001 }

refreshed_lease_lem :
    (run fake_backend
      (applying "lease-1" press_w (some (integer (pos 5000))) 2000 2001 ∷ [])
      leased).lease
    ≡ some refreshed
unfolding run call issue renew apply check_expiry fake_bind_lease fake_apply fake_release_all
    fake_clear_lease action_kinds is_subset mem ◌-ℤ◌
refreshed_lease_lem = refl

run-expires-le_example : 5000002001 ≤ 2001 + 5000 * 1000000
run-expires-le_example =
    run-expires-le fake_backend 2001
      (applying "lease-1" press_w (some (integer (pos 5000))) 2000 2001 ∷ []) leased refreshed
      (omega arith) (λ l e. ground (arith, leased_lease)) refreshed_lease_lem

start_up : Chain stopped (running ∷ armed ∷ safe_idle ∷ starting ∷ []) running
unfolding validate_transition
start_up = next running (next armed (next safe_idle (next starting here refl) refl) refl) refl

running_needs_arming_example :
    Entered armed (running ∷ armed ∷ safe_idle ∷ starting ∷ [])
    × Entered safe_idle (running ∷ armed ∷ safe_idle ∷ starting ∷ [])
running_needs_arming_example = running_needs_arming start_up
