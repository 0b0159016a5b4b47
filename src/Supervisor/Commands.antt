-- ===== src/Supervisor/Commands.antt =====
-- The commands of supervisor.py that use the motor gate, and one round of its watchdog loop.
use minecraft_ai.Prelude.{
  ℕ, ◌+◌, String, Bool, true, false, Option, none, some, ◌&&◌, ◌||◌, not, str_eq, if◌then◌else◌, [],
  ◌∷◌,
}
use minecraft_ai.Prelude.Int.{pos, ◌+ℤ◌}
use minecraft_ai.Outcome.{
  input_route_unavailable, is_exception, Raised, Outcome, returned, raised, Exec, raise, pure, ◌>>◌,
}
use minecraft_ai.Safety.State.{safe_idle, armed, running, paused, same_state, validate_transition}
use minecraft_ai.Safety.Lease.{
  Argument, integer, MotorAction, MotorLease, is_nonzero, expired, max_motor_lease_ttl_ms,
}
use minecraft_ai.Safety.Backend.{InputBackend}
use minecraft_ai.Safety.Revocation.{MotorGate, revoke_locked, after_failure}
use minecraft_ai.Safety.Gate
use minecraft_ai.Supervisor.{Supervisor, Readings, runtime_error, fail, disarm, stop}

module _ {S : Type 0} (b : InputBackend S) where
  -- a call of the gate from within the supervisor
  abbrev pub on_motor : {A : Type 0} → Exec (MotorGate S) A → Exec (Supervisor S) A
  on_motor m s = let (r, g) = m s.motor in (r, record s { motor = g })

  -- what the three latch checks have in common: an interlock stops the command, and raises
  unfoldable pub interlocked :
      {A : Type 0} → Readings → Exec (Supervisor S) A → Exec (Supervisor S) A
  unfolding fail disarm
  interlocked rd body s =
      let failed = (do fail b "emergency-stop-latched" (rd.persisted 0); raise runtime_error) s in
      let disarmed =
        (do disarm b "operator-pause" rd.pause_again (rd.persisted 0); raise runtime_error) s in
      let ran = body s in if rd.emergency then failed else if rd.pause then disarmed else ran

  -- the lease of a runtime that acts, or none
  unfoldable pub runtime_lease : String → ℕ → Supervisor S → Option MotorLease
  unfolding expired
  runtime_lease lease_id now s = elim s.motor.lease [
    | none ↦ none
    | some l ↦ if str_eq l.lease_id lease_id && not (expired l now) then some l else none
  ]

  -- `self.motor.revoke(reason)` and `self.fail(reason)`
  unfoldable pub revoke_and_fail : String → Outcome (Unit {0}) → Exec (Supervisor S) (Unit {0})
  unfolding revoke_locked fail
  revoke_and_fail reason persisted = do on_motor (revoke_locked b reason); fail b reason persisted

  unfoldable pub require_running_lease : String → Readings → Exec (Supervisor S) (Unit {0})
  unfolding interlocked runtime_lease revoke_and_fail same_state
  require_running_lease lease_id rd = interlocked rd λ s.
      let invalid =
        (do revoke_and_fail "invalid-runtime-lease" (rd.persisted 0); raise runtime_error) s in
      if not (same_state s.state running)
      then (raised runtime_error, s)
      else elim (runtime_lease lease_id rd.now s) [ none ↦ invalid | some _ ↦ (returned tt, s) ]

  -- `fail` in a handler: the error is kept, with a note if the cleanup failed as well
  unfoldable pub fail_and_raise :
      {A : Type 0} → String → Outcome (Unit {0}) → Raised → Exec (Supervisor S) A
  unfolding fail after_failure
  fail_and_raise reason persisted e s =
      let (r, s') = fail b reason persisted s in (raised (after_failure b e r), s')

  -- The camera estimate after an accepted action.
  unfoldable pub track_camera : MotorAction → Supervisor S → Supervisor S
  track_camera a s =
      if str_eq a.camera_semantics "world" && (is_nonzero a.mouse_dx || is_nonzero a.mouse_dy)
      then record s {
        world_camera_pitch_units = s.world_camera_pitch_units +ℤ a.mouse_dy;
        world_camera_updates = s.world_camera_updates + 1;
      }
      else s

  -- how an outcome of the gate's `apply` goes on: only a lost input route faults the supervisor
  unfoldable pub after_apply : MotorAction → Readings → Outcome (Unit {0}) → Exec (Supervisor S) ℕ
  unfolding fail_and_raise track_camera
  after_apply a rd (returned _) s = (returned a.sequence, track_camera a s)
  after_apply a rd (raised e) s = elim e.fault [
    | input_route_unavailable text ↦
        fail_and_raise "motor-action:InputRouteUnavailable" (rd.persisted 0) e
          (record s { fault_code = some "input-route-unverified" })
    | _ ↦ (raised e, s)
  ]

  -- past the lease check; `parsed` is how the validation of the raw action by pydantic ended
  unfoldable pub act : String → Outcome MotorAction → Readings → Exec (Supervisor S) ℕ
  unfolding fail_and_raise after_apply Gate.apply
  act lease_id (raised e) rd s =
      let failed = fail_and_raise "invalid-motor-action" (rd.persisted 0) e s in
      if is_exception e.fault then failed else (raised e, s)
  act lease_id (returned a) rd s =
      let (r, g) =
        Gate.apply b lease_id a (some (integer (pos max_motor_lease_ttl_ms))) rd.now' rd.now''
          s.motor in
      after_apply a rd r (record s { motor = g })

  unfoldable pub apply_motor_action :
      String → Outcome MotorAction → Readings → Exec (Supervisor S) ℕ
  unfolding require_running_lease act
  apply_motor_action lease_id parsed rd = do
    require_running_lease lease_id rd
    act lease_id parsed rd

  unfoldable pub release_inputs : String → Readings → Exec (Supervisor S) (Unit {0})
  unfolding require_running_lease Gate.release_inputs
  release_inputs lease_id rd = do
    require_running_lease lease_id rd
    on_motor (
        Gate.release_inputs b lease_id (some (integer (pos max_motor_lease_ttl_ms))) rd.now'
          rd.now'')
    λ s. (rd.persisted 0, s)

  -- the state and the status file after the gate issued a lease
  abbrev publish_armed : Outcome (Unit {0}) → Outcome MotorLease → Exec (Supervisor S) MotorLease
  publish_armed persisted (raised e) s = (raised e, s)
  publish_armed persisted (returned l) s = elim persisted [
    | raised e ↦ (raised e, record s { state = armed })
    | returned _ ↦ (returned l, record s { state = armed })
  ]

  unfoldable pub arm : String → Readings → Exec (Supervisor S) MotorLease
  unfolding revoke_locked same_state validate_transition Gate.issue
  arm target rd s =
      let paused_off = (do on_motor (revoke_locked b "operator-pause"); raise runtime_error) s in
      let (r, g) =
        Gate.issue b rd.new_id rd.session target (integer (pos 3000))
          ("keyboard" ∷ "button" ∷ "mouse" ∷ []) (integer (pos 250)) (integer (pos 0)) rd.now
          s.motor in
      if rd.emergency
      then (raised runtime_error, s)
      else if rd.pause
      then paused_off
      else if not (same_state s.state safe_idle)
      then (raised runtime_error, s)
      else elim (validate_transition s.state armed) [
        | raised e ↦ (raised e, s)
        | returned _ ↦ publish_armed (rd.persisted 0) r (record s { motor = g })
      ]

  unfoldable pub renew : String → Argument → Readings → Exec (Supervisor S) MotorLease
  unfolding interlocked same_state Gate.renew
  renew lease_id ttl rd = interlocked rd λ s.
      let renewed = on_motor (Gate.renew b lease_id ttl rd.now rd.now') s in
      if same_state s.state armed || same_state s.state running
      then renewed
      else (raised runtime_error, s)

  abbrev make_running : Outcome (Unit {0}) → Exec (Supervisor S) (Unit {0})
  make_running persisted s = elim (validate_transition s.state running) [
    | raised e ↦ (raised e, s)
    | returned _ ↦ (persisted, record s { state = running })
  ]

  unfoldable pub activate : Readings → Exec (Supervisor S) (Unit {0})
  unfolding interlocked same_state expired revoke_and_fail validate_transition
  activate rd = interlocked rd λ s.
      let dead = revoke_and_fail "activate-without-live-lease" (rd.persisted 0) s in
      let live = make_running (rd.persisted 0) s in
      if not (same_state s.state armed)
      then (raised runtime_error, s)
      else elim s.motor.lease [ none ↦ dead | some l ↦ if expired l rd.now then dead else live ]

  -- the watchdog of a round, past the latches: an expired lease faults the supervisor
  unfoldable pub expire : Readings → Exec (Supervisor S) (Unit {0})
  unfolding Gate.check_expiry fail
  expire rd s =
      let (r, g) = Gate.check_expiry b rd.now s.motor in
      let s' : Supervisor S = record s { motor = g } in
      let failed = fail b "motor-lease-watchdog-expired" (rd.persisted 1) s' in
      elim r [
        | raised e ↦ (raised e, s')
        | returned true ↦ failed
        | returned false ↦ (returned tt, s')
      ]

  abbrev pub has_lease : Supervisor S → Bool
  has_lease s = elim s.motor.lease [ none ↦ false | some _ ↦ true ]

  -- One round of the loop of `_serve_forever_owned`, before it accepts a connection. The result
  -- says whether the loop goes on.
  unfoldable pub watch : Readings → Exec (Supervisor S) Bool
  unfolding fail stop disarm same_state expire
  watch rd s =
      let stopping_now =
        (do fail b rd.reason (rd.persisted 0); stop b (rd.persisted 1); pure false) s in
      let disarmed =
        (do disarm b "operator-pause" rd.pause_again (rd.persisted 0); expire rd; pure true) s in
      let undisturbed = (do expire rd; pure true) s in
      if rd.emergency
      then stopping_now
      else if rd.pause && (not (same_state s.state paused) || has_lease s)
      then disarmed
      else undisturbed

  -- The request `resume-for-agent-reload` of `_handle_connection`: `session` is the session that it
  -- names, if that is a text, and `agent_file` whether the agent's file or link is there.
  unfoldable pub resume_for_agent_reload :
      Option String → Bool → Readings → Exec (Supervisor S) (Unit {0})
  unfolding same_state validate_transition
  resume_for_agent_reload session agent_file rd s =
      if not (elim session [ none ↦ false | some name ↦ str_eq name rd.session ])
      then (raised runtime_error, s)
      else if not (same_state s.state paused)
      then (raised runtime_error, s)
      else if has_lease s
      then (raised runtime_error, s)
      else if agent_file || (rd.emergency || rd.pause)
      then (raised runtime_error, s)
      else elim (validate_transition s.state safe_idle) [
        | raised e ↦ (raised e, s)
        | returned _ ↦ (rd.persisted 0, record s { state = safe_idle })
      ]
