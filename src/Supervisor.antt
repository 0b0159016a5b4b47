-- ===== src/Supervisor.antt =====
-- The lifecycle of supervisor.py: the methods of Supervisor that change its state, over the motor
-- gate and any backend. The supervisor's lock makes each method one step. What a method reads from
-- outside is in its `Readings`: the two latch files, each time that it looks, the clock, and how
-- each write of the status file ended.
pub mod Commands
mod Examples
pub mod Trace
pub mod Effects
pub mod Leases
use minecraft_ai.Prelude.{
  ℕ, zero, suc, ◌+◌, String, Bool, true, false, Option, none, some, ◌&&◌, ◌||◌, not, str_eq,
  if◌then◌else◌, List, [], ◌∷◌,
}
use minecraft_ai.Prelude.Int.{ℤ, pos, ◌+ℤ◌}
use minecraft_ai.Outcome.{
  Fault, motor_rejected, input_route_unavailable, other_exception, interrupt, is_exception,
  class_name, Raised, add_note, Outcome, returned, raised, Exec, ◌>>=◌, ◌>>◌,
}
use minecraft_ai.Safety.State.{
  SupervisorState, stopped, starting, safe_idle, armed, running, paused, stopping, failsafe,
  same_state, allowed_targets, is_target, validate_transition,
}
use minecraft_ai.Safety.Lease.{
  Argument, integer, MotorAction, MotorLease, is_nonzero, expired, max_motor_lease_ttl_ms,
}
use minecraft_ai.Safety.Backend.{InputBackend}
use minecraft_ai.Safety.Revocation.{MotorGate, new_gate, revoke_locked}
use minecraft_ai.Safety.Gate

pub record Supervisor (S : Type 0) : Type 0 where
  pub state : SupervisorState
  pub motor : MotorGate S
  pub last_fault : Option String
  pub fault_code : Option String
  pub world_camera_pitch_units : ℤ
  pub world_camera_updates : ℕ
  pub stop_requested : Bool

pub record Readings : Type 0 where
  -- `emergency_stop_latched()` and `operator_pause_latched()`
  pub emergency : Bool
  pub pause : Bool
  -- the second look at the pause latch, within `disarm`
  pub pause_again : Bool
  -- `emergency_reason()`, or the text that stands in for it
  pub reason : String
  -- three readings of `time.monotonic_ns`, and the identity of a new lease
  pub now : ℕ
  pub now' : ℕ
  pub now'' : ℕ
  pub new_id : String
  pub session : String
  -- how the n-th write of the status file ended
  pub persisted : ℕ → Outcome (Unit {0})

-- A RuntimeError; its text is left out.
abbrev pub runtime_error : Raised
runtime_error = record { fault = other_exception "RuntimeError"; notes = [] }

-- `try: …` / `finally: self._persist_status()`: a failed write replaces the outcome
abbrev pub finally_persist : Outcome (Unit {0}) → Outcome (Unit {0}) → Outcome (Unit {0})
finally_persist r (raised p) = raised p
finally_persist r (returned _) = r

-- The new state of `stop`, and whether its transitions were accepted.
unfoldable pub stop_state : SupervisorState → Outcome (Unit {0}) × SupervisorState
unfolding same_state validate_transition
stop_state current =
    if same_state current failsafe
    then (returned tt, stopped)
    else if same_state current stopped
    then (returned tt, stopped)
    else if same_state current stopping
    then elim (validate_transition stopping stopped) [
      | raised e ↦ (raised e, stopping)
      | returned _ ↦ (returned tt, stopped)
    ]
    else elim (validate_transition current stopping) [
      | raised e ↦ (raised e, current)
      | returned _ ↦ elim (validate_transition stopping stopped) [
        | raised e ↦ (raised e, stopping)
        | returned _ ↦ (returned tt, stopped)
      ]
    ]

-- The new state of `disarm`, and whether its transition was accepted.
unfoldable pub disarm_state : SupervisorState → Outcome (Unit {0}) × SupervisorState
unfolding same_state validate_transition
disarm_state current =
    if same_state current armed || same_state current running
    then elim (validate_transition current paused) [
      | raised e ↦ (raised e, current)
      | returned _ ↦ (returned tt, paused)
    ]
    else (returned tt, current)

module _ {S : Type 0} (b : InputBackend S) where
  -- `self.motor.revoke(reason)` and `finally: self._persist_status()`
  unfoldable pub revoke_and_persist : String → Outcome (Unit {0}) → Exec (Supervisor S) (Unit {0})
  unfolding revoke_locked
  revoke_and_persist reason persisted s =
      let (r, g) = revoke_locked b reason s.motor in
      (finally_persist r persisted, record s { motor = g })

  -- `fail` of a state that is not STOPPED
  abbrev pub fault_state : SupervisorState → SupervisorState
  fault_state current =
      if not (same_state current failsafe) && is_target (allowed_targets current) failsafe
      then failsafe
      else current

  unfoldable pub fail : String → Outcome (Unit {0}) → Exec (Supervisor S) (Unit {0})
  unfolding revoke_and_persist allowed_targets is_target
  fail reason persisted s =
      if same_state s.state stopped
      then (returned tt, s)
      else revoke_and_persist reason persisted
          (record s { last_fault = some reason; state = fault_state s.state })

  unfoldable pub disarm : String → Bool → Outcome (Unit {0}) → Exec (Supervisor S) (Unit {0})
  unfolding disarm_state revoke_and_persist same_state
  disarm reason pause_latched persisted s =
      let effective =
        if same_state s.state paused && pause_latched then "operator-pause" else reason in
      let (r, t) = disarm_state s.state in
      elim r [
        | raised e ↦ (raised e, s)
        | returned _ ↦ revoke_and_persist effective persisted (record s { state = t })
      ]

  unfoldable pub stop : Outcome (Unit {0}) → Exec (Supervisor S) (Unit {0})
  unfolding stop_state revoke_and_persist
  stop persisted s =
      let (r, t) = stop_state s.state in
      elim r [
        | raised e ↦ (raised e, record s { state = t })
        | returned _ ↦
            revoke_and_persist "operator-stop" persisted
              (record s { state = t; stop_requested = true })
      ]

  -- `pause` of a state that it does not leave alone
  unfoldable pub pause : Outcome (Unit {0}) → Exec (Supervisor S) (Unit {0})
  unfolding same_state revoke_and_persist validate_transition
  pause persisted s =
      if same_state s.state paused || (same_state s.state stopped || same_state s.state stopping)
      then (returned tt, s)
      else if same_state s.state failsafe
      then revoke_and_persist "operator-pause" persisted s
      else elim (validate_transition s.state paused) [
        | raised e ↦ (raised e, s)
        | returned _ ↦ revoke_and_persist "operator-pause" persisted (record s { state = paused })
      ]

  unfoldable pub resume : Readings → Exec (Supervisor S) (Unit {0})
  unfolding same_state stop validate_transition
  resume rd s =
      if rd.emergency
      then (raised runtime_error, s)
      else if same_state s.state safe_idle
      then (returned tt, s)
      else if same_state s.state failsafe
      then stop (rd.persisted 0) s
      else if not (same_state s.state paused)
      then (raised runtime_error, s)
      else elim (validate_transition s.state safe_idle) [
        | raised e ↦ (raised e, s)
        | returned _ ↦ (rd.persisted 0, record s { state = safe_idle })
      ]

  unfoldable pub transition : SupervisorState → Outcome (Unit {0}) → Exec (Supervisor S) (Unit {0})
  unfolding validate_transition
  transition target persisted s = elim (validate_transition s.state target) [
    | raised e ↦ (raised e, s)
    | returned _ ↦ (persisted, record s { state = target })
  ]

  unfoldable pub start : Readings → Exec (Supervisor S) (Unit {0})
  unfolding transition pause revoke_locked
  start rd s =
      let (r, g) = revoke_locked b "emergency-stop-latched" s.motor in
      let latched = record s { last_fault = some rd.reason; motor = g } in
      let resting =
        (do transition starting (rd.persisted 0); transition safe_idle (rd.persisted 1)) s in
      if rd.emergency
      then elim r [
        | raised e ↦ (raised e, latched)
        | returned _ ↦ elim (rd.persisted 0) [
          | raised e ↦ (raised e, latched)
          | returned _ ↦ (raised runtime_error, latched)
        ]
      ]
      else elim resting.0 [
        | raised e ↦ resting
        | returned _ ↦ if rd.pause then pause (rd.persisted 2) resting.1 else resting
      ]
