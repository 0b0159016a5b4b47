-- ===== src/Supervisor/Trace.antt =====
-- Sequences of commands of the supervisor, and the lease invariant over them.
use minecraft_ai.Prelude.{◌≡◌, ◌⊎◌, some, String, Bool, List, [], ◌∷◌, Option, none}
use minecraft_ai.Outcome.{Outcome}
use minecraft_ai.Safety.Lease.{MotorLease, Argument, MotorAction}
use minecraft_ai.Safety.State.{stopped, armed, running}
use minecraft_ai.Safety.Backend.{InputBackend}
use minecraft_ai.Safety.Revocation.{new_gate}
use minecraft_ai.Prelude.Int.{pos}
use minecraft_ai.Prelude.{false}
use minecraft_ai.Supervisor.{Supervisor, Readings, fail, disarm, stop, pause, resume, start}
use minecraft_ai.Supervisor.Commands.{
  apply_motor_action, release_inputs, arm, renew, activate, watch, resume_for_agent_reload,
}
use minecraft_ai.Supervisor.Leases.{
  IsGuarded, fail-IsGuarded, disarm-IsGuarded, stop-IsGuarded, pause-IsGuarded, resume-IsGuarded,
  start-IsGuarded, apply_motor_action-IsGuarded, release_inputs-IsGuarded, arm-IsGuarded,
  renew-IsGuarded, activate-IsGuarded, watch-IsGuarded, resume_for_agent_reload-IsGuarded,
}

-- a supervisor that has just been made
abbrev pub new_supervisor : {S : Type 0} → S → Supervisor S
new_supervisor backend = record {
  state = stopped;
  motor = new_gate backend;
  last_fault = none;
  fault_code = none;
  world_camera_pitch_units = pos 0;
  world_camera_updates = 0;
  stop_requested = false;
}

-- A command with its arguments. Of the supervisor's commands these are left out: the calibration and
-- the probe of the camera, which hold a lease of their own in SAFE_IDLE, and chat and attach.
pub data Command : Type 0 where
  starting_up pausing resuming stopping_down activating watching : Command
  arming : String → Command
  disarming faulting : String → Command
  renewing : String → Argument → Command
  acting : String → Outcome MotorAction → Command
  releasing : String → Command
  reloading : Option String → Bool → Command

module _ {S : Type 0} (b : InputBackend S) where
  -- a command, whatever it returns or raises, under what it reads
  unfoldable pub command : Command → Readings → Supervisor S → Supervisor S
  command starting_up rd s = (start b rd s).1
  command pausing rd s = (pause b (rd.persisted 0) s).1
  command resuming rd s = (resume b rd s).1
  command stopping_down rd s = (stop b (rd.persisted 0) s).1
  command activating rd s = (activate b rd s).1
  command watching rd s = (watch b rd s).1
  command (arming target) rd s = (arm b target rd s).1
  command (disarming reason) rd s = (disarm b reason rd.pause (rd.persisted 0) s).1
  command (faulting reason) rd s = (fail b reason (rd.persisted 0) s).1
  command (renewing lease_id ttl) rd s = (renew b lease_id ttl rd s).1
  command (acting lease_id parsed) rd s = (apply_motor_action b lease_id parsed rd s).1
  command (releasing lease_id) rd s = (release_inputs b lease_id rd s).1
  command (reloading session agent_file) rd s =
      (resume_for_agent_reload b session agent_file rd s).1

  unfoldable pub serve : List (Command × Readings) → Supervisor S → Supervisor S
  serve [] s = s
  serve ((c, rd) ∷ rest) s = serve rest (command c rd s)

  command-IsGuarded :
      (c : Command) (rd : Readings) (s : Supervisor S) → IsGuarded s → IsGuarded (command c rd s)
  unfolding command
  command-IsGuarded starting_up rd s h = start-IsGuarded b rd s h
  command-IsGuarded pausing rd s h = pause-IsGuarded b (rd.persisted 0) s h
  command-IsGuarded resuming rd s h = resume-IsGuarded b rd s h
  command-IsGuarded stopping_down rd s h = stop-IsGuarded b (rd.persisted 0) s h
  command-IsGuarded activating rd s h = activate-IsGuarded b rd s h
  command-IsGuarded watching rd s h = watch-IsGuarded b rd s h
  command-IsGuarded (arming target) rd s h = arm-IsGuarded b target rd s h
  command-IsGuarded (disarming reason) rd s h =
      disarm-IsGuarded b reason rd.pause (rd.persisted 0) s h
  command-IsGuarded (faulting reason) rd s h = fail-IsGuarded b reason (rd.persisted 0) s h
  command-IsGuarded (renewing lease_id ttl) rd s h = renew-IsGuarded b lease_id ttl rd s h
  command-IsGuarded (acting lease_id parsed) rd s h =
      apply_motor_action-IsGuarded b lease_id parsed rd s h
  command-IsGuarded (releasing lease_id) rd s h = release_inputs-IsGuarded b lease_id rd s h
  command-IsGuarded (reloading session agent_file) rd s h =
      resume_for_agent_reload-IsGuarded b session agent_file rd s h

  pub serve_from :
      (cs : List (Command × Readings)) (s : Supervisor S) → IsGuarded s → IsGuarded (serve cs s)
  unfolding serve
  serve_from [] s h = h
  serve_from ((c, rd) ∷ rest) s h = serve_from rest (command c rd s) (command-IsGuarded c rd s h)

  -- After any of these commands on a new supervisor, failed ones included and whatever the latches,
  -- the clock, the status file and the backend did, a published lease means that it is ARMED or
  -- RUNNING. The calibration and the probe of the camera, chat and attach are not among them.
  pub serve-IsGuarded :
      (cs : List (Command × Readings)) (backend : S) (l : MotorLease)
      → (serve cs (new_supervisor backend)).motor.lease ≡ some l
      → ((serve cs (new_supervisor backend)).state ≡ armed)
        ⊎ ((serve cs (new_supervisor backend)).state ≡ running)
  serve-IsGuarded cs backend l e = serve_from cs (new_supervisor backend) (λ l e. cc) l e
