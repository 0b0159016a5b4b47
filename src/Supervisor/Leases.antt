-- ===== src/Supervisor/Leases.antt =====
-- A lease is published only while the supervisor is ARMED or RUNNING.
use minecraft_ai.Prelude.{String, Bool, false, Option, some, arith, ◌≡◌, ◌⊎◌, inr, refl}
use minecraft_ai.Prelude.Int.{pos}
use minecraft_ai.Outcome.{Exec, continue, ◌>>◌, Outcome, returned, raised}
use minecraft_ai.Safety.State.{armed, running}
use minecraft_ai.Safety.Lease.{Argument, integer, max_motor_lease_ttl_ms, MotorAction, MotorLease}
use minecraft_ai.Safety.Backend.{InputBackend}
use minecraft_ai.Safety.Gate
use minecraft_ai.Supervisor.{Supervisor, Readings, fail, disarm, stop, pause, resume, start}
use minecraft_ai.Supervisor.Commands.{
  on_motor, runtime_lease, require_running_lease, after_apply, act, apply_motor_action,
  release_inputs, arm, renew, activate, watch, resume_for_agent_reload,
}

-- A published lease means that the supervisor is ARMED or RUNNING.
abbrev pub IsGuarded : {S : Type 0} → Supervisor S → Type 0
IsGuarded s = (l : MotorLease) → s.motor.lease ≡ some l → (s.state ≡ armed) ⊎ (s.state ≡ running)

module _ {S : Type 0} (b : InputBackend S) where
  pub fail-IsGuarded :
      (reason : String) (p : Outcome (Unit {0})) (s : Supervisor S)
      → IsGuarded s
      → IsGuarded (fail b reason p s).1
  unfolding fail
  fail-IsGuarded reason p s h l e = ground (arith, h l)

  pub disarm-IsGuarded :
      (reason : String) (latched : Bool) (p : Outcome (Unit {0})) (s : Supervisor S)
      → IsGuarded s
      → IsGuarded (disarm b reason latched p s).1
  unfolding disarm
  disarm-IsGuarded reason latched p s h l e = ground (arith, h l)

  pub stop-IsGuarded :
      (p : Outcome (Unit {0})) (s : Supervisor S) → IsGuarded s → IsGuarded (stop b p s).1
  unfolding stop
  stop-IsGuarded p s h l e = ground (arith, h l)

  pub pause-IsGuarded :
      (p : Outcome (Unit {0})) (s : Supervisor S) → IsGuarded s → IsGuarded (pause b p s).1
  unfolding pause
  pause-IsGuarded p s h l e = ground (arith, h l)

  pub resume-IsGuarded :
      (rd : Readings) (s : Supervisor S) → IsGuarded s → IsGuarded (resume b rd s).1
  unfolding resume
  resume-IsGuarded rd s h l e = ground (arith, h l)

  pub start-IsGuarded :
      (rd : Readings) (s : Supervisor S) → IsGuarded s → IsGuarded (start b rd s).1
  unfolding start
  start-IsGuarded rd s h l e = ground (arith, h l)

  pub require_running_lease-IsGuarded :
      (lease_id : String) (rd : Readings) (s : Supervisor S)
      → IsGuarded s
      → IsGuarded (require_running_lease b lease_id rd s).1
  unfolding require_running_lease
  require_running_lease-IsGuarded lease_id rd s h l e = ground (arith, h l)

  pub require_running_lem :
      (lease_id : String) (rd : Readings) (s : Supervisor S)
      → (require_running_lease b lease_id rd s).0 ≡ returned tt
      → ((require_running_lease b lease_id rd s).1 ≡ s)
        × (s.state ≡ running)
        × (rd.emergency ≡ false)
        × (rd.pause ≡ false)
        × ((l : MotorLease) × (runtime_lease b lease_id rd.now s ≡ some l))
  unfolding require_running_lease
  require_running_lem lease_id rd s h = ground arith

  pub continue-IsGuarded :
      {A B : Type 0} (k : A → Exec (Supervisor S) B) (r : Outcome A) (s : Supervisor S)
      → IsGuarded s
      → ((a : A) → r ≡ returned a → IsGuarded (k a s).1)
      → IsGuarded (continue k r s).1
  continue-IsGuarded k (returned a) s h go = go a refl
  continue-IsGuarded k (raised e) s h go = h

  pub after_apply-IsGuarded :
      (a : MotorAction) (rd : Readings) (r : Outcome (Unit {0})) (s : Supervisor S)
      → s.state ≡ running
      → IsGuarded (after_apply b a rd r s).1
  unfolding after_apply
  after_apply-IsGuarded a rd r s h l e = ground arith

  -- a lease check that passes leaves the supervisor RUNNING
  pub running_after :
      (lease_id : String) (rd : Readings) (s : Supervisor S) {t : Unit {0}}
      → (require_running_lease b lease_id rd s).0 ≡ returned t
      → (require_running_lease b lease_id rd s).1.state ≡ running
  running_after lease_id rd s e = let p = require_running_lem lease_id rd s e in cc (p.0, p.1)

  -- `release_inputs` past the lease check
  abbrev pub release_rest : String → Readings → Exec (Supervisor S) (Unit {0})
  release_rest lease_id rd =
      on_motor b (
        Gate.release_inputs b lease_id (some (integer (pos max_motor_lease_ttl_ms))) rd.now'
          rd.now'')
      >> λ s. (rd.persisted 0, s)

  running_rest :
      (lease_id : String) (rd : Readings) (s : Supervisor S)
      → s.state ≡ running
      → (release_rest lease_id rd s).1.state ≡ running
  running_rest lease_id rd s r = ground arith

  pub act-IsGuarded :
      (lease_id : String) (parsed : Outcome MotorAction) (rd : Readings) (s : Supervisor S)
      → s.state ≡ running
      → IsGuarded (act b lease_id parsed rd s).1
  unfolding act
  act-IsGuarded lease_id (raised x) rd s r = λ l e. ground arith
  act-IsGuarded lease_id (returned a) rd s r =
      let (o, g) =
        Gate.apply b lease_id a (some (integer (pos max_motor_lease_ttl_ms))) rd.now' rd.now''
          s.motor in
      after_apply-IsGuarded a rd o (record s { motor = g }) r

  pub apply_motor_action-IsGuarded :
      (lease_id : String) (parsed : Outcome MotorAction) (rd : Readings) (s : Supervisor S)
      → IsGuarded s
      → IsGuarded (apply_motor_action b lease_id parsed rd s).1
  unfolding apply_motor_action
  apply_motor_action-IsGuarded lease_id parsed rd s h =
      let (r, s') = require_running_lease b lease_id rd s in
      continue-IsGuarded (λ _. act b lease_id parsed rd) r s'
        (require_running_lease-IsGuarded lease_id rd s h)
        (λ _ e. act-IsGuarded lease_id parsed rd s' (running_after lease_id rd s e))

  pub release_inputs-IsGuarded :
      (lease_id : String) (rd : Readings) (s : Supervisor S)
      → IsGuarded s
      → IsGuarded (release_inputs b lease_id rd s).1
  unfolding release_inputs
  release_inputs-IsGuarded lease_id rd s h =
      let (r, s') = require_running_lease b lease_id rd s in
      continue-IsGuarded (λ _. release_rest lease_id rd) r s'
        (require_running_lease-IsGuarded lease_id rd s h)
        (λ _ e l _. inr (running_rest lease_id rd s' (running_after lease_id rd s e)))

  pub arm-IsGuarded :
      (target : String) (rd : Readings) (s : Supervisor S)
      → IsGuarded s
      → IsGuarded (arm b target rd s).1
  unfolding arm
  arm-IsGuarded target rd s h l e = ground (arith, h l)

  pub renew-IsGuarded :
      (lease_id : String) (ttl : Argument) (rd : Readings) (s : Supervisor S)
      → IsGuarded s
      → IsGuarded (renew b lease_id ttl rd s).1
  unfolding renew
  renew-IsGuarded lease_id ttl rd s h l e = ground (arith, h l)

  pub activate-IsGuarded :
      (rd : Readings) (s : Supervisor S) → IsGuarded s → IsGuarded (activate b rd s).1
  unfolding activate
  activate-IsGuarded rd s h l e = ground (arith, h l)

  pub watch-IsGuarded :
      (rd : Readings) (s : Supervisor S) → IsGuarded s → IsGuarded (watch b rd s).1
  unfolding watch
  watch-IsGuarded rd s h l e = ground (arith, h l)

  pub resume_for_agent_reload-IsGuarded :
      (session : Option String) (agent_file : Bool) (rd : Readings) (s : Supervisor S)
      → IsGuarded s
      → IsGuarded (resume_for_agent_reload b session agent_file rd s).1
  unfolding resume_for_agent_reload
  resume_for_agent_reload-IsGuarded session agent_file rd s h l e = ground (arith, h l)
