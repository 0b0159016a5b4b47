-- ===== src/Supervisor/Effects.antt =====
-- What the commands of the supervisor guarantee.
use mathlib.Core.Path.{subst}
use minecraft_ai.Prelude.{
  ℕ, ◌≤◌, String, true, false, none, some, arith, ◌≡◌, ◌≢◌, ◌⊎◌, Option-cases, inl, inr, refl,
}
use minecraft_ai.Prelude.Int.{pos}
use minecraft_ai.Outcome.{Outcome-cases, Outcome, returned, raised, continue-returned}
use minecraft_ai.Safety.State.{stopped, running, failsafe}
use minecraft_ai.Safety.Lease.{integer, max_motor_lease_ttl_ms, MotorAction, MotorLease}
use minecraft_ai.Safety.Backend.{InputBackend}
use minecraft_ai.Safety.Gate
use minecraft_ai.Safety.Gate.Admission.{Permits}
use minecraft_ai.Safety.Gate.Effects.{apply-Permits}
use minecraft_ai.Supervisor.{Supervisor, Readings, fail, stop}
use minecraft_ai.Supervisor.Commands.{require_running_lease, act, apply_motor_action, watch}
use minecraft_ai.Supervisor.Leases.{IsGuarded, require_running_lem}

module _ {S : Type 0} (b : InputBackend S) where
  -- From every state `stop` reaches STOPPED with no lease and asks the loop to end, whether or not the
  -- backend or the status file fails; its transitions are always accepted.
  pub stop_lem :
      (p : Outcome (Unit {0})) (s : Supervisor S)
      → ((stop b p s).1.state ≡ stopped)
        × ((stop b p s).1.motor.lease ≡ none)
        × ((stop b p s).1.stop_requested ≡ true)
  unfolding stop
  stop_lem p s = ground arith

  -- From every state but STOPPED `fail` reaches FAILSAFE with no lease and records its reason, even
  -- if the backend or the status file fails as well.
  fail_lem :
      (reason : String) (p : Outcome (Unit {0})) (s : Supervisor S)
      → s.state ≢ stopped
      → ((fail b reason p s).1.state ≡ failsafe)
        × ((fail b reason p s).1.motor.lease ≡ none)
        × ((fail b reason p s).1.last_fault ≡ some reason)
  unfolding fail
  fail_lem reason p s h = ground arith

  -- After a round of the watchdog no lease is published if the emergency stop or the operator's
  -- pause was latched, or if the lease had expired.
  pub watch_revokes :
      (rd : Readings) (s : Supervisor S)
      → IsGuarded s
      → ((rd.emergency ≡ true) ⊎ (rd.pause ≡ true))
        ⊎ ((l : MotorLease) × (s.motor.lease ≡ some l) × (l.expires_monotonic_ns ≤ rd.now))
      → (watch b rd s).1.motor.lease ≡ none
  unfolding watch
  watch_revokes rd s h u = elim (Option-cases s.motor.lease) [
    | inl e ↦ ground arith
    | inr (l, e) ↦ ground (arith, h l)
  ]

  -- past the lease check an accepted action is one that the gate accepted
  act-returned :
      (lease_id : String) (parsed : Outcome MotorAction) (rd : Readings) (s : Supervisor S) (n : ℕ)
      → (act b lease_id parsed rd s).0 ≡ returned n
      → (a : MotorAction) × (parsed ≡ returned a)
        × (n ≡ a.sequence)
        × ((Gate.apply b lease_id a
              (some (integer (pos max_motor_lease_ttl_ms)))
              rd.now'
              rd.now''
              s.motor).0
            ≡ returned tt)
  unfolding act
  act-returned lease_id (raised x) rd s n h = absurd (ground arith)
  act-returned lease_id (returned a) rd s n h =
      elim (Outcome-cases
        (Gate.apply b lease_id a (some (integer (pos max_motor_lease_ttl_ms))) rd.now' rd.now''
          s.motor).0) [
            | inl (_, e) ↦ (a, refl, ground arith, e)
            | inr (x, e) ↦ absurd (ground arith)
          ]

  -- A motor action is accepted only while the supervisor is RUNNING with neither latch set, only if
  -- it parsed, and only as the gate's lease permits it; the result is its sequence number, and the
  -- backend has taken it.
  pub apply_motor_action-Permits :
      (lease_id : String) (parsed : Outcome MotorAction) (rd : Readings) (s : Supervisor S) (n : ℕ)
      → (apply_motor_action b lease_id parsed rd s).0 ≡ returned n
      → (s.state ≡ running)
        × (rd.emergency ≡ false)
        × (rd.pause ≡ false)
        × ((a : MotorAction) × (l : MotorLease) × (parsed ≡ returned a)
            × (n ≡ a.sequence)
            × Permits s.motor lease_id a rd.now' l
            × ((b.apply a s.motor.backend).0 ≡ returned tt))
  unfolding apply_motor_action
  apply_motor_action-Permits lease_id parsed rd s n h =
      let (r, s') = require_running_lease b lease_id rd s in
      let (_, passed, acted) = continue-returned (λ _. act b lease_id parsed rd) r s' h in
      let q = require_running_lem b lease_id rd s passed in
      let acted' : (act b lease_id parsed rd s).0 ≡ returned n =
        subst (λ t. (act b lease_id parsed rd t).0 ≡ returned n) q.0 acted in
      let (a, parsed_as, number, taken) = act-returned lease_id parsed rd s n acted' in
      let (l, p, sent, _) =
        apply-Permits b lease_id a (some (integer (pos max_motor_lease_ttl_ms))) rd.now' rd.now''
          s.motor taken in
      (q.1, q.2, q.3, (a, l, parsed_as, number, p, sent))
