-- ===== src/Safety/Revocation.antt =====
-- The state of MotorGate of safety.py over any backend, and how its methods look up and revoke a
-- lease. The lock makes each method one step; the readings of
-- `time.monotonic_ns` are arguments, in the order in which the method takes them, and so is the
-- identity that `uuid4` makes. A method is an action that returns or raises and leaves a state.
use minecraft_ai.Prelude.{
  ℕ, ◌+◌, ◌*◌, String, true, false, Option, none, some, str_eq, if◌then◌else◌,
}
use minecraft_ai.Prelude.Int.{ℤ, negsuc}
use minecraft_ai.Outcome.{
  Raised, Outcome, returned, raised, rejected, is_exception, add_note, Exec, raise, try_except,
  ◌>>=◌, ◌>>◌,
}
use minecraft_ai.Safety.Lease.{MotorLease, expired}
use minecraft_ai.Safety.Backend.{InputBackend}

pub record MotorGate (S : Type 0) : Type 0 where
  pub backend : S
  pub lease : Option MotorLease
  pub last_sequence : ℤ
  pub revocation_reason : String

-- `__init__`
abbrev pub new_gate : {S : Type 0} → S → MotorGate S
new_gate s = record {
  backend = s;
  lease = none;
  last_sequence = negsuc 0;
  revocation_reason = "not-issued";
}

abbrev pub nanoseconds_per_ms : ℕ
nanoseconds_per_ms = 1000000

-- `MotorLease(…)` with every field of the old one but its expiry
unfoldable pub refreshed_lease : MotorLease → ℕ → ℕ → MotorLease
refreshed_lease l now ttl = record l { expires_monotonic_ns = now + ttl * nanoseconds_per_ms }

-- The `finally` block of `_revoke_locked`: the clear is tried whatever the release did, and a
-- failed release keeps its own error, with a note if the clear fails as well.
unfoldable pub after_release : Outcome (Unit {0}) → Outcome (Unit {0}) → Outcome (Unit {0})
after_release (returned _) cleared = cleared
after_release (raised e) (returned _) = raised e
after_release (raised e) (raised c) = raised (add_note e "motor lease clearing also failed" c.fault)

module _ {S : Type 0} (b : InputBackend S) where
  -- a call of the backend from within the gate
  abbrev pub on_backend : Exec S (Unit {0}) → Exec (MotorGate S) (Unit {0})
  on_backend m g = let (r, s) = m g.backend in (r, record g { backend = s })

  unfoldable pub revoke_locked : String → Exec (MotorGate S) (Unit {0})
  unfolding after_release
  revoke_locked reason g =
      let (released, s) = b.release_all g.backend in
      let (cleared, s') = b.clear_lease s in
      (
        after_release released cleared,
        record g { backend = s'; lease = none; revocation_reason = reason },
      )

  -- how the cleanup after an error ended: `_revoke_after_failure_locked`, then `raise`
  unfoldable pub after_failure : Raised → Outcome (Unit {0}) → Raised
  after_failure error (returned _) = error
  after_failure error (raised c) = elim (is_exception c.fault) [
    | true ↦ add_note error "motor cleanup also failed" c.fault
    | false ↦ c
  ]

  unfoldable pub revoke_and_raise : {A : Type 0} → String → Raised → Exec (MotorGate S) A
  unfolding revoke_locked after_failure
  revoke_and_raise reason error g =
      let (r, g') = revoke_locked reason g in (raised (after_failure error r), g')

  -- `self._revoke_locked(reason)` and then `raise MotorRejected(message)`
  unfoldable pub refuse : {A : Type 0} → String → String → Exec (MotorGate S) A
  unfolding revoke_locked
  refuse reason message = do revoke_locked reason; raise (rejected message)

  abbrev pub publish : MotorLease → Exec (MotorGate S) MotorLease
  publish l g = (returned l, record g { lease = some l; revocation_reason = "active" })

  unfoldable pub require_lease : String → Exec (MotorGate S) MotorLease
  unfolding revoke_and_raise
  require_lease lease_id g =
      let missing =
        revoke_and_raise "invalid-or-missing-lease" (rejected "invalid or missing motor lease") g in
      elim g.lease [
        | none ↦ missing
        | some l ↦ if str_eq l.lease_id lease_id then (returned l, g) else missing
      ]

  -- `require_lease`, and then the test that the lease has not expired
  unfoldable pub live_lease : String → String → ℕ → Exec (MotorGate S) MotorLease
  unfolding require_lease refuse expired
  live_lease reason lease_id now = do
    l ← require_lease lease_id
    λ g. if expired l now then refuse reason "motor lease expired" g else (returned l, g)

  -- `bind_lease` within the gate; if it raises, the gate is revoked for `reason` first
  unfoldable pub bind_or_revoke : String → MotorLease → Exec (MotorGate S) (Unit {0})
  unfolding revoke_and_raise
  bind_or_revoke reason l = try_except (on_backend (b.bind_lease l)) (revoke_and_raise reason)
