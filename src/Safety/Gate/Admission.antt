-- ===== src/Safety/Gate/Admission.antt =====
-- Which actions pass the gate, and what a refused one leaves behind.
use minecraft_ai.Prelude.{ℕ, ◌≤◌, ◌<◌, String, ◌≡◌, refl, true, none, some, arith, str_eq}
use minecraft_ai.Prelude.Int.{pos, ◌<ℤ◌}
use minecraft_ai.Outcome.{returned}
use minecraft_ai.Safety.Lease.{MotorAction, MotorLease, action_kinds, is_subset, expired}
use minecraft_ai.Safety.Backend.{InputBackend}
use minecraft_ai.Safety.Revocation.{MotorGate, revoke_locked, refuse, require_lease}
use minecraft_ai.Safety.Gate.{screen, admit}

-- The action may pass under the lease `l` at the time `now`.
pub record Permits {S : Type 0} (g : MotorGate S) (lease_id : String) (action : MotorAction)
    (now : ℕ) (l : MotorLease) : Type 0 where
  pub current : g.lease ≡ some l
  pub named : str_eq l.lease_id lease_id ≡ true
  pub alive : now < l.expires_monotonic_ns
  pub newer : g.last_sequence <ℤ pos action.sequence
  pub short : action.duration_ms ≤ l.max_action_duration_ms
  pub kinds : is_subset (action_kinds action) l.allowed_actions ≡ true

module _ {S : Type 0} (b : InputBackend S) where
  -- the backend after a release and a clear
  abbrev pub cleared : S → S
  cleared s = (b.clear_lease (b.release_all s).1).1

  -- The gate after any revocation: no lease, the reason recorded, the backend released and cleared.
  pub revoke_lem :
      (reason : String) (g : MotorGate S)
      → (revoke_locked b reason g).1
        ≡ record g { backend = cleared g.backend; lease = none; revocation_reason = reason }
  unfolding revoke_locked
  revoke_lem reason g = refl

  pub admit-Permits :
      (lease_id : String) (action : MotorAction) (now : ℕ) (g : MotorGate S) (l : MotorLease)
      → (admit b lease_id action now g).0 ≡ returned l
      → Permits g lease_id action now l × ((admit b lease_id action now g).1 ≡ g)
  unfolding admit require_lease screen expired refuse revoke_locked
  admit-Permits lease_id action now g l h = ground arith

  pub Permits-admit :
      (lease_id : String) (action : MotorAction) (now : ℕ) (g : MotorGate S) (l : MotorLease)
      → Permits g lease_id action now l
      → admit b lease_id action now g ≡ (returned l, g)
  unfolding admit expired
  Permits-admit lease_id action now g l p = ground arith
