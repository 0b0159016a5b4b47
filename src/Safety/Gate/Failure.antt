-- ===== src/Safety/Gate/Failure.antt =====
-- After an exception no capability is left, and what a renewal and the watchdog do.
use minecraft_ai.Prelude.{
  if◌then◌else◌, leb, inr, ℕ, ◌<◌, String, ◌≡◌, true, false, Option, none, some, arith, ◌⊎◌,
  Option-cases, inl, inr, List, refl,
}
use minecraft_ai.Outcome.{Raised, Outcome, returned, raised, is_exception, Outcome-cases}
use minecraft_ai.Safety.Lease.{Argument, MotorAction, MotorLease, validate_motor_lease_ttl}
use minecraft_ai.Safety.Backend.{InputBackend}
use minecraft_ai.Safety.Revocation.{MotorGate, refreshed_lease}
use minecraft_ai.Safety.Gate.{
  revoke, apply, renew, release_inputs, issue, issue_locked, check_expiry,
}
use minecraft_ai.Safety.Gate.Run.{
  Call, issuing, renewing, applying, releasing, checking, revoking, call, error, error_of,
}
use minecraft_ai.Safety.Gate.Admission.{cleared}

-- What a call that began at `g` has done if it raised an Exception: no lease is left, unless nothing
-- was changed at all.
abbrev pub FailsSafe : {S A : Type 0} → MotorGate S → Outcome A × MotorGate S → Type 0
FailsSafe g (r, g') =
    (e : Raised) → r ≡ raised e → is_exception e.fault ≡ true → (g' ≡ g) ⊎ (g'.lease ≡ none)

raised_of : {A : Type 0} {e : Raised} (r : Outcome A) → error_of r ≡ some e → r ≡ raised e
raised_of (returned a) h = cc
raised_of (raised x) h = ground arith

module _ {S : Type 0} (b : InputBackend S) where
  expired_or_held :
      (now : ℕ) (g : MotorGate S) (e : Raised)
      → (check_expiry b now g).0 ≡ raised e
      → (check_expiry b now g).1.lease ≡ none
  unfolding check_expiry
  expired_or_held now g e h = ground arith

  revoke_unleased : (reason : String) (g : MotorGate S) → (revoke b reason g).1.lease ≡ none
  unfolding revoke
  revoke_unleased reason g = refl

  pub renew-FailsSafe :
      (lease_id : String) (ttl : Argument) (now now' : ℕ) (g : MotorGate S)
      → FailsSafe g (renew b lease_id ttl now now' g)
  unfolding renew
  renew-FailsSafe lease_id ttl now now' g e h x = ground arith

  pub issue-FailsSafe :
      (new_id session target : String) (ttl : Argument) (allowed : List String)
      (duration first : Argument) (now : ℕ) (g : MotorGate S)
      → FailsSafe g (issue b new_id session target ttl allowed duration first now g)
  unfolding issue_locked issue
  issue-FailsSafe new_id session target ttl allowed duration first now g e h x = ground arith

  pub release_inputs-FailsSafe :
      (lease_id : String) (ttl : Option Argument) (now now' : ℕ) (g : MotorGate S)
      → FailsSafe g (release_inputs b lease_id ttl now now' g)
  unfolding release_inputs
  release_inputs-FailsSafe lease_id ttl now now' g e h x = ground arith

  pub apply-FailsSafe :
      (lease_id : String) (action : MotorAction) (ttl : Option Argument) (now now' : ℕ)
      (g : MotorGate S)
      → FailsSafe g (apply b lease_id action ttl now now' g)
  unfolding apply
  apply-FailsSafe lease_id action ttl now now' g e h x = ground (arith)

  -- A renewal that succeeds has only rebound the lease: nothing was released, and of the lease only
  -- the expiry is new.
  pub renew-refreshed :
      (lease_id : String) (ttl : Argument) (now now' : ℕ) (g : MotorGate S) (l' : MotorLease)
      → (renew b lease_id ttl now now' g).0 ≡ returned l'
      → (l : MotorLease) × (t : ℕ) × (g.lease ≡ some l)
        × (now < l.expires_monotonic_ns)
        × (validate_motor_lease_ttl ttl ≡ returned t)
        × (l' ≡ refreshed_lease l now' t)
        × ((renew b lease_id ttl now now' g).1 ≡ record g {
          backend = (b.bind_lease l' g.backend).1;
          lease = some l';
          revocation_reason = "active";
        })
  unfolding renew
  renew-refreshed lease_id ttl now now' g l' h = elim (Option-cases g.lease) [
    | inl e ↦ absurd (ground arith)
    | inr (l, e) ↦ elim (Outcome-cases (validate_motor_lease_ttl ttl)) [
      | inl (t, q) ↦ (l, t, e, ground arith, q, ground arith, ground arith)
      | inr (x, q) ↦ absurd (ground arith)
    ]
  ]

  -- With a backend that releases and clears without an error, the watchdog revokes exactly the
  -- leases that have expired, and says so.
  pub check_expiry_lem :
      (now : ℕ) (g : MotorGate S) (l : MotorLease)
      → g.lease ≡ some l
      → (b.release_all g.backend).0 ≡ returned tt
      → (b.clear_lease (b.release_all g.backend).1).0 ≡ returned tt
      → check_expiry b now g ≡ (
          if leb l.expires_monotonic_ns now
          then (
            returned true,
            record g {
              backend = cleared b g.backend;
              lease = none;
              revocation_reason = "watchdog-expired";
            },
          )
          else (returned false, g))
  unfolding check_expiry
  check_expiry_lem now g l held r c = ground arith

  -- Whatever call raises an Exception (a rejected or failed action, a failed binding or release, a
  -- failed cleanup), the gate is left with no lease, or the call has changed nothing.
  pub call-FailsSafe :
      (c : Call) (g : MotorGate S) (e : Raised)
      → error b c g ≡ some e
      → is_exception e.fault ≡ true
      → (call b c g ≡ g) ⊎ ((call b c g).lease ≡ none)
  unfolding call error
  call-FailsSafe (issuing i s t ttl al d f now) g e h x =
      issue-FailsSafe i s t ttl al d f now g e (raised_of _ h) x
  call-FailsSafe (renewing i ttl now now') g e h x =
      renew-FailsSafe i ttl now now' g e (raised_of _ h) x
  call-FailsSafe (applying i a ttl now now') g e h x =
      apply-FailsSafe i a ttl now now' g e (raised_of _ h) x
  call-FailsSafe (releasing i ttl now now') g e h x =
      release_inputs-FailsSafe i ttl now now' g e (raised_of _ h) x
  call-FailsSafe (checking now) g e h x = inr (expired_or_held now g e (raised_of _ h))
  call-FailsSafe (revoking reason) g e h x = inr (revoke_unleased reason g)
