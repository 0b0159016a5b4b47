-- ===== src/Safety/Gate/Ceiling.antt =====
-- No lease outlives the ttl ceiling, whatever is called.
use minecraft_ai.Prelude.{ℕ, ◌+◌, ◌*◌, ◌≤◌, List, [], ◌∷◌, ◌≡◌, some, arith, All}
use minecraft_ai.Safety.Lease.{MotorLease, max_motor_lease_ttl_ms}
use minecraft_ai.Safety.Backend.{InputBackend}
use minecraft_ai.Safety.Revocation.{MotorGate, nanoseconds_per_ms}
use minecraft_ai.Safety.Gate.{apply, renew, release_inputs, issue, check_expiry, revoke}
use minecraft_ai.Safety.Gate.Run.{
  Call, issuing, renewing, applying, releasing, checking, revoking, call, run,
}

abbrev ceiling_ns : ℕ
ceiling_ns = max_motor_lease_ttl_ms * nanoseconds_per_ms

-- the readings of a call do not go back, and it has ended by `t`
abbrev pub EndsBy : ℕ → Call → Type 0
EndsBy t (issuing i s u ttl al d f now) = now ≤ t
EndsBy t (renewing i ttl now now') = (now ≤ now') × (now' ≤ t)
EndsBy t (applying i a ttl now now') = (now ≤ now') × (now' ≤ t)
EndsBy t (releasing i ttl now now') = (now ≤ now') × (now' ≤ t)
EndsBy t (checking now) = now ≤ t
EndsBy t (revoking reason) = Unit {0}

module _ {S : Type 0} (b : InputBackend S) where
  abbrev pub IsShortLived : ℕ → MotorGate S → Type 0
  IsShortLived t g = (l : MotorLease) → g.lease ≡ some l → l.expires_monotonic_ns ≤ t + ceiling_ns

  call-IsShortLived :
      (t : ℕ) (c : Call) (g : MotorGate S)
      → EndsBy t c
      → IsShortLived t g
      → IsShortLived t (call b c g)
  unfolding call issue renew apply release_inputs check_expiry revoke
  call-IsShortLived t (issuing i s u ttl al d f now) g e h l q = ground (arith, h l)
  call-IsShortLived t (renewing i ttl now now') g e h l q = ground (arith, h l)
  call-IsShortLived t (applying i a ttl now now') g e h l q = ground (arith, h l)
  call-IsShortLived t (releasing i ttl now now') g e h l q = ground (arith, h l)
  call-IsShortLived t (checking now) g e h l q = ground (arith, h l)
  call-IsShortLived t (revoking reason) g e h l q = ground (arith, h l)

  run_from :
      (t : ℕ) (cs : List Call) (g : MotorGate S)
      → All (EndsBy t) cs
      → IsShortLived t g
      → IsShortLived t (run b cs g)
  unfolding run
  run_from t [] g e h = h
  run_from t (c ∷ cs) g e h = run_from t cs (call b c g) e.1 (call-IsShortLived t c g e.0 h)

  -- At any time `t`, after calls that have all ended by `t` on a gate whose lease met the bound, the
  -- published lease expires at most five seconds after `t`.
  pub run-expires-le :
      (t : ℕ) (cs : List Call) (g : MotorGate S) (l : MotorLease)
      → All (EndsBy t) cs
      → IsShortLived t g
      → (run b cs g).lease ≡ some l
      → l.expires_monotonic_ns ≤ t + ceiling_ns
  run-expires-le t cs g l e h q = run_from t cs g e h l q
