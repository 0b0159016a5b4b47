-- ===== src/Safety/Gate/Run.antt =====
-- Sequences of calls of the gate, whatever each one returns or raises.
use minecraft_ai.Prelude.{none, some, ℕ, String, List, [], ◌∷◌, Option}
use minecraft_ai.Outcome.{Outcome, Raised, returned, raised}
use minecraft_ai.Safety.Lease.{Argument, MotorAction}
use minecraft_ai.Safety.Backend.{InputBackend}
use minecraft_ai.Safety.Revocation.{MotorGate}
use minecraft_ai.Safety.Gate.{issue, renew, apply, release_inputs, check_expiry, revoke}

-- a call with its arguments and its readings of the clock
pub data Call : Type 0 where
  issuing :
      (new_id session target : String) (ttl : Argument) (allowed : List String)
      (duration first : Argument) (now : ℕ)
      → Call
  renewing : String → Argument → (now now' : ℕ) → Call
  applying : String → MotorAction → Option Argument → (now now' : ℕ) → Call
  releasing : String → Option Argument → (now now' : ℕ) → Call
  checking : ℕ → Call
  revoking : String → Call

abbrev pub error_of {ℓ} : {A : Type ℓ} → Outcome A → Option Raised
error_of (returned a) = none
error_of (raised e) = some e

module _ {S : Type 0} (b : InputBackend S) where
  unfoldable pub call : Call → MotorGate S → MotorGate S
  call (issuing i s t ttl al d f now) g = (issue b i s t ttl al d f now g).1
  call (renewing i ttl now now') g = (renew b i ttl now now' g).1
  call (applying i a ttl now now') g = (apply b i a ttl now now' g).1
  call (releasing i ttl now now') g = (release_inputs b i ttl now now' g).1
  call (checking now) g = (check_expiry b now g).1
  call (revoking reason) g = (revoke b reason g).1

  -- the exception of a call, if it raises one
  unfoldable pub error : Call → MotorGate S → Option Raised
  error (issuing i s t ttl al d f now) g = error_of (issue b i s t ttl al d f now g).0
  error (renewing i ttl now now') g = error_of (renew b i ttl now now' g).0
  error (applying i a ttl now now') g = error_of (apply b i a ttl now now' g).0
  error (releasing i ttl now now') g = error_of (release_inputs b i ttl now now' g).0
  error (checking now) g = error_of (check_expiry b now g).0
  error (revoking reason) g = error_of (revoke b reason g).0

  unfoldable pub run : List Call → MotorGate S → MotorGate S
  run [] g = g
  run (c ∷ cs) g = run cs (call c g)

  -- what every call keeps holds after any calls
  pub run_induction :
      (P : MotorGate S → Type 0)
      → ((c : Call) (g : MotorGate S) → P g → P (call c g))
      → (cs : List Call) (g : MotorGate S) → P g
      → P (run cs g)
  unfolding run
  run_induction P keep [] g h = h
  run_induction P keep (c ∷ cs) g h = run_induction P keep cs (call c g) (keep c g h)
