-- ===== src/Safety/Gate.antt =====
-- The methods of MotorGate of safety.py. The lock makes each method one step; the readings of
-- `time.monotonic_ns` are arguments, in the order in which the method takes them, and so is the
-- identity that `uuid4` makes. A method is an action that returns or raises and leaves a state.
pub mod Admission
pub mod Effects
pub mod Ceiling
pub mod Order
pub mod Run
pub mod Neutral
pub mod Failure
use minecraft_ai.Prelude.{
  ℕ, ◌+◌, ◌*◌, String, Bool, true, false, List, Option, none, some, ◌||◌, str_eq, ltb,
  if◌then◌else◌,
}
use minecraft_ai.Prelude.Int.{pos, negsuc, ◌-ℤ◌, leb_ℤ}
use minecraft_ai.Outcome.{Outcome, returned, raised, rejected, Exec, pure, try_except, ◌>>=◌, ◌>>◌}
use minecraft_ai.Safety.Lease.{
  Argument, integer, not_integer, validate_motor_lease_ttl, MotorAction, MotorLease, action_kinds,
  is_subset, expired,
}
use minecraft_ai.Safety.Backend.{InputBackend}
use minecraft_ai.Safety.Revocation.{
  MotorGate, nanoseconds_per_ms, refreshed_lease, on_backend, revoke_locked, revoke_and_raise,
  refuse, publish, live_lease, bind_or_revoke,
}

-- the arguments that `issue` checks before it takes the lock
unfoldable pub issue_arguments : String → Argument → Argument → Argument → Outcome (ℕ × ℕ × ℕ)
unfolding validate_motor_lease_ttl
issue_arguments target ttl_ms duration first =
    if str_eq target ""
    then raised (rejected "target instance identity is required")
    else elim (validate_motor_lease_ttl ttl_ms) [
      | raised e ↦ raised e
      | returned ttl ↦ elim duration [
        | not_integer ↦ raised (rejected "action duration must be an integer")
        | integer (negsuc _) ↦ raised (rejected "action duration outside safety bounds")
        | integer (pos d) ↦
            if ltb d 1 || ltb 1000 d
            then raised (rejected "action duration outside safety bounds")
            else elim first [
              | integer (pos f) ↦ returned (ttl, d, f)
              | _ ↦ raised (rejected "first sequence must be a non-negative integer")
            ]
      ]
    ]

-- the optional ttl of `apply` and `release_inputs`, checked before the lock
unfoldable pub optional_ttl : Option Argument → Outcome (Option ℕ)
unfolding validate_motor_lease_ttl
optional_ttl none = returned none
optional_ttl (some ttl_ms) = elim (validate_motor_lease_ttl ttl_ms) [
  | raised e ↦ raised e
  | returned ttl ↦ returned (some ttl)
]

module _ {S : Type 0} (b : InputBackend S) where
  -- publishing sets the sequence too
  abbrev pub publish_first : MotorLease → ℕ → Exec (MotorGate S) MotorLease
  publish_first l first g = (
    returned l,
    record g { lease = some l; last_sequence = pos first -ℤ pos 1; revocation_reason = "active" },
  )

  -- `issue` past its argument checks
  unfoldable pub issue_locked :
      String → String → String → List String → ℕ × ℕ × ℕ → ℕ → Exec (MotorGate S) MotorLease
  unfolding revoke_locked bind_or_revoke
  issue_locked new_id session target allowed (ttl, duration, first) now = do
    revoke_locked b "lease-issue"
    let l : MotorLease = record {
      lease_id = new_id;
      session_id = session;
      target_instance = target;
      backend_id = b.backend_id;
      expires_monotonic_ns = now + ttl * nanoseconds_per_ms;
      allowed_actions = allowed;
      max_action_duration_ms = duration;
      first_sequence = first;
    }
    bind_or_revoke b "lease-issue-failed" l
    publish_first l first

  unfoldable pub issue :
      (new_id session target : String) (ttl_ms : Argument) (allowed : List String)
      (duration first : Argument) (now : ℕ)
      → Exec (MotorGate S) MotorLease
  unfolding issue_arguments issue_locked
  issue new_id session target ttl_ms allowed duration first now g =
      elim (issue_arguments target ttl_ms duration first) [
        | raised e ↦ (raised e, g)
        | returned checked ↦ issue_locked new_id session target allowed checked now g
      ]

  -- the gate while the backend replaces its binding: no capability is published
  abbrev pub withdraw : MotorLease → Exec (MotorGate S) MotorLease
  withdraw l g = (returned l, record g { lease = none; revocation_reason = "lease-renewal" })

  unfoldable pub renew_locked : String → ℕ → (now now' : ℕ) → Exec (MotorGate S) MotorLease
  unfolding live_lease bind_or_revoke refreshed_lease
  renew_locked lease_id ttl now now' = do
    l ← live_lease b "heartbeat-expired" lease_id now
    withdraw l
    bind_or_revoke b "lease-renewal-failed" (refreshed_lease l now' ttl)
    publish b (refreshed_lease l now' ttl)

  unfoldable pub renew : String → Argument → (now now' : ℕ) → Exec (MotorGate S) MotorLease
  unfolding renew_locked validate_motor_lease_ttl
  renew lease_id ttl_ms now now' g = elim (validate_motor_lease_ttl ttl_ms) [
    | raised e ↦ (raised e, g)
    | returned ttl ↦ renew_locked lease_id ttl now now' g
  ]

  -- the guards of `apply` on a live lease, in order; each refusal revokes the lease
  unfoldable pub screen : MotorAction → MotorLease → Exec (MotorGate S) MotorLease
  unfolding refuse
  screen action l g =
      if leb_ℤ (pos action.sequence) g.last_sequence
      then refuse b "replay-or-out-of-order-action" "action sequence must increase monotonically" g
      else if ltb l.max_action_duration_ms action.duration_ms
      then refuse b "action-duration-limit" "action exceeds lease duration limit" g
      else if is_subset (action_kinds action) l.allowed_actions
      then (returned l, g)
      else refuse b "action-not-allowed" "action kind not allowed by lease" g

  unfoldable pub admit : String → MotorAction → ℕ → Exec (MotorGate S) MotorLease
  unfolding live_lease screen
  admit lease_id action now = do l ← live_lease b "lease-expired" lease_id now; screen action l

  -- the backend's part, with the sequence recorded only if it succeeds
  unfoldable pub perform : MotorAction → Exec (MotorGate S) (Unit {0})
  unfolding revoke_and_raise
  perform action = do
    try_except (on_backend b (b.apply action)) (revoke_and_raise b "backend-apply-failed")
    λ g. (returned tt, record g { last_sequence = pos action.sequence })

  -- the optional refresh at the end of `apply` and of `release_inputs`
  unfoldable pub refresh : String → MotorLease → Option ℕ → ℕ → Exec (MotorGate S) (Unit {0})
  unfolding bind_or_revoke refreshed_lease
  refresh reason l none now' g = (returned tt, g)
  refresh reason l (some ttl) now' g =
      (do
        bind_or_revoke b reason (refreshed_lease l now' ttl)
        λ g'. (returned tt, record g' { lease = some (refreshed_lease l now' ttl) }))
        g

  unfoldable pub apply_locked :
      String → MotorAction → Option ℕ → (now now' : ℕ) → Exec (MotorGate S) (Unit {0})
  unfolding admit perform refresh
  apply_locked lease_id action ttl now now' = do
    l ← admit lease_id action now
    perform action
    refresh "accepted-action-refresh-failed" l ttl now'

  unfoldable pub apply :
      String → MotorAction → Option Argument → (now now' : ℕ) → Exec (MotorGate S) (Unit {0})
  unfolding apply_locked optional_ttl
  apply lease_id action ttl_ms now now' g = elim (optional_ttl ttl_ms) [
    | raised e ↦ (raised e, g)
    | returned ttl ↦ apply_locked lease_id action ttl now now' g
  ]

  -- a refresh after a release also records that the lease is active
  abbrev pub mark_active : Option ℕ → Exec (MotorGate S) (Unit {0})
  mark_active none g = (returned tt, g)
  mark_active (some _) g = (returned tt, record g { revocation_reason = "active" })

  unfoldable pub release_locked : String → Option ℕ → (now now' : ℕ) → Exec (MotorGate S) (Unit {0})
  unfolding live_lease revoke_and_raise refresh
  release_locked lease_id ttl now now' = do
    l ← live_lease b "lease-expired" lease_id now
    try_except (on_backend b b.release_all) (revoke_and_raise b "input-release-failed")
    refresh "accepted-release-refresh-failed" l ttl now'
    mark_active ttl

  unfoldable pub release_inputs :
      String → Option Argument → (now now' : ℕ) → Exec (MotorGate S) (Unit {0})
  unfolding release_locked optional_ttl
  release_inputs lease_id ttl_ms now now' g = elim (optional_ttl ttl_ms) [
    | raised e ↦ (raised e, g)
    | returned ttl ↦ release_locked lease_id ttl now now' g
  ]

  unfoldable pub check_expiry : ℕ → Exec (MotorGate S) Bool
  unfolding revoke_locked expired
  check_expiry now g =
      let watchdog = (do revoke_locked b "watchdog-expired"; pure true) g in
      elim g.lease [
        | none ↦ (returned false, g)
        | some l ↦ if expired l now then watchdog else (returned false, g)
      ]

  unfoldable pub revoke : String → Exec (MotorGate S) (Unit {0})
  unfolding revoke_locked
  revoke reason = revoke_locked b reason
