-- ===== src/Safety/Gate/Neutral.antt =====
-- The gate over the fake backend: without a lease no input is held.
use minecraft_ai.Prelude.{List, [], ◌≡◌, none, some, arith}
use minecraft_ai.Safety.Lease.{MotorLease}
use minecraft_ai.Safety.Backend.{
  Fake, new_fake, fake_backend, fake_bind_lease, fake_apply, fake_release_all, fake_clear_lease,
}
use minecraft_ai.Safety.Revocation.{MotorGate, new_gate}
use minecraft_ai.Safety.Gate.{apply, renew, release_inputs, issue, check_expiry, revoke}
use minecraft_ai.Safety.Gate.Run.{
  Call, issuing, renewing, applying, releasing, checking, revoking, call, run, run_induction,
}

-- The backend holds input only under the lease that the gate publishes.
pub record IsNeutral (g : MotorGate Fake) : Type 0 where
  pub keys : g.lease ≡ none → g.backend.held_keys ≡ []
  pub buttons : g.lease ≡ none → g.backend.held_buttons ≡ []
  pub unbound : g.lease ≡ none → g.backend.lease_id ≡ none
  pub bound : (l : MotorLease) → g.lease ≡ some l → g.backend.lease_id ≡ some l.lease_id

call-IsNeutral : (c : Call) (g : MotorGate Fake) → IsNeutral g → IsNeutral (call fake_backend c g)
unfolding call issue renew apply release_inputs check_expiry revoke fake_bind_lease fake_apply
    fake_release_all fake_clear_lease
call-IsNeutral (issuing i s t ttl al d f now) g h = ground arith
call-IsNeutral (renewing i ttl now now') g h = ground arith
call-IsNeutral (applying i a ttl now now') g h = ground arith
call-IsNeutral (releasing i ttl now now') g h = ground arith
call-IsNeutral (checking now) g h = ground arith
call-IsNeutral (revoking reason) g h = ground arith

-- After any calls on a new gate, failed ones included, held keys and buttons imply a published
-- lease, and the backend is bound to exactly the lease that the gate publishes.
pub run-IsNeutral : (cs : List Call) → IsNeutral (run fake_backend cs (new_gate new_fake))
run-IsNeutral cs =
    run_induction fake_backend IsNeutral call-IsNeutral cs (new_gate new_fake) (ground arith)
