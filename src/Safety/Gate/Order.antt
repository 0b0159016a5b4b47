-- ===== src/Safety/Gate/Order.antt =====
-- The gate over the fake backend never hands on an action twice or out of order.
use mathlib.Core.List.{append_assoc, append-nil}
use minecraft_ai.Prelude.{List, [], ◌∷◌, ◌++◌, ◌≡◌, refl, sym, ◌∙◌, ap, arith, ◌⊎◌, inl, inr, All}
use minecraft_ai.Prelude.Int.{ℤ, pos, ◌<ℤ◌}
use minecraft_ai.Outcome.{Outcome-cases}
use minecraft_ai.Safety.Lease.{MotorAction}
use minecraft_ai.Safety.Backend.{
  Fake, fake_backend, fake_bind_lease, fake_apply, fake_release_all, fake_clear_lease,
}
use minecraft_ai.Safety.Revocation.{MotorGate}
use minecraft_ai.Safety.Gate.{apply, renew, release_inputs, issue, check_expiry, revoke}
use minecraft_ai.Safety.Gate.Run.{
  Call, issuing, renewing, applying, releasing, checking, revoking, call, run,
}

-- The sequence numbers strictly increase, from above `low`.
abbrev pub Ascending : ℤ → List MotorAction → Type 0
Ascending low [] = Unit
Ascending low (a ∷ rest) = (low <ℤ pos a.sequence) × Ascending (pos a.sequence) rest

-- the last sequence number, or `low` if there is none
abbrev pub top : ℤ → List MotorAction → ℤ
top low [] = low
top low (a ∷ rest) = top (pos a.sequence) rest

Ascending-snoc :
    (low : ℤ) (rest : List MotorAction) (a : MotorAction)
    → Ascending low rest
    → top low rest <ℤ pos a.sequence
    → Ascending low (rest ++ a ∷ [])
Ascending-snoc low [] a h n = (n, tt)
Ascending-snoc low (x ∷ rest) a h n = (h.0, Ascending-snoc (pos x.sequence) rest a h.1 n)

top-snoc :
    (low : ℤ) (rest : List MotorAction) (a : MotorAction)
    → top low (rest ++ a ∷ []) ≡ pos a.sequence
top-snoc low [] a = refl
top-snoc low (x ∷ rest) a = top-snoc (pos x.sequence) rest a

-- a call that issues no lease
abbrev pub IsUse : Call → Type 0
IsUse (issuing i s t ttl al d f now) = ⊥
IsUse _ = Unit {0}

-- A call hands on nothing, or one action above the last sequence, which it then records.
abbrev Advances : MotorGate Fake → MotorGate Fake → Type 0
Advances g g' =
    ((g'.backend.actions ≡ g.backend.actions) × (g'.last_sequence ≡ g.last_sequence))
    ⊎ ((a : MotorAction) × (g'.backend.actions ≡ g.backend.actions ++ a ∷ [])
        × (g.last_sequence <ℤ pos a.sequence)
        × (g'.last_sequence ≡ pos a.sequence))

call-Advances : (c : Call) (g : MotorGate Fake) → IsUse c → Advances g (call fake_backend c g)
unfolding call issue renew apply release_inputs check_expiry revoke fake_bind_lease fake_apply
    fake_release_all fake_clear_lease
call-Advances (issuing i s t ttl al d f now) g use_only = absurd use_only
call-Advances (renewing i ttl now now') g _ = inl (ground arith)
call-Advances (applying i a ttl now now') g _ =
    elim (Outcome-cases (apply fake_backend i a ttl now now' g).0) [
      | inl (_, e) ↦ inr (a, ground arith, ground arith, ground arith)
      | inr (x, e) ↦ inl (ground arith)
    ]
call-Advances (releasing i ttl now now') g _ = inl (ground arith)
call-Advances (checking now) g _ = inl (ground arith)
call-Advances (revoking reason) g _ = inl (ground arith)

abbrev Grown : (base : List MotorAction) (low : ℤ) → MotorGate Fake → Type 0
Grown base low g =
    (new : List MotorAction) × (g.backend.actions ≡ base ++ new)
    × Ascending low new
    × (top low new ≡ g.last_sequence)

Advances-Grown :
    (base : List MotorAction) (low : ℤ) (g g' : MotorGate Fake)
    → Advances g g'
    → Grown base low g
    → Grown base low g'
Advances-Grown base low g g' (inl (same_actions, same_last)) (new, e, up, t) =
    (new, same_actions ∙ e, up, t ∙ sym same_last)
Advances-Grown base low g g' (inr (a, more, above, last)) (new, e, up, t) = (
  new ++ a ∷ [],
  more ∙ ap (λ (l : List MotorAction). l ++ a ∷ []) e ∙ append_assoc base new (a ∷ []),
  Ascending-snoc low new a up (rw t above),
  top-snoc low new a ∙ sym last,
)

run-Grown :
    (base : List MotorAction) (low : ℤ) (cs : List Call) (g : MotorGate Fake)
    → All IsUse cs
    → Grown base low g
    → Grown base low (run fake_backend cs g)
unfolding run
run-Grown base low [] g uses h = h
run-Grown base low (c ∷ cs) g uses h =
    run-Grown base low cs (call fake_backend c g) uses.1
      (Advances-Grown base low g (call fake_backend c g) (call-Advances c g uses.0) h)

-- Between two issues of a lease, whatever is called, the actions that reach the backend are those
-- that had reached it followed by actions whose sequence numbers strictly increase from above the
-- gate's last sequence: no action is replayed or taken out of order.
pub run-Ascending :
    (cs : List Call) (g : MotorGate Fake)
    → All IsUse cs
    → (new : List MotorAction) × ((run fake_backend cs g).backend.actions
        ≡ g.backend.actions ++ new)
      × Ascending g.last_sequence new
run-Ascending cs g uses =
    let (new, e, up, t) =
      run-Grown g.backend.actions g.last_sequence cs g uses ([], sym (append-nil _), tt, refl) in
    (new, e, up)
