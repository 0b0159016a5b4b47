-- ===== src/Safety/Gate/Effects.antt =====
-- What the methods of the gate do on success, on refusal and on an error.
use minecraft_ai.Prelude.{ℕ, String, ◌≡◌, true, Option, none, arith, ◌⊎◌, inl, inr}
use minecraft_ai.Prelude.Int.{pos}
use minecraft_ai.Outcome.{Raised, Outcome, returned, raised, is_exception, Outcome-cases}
use minecraft_ai.Safety.Lease.{Argument, MotorAction, MotorLease, expired}
use minecraft_ai.Safety.Backend.{InputBackend}
use minecraft_ai.Safety.Revocation.{MotorGate, refuse}
use minecraft_ai.Safety.Gate.{screen, admit, apply, optional_ttl}
use minecraft_ai.Safety.Gate.Admission.{Permits, cleared, admit-Permits, Permits-admit}

-- What a call that began at `g` has done if it raised an Exception: no lease is left, unless nothing
-- was changed at all.
abbrev pub FailsSafe : {S A : Type 0} → MotorGate S → Outcome A × MotorGate S → Type 0
FailsSafe g (r, g') =
    (e : Raised) → r ≡ raised e → is_exception e.fault ≡ true → (g' ≡ g) ⊎ (g'.lease ≡ none)

module _ {S : Type 0} (b : InputBackend S) where
  -- A refused admission: what it leaves, and that no lease permitted the action.
  pub record Refused (g g' : MotorGate S) : Type 0 where
    pub no_lease : g'.lease ≡ none
    pub released : g'.backend ≡ cleared b g.backend
    pub sequence_kept : g'.last_sequence ≡ g.last_sequence

  pub admit-Refused :
      (lease_id : String) (action : MotorAction) (now : ℕ) (g : MotorGate S) (e : Raised)
      → (admit b lease_id action now g).0 ≡ raised e
      → Refused g (admit b lease_id action now g).1
  unfolding admit screen expired refuse
  admit-Refused lease_id action now g e h = ground arith

  pub admit-cases :
      (lease_id : String) (action : MotorAction) (now : ℕ) (g : MotorGate S)
      → ((l : MotorLease) × Permits g lease_id action now l
          × (admit b lease_id action now g ≡ (returned l, g)))
        ⊎ ((e : Raised) × Refused g (admit b lease_id action now g).1
            × ((admit b lease_id action now g).0 ≡ raised e))
  admit-cases lease_id action now g = elim (Outcome-cases (admit b lease_id action now g).0) [
    | inl (l, h) ↦
        let p = admit-Permits b lease_id action now g l h in
        inl (l, p.0, Permits-admit b lease_id action now g l p.0)
    | inr (e, h) ↦ inr (e, admit-Refused lease_id action now g e h, h)
  ]

  -- An action that `apply` accepts was permitted by the lease at the first reading of the clock, the
  -- backend took it, and its number is the last sequence.
  pub apply-Permits :
      (lease_id : String) (action : MotorAction) (ttl : Option Argument) (now now' : ℕ)
      (g : MotorGate S)
      → (apply b lease_id action ttl now now' g).0 ≡ returned tt
      → (l : MotorLease) × Permits g lease_id action now l
        × ((b.apply action g.backend).0 ≡ returned tt)
        × ((apply b lease_id action ttl now now' g).1.last_sequence ≡ pos action.sequence)
  unfolding apply
  apply-Permits lease_id action ttl now now' g h = elim (admit-cases lease_id action now g) [
    | inl (l, p, e) ↦ (l, p, ground arith, ground arith)
    | inr (e, r, q) ↦ absurd (ground arith)
  ]

  -- An action that no lease permits is never handed to the backend: with a valid ttl `apply` raises,
  -- no lease is left, and the backend has been released and cleared and nothing else.
  pub apply-refuses :
      (lease_id : String) (action : MotorAction) (ttl : Option Argument) (t : Option ℕ)
      (now now' : ℕ) (g : MotorGate S)
      → optional_ttl ttl ≡ returned t
      → ((l : MotorLease) → ¬ Permits g lease_id action now l)
      → Refused g (apply b lease_id action ttl now now' g).1
        × ((e : Raised) × ((apply b lease_id action ttl now now' g).0 ≡ raised e))
  unfolding apply
  apply-refuses lease_id action ttl t now now' g valid none_permits =
      elim (admit-cases lease_id action now g) [
        | inl (l, p, e) ↦ absurd (none_permits l p)
        | inr (e, r, q) ↦ (ground arith, (e, ground arith))
      ]
