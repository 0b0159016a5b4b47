-- ===== src/Outcome.antt =====
-- Methods that change an object and may raise: the errors of safety.py and a monad for them.
-- What was written before a raise stays written, so the state comes back beside the error too.
use minecraft_ai.Prelude.{String, Bool, true, false, List, [], ◌∷◌, ◌++◌, ◌≡◌, refl, ◌⊎◌, inl, inr}

-- The exceptions that reach the gate. `interrupt` is any BaseException that is no Exception, such
-- as KeyboardInterrupt: an `except Exception` clause does not catch it.
pub data Fault : Type 0 where
  motor_rejected : String → Fault
  input_route_unavailable : String → Fault
  other_exception : String → Fault
  interrupt : String → Fault

-- `isinstance(exc, Exception)`
abbrev pub is_exception : Fault → Bool
is_exception (interrupt _) = false
is_exception (motor_rejected _) = true
is_exception (input_route_unavailable _) = true
is_exception (other_exception _) = true

-- `type(exc).__name__`; the class of a foreign exception is the text that it carries
abbrev pub class_name : Fault → String
class_name (motor_rejected _) = "MotorRejected"
class_name (input_route_unavailable _) = "InputRouteUnavailable"
class_name (other_exception name) = name
class_name (interrupt name) = name

pub record Raised : Type 0 where
  pub fault : Fault
  pub notes : List (String × String)

abbrev pub rejected : String → Raised
rejected message = record { fault = motor_rejected message; notes = [] }

-- `error.add_note(f"{text}: {type(cause).__name__}")`
abbrev pub add_note : Raised → String → Fault → Raised
add_note e text cause = record e { notes = e.notes ++ (text, class_name cause) ∷ [] }

pub data Outcome {ℓ} (A : Type ℓ) : Type ℓ where
  returned : A → Outcome A
  raised : Raised → Outcome A

abbrev pub Exec {ℓ} : Type ℓ → Type ℓ → Type ℓ
Exec S A = S → Outcome A × S

module _ {ℓ} {S A : Type ℓ} where
  abbrev pub pure : A → Exec S A
  pure a s = (returned a, s)

  abbrev pub raise : Raised → Exec S A
  raise e s = (raised e, s)

  -- the handler of `except Exception as exc`; any other exception passes by
  abbrev pub handle : (Raised → Exec S A) → Outcome A → S → Outcome A × S
  handle handler (returned a) s = (returned a, s)
  handle handler (raised e) s = elim (is_exception e.fault) [
    | true ↦ handler e s
    | false ↦ (raised e, s)
  ]

  abbrev pub try_except : Exec S A → (Raised → Exec S A) → Exec S A
  try_except body handler s = let (r, s') = body s in handle handler r s'

module _ {ℓ} {S A B : Type ℓ} where
  abbrev pub continue : (A → Exec S B) → Outcome A → S → Outcome B × S
  continue f (returned a) s = f a s
  continue f (raised e) s = (raised e, s)

  infixl 5 ◌>>=◌ ◌>>◌
  abbrev pub ◌>>=◌ : Exec S A → (A → Exec S B) → Exec S B
  ◌>>=◌ m f s = let (r, s') = m s in continue f r s'

  abbrev pub ◌>>◌ : Exec S A → Exec S B → Exec S B
  m >> n = m >>= λ _. n

-- To split on how a call ended and keep the equation.
pub Outcome-cases {ℓ} :
    {A : Type ℓ} (r : Outcome A) → ((a : A) × (r ≡ returned a)) ⊎ ((e : Raised) × (r ≡ raised e))
Outcome-cases (returned a) = inl (a, refl)
Outcome-cases (raised e) = inr (e, refl)

-- Inversion of a successful bind.
pub continue-returned {ℓ} :
    {S A B : Type ℓ} (k : A → Exec S B) (r : Outcome A) (s : S) {b : B}
    → (continue k r s).0 ≡ returned b
    → (a : A) × (r ≡ returned a) × ((k a s).0 ≡ returned b)
continue-returned k (returned a) s h = (a, refl, h)
continue-returned k (raised e) s h = cc
