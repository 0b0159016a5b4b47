-- ===== src/Safety/Lease.antt =====
-- MotorLease and MotorAction of safety.py, and the checks that they pass.
use minecraft_ai.Prelude.{
  ℕ, String, Str, Bool, true, false, List, [], ◌∷◌, ◌++◌, Option, none, some, ◌||◌, all, str_eq,
  leb, ltb, if◌then◌else◌,
}
use minecraft_ai.Prelude.Int.{ℤ, pos, negsuc}
use minecraft_ai.Outcome.{Outcome, returned, raised, rejected}

-- an argument that the annotations call `int`: Python passes any object
pub data Argument : Type 0 where
  integer : ℤ → Argument
  not_integer : Argument

abbrev pub min_motor_lease_ttl_ms : ℕ
min_motor_lease_ttl_ms = 50

abbrev pub max_motor_lease_ttl_ms : ℕ
max_motor_lease_ttl_ms = 5000

-- the accepted ttl as a number of milliseconds
unfoldable pub validate_motor_lease_ttl : Argument → Outcome ℕ
validate_motor_lease_ttl not_integer = raised (rejected "lease ttl must be an integer")
validate_motor_lease_ttl (integer (negsuc _)) = raised (rejected "lease ttl outside safety bounds")
validate_motor_lease_ttl (integer (pos ttl)) =
    if ltb ttl min_motor_lease_ttl_ms || ltb max_motor_lease_ttl_ms ttl
    then raised (rejected "lease ttl outside safety bounds")
    else returned ttl

-- A validated action; MotorAction is frozen. A cursor target is only asked for its presence here.
pub record MotorAction : Type 0 where
  pub sequence : ℕ
  pub keys_down : List Str
  pub keys_up : List Str
  pub buttons_down : List Str
  pub buttons_up : List Str
  pub mouse_dx : ℤ
  pub mouse_dy : ℤ
  pub cursor_x : Option ℕ
  pub cursor_y : Option ℕ
  pub camera_semantics : String
  pub duration_ms : ℕ

abbrev pub has_any : List Str → Bool
has_any [] = false
has_any (_ ∷ _) = true

abbrev pub is_nonzero : ℤ → Bool
is_nonzero (pos ℕ.zero) = false
is_nonzero (pos (ℕ.suc _)) = true
is_nonzero (negsuc _) = true

abbrev pub is_given : Option ℕ → Bool
is_given none = false
is_given (some _) = true

-- the set of kinds, each at most once
unfoldable pub action_kinds : MotorAction → List String
action_kinds a =
    (if has_any a.keys_down || has_any a.keys_up then "keyboard" ∷ [] else [])
    ++ ((if has_any a.buttons_down || has_any a.buttons_up then "button" ∷ [] else [])
        ++ (if is_nonzero a.mouse_dx || (is_nonzero a.mouse_dy || is_given a.cursor_x)
            then "mouse" ∷ []
            else []))

unfoldable pub mem : String → List String → Bool
mem k [] = false
mem k (x ∷ xs) = str_eq x k || mem k xs

-- `kinds.issubset(allowed)`
unfoldable pub is_subset : List String → List String → Bool
is_subset kinds allowed = all (λ k. mem k allowed) kinds

pub record MotorLease : Type 0 where
  pub lease_id : String
  pub session_id : String
  pub target_instance : String
  pub backend_id : String
  pub expires_monotonic_ns : ℕ
  pub allowed_actions : List String
  pub max_action_duration_ms : ℕ
  pub first_sequence : ℕ

unfoldable pub expired : MotorLease → ℕ → Bool
expired l now = leb l.expires_monotonic_ns now
