-- ===== src/Safety/State.antt =====
-- The lifecycle of safety.py: SupervisorState, its transition table and `validate_transition`.
pub mod Paths
use minecraft_ai.Prelude.{Bool, true, false, List, [], ◌∷◌, ◌||◌, if◌then◌else◌}
use minecraft_ai.Outcome.{Outcome, returned, raised, Raised, other_exception}

pub data SupervisorState : Type 0 where
  stopped starting safe_idle armed running paused stopping failsafe : SupervisorState

unfoldable pub same_state : SupervisorState → SupervisorState → Bool
same_state stopped stopped = true
same_state starting starting = true
same_state safe_idle safe_idle = true
same_state armed armed = true
same_state running running = true
same_state paused paused = true
same_state stopping stopping = true
same_state failsafe failsafe = true
same_state _ _ = false

-- the table _ALLOWED_TRANSITIONS
unfoldable pub allowed_targets : SupervisorState → List SupervisorState
allowed_targets stopped = starting ∷ []
allowed_targets starting = safe_idle ∷ failsafe ∷ stopping ∷ []
allowed_targets safe_idle = armed ∷ paused ∷ stopping ∷ failsafe ∷ []
allowed_targets armed = running ∷ paused ∷ stopping ∷ failsafe ∷ []
allowed_targets running = paused ∷ stopping ∷ failsafe ∷ []
allowed_targets paused = safe_idle ∷ stopping ∷ failsafe ∷ []
allowed_targets stopping = stopped ∷ failsafe ∷ []
allowed_targets failsafe = stopped ∷ []

unfoldable pub is_target : List SupervisorState → SupervisorState → Bool
unfolding same_state
is_target [] t = false
is_target (x ∷ xs) t = same_state x t || is_target xs t

-- the text of TransitionError names the two states; here it is the class alone
unfoldable pub transition_error : Raised
transition_error = record { fault = other_exception "TransitionError"; notes = [] }

unfoldable pub validate_transition : SupervisorState → SupervisorState → Outcome (Unit {0})
unfolding allowed_targets is_target
validate_transition current target =
    if is_target (allowed_targets current) target then returned tt else raised transition_error
