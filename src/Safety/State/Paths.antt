-- ===== src/Safety/State/Paths.antt =====
-- Chains of transitions that `validate_transition` accepts.
use minecraft_ai.Prelude.{◌≡◌, refl, List, [], ◌∷◌, arith, ◌⊎◌, inl, inr, ◌≢◌}
use minecraft_ai.Outcome.{returned}
use minecraft_ai.Safety.State.{
  SupervisorState, stopped, starting, safe_idle, armed, running, paused, stopping, failsafe,
  validate_transition,
}

-- an accepted transition
abbrev pub Moves : SupervisorState → SupervisorState → Type 0
Moves s t = validate_transition s t ≡ returned tt

-- the states that a chain of accepted transitions visits after `s`, to its end
pub data Chain (s : SupervisorState) : List SupervisorState → SupervisorState → Type 0 where
  here : Chain s [] s
  next :
      {visited : List SupervisorState} {t : SupervisorState} (u : SupervisorState)
      → Chain s visited t
      → Moves t u
      → Chain s (u ∷ visited) u

-- what has been entered on the way, latest first
abbrev pub Entered : SupervisorState → List SupervisorState → Type 0
Entered s [] = ⊥
Entered s (x ∷ xs) = (x ≡ s) ⊎ Entered s xs

running_from : (t : SupervisorState) → Moves t running → t ≡ armed
unfolding validate_transition
running_from t h = ground arith

armed_from : (t : SupervisorState) → Moves t armed → t ≡ safe_idle
unfolding validate_transition
armed_from t h = ground arith

-- a chain ends in the last state that it entered
Chain-end :
    {v : List SupervisorState} {u : SupervisorState} → Chain stopped v u → u ≢ stopped → Entered u v
Chain-end here h = absurd (h refl)
Chain-end (next u c m) h = inl refl

armed_needs_idle :
    {v : List SupervisorState} {u : SupervisorState}
    → Chain stopped v u
    → u ≡ armed
    → Entered safe_idle v
armed_needs_idle here e = cc
armed_needs_idle (next {visited = v} {t = t} u c m) e =
    let from : t ≡ safe_idle = armed_from t (rw e at m) in inr (rw from at (Chain-end c (λ h. cc)))

-- A chain of accepted transitions that begins at STOPPED and ends at RUNNING has entered ARMED and
-- SAFE_IDLE on the way.
pub running_needs_arming :
    {v : List SupervisorState} → Chain stopped v running → Entered armed v × Entered safe_idle v
running_needs_arming c = go c refl
  where
    go :
        {v : List SupervisorState} {u : SupervisorState}
        → Chain stopped v u
        → u ≡ running
        → Entered armed v × Entered safe_idle v
    go here e = cc
    go (next {visited = v} {t = t} u c m) e =
        let from : t ≡ armed = running_from t (rw e at m) in
        (inr (rw from at (Chain-end c (λ h. cc))), inr (armed_needs_idle c from))

-- From every state a chain of accepted transitions leads to STOPPED, and FAILSAFE has no other way on.
pub every_state_stops :
    ((s : SupervisorState) → (v : List SupervisorState) × Chain s v stopped)
    × ((t : SupervisorState) → Moves failsafe t → t ≡ stopped)
unfolding validate_transition
every_state_stops = (ways, λ t h. ground arith)
  where
    ways : (s : SupervisorState) → (v : List SupervisorState) × Chain s v stopped
    ways stopped = ([], here)
    ways failsafe = (stopped ∷ [], next stopped here refl)
    ways stopping = (stopped ∷ [], next stopped here refl)
    ways starting = (stopped ∷ stopping ∷ [], next stopped (next stopping here refl) refl)
    ways safe_idle = (stopped ∷ stopping ∷ [], next stopped (next stopping here refl) refl)
    ways armed = (stopped ∷ stopping ∷ [], next stopped (next stopping here refl) refl)
    ways running = (stopped ∷ stopping ∷ [], next stopped (next stopping here refl) refl)
    ways paused = (stopped ∷ stopping ∷ [], next stopped (next stopping here refl) refl)
