-- ===== src/Operator/Budget/Bounds.antt =====
-- One request never starts more skills than its budget, nor any after its deadline.
use minecraft_ai.Prelude.{
  ℕ, ◌+◌, ◌*◌, ◌≤◌, ◌<◌, String, true, none, some, ◌++◌, length-append, All-append, ◌≡◌, ◌≢◌, refl,
  List, [], ◌∷◌, All, All-map, Option-cases, inl, inr, length, arith, ◌↔◌,
}
use minecraft_ai.Prelude.Int.{ℤ, pos, ◌≤ℤ◌, ◌<ℤ◌, ◌+ℤ◌, ◌-ℤ◌}
use minecraft_ai.Outcome.{returned}
use minecraft_ai.Operator.Message.{Message, Authority, ExecutionBudget}
use minecraft_ai.Operator.Budget.{OperatorAttempt, is_open, remaining_ns, admit, bind, check, start}

-- what happens to an attempt, at a time of the owner's clock
pub data Event : Type 0 where
  binding : Message → Event
  checking : ℕ → Event
  starting : ℕ → Event

-- The clocks go on alike since the admission, at `wall` and `mono`: the wall clock at `now` is not
-- past the end of the request's lifetime, which begins when it was created.
abbrev pub InLifetime : Message → ExecutionBudget → ℤ → ℕ → ℕ → Type 0
InLifetime m budget wall mono now =
    wall +ℤ pos now <ℤ m.created_ns +ℤ pos (budget.timeout_ms * 1000000) +ℤ pos mono

module _ (sha256_json : Authority → String) where
  -- the attempt after an event
  abbrev pub after : Event → OperatorAttempt → OperatorAttempt
  after (binding m) a = bind sha256_json m a
  after (checking now) a = check now a
  after (starting now) a = (start now a).1

  -- the times at which a start was granted
  abbrev pub granted : Event → OperatorAttempt → List ℕ
  granted (starting now) a = elim (start now a).0 [ none ↦ now ∷ [] | some _ ↦ [] ]
  granted _ a = []

  unfoldable pub grants : List Event → OperatorAttempt → List ℕ
  grants [] a = []
  grants (e ∷ es) a = granted e a ++ grants es (after e a)

  after_lem :
      (e : Event) (a : OperatorAttempt)
      → ((after e a).max_skills ≡ a.max_skills)
        × ((after e a).deadline_ns ≡ a.deadline_ns)
        × ((after e a).skills_started ≡ a.skills_started + length (granted e a))
        × (a.terminal_reason ≢ none → ((after e a).terminal_reason ≢ none) × (granted e a ≡ []))
        × (a.skills_started ≤ a.max_skills → (after e a).skills_started ≤ a.max_skills)
        × All (λ now. now < a.deadline_ns) (granted e a)
  unfolding bind start
  after_lem (binding m) a = ground arith
  after_lem (checking now) a = ground arith
  after_lem (starting now) a = ground arith

  grants_lem :
      (es : List Event) (a : OperatorAttempt)
      → a.skills_started ≤ a.max_skills
      → (length (grants es a) + a.skills_started ≤ a.max_skills)
        × All (λ now. now < a.deadline_ns) (grants es a)
        × (a.terminal_reason ≢ none → grants es a ≡ [])
  unfolding grants
  grants_lem [] a h = (omega arith, tt, λ _. refl)
  grants_lem (e ∷ es) a h =
      let (same_max, same_deadline, count, sticky, kept, early) = after_lem e a in
      let (few, rest_early, none_left) = grants_lem es (after e a) (rw same_max (kept h)) in
      let rest_early' : All (λ now. now < a.deadline_ns) (grants es (after e a)) =
        rw same_deadline at rest_early in
      (
        omega (arith, length-append {0} (granted e a) (grants es (after e a))),
        All-append (λ now. now < a.deadline_ns) (granted e a) (grants es (after e a)) early
            rest_early',
        λ ended. let (still, nothing) = sticky ended in rw (nothing, none_left still),
      )

  admit_lem :
      (m : Message) (budget : ExecutionBudget) (wall : ℤ) (mono : ℕ) (a : OperatorAttempt)
      → m.execution_budget ≡ some budget
      → admit sha256_json m wall mono ≡ returned a
      → (a.max_skills ≡ budget.max_skills) × (a.skills_started ≡ 0)
  unfolding admit
  admit_lem m budget wall mono a e h = ground arith

  -- an attempt that was not refused at once ends with the request's lifetime
  admit-InLifetime :
      (m : Message) (budget : ExecutionBudget) (wall : ℤ) (mono : ℕ) (a : OperatorAttempt)
      → m.execution_budget ≡ some budget
      → admit sha256_json m wall mono ≡ returned a
      → a.terminal_reason ≡ none
      → (now : ℕ) → now < a.deadline_ns
      → InLifetime m budget wall mono now
  unfolding admit remaining_ns ◌+ℤ◌ ◌-ℤ◌
  admit-InLifetime m budget wall mono a e h o now l = ground arith

  -- Whatever is bound, checked or started afterwards, in any order and at any times, an admitted
  -- request starts at most as many skills as its budget allows, and each of them before the
  -- request's timeout has passed since its creation, by a wall clock that goes on from the one read
  -- at its admission as the monotonic clock does.
  pub request_bounded :
      (m : Message) (budget : ExecutionBudget) (wall : ℤ) (mono : ℕ) (a : OperatorAttempt)
      (es : List Event)
      → m.execution_budget ≡ some budget
      → admit sha256_json m wall mono ≡ returned a
      → (length (grants es a) ≤ budget.max_skills)
        × All (InLifetime m budget wall mono) (grants es a)
  request_bounded m budget wall mono a es e h =
      let (cap, fresh) = admit_lem m budget wall mono a e h in
      let (few, early, ended) = grants_lem es a (omega arith) in
      (
        omega arith,
        elim (Option-cases a.terminal_reason) [
          | inr (why, over) ↦ rw (ended (λ o. cc (o, over))) tt
          | inl o ↦ All-map (admit-InLifetime m budget wall mono a e h o) (grants es a) early
        ],
      )

  -- An admitted request is not refused at once exactly if it is queued or delivered, was not created
  -- in the future, and its timeout since creation has not passed.
  pub admit_open :
      (m : Message) (budget : ExecutionBudget) (wall : ℤ) (mono : ℕ) (a : OperatorAttempt)
      → m.execution_budget ≡ some budget
      → admit sha256_json m wall mono ≡ returned a
      → (a.terminal_reason ≡ none) ↔ (
          (is_open m.status ≡ true)
          × (m.created_ns ≤ℤ wall)
          × (wall <ℤ m.created_ns +ℤ pos (budget.timeout_ms * 1000000)))
  unfolding admit remaining_ns ◌+ℤ◌ ◌-ℤ◌
  admit_open m budget wall mono a e h = ground arith
