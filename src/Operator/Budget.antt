-- ===== src/Operator/Budget.antt =====
-- OperatorAttempt of control/operator_budget.py. The digest is the SHA-256 of the authority's JSON:
-- `sha256_json` stands for it.
pub mod Bounds
use minecraft_ai.Prelude.{
  ℕ, ◌+◌, ◌*◌, String, Bool, true, false, Option, none, some, ◌&&◌, ◌||◌, not, leb, str_eq,
  if◌then◌else◌, List, [], ◌∷◌,
}
use minecraft_ai.Prelude.Int.{ℤ, pos, pos_part, ◌+ℤ◌, ◌-ℤ◌, ltb_ℤ, leb_ℤ}
use minecraft_ai.Outcome.{Raised, Outcome, returned, raised, other_exception}
use minecraft_ai.Operator.Message.{
  Message, Authority, authority, Status, queued, delivered, acknowledged, refused, archived,
  ExecutionBudget,
}

pub record OperatorAttempt : Type 0 where
  pub authority_sha256 : String
  pub deadline_ns : ℕ
  pub max_skills : ℕ
  pub skills_started : ℕ
  pub terminal_reason : Option String

abbrev pub is_open : Status → Bool
is_open queued = true
is_open delivered = true
is_open _ = false

-- what is left of the request's lifetime, negative once it is over
unfoldable pub remaining_ns : Message → ExecutionBudget → ℤ → ℤ
remaining_ns m budget wall_ns = m.created_ns +ℤ pos (budget.timeout_ms * 1000000) -ℤ wall_ns

module _ (sha256_json : Authority → String) where
  unfoldable pub authority_digest : Message → String
  unfolding authority
  authority_digest m = sha256_json (authority m)

  -- why a new attempt ends at once, if it does
  unfoldable pub admission_fault : Message → ExecutionBudget → ℤ → Option String
  admission_fault m budget wall_ns =
      if not (is_open m.status)
      then some "operator.attempt_owner_not_retained"
      else if ltb_ℤ wall_ns m.created_ns
      then some "operator.attempt_clock_invalid"
      else if leb_ℤ (remaining_ns m budget wall_ns) (pos 0)
      then some "operator.attempt_deadline"
      else none

  unfoldable pub admit : Message → ℤ → ℕ → Outcome OperatorAttempt
  unfolding authority_digest admission_fault
  admit m wall_ns monotonic_ns = elim m.execution_budget [
    | none ↦ raised (record { fault = other_exception "ValueError"; notes = [] })
    | some budget ↦ returned (record {
      authority_sha256 = authority_digest m;
      deadline_ns = monotonic_ns + pos_part (remaining_ns m budget wall_ns);
      max_skills = budget.max_skills;
      skills_started = 0;
      terminal_reason = admission_fault m budget wall_ns;
    })
  ]

  unfoldable pub bind : Message → OperatorAttempt → OperatorAttempt
  unfolding authority_digest
  bind m a =
      if str_eq (authority_digest m) a.authority_sha256
      then a
      else record a { terminal_reason = some "operator.attempt_authority_changed" }

-- the attempt after `check`, whose result is then its `terminal_reason`
unfoldable pub check : ℕ → OperatorAttempt → OperatorAttempt
check now_ns a = elim a.terminal_reason [
  | some _ ↦ a
  | none ↦
      if leb a.deadline_ns now_ns
      then record a { terminal_reason = some "operator.attempt_deadline" }
      else a
]

-- `start` past its `check`
abbrev begin_skill : OperatorAttempt → Option String × OperatorAttempt
begin_skill a = elim a.terminal_reason [
  | some reason ↦ (some reason, a)
  | none ↦
      if leb a.max_skills a.skills_started
      then (
        some "operator.attempt_skill_limit",
        record a { terminal_reason = some "operator.attempt_skill_limit" },
      )
      else (none, record a { skills_started = a.skills_started + 1 })
]

-- the reason of a refusal, or none if the skill may start
unfoldable pub start : ℕ → OperatorAttempt → Option String × OperatorAttempt
unfolding check
start now_ns a = begin_skill (check now_ns a)
