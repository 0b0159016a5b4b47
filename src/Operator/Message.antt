-- ===== src/Operator/Message.antt =====
-- OperatorMessage of memory/social.py, with the validation of its execution budget, and the
-- authority that control/operator_budget.py digests.
use minecraft_ai.Prelude.{
  is_some, ℕ, String, Bool, true, false, Option, ◌&&◌, ◌||◌, not, leb, if◌then◌else◌,
}
use minecraft_ai.Prelude.Int.{ℤ}

pub data Kind : Type 0 where
  instruction question feedback correction : Kind

pub data Status : Type 0 where
  queued delivered acknowledged refused archived : Status

-- the limits of the two fields are those of OperatorExecutionBudget
pub record ExecutionBudget : Type 0 where
  pub timeout_ms : ℕ
  pub max_skills : ℕ

unfoldable pub budget_in_range : ExecutionBudget → Bool
budget_in_range b =
    (leb 50 b.timeout_ms && leb b.timeout_ms 300000) && (leb 1 b.max_skills && leb b.max_skills 16)

-- `priority` is a float in [0, 1], in units of 2 ^ -1074.
pub record Message : Type 0 where
  pub message_id : String
  pub created_ns : ℤ
  pub author : String
  pub text : String
  pub kind : Kind
  pub priority : ℕ
  pub status : Status
  pub delivered_ns : Option ℤ
  pub acknowledged_ns : Option ℤ
  pub response_text : Option String
  pub direction_request_id : Option String
  pub direction_attempt_id : Option String
  pub execution_budget : Option ExecutionBudget

abbrev pub is_task : Kind → Bool
is_task instruction = true
is_task correction = true
is_task question = false
is_task feedback = false

-- `validate_execution_budget`: whether the message is accepted
unfoldable pub validate_execution_budget : Message → Bool
validate_execution_budget m =
    if is_some m.execution_budget
    then is_task m.kind && not (is_some m.direction_request_id || is_some m.direction_attempt_id)
    else true

-- The content of a message without the fields that delivery changes.
pub record Authority : Type 0 where
  pub message_id : String
  pub created_ns : ℤ
  pub author : String
  pub text : String
  pub kind : Kind
  pub priority : ℕ
  pub direction_request_id : Option String
  pub direction_attempt_id : Option String
  pub execution_budget : Option ExecutionBudget

unfoldable pub authority : Message → Authority
authority m = record {
  message_id = m.message_id;
  created_ns = m.created_ns;
  author = m.author;
  text = m.text;
  kind = m.kind;
  priority = m.priority;
  direction_request_id = m.direction_request_id;
  direction_attempt_id = m.direction_attempt_id;
  execution_budget = m.execution_budget;
}
