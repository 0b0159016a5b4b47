-- ===== src/Operator/Examples.antt =====
-- One operator request at concrete times.
use minecraft_ai.Prelude.{◌≤◌, String, false, ◌≡◌, refl, List, [], ◌∷◌, All, length, none, some}
use minecraft_ai.Prelude.Int.{pos, ◌+ℤ◌, ◌-ℤ◌}
use minecraft_ai.Outcome.{returned}
use minecraft_ai.Operator.Message.{
  Message, Authority, ExecutionBudget, instruction, queued, acknowledged,
}
use minecraft_ai.Operator.Budget.{authority_digest, OperatorAttempt, admit, start, remaining_ns}
use minecraft_ai.Operator.Fence.{
  SurveySpec, SkillRun, ContextSnapshot, LiteralRequestFence, waiting, running, bind_request,
  check_request, finish,
}
use minecraft_ai.Operator.Fence.Once.{
  Event as FenceEvent, binding, finishing, bindings, bindings-le,
}
use minecraft_ai.Operator.Budget.Bounds.{Event, starting, grants, request_bounded, InLifetime}

abbrev digest_by_id : Authority → String
digest_by_id a = a.message_id

abbrev two_skills : ExecutionBudget
two_skills = record { timeout_ms = 1000; max_skills = 2 }

abbrev request : Message
request = record {
  message_id = "m-1";
  created_ns = pos 5000;
  author = "operator";
  text = "gather wood";
  kind = instruction;
  priority = 0;
  status = queued;
  delivered_ns = none;
  acknowledged_ns = none;
  response_text = none;
  direction_request_id = none;
  direction_attempt_id = none;
  execution_budget = some two_skills;
}

abbrev attempt : OperatorAttempt
attempt = record {
  authority_sha256 = "m-1";
  deadline_ns = 1000000000;
  max_skills = 2;
  skills_started = 0;
  terminal_reason = none;
}

admitted : admit digest_by_id request (pos 6000) 1000 ≡ returned attempt
unfolding admit remaining_ns ◌+ℤ◌ ◌-ℤ◌
admitted = refl

abbrev attempts : List Event
attempts = starting 2000 ∷ starting 3000 ∷ starting 4000 ∷ starting 5000 ∷ []

-- the third start is refused, and ends the attempt
grants_two : grants digest_by_id attempts attempt ≡ 2000 ∷ 3000 ∷ []
unfolding grants start
grants_two = refl

-- no start at the deadline
grants_none : grants digest_by_id (starting 1000000000 ∷ starting 2000 ∷ []) attempt ≡ []
unfolding grants start
grants_none = refl

request_bounded_example :
    (length (grants digest_by_id attempts attempt) ≤ 2)
    × All (InLifetime request two_skills (pos 6000) 1000) (grants digest_by_id attempts attempt)
request_bounded_example =
    request_bounded digest_by_id request two_skills (pos 6000) 1000 attempt attempts refl admitted

abbrev survey : SurveySpec
survey = record {
  skill_id = "survey_surroundings";
  permissions = false ∷ false ∷ false ∷ false ∷ false ∷ false ∷ false ∷ [];
  content = "{}";
}

abbrev spec_digest : SurveySpec → String
spec_digest s = s.content

abbrev survey_request : Message
survey_request = record request {
  text = "survey_surroundings";
  execution_budget = some (record { timeout_ms = 12000; max_skills = 1 });
}

abbrev fence : LiteralRequestFence
fence = record {
  started_wall_ns = pos 4000;
  state = waiting;
  reason = none;
  message_id = none;
  context_key = none;
  run_id = none;
  authority_sha256 = none;
  spec_sha256 = none;
  operator_revision = none;
  attempt = none;
}

abbrev fence_events : List FenceEvent
fence_events =
    binding survey_request survey attempt 7 "run-1"
    ∷ finishing "done"
    ∷ binding survey_request survey attempt 8 "run-2"
    ∷ []

bindings_one : bindings digest_by_id spec_digest fence_events fence ≡ 1
unfolding bind_request finish
bindings_one = refl

bindings-le_example : bindings digest_by_id spec_digest fence_events fence ≤ 1
bindings-le_example = bindings-le digest_by_id spec_digest fence_events fence

abbrev bound_fence : LiteralRequestFence
bound_fence = record fence {
  state = running;
  message_id = some "m-1";
  context_key = some "operator:m-1";
  run_id = some "run-1";
  authority_sha256 = some "m-1";
  spec_sha256 = some "{}";
  operator_revision = some 7;
  attempt = some attempt;
}

-- the bound fence is what the binding leaves
binding_leaves :
    (bind_request digest_by_id spec_digest survey_request survey attempt 7 "run-1" fence).1
    ≡ bound_fence
unfolding bind_request authority_digest
binding_leaves = refl

abbrev survey_run : SkillRun
survey_run = record {
  run_id = "run-1";
  context_key = "operator:m-1";
  skill_id = "survey_surroundings";
}

abbrev context : ContextSnapshot
context = record { revision = 7; messages = record survey_request { status = acknowledged } ∷ [] }

checked_request :
    (check_request digest_by_id spec_digest context (some survey_run) survey 2000 bound_fence).0
    ≡ none
unfolding check_request authority_digest
checked_request = refl
