-- ===== src/Operator/Fence.antt =====
-- LiteralRequestFence of control/request_only.py: one literal survey request, admitted once. The
-- SHA-256 of a message's authority and of a skill's JSON are parameters.
pub mod Once
use Prim.Native.String.{◌++◌ as concat}
use minecraft_ai.Prelude.{
  is_some, ℕ, ◌++◌, String, Bool, true, false, List, [], ◌∷◌, ◌≡◌, refl, Option, none, some, ◌&&◌,
  ◌||◌, not, ltb, leb, all, select, length, str_eq, ◌==◌, if◌then◌else◌,
}
use minecraft_ai.Prelude.Int.{ℤ, ltb_ℤ}
use minecraft_ai.Outcome.{Raised, Outcome, returned, raised, other_exception, Exec}
use minecraft_ai.Operator.Message.{
  Message, Authority, Status, queued, acknowledged, is_task, ExecutionBudget,
}
use minecraft_ai.Operator.Budget.{OperatorAttempt, authority_digest, check as check_attempt}

-- a SkillSpec: its id, the values of its action permissions, and its JSON
pub record SurveySpec : Type 0 where
  pub skill_id : String
  pub permissions : List Bool
  pub content : String

-- the fields of a SkillRun that the fence reads
pub record SkillRun : Type 0 where
  pub run_id : String
  pub context_key : String
  pub skill_id : String

pub record ContextSnapshot : Type 0 where
  pub revision : ℕ
  pub messages : List Message

pub data FenceState : Type 0 where
  waiting running terminal : FenceState

-- the configured skill has one value, and the waiting deadline is not read here
pub record LiteralRequestFence : Type 0 where
  pub started_wall_ns : ℤ
  pub state : FenceState
  pub reason : Option String
  pub message_id : Option String
  pub context_key : Option String
  pub run_id : Option String
  pub authority_sha256 : Option String
  pub spec_sha256 : Option String
  pub operator_revision : Option ℕ
  pub attempt : Option OperatorAttempt

-- `config.skill_id`, which has one value
abbrev pub survey_surroundings : String
survey_surroundings = "survey_surroundings"

unfoldable pub camera_only_spec : SurveySpec → Bool
camera_only_spec spec = length spec.permissions == 7 && all not spec.permissions

abbrev pub is_queued : Status → Bool
is_queued queued = true
is_queued _ = false

abbrev pub is_acknowledged : Status → Bool
is_acknowledged acknowledged = true
is_acknowledged _ = false

-- `held == value` for a field that may be None
abbrev pub holds : Option String → String → Bool
holds none value = false
holds (some held) value = str_eq held value

abbrev pub holds_revision : Option ℕ → ℕ → Bool
holds_revision none value = false
holds_revision (some held) value = held == value

-- one skill, within twelve seconds
abbrev pub one_bounded_survey : Option ExecutionBudget → Bool
one_bounded_survey none = false
one_bounded_survey (some budget) = budget.max_skills == 1 && leb budget.timeout_ms 12000

abbrev pub is_literal : Message → SurveySpec → Bool
is_literal m spec =
    is_task m.kind
    && (not (is_some m.direction_request_id)
        && (not (is_some m.direction_attempt_id)
            && (str_eq m.text survey_surroundings && str_eq spec.skill_id survey_surroundings)))

abbrev pub is_waiting : FenceState → Bool
is_waiting waiting = true
is_waiting _ = false

abbrev pub is_running : FenceState → Bool
is_running running = true
is_running _ = false

abbrev pub is_terminal : FenceState → Bool
is_terminal terminal = true
is_terminal _ = false

unfoldable pub admission_reason : LiteralRequestFence → Message → SurveySpec → Option String
unfolding camera_only_spec
admission_reason f m spec =
    if not (is_waiting f.state)
    then some "owner_already_consumed"
    else if not (is_queued m.status) || ltb_ℤ m.created_ns f.started_wall_ns
    then some "request_not_fresh"
    else if not (is_literal m spec)
    then some "literal_request_required"
    else if not (one_bounded_survey m.execution_budget)
    then some "one_bounded_survey_required"
    else if not (camera_only_spec spec)
    then some "camera_permissions_changed"
    else none

-- an expiry, refusal or completed survey never turns the fence off
unfoldable pub finish : String → LiteralRequestFence → LiteralRequestFence
finish why f = if is_terminal f.state then f else record f { state = terminal; reason = some why }

-- the snapshot and the run are still those that the fence is bound to
abbrev pub same_run : LiteralRequestFence → ContextSnapshot → SkillRun → Bool
same_run f snapshot run =
    holds_revision f.operator_revision snapshot.revision
    && (holds f.run_id run.run_id
        && (holds f.context_key run.context_key && str_eq run.skill_id survey_surroundings))

unfoldable pub matching : LiteralRequestFence → ContextSnapshot → List Message
matching f snapshot = select (λ m. holds f.message_id m.message_id) snapshot.messages

module _ (sha256_json : Authority → String) (skill_digest : SurveySpec → String) where
  -- the fence once the request is its own
  abbrev pub bound_to :
      Message
      → SurveySpec
      → OperatorAttempt
      → ℕ
      → String
      → LiteralRequestFence
      → LiteralRequestFence
  bound_to m spec a revision run f = record f {
    message_id = some m.message_id;
    context_key = some (concat "operator:" m.message_id);
    run_id = some run;
    authority_sha256 = some (authority_digest sha256_json m);
    spec_sha256 = some (skill_digest spec);
    operator_revision = some revision;
    attempt = some a;
    state = running;
  }

  unfoldable pub bind_request :
      Message → SurveySpec → OperatorAttempt → ℕ → String → Exec LiteralRequestFence (Unit {0})
  unfolding admission_reason
  bind_request m spec a revision run f =
      if is_some (admission_reason f m spec) || is_some a.terminal_reason
      then (raised (record { fault = other_exception "ValueError"; notes = [] }), f)
      else (returned tt, bound_to m spec a revision run f)

  -- exactly one message has the request's identity, and it still has its authority
  abbrev pub same_request : LiteralRequestFence → List Message → Bool
  same_request f [] = false
  same_request f (m ∷ []) =
      is_acknowledged m.status && holds f.authority_sha256 (authority_digest sha256_json m)
  same_request f (m ∷ n ∷ ms) = false

  -- why the fence does not let the run go on, and the fence, whose attempt may end
  unfoldable pub check_request :
      ContextSnapshot
      → Option SkillRun
      → SurveySpec
      → ℕ
      → LiteralRequestFence
      → Option String × LiteralRequestFence
  unfolding camera_only_spec matching check_attempt
  check_request snapshot none spec now f =
      if is_running f.state && is_some f.attempt
      then (some "request_authority_changed", f)
      else (some "request_not_running", f)
  check_request snapshot (some run) spec now f = elim f.attempt [
    | none ↦ (some "request_not_running", f)
    | some a ↦
        let a' = check_attempt now a in
        if not (is_running f.state)
        then (some "request_not_running", f)
        else if not (same_run f snapshot run)
        then (some "request_authority_changed", f)
        else if not (same_request f (matching f snapshot))
        then (some "request_authority_changed", f)
        else if not (camera_only_spec spec) || not (holds f.spec_sha256 (skill_digest spec))
        then (some "camera_permissions_changed", f)
        else (a'.terminal_reason, record f { attempt = some a' })
  ]
