-- ===== src/Operator/Fence/Once.antt =====
-- A request fence lets one request through, and only while it is the one that was admitted.
use minecraft_ai.Prelude.{
  ℕ, ◌+◌, ◌≤◌, ◌<◌, String, true, false, List, [], ◌∷◌, ◌≡◌, ◌⊎◌, refl, Option, none, some, arith,
  inl, inr,
}
use minecraft_ai.Prelude.Int.{ltb_ℤ}
use minecraft_ai.Outcome.{Outcome, returned, raised}
use minecraft_ai.Operator.Message.{Message, Authority}
use minecraft_ai.Operator.Budget.{OperatorAttempt, check as check_attempt}
use minecraft_ai.Operator.Fence.{
  SurveySpec, SkillRun, ContextSnapshot, LiteralRequestFence, camera_only_spec, is_queued,
  is_literal, one_bounded_survey, is_waiting, is_running, holds, admission_reason, finish,
  bind_request, same_run, same_request, matching, check_request,
}

pub data Event : Type 0 where
  binding :
      (m : Message) (spec : SurveySpec) (a : OperatorAttempt) (revision : ℕ) (run_id : String)
      → Event
  checking :
      (snapshot : ContextSnapshot) (run : Option SkillRun) (spec : SurveySpec) (now : ℕ) → Event
  finishing : (reason : String) → Event

abbrev pub one_if_returned : {A : Type 0} → Outcome A → ℕ
one_if_returned (returned _) = 1
one_if_returned (raised _) = 0

module _ (sha256_json : Authority → String) (skill_digest : SurveySpec → String) where
  -- how many bindings an event makes, and the fence after it
  abbrev pub occur : Event → LiteralRequestFence → ℕ × LiteralRequestFence
  occur (binding m spec a revision run) f =
      let (r, f') = bind_request sha256_json skill_digest m spec a revision run f in
      (one_if_returned r, f')
  occur (checking snapshot run spec now) f =
      (0, (check_request sha256_json skill_digest snapshot run spec now f).1)
  occur (finishing reason) f = (0, finish reason f)

  abbrev pub bindings : List Event → LiteralRequestFence → ℕ
  bindings [] f = 0
  bindings (e ∷ es) f = let (n, f') = occur e f in n + bindings es f'

  -- an event of a fence that has left WAITING binds nothing, and the fence does not return there
  occur_consumed :
      (e : Event) (f : LiteralRequestFence)
      → is_waiting f.state ≡ false
      → ((occur e f).0 ≡ 0) × (is_waiting (occur e f).1.state ≡ false)
  unfolding bind_request finish check_request
  occur_consumed (binding m spec a revision run) f h = ground arith
  occur_consumed (checking snapshot none spec now) f h = ground arith
  occur_consumed (checking snapshot (some run) spec now) f h = ground arith
  occur_consumed (finishing reason) f h = ground arith

  bindings_consumed :
      (es : List Event) (f : LiteralRequestFence) → is_waiting f.state ≡ false → bindings es f ≡ 0
  bindings_consumed [] f h = refl
  bindings_consumed (e ∷ es) f h =
      let (n, h') = occur_consumed e f h in omega (arith, n, bindings_consumed es (occur e f).1 h')

  -- an event binds at most once, and a fence that is bound has left WAITING
  occur_lem :
      (e : Event) (f : LiteralRequestFence)
      → ((occur e f).0 ≤ 1) × (((occur e f).0 ≡ 0) ⊎ (is_waiting (occur e f).1.state ≡ false))
  unfolding bind_request
  occur_lem (binding m spec a revision run) f = ground arith
  occur_lem (checking snapshot run spec now) f = (omega arith, inl refl)
  occur_lem (finishing reason) f = (omega arith, inl refl)

  -- However the fence is bound, checked and finished, at most one binding succeeds.
  pub bindings-le : (es : List Event) (f : LiteralRequestFence) → bindings es f ≤ 1
  bindings-le [] f = omega arith
  bindings-le (e ∷ es) f =
      let (one, left) = occur_lem e f in
      elim left [
        | inl z ↦ omega (arith, z, bindings-le es (occur e f).1)
        | inr h ↦ omega (arith, one, bindings_consumed es (occur e f).1 h)
      ]

  -- A fence is bound only by a fresh, queued, literal request for one survey of at most twelve
  -- seconds, with a camera-only skill and an attempt that has not ended.
  bind_request_lem :
      (m : Message) (spec : SurveySpec) (a : OperatorAttempt) (revision : ℕ) (run_id : String)
      (f : LiteralRequestFence)
      → (bind_request sha256_json skill_digest m spec a revision run_id f).0 ≡ returned tt
      → (is_waiting f.state ≡ true)
        × (is_queued m.status ≡ true)
        × (ltb_ℤ m.created_ns f.started_wall_ns ≡ false)
        × (is_literal m spec ≡ true)
        × (one_bounded_survey m.execution_budget ≡ true)
        × (camera_only_spec spec ≡ true)
        × (a.terminal_reason ≡ none)
  unfolding bind_request admission_reason
  bind_request_lem m spec a revision run_id f h = ground arith

  -- A check that raises no objection means that the fence is bound, that the run, the one message
  -- and the skill are those it was bound to, and that the attempt's deadline has not come.
  check_request_lem :
      (snapshot : ContextSnapshot) (run : SkillRun) (spec : SurveySpec) (now : ℕ)
      (f : LiteralRequestFence) (a : OperatorAttempt)
      → f.attempt ≡ some a
      → (check_request sha256_json skill_digest snapshot (some run) spec now f).0 ≡ none
      → (is_running f.state ≡ true)
        × (same_run f snapshot run ≡ true)
        × (same_request sha256_json skill_digest f (matching f snapshot) ≡ true)
        × (camera_only_spec spec ≡ true)
        × (holds f.spec_sha256 (skill_digest spec) ≡ true)
        × (a.terminal_reason ≡ none)
        × (now < a.deadline_ns)
  unfolding check_request check_attempt
  check_request_lem snapshot run spec now f a p h = ground (arith, p)
