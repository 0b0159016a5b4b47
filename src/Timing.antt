-- ===== src/Timing.antt =====
-- InferenceRateHold of control/policy_timing.py: how long a learned key state is renewed. The
-- arithmetic of Python's floats is a parameter, and a reason is a text that `strip` has cleaned.
pub mod Horizon
pub mod Examples
use minecraft_ai.Prelude.{
  ℕ, ◌+◌, ◌*◌, Bool, true, false, String, List, [], Option, none, some, ◌&&◌, ◌||◌, not, leb, ltb,
  str_eq, if◌then◌else◌,
}
use minecraft_ai.Prelude.Int.{ℤ, pos, negsuc, pos_part, leb_ℤ}
use minecraft_ai.Outcome.{Raised, Outcome, returned, raised, other_exception, Exec}

-- what the class asks of floats
pub record FloatOps : Type 1 where
  pub Float : Type 0
  pub in_range : Float → Float → Float → Bool
  pub positive_up_to_one : Float → Bool
  pub one : Float
  pub three : Float
  -- `inference_ns / 1_000_000.0`
  pub to_ms : ℕ → Float
  -- `alpha * latency_ms + (1.0 - alpha) * ema`
  pub blend : Float → Float → Float → Float
  -- `math.ceil(ema * margin)`
  pub ceil_product : Float → Float → ℤ

-- a ValueError; its text is left out
abbrev pub value_error : Raised
value_error = record { fault = other_exception "ValueError"; notes = [] }

module _ (fl : FloatOps) where
  pub record InferenceRateHold : Type 0 where
    pub minimum_ms : ℕ
    pub maximum_ms : ℕ
    pub latency_margin : fl.Float
    pub ema_alpha : fl.Float
    pub latency_ema_ms : Option fl.Float
    pub observations : ℕ
    pub renewals : ℕ
    pub invalidations : ℕ
    pub deadline_expirations : ℕ
    pub last_invalidation_reason : Option String

  -- `__post_init__`: the hold if its settings are accepted
  unfoldable pub new_hold : ℕ → ℕ → fl.Float → fl.Float → Outcome InferenceRateHold
  new_hold minimum maximum margin alpha =
      if not (leb 50 minimum && leb minimum 250)
      then raised value_error
      else if not (leb minimum maximum && leb maximum 250)
      then raised value_error
      else if not (fl.in_range fl.one margin fl.three)
      then raised value_error
      else if not (fl.positive_up_to_one alpha)
      then raised value_error
      else returned (record {
        minimum_ms = minimum;
        maximum_ms = maximum;
        latency_margin = margin;
        ema_alpha = alpha;
        latency_ema_ms = none;
        observations = 0;
        renewals = 0;
        invalidations = 0;
        deadline_expirations = 0;
        last_invalidation_reason = none;
      })

  unfoldable pub observe : ℤ → Exec InferenceRateHold (Unit {0})
  observe (negsuc _) h = (raised value_error, h)
  observe (pos inference_ns) h =
      let latency_ms = fl.to_ms inference_ns in
      let ema : fl.Float = elim h.latency_ema_ms [
        | none ↦ latency_ms
        | some old ↦ fl.blend h.ema_alpha latency_ms old
      ] in
      (returned tt, record h { latency_ema_ms = some ema; observations = h.observations + 1 })

  -- `max(minimum, min(maximum, estimated))`
  abbrev pub clamp : ℕ → ℕ → ℤ → ℕ
  clamp minimum maximum (negsuc _) = minimum
  clamp minimum maximum (pos estimated) =
      let capped = if leb maximum estimated then maximum else estimated in
      if leb capped minimum then minimum else capped

  unfoldable pub horizon_ms : InferenceRateHold → ℕ
  horizon_ms h = elim h.latency_ema_ms [
    | none ↦ h.minimum_ms
    | some ema ↦ clamp h.minimum_ms h.maximum_ms (fl.ceil_product ema h.latency_margin)
  ]

  unfoldable pub invalidate : String → Exec InferenceRateHold (Unit {0})
  invalidate reason h = if str_eq reason "" then (raised value_error, h) else (
    returned tt,
    record h { invalidations = h.invalidations + 1; last_invalidation_reason = some reason },
  )

  abbrev pub past_deadline : Option ℕ → ℕ → Bool
  past_deadline none now = false
  past_deadline (some deadline) now = leb deadline now

  -- `min(renewed_until_ns, request_deadline_ns)`
  abbrev pub cut_to : Option ℕ → ℕ → ℕ
  cut_to none until = until
  cut_to (some deadline) until = if leb until deadline then until else deadline

  unfoldable pub renew_until_ns :
      ℕ → Bool → Option ℕ → Bool → InferenceRateHold → Option ℕ × InferenceRateHold
  unfolding horizon_ms invalidate
  renew_until_ns now prediction_pending deadline state_valid h =
      let expired = record h { deadline_expirations = h.deadline_expirations + 1 } in
      if not state_valid
      then (none, (invalidate "learned-state-invalid" h).1)
      else if not prediction_pending
      then (none, h)
      else if past_deadline deadline now
      then (none, (invalidate "request-deadline-expired" expired).1)
      else (
        some (cut_to deadline (now + horizon_ms h * 1000000)),
        record h { renewals = h.renewals + 1 },
      )
