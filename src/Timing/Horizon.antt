-- ===== src/Timing/Horizon.antt =====
-- The bounds of a renewal, whatever latencies were observed.
use minecraft_ai.Prelude.{
  ℕ, ◌+◌, ◌*◌, ◌≤◌, ◌<◌, Bool, true, false, String, List, [], ◌∷◌, ◌≡◌, ◌⊎◌, Option, none, some,
  leb, ◌&&◌, arith, inl, inr, Option-cases,
}
use minecraft_ai.Prelude.Int.{ℤ, pos, negsuc}
use minecraft_ai.Outcome.{returned}
use minecraft_ai.Timing.{
  FloatOps, InferenceRateHold, new_hold, observe, clamp, horizon_ms, invalidate, renew_until_ns,
  past_deadline,
}

module _ (fl : FloatOps) where
  pub data Use : Type 0 where
    observing : (inference_ns : ℤ) → Use
    invalidating : (reason : String) → Use
    renewing : (now : ℕ) (pending : Bool) (deadline : Option ℕ) (valid : Bool) → Use

  abbrev pub use_hold : Use → InferenceRateHold fl → InferenceRateHold fl
  use_hold (observing ns) h = (observe fl ns h).1
  use_hold (invalidating reason) h = (invalidate fl reason h).1
  use_hold (renewing now pending deadline valid) h =
      (renew_until_ns fl now pending deadline valid h).1

  abbrev pub uses : List Use → InferenceRateHold fl → InferenceRateHold fl
  uses [] h = h
  uses (u ∷ us) h = uses us (use_hold u h)

  abbrev pub in_bounds : InferenceRateHold fl → Bool
  in_bounds h = leb 50 h.minimum_ms && (leb h.minimum_ms h.maximum_ms && leb h.maximum_ms 250)

  use_hold-in_bounds :
      (u : Use) (h : InferenceRateHold fl) → in_bounds h ≡ true → in_bounds (use_hold u h) ≡ true
  unfolding observe invalidate renew_until_ns
  use_hold-in_bounds (observing (pos ns)) h b = ground arith
  use_hold-in_bounds (observing (negsuc ns)) h b = ground arith
  use_hold-in_bounds (invalidating reason) h b = ground arith
  use_hold-in_bounds (renewing now pending deadline valid) h b = ground arith

  uses-in_bounds :
      (us : List Use) (h : InferenceRateHold fl) → in_bounds h ≡ true → in_bounds (uses us h) ≡ true
  uses-in_bounds [] h b = b
  uses-in_bounds (u ∷ us) h b = uses-in_bounds us (use_hold u h) (use_hold-in_bounds u h b)

  clamp_lem :
      (low high : ℕ) (e : ℤ)
      → low ≤ high
      → (low ≤ clamp fl low high e) × (clamp fl low high e ≤ high)
  clamp_lem low high (pos e) h = ground arith
  clamp_lem low high (negsuc e) h = ground arith

  horizon_ms-in_bounds :
      (h : InferenceRateHold fl)
      → in_bounds h ≡ true
      → (50 ≤ horizon_ms fl h) × (horizon_ms fl h ≤ 250)
  unfolding horizon_ms
  horizon_ms-in_bounds h b = elim (Option-cases h.latency_ema_ms) [
    | inl p ↦ ground (arith, p)
    | inr (ema, p) ↦
        ground
          (arith, p, clamp_lem h.minimum_ms h.maximum_ms (fl.ceil_product ema h.latency_margin))
  ]

  -- the deadline, or a bound that says nothing
  abbrev pub deadline_or : ℕ → Option ℕ → ℕ
  deadline_or otherwise none = otherwise
  deadline_or otherwise (some deadline) = deadline

  renew_until_ns_lem :
      (now : ℕ) (pending : Bool) (deadline : Option ℕ) (valid : Bool) (h : InferenceRateHold fl)
      (until : ℕ)
      → in_bounds h ≡ true
      → (renew_until_ns fl now pending deadline valid h).0 ≡ some until
      → (valid ≡ true)
        × (pending ≡ true)
        × (past_deadline fl deadline now ≡ false)
        × (now < until)
        × (until ≤ now + 250 * 1000000)
        × (until ≤ deadline_or until deadline)
        × ((now + 50 * 1000000 ≤ until) ⊎ (deadline ≡ some until))
  unfolding renew_until_ns
  renew_until_ns_lem now pending none valid h until b e = ground (arith, horizon_ms-in_bounds h b)
  renew_until_ns_lem now pending (some d) valid h until b e =
      ground (arith, horizon_ms-in_bounds h b)

  -- Whatever was done with an accepted hold, a renewal is given only for a valid state with a
  -- prediction pending, before the request's deadline; it ends after `now`, at most 250 milliseconds
  -- later, not past the deadline, and at least 50 milliseconds later unless the deadline cuts it.
  pub uses-renew_until_ns :
      (minimum maximum : ℕ) (margin alpha : fl.Float) (h : InferenceRateHold fl) (us : List Use)
      (now : ℕ) (pending : Bool) (deadline : Option ℕ) (valid : Bool) (until : ℕ)
      → new_hold fl minimum maximum margin alpha ≡ returned h
      → (renew_until_ns fl now pending deadline valid (uses us h)).0 ≡ some until
      → (valid ≡ true)
        × (pending ≡ true)
        × (past_deadline fl deadline now ≡ false)
        × (now < until)
        × (until ≤ now + 250 * 1000000)
        × (until ≤ deadline_or until deadline)
        × ((now + 50 * 1000000 ≤ until) ⊎ (deadline ≡ some until))
  unfolding new_hold
  uses-renew_until_ns minimum maximum margin alpha h us now pending deadline valid until e f =
      renew_until_ns_lem now pending deadline valid (uses us h) until
        (uses-in_bounds us h (ground (arith, e))) f
