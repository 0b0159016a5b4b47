-- ===== src/Timing/Examples.antt =====
-- A hold whose latencies are whole milliseconds.
use minecraft_ai.Prelude.{
  Option, ℕ, ◌+◌, ◌*◌, ◌/◌, ◌≤◌, true, List, [], ◌∷◌, ◌≡◌, refl, ◌⊎◌, ◌<◌, false, some, none, leb,
  ◌&&◌,
}
use minecraft_ai.Prelude.Int.{pos}
use minecraft_ai.Timing.{
  FloatOps, InferenceRateHold, new_hold, observe, horizon_ms, renew_until_ns, invalidate,
  past_deadline,
}
use minecraft_ai.Timing.Horizon.{
  Use, observing, invalidating, renewing, uses, deadline_or, uses-renew_until_ns,
}

abbrev whole : FloatOps
whole = record {
  Float = ℕ;
  in_range = λ low x high. leb low x && leb x high;
  positive_up_to_one = leb 1;
  one = 1;
  three = 3;
  to_ms = λ ns. ns / 1000000;
  blend = λ alpha x ema. (x + 3 * ema) / 4;
  ceil_product = λ ema margin. pos (ema * margin);
}

abbrev hold : InferenceRateHold whole
hold = record {
  minimum_ms = 50;
  maximum_ms = 250;
  latency_margin = 2;
  ema_alpha = 1;
  latency_ema_ms = none;
  observations = 0;
  renewals = 0;
  invalidations = 0;
  deadline_expirations = 0;
  last_invalidation_reason = none;
}

abbrev day : List (Use whole)
day =
    observing (pos 80000000)
    ∷ renewing 1000 true none true
    ∷ invalidating "scene"
    ∷ observing (pos 120000000)
    ∷ []

-- 80 ms, and then a quarter of the way to 120 ms, twice
day_horizon : horizon_ms whole (uses whole day hold) ≡ 180
unfolding horizon_ms observe renew_until_ns invalidate
day_horizon = refl

uses-renew_until_ns_example :
    (true ≡ true)
    × (true ≡ true)
    × (past_deadline whole (some 30001000) 1000 ≡ false)
    × (1000 < 30001000)
    × (30001000 ≤ 1000 + 250 * 1000000)
    × (30001000 ≤ deadline_or whole 30001000 (some 30001000))
    × ((1000 + 50 * 1000000 ≤ 30001000) ⊎ (◌≡◌ {A = Option ℕ} (some 30001000) (some 30001000)))
unfolding new_hold renew_until_ns horizon_ms observe invalidate
uses-renew_until_ns_example =
    uses-renew_until_ns whole 50 250 2 1 hold day 1000 true (some 30001000) true 30001000 refl refl
