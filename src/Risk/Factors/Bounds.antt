-- ===== src/Risk/Factors/Bounds.antt =====
-- The size factors only reduce, and the drift and expiry rules pass in the stated cases only.
use stock_brain.Prelude.{
  ℕ, ◌<◌, ◌≡◌, refl, ◌↔◌, inl, inr, true, false, Option, none, some, arith, Option-cases,
}
use stock_brain.Decimal.{Decimal, whole, zero_dec, min_dec, max_dec}
use stock_brain.Decimal.Order.{◌≤D◌, ◌<D◌}
use stock_brain.Decimal.Laws.{one_dec}
use stock_brain.Decimal.Extremes.{min_bounds, max_bounds, le-min}
use stock_brain.Enums.{RuleOutcome}
use stock_brain.Risk.Config.{RiskConfig}
use stock_brain.Risk.Models.{CalibrationBucket, FxSnapshot, usable}
use stock_brain.Risk.Factors.{
  confidence_factor, calibration_factor, drift, reference_price_drift, fx_rate_drift, rate_verdict,
  proposal_ttl,
}

-- A number clamped from a floor to one.
clamp_between :
    (floor f : Decimal)
    → floor ≤D one_dec
    → (floor ≤D min_dec (whole 1) (max_dec floor f))
      × (min_dec (whole 1) (max_dec floor f) ≤D one_dec)
clamp_between floor f h = (
  le-min floor (whole 1) (max_dec floor f) h (max_bounds floor f).0,
  (min_bounds (whole 1) (max_dec floor f)).0,
)

-- Confidence scales a size by a factor from the configured floor to one, whatever the confidence is,
-- when the floor is at most one.
pub confidence_factor_bounds :
    (config : RiskConfig) (confidence : Decimal)
    → config.min_confidence_size_factor ≤D one_dec
    → (config.min_confidence_size_factor ≤D confidence_factor config confidence)
      × (confidence_factor config confidence ≤D one_dec)
unfolding confidence_factor
confidence_factor_bounds config confidence h = clamp_between config.min_confidence_size_factor _ h

-- Calibration scales a size by a factor from the configured floor to one, whatever the hit rate is,
-- when the floor is at most one.
pub calibration_factor_bounds :
    (config : RiskConfig) (bucket : CalibrationBucket)
    → config.min_calibration_size_factor ≤D one_dec
    → (config.min_calibration_size_factor ≤D calibration_factor config bucket)
      × (calibration_factor config bucket ≤D one_dec)
unfolding calibration_factor
calibration_factor_bounds config bucket h = clamp_between config.min_calibration_size_factor _ h

-- The price rule passes exactly when there is a current price, the reference price is positive, and
-- the price has moved by at most the configured fraction; it blocks otherwise.
pub reference_price_drift_pass :
    (reference_price : Decimal) (current : Option Decimal) (max_drift_pct : Decimal)
    → ((reference_price_drift reference_price current max_drift_pct).outcome ≡ RuleOutcome.pass) ↔ (
        (price : Decimal) × (current ≡ some price)
        × (zero_dec <D reference_price)
        × (drift price reference_price ≤D max_drift_pct))
unfolding reference_price_drift
reference_price_drift_pass reference_price none max_drift_pct = ground arith
reference_price_drift_pass reference_price (some price) max_drift_pct = (
  λ h. (price, refl, ground (arith, h), ground (arith, h)),
  λ (p, e, positive, near). ground (arith, e, positive, near),
)

-- The rate rule blocks exactly when a positive rate was authorized for two currencies and the current
-- snapshot has no rate, may not be used, or holds a rate that moved by more than the fraction.
pub fx_rate_drift_block :
    (authorized : Decimal) (current : FxSnapshot) (max_drift_pct : Decimal)
    → ((fx_rate_drift (some authorized) (some current) max_drift_pct).outcome ≡ RuleOutcome.block)
      ↔ ((current.same_currency ≡ false)
          × (zero_dec <D authorized)
          × ((rate : Decimal)
              → current.rate ≡ some rate
              → usable current ≡ true
              → max_drift_pct <D drift rate authorized))
unfolding fx_rate_drift rate_verdict
fx_rate_drift_block authorized current max_drift_pct = elim (Option-cases current.rate) [
  | inl absent ↦ ground (arith, absent)
  | inr (r, e) ↦ (
    λ h. (ground (arith, h, e), ground (arith, h, e), λ rate f u. ground (arith, h, e, f, u)),
    λ (other, positive, far). let now = far r e in ground (arith, other, positive, e, now),
  )
]

-- A proposal has expired at its very instant of expiry.
pub proposal_ttl_pass :
    (expires_at now : ℕ)
    → ((proposal_ttl expires_at now).outcome ≡ RuleOutcome.pass) ↔ (now < expires_at)
unfolding proposal_ttl
proposal_ttl_pass expires_at now = ground arith
