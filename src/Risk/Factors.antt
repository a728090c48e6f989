-- ===== src/Risk/Factors.antt =====
-- The reductions of backend/stockbrain/risk/rules.py, and the drift and expiry rules.
pub mod Bounds
use stock_brain.Prelude.{
  ℕ, not, ◌||◌, List, [], ◌∷◌, Option, none, some, if◌then◌else◌, ltb, leb, String, str_eq,
}
use stock_brain.Decimal.{
  Decimal, zero_dec, whole, places, leb_dec, ltb_dec, add_dec, sub_dec, mul_dec, div_dec, abs_dec,
  min_dec, max_dec,
}
use stock_brain.Enums.{RuleOutcome}
use stock_brain.Risk.Config.{RiskConfig, is_conviction}
use stock_brain.Risk.Models.{RiskInputs, RuleResult, CalibrationBucket, FxSnapshot, usable}
use stock_brain.Risk.Gates.{verdict, pass_if, skipped}
use stock_brain.Risk.Caps.{NotionalCap, least_limit}

-- `next((cap.limit for cap in caps if cap.rule_id == "conviction_target"), None)`
unfoldable pub find_target : List NotionalCap → Option Decimal
find_target [] = none
find_target (cap ∷ rest) =
    let later = find_target rest in
    if str_eq cap.rule_id "conviction_target" then some cap.limit else later

-- `target_fill_rule`
unfoldable pub target_fill_rule : List NotionalCap → RiskConfig → Option RuleResult
target_fill_rule caps config =
    if not (is_conviction config) then none else elim (find_target caps) [
      | none ↦ none
      | some target ↦
          let needed = mul_dec target config.min_fill_fraction in
          if leb_dec target zero_dec
          then none
          else some (verdict "target_fill" 1 (pass_if (leb_dec needed (least_limit caps))))
    ]

-- A rule that scales the size, and reduces it below a factor of one.
abbrev pub scaling : String → Decimal → RuleResult
scaling rule_id factor = record {
  rule_id = rule_id;
  rule_version = 1;
  outcome = if ltb_dec factor (whole 1) then RuleOutcome.reduce else RuleOutcome.pass;
  max_notional = none;
  size_factor = some factor;
}

-- The factor of a confidence, between the configured one and one.
unfoldable pub confidence_factor : RiskConfig → Decimal → Decimal
confidence_factor config confidence =
    let floor = config.min_research_confidence in
    let factor_floor = config.min_confidence_size_factor in
    let span = sub_dec (whole 1) floor in
    let progress = div_dec (sub_dec confidence floor) span in
    let linear = add_dec factor_floor (mul_dec (sub_dec (whole 1) factor_floor) progress) in
    let factor = if leb_dec span zero_dec then whole 1 else linear in
    min_dec (whole 1) (max_dec factor_floor factor)

-- `confidence_size_factor`
unfoldable pub confidence_size_factor : RiskInputs → Option RuleResult
confidence_size_factor inputs =
    if not inputs.config.confidence_modulates_size || is_conviction inputs.config
    then none
    else some
        (scaling "confidence_size_modulation" (confidence_factor inputs.config inputs.confidence))

unfoldable pub calibration_factor : RiskConfig → CalibrationBucket → Decimal
calibration_factor config bucket =
    min_dec (whole 1)
      (max_dec config.min_calibration_size_factor (add_dec (places 5 1) bucket.hit_rate))

-- `calibration_size_factor`
unfoldable pub calibration_size_factor : RiskInputs → Option RuleResult
calibration_size_factor inputs = elim inputs.calibration [
  | none ↦ none
  | some bucket ↦
      if not inputs.config.calibration_modulates_size
      then none
      else if ltb bucket.samples inputs.config.calibration_min_samples
      then some (skipped "calibration_size_modulation" 1)
      else some (scaling "calibration_size_modulation" (calibration_factor inputs.config bucket))
]

-- How far a value has moved from the one it is compared with, as a fraction of that.
unfoldable pub drift : Decimal → Decimal → Decimal
drift current reference = div_dec (abs_dec (sub_dec current reference)) reference

-- `reference_price_drift`
unfoldable pub reference_price_drift : Decimal → Option Decimal → Decimal → RuleResult
reference_price_drift reference_price none max_drift_pct =
    verdict "reference_price_drift" 1 RuleOutcome.block
reference_price_drift reference_price (some current) max_drift_pct =
    if leb_dec reference_price zero_dec
    then verdict "reference_price_drift" 1 RuleOutcome.block
    else verdict "reference_price_drift" 1
        (pass_if (leb_dec (drift current reference_price) max_drift_pct))

-- The comparison of two rates, where one was authorized.
unfoldable pub rate_verdict : Decimal → FxSnapshot → Decimal → RuleResult
rate_verdict authorized current max_drift_pct = elim current.rate [
  | none ↦ verdict "fx_rate_drift" 1 RuleOutcome.block
  | some rate ↦
      if not (usable current)
      then verdict "fx_rate_drift" 1 RuleOutcome.block
      else verdict "fx_rate_drift" 1 (pass_if (leb_dec (drift rate authorized) max_drift_pct))
]

-- `fx_rate_drift`
unfoldable pub fx_rate_drift : Option Decimal → Option FxSnapshot → Decimal → RuleResult
fx_rate_drift authorized none max_drift_pct = verdict "fx_rate_drift" 1 RuleOutcome.pass
fx_rate_drift none (some current) max_drift_pct =
    if current.same_currency
    then verdict "fx_rate_drift" 1 RuleOutcome.pass
    else verdict "fx_rate_drift" 1 RuleOutcome.warn
fx_rate_drift (some authorized) (some current) max_drift_pct =
    if current.same_currency
    then verdict "fx_rate_drift" 1 RuleOutcome.pass
    else if leb_dec authorized zero_dec
    then verdict "fx_rate_drift" 1 RuleOutcome.warn
    else rate_verdict authorized current max_drift_pct

-- `proposal_ttl`
unfoldable pub proposal_ttl : ℕ → ℕ → RuleResult
proposal_ttl expires_at now = verdict "proposal_ttl" 1 (pass_if (not (leb expires_at now)))
