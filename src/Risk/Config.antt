-- ===== src/Risk/Config.antt =====
-- backend/stockbrain/risk/config.py: the limits. The hash of the configuration is not modelled; the
-- version that it gives is a field.
use stock_brain.Prelude.{ℕ, Bool, true, false, List, [], ◌∷◌, Text, codes, text_eq}
use stock_brain.Decimal.{Decimal, whole, places}
use stock_brain.Enums.{MarketSession, TimeHorizon}

-- `RiskConfig`
pub record RiskConfig : Type 0 where
  pub allowed_instrument_types : List Text
  pub allowed_sessions : List MarketSession
  pub require_known_session : Bool
  pub max_quote_age_seconds : Decimal
  pub max_spread_bps : Decimal
  pub spread_policy : Text
  pub wide_spread_size_factor : Decimal
  pub max_account_state_age_seconds : Decimal
  pub require_same_currency : Bool
  pub max_notional_per_trade : Decimal
  pub max_trade_pct_of_portfolio : Decimal
  pub max_position_pct_of_portfolio : Decimal
  pub max_aggregate_exposure_pct : Decimal
  pub min_cash_reserve_pct : Decimal
  pub min_trade_notional : Decimal
  pub sizing_mode : Text
  pub target_positions : ℕ
  pub conviction_full_confidence : Decimal
  pub conviction_min_weight : Decimal
  pub conviction_max_weight : Decimal
  pub min_fill_fraction : Decimal
  pub allow_fractional_quantity : Bool
  pub default_quantity_precision : ℕ
  pub max_active_proposals : ℕ
  pub max_active_proposal_exposure_pct : Decimal
  pub proposal_ttl_minutes : ℕ
  pub max_reference_price_drift_pct : Decimal
  pub max_exit_price_drift_pct : Decimal
  pub min_research_confidence : Decimal
  pub confidence_modulates_size : Bool
  pub min_confidence_size_factor : Decimal
  pub calibration_modulates_size : Bool
  pub calibration_min_samples : ℕ
  pub min_calibration_size_factor : Decimal
  pub reduce_fraction : Decimal
  pub exit_hard_stop_pct : Decimal
  pub exit_trailing_pct : Decimal
  pub exit_trailing_arm_pct : Decimal
  pub exit_min_peak_observations : ℕ
  pub exit_roi_decay : List (TimeHorizon × ℕ × Decimal)
  pub exit_atr_multiplier : Decimal
  pub exit_atr_max_age_days : ℕ
  pub version : Text

-- `config.sizing_mode == "conviction"`
unfoldable pub is_conviction : RiskConfig → Bool
is_conviction config = text_eq config.sizing_mode (codes "conviction")

-- `config.spread_policy == SpreadPolicy.REDUCE`
unfoldable pub reduces_wide_spread : RiskConfig → Bool
reduces_wide_spread config = text_eq config.spread_policy (codes "reduce")

-- The defaults of the dataclass.
abbrev pub default_roi_decay : List (TimeHorizon × ℕ × Decimal)
default_roi_decay =
    (TimeHorizon.intraday, 0, places 4 2)
    ∷ (TimeHorizon.intraday, 240, places 2 2)
    ∷ (TimeHorizon.intraday, 480, whole 0)
    ∷ (TimeHorizon.days, 0, places 6 2)
    ∷ (TimeHorizon.days, 1440, places 3 2)
    ∷ (TimeHorizon.days, 4320, whole 0)
    ∷ (TimeHorizon.weeks, 0, places 15 2)
    ∷ (TimeHorizon.weeks, 10080, places 8 2)
    ∷ (TimeHorizon.weeks, 30240, whole 0)
    ∷ (TimeHorizon.months, 0, places 30 2)
    ∷ (TimeHorizon.months, 43200, places 15 2)
    ∷ (TimeHorizon.months, 129600, whole 0)
    ∷ []

abbrev pub default_config : RiskConfig
default_config = record {
  allowed_instrument_types = codes "STOCK" ∷ codes "ETF" ∷ [];
  allowed_sessions = MarketSession.regular ∷ [];
  require_known_session = true;
  max_quote_age_seconds = whole 15;
  max_spread_bps = whole 50;
  spread_policy = codes "block";
  wide_spread_size_factor = places 5 1;
  max_account_state_age_seconds = whole 300;
  require_same_currency = true;
  max_notional_per_trade = whole 500;
  max_trade_pct_of_portfolio = places 2 2;
  max_position_pct_of_portfolio = places 3 2;
  max_aggregate_exposure_pct = places 60 2;
  min_cash_reserve_pct = places 10 2;
  min_trade_notional = whole 20;
  sizing_mode = codes "cap";
  target_positions = 8;
  conviction_full_confidence = places 90 2;
  conviction_min_weight = places 75 2;
  conviction_max_weight = places 20 1;
  min_fill_fraction = places 5 1;
  allow_fractional_quantity = false;
  default_quantity_precision = 2;
  max_active_proposals = 5;
  max_active_proposal_exposure_pct = places 10 2;
  proposal_ttl_minutes = 30;
  max_reference_price_drift_pct = places 1 2;
  max_exit_price_drift_pct = places 5 2;
  min_research_confidence = places 70 2;
  confidence_modulates_size = true;
  min_confidence_size_factor = places 5 1;
  calibration_modulates_size = true;
  calibration_min_samples = 10;
  min_calibration_size_factor = places 5 1;
  reduce_fraction = places 5 1;
  exit_hard_stop_pct = places 8 2;
  exit_trailing_pct = places 5 2;
  exit_trailing_arm_pct = places 10 2;
  exit_min_peak_observations = 3;
  exit_roi_decay = default_roi_decay;
  exit_atr_multiplier = whole 3;
  exit_atr_max_age_days = 3;
  version = [];
}
