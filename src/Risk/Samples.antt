-- ===== src/Risk/Samples.antt =====
-- Inputs of the risk engine, for the tests.
use stock_brain.Prelude.{true, false, [], ◌∷◌, none, some, Option, codes, value_or}
use stock_brain.Prelude.Int.{ℤ}
use stock_brain.Decimal.{whole, places, zero_dec}
use stock_brain.Enums.{ThesisAction, ResolutionStatus, MarketSession, SpreadStatus, RiskOutcome}
use stock_brain.Risk.Config.{default_config}
use stock_brain.Risk.Spread.{SpreadAssessment}
use stock_brain.Risk.Models.{
  PositionState, AccountState, InstrumentIdentity, QuoteSnapshot, FxSnapshot, ReservedExposure,
  RiskInputs, RiskDecision, SizingResult,
}
use stock_brain.Risk.Engine.{evaluate, no_sizing}
use stock_brain.Risk.Sizing.{SizingRequest, size_trade}

abbrev pub sample_spread : SpreadAssessment
sample_spread = record {
  status = SpreadStatus.ok;
  bid = some (whole 10);
  ask = some (places 1001 2);
  spread = some (places 1 2);
  mid = some (places 10005 3);
  spread_pct = some (places 99950 8);
  spread_bps = some (places 99950 4);
  ceiling_bps = some (whole 50);
}

abbrev pub sample_quote : QuoteSnapshot
sample_quote = record {
  bid = some (whole 10);
  ask = some (places 1001 2);
  mid = some (places 10005 3);
  age_ms = ℤ.pos 900;
  currency = codes "USD";
  spread = sample_spread;
  session = MarketSession.regular;
  provider_blockers = [];
}

-- Seven shares, of which five may be sold.
abbrev pub sample_position : PositionState
sample_position = record {
  quantity = whole 7;
  quantity_available = whole 5;
  market_value = some (whole 70);
}

abbrev pub sample_account : AccountState
sample_account = record {
  currency = codes "USD";
  cash_available = whole 4000;
  total_value = whole 10000;
  captured_at = 1000000;
  invested_value = whole 70;
  positions = (codes "ACME_US_EQ", sample_position) ∷ [];
}

abbrev pub sample_identity : InstrumentIdentity
sample_identity = record {
  broker_ticker = codes "ACME_US_EQ";
  market_symbol = some (codes "ACME");
  resolution_status = ResolutionStatus.resolved;
  is_active = true;
  instrument_type = some (codes "STOCK");
  currency = some (codes "USD");
  company_id = some 1;
  max_open_quantity = none;
  quantity_precision = some 2;
}

abbrev pub idle : ReservedExposure
idle = record {
  count = 0;
  notional = zero_dec;
  same_instrument_count = 0;
  same_instrument_sides = [];
  blockers = [];
}

abbrev pub buy_inputs : RiskInputs
buy_inputs = record {
  config = default_config;
  action = ThesisAction.buy;
  confidence = places 90 2;
  identity = sample_identity;
  account = some sample_account;
  quote = some sample_quote;
  reserved = idle;
  now = 5000000;
  fx = none;
  calibration = none;
  other_holding_weights = none;
  reduce_fraction = none;
}

abbrev pub hold_inputs : RiskInputs
hold_inputs = record buy_inputs { action = ThesisAction.hold }

abbrev pub reduce_inputs : RiskInputs
reduce_inputs = record buy_inputs { action = ThesisAction.reduce; confidence = places 1 1 }

-- A conversion is required and permitted, but the snapshot holds no rate.
abbrev pub rateless : FxSnapshot
rateless = record {
  account_currency = codes "GBP";
  instrument_currency = codes "USD";
  same_currency = false;
  blockers = [];
  rate = none;
  base_currency = none;
  quote_currency = none;
  age_seconds = none;
}

-- One pound buys a dollar and a quarter.
abbrev pub cable : FxSnapshot
cable = record rateless {
  rate = some (places 125 2);
  base_currency = some (codes "gbp");
  quote_currency = some (codes "USD");
  age_seconds = some (whole 3);
}

abbrev pub buy_request : SizingRequest
buy_request = record {
  action = ThesisAction.buy;
  config = default_config;
  identity = sample_identity;
  quote = some sample_quote;
  account = some sample_account;
  max_notional = whole 200;
  size_factor = places 8 1;
  fx = none;
  reduce_fraction = none;
}

abbrev pub rateless_request : SizingRequest
rateless_request = record buy_request { fx = some rateless }

-- A decision, or a refusal in its place.
abbrev pub decided : RiskInputs → Option RiskDecision → RiskDecision
decided inputs made = value_or made (record {
  outcome = RiskOutcome.block;
  policy_version = [];
  rules = [];
  sizing = no_sizing inputs;
  evaluated_at = 0;
})

abbrev pub buy_decision : RiskDecision
buy_decision = decided buy_inputs (evaluate buy_inputs 5000000)

abbrev pub hold_decision : RiskDecision
hold_decision = decided hold_inputs (evaluate hold_inputs 5000000)

-- The size of the request.
abbrev pub bought : SizingResult
bought = value_or (size_trade buy_request) (no_sizing buy_inputs)
