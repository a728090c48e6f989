-- ===== src/Risk/Models.antt =====
-- backend/stockbrain/risk/models.py: what the engine reads and what it concludes. Fields that are
-- only displayed (sentences, provider names, timestamps of prices) are left out, and so are the
-- `as_dict` views. An instant is a number of microseconds.
pub mod Conversion
use stock_brain.Prelude.{
  ℕ, ◌-◌, Bool, true, false, not, ◌&&◌, List, [], ◌∷◌, Option, none, some, Text, text_eq, non_empty,
  if◌then◌else◌, filter, map, String,
}
use stock_brain.Prelude.Int.{ℤ}
use stock_brain.Decimal.{Decimal, places, mul_dec, div_dec}
use stock_brain.Enums.{
  ThesisAction, OrderSide, RuleOutcome, RiskOutcome, ResolutionStatus, MarketSession, is_block,
}
use stock_brain.Fx.{FxDirection, direct, inverted, identity, normalize_currency}
use stock_brain.Risk.Config.{RiskConfig}
use stock_brain.Risk.Spread.{SpreadAssessment}

pub record PositionState : Type 0 where
  pub quantity : Decimal
  pub quantity_available : Decimal
  pub market_value : Option Decimal

-- `positions` is the dictionary from broker tickers to holdings.
pub record AccountState : Type 0 where
  pub currency : Text
  pub cash_available : Decimal
  pub total_value : Decimal
  pub captured_at : ℕ
  pub invested_value : Decimal
  pub positions : List (Text × PositionState)

-- The seconds between two instants, and zero if the second is not later. Microseconds are exact.
abbrev pub seconds_since : ℕ → ℕ → Decimal
seconds_since earlier now = places (now - earlier) 6

unfoldable pub age_seconds : AccountState → ℕ → Decimal
age_seconds account now = seconds_since account.captured_at now

unfoldable pub lookup : Text → List (Text × PositionState) → Option PositionState
lookup ticker [] = none
lookup ticker ((name, p) ∷ rest) = if text_eq name ticker then some p else lookup ticker rest

-- `AccountState.position`
unfoldable pub position : AccountState → Text → Option PositionState
position account ticker = lookup ticker account.positions

pub record InstrumentIdentity : Type 0 where
  pub broker_ticker : Text
  pub market_symbol : Option Text
  pub resolution_status : ResolutionStatus
  pub is_active : Bool
  pub instrument_type : Option Text
  pub currency : Option Text
  pub company_id : Option ℕ
  pub max_open_quantity : Option Decimal
  pub quantity_precision : Option ℕ

pub record QuoteSnapshot : Type 0 where
  pub bid : Option Decimal
  pub ask : Option Decimal
  pub mid : Option Decimal
  pub age_ms : ℤ
  pub currency : Text
  pub spread : SpreadAssessment
  pub session : MarketSession
  pub provider_blockers : List Text

pub record FxSnapshot : Type 0 where
  pub account_currency : Text
  pub instrument_currency : Text
  pub same_currency : Bool
  pub blockers : List Text
  pub rate : Option Decimal
  pub base_currency : Option Text
  pub quote_currency : Option Text
  pub age_seconds : Option Decimal

abbrev pub usable : FxSnapshot → Bool
usable fx = not (non_empty fx.blockers)

abbrev pub conversion_required : FxSnapshot → Bool
conversion_required fx = not fx.same_currency

-- `_direction_for` once a rate is at hand; `none` stands for the `ValueError`.
unfoldable pub direction_of_pair : FxSnapshot → Text → Text → Option FxDirection
direction_of_pair fx source target =
    let base = normalize_currency fx.base_currency in
    let quote = normalize_currency fx.quote_currency in
    if text_eq source base && text_eq target quote
    then some direct
    else if text_eq source quote && text_eq target base
    then some inverted
    else none

-- `FxSnapshot._direction_for`
unfoldable pub direction_for : FxSnapshot → Text → Text → Option FxDirection
direction_for fx from_currency to_currency =
    let source = normalize_currency (some from_currency) in
    let target = normalize_currency (some to_currency) in
    if text_eq source target
    then some identity
    else if not (usable fx)
    then none
    else elim fx.rate [ none ↦ none | some _ ↦ direction_of_pair fx source target ]

-- The amount under a direction: multiplied or divided once.
unfoldable pub apply_direction : FxSnapshot → Decimal → FxDirection → Option Decimal
apply_direction fx amount identity = some amount
apply_direction fx amount direct = elim fx.rate [
  | none ↦ none
  | some rate ↦ some (mul_dec amount rate)
]
apply_direction fx amount inverted = elim fx.rate [
  | none ↦ none
  | some rate ↦ some (div_dec amount rate)
]

-- `FxSnapshot._convert`
unfoldable pub convert : FxSnapshot → Decimal → Text → Text → Option Decimal
convert fx amount from_currency to_currency = elim (direction_for fx from_currency to_currency) [
  | none ↦ none
  | some d ↦ apply_direction fx amount d
]

unfoldable pub to_instrument_currency : FxSnapshot → Decimal → Option Decimal
to_instrument_currency fx amount = convert fx amount fx.account_currency fx.instrument_currency

unfoldable pub to_account_currency : FxSnapshot → Decimal → Option Decimal
to_account_currency fx amount = convert fx amount fx.instrument_currency fx.account_currency

-- `FxSnapshot.direction`
unfoldable pub direction : FxSnapshot → Option FxDirection
direction fx =
    if fx.same_currency
    then some identity
    else direction_for fx fx.account_currency fx.instrument_currency

unfoldable pub same_currency_snapshot : Text → FxSnapshot
same_currency_snapshot currency =
    let code = normalize_currency (some currency) in
    record {
      account_currency = code;
      instrument_currency = code;
      same_currency = true;
      blockers = [];
      rate = none;
      base_currency = none;
      quote_currency = none;
      age_seconds = none;
    }

pub record ReservedExposure : Type 0 where
  pub count : ℕ
  pub notional : Decimal
  pub same_instrument_count : ℕ
  pub same_instrument_sides : List OrderSide
  pub blockers : List Text

pub record CalibrationBucket : Type 0 where
  pub samples : ℕ
  pub hit_rate : Decimal

pub record RiskInputs : Type 0 where
  pub config : RiskConfig
  pub action : ThesisAction
  pub confidence : Decimal
  pub identity : InstrumentIdentity
  pub account : Option AccountState
  pub quote : Option QuoteSnapshot
  pub reserved : ReservedExposure
  pub now : ℕ
  pub fx : Option FxSnapshot
  pub calibration : Option CalibrationBucket
  pub other_holding_weights : Option (List Decimal)
  pub reduce_fraction : Option Decimal

-- One rule's verdict, without its sentence and the two texts of what was compared.
pub record RuleResult : Type 0 where
  pub rule_id : String
  pub rule_version : ℕ
  pub outcome : RuleOutcome
  pub max_notional : Option Decimal
  pub size_factor : Option Decimal

pub record SizingResult : Type 0 where
  pub side : Option OrderSide
  pub quantity : Decimal
  pub target_notional : Decimal
  pub max_quantity : Decimal
  pub max_notional : Decimal
  pub reference_price : Option Decimal
  pub currency : Option Text
  pub account_currency : Option Text
  pub notional_account_currency : Decimal
  pub max_notional_instrument_currency : Decimal
  pub executable : Bool

pub record RiskDecision : Type 0 where
  pub outcome : RiskOutcome
  pub policy_version : Text
  pub rules : List RuleResult
  pub sizing : SizingResult
  pub evaluated_at : ℕ

-- `RiskDecision.allowed`
unfoldable pub allowed : RiskDecision → Bool
allowed d = elim d.outcome [ RiskOutcome.block ↦ false | _ ↦ d.sizing.executable ]

-- `RiskDecision.block_rule_ids`
unfoldable pub block_rule_ids : RiskDecision → List String
block_rule_ids d = map (λ (r : RuleResult). r.rule_id) (filter (λ r. is_block r.outcome) d.rules)
