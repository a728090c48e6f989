-- ===== src/Risk/Caps.antt =====
-- The caps of backend/stockbrain/risk/rules.py: `notional_caps`, without its sentences.
use stock_brain.Prelude.{
  ℕ, suc, Bool, true, false, not, ◌&&◌, List, [], ◌∷◌, ◌++◌, Option, none, some, if◌then◌else◌, map,
  value_or, String, ◌==◌,
}
use stock_brain.Decimal.{
  Decimal, zero_dec, whole, leb_dec, ltb_dec, eqb_dec, sub_dec, mul_dec, div_dec, min_dec, max_dec,
}
use stock_brain.Enums.{RuleOutcome}
use stock_brain.Risk.Config.{is_conviction}
use stock_brain.Risk.Models.{
  RiskInputs, RuleResult, AccountState, PositionState, FxSnapshot, position, usable,
  conversion_required, to_account_currency,
}
use stock_brain.Risk.Gates.{is_increasing, held_quantity}
use stock_brain.Risk.Conviction.{pct, conviction_weight, conviction_targets, target_of}

pub record NotionalCap : Type 0 where
  pub rule_id : String
  pub rule_version : ℕ
  pub limit : Decimal
  pub defines_intent : Bool

abbrev pub cap_of : String → ℕ → Decimal → Bool → NotionalCap
cap_of rule_id version limit defines_intent = record {
  rule_id = rule_id;
  rule_version = version;
  limit = limit;
  defines_intent = defines_intent;
}

-- `value or default`, where a zero counts as missing
abbrev pub or_decimal : Option Decimal → Decimal → Decimal
or_decimal none d = d
or_decimal (some v) d = if eqb_dec v zero_dec then d else v

-- `(position.market_value or ZERO) if position else ZERO`
unfoldable pub held_value : Option PositionState → Decimal
held_value none = zero_dec
held_value (some p) = or_decimal p.market_value zero_dec

-- The names of a book of weights: `none` is the listing itself, and the others are numbered.
abbrev BookName : Type 0
BookName = Option ℕ

unfoldable pub number_from : ℕ → List Decimal → List (BookName × Decimal)
number_from i [] = []
number_from i (w ∷ rest) = (some i, w) ∷ number_from (suc i) rest

abbrev is_listing : BookName → Bool
is_listing none = true
is_listing (some _) = false

unfoldable pub conviction_target : RiskInputs → Decimal → Decimal
conviction_target inputs total =
    let config = inputs.config in
    let weight = conviction_weight config inputs.confidence in
    if config.target_positions == 0
    then target_of is_listing (
        conviction_targets total
          ((none, weight) ∷ number_from 0 (value_or inputs.other_holding_weights [])) config)
    else min_dec (mul_dec (div_dec total (whole config.target_positions)) weight)
        (pct total config.max_position_pct_of_portfolio)

-- The cap that sets the size beside the absolute one.
unfoldable pub intent_cap : RiskInputs → Decimal → Decimal → NotionalCap
intent_cap inputs total held =
    if is_conviction inputs.config
    then cap_of "conviction_target" 1
        (max_dec zero_dec (sub_dec (conviction_target inputs total) held)) true
    else cap_of "max_trade_pct_of_portfolio" 1 (pct total inputs.config.max_trade_pct_of_portfolio)
        true

-- The limit of the broker's own maximum in the account currency: left out without a usable rate,
-- and an error where the rate measures another pair (`ValueError`).
pub data OpenLimit : Type 0 where
  left_out raises : OpenLimit
  limited : Decimal → OpenLimit

unfoldable pub open_limit : Option FxSnapshot → Decimal → OpenLimit
open_limit none limit = limited limit
open_limit (some fx) limit =
    let converted : OpenLimit = elim (to_account_currency fx limit) [
      | none ↦ raises
      | some v ↦ limited v
    ] in
    if not (conversion_required fx)
    then limited limit
    else if usable fx
    then converted
    else left_out

-- The last cap needs a maximum, a positive price and a convertible limit.
unfoldable pub broker_limit : RiskInputs → Option PositionState → OpenLimit
broker_limit inputs held =
    let price : Option Decimal = elim inputs.quote [ none ↦ none | some quote ↦ quote.mid ] in
    elim inputs.identity.max_open_quantity [
      | none ↦ left_out
      | some max_open ↦ elim price [
        | none ↦ left_out
        | some price ↦
            let remaining = max_dec zero_dec (sub_dec max_open (held_quantity held)) in
            if ltb_dec zero_dec price
            then open_limit inputs.fx (mul_dec remaining price)
            else left_out
      ]
    ]

unfoldable pub with_broker_cap : OpenLimit → List NotionalCap → Option (List NotionalCap)
with_broker_cap left_out caps = some caps
with_broker_cap raises caps = none
with_broker_cap (limited limit) caps =
    some (caps ++ (cap_of "broker_max_open_quantity" 2 limit false ∷ []))

unfoldable pub portfolio_caps : RiskInputs → AccountState → List NotionalCap
portfolio_caps inputs account =
    let config = inputs.config in
    let total = account.total_value in
    let held = position account inputs.identity.broker_ticker in
    let value = held_value held in
    let concentration = sub_dec (pct total config.max_position_pct_of_portfolio) value in
    let aggregate = sub_dec (pct total config.max_aggregate_exposure_pct) account.invested_value in
    let proposal =
      sub_dec (pct total config.max_active_proposal_exposure_pct) inputs.reserved.notional in
    let reserve = pct total config.min_cash_reserve_pct in
    let spendable = sub_dec (sub_dec account.cash_available reserve) inputs.reserved.notional in
    cap_of "max_notional_per_trade" 1 config.max_notional_per_trade true
    ∷ intent_cap inputs total value
    ∷ cap_of "max_position_concentration" 1 (max_dec zero_dec concentration) false
    ∷ cap_of "max_aggregate_exposure" 1 (max_dec zero_dec aggregate) false
    ∷ cap_of "active_proposal_exposure" 1 (max_dec zero_dec proposal) false
    ∷ cap_of "min_cash_reserve" 1 (max_dec zero_dec spendable) false
    ∷ []

unfoldable pub account_caps : RiskInputs → AccountState → Option (List NotionalCap)
account_caps inputs account =
    with_broker_cap (broker_limit inputs (position account inputs.identity.broker_ticker))
      (portfolio_caps inputs account)

-- `notional_caps`; `none` is an uncaught `ValueError`.
unfoldable pub notional_caps : RiskInputs → Option (List NotionalCap)
notional_caps inputs =
    if is_increasing inputs.action
    then elim inputs.account [ none ↦ some [] | some account ↦ account_caps inputs account ]
    else some []

unfoldable pub cap_outcome : NotionalCap → Decimal → RuleOutcome
cap_outcome cap intended =
    if leb_dec cap.limit zero_dec
    then RuleOutcome.block
    else if not cap.defines_intent && ltb_dec cap.limit intended
    then RuleOutcome.reduce
    else RuleOutcome.pass

abbrev pub cap_result : Decimal → NotionalCap → RuleResult
cap_result intended cap = record {
  rule_id = cap.rule_id;
  rule_version = cap.rule_version;
  outcome = cap_outcome cap intended;
  max_notional = some cap.limit;
  size_factor = none;
}

-- `cap_rule_results`
unfoldable pub cap_rule_results : List NotionalCap → Decimal → List RuleResult
cap_rule_results caps intended = map (cap_result intended) caps

-- `min((cap.limit for cap in caps), default=ZERO)`
unfoldable pub least_from : Decimal → List NotionalCap → Decimal
least_from best [] = best
least_from best (cap ∷ rest) = least_from (min_dec best cap.limit) rest

unfoldable pub least_limit : List NotionalCap → Decimal
least_limit [] = zero_dec
least_limit (cap ∷ rest) = least_from cap.limit rest
