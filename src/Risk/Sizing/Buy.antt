-- ===== src/Risk/Sizing/Buy.antt =====
-- `_size_buy` of backend/stockbrain/risk/sizing.py.
use stock_brain.Prelude.{Bool, true, false, Option, none, some, if◌then◌else◌}
use stock_brain.Decimal.{Decimal, zero_dec, leb_dec, ltb_dec, mul_dec, div_dec}
use stock_brain.Enums.{OrderSide}
use stock_brain.Risk.Config.{RiskConfig}
use stock_brain.Risk.Models.{
  InstrumentIdentity, FxSnapshot, SizingResult, to_instrument_currency, to_account_currency,
}
use stock_brain.Risk.Sizing.Result.{round_quantity, Currencies, nothing}

-- What a sized buy reports besides its quantity and whether it may be sent.
pub record BuyNumbers : Type 0 where
  pub target_notional : Decimal
  pub max_quantity : Decimal
  pub max_notional : Decimal
  pub reference_price : Decimal
  pub notional_account : Decimal
  pub max_notional_instrument : Decimal

unfoldable pub buy_result : Currencies → BuyNumbers → Decimal → Bool → SizingResult
buy_result codes n quantity executable = record {
  side = some OrderSide.buy;
  quantity = quantity;
  target_notional = n.target_notional;
  max_quantity = n.max_quantity;
  max_notional = n.max_notional;
  reference_price = some n.reference_price;
  currency = codes.currency;
  account_currency = codes.account_currency;
  notional_account_currency = n.notional_account;
  max_notional_instrument_currency = n.max_notional_instrument;
  executable = executable;
}

-- The quantity of a buy: what the reduced cap pays for, at most what the cap itself pays for.
unfoldable pub buy_quantity :
    RiskConfig → InstrumentIdentity → Decimal → Decimal → Decimal → Decimal
buy_quantity config identity price max_quantity target =
    let quantity = round_quantity (div_dec target price) config identity in
    if ltb_dec max_quantity quantity then max_quantity else quantity

-- The end of `_size_buy`, once the amounts are converted.
unfoldable pub finish_buy :
    RiskConfig → Currencies → BuyNumbers → Decimal → Decimal → Decimal → SizingResult
finish_buy config codes n quantity target target_account =
    if leb_dec quantity zero_dec
    then buy_result codes (record n { target_notional = target; notional_account = target_account })
        zero_dec false
    else if ltb_dec n.notional_account config.min_trade_notional
    then buy_result codes n zero_dec false
    else buy_result codes n quantity true

-- `_size_buy`, once the cap is converted; `none` is a conversion that raised.
unfoldable pub size_buy_converted :
    RiskConfig
    → InstrumentIdentity
    → Currencies
    → FxSnapshot
    → Decimal
    → Decimal
    → Decimal
    → Decimal
    → Option SizingResult
size_buy_converted config identity codes fx price max_notional size_factor cap_instrument =
    let max_quantity = round_quantity (div_dec cap_instrument price) config identity in
    let target = mul_dec cap_instrument size_factor in
    let quantity = buy_quantity config identity price max_quantity target in
    let notional = mul_dec quantity price in
    elim (to_account_currency fx notional) [
      | none ↦ none
      | some notional_account ↦
          let numbers : BuyNumbers = record {
            target_notional = notional;
            max_quantity = max_quantity;
            max_notional = max_notional;
            reference_price = price;
            notional_account = notional_account;
            max_notional_instrument = cap_instrument;
          } in
          if leb_dec quantity zero_dec
          then elim (to_account_currency fx target) [
            | none ↦ none
            | some target_account ↦
                some (finish_buy config codes numbers quantity target target_account)
          ]
          else some (finish_buy config codes numbers quantity target zero_dec)
    ]

-- `_size_buy`
unfoldable pub size_buy :
    RiskConfig
    → InstrumentIdentity
    → Currencies
    → FxSnapshot
    → Decimal
    → Decimal
    → Decimal
    → Option SizingResult
size_buy config identity codes fx price max_notional size_factor =
    if leb_dec max_notional zero_dec
    then some (nothing (some OrderSide.buy) codes zero_dec (some price))
    else elim (to_instrument_currency fx max_notional) [
      | none ↦ none
      | some cap_instrument ↦
          size_buy_converted config identity codes fx price max_notional size_factor cap_instrument
    ]
