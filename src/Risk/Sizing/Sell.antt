-- ===== src/Risk/Sizing/Sell.antt =====
-- `_size_sell` of backend/stockbrain/risk/sizing.py.
use stock_brain.Prelude.{Bool, true, false, Option, none, some, if◌then◌else◌}
use stock_brain.Decimal.{Decimal, zero_dec, whole, leb_dec, mul_dec, min_dec}
use stock_brain.Enums.{ThesisAction, OrderSide}
use stock_brain.Risk.Config.{RiskConfig}
use stock_brain.Risk.Models.{
  AccountState, InstrumentIdentity, FxSnapshot, SizingResult, position, to_account_currency,
}
use stock_brain.Risk.Gates.{available_quantity}
use stock_brain.Risk.Caps.{or_decimal}
use stock_brain.Risk.Sizing.Result.{round_quantity, Currencies, nothing}

-- The quantity of a sale: all that is available, or a fraction of it.
unfoldable pub sell_quantity :
    ThesisAction → RiskConfig → InstrumentIdentity → Option Decimal → Decimal → Decimal
sell_quantity ThesisAction.sell config identity reduce_fraction available =
    round_quantity available config identity
sell_quantity _ config identity reduce_fraction available =
    let fraction = min_dec (whole 1) (or_decimal reduce_fraction config.reduce_fraction) in
    round_quantity (mul_dec available fraction) config identity

unfoldable pub sell_result :
    Currencies → Decimal → Decimal → Decimal → Decimal → Decimal → Bool → Decimal → SizingResult
sell_result codes price max_quantity max_instrument max_account quantity executable
      account_notional =
    record {
      side = some OrderSide.sell;
      quantity = quantity;
      target_notional = if executable then mul_dec quantity price else zero_dec;
      max_quantity = max_quantity;
      max_notional = max_account;
      reference_price = some price;
      currency = codes.currency;
      account_currency = codes.account_currency;
      notional_account_currency = account_notional;
      max_notional_instrument_currency = max_instrument;
      executable = executable;
    }

-- `_size_sell` with something available.
unfoldable pub size_available :
    ThesisAction
    → RiskConfig
    → InstrumentIdentity
    → Currencies
    → FxSnapshot
    → Option Decimal
    → Decimal
    → Decimal
    → Option SizingResult
size_available action config identity codes fx reduce_fraction price available =
    let quantity = sell_quantity action config identity reduce_fraction available in
    let max_quantity = round_quantity available config identity in
    let max_instrument = mul_dec max_quantity price in
    elim (to_account_currency fx max_instrument) [
      | none ↦ none
      | some max_account ↦
          if leb_dec quantity zero_dec
          then some (
              sell_result codes price max_quantity max_instrument max_account zero_dec false
                zero_dec)
          else elim (to_account_currency fx (mul_dec quantity price)) [
            | none ↦ none
            | some account_notional ↦ some (
                sell_result codes price max_quantity max_instrument max_account quantity true
                  account_notional)
          ]
    ]

-- What may be sold of the listing.
unfoldable pub available_for : Option AccountState → InstrumentIdentity → Decimal
available_for none identity = zero_dec
available_for (some account) identity = available_quantity (position account identity.broker_ticker)

-- `_size_sell`
unfoldable pub size_sell :
    ThesisAction
    → RiskConfig
    → InstrumentIdentity
    → Option AccountState
    → Currencies
    → FxSnapshot
    → Option Decimal
    → Decimal
    → Option SizingResult
size_sell action config identity account codes fx reduce_fraction price =
    let available = available_for account identity in
    if leb_dec available zero_dec
    then some (nothing (some OrderSide.sell) codes zero_dec (some price))
    else size_available action config identity codes fx reduce_fraction price available
