-- ===== src/Risk/Sizing/Result.antt =====
-- Rounding and refusals of backend/stockbrain/risk/sizing.py.
use stock_brain.Prelude.{false, not, Option, if◌then◌else◌, Text, value_or}
use stock_brain.Decimal.{Decimal, zero_dec, leb_dec, quantize_down}
use stock_brain.Enums.{OrderSide}
use stock_brain.Risk.Config.{RiskConfig}
use stock_brain.Risk.Models.{InstrumentIdentity, SizingResult}

-- `_round_quantity`
unfoldable pub round_quantity : Decimal → RiskConfig → InstrumentIdentity → Decimal
round_quantity raw config identity =
    if leb_dec raw zero_dec
    then zero_dec
    else if not config.allow_fractional_quantity
    then quantize_down 0 raw
    else quantize_down (value_or identity.quantity_precision config.default_quantity_precision) raw

-- The two currencies that every result names.
pub record Currencies : Type 0 where
  pub currency : Option Text
  pub account_currency : Option Text

-- `_nothing`
unfoldable pub nothing : Option OrderSide → Currencies → Decimal → Option Decimal → SizingResult
nothing side codes max_notional reference_price = record {
  side = side;
  quantity = zero_dec;
  target_notional = zero_dec;
  max_quantity = zero_dec;
  max_notional = max_notional;
  reference_price = reference_price;
  currency = codes.currency;
  account_currency = codes.account_currency;
  notional_account_currency = zero_dec;
  max_notional_instrument_currency = zero_dec;
  executable = false;
}
