-- ===== src/Risk/Sizing.antt =====
-- backend/stockbrain/risk/sizing.py: the order that a decision carries, without its sentences.
pub mod Bounds
pub mod Paid
pub mod Bought
pub mod Sound
pub mod Holding
mod Result
mod Buy
mod Sell
unfoldable pub use Result.*
unfoldable pub use Buy.*
unfoldable pub use Sell.*
use stock_brain.Prelude.{
  ℕ, Bool, true, false, not, ◌&&◌, ◌||◌, List, [], ◌∷◌, Option, none, some, if◌then◌else◌, Text,
  value_or,
}
use stock_brain.Decimal.{
  Decimal, zero_dec, whole, leb_dec, ltb_dec, eqb_dec, mul_dec, div_dec, min_dec, quantize_down,
}
use stock_brain.Enums.{ThesisAction, OrderSide}
use stock_brain.Risk.Config.{RiskConfig}
use stock_brain.Risk.Models.{
  AccountState, PositionState, InstrumentIdentity, QuoteSnapshot, FxSnapshot, SizingResult,
  position, usable, direction, conversion_required, to_instrument_currency, to_account_currency,
  same_currency_snapshot,
}
use stock_brain.Risk.Gates.{action_side, available_quantity}
use stock_brain.Risk.Caps.{or_decimal}

-- What a caller of `size_trade` supplies.
pub record SizingRequest : Type 0 where
  pub action : ThesisAction
  pub config : RiskConfig
  pub identity : InstrumentIdentity
  pub quote : Option QuoteSnapshot
  pub account : Option AccountState
  pub max_notional : Decimal
  pub size_factor : Decimal
  pub fx : Option FxSnapshot
  pub reduce_fraction : Option Decimal

abbrev pub currencies_of : SizingRequest → Currencies
currencies_of r = record {
  currency = r.identity.currency;
  account_currency = elim r.account [ none ↦ none | some account ↦ some account.currency ];
}

-- `text or default`, where an empty text counts as missing
abbrev pub or_text : Option Text → Text → Text
or_text none d = d
or_text (some []) d = d
or_text (some (c ∷ t)) d = c ∷ t

-- `fx or FxSnapshot.same_currency_snapshot(currency or account_currency or "")`
unfoldable pub snapshot_of : SizingRequest → FxSnapshot
snapshot_of r = value_or r.fx (
    same_currency_snapshot
      (or_text r.identity.currency (or_text (currencies_of r).account_currency [])))

-- The `try` block: a conversion that raises inside it ends without a size.
unfoldable pub size_side : SizingRequest → OrderSide → Decimal → SizingResult
size_side r side price =
    let codes = currencies_of r in
    let fx = snapshot_of r in
    let sized : Option SizingResult = elim side [
      | OrderSide.buy ↦ size_buy r.config r.identity codes fx price r.max_notional r.size_factor
      | OrderSide.sell ↦
          size_sell r.action r.config r.identity r.account codes fx r.reduce_fraction price
    ] in
    value_or sized (nothing (some side) codes r.max_notional (some price))

-- A snapshot that may not convert is refused. The sentence about one that may names its direction,
-- before the `try` block: where there is none, `none` is the `ValueError` that leaves the function.
unfoldable pub size_converted : SizingRequest → OrderSide → Decimal → Option SizingResult
size_converted r side price =
    let fx = snapshot_of r in
    let sized = size_side r side price in
    let named : Option SizingResult = elim (direction fx) [ none ↦ none | some _ ↦ some sized ] in
    if not (conversion_required fx)
    then some sized
    else if not (usable fx)
    then some (nothing (some side) (currencies_of r) r.max_notional (some price))
    else named

-- `quote.ask if side is OrderSide.BUY else quote.bid`
abbrev pub marketable : OrderSide → Decimal → Decimal → Decimal
marketable OrderSide.buy bid ask = ask
marketable OrderSide.sell bid ask = bid

unfoldable pub size_quoted : SizingRequest → OrderSide → Decimal → Decimal → Option SizingResult
size_quoted r side bid ask =
    let price = marketable side bid ask in
    if leb_dec price zero_dec
    then some (nothing (some side) (currencies_of r) r.max_notional none)
    else size_converted r side price

-- `quote is None or quote.bid is None or quote.ask is None`, or else the two prices.
abbrev pub two_prices : Option QuoteSnapshot → Option (Decimal × Decimal)
two_prices none = none
two_prices (some q) = elim q.bid [
  | none ↦ none
  | some bid ↦ elim q.ask [ none ↦ none | some ask ↦ some (bid, ask) ]
]

-- `size_trade`
unfoldable pub size_trade : SizingRequest → Option SizingResult
size_trade r = elim (action_side r.action) [
  | none ↦ some (nothing none (currencies_of r) zero_dec none)
  | some side ↦ elim (two_prices r.quote) [
    | none ↦ some (nothing (some side) (currencies_of r) r.max_notional none)
    | some (bid, ask) ↦ size_quoted r side bid ask
  ]
]
