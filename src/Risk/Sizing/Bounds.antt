-- ===== src/Risk/Sizing/Bounds.antt =====
-- What a size may be: within the cap's quantity, within the holding, and nothing when it is refused.
use stock_brain.Prelude.{
  ◌≡◌, present, true, false, Option, none, some, arith, inl, inr, Bool-cases, ◌⊎◌, Option-cases,
  value_or,
}
use stock_brain.Decimal.{Decimal, zero_dec, mul_dec, div_dec, leb_dec}
use stock_brain.Decimal.Order.{◌≤D◌, ◌<D◌, ≤D_refl, ≤D_total}
use stock_brain.Decimal.Extremes.{quantize_down_bounds}
use stock_brain.Enums.{OrderSide}
use stock_brain.Risk.Config.{RiskConfig}
use stock_brain.Risk.Models.{InstrumentIdentity, SizingResult, FxSnapshot, to_account_currency}
use stock_brain.Risk.Sizing.{
  round_quantity, Currencies, nothing, BuyNumbers, buy_result, buy_quantity, finish_buy,
  size_buy_converted,
}

-- A quantity is rounded down, at every precision, and never below zero.
pub round_quantity_bounds :
    (raw : Decimal) (config : RiskConfig) (identity : InstrumentIdentity)
    → (zero_dec ≤D round_quantity raw config identity)
      × ((round_quantity raw config identity ≤D raw) ⊎ (raw ≤D zero_dec))
unfolding round_quantity
round_quantity_bounds raw config identity = ground (
  arith,
  ≤D_refl zero_dec,
  ≤D_total raw zero_dec,
  quantize_down_bounds 0 raw,
  quantize_down_bounds (value_or identity.quantity_precision config.default_quantity_precision) raw,
)

-- Every result that an optional value holds.
abbrev pub Each : (SizingResult → Type 0) → Option SizingResult → Type 0
Each P none = Unit
Each P (some s) = P s

-- An executable result trades a positive quantity of a side, within what the cap or the holding
-- allows; a refused one has no quantity.
pub record IsSound (config : RiskConfig) (s : SizingResult) : Type 0 where
  pub refused : s.executable ≡ false → s.quantity ≡ zero_dec
  pub traded : s.executable ≡ true → (zero_dec <D s.quantity) × (present s.side ≡ true)
  pub bought :
      s.executable ≡ true
      → s.side ≡ some OrderSide.buy
      → (s.quantity ≤D s.max_quantity) × (config.min_trade_notional ≤D s.notional_account_currency)

pub nothing-IsSound :
    (config : RiskConfig) (side : Option OrderSide) (codes : Currencies) (cap_limit : Decimal)
    (price : Option Decimal)
    → IsSound config (nothing side codes cap_limit price)
unfolding nothing
nothing-IsSound config side codes cap_limit price = ground arith

finish_buy-IsSound :
    (config : RiskConfig) (codes : Currencies) (n : BuyNumbers)
    (quantity target target_account : Decimal)
    → quantity ≤D n.max_quantity
    → IsSound config (finish_buy config codes n quantity target target_account)
unfolding finish_buy buy_result
finish_buy-IsSound config codes n quantity target target_account h = ground (
  arith,
  ≤D_total config.min_trade_notional n.notional_account,
  ≤D_total n.notional_account config.min_trade_notional,
)

pub buy_quantity_le :
    (config : RiskConfig) (identity : InstrumentIdentity) (price max_quantity target : Decimal)
    → buy_quantity config identity price max_quantity target ≤D max_quantity
unfolding buy_quantity
buy_quantity_le config identity price max_quantity target =
    let quantity = round_quantity (div_dec target price) config identity in
    elim (Bool-cases (leb_dec quantity max_quantity)) [
      | inl within ↦ rw within within
      | inr above ↦ rw above (≤D_refl max_quantity)
    ]

pub size_buy_converted-IsSound :
    (config : RiskConfig) (identity : InstrumentIdentity) (codes : Currencies) (fx : FxSnapshot)
    (price max_notional size_factor cap_instrument : Decimal)
    → Each
        (IsSound config)
        (size_buy_converted config identity codes fx price max_notional size_factor cap_instrument)
unfolding size_buy_converted
size_buy_converted-IsSound config identity codes fx price max_notional size_factor cap_instrument =
    let max_quantity = round_quantity (div_dec cap_instrument price) config identity in
    let target = mul_dec cap_instrument size_factor in
    let quantity = buy_quantity config identity price max_quantity target in
    let within = buy_quantity_le config identity price max_quantity target in
    elim (Option-cases (to_account_currency fx (mul_dec quantity price))) [
      | inl raised ↦ rw (raised, Each) tt
      | inr (amount, e) ↦
          rw (e, Each)
            (elim (Bool-cases (leb_dec quantity zero_dec)) [
              | inr positive ↦
                  rw (positive, Each)
                    (finish_buy-IsSound config codes _ quantity target zero_dec within)
              | inl empty ↦
                  rw (empty, Each)
                    (elim (Option-cases (to_account_currency fx target)) [
                      | inl raised ↦ rw (raised, Each) tt
                      | inr (account, f) ↦
                          rw (f, Each)
                            (finish_buy-IsSound config codes _ quantity target account within)
                    ])
            ])
    ]
