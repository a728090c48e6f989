-- ===== src/Risk/Sizing/Holding.antt =====
-- `_size_sell`: a sale stays within what may be sold; and when `size_trade` itself raises.
use stock_brain.Prelude.{◌≡◌, true, false, Option, none, some, arith, inl, inr, Option-cases, ◌↔◌}
use stock_brain.Decimal.{Decimal, zero_dec, whole, mul_dec, leb_dec, min_dec}
use stock_brain.Decimal.Order.{◌≤D◌, ≤D_refl, ≤D_trans}
use stock_brain.Decimal.Laws.{mul_le_left, plain_nonneg, Fits}
use stock_brain.Decimal.Extremes.{min_bounds, le-min}
use stock_brain.Enums.{ThesisAction, OrderSide}
use stock_brain.Risk.Config.{RiskConfig}
use stock_brain.Risk.Models.{InstrumentIdentity, FxSnapshot, conversion_required, usable, direction}
use stock_brain.Risk.Gates.{action_side}
use stock_brain.Risk.Caps.{or_decimal}
use stock_brain.Risk.Sizing.{
  round_quantity, sell_quantity, SizingRequest, size_converted, size_quoted, size_trade, two_prices,
  snapshot_of, marketable,
}
use stock_brain.Risk.Sizing.Bounds.{round_quantity_bounds}

round_quantity_le :
    (raw limit : Decimal) (config : RiskConfig) (identity : InstrumentIdentity)
    → zero_dec ≤D limit
    → raw ≤D limit
    → round_quantity raw config identity ≤D limit
unfolding round_quantity
round_quantity_le raw limit config identity h k =
    elim (round_quantity_bounds raw config identity).1 [
      | inl le ↦ ≤D_trans _ raw limit le k
      | inr empty ↦ rw empty h
    ]

-- From zero to a limit.
abbrev pub Within : Decimal → Decimal → Type 0
Within limit v = (zero_dec ≤D v) × (v ≤D limit)

rounded-Within :
    (raw limit : Decimal) (config : RiskConfig) (identity : InstrumentIdentity)
    → zero_dec ≤D limit
    → raw ≤D limit
    → Within limit (round_quantity raw config identity)
rounded-Within raw limit config identity h k =
    ((round_quantity_bounds raw config identity).0, round_quantity_le raw limit config identity h k)

fraction_le :
    (available fraction : Decimal)
    → Fits available
    → zero_dec ≤D available
    → zero_dec ≤D fraction
    → mul_dec available (min_dec (whole 1) fraction) ≤D available
fraction_le available fraction fits h k =
    mul_le_left available (min_dec (whole 1) fraction) fits h
      (le-min zero_dec (whole 1) fraction (plain_nonneg 1 _) k) (min_bounds (whole 1) fraction).0

-- The quantity of a sale, and of a reduction by any fraction that is not negative, lies between zero
-- and what is available, when the available quantity has at most 28 digits and is not negative.
pub sell_quantity-Within :
    (action : ThesisAction) (config : RiskConfig) (identity : InstrumentIdentity)
    (reduce_fraction : Option Decimal) (available : Decimal)
    → Fits available
    → zero_dec ≤D available
    → zero_dec ≤D or_decimal reduce_fraction config.reduce_fraction
    → Within available (sell_quantity action config identity reduce_fraction available)
unfolding sell_quantity
sell_quantity-Within action config identity reduce_fraction available fits h k =
    let part =
      rounded-Within
        (mul_dec available (min_dec (whole 1) (or_decimal reduce_fraction config.reduce_fraction)))
        available config identity h
        (fraction_le available (or_decimal reduce_fraction config.reduce_fraction) fits h k) in
    let all_of_it = rounded-Within available available config identity h (≤D_refl available) in
    elim action
      as (λ a. Within available (sell_quantity a config identity reduce_fraction available)) [
        | ThesisAction.sell ↦ all_of_it
        | _ ↦ part
      ]

-- A snapshot that may convert, and that holds no rate between its two currencies.
pub record IsUndirected (fx : FxSnapshot) : Type 0 where
  pub required : conversion_required fx ≡ true
  pub permitted : usable fx ≡ true
  pub no_direction : direction fx ≡ none

size_converted-eq-none :
    (r : SizingRequest) (side : OrderSide) (price : Decimal)
    → (size_converted r side price ≡ none) ↔ IsUndirected (snapshot_of r)
unfolding size_converted
size_converted-eq-none r side price = ground arith

size_quoted-eq-none :
    (r : SizingRequest) (side : OrderSide) (bid ask : Decimal)
    → (size_quoted r side bid ask ≡ none)
      ↔ ((leb_dec (marketable side bid ask) zero_dec ≡ false) × IsUndirected (snapshot_of r))
unfolding size_quoted
size_quoted-eq-none r side bid ask =
    ground (arith, size_converted-eq-none r side (marketable side bid ask))

size_trade_raises :
    (r : SizingRequest) (side : OrderSide) (bid ask : Decimal)
    → action_side r.action ≡ some side
    → two_prices r.quote ≡ some (bid, ask)
    → size_quoted r side bid ask ≡ none
    → size_trade r ≡ none
unfolding size_trade
size_trade_raises r side bid ask a b h = ground (arith, a, b, h)

-- `size_trade` raises exactly when the action trades a side, both prices are there, the one of that
-- side is positive, and the snapshot may convert but holds no rate between its two currencies.
pub size_trade-eq-none :
    (r : SizingRequest)
    → (size_trade r ≡ none) ↔ (
        (side : OrderSide) × (prices : Decimal × Decimal) × (action_side r.action ≡ some side)
        × (two_prices r.quote ≡ some prices)
        × (leb_dec (marketable side prices.0 prices.1) zero_dec ≡ false)
        × IsUndirected (snapshot_of r))
unfolding size_trade
size_trade-eq-none r = elim (Option-cases (action_side r.action)) [
  | inl advisory ↦ (λ h. ground (arith, h, advisory), λ h. ground (arith, h, advisory))
  | inr (side, a) ↦ elim (Option-cases (two_prices r.quote)) [
    | inl unpriced ↦ (λ h. ground (arith, h, a, unpriced), λ h. ground (arith, h, unpriced))
    | inr ((bid, ask), b) ↦
        let quoted = size_quoted-eq-none r side bid ask in
        (
          λ h. let m = quoted.0 (ground (arith, h, a, b)) in (side, (bid, ask), a, b, m.0, m.1),
          λ (side2, prices, a2, b2, c, u).
              let again = size_quoted-eq-none r side2 prices.0 prices.1 in
              size_trade_raises r side2 prices.0 prices.1 a2 b2 (again.1 (c, u)),
        )
  ]
]
