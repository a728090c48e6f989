-- ===== src/Risk/Spread/Laws.antt =====
-- `assess_spread`: when a book passes, and how the five failures are told apart.
use stock_brain.Prelude.{◌≡◌, refl, ◌↔◌, Option, none, some, arith}
use stock_brain.Decimal.{Decimal, whole, zero_dec, add_dec, sub_dec, mul_dec, div_dec}
use stock_brain.Decimal.Order.{◌≤D◌, ◌<D◌, ≤D_total}
use stock_brain.Enums.{SpreadStatus}
use stock_brain.Risk.Spread.{assess_live, assess_sides, assess_spread}

-- A book that passes: both sides are positive, the ask is above the bid, and the width in basis
-- points of the mid is within the ceiling.
pub record IsTight (bid ask ceiling : Decimal) : Type 0 where
  pub bid_live : zero_dec <D bid
  pub ask_live : zero_dec <D ask
  pub apart : zero_dec <D sub_dec ask bid
  pub within :
      mul_dec (sub_dec ask bid) (whole 10000)
      ≤D mul_dec ceiling (div_dec (add_dec bid ask) (whole 2))

assess_live_ok :
    (bid ask ceiling : Decimal)
    → ((assess_live bid ask ceiling).status ≡ SpreadStatus.ok) ↔ (
        (zero_dec <D sub_dec ask bid)
        × (mul_dec (sub_dec ask bid) (whole 10000)
            ≤D mul_dec ceiling (div_dec (add_dec bid ask) (whole 2))))
unfolding assess_live
assess_live_ok bid ask ceiling = ground (arith, ≤D_total zero_dec (sub_dec ask bid))

assess_sides_ok :
    (bid ask ceiling : Decimal)
    → ((assess_sides bid ask ceiling).status ≡ SpreadStatus.ok) ↔ IsTight bid ask ceiling
unfolding assess_sides
assess_sides_ok bid ask ceiling = ground (arith, assess_live_ok bid ask ceiling)

-- A book is passed exactly when both sides are there and it is tight.
pub assess_spread_ok :
    (bid ask : Option Decimal) (ceiling : Decimal)
    → ((assess_spread bid ask ceiling).status ≡ SpreadStatus.ok)
      ↔ ((b : Decimal) × (a : Decimal) × (bid ≡ some b) × (ask ≡ some a) × IsTight b a ceiling)
unfolding assess_spread
assess_spread_ok none ask ceiling = ground arith
assess_spread_ok (some b) none ceiling = ground arith
assess_spread_ok (some b) (some a) ceiling = (
  λ h. (b, a, refl, refl, (assess_sides_ok b a ceiling).0 h),
  λ (x, y, p, q, t). let passed = (assess_sides_ok x y ceiling).1 t in ground (arith, p, q, passed),
)
