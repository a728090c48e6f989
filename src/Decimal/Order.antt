-- ===== src/Decimal/Order.antt =====
-- Comparison of decimals is a total order.
use native.Mathlib.Nat.{le_of_mul-le-mul_right, mul-le-mul_right, pow-le-pow_right}
use stock_brain.Prelude.{ℕ, ◌+◌, ◌*◌, ◌^◌, ◌≤◌, ◌<◌, ◌≡◌, true, false, arith, leb→le, le→leb}
use stock_brain.Decimal.{Decimal, leb_dec, plus_part, minus_part, divisor}

infix 50 ◌≤D◌
abbrev pub ◌≤D◌ : Decimal → Decimal → Type 0
a ≤D b = leb_dec a b ≡ true

infix 50 ◌<D◌
abbrev pub ◌<D◌ : Decimal → Decimal → Type 0
a <D b = leb_dec b a ≡ false

-- A power of ten is positive.
pub pow_ten_pos : (k : ℕ) → 0 < 10 ^ k
pow_ten_pos k = pow-le-pow_right {n = 10} (omega arith) {i = 0} {j = k} (omega arith)

-- Two fractions compared in order, and a third: the middle divisor cancels.
cross_trans :
    (p q r m n o d e f : ℕ)
    → 0 < e
    → p * e + n * d ≤ q * d + m * e
    → q * f + o * e ≤ r * e + n * f
    → p * f + o * d ≤ r * d + m * f
cross_trans p q r m n o d e f some_e h k =
    let grown : (p * f + o * d) * e ≤ (r * d + m * f) * e =
      omega (arith, mul-le-mul_right f h, mul-le-mul_right d k) in
    le_of_mul-le-mul_right grown some_e

pub ≤D_refl : (a : Decimal) → a ≤D a
unfolding leb_dec
≤D_refl a = le→leb _ _ (omega arith)

pub ≤D_trans : (a b c : Decimal) → a ≤D b → b ≤D c → a ≤D c
unfolding leb_dec
≤D_trans a b c h k = le→leb _ _ (
    cross_trans (plus_part a) (plus_part b) (plus_part c) (minus_part a) (minus_part b)
      (minus_part c) (divisor a) (divisor b) (divisor c) (pow_ten_pos _) (leb→le _ _ h)
      (leb→le _ _ k))

pub ≤D_total : (a b : Decimal) → leb_dec a b ≡ false → b ≤D a
unfolding leb_dec
≤D_total a b h = ground arith
