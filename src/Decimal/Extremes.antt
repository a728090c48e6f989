-- ===== src/Decimal/Extremes.antt =====
-- Minimum, maximum and rounding down, within their bounds.
use native.Mathlib.Nat.{mul-le-mul_right, div-mul-le_self, le_of_mul-le-mul_right, zero-add}
use stock_brain.Prelude.{ℕ, ◌+◌, ◌*◌, ◌/◌, ◌^◌, ◌≤◌, ◌≡◌, ap, arith}
use stock_brain.Prelude.Int.{pos, pos_part, neg_part, ◌+ℤ◌, sub_ℕ}
use stock_brain.Decimal.{Decimal, zero_dec, quantize_down, min_dec, max_dec}
use stock_brain.Decimal.Order.{◌≤D◌, pow_ten_pos, ≤D_refl, ≤D_total}
use stock_brain.Decimal.Bounds.{plain_le, shift_parts, power_swap}
use stock_brain.Decimal.Laws.{nonneg_form, plain_nonneg}

pub min_bounds : (a b : Decimal) → (min_dec a b ≤D a) × (min_dec a b ≤D b)
min_bounds a b = ground (arith, ≤D_refl a, ≤D_refl b, ≤D_total a b)

pub max_bounds : (a b : Decimal) → (a ≤D max_dec a b) × (b ≤D max_dec a b)
max_bounds a b = ground (arith, ≤D_refl a, ≤D_refl b, ≤D_total b a)

pub le-min : (c a b : Decimal) → c ≤D a → c ≤D b → c ≤D min_dec a b
le-min c a b h k = ground arith

pub max-le : (a b c : Decimal) → a ≤D c → b ≤D c → max_dec a b ≤D c
max-le a b c h k = ground arith

negated_parts : (n : ℕ) → (pos_part (sub_ℕ 0 n) ≡ 0) × (neg_part (sub_ℕ 0 n) ≡ n)
negated_parts n = ground arith

floor_units :
    (m n pk nk pe ne : ℕ)
    → pk + ne ≡ pe + n + nk
    → m * 10 ^ pk / 10 ^ nk * 10 ^ ne ≤ m * 10 ^ (pe + n)
floor_units m n pk nk pe ne parts =
    let swap : 10 ^ pk * 10 ^ ne ≡ 10 ^ (pe + n) * 10 ^ nk =
      power_swap pk ne (pe + n) nk (omega (arith, parts)) in
    let kept = mul-le-mul_right (10 ^ ne) (div-mul-le_self (m * 10 ^ pk) (10 ^ nk)) in
    let grown : m * 10 ^ pk / 10 ^ nk * 10 ^ ne * 10 ^ nk ≤ m * 10 ^ (pe + n) * 10 ^ nk =
      omega (arith, kept, ap (λ (t : ℕ). m * t) swap) in
    le_of_mul-le-mul_right grown (pow_ten_pos nk)

-- Rounding down to `n` places gives a value from zero to the one that is rounded.
pub quantize_down_bounds :
    (n : ℕ) (d : Decimal)
    → zero_dec ≤D d
    → (zero_dec ≤D quantize_down n d) × (quantize_down n d ≤D d)
unfolding quantize_down
quantize_down_bounds n d h =
    let (up, down) = negated_parts n in
    let k = d.exponent +ℤ pos n in
    let units =
      floor_units (pos_part d.coefficient) n (pos_part k) (neg_part k) (pos_part d.exponent)
        (neg_part d.exponent) (shift_parts d.exponent n) in
    rw (nonneg_form d h)
      (plain_nonneg _ _, plain_le _ _ (sub_ℕ 0 n) d.exponent (rw (up, down, zero-add) units))
