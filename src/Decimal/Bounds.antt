-- ===== src/Decimal/Bounds.antt =====
-- Sign and bounds of the results of the operations.
use native.Mathlib.Nat.{le_of_mul-le-mul_right, mul-le-mul_right, eq-zero-or-pos, pow-suc}
use stock_brain.Prelude.{
  ℕ, suc, ◌+◌, ◌-◌, ◌*◌, ◌^◌, ◌≤◌, ◌<◌, ◌≡◌, refl, ap, ◌∙◌, inl, inr, arith, leb→le, le→leb, ◌==◌,
  Bool-cases,
}
use stock_brain.Prelude.Int.{ℤ, pos, pos_part, neg_part, ◌+ℤ◌}
use stock_brain.Decimal.{Decimal, leb_dec, digits, round_half_even, fix, precision, carry}
use stock_brain.Decimal.Order.{◌≤D◌, pow_ten_pos}
use stock_brain.Decimal.Rounding.{pow-add, digits_bounds, round_fits}

-- A value that is not negative.
abbrev pub plain : ℕ → ℤ → Decimal
plain m e = record { coefficient = pos m; exponent = e }

-- The order of two values that are not negative, in units of powers of ten.
pub plain_le :
    (m r : ℕ) (e f : ℤ)
    → m * 10 ^ (pos_part e + neg_part f) ≤ r * 10 ^ (pos_part f + neg_part e)
    → plain m e ≤D plain r f
unfolding leb_dec
plain_le m r e f h = le→leb _ _ (
    omega (
      arith,
      h,
      ap (λ (t : ℕ). m * t) (pow-add 10 (pos_part e) (neg_part f)),
      ap (λ (t : ℕ). r * t) (pow-add 10 (pos_part f) (neg_part e)),
    ))

pub plain_units :
    (m r : ℕ) (e f : ℤ)
    → plain m e ≤D plain r f
    → m * 10 ^ (pos_part e + neg_part f) ≤ r * 10 ^ (pos_part f + neg_part e)
unfolding leb_dec
plain_units m r e f h = omega (
  arith,
  leb→le _ _ h,
  ap (λ (t : ℕ). m * t) (pow-add 10 (pos_part e) (neg_part f)),
  ap (λ (t : ℕ). r * t) (pow-add 10 (pos_part f) (neg_part e)),
)

-- An exponent that grows by `k`, in its positive and negative parts.
pub shift_parts :
    (e : ℤ) (k : ℕ) → pos_part (e +ℤ pos k) + neg_part e ≡ pos_part e + k + neg_part (e +ℤ pos k)
unfolding ◌+ℤ◌
shift_parts e k = ground arith

pub power_swap : (a b c d : ℕ) → a + b ≡ c + d → 10 ^ a * 10 ^ b ≡ 10 ^ c * 10 ^ d
power_swap a b c d h = rw (← pow-add 10 a b, ← pow-add 10 c d, h)

-- `m` units that are a power of ten larger.
units_shift :
    (m r k p n p' n' u v : ℕ)
    → p' + n ≡ p + k + n'
    → m * 10 ^ k * 10 ^ (p + v) ≤ r * 10 ^ (u + n)
    → m * 10 ^ (p' + v) ≤ r * 10 ^ (u + n')
units_shift m r k p n p' n' u v parts h =
    let left : 10 ^ (p' + v) * 10 ^ n ≡ 10 ^ (k + (p + v)) * 10 ^ n' =
      power_swap (p' + v) n (k + (p + v)) n' (omega (arith, parts)) in
    let right : 10 ^ (u + n') * 10 ^ n ≡ 10 ^ (u + n) * 10 ^ n' =
      power_swap (u + n') n (u + n) n' (omega arith) in
    let grown : m * 10 ^ (p' + v) * 10 ^ n ≤ r * 10 ^ (u + n') * 10 ^ n = omega (
      arith,
      ap (λ (t : ℕ). m * t) left,
      ap (λ (t : ℕ). r * t) right,
      ap (λ (t : ℕ). m * (t * 10 ^ n')) (pow-add 10 k (p + v)),
      mul-le-mul_right (10 ^ n') h,
    ) in
    le_of_mul-le-mul_right grown (pow_ten_pos n)

plain_shift :
    (m r k : ℕ) (e f : ℤ)
    → m * 10 ^ k * 10 ^ (pos_part e + neg_part f) ≤ r * 10 ^ (pos_part f + neg_part e)
    → plain m (e +ℤ pos k) ≤D plain r f
plain_shift m r k e f h = plain_le m r (e +ℤ pos k) f (
    units_shift m r k (pos_part e) (neg_part e) (pos_part (e +ℤ pos k)) (neg_part (e +ℤ pos k))
      (pos_part f) (neg_part f) (shift_parts e k) h)

-- A coefficient that a carry shortens keeps its value.
carry_le : (m s r : ℕ) (e f : ℤ) → plain m e ≤D plain r f → carry (pos s) m e ≤D plain r f
carry_le m s r e f h = elim (Bool-cases (m == 10 ^ precision)) [
  | inl full ↦
      let same : m ≡ 10 ^ 28 = ground (arith, full) in
      let units = plain_units m r e f h in
      rw full (plain_shift (10 ^ 27) r 1 e f (rw same at units))
  | inr room ↦ rw room h
]

digits_zero : digits 0 ≡ 1
unfolding digits
digits_zero = refl

-- A coefficient with `k` digits too many is at least so large.
excess_bound : (m k : ℕ) → digits m - precision ≡ suc k → 10 ^ (27 + suc k) ≤ m
excess_bound m k h = elim (eq-zero-or-pos m) [
  | inl nothing ↦ absurd (omega (arith, ap digits nothing, digits_zero))
  | inr some_m ↦
      let low = (digits_bounds m).1 some_m in
      let count : digits m ≡ suc (27 + suc k) = omega (arith, h) in
      let power : 10 ^ digits m ≡ 10 ^ (27 + suc k) * 10 =
        ap (λ (t : ℕ). 10 ^ t) count ∙ pow-suc 10 (27 + suc k) in
      omega (arith, power, low)
]

-- Rounding a value to the digits of the context does not take it over a bound of as many digits.
pub fix_le : (m r : ℕ) (e f : ℤ) → r < 10 ^ 28 → plain m e ≤D plain r f → fix (pos m) e ≤D plain r f
unfolding fix
fix_le m r e f short h = elim (Bool-cases (digits m - precision == 0)) [
  | inl exact ↦ rw exact h
  | inr more ↦
      let k = digits m - precision in
      let count : k ≡ suc (k - 1) = ground (arith, more) in
      let long = excess_bound m (k - 1) count in
      rw more (
        carry_le (round_half_even k m) m r (e +ℤ pos k) f (
          plain_shift (round_half_even k m) r k e f
            (round_fits k m r _ _ (rw (← count) at long) short (plain_units m r e f h))))
]
