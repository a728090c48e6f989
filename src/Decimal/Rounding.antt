-- ===== src/Decimal/Rounding.antt =====
-- What the rounding to 28 digits keeps: the sign, and every bound that has 28 digits itself.
use native.Mathlib.Nat.{
  le_of_mul-le-mul_right, mul-le-mul_right, pow-suc, pow-zero, div-add-mod, pow-le-pow_right,
  div-le_of_le-mul, lt_of_mul-lt-mul_left, add-zero, mul-one, mul-lt-mul_of_pos_right, add-suc,
}
use native.Mathlib.Decide.{dec_le}
use mathlib.Core.Path.{subst}
use stock_brain.Prelude.{
  ℕ, zero, suc, ◌+◌, ◌-◌, ◌*◌, ◌/◌, ◌%◌, ◌^◌, ◌≤◌, ◌<◌, ◌≡◌, sym, ap, ◌⊎◌, inl, inr, arith, ltb,
  Bool-cases,
}
use stock_brain.Decimal.{count_digits, digits, round_half_even}
use stock_brain.Decimal.Order.{pow_ten_pos}

pub pow-add : (b m n : ℕ) → b ^ (m + n) ≡ b ^ m * b ^ n
pow-add b m zero = rw (add-zero, pow-zero, mul-one)
pow-add b m (suc n) =
    rw (add-suc, pow-suc, pow-suc) (omega (arith, ap (λ (t : ℕ). t * b) (pow-add b m n)))

-- A number lies below the power of ten of its digits, and reaches the one before.
count_digits_bounds :
    (fuel n : ℕ)
    → n ≤ fuel
    → (n < 10 ^ count_digits fuel n) × (0 < n → 10 ^ count_digits fuel n ≤ n * 10)
unfolding count_digits
count_digits_bounds zero n h = (omega arith, λ some_n. absurd (omega arith))
count_digits_bounds (suc fuel) n h = elim (Bool-cases (ltb n 10)) [
  | inl small ↦ rw small (ground arith, λ some_n. ground arith)
  | inr large ↦
      let tenth : 10 ≤ n = ground arith in
      let ih = count_digits_bounds fuel (n / 10) (omega arith) in
      let c = count_digits fuel (n / 10) in
      let top : 10 ^ suc c ≡ 10 ^ c * 10 = pow-suc 10 c in
      let low = ih.1 (omega arith) in
      rw large (omega (arith, top, ih.0), λ _. omega (arith, top, low))
]

pub digits_bounds : (n : ℕ) → (n < 10 ^ digits n) × (0 < n → 10 ^ digits n ≤ n * 10)
unfolding digits
digits_bounds n = count_digits_bounds n n (omega arith)

-- Rounding keeps the quotient, or takes the next number if something was lost.
round_half_even_cases :
    (k m : ℕ)
    → (round_half_even k m ≡ m / 10 ^ k)
      ⊎ ((round_half_even k m ≡ m / 10 ^ k + 1) × (0 < m % 10 ^ k))
unfolding round_half_even
round_half_even_cases k m = ground (arith, pow_ten_pos k)

-- A multiple of the unit that bounds a number bounds what it rounds to.
round_half_even_le : (k m r : ℕ) → m ≤ r * 10 ^ k → round_half_even k m ≤ r
round_half_even_le k m r h =
    let whole_part : 10 ^ k * (m / 10 ^ k) + m % 10 ^ k ≡ m = div-add-mod m (10 ^ k) in
    elim (round_half_even_cases k m) [
      | inl same ↦ rw same (div-le_of_le-mul (10 ^ k) (omega (arith, h)))
      | inr (next, rest) ↦
          let below : 10 ^ k * (m / 10 ^ k) < 10 ^ k * r = omega (arith, whole_part, rest, h) in
          rw next (omega (arith, lt_of_mul-lt-mul_left (10 ^ k) below))
    ]

round_fits_above :
    (k m r x d : ℕ)
    → m * 10 ^ x ≤ r * 10 ^ (d + k + x)
    → round_half_even k m * 10 ^ k * 10 ^ x ≤ r * 10 ^ (d + k + x)
round_fits_above k m r x d =
    rw (pow-add 10 (d + k) x, pow-add 10 d k)
      λ h.
        let grown : m * 10 ^ x ≤ r * 10 ^ d * 10 ^ k * 10 ^ x = omega (arith, h) in
        let bound : m ≤ r * 10 ^ d * 10 ^ k = le_of_mul-le-mul_right grown (pow_ten_pos x) in
        let rounded = round_half_even_le k m (r * 10 ^ d) bound in
        let back = mul-le-mul_right (10 ^ x) (mul-le-mul_right (10 ^ k) rounded) in
        omega (arith, back)

-- A bound with no more digits than the context is no smaller than the unit that is rounded to.
unit_fits : (k m r x y : ℕ) → 10 ^ (27 + k) ≤ m → r < 10 ^ 28 → m * 10 ^ x ≤ r * 10 ^ y → x + k ≤ y
unit_fits k m r x y long short h = elim (dec_le (x + k) y) [
  | yes fits ↦ fits
  | no over ↦
      let powers : 10 ^ (28 + y) ≤ 10 ^ (27 + k + x) =
        pow-le-pow_right {n = 10} (omega arith) {i = 28 + y} {j = 27 + k + x} (omega arith) in
      let left = mul-le-mul_right (10 ^ x) long in
      let right = mul-lt-mul_of_pos_right short (pow_ten_pos y) in
      absurd (omega (arith, powers, left, right, h, pow-add 10 28 y, pow-add 10 (27 + k) x))
]

-- `m` units of `10 ^ x` are at most `r` units of `10 ^ y`, and stay so when rounded.
pub round_fits :
    (k m r x y : ℕ)
    → 10 ^ (27 + k) ≤ m
    → r < 10 ^ 28
    → m * 10 ^ x ≤ r * 10 ^ y
    → round_half_even k m * 10 ^ k * 10 ^ x ≤ r * 10 ^ y
round_fits k m r x y long short h =
    let fits = unit_fits k m r x y long short h in
    let split : y ≡ (y - (x + k)) + k + x = omega (arith, fits) in
    subst (λ z. m * 10 ^ x ≤ r * 10 ^ z → round_half_even k m * 10 ^ k * 10 ^ x ≤ r * 10 ^ z)
      (sym split) (round_fits_above k m r x (y - (x + k))) h
