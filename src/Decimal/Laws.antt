-- ===== src/Decimal/Laws.antt =====
-- The laws of the operations that the risk rules rely on.
use native.Mathlib.Nat.{
  mul-le-mul_right, mul-le-mul_left, add-zero, zero-add, one-mul, le_of_mul-le-mul_right,
}
use mathlib.Core.Path.{ap₂, subst}
use stock_brain.Prelude.{
  ℕ, ◌+◌, ◌-◌, ◌*◌, ◌^◌, ◌≤◌, ◌<◌, ◌≡◌, refl, sym, ap, ◌∙◌, inl, inr, arith, leb→le, ◌==◌,
  Bool-cases,
}
use stock_brain.Prelude.Int.{ℤ, pos, negsuc, pos_part, neg_part, ◌+ℤ◌, ◌*ℤ◌}
use stock_brain.Decimal.{
  Decimal, leb_dec, digits, fix, precision, magnitude, zero_dec, carry, mul_dec, whole,
}
use stock_brain.Decimal.Order.{◌≤D◌, pow_ten_pos, ≤D_trans}
use stock_brain.Decimal.Bounds.{plain, plain_le, plain_units, fix_le, power_swap}

abbrev pub one_dec : Decimal
one_dec = whole 1

-- The digits of the context hold the coefficient.
abbrev pub Fits : Decimal → Type 0
Fits d = magnitude d.coefficient < 10 ^ 28

-- A value that is not negative has a coefficient that is not.
pub nonneg_form : (d : Decimal) → zero_dec ≤D d → d.coefficient ≡ pos (pos_part d.coefficient)
unfolding leb_dec
nonneg_form d h = form d.coefficient (leb→le _ _ h)
  where
    form :
        (c : ℤ)
        → 0 * 10 ^ 0 * 10 ^ neg_part d.exponent + neg_part c * 10 ^ pos_part d.exponent * 10 ^ 0
          ≤ pos_part c * 10 ^ pos_part d.exponent * 10 ^ 0 + 0 * 10 ^ 0 * 10 ^ neg_part d.exponent
        → c ≡ pos (pos_part c)
    form (pos n) le = refl
    form (negsuc n) le = absurd (grind (arith, pow_ten_pos (pos_part d.exponent)))

pub plain_nonneg : (m : ℕ) (e : ℤ) → zero_dec ≤D plain m e
plain_nonneg m e = plain_le 0 m (pos 0) e (omega arith)

carry_nonneg : (m s : ℕ) (e : ℤ) → zero_dec ≤D carry (pos s) m e
carry_nonneg m s e = elim (Bool-cases (m == 10 ^ precision)) [
  | inl full ↦ rw full (plain_nonneg _ _)
  | inr room ↦ rw room (plain_nonneg _ _)
]

pub fix_nonneg : (m : ℕ) (e : ℤ) → zero_dec ≤D fix (pos m) e
unfolding fix
fix_nonneg m e = elim (Bool-cases (digits m - precision == 0)) [
  | inl exact ↦ rw exact (plain_nonneg m e)
  | inr more ↦ rw more (carry_nonneg _ m _)
]

pos-mul : (m n : ℕ) → pos m *ℤ pos n ≡ pos (m * n)
unfolding ◌*ℤ◌
pos-mul m n = ground arith

-- The product of two values that are not negative.
mul_form :
    (a b : Decimal)
    → zero_dec ≤D a
    → zero_dec ≤D b
    → mul_dec a b
      ≡ fix (pos (pos_part a.coefficient * pos_part b.coefficient)) (a.exponent +ℤ b.exponent)
unfolding mul_dec
mul_form a b ha hb =
    let product : a.coefficient *ℤ b.coefficient
        ≡ pos (pos_part a.coefficient * pos_part b.coefficient) =
      ap₂ ◌*ℤ◌ (nonneg_form a ha) (nonneg_form b hb) ∙ pos-mul _ _ in
    ap (λ c. fix c (a.exponent +ℤ b.exponent)) product

pub mul_nonneg : (a b : Decimal) → zero_dec ≤D a → zero_dec ≤D b → zero_dec ≤D mul_dec a b
mul_nonneg a b ha hb = rw (mul_form a b ha hb) (fix_nonneg _ _)

+ℤ_parts :
    (a b : ℤ)
    → pos_part (a +ℤ b) + neg_part a + neg_part b ≡ neg_part (a +ℤ b) + pos_part a + pos_part b
unfolding ◌+ℤ◌
+ℤ_parts a b = ground arith

units_scaled :
    (n u v p pe ne pf nf : ℕ)
    → p + ne + nf ≡ u + pe + pf
    → n * 10 ^ pf ≤ 10 ^ nf
    → v ≡ u + pe
    → n * 10 ^ (p + ne) ≤ 10 ^ v
units_scaled n u v p pe ne pf nf parts h e =
    let left : 10 ^ (p + ne) * 10 ^ nf ≡ 10 ^ pf * 10 ^ v =
      power_swap (p + ne) nf pf v (omega (arith, parts, e)) in
    let grown : n * 10 ^ (p + ne) * 10 ^ nf ≤ 10 ^ v * 10 ^ nf =
      omega (arith, ap (λ (t : ℕ). n * t) left, mul-le-mul_right (10 ^ v) h) in
    le_of_mul-le-mul_right grown (pow_ten_pos nf)

-- An exact product by a factor of at most one is no larger.
exact_le : (m n : ℕ) (e f : ℤ) → plain n f ≤D one_dec → plain (m * n) (e +ℤ f) ≤D plain m e
exact_le m n e f h =
    let units = plain_units n 1 f (pos 0) h in
    let factor : n * 10 ^ pos_part f ≤ 10 ^ neg_part f =
      (rw (add-zero, zero-add, one-mul) at units) in
    let scaled =
      units_scaled n (neg_part (e +ℤ f)) (pos_part e + neg_part (e +ℤ f)) (pos_part (e +ℤ f))
        (pos_part e) (neg_part e) (pos_part f) (neg_part f) (+ℤ_parts e f) factor (omega arith) in
    plain_le (m * n) m (e +ℤ f) e (omega (arith, mul-le-mul_left m scaled))

eta : (d : Decimal) → zero_dec ≤D d → d ≡ plain (pos_part d.coefficient) d.exponent
eta d h = ap (λ c. record { coefficient = c; exponent = d.exponent }) (nonneg_form d h)

-- A factor of at most one does not make a value larger.
pub mul_le_left :
    (a b : Decimal) → Fits a → zero_dec ≤D a → zero_dec ≤D b → b ≤D one_dec → mul_dec a b ≤D a
mul_le_left a b fits ha hb h =
    let m = pos_part a.coefficient in
    let short : m < 10 ^ 28 = (rw (ap magnitude (nonneg_form a ha)) at fits) in
    let bound = exact_le m (pos_part b.coefficient) a.exponent b.exponent (rw (← eta b hb) h) in
    let rounded = fix_le _ m (a.exponent +ℤ b.exponent) a.exponent short bound in
    rw (mul_form a b ha hb) (
      subst (λ d. fix (pos (m * pos_part b.coefficient)) (a.exponent +ℤ b.exponent) ≤D d)
        (sym (eta a ha)) rounded)

-- Two factors of at most one have a product of at most one.
pub mul_le_one :
    (a b : Decimal)
    → zero_dec ≤D a
    → zero_dec ≤D b
    → a ≤D one_dec
    → b ≤D one_dec
    → mul_dec a b ≤D one_dec
mul_le_one a b ha hb h k =
    let m = pos_part a.coefficient in
    let bound = exact_le m (pos_part b.coefficient) a.exponent b.exponent (rw (← eta b hb) k) in
    let one : plain m a.exponent ≤D one_dec = rw (← eta a ha) h in
    rw (mul_form a b ha hb)
      (fix_le _ 1 (a.exponent +ℤ b.exponent) (pos 0) (omega arith) (≤D_trans _ _ _ bound one))
