-- ===== src/Decimal.antt =====
-- Python's `decimal.Decimal` as the program uses it: finite values, in the default context.
pub mod Order
pub mod Rounding
pub mod Bounds
pub mod Laws
pub mod Extremes
mod Tests
use stock_brain.Prelude.{
  ℕ, zero, suc, ◌+◌, ◌-◌, ◌*◌, ◌/◌, ◌%◌, ◌^◌, Bool, not, ◌&&◌, ◌||◌, leb, ltb, ◌==◌, if◌then◌else◌,
  List, [], ◌∷◌, Option, none, some,
}
use stock_brain.Prelude.Int.{ℤ, pos, negsuc, pos_part, neg_part, sub_ℕ, ◌+ℤ◌, ◌-ℤ◌, ◌*ℤ◌, leb_ℤ}

-- The value is `coefficient * 10 ^ exponent`.
pub record Decimal : Type 0 where
  pub coefficient : ℤ
  pub exponent : ℤ

-- A positive or negative value over a power of ten.
abbrev pub plus_part : Decimal → ℕ
plus_part d = pos_part d.coefficient * 10 ^ pos_part d.exponent

abbrev pub minus_part : Decimal → ℕ
minus_part d = neg_part d.coefficient * 10 ^ pos_part d.exponent

abbrev pub divisor : Decimal → ℕ
divisor d = 10 ^ neg_part d.exponent

-- Comparisons are exact, and do not look at how a value is represented.
unfoldable pub leb_dec : Decimal → Decimal → Bool
leb_dec a b =
    leb (plus_part a * divisor b + minus_part b * divisor a)
      (plus_part b * divisor a + minus_part a * divisor b)

abbrev pub ltb_dec : Decimal → Decimal → Bool
ltb_dec a b = not (leb_dec b a)

abbrev pub eqb_dec : Decimal → Decimal → Bool
eqb_dec a b = leb_dec a b && leb_dec b a

abbrev pub whole : ℕ → Decimal
whole n = record { coefficient = pos n; exponent = pos 0 }

abbrev pub zero_dec : Decimal
zero_dec = whole 0

-- `Decimal("0.5")` is `places 5 1`: a numeral with so many digits after the point.
abbrev pub places : ℕ → ℕ → Decimal
places n k = record { coefficient = pos n; exponent = sub_ℕ 0 k }

-- Python's `min` and `max` keep the first of two equal values.
abbrev pub min_dec : Decimal → Decimal → Decimal
min_dec a b = if ltb_dec b a then b else a

abbrev pub max_dec : Decimal → Decimal → Decimal
max_dec a b = if ltb_dec a b then b else a

-- The digits of the default context.
abbrev pub precision : ℕ
precision = 28

-- The decimal digits of a number, at least one. A number itself is fuel enough.
unfoldable pub count_digits : ℕ → ℕ → ℕ
count_digits zero n = 1
count_digits (suc fuel) n =
    let more = suc (count_digits fuel (n / 10)) in if ltb n 10 then 1 else more

unfoldable pub digits : ℕ → ℕ
unfolding count_digits
digits n = count_digits n n

-- Drops the last `k` digits: to the nearest, and to the even one of two that are as near.
unfoldable pub round_half_even : ℕ → ℕ → ℕ
round_half_even k m =
    let kept = m / 10 ^ k in
    let lost = m % 10 ^ k * 2 in
    if ltb (10 ^ k) lost || ((lost == 10 ^ k) && (kept % 2 == 1)) then kept + 1 else kept

abbrev pub magnitude : ℤ → ℕ
magnitude (pos n) = n
magnitude (negsuc n) = suc n

-- A magnitude under the sign of another number.
abbrev pub with_sign : ℤ → ℕ → ℤ
with_sign (pos _) m = pos m
with_sign (negsuc _) m = sub_ℕ 0 m

-- A coefficient that rounds up to one digit more than the context has loses its last zero.
abbrev pub carry : ℤ → ℕ → ℤ → Decimal
carry sign m e =
    if m == 10 ^ precision
    then record { coefficient = with_sign sign (10 ^ 27); exponent = e +ℤ pos 1 }
    else record { coefficient = with_sign sign m; exponent = e }

-- What every operation does to its exact result.
unfoldable pub fix : ℤ → ℤ → Decimal
unfolding round_half_even digits ◌+ℤ◌
fix c e =
    let excess = digits (magnitude c) - precision in
    if excess == 0
    then record { coefficient = c; exponent = e }
    else carry c (round_half_even excess (magnitude c)) (e +ℤ pos excess)

-- The coefficient at a smaller exponent.
abbrev pub scale_to : ℤ → Decimal → ℤ
scale_to e d = d.coefficient *ℤ pos (10 ^ pos_part (d.exponent -ℤ e))

unfoldable pub add_dec : Decimal → Decimal → Decimal
unfolding fix ◌+ℤ◌ ◌-ℤ◌ ◌*ℤ◌
add_dec a b =
    let e : ℤ = if leb_ℤ a.exponent b.exponent then a.exponent else b.exponent in
    fix (scale_to e a +ℤ scale_to e b) e

abbrev pub opposite : ℤ → ℤ
opposite (pos n) = sub_ℕ 0 n
opposite (negsuc n) = pos (suc n)

unfoldable pub sub_dec : Decimal → Decimal → Decimal
unfolding add_dec
sub_dec a b = add_dec a (record b { coefficient = opposite b.coefficient })

unfoldable pub neg_dec : Decimal → Decimal
unfolding fix
neg_dec a = fix (opposite a.coefficient) a.exponent

unfoldable pub abs_dec : Decimal → Decimal
unfolding fix
abs_dec a = fix (pos (magnitude a.coefficient)) a.exponent

unfoldable pub mul_dec : Decimal → Decimal → Decimal
unfolding fix ◌*ℤ◌ ◌+ℤ◌
mul_dec a b = fix (a.coefficient *ℤ b.coefficient) (a.exponent +ℤ b.exponent)

-- An exact quotient keeps no more zeros than the difference of the exponents asks for.
unfoldable pub strip_zeros : ℕ → ℕ → ℤ → ℕ × ℤ
strip_zeros zero m e = (m, e)
strip_zeros (suc left) m e =
    let rest = strip_zeros left (m / 10) (e +ℤ pos 1) in if m % 10 == 0 then rest else (m, e)

-- The digits of a quotient, with a last digit that shows a remainder.
unfoldable pub quotient : ℤ → Decimal → Decimal → Decimal
unfolding strip_zeros digits fix ◌+ℤ◌ ◌-ℤ◌
quotient sign a b =
    let m = magnitude a.coefficient in
    let n = magnitude b.coefficient in
    let shift = sub_ℕ (digits n + precision + 1) (digits m) in
    let e = (a.exponent -ℤ b.exponent) -ℤ shift in
    let upper = m * 10 ^ pos_part shift in
    let lower = n * 10 ^ neg_part shift in
    let q = upper / lower in
    let exact = strip_zeros (pos_part shift) q e in
    if upper % lower == 0
    then fix (with_sign sign exact.0) exact.1
    else fix (with_sign sign (if q % 5 == 0 then q + 1 else q)) e

-- The program divides by positive values only; a divisor of zero, which raises, gives zero here.
unfoldable pub div_dec : Decimal → Decimal → Decimal
unfolding quotient ◌*ℤ◌ ◌-ℤ◌
div_dec a b =
    if magnitude a.coefficient == 0
    then record { coefficient = pos 0; exponent = a.exponent -ℤ b.exponent }
    else quotient (a.coefficient *ℤ b.coefficient) a b

-- `d.quantize(Decimal(1).scaleb(-n), rounding=ROUND_DOWN)`
unfoldable pub quantize_down : ℕ → Decimal → Decimal
unfolding ◌+ℤ◌
quantize_down n d =
    let k = d.exponent +ℤ pos n in
    record {
      coefficient =
          with_sign d.coefficient (magnitude d.coefficient * 10 ^ pos_part k / 10 ^ neg_part k);
      exponent = sub_ℕ 0 n;
    }

-- `d.quantize(Decimal(1).scaleb(-n))`
unfoldable pub quantize : ℕ → Decimal → Decimal
unfolding ◌+ℤ◌ round_half_even
quantize n d =
    let k = d.exponent +ℤ pos n in
    record {
      coefficient =
          with_sign d.coefficient
            (round_half_even (neg_part k) (magnitude d.coefficient * 10 ^ pos_part k));
      exponent = sub_ℕ 0 n;
    }

-- `d.quantize(Decimal(1).scaleb(-n), rounding=ROUND_CEILING)`
unfoldable pub quantize_ceiling : ℕ → Decimal → Decimal
unfolding ◌+ℤ◌
quantize_ceiling n d =
    let k = d.exponent +ℤ pos n in
    let scaled = magnitude d.coefficient * 10 ^ pos_part k in
    let whole_part = scaled / 10 ^ neg_part k in
    let up : ℕ = elim d.coefficient [
      | pos _ ↦ if scaled % 10 ^ neg_part k == 0 then whole_part else whole_part + 1
      | negsuc _ ↦ whole_part
    ] in
    record { coefficient = with_sign d.coefficient up; exponent = sub_ℕ 0 n }

-- Opens every operation, for the tests.
unfoldable pub decimal_operations : Unit {0}
unfolding leb_dec add_dec sub_dec neg_dec abs_dec mul_dec div_dec quantize_down quantize
    quantize_ceiling
decimal_operations = tt
