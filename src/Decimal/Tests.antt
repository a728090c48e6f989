-- ===== src/Decimal/Tests.antt =====
-- Sums, products and quotients that Python prints in the same way.
use stock_brain.Prelude.{◌≡◌, refl, true, ◌^◌, ◌+◌, ◌*◌, ◌/◌}
use stock_brain.Decimal.{places, whole, add_dec, sub_dec, div_dec, quantize_down, leb_dec, quantize}

-- 0.1 + 0.25 is 0.35
sum_example : add_dec (places 1 1) (places 25 2) ≡ places 35 2
unfolding add_dec
sum_example = refl

-- 1 / 3 has 28 threes, and 2 / 3 rounds its last digit up.
third_example : div_dec (whole 1) (whole 3) ≡ places (10 ^ 28 / 3) 28
unfolding div_dec
third_example = refl

two_thirds_example : div_dec (whole 2) (whole 3) ≡ places (2 * 10 ^ 28 / 3 + 1) 28
unfolding div_dec
two_thirds_example = refl

-- 10 / 4 is 2.5, and 1000 / 10 is 1E+2 at no more places than the operands: 100.
exact_example : div_dec (whole 10) (whole 4) ≡ places 25 1
unfolding div_dec
exact_example = refl

hundred_example : div_dec (whole 1000) (whole 10) ≡ whole 100
unfolding div_dec
hundred_example = refl

floor_example : quantize_down 0 (places 299 2) ≡ whole 2
unfolding quantize_down
floor_example = refl

half_even_example : quantize 1 (places 25 2) ≡ places 2 1
unfolding quantize
half_even_example = refl

difference_example : leb_dec (sub_dec (whole 1) (places 15 1)) (whole 0) ≡ true
unfolding sub_dec leb_dec
difference_example = refl
