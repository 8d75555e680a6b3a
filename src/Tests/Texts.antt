-- ===== src/Tests/Texts.antt =====
-- Numbers as texts, and amounts.
use ifg.Base.{◌<◌, ◌-ℤ◌, ℕ, ◌+◌, ◌*◌, ◌^◌, ◌≤◌, pos, magnitude, ◌≡◌, refl}
use ifg.Decimal.{Decimal, quantize, to_dec, is_integral, scale}
use ifg.Decimal.Rounding.{quantize_near, to_dec_exact}
use ifg.Numeral.Reading.{invoice_number-injective}

-- 1.2345 to two places
abbrev price : Decimal
price = record { coef = pos 12345; places = 4 }

quantize_near_example :
    (2 * magnitude (scale (quantize 2 price) (10 ^ 4) -ℤ scale (pos 12345) (10 ^ 2)) ≤ 10 ^ 4)
    × (2 * magnitude (scale (pos 12345) (10 ^ 2))
        < 2 * magnitude (scale (quantize 2 price) (10 ^ 4)) + 10 ^ 4)
quantize_near_example = quantize_near 2 price

-- 30.00
abbrev thirty : Decimal
thirty = record { coef = pos 3000; places = 2 }

to_dec_exact_example : scale (to_dec thirty) (10 ^ 2) ≡ scale (pos 3000) (10 ^ 4)
unfolding is_integral
to_dec_exact_example = to_dec_exact thirty refl

abbrev seven : ℕ
seven = 7

invoice_number-injective_example : (seven ≡ seven) × (seven ≡ seven) × (seven ≡ seven)
invoice_number-injective_example = invoice_number-injective seven seven seven seven seven seven refl
