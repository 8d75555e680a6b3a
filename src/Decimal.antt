-- ===== src/Decimal.antt =====
-- Python's `decimal.Decimal` as the services use it: a finite number with some places after the
-- point, and `quantize(…, rounding=ROUND_HALF_UP)` (`_to_dec` of
-- app/services/warehouse_document_service.py, `_TWO_PLACES` of app/services/invoice_totals.py).
-- A value with a fixed number of places is an integer: so many units of its last place.
pub mod Rounding
use ifg.Base.{
  ℕ, ◌+◌, ◌*◌, ◌/◌, ◌%◌, ◌^◌, ℤ, pos, neg_ℤ, magnitude, ltb_ℤ, leb_ℤ, eqb_ℤ, pos_part, neg_part,
  sub_ℕ, Bool, ◌==◌, if◌then◌else◌,
}

-- coef · 10^(-places)
pub record Decimal : Type 0 where
  pub coef : ℤ
  pub places : ℕ

-- The integer `a` times a natural number.
abbrev pub scale : ℤ → ℕ → ℤ
scale a k = sub_ℕ (pos_part a * k) (neg_part a * k)

-- The integer with the sign of `a` and the magnitude `n`.
abbrev pub with_sign : ℤ → ℕ → ℤ
with_sign a n = if ltb_ℤ a (pos 0) then sub_ℕ 0 n else pos n

-- n / d to the nearest whole number, a half away from zero.
abbrev pub half_up : ℕ → ℕ → ℕ
half_up n d = (2 * n + d) / (2 * d)

-- `d.quantize(Decimal(10) ** -p, rounding=ROUND_HALF_UP)`, in units of 10^(-p).
unfoldable pub quantize : ℕ → Decimal → ℤ
quantize p d = with_sign d.coef (half_up (magnitude d.coef * 10 ^ p) (10 ^ d.places))

-- A stored value with `p` places, as a `Decimal`.
abbrev pub of_units : ℕ → ℤ → Decimal
of_units p q = record { coef = q; places = p }

-- `warehouse_document_service._to_dec`: four places.
pub to_dec : Decimal → ℤ
unfolding quantize
to_dec d = quantize 4 d

-- `d == d.to_integral_value()`
unfoldable pub is_integral : Decimal → Bool
is_integral d = magnitude d.coef % 10 ^ d.places == 0

-- `d < 0`, `d == 0`, `d <= 0`
abbrev pub is_negative : Decimal → Bool
is_negative d = ltb_ℤ d.coef (pos 0)

abbrev pub is_zero : Decimal → Bool
is_zero d = eqb_ℤ d.coef (pos 0)

abbrev pub is_nonpositive : Decimal → Bool
is_nonpositive d = leb_ℤ d.coef (pos 0)
