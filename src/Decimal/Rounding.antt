-- ===== src/Decimal/Rounding.antt =====
-- Rounding half up: how far it moves a value, and what it leaves alone.
use native.Mathlib.Nat.{one-le-pow, div-add-mod, mul-mod_right, mul_assoc}
use mathlib.Core.Path.{subst}
use ifg.Base.{
  ℕ, ◌+◌, ◌*◌, ◌/◌, ◌%◌, ◌^◌, ◌≤◌, ◌<◌, ◌≡◌, true, false, ℤ, ◌≤ℤ◌, ◌-ℤ◌, sub_ℕ, zero, suc, pos,
  pos_part, neg_part, magnitude, arith, negsuc,
}
use ifg.Decimal.{
  Decimal, quantize, to_dec, half_up, with_sign, of_units, is_integral, is_negative, scale,
}

half_up_near :
    (n d : ℕ)
    → 0 < d
    → (2 * n < 2 * (d * half_up n d) + d + 1) × (2 * (d * half_up n d) ≤ 2 * n + d)
half_up_near n d h = grind arith

half_up_mul : (n d : ℕ) → 0 < d → half_up (n * d) d ≡ n
half_up_mul n d h = grind arith

half_up_of_mod : (n d : ℕ) → 0 < d → n % d ≡ 0 → d * half_up n d ≡ n
half_up_of_mod n d h e = grind arith

pow10_pos : (p : ℕ) → 0 < 10 ^ p
pow10_pos p = one-le-pow p 10 (omega arith)

magnitude-with_sign : (a : ℤ) (n : ℕ) → magnitude (with_sign a n) ≡ n
magnitude-with_sign a n = ground arith

with_sign_self : (a : ℤ) → with_sign a (magnitude a) ≡ a
with_sign_self (pos n) = ground arith
with_sign_self (negsuc n) = ground arith

-- Two multiples of a unit that are near, and their negatives
near_above :
    (x y r : ℕ)
    → 2 * y < 2 * x + r
    → 2 * x ≤ 2 * y + r
    → (2 * magnitude (pos x -ℤ pos y) ≤ r) × (2 * magnitude (pos y) < 2 * magnitude (pos x) + r)
unfolding ◌-ℤ◌
near_above x y r below above = ground arith

near_below :
    (x y r : ℕ)
    → 2 * y < 2 * x + r
    → 2 * x ≤ 2 * y + r
    → (2 * magnitude (sub_ℕ 0 x -ℤ sub_ℕ 0 y) ≤ r)
      × (2 * magnitude (sub_ℕ 0 y) < 2 * magnitude (sub_ℕ 0 x) + r)
unfolding ◌-ℤ◌
near_below x y r below above = ground arith

scale-pos : (m k : ℕ) → scale (pos m) k ≡ pos (m * k)
scale-pos m k = grind arith

scale-negsuc : (m k : ℕ) → scale (negsuc m) k ≡ sub_ℕ 0 (suc m * k)
scale-negsuc m k = grind arith

scale-sub_ℕ : (n r : ℕ) → scale (sub_ℕ 0 n) r ≡ sub_ℕ 0 (n * r)
scale-sub_ℕ zero r = grind arith
scale-sub_ℕ (suc n) r = grind arith

scale-with_sign_pos : (m n r : ℕ) → scale (with_sign (pos m) n) r ≡ pos (n * r)
scale-with_sign_pos m n r = grind arith

scale-with_sign_negsuc : (m n r : ℕ) → scale (with_sign (negsuc m) n) r ≡ sub_ℕ 0 (n * r)
scale-with_sign_negsuc m zero r = grind arith
scale-with_sign_negsuc m (suc n) r = grind arith

near_terms :
    {a b x y : ℤ} {r : ℕ}
    → (2 * magnitude (x -ℤ y) ≤ r) × (2 * magnitude y < 2 * magnitude x + r)
    → a ≡ x
    → b ≡ y
    → (2 * magnitude (a -ℤ b) ≤ r) × (2 * magnitude b < 2 * magnitude a + r)
near_terms near e f = rw (e, f) near

-- A magnitude that is near stays near under the sign of the value.
near-with_sign :
    (a : ℤ) (n k r : ℕ)
    → 2 * (magnitude a * k) < 2 * (r * n) + r
    → 2 * (r * n) ≤ 2 * (magnitude a * k) + r
    → (2 * magnitude (scale (with_sign a n) r -ℤ scale a k) ≤ r)
      × (2 * magnitude (scale a k) < 2 * magnitude (scale (with_sign a n) r) + r)
near-with_sign (pos m) n k r below above =
    near_terms (near_above (n * r) (m * k) r (grind arith) (grind arith))
      (scale-with_sign_pos m n r) (scale-pos m k)
near-with_sign (negsuc m) n k r below above =
    near_terms (near_below (n * r) (suc m * k) r (grind arith) (grind arith))
      (scale-with_sign_negsuc m n r) (scale-negsuc m k)

half_up_strict : (n d : ℕ) → 0 < d → 2 * n < 2 * (d * half_up n d) + d
half_up_strict n d h = grind arith

-- The rounded value differs from the exact one, sign included, by at most half a unit of the last place
-- kept, and one that lies halfway between two goes away from zero.
pub quantize_near :
    (p : ℕ) (d : Decimal)
    → let exact = scale d.coef (10 ^ p) in
      let rounded = scale (quantize p d) (10 ^ d.places) in
      (2 * magnitude (rounded -ℤ exact) ≤ 10 ^ d.places)
      × (2 * magnitude exact < 2 * magnitude rounded + 10 ^ d.places)
unfolding quantize
quantize_near p d =
    near-with_sign d.coef (half_up (magnitude d.coef * 10 ^ p) (10 ^ d.places)) (10 ^ p)
      (10 ^ d.places)
      (half_up_strict (magnitude d.coef * 10 ^ p) (10 ^ d.places) (pow10_pos d.places))
      (half_up_near (magnitude d.coef * 10 ^ p) (10 ^ d.places) (pow10_pos d.places)).1

-- What is stored with `p` places is not moved.
pub quantize-of_units : (p : ℕ) (q : ℤ) → quantize p (of_units p q) ≡ q
unfolding quantize
quantize-of_units p q = rw (half_up_mul (magnitude q) (10 ^ p) (pow10_pos p)) (with_sign_self q)

-- A value keeps its sign, or becomes zero.
pub quantize_sign :
    (p : ℕ) (d : Decimal)
    → (is_negative d ≡ false → neg_part (quantize p d) ≡ 0)
      × (is_negative d ≡ true → pos_part (quantize p d) ≡ 0)
unfolding quantize
quantize_sign p d = (λ h. rw h, λ h. ground arith)

to_dec-of_units : (q : ℤ) → to_dec (of_units 4 q) ≡ q
unfolding to_dec
to_dec-of_units q = quantize-of_units 4 q

mul-mod_zero : (q k d : ℕ) → d * q * k % d ≡ 0
mul-mod_zero q k d = rw mul_assoc (mul-mod_right d (q * k))

mod-mul_zero : (m k d : ℕ) → 0 < d → m % d ≡ 0 → m * k % d ≡ 0
mod-mul_zero m k d h e =
    let whole : d * (m / d) ≡ m = omega (arith, div-add-mod m d) in
    subst (λ t. t * k % d ≡ 0) whole (mul-mod_zero (m / d) k d)

scale-with_sign :
    (a : ℤ) (n k r : ℕ) → r * n ≡ magnitude a * k → scale (with_sign a n) r ≡ scale a k
scale-with_sign (pos m) n k r h = ground arith
scale-with_sign (negsuc m) n k r h = grind arith

-- A whole number is stored exactly.
pub to_dec_exact :
    (d : Decimal) → is_integral d ≡ true → scale (to_dec d) (10 ^ d.places) ≡ scale d.coef (10 ^ 4)
unfolding to_dec is_integral
to_dec_exact d h =
    scale-with_sign d.coef (half_up (magnitude d.coef * 10 ^ 4) (10 ^ d.places)) (10 ^ 4)
      (10 ^ d.places)
      (half_up_of_mod (magnitude d.coef * 10 ^ 4) (10 ^ d.places) (pow10_pos d.places) (
        mod-mul_zero (magnitude d.coef) (10 ^ 4) (10 ^ d.places) (pow10_pos d.places)
          (ground arith)))

-- A value that is not negative is stored as one.
pub to_dec_sign : (d : Decimal) → is_negative d ≡ false → pos 0 ≤ℤ to_dec d
unfolding to_dec
to_dec_sign d h = omega (arith, (quantize_sign 4 d).0 h)
