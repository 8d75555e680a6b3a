-- ===== src/Invoices/Nip/OneDigit.antt =====
-- The checksum of a tax number notices every single wrong digit: `_is_valid_nip` of
-- app/domain/models/invoice.py.
use ifg.Base.{
  ℕ, zero, suc, ◌+◌, ◌-◌, ◌*◌, ◌%◌, ◌≤◌, ◌<◌, true, false, List, [], ◌∷◌, ◌++◌, length, All, ◌≡◌,
  ◌≢◌, ◌⊎◌, inl, inr, refl, ap, Bool-cases, arith,
}
use ifg.Invoices.Items.{Chars, strip_left, cons_unless_blank, strip_right, strip}
use ifg.Invoices.Nip.{
  nip_weights, without_separators, weighted_sum, last_digit, checksum_ok, is_valid_nip,
}

-- A digit of ASCII
abbrev IsDigit : ℕ → Type 0
IsDigit c = (b'0' ≤ c) × (c ≤ b'9')

strip_left-middle :
    (before after : Chars) (c : ℕ)
    → IsDigit c
    → strip_left (before ++ c ∷ after) ≡ strip_left before ++ c ∷ after
strip_left-middle [] after c h = ground arith
strip_left-middle (x ∷ before) after c h = ground (arith, strip_left-middle before after c h)

cons_unless_blank-middle :
    (x : ℕ) (before after : Chars) (c : ℕ)
    → cons_unless_blank x (before ++ c ∷ after) ≡ x ∷ before ++ c ∷ after
cons_unless_blank-middle x [] after c = refl
cons_unless_blank-middle x (y ∷ before) after c = refl

cons_unless_blank-digit :
    (c : ℕ) (after : Chars) → IsDigit c → cons_unless_blank c after ≡ c ∷ after
cons_unless_blank-digit c [] h = ground arith
cons_unless_blank-digit c (y ∷ after) h = refl

strip_right-middle :
    (before after : Chars) (c : ℕ)
    → IsDigit c
    → strip_right (before ++ c ∷ after) ≡ before ++ c ∷ strip_right after
strip_right-middle [] after c h = cons_unless_blank-digit c (strip_right after) h
strip_right-middle (x ∷ before) after c h =
    rw (strip_right-middle before after c h)
      (cons_unless_blank-middle x before (strip_right after) c)

without_separators-middle :
    (before after : Chars) (c : ℕ)
    → IsDigit c
    → without_separators (before ++ c ∷ after)
      ≡ without_separators before ++ c ∷ without_separators after
without_separators-middle [] after c h = ground arith
without_separators-middle (x ∷ before) after c h =
    ground (arith, without_separators-middle before after c h)

-- The weight of the digit at a position
abbrev weight : List ℕ → ℕ → ℕ
weight [] n = 0
weight (w ∷ ws) zero = w
weight (w ∷ ws) (suc n) = weight ws n

weighted_sum-middle :
    (ws : List ℕ) (before after : Chars) (c : ℕ)
    → weighted_sum ws (before ++ c ∷ after)
      ≡ (c - b'0') * weight ws (length before) + weighted_sum ws (before ++ b'0' ∷ after)
weighted_sum-middle [] before after c = omega arith
weighted_sum-middle (w ∷ ws) [] after c = omega arith
weighted_sum-middle (w ∷ ws) (x ∷ before) after c =
    rw (weighted_sum-middle ws before after c) (omega arith)

-- No weight is left for a digit this far.
weighted_sum-past :
    (ws : List ℕ) (before after : Chars) (c d : ℕ)
    → length ws ≤ length before
    → weighted_sum ws (before ++ c ∷ after) ≡ weighted_sum ws (before ++ d ∷ after)
weighted_sum-past [] before after c d h = refl
weighted_sum-past (w ∷ ws) [] after c d h = absurd (omega arith)
weighted_sum-past (w ∷ ws) (x ∷ before) after c d h =
    ap (λ s. (x - b'0') * w + s) (weighted_sum-past ws before after c d (omega arith))

last_digit-middle :
    (before after : Chars) (e c : ℕ) → last_digit (before ++ c ∷ e ∷ after) ≡ last_digit (e ∷ after)
last_digit-middle [] after e c = refl
last_digit-middle (x ∷ []) after e c = refl
last_digit-middle (x ∷ y ∷ before) after e c = last_digit-middle (y ∷ before) after e c

last_digit-last : (before : Chars) (c : ℕ) → last_digit (before ++ c ∷ []) ≡ c - b'0'
last_digit-last [] c = refl
last_digit-last (x ∷ []) c = refl
last_digit-last (x ∷ y ∷ before) c = last_digit-last (y ∷ before) c

length-middle :
    (before after : Chars) (c : ℕ) → length (before ++ c ∷ after) ≡ length before + 1 + length after
length-middle [] after c = omega arith
length-middle (x ∷ before) after c = grind (arith, length-middle before after c)

-- What the weights of the nine summed digits are, none of them a multiple of eleven
abbrev IsWeight : ℕ → Type 0
IsWeight w = (w ≡ 2) ⊎ ((w ≡ 3) ⊎ ((w ≡ 4) ⊎ ((w ≡ 5) ⊎ ((w ≡ 6) ⊎ (w ≡ 7)))))

weight-All : (P : ℕ → Type 0) (ws : List ℕ) (n : ℕ) → All P ws → n < length ws → P (weight ws n)
weight-All P [] n all h = absurd (omega arith)
weight-All P (w ∷ ws) zero all h = all.0
weight-All P (w ∷ ws) (suc n) all h = weight-All P ws n all.1 (omega arith)

nip_weights-All : All IsWeight nip_weights
nip_weights-All = ground arith

same_residue :
    (w x y s : ℕ) → IsWeight w → x < 10 → y < 10 → (x * w + s) % 11 ≡ (y * w + s) % 11 → x ≡ y
same_residue w x y s cases hx hy e = ground arith

-- What a passed checksum says
record Checked (cs : Chars) : Type 0 where
  ten : length cs ≡ 10
  agrees : weighted_sum nip_weights cs % 11 ≡ last_digit cs

checksum_ok-Checked : (cs : Chars) → checksum_ok cs ≡ true → Checked cs
checksum_ok-Checked cs h = record { ten = ground arith; agrees = ground arith }

module _ (before : Chars) (c d : ℕ) (hc : IsDigit c) (hd : IsDigit d) where
  -- The wrong digit is the last one, or one of the nine that are summed.
  same_digit :
      (after : Chars) → Checked (before ++ c ∷ after) → Checked (before ++ d ∷ after) → c ≡ d
  same_digit [] pc pd =
      let nine : length before ≡ 9 = omega (arith, length-middle before [] c, pc.ten) in
      omega (
        arith,
        pc.agrees,
        pd.agrees,
        hc,
        hd,
        last_digit-last before c,
        last_digit-last before d,
        weighted_sum-past nip_weights before [] c d (omega arith),
      )
  same_digit (e ∷ after) pc pd =
      let early : length before < 9 = omega (arith, length-middle before (e ∷ after) c, pc.ten) in
      let rest = weighted_sum nip_weights (before ++ b'0' ∷ e ∷ after) in
      let w = weight nip_weights (length before) in
      let same : ((c - b'0') * w + rest) % 11 ≡ ((d - b'0') * w + rest) % 11 = omega (
        arith,
        pc.agrees,
        pd.agrees,
        last_digit-middle before after e c,
        last_digit-middle before after e d,
        weighted_sum-middle nip_weights before (e ∷ after) c,
        weighted_sum-middle nip_weights before (e ∷ after) d,
      ) in
      omega (
        arith,
        hc,
        hd,
        same_residue w (c - b'0') (d - b'0') rest
            (weight-All IsWeight nip_weights (length before) nip_weights-All early) (omega arith)
            (omega arith) same,
      )

  checksum_ok-one_digit :
      (after : Chars)
      → checksum_ok (before ++ c ∷ after) ≡ true
      → checksum_ok (before ++ d ∷ after) ≡ true
      → c ≡ d
  checksum_ok-one_digit after pc pd =
      same_digit after (checksum_ok-Checked _ pc) (checksum_ok-Checked _ pd)

stripped-middle :
    (before after : Chars) (c : ℕ)
    → IsDigit c
    → without_separators (strip (before ++ c ∷ after))
      ≡ without_separators (strip_left before) ++ c ∷ without_separators (strip_right after)
stripped-middle before after c h =
    rw (strip_left-middle before after c h, strip_right-middle (strip_left before) after c h)
      (without_separators-middle (strip_left before) (strip_right after) c h)

-- A valid tax number is no longer valid when one of its digits, wherever it stands and whatever spaces
-- and dashes are around it, is replaced by another.
pub is_valid_nip-one_digit :
    (before after : Chars) (c d : ℕ)
    → IsDigit c
    → IsDigit d
    → c ≢ d
    → is_valid_nip (before ++ c ∷ after) ≡ true
    → is_valid_nip (before ++ d ∷ after) ≡ false
unfolding is_valid_nip
is_valid_nip-one_digit before after c d hc hd other pc =
    elim (Bool-cases (is_valid_nip (before ++ d ∷ after))) [
      | inl pd ↦ absurd (
          other (
            checksum_ok-one_digit (without_separators (strip_left before)) c d hc hd
              (without_separators (strip_right after)) (rw (← stripped-middle before after c hc) pc)
              (rw (← stripped-middle before after d hd) pd)))
      | inr refused ↦ refused
    ]
