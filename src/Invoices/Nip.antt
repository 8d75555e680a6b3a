-- ===== src/Invoices/Nip.antt =====
-- The tax number: `_is_valid_nip` of app/domain/models/invoice.py. Digits outside ASCII are not
-- modelled.
pub mod OneDigit
use ifg.Base.{
  ℕ, ◌+◌, ◌-◌, ◌*◌, ◌%◌, Bool, true, ◌&&◌, ◌||◌, List, [], ◌∷◌, leb, ◌==◌, if◌then◌else◌, length,
}
use ifg.Invoices.Items.{Chars, strip}

abbrev nip_weights : List ℕ
nip_weights = 6 ∷ 5 ∷ 7 ∷ 2 ∷ 3 ∷ 4 ∷ 5 ∷ 6 ∷ 7 ∷ []

-- `text.replace("-", "").replace(" ", "")`
abbrev without_separators : Chars → Chars
without_separators [] = []
without_separators (c ∷ cs) =
    if c == b'-' || c == 32 then without_separators cs else c ∷ without_separators cs

abbrev all_digits : Chars → Bool
all_digits [] = true
all_digits (c ∷ cs) = leb b'0' c && leb c b'9' && all_digits cs

abbrev weighted_sum : List ℕ → Chars → ℕ
weighted_sum (w ∷ ws) (c ∷ cs) = (c - b'0') * w + weighted_sum ws cs
weighted_sum _ _ = 0

-- `int(stripped[9])`
abbrev last_digit : Chars → ℕ
last_digit [] = 0
last_digit (c ∷ []) = c - b'0'
last_digit (c ∷ d ∷ cs) = last_digit (d ∷ cs)

abbrev checksum_ok : Chars → Bool
checksum_ok cs =
    all_digits cs && length cs == 10 && weighted_sum nip_weights cs % 11 == last_digit cs

unfoldable pub is_valid_nip : Chars → Bool
is_valid_nip nip = checksum_ok (without_separators (strip nip))
