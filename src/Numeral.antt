-- ===== src/Numeral.antt =====
-- Decimal numerals in f-strings: `f"{n}"` and `f"{n:04d}"`, as lists of character codes, and the
-- numbers of documents: app/services/invoice_number_policy.py, `_allocate_document_number`.
pub mod Reading
use ifg.Base.{ℕ, zero, suc, ◌+◌, ◌-◌, ◌/◌, ◌%◌, List, [], ◌∷◌, ◌++◌, ltb, length, if◌then◌else◌}

-- The digits of n, with fuel for one division each; n + 1 rounds are enough.
unfoldable pub digits_fuel : ℕ → ℕ → List ℕ
digits_fuel zero n = []
digits_fuel (suc f) n =
    let more = digits_fuel f (n / 10) ++ (b'0' + n % 10) ∷ [] in
    if ltb n 10 then (b'0' + n) ∷ [] else more

-- `f"{n}"`
unfoldable pub show : ℕ → List ℕ
unfolding digits_fuel
show n = digits_fuel (suc n) n

abbrev pub zeros : ℕ → List ℕ
zeros zero = []
zeros (suc n) = b'0' ∷ zeros n

-- `f"{n:0wd}"`
unfoldable pub show_padded : ℕ → ℕ → List ℕ
unfolding show
show_padded width n = zeros (width - length (show n)) ++ show n

-- `InvoiceNumberPolicy.generate`: FV/{seq}/{MM}/{YYYY}
pub invoice_number : ℕ → ℕ → ℕ → List ℕ
unfolding show_padded
invoice_number year month seq =
    b'F' ∷ b'V' ∷ b'/' ∷ (show seq ++ (b'/' ∷ (show_padded 2 month ++ (b'/' ∷ show year))))
