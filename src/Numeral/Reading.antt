-- ===== src/Numeral/Reading.antt =====
-- A number can be read back from its numeral, padded or not, so document numbers are distinct.
use ifg.Base.{
  ℕ, zero, suc, ◌+◌, ◌-◌, ◌*◌, ◌/◌, ◌%◌, ◌<◌, ◌≡◌, ◌≢◌, refl, ap, sym, ◌∙◌, List, [], ◌∷◌, ◌++◌,
  ltb, length, arith, All, All-append, Bool-cases, inl, inr,
}
use ifg.Numeral.{digits_fuel, show, zeros, show_padded, invoice_number}

-- The value of a numeral, most significant digit first: `int(text)`.
abbrev read_from : ℕ → List ℕ → ℕ
read_from acc [] = acc
read_from acc (c ∷ cs) = read_from (acc * 10 + (c - b'0')) cs

read_from-append :
    (acc : ℕ) (xs ys : List ℕ) → read_from acc (xs ++ ys) ≡ read_from (read_from acc xs) ys
read_from-append acc [] ys = refl
read_from-append acc (x ∷ xs) ys = read_from-append (acc * 10 + (x - b'0')) xs ys

read-digits_fuel : (f n : ℕ) → n < f → read_from 0 (digits_fuel f n) ≡ n
unfolding digits_fuel
read-digits_fuel zero n h = elim h [ ]
read-digits_fuel (suc f) n h = elim (Bool-cases (ltb n 10)) [
  | inl small ↦ rw small (omega arith)
  | inr big ↦
      rw
        (
          big,
          read_from-append 0 (digits_fuel f (n / 10)) ((b'0' + n % 10) ∷ []),
          read-digits_fuel f (n / 10) (ground arith),
        )
        (omega arith)
]

read-show : (n : ℕ) → read_from 0 (show n) ≡ n
unfolding show
read-show n = read-digits_fuel (suc n) n (omega arith)

read-zeros : (k : ℕ) (xs : List ℕ) → read_from 0 (zeros k ++ xs) ≡ read_from 0 xs
read-zeros zero xs = refl
read-zeros (suc k) xs = read-zeros k xs

read-show_padded : (w n : ℕ) → read_from 0 (show_padded w n) ≡ n
unfolding show_padded
read-show_padded w n = read-zeros (w - length (show n)) (show n) ∙ read-show n

-- No numeral holds a slash.
abbrev pub NotSlash : ℕ → Type 0
NotSlash c = c ≢ b'/'

digits_fuel-All : (f n : ℕ) → All NotSlash (digits_fuel f n)
unfolding digits_fuel
digits_fuel-All zero n = tt
digits_fuel-All (suc f) n = elim (Bool-cases (ltb n 10)) [
  | inl small ↦ rw small (omega arith, tt)
  | inr big ↦ rw big (
      All-append NotSlash (digits_fuel f (n / 10)) _ (digits_fuel-All f (n / 10)) (omega arith, tt))
]

pub show-All : (n : ℕ) → All NotSlash (show n)
unfolding show
show-All n = digits_fuel-All (suc n) n

zeros-All : (k : ℕ) → All NotSlash (zeros k)
zeros-All zero = tt
zeros-All (suc k) = (omega arith, zeros-All k)

show_padded-All : (w n : ℕ) → All NotSlash (show_padded w n)
unfolding show_padded
show_padded-All w n =
    All-append NotSlash (zeros (w - length (show n))) (show n) (zeros-All _) (show-All n)

-- A text is cut at its first slash in one way only.
pub cut_unique :
    (xs ys xs' ys' : List ℕ)
    → All NotSlash xs
    → All NotSlash xs'
    → xs ++ (b'/' ∷ ys) ≡ xs' ++ (b'/' ∷ ys')
    → (xs ≡ xs') × (ys ≡ ys')
cut_unique [] ys [] ys' h h' e = (refl, cc)
cut_unique [] ys (x' ∷ xs') ys' h h' e = absurd (h'.0 (cc))
cut_unique (x ∷ xs) ys [] ys' h h' e = absurd (h.0 (cc))
cut_unique (x ∷ xs) ys (x' ∷ xs') ys' h h' e =
    let heads : x ≡ x' = cc in let (p, q) = cut_unique xs ys xs' ys' h.1 h'.1 (cc) in (cc, q)

pub show-injective : (m n : ℕ) → show m ≡ show n → m ≡ n
show-injective m n e = sym (read-show m) ∙ ap (read_from 0) e ∙ read-show n

pub show_padded-injective : (w m n : ℕ) → show_padded w m ≡ show_padded w n → m ≡ n
show_padded-injective w m n e =
    sym (read-show_padded w m) ∙ ap (read_from 0) e ∙ read-show_padded w n

-- Two invoice numbers are the same text only for the same sequence number, month and year.
pub invoice_number-injective :
    (year month seq year' month' seq' : ℕ)
    → invoice_number year month seq ≡ invoice_number year' month' seq'
    → (seq ≡ seq') × (month ≡ month') × (year ≡ year')
unfolding invoice_number
invoice_number-injective y m s y' m' s' e =
    let (p, rest) =
      cut_unique (show s) (show_padded 2 m ++ (b'/' ∷ show y)) (show s')
        (show_padded 2 m' ++ (b'/' ∷ show y')) (show-All s) (show-All s') (cc) in
    let (q, r) =
      cut_unique (show_padded 2 m) (show y) (show_padded 2 m') (show y') (show_padded-All 2 m)
        (show_padded-All 2 m') rest in
    (show-injective s s' p, show_padded-injective 2 m m' q, show-injective y y' r)
