-- ===== src/Warehouse/Documents/Numbers/Sequence.antt =====
-- The number sequences, one for each type and year, and the text of a number.
use ifg.Base.{
  ℕ, ◌+◌, List, [], ◌∷◌, ◌++◌, ◌==◌, if◌then◌else◌, ◌≡◌, refl, arith, All, true, ◌&&◌, Bool-cases,
  inl, inr,
}
use ifg.Numeral.{show, show_padded}
use ifg.Numeral.Reading.{cut_unique, NotSlash, show-All, show-injective, show_padded-injective}
use ifg.Warehouse.Rows.{DocType, pz, wz, kk, transfer, NumberSeq}
use ifg.Warehouse.Repository.{allocate_next_sequence, same_type}
use ifg.Warehouse.Posting.{document_number, type_code}

-- The last number given out, 0 where there is no row yet.
abbrev pub last_of : DocType → ℕ → List NumberSeq → ℕ
last_of t year [] = 0
last_of t year (row ∷ rows) =
    if same_type t row.doc_type && year == row.year then row.last_number else last_of t year rows

pub same_type-eq : (a b : DocType) → same_type a b ≡ true → a ≡ b
same_type-eq a b h = ground arith

pub same_type_refl : (a : DocType) → same_type a a ≡ true
same_type_refl a = ground arith

-- The next number is one more than the last.
pub allocate-next :
    (t : DocType) (year : ℕ) (rows : List NumberSeq)
    → (allocate_next_sequence t year rows).0 ≡ last_of t year rows + 1
unfolding allocate_next_sequence
allocate-next t year [] = omega arith
allocate-next t year (row ∷ rows) =
    elim (Bool-cases (same_type t row.doc_type && year == row.year)) [
      | inl here ↦ rw here
      | inr there ↦ rw there (allocate-next t year rows)
    ]

-- It becomes the last number of its sequence, and no other sequence moves.
pub last_of-allocate :
    (t u : DocType) (year y : ℕ) (rows : List NumberSeq)
    → last_of u y (allocate_next_sequence t year rows).1 ≡ (
        if same_type u t && y == year
        then (allocate_next_sequence t year rows).0
        else last_of u y rows)
unfolding allocate_next_sequence
last_of-allocate t u year y [] = refl
last_of-allocate t u year y (row ∷ rows) =
    elim (Bool-cases (same_type t row.doc_type && year == row.year)) [
      | inl here ↦ rw here (ground (arith, same_type-eq t row.doc_type))
      | inr there ↦ rw there (
          ground (
            arith,
            last_of-allocate t u year y rows,
            same_type-eq u row.doc_type,
            same_type-eq u t,
            same_type_refl t,
          ))
    ]

type_code-All : (t : DocType) → All NotSlash (type_code t)
type_code-All pz = omega arith
type_code-All wz = omega arith
type_code-All kk = omega arith
type_code-All transfer = omega arith

type_code-injective : (a b : DocType) → type_code a ≡ type_code b → a ≡ b
type_code-injective a b h = ground arith

-- Two document numbers are the same text only for the same type, year and sequence number.
pub document_number-injective :
    (t t' : DocType) (y y' s s' : ℕ)
    → document_number t y s ≡ document_number t' y' s'
    → (t ≡ t') × (y ≡ y') × (s ≡ s')
unfolding document_number
document_number-injective t t' y y' s s' e =
    let (p, rest) =
      cut_unique (type_code t) (show y ++ (b'/' ∷ show_padded 4 s)) (type_code t')
        (show y' ++ (b'/' ∷ show_padded 4 s')) (type_code-All t) (type_code-All t') e in
    let (q, r) =
      cut_unique (show y) (show_padded 4 s) (show y') (show_padded 4 s') (show-All y) (show-All y')
        rest in
    (type_code-injective t t' p, show-injective y y' q, show_padded-injective 4 s s' r)
