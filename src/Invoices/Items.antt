-- ===== src/Invoices/Items.antt =====
-- The positions of an invoice and its totals: `InvoiceTotalsCalculator` of
-- app/services/invoice_totals.py, and the sums that `validate_sale_formal_requirements` of
-- app/domain/models/invoice.py compares. Totals are in hundredths; a text is its code points.
use ifg.Base.{
  ℕ, ◌+◌, ◌*◌, ◌^◌, ℤ, pos, pos_part, neg_part, sub_ℕ, magnitude, ◌+ℤ◌, ◌-ℤ◌, Bool, true, false,
  not, ◌&&◌, ◌||◌, Option, none, some, List, [], ◌∷◌, ltb, leb, ltb_ℤ, ◌==◌, if◌then◌else◌, length,
}
use ifg.Base.Exec.{Result, ok, err, invalid_invoice}
use ifg.Decimal.{Decimal, quantize, of_units, is_integral, is_negative, is_nonpositive}

abbrev pub Chars : Type 0
Chars = List ℕ

-- Python's `str.isspace` of a code point.
abbrev is_space : ℕ → Bool
is_space c =
    (leb 9 c && leb c 13)
    || (leb 28 c && leb c 32)
    || c == 133
    || c == 160
    || c == 5760
    || (leb 8192 c && leb c 8202)
    || c == 8232
    || c == 8233
    || c == 8239
    || c == 8287
    || c == 12288

abbrev pub strip_left : Chars → Chars
strip_left [] = []
strip_left (c ∷ cs) = if is_space c then strip_left cs else c ∷ cs

-- Without the spaces at the end.
abbrev pub cons_unless_blank : ℕ → Chars → Chars
cons_unless_blank c [] = if is_space c then [] else c ∷ []
cons_unless_blank c (d ∷ ds) = c ∷ d ∷ ds

abbrev pub strip_right : Chars → Chars
strip_right [] = []
strip_right (c ∷ cs) = cons_unless_blank c (strip_right cs)

-- `text.strip()`
abbrev pub strip : Chars → Chars
strip cs = strip_right (strip_left cs)

abbrev pub is_blank : Chars → Bool
is_blank [] = true
is_blank (c ∷ cs) = false

-- The product of two decimals is exact.
abbrev pub mul_ℤ : ℤ → ℤ → ℤ
mul_ℤ a b =
    sub_ℕ (pos_part a * pos_part b + neg_part a * neg_part b)
      (pos_part a * neg_part b + neg_part a * pos_part b)

abbrev pub mul : Decimal → Decimal → Decimal
mul a b = record { coef = mul_ℤ a.coef b.coef; places = a.places + b.places }

-- `d / 100`
abbrev pub percent : Decimal → Decimal
percent d = record { coef = d.coef; places = d.places + 2 }

-- `d > 100`
abbrev above_hundred : Decimal → Bool
above_hundred d = ltb_ℤ (pos (100 * 10 ^ d.places)) d.coef

pub record RawItem : Type 0 where
  pub name : Chars
  pub quantity : Decimal
  pub unit : Option Chars
  pub unit_price_net : Decimal
  pub vat_rate : Decimal
  pub isbn : Option Chars

pub record InvoiceItem : Type 0 where
  pub name : Chars
  pub quantity : Decimal
  pub unit : Chars
  pub unit_price_net : Decimal
  pub vat_rate : Decimal
  pub net_total : ℤ
  pub vat_total : ℤ
  pub gross_total : ℤ
  pub sort_order : ℕ
  pub vat_amount_pln : Option ℤ
  pub isbn : Option Chars

-- "szt."
abbrev default_unit : Chars
default_unit = b's' ∷ b'z' ∷ b't' ∷ b'.' ∷ []

-- `raw.get("isbn") or None`
abbrev or_none : Option Chars → Option Chars
or_none none = none
or_none (some []) = none
or_none (some (c ∷ cs)) = some (c ∷ cs)

abbrev pub net_of : RawItem → ℤ
net_of raw = quantize 2 (mul raw.quantity raw.unit_price_net)

abbrev pub vat_of : RawItem → ℤ
vat_of raw = quantize 2 (percent (mul (of_units 2 (net_of raw)) raw.vat_rate))

-- The checks of a position: its name, quantity, price and rate.
unfoldable pub item_refused : RawItem → Bool
item_refused raw =
    is_blank (strip raw.name)
    || is_nonpositive raw.quantity
    || not (is_integral raw.quantity)
    || is_negative raw.unit_price_net
    || (is_negative raw.vat_rate || above_hundred raw.vat_rate)

-- The position with index `idx`.
unfoldable pub build_item : ℕ → RawItem → InvoiceItem
build_item idx raw = record {
  name = strip raw.name;
  quantity = raw.quantity;
  unit = elim raw.unit [ none ↦ default_unit | some u ↦ u ];
  unit_price_net = raw.unit_price_net;
  vat_rate = raw.vat_rate;
  net_total = net_of raw;
  vat_total = vat_of raw;
  gross_total = net_of raw +ℤ vat_of raw;
  sort_order = idx + 1;
  vat_amount_pln = none;
  isbn = or_none raw.isbn;
}

abbrev pub consed : InvoiceItem → Result (List InvoiceItem) → Result (List InvoiceItem)
consed item (ok items) = ok (item ∷ items)
consed item (err e) = err e

-- The loop of `build_items`, from the index `idx` on.
unfoldable pub build_items_from : ℕ → List RawItem → Result (List InvoiceItem)
build_items_from idx [] = ok []
build_items_from idx (raw ∷ raws) =
    let rest = build_items_from (idx + 1) raws in
    if item_refused raw then err invalid_invoice else consed (build_item idx raw) rest

-- `build_items`
unfoldable pub build_items : List RawItem → Result (List InvoiceItem)
build_items raws = build_items_from 0 raws

-- `sum(… for i in items)`
abbrev pub sum_of : (InvoiceItem → ℤ) → List InvoiceItem → ℤ
sum_of f [] = pos 0
sum_of f (item ∷ items) = f item +ℤ sum_of f items

-- `calculate_totals`
unfoldable pub calculate_totals : List InvoiceItem → ℤ × ℤ × ℤ
calculate_totals items = (
  quantize 2 (of_units 2 (sum_of (λ i. i.net_total) items)),
  quantize 2 (of_units 2 (sum_of (λ i. i.vat_total) items)),
  quantize 2 (of_units 2 (sum_of (λ i. i.gross_total) items)),
)

-- `abs(a - b) > tolerance`
abbrev pub differ_by_more : ℕ → ℤ → ℤ → Bool
differ_by_more tolerance a b = ltb tolerance (magnitude (a -ℤ b))

-- `Decimal("0.01") * max(1, len(items))`
abbrev pub tolerance_for : List InvoiceItem → ℕ
tolerance_for [] = 1
tolerance_for (item ∷ items) = length (item ∷ items)

-- The comparison of the sums in `validate_sale_formal_requirements`.
unfoldable pub validate_sums : List InvoiceItem → ℤ → ℤ → ℤ → Result (Unit {0})
validate_sums items net vat gross =
    if differ_by_more (tolerance_for items) (sum_of (λ i. i.net_total) items) net
      || differ_by_more (tolerance_for items) (sum_of (λ i. i.vat_total) items) vat
      || differ_by_more (tolerance_for items) (sum_of (λ i. i.gross_total) items) gross
      || differ_by_more 1 (net +ℤ vat) gross
    then err invalid_invoice
    else ok tt
