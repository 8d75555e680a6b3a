-- ===== src/Invoices/Totals.antt =====
-- Built positions and their totals agree.
use ifg.Base.{
  ℕ, ◌+◌, ℤ, pos, negsuc, ◌+ℤ◌, ◌-ℤ◌, ◌≤ℤ◌, false, List, [], ◌∷◌, ltb_ℤ, ◌≡◌, refl, sym, Bool-cases,
  inl, inr, int_laws, arith,
}
use ifg.Base.Exec.{Result, ok, err, invalid_invoice}
use ifg.Decimal.{Decimal, quantize, of_units, is_negative}
use ifg.Decimal.Rounding.{quantize-of_units, quantize_sign}
use ifg.Invoices.Items.{
  RawItem, InvoiceItem, mul, mul_ℤ, percent, net_of, vat_of, item_refused, build_item,
  build_items_from, build_items, consed, sum_of, calculate_totals, differ_by_more, tolerance_for,
  validate_sums,
}

-- Numbered from `first` on, each position with a gross total of its net and its VAT, none negative.
abbrev pub AreBuilt : ℕ → List InvoiceItem → Type 0
AreBuilt first [] = Unit
AreBuilt first (item ∷ items) =
    (item.sort_order ≡ first)
    × (item.gross_total ≡ item.net_total +ℤ item.vat_total)
    × (pos 0 ≤ℤ item.net_total)
    × (pos 0 ≤ℤ item.vat_total)
    × AreBuilt (first + 1) items

quantize_nonneg : (p : ℕ) (d : Decimal) → is_negative d ≡ false → pos 0 ≤ℤ quantize p d
quantize_nonneg p d h = omega (arith, (quantize_sign p d).0 h)

product_nonneg :
    (a b : ℤ)
    → ltb_ℤ a (pos 0) ≡ false
    → ltb_ℤ b (pos 0) ≡ false
    → ltb_ℤ (mul_ℤ a b) (pos 0) ≡ false
product_nonneg (pos m) (pos n) h k = grind arith
product_nonneg (pos m) (negsuc n) h k = ground arith
product_nonneg (negsuc m) b h k = ground arith

mul_nonneg :
    (a b : Decimal) → is_negative a ≡ false → is_negative b ≡ false → is_negative (mul a b) ≡ false
mul_nonneg a b h k = product_nonneg a.coef b.coef h k

not_refused :
    (raw : RawItem)
    → item_refused raw ≡ false
    → (is_negative raw.quantity ≡ false)
      × (is_negative raw.unit_price_net ≡ false)
      × (is_negative raw.vat_rate ≡ false)
unfolding item_refused
not_refused raw h = (ground arith, ground arith, ground arith)

build_item-net : (raw : RawItem) → item_refused raw ≡ false → pos 0 ≤ℤ net_of raw
build_item-net raw h =
    let (q, p, v) = not_refused raw h in
    quantize_nonneg 2 (mul raw.quantity raw.unit_price_net)
      (mul_nonneg raw.quantity raw.unit_price_net q p)

build_item-vat : (raw : RawItem) → item_refused raw ≡ false → pos 0 ≤ℤ vat_of raw
build_item-vat raw h =
    let (q, p, v) = not_refused raw h in
    let net = build_item-net raw h in
    quantize_nonneg 2 (percent (mul (of_units 2 (net_of raw)) raw.vat_rate))
      (mul_nonneg (of_units 2 (net_of raw)) raw.vat_rate (ground arith) v)

consed_cases :
    (item : InvoiceItem) (rest : Result (List InvoiceItem)) (items : List InvoiceItem)
    → consed item rest ≡ ok items
    → (tail : List InvoiceItem) × (rest ≡ ok tail) × (items ≡ item ∷ tail)
consed_cases item (ok tail) items e = (tail, refl, cc)
consed_cases item (err x) items e = cc

build_items_from-AreBuilt :
    (idx : ℕ) (raws : List RawItem) (items : List InvoiceItem)
    → build_items_from idx raws ≡ ok items
    → AreBuilt (idx + 1) items
unfolding build_items_from build_item
build_items_from-AreBuilt idx [] items e = let none_left : items ≡ [] = cc in rw none_left tt
build_items_from-AreBuilt idx (raw ∷ raws) items e = elim (Bool-cases (item_refused raw)) [
  | inl refused ↦ let wrong : err invalid_invoice ≡ ok items = rw refused at e in cc
  | inr fine ↦
      let (tail, built, all) =
        consed_cases (build_item idx raw) (build_items_from (idx + 1) raws) items (rw fine at e) in
      rw all (
        refl,
        refl,
        build_item-net raw fine,
        build_item-vat raw fine,
        build_items_from-AreBuilt (idx + 1) raws tail built,
      )
]

sums_add :
    (first : ℕ) (items : List InvoiceItem)
    → AreBuilt first items
    → sum_of (λ i. i.gross_total) items
      ≡ sum_of (λ i. i.net_total) items +ℤ sum_of (λ i. i.vat_total) items
sums_add first [] h = omega int_laws
sums_add first (item ∷ items) h =
    let (order, gross, net, vat, rest) = h in
    rw (gross, sums_add (first + 1) items rest) (omega int_laws)

net_nonneg :
    (first : ℕ) (items : List InvoiceItem)
    → AreBuilt first items
    → pos 0 ≤ℤ sum_of (λ i. i.net_total) items
net_nonneg first [] h = omega int_laws
net_nonneg first (item ∷ items) h =
    let (order, gross, net, vat, rest) = h in
    omega (int_laws, net_nonneg (first + 1) items rest, net)

vat_nonneg :
    (first : ℕ) (items : List InvoiceItem)
    → AreBuilt first items
    → pos 0 ≤ℤ sum_of (λ i. i.vat_total) items
vat_nonneg first [] h = omega int_laws
vat_nonneg first (item ∷ items) h =
    let (order, gross, net, vat, rest) = h in
    omega (int_laws, vat_nonneg (first + 1) items rest, vat)

within_tolerance : (tolerance : ℕ) (a : ℤ) → differ_by_more tolerance a a ≡ false
within_tolerance tolerance a =
    let nothing : a -ℤ a ≡ pos 0 = omega int_laws in rw nothing (ground arith)

sums_valid :
    (items : List InvoiceItem)
    → sum_of (λ i. i.gross_total) items
      ≡ sum_of (λ i. i.net_total) items +ℤ sum_of (λ i. i.vat_total) items
    → validate_sums items
        (sum_of (λ i. i.net_total) items)
        (sum_of (λ i. i.vat_total) items)
        (sum_of (λ i. i.gross_total) items)
      ≡ ok tt
unfolding validate_sums
sums_valid items same =
    rw
      (
        ← same,
        within_tolerance (tolerance_for items) (sum_of (λ i. i.net_total) items),
        within_tolerance (tolerance_for items) (sum_of (λ i. i.vat_total) items),
        within_tolerance (tolerance_for items) (sum_of (λ i. i.gross_total) items),
        within_tolerance 1 (sum_of (λ i. i.gross_total) items),
      )
      refl

-- The totals have two places already.
totals_exact :
    (items : List InvoiceItem)
    → calculate_totals items ≡ (
      sum_of (λ i. i.net_total) items,
      sum_of (λ i. i.vat_total) items,
      sum_of (λ i. i.gross_total) items,
    )
unfolding calculate_totals
totals_exact items =
    rw
      (
        quantize-of_units 2 (sum_of (λ i. i.net_total) items),
        quantize-of_units 2 (sum_of (λ i. i.vat_total) items),
        quantize-of_units 2 (sum_of (λ i. i.gross_total) items),
      )
      refl

-- The positions that `build_items` accepts are numbered 1, 2, … in their order, each has a gross total
-- of its net and its VAT, none of them negative; and with the totals of `calculate_totals` the
-- invoice's net and VAT add up to its gross and the sums pass the validation of a sale invoice.
pub build_items-calculate_totals :
    (raws : List RawItem) (items : List InvoiceItem)
    → build_items raws ≡ ok items
    → let (net, vat, gross) = calculate_totals items in
      AreBuilt 1 items
      × (net +ℤ vat ≡ gross)
      × (pos 0 ≤ℤ net)
      × (pos 0 ≤ℤ vat)
      × (validate_sums items net vat gross ≡ ok tt)
unfolding build_items
build_items-calculate_totals raws items e =
    let built = build_items_from-AreBuilt 0 raws items e in
    rw (totals_exact items) (
      built,
      sym (sums_add 1 items built),
      net_nonneg 1 items built,
      vat_nonneg 1 items built,
      sums_valid items (sums_add 1 items built),
    )
