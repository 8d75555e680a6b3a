-- ===== src/Tests/Invoicing.antt =====
-- An invoice of two positions, and its way to acceptance.
use ifg.Base.{pos, ◌+ℤ◌, ◌-ℤ◌, ◌≤ℤ◌, true, false, arith, none, some, List, [], ◌∷◌, ◌≡◌, refl}
use ifg.Base.Exec.{ok}
use ifg.Decimal.{quantize, is_integral}
use ifg.Payments.Rows.{sale}
use ifg.Invoices.Items.{
  Chars, RawItem, InvoiceItem, item_refused, build_item, build_items_from, build_items,
  calculate_totals, validate_sums,
}
use ifg.Invoices.Totals.{AreBuilt, build_items-calculate_totals}
use ifg.Invoices.Validation.{
  Invoice, Snapshot, ready_for_submission, sending, accepted, vat,
  validate_sale_formal_requirements, validate_sale, validate_party_snapshot, has_minimum_address,
  validate_positions, kor, full, validate_for_ksef, validate_vat, validate_kor, validate_zal,
}
use ifg.Invoices.Nip.{is_valid_nip}
use ifg.Invoices.Nip.OneDigit.{is_valid_nip-one_digit}
use ifg.Invoices.Status.{
  can_transition, transition_to, with_status, here, next, IsOnTrack, Reaches-IsOnTrack,
}

abbrev pub text : Chars
text = b' ' ∷ b'A' ∷ b'b' ∷ b' ' ∷ []

-- 3 at 9.99 with 23 per cent, and 1 at 100.005 with 8.
abbrev first : RawItem
first = record {
  name = text;
  quantity = record { coef = pos 3; places = 0 };
  unit = none;
  unit_price_net = record { coef = pos 999; places = 2 };
  vat_rate = record { coef = pos 23; places = 0 };
  isbn = none;
}

abbrev second : RawItem
second = record {
  name = text;
  quantity = record { coef = pos 10; places = 1 };
  unit = none;
  unit_price_net = record { coef = pos 100005; places = 3 };
  vat_rate = record { coef = pos 8; places = 0 };
  isbn = none;
}

abbrev built : List InvoiceItem
built = build_item 0 first ∷ build_item 1 second ∷ []

build_items-calculate_totals_example :
    let (net, vat_sum, gross) = calculate_totals built in
    AreBuilt 1 built
    × (net +ℤ vat_sum ≡ gross)
    × (pos 0 ≤ℤ net)
    × (pos 0 ≤ℤ vat_sum)
    × (validate_sums built net vat_sum gross ≡ ok tt)
unfolding build_items build_items_from item_refused is_integral
build_items-calculate_totals_example = build_items-calculate_totals (first ∷ second ∷ []) built refl

abbrev pub party : Snapshot
party = record {
  name = some text;
  nip = some (b'5' ∷ b'2' ∷ []);
  address = some text;
  street = none;
  building_no = none;
  apartment_no = none;
  postal_code = none;
  city = none;
  country = none;
}

-- 29.97 + 100.01 net, 6.89 + 8.00 VAT
abbrev pub ready : Invoice
ready = record {
  status = ready_for_submission;
  direction = sale;
  invoice_type = vat;
  issue_date = some 5;
  sale_date = some 5;
  number_local = some text;
  ksef_reference_number = none;
  is_pln = true;
  exchange_rate = none;
  seller_snapshot = party;
  buyer_snapshot = party;
  items = built;
  total_net = pos 12998;
  total_vat = pos 1489;
  total_gross = pos 14487;
  correction_of_invoice_id = none;
  correction_of_ksef_number = none;
  correction_reason = none;
  correction_type = none;
  advance_amount = none;
  settled_advance_ids = [];
}

sent : transition_to sending ready ≡ ok (with_status sending ready)
unfolding transition_to can_transition
sent = refl

taken : transition_to accepted (with_status sending ready) ≡ ok (with_status accepted ready)
unfolding transition_to can_transition validate_sale_formal_requirements validate_sale
    validate_party_snapshot has_minimum_address validate_positions validate_sums build_item quantize
    ◌+ℤ◌ ◌-ℤ◌
taken = refl

Reaches-IsOnTrack_example : IsOnTrack ready 2 (with_status accepted ready)
Reaches-IsOnTrack_example = Reaches-IsOnTrack ready 2 (with_status accepted ready) refl (
    next 1 accepted (with_status sending ready) (with_status accepted ready)
      (next 0 sending ready (with_status sending ready) here sent) taken)

-- 5260001246
abbrev pub tax_number : Chars
tax_number = b'5' ∷ b'2' ∷ b'6' ∷ b'0' ∷ b'0' ∷ b'0' ∷ b'1' ∷ b'2' ∷ b'4' ∷ b'6' ∷ []

abbrev correction : Invoice
correction = record ready {
  invoice_type = kor;
  seller_snapshot = record party { nip = some tax_number };
  buyer_snapshot = record party { nip = some tax_number };
  correction_of_invoice_id = some 3;
  correction_reason = some text;
  correction_type = some full;
}

passes : validate_for_ksef correction ≡ ok tt
unfolding validate_for_ksef validate_vat validate_kor validate_zal is_valid_nip
    validate_sale_formal_requirements validate_sale validate_party_snapshot has_minimum_address
    validate_positions validate_sums build_item quantize ◌+ℤ◌ ◌-ℤ◌
passes = refl

-- 5260001246 with a 7 for its 6
abbrev mistyped : Chars
mistyped = b'5' ∷ b'2' ∷ b'7' ∷ b'0' ∷ b'0' ∷ b'0' ∷ b'1' ∷ b'2' ∷ b'4' ∷ b'6' ∷ []

tax_number_valid : is_valid_nip tax_number ≡ true
unfolding is_valid_nip
tax_number_valid = refl

is_valid_nip-one_digit_example : is_valid_nip mistyped ≡ false
is_valid_nip-one_digit_example =
    is_valid_nip-one_digit (b'5' ∷ b'2' ∷ []) (b'0' ∷ b'0' ∷ b'0' ∷ b'1' ∷ b'2' ∷ b'4' ∷ b'6' ∷ [])
      b'6' b'7' (omega arith, omega arith) (omega arith, omega arith) (omega arith) tax_number_valid
