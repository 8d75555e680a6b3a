-- ===== src/Invoices/Validation.antt =====
-- The checks of app/domain/models/invoice.py before an invoice is sent and before its final status.
use ifg.Base.{
  ℕ, ℤ, pos, ◌+ℤ◌, Bool, true, false, not, ◌&&◌, ◌||◌, Option, none, some, List, [], ◌∷◌, is_some,
  ltb_ℤ, leb_ℤ, if◌then◌else◌,
}
use ifg.Base.Exec.{Result, ok, err, invalid_invoice}
use ifg.Decimal.{Decimal, is_nonpositive}
use ifg.Payments.Rows.{Direction, sale, purchase}
use ifg.Invoices.Items.{
  Chars, strip, is_blank, InvoiceItem, sum_of, differ_by_more, tolerance_for, validate_sums,
}
use ifg.Invoices.Nip.{is_valid_nip}

-- app/domain/enums.py
pub data InvoiceStatus : Type 0 where
  ready_for_submission sending accepted rejected : InvoiceStatus

pub data InvoiceType : Type 0 where
  vat kor zal roz upr kor_zal kor_roz : InvoiceType

pub data CorrectionType : Type 0 where
  full partial : CorrectionType

pub record Snapshot : Type 0 where
  pub name : Option Chars
  pub nip : Option Chars
  pub address : Option Chars
  pub street : Option Chars
  pub building_no : Option Chars
  pub apartment_no : Option Chars
  pub postal_code : Option Chars
  pub city : Option Chars
  pub country : Option Chars

-- The fields that the checks read.
pub record Invoice : Type 0 where
  pub status : InvoiceStatus
  pub direction : Direction
  pub invoice_type : InvoiceType
  pub issue_date : Option ℕ
  pub sale_date : Option ℕ
  pub number_local : Option Chars
  pub ksef_reference_number : Option Chars
  pub is_pln : Bool
  pub exchange_rate : Option Decimal
  pub seller_snapshot : Snapshot
  pub buyer_snapshot : Snapshot
  pub items : List InvoiceItem
  pub total_net : ℤ
  pub total_vat : ℤ
  pub total_gross : ℤ
  pub correction_of_invoice_id : Option ℕ
  pub correction_of_ksef_number : Option Chars
  pub correction_reason : Option Chars
  pub correction_type : Option CorrectionType
  pub advance_amount : Option ℤ
  pub settled_advance_ids : List ℕ

-- `str(value or "").strip()` is empty
abbrev pub is_missing : Option Chars → Bool
is_missing none = true
is_missing (some cs) = is_blank (strip cs)

-- `not value`
abbrev pub is_falsy : Option Chars → Bool
is_falsy none = true
is_falsy (some cs) = is_blank cs

abbrev pub is_sale : Direction → Bool
is_sale sale = true
is_sale purchase = false

-- `if bad: raise InvalidInvoiceError(…)`, and what follows
abbrev pub refuse_if : Bool → Result (Unit {0}) → Result (Unit {0})
refuse_if bad rest = if bad then err invalid_invoice else rest

abbrev pub and_then : Result (Unit {0}) → Result (Unit {0}) → Result (Unit {0})
and_then (ok _) rest = rest
and_then (err e) rest = err e

-- `_has_minimum_address`
unfoldable pub has_minimum_address : Snapshot → Bool
has_minimum_address s =
    not (is_missing s.address)
    || (not (is_missing s.street)
        || not (is_missing s.building_no)
        || not (is_missing s.apartment_no))
      && (not (is_missing s.city) || not (is_missing s.postal_code))

-- `_validate_party_snapshot`
unfoldable pub validate_party_snapshot : Snapshot → Result (Unit {0})
validate_party_snapshot s =
    refuse_if (is_missing s.name)
      (refuse_if (is_missing s.nip) (refuse_if (not (has_minimum_address s)) (ok tt)))

abbrev pub no_positions : List InvoiceItem → Bool
no_positions [] = true
no_positions (item ∷ items) = false

-- The loop over the positions. A price and a rate are there by their types.
unfoldable pub validate_positions : List InvoiceItem → Result (Unit {0})
validate_positions [] = ok tt
validate_positions (item ∷ items) =
    let rest = validate_positions items in
    refuse_if (is_blank (strip item.name)) (refuse_if (is_nonpositive item.quantity) rest)

-- The checks of `validate_sale_formal_requirements`, for a sale.
unfoldable pub validate_sale : Bool → Invoice → Result (Unit {0})
validate_sale require_number_local inv = refuse_if (not (is_some inv.issue_date)) (
    refuse_if (not (is_some inv.sale_date)) (
      refuse_if (require_number_local && is_missing inv.number_local) (
        and_then (validate_party_snapshot inv.seller_snapshot) (
          and_then (validate_party_snapshot inv.buyer_snapshot) (
            refuse_if (no_positions inv.items) (
              and_then (validate_positions inv.items)
                (validate_sums inv.items inv.total_net inv.total_vat inv.total_gross)))))))

unfoldable pub validate_sale_formal_requirements : Bool → Invoice → Result (Unit {0})
validate_sale_formal_requirements require_number_local inv =
    if is_sale inv.direction then validate_sale require_number_local inv else ok tt

-- `(snapshot or {}).get("nip", "")` for the seller
abbrev pub seller_nip : Option Chars → Chars
seller_nip none = []
seller_nip (some nip) = nip

abbrev pub buyer_nip_refused : Option Chars → Bool
buyer_nip_refused none = false
buyer_nip_refused (some nip) = not (is_valid_nip nip)

abbrev rate_refused : Option Decimal → Bool
rate_refused none = true
rate_refused (some rate) = is_nonpositive rate

abbrev some_without_pln : List InvoiceItem → Bool
some_without_pln [] = false
some_without_pln (item ∷ items) = not (is_some item.vat_amount_pln) || some_without_pln items

-- `validate_vat`
unfoldable pub validate_vat : Invoice → Result (Unit {0})
validate_vat inv = refuse_if (not (is_valid_nip (seller_nip inv.seller_snapshot.nip))) (
    refuse_if (buyer_nip_refused inv.buyer_snapshot.nip) (
      refuse_if (differ_by_more 1 (inv.total_net +ℤ inv.total_vat) inv.total_gross) (
        refuse_if
          (not (no_positions inv.items)
            && differ_by_more (tolerance_for inv.items) (sum_of (λ i. i.vat_total) inv.items)
                inv.total_vat)
          (refuse_if
            (not inv.is_pln && (rate_refused inv.exchange_rate || some_without_pln inv.items))
            (ok tt)))))

-- `validate_kor`
unfoldable pub validate_kor : Invoice → Result (Unit {0})
validate_kor inv =
    refuse_if (is_falsy inv.correction_of_ksef_number && not (is_some inv.correction_of_invoice_id))
      (refuse_if (is_falsy inv.correction_reason)
        (refuse_if (not (is_some inv.correction_type)) (ok tt)))

abbrev pub advance_refused : ℤ → Option ℤ → Bool
advance_refused gross none = true
advance_refused gross (some amount) = leb_ℤ amount (pos 0) || ltb_ℤ gross amount

abbrev no_advances : List ℕ → Bool
no_advances [] = true
no_advances (id ∷ ids) = false

-- `validate_zal`, by the invoice's type
unfoldable pub validate_zal : Invoice → InvoiceType → Result (Unit {0})
validate_zal inv zal = refuse_if (advance_refused inv.total_gross inv.advance_amount) (ok tt)
validate_zal inv roz = refuse_if (no_advances inv.settled_advance_ids) (ok tt)
validate_zal inv _ = ok tt

-- `self.invoice_type in _CORRECTION_TYPES`
abbrev pub is_correction : InvoiceType → Bool
is_correction kor = true
is_correction kor_zal = true
is_correction kor_roz = true
is_correction _ = false

abbrev pub is_ready : InvoiceStatus → Bool
is_ready ready_for_submission = true
is_ready _ = false

-- `validate_for_ksef`
unfoldable pub validate_for_ksef : Invoice → Result (Unit {0})
validate_for_ksef inv = refuse_if (not (is_ready inv.status)) (
    and_then (validate_sale_formal_requirements false inv) (
      and_then (validate_vat inv) (
        and_then (if is_correction inv.invoice_type then validate_kor inv else ok tt)
          (validate_zal inv inv.invoice_type))))
