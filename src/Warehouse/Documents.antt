-- ===== src/Warehouse/Documents.antt =====
-- Drafts and their lifecycle: `create_document`, `update_document`, `cancel_document`, and the
-- checks before a document is saved.
pub mod Lifecycle
pub mod Invariant
pub mod Stock
pub mod Numbers
use text.Mathlib.Text.{◌==◌ as str_eq}
use ifg.Base.{
  ℕ, suc, ◌+◌, ℤ, Bool, true, false, not, ◌&&◌, Option, none, some, List, [], ◌∷◌, ◌++◌, String,
  if◌then◌else◌, is_some, length,
}
use ifg.Base.Dict.{Dict, lookup, insert}
use ifg.Base.Exec.{
  Exec, Result, ok, err, ◌>>=◌, ◌>>◌, raise, raise_if, or_raise, modify, gets, pure, lift, each,
  not_found, invalid_warehouse_document, invalid_status_transition,
}
use ifg.Decimal.{Decimal, to_dec, quantize, scale, of_units, is_integral, is_zero, is_nonpositive}
use ifg.Warehouse.Rows.{
  DocType, pz, wz, kk, transfer, DocStatus, draft, posted, cancelled, DocItem, Document, Warehouse,
  RawItem, DocumentBody,
}
use ifg.Warehouse.Posting.{truthy, save_document, post_document}

-- `doc_type in (t.value for t in WarehouseDocumentType)`
unfoldable pub parse_doc_type : String → Option DocType
parse_doc_type s =
    if str_eq s "PZ"
    then some pz
    else if str_eq s "WZ"
    then some wz
    else if str_eq s "KK"
    then some kk
    else if str_eq s "TRANSFER"
    then some transfer
    else none

abbrev maybe_dec : Option Decimal → Option ℤ
maybe_dec none = none
maybe_dec (some d) = some (to_dec d)

-- A column Numeric(_, 2) in the units of four places: the database rounds to two, half away from zero.
abbrev stored_two : Option Decimal → Option ℤ
stored_two none = none
stored_two (some d) = some (scale (quantize 2 (of_units 4 (to_dec d))) 100)

-- `_build_item_orm`, as the columns of app/persistence/models/warehouse_document.py store it, with the key that `uuid4()` gave
pub build_item_orm : ℕ → RawItem → DocItem
build_item_orm id raw = record {
  id = id;
  item_id = raw.item_id;
  quantity = to_dec raw.quantity;
  purchase_unit_price = maybe_dec raw.purchase_unit_price;
  unit_price_net = stored_two raw.unit_price_net;
  vat_rate = stored_two raw.vat_rate;
  suggested_sale_price = stored_two raw.suggested_sale_price;
}

-- The items under fresh keys from `n` on.
unfoldable pub build_items : ℕ → List RawItem → List DocItem
unfolding build_item_orm
build_items n [] = []
build_items n (raw ∷ raws) = build_item_orm n raw ∷ build_items (n + 1) raws

-- The first loop of `_validate_items_for_type`: nonzero whole quantities.
unfoldable pub quantity_ok : RawItem → Bool
quantity_ok raw = not (is_zero raw.quantity) && is_integral raw.quantity

-- The second loop, by type.
pub item_ok : DocType → RawItem → Bool
item_ok pz raw = is_some raw.purchase_unit_price && not (is_nonpositive raw.quantity)
item_ok wz raw = not (is_nonpositive raw.quantity)
item_ok kk raw =
    not (is_zero raw.quantity)
    && not (not (is_nonpositive raw.quantity) && not (is_some raw.purchase_unit_price))
item_ok transfer raw = true

pub all_ok : (RawItem → Bool) → List RawItem → Bool
all_ok test [] = true
all_ok test (raw ∷ raws) = test raw && all_ok test raws

-- `_validate_items_for_type`
pub validate_items_for_type : DocType → List RawItem → Exec Warehouse (Unit {0})
validate_items_for_type t raws =
    raise_if (not (all_ok quantity_ok raws)) invalid_warehouse_document
    >> raise_if (not (all_ok (item_ok t) raws)) invalid_warehouse_document

-- `_validate_doc_header`
pub validate_doc_header : DocType → DocumentBody → Exec Warehouse (Unit {0})
validate_doc_header wz body =
    raise_if (not (is_some body.source_invoice_id) && not (truthy body.issue_reason))
      invalid_warehouse_document
validate_doc_header _ body = pure tt

abbrev pub no_items : List RawItem → Bool
no_items [] = true
no_items (raw ∷ raws) = false

-- `self.doc_repo.add(doc_orm)`: the row of the document under a fresh key, and its items.
pub add_document : DocType → DocumentBody → Option ℕ → Exec Warehouse ℕ
add_document t body created_by w =
    let doc : Document = record {
      number = none;
      doc_type = t;
      status = draft;
      notes = body.notes;
      correction_reason = body.correction_reason;
      issue_reason = body.issue_reason;
      source_invoice_id = body.source_invoice_id;
      fiscal_report_id = body.fiscal_report_id;
      created_by = created_by;
      posted_at = none;
      doc_items = build_items (w.next_id + 1) body.items;
    } in
    (
      ok w.next_id,
      record w {
        next_id = w.next_id + 1 + length body.items;
        documents = w.documents ++ (w.next_id, doc) ∷ [];
      },
    )

pub create_document : DocumentBody → Option ℕ → Exec Warehouse ℕ
create_document body created_by = do
  t ← or_raise (parse_doc_type body.doc_type) invalid_warehouse_document
  raise_if (no_items body.items) invalid_warehouse_document
  validate_items_for_type t body.items
  validate_doc_header t body
  add_document t body created_by

-- `_assert_mutable`
pub assert_mutable : DocStatus → Exec Warehouse (Unit {0})
assert_mutable posted = raise invalid_warehouse_document
assert_mutable cancelled = raise invalid_warehouse_document
assert_mutable draft = pure tt

-- The part of `update_document` that writes: new header texts, and new items under fresh keys.
pub replace_document : ℕ → Document → DocumentBody → Exec Warehouse Document
replace_document doc_id doc body w =
    let doc' = record doc {
      notes = body.notes;
      correction_reason = body.correction_reason;
      issue_reason = body.issue_reason;
      doc_items = build_items w.next_id body.items;
    } in
    (
      ok doc',
      record w {
        next_id = w.next_id + length body.items;
        documents = insert doc_id doc' w.documents;
      },
    )

pub update_document : ℕ → DocumentBody → Exec Warehouse Document
update_document doc_id body = do
  found ← gets (λ w. lookup doc_id w.documents)
  doc ← or_raise found not_found
  assert_mutable doc.status
  raise_if (no_items body.items) invalid_warehouse_document
  validate_items_for_type doc.doc_type body.items
  validate_doc_header doc.doc_type body
  replace_document doc_id doc body

pub cancel_by_status : ℕ → Document → DocStatus → Exec Warehouse Document
cancel_by_status doc_id doc cancelled = pure doc
cancel_by_status doc_id doc s = do
  assert_mutable s
  save_document doc_id (record doc { status = cancelled })
  pure (record doc { status = cancelled })

pub cancel_document : ℕ → Exec Warehouse Document
cancel_document doc_id = do
  found ← gets (λ w. lookup doc_id w.documents)
  doc ← or_raise found not_found
  cancel_by_status doc_id doc doc.status
