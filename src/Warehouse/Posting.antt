-- ===== src/Warehouse/Posting.antt =====
-- `post_document` and the three kinds of posting: `_post_pz`, `_post_wz`, `_post_kk`.
pub mod Keeping
pub mod Frame
pub mod Effect
use ifg.Base.{
  ℕ, ◌+◌, ℤ, pos, ◌-ℤ◌, neg_ℤ, magnitude, Bool, true, false, not, ◌&&◌, Option, none, some, List,
  [], ◌∷◌, ◌++◌, String, ltb_ℤ, leb_ℤ, eqb_ℤ, if◌then◌else◌, is_some,
}
use ifg.Base.Dict.{Dict, lookup, insert}
use ifg.Base.Exec.{
  Exec, ok, err, ◌>>=◌, ◌>>◌, raise, raise_if, or_raise, modify, gets, pure, each, not_found,
  invalid_warehouse_document, invalid_status_transition,
}
use ifg.Numeral.{show, show_padded}
use ifg.Warehouse.Rows.{
  DocType, pz, wz, kk, transfer, DocStatus, draft, posted, cancelled, DocItem, Document, Layer,
  Movement, CatalogItem, Warehouse, Clock,
}
use ifg.Warehouse.Repository.{add_layer, upsert_balance, allocate_next_sequence}
use ifg.Warehouse.Fifo.{consume_fifo}

-- Python's truth of an optional text: None and "" are false.
abbrev pub truthy : Option String → Bool
truthy none = false
truthy (some String.[]) = false
truthy (some (String.◌∷◌ c s)) = true

abbrev pub new_layer : Clock → DocType → Bool → DocItem → ℤ → Layer
new_layer clock t correction item price = record {
  item_id = item.item_id;
  source_document_item_id = item.id;
  source_document_type = t;
  received_quantity = item.quantity;
  remaining_quantity = item.quantity;
  purchase_unit_price = price;
  received_date = clock.today;
  is_correction = correction;
  created_at = clock.now;
}

-- The catalogue takes over the last purchase price, and the rate and the suggested price if given.
abbrev pub priced : DocItem → ℤ → CatalogItem → CatalogItem
priced item price c = record {
  default_price_net = price;
  vat_rate = elim item.vat_rate [ none ↦ c.vat_rate | some v ↦ v ];
  suggested_sale_price = elim item.suggested_sale_price [
    | none ↦ c.suggested_sale_price
    | some p ↦ some p
  ];
}

pub update_catalog : DocItem → ℤ → Warehouse → Warehouse
update_catalog item price w = elim (lookup item.item_id w.catalog) [
  | none ↦ w
  | some c ↦ record w { catalog = insert item.item_id (priced item price c) w.catalog }
]

-- The body of the loop in `_post_pz`.
pub post_pz_item : Clock → DocItem → Exec Warehouse (Unit {0})
post_pz_item clock item = do
  price ← or_raise item.purchase_unit_price invalid_warehouse_document
  modify (add_layer (new_layer clock pz false item price))
  modify (upsert_balance item.item_id item.quantity)
  modify (update_catalog item price)

pub post_pz : Clock → Document → Exec Warehouse (Unit {0})
post_pz clock doc = each (post_pz_item clock) doc.doc_items

unfoldable pub post_wz_item : DocItem → Exec Warehouse (Unit {0})
post_wz_item item = do
  raise_if (leb_ℤ item.quantity (pos 0)) invalid_warehouse_document
  consume_fifo item.item_id item.id item.quantity
  modify (upsert_balance item.item_id (neg_ℤ item.quantity))

unfoldable pub post_wz : Document → Exec Warehouse (Unit {0})
post_wz doc = do
  raise_if (not (is_some doc.source_invoice_id) && not (truthy doc.issue_reason))
      invalid_warehouse_document
  each post_wz_item doc.doc_items

pub post_kk_plus : Clock → DocItem → Exec Warehouse (Unit {0})
post_kk_plus clock item = do
  price ← or_raise item.purchase_unit_price invalid_warehouse_document
  modify (add_layer (new_layer clock kk true item price))
  modify (upsert_balance item.item_id item.quantity)

pub post_kk_minus : DocItem → Exec Warehouse (Unit {0})
post_kk_minus item = do
  consume_fifo item.item_id item.id (pos (magnitude item.quantity))
  modify (upsert_balance item.item_id (neg_ℤ (pos (magnitude item.quantity))))

pub post_kk_item : Clock → DocItem → Exec Warehouse (Unit {0})
post_kk_item clock item = do
  raise_if (eqb_ℤ item.quantity (pos 0)) invalid_warehouse_document
  if ltb_ℤ (pos 0) item.quantity then post_kk_plus clock item else post_kk_minus item

pub post_kk : Clock → Document → Exec Warehouse (Unit {0})
post_kk clock doc = do
  raise_if (not (truthy doc.correction_reason)) invalid_warehouse_document
  each (post_kk_item clock) doc.doc_items

unfoldable pub post_by_type : Clock → Document → DocType → Exec Warehouse (Unit {0})
post_by_type clock doc pz = post_pz clock doc
post_by_type clock doc wz = post_wz doc
post_by_type clock doc kk = post_kk clock doc
post_by_type clock doc transfer = raise invalid_warehouse_document

-- `t.value`
abbrev pub type_code : DocType → List ℕ
type_code pz = b'P' ∷ b'Z' ∷ []
type_code wz = b'W' ∷ b'Z' ∷ []
type_code kk = b'K' ∷ b'K' ∷ []
type_code transfer = b'T' ∷ b'R' ∷ b'A' ∷ b'N' ∷ b'S' ∷ b'F' ∷ b'E' ∷ b'R' ∷ []

-- f"{doc_type}/{year}/{seq:04d}"
unfoldable pub document_number : DocType → ℕ → ℕ → List ℕ
document_number t year seq = type_code t ++ (b'/' ∷ (show year ++ (b'/' ∷ show_padded 4 seq)))

-- `_allocate_document_number`
unfoldable pub allocate_document_number : DocType → ℕ → Exec Warehouse (List ℕ)
allocate_document_number t year w =
    let (seq, rows) = allocate_next_sequence t year w.sequences in
    (ok (document_number t year seq), record w { sequences = rows })

-- `not text`
abbrev pub is_empty : List ℕ → Bool
is_empty [] = true
is_empty (c ∷ cs) = false

abbrev pub save_document : ℕ → Document → Exec Warehouse (Unit {0})
save_document doc_id doc = modify (λ w. record w { documents = insert doc_id doc w.documents })

unfoldable pub post_draft : Clock → ℕ → Document → Exec Warehouse Document
post_draft clock doc_id doc = do
  post_by_type clock doc doc.doc_type
  number ← allocate_document_number doc.doc_type clock.year
  raise_if (is_empty number) invalid_warehouse_document
  let final = record doc { number = some number; status = posted; posted_at = some clock.now }
  save_document doc_id final
  pure final

unfoldable pub post_by_status : Clock → ℕ → Document → DocStatus → Exec Warehouse Document
post_by_status clock doc_id doc posted = pure doc
post_by_status clock doc_id doc cancelled = raise invalid_status_transition
post_by_status clock doc_id doc draft = post_draft clock doc_id doc

unfoldable pub post_document : Clock → ℕ → Exec Warehouse Document
post_document clock doc_id = do
  found ← gets (λ w. lookup doc_id w.documents)
  doc ← or_raise found not_found
  post_by_status clock doc_id doc doc.status
