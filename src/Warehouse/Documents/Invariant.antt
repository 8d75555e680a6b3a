-- ===== src/Warehouse/Documents/Invariant.antt =====
-- Every operation on documents keeps the warehouse well formed.
use ifg.Base.{
  ℕ, ◌+◌, ◌≤◌, pos, ◌≤ℤ◌, Option, List, [], ◌∷◌, ◌≡◌, refl, arith, All, All-append, true, not,
}
use ifg.Base.Dict.{Dict, lookup, Below-le, Every, Every-insert, Every-lookup}
use ifg.Base.Exec.{
  Exec, ◌>>=◌, ◌>>◌, bind_assoc, or_raise, gets, invalid_warehouse_document, not_found,
}
use ifg.Base.Keeps.{
  Keeps, Keeps-bind, Keeps-pure, Keeps-guard, Keeps-or_raise, Keeps-modify, Keeps-raise, Keeps-gets,
  Keeps-gets_bind,
}
use ifg.Decimal.Rounding.{to_dec_sign}
use ifg.Warehouse.Rows.{
  Warehouse, Document, Clock, DocType, pz, wz, kk, transfer, DocStatus, draft, posted, cancelled,
  RawItem, DocumentBody,
}
use ifg.Warehouse.Invariant.{IsConsistent, MovesBelow-le}
use ifg.Warehouse.Posting.{
  post_by_type, post_draft, post_by_status, post_document, allocate_document_number, save_document,
  is_empty,
}
use ifg.Warehouse.Posting.Keeping.{HasReceipts, post_by_type-Keeps}
use ifg.Warehouse.Posting.Frame.{IsFramed, post_by_type-IsFramed}
use ifg.Warehouse.Documents.{
  build_items, build_item_orm, quantity_ok, item_ok, all_ok, validate_items_for_type,
  validate_doc_header, no_items, add_document, create_document, parse_doc_type, assert_mutable,
  replace_document, update_document, cancel_by_status, cancel_document,
}

-- Receipts of positive quantity only.
abbrev ValidDocument : Document → Type 0
ValidDocument doc = HasReceipts doc.doc_type doc.doc_items

-- Balances, layers and movements agree, and no draft could break that.
pub record IsWellFormed (w : Warehouse) : Type 0 where
  pub consistent : IsConsistent w
  pub documents : Every ValidDocument w.documents

validated_item :
    (n : ℕ) (raw : RawItem) → item_ok pz raw ≡ true → pos 0 ≤ℤ (build_item_orm n raw).quantity
unfolding item_ok build_item_orm
validated_item n raw h = to_dec_sign raw.quantity (ground arith)

validated_items :
    (n : ℕ) (raws : List RawItem)
    → all_ok (item_ok pz) raws ≡ true
    → All (λ i. pos 0 ≤ℤ i.quantity) (build_items n raws)
unfolding all_ok build_items
validated_items n [] h = tt
validated_items n (raw ∷ raws) h =
    (validated_item n raw (ground arith), validated_items (n + 1) raws (ground arith))

validated-HasReceipts :
    (t : DocType) (n : ℕ) (raws : List RawItem)
    → all_ok (item_ok t) raws ≡ true
    → HasReceipts t (build_items n raws)
validated-HasReceipts pz n raws h = validated_items n raws h
validated-HasReceipts wz n raws h = tt
validated-HasReceipts kk n raws h = tt
validated-HasReceipts transfer n raws h = tt

-- New keys may be given out, and documents written, without touching the stock.
stock_untouched :
    (n : ℕ) (ds : Dict Document) (w : Warehouse)
    → w.next_id ≤ n
    → IsConsistent w
    → Every ValidDocument ds
    → IsWellFormed (record w { next_id = n; documents = ds })
stock_untouched n ds w le c h = record {
  consistent = record {
    sound = record {
      distinct = c.sound.distinct;
      below = Below-le w.next_id n w.layers le c.sound.below;
      moves_below = MovesBelow-le w.next_id n w.movements le c.sound.moves_below;
      nonneg = c.sound.nonneg;
      conserved = c.sound.conserved;
    };
    balanced = c.balanced;
  };
  documents = h;
}

-- The checks write nothing, and let only valid items through.
validate-Keeps :
    {A : Type 0} (t : DocType) (raws : List RawItem) (m : Exec Warehouse A)
    → (all_ok (item_ok t) raws ≡ true → Keeps IsWellFormed m)
    → Keeps IsWellFormed (validate_items_for_type t raws >> m)
unfolding validate_items_for_type
validate-Keeps t raws m k = rw bind_assoc (
    Keeps-guard (not (all_ok quantity_ok raws)) invalid_warehouse_document _ λ _.
      Keeps-guard (not (all_ok (item_ok t) raws)) invalid_warehouse_document m
        λ e. k (ground arith))

header-Keeps :
    {A : Type 0} (t : DocType) (body : DocumentBody) (m : Exec Warehouse A)
    → Keeps IsWellFormed m
    → Keeps IsWellFormed (validate_doc_header t body >> m)
unfolding validate_doc_header
header-Keeps pz body m k = Keeps-bind _ _ (Keeps-pure tt) (λ _. k)
header-Keeps wz body m k = Keeps-guard _ invalid_warehouse_document m (λ _. k)
header-Keeps kk body m k = Keeps-bind _ _ (Keeps-pure tt) (λ _. k)
header-Keeps transfer body m k = Keeps-bind _ _ (Keeps-pure tt) (λ _. k)

add_document-Keeps :
    (t : DocType) (body : DocumentBody) (by : Option ℕ)
    → all_ok (item_ok t) body.items ≡ true
    → Keeps IsWellFormed (add_document t body by)
unfolding add_document
add_document-Keeps t body by ok_items = record {
  at = λ w h. stock_untouched _ _ w (omega arith) h.consistent (
      All-append (λ e. ValidDocument e.1) w.documents _ h.documents
        (validated-HasReceipts t (w.next_id + 1) body.items ok_items, tt));
}

pub create_document-Keeps :
    (body : DocumentBody) (by : Option ℕ) → Keeps IsWellFormed (create_document body by)
unfolding create_document
create_document-Keeps body by =
    Keeps-or_raise (parse_doc_type body.doc_type) invalid_warehouse_document _ λ t _.
      Keeps-guard (no_items body.items) invalid_warehouse_document _ λ _.
        validate-Keeps t body.items _
          λ valid. header-Keeps t body _ (add_document-Keeps t body by valid)

replace_document-Keeps :
    (id : ℕ) (doc : Document) (body : DocumentBody)
    → all_ok (item_ok doc.doc_type) body.items ≡ true
    → Keeps IsWellFormed (replace_document id doc body)
unfolding replace_document
replace_document-Keeps id doc body ok_items = record {
  at = λ w h. stock_untouched _ _ w (omega arith) h.consistent (
      Every-insert ValidDocument id _ w.documents h.documents
        (validated-HasReceipts doc.doc_type w.next_id body.items ok_items));
}

assert_mutable-Keeps : (s : DocStatus) → Keeps IsWellFormed (assert_mutable s)
unfolding assert_mutable
assert_mutable-Keeps draft = Keeps-pure tt
assert_mutable-Keeps posted = Keeps-raise invalid_warehouse_document
assert_mutable-Keeps cancelled = Keeps-raise invalid_warehouse_document

pub update_document-Keeps :
    (id : ℕ) (body : DocumentBody) → Keeps IsWellFormed (update_document id body)
unfolding update_document
update_document-Keeps id body = Keeps-bind _ _ (Keeps-gets _) λ found.
    Keeps-or_raise found not_found _ λ doc _. Keeps-bind _ _ (assert_mutable-Keeps doc.status) λ _.
      Keeps-guard (no_items body.items) invalid_warehouse_document _ λ _.
        validate-Keeps doc.doc_type body.items _
          λ valid. header-Keeps doc.doc_type body _ (replace_document-Keeps id doc body valid)

save_document-Keeps :
    (id : ℕ) (doc : Document) → ValidDocument doc → Keeps IsWellFormed (save_document id doc)
save_document-Keeps id doc v = Keeps-modify _ λ w h.
    stock_untouched w.next_id _ w (omega arith) h.consistent
      (Every-insert ValidDocument id doc w.documents h.documents v)

-- A method that first looks a document up, which is then a valid one.
with_document-Keeps :
    {A : Type 0} (id : ℕ) (m : Document → Exec Warehouse A)
    → ((doc : Document) → ValidDocument doc → Keeps IsWellFormed (m doc))
    → Keeps IsWellFormed
        (gets (λ w. lookup id w.documents) >>= λ found. or_raise found not_found >>= m)
with_document-Keeps id m k = Keeps-gets_bind _ _ λ w h.
    (Keeps-or_raise (lookup id w.documents) not_found m
        λ doc found. k doc (Every-lookup ValidDocument id w.documents h.documents found)).at
      w h

cancel_by_status-Keeps :
    (id : ℕ) (doc : Document) (s : DocStatus)
    → ValidDocument doc
    → Keeps IsWellFormed (cancel_by_status id doc s)
unfolding cancel_by_status
cancel_by_status-Keeps id doc cancelled v = Keeps-pure doc
cancel_by_status-Keeps id doc _ v = Keeps-bind _ _ (assert_mutable-Keeps _) λ _.
    Keeps-bind _ _ (save_document-Keeps id (record doc { status = cancelled }) v)
      (λ _. Keeps-pure _)

pub cancel_document-Keeps : (id : ℕ) → Keeps IsWellFormed (cancel_document id)
unfolding cancel_document
cancel_document-Keeps id =
    with_document-Keeps id _ (λ doc v. cancel_by_status-Keeps id doc doc.status v)

post_stock-Keeps :
    (clock : Clock) (doc : Document)
    → ValidDocument doc
    → Keeps IsWellFormed (post_by_type clock doc doc.doc_type)
post_stock-Keeps clock doc v = record {
  at = λ w h.
      let start : IsFramed w.next_id w.documents w.sequences w = record {
        next = omega arith;
        documents = refl;
        sequences = refl;
      } in
      let framed =
        (post_by_type-IsFramed w.next_id w.documents w.sequences clock doc doc.doc_type).at w
          start in
      record {
        consistent = (post_by_type-Keeps clock doc doc.doc_type v).at w h.consistent;
        documents = rw framed.documents h.documents;
      };
}

allocate-Keeps : (t : DocType) (year : ℕ) → Keeps IsWellFormed (allocate_document_number t year)
unfolding allocate_document_number
allocate-Keeps t year = record {
  at = λ w h. record {
    consistent = record {
      sound = record {
        distinct = h.consistent.sound.distinct;
        below = h.consistent.sound.below;
        moves_below = h.consistent.sound.moves_below;
        nonneg = h.consistent.sound.nonneg;
        conserved = h.consistent.sound.conserved;
      };
      balanced = h.consistent.balanced;
    };
    documents = h.documents;
  };
}

post_draft-Keeps :
    (clock : Clock) (id : ℕ) (doc : Document)
    → ValidDocument doc
    → Keeps IsWellFormed (post_draft clock id doc)
unfolding post_draft
post_draft-Keeps clock id doc v = Keeps-bind _ _ (post_stock-Keeps clock doc v) λ _.
    Keeps-bind _ _ (allocate-Keeps doc.doc_type clock.year) λ number.
      Keeps-guard (is_empty number) invalid_warehouse_document _
        λ _. Keeps-bind _ _ (save_document-Keeps id _ v) (λ _. Keeps-pure _)

post_by_status-Keeps :
    (clock : Clock) (id : ℕ) (doc : Document) (s : DocStatus)
    → ValidDocument doc
    → Keeps IsWellFormed (post_by_status clock id doc s)
unfolding post_by_status
post_by_status-Keeps clock id doc draft v = post_draft-Keeps clock id doc v
post_by_status-Keeps clock id doc posted v = Keeps-pure doc
post_by_status-Keeps clock id doc cancelled v = Keeps-raise _

-- Posting keeps the warehouse well formed on every path, a raise half way included.
pub post_document-Keeps : (clock : Clock) (id : ℕ) → Keeps IsWellFormed (post_document clock id)
unfolding post_document
post_document-Keeps clock id =
    with_document-Keeps id _ (λ doc v. post_by_status-Keeps clock id doc doc.status v)
