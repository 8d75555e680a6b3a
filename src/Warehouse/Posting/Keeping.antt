-- ===== src/Warehouse/Posting/Keeping.antt =====
-- Posting keeps the invariant of the stock, also where it raises half way.
use ifg.Base.{
  All-Unit, ℕ, ℤ, pos, ◌≤ℤ◌, ◌<ℤ◌, magnitude, ltb_ℤ, leb_ℤ, eqb_ℤ, neg_ℤ, some, none, List, ◌≡◌,
  refl, ap, arith, All, true, false, inl, inr, leb_ℤ→lt, ltb_ℤ→lt,
}
use ifg.Base.Dict.{Dict, lookup, insert}
use ifg.Base.Exec.{Exec, ◌>>=◌, ◌>>◌, modify, bind-ok, bind-err, invalid_warehouse_document}
use ifg.Base.Keeps.{
  Keeps, Keeps-each, Keeps-guard, Keeps-or_raise, Keeps-if, Keeps-modify, Keeps-raise,
}
use ifg.Warehouse.Rows.{
  Layer, Warehouse, DocItem, Document, Clock, CatalogItem, DocType, pz, wz, kk, transfer,
}
use ifg.Warehouse.Repository.{add_layer, upsert_balance}
use ifg.Warehouse.Fifo.{consume_fifo}
use ifg.Warehouse.Invariant.{IsConsistent, add_layer-IsConsistent, consume_fifo-IsConsistent}
use ifg.Warehouse.Posting.{
  post_pz_item, post_pz, post_wz_item, post_wz, post_kk_item, post_kk_plus, post_kk_minus, post_kk,
  post_by_type, update_catalog, new_layer, priced,
}

-- The catalogue is no part of the stock.
with_catalog-IsConsistent :
    (c : Dict CatalogItem) (w : Warehouse)
    → IsConsistent w
    → IsConsistent (record w { catalog = c })
with_catalog-IsConsistent rows w c = record {
  sound = record {
    distinct = c.sound.distinct;
    below = c.sound.below;
    moves_below = c.sound.moves_below;
    nonneg = c.sound.nonneg;
    conserved = c.sound.conserved;
  };
  balanced = c.balanced;
}

update_catalog-IsConsistent :
    (item : DocItem) (price : ℤ) (w : Warehouse)
    → IsConsistent w
    → IsConsistent (update_catalog item price w)
unfolding update_catalog
update_catalog-IsConsistent item price w c =
    elim (lookup item.item_id w.catalog)
      as (λ o. IsConsistent (elim o [
        | none ↦ w
        | some r ↦ record w { catalog = insert item.item_id (priced item price r) w.catalog }
      ])) [ none ↦ c | some r ↦ with_catalog-IsConsistent _ w c ]

-- An issue, with its entry in the balance.
issue-Keeps :
    (item d : ℕ) (qty : ℤ)
    → pos 0 ≤ℤ qty
    → Keeps IsConsistent (consume_fifo item d qty >> modify (upsert_balance item (neg_ℤ qty)))
unfolding ◌>>=◌
issue-Keeps item d qty lo = record {
  at = λ w c. elim (consume_fifo-IsConsistent item d qty w lo c) [
    | inl short ↦
        rw
          (bind-err (consume_fifo item d qty) (λ _. modify (upsert_balance item (neg_ℤ qty))) w
            (ap (λ r. r.0) short))
          (rw short c)
    | inr (done, kept) ↦
        rw
          (bind-ok (consume_fifo item d qty) (λ _. modify (upsert_balance item (neg_ℤ qty))) w done)
          kept
  ];
}

-- A receipt, with its entry in the balance.
receive-Keeps :
    {A : Type 0} (l : Layer) (m : Exec Warehouse A)
    → l.remaining_quantity ≡ l.received_quantity
    → pos 0 ≤ℤ l.remaining_quantity
    → Keeps IsConsistent m
    → Keeps IsConsistent
        (modify (add_layer l) >> (modify (upsert_balance l.item_id l.remaining_quantity) >> m))
unfolding ◌>>=◌
receive-Keeps l m full lo km = record { at = λ w c. km.at _ (add_layer-IsConsistent l w full lo c) }

post_pz_item-Keeps :
    (clock : Clock) (item : DocItem)
    → pos 0 ≤ℤ item.quantity
    → Keeps IsConsistent (post_pz_item clock item)
unfolding post_pz_item
post_pz_item-Keeps clock item lo =
    Keeps-or_raise item.purchase_unit_price invalid_warehouse_document _ λ price _.
      receive-Keeps (new_layer clock pz false item price) _ refl lo
        (Keeps-modify _ (update_catalog-IsConsistent item price))

post_wz_item-Keeps : (item : DocItem) → Keeps IsConsistent (post_wz_item item)
unfolding post_wz_item
post_wz_item-Keeps item =
    Keeps-guard (leb_ℤ item.quantity (pos 0)) invalid_warehouse_document _ λ good.
      issue-Keeps item.item_id item.id item.quantity
        (omega (arith, leb_ℤ→lt item.quantity (pos 0) good))

post_kk_plus-Keeps :
    (clock : Clock) (item : DocItem)
    → pos 0 <ℤ item.quantity
    → Keeps IsConsistent (post_kk_plus clock item)
unfolding post_kk_plus ◌>>=◌
post_kk_plus-Keeps clock item lo =
    Keeps-or_raise item.purchase_unit_price invalid_warehouse_document _ λ price _. record {
      at =
          λ w c. add_layer-IsConsistent (new_layer clock kk true item price) w refl (omega arith) c;
    }

post_kk_minus-Keeps : (item : DocItem) → Keeps IsConsistent (post_kk_minus item)
unfolding post_kk_minus
post_kk_minus-Keeps item =
    issue-Keeps item.item_id item.id (pos (magnitude item.quantity)) (omega arith)

post_kk_item-Keeps : (clock : Clock) (item : DocItem) → Keeps IsConsistent (post_kk_item clock item)
unfolding post_kk_item
post_kk_item-Keeps clock item =
    Keeps-guard (eqb_ℤ item.quantity (pos 0)) invalid_warehouse_document _ λ _.
      Keeps-if (ltb_ℤ (pos 0) item.quantity) (post_kk_plus clock item) (post_kk_minus item)
        (λ plus. post_kk_plus-Keeps clock item (ltb_ℤ→lt (pos 0) item.quantity plus))
        (λ minus. post_kk_minus-Keeps item)

-- The quantities of a receipt are positive: `_validate_items_for_type` saw to it.
abbrev pub HasReceipts : DocType → List DocItem → Type 0
HasReceipts pz items = All (λ i. pos 0 ≤ℤ i.quantity) items
HasReceipts _ items = Unit

-- Whatever the type, and also where it raises after some of the items.
pub post_by_type-Keeps :
    (clock : Clock) (doc : Document) (t : DocType)
    → HasReceipts t doc.doc_items
    → Keeps IsConsistent (post_by_type clock doc t)
unfolding post_by_type post_pz post_wz post_kk
post_by_type-Keeps clock doc pz h =
    Keeps-each (λ i. pos 0 ≤ℤ i.quantity) (post_pz_item clock) (post_pz_item-Keeps clock)
      doc.doc_items h
post_by_type-Keeps clock doc wz h = Keeps-guard _ invalid_warehouse_document _ λ _.
    Keeps-each (λ _. Unit {0}) post_wz_item (λ i _. post_wz_item-Keeps i) doc.doc_items
      (All-Unit doc.doc_items)
post_by_type-Keeps clock doc kk h = Keeps-guard _ invalid_warehouse_document _ λ _.
    Keeps-each (λ _. Unit {0}) (post_kk_item clock) (λ i _. post_kk_item-Keeps clock i)
      doc.doc_items (All-Unit doc.doc_items)
post_by_type-Keeps clock doc transfer h = Keeps-raise invalid_warehouse_document
