-- ===== src/Warehouse/Posting/Frame.antt =====
-- What posting leaves alone: the documents and the number sequences, until the document itself is
-- written; and no key is given out twice.
use ifg.Base.{
  All-Unit, ℕ, ◌≤◌, ℤ, pos, ltb_ℤ, leb_ℤ, min_ℤ, ◌-ℤ◌, none, some, List, [], ◌∷◌, ◌≡◌, arith,
  Bool-cases, inl, inr,
}
use ifg.Base.Dict.{Dict, lookup, insert}
use ifg.Base.Exec.{invalid_warehouse_document}
use ifg.Base.Keeps.{Keeps, Keeps-each, Keeps-guard, Keeps-raise, keeps_rules}
use ifg.Warehouse.Rows.{
  Layer, Warehouse, DocItem, Document, NumberSeq, Clock, DocType, pz, wz, kk, transfer,
}
use ifg.Warehouse.Repository.{add_layer, upsert_balance, get_available_fifo}
use ifg.Warehouse.Fifo.{take_from, consume_loop, consume_fifo, total_remaining}
use ifg.Warehouse.Posting.{
  post_pz_item, post_pz, post_wz_item, post_wz, post_kk_item, post_kk_plus, post_kk_minus, post_kk,
  post_by_type, update_catalog, priced,
}

module _ (n : ℕ) (ds : Dict Document) (sq : List NumberSeq) where
  pub record IsFramed (w : Warehouse) : Type 0 where
    pub next : n ≤ w.next_id
    pub documents : w.documents ≡ ds
    pub sequences : w.sequences ≡ sq

  take_from-IsFramed :
      (d k : ℕ) (l : Layer) (t : ℤ) (w : Warehouse) → IsFramed w → IsFramed (take_from d k l t w)
  unfolding take_from
  take_from-IsFramed d k l t w f = record {
    next = omega (arith, f.next);
    documents = f.documents;
    sequences = f.sequences;
  }

  consume_loop-IsFramed :
      (d : ℕ) (rem : ℤ) (ls : Dict Layer) (w : Warehouse)
      → IsFramed w
      → IsFramed (consume_loop d rem ls w)
  unfolding consume_loop
  consume_loop-IsFramed d rem [] w f = f
  consume_loop-IsFramed d rem ((k, l) ∷ ls) w f = elim (Bool-cases (leb_ℤ rem (pos 0))) [
    | inl done ↦ rw done f
    | inr more ↦
        let t = min_ℤ l.remaining_quantity rem in
        rw more (
          consume_loop-IsFramed d (rem -ℤ t) ls (take_from d k l t w)
            (take_from-IsFramed d k l t w f))
  ]

  consume_fifo-IsFramed : (item d : ℕ) (qty : ℤ) → Keeps IsFramed (consume_fifo item d qty)
  unfolding consume_fifo
  consume_fifo-IsFramed item d qty = record {
    at = λ w f. elim (Bool-cases (ltb_ℤ (total_remaining (get_available_fifo item w.layers)) qty)) [
      | inl short ↦ rw short f
      | inr enough ↦ rw enough (consume_loop-IsFramed d qty (get_available_fifo item w.layers) w f)
    ];
  }

  add_layer-IsFramed : (l : Layer) (w : Warehouse) → IsFramed w → IsFramed (add_layer l w)
  unfolding add_layer
  add_layer-IsFramed l w f = record {
    next = omega (arith, f.next);
    documents = f.documents;
    sequences = f.sequences;
  }

  upsert_balance-IsFramed :
      (item : ℕ) (q : ℤ) (w : Warehouse) → IsFramed w → IsFramed (upsert_balance item q w)
  unfolding upsert_balance
  upsert_balance-IsFramed item q w f = record {
    next = f.next;
    documents = f.documents;
    sequences = f.sequences;
  }

  update_catalog-IsFramed :
      (item : DocItem) (price : ℤ) (w : Warehouse)
      → IsFramed w
      → IsFramed (update_catalog item price w)
  unfolding update_catalog
  update_catalog-IsFramed item price w f =
      elim (lookup item.item_id w.catalog)
        as (λ o. IsFramed (elim o [
          | none ↦ w
          | some r ↦ record w { catalog = insert item.item_id (priced item price r) w.catalog }
        ])) [
          | none ↦ f
          | some r ↦ record { next = f.next; documents = f.documents; sequences = f.sequences }
        ]

  ruleset frame_rules = (
    keeps_rules, consume_fifo-IsFramed, add_layer-IsFramed, upsert_balance-IsFramed,
    update_catalog-IsFramed,
  )

  post_pz_item-IsFramed :
      (clock : Clock) (item : DocItem) → Keeps IsFramed (post_pz_item clock item)
  unfolding post_pz_item
  post_pz_item-IsFramed clock item = search frame_rules

  post_wz_item-IsFramed : (item : DocItem) → Keeps IsFramed (post_wz_item item)
  unfolding post_wz_item
  post_wz_item-IsFramed item = search frame_rules

  post_kk_item-IsFramed :
      (clock : Clock) (item : DocItem) → Keeps IsFramed (post_kk_item clock item)
  unfolding post_kk_item post_kk_plus post_kk_minus
  post_kk_item-IsFramed clock item = search frame_rules depth 8

  pub post_by_type-IsFramed :
      (clock : Clock) (doc : Document) (t : DocType) → Keeps IsFramed (post_by_type clock doc t)
  unfolding post_by_type post_pz post_wz post_kk
  post_by_type-IsFramed clock doc pz =
      Keeps-each (λ _. Unit {0}) (post_pz_item clock) (λ i _. post_pz_item-IsFramed clock i)
        doc.doc_items (All-Unit doc.doc_items)
  post_by_type-IsFramed clock doc wz = Keeps-guard _ invalid_warehouse_document _ λ _.
      Keeps-each (λ _. Unit {0}) post_wz_item (λ i _. post_wz_item-IsFramed i) doc.doc_items
        (All-Unit doc.doc_items)
  post_by_type-IsFramed clock doc kk = Keeps-guard _ invalid_warehouse_document _ λ _.
      Keeps-each (λ _. Unit {0}) (post_kk_item clock) (λ i _. post_kk_item-IsFramed clock i)
        doc.doc_items (All-Unit doc.doc_items)
  post_by_type-IsFramed clock doc transfer = Keeps-raise invalid_warehouse_document
