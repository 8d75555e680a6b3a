-- ===== src/Warehouse/Documents/Stock.antt =====
-- What posting a document does to the stock, and that the other operations do nothing to it.
use ifg.Base.{ℕ, ℤ, ◌+ℤ◌, some, ◌≡◌, ap, sym, ◌∙◌}
use ifg.Base.Dict.{lookup}
use ifg.Base.Exec.{ok, ◌>>=◌, ◌>>◌, pure, invalid_warehouse_document}
use ifg.Base.Ensures.{Ensures, Ensures-bind, Ensures-guard}
use ifg.Warehouse.Rows.{Warehouse, Document, Clock, DocStatus, draft, posted, cancelled}
use ifg.Warehouse.Repository.{balance_of}
use ifg.Warehouse.Fifo.Stock.{stock_of}
use ifg.Warehouse.Posting.{
  post_by_type, post_draft, post_by_status, post_document, allocate_document_number, save_document,
  is_empty,
}
use ifg.Warehouse.Posting.Effect.{Moved, net, post_by_type-Moved}
use ifg.Warehouse.Documents.Lifecycle.{with_found}
use ifg.Warehouse.Documents.Invariant.{IsWellFormed, post_document-Keeps}

-- Writing the document moves no balance.
saved-Moved :
    (f : ℕ → ℤ) (id : ℕ) (doc : Document) (w w' : Warehouse)
    → Moved f w w'
    → Ensures (λ _ v. Moved f w v) (save_document id doc >> pure doc) w'
unfolding ◌>>=◌
saved-Moved f id doc w w' m = record { holds = λ _ _. m }

post_draft-Moved :
    (clock : Clock) (id : ℕ) (doc : Document) (w : Warehouse)
    → Ensures (λ _ w'. Moved (net doc.doc_type doc.doc_items) w w') (post_draft clock id doc) w
unfolding post_draft allocate_document_number
post_draft-Moved clock id doc w = Ensures-bind (post_by_type clock doc doc.doc_type) _ w λ a e.
    Ensures-bind (allocate_document_number doc.doc_type clock.year) _ _ λ number _.
      Ensures-guard (is_empty number) invalid_warehouse_document _ _
        λ _. saved-Moved _ id _ w _ ((post_by_type-Moved clock doc doc.doc_type w).holds a e)

post_by_status-Moved :
    (clock : Clock) (id : ℕ) (doc : Document) (s : DocStatus) (w : Warehouse)
    → s ≡ draft
    → Ensures
        (λ _ w'. Moved (net doc.doc_type doc.doc_items) w w')
        (post_by_status clock id doc s)
        w
unfolding post_by_status
post_by_status-Moved clock id doc draft w h = post_draft-Moved clock id doc w
post_by_status-Moved clock id doc posted w h = record { holds = λ _ _. cc }
post_by_status-Moved clock id doc cancelled w h = record { holds = λ _ _. cc }

-- When posting a draft returns, in a well-formed warehouse, the stock of each item has moved by the
-- entries of the document's items for it: up for a receipt, down for an issue, and by the signed
-- quantity for a correction.
pub post_document_stock :
    (clock : Clock) (id : ℕ) (doc result : Document) (w : Warehouse)
    → IsWellFormed w
    → lookup id w.documents ≡ some doc
    → doc.status ≡ draft
    → (post_document clock id w).0 ≡ ok result
    → (i : ℕ)
    → stock_of i (post_document clock id w).1.layers
      ≡ stock_of i w.layers +ℤ net doc.doc_type doc.doc_items i
unfolding post_document
post_document_stock clock id doc result w h found status e i =
    let after = (post_document-Keeps clock id).at w h in
    let step = with_found id doc w found (λ d. post_by_status clock id d d.status) in
    let moved =
      (post_by_status-Moved clock id doc doc.status w status).holds result
        (ap (λ r. r.0) (sym step) ∙ e) in
    sym (after.consistent.balanced i)
    ∙ ap (λ r. balance_of i r.1.balances) step
    ∙ moved i
    ∙ ap (λ q. q +ℤ net doc.doc_type doc.doc_items i) (h.consistent.balanced i)
