-- ===== src/Warehouse/Fifo.antt =====
-- `WarehouseDocumentService._consume_fifo`: stock is taken from the oldest layers first. Stored
-- quantities have four places already, so `_to_dec` of one is the value itself
-- (`Decimal.Rounding.to_dec-of_units`) and is not written again.
pub mod Stock
pub mod Loop
pub mod Order
pub mod Outcome
use ifg.Base.{ℕ, ◌+◌, ℤ, pos, ◌+ℤ◌, ◌-ℤ◌, List, [], ◌∷◌, ◌++◌, ltb_ℤ, leb_ℤ, min_ℤ, if◌then◌else◌}
use ifg.Base.Dict.{Dict, insert}
use ifg.Base.Exec.{Exec, ok, err, insufficient_stock}
use ifg.Warehouse.Rows.{Layer, Movement, Warehouse}
use ifg.Warehouse.Repository.{get_available_fifo}

-- `sum(_to_dec(l.remaining_quantity) for l in layers)`
abbrev pub total_remaining : List (ℕ × Layer) → ℤ
total_remaining [] = pos 0
total_remaining ((k, l) ∷ rest) = l.remaining_quantity +ℤ total_remaining rest

-- One round of the loop: the movement, and the layer's new remaining quantity.
unfoldable pub take_from : ℕ → ℕ → Layer → ℤ → Warehouse → Warehouse
take_from doc_item_id k l take w =
    let movement : Movement = record {
      id = w.next_id;
      layer_id = k;
      warehouse_document_item_id = doc_item_id;
      quantity_consumed = take;
      purchase_unit_price_snapshot = l.purchase_unit_price;
    } in
    record w {
      next_id = w.next_id + 1;
      movements = w.movements ++ movement ∷ [];
      layers = insert k (record l { remaining_quantity = l.remaining_quantity -ℤ take }) w.layers;
    }

unfoldable pub consume_loop : ℕ → ℤ → List (ℕ × Layer) → Warehouse → Warehouse
consume_loop doc_item_id remaining [] w = w
consume_loop doc_item_id remaining ((k, l) ∷ rest) w =
    let take = min_ℤ l.remaining_quantity remaining in
    let next =
      consume_loop doc_item_id (remaining -ℤ take) rest (take_from doc_item_id k l take w) in
    if leb_ℤ remaining (pos 0) then w else next

unfoldable pub consume_fifo : ℕ → ℕ → ℤ → Exec Warehouse (Unit {0})
consume_fifo item_id doc_item_id qty w =
    let layers = get_available_fifo item_id w.layers in
    if ltb_ℤ (total_remaining layers) qty
    then (err insufficient_stock, w)
    else (ok tt, consume_loop doc_item_id qty layers w)
