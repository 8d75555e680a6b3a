-- ===== src/Tests/Stock.antt =====
-- Two layers of one item and one of another, in the tables.
use ifg.Base.{
  ℕ, ℤ, pos, ◌-ℤ◌, ◌+ℤ◌, ◌≤ℤ◌, ◌<ℤ◌, when, some, [], ◌∷◌, ◌≡◌, ◌⊎◌, ◌==◌, refl, arith, false,
  select,
}
use ifg.Base.Dict.{lookup, Distinct}
use ifg.Base.Exec.{ok, err, insufficient_stock}
use ifg.Warehouse.Rows.{Layer, Warehouse, pz}
use ifg.Warehouse.Repository.{get_available_fifo, available}
use ifg.Warehouse.Fifo.{consume_fifo}
use ifg.Warehouse.Fifo.Stock.{stock_of, share}
use ifg.Warehouse.Fifo.Loop.{Nonneg}
use ifg.Warehouse.Fifo.Order.{IsSorted, get_available_fifo_order}
use ifg.Warehouse.Fifo.Outcome.{consume_fifo_outcome, consume_fifo_layers, taken}
use mathlib.Core.List.{Perm}

abbrev layer : ℕ → ℤ → ℕ → Layer
layer item left day = record {
  item_id = item;
  source_document_item_id = 1;
  source_document_type = pz;
  received_quantity = pos 100000;
  remaining_quantity = left;
  purchase_unit_price = pos 125000;
  received_date = day;
  is_correction = false;
  created_at = day;
}

-- The younger layer of item 1 stands first.
abbrev stocked : Warehouse
stocked = record {
  next_id = 20;
  documents = [];
  layers =
      (11, layer 1 (pos 80000) 9) ∷ (12, layer 2 (pos 50000) 3) ∷ (13, layer 1 (pos 70000) 5) ∷ [];
  movements = [];
  balances = (1, pos 150000) ∷ (2, pos 50000) ∷ [];
  sequences = [];
  catalog = [];
}

stocked-Distinct : Distinct stocked.layers
stocked-Distinct = omega arith

stocked-Nonneg : Nonneg stocked.layers
stocked-Nonneg = omega arith

consume_fifo_outcome_example :
    (stock_of 1 stocked.layers <ℤ pos 100000)
      × (consume_fifo 1 6 (pos 100000) stocked ≡ (err insufficient_stock, stocked))
    ⊎ (pos 100000 ≤ℤ stock_of 1 stocked.layers)
      × ((consume_fifo 1 6 (pos 100000) stocked).0 ≡ ok tt)
      × ((i : ℕ)
          → stock_of i (consume_fifo 1 6 (pos 100000) stocked).1.layers
              +ℤ when (1 == i) (pos 100000)
            ≡ stock_of i stocked.layers)
consume_fifo_outcome_example =
    consume_fifo_outcome 1 6 (pos 100000) stocked stocked-Distinct stocked-Nonneg (omega arith)

-- 10 of 15: the older layer gives its 7, the younger one 3 of its 8.
consume_fifo_layers_example :
    lookup 11 (consume_fifo 1 6 (pos 100000) stocked).1.layers
    ≡ some (
        layer 1
          (pos 80000
            -ℤ taken (pos 100000) ((13, layer 1 (pos 70000) 5) ∷ []) (layer 1 (pos 80000) 9))
          9)
unfolding get_available_fifo share ◌+ℤ◌
consume_fifo_layers_example =
    consume_fifo_layers 1 6 11 (pos 100000) (layer 1 (pos 80000) 9)
      ((13, layer 1 (pos 70000) 5) ∷ []) [] stocked stocked-Distinct stocked-Nonneg refl
      (omega arith)

get_available_fifo_order_example :
    IsSorted (get_available_fifo 1 stocked.layers)
    × Perm (get_available_fifo 1 stocked.layers) (select (available 1) stocked.layers)
get_available_fifo_order_example = get_available_fifo_order 1 stocked.layers
