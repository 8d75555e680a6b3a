-- ===== src/Warehouse/Repository.antt =====
-- app/persistence/repositories/inventory_layer_repository.py and warehouse_document_repository.py
-- on the tables.
use ifg.Base.{
  ℕ, ◌+◌, ℤ, pos, ◌+ℤ◌, Bool, true, false, ◌&&◌, none, some, List, [], ◌∷◌, ◌++◌, ltb, ltb_ℤ, ◌==◌,
  if◌then◌else◌, select,
}
use ifg.Base.Dict.{Dict, lookup, insert}
use ifg.Warehouse.Rows.{Layer, Warehouse, DocType, NumberSeq, pz, wz, kk, transfer}

abbrev pub available : ℕ → ℕ × Layer → Bool
available item_id (k, l) = l.item_id == item_id && ltb_ℤ (pos 0) l.remaining_quantity

-- ORDER BY received_date, created_at: a strictly later b before a
abbrev pub later : ℕ × Layer → ℕ × Layer → Bool
later (_, a) (_, b) =
    if ltb b.received_date a.received_date
    then true
    else b.received_date == a.received_date && ltb b.created_at a.created_at

abbrev pub insert_sorted : ℕ × Layer → List (ℕ × Layer) → List (ℕ × Layer)
insert_sorted x [] = x ∷ []
insert_sorted x (y ∷ ys) = if later x y then y ∷ insert_sorted x ys else x ∷ y ∷ ys

abbrev pub sort_layers : List (ℕ × Layer) → List (ℕ × Layer)
sort_layers [] = []
sort_layers (x ∷ xs) = insert_sorted x (sort_layers xs)

-- `get_available_fifo`
unfoldable pub get_available_fifo : ℕ → Dict Layer → List (ℕ × Layer)
get_available_fifo item_id layers = sort_layers (select (available item_id) layers)

-- `add_layer`
unfoldable pub add_layer : Layer → Warehouse → Warehouse
add_layer l w = record w { next_id = w.next_id + 1; layers = w.layers ++ (w.next_id, l) ∷ [] }

-- `get_balance`, 0 where there is no row
abbrev pub balance_of : ℕ → Dict ℤ → ℤ
balance_of item_id balances = elim (lookup item_id balances) [ none ↦ pos 0 | some q ↦ q ]

-- `upsert_balance`
unfoldable pub upsert_balance : ℕ → ℤ → Warehouse → Warehouse
upsert_balance item_id delta w = record w {
  balances = insert item_id (balance_of item_id w.balances +ℤ delta) w.balances;
}

abbrev pub same_type : DocType → DocType → Bool
same_type pz pz = true
same_type wz wz = true
same_type kk kk = true
same_type transfer transfer = true
same_type _ _ = false

-- `allocate_next_sequence`: INSERT … ON CONFLICT DO UPDATE … RETURNING last_number
unfoldable pub allocate_next_sequence : DocType → ℕ → List NumberSeq → ℕ × List NumberSeq
allocate_next_sequence t year [] = (1, record { doc_type = t; year = year; last_number = 1 } ∷ [])
allocate_next_sequence t year (row ∷ rows) =
    let rest = allocate_next_sequence t year rows in
    if same_type t row.doc_type && year == row.year
    then (row.last_number + 1, record row { last_number = row.last_number + 1 } ∷ rows)
    else (rest.0, row ∷ rest.1)
