-- ===== src/Stock.antt =====
-- Product stock per warehouse: app/services/stock_service.py, app/domain/models/stock.py and
-- app/persistence/repositories/stock_repository.py. Quantities are in ten-thousandths.
pub mod Tally
use ifg.Base.{
  ℕ, ◌+◌, ℤ, pos, ◌+ℤ◌, ◌-ℤ◌, neg_ℤ, Bool, true, false, ◌&&◌, Option, none, some, List, [], ◌∷◌,
  ◌++◌, String, ltb_ℤ, leb_ℤ, ◌==◌, if◌then◌else◌,
}
use ifg.Base.Dict.{Dict, lookup, insert}
use ifg.Base.Exec.{
  AppError, Exec, Result, ok, err, ◌>>=◌, ◌>>◌, pure, raise, raise_if, or_raise, gets, modify, lift,
  each, not_found, stock_error,
}

pub data MovementType : Type 0 where
  purchase sale adjustment transfer : MovementType

pub record Product : Type 0 where
  pub name : String
  pub isbn : Option String
  pub unit : String

-- `Warehouse` of stock.py.
pub record Depot : Type 0 where
  pub name : String
  pub is_default : Bool

pub record Stock : Type 0 where
  pub product_id : ℕ
  pub warehouse_id : ℕ
  pub quantity : ℤ

pub record StockMovement : Type 0 where
  pub id : ℕ
  pub product_id : ℕ
  pub warehouse_id : ℕ
  pub movement_type : MovementType
  pub quantity : ℤ
  pub invoice_id : Option ℕ

pub record Store : Type 0 where
  pub next_id : ℕ
  pub products : Dict Product
  pub depots : Dict Depot
  pub stocks : Dict Stock
  pub movements : List StockMovement

-- UUID("00000000-0000-0000-0000-000000000001")
abbrev default_warehouse_id : ℕ
default_warehouse_id = 1

-- The SELECT by product and warehouse; the pair is unique.
abbrev pub is_pair : ℕ → ℕ → Stock → Bool
is_pair product_id warehouse_id s = s.product_id == product_id && s.warehouse_id == warehouse_id

pub find_stock : ℕ → ℕ → Dict Stock → Option (ℕ × Stock)
find_stock product_id warehouse_id [] = none
find_stock product_id warehouse_id ((id, s) ∷ rows) =
    if is_pair product_id warehouse_id s
    then some (id, s)
    else find_stock product_id warehouse_id rows

abbrev pub empty_stock : ℕ → ℕ → Stock
empty_stock product_id warehouse_id = record {
  product_id = product_id;
  warehouse_id = warehouse_id;
  quantity = pos 0;
}

abbrev created_if_missing : ℕ → ℕ → Store → Option (ℕ × Stock) → Result ℕ × Store
created_if_missing product_id warehouse_id s (some (id, row)) = (ok id, s)
created_if_missing product_id warehouse_id s none = (
  ok s.next_id,
  record s {
    next_id = s.next_id + 1;
    stocks = s.stocks ++ (s.next_id, empty_stock product_id warehouse_id) ∷ [];
  },
)

pub get_or_create_stock : ℕ → ℕ → Exec Store ℕ
get_or_create_stock product_id warehouse_id s =
    created_if_missing product_id warehouse_id s (find_stock product_id warehouse_id s.stocks)

-- `lock_stock_for_update`, or the row just created
abbrev locked_stock : ℕ → ℕ → Option (ℕ × Stock) → Stock
locked_stock product_id warehouse_id none = empty_stock product_id warehouse_id
locked_stock product_id warehouse_id (some (id, row)) = row

-- `validate_stock_not_negative`
abbrev not_negative : Stock → Result Stock
not_negative s = if ltb_ℤ s.quantity (pos 0) then err stock_error else ok s

abbrev pub changed_by : ℤ → Stock → Stock
changed_by delta s = record s { quantity = s.quantity +ℤ delta }

-- `Stock.apply_movement`; the ValueError becomes a StockError in the service.
pub apply_movement : MovementType → ℤ → Stock → Result Stock
apply_movement purchase quantity s = ok (changed_by quantity s)
apply_movement adjustment quantity s = ok (changed_by quantity s)
apply_movement sale quantity s = not_negative (changed_by (neg_ℤ quantity) s)
apply_movement transfer quantity s = not_negative (changed_by quantity s)

abbrev saved_over : Stock → Store → Option (ℕ × Stock) → Store
saved_over stock s (some (id, row)) = record s {
  stocks = insert id (record row { quantity = stock.quantity }) s.stocks;
}
saved_over stock s none = record s {
  next_id = s.next_id + 1;
  stocks = s.stocks ++ (s.next_id, stock) ∷ [];
}

pub save_stock : Stock → Store → Store
save_stock stock s = saved_over stock s (find_stock stock.product_id stock.warehouse_id s.stocks)

pub add_movement : MovementType → ℕ → ℕ → ℤ → Option ℕ → Exec Store StockMovement
add_movement type product_id warehouse_id quantity invoice_id s =
    let movement : StockMovement = record {
      id = s.next_id;
      product_id = product_id;
      warehouse_id = warehouse_id;
      movement_type = type;
      quantity = quantity;
      invoice_id = invoice_id;
    } in
    (ok movement, record s { next_id = s.next_id + 1; movements = s.movements ++ movement ∷ [] })

-- The part of `create_movement` after its checks.
pub move_stock : MovementType → ℕ → ℕ → ℤ → Option ℕ → Exec Store StockMovement
move_stock type product_id warehouse_id quantity invoice_id = do
  id ← get_or_create_stock product_id warehouse_id
  locked ← gets (λ s. find_stock product_id warehouse_id s.stocks)
  moved ← lift (apply_movement type quantity (locked_stock product_id warehouse_id locked))
  modify (save_stock moved)
  add_movement type product_id warehouse_id quantity invoice_id

-- `warehouse_id or DEFAULT_WAREHOUSE_ID`
abbrev pub resolved : Option ℕ → ℕ
resolved none = default_warehouse_id
resolved (some id) = id

pub create_movement : MovementType → ℕ → ℤ → Option ℕ → Option ℕ → Exec Store StockMovement
create_movement type product_id quantity warehouse_id invoice_id = do
  raise_if (leb_ℤ quantity (pos 0)) stock_error
  found ← gets (λ s. lookup product_id s.products)
  product ← or_raise found not_found
  depot_found ← gets (λ s. lookup (resolved warehouse_id) s.depots)
  depot ← or_raise depot_found not_found
  move_stock type product_id (resolved warehouse_id) quantity invoice_id

-- `try: … except NotFoundError: pass`
abbrev unless_not_found : {A : Type 0} → Result A → Result (Unit {0})
unless_not_found (ok a) = ok tt
unless_not_found (err not_found) = ok tt
unless_not_found (err e) = err e

pub ignoring_not_found : {A : Type 0} → Exec Store A → Exec Store (Unit {0})
ignoring_not_found m s = let (answer, s') = m s in (unless_not_found answer, s')

pub record InvoiceLine : Type 0 where
  pub product_id : Option ℕ
  pub quantity : ℤ

-- The body of the loop in `handle_invoice_created`.
abbrev pub move_line : MovementType → ℕ → Option ℕ → ℤ → Option ℕ → Exec Store (Unit {0})
move_line type invoice_id warehouse_id quantity none = pure tt
move_line type invoice_id warehouse_id quantity (some product_id) =
    ignoring_not_found (create_movement type product_id quantity warehouse_id (some invoice_id))

pub handle_invoice_created : ℕ → Bool → List InvoiceLine → Option ℕ → Exec Store (Unit {0})
handle_invoice_created invoice_id is_sale items warehouse_id =
    each
      (λ item.
        move_line (if is_sale then sale else purchase) invoice_id warehouse_id item.quantity
          item.product_id)
      items
