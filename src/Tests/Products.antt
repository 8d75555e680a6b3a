-- ===== src/Tests/Products.antt =====
-- A shop with one product, five of it in the default warehouse.
use ifg.Base.{pos, true, none, some, List, [], ◌∷◌, refl, arith}
use ifg.Stock.{purchase, Store, InvoiceLine, handle_invoice_created}
use ifg.Stock.Tally.{IsTallied, handle_invoice_created-IsTallied}

abbrev shop : Store
shop = record {
  next_id = 20;
  products = (7, record { name = "Papier"; isbn = none; unit = "szt" }) ∷ [];
  depots = (1, record { name = "MAG"; is_default = true }) ∷ [];
  stocks = (11, record { product_id = 7; warehouse_id = 1; quantity = pos 50000 }) ∷ [];
  movements =
      record {
        id = 12;
        product_id = 7;
        warehouse_id = 1;
        movement_type = purchase;
        quantity = pos 50000;
        invoice_id = none;
      }
      ∷ [];
}

shop-IsTallied : IsTallied shop
shop-IsTallied = record {
  below = omega arith;
  distinct = (tt, tt);
  tallied = λ p w. refl;
  nonneg = omega arith;
}

-- A sale of 3, of a product that is not kept, and of 4 that are not there.
abbrev lines : List InvoiceLine
lines =
    record { product_id = some 7; quantity = pos 30000 }
    ∷ record { product_id = some 99; quantity = pos 10000 }
    ∷ record { product_id = some 7; quantity = pos 40000 }
    ∷ []

handle_invoice_created-IsTallied_example :
    IsTallied (handle_invoice_created 5 true lines none shop).1
handle_invoice_created-IsTallied_example =
    handle_invoice_created-IsTallied 5 true lines none shop shop-IsTallied
