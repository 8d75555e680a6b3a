-- ===== src/Warehouse/Fifo/Stock.antt =====
-- The stock of an item is what its layers have left.
use ifg.Base.{ℕ, ℤ, pos, ◌+ℤ◌, some, [], ◌∷◌, ◌++◌, ◌==◌, ◌≡◌, int_laws, when}
use ifg.Base.Dict.{Dict, lookup, insert}
use ifg.Warehouse.Rows.{Layer}

unfoldable pub share : ℕ → Layer → ℤ
share item l = when (l.item_id == item) l.remaining_quantity

abbrev pub stock_of : ℕ → Dict Layer → ℤ
stock_of item [] = pos 0
stock_of item ((k, l) ∷ ls) = share item l +ℤ stock_of item ls

-- Writing a row moves the stock by the difference of the two rows.
pub stock_of-insert :
    (item k : ℕ) (old new : Layer) (ls : Dict Layer)
    → lookup k ls ≡ some old
    → stock_of item (insert k new ls) +ℤ share item old ≡ stock_of item ls +ℤ share item new
stock_of-insert item k old new [] e = cc
stock_of-insert item k old new ((j, l) ∷ ls) e = grind (int_laws, stock_of-insert item k old new ls)

pub stock_of-append :
    (item k : ℕ) (new : Layer) (ls : Dict Layer)
    → stock_of item (ls ++ (k, new) ∷ []) ≡ stock_of item ls +ℤ share item new
stock_of-append item k new [] = omega int_laws
stock_of-append item k new ((j, l) ∷ ls) = grind (int_laws, stock_of-append item k new ls)
