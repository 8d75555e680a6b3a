-- ===== src/Base/Total.antt =====
-- `SELECT sum(…)` over a table.
use ifg.Base.Int.{ℤ, pos, ◌+ℤ◌, int_laws}
use ifg.Base.Dict.{Dict, lookup, insert}
use Prim.Native.Nat.{ℕ}
use mathlib.Core.Path.{◌≡◌}
use mathlib.Core.Option.{some}
use mathlib.Core.List.{[], ◌∷◌, ◌++◌}

module _ {ℓ} {Row : Type ℓ} where
  abbrev pub total : (Row → ℤ) → Dict Row → ℤ
  total share [] = pos 0
  total share ((key, row) ∷ rows) = share row +ℤ total share rows

  -- Writing a row moves the sum by the difference of the rows.
  pub total-insert :
      (share : Row → ℤ) (key : ℕ) (old new : Row) (rows : Dict Row)
      → lookup key rows ≡ some old
      → total share (insert key new rows) +ℤ share old ≡ total share rows +ℤ share new
  total-insert share key old new [] e = cc
  total-insert share key old new ((j, row) ∷ rows) e =
      grind (int_laws, total-insert share key old new rows)

  pub total-append :
      (share : Row → ℤ) (key : ℕ) (new : Row) (rows : Dict Row)
      → total share (rows ++ (key, new) ∷ []) ≡ total share rows +ℤ share new
  total-append share key new [] = omega int_laws
  total-append share key new ((j, row) ∷ rows) = grind (int_laws, total-append share key new rows)
