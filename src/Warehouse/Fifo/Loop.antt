-- ===== src/Warehouse/Fifo/Loop.antt =====
-- What the loop of `_consume_fifo` keeps, and by how much it lowers the stock.
use ifg.Base.{
  ℕ, ℤ, pos, ◌+ℤ◌, ◌-ℤ◌, ◌≤ℤ◌, leb_ℤ, min_ℤ, some, [], ◌∷◌, ◌==◌, ◌≡◌, int_laws, arith, when, All,
  Bool, true, false, Bool-cases, inl, inr, leb_ℤ→le, leb_ℤ→lt,
}
use ifg.Base.Dict.{Dict, lookup, Distinct, Lacks, Within, Within-insert}
use ifg.Warehouse.Rows.{Layer, Warehouse}
use ifg.Warehouse.Fifo.{take_from, consume_loop, total_remaining}
use ifg.Warehouse.Fifo.Stock.{stock_of, share, stock_of-insert}

-- No layer has less than nothing left.
abbrev pub Nonneg : Dict Layer → Type 0
Nonneg = All (λ e. pos 0 ≤ℤ e.1.remaining_quantity)

abbrev pub OfItem : ℕ → Dict Layer → Type 0
OfItem item = All (λ e. e.1.item_id ≡ item)

pub total_nonneg : (ls : Dict Layer) → Nonneg ls → pos 0 ≤ℤ total_remaining ls
total_nonneg [] h = omega arith
total_nonneg ((k, l) ∷ ls) h = omega (int_laws, total_nonneg ls h.1)

min_bounds :
    (a b : ℤ) → pos 0 ≤ℤ a → pos 0 ≤ℤ b → (pos 0 ≤ℤ min_ℤ a b) × (min_ℤ a b ≤ℤ a) × (min_ℤ a b ≤ℤ b)
min_bounds a b h k = ground arith

-- A round writes one row, so the rows that the loop has still to visit are as they were read.
pub Within-take_from :
    (d k : ℕ) (l : Layer) (t : ℤ) (w : Warehouse) (ls : Dict Layer)
    → Lacks k ls
    → Within w.layers ls
    → Within (take_from d k l t w).layers ls
unfolding take_from
Within-take_from d k l t w ls h i =
    Within-insert k (record l { remaining_quantity = l.remaining_quantity -ℤ t }) w.layers ls h i

module _ (P : Warehouse → Type 0) (d : ℕ)
    (step : (k : ℕ) (l : Layer) (t : ℤ) (w : Warehouse)
      → lookup k w.layers ≡ some l
      → pos 0 ≤ℤ t
      → t ≤ℤ l.remaining_quantity
      → P w
      → P (take_from d k l t w)) where
  -- What every round keeps, the loop keeps.
  pub loop_induction :
      (rem : ℤ) (ls : Dict Layer) (w : Warehouse)
      → Distinct ls
      → Within w.layers ls
      → Nonneg ls
      → P w
      → P (consume_loop d rem ls w)
  unfolding consume_loop
  loop_induction rem [] w u i n p = p
  loop_induction rem ((k, l) ∷ ls) w u i n p = elim (Bool-cases (leb_ℤ rem (pos 0))) [
    | inl done ↦ rw done p
    | inr more ↦
        let t = min_ℤ l.remaining_quantity rem in
        let (lo, hi, _) = min_bounds l.remaining_quantity rem n.0 (ground arith) in
        rw more (
          loop_induction (rem -ℤ t) ls (take_from d k l t w) u.1
            (Within-take_from d k l t w ls u.0 i.1) n.1 (step k l t w i.0 lo hi p))
  ]

stock_of-take_from :
    (i item d k : ℕ) (l : Layer) (t : ℤ) (w : Warehouse)
    → lookup k w.layers ≡ some l
    → l.item_id ≡ item
    → stock_of i (take_from d k l t w).layers +ℤ when (item == i) t ≡ stock_of i w.layers
unfolding take_from share
stock_of-take_from i item d k l t w e o =
    let moved =
      stock_of-insert i k l (record l { remaining_quantity = l.remaining_quantity -ℤ t }) w.layers
        e in
    grind (int_laws, moved)

when_nothing : (b : Bool) (s rem : ℤ) → pos 0 ≤ℤ rem → rem ≤ℤ pos 0 → s +ℤ when b rem ≡ s
when_nothing true s rem lo hi = omega int_laws
when_nothing false s rem lo hi = omega int_laws

when_both :
    (b : Bool) (x y z t rem : ℤ)
    → y +ℤ when b t ≡ z
    → x +ℤ when b (rem -ℤ t) ≡ y
    → x +ℤ when b rem ≡ z
when_both true x y z t rem p q = rw (← p, ← q) (omega int_laws)
when_both false x y z t rem p q = rw (← p, ← q) (omega int_laws)

rest_bounds :
    (a rem total : ℤ)
    → pos 0 ≤ℤ a
    → pos 0 ≤ℤ total
    → pos 0 ≤ℤ rem
    → rem ≤ℤ a +ℤ total
    → (pos 0 ≤ℤ rem -ℤ min_ℤ a rem) × (rem -ℤ min_ℤ a rem ≤ℤ total)
rest_bounds a rem total ha ht lo hi = elim (Bool-cases (leb_ℤ a rem)) [
  | inl c ↦ rw c (omega (int_laws, leb_ℤ→le a rem c))
  | inr c ↦ rw c (omega (int_laws, leb_ℤ→lt a rem c))
]

-- The loop lowers the stock of the item by all that was asked for, and of no other item.
pub stock_of-consume_loop :
    (i item d : ℕ) (rem : ℤ) (ls : Dict Layer) (w : Warehouse)
    → Distinct ls
    → Within w.layers ls
    → Nonneg ls
    → OfItem item ls
    → pos 0 ≤ℤ rem
    → rem ≤ℤ total_remaining ls
    → stock_of i (consume_loop d rem ls w).layers +ℤ when (item == i) rem ≡ stock_of i w.layers
unfolding consume_loop
stock_of-consume_loop i item d rem [] w u s n o lo hi =
    when_nothing (item == i) (stock_of i w.layers) rem lo hi
stock_of-consume_loop i item d rem ((k, l) ∷ ls) w u s n o lo hi =
    elim (Bool-cases (leb_ℤ rem (pos 0))) [
      | inl done ↦
          rw done
            (when_nothing (item == i) (stock_of i w.layers) rem lo (leb_ℤ→le rem (pos 0) done))
      | inr more ↦
          let t = min_ℤ l.remaining_quantity rem in
          let (lo', hi') =
            rest_bounds l.remaining_quantity rem (total_remaining ls) n.0 (total_nonneg ls n.1) lo
              hi in
          let w' = take_from d k l t w in
          let found = Within-take_from d k l t w ls u.0 s.1 in
          rw more (
            when_both (item == i) (stock_of i (consume_loop d (rem -ℤ t) ls w').layers)
              (stock_of i w'.layers) (stock_of i w.layers) t rem
              (stock_of-take_from i item d k l t w s.0 o.0)
              (stock_of-consume_loop i item d (rem -ℤ t) ls w' u.1 found n.1 o.1 lo' hi'))
    ]
