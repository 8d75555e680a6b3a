-- ===== src/Warehouse/Fifo/Outcome.antt =====
-- What `_consume_fifo` leaves in each layer, in closed form, and when it refuses.
use ifg.Base.{
  ℕ, ℤ, pos, ◌+ℤ◌, ◌-ℤ◌, ◌≤ℤ◌, ◌<ℤ◌, ltb_ℤ, leb_ℤ, min_ℤ, some, [], ◌∷◌, ◌++◌, ◌==◌, if◌then◌else◌,
  ◌≡◌, ◌≢◌, ◌⊎◌, refl, sym, ◌∙◌, int_laws, arith, when, All-middle, Bool-cases, inl, inr, leb_ℤ→le,
  leb_ℤ→lt, ltb_ℤ→le, ltb_ℤ→lt, ap,
}
use ifg.Base.Dict.{Dict, lookup, lookup-insert, lookup-insert_self, Distinct, Lacks, Within}
use ifg.Base.Exec.{ok, err, insufficient_stock}
use ifg.Warehouse.Rows.{Layer, Warehouse}
use ifg.Warehouse.Repository.{get_available_fifo}
use ifg.Warehouse.Fifo.{take_from, consume_loop, consume_fifo, total_remaining}
use ifg.Warehouse.Fifo.Stock.{stock_of}
use ifg.Warehouse.Fifo.Loop.{Nonneg, total_nonneg, Within-take_from, stock_of-consume_loop}
use ifg.Warehouse.Fifo.Order.{get_available_fifo-Ready, total-get_available_fifo}

-- What of `rem` is left after `total` has been taken: max(0, rem - total).
excess : ℤ → ℤ → ℤ
excess rem total = if leb_ℤ rem total then pos 0 else rem -ℤ total

-- What is taken from a layer that the layers `older` stand before.
pub taken : ℤ → Dict Layer → Layer → ℤ
taken rem older l = min_ℤ l.remaining_quantity (excess rem (total_remaining older))

lookup-take_from_ne :
    (d k j : ℕ) (l : Layer) (t : ℤ) (w : Warehouse)
    → j ≢ k
    → lookup j (take_from d k l t w).layers ≡ lookup j w.layers
unfolding take_from
lookup-take_from_ne d k j l t w h = ground (
  arith,
  lookup-insert k j (record l { remaining_quantity = l.remaining_quantity -ℤ t }) w.layers,
)

lookup-take_from_self :
    (d k : ℕ) (l : Layer) (t : ℤ) (w : Warehouse)
    → lookup k (take_from d k l t w).layers
      ≡ some (record l { remaining_quantity = l.remaining_quantity -ℤ t })
unfolding take_from
lookup-take_from_self d k l t w = lookup-insert_self k _ w.layers

-- A layer that the loop is not given stays as it is.
lookup-consume_loop-Lacks :
    (d j : ℕ) (rem : ℤ) (ls : Dict Layer) (w : Warehouse)
    → Lacks j ls
    → lookup j (consume_loop d rem ls w).layers ≡ lookup j w.layers
unfolding consume_loop
lookup-consume_loop-Lacks d j rem [] w h = refl
lookup-consume_loop-Lacks d j rem ((k, l) ∷ ls) w h = elim (Bool-cases (leb_ℤ rem (pos 0))) [
  | inl done ↦ rw done
  | inr more ↦
      let t = min_ℤ l.remaining_quantity rem in
      rw more (
        lookup-consume_loop-Lacks d j (rem -ℤ t) ls (take_from d k l t w) h.1
        ∙ lookup-take_from_ne d k j l t w (λ e. h.0 (sym e)))
]

sub_zero : (a : ℤ) → a -ℤ pos 0 ≡ a
sub_zero a = omega int_laws

sub-eq :
    (l : Layer) (t u : ℤ)
    → t ≡ u
    → some (record l { remaining_quantity = l.remaining_quantity -ℤ t })
      ≡ some (record l { remaining_quantity = l.remaining_quantity -ℤ u })
sub-eq l t u e = cc

unchanged :
    (l : Layer) (t : ℤ)
    → t ≡ pos 0
    → some l ≡ some (record l { remaining_quantity = l.remaining_quantity -ℤ t })
unchanged l t e = rw (e, sub_zero l.remaining_quantity)

-- Nothing is asked for any more.
taken_done :
    (rem : ℤ) (older : Dict Layer) (l : Layer)
    → Nonneg older
    → pos 0 ≤ℤ l.remaining_quantity
    → rem ≤ℤ pos 0
    → taken rem older l ≡ pos 0
unfolding taken excess
taken_done rem older l n k e = grind (int_laws, total_nonneg older n)

taken_first : (rem : ℤ) (l : Layer) → pos 0 <ℤ rem → min_ℤ l.remaining_quantity rem ≡ taken rem [] l
unfolding taken excess
taken_first rem l h = grind int_laws

excess_step :
    (rem m total : ℤ)
    → pos 0 ≤ℤ m
    → pos 0 ≤ℤ total
    → pos 0 <ℤ rem
    → excess (rem -ℤ min_ℤ m rem) total ≡ excess rem (m +ℤ total)
unfolding excess
excess_step rem m total h k lo = grind int_laws

taken_step :
    (rem : ℤ) (j : ℕ) (m : Layer) (older : Dict Layer) (l : Layer)
    → pos 0 ≤ℤ m.remaining_quantity
    → Nonneg older
    → pos 0 <ℤ rem
    → taken (rem -ℤ min_ℤ m.remaining_quantity rem) older l ≡ taken rem ((j, m) ∷ older) l
unfolding taken
taken_step rem j m older l h n lo =
    ap (min_ℤ l.remaining_quantity)
      (excess_step rem m.remaining_quantity (total_remaining older) h (total_nonneg older n) lo)

-- The closed form: a layer loses what the older layers did not cover, as far as it goes.
consume_loop_row :
    (d k : ℕ) (l : Layer) (rem : ℤ) (older younger : Dict Layer) (w : Warehouse)
    → Distinct (older ++ (k, l) ∷ younger)
    → Within w.layers (older ++ (k, l) ∷ younger)
    → Nonneg (older ++ (k, l) ∷ younger)
    → lookup k (consume_loop d rem (older ++ (k, l) ∷ younger) w).layers
      ≡ some (record l { remaining_quantity = l.remaining_quantity -ℤ taken rem older l })
unfolding consume_loop
consume_loop_row d k l rem [] younger w u i n = elim (Bool-cases (leb_ℤ rem (pos 0))) [
  | inl done ↦
      rw done (
        i.0 ∙ unchanged l (taken rem [] l) (taken_done rem [] l tt n.0 (leb_ℤ→le rem (pos 0) done)))
  | inr more ↦
      let t = min_ℤ l.remaining_quantity rem in
      rw more (
        lookup-consume_loop-Lacks d k (rem -ℤ t) younger (take_from d k l t w) u.0
        ∙ lookup-take_from_self d k l t w
        ∙ sub-eq l t (taken rem [] l) (taken_first rem l (leb_ℤ→lt rem (pos 0) more)))
]
consume_loop_row d k l rem ((j, m) ∷ older) younger w u i n =
    elim (Bool-cases (leb_ℤ rem (pos 0))) [
      | inl done ↦ rw done (
          found
          ∙ unchanged l (taken rem ((j, m) ∷ older) l) (
              taken_done rem ((j, m) ∷ older) l (n.0, before.0) before.1
                (leb_ℤ→le rem (pos 0) done)))
      | inr more ↦
          let t = min_ℤ m.remaining_quantity rem in
          rw more (
            consume_loop_row d k l (rem -ℤ t) older younger (take_from d j m t w) u.1
              (Within-take_from d j m t w (older ++ (k, l) ∷ younger) u.0 i.1) n.1
            ∙ sub-eq l (taken (rem -ℤ t) older l) (taken rem ((j, m) ∷ older) l)
                (taken_step rem j m older l n.0 before.0 (leb_ℤ→lt rem (pos 0) more)))
    ]
  where
    before : Nonneg older × (pos 0 ≤ℤ l.remaining_quantity)
    before = All-middle (λ e. pos 0 ≤ℤ e.1.remaining_quantity) older (k, l) younger n.1

    found : lookup k w.layers ≡ some l
    found = (All-middle (λ e. lookup e.0 w.layers ≡ some e.1) older (k, l) younger i.1).1

-- With less in stock than is asked for, the call raises and changes nothing; otherwise it lowers
-- the stock of the item by exactly the quantity, and of no other item.
pub consume_fifo_outcome :
    (item d : ℕ) (qty : ℤ) (w : Warehouse)
    → Distinct w.layers
    → Nonneg w.layers
    → pos 0 ≤ℤ qty
    → (stock_of item w.layers <ℤ qty) × (consume_fifo item d qty w ≡ (err insufficient_stock, w))
      ⊎ (qty ≤ℤ stock_of item w.layers)
        × ((consume_fifo item d qty w).0 ≡ ok tt)
        × ((i : ℕ)
            → stock_of i (consume_fifo item d qty w).1.layers +ℤ when (item == i) qty
              ≡ stock_of i w.layers)
unfolding consume_fifo
consume_fifo_outcome item d qty w u n lo =
    let ls = get_available_fifo item w.layers in
    let all = total-get_available_fifo item w.layers n in
    let r = get_available_fifo-Ready item w.layers u n in
    elim (Bool-cases (ltb_ℤ (total_remaining ls) qty)) [
      | inl short ↦ inl (rw (← all) (ltb_ℤ→lt (total_remaining ls) qty short), rw short)
      | inr enough ↦
          let hi = ltb_ℤ→le (total_remaining ls) qty enough in
          inr (
            rw (← all) hi,
            rw enough,
            rw enough λ i.
                stock_of-consume_loop i item d qty ls w r.distinct r.within r.nonneg r.of_item lo
                  hi,
          )
    ]

-- First in, first out: once the call succeeds, each layer has lost what the layers before it, which
-- are older, did not cover of the quantity, and no more than it had.
pub consume_fifo_layers :
    (item d k : ℕ) (qty : ℤ) (l : Layer) (older younger : Dict Layer) (w : Warehouse)
    → Distinct w.layers
    → Nonneg w.layers
    → get_available_fifo item w.layers ≡ older ++ (k, l) ∷ younger
    → qty ≤ℤ stock_of item w.layers
    → lookup k (consume_fifo item d qty w).1.layers
      ≡ some (record l { remaining_quantity = l.remaining_quantity -ℤ taken qty older l })
unfolding consume_fifo
consume_fifo_layers item d k qty l older younger w u n e hi =
    let r = get_available_fifo-Ready item w.layers u n in
    elim (Bool-cases (ltb_ℤ (total_remaining (get_available_fifo item w.layers)) qty)) [
      | inl short ↦
          let all = total-get_available_fifo item w.layers n in
          let more : stock_of item w.layers <ℤ qty =
            rw (← all) (ltb_ℤ→lt (total_remaining (get_available_fifo item w.layers)) qty short) in
          absurd (omega arith)
      | inr enough ↦ rw enough (
          rw e (
            consume_loop_row d k l qty older younger w (rw e at r.distinct) (rw e at r.within)
              (rw e at r.nonneg)))
    ]
