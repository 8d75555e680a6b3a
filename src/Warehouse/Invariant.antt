-- ===== src/Warehouse/Invariant.antt =====
-- The invariant of the stock tables, and the writes that keep it.
use ifg.Base.{
  ℕ, ◌+◌, ◌≤◌, ◌<◌, ℤ, pos, ◌+ℤ◌, ◌-ℤ◌, ◌≤ℤ◌, ltb_ℤ, neg_ℤ, some, List, [], ◌∷◌, ◌++◌, ◌==◌,
  if◌then◌else◌, ◌≡◌, ◌⊎◌, refl, int_laws, arith, when, All, All-append, Bool-cases, inl, inr,
}
use ifg.Base.Dict.{
  Dict, lookup, insert, lookup-insert, lookup-append, Distinct, Distinct-insert, Distinct-append,
  Below, Below-Lacks, Below-suc, Below-insert, lookup-Below, lookup-Lacks,
}
use ifg.Base.Exec.{ok, err, insufficient_stock}
use ifg.Warehouse.Rows.{Layer, Warehouse, Movement}
use ifg.Warehouse.Repository.{get_available_fifo, add_layer, upsert_balance, balance_of}
use ifg.Warehouse.Fifo.{take_from, consume_fifo, total_remaining}
use ifg.Warehouse.Fifo.Stock.{stock_of, share, stock_of-append}
use ifg.Warehouse.Fifo.Loop.{Nonneg, loop_induction}
use ifg.Warehouse.Fifo.Order.{get_available_fifo-Ready}
use ifg.Warehouse.Fifo.Outcome.{consume_fifo_outcome}

-- What the movements have taken from a layer.
abbrev pub consumed : ℕ → List Movement → ℤ
consumed k [] = pos 0
consumed k (m ∷ ms) = when (m.layer_id == k) m.quantity_consumed +ℤ consumed k ms

abbrev MovesBelow : ℕ → List Movement → Type 0
MovesBelow n = All (λ m. m.layer_id < n)

-- The layers and the movements: keys are given out once, no layer has less than nothing left, and a
-- layer's movements account for what it has lost since it was received.
pub record IsSound (w : Warehouse) : Type 0 where
  pub distinct : Distinct w.layers
  pub below : Below w.next_id w.layers
  pub moves_below : MovesBelow w.next_id w.movements
  pub nonneg : Nonneg w.layers
  pub conserved :
      (k : ℕ) (l : Layer)
      → lookup k w.layers ≡ some l
      → l.remaining_quantity +ℤ consumed k w.movements ≡ l.received_quantity

-- The balance of each item is what its layers have left.
abbrev IsBalanced : Warehouse → Type 0
IsBalanced w = (i : ℕ) → balance_of i w.balances ≡ stock_of i w.layers

pub record IsConsistent (w : Warehouse) : Type 0 where
  pub sound : IsSound w
  pub balanced : IsBalanced w

consumed-append :
    (k : ℕ) (ms : List Movement) (m : Movement)
    → consumed k (ms ++ m ∷ []) ≡ consumed k ms +ℤ when (m.layer_id == k) m.quantity_consumed
consumed-append k [] m = omega int_laws
consumed-append k (x ∷ ms) m = rw (consumed-append k ms m) (omega int_laws)

-- Nothing has been taken from a layer that is not there yet.
consumed_fresh : (n : ℕ) (ms : List Movement) → MovesBelow n ms → consumed n ms ≡ pos 0
consumed_fresh n [] h = refl
consumed_fresh n (m ∷ ms) h = rw (consumed_fresh n ms h.1) (grind int_laws)

MovesBelow-suc : (n : ℕ) (ms : List Movement) → MovesBelow n ms → MovesBelow (n + 1) ms
MovesBelow-suc n [] h = tt
MovesBelow-suc n (m ∷ ms) h = (omega arith, MovesBelow-suc n ms h.1)

Nonneg-insert :
    (k : ℕ) (l : Layer) (ls : Dict Layer)
    → Nonneg ls
    → pos 0 ≤ℤ l.remaining_quantity
    → Nonneg (insert k l ls)
Nonneg-insert k l [] n h = (h, tt)
Nonneg-insert k l ((j, m) ∷ ls) n h = elim (Bool-cases (k == j)) [
  | inl here ↦ rw here (h, n.1)
  | inr there ↦ rw there (n.0, Nonneg-insert k l ls n.1 h)
]

take_from-conserved :
    (d k j : ℕ) (l m : Layer) (t : ℤ) (w : Warehouse)
    → IsSound w
    → lookup k w.layers ≡ some l
    → lookup j (take_from d k l t w).layers ≡ some m
    → m.remaining_quantity +ℤ consumed j (take_from d k l t w).movements ≡ m.received_quantity
unfolding take_from
take_from-conserved d k j l m t w s e f =
    let new = record l { remaining_quantity = l.remaining_quantity -ℤ t } in
    rw consumed-append
      (grind (int_laws, lookup-insert k j new w.layers, s.conserved k l e, s.conserved j m))

-- One round of the FIFO loop.
take_from-IsSound :
    (d k : ℕ) (l : Layer) (t : ℤ) (w : Warehouse)
    → lookup k w.layers ≡ some l
    → pos 0 ≤ℤ t
    → t ≤ℤ l.remaining_quantity
    → IsSound w
    → IsSound (take_from d k l t w)
unfolding take_from
take_from-IsSound d k l t w e lo hi s =
    let new = record l { remaining_quantity = l.remaining_quantity -ℤ t } in
    let given = lookup-Below w.next_id k l w.layers s.below e in
    record {
      distinct = Distinct-insert k new w.layers s.distinct;
      below =
          Below-suc w.next_id (insert k new w.layers)
            (Below-insert w.next_id k new w.layers s.below given);
      moves_below =
          All-append (λ m. m.layer_id < w.next_id + 1) w.movements _
            (MovesBelow-suc w.next_id w.movements s.moves_below) (omega arith, tt);
      nonneg = Nonneg-insert k new w.layers s.nonneg (omega int_laws);
      conserved = λ j m f. take_from-conserved d k j l m t w s e f;
    }

add_layer-conserved :
    (l m : Layer) (k : ℕ) (w : Warehouse)
    → l.remaining_quantity ≡ l.received_quantity
    → IsSound w
    → lookup k (add_layer l w).layers ≡ some m
    → m.remaining_quantity +ℤ consumed k w.movements ≡ m.received_quantity
unfolding add_layer
add_layer-conserved l m k w full s f = grind (
  int_laws,
  consumed_fresh w.next_id w.movements s.moves_below,
  lookup-append w.next_id k l w.layers
      (lookup-Lacks w.next_id w.layers (Below-Lacks w.next_id w.layers s.below)),
  s.conserved k m,
)

-- A new layer of which nothing has been taken.
add_layer-IsSound :
    (l : Layer) (w : Warehouse)
    → l.remaining_quantity ≡ l.received_quantity
    → pos 0 ≤ℤ l.remaining_quantity
    → IsSound w
    → IsSound (add_layer l w)
unfolding add_layer
add_layer-IsSound l w full lo s = record {
  distinct =
      Distinct-append w.next_id l w.layers s.distinct (Below-Lacks w.next_id w.layers s.below);
  below =
      All-append (λ e. e.0 < w.next_id + 1) w.layers ((w.next_id, l) ∷ [])
        (Below-suc w.next_id w.layers s.below) (omega arith, tt);
  moves_below = MovesBelow-suc w.next_id w.movements s.moves_below;
  nonneg =
      All-append (λ e. pos 0 ≤ℤ e.1.remaining_quantity) w.layers ((w.next_id, l) ∷ []) s.nonneg
        (lo, tt);
  conserved = λ k m f. add_layer-conserved l m k w full s f;
}

pub balance_of-insert :
    (i k : ℕ) (v : ℤ) (b : Dict ℤ)
    → balance_of i (insert k v b) ≡ (if i == k then v else balance_of i b)
balance_of-insert i k v b = ground (arith, lookup-insert k i v b)

-- Stock and balance of one item move by the same amount.
pub add_layer-IsConsistent :
    (l : Layer) (w : Warehouse)
    → l.remaining_quantity ≡ l.received_quantity
    → pos 0 ≤ℤ l.remaining_quantity
    → IsConsistent w
    → IsConsistent (upsert_balance l.item_id l.remaining_quantity (add_layer l w))
unfolding upsert_balance add_layer share
add_layer-IsConsistent l w full lo c =
    let s = add_layer-IsSound l w full lo c.sound in
    record {
      sound = record {
        distinct = s.distinct;
        below = s.below;
        moves_below = s.moves_below;
        nonneg = s.nonneg;
        conserved = s.conserved;
      };
      balanced = λ i.
          rw
            (
              stock_of-append i w.next_id l w.layers,
              balance_of-insert i l.item_id
                  (balance_of l.item_id w.balances +ℤ l.remaining_quantity) w.balances,
            )
            (grind (int_laws, c.balanced i));
    }

-- Sound, and with these balances.
record SoundWith (b : Dict ℤ) (w : Warehouse) : Type 0 where
  sound : IsSound w
  same : w.balances ≡ b

take_from-SoundWith :
    (b : Dict ℤ) (d k : ℕ) (l : Layer) (t : ℤ) (w : Warehouse)
    → lookup k w.layers ≡ some l
    → pos 0 ≤ℤ t
    → t ≤ℤ l.remaining_quantity
    → SoundWith b w
    → SoundWith b (take_from d k l t w)
unfolding take_from
take_from-SoundWith b d k l t w e lo hi s = record {
  sound = take_from-IsSound d k l t w e lo hi s.sound;
  same = s.same;
}

consume_fifo-SoundWith :
    (item d : ℕ) (qty : ℤ) (w : Warehouse)
    → IsSound w
    → SoundWith w.balances (consume_fifo item d qty w).1
unfolding consume_fifo
consume_fifo-SoundWith item d qty w s =
    let ls = get_available_fifo item w.layers in
    let r = get_available_fifo-Ready item w.layers s.distinct s.nonneg in
    let start : SoundWith w.balances w = record { sound = s; same = refl } in
    elim (Bool-cases (ltb_ℤ (total_remaining ls) qty)) [
      | inl short ↦ rw short start
      | inr enough ↦ rw enough (
          loop_induction (SoundWith w.balances) d (take_from-SoundWith w.balances d) qty ls w
            r.distinct r.within r.nonneg start)
    ]

-- An issue of stock with its entry in the balance.
lower-IsConsistent :
    (item : ℕ) (qty : ℤ) (w w' : Warehouse)
    → SoundWith w.balances w'
    → IsBalanced w
    → ((i : ℕ) → stock_of i w'.layers +ℤ when (item == i) qty ≡ stock_of i w.layers)
    → IsConsistent (upsert_balance item (neg_ℤ qty) w')
unfolding upsert_balance
lower-IsConsistent item qty w w' s b moved =
    let old = balance_of item w'.balances in
    record {
      sound = record {
        distinct = s.sound.distinct;
        below = s.sound.below;
        moves_below = s.sound.moves_below;
        nonneg = s.sound.nonneg;
        conserved = s.sound.conserved;
      };
      balanced = λ i.
          rw (balance_of-insert i item (old +ℤ neg_ℤ qty) w'.balances, s.same)
            (grind (int_laws, b i, moved i));
    }

-- What `_consume_fifo` and the entry in the balance do together to a consistent warehouse.
pub consume_fifo-IsConsistent :
    (item d : ℕ) (qty : ℤ) (w : Warehouse)
    → pos 0 ≤ℤ qty
    → IsConsistent w
    → (consume_fifo item d qty w ≡ (err insufficient_stock, w))
      ⊎ ((consume_fifo item d qty w).0 ≡ ok tt)
        × IsConsistent (upsert_balance item (neg_ℤ qty) (consume_fifo item d qty w).1)
consume_fifo-IsConsistent item d qty w lo c =
    elim (consume_fifo_outcome item d qty w c.sound.distinct c.sound.nonneg lo) [
      | inl (short, same) ↦ inl same
      | inr (enough, done, moved) ↦ inr (
        done,
        lower-IsConsistent item qty w (consume_fifo item d qty w).1
            (consume_fifo-SoundWith item d qty w c.sound) c.balanced moved,
      )
    ]

pub MovesBelow-le : (n m : ℕ) (ms : List Movement) → n ≤ m → MovesBelow n ms → MovesBelow m ms
MovesBelow-le n m [] le h = tt
MovesBelow-le n m (x ∷ ms) le h = (omega arith, MovesBelow-le n m ms le h.1)
