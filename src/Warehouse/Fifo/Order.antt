-- ===== src/Warehouse/Fifo/Order.antt =====
-- The layers that `get_available_fifo` hands to the loop: those of the item with something left,
-- once each, the oldest first.
use mathlib.Core.List.{Perm}
use mathlib.Core.List.Perm
use ifg.Base.{
  ℕ, pos, ◌+ℤ◌, ◌≤ℤ◌, ◌<◌, ◌≤◌, ◌⊎◌, some, [], ◌∷◌, ◌≡◌, ◌≢◌, refl, int_laws, arith, All,
  All-select, select, true, false, Bool-cases, inl, inr,
}
use ifg.Base.Dict.{Dict, lookup, Distinct, Distinct-select, Lacks, Within, Within-self}
use ifg.Warehouse.Rows.{Layer}
use ifg.Warehouse.Repository.{get_available_fifo, available, later, insert_sorted, sort_layers}
use ifg.Warehouse.Fifo.{total_remaining}
use ifg.Warehouse.Fifo.Stock.{stock_of, share}
use ifg.Warehouse.Fifo.Loop.{Nonneg, OfItem}

module _ (P : ℕ × Layer → Type 0) where
  All-insert_sorted :
      (x : ℕ × Layer) (xs : Dict Layer) → P x → All P xs → All P (insert_sorted x xs)
  All-insert_sorted x [] p h = (p, tt)
  All-insert_sorted x (y ∷ ys) p h = ground (arith, All-insert_sorted x ys p h.1)

  All-sort_layers : (xs : Dict Layer) → All P xs → All P (sort_layers xs)
  All-sort_layers [] h = tt
  All-sort_layers (x ∷ xs) h = All-insert_sorted x (sort_layers xs) h.0 (All-sort_layers xs h.1)

Distinct-insert_sorted :
    (x : ℕ × Layer) (xs : Dict Layer) → Lacks x.0 xs → Distinct xs → Distinct (insert_sorted x xs)
Distinct-insert_sorted x [] l u = (tt, tt)
Distinct-insert_sorted x (y ∷ ys) l u = elim (Bool-cases (later x y)) [
  | inl after ↦ rw after (
    All-insert_sorted (λ e. e.0 ≢ y.0) x ys (λ e. l.0 (cc)) u.0,
    Distinct-insert_sorted x ys l.1 u.1,
  )
  | inr first ↦ rw first (l, u)
]

Distinct-sort_layers : (xs : Dict Layer) → Distinct xs → Distinct (sort_layers xs)
Distinct-sort_layers [] u = tt
Distinct-sort_layers (x ∷ xs) u =
    Distinct-insert_sorted x (sort_layers xs) (All-sort_layers (λ e. e.0 ≢ x.0) xs u.0)
      (Distinct-sort_layers xs u.1)

total-insert_sorted :
    (x : ℕ × Layer) (xs : Dict Layer)
    → total_remaining (insert_sorted x xs) ≡ x.1.remaining_quantity +ℤ total_remaining xs
total-insert_sorted x [] = refl
total-insert_sorted x (y ∷ ys) = elim (Bool-cases (later x y)) [
  | inl after ↦ rw (after, total-insert_sorted x ys) (omega int_laws)
  | inr first ↦ rw first
]

total-sort_layers : (xs : Dict Layer) → total_remaining (sort_layers xs) ≡ total_remaining xs
total-sort_layers [] = refl
total-sort_layers (x ∷ xs) = rw (total-insert_sorted x (sort_layers xs), total-sort_layers xs)

-- The layers left out hold nothing of the item.
total-select :
    (item : ℕ) (ls : Dict Layer)
    → Nonneg ls
    → total_remaining (select (available item) ls) ≡ stock_of item ls
unfolding share
total-select item [] n = refl
total-select item ((k, l) ∷ ls) n = grind (int_laws, total-select item ls n.1)

-- What is available of an item is its stock.
pub total-get_available_fifo :
    (item : ℕ) (ls : Dict Layer)
    → Nonneg ls
    → total_remaining (get_available_fifo item ls) ≡ stock_of item ls
unfolding get_available_fifo
total-get_available_fifo item ls n = rw total-sort_layers (total-select item ls n)

-- Received on an earlier date, or on the same date and created no later.
abbrev IsOlder : Layer → Layer → Type 0
IsOlder a b =
    (a.received_date < b.received_date)
    ⊎ ((a.received_date ≡ b.received_date) × (a.created_at ≤ b.created_at))

-- Every layer is older than all that come after it.
abbrev pub IsSorted : Dict Layer → Type 0
IsSorted [] = Unit
IsSorted (x ∷ xs) = All (λ y. IsOlder x.1 y.1) xs × IsSorted xs

later-IsOlder : (x y : ℕ × Layer) → later x y ≡ true → IsOlder y.1 x.1
later-IsOlder (i, a) (j, b) h = grind arith

first-IsOlder : (x y : ℕ × Layer) → later x y ≡ false → IsOlder x.1 y.1
first-IsOlder (i, a) (j, b) h = grind arith

age_trans : (a b c : Layer) → IsOlder a b → IsOlder b c → IsOlder a c
age_trans a b c h g = grind arith

All-age_trans :
    (a b : Layer) (zs : Dict Layer)
    → IsOlder a b
    → All (λ z. IsOlder b z.1) zs
    → All (λ z. IsOlder a z.1) zs
All-age_trans a b [] h g = tt
All-age_trans a b (z ∷ zs) h g = (age_trans a b z.1 h g.0, All-age_trans a b zs h g.1)

insert_sorted-IsSorted :
    (x : ℕ × Layer) (xs : Dict Layer) → IsSorted xs → IsSorted (insert_sorted x xs)
insert_sorted-IsSorted x [] h = (tt, tt)
insert_sorted-IsSorted x (y ∷ ys) h = elim (Bool-cases (later x y)) [
  | inl after ↦ rw after (
    All-insert_sorted (λ z. IsOlder y.1 z.1) x ys (later-IsOlder x y after) h.0,
    insert_sorted-IsSorted x ys h.1,
  )
  | inr first ↦ rw first (
      let older : IsOlder x.1 y.1 = first-IsOlder x y first in
      ((older, All-age_trans x.1 y.1 ys older h.0), h))
]

sort_layers-IsSorted : (xs : Dict Layer) → IsSorted (sort_layers xs)
sort_layers-IsSorted [] = tt
sort_layers-IsSorted (x ∷ xs) = insert_sorted-IsSorted x (sort_layers xs) (sort_layers-IsSorted xs)

insert_sorted-perm : (x : ℕ × Layer) (xs : Dict Layer) → Perm (insert_sorted x xs) (x ∷ xs)
insert_sorted-perm x [] = Perm.refl (x ∷ [])
insert_sorted-perm x (y ∷ ys) = elim (Bool-cases (later x y)) [
  | inl after ↦ rw after (Perm.trans (Perm.cons y (insert_sorted-perm x ys)) (Perm.swap x y ys))
  | inr first ↦ rw first (Perm.refl (x ∷ y ∷ ys))
]

sort_layers-perm : (xs : Dict Layer) → Perm (sort_layers xs) xs
sort_layers-perm [] = Perm.refl []
sort_layers-perm (x ∷ xs) =
    Perm.trans (insert_sorted-perm x (sort_layers xs)) (Perm.cons x (sort_layers-perm xs))

-- The layers come oldest first, by the date received and then by creation, and are exactly those of the item that have something left.
pub get_available_fifo_order :
    (item : ℕ) (ls : Dict Layer)
    → IsSorted (get_available_fifo item ls)
      × Perm (get_available_fifo item ls) (select (available item) ls)
unfolding get_available_fifo
get_available_fifo_order item ls = (
  sort_layers-IsSorted (select (available item) ls),
  sort_layers-perm (select (available item) ls),
)

select-OfItem : (item : ℕ) (ls : Dict Layer) → OfItem item (select (available item) ls)
select-OfItem item [] = tt
select-OfItem item ((k, l) ∷ ls) = ground (arith, select-OfItem item ls)

-- What the loop of `_consume_fifo` may rely on.
pub record Ready (item : ℕ) (ls xs : Dict Layer) : Type 0 where
  pub distinct : Distinct xs
  pub within : Within ls xs
  pub nonneg : Nonneg xs
  pub of_item : OfItem item xs

pub get_available_fifo-Ready :
    (item : ℕ) (ls : Dict Layer)
    → Distinct ls
    → Nonneg ls
    → Ready item ls (get_available_fifo item ls)
unfolding get_available_fifo
get_available_fifo-Ready item ls u n =
    let chosen = select (available item) ls in
    record {
      distinct = Distinct-sort_layers chosen (Distinct-select (available item) ls u);
      within =
          All-sort_layers (λ e. lookup e.0 ls ≡ some e.1) chosen
            (All-select (λ e. lookup e.0 ls ≡ some e.1) (available item) ls (Within-self ls u));
      nonneg =
          All-sort_layers (λ e. pos 0 ≤ℤ e.1.remaining_quantity) chosen
            (All-select (λ e. pos 0 ≤ℤ e.1.remaining_quantity) (available item) ls n);
      of_item = All-sort_layers (λ e. e.1.item_id ≡ item) chosen (select-OfItem item ls);
    }
