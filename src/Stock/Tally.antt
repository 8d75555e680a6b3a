-- ===== src/Stock/Tally.antt =====
-- The stock is the tally of its movements, and is never below zero.
use ifg.Base.{
  ℕ, ◌+◌, ◌<◌, ℤ, pos, neg_ℤ, ◌+ℤ◌, ◌≤ℤ◌, ◌<ℤ◌, ltb_ℤ, leb_ℤ, leb_ℤ→lt, ltb_ℤ→le, Bool, true, ◌&&◌,
  Option, none, some, List, [], ◌∷◌, ◌++◌, ◌==◌, if◌then◌else◌, when, ◌≡◌, ◌⊎◌, inl, inr, refl, ap,
  ◌∙◌, All-append, Bool-cases, Option-cases, All-Unit, int_laws, arith,
}
use ifg.Base.Dict.{
  Dict, lookup, insert, lookup-Lacks, lookup-Below, Distinct, Distinct-insert, Distinct-append,
  Below, Below-Lacks, Below-suc, Below-insert, Every, Every-insert, Every-lookup,
}
use ifg.Base.Total.{total, total-insert, total-append}
use ifg.Base.Exec.{ok, err, ◌>>=◌, not_found, stock_error}
use ifg.Base.Keeps.{
  Keeps, Keeps-guard, Keeps-bind, Keeps-gets, Keeps-or_raise, Keeps-pure, Keeps-each,
}
use ifg.Stock.{
  MovementType, purchase, sale, adjustment, transfer, Stock, StockMovement, Store, InvoiceLine,
  is_pair, find_stock, empty_stock, get_or_create_stock, changed_by, apply_movement, save_stock,
  add_movement, move_stock, resolved, create_movement, ignoring_not_found, move_line,
  handle_invoice_created,
}

-- What a movement adds.
abbrev signed : MovementType → ℤ → ℤ
signed sale quantity = neg_ℤ quantity
signed _ quantity = quantity

abbrev tally : ℕ → ℕ → List StockMovement → ℤ
tally product_id warehouse_id [] = pos 0
tally product_id warehouse_id (m ∷ ms) =
    when (m.product_id == product_id && m.warehouse_id == warehouse_id)
      (signed m.movement_type m.quantity)
    +ℤ tally product_id warehouse_id ms

abbrev stock_share : ℕ → ℕ → Stock → ℤ
stock_share product_id warehouse_id s = when (is_pair product_id warehouse_id s) s.quantity

-- `list_stock` of a product in a warehouse, added up.
abbrev stock_total : ℕ → ℕ → Dict Stock → ℤ
stock_total product_id warehouse_id stocks = total (stock_share product_id warehouse_id) stocks

pub record IsTallied (s : Store) : Type 0 where
  pub below : Below s.next_id s.stocks
  pub distinct : Distinct s.stocks
  pub tallied : (p w : ℕ) → stock_total p w s.stocks ≡ tally p w s.movements
  pub nonneg : Every (λ r. pos 0 ≤ℤ r.quantity) s.stocks

tally-append :
    (p w : ℕ) (m : StockMovement) (ms : List StockMovement)
    → tally p w (ms ++ m ∷ [])
      ≡ tally p w ms
        +ℤ when (m.product_id == p && m.warehouse_id == w) (signed m.movement_type m.quantity)
tally-append p w m [] = omega int_laws
tally-append p w m (x ∷ ms) = rw (tally-append p w m ms) (omega int_laws)

-- The row that is found is in the table, under its key, and of the pair.
find_stock-lookup :
    (p w k : ℕ) (r : Stock) (rows : Dict Stock)
    → Distinct rows
    → find_stock p w rows ≡ some (k, r)
    → (lookup k rows ≡ some r) × (r.product_id ≡ p) × (r.warehouse_id ≡ w)
unfolding find_stock
find_stock-lookup p w k r [] u e = cc
find_stock-lookup p w k r ((j, x) ∷ rows) u e = elim (Bool-cases (is_pair p w x)) [
  | inl here ↦
      let same : some (j, x) ≡ some (k, r) = rw here at e in
      let key : j ≡ k = cc in
      let row : x ≡ r = cc in
      let is_p : x.product_id ≡ p = ground arith in
      let is_w : x.warehouse_id ≡ w = ground arith in
      (rw key (ground (arith, row)), rw (← row) is_p, rw (← row) is_w)
  | inr there ↦
      let (at, of_p, of_w) = find_stock-lookup p w k r rows u.1 (rw there at e) in
      elim (Bool-cases (k == j)) [
        | inl same ↦
            let key : k ≡ j = ground arith in
            let gone : lookup k rows ≡ none = rw key (lookup-Lacks j rows u.0) in absurd (cc)
        | inr other ↦ (rw other at, of_p, of_w)
      ]
]

find_stock-append :
    (p w n : ℕ) (r : Stock) (rows : Dict Stock)
    → find_stock p w rows ≡ none
    → is_pair p w r ≡ true
    → find_stock p w (rows ++ (n, r) ∷ []) ≡ some (n, r)
unfolding find_stock
find_stock-append p w n r [] e h = rw h refl
find_stock-append p w n r ((j, x) ∷ rows) e h = elim (Bool-cases (is_pair p w x)) [
  | inl here ↦ let wrong : some (j, x) ≡ none = rw here at e in cc
  | inr there ↦ rw there (find_stock-append p w n r rows (rw there at e) h)
]

-- A movement is refused, or changes the row by its sign and leaves it at zero or more.
apply_cases :
    (type : MovementType) (quantity : ℤ) (r : Stock)
    → pos 0 <ℤ quantity
    → pos 0 ≤ℤ r.quantity
    → (apply_movement type quantity r ≡ err stock_error)
      ⊎ (apply_movement type quantity r ≡ ok (changed_by (signed type quantity) r))
        × (pos 0 ≤ℤ r.quantity +ℤ signed type quantity)
unfolding apply_movement
apply_cases purchase quantity r lo h = inr (refl, omega int_laws)
apply_cases adjustment quantity r lo h = inr (refl, omega int_laws)
apply_cases transfer quantity r lo h = elim (Bool-cases (ltb_ℤ (r.quantity +ℤ quantity) (pos 0))) [
  | inl low ↦ inl (rw low refl)
  | inr fine ↦ inr (rw fine refl, ltb_ℤ→le (r.quantity +ℤ quantity) (pos 0) fine)
]
apply_cases sale quantity r lo h =
    elim (Bool-cases (ltb_ℤ (r.quantity +ℤ neg_ℤ quantity) (pos 0))) [
      | inl low ↦ inl (rw low refl)
      | inr fine ↦ inr (rw fine refl, ltb_ℤ→le (r.quantity +ℤ neg_ℤ quantity) (pos 0) fine)
    ]

-- The table and the log after a movement on the row `r` under `k`.
abbrev after_movement : MovementType → ℕ → ℕ → ℤ → Option ℕ → ℕ → Stock → Store → Store
after_movement type p w quantity invoice_id k r s = record s {
  next_id = s.next_id + 1;
  stocks = insert k (changed_by (signed type quantity) r) s.stocks;
  movements =
      s.movements
      ++ (record {
        id = s.next_id;
        product_id = p;
        warehouse_id = w;
        movement_type = type;
        quantity = quantity;
        invoice_id = invoice_id;
      })
        ∷ [];
}

module _ (type : MovementType) (p w : ℕ) (quantity : ℤ) (invoice_id : Option ℕ) (k : ℕ) (r : Stock)
    (s : Store) (found : find_stock p w s.stocks ≡ some (k, r)) where
  move_refused :
      apply_movement type quantity r ≡ err stock_error
      → (move_stock type p w quantity invoice_id s).1 ≡ s
  unfolding move_stock get_or_create_stock ◌>>=◌
  move_refused e = rw (found, found, e) refl

  move_done :
      r.product_id ≡ p
      → r.warehouse_id ≡ w
      → apply_movement type quantity r ≡ ok (changed_by (signed type quantity) r)
      → (move_stock type p w quantity invoice_id s).1
        ≡ after_movement type p w quantity invoice_id k r s
  unfolding move_stock get_or_create_stock ◌>>=◌ save_stock add_movement
  move_done is_p is_w e =
      let again : find_stock r.product_id r.warehouse_id s.stocks ≡ some (k, r) =
        ap (λ q. find_stock q r.warehouse_id s.stocks) is_p
        ∙ ap (λ q. find_stock p q s.stocks) is_w
        ∙ found in
      rw (found, found, e, again) refl

  after_movement-IsTallied :
      IsTallied s
      → r.product_id ≡ p
      → r.warehouse_id ≡ w
      → pos 0 ≤ℤ r.quantity +ℤ signed type quantity
      → lookup k s.stocks ≡ some r
      → IsTallied (after_movement type p w quantity invoice_id k r s)
  after_movement-IsTallied h is_p is_w lo at = record {
    below = Below-suc s.next_id _ (
        Below-insert s.next_id k _ s.stocks h.below
          (lookup-Below s.next_id k r s.stocks h.below at));
    distinct = Distinct-insert k _ s.stocks h.distinct;
    tallied = λ p' w'.
        let sums =
          total-insert (stock_share p' w') k r (changed_by (signed type quantity) r) s.stocks at in
        rw (tally-append p' w' _ s.movements) (grind (int_laws, h.tallied p' w'));
    nonneg = Every-insert (λ r. pos 0 ≤ℤ r.quantity) k _ s.stocks h.nonneg lo;
  }

-- The first movement of a product in a warehouse is that on a new row of 0.
abbrev created : ℕ → ℕ → Store → Store
created p w s = record s {
  next_id = s.next_id + 1;
  stocks = s.stocks ++ (s.next_id, empty_stock p w) ∷ [];
}

is_pair_self : (p w : ℕ) → is_pair p w (empty_stock p w) ≡ true
is_pair_self p w = ground arith

created_found :
    (p w : ℕ) (s : Store)
    → find_stock p w s.stocks ≡ none
    → find_stock p w (created p w s).stocks ≡ some (s.next_id, empty_stock p w)
created_found p w s gone =
    find_stock-append p w s.next_id (empty_stock p w) s.stocks gone (is_pair_self p w)

move_first :
    (type : MovementType) (p w : ℕ) (quantity : ℤ) (invoice_id : Option ℕ) (s : Store)
    → find_stock p w s.stocks ≡ none
    → move_stock type p w quantity invoice_id s
      ≡ move_stock type p w quantity invoice_id (created p w s)
unfolding move_stock get_or_create_stock ◌>>=◌
move_first type p w quantity invoice_id s gone =
    let there = created_found p w s gone in rw (gone, there, there) refl

created-IsTallied : (p w : ℕ) (s : Store) → IsTallied s → IsTallied (created p w s)
created-IsTallied p w s h = record {
  below =
      All-append (λ e. e.0 < s.next_id + 1) s.stocks _ (Below-suc s.next_id s.stocks h.below)
        (omega arith, tt);
  distinct =
      Distinct-append s.next_id _ s.stocks h.distinct (Below-Lacks s.next_id s.stocks h.below);
  tallied = λ p' w'.
      rw (total-append (stock_share p' w') s.next_id (empty_stock p w) s.stocks, h.tallied p' w')
        (grind int_laws);
  nonneg = All-append (λ e. pos 0 ≤ℤ e.1.quantity) s.stocks _ h.nonneg (omega arith, tt);
}

move_found-IsTallied :
    (type : MovementType) (p w : ℕ) (quantity : ℤ) (invoice_id : Option ℕ) (k : ℕ) (r : Stock)
    (s : Store)
    → pos 0 <ℤ quantity
    → IsTallied s
    → find_stock p w s.stocks ≡ some (k, r)
    → IsTallied (move_stock type p w quantity invoice_id s).1
move_found-IsTallied type p w quantity invoice_id k r s lo h found =
    let (at, is_p, is_w) = find_stock-lookup p w k r s.stocks h.distinct found in
    elim (apply_cases type quantity r lo
      (Every-lookup (λ x. pos 0 ≤ℤ x.quantity) k s.stocks h.nonneg at)) [
        | inl refused ↦ rw (move_refused type p w quantity invoice_id k r s found refused) h
        | inr (done, left) ↦
            rw (move_done type p w quantity invoice_id k r s found is_p is_w done) (
              after_movement-IsTallied type p w quantity invoice_id k r s found h is_p is_w left at)
      ]

move_stock-Keeps :
    (type : MovementType) (p w : ℕ) (quantity : ℤ) (invoice_id : Option ℕ)
    → pos 0 <ℤ quantity
    → Keeps IsTallied (move_stock type p w quantity invoice_id)
move_stock-Keeps type p w quantity invoice_id lo = record {
  at = λ s h. elim (Option-cases (find_stock p w s.stocks)) [
    | inl gone ↦ rw (move_first type p w quantity invoice_id s gone) (
        move_found-IsTallied type p w quantity invoice_id s.next_id (empty_stock p w)
          (created p w s) lo (created-IsTallied p w s h) (created_found p w s gone))
    | inr ((k, r), found) ↦ move_found-IsTallied type p w quantity invoice_id k r s lo h found
  ];
}

create_movement-Keeps :
    (type : MovementType) (p : ℕ) (quantity : ℤ) (warehouse_id invoice_id : Option ℕ)
    → Keeps IsTallied (create_movement type p quantity warehouse_id invoice_id)
unfolding create_movement
create_movement-Keeps type p quantity warehouse_id invoice_id =
    Keeps-guard (leb_ℤ quantity (pos 0)) stock_error _ λ positive.
      Keeps-bind _ _ (Keeps-gets _) λ found. Keeps-or_raise found not_found _ λ product _.
        Keeps-bind _ _ (Keeps-gets _) λ depot_found.
          Keeps-or_raise depot_found not_found _ λ depot _.
            move_stock-Keeps type p (resolved warehouse_id) quantity invoice_id
              (leb_ℤ→lt quantity (pos 0) positive)

move_line-Keeps :
    (type : MovementType) (invoice_id : ℕ) (warehouse_id : Option ℕ) (quantity : ℤ)
    (product : Option ℕ)
    → Keeps IsTallied (move_line type invoice_id warehouse_id quantity product)
unfolding ignoring_not_found
move_line-Keeps type invoice_id warehouse_id quantity none = Keeps-pure tt
move_line-Keeps type invoice_id warehouse_id quantity (some p) = record {
  at = (create_movement-Keeps type p quantity warehouse_id (some invoice_id)).at;
}

-- The movements of an invoice keep the tally: what a product has in a warehouse is the sum of its
-- movements there, purchases, adjustments and transfers counted up and sales down, and no row is
-- below zero; also when a line stops the invoice.
pub handle_invoice_created-IsTallied :
    (invoice_id : ℕ) (is_sale : Bool) (items : List InvoiceLine) (warehouse_id : Option ℕ)
    (s : Store)
    → IsTallied s
    → IsTallied (handle_invoice_created invoice_id is_sale items warehouse_id s).1
unfolding handle_invoice_created
handle_invoice_created-IsTallied invoice_id is_sale items warehouse_id s h =
    (Keeps-each (λ _. Unit {0}) _
        (λ item _.
          move_line-Keeps (if is_sale then sale else purchase) invoice_id warehouse_id item.quantity
            item.product_id)
        items (All-Unit items)).at
      s h
