-- ===== src/Warehouse/Posting/Effect.antt =====
-- By how much posting a document moves the balance of each item.
use ifg.Base.{
  ℕ, ℤ, pos, negsuc, neg_ℤ, magnitude, ltb_ℤ, leb_ℤ, eqb_ℤ, min_ℤ, ◌+ℤ◌, ◌-ℤ◌, ◌≤ℤ◌, int_laws, none,
  some, List, [], ◌∷◌, ◌≡◌, refl, ap, ◌∙◌, true, false, Bool-cases, inl, inr, when, ◌==◌, ltb_ℤ→le,
}
use ifg.Base.Dict.{Dict, lookup, insert}
use ifg.Base.Exec.{Exec, ◌>>=◌, ◌>>◌, modify, each, invalid_warehouse_document}
use ifg.Base.Ensures.{
  Ensures, Ensures-bind, Ensures-guard, Ensures-or_raise, Ensures-pure, Ensures-raise,
  Ensures-modify, Ensures-if, Ensures-map,
}
use ifg.Warehouse.Rows.{Layer, Warehouse, DocItem, Document, Clock, DocType, pz, wz, kk, transfer}
use ifg.Warehouse.Repository.{add_layer, upsert_balance, balance_of, get_available_fifo}
use ifg.Warehouse.Fifo.{take_from, consume_loop, consume_fifo, total_remaining}
use ifg.Warehouse.Invariant.{balance_of-insert}
use ifg.Warehouse.Posting.{
  post_pz_item, post_pz, post_wz_item, post_wz, post_kk_item, post_kk_plus, post_kk_minus, post_kk,
  post_by_type, update_catalog, new_layer, priced,
}

-- What an item of a document adds to the stock: a receipt its quantity, an issue its negative, and
-- a correction its signed quantity.
abbrev pub entry : DocType → DocItem → ℤ
entry pz item = item.quantity
entry wz item = neg_ℤ item.quantity
entry kk item = item.quantity
entry transfer item = pos 0

-- The entries of the items that are for `i`.
abbrev pub net : DocType → List DocItem → ℕ → ℤ
net t [] i = pos 0
net t (item ∷ items) i = when (i == item.item_id) (entry t item) +ℤ net t items i

-- From `w` to `w'` each balance has moved by `f`.
abbrev pub Moved : (ℕ → ℤ) → Warehouse → Warehouse → Type 0
Moved f w w' = (i : ℕ) → balance_of i w'.balances ≡ balance_of i w.balances +ℤ f i

take_from-balances :
    (d k : ℕ) (l : Layer) (t : ℤ) (w : Warehouse) → (take_from d k l t w).balances ≡ w.balances
unfolding take_from
take_from-balances d k l t w = refl

consume_loop-balances :
    (d : ℕ) (rem : ℤ) (ls : Dict Layer) (w : Warehouse)
    → (consume_loop d rem ls w).balances ≡ w.balances
unfolding consume_loop
consume_loop-balances d rem [] w = refl
consume_loop-balances d rem ((k, l) ∷ ls) w = elim (Bool-cases (leb_ℤ rem (pos 0))) [
  | inl done ↦ rw done
  | inr more ↦
      let t = min_ℤ l.remaining_quantity rem in
      rw (more, consume_loop-balances d (rem -ℤ t) ls (take_from d k l t w))
        (take_from-balances d k l t w)
]

consume_fifo-balances :
    (item d : ℕ) (qty : ℤ) (w : Warehouse) → (consume_fifo item d qty w).1.balances ≡ w.balances
unfolding consume_fifo
consume_fifo-balances item d qty w =
    elim (Bool-cases (ltb_ℤ (total_remaining (get_available_fifo item w.layers)) qty)) [
      | inl short ↦ rw short
      | inr enough ↦ rw enough (consume_loop-balances d qty (get_available_fifo item w.layers) w)
    ]

upsert-Moved :
    (k : ℕ) (q : ℤ) (w w' : Warehouse)
    → w'.balances ≡ w.balances
    → Moved (λ i. when (i == k) q) w (upsert_balance k q w')
unfolding upsert_balance
upsert-Moved k q w w' same i =
    rw (balance_of-insert i k (balance_of k w'.balances +ℤ q) w'.balances, same) (grind int_laws)

update_catalog-balances :
    (item : DocItem) (price : ℤ) (w : Warehouse)
    → (update_catalog item price w).balances ≡ w.balances
unfolding update_catalog
update_catalog-balances item price w =
    elim (lookup item.item_id w.catalog)
      as (λ o.
        (elim o as (λ _. Warehouse) [
          | none ↦ w
          | some r ↦ record w { catalog = insert item.item_id (priced item price r) w.catalog }
        ]).balances
        ≡ w.balances) [ none ↦ refl | some r ↦ refl ]

-- An issue, with its entry in the balance.
issue-Moved :
    (item d : ℕ) (qty : ℤ) (w : Warehouse)
    → Ensures
        (λ _ w'. Moved (λ i. when (i == item) (neg_ℤ qty)) w w')
        (consume_fifo item d qty >> modify (upsert_balance item (neg_ℤ qty)))
        w
issue-Moved item d qty w = Ensures-bind (consume_fifo item d qty) _ w λ _ _.
    Ensures-modify _ _ (upsert-Moved item (neg_ℤ qty) w _ (consume_fifo-balances item d qty w))

-- A receipt, with its entry in the balance.
receive-Moved :
    (l : Layer) (q : ℤ) (w : Warehouse)
    → Moved (λ i. when (i == l.item_id) q) w (upsert_balance l.item_id q (add_layer l w))
unfolding add_layer
receive-Moved l q w = upsert-Moved l.item_id q w (add_layer l w) refl

pz_item-Moved :
    (clock : Clock) (item : DocItem) (w : Warehouse)
    → Ensures
        (λ _ w'. Moved (λ i. when (i == item.item_id) (entry pz item)) w w')
        (post_pz_item clock item)
        w
unfolding post_pz_item ◌>>=◌
pz_item-Moved clock item w =
    Ensures-or_raise item.purchase_unit_price invalid_warehouse_document _ w λ price _. record {
      holds = λ _ _ i.
          rw
            (update_catalog-balances item price (
              upsert_balance item.item_id item.quantity
                (add_layer (new_layer clock pz false item price) w)))
            (receive-Moved (new_layer clock pz false item price) item.quantity w i);
    }

wz_item-Moved :
    (item : DocItem) (w : Warehouse)
    → Ensures
        (λ _ w'. Moved (λ i. when (i == item.item_id) (entry wz item)) w w')
        (post_wz_item item)
        w
unfolding post_wz_item
wz_item-Moved item w =
    Ensures-guard (leb_ℤ item.quantity (pos 0)) invalid_warehouse_document _ w
      λ _. issue-Moved item.item_id item.id item.quantity w

kk_plus-Moved :
    (clock : Clock) (item : DocItem) (w : Warehouse)
    → Ensures
        (λ _ w'. Moved (λ i. when (i == item.item_id) (entry kk item)) w w')
        (post_kk_plus clock item)
        w
unfolding post_kk_plus ◌>>=◌
kk_plus-Moved clock item w =
    Ensures-or_raise item.purchase_unit_price invalid_warehouse_document _ w λ price _. record {
      holds = λ _ _. receive-Moved (new_layer clock kk true item price) item.quantity w;
    }

-- The negative of the magnitude of a quantity that is not positive is the quantity.
neg-magnitude : (q : ℤ) → q ≤ℤ pos 0 → neg_ℤ (pos (magnitude q)) ≡ q
neg-magnitude (pos n) h = omega int_laws
neg-magnitude (negsuc n) h = omega int_laws

kk_item-Moved :
    (clock : Clock) (item : DocItem) (w : Warehouse)
    → Ensures
        (λ _ w'. Moved (λ i. when (i == item.item_id) (entry kk item)) w w')
        (post_kk_item clock item)
        w
unfolding post_kk_item post_kk_minus
kk_item-Moved clock item w =
    Ensures-guard (eqb_ℤ item.quantity (pos 0)) invalid_warehouse_document _ w λ _.
      Ensures-if (ltb_ℤ (pos 0) item.quantity) (post_kk_plus clock item) (post_kk_minus item) w
        (λ _. kk_plus-Moved clock item w)
        λ minus.
          Ensures-map (post_kk_minus item) w
            (issue-Moved item.item_id item.id (pos (magnitude item.quantity)) w)
            λ _ moved i.
              moved i
              ∙ ap (λ q. balance_of i w.balances +ℤ when (i == item.item_id) q)
                  (neg-magnitude item.quantity (ltb_ℤ→le (pos 0) item.quantity minus))

-- The items one after the other.
each-Moved :
    (t : DocType) (body : DocItem → Exec Warehouse (Unit {0}))
    → ((item : DocItem) (w : Warehouse)
        → Ensures (λ _ w'. Moved (λ i. when (i == item.item_id) (entry t item)) w w') (body item) w)
    → (items : List DocItem) (w : Warehouse)
    → Ensures (λ _ w'. Moved (net t items) w w') (each body items) w
unfolding each
each-Moved t body step [] w = Ensures-pure tt w (λ i. omega int_laws)
each-Moved t body step (item ∷ items) w =
    Ensures-bind (body item) (λ _. each body items) w
      λ a e.
        Ensures-map (each body items) (body item w).1 (each-Moved t body step items (body item w).1)
          λ _ rest i. rw (rest i, (step item w).holds a e i) (omega int_laws)

-- When posting returns, each balance has moved by the entries of the document's items for it.
pub post_by_type-Moved :
    (clock : Clock) (doc : Document) (t : DocType) (w : Warehouse)
    → Ensures (λ _ w'. Moved (net t doc.doc_items) w w') (post_by_type clock doc t) w
unfolding post_by_type post_pz post_wz post_kk
post_by_type-Moved clock doc pz w =
    each-Moved pz (post_pz_item clock) (pz_item-Moved clock) doc.doc_items w
post_by_type-Moved clock doc wz w =
    Ensures-guard _ invalid_warehouse_document _ w
      λ _. each-Moved wz post_wz_item wz_item-Moved doc.doc_items w
post_by_type-Moved clock doc kk w =
    Ensures-guard _ invalid_warehouse_document _ w
      λ _. each-Moved kk (post_kk_item clock) (kk_item-Moved clock) doc.doc_items w
post_by_type-Moved clock doc transfer w = Ensures-raise invalid_warehouse_document w
