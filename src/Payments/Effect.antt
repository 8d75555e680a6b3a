-- ===== src/Payments/Effect.antt =====
-- The tables after an allocation and after a reversal, in closed form, and that they are settled.
use ifg.Base.{
  ℕ, ◌+◌, ◌≤◌, ◌<◌, ℤ, ◌-ℤ◌, false, Option, none, some, [], ◌∷◌, ◌++◌, ◌≡◌, ◌≢◌, inl, refl, sym, ap,
  ◌∙◌, All-append, int_laws, arith,
}
use ifg.Base.Dict.{
  Dict, lookup, insert, lookup-Below, Below, Below-le, Below-insert, Below-suc, Every,
}
use ifg.Base.Total.{total-append}
use ifg.Base.Exec.{ok, ◌>>=◌}
use ifg.Payments.Rows.{Allocation, Transaction, Ledger, MatchMethod, AuditEntry, payment_allocated}
use ifg.Payments.Repository.{
  transaction_share, invoice_share, sum_allocated_for_transaction, sum_allocated_for_invoice,
  add_allocation, update_match_status,
}
use ifg.Payments.Allocation.{
  compute_tx_match_status, refreshed, refresh_invoice_payment_status, record_audit, do_allocate,
}
use ifg.Payments.Settled.{
  Review, IsSettled, IsSettledBut, IsSettledAt, AllSettled, AllSettled-write, AllPaid-refreshed,
}

-- The row of a transfer once its allocations add up to `allocated`.
unfoldable pub resettled : Transaction → ℤ → Transaction
resettled tx allocated = record tx {
  match_status = compute_tx_match_status tx.amount (tx.amount -ℤ allocated);
  remaining_amount = tx.amount -ℤ allocated;
}

resettled-IsSettledAt :
    (Q : Review) (k : ℕ) (tx : Transaction) (allocated : ℤ)
    → IsSettledAt Q k allocated (resettled tx allocated)
unfolding resettled
resettled-IsSettledAt Q k tx allocated = (refl, inl refl)

abbrev pub new_allocation : ℕ → ℕ → ℤ → MatchMethod → Option ℕ → ℕ → Allocation
new_allocation tx_id invoice_id amount method score actor = record {
  transaction_id = tx_id;
  invoice_id = invoice_id;
  allocated_amount = amount;
  match_method = method;
  match_score = score;
  is_reversed = false;
  reversed_by = none;
  created_by = actor;
}

-- The transfers once the allocations are `rows`, for one transfer, if it is there.
abbrev pub settled_again :
    ℕ → Dict Allocation → Dict Transaction → Option Transaction → Dict Transaction
settled_again id rows transactions none = transactions
settled_again id rows transactions (some tx) =
    insert id (resettled tx (sum_allocated_for_transaction id rows)) transactions

-- The ledger in which the allocations are `rows`, and the transfer and the invoice follow them.
abbrev pub with_rows : ℕ → ℕ → Dict Allocation → ℕ → Ledger → Ledger
with_rows tx_id invoice_id rows next l = record l {
  next_id = next;
  allocations = rows;
  transactions = settled_again tx_id rows l.transactions (lookup tx_id l.transactions);
  invoices = refreshed invoice_id rows l.invoices (lookup invoice_id l.invoices);
}

module _ (tx_id : ℕ) (tx : Transaction) (invoice_id : ℕ) (amount : ℤ) (method : MatchMethod)
    (score : Option ℕ) (actor : ℕ) (l : Ledger) where
  abbrev pub appended : Dict Allocation
  appended =
      l.allocations ++ (l.next_id, new_allocation tx_id invoice_id amount method score actor) ∷ []

  pub do_allocate_result :
      lookup tx_id l.transactions ≡ some tx
      → do_allocate tx_id tx invoice_id amount method score actor l ≡ (
        ok l.next_id,
        record_audit
            (payment_allocated tx_id invoice_id amount method)
            (with_rows tx_id invoice_id appended (l.next_id + 1) l),
      )
  unfolding do_allocate ◌>>=◌ add_allocation update_match_status refresh_invoice_payment_status
      resettled
  do_allocate_result found = rw found refl

module _ {Q : Review} (id : ℕ) (rows : Dict Allocation) (l : Ledger)
    (same : (k : ℕ)
      → k ≢ id
      → sum_allocated_for_transaction k rows ≡ sum_allocated_for_transaction k l.allocations)
    (h : IsSettledBut Q id l) where
  settled_again-AllSettled :
      (found : Option Transaction)
      → lookup id l.transactions ≡ found
      → AllSettled Q rows (settled_again id rows l.transactions found)
  settled_again-AllSettled none gone k tx e =
      let other : k ≢ id = λ here.
        let wrong : none ≡ some tx = sym gone ∙ ap (λ j. lookup j l.transactions) (sym here) ∙ e in
        cc in
      rw (same k other) (h.settled k tx other e)
  settled_again-AllSettled (some tx) at k row e =
      AllSettled-write id _ l.allocations rows l.transactions same h.settled
        (resettled-IsSettledAt Q id tx _) k row e

  settled_again-Below :
      (next : ℕ)
      → l.next_id ≤ next
      → (found : Option Transaction) → lookup id l.transactions ≡ found
      → Below next (settled_again id rows l.transactions found)
  settled_again-Below next le none gone =
      Below-le l.next_id next l.transactions le h.transactions_below
  settled_again-Below next le (some tx) at =
      Below-insert next id _ l.transactions
        (Below-le l.next_id next l.transactions le h.transactions_below)
        (omega (arith, lookup-Below l.next_id id tx l.transactions h.transactions_below at))

-- Where only one transfer's and one invoice's allocations have changed.
pub with_rows-IsSettled :
    {Q : Review}
    → (tx_id : ℕ) (invoice_id : ℕ) (rows : Dict Allocation) (next : ℕ) (l : Ledger)
    → IsSettledBut Q tx_id l
    → l.next_id ≤ next
    → Below next rows
    → Every (λ a. a.transaction_id < next) rows
    → ((k : ℕ)
        → k ≢ tx_id
        → sum_allocated_for_transaction k rows ≡ sum_allocated_for_transaction k l.allocations)
    → ((k : ℕ)
        → k ≢ invoice_id
        → sum_allocated_for_invoice k rows ≡ sum_allocated_for_invoice k l.allocations)
    → IsSettled Q (with_rows tx_id invoice_id rows next l)
with_rows-IsSettled tx_id invoice_id rows next l h le below allocated same_tx same_invoice =
    record {
      transactions_below =
          settled_again-Below tx_id rows l same_tx h next le (lookup tx_id l.transactions) refl;
      allocations_below = below;
      allocated_below = allocated;
      settled = settled_again-AllSettled tx_id rows l same_tx h (lookup tx_id l.transactions) refl;
      paid = AllPaid-refreshed invoice_id l.allocations rows l.invoices same_invoice h.paid;
    }

other_transaction :
    (k n : ℕ) (a : Allocation) (rows : Dict Allocation)
    → k ≢ a.transaction_id
    → sum_allocated_for_transaction k (rows ++ (n, a) ∷ []) ≡ sum_allocated_for_transaction k rows
other_transaction k n a rows h = rw (total-append (transaction_share k) n a rows) (grind int_laws)

other_invoice :
    (k n : ℕ) (a : Allocation) (rows : Dict Allocation)
    → k ≢ a.invoice_id
    → sum_allocated_for_invoice k (rows ++ (n, a) ∷ []) ≡ sum_allocated_for_invoice k rows
other_invoice k n a rows h = rw (total-append (invoice_share k) n a rows) (grind int_laws)

pub Allocated_suc :
    (n : ℕ) (rows : Dict Allocation)
    → Every (λ a. a.transaction_id < n) rows
    → Every (λ a. a.transaction_id < n + 1) rows
Allocated_suc n [] h = tt
Allocated_suc n ((k, a) ∷ rows) h = (omega arith, Allocated_suc n rows h.1)

-- An audit entry settles nothing and unsettles nothing.
pub audited-IsSettled :
    {Q : Review}
    → (entry : AuditEntry) (l : Ledger) → IsSettled Q l
    → IsSettled Q (record_audit entry l)
unfolding record_audit
audited-IsSettled entry l h = record {
  transactions_below = h.transactions_below;
  allocations_below = h.allocations_below;
  allocated_below = h.allocated_below;
  settled = h.settled;
  paid = h.paid;
}

pub do_allocate-IsSettled :
    {Q : Review}
    → (tx_id : ℕ) (tx : Transaction) (invoice_id : ℕ) (amount : ℤ) (method : MatchMethod)
      (score : Option ℕ) (actor : ℕ) (l : Ledger)
    → lookup tx_id l.transactions ≡ some tx
    → IsSettledBut Q tx_id l
    → IsSettled Q (do_allocate tx_id tx invoice_id amount method score actor l).1
do_allocate-IsSettled tx_id tx invoice_id amount method score actor l found h =
    let fresh = new_allocation tx_id invoice_id amount method score actor in
    let bound = lookup-Below l.next_id tx_id tx l.transactions h.transactions_below found in
    rw (do_allocate_result tx_id tx invoice_id amount method score actor l found) (
      audited-IsSettled _ _ (
        with_rows-IsSettled tx_id invoice_id _ (l.next_id + 1) l h (omega arith)
          (All-append (λ e. e.0 < l.next_id + 1) l.allocations _
            (Below-suc l.next_id l.allocations h.allocations_below) (omega arith, tt))
          (All-append (λ e. e.1.transaction_id < l.next_id + 1) l.allocations _
            (Allocated_suc l.next_id l.allocations h.allocated_below) (omega arith, tt))
          (λ k other. other_transaction k l.next_id fresh l.allocations other)
          (λ k other. other_invoice k l.next_id fresh l.allocations other)))
