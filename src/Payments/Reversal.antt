-- ===== src/Payments/Reversal.antt =====
-- `reverse_allocation`: its answers, and the tables after it.
use ifg.Base.{
  ℕ, ◌<◌, true, false, none, some, ◌≡◌, ◌≢◌, inl, inr, refl, Bool-cases, Option-cases, int_laws,
  arith,
}
use ifg.Base.Dict.{Dict, lookup, insert, lookup-Below, Below-insert, Every-insert, Every-lookup}
use ifg.Base.Total.{total-insert}
use ifg.Base.Exec.{ok, err, ◌>>=◌, not_found, value_error}
use ifg.Payments.Rows.{Allocation, Ledger, payment_allocation_reversed}
use ifg.Payments.Repository.{
  transaction_share, invoice_share, sum_allocated_for_transaction, sum_allocated_for_invoice,
  update_match_status, reverse,
}
use ifg.Payments.Allocation.{
  refresh_invoice_payment_status, record_audit, resettle_transaction, reverse_allocation,
}
use ifg.Payments.Settled.{Review, IsSettled, IsSettled-IsSettledBut}
use ifg.Payments.Effect.{
  resettled, settled_again, with_rows, with_rows-IsSettled, audited-IsSettled,
}

abbrev pub struck : ℕ → Allocation → Allocation
struck actor a = record a { is_reversed = true; reversed_by = some actor }

abbrev struck_rows : ℕ → ℕ → Allocation → Ledger → Dict Allocation
struck_rows id actor a l = insert id (struck actor a) l.allocations

resettle_transaction_result :
    (id : ℕ) (l : Ledger)
    → resettle_transaction id (lookup id l.transactions) l ≡ (
      ok tt,
      record l {
        transactions = settled_again id l.allocations l.transactions (lookup id l.transactions);
      },
    )
unfolding resettle_transaction ◌>>=◌ update_match_status resettled
resettle_transaction_result id l = elim (Option-cases (lookup id l.transactions)) [
  | inl gone ↦ rw gone refl
  | inr (tx, found) ↦ rw (found, found) refl
]

pub reverse_allocation_result :
    (id actor : ℕ) (a : Allocation) (l : Ledger)
    → lookup id l.allocations ≡ some a
    → a.is_reversed ≡ false
    → reverse_allocation id actor l ≡ (
      ok tt,
      record_audit
          (payment_allocation_reversed id)
          (with_rows a.transaction_id a.invoice_id (struck_rows id actor a l) l.next_id l),
    )
unfolding reverse_allocation ◌>>=◌ reverse refresh_invoice_payment_status
reverse_allocation_result id actor a l found active =
    rw
      (
        found,
        found,
        active,
        resettle_transaction_result a.transaction_id
            (record l { allocations = struck_rows id actor a l }),
      )
      refl

-- An allocation that is not there, or was reversed before, is refused, and nothing changes.
reverse_allocation_missing :
    (id actor : ℕ) (l : Ledger)
    → lookup id l.allocations ≡ none
    → reverse_allocation id actor l ≡ (err not_found, l)
unfolding reverse_allocation ◌>>=◌
reverse_allocation_missing id actor l gone = rw gone refl

reverse_allocation_again :
    (id actor : ℕ) (a : Allocation) (l : Ledger)
    → lookup id l.allocations ≡ some a
    → a.is_reversed ≡ true
    → reverse_allocation id actor l ≡ (err value_error, l)
unfolding reverse_allocation ◌>>=◌ reverse
reverse_allocation_again id actor a l found before = rw (found, found, before) refl

struck_transaction :
    (k id actor : ℕ) (a : Allocation) (l : Ledger)
    → lookup id l.allocations ≡ some a
    → k ≢ a.transaction_id
    → sum_allocated_for_transaction k (struck_rows id actor a l)
      ≡ sum_allocated_for_transaction k l.allocations
struck_transaction k id actor a l found other =
    grind (int_laws, total-insert (transaction_share k) id a (struck actor a) l.allocations found)

struck_invoice :
    (k id actor : ℕ) (a : Allocation) (l : Ledger)
    → lookup id l.allocations ≡ some a
    → k ≢ a.invoice_id
    → sum_allocated_for_invoice k (struck_rows id actor a l)
      ≡ sum_allocated_for_invoice k l.allocations
struck_invoice k id actor a l found other =
    grind (int_laws, total-insert (invoice_share k) id a (struck actor a) l.allocations found)

pub reverse_allocation-IsSettled :
    {Q : Review}
    → (id actor : ℕ) (l : Ledger) → IsSettled Q l
    → IsSettled Q (reverse_allocation id actor l).1
reverse_allocation-IsSettled id actor l h = elim (Option-cases (lookup id l.allocations)) [
  | inl gone ↦ rw (reverse_allocation_missing id actor l gone) h
  | inr (a, found) ↦ elim (Bool-cases a.is_reversed) [
    | inl before ↦ rw (reverse_allocation_again id actor a l found before) h
    | inr active ↦ rw (reverse_allocation_result id actor a l found active) (
        audited-IsSettled _ _ (
          with_rows-IsSettled a.transaction_id a.invoice_id (struck_rows id actor a l) l.next_id l
            (IsSettled-IsSettledBut a.transaction_id l h) (omega arith)
            (Below-insert l.next_id id _ l.allocations h.allocations_below
              (lookup-Below l.next_id id a l.allocations h.allocations_below found))
            (Every-insert (λ b. b.transaction_id < l.next_id) id (struck actor a) l.allocations
              h.allocated_below
              (Every-lookup (λ b. b.transaction_id < l.next_id) id l.allocations h.allocated_below
                found))
            (λ k other. struck_transaction k id actor a l found other)
            (λ k other. struck_invoice k id actor a l found other)))
  ]
]
