-- ===== src/Payments/Undo.antt =====
-- Reversing an allocation right after it was made.
use ifg.Base.{ℕ, ◌+◌, ℤ, pos, ◌-ℤ◌, Option, some, ◌≡◌, refl, ap, ◌∙◌, int_laws, arith}
use ifg.Base.Dict.{
  Dict, lookup, insert, lookup-insert_self, lookup-append, lookup-Lacks, Below-Lacks,
}
use ifg.Base.Total.{total, total-insert, total-append}
use ifg.Base.Exec.{ok}
use ifg.Payments.Rows.{payment_allocated, Allocation, Transaction, Ledger, MatchMethod}
use ifg.Payments.Repository.{
  transaction_share, invoice_share, sum_allocated_for_transaction, sum_allocated_for_invoice,
}
use ifg.Payments.Allocation.{do_allocate, reverse_allocation, record_audit, compute_tx_match_status}
use ifg.Payments.Settled.{IsSettled, UnderReview}
use ifg.Payments.Effect.{
  appended, new_allocation, resettled, settled_again, with_rows, do_allocate_result,
}
use ifg.Payments.Reversal.{struck, reverse_allocation_result}

module _ (tx_id : ℕ) (tx : Transaction) (invoice_id : ℕ) (amount : ℤ) (method : MatchMethod)
    (score : Option ℕ) (actor undoer : ℕ) (l : Ledger) where
  abbrev made : Allocation
  made = new_allocation tx_id invoice_id amount method score actor

  abbrev rows : Dict Allocation
  rows =
      insert l.next_id (struck undoer made)
        (appended tx_id tx invoice_id amount method score actor l)

  module _ (h : IsSettled UnderReview l) (found : lookup tx_id l.transactions ≡ some tx) where
    made_there :
        lookup l.next_id (appended tx_id tx invoice_id amount method score actor l) ≡ some made
    made_there = ground (
      arith,
      lookup-append l.next_id l.next_id made l.allocations (
          lookup-Lacks l.next_id l.allocations
            (Below-Lacks l.next_id l.allocations h.allocations_below)),
    )

    -- Any sum that a reversed allocation does not count in is as before.
    same_total :
        (share : Allocation → ℤ)
        → share (struck undoer made) ≡ pos 0
        → total share rows ≡ total share l.allocations
    same_total share nothing =
        let there =
          total-insert share l.next_id made (struck undoer made)
            (appended tx_id tx invoice_id amount method score actor l) made_there in
        let back = total-append share l.next_id made l.allocations in grind int_laws

    left : tx.amount -ℤ total (transaction_share tx_id) rows ≡ tx.remaining_amount
    left =
        rw (same_total (transaction_share tx_id) (grind int_laws), (h.settled tx_id tx found).0)
          refl

    -- The row of the transfer, written twice.
    row_back :
        lookup tx_id (
          settled_again tx_id rows
            (insert tx_id
              (resettled tx (
                total
                  (transaction_share tx_id)
                  (appended tx_id tx invoice_id amount method score actor l)))
              l.transactions)
            (some (
              resettled tx (
                total
                  (transaction_share tx_id)
                  (appended tx_id tx invoice_id amount method score actor l)))))
        ≡ some (record tx { match_status = compute_tx_match_status tx.amount tx.remaining_amount })
    unfolding resettled
    row_back =
        lookup-insert_self tx_id _ _
        ∙ ap
            (λ q. some (record tx {
              match_status = compute_tx_match_status tx.amount q;
              remaining_amount = q;
            }))
            left

-- In a settled ledger, an allocation followed by its reversal succeeds and leaves the allocated sum of
-- every transfer and of every invoice as it was; the transfer has left what it had, with the status
-- that this gives.
pub reverse_allocation-do_allocate :
    (tx_id : ℕ) (tx : Transaction) (invoice_id : ℕ) (amount : ℤ) (method : MatchMethod)
    (score : Option ℕ) (actor undoer : ℕ) (l : Ledger)
    → IsSettled UnderReview l
    → lookup tx_id l.transactions ≡ some tx
    → let (answer, after) =
        reverse_allocation l.next_id undoer
          (do_allocate tx_id tx invoice_id amount method score actor l).1 in
      (answer ≡ ok tt)
      × ((k : ℕ)
          → sum_allocated_for_transaction k after.allocations
            ≡ sum_allocated_for_transaction k l.allocations)
      × ((k : ℕ)
          → sum_allocated_for_invoice k after.allocations
            ≡ sum_allocated_for_invoice k l.allocations)
      × (lookup tx_id after.transactions
          ≡ some
              (record tx { match_status = compute_tx_match_status tx.amount tx.remaining_amount }))
unfolding record_audit
reverse_allocation-do_allocate tx_id tx invoice_id amount method score actor undoer l h found =
    let there = made_there tx_id tx invoice_id amount method score actor undoer l h found in
    let after = record_audit (payment_allocated tx_id invoice_id amount method) (
      with_rows tx_id invoice_id (appended tx_id tx invoice_id amount method score actor l)
        (l.next_id + 1) l) in
    rw
      (
        do_allocate_result tx_id tx invoice_id amount method score actor l found,
        reverse_allocation_result l.next_id undoer
            (new_allocation tx_id invoice_id amount method score actor) after there refl,
      )
      (
        refl,
        λ k.
            same_total tx_id tx invoice_id amount method score actor undoer l h found
              (transaction_share k) (ground arith),
        λ k.
            same_total tx_id tx invoice_id amount method score actor undoer l h found
              (invoice_share k) (ground arith),
        rw
            (
              found,
              lookup-insert_self tx_id
                  (resettled tx (
                    total (transaction_share tx_id)
                      (appended tx_id tx invoice_id amount method score actor l)))
                  l.transactions,
            )
            (row_back tx_id tx invoice_id amount method score actor undoer l h found),
      )
