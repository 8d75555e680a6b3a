-- ===== src/Payments/Allocation.antt =====
-- `_do_allocate`, `allocate_manual`, `reverse_allocation` and the statuses that follow from them.
use ifg.Base.{
  ℕ, ℤ, pos, ◌-ℤ◌, false, Option, none, some, [], ◌∷◌, ◌++◌, ltb_ℤ, leb_ℤ, if◌then◌else◌,
}
use ifg.Base.Dict.{Dict, lookup, insert}
use ifg.Base.Exec.{
  Exec, ◌>>=◌, ◌>>◌, pure, raise_if, or_raise, gets, modify, value_error, not_found,
}
use ifg.Payments.Rows.{
  Allocation, Transaction, Invoice, Ledger, MatchStatus, MatchMethod, PaymentStatus, AuditEntry,
  unpaid, partially_paid, paid, unmatched, matched, partial, manual, payment_allocated,
  payment_allocation_reversed,
}
use ifg.Payments.Repository.{
  sum_allocated_for_transaction, sum_allocated_for_invoice, add_allocation, update_match_status,
  reverse,
}

-- `_compute_tx_match_status`
unfoldable pub compute_tx_match_status : ℤ → ℤ → MatchStatus
compute_tx_match_status amount remaining =
    if leb_ℤ remaining (pos 0)
    then matched
    else if ltb_ℤ remaining amount
    then partial
    else unmatched

-- The status that `_refresh_invoice_payment_status` computes.
unfoldable pub payment_status_for : ℤ → ℤ → PaymentStatus
payment_status_for gross allocated =
    if leb_ℤ gross (pos 0)
    then unpaid
    else if leb_ℤ gross allocated
    then paid
    else if ltb_ℤ (pos 0) allocated
    then partially_paid
    else unpaid

-- The table after `_refresh_invoice_payment_status` of an invoice, if it is there.
abbrev pub refreshed : ℕ → Dict Allocation → Dict Invoice → Option Invoice → Dict Invoice
refreshed id allocations invoices none = invoices
refreshed id allocations invoices (some inv) =
    insert id
      (record inv {
        payment_status =
            payment_status_for inv.total_gross (sum_allocated_for_invoice id allocations);
      })
      invoices

-- `inv_orm = get_orm_by_id(…); if inv_orm: self._refresh_invoice_payment_status(inv_orm)`
unfoldable pub refresh_invoice_payment_status : ℕ → Ledger → Ledger
refresh_invoice_payment_status id l = record l {
  invoices = refreshed id l.allocations l.invoices (lookup id l.invoices);
}

unfoldable pub record_audit : AuditEntry → Ledger → Ledger
record_audit entry l = record l { audit = l.audit ++ entry ∷ [] }

-- `_do_allocate`, given the transaction's key and row.
unfoldable pub do_allocate : ℕ → Transaction → ℕ → ℤ → MatchMethod → Option ℕ → ℕ → Exec Ledger ℕ
do_allocate tx_id tx invoice_id amount method score actor = do
  alloc_id ← add_allocation record {
    transaction_id = tx_id;
    invoice_id = invoice_id;
    allocated_amount = amount;
    match_method = method;
    match_score = score;
    is_reversed = false;
    reversed_by = none;
    created_by = actor;
  }
  allocated ← gets (λ l. sum_allocated_for_transaction tx_id l.allocations)
  let remaining = tx.amount -ℤ allocated
  update_match_status tx_id (compute_tx_match_status tx.amount remaining) remaining
  modify (refresh_invoice_payment_status invoice_id)
  modify (record_audit (payment_allocated tx_id invoice_id amount method))
  pure alloc_id

unfoldable pub allocate_manual : ℕ → ℕ → ℤ → ℕ → Exec Ledger ℕ
allocate_manual transaction_id invoice_id amount actor = do
  found ← gets (λ l. lookup transaction_id l.transactions)
  tx ← or_raise found not_found
  found_invoice ← gets (λ l. lookup invoice_id l.invoices)
  inv ← or_raise found_invoice not_found
  raise_if (ltb_ℤ tx.remaining_amount amount) value_error
  raise_if (leb_ℤ amount (pos 0)) value_error
  do_allocate transaction_id tx invoice_id amount manual none actor

-- `if tx_orm: …` of `reverse_allocation`
unfoldable pub resettle_transaction : ℕ → Option Transaction → Exec Ledger (Unit {0})
resettle_transaction id none = pure tt
resettle_transaction id (some tx) = do
  allocated ← gets (λ l. sum_allocated_for_transaction id l.allocations)
  let remaining = tx.amount -ℤ allocated
  update_match_status id (compute_tx_match_status tx.amount remaining) remaining

unfoldable pub reverse_allocation : ℕ → ℕ → Exec Ledger (Unit {0})
reverse_allocation allocation_id actor = do
  found ← gets (λ l. lookup allocation_id l.allocations)
  alloc ← or_raise found not_found
  reverse allocation_id actor
  tx ← gets (λ l. lookup alloc.transaction_id l.transactions)
  resettle_transaction alloc.transaction_id tx
  modify (refresh_invoice_payment_status alloc.invoice_id)
  modify (record_audit (payment_allocation_reversed allocation_id))
