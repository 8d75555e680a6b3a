-- ===== src/Payments/Repository.antt =====
-- app/persistence/repositories/payment_allocation_repository.py and
-- bank_transaction_repository.py.
use ifg.Base.{
  ℕ, ◌+◌, ℤ, Bool, true, false, not, ◌&&◌, Option, none, some, [], ◌∷◌, ◌++◌, ◌==◌, if◌then◌else◌,
  when,
}
use ifg.Base.Dict.{Dict, lookup, insert}
use ifg.Base.Total.{total}
use ifg.Base.Exec.{Exec, ok, ◌>>=◌, ◌>>◌, raise_if, or_raise, gets, modify, value_error}
use ifg.Payments.Rows.{Allocation, Transaction, Ledger, MatchStatus, ExternalId, bank, invoice_cash}
use text.Mathlib.Text.{◌==◌ as str_eq}

-- What an allocation counts for a transaction, and for an invoice: nothing once reversed.
abbrev pub transaction_share : ℕ → Allocation → ℤ
transaction_share id a = when (a.transaction_id == id && not a.is_reversed) a.allocated_amount

abbrev pub invoice_share : ℕ → Allocation → ℤ
invoice_share id a = when (a.invoice_id == id && not a.is_reversed) a.allocated_amount

abbrev pub sum_allocated_for_transaction : ℕ → Dict Allocation → ℤ
sum_allocated_for_transaction id allocations = total (transaction_share id) allocations

abbrev pub sum_allocated_for_invoice : ℕ → Dict Allocation → ℤ
sum_allocated_for_invoice id allocations = total (invoice_share id) allocations

-- `PaymentAllocationRepository.add`
unfoldable pub add_allocation : Allocation → Exec Ledger ℕ
add_allocation a l = (
  ok l.next_id,
  record l { next_id = l.next_id + 1; allocations = l.allocations ++ (l.next_id, a) ∷ [] },
)

-- `BankTransactionRepository.add`
unfoldable pub add_transaction : Transaction → Exec Ledger ℕ
add_transaction t l = (
  ok l.next_id,
  record l { next_id = l.next_id + 1; transactions = l.transactions ++ (l.next_id, t) ∷ [] },
)

abbrev pub write_transaction : ℕ → Transaction → Ledger → Ledger
write_transaction id t l = record l { transactions = insert id t l.transactions }

-- `update_match_status`
unfoldable pub update_match_status : ℕ → MatchStatus → ℤ → Exec Ledger (Unit {0})
update_match_status id status remaining = do
  found ← gets (λ l. lookup id l.transactions)
  t ← or_raise found value_error
  modify (write_transaction id (record t { match_status = status; remaining_amount = remaining }))

abbrev write_allocation : ℕ → Allocation → Ledger → Ledger
write_allocation id a l = record l { allocations = insert id a l.allocations }

-- `reverse`
unfoldable pub reverse : ℕ → ℕ → Exec Ledger (Unit {0})
reverse id by = do
  found ← gets (λ l. lookup id l.allocations)
  a ← or_raise found value_error
  raise_if a.is_reversed value_error
  modify (write_allocation id (record a { is_reversed = true; reversed_by = some by }))

abbrev same_external : ExternalId → ExternalId → Bool
same_external (bank a) (bank b) = str_eq a b
same_external (invoice_cash a) (invoice_cash b) = a == b
same_external _ _ = false

abbrev has_external : ExternalId → Option ExternalId → Bool
has_external wanted none = false
has_external wanted (some e) = same_external wanted e

-- `get_by_external_id`: the column is unique, so the first row is the only one.
unfoldable pub get_by_external_id : ExternalId → Dict Transaction → Option (ℕ × Transaction)
get_by_external_id wanted [] = none
get_by_external_id wanted ((id, t) ∷ rows) =
    if has_external wanted t.external_id then some (id, t) else get_by_external_id wanted rows

-- The active allocation of the transaction among `list_for_invoice`, latest first.
unfoldable pub latest_active : ℕ → ℕ → Dict Allocation → Option (ℕ × Allocation)
latest_active invoice_id transaction_id [] = none
latest_active invoice_id transaction_id ((id, a) ∷ rows) =
    elim (latest_active invoice_id transaction_id rows) [
      | some later ↦ some later
      | none ↦
          if a.invoice_id == invoice_id && not a.is_reversed && a.transaction_id == transaction_id
          then some (id, a)
          else none
    ]
