-- ===== src/Payments/Form.antt =====
-- The payment on the form of a sale invoice: `set_invoice_form_payment` and what it calls.
use ifg.Base.{
  ℕ, ℤ, pos, ◌-ℤ◌, Bool, true, false, Option, none, some, ltb_ℤ, leb_ℤ, eqb_ℤ, if◌then◌else◌,
}
use ifg.Base.Dict.{Dict, lookup}
use ifg.Base.Exec.{
  Exec, ◌>>=◌, ◌>>◌, pure, raise_if, or_raise, gets, modify, value_error, not_found,
}
use ifg.Payments.Rows.{
  Allocation, Transaction, Invoice, Ledger, Direction, sale, purchase, invoice_cash, unmatched,
  cash,
}
use ifg.Payments.Repository.{
  sum_allocated_for_invoice, add_transaction, write_transaction, get_by_external_id, latest_active,
}
use ifg.Payments.Allocation.{do_allocate, reverse_allocation}

abbrev pub is_purchase : Direction → Bool
is_purchase sale = false
is_purchase purchase = true

-- `_find_invoice_form_allocation`
unfoldable pub form_transaction : ℕ → Ledger → Option (ℕ × Transaction)
form_transaction invoice_id l = get_by_external_id (invoice_cash invoice_id) l.transactions

abbrev allocation_under : ℕ → Dict Allocation → Option (ℕ × Transaction) → Option (ℕ × Allocation)
allocation_under invoice_id allocations none = none
allocation_under invoice_id allocations (some (tx_id, tx)) =
    latest_active invoice_id tx_id allocations

unfoldable pub form_allocation : ℕ → Ledger → Option (ℕ × Allocation)
form_allocation invoice_id l =
    allocation_under invoice_id l.allocations (form_transaction invoice_id l)

abbrev amount_of : Option (ℕ × Allocation) → ℤ
amount_of none = pos 0
amount_of (some (id, a)) = a.allocated_amount

-- `get_invoice_form_payment_amount`
unfoldable pub get_invoice_form_payment_amount : ℕ → Ledger → ℤ
get_invoice_form_payment_amount invoice_id l = amount_of (form_allocation invoice_id l)

-- `_create_invoice_form_payment`
unfoldable pub create_invoice_form_payment : ℕ → Invoice → ℤ → ℕ → Option ℕ → Exec Ledger ℕ
create_invoice_form_payment invoice_id inv amount actor payment_date = do
  let tx : Transaction = record {
    external_id = some (invoice_cash invoice_id);
    transaction_date = elim payment_date [ none ↦ inv.issue_date | some day ↦ day ];
    amount = amount;
    currency = inv.currency;
    counterparty_name = inv.buyer_name;
    match_status = unmatched;
    remaining_amount = amount;
    imported_by = actor;
  }
  tx_id ← add_transaction tx
  do_allocate tx_id tx invoice_id amount cash none actor

-- `if form_alloc is not None: self.reverse_allocation(form_alloc.id, actor)`
unfoldable pub reverse_if_any : Option (ℕ × Allocation) → ℕ → Exec Ledger (Unit {0})
reverse_if_any none actor = pure tt
reverse_if_any (some (id, a)) actor = reverse_allocation id actor

-- The end of `set_invoice_form_payment`: a first payment, or the transaction used again.
unfoldable pub pay_by_form :
    ℕ → Invoice → ℤ → ℕ → Option ℕ → Option (ℕ × Transaction) → Exec Ledger ℕ
pay_by_form invoice_id inv amount actor payment_date none =
    create_invoice_form_payment invoice_id inv amount actor payment_date
pay_by_form invoice_id inv amount actor payment_date (some (tx_id, _)) = do
  found ← gets (λ l. lookup tx_id l.transactions)
  tx ← or_raise found not_found
  let renewed = record tx { amount = amount; remaining_amount = amount; match_status = unmatched }
  modify (write_transaction tx_id renewed)
  do_allocate tx_id renewed invoice_id amount cash none actor

-- `form_alloc is not None and form_current == amount`
abbrev pub same_payment : Option (ℕ × Allocation) → ℤ → Bool
same_payment none amount = false
same_payment (some (id, a)) amount = eqb_ℤ a.allocated_amount amount

abbrev pub key_of : {A : Type 0} → Option (ℕ × A) → Option ℕ
key_of none = none
key_of (some (id, a)) = some id

unfoldable pub replace_form_payment :
    ℕ → Invoice → ℤ → ℕ → Option ℕ → Option (ℕ × Allocation) → Exec Ledger (Option ℕ)
replace_form_payment invoice_id inv amount actor payment_date form_alloc = do
  reverse_if_any form_alloc actor
  tx ← gets (form_transaction invoice_id)
  alloc_id ← pay_by_form invoice_id inv amount actor payment_date tx
  pure (some alloc_id)

-- `set_invoice_form_payment`, with the amount already rounded to two places.
unfoldable pub set_invoice_form_payment : ℕ → ℤ → ℕ → Option ℕ → Exec Ledger (Option ℕ)
set_invoice_form_payment invoice_id amount actor payment_date = do
  found ← gets (λ l. lookup invoice_id l.invoices)
  inv ← or_raise found not_found
  raise_if (is_purchase inv.direction) value_error
  form_alloc ← gets (form_allocation invoice_id)
  allocated ← gets (λ l. sum_allocated_for_invoice invoice_id l.allocations)
  raise_if (ltb_ℤ (inv.total_gross -ℤ (allocated -ℤ amount_of form_alloc)) amount) value_error
  if leb_ℤ amount (pos 0)
      then (reverse_if_any form_alloc actor >> pure none)
      else if same_payment form_alloc amount
      then pure (key_of form_alloc)
      else replace_form_payment invoice_id inv amount actor payment_date form_alloc

-- `record_invoice_initial_payment`
unfoldable pub record_invoice_initial_payment : ℕ → ℤ → ℕ → Option ℕ → Exec Ledger (Option ℕ)
record_invoice_initial_payment invoice_id amount actor payment_date =
    if leb_ℤ amount (pos 0)
    then pure none
    else set_invoice_form_payment invoice_id amount actor payment_date
