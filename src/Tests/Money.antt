-- ===== src/Tests/Money.antt =====
-- A transfer of 100.00 and an invoice of 80.00.
use ifg.Base.{
  ℕ, pos, ◌+ℤ◌, ◌≤ℤ◌, ◌<ℤ◌, when, none, some, [], ◌∷◌, ◌==◌, ◌≡◌, ◌⊎◌, inl, inr, refl, Bool-cases,
  int_laws, arith,
}
use ifg.Base.Dict.{lookup}
use ifg.Base.Exec.{ok, err, value_error}
use ifg.Payments.Rows.{Transaction, Invoice, Ledger, bank, sale, unpaid, unmatched, manual}
use ifg.Payments.Repository.{sum_allocated_for_transaction, sum_allocated_for_invoice}
use ifg.Payments.Allocation.{
  do_allocate, allocate_manual, reverse_allocation, compute_tx_match_status, payment_status_for,
}
use ifg.Payments.Settled.{IsSettled, IsSettledAt, UnderReview, StillUnderReview}
use ifg.Payments.Manual.{allocate_manual_outcome, spent}
use ifg.Payments.Undo.{reverse_allocation-do_allocate}
use ifg.Payments.Settling.{allocate, reverse, set_form, serve_payments, serve_payments-IsSettled}

abbrev wire : Transaction
wire = record {
  external_id = some (bank "A1");
  transaction_date = 5;
  amount = pos 10000;
  currency = "PLN";
  counterparty_name = some "Firma";
  match_status = unmatched;
  remaining_amount = pos 10000;
  imported_by = 9;
}

abbrev bill : Invoice
bill = record {
  direction = sale;
  total_gross = pos 8000;
  payment_status = unpaid;
  issue_date = 4;
  currency = "PLN";
  buyer_name = some "Firma";
}

abbrev books : Ledger
books = record {
  next_id = 10;
  transactions = (1, wire) ∷ [];
  allocations = [];
  invoices = (2, bill) ∷ [];
  audit = [];
}

wire_row :
    (k : ℕ) (tx : Transaction)
    → lookup k books.transactions ≡ some tx
    → IsSettledAt UnderReview k (pos 0) tx
unfolding compute_tx_match_status
wire_row k tx e = elim (Bool-cases (k == 1)) [
  | inl here ↦ let same : wire ≡ tx = cc in rw (← same) (omega int_laws, inl refl)
  | inr there ↦ cc
]

bill_row :
    (k : ℕ) (inv : Invoice)
    → lookup k books.invoices ≡ some inv
    → inv.payment_status ≡ payment_status_for inv.total_gross (pos 0)
unfolding payment_status_for
bill_row k inv e = elim (Bool-cases (k == 2)) [
  | inl here ↦ let same : bill ≡ inv = cc in rw (← same) refl
  | inr there ↦ cc
]

books-IsSettled : IsSettled UnderReview books
books-IsSettled = record {
  transactions_below = omega arith;
  allocations_below = tt;
  allocated_below = tt;
  settled = wire_row;
  paid = bill_row;
}

serve_payments-IsSettled_example : IsSettled (StillUnderReview books.transactions) (
    serve_payments
      (allocate 1 2 (pos 5000) 9 ∷ set_form 2 (pos 3000) 9 none ∷ reverse 10 9 ∷ [])
      books)
serve_payments-IsSettled_example =
    serve_payments-IsSettled
      (allocate 1 2 (pos 5000) 9 ∷ set_form 2 (pos 3000) 9 none ∷ reverse 10 9 ∷ []) books
      books-IsSettled

allocate_manual_outcome_example :
    let (answer, after) = allocate_manual 1 2 (pos 5000) 9 books in
    ((pos 10000 <ℤ pos 5000) ⊎ (pos 5000 ≤ℤ pos 0)) × (answer ≡ err value_error) × (after ≡ books)
    ⊎ (pos 0 <ℤ pos 5000)
      × (pos 5000 ≤ℤ pos 10000)
      × (answer ≡ ok 10)
      × (lookup 1 after.transactions ≡ some (spent wire (pos 5000)))
      × ((k : ℕ)
          → sum_allocated_for_invoice k after.allocations
            ≡ sum_allocated_for_invoice k books.allocations +ℤ when (2 == k) (pos 5000))
allocate_manual_outcome_example =
    allocate_manual_outcome 1 2 (pos 5000) 9 wire bill books books-IsSettled refl refl

reverse_allocation-do_allocate_example :
    let (answer, after) =
      reverse_allocation 10 8 (do_allocate 1 wire 2 (pos 5000) manual none 9 books).1 in
    (answer ≡ ok tt)
    × ((k : ℕ)
        → sum_allocated_for_transaction k after.allocations
          ≡ sum_allocated_for_transaction k books.allocations)
    × ((k : ℕ)
        → sum_allocated_for_invoice k after.allocations
          ≡ sum_allocated_for_invoice k books.allocations)
    × (lookup 1 after.transactions
        ≡ some (record wire { match_status = compute_tx_match_status (pos 10000) (pos 10000) }))
reverse_allocation-do_allocate_example =
    reverse_allocation-do_allocate 1 wire 2 (pos 5000) manual none 9 8 books books-IsSettled refl
