-- ===== src/Payments/Settled.antt =====
-- Amounts and statuses that agree: what a transfer has left is its amount less its active
-- allocations, and each status is the one that the sums give.
use ifg.Base.{ℕ, ◌<◌, ℤ, ◌-ℤ◌, Option, none, some, ◌≡◌, ◌≢◌, ◌⊎◌, inl, inr, refl, sym, ap, ◌∙◌}
use ifg.Base.Dict.{Dict, lookup, insert, lookup-insert_cases, Below, Every}
use ifg.Payments.Rows.{Allocation, Transaction, Invoice, Ledger, manual_review}
use ifg.Payments.Repository.{sum_allocated_for_transaction, sum_allocated_for_invoice}
use ifg.Payments.Allocation.{compute_tx_match_status, payment_status_for, refreshed}

-- A transfer that a status other than the computed one is allowed for
abbrev pub Review : Type 1
Review = ℕ → Transaction → Type 0

-- Any transfer set aside for review
abbrev pub UnderReview : Review
UnderReview k tx = tx.match_status ≡ manual_review

-- A transfer that was under review in these tables, and stands in them exactly as it is
abbrev pub StillUnderReview : Dict Transaction → Review
StillUnderReview transactions k tx = (lookup k transactions ≡ some tx) × UnderReview k tx

-- A transfer whose active allocations add up to `allocated`
abbrev pub IsSettledAt : Review → ℕ → ℤ → Transaction → Type 0
IsSettledAt Q k allocated tx =
    (tx.remaining_amount ≡ tx.amount -ℤ allocated)
    × ((tx.match_status ≡ compute_tx_match_status tx.amount tx.remaining_amount) ⊎ Q k tx)

abbrev pub AllSettled : Review → Dict Allocation → Dict Transaction → Type 0
AllSettled Q allocations transactions =
    (k : ℕ) (tx : Transaction)
    → lookup k transactions ≡ some tx
    → IsSettledAt Q k (sum_allocated_for_transaction k allocations) tx

abbrev AllPaid : Dict Allocation → Dict Invoice → Type 0
AllPaid allocations invoices =
    (k : ℕ) (inv : Invoice)
    → lookup k invoices ≡ some inv
    → inv.payment_status
      ≡ payment_status_for inv.total_gross (sum_allocated_for_invoice k allocations)

pub record IsSettled (Q : Review) (l : Ledger) : Type 0 where
  pub transactions_below : Below l.next_id l.transactions
  pub allocations_below : Below l.next_id l.allocations
  pub allocated_below : Every (λ a. a.transaction_id < l.next_id) l.allocations
  pub settled : AllSettled Q l.allocations l.transactions
  pub paid : AllPaid l.allocations l.invoices

-- Settled, but for one transfer.
pub record IsSettledBut (Q : Review) (id : ℕ) (l : Ledger) : Type 0 where
  pub transactions_below : Below l.next_id l.transactions
  pub allocations_below : Below l.next_id l.allocations
  pub allocated_below : Every (λ a. a.transaction_id < l.next_id) l.allocations
  pub settled :
      (k : ℕ) (tx : Transaction)
      → k ≢ id
      → lookup k l.transactions ≡ some tx
      → IsSettledAt Q k (sum_allocated_for_transaction k l.allocations) tx
  pub paid : AllPaid l.allocations l.invoices

pub IsSettled-IsSettledBut :
    {Q : Review} → (id : ℕ) (l : Ledger) → IsSettled Q l → IsSettledBut Q id l
IsSettled-IsSettledBut id l h = record {
  transactions_below = h.transactions_below;
  allocations_below = h.allocations_below;
  allocated_below = h.allocated_below;
  settled = λ k tx other e. h.settled k tx e;
  paid = h.paid;
}

-- What is under review in a settled ledger stands in it.
pub IsSettled-StillUnderReview :
    (l : Ledger) → IsSettled UnderReview l → IsSettled (StillUnderReview l.transactions) l
IsSettled-StillUnderReview l h = record {
  transactions_below = h.transactions_below;
  allocations_below = h.allocations_below;
  allocated_below = h.allocated_below;
  settled = λ k tx e. elim (h.settled k tx e).1 [
    | inl computed ↦ ((h.settled k tx e).0, inl computed)
    | inr reviewed ↦ ((h.settled k tx e).0, inr (e, reviewed))
  ];
  paid = h.paid;
}

-- Where only one transfer's allocations have changed and its row is settled again, all are.
pub AllSettled-write :
    {Q : Review}
    → (id : ℕ) (new : Transaction) (old_rows rows : Dict Allocation) (ts : Dict Transaction)
    → ((k : ℕ)
        → k ≢ id
        → sum_allocated_for_transaction k rows ≡ sum_allocated_for_transaction k old_rows)
    → ((k : ℕ) (tx : Transaction)
        → k ≢ id
        → lookup k ts ≡ some tx
        → IsSettledAt Q k (sum_allocated_for_transaction k old_rows) tx)
    → IsSettledAt Q id (sum_allocated_for_transaction id rows) new
    → AllSettled Q rows (insert id new ts)
AllSettled-write id new old_rows rows ts same h own k tx e =
    elim (lookup-insert_cases k id new ts e) [
      | inl (here, is_new) ↦ rw (here, is_new) own
      | inr (other, there) ↦ rw (same k other) (h k tx other there)
    ]

module _ (id : ℕ) (old_rows rows : Dict Allocation) (invoices : Dict Invoice)
    (same : (k : ℕ)
      → k ≢ id
      → sum_allocated_for_invoice k rows ≡ sum_allocated_for_invoice k old_rows)
    (h : AllPaid old_rows invoices) where
  -- The invoice was not there, or is refreshed.
  refreshed_from :
      (found : Option Invoice)
      → lookup id invoices ≡ found
      → AllPaid rows (refreshed id rows invoices found)
  refreshed_from none gone k inv e =
      let other : k ≢ id = λ here.
        let wrong : none ≡ some inv = sym gone ∙ ap (λ j. lookup j invoices) (sym here) ∙ e in cc in
      rw (same k other) (h k inv e)
  refreshed_from (some found) at k inv e = elim (lookup-insert_cases k id _ invoices e) [
    | inl (here, is_new) ↦ rw (here, is_new) refl
    | inr (other, there) ↦ rw (same k other) (h k inv there)
  ]

  pub AllPaid-refreshed : AllPaid rows (refreshed id rows invoices (lookup id invoices))
  AllPaid-refreshed = refreshed_from (lookup id invoices) refl
