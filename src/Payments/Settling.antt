-- ===== src/Payments/Settling.antt =====
-- The payment on an invoice's form keeps the ledger settled; and the requests of
-- app/api/routers/payments.py one after the other.
use ifg.Base.{
  ℕ, ◌+◌, ◌<◌, ℤ, pos, leb_ℤ, Option, none, some, List, [], ◌∷◌, ◌++◌, if◌then◌else◌, ◌≡◌, ◌≢◌, inl,
  inr, refl, All-append, arith,
}
use ifg.Base.Dict.{
  Dict, lookup, lookup-insert_self, lookup-insert_cases, lookup-append, lookup-Lacks, lookup-Below,
  Below, Below-Lacks, Below-suc, Below-insert,
}
use ifg.Base.Exec.{Exec, ◌>>=◌, ◌>>◌, pure, modify, or_raise, transaction, not_found, value_error}
use ifg.Base.Keeps.{
  Keeps, Keeps-pure, Keeps-bind, Keeps-guard, Keeps-if, Keeps-gets, Keeps-gets_bind, Keeps-or_raise,
  Keeps-transaction,
}
use ifg.Payments.Rows.{Allocation, Transaction, Invoice, Ledger, cash, unmatched}
use ifg.Payments.Repository.{add_transaction, write_transaction}
use ifg.Payments.Allocation.{do_allocate, allocate_manual, reverse_allocation}
use ifg.Payments.Form.{
  create_invoice_form_payment, reverse_if_any, pay_by_form, replace_form_payment,
  set_invoice_form_payment, is_purchase, same_payment, key_of,
}
use ifg.Payments.Settled.{
  Review, UnderReview, StillUnderReview, IsSettled-StillUnderReview, IsSettled, IsSettledBut,
}
use ifg.Payments.Effect.{do_allocate-IsSettled, Allocated_suc}
use ifg.Payments.Reversal.{reverse_allocation-IsSettled}
use ifg.Payments.Manual.{allocate_manual-IsSettled}

appended_row :
    (k n : ℕ) (tx new : Transaction) (ts : Dict Transaction)
    → Below n ts
    → k ≢ n
    → lookup k (ts ++ (n, new) ∷ []) ≡ some tx
    → lookup k ts ≡ some tx
appended_row k n tx new ts b other e =
    ground (arith, lookup-append n k new ts (lookup-Lacks n ts (Below-Lacks n ts b)))

-- A new transfer is the one that is not settled yet.
added-IsSettledBut :
    {Q : Review}
    → (tx : Transaction) (l : Ledger) → IsSettled Q l
    → IsSettledBut Q l.next_id (add_transaction tx l).1
unfolding add_transaction
added-IsSettledBut tx l h = record {
  transactions_below =
      All-append (λ e. e.0 < l.next_id + 1) l.transactions _
        (Below-suc l.next_id l.transactions h.transactions_below) (omega arith, tt);
  allocations_below = Below-suc l.next_id l.allocations h.allocations_below;
  allocated_below = Allocated_suc l.next_id l.allocations h.allocated_below;
  settled = λ k row other e.
      h.settled k row (appended_row k l.next_id row tx l.transactions h.transactions_below other e);
  paid = h.paid;
}

added_row :
    {Q : Review}
    → (tx : Transaction) (l : Ledger) → IsSettled Q l
    → lookup l.next_id (add_transaction tx l).1.transactions ≡ some tx
unfolding add_transaction
added_row tx l h = ground (
  arith,
  lookup-append l.next_id l.next_id tx l.transactions (
      lookup-Lacks l.next_id l.transactions
        (Below-Lacks l.next_id l.transactions h.transactions_below)),
)

add_and_allocate :
    {Q : Review}
    → (tx : Transaction) (invoice_id : ℕ) (amount : ℤ) (actor : ℕ) (l : Ledger) → IsSettled Q l
    → IsSettled Q
        ((add_transaction tx >>= λ id. do_allocate id tx invoice_id amount cash none actor) l).1
unfolding ◌>>=◌ add_transaction
add_and_allocate tx invoice_id amount actor l h =
    do_allocate-IsSettled l.next_id tx invoice_id amount cash none actor (add_transaction tx l).1
      (added_row tx l h) (added-IsSettledBut tx l h)

create_invoice_form_payment-Keeps :
    {Q : Review}
    → (invoice_id : ℕ) (inv : Invoice) (amount : ℤ) (actor : ℕ) (day : Option ℕ)
    → Keeps (IsSettled Q) (create_invoice_form_payment invoice_id inv amount actor day)
unfolding create_invoice_form_payment
create_invoice_form_payment-Keeps invoice_id inv amount actor day = record {
  at = λ l h. add_and_allocate _ invoice_id amount actor l h;
}

-- The row with the new amount is the one that is not settled yet.
renewed-IsSettledBut :
    {Q : Review}
    → (id : ℕ) (old new : Transaction) (l : Ledger) → lookup id l.transactions ≡ some old
    → IsSettled Q l
    → IsSettledBut Q id (write_transaction id new l)
renewed-IsSettledBut id old new l found h = record {
  transactions_below =
      Below-insert l.next_id id new l.transactions h.transactions_below
        (lookup-Below l.next_id id old l.transactions h.transactions_below found);
  allocations_below = h.allocations_below;
  allocated_below = h.allocated_below;
  settled = λ k row other e. elim (lookup-insert_cases k id new l.transactions e) [
    | inl (here, _) ↦ absurd (other here)
    | inr (_, there) ↦ h.settled k row there
  ];
  paid = h.paid;
}

abbrev renewed : ℤ → Transaction → Transaction
renewed amount tx = record tx {
  amount = amount;
  remaining_amount = amount;
  match_status = unmatched;
}

renew_and_allocate :
    {Q : Review}
    → (tx_id invoice_id : ℕ) (amount : ℤ) (actor : ℕ) (l : Ledger) → IsSettled Q l
    → (found : Option Transaction) → lookup tx_id l.transactions ≡ found
    → IsSettled Q
        ((or_raise found not_found >>= λ tx.
            modify (write_transaction tx_id (renewed amount tx))
            >> do_allocate tx_id (renewed amount tx) invoice_id amount cash none actor)
          l).1
unfolding ◌>>=◌
renew_and_allocate tx_id invoice_id amount actor l h none gone = h
renew_and_allocate tx_id invoice_id amount actor l h (some tx) at =
    do_allocate-IsSettled tx_id (renewed amount tx) invoice_id amount cash none actor
      (write_transaction tx_id (renewed amount tx) l)
      (lookup-insert_self tx_id (renewed amount tx) l.transactions)
      (renewed-IsSettledBut tx_id tx (renewed amount tx) l at h)

pay_by_form-Keeps :
    {Q : Review}
    → (invoice_id : ℕ) (inv : Invoice) (amount : ℤ) (actor : ℕ) (day : Option ℕ)
      (tx : Option (ℕ × Transaction))
    → Keeps (IsSettled Q) (pay_by_form invoice_id inv amount actor day tx)
unfolding pay_by_form
pay_by_form-Keeps invoice_id inv amount actor day none =
    create_invoice_form_payment-Keeps invoice_id inv amount actor day
pay_by_form-Keeps invoice_id inv amount actor day (some (tx_id, _)) =
    Keeps-gets_bind _ _
      λ l h. renew_and_allocate tx_id invoice_id amount actor l h (lookup tx_id l.transactions) refl

reverse_if_any-Keeps :
    {Q : Review}
    → (a : Option (ℕ × Allocation)) (actor : ℕ) → Keeps (IsSettled Q) (reverse_if_any a actor)
unfolding reverse_if_any
reverse_if_any-Keeps none actor = Keeps-pure tt
reverse_if_any-Keeps (some (id, a)) actor = record {
  at = λ l h. reverse_allocation-IsSettled id actor l h;
}

replace_form_payment-Keeps :
    {Q : Review}
    → (invoice_id : ℕ) (inv : Invoice) (amount : ℤ) (actor : ℕ) (day : Option ℕ)
      (form_alloc : Option (ℕ × Allocation))
    → Keeps (IsSettled Q) (replace_form_payment invoice_id inv amount actor day form_alloc)
unfolding replace_form_payment
replace_form_payment-Keeps invoice_id inv amount actor day form_alloc =
    Keeps-bind _ _ (reverse_if_any-Keeps form_alloc actor) λ _. Keeps-bind _ _ (Keeps-gets _) λ tx.
      Keeps-bind _ _ (pay_by_form-Keeps invoice_id inv amount actor day tx) (λ _. Keeps-pure _)

set_invoice_form_payment-Keeps :
    {Q : Review}
    → (invoice_id : ℕ) (amount : ℤ) (actor : ℕ) (day : Option ℕ)
    → Keeps (IsSettled Q) (set_invoice_form_payment invoice_id amount actor day)
unfolding set_invoice_form_payment
set_invoice_form_payment-Keeps invoice_id amount actor day = Keeps-bind _ _ (Keeps-gets _) λ found.
    Keeps-or_raise found not_found _ λ inv _.
      Keeps-guard (is_purchase inv.direction) value_error _ λ _.
        Keeps-bind _ _ (Keeps-gets _) λ form_alloc. Keeps-bind _ _ (Keeps-gets _) λ allocated.
          Keeps-guard _ value_error _ λ _.
            Keeps-if (leb_ℤ amount (pos 0)) (reverse_if_any form_alloc actor >> pure none)
              (if same_payment form_alloc amount
                then pure (key_of form_alloc)
                else replace_form_payment invoice_id inv amount actor day form_alloc)
              (λ _. Keeps-bind _ _ (reverse_if_any-Keeps form_alloc actor) (λ _. Keeps-pure none))
              (λ _.
                Keeps-if (same_payment form_alloc amount) (pure (key_of form_alloc))
                  (replace_form_payment invoice_id inv amount actor day form_alloc)
                  (λ _. Keeps-pure (key_of form_alloc))
                  (λ _. replace_form_payment-Keeps invoice_id inv amount actor day form_alloc))

-- What changes the ledger of payments. The form's payment is set when an invoice is created or
-- edited.
pub data PaymentRequest : Type 0 where
  allocate : ℕ → ℕ → ℤ → ℕ → PaymentRequest
  reverse : ℕ → ℕ → PaymentRequest
  set_form : ℕ → ℤ → ℕ → Option ℕ → PaymentRequest

handle_payment : PaymentRequest → Exec Ledger (Unit {0})
handle_payment (allocate tx_id invoice_id amount actor) =
    transaction (allocate_manual tx_id invoice_id amount actor) >> pure tt
handle_payment (reverse id actor) = transaction (reverse_allocation id actor) >> pure tt
handle_payment (set_form invoice_id amount actor day) =
    transaction (set_invoice_form_payment invoice_id amount actor day) >> pure tt

-- The ledger after a list of requests, whatever each of them answers.
pub serve_payments : List PaymentRequest → Ledger → Ledger
serve_payments [] l = l
serve_payments (r ∷ rs) l = serve_payments rs (handle_payment r l).1

answered :
    {Q : Review}
    → {A : Type 0} (m : Exec Ledger A) → Keeps (IsSettled Q) m
    → Keeps (IsSettled Q) (transaction m >> pure tt)
answered m k = Keeps-bind _ _ (Keeps-transaction m k) (λ _. Keeps-pure tt)

handle_payment-Keeps : {Q : Review} → (r : PaymentRequest) → Keeps (IsSettled Q) (handle_payment r)
unfolding handle_payment
handle_payment-Keeps (allocate tx_id invoice_id amount actor) =
    answered _ record { at = λ l h. allocate_manual-IsSettled tx_id invoice_id amount actor l h }
handle_payment-Keeps (reverse id actor) =
    answered _ record { at = λ l h. reverse_allocation-IsSettled id actor l h }
handle_payment-Keeps (set_form invoice_id amount actor day) =
    answered _ (set_invoice_form_payment-Keeps invoice_id amount actor day)

serve_payments-Keeps :
    {Q : Review}
    → (requests : List PaymentRequest) (l : Ledger) → IsSettled Q l
    → IsSettled Q (serve_payments requests l)
unfolding serve_payments
serve_payments-Keeps [] l h = h
serve_payments-Keeps (r ∷ rs) l h =
    serve_payments-Keeps rs (handle_payment r l).1 ((handle_payment-Keeps r).at l h)

-- In a settled ledger every transfer has left its amount less its active allocations, with the
-- status that this gives unless it is under review, and every invoice has the payment status of the
-- sum allocated to it. Any list of requests, some of them refused, leaves a settled ledger settled,
-- and the only transfers still under review are rows that no request has changed.
pub serve_payments-IsSettled :
    (requests : List PaymentRequest) (l : Ledger)
    → IsSettled UnderReview l
    → IsSettled (StillUnderReview l.transactions) (serve_payments requests l)
serve_payments-IsSettled requests l h =
    serve_payments-Keeps requests l (IsSettled-StillUnderReview l h)
