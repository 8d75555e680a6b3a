-- ===== src/Payments/Manual.antt =====
-- `allocate_manual`: its answers, and that reversing an allocation undoes it.
use ifg.Base.{
  ℕ, ◌+◌, ℤ, pos, ◌+ℤ◌, ◌-ℤ◌, ◌≤ℤ◌, ◌<ℤ◌, ltb_ℤ, leb_ℤ, true, false, none, some, ◌==◌, when, ◌≡◌,
  ◌⊎◌, inl, inr, refl, ap, ◌∙◌, Bool-cases, Option-cases, int_laws, ltb_ℤ→lt, leb_ℤ→le, leb_ℤ→lt,
  ltb_ℤ→le,
}
use ifg.Base.Dict.{lookup, lookup-insert_self}
use ifg.Base.Total.{total-append}
use ifg.Base.Exec.{ok, err, ◌>>=◌, not_found, value_error}
use ifg.Payments.Rows.{Transaction, Invoice, Ledger, manual}
use ifg.Payments.Repository.{
  transaction_share, invoice_share, sum_allocated_for_transaction, sum_allocated_for_invoice,
}
use ifg.Payments.Allocation.{do_allocate, allocate_manual, record_audit, compute_tx_match_status}
use ifg.Payments.Settled.{Review, UnderReview, IsSettled, IsSettled-IsSettledBut}
use ifg.Payments.Effect.{
  appended, new_allocation, resettled, with_rows, do_allocate-IsSettled, do_allocate_result,
}

-- A transfer or an invoice that is not there.
allocate_manual_missing :
    (tx_id invoice_id : ℕ) (amount : ℤ) (actor : ℕ) (l : Ledger)
    → (lookup tx_id l.transactions ≡ none) ⊎ (lookup invoice_id l.invoices ≡ none)
    → allocate_manual tx_id invoice_id amount actor l ≡ (err not_found, l)
unfolding allocate_manual ◌>>=◌
allocate_manual_missing tx_id invoice_id amount actor l (inl gone) = rw gone refl
allocate_manual_missing tx_id invoice_id amount actor l (inr gone) =
    elim (Option-cases (lookup tx_id l.transactions)) [
      | inl missing ↦ rw missing refl
      | inr (tx, found) ↦ rw (found, gone) refl
    ]

module _ (tx_id invoice_id : ℕ) (amount : ℤ) (actor : ℕ) (tx : Transaction) (inv : Invoice)
    (l : Ledger) (found : lookup tx_id l.transactions ≡ some tx)
    (invoiced : lookup invoice_id l.invoices ≡ some inv) where
  above :
      ltb_ℤ tx.remaining_amount amount ≡ true
      → allocate_manual tx_id invoice_id amount actor l ≡ (err value_error, l)
  unfolding allocate_manual ◌>>=◌
  above e = rw (found, invoiced, e) refl

  nothing :
      ltb_ℤ tx.remaining_amount amount ≡ false
      → leb_ℤ amount (pos 0) ≡ true
      → allocate_manual tx_id invoice_id amount actor l ≡ (err value_error, l)
  unfolding allocate_manual ◌>>=◌
  nothing e f = rw (found, invoiced, e, f) refl

  allocate_manual_allocates :
      ltb_ℤ tx.remaining_amount amount ≡ false
      → leb_ℤ amount (pos 0) ≡ false
      → allocate_manual tx_id invoice_id amount actor l
        ≡ do_allocate tx_id tx invoice_id amount manual none actor l
  unfolding allocate_manual ◌>>=◌
  allocate_manual_allocates e f = rw (found, invoiced, e, f) refl

-- An allocation by hand keeps the ledger settled, whichever way it ends.
pub allocate_manual-IsSettled :
    {Q : Review}
    → (tx_id invoice_id : ℕ) (amount : ℤ) (actor : ℕ) (l : Ledger) → IsSettled Q l
    → IsSettled Q (allocate_manual tx_id invoice_id amount actor l).1
allocate_manual-IsSettled tx_id invoice_id amount actor l h =
    elim (Option-cases (lookup tx_id l.transactions)) [
      | inl gone ↦ rw (allocate_manual_missing tx_id invoice_id amount actor l (inl gone)) h
      | inr (tx, found) ↦ elim (Option-cases (lookup invoice_id l.invoices)) [
        | inl gone ↦ rw (allocate_manual_missing tx_id invoice_id amount actor l (inr gone)) h
        | inr (inv, invoiced) ↦ elim (Bool-cases (ltb_ℤ tx.remaining_amount amount)) [
          | inl over ↦ rw (above tx_id invoice_id amount actor tx inv l found invoiced over) h
          | inr within ↦ elim (Bool-cases (leb_ℤ amount (pos 0))) [
            | inl zero_or_less ↦
                rw
                  (nothing tx_id invoice_id amount actor tx inv l found invoiced within
                    zero_or_less)
                  h
            | inr positive ↦
                rw
                  (allocate_manual_allocates tx_id invoice_id amount actor tx inv l found invoiced
                    within positive)
                  (do_allocate-IsSettled tx_id tx invoice_id amount manual none actor l found
                    (IsSettled-IsSettledBut tx_id l h))
          ]
        ]
      ]
    ]

-- What a transfer of `tx` becomes when `amount` more of it is allocated.
abbrev pub spent : Transaction → ℤ → Transaction
spent tx amount = record tx {
  match_status = compute_tx_match_status tx.amount (tx.remaining_amount -ℤ amount);
  remaining_amount = tx.remaining_amount -ℤ amount;
}

module _ (tx_id invoice_id : ℕ) (amount : ℤ) (actor : ℕ) (tx : Transaction) (l : Ledger)
    (h : IsSettled UnderReview l) (found : lookup tx_id l.transactions ≡ some tx) where
  left_over :
      tx.amount
        -ℤ sum_allocated_for_transaction tx_id
            (appended tx_id tx invoice_id amount manual none actor l)
      ≡ tx.remaining_amount -ℤ amount
  left_over =
      rw
        (
          total-append (transaction_share tx_id) l.next_id
              (new_allocation tx_id invoice_id amount manual none actor) l.allocations,
          (h.settled tx_id tx found).0,
        )
        (grind int_laws)

  spent_row :
      lookup tx_id
        (with_rows tx_id invoice_id
          (appended tx_id tx invoice_id amount manual none actor l)
          (l.next_id + 1)
          l).transactions
      ≡ some (spent tx amount)
  unfolding resettled
  spent_row = rw found (
      lookup-insert_self tx_id _ l.transactions
      ∙ ap
          (λ q. some (record tx {
            match_status = compute_tx_match_status tx.amount q;
            remaining_amount = q;
          }))
          left_over)

  risen :
      (k : ℕ)
      → sum_allocated_for_invoice k (appended tx_id tx invoice_id amount manual none actor l)
        ≡ sum_allocated_for_invoice k l.allocations +ℤ when (invoice_id == k) amount
  risen k =
      rw
        (total-append (invoice_share k) l.next_id
          (new_allocation tx_id invoice_id amount manual none actor) l.allocations)
        (grind int_laws)

-- In a settled ledger, an allocation by hand is refused and changes nothing when the amount is above
-- what the transfer has left or is not positive; otherwise it succeeds, the transfer has that much
-- less left, and the allocated sum of that invoice alone rises by the amount.
pub allocate_manual_outcome :
    (tx_id invoice_id : ℕ) (amount : ℤ) (actor : ℕ) (tx : Transaction) (inv : Invoice) (l : Ledger)
    → IsSettled UnderReview l
    → lookup tx_id l.transactions ≡ some tx
    → lookup invoice_id l.invoices ≡ some inv
    → let (answer, after) = allocate_manual tx_id invoice_id amount actor l in
      ((tx.remaining_amount <ℤ amount) ⊎ (amount ≤ℤ pos 0))
        × (answer ≡ err value_error)
        × (after ≡ l)
      ⊎ (pos 0 <ℤ amount)
        × (amount ≤ℤ tx.remaining_amount)
        × (answer ≡ ok l.next_id)
        × (lookup tx_id after.transactions ≡ some (spent tx amount))
        × ((k : ℕ)
            → sum_allocated_for_invoice k after.allocations
              ≡ sum_allocated_for_invoice k l.allocations +ℤ when (invoice_id == k) amount)
unfolding record_audit
allocate_manual_outcome tx_id invoice_id amount actor tx inv l h found invoiced =
    let row = spent_row tx_id invoice_id amount actor tx l h found in
    let sums = risen tx_id invoice_id amount actor tx l h found in
    elim (Bool-cases (ltb_ℤ tx.remaining_amount amount)) [
      | inl over ↦
          rw (above tx_id invoice_id amount actor tx inv l found invoiced over)
            (inl (inl (ltb_ℤ→lt tx.remaining_amount amount over), refl, refl))
      | inr within ↦ elim (Bool-cases (leb_ℤ amount (pos 0))) [
        | inl zero_or_less ↦
            rw (nothing tx_id invoice_id amount actor tx inv l found invoiced within zero_or_less)
              (inl (inr (leb_ℤ→le amount (pos 0) zero_or_less), refl, refl))
        | inr positive ↦
            rw
              (
                allocate_manual_allocates tx_id invoice_id amount actor tx inv l found invoiced
                    within positive,
                do_allocate_result tx_id tx invoice_id amount manual none actor l found,
              )
              (inr (
                leb_ℤ→lt amount (pos 0) positive,
                ltb_ℤ→le tx.remaining_amount amount within,
                refl,
                row,
                sums,
              ))
      ]
    ]
