-- ===== src/Transmissions/Submit/Outage.antt =====
-- What becomes of a transmission while KSeF is out: every attempt to send it fails for a time.
use ifg.Base.{
  ℕ, suc, ◌+◌, ◌≤◌, ◌<◌, ltb, true, false, Option, some, List, [], ◌∷◌, All, length, ◌≡◌, refl, sym,
  ap, ◌⊎◌, inl, inr, arith,
}
use mathlib.Core.Path.{subst}
use ifg.Base.Dict.{lookup, lookup-insert_self}
use ifg.Base.Exec.{◌>>=◌}
use ifg.Invoices.Validation.{Invoice, sending, rejected}
use ifg.Invoices.Status.{with_status}
use ifg.Transmissions.Rows.{
  failed_temporary, failed_permanent, ErrorCode, Transmission, Outbox, Outside, raised,
  client_error,
}
use ifg.Transmissions.Repository.{put_transmission, put_invoice, add_job}
use ifg.Transmissions.Sync.Outcome.{sync_rejects}
use ifg.Transmissions.Submit.{
  submit_invoice_to_ksef, code_text, started, retry_time, mark_temporary_failure_and_retry,
  mark_permanent_failure, with_failure, handle_error, submit_one, handle_submit,
}

-- KSeF cannot be reached for this invoice.
abbrev pub IsOut : Invoice → Outside → Type 0
IsOut inv out =
    (code : Option ℕ) × (submit_invoice_to_ksef out inv ≡ raised (client_error code true))

module _ (out : Outside) (id : ℕ) (t : Transmission) (inv : Invoice) (s : Outbox) where
  temporary :
      lookup id s.transmissions ≡ some t
      → lookup t.invoice_id s.invoices ≡ some inv
      → (code : Option ℕ) → submit_invoice_to_ksef out inv ≡ raised (client_error code true)
      → ltb t.attempt_no 5 ≡ true
      → (handle_submit out id t.invoice_id s).1
        ≡ mark_temporary_failure_and_retry out id
            (started out t)
            (code_text code)
            (put_transmission id (started out t) s)
  unfolding handle_submit submit_one handle_error put_transmission ◌>>=◌
  temporary found invoice code fails few = rw (found, invoice, fails, few) refl

  gives_up :
      lookup id s.transmissions ≡ some t
      → lookup t.invoice_id s.invoices ≡ some inv
      → inv.status ≡ sending
      → (code : Option ℕ) → submit_invoice_to_ksef out inv ≡ raised (client_error code true)
      → ltb t.attempt_no 5 ≡ false
      → (handle_submit out id t.invoice_id s).1
        ≡ put_invoice t.invoice_id (with_status rejected inv) (
            put_transmission id
              (with_failure failed_permanent (code_text code) out.later (started out t))
              (put_transmission id (started out t) s))
  unfolding handle_submit submit_one handle_error mark_permanent_failure put_transmission
      put_invoice ◌>>=◌
  gives_up found invoice sent code fails many =
      rw
        (
          found,
          invoice,
          fails,
          many,
          sync_rejects t.invoice_id inv
              (put_transmission id
                (with_failure failed_permanent (code_text code) out.later (started out t))
                (put_transmission id (started out t) s))
              invoice sent,
        )
        refl

-- The worker runs the job of a transmission, and then the jobs that it leaves, each in its own
-- surroundings.
unfoldable pub resend : List Outside → ℕ → ℕ → Outbox → Outbox
unfolding handle_submit
resend [] id invoice_id s = s
resend (out ∷ outs) id invoice_id s =
    resend outs id invoice_id (handle_submit out id invoice_id s).1

-- The transmission has failed for good at its fifth attempt, and the invoice is rejected.
pub record GaveUp (id invoice_id : ℕ) (inv : Invoice) (s : Outbox) : Type 0 where
  pub last : Transmission
  pub row : lookup id s.transmissions ≡ some last
  pub at_five : last.attempt_no ≡ 5
  pub for_good : last.status ≡ failed_permanent
  pub invoice : lookup invoice_id s.invoices ≡ some (with_status rejected inv)

-- The row that a temporary failure leaves
abbrev again : Outside → Transmission → ErrorCode → Transmission
again out t code = record (with_failure failed_temporary code out.later (started out t)) {
  attempt_no = t.attempt_no + 1;
  next_retry_at = some (retry_time out t);
}

fifth_or_before : (n : ℕ) → n ≤ 5 → (n ≡ 5) ⊎ (n < 5)
fifth_or_before n few = ground arith

ltb-true : {n : ℕ} → n < 5 → ltb n 5 ≡ true
ltb-true h = ground arith

module _ (id : ℕ) (inv : Invoice) (sent : inv.status ≡ sending) where
  gave_up :
      (out : Outside) (t : Transmission) (s : Outbox)
      → lookup id s.transmissions ≡ some t
      → lookup t.invoice_id s.invoices ≡ some inv
      → IsOut inv out
      → t.attempt_no ≡ 5
      → GaveUp id t.invoice_id inv (handle_submit out id t.invoice_id s).1
  unfolding put_transmission put_invoice
  gave_up out t s found invoice (code, fails) five =
      subst (GaveUp id t.invoice_id inv)
        (sym (gives_up out id t inv s found invoice sent code fails (ap (λ n. ltb n 5) five)))
        (record {
          last = with_failure failed_permanent (code_text code) out.later (started out t);
          row = lookup-insert_self id _ _;
          at_five = five;
          for_good = refl;
          invoice = lookup-insert_self t.invoice_id _ _;
        })

  -- An invoice that is being sent while KSeF cannot be reached: after the attempts that are left of
  -- five, neither fewer nor more, the transmission has failed for good at the fifth and the invoice is
  -- rejected.
  pub resend-GaveUp :
      (outs : List Outside) (t : Transmission) (s : Outbox)
      → lookup id s.transmissions ≡ some t
      → lookup t.invoice_id s.invoices ≡ some inv
      → All (IsOut inv) outs
      → t.attempt_no ≤ 5
      → length outs + t.attempt_no ≡ 6
      → GaveUp id t.invoice_id inv (resend outs id t.invoice_id s)
  unfolding resend mark_temporary_failure_and_retry put_transmission add_job
  resend-GaveUp [] t s found invoice down few count = absurd (omega arith)
  resend-GaveUp (out ∷ outs) t s found invoice down few count =
      elim (fifth_or_before t.attempt_no few) [
        | inl five ↦ last_of outs count five
        | inr four ↦
            subst (λ u. GaveUp id t.invoice_id inv (resend outs id t.invoice_id u))
              (sym (temporary out id t inv s found invoice down.0.0 down.0.1 (ltb-true four)))
              (resend-GaveUp outs (again out t (code_text down.0.0)) _ (lookup-insert_self id _ _)
                invoice down.1 (omega arith) (omega arith))
      ]
    where
      last_of :
          (outs : List Outside)
          → suc (length outs) + t.attempt_no ≡ 6
          → t.attempt_no ≡ 5
          → GaveUp id t.invoice_id inv
              (resend outs id t.invoice_id (handle_submit out id t.invoice_id s).1)
      last_of [] count five = gave_up out t s found invoice down.0 five
      last_of (o ∷ os) count five = absurd (omega arith)
