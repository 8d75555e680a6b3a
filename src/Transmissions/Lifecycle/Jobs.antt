-- ===== src/Transmissions/Lifecycle/Jobs.antt =====
-- The submitting job moves invoices along: app/worker/job_handlers/submit_invoice.py and what it calls.
use ifg.Base.{ℕ, Bool, true, false, Option, none, some, ◌≡◌, refl, ◌∙◌, arith}
use ifg.Base.Dict.{lookup}
use ifg.Base.Exec.{Exec, ◌>>◌, pure, modify}
use ifg.Base.Triple.{
  Triple, Triple-pure, Triple-if, Triple-before, Triple-bind, Triple-gets, Triple-query,
  Triple-modify, Triple-modify_last,
}
use ifg.Invoices.Items.{Chars}
use ifg.Invoices.Validation.{Invoice, InvoiceStatus, sending, accepted, rejected}
use ifg.Invoices.Status.{transition_to, with_status}
use ifg.Transmissions.Rows.{
  TransmissionStatus, failed_permanent, Transmission, Job, Outbox, Outside, KsefError, mapping,
  not_found, not_connected, expired_token, invalid_invoice, unexpected, client_error, Answer,
  answered, raised, ErrorCode,
}
use ifg.Transmissions.Repository.{put_transmission, add_job, put_job}
use ifg.Transmissions.Sync.{
  target_of, with_reference, accept, sync_by_status, sync_found,
  sync_invoice_from_terminal_transmission,
}
use ifg.Transmissions.Submit.{
  Sent, mark_submitted, mark_retryable_failure, mark_permanent_failure,
  mark_temporary_failure_and_retry, retry_or_fail, handle_error, conclude, submit_found, submit_one,
  submit_or_skip, started, handle_submit,
}
use ifg.Transmissions.Lifecycle.{stay, move, Follows, Follows-same, At, update_invoice-Follows}

accept-status :
    (inv : Invoice)
    → inv.status ≡ sending
    → ((accept inv).status ≡ accepted) × ((accept inv).direction ≡ inv.direction)
unfolding accept transition_to
accept-status inv e = ground arith

with_reference_same :
    (reference : Option Chars) (inv : Invoice)
    → ((with_reference reference inv).status ≡ inv.status)
      × ((with_reference reference inv).direction ≡ inv.direction)
with_reference_same reference inv = ground arith

module _ (s : Outbox) (R : Outbox → Type 0) where
  sync_by_status-Follows :
      (id : ℕ) (inv : Invoice) (target st : InvoiceStatus) (reference : Option Chars)
      → inv.status ≡ st
      → Triple
          (At s id st inv.direction)
          (λ _. Follows s)
          R
          (sync_by_status id inv target st reference)
  unfolding sync_by_status
  sync_by_status-Follows id inv accepted accepted reference e =
      Triple-if _ _ _
        (λ _.
          update_invoice-Follows s id accepted inv.direction
            (record inv { ksef_reference_number = reference }) refl (rw e stay))
        (λ _. Triple-pure tt (λ _ h. h.follows))
  sync_by_status-Follows id inv rejected sending reference e =
      update_invoice-Follows s id sending inv.direction (with_status rejected inv) refl
        (move sending rejected stay refl)
  sync_by_status-Follows id inv accepted sending reference e =
      let (status, side) = accept-status inv e in
      let (status', side') = with_reference_same reference (accept inv) in
      update_invoice-Follows s id sending inv.direction (with_reference reference (accept inv))
        (side' ∙ side) (rw (status', status) (move sending accepted stay refl))
  sync_by_status-Follows id inv target st reference e = Triple-pure tt (λ _ h. h.follows)

  pub sync-Follows :
      (id : ℕ) (status : TransmissionStatus) (reference : Option Chars)
      → Triple
          (Follows s)
          (λ _. Follows s)
          R
          (sync_invoice_from_terminal_transmission id status reference)
  unfolding sync_invoice_from_terminal_transmission
  sync-Follows id status reference = Triple-gets _ _ λ found. by_row found
    where
      by_target :
          (inv : Invoice) (target : Option InvoiceStatus)
          → Triple
              (λ s'. Follows s s' × (lookup id s'.invoices ≡ some inv))
              (λ _. Follows s)
              R
              (sync_found id (some inv) target reference)
      by_target inv none = Triple-pure tt (λ _ h. h.0)
      by_target inv (some target) =
          Triple-before _ (sync_by_status-Follows id inv target inv.status reference refl)
            (λ s' h. record { follows = h.0; row = inv; found = h.1; status = refl; side = refl })

      by_row :
          (found : Option Invoice)
          → Triple
              (λ s'. Follows s s' × (lookup id s'.invoices ≡ found))
              (λ _. Follows s)
              R
              (sync_found id found (target_of status) reference)
      by_row none = Triple-pure tt (λ _ h. h.0)
      by_row (some inv) = by_target inv (target_of status)

  pub put_row :
      (id : ℕ) (t : Transmission) (s' : Outbox)
      → Follows s s'
      → Follows s (put_transmission id t s')
  unfolding put_transmission
  put_row id t s' f = Follows-same s s' (put_transmission id t s') refl f

  pub queued_job : (job : Job) (s' : Outbox) → Follows s s' → Follows s (add_job job s')
  unfolding add_job
  queued_job job s' f = Follows-same s s' (add_job job s') refl f

  pub job_row : (id : ℕ) (job : Job) (s' : Outbox) → Follows s s' → Follows s (put_job id job s')
  unfolding put_job
  job_row id job s' f = Follows-same s s' (put_job id job s') refl f

  permanent-Follows :
      (out : Outside) (id : ℕ) (t : Transmission) (code : ErrorCode)
      → Triple (Follows s) (λ _. Follows s) R (mark_permanent_failure out id t code)
  unfolding mark_permanent_failure
  permanent-Follows out id t code =
      Triple-modify _ _ (put_row id _) (sync-Follows t.invoice_id failed_permanent none)

  temporary-Follows :
      (out : Outside) (id : ℕ) (t : Transmission) (code : ErrorCode) (s' : Outbox)
      → Follows s s'
      → Follows s (mark_temporary_failure_and_retry out id t code s')
  unfolding mark_temporary_failure_and_retry
  temporary-Follows out id t code s' f = queued_job _ _ (put_row id _ s' f)

  retryable-Follows :
      (out : Outside) (id : ℕ) (t : Transmission) (code : ErrorCode) (s' : Outbox)
      → Follows s s'
      → Follows s (mark_retryable_failure out id t code s')
  unfolding mark_retryable_failure
  retryable-Follows out id t code s' f = put_row id _ s' f

  done_with :
      {A : Type 0} (m : Exec Outbox (Unit {0})) (a : A)
      → Triple (Follows s) (λ _. Follows s) R m
      → Triple (Follows s) (λ _. Follows s) R (m >> pure a)
  done_with m a k = Triple-bind (λ _. Follows s) m _ k (λ _. Triple-pure a (λ _ f. f))

  wrote :
      {A : Type 0} (f : Outbox → Outbox) (a : A)
      → ((s' : Outbox) → Follows s s' → Follows s (f s'))
      → Triple (Follows s) (λ _. Follows s) R (modify f >> pure a)
  wrote f a k = Triple-modify f _ k (Triple-pure a (λ _ h. h))

  retry_or_fail-Follows :
      (again : Bool) (out : Outside) (id : ℕ) (t : Transmission) (code : ErrorCode)
      → Triple (Follows s) (λ _. Follows s) R (retry_or_fail again out id t code)
  retry_or_fail-Follows true out id t code = Triple-modify_last _ (temporary-Follows out id t code)
  retry_or_fail-Follows false out id t code = permanent-Follows out id t code

  handle_error-Follows :
      (out : Outside) (id : ℕ) (t : Transmission) (inv : Invoice) (e : KsefError)
      → Triple (Follows s) (λ _. Follows s) R (handle_error out id t inv e)
  unfolding handle_error
  handle_error-Follows out id t inv mapping = done_with _ _ (permanent-Follows out id t _)
  handle_error-Follows out id t inv invalid_invoice = done_with _ _ (permanent-Follows out id t _)
  handle_error-Follows out id t inv not_found = wrote _ _ (retryable-Follows out id t _)
  handle_error-Follows out id t inv not_connected = wrote _ _ (retryable-Follows out id t _)
  handle_error-Follows out id t inv expired_token = wrote _ _ (retryable-Follows out id t _)
  handle_error-Follows out id t inv (client_error status transient) =
      done_with _ _ (retry_or_fail-Follows _ out id t _)
  handle_error-Follows out id t inv unexpected = done_with _ _ (retry_or_fail-Follows _ out id t _)

  conclude-Follows :
      (out : Outside) (id : ℕ) (t : Transmission) (inv : Invoice) (a : Answer Sent)
      → Triple (Follows s) (λ _. Follows s) R (conclude out id t inv a)
  unfolding mark_submitted
  conclude-Follows out id t inv (answered sent) =
      wrote _ _ (λ s' f. queued_job _ _ (put_row id _ s' f))
  conclude-Follows out id t inv (raised e) = handle_error-Follows out id t inv e

  submit_found-Follows :
      (out : Outside) (id : ℕ) (t : Transmission) (invoice : Option Invoice)
      → Triple (Follows s) (λ _. Follows s) R (submit_found out id t invoice)
  submit_found-Follows out id t none = Triple-modify_last _ (put_row id _)
  submit_found-Follows out id t (some inv) =
      Triple-bind (λ _. Follows s) _ _ (conclude-Follows out id t inv _)
        (λ _. Triple-pure tt (λ _ f. f))

  pub handle_submit-Follows :
      (out : Outside) (id invoice_id : ℕ)
      → Triple (Follows s) (λ _. Follows s) R (handle_submit out id invoice_id)
  unfolding handle_submit submit_one
  handle_submit-Follows out id invoice_id = Triple-query _ _ by_row
    where
      by_row :
          (found : Option Transmission)
          → Triple (Follows s) (λ _. Follows s) R (submit_or_skip out id invoice_id found)
      by_row none = Triple-pure tt (λ _ f. f)
      by_row (some t) =
          Triple-modify _ _ (put_row id _)
            (Triple-query _ _ (submit_found-Follows out id (started out t)))
