-- ===== src/Transmissions/Carried/Handlers.antt =====
-- A job that is run leaves its transmission carried: the two handlers.
use ifg.Base.{ℕ, ◌<◌, Bool, true, false, Option, none, some, ◌≡◌, refl, ◌⊎◌, inl, inr}
use ifg.Base.Dict.{lookup, lookup-append_old, lookup-Below}
use ifg.Base.Exec.{Exec, ◌>>◌, pure, modify}
use ifg.Base.Triple.{
  Triple, Triple-pure, Triple-bind, Triple-gets, Triple-query, Triple-modify, Triple-modify_last,
}
use ifg.Invoices.Validation.{Invoice}
use ifg.Transmissions.Rows.{
  failed_permanent, Transmission, Job, pending, Outbox, Outside, KsefError, mapping, not_found,
  not_connected, expired_token, invalid_invoice, unexpected, client_error, Answer, answered, raised,
  ErrorCode,
}
use ifg.Transmissions.Repository.{put_transmission, add_job, put_invoice}
use ifg.Transmissions.Sync.Keeping.{sync-Keeps}
use ifg.Transmissions.Submit.{
  Sent, mark_submitted, mark_retryable_failure, mark_permanent_failure,
  mark_temporary_failure_and_retry, retry_or_fail, handle_error, conclude, submit_found, submit_one,
  submit_or_skip, started, handle_submit,
}
use ifg.Transmissions.Carried.{needs_job, Serves, Carrier, Carried}
use ifg.Transmissions.Carried.Kept.{put_invoice-Carried}
use ifg.Transmissions.Carried.Writes.{put_done-Carried, put_waiting-Carried, put_in_hand-Carried}

-- Every job of `before` is still there as it was.
pub record JobsFrom (before s : Outbox) : Type 0 where
  pub at : (k : ℕ) (job : Job) → lookup k before.jobs ≡ some job → lookup k s.jobs ≡ some job

-- With the transmission `id` in hand, and with none
abbrev pub Holding : Outbox → ℕ → Outbox → Type 0
Holding before id s = Carried (some id) s × (id < s.next_id) × JobsFrom before s

abbrev pub Free : Outbox → Outbox → Type 0
Free before s = Carried none s × JobsFrom before s

module _ (before : Outbox) (R : Outbox → Type 0) (id : ℕ) where
  pub done :
      (t : Transmission)
      → needs_job t.status ≡ false
      → (s : Outbox) → Holding before id s
      → Free before (put_transmission id t s)
  unfolding put_transmission
  done t idle s h = (put_done-Carried id t s h.0 h.1 idle, record { at = h.2.at })

  pub waiting :
      (t : Transmission) (job : Job)
      → job.status ≡ pending
      → Serves t.status id t.invoice_id job.task
      → (s : Outbox) → Holding before id s
      → Free before (add_job job (put_transmission id t s))
  unfolding put_transmission add_job
  waiting t job pend serves s h = (
    put_waiting-Carried id t job s h.0 h.1 pend serves,
    record { at = λ k row found. lookup-append_old k row s.jobs _ (h.2.at k row found) },
  )

  pub invoice_written :
      (k : ℕ) (inv : Invoice) (s : Outbox) → Free before s → Free before (put_invoice k inv s)
  unfolding put_invoice
  invoice_written k inv s h = (put_invoice-Carried none s h.0 k inv, record { at = h.1.at })

  pub invoice_written_holding :
      (k : ℕ) (inv : Invoice) (s : Outbox)
      → Holding before id s
      → Holding before id (put_invoice k inv s)
  unfolding put_invoice
  invoice_written_holding k inv s h =
      (put_invoice-Carried (some id) s h.0 k inv, h.1, record { at = h.2.at })

  permanent-Free :
      (out : Outside) (t : Transmission) (code : ErrorCode)
      → Triple (Holding before id) (λ _. Free before) R (mark_permanent_failure out id t code)
  unfolding mark_permanent_failure
  permanent-Free out t code =
      Triple-modify _ _ (done _ refl)
        (sync-Keeps (Free before) R invoice_written t.invoice_id failed_permanent none)

  retry_or_fail-Free :
      (again : Bool) (out : Outside) (t : Transmission) (code : ErrorCode)
      → Triple (Holding before id) (λ _. Free before) R (retry_or_fail again out id t code)
  unfolding mark_temporary_failure_and_retry
  retry_or_fail-Free true out t code = Triple-modify_last _ (waiting _ _ refl (refl, refl))
  retry_or_fail-Free false out t code = permanent-Free out t code

  and_pure :
      {A : Type 0} (m : Exec Outbox (Unit {0})) (a : A)
      → Triple (Holding before id) (λ _. Free before) R m
      → Triple (Holding before id) (λ _. Free before) R (m >> pure a)
  and_pure m a k = Triple-bind (λ _. Free before) m _ k (λ _. Triple-pure a (λ _ h. h))

  retryable-Free :
      {A : Type 0} (out : Outside) (t : Transmission) (code : ErrorCode) (a : A)
      → Triple
          (Holding before id)
          (λ _. Free before)
          R
          (modify (mark_retryable_failure out id t code) >> pure a)
  unfolding mark_retryable_failure
  retryable-Free out t code a = and_pure _ a (Triple-modify_last _ (done _ refl))

  handle_error-Free :
      (out : Outside) (t : Transmission) (inv : Invoice) (e : KsefError)
      → Triple (Holding before id) (λ _. Free before) R (handle_error out id t inv e)
  unfolding handle_error
  handle_error-Free out t inv mapping = and_pure _ _ (permanent-Free out t _)
  handle_error-Free out t inv invalid_invoice = and_pure _ _ (permanent-Free out t _)
  handle_error-Free out t inv not_found = retryable-Free out t _ _
  handle_error-Free out t inv not_connected = retryable-Free out t _ _
  handle_error-Free out t inv expired_token = retryable-Free out t _ _
  handle_error-Free out t inv (client_error status transient) =
      and_pure _ _ (retry_or_fail-Free _ out t _)
  handle_error-Free out t inv unexpected = and_pure _ _ (retry_or_fail-Free _ out t _)

  conclude-Free :
      (out : Outside) (t : Transmission) (inv : Invoice) (a : Answer Sent)
      → Triple (Holding before id) (λ _. Free before) R (conclude out id t inv a)
  unfolding mark_submitted
  conclude-Free out t inv (answered sent) =
      and_pure _ _ (Triple-modify_last _ (waiting _ _ refl refl))
  conclude-Free out t inv (raised e) = handle_error-Free out t inv e

  submit_found-Free :
      (out : Outside) (t : Transmission) (invoice : Option Invoice)
      → Triple (Holding before id) (λ _. Free before) R (submit_found out id t invoice)
  submit_found-Free out t none = Triple-modify_last _ (done _ refl)
  submit_found-Free out t (some inv) =
      Triple-bind (λ _. Free before) _ _ (conclude-Free out t inv _)
        (λ _. Triple-pure tt (λ _ h. h))

  -- The job was taken from the transmission `id`, whose row is the one found.
  abbrev pub Taken : Option Transmission → Outbox → Type 0
  Taken found s = (Carried (some id) s × JobsFrom before s) × (lookup id s.transmissions ≡ found)

  pub not_there : (s : Outbox) → Taken none s → Free before s
  not_there s h = (
    record {
      jobs_below = h.0.0.jobs_below;
      jobs_distinct = h.0.0.jobs_distinct;
      rows_below = h.0.0.rows_below;
      carried = λ k t found needs. other k t found (h.0.0.carried k t found needs);
    },
    h.0.1,
  )
    where
      other :
          (k : ℕ) (t : Transmission)
          → lookup k s.transmissions ≡ some t
          → (k ≡ id) ⊎ Carrier k t s.jobs
          → ⊥ ⊎ Carrier k t s.jobs
      other k t found (inl e) = let none_there : lookup k s.transmissions ≡ none = rw e h.1 in cc
      other k t found (inr c) = inr c

  pub holding : (t : Transmission) (s : Outbox) → Taken (some t) s → Holding before id s
  holding t s h = (h.0.0, lookup-Below s.next_id id t s.transmissions h.0.0.rows_below h.1, h.0.1)

  in_hand :
      (t new : Transmission) (s : Outbox)
      → Taken (some t) s
      → Holding before id (put_transmission id new s)
  unfolding put_transmission
  in_hand t new s h =
      let below = lookup-Below s.next_id id t s.transmissions h.0.0.rows_below h.1 in
      (
        put_in_hand-Carried id new (some id) s h.0.0 (λ k e. e) below,
        below,
        record { at = h.0.1.at },
      )

  pub handle_submit-Free :
      (out : Outside) (invoice_id : ℕ)
      → Triple
          (λ s. Carried (some id) s × JobsFrom before s)
          (λ _. Free before)
          R
          (handle_submit out id invoice_id)
  unfolding handle_submit submit_one
  handle_submit-Free out invoice_id = Triple-gets _ _ by_row
    where
      by_row :
          (found : Option Transmission)
          → Triple (Taken found) (λ _. Free before) R (submit_or_skip out id invoice_id found)
      by_row none = Triple-pure tt not_there
      by_row (some t) =
          Triple-modify _ _ (in_hand t (started out t))
            (Triple-query _ _ (submit_found-Free out (started out t)))
