-- ===== src/Transmissions/Attempts/Jobs.antt =====
-- The handlers of app/worker/job_handlers/ keep the bound on attempts.
use ifg.Base.{ℕ, Bool, true, false, ◌&&◌, Option, none, some, ltb, ◌≡◌, refl, arith}
use ifg.Base.Dict.{lookup}
use ifg.Base.Exec.{Exec, ◌>>=◌, ◌>>◌, pure, gets, modify}
use ifg.Base.Triple.{
  Triple, Triple-pure, Triple-if, Triple-known, Triple-before, Triple-bind, Triple-gets,
  Triple-query, Triple-modify, Triple-modify_last,
}
use ifg.Invoices.Items.{Chars}
use ifg.Invoices.Validation.{Invoice}
use ifg.Transmissions.Rows.{
  TransmissionStatus, success, failed_permanent, Transmission, Outbox, Outside, KsefError, mapping,
  not_found, not_connected, expired_token, invalid_invoice, unexpected, client_error, Answer,
  answered, raised, StatusResult, ErrorCode,
}
use ifg.Transmissions.Sync.{sync_invoice_from_terminal_transmission}
use ifg.Transmissions.Sync.Keeping.{sync-Keeps}
use ifg.Transmissions.Submit.{
  Sent, mark_submitted, mark_retryable_failure, mark_permanent_failure,
  mark_temporary_failure_and_retry, retry_or_fail, handle_error, conclude, submit_found, submit_one,
  started, handle_submit,
}
use ifg.Transmissions.Poll.{
  wait_and_retry, fetch_and_save_upo, succeeded, Verdict, confirmed, turned_down, in_queue, verdict,
  poll_by_verdict, poll_answered, poll_by_answer, status_in_context, nip_of, poll_one,
  is_final_transmission, handle_poll,
}
use ifg.Transmissions.Attempts.{
  Tried, AllTried, AllTried-put, AllTried-job, AllTried-invoice, found-Tried,
}

module _ (R : Outbox → Type 0) where
  abbrev Bounded : {A : Type 0} → Exec Outbox A → Type 0
  Bounded m = Triple AllTried (λ _. AllTried) R m

  synced :
      (id : ℕ) (status : TransmissionStatus) (reference : Option Chars)
      → Bounded (sync_invoice_from_terminal_transmission id status reference)
  synced id status reference = sync-Keeps AllTried R AllTried-invoice id status reference

  module _ (out : Outside) (id : ℕ) (t : Transmission) (p : Tried t) where
    permanent-Tried : (code : ErrorCode) → Bounded (mark_permanent_failure out id t code)
    unfolding mark_permanent_failure
    permanent-Tried code =
        Triple-modify _ _ (AllTried-put id _ p) (synced t.invoice_id failed_permanent none)

    temporary-Tried :
        (code : ErrorCode)
        → ltb t.attempt_no 5 ≡ true
        → (s : Outbox) → AllTried s
        → AllTried (mark_temporary_failure_and_retry out id t code s)
    unfolding mark_temporary_failure_and_retry
    temporary-Tried code few s h =
        AllTried-job _ _ (AllTried-put id _ (omega arith, ground arith) s h)

    retryable-Tried :
        (code : ErrorCode) (s : Outbox)
        → AllTried s
        → AllTried (mark_retryable_failure out id t code s)
    unfolding mark_retryable_failure
    retryable-Tried code s h = AllTried-put id _ p s h

    retry_or_fail-Tried :
        (again : Bool) (code : ErrorCode)
        → (again ≡ true → ltb t.attempt_no 5 ≡ true)
        → Bounded (retry_or_fail again out id t code)
    retry_or_fail-Tried true code few = Triple-modify_last _ (temporary-Tried code (few refl))
    retry_or_fail-Tried false code few = permanent-Tried code

    done_with :
        {A : Type 0} (m : Exec Outbox (Unit {0})) (a : A) → Bounded m → Bounded (m >> pure a)
    done_with m a k = Triple-bind (λ _. AllTried) m _ k (λ _. Triple-pure a (λ _ h. h))

    marked :
        {A : Type 0} (code : ErrorCode) (a : A)
        → Bounded (modify (mark_retryable_failure out id t code) >> pure a)
    marked code a = Triple-modify _ _ (retryable-Tried code) (Triple-pure a (λ _ h. h))

    both : (a b : Bool) → a && b ≡ true → b ≡ true
    both true b e = e
    both false b e = cc

    handle_error-Tried : (inv : Invoice) (e : KsefError) → Bounded (handle_error out id t inv e)
    unfolding handle_error
    handle_error-Tried inv mapping = done_with _ _ (permanent-Tried _)
    handle_error-Tried inv invalid_invoice = done_with _ _ (permanent-Tried _)
    handle_error-Tried inv not_found = marked _ _
    handle_error-Tried inv not_connected = marked _ _
    handle_error-Tried inv expired_token = marked _ _
    handle_error-Tried inv (client_error status transient) =
        done_with _ _ (retry_or_fail-Tried _ _ (both transient (ltb t.attempt_no 5)))
    handle_error-Tried inv unexpected = done_with _ _ (retry_or_fail-Tried _ _ (λ e. e))

    conclude-Tried : (inv : Invoice) (a : Answer Sent) → Bounded (conclude out id t inv a)
    unfolding mark_submitted
    conclude-Tried inv (answered sent) =
        Triple-modify _ _ (λ s h. AllTried-job _ _ (AllTried-put id _ p s h))
          (Triple-pure inv (λ _ h. h))
    conclude-Tried inv (raised e) = handle_error-Tried inv e

    submit_found-Tried : (invoice : Option Invoice) → Bounded (submit_found out id t invoice)
    submit_found-Tried none = Triple-modify_last _ (AllTried-put id _ p)
    submit_found-Tried (some inv) =
        Triple-bind (λ _. AllTried) _ _ (conclude-Tried inv _) (λ _. Triple-pure tt (λ _ h. h))

    waiting-Tried :
        (reference : Chars) (s : Outbox)
        → AllTried s
        → AllTried (wait_and_retry out id t reference s)
    unfolding wait_and_retry
    waiting-Tried reference s h = AllTried-job _ _ (AllTried-put id _ p s h)

    upo_attempts :
        (u : Transmission) (reference url : Option Chars)
        → (fetch_and_save_upo out u reference url).attempt_no ≡ u.attempt_no
    upo_attempts u reference url = ground arith

    verdict-Tried :
        (v : Verdict) (reference : Chars) (r : StatusResult)
        → Bounded (poll_by_verdict v out id t reference r)
    verdict-Tried confirmed reference r =
        Triple-bind (λ _. AllTried) _ _ (synced t.invoice_id success _)
          λ _. Triple-modify_last _ (
            AllTried-put id _
              (rw (upo_attempts (succeeded out r t) r.ksef_reference_number r.upo_url) p))
    verdict-Tried turned_down reference r =
        Triple-bind (λ _. AllTried) _ _ (synced t.invoice_id failed_permanent none)
          λ _. Triple-modify_last _ (AllTried-put id _ p)
    verdict-Tried in_queue reference r = Triple-modify_last _ (waiting-Tried reference)

    poll_by_answer-Tried :
        (reference : Chars) (a : Answer StatusResult)
        → Bounded (poll_by_answer out id t reference a)
    unfolding poll_answered
    poll_by_answer-Tried reference (raised e) = Triple-modify_last _ (waiting-Tried reference)
    poll_by_answer-Tried reference (answered r) =
        verdict-Tried (verdict r.processing_code) reference r

    poll_one-Tried : (reference : Chars) → Bounded (poll_one out id t reference)
    unfolding poll_one
    poll_one-Tried reference = Triple-query _ _ λ invoice.
        poll_by_answer-Tried reference
          (status_in_context out reference (out.context (nip_of invoice)))

  -- The transmission that the handler reads is within the bound.
  on_row :
      (id : ℕ) (next : Option Transmission → Exec Outbox (Unit {0}))
      → Bounded (next none)
      → ((t : Transmission) → Tried t → Bounded (next (some t)))
      → Bounded (gets (λ s. lookup id s.transmissions) >>= next)
  on_row id next skip go = Triple-gets _ _ by_row
    where
      by_row :
          (found : Option Transmission)
          → Triple
              (λ s. AllTried s × (lookup id s.transmissions ≡ found))
              (λ _. AllTried)
              R
              (next found)
      by_row none = Triple-before _ skip (λ s h. h.0)
      by_row (some t) =
          Triple-known _ (λ s h. found-Tried id t s h.0 h.1)
            λ p. Triple-before _ (go t p) (λ s h. h.0)

  pub handle_submit-Tried :
      (out : Outside) (id invoice_id : ℕ)
      → Triple AllTried (λ _. AllTried) R (handle_submit out id invoice_id)
  unfolding handle_submit submit_one
  handle_submit-Tried out id invoice_id = on_row id _ (Triple-pure tt (λ _ h. h)) λ t p.
      Triple-modify _ _ (AllTried-put id _ p)
        (Triple-query _ _ (submit_found-Tried out id (started out t) p))

  pub handle_poll-Tried :
      (out : Outside) (id : ℕ) (reference : Chars)
      → Triple AllTried (λ _. AllTried) R (handle_poll out id reference)
  unfolding handle_poll
  handle_poll-Tried out id reference = on_row id _ (Triple-pure tt (λ _ h. h)) λ t p.
      Triple-if (is_final_transmission t.status)
        (sync_invoice_from_terminal_transmission t.invoice_id t.status t.ksef_reference_number)
        (poll_one out id t reference) (λ _. synced t.invoice_id t.status t.ksef_reference_number)
        (λ _. poll_one-Tried out id t p reference)
