-- ===== src/Transmissions/Lifecycle/Polling.antt =====
-- The poll of app/worker/job_handlers/poll_ksef_status.py moves invoices along.
use ifg.Base.{ℕ, Option, none, some}
use ifg.Base.Exec.{◌>>◌, modify}
use ifg.Base.Triple.{Triple, Triple-pure, Triple-if, Triple-bind, Triple-query, Triple-modify_last}
use ifg.Invoices.Items.{Chars}
use ifg.Transmissions.Rows.{
  TransmissionStatus, success, failed_permanent, Transmission, Outbox, Outside, Answer, answered,
  raised, StatusResult,
}
use ifg.Transmissions.Repository.{put_transmission}
use ifg.Transmissions.Sync.{sync_invoice_from_terminal_transmission}
use ifg.Transmissions.Poll.{
  wait_and_retry, Verdict, confirmed, turned_down, in_queue, verdict, poll_by_verdict,
  poll_answered, poll_by_answer, status_in_context, nip_of, poll_one, poll_or_skip,
  is_final_transmission, handle_poll,
}
use ifg.Transmissions.Lifecycle.{Follows}
use ifg.Transmissions.Lifecycle.Jobs.{put_row, queued_job, sync-Follows}

module _ (s : Outbox) (R : Outbox → Type 0) where
  waiting-Follows :
      (out : Outside) (id : ℕ) (t : Transmission) (reference : Chars) (s' : Outbox)
      → Follows s s'
      → Follows s (wait_and_retry out id t reference s')
  unfolding wait_and_retry
  waiting-Follows out id t reference s' f = queued_job s R _ _ (put_row s R id _ s' f)

  synced-Follows :
      (invoice_id : ℕ) (status : TransmissionStatus) (number : Option Chars) (id : ℕ)
      (t : Transmission)
      → Triple
          (Follows s)
          (λ _. Follows s)
          R
          (sync_invoice_from_terminal_transmission invoice_id status number
            >> modify (put_transmission id t))
  synced-Follows invoice_id status number id t =
      Triple-bind (λ _. Follows s) _ _ (sync-Follows s R invoice_id status number)
        (λ _. Triple-modify_last _ (put_row s R id t))

  verdict-Follows :
      (v : Verdict) (out : Outside) (id : ℕ) (t : Transmission) (reference : Chars)
      (r : StatusResult)
      → Triple (Follows s) (λ _. Follows s) R (poll_by_verdict v out id t reference r)
  verdict-Follows confirmed out id t reference r = synced-Follows t.invoice_id success _ id _
  verdict-Follows turned_down out id t reference r =
      synced-Follows t.invoice_id failed_permanent none id _
  verdict-Follows in_queue out id t reference r =
      Triple-modify_last _ (waiting-Follows out id t reference)

  poll_by_answer-Follows :
      (out : Outside) (id : ℕ) (t : Transmission) (reference : Chars) (a : Answer StatusResult)
      → Triple (Follows s) (λ _. Follows s) R (poll_by_answer out id t reference a)
  unfolding poll_answered
  poll_by_answer-Follows out id t reference (raised e) =
      Triple-modify_last _ (waiting-Follows out id t reference)
  poll_by_answer-Follows out id t reference (answered r) =
      verdict-Follows (verdict r.processing_code) out id t reference r

  poll_one-Follows :
      (out : Outside) (id : ℕ) (t : Transmission) (reference : Chars)
      → Triple (Follows s) (λ _. Follows s) R (poll_one out id t reference)
  unfolding poll_one
  poll_one-Follows out id t reference = Triple-query _ _ λ invoice.
      poll_by_answer-Follows out id t reference
        (status_in_context out reference (out.context (nip_of invoice)))

  pub handle_poll-Follows :
      (out : Outside) (id : ℕ) (reference : Chars)
      → Triple (Follows s) (λ _. Follows s) R (handle_poll out id reference)
  unfolding handle_poll
  handle_poll-Follows out id reference = Triple-query _ _ by_row
    where
      by_row :
          (found : Option Transmission)
          → Triple (Follows s) (λ _. Follows s) R (poll_or_skip out id reference found)
      by_row none = Triple-pure tt (λ _ f. f)
      by_row (some t) =
          Triple-if (is_final_transmission t.status)
            (sync_invoice_from_terminal_transmission t.invoice_id t.status t.ksef_reference_number)
            (poll_one out id t reference)
            (λ _. sync-Follows s R t.invoice_id t.status t.ksef_reference_number)
            (λ _. poll_one-Follows out id t reference)
