-- ===== src/Transmissions/Carried/Polling.antt =====
-- A job that is run leaves its transmission carried: the handler that asks KSeF.
use ifg.Base.{ℕ, true, false, Option, none, some, ◌≡◌, refl, ap, ◌⊎◌, inl, inr, arith}
use ifg.Base.Dict.{lookup}
use ifg.Base.Exec.{◌>>◌, modify}
use ifg.Base.Triple.{
  Triple, Triple-pure, Triple-if, Triple-before, Triple-bind, Triple-gets, Triple-query,
  Triple-modify_last,
}
use ifg.Invoices.Items.{Chars}
use ifg.Transmissions.Rows.{
  TransmissionStatus, success, failed_permanent, Transmission, Outbox, Outside, Answer, answered,
  raised, StatusResult,
}
use ifg.Transmissions.Repository.{put_transmission}
use ifg.Transmissions.Sync.{sync_invoice_from_terminal_transmission}
use ifg.Transmissions.Sync.Keeping.{sync-Keeps}
use ifg.Transmissions.Poll.{
  wait_and_retry, Verdict, confirmed, turned_down, in_queue, verdict, poll_by_verdict,
  fetch_and_save_upo, succeeded, poll_answered, poll_by_answer, status_in_context, nip_of, poll_one,
  poll_or_skip, is_final_transmission, handle_poll,
}
use ifg.Transmissions.Carried.{needs_job, Carrier, Carried}
use ifg.Transmissions.Carried.Handlers.{
  JobsFrom, Holding, Free, Taken, done, waiting, invoice_written, invoice_written_holding,
  not_there, holding,
}

fetch_and_save_upo-status :
    (out : Outside) (t : Transmission) (reference url : Option Chars)
    → (fetch_and_save_upo out t reference url).status ≡ t.status
fetch_and_save_upo-status out t reference url = ground arith

module _ (before : Outbox) (R : Outbox → Type 0) (id : ℕ) where
  synced-Free :
      (invoice_id : ℕ) (status : TransmissionStatus) (number : Option Chars) (t : Transmission)
      → needs_job t.status ≡ false
      → Triple
          (Holding before id)
          (λ _. Free before)
          R
          (sync_invoice_from_terminal_transmission invoice_id status number
            >> modify (put_transmission id t))
  synced-Free invoice_id status number t idle =
      Triple-bind (λ _. Holding before id) _ _
        (sync-Keeps (Holding before id) R (invoice_written_holding before R id) invoice_id status
          number)
        (λ _. Triple-modify_last _ (done before R id t idle))

  verdict-Free :
      (v : Verdict) (out : Outside) (t : Transmission) (reference : Chars) (r : StatusResult)
      → Triple (Holding before id) (λ _. Free before) R (poll_by_verdict v out id t reference r)
  unfolding wait_and_retry
  verdict-Free confirmed out t reference r = synced-Free t.invoice_id success _ _ (
      ap needs_job
        (fetch_and_save_upo-status out (succeeded out r t) r.ksef_reference_number r.upo_url))
  verdict-Free turned_down out t reference r = synced-Free t.invoice_id failed_permanent none _ refl
  verdict-Free in_queue out t reference r = Triple-modify_last _ (waiting before R id _ _ refl refl)

  poll_by_answer-Free :
      (out : Outside) (t : Transmission) (reference : Chars) (a : Answer StatusResult)
      → Triple (Holding before id) (λ _. Free before) R (poll_by_answer out id t reference a)
  unfolding poll_answered wait_and_retry
  poll_by_answer-Free out t reference (raised e) =
      Triple-modify_last _ (waiting before R id _ _ refl refl)
  poll_by_answer-Free out t reference (answered r) =
      verdict-Free (verdict r.processing_code) out t reference r

  poll_one-Free :
      (out : Outside) (t : Transmission) (reference : Chars)
      → Triple (Holding before id) (λ _. Free before) R (poll_one out id t reference)
  unfolding poll_one
  poll_one-Free out t reference = Triple-query _ _ λ invoice.
      poll_by_answer-Free out t reference
        (status_in_context out reference (out.context (nip_of invoice)))

  finished :
      (t : Transmission)
      → is_final_transmission t.status ≡ true
      → (s : Outbox) → Taken before R id (some t) s
      → Free before s
  finished t final s h = (
    record {
      jobs_below = h.0.0.jobs_below;
      jobs_distinct = h.0.0.jobs_distinct;
      rows_below = h.0.0.rows_below;
      carried = λ k row found needs. other k row found needs (h.0.0.carried k row found needs);
    },
    h.0.1,
  )
    where
      clash : (st : TransmissionStatus) → is_final_transmission st ≡ true → needs_job st ≡ true → ⊥
      clash st e f = ground arith

      other :
          (k : ℕ) (row : Transmission)
          → lookup k s.transmissions ≡ some row
          → needs_job row.status ≡ true
          → (k ≡ id) ⊎ Carrier k row s.jobs
          → ⊥ ⊎ Carrier k row s.jobs
      other k row found needs (inl e) =
          let here : lookup k s.transmissions ≡ some t = rw e h.1 in
          let same : row ≡ t = cc in absurd (clash t.status final (rw same at needs))
      other k row found needs (inr c) = inr c

  pub handle_poll-Free :
      (out : Outside) (reference : Chars)
      → Triple
          (λ s. Carried (some id) s × JobsFrom before s)
          (λ _. Free before)
          R
          (handle_poll out id reference)
  unfolding handle_poll
  handle_poll-Free out reference = Triple-gets _ _ by_row
    where
      by_row :
          (found : Option Transmission)
          → Triple
              (Taken before R id found)
              (λ _. Free before)
              R
              (poll_or_skip out id reference found)
      by_row none = Triple-pure tt (not_there before R id)
      by_row (some t) =
          Triple-if (is_final_transmission t.status)
            (sync_invoice_from_terminal_transmission t.invoice_id t.status t.ksef_reference_number)
            (poll_one out id t reference)
            (λ final.
              Triple-before _
                (sync-Keeps (Free before) R (invoice_written before R id) t.invoice_id t.status
                  t.ksef_reference_number)
                (finished t final))
            (λ more. Triple-before _ (poll_one-Free out t reference) (holding before R id t))
