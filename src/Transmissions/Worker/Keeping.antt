-- ===== src/Transmissions/Worker/Keeping.antt =====
-- What both handlers, an imported row and a row of a job keep, the worker's batch keeps.
use ifg.Base.{ℕ, Bool, true, false, Option, none, some, List, [], ◌∷◌, if◌then◌else◌, ◌≡◌, refl}
use ifg.Base.Exec.{Exec, Result, ok, err, ◌>>◌, pure}
use ifg.Base.Triple.{Triple, Post, Triple-pure, Triple-raise, Triple-bind}
use ifg.Invoices.Items.{Chars}
use ifg.Invoices.Validation.{Invoice}
use ifg.Transmissions.Rows.{
  Task, submit_invoice, poll_ksef_status, sync_purchase_invoices, unknown_type, Job, Outbox,
  Outside, Answer, answered, raised, Received,
}
use ifg.Transmissions.Repository.{exists_by_ksef_number, add_invoice, put_job}
use ifg.Transmissions.Submit.{handle_submit}
use ifg.Transmissions.Poll.{handle_poll}
use ifg.Transmissions.Import.{
  Counts, one_more_existing, save_parsed, import_one, import_all, no_counts, import_answer,
  import_in_context, sync_received_invoices,
}
use ifg.Transmissions.Worker.{
  handler, claimed, run_or_fail, run_job, run_jobs, claimable_jobs, batch_size, process_batch,
}

module _ (P : Outbox → Type 0)
    (submits : (out : Outside) (id invoice_id : ℕ)
      → Triple P (λ _. P) P (handle_submit out id invoice_id))
    (polls : (out : Outside) (id : ℕ) (reference : Chars)
      → Triple P (λ _. P) P (handle_poll out id reference))
    (adds : (inv : Invoice) (s : Outbox) → P s → P (add_invoice inv s))
    (job_row : (id : ℕ) (job : Job) (s : Outbox) → P s → P (put_job id job s)) where
  import_one-Keeps : (r : Received) (c : Counts) (s : Outbox) → P s → P (import_one r c s).1
  unfolding import_one
  import_one-Keeps r c s h =
      by_test (exists_by_ksef_number r.ksef_reference_number s.invoices) r.parsed
    where
      by_test :
          (held : Bool) (parsed : Option Invoice)
          → P (if held then (one_more_existing c, s) else save_parsed r parsed c s).1
      by_test true parsed = h
      by_test false none = h
      by_test false (some inv) = adds _ s h

  import_all-Keeps : (rs : List Received) (c : Counts) (s : Outbox) → P s → P (import_all rs c s).1
  unfolding import_all
  import_all-Keeps [] c s h = h
  import_all-Keeps (r ∷ rs) c s h =
      import_all-Keeps rs (import_one r c s).0 (import_one r c s).1 (import_one-Keeps r c s h)

  imports : (out : Outside) (nip : Chars) → Triple P (λ _. P) P (sync_received_invoices out nip)
  unfolding sync_received_invoices
  imports out nip = in_context (out.context nip)
    where
      by_answer : (a : Answer (List Received)) → Triple P (λ _. P) P (import_answer a)
      by_answer (raised e) = Triple-raise _ (λ _ h. h)
      by_answer (answered rs) = record { at = λ s h. import_all-Keeps rs no_counts s h }

      in_context : (a : Answer (Unit {0})) → Triple P (λ _. P) P (import_in_context out nip a)
      in_context (raised e) = Triple-raise _ (λ _ h. h)
      in_context (answered _) = by_answer (out.received nip)

  handler-Keeps :
      (out : Outside) (task : Task) (m : Exec Outbox (Unit {0}))
      → handler out task ≡ some m
      → Triple P (λ _. P) P m
  handler-Keeps out (submit_invoice id invoice_id) m e =
      let same : handle_submit out id invoice_id ≡ m = cc in rw (← same) (submits out id invoice_id)
  handler-Keeps out (poll_ksef_status id reference key) m e =
      let same : handle_poll out id reference ≡ m = cc in rw (← same) (polls out id reference)
  handler-Keeps out (sync_purchase_invoices nip) m e =
      let same : sync_received_invoices out nip >> pure tt ≡ m = cc in
      rw (← same) (Triple-bind (λ _. P) _ _ (imports out nip) (λ _. Triple-pure tt (λ _ h. h)))
  handler-Keeps out unknown_type m e = cc

  either : (r : Result (Unit {0})) (s : Outbox) → Post (λ _. P) P r s → P s
  either (ok _) s h = h
  either (err _) s h = h

  run_or_fail-Keeps :
      (o : Option (Exec Outbox (Unit {0}))) (id : ℕ) (job : Job) (s : Outbox)
      → ((m : Exec Outbox (Unit {0})) → o ≡ some m → Triple P (λ _. P) P m)
      → P s
      → P (run_or_fail o id job s)
  run_or_fail-Keeps none id job s k h = job_row id _ s h
  run_or_fail-Keeps (some m) id job s k h =
      job_row id _ (m s).1 (either (m s).0 (m s).1 ((k m refl).at s h))

  run_job-Keeps : (out : Outside) (id : ℕ) (job : Job) (s : Outbox) → P s → P (run_job out id job s)
  unfolding run_job
  run_job-Keeps out id job s h =
      run_or_fail-Keeps (handler out job.task) id (claimed out job) _ (handler-Keeps out job.task)
        (job_row id (claimed out job) s h)

  run_jobs-Keeps :
      (out : ℕ → Outside) (jobs : List (ℕ × Job)) (s : Outbox) → P s → P (run_jobs out jobs s)
  unfolding run_jobs
  run_jobs-Keeps out [] s h = h
  run_jobs-Keeps out ((id, job) ∷ jobs) s h =
      run_jobs-Keeps out jobs (run_job (out id) id job s) (run_job-Keeps (out id) id job s h)

  pub process_batch-Keeps : (out : ℕ → Outside) (s : Outbox) → P s → P (process_batch out s)
  unfolding process_batch
  process_batch-Keeps out s h = run_jobs-Keeps out (claimable_jobs batch_size s) s h
