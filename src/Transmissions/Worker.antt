-- ===== src/Transmissions/Worker.antt =====
-- The worker: `_process_batch` of app/worker/__main__.py and `claimable_jobs` of
-- app/persistence/models/background_job.py.
pub mod Keeping
use ifg.Base.{
  ℕ, zero, suc, ◌+◌, Bool, true, false, Option, none, some, List, [], ◌∷◌, ltb, leb, if◌then◌else◌,
  select,
}
use ifg.Base.Exec.{Exec, Result, ok, err, ◌>>◌, pure}
use ifg.Transmissions.Rows.{
  Task, submit_invoice, poll_ksef_status, sync_purchase_invoices, unknown_type, Job, pending,
  processing, done, failed, Outbox, Outside,
}
use ifg.Transmissions.Repository.{put_job}
use ifg.Transmissions.Submit.{handle_submit}
use ifg.Transmissions.Poll.{handle_poll}
use ifg.Transmissions.Import.{sync_received_invoices}

abbrev pub is_pending : ℕ × Job → Bool
is_pending (id, job) = elim job.status [ pending ↦ true | _ ↦ false ]

abbrev pub insert_by_time : ℕ × Job → List (ℕ × Job) → List (ℕ × Job)
insert_by_time x [] = x ∷ []
insert_by_time x (y ∷ ys) =
    let rest = insert_by_time x ys in
    if ltb y.1.available_at x.1.available_at then y ∷ rest else x ∷ y ∷ ys

abbrev pub by_time : List (ℕ × Job) → List (ℕ × Job)
by_time [] = []
by_time (x ∷ xs) = insert_by_time x (by_time xs)

abbrev pub first_rows : ℕ → List (ℕ × Job) → List (ℕ × Job)
first_rows zero xs = []
first_rows (suc n) [] = []
first_rows (suc n) (x ∷ xs) = x ∷ first_rows n xs

-- `claimable_jobs`
unfoldable pub claimable_jobs : ℕ → Outbox → List (ℕ × Job)
claimable_jobs batch_size s = first_rows batch_size (by_time (select is_pending s.jobs))

-- `handlers.get(job.job_type)`, none for a type that has no handler
abbrev pub handler : Outside → Task → Option (Exec Outbox (Unit {0}))
handler out (submit_invoice id invoice_id) = some (handle_submit out id invoice_id)
handler out (poll_ksef_status id reference key) = some (handle_poll out id reference)
handler out (sync_purchase_invoices nip) = some (sync_received_invoices out nip >> pure tt)
handler out unknown_type = none

abbrev pub claimed : Outside → Job → Job
claimed out job = record job {
  status = processing;
  locked_at = some out.now;
  attempts = job.attempts + 1;
}

-- The job after its handler has returned or raised
abbrev pub settled : Result (Unit {0}) → Job → Job
settled (ok _) job = record job { status = done }
settled (err _) job = record job {
  status = if leb job.max_attempts job.attempts then failed else pending;
}

-- `try: handler.handle(…)`. What the handler has written before it raises is committed too.
abbrev run_handler : Exec Outbox (Unit {0}) → ℕ → Job → Outbox → Outbox
run_handler m id job s = let (answer, s') = m s in put_job id (settled answer job) s'

abbrev pub run_or_fail : Option (Exec Outbox (Unit {0})) → ℕ → Job → Outbox → Outbox
run_or_fail none id job s = put_job id (record job { status = failed }) s
run_or_fail (some m) id job s = run_handler m id job s

-- One round of the loop
unfoldable pub run_job : Outside → ℕ → Job → Outbox → Outbox
run_job out id job s =
    run_or_fail (handler out job.task) id (claimed out job) (put_job id (claimed out job) s)

-- The loop; what each job finds outside goes by the job's key.
unfoldable pub run_jobs : (ℕ → Outside) → List (ℕ × Job) → Outbox → Outbox
unfolding run_job
run_jobs out [] s = s
run_jobs out ((id, job) ∷ jobs) s = run_jobs out jobs (run_job (out id) id job s)

-- BATCH_SIZE
abbrev pub batch_size : ℕ
batch_size = 10

unfoldable pub process_batch : (ℕ → Outside) → Outbox → Outbox
unfolding run_jobs claimable_jobs
process_batch out s = run_jobs out (claimable_jobs batch_size s) s
