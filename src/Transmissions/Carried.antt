-- ===== src/Transmissions/Carried.antt =====
-- No transmission is lost: one that waits for the worker has a job that is pending.
pub mod Kept
pub mod Writes
pub mod Handlers
pub mod Polling
pub mod Batch
pub mod Loop
pub mod Requests
pub mod Retries
use ifg.Base.{
  ℕ, suc, ◌+◌, ◌<◌, ◌==◌, Bool, true, false, Option, none, some, List, [], ◌∷◌, ◌++◌, if◌then◌else◌,
  ◌≡◌, refl, ◌⊎◌, inl, inr, Bool-cases, arith,
}
use ifg.Base.Dict.{
  Dict, lookup, insert, Below, Distinct, Lacks, lookup-insert, lookup-append, lookup-Lacks,
  Below-Lacks, Below-le, Below-suc, Below-insert, lookup-Below, Distinct-insert, Distinct-append,
}
use ifg.Transmissions.Rows.{
  TransmissionStatus, queued, processing, submitted, waiting_status, success, failed_temporary,
  failed_retryable, failed_permanent, Transmission, Task, submit_invoice, poll_ksef_status,
  sync_purchase_invoices, unknown_type, Job, pending, Outbox, Outside,
}
use ifg.Transmissions.Repository.{
  put_transmission, with_transmission, add_job, put_job, put_invoice, add_invoice, record_event,
}

-- The statuses in which something has still to be done
abbrev pub needs_job : TransmissionStatus → Bool
needs_job success = false
needs_job failed_retryable = false
needs_job failed_permanent = false
needs_job _ = true

abbrev pub subject : Task → Option ℕ
subject (submit_invoice id invoice_id) = some id
subject (poll_ksef_status id reference key) = some id
subject _ = none

abbrev IsSubmit : ℕ → ℕ → Task → Type 0
IsSubmit k i (submit_invoice id invoice_id) = (id ≡ k) × (invoice_id ≡ i)
IsSubmit k i _ = ⊥

abbrev IsPoll : ℕ → Task → Type 0
IsPoll k (poll_ksef_status id reference key) = id ≡ k
IsPoll k _ = ⊥

-- The task that a transmission `k` of the invoice `i` waits for: to be sent, or to be asked about. None
-- waits while it is being processed.
abbrev pub Serves : TransmissionStatus → ℕ → ℕ → Task → Type 0
Serves queued k i task = IsSubmit k i task
Serves failed_temporary k i task = IsSubmit k i task
Serves submitted k i task = IsPoll k task
Serves waiting_status k i task = IsPoll k task
Serves _ k i task = ⊥

pub record Carrier (k : ℕ) (t : Transmission) (jobs : Dict Job) : Type 0 where
  pub key : ℕ
  pub job : Job
  pub found : lookup key jobs ≡ some job
  pub waits : job.status ≡ pending
  pub serves : Serves t.status k t.invoice_id job.task

abbrev pub Skips : Option ℕ → ℕ → Type 0
Skips none k = ⊥
Skips (some j) k = k ≡ j

-- Every transmission that needs a job, but the one in hand, has one.
pub record Carried (in_hand : Option ℕ) (s : Outbox) : Type 0 where
  pub jobs_below : Below s.next_id s.jobs
  pub jobs_distinct : Distinct s.jobs
  pub rows_below : Below s.next_id s.transmissions
  pub carried :
      (k : ℕ) (t : Transmission)
      → lookup k s.transmissions ≡ some t
      → needs_job t.status ≡ true
      → Skips in_hand k ⊎ Carrier k t s.jobs

Serves-subject :
    (st : TransmissionStatus) (k i : ℕ) (task : Task) → Serves st k i task → subject task ≡ some k
Serves-subject st k i (submit_invoice id invoice_id) h = ground arith
Serves-subject st k i (poll_ksef_status id reference key) h = ground arith
Serves-subject st k i (sync_purchase_invoices nip) h = ground arith
Serves-subject st k i unknown_type h = ground arith

Skips-subject : (o : Option ℕ) (k : ℕ) → o ≡ some k → Skips o k
Skips-subject (some j) k e = ground arith
Skips-subject none k e = cc

-- A job whose row is written anew serves nobody else.
pub put_job-Carried :
    (j : ℕ) (row new : Job) (s : Outbox)
    → Carried none s
    → lookup j s.jobs ≡ some row
    → Carried (subject row.task) (put_job j new s)
unfolding put_job
put_job-Carried j row new s c e = record {
  jobs_below =
      Below-insert s.next_id j new s.jobs c.jobs_below
        (lookup-Below s.next_id j row s.jobs c.jobs_below e);
  jobs_distinct = Distinct-insert j new s.jobs c.jobs_distinct;
  rows_below = c.rows_below;
  carried = λ k t found needs. kept k t (c.carried k t found needs);
}
  where
    other :
        (k : ℕ) (t : Transmission) (h : Carrier k t s.jobs)
        → (h.key == j) ≡ false
        → Carrier k t (insert j new s.jobs)
    other k t h there = record {
      key = h.key;
      job = h.job;
      found = ground (arith, lookup-insert j h.key new s.jobs, h.found);
      waits = h.waits;
      serves = h.serves;
    }

    kept :
        (k : ℕ) (t : Transmission)
        → ⊥ ⊎ Carrier k t s.jobs
        → Skips (subject row.task) k ⊎ Carrier k t (insert j new s.jobs)
    kept k t (inl wrong) = absurd wrong
    kept k t (inr h) = elim (Bool-cases (h.key == j)) [
      | inl here ↦
          let same : h.job ≡ row = ground (arith, h.found) in
          inl (
            Skips-subject (subject row.task) k
              (Serves-subject t.status k t.invoice_id row.task (rw same at h.serves)))
      | inr there ↦ inr (other k t h there)
    ]
