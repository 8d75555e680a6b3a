-- ===== src/Transmissions/Carried/Kept.antt =====
-- Writes to the table of jobs that take no carrier away.
use ifg.Base.{
  ℕ, ◌==◌, Option, none, some, [], ◌∷◌, ◌++◌, ◌≡◌, ◌≢◌, ◌⊎◌, inl, inr, Bool-cases, arith,
}
use ifg.Base.Dict.{
  Dict, lookup, insert, Below, lookup-insert, lookup-append, lookup-Lacks, Below-Lacks, Below-suc,
  Below-insert, lookup-Below, Distinct-insert, Distinct-append, Below-append,
}
use ifg.Invoices.Validation.{Invoice}
use ifg.Transmissions.Rows.{Transmission, Job, pending, Outbox, AuditEvent}
use ifg.Transmissions.Repository.{add_job, put_job, put_invoice, add_invoice, record_event}
use ifg.Transmissions.Carried.{Carrier, Carried}

-- Between the tables of jobs, every carrier of the first is one of the second.
abbrev AllKept : Dict Job → Dict Job → Type 0
AllKept before after = (k : ℕ) (t : Transmission) → Carrier k t before → Carrier k t after

or_kept :
    {A : Type 0} (before after : Dict Job)
    → AllKept before after
    → (k : ℕ) (t : Transmission) → A ⊎ Carrier k t before
    → A ⊎ Carrier k t after
or_kept before after keep k t (inl a) = inl a
or_kept before after keep k t (inr h) = inr (keep k t h)

appended-AllKept :
    (n : ℕ) (job : Job) (jobs : Dict Job) → Below n jobs → AllKept jobs (jobs ++ (n, job) ∷ [])
appended-AllKept n job jobs below k t h = record {
  key = h.key;
  job = h.job;
  found = ground (
    arith,
    lookup-append n h.key job jobs (lookup-Lacks n jobs (Below-Lacks n jobs below)),
    h.found,
    lookup-Below n h.key h.job jobs below,
  );
  waits = h.waits;
  serves = h.serves;
}

-- The job with the key is not pending, so a write of its row takes nothing away.
rewritten-AllKept :
    (j : ℕ) (row new : Job) (jobs : Dict Job)
    → lookup j jobs ≡ some row
    → row.status ≢ pending
    → AllKept jobs (insert j new jobs)
rewritten-AllKept j row new jobs e busy k t h = elim (Bool-cases (h.key == j)) [
  | inl here ↦
      let same : h.job ≡ row = ground (arith, h.found) in absurd (busy (rw same at h.waits))
  | inr there ↦ record {
    key = h.key;
    job = h.job;
    found = ground (arith, lookup-insert j h.key new jobs, h.found);
    waits = h.waits;
    serves = h.serves;
  }
]

pub settled-Carried :
    (j : ℕ) (row new : Job) (s : Outbox)
    → Carried none s
    → lookup j s.jobs ≡ some row
    → row.status ≢ pending
    → Carried none (put_job j new s)
unfolding put_job
settled-Carried j row new s c e busy = record {
  jobs_below =
      Below-insert s.next_id j new s.jobs c.jobs_below
        (lookup-Below s.next_id j row s.jobs c.jobs_below e);
  jobs_distinct = Distinct-insert j new s.jobs c.jobs_distinct;
  rows_below = c.rows_below;
  carried = λ k t found needs.
      or_kept s.jobs _ (rewritten-AllKept j row new s.jobs e busy) k t (c.carried k t found needs);
}

module _ (in_hand : Option ℕ) (s : Outbox) (c : Carried in_hand s) where
  pub add_job-Carried : (job : Job) → Carried in_hand (add_job job s)
  unfolding add_job
  add_job-Carried job = record {
    jobs_below = Below-append s.next_id job s.jobs c.jobs_below;
    jobs_distinct =
        Distinct-append s.next_id job s.jobs c.jobs_distinct
          (Below-Lacks s.next_id s.jobs c.jobs_below);
    rows_below = Below-suc s.next_id s.transmissions c.rows_below;
    carried = λ k t found needs.
        or_kept s.jobs _ (appended-AllKept s.next_id job s.jobs c.jobs_below) k t
          (c.carried k t found needs);
  }

  pub put_invoice-Carried : (id : ℕ) (inv : Invoice) → Carried in_hand (put_invoice id inv s)
  unfolding put_invoice
  put_invoice-Carried id inv = record {
    jobs_below = c.jobs_below;
    jobs_distinct = c.jobs_distinct;
    rows_below = c.rows_below;
    carried = c.carried;
  }

  pub record_event-Carried : (event : AuditEvent) → Carried in_hand (record_event event s)
  unfolding record_event
  record_event-Carried event = record {
    jobs_below = c.jobs_below;
    jobs_distinct = c.jobs_distinct;
    rows_below = c.rows_below;
    carried = c.carried;
  }

  pub add_invoice-Carried : (inv : Invoice) → Carried in_hand (add_invoice inv s)
  unfolding add_invoice
  add_invoice-Carried inv = record {
    jobs_below = Below-suc s.next_id s.jobs c.jobs_below;
    jobs_distinct = c.jobs_distinct;
    rows_below = Below-suc s.next_id s.transmissions c.rows_below;
    carried = c.carried;
  }
