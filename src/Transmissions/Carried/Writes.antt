-- ===== src/Transmissions/Carried/Writes.antt =====
-- How each write of a table keeps the transmissions carried.
use ifg.Base.{
  ℕ, ◌<◌, ◌==◌, true, false, Option, none, some, [], ◌∷◌, ◌++◌, ◌≡◌, ◌≢◌, ◌⊎◌, inl, inr, Bool-cases,
  arith,
}
use ifg.Base.Dict.{
  lookup, lookup-append, lookup-Lacks, Below-Lacks, Below-suc, Below-insert, Below-append,
  lookup-insert_cases,
}
use ifg.Transmissions.Rows.{Transmission, Job, pending, Outbox}
use ifg.Transmissions.Repository.{put_transmission, with_transmission, add_job}
use ifg.Transmissions.Carried.{needs_job, Serves, Carrier, Skips, Carried}
use ifg.Transmissions.Carried.Kept.{add_job-Carried}

needs_of_eq :
    (row t : Transmission) → row ≡ t → needs_job row.status ≡ true → needs_job t.status ≡ true
needs_of_eq row t e h = rw (← e) h

-- The transmission in hand is put down, with a job if it needs one.
put_down :
    (id : ℕ) (t : Transmission) (s : Outbox)
    → Carried (some id) s
    → id < s.next_id
    → (needs_job t.status ≡ true → Carrier id t s.jobs)
    → Carried none (put_transmission id t s)
unfolding put_transmission
put_down id t s c below own = record {
  jobs_below = c.jobs_below;
  jobs_distinct = c.jobs_distinct;
  rows_below = Below-insert s.next_id id t s.transmissions c.rows_below below;
  carried =
      λ k row found needs. by_key k row needs (lookup-insert_cases k id t s.transmissions found);
}
  where
    still :
        (k : ℕ) (row : Transmission)
        → k ≢ id
        → (k ≡ id) ⊎ Carrier k row s.jobs
        → ⊥ ⊎ Carrier k row s.jobs
    still k row other (inl e) = absurd (other e)
    still k row other (inr h) = inr h

    by_key :
        (k : ℕ) (row : Transmission)
        → needs_job row.status ≡ true
        → ((k ≡ id) × (row ≡ t)) ⊎ ((k ≢ id) × (lookup k s.transmissions ≡ some row))
        → ⊥ ⊎ Carrier k row s.jobs
    by_key k row needs (inl (here, same)) =
        inr (rw (here, same) (own (needs_of_eq row t same needs)))
    by_key k row needs (inr (other, found)) = still k row other (c.carried k row found needs)

pub put_done-Carried :
    (id : ℕ) (t : Transmission) (s : Outbox)
    → Carried (some id) s
    → id < s.next_id
    → needs_job t.status ≡ false
    → Carried none (put_transmission id t s)
put_done-Carried id t s c below idle = put_down id t s c below (λ needs. cc)

pub put_waiting-Carried :
    (id : ℕ) (t : Transmission) (job : Job) (s : Outbox)
    → Carried (some id) s
    → id < s.next_id
    → job.status ≡ pending
    → Serves t.status id t.invoice_id job.task
    → Carried none (add_job job (put_transmission id t s))
unfolding add_job put_transmission
put_waiting-Carried id t job s c below waits serves =
    put_down id t (add_job job s) (add_job-Carried (some id) s c job) (omega arith) λ _. record {
      key = s.next_id;
      job = job;
      found = ground (
        arith,
        lookup-append s.next_id s.next_id job s.jobs
            (lookup-Lacks s.next_id s.jobs (Below-Lacks s.next_id s.jobs c.jobs_below)),
      );
      waits = waits;
      serves = serves;
    }

-- A new transmission is in hand until it has its job.
pub with_transmission-Carried :
    (t : Transmission) (s : Outbox)
    → Carried none s
    → Carried (some s.next_id) (with_transmission t s)
with_transmission-Carried t s c = record {
  jobs_below = Below-suc s.next_id s.jobs c.jobs_below;
  jobs_distinct = c.jobs_distinct;
  rows_below = Below-append s.next_id t s.transmissions c.rows_below;
  carried = λ k row found needs. by_key k row needs found (Bool-cases (k == s.next_id));
}
  where
    old :
        (k : ℕ) (row : Transmission)
        → (k == s.next_id) ≡ false
        → lookup k (s.transmissions ++ (s.next_id, t) ∷ []) ≡ some row
        → lookup k s.transmissions ≡ some row
    old k row there found = ground (
      arith,
      lookup-append s.next_id k t s.transmissions (
          lookup-Lacks s.next_id s.transmissions
            (Below-Lacks s.next_id s.transmissions c.rows_below)),
    )

    still :
        (k : ℕ) (row : Transmission)
        → ⊥ ⊎ Carrier k row s.jobs
        → (k ≡ s.next_id) ⊎ Carrier k row s.jobs
    still k row (inl wrong) = absurd wrong
    still k row (inr h) = inr h

    by_key :
        (k : ℕ) (row : Transmission)
        → needs_job row.status ≡ true
        → lookup k (s.transmissions ++ (s.next_id, t) ∷ []) ≡ some row
        → ((k == s.next_id) ≡ true) ⊎ ((k == s.next_id) ≡ false)
        → (k ≡ s.next_id) ⊎ Carrier k row s.jobs
    by_key k row needs found (inl here) = inl (ground arith)
    by_key k row needs found (inr there) =
        still k row (c.carried k row (old k row there found) needs)

-- A row that is in hand already may be written, and one may be taken in hand.
pub put_in_hand-Carried :
    (id : ℕ) (t : Transmission) (in_hand : Option ℕ) (s : Outbox)
    → Carried in_hand s
    → ((k : ℕ) → Skips in_hand k → k ≡ id)
    → id < s.next_id
    → Carried (some id) (put_transmission id t s)
unfolding put_transmission
put_in_hand-Carried id t in_hand s c own below = record {
  jobs_below = c.jobs_below;
  jobs_distinct = c.jobs_distinct;
  rows_below = Below-insert s.next_id id t s.transmissions c.rows_below below;
  carried =
      λ k row found needs. by_key k row needs (lookup-insert_cases k id t s.transmissions found);
}
  where
    still :
        (k : ℕ) (row : Transmission)
        → Skips in_hand k ⊎ Carrier k row s.jobs
        → (k ≡ id) ⊎ Carrier k row s.jobs
    still k row (inl e) = inl (own k e)
    still k row (inr h) = inr h

    by_key :
        (k : ℕ) (row : Transmission)
        → needs_job row.status ≡ true
        → ((k ≡ id) × (row ≡ t)) ⊎ ((k ≢ id) × (lookup k s.transmissions ≡ some row))
        → (k ≡ id) ⊎ Carrier k row s.jobs
    by_key k row needs (inl (here, same)) = inl here
    by_key k row needs (inr (other, found)) = still k row (c.carried k row found needs)
