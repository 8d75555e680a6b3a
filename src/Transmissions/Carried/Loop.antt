-- ===== src/Transmissions/Carried/Loop.antt =====
-- The worker's loop over the jobs that it has claimed.
use ifg.Base.{
  ℕ, zero, suc, Bool, true, false, Option, none, some, List, [], ◌∷◌, ltb, if◌then◌else◌, select,
  All, All-select, ◌≡◌, refl, sym, ap,
}
use ifg.Base.Dict.{lookup, Within-self, lookup-insert_self}
use ifg.Transmissions.Rows.{Job, Outbox, Outside}
use ifg.Transmissions.Repository.{put_job}
use ifg.Transmissions.Worker.{
  is_pending, insert_by_time, by_time, first_rows, claimable_jobs, handler, claimed, run_job,
  run_jobs, batch_size, process_batch,
}
use ifg.Transmissions.Carried.{subject, Carried, put_job-Carried}
use ifg.Transmissions.Carried.Batch.{
  TasksFrom, TasksFrom-refl, TasksFrom-trans, put_job-TasksFrom, Ran, run_or_fail-Ran,
}

claimed_row :
    (j : ℕ) (job : Job) (out : Outside) (s : Outbox)
    → lookup j (put_job j (claimed out job) s).jobs ≡ some (claimed out job)
unfolding put_job
claimed_row j job out s = lookup-insert_self j (claimed out job) s.jobs

in_hand_same : (s : Outbox) (o o' : Option ℕ) → o ≡ o' → Carried o s → Carried o' s
in_hand_same s o o' e c = rw e at c

run_job-Ran :
    (j : ℕ) (row job : Job) (out : Outside) (s : Outbox)
    → Carried none s
    → lookup j s.jobs ≡ some row
    → row.task ≡ job.task
    → Ran s (run_job out j job s)
unfolding run_job
run_job-Ran j row job out s c e same =
    let s1 = put_job j (claimed out job) s in
    let taken : Carried (subject job.task) s1 =
      in_hand_same s1 _ _ (ap subject same) (put_job-Carried j row (claimed out job) s c e) in
    let (carried, later) =
      run_or_fail-Ran (handler out job.task) j (claimed out job) out s1 refl
        (claimed_row j job out s) (λ busy. cc) taken in
    (
      carried,
      TasksFrom-trans s s1 _ (put_job-TasksFrom j row (claimed out job) s e (sym same)) later,
    )

run_jobs-Ran :
    (start : Outbox) (out : ℕ → Outside) (jobs : List (ℕ × Job)) (s : Outbox)
    → All (λ e. lookup e.0 start.jobs ≡ some e.1) jobs
    → TasksFrom start s
    → Carried none s
    → Carried none (run_jobs out jobs s)
unfolding run_jobs
run_jobs-Ran start out [] s known f c = c
run_jobs-Ran start out ((j, job) ∷ jobs) s known f c =
    let (row, found, same) = f.at j job known.0 in
    let (carried, later) = run_job-Ran j row job (out j) s c found same in
    run_jobs-Ran start out jobs (run_job (out j) j job s) known.1
      (TasksFrom-trans start s _ f later) carried

module _ (P : ℕ × Job → Type 0) where
  All-insert_by_time :
      (x : ℕ × Job) (xs : List (ℕ × Job)) → P x → All P xs → All P (insert_by_time x xs)
  All-insert_by_time x [] p h = (p, tt)
  All-insert_by_time x (y ∷ ys) p h =
      by_test (ltb y.1.available_at x.1.available_at) (All-insert_by_time x ys p h.1)
    where
      by_test :
          (b : Bool)
          → All P (insert_by_time x ys)
          → All P (if b then y ∷ insert_by_time x ys else x ∷ y ∷ ys)
      by_test true rest = (h.0, rest)
      by_test false rest = (p, h)

  All-by_time : (xs : List (ℕ × Job)) → All P xs → All P (by_time xs)
  All-by_time [] h = tt
  All-by_time (x ∷ xs) h = All-insert_by_time x (by_time xs) h.0 (All-by_time xs h.1)

  All-first_rows : (n : ℕ) (xs : List (ℕ × Job)) → All P xs → All P (first_rows n xs)
  All-first_rows zero xs h = tt
  All-first_rows (suc n) [] h = tt
  All-first_rows (suc n) (x ∷ xs) h = (h.0, All-first_rows n xs h.1)

pub process_batch-Carried :
    (out : ℕ → Outside) (s : Outbox) → Carried none s → Carried none (process_batch out s)
unfolding process_batch claimable_jobs
process_batch-Carried out s c =
    run_jobs-Ran s out (first_rows batch_size (by_time (select is_pending s.jobs))) s
      (All-first_rows P batch_size _
        (All-by_time P _ (All-select P is_pending s.jobs (Within-self s.jobs c.jobs_distinct))))
      (TasksFrom-refl s) c
  where
    P : ℕ × Job → Type 0
    P e = lookup e.0 s.jobs ≡ some e.1
