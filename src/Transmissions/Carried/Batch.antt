-- ===== src/Transmissions/Carried/Batch.antt =====
-- A batch of the worker leaves every transmission carried.
use ifg.Base.{
  ℕ, ◌==◌, Bool, true, false, Option, none, some, List, [], ◌∷◌, if◌then◌else◌, ◌≡◌, ◌≢◌, refl, ◌∙◌,
  ◌⊎◌, inl, inr, Bool-cases, arith,
}
use ifg.Base.Dict.{lookup, insert, lookup-insert}
use ifg.Base.Exec.{Exec, Result, ok, err, ◌>>◌, pure}
use ifg.Base.Triple.{Post, Triple, Post, Triple-pure, Triple-raise, Triple-bind}
use ifg.Invoices.Items.{Chars}
use ifg.Invoices.Validation.{Invoice}
use ifg.Transmissions.Rows.{
  Task, submit_invoice, poll_ksef_status, sync_purchase_invoices, unknown_type, Job, pending,
  Outbox, Outside, Received, Answer, answered, raised,
}
use ifg.Transmissions.Repository.{put_job, add_invoice, exists_by_ksef_number}
use ifg.Transmissions.Submit.{handle_submit}
use ifg.Transmissions.Poll.{handle_poll}
use ifg.Transmissions.Import.{
  Counts, one_more_existing, save_parsed, import_one, import_all, no_counts, import_answer,
  import_in_context, sync_received_invoices,
}
use ifg.Transmissions.Worker.{handler, settled, run_or_fail}
use ifg.Transmissions.Carried.{subject, Carried}
use ifg.Transmissions.Carried.Kept.{settled-Carried, add_invoice-Carried}
use ifg.Transmissions.Carried.Handlers.{JobsFrom, Free, handle_submit-Free}
use ifg.Transmissions.Carried.Polling.{handle_poll-Free}

-- The import only adds invoices.
import_one-Free :
    (before : Outbox) (r : Received) (c : Counts) (s : Outbox)
    → Free before s
    → Free before (import_one r c s).1
unfolding import_one add_invoice
import_one-Free before r c s f =
    by_test (exists_by_ksef_number r.ksef_reference_number s.invoices) r.parsed
  where
    by_test :
        (held : Bool) (parsed : Option Invoice)
        → Free before (if held then (one_more_existing c, s) else save_parsed r parsed c s).1
    by_test true parsed = f
    by_test false none = f
    by_test false (some inv) = (add_invoice-Carried none s f.0 _, record { at = f.1.at })

import_all-Free :
    (before : Outbox) (rs : List Received) (c : Counts) (s : Outbox)
    → Free before s
    → Free before (import_all rs c s).1
unfolding import_all
import_all-Free before [] c s f = f
import_all-Free before (r ∷ rs) c s f =
    import_all-Free before rs (import_one r c s).0 (import_one r c s).1
      (import_one-Free before r c s f)

sync_received_invoices-Free :
    (before : Outbox) (out : Outside) (nip : Chars)
    → Triple (Free before) (λ _. Free before) (Free before) (sync_received_invoices out nip)
unfolding sync_received_invoices
sync_received_invoices-Free before out nip = in_context (out.context nip)
  where
    by_answer :
        (a : Answer (List Received))
        → Triple (Free before) (λ _. Free before) (Free before) (import_answer a)
    by_answer (raised e) = Triple-raise _ (λ _ f. f)
    by_answer (answered rs) = record { at = λ s f. import_all-Free before rs no_counts s f }

    in_context :
        (a : Answer (Unit {0}))
        → Triple (Free before) (λ _. Free before) (Free before) (import_in_context out nip a)
    in_context (raised e) = Triple-raise _ (λ _ f. f)
    in_context (answered _) = by_answer (out.received nip)

-- From the state in which the job has been claimed
handler-Free :
    (before : Outbox) (out : Outside) (task : Task) (m : Exec Outbox (Unit {0}))
    → handler out task ≡ some m
    → Triple (λ s. Carried (subject task) s × JobsFrom before s) (λ _. Free before) (Free before) m
handler-Free before out (submit_invoice id invoice_id) m e =
    let same : handle_submit out id invoice_id ≡ m = cc in
    rw (← same) (handle_submit-Free before (Free before) id out invoice_id)
handler-Free before out (poll_ksef_status id reference key) m e =
    let same : handle_poll out id reference ≡ m = cc in
    rw (← same) (handle_poll-Free before (Free before) id out reference)
handler-Free before out (sync_purchase_invoices nip) m e =
    let same : sync_received_invoices out nip >> pure tt ≡ m = cc in
    rw (← same) (
      Triple-bind (λ _. Free before) _ _ (sync_received_invoices-Free before out nip)
        (λ _. Triple-pure tt (λ _ f. f)))
handler-Free before out unknown_type m e = cc

-- The jobs of `s` are still there, each with its task.
pub record TasksFrom (s s' : Outbox) : Type 0 where
  pub at :
      (k : ℕ) (job : Job)
      → lookup k s.jobs ≡ some job
      → (job' : Job) × (lookup k s'.jobs ≡ some job') × (job'.task ≡ job.task)

pub TasksFrom-refl : (s : Outbox) → TasksFrom s s
TasksFrom-refl s = record { at = λ k job e. (job, e, refl) }

pub TasksFrom-trans : (a b c : Outbox) → TasksFrom a b → TasksFrom b c → TasksFrom a c
TasksFrom-trans a b c f g = record {
  at = λ k job e.
      let (mid, found, same) = f.at k job e in
      let (last, found', same') = g.at k mid found in (last, found', same' ∙ same);
}

JobsFrom-TasksFrom : (a b : Outbox) → JobsFrom a b → TasksFrom a b
JobsFrom-TasksFrom a b f = record { at = λ k job e. (job, f.at k job e, refl) }

pub put_job-TasksFrom :
    (j : ℕ) (row new : Job) (s : Outbox)
    → lookup j s.jobs ≡ some row
    → new.task ≡ row.task
    → TasksFrom s (put_job j new s)
unfolding put_job
put_job-TasksFrom j row new s e same = record {
  at = λ k job found. by_key k job found (Bool-cases (k == j));
}
  where
    by_key :
        (k : ℕ) (job : Job)
        → lookup k s.jobs ≡ some job
        → ((k == j) ≡ true) ⊎ ((k == j) ≡ false)
        → (job' : Job) × (lookup k (insert j new s.jobs) ≡ some job') × (job'.task ≡ job.task)
    by_key k job found (inl here) =
        let it : row ≡ job = ground arith in
        (new, ground (arith, lookup-insert j k new s.jobs), rw (← it) same)
    by_key k job found (inr there) = (job, ground (arith, lookup-insert j k new s.jobs), refl)

abbrev pub Ran : Outbox → Outbox → Type 0
Ran s s' = Carried none s' × TasksFrom s s'

settled-task : (r : Result (Unit {0})) (job : Job) → (settled r job).task ≡ job.task
settled-task (ok _) job = refl
settled-task (err _) job = refl

-- After the handler the claimed row is written once more.
settle-Ran :
    (j : ℕ) (job new : Job) (s s' : Outbox)
    → lookup j s.jobs ≡ some job
    → job.status ≢ pending
    → new.task ≡ job.task
    → Free s s'
    → Ran s (put_job j new s')
settle-Ran j job new s s' e busy same f =
    let here = f.1.at j job e in
    (
      settled-Carried j job new s' f.0 here busy,
      TasksFrom-trans s s' (put_job j new s') (JobsFrom-TasksFrom s s' f.1)
          (put_job-TasksFrom j job new s' here same),
    )

either :
    (before : Outbox) (r : Result (Unit {0})) (s : Outbox)
    → Post (λ _. Free before) (Free before) r s
    → Free before s
either before (ok _) s f = f
either before (err _) s f = f

pub run_or_fail-Ran :
    (o : Option (Exec Outbox (Unit {0}))) (j : ℕ) (job : Job) (out : Outside) (s : Outbox)
    → handler out job.task ≡ o
    → lookup j s.jobs ≡ some job
    → job.status ≢ pending
    → Carried (subject job.task) s
    → Ran s (run_or_fail o j job s)
run_or_fail-Ran (some m) j job out s known e busy c =
    settle-Ran j job (settled (m s).0 job) s (m s).1 e busy (settled-task (m s).0 job) (
      either s (m s).0 (m s).1
        ((handler-Free s out job.task m known).at s (c, record { at = λ k row found. found })))
run_or_fail-Ran none j job out s known e busy c =
    settle-Ran j job _ s s e busy refl
      (none_in_hand job.task known c, record { at = λ k row found. found })
  where
    none_in_hand :
        (task : Task) → handler out task ≡ none → Carried (subject task) s → Carried none s
    none_in_hand unknown_type known c = c
    none_in_hand (submit_invoice id invoice_id) known c = cc
    none_in_hand (poll_ksef_status id reference key) known c = cc
    none_in_hand (sync_purchase_invoices nip) known c = cc
