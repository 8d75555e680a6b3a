-- ===== src/Transmissions/InFlight.antt =====
-- The jobs that transmissions wait for, over the requests and the batches of app/worker/__main__.py.
use ifg.Base.{ℕ, none, some, List, ◌≡◌, ◌⊎◌, inl, inr, true, []}
use ifg.Base.Dict.{Dict, lookup}
use ifg.Base.Triple.{transaction_keeps}
use ifg.Invoices.Validation.{Invoice}
use ifg.Transmissions.Rows.{Transmission, Outbox}
use ifg.Transmissions.Events.{Event, submit_request, retry_request, batch, handle, run, run_keeps}
use ifg.Transmissions.Carried.{needs_job, Carrier, Carried}
use ifg.Transmissions.Carried.Requests.{submit-Carried}
use ifg.Transmissions.Carried.Retries.{retry_transmission-Carried}
use ifg.Transmissions.Carried.Loop.{process_batch-Carried}

handle-Carried : (e : Event) (s : Outbox) → Carried none s → Carried none (handle e s)
unfolding handle
handle-Carried (submit_request out id) s c =
    transaction_keeps (Carried none) _ s (submit-Carried out id) c
handle-Carried (retry_request out id) s c =
    transaction_keeps (Carried none) _ s (retry_transmission-Carried out id) c
handle-Carried (batch out) s c = process_batch-Carried out s c

-- The tables with invoices alone
abbrev pub unsent : ℕ → Dict Invoice → Outbox
unsent next_id invoices = record {
  next_id = next_id;
  transmissions = [];
  invoices = invoices;
  jobs = [];
  audit = [];
}

unsent-Carried : (next_id : ℕ) (invoices : Dict Invoice) → Carried none (unsent next_id invoices)
unsent-Carried next_id invoices = record {
  jobs_below = tt;
  jobs_distinct = tt;
  rows_below = tt;
  carried = λ k t found needs. cc;
}

-- From tables with invoices alone, whatever requests and batches come, refused ones included, and
-- whatever KSeF answers: a transmission that is queued or has failed temporarily has a pending job
-- that will send it, one that was submitted or waits for its status has a pending job that will ask
-- for it, and none is left in processing.
pub run-Carrier :
    (next_id : ℕ) (invoices : Dict Invoice) (events : List Event) (k : ℕ) (t : Transmission)
    → lookup k (run events (unsent next_id invoices)).transmissions ≡ some t
    → needs_job t.status ≡ true
    → Carrier k t (run events (unsent next_id invoices)).jobs
run-Carrier next_id invoices events k t found needs = only (
    (run_keeps (Carried none) handle-Carried events (unsent next_id invoices)
        (unsent-Carried next_id invoices)).carried
      k t found needs)
  where
    only :
        ⊥ ⊎ Carrier k t (run events (unsent next_id invoices)).jobs
        → Carrier k t (run events (unsent next_id invoices)).jobs
    only (inl wrong) = absurd wrong
    only (inr c) = c
