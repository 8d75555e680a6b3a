-- ===== src/Transmissions/Attempts/Bounds.antt =====
-- The bound on attempts over any requests and batches.
use ifg.Base.{ℕ, ◌≤◌, some, List, ◌≡◌}
use ifg.Base.Dict.{Dict, lookup}
use ifg.Base.Triple.{transaction_keeps}
use ifg.Invoices.Validation.{Invoice}
use ifg.Transmissions.Rows.{Transmission, Outbox}
use ifg.Transmissions.Events.{Event, submit_request, retry_request, batch, handle, run, run_keeps}
use ifg.Transmissions.Attempts.{
  AllTried, AllTried-add, AllTried-put_job, found-Tried, submit-Tried, retry_transmission-Tried,
}
use ifg.Transmissions.Attempts.Jobs.{handle_submit-Tried, handle_poll-Tried}
use ifg.Transmissions.Worker.Keeping.{process_batch-Keeps}
use ifg.Transmissions.InFlight.{unsent}

handle-Tried : (e : Event) (s : Outbox) → AllTried s → AllTried (handle e s)
unfolding handle
handle-Tried (submit_request out id) s h = transaction_keeps AllTried _ s (submit-Tried out id) h
handle-Tried (retry_request out id) s h =
    transaction_keeps AllTried _ s (retry_transmission-Tried out id) h
handle-Tried (batch out) s h =
    process_batch-Keeps AllTried (handle_submit-Tried AllTried) (handle_poll-Tried AllTried)
      AllTried-add AllTried-put_job out s h

-- From tables with invoices alone, whatever requests to send and to retry and whatever batches come: no
-- transmission is ever at an attempt below the first or above the fifth.
pub run-attempt_no :
    (next_id : ℕ) (invoices : Dict Invoice) (events : List Event) (k : ℕ) (t : Transmission)
    → lookup k (run events (unsent next_id invoices)).transmissions ≡ some t
    → (1 ≤ t.attempt_no) × (t.attempt_no ≤ 5)
run-attempt_no next_id invoices events k t found =
    found-Tried k t _
      (run_keeps AllTried handle-Tried events (unsent next_id invoices) (record { rows = tt }))
      found
