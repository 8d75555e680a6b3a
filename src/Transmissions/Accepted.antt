-- ===== src/Transmissions/Accepted.antt =====
-- What any requests and batches leave of the status of an invoice.
use ifg.Base.{List}
use ifg.Base.Triple.{transaction_keeps}
use ifg.Transmissions.Rows.{Outbox}
use ifg.Transmissions.Events.{Event, submit_request, retry_request, batch, handle, run, run_keeps}
use ifg.Transmissions.Lifecycle.{add_invoice-Follows, Follows, Follows-refl}
use ifg.Transmissions.Lifecycle.Requests.{submit-Follows, retry_transmission-Follows}
use ifg.Transmissions.Lifecycle.Jobs.{handle_submit-Follows, job_row}
use ifg.Transmissions.Lifecycle.Polling.{handle_poll-Follows}
use ifg.Transmissions.Worker.Keeping.{process_batch-Keeps}

handle-Follows : (s : Outbox) (e : Event) (s' : Outbox) → Follows s s' → Follows s (handle e s')
unfolding handle
handle-Follows s (submit_request out id) s' f =
    transaction_keeps (Follows s) _ s' (submit-Follows s out id) f
handle-Follows s (retry_request out id) s' f =
    transaction_keeps (Follows s) _ s' (retry_transmission-Follows s out id) f
handle-Follows s (batch out) s' f =
    process_batch-Keeps (Follows s) (handle_submit-Follows s (Follows s))
      (handle_poll-Follows s (Follows s)) (λ inv s'. add_invoice-Follows s s' inv)
      (job_row s (Follows s)) out s' f

-- Whatever requests and batches come, refused ones included, and whatever KSeF answers: every invoice
-- is still there on the same side of the trade, and its status has gone only from ready to sending,
-- from sending to accepted or rejected, and from rejected to sending.
pub run-Follows : (events : List Event) (s : Outbox) → Follows s (run events s)
run-Follows events s = run_keeps (Follows s) (handle-Follows s) events s (Follows-refl s)
