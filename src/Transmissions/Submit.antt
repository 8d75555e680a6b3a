-- ===== src/Transmissions/Submit.antt =====
-- `SubmitInvoiceJobHandler` of app/worker/job_handlers/submit_invoice.py. `get_by_id` gives a copy of
-- the invoice, which the handlers of errors change and do not write back: it is their result.
pub mod Outage
use ifg.Base.{
  ℕ, ◌+◌, ◌-◌, ◌*◌, ◌^◌, Bool, true, false, ◌&&◌, Option, none, some, ltb, leb, ◌==◌, if◌then◌else◌,
}
use ifg.Base.Dict.{lookup}
use ifg.Base.Exec.{Exec, Result, ok, err, ◌>>=◌, ◌>>◌, pure, gets, modify}
use ifg.Invoices.Items.{Chars, is_blank}
use ifg.Invoices.Validation.{
  Invoice, InvoiceStatus, ready_for_submission, sending, accepted, rejected, is_sale, seller_nip,
  validate_sale_formal_requirements,
}
use ifg.Invoices.Status.{with_status}
use ifg.Transmissions.Rows.{
  TransmissionStatus, processing, submitted, failed_temporary, failed_retryable, failed_permanent,
  ErrorCode, invoice_not_found, no_ksef_session, ksef_not_connected, session_expired, mapping_error,
  sale_formal_invalid, internal_error, unknown, http_status, Transmission, submit_invoice,
  poll_ksef_status, Outbox, Outside, Connection, offline, KsefError, mapping, not_found,
  not_connected, expired_token, invalid_invoice, unexpected, client_error, Answer, answered, raised,
  Bytes,
}
use ifg.Transmissions.Repository.{put_transmission, new_job, add_job}
use ifg.Transmissions.Sync.{sync_invoice_from_terminal_transmission}

-- _MAX_AUTO_RETRY_ATTEMPTS
abbrev max_auto_retry_attempts : ℕ
max_auto_retry_attempts = 5

abbrev min : ℕ → ℕ → ℕ
min a b = if leb a b then a else b

-- `_backoff_minutes`; the first attempt is number 1.
abbrev backoff_minutes : ℕ → ℕ
backoff_minutes attempt_no = 2 ^ min (attempt_no - 1) 4

-- `_return_invoice_to_ready_for_submission`, on the handler's copy
abbrev returned_by_status : InvoiceStatus → Invoice → Invoice
returned_by_status sending inv = with_status ready_for_submission inv
returned_by_status _ inv = inv

abbrev return_invoice_to_ready_for_submission : Invoice → Invoice
return_invoice_to_ready_for_submission inv = returned_by_status inv.status inv

pub record Sent : Type 0 where
  pub reference_number : Chars
  pub idempotency_key : ℕ
  pub xml_bytes : Bytes

abbrev sent_as : ℕ → Bytes → Answer Chars → Answer Sent
sent_as key xml (raised e) = raised e
sent_as key xml (answered reference) =
    answered (record { reference_number = reference; idempotency_key = key; xml_bytes = xml })

abbrev send_hashed : Outside → Bytes → Option ℕ → Answer Sent
send_hashed out xml none = raised mapping
send_hashed out xml (some key) = sent_as key xml (out.send xml)

abbrev send_xml : Outside → Option Bytes → Answer Sent
send_xml out none = raised mapping
send_xml out (some xml) = send_hashed out xml (out.content_hash xml)

abbrev send_in_context : Outside → Invoice → Answer (Unit {0}) → Answer Sent
send_in_context out inv (raised e) = raised e
send_in_context out inv (answered _) = send_xml out (out.to_xml inv)

abbrev is_offline : Connection → Bool
is_offline offline = true
is_offline _ = false

abbrev formally_valid : Invoice → Result (Unit {0})
formally_valid inv =
    if is_sale inv.direction then validate_sale_formal_requirements true inv else ok tt

abbrev send_valid : Outside → Invoice → Result (Unit {0}) → Answer Sent
send_valid out inv (err _) = raised invalid_invoice
send_valid out inv (ok _) =
    let nip = seller_nip inv.seller_snapshot.nip in
    if is_blank nip
    then raised mapping
    else if is_offline (out.connection nip)
    then raised not_connected
    else send_in_context out inv (out.context nip)

-- `_submit_invoice_to_ksef`
unfoldable pub submit_invoice_to_ksef : Outside → Invoice → Answer Sent
submit_invoice_to_ksef out inv = send_valid out inv (formally_valid inv)

-- `_mark_submitted`
unfoldable pub mark_submitted : Outside → ℕ → Transmission → Sent → Outbox → Outbox
mark_submitted out id t sent s =
    add_job
      (new_job (poll_ksef_status id sent.reference_number (some sent.idempotency_key)) out.now
        out.now)
      (put_transmission id
        (record t {
          status = submitted;
          external_reference = some sent.reference_number;
          xml_content = some sent.xml_bytes;
          finished_at = some out.later;
        })
        s)

abbrev pub with_failure : TransmissionStatus → ErrorCode → ℕ → Transmission → Transmission
with_failure status code at t = record t {
  status = status;
  error_code = some code;
  finished_at = some at;
}

-- `_mark_retryable_failure`
unfoldable pub mark_retryable_failure : Outside → ℕ → Transmission → ErrorCode → Outbox → Outbox
mark_retryable_failure out id t code =
    put_transmission id (with_failure failed_retryable code out.later t)

-- `_mark_permanent_failure`
unfoldable pub mark_permanent_failure :
    Outside → ℕ → Transmission → ErrorCode → Exec Outbox (Unit {0})
mark_permanent_failure out id t code = do
  modify (put_transmission id (with_failure failed_permanent code out.later t))
  sync_invoice_from_terminal_transmission t.invoice_id failed_permanent none

abbrev pub retry_time : Outside → Transmission → ℕ
retry_time out t = out.later + 60 * backoff_minutes t.attempt_no

-- `_mark_temporary_failure_and_retry`, with `_enqueue_submit_retry_job`
unfoldable pub mark_temporary_failure_and_retry :
    Outside → ℕ → Transmission → ErrorCode → Outbox → Outbox
mark_temporary_failure_and_retry out id t code s =
    add_job (new_job (submit_invoice id t.invoice_id) (retry_time out t) out.later) (
      put_transmission id
        (record (with_failure failed_temporary code out.later t) {
          attempt_no = t.attempt_no + 1;
          next_retry_at = some (retry_time out t);
        })
        s)

abbrev pub code_text : Option ℕ → ErrorCode
code_text none = unknown
code_text (some status) = if status == 0 then unknown else http_status status

-- Another attempt on its own, or FAILED_PERMANENT
abbrev pub retry_or_fail : Bool → Outside → ℕ → Transmission → ErrorCode → Exec Outbox (Unit {0})
retry_or_fail true out id t code = modify (mark_temporary_failure_and_retry out id t code)
retry_or_fail false out id t code = mark_permanent_failure out id t code

-- The `except` clauses of `handle`, by the exception
unfoldable pub handle_error : Outside → ℕ → Transmission → Invoice → KsefError → Exec Outbox Invoice
handle_error out id t inv mapping = do mark_permanent_failure out id t mapping_error; pure inv
handle_error out id t inv not_found = do
  modify (mark_retryable_failure out id t no_ksef_session)
  pure (return_invoice_to_ready_for_submission inv)
handle_error out id t inv not_connected = do
  modify (mark_retryable_failure out id t ksef_not_connected)
  pure (return_invoice_to_ready_for_submission inv)
handle_error out id t inv expired_token = do
  modify (mark_retryable_failure out id t session_expired)
  pure (return_invoice_to_ready_for_submission inv)
handle_error out id t inv invalid_invoice = do
  mark_permanent_failure out id t sale_formal_invalid
  pure inv
handle_error out id t inv (client_error status transient) = do
  let again = transient && ltb t.attempt_no max_auto_retry_attempts
  retry_or_fail again out id t (code_text status)
  pure (if again then return_invoice_to_ready_for_submission inv else inv)
handle_error out id t inv unexpected = do
  retry_or_fail (ltb t.attempt_no max_auto_retry_attempts) out id t internal_error
  pure inv

abbrev pub conclude : Outside → ℕ → Transmission → Invoice → Answer Sent → Exec Outbox Invoice
conclude out id t inv (answered sent) = modify (mark_submitted out id t sent) >> pure inv
conclude out id t inv (raised e) = handle_error out id t inv e

abbrev pub started : Outside → Transmission → Transmission
started out t = record t { status = processing; started_at = some out.now }

-- `handle` for a transmission and an invoice, or none where the row is missing
abbrev pub submit_found : Outside → ℕ → Transmission → Option Invoice → Exec Outbox (Unit {0})
submit_found out id t none =
    modify (put_transmission id (with_failure failed_permanent invoice_not_found out.later t))
submit_found out id t (some inv) = conclude out id t inv (submit_invoice_to_ksef out inv) >> pure tt

unfoldable pub submit_one : Outside → ℕ → ℕ → Transmission → Exec Outbox (Unit {0})
unfolding submit_invoice_to_ksef handle_error
submit_one out id invoice_id t = do
  modify (put_transmission id (started out t))
  invoice ← gets (λ s. lookup invoice_id s.invoices)
  submit_found out id (started out t) invoice

abbrev pub submit_or_skip : Outside → ℕ → ℕ → Option Transmission → Exec Outbox (Unit {0})
submit_or_skip out id invoice_id none = pure tt
submit_or_skip out id invoice_id (some t) = submit_one out id invoice_id t

-- `SubmitInvoiceJobHandler.handle`
unfoldable pub handle_submit : Outside → ℕ → ℕ → Exec Outbox (Unit {0})
unfolding submit_one
handle_submit out id invoice_id = do
  found ← gets (λ s. lookup id s.transmissions)
  submit_or_skip out id invoice_id found
