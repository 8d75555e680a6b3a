-- ===== src/Transmissions/Poll.antt =====
-- `PollKSeFStatusJobHandler` of app/worker/job_handlers/poll_ksef_status.py.
use ifg.Base.{ℕ, ◌+◌, Bool, true, false, ◌||◌, Option, none, some, [], ◌∷◌, ◌==◌, if◌then◌else◌}
use ifg.Base.Dict.{lookup}
use ifg.Base.Exec.{Exec, ◌>>=◌, ◌>>◌, pure, gets, modify}
use ifg.Invoices.Items.{Chars, is_blank}
use ifg.Invoices.Validation.{Invoice, is_falsy, seller_nip}
use ifg.Transmissions.Rows.{
  TransmissionStatus, waiting_status, success, failed_permanent, http_status, fetched, failed,
  Transmission, poll_ksef_status, Outbox, Outside, Answer, answered, raised, Bytes, StatusResult,
}
use ifg.Transmissions.Repository.{put_transmission, new_job, add_job}
use ifg.Transmissions.Sync.{sync_invoice_from_terminal_transmission}

-- _PERMANENT_ERROR_CODES
abbrev is_permanent_code : ℕ → Bool
is_permanent_code code = code == 400 || code == 401 || code == 403 || code == 404 || code == 422

-- _POLL_RETRY_DELAY_SECONDS
abbrev poll_retry_delay_seconds : ℕ
poll_retry_delay_seconds = 30

-- `transmission.status = WAITING_STATUS`, and `_schedule_retry`
unfoldable pub wait_and_retry : Outside → ℕ → Transmission → Chars → Outbox → Outbox
wait_and_retry out id t reference s =
    add_job
      (new_job (poll_ksef_status id reference none) (out.later + poll_retry_delay_seconds)
        out.later)
      (put_transmission id (record t { status = waiting_status }) s)

abbrev upo_failed : Transmission → Transmission
upo_failed t = record t { upo_status = some failed }

abbrev with_upo : Transmission → Answer Bytes → Transmission
with_upo t (raised e) = upo_failed t
with_upo t (answered []) = upo_failed t
with_upo t (answered (b ∷ bs)) = record t { upo_xml = some (b ∷ bs); upo_status = some fetched }

abbrev fetched_from : Outside → Transmission → Option Chars → Transmission
fetched_from out t none = upo_failed t
fetched_from out t (some url) = if is_blank url then upo_failed t else with_upo t (out.upo url)

-- `_fetch_and_save_upo`
abbrev pub fetch_and_save_upo : Outside → Transmission → Option Chars → Option Chars → Transmission
fetch_and_save_upo out t reference upo_url =
    if is_falsy reference then upo_failed t else fetched_from out t upo_url

abbrev pub succeeded : Outside → StatusResult → Transmission → Transmission
succeeded out r t = record t {
  status = success;
  ksef_reference_number = r.ksef_reference_number;
  finished_at = some out.later;
}

abbrev refused : Outside → StatusResult → Transmission → Transmission
refused out r t = record t {
  status = failed_permanent;
  error_code = some (http_status r.processing_code);
  finished_at = some out.later;
}

-- What the processing code says
pub data Verdict : Type 0 where
  confirmed turned_down in_queue : Verdict

abbrev pub verdict : ℕ → Verdict
verdict code =
    if code == 200 then confirmed else if is_permanent_code code then turned_down else in_queue

abbrev pub poll_by_verdict :
    Verdict → Outside → ℕ → Transmission → Chars → StatusResult → Exec Outbox (Unit {0})
poll_by_verdict confirmed out id t reference r = do
  sync_invoice_from_terminal_transmission t.invoice_id success r.ksef_reference_number
  modify (
      put_transmission id
        (fetch_and_save_upo out (succeeded out r t) r.ksef_reference_number r.upo_url))
poll_by_verdict turned_down out id t reference r = do
  sync_invoice_from_terminal_transmission t.invoice_id failed_permanent none
  modify (put_transmission id (refused out r t))
poll_by_verdict in_queue out id t reference r = modify (wait_and_retry out id t reference)

-- The part of `handle` after KSeF has answered
unfoldable pub poll_answered :
    Outside → ℕ → Transmission → Chars → StatusResult → Exec Outbox (Unit {0})
poll_answered out id t reference r =
    poll_by_verdict (verdict r.processing_code) out id t reference r

abbrev pub poll_by_answer :
    Outside → ℕ → Transmission → Chars → Answer StatusResult → Exec Outbox (Unit {0})
poll_by_answer out id t reference (raised e) = modify (wait_and_retry out id t reference)
poll_by_answer out id t reference (answered r) = poll_answered out id t reference r

abbrev pub status_in_context : Outside → Chars → Answer (Unit {0}) → Answer StatusResult
status_in_context out reference (raised e) = raised e
status_in_context out reference (answered _) = out.invoice_status reference

-- `(invoice.seller_snapshot if invoice else {}).get("nip", "") if invoice else ""`
abbrev pub nip_of : Option Invoice → Chars
nip_of none = []
nip_of (some inv) = seller_nip inv.seller_snapshot.nip

unfoldable pub poll_one : Outside → ℕ → Transmission → Chars → Exec Outbox (Unit {0})
unfolding poll_answered
poll_one out id t reference = do
  invoice ← gets (λ s. lookup t.invoice_id s.invoices)
  poll_by_answer out id t reference (status_in_context out reference (out.context (nip_of invoice)))

abbrev pub is_final_transmission : TransmissionStatus → Bool
is_final_transmission success = true
is_final_transmission failed_permanent = true
is_final_transmission _ = false

abbrev pub poll_or_skip : Outside → ℕ → Chars → Option Transmission → Exec Outbox (Unit {0})
poll_or_skip out id reference none = pure tt
poll_or_skip out id reference (some t) =
    if is_final_transmission t.status
    then sync_invoice_from_terminal_transmission t.invoice_id t.status t.ksef_reference_number
    else poll_one out id t reference

-- `PollKSeFStatusJobHandler.handle`
unfoldable pub handle_poll : Outside → ℕ → Chars → Exec Outbox (Unit {0})
unfolding poll_one
handle_poll out id reference = do
  found ← gets (λ s. lookup id s.transmissions)
  poll_or_skip out id reference found
