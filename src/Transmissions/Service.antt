-- ===== src/Transmissions/Service.antt =====
-- `TransmissionService.submit_invoice` and `retry_transmission` of
-- app/services/transmission_service.py, as app/api/deps.py wires the service: with the session, the
-- settings and the invoice service. `ensure_number_local` and `_assign_number_local` are those of
-- app/services/invoice_service.py.
pub mod Keeping
use ifg.Transmissions.Guards.{
  max_retry_attempts, is_retryable, is_reusable, is_rejected, is_sending, hashed, hash_of,
  build_idempotency_key, if_reusable, try_reuse_by_idempotency_key,
  try_reuse_idempotent_transmission, submission_refused, ensure_no_active_transmission,
  connection_result, ensure_ksef_session_connected,
}
use ifg.Base.{
  ℕ, ◌+◌, ◌≤◌, Bool, true, false, not, ◌&&◌, ◌||◌, Option, none, some, is_some, List, ◌∷◌, leb,
  ◌==◌, if◌then◌else◌,
}
use ifg.Base.Dict.{Dict, lookup}
use ifg.Base.Exec.{
  Exec, Result, ok, err, ◌>>=◌, ◌>>◌, pure, raise, gets, modify, or_raise, raise_if, lift,
  not_found, integrity, mapping, invalid_invoice, no_ksef_session, ksef_not_connected,
  invalid_status_transition,
}
use ifg.Numeral.{invoice_number}
use ifg.Settings.{build_company_snapshot, validate_company_snapshot}
use ifg.Invoices.Items.{Chars, is_blank}
use ifg.Invoices.Validation.{
  Invoice, InvoiceStatus, ready_for_submission, sending, accepted, rejected, InvoiceType, zal, roz,
  is_missing, is_sale, refuse_if, and_then, is_correction, seller_nip,
  validate_sale_formal_requirements, validate_vat, validate_kor, validate_zal, validate_for_ksef,
}
use ifg.Invoices.Status.{can_transition, transition_to, with_status}
use ifg.Transmissions.Rows.{
  TransmissionStatus, queued, processing, submitted, waiting_status, success, failed_temporary,
  failed_retryable, failed_permanent, Transmission, Task, submit_invoice, Outbox, Outside,
  Connection, connected, no_session, expired, offline, Bytes, transmission_created,
  transmission_retry, invoice_sending, invoice_marked_ready,
}
use ifg.Transmissions.Repository.{
  get_active_for_invoice, get_by_idempotency_key, add_transmission, put_transmission, new_job,
  add_job, update_invoice, record_event, exists_by_number, year_of, month_of,
  get_next_sequence_number,
}

abbrev is_ready : InvoiceStatus → Bool
is_ready ready_for_submission = true
is_ready _ = false

-- `except ValidationError as exc: raise InvalidInvoiceError`
abbrev as_invalid_invoice : Result (Unit {0}) → Result (Unit {0})
as_invalid_invoice (ok _) = ok tt
as_invalid_invoice (err _) = err invalid_invoice

abbrev with_company : Outside → Invoice → Invoice
with_company out inv = record inv { seller_snapshot = build_company_snapshot out.env out.row }

-- `_refresh_sale_seller_snapshot`, of a sale
unfoldable pub refresh_sale_seller_snapshot : Outside → ℕ → Invoice → Exec Outbox Invoice
refresh_sale_seller_snapshot out id inv = do
  lift (as_invalid_invoice (validate_company_snapshot (build_company_snapshot out.env out.row)))
  update_invoice id (with_company out inv)
  pure (with_company out inv)

abbrev numbered : Chars → Invoice → Invoice
numbered number inv = record inv { number_local = some number; status = ready_for_submission }

-- `_assign_number_local` of an invoice with the given date of issue
unfoldable pub assign_number_local : ℕ → Invoice → ℕ → Exec Outbox Invoice
assign_number_local id inv date = do
  seq ← gets (λ s. get_next_sequence_number (year_of date) (month_of date) s.invoices)
  let number = invoice_number (year_of date) (month_of date) seq
  taken ← gets (λ s. exists_by_number number s.invoices)
  raise_if taken integrity
  update_invoice id (numbered number inv)
  modify (record_event (invoice_marked_ready id))
  pure (numbered number inv)

-- `ensure_number_local` of a sale that has no number
unfoldable pub ensure_number_local : ℕ → Invoice → Exec Outbox Invoice
unfolding assign_number_local
ensure_number_local id inv = do
  raise_if (not (is_ready inv.status)) invalid_status_transition
  lift (validate_sale_formal_requirements false inv)
  date ← or_raise inv.issue_date invalid_invoice
  assign_number_local id inv date

-- `_prepare_sale_invoice_for_submit` of a sale
unfoldable pub prepare_sale : Outside → ℕ → Invoice → Exec Outbox Invoice
unfolding refresh_sale_seller_snapshot ensure_number_local
prepare_sale out id inv = do
  refreshed ← refresh_sale_seller_snapshot out id inv
  if is_missing refreshed.number_local then ensure_number_local id refreshed else pure refreshed

-- `_prepare_sale_invoice_for_submit`
unfoldable pub prepare_sale_invoice_for_submit : Outside → ℕ → Invoice → Exec Outbox Invoice
unfolding prepare_sale
prepare_sale_invoice_for_submit out id inv =
    if is_sale inv.direction then prepare_sale out id inv else pure inv

abbrev zal_or_roz : Invoice → InvoiceType → Result (Unit {0})
zal_or_roz inv zal = validate_zal inv zal
zal_or_roz inv roz = validate_zal inv roz
zal_or_roz inv _ = ok tt

-- `_validate_rejected_sale_resubmit`
unfoldable validate_rejected_sale_resubmit : Invoice → Result (Unit {0})
validate_rejected_sale_resubmit inv = refuse_if (not (is_sale inv.direction)) (
    and_then (validate_sale_formal_requirements true inv) (
      and_then (validate_vat inv) (
        and_then (if is_correction inv.invoice_type then validate_kor inv else ok tt)
          (zal_or_roz inv inv.invoice_type))))

-- `_validate_invoice_before_enqueue`
unfoldable pub validate_invoice_before_enqueue : Outside → Invoice → Result (Unit {0})
unfolding validate_rejected_sale_resubmit
validate_invoice_before_enqueue out inv =
    and_then
      (if is_rejected inv.status
        then validate_rejected_sale_resubmit inv
        else and_then (validate_for_ksef inv)
            (if is_sale inv.direction then validate_sale_formal_requirements true inv else ok tt))
      (ensure_ksef_session_connected out inv)

abbrev pub new_transmission : ℕ → ℕ → ℕ → Transmission
new_transmission invoice_id key now = record {
  invoice_id = invoice_id;
  status = queued;
  attempt_no = 1;
  idempotency_key = key;
  external_reference = none;
  ksef_reference_number = none;
  xml_content = none;
  upo_xml = none;
  upo_status = none;
  error_code = none;
  started_at = none;
  finished_at = none;
  next_retry_at = none;
  created_at = now;
}

-- The invoice that `_mark_invoice_as_sending` writes
abbrev pub marked_sending : Invoice → Result Invoice
marked_sending inv =
    if is_rejected inv.status then ok (with_status sending inv) else transition_to sending inv

-- `_mark_invoice_as_sending`
unfoldable pub mark_invoice_as_sending : ℕ → Invoice → Exec Outbox (Unit {0})
mark_invoice_as_sending id inv = do moved ← lift (marked_sending inv); update_invoice id moved

-- `_create_queued_transmission` and the rest of `submit_invoice`
unfoldable pub enqueue : Outside → ℕ → Invoice → ℕ → Exec Outbox ℕ
unfolding mark_invoice_as_sending
enqueue out invoice_id inv key = do
  id ← add_transmission (new_transmission invoice_id key out.now)
  mark_invoice_as_sending invoice_id inv
  modify (add_job (new_job (submit_invoice id invoice_id) out.now out.now))
  modify (record_event (transmission_created id))
  modify (record_event (invoice_sending invoice_id))
  pure id

-- `if reused is not None: return reused`, and what follows
abbrev pub reuse_or : Option ℕ → Exec Outbox ℕ → Exec Outbox ℕ
reuse_or (some id) rest = pure id
reuse_or none rest = rest

unfoldable pub submit_fresh : Outside → ℕ → Invoice → Exec Outbox ℕ
unfolding ensure_no_active_transmission prepare_sale_invoice_for_submit enqueue
    build_idempotency_key
submit_fresh out invoice_id inv = do
  raise_if (submission_refused inv) invalid_status_transition
  ensure_no_active_transmission invoice_id
  prepared ← prepare_sale_invoice_for_submit out invoice_id inv
  lift (validate_invoice_before_enqueue out prepared)
  key ← lift (build_idempotency_key out prepared)
  reused ← gets (try_reuse_by_idempotency_key key)
  reuse_or reused (enqueue out invoice_id prepared key)

abbrev reused_while_sending : Outside → Invoice → Exec Outbox (Option ℕ)
reused_while_sending out inv =
    if is_sending inv.status then try_reuse_idempotent_transmission out inv else pure none

-- `TransmissionService.submit_invoice`
unfoldable pub submit : Outside → ℕ → Exec Outbox ℕ
unfolding submit_fresh try_reuse_idempotent_transmission
submit out invoice_id = do
  found ← gets (λ s. lookup invoice_id s.invoices)
  inv ← or_raise found not_found
  reused ← reused_while_sending out inv
  reuse_or reused (submit_fresh out invoice_id inv)

-- Of a sale, `retry_transmission` prepares and checks the invoice again.
unfoldable pub recheck_sale : Outside → ℕ → Invoice → Exec Outbox (Unit {0})
unfolding prepare_sale_invoice_for_submit
recheck_sale out invoice_id inv = do
  prepared ← prepare_sale_invoice_for_submit out invoice_id inv
  lift (validate_invoice_before_enqueue out prepared)

abbrev other_active : ℕ → Option (ℕ × Transmission) → Bool
other_active id none = false
other_active id (some (other, t)) = not (other == id)

-- `retry_transmission`
unfoldable pub retry_transmission : Outside → ℕ → Exec Outbox ℕ
unfolding recheck_sale get_active_for_invoice
retry_transmission out id = do
  found ← gets (λ s. lookup id s.transmissions)
  t ← or_raise found not_found
  raise_if (not (is_retryable t.status)) invalid_invoice
  raise_if (leb max_retry_attempts t.attempt_no) invalid_invoice
  invoice ← gets (λ s. lookup t.invoice_id s.invoices)
  inv ← or_raise invoice not_found
  if is_sale inv.direction then recheck_sale out t.invoice_id inv else pure tt
  active ← get_active_for_invoice t.invoice_id
  raise_if (other_active id active) invalid_invoice
  modify (
      put_transmission id
        (record t { attempt_no = t.attempt_no + 1; status = queued; error_code = none }))
  modify (add_job (new_job (submit_invoice id t.invoice_id) out.now out.now))
  modify (record_event (transmission_retry id (t.attempt_no + 1)))
  pure id
