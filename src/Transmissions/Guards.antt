-- ===== src/Transmissions/Guards.antt =====
-- What `TransmissionService` of app/services/transmission_service.py asks before it sends an invoice:
-- the tests of statuses, the idempotency key and the transmissions under it, and the connection.
use ifg.Base.{ℕ, Bool, true, false, not, Option, none, some, is_some, if◌then◌else◌}
use ifg.Base.Exec.{
  Exec, Result, ok, err, ◌>>=◌, gets, raise_if, lift, mapping, invalid_invoice, no_ksef_session,
  ksef_not_connected,
}
use ifg.Invoices.Items.{is_blank}
use ifg.Invoices.Validation.{Invoice, InvoiceStatus, sending, rejected, is_sale, seller_nip}
use ifg.Invoices.Status.{can_transition}
use ifg.Transmissions.Rows.{
  TransmissionStatus, queued, processing, submitted, waiting_status, success, failed_temporary,
  failed_retryable, Transmission, Outbox, Outside, Connection, connected, no_session, expired,
  offline, Bytes,
}
use ifg.Transmissions.Repository.{get_active_for_invoice, get_by_idempotency_key}

-- MAX_RETRY_ATTEMPTS
abbrev pub max_retry_attempts : ℕ
max_retry_attempts = 5

-- _RETRYABLE_STATUSES
abbrev pub is_retryable : TransmissionStatus → Bool
is_retryable failed_retryable = true
is_retryable failed_temporary = true
is_retryable _ = false

-- _IDEMPOTENT_REUSE_STATUSES
abbrev pub is_reusable : TransmissionStatus → Bool
is_reusable queued = true
is_reusable processing = true
is_reusable submitted = true
is_reusable waiting_status = true
is_reusable success = true
is_reusable _ = false

abbrev pub is_rejected : InvoiceStatus → Bool
is_rejected rejected = true
is_rejected _ = false

abbrev pub is_sending : InvoiceStatus → Bool
is_sending sending = true
is_sending _ = false

abbrev pub hashed : Option ℕ → Result ℕ
hashed none = err mapping
hashed (some key) = ok key

abbrev pub hash_of : (Bytes → Option ℕ) → Option Bytes → Result ℕ
hash_of content_hash none = err mapping
hash_of content_hash (some xml) = hashed (content_hash xml)

-- `_build_idempotency_key`
unfoldable pub build_idempotency_key : Outside → Invoice → Result ℕ
build_idempotency_key out inv = hash_of out.content_hash (out.to_xml inv)

abbrev pub if_reusable : Option (ℕ × Transmission) → Option ℕ
if_reusable none = none
if_reusable (some (id, t)) = if is_reusable t.status then some id else none

-- `_try_reuse_by_idempotency_key`
abbrev pub try_reuse_by_idempotency_key : ℕ → Outbox → Option ℕ
try_reuse_by_idempotency_key key s = if_reusable (get_by_idempotency_key key s.transmissions)

-- `_try_reuse_idempotent_transmission`
unfoldable pub try_reuse_idempotent_transmission : Outside → Invoice → Exec Outbox (Option ℕ)
unfolding build_idempotency_key
try_reuse_idempotent_transmission out inv = do
  key ← lift (build_idempotency_key out inv)
  gets (try_reuse_by_idempotency_key key)

-- `_ensure_invoice_can_be_submitted`
abbrev pub submission_refused : Invoice → Bool
submission_refused inv =
    if is_rejected inv.status
    then not (is_sale inv.direction)
    else not (can_transition inv.status sending)

-- `_ensure_no_active_transmission`
unfoldable pub ensure_no_active_transmission : ℕ → Exec Outbox (Unit {0})
unfolding get_active_for_invoice
ensure_no_active_transmission invoice_id = do
  active ← get_active_for_invoice invoice_id
  raise_if (is_some active) invalid_invoice

abbrev pub connection_result : Connection → Result (Unit {0})
connection_result connected = ok tt
connection_result no_session = err no_ksef_session
connection_result expired = err no_ksef_session
connection_result offline = err ksef_not_connected

-- `_ensure_ksef_session_connected`
abbrev pub ensure_ksef_session_connected : Outside → Invoice → Result (Unit {0})
ensure_ksef_session_connected out inv =
    let nip = seller_nip inv.seller_snapshot.nip in
    if is_blank nip then ok tt else connection_result (out.connection nip)
