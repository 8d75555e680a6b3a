-- ===== src/Transmissions/Rows.antt =====
-- The rows that sending an invoice reads and writes: app/persistence/models/transmission.py,
-- background_job.py, the invoices of app/domain/models/invoice.py, and the audit log. Times are in
-- seconds. What lies outside the tables is a record of answers.
use ifg.Base.{ℕ, Bool, Option, List}
use ifg.Base.Dict.{Dict}
use ifg.Invoices.Items.{Chars}
use ifg.Invoices.Validation.{Invoice}
use ifg.Settings.{SellerFields}

-- app/domain/enums.py
pub data TransmissionStatus : Type 0 where
  queued processing submitted waiting_status success : TransmissionStatus
  failed_temporary failed_retryable failed_permanent : TransmissionStatus

-- The column `error_code`. A status of the service's answer stands there as text.
pub data ErrorCode : Type 0 where
  invoice_not_found no_ksef_session ksef_not_connected session_expired : ErrorCode
  mapping_error sale_formal_invalid internal_error unknown : ErrorCode
  http_status : ℕ → ErrorCode

pub data UpoStatus : Type 0 where
  fetched failed : UpoStatus

-- `bytes`
abbrev pub Bytes : Type 0
Bytes = List ℕ

pub record Transmission : Type 0 where
  pub invoice_id : ℕ
  pub status : TransmissionStatus
  pub attempt_no : ℕ
  pub idempotency_key : ℕ
  pub external_reference : Option Chars
  pub ksef_reference_number : Option Chars
  pub xml_content : Option Bytes
  pub upo_xml : Option Bytes
  pub upo_status : Option UpoStatus
  pub error_code : Option ErrorCode
  pub started_at : Option ℕ
  pub finished_at : Option ℕ
  pub next_retry_at : Option ℕ
  pub created_at : ℕ

-- `job_type` with `payload_json`
pub data Task : Type 0 where
  submit_invoice : ℕ → ℕ → Task
  poll_ksef_status : ℕ → Chars → Option ℕ → Task
  sync_purchase_invoices : Chars → Task
  unknown_type : Task

pub data JobStatus : Type 0 where
  pending processing done failed : JobStatus

pub record Job : Type 0 where
  pub task : Task
  pub status : JobStatus
  pub available_at : ℕ
  pub locked_at : Option ℕ
  pub attempts : ℕ
  pub max_attempts : ℕ
  pub created_at : ℕ

pub data AuditEvent : Type 0 where
  transmission_created : ℕ → AuditEvent
  transmission_retry : ℕ → ℕ → AuditEvent
  invoice_sending : ℕ → AuditEvent
  invoice_marked_ready : ℕ → AuditEvent

-- The tables. `next_id` is above every key that `uuid4()` has given out.
pub record Outbox : Type 0 where
  pub next_id : ℕ
  pub transmissions : Dict Transmission
  pub invoices : Dict Invoice
  pub jobs : Dict Job
  pub audit : List AuditEvent

-- `get_connection_status`: the `ui_status`, and the reason where it is not CONNECTED
pub data Connection : Type 0 where
  connected no_session expired offline : Connection

-- The exceptions that a call on the way to KSeF raises, as the handlers tell them apart.
pub data KsefError : Type 0 where
  mapping not_found not_connected expired_token invalid_invoice unexpected : KsefError
  client_error : Option ℕ → Bool → KsefError

pub data Answer (A : Type 0) : Type 0 where
  answered : A → Answer A
  raised : KsefError → Answer A

-- InvoiceStatusResult of app/integrations/ksef/client.py
pub record StatusResult : Type 0 where
  pub processing_code : ℕ
  pub ksef_reference_number : Option Chars
  pub upo_url : Option Chars

-- An invoice that KSeF holds for the buyer: its number and what its XML says, none where the parser
-- or the constructor raises.
pub record Received : Type 0 where
  pub ksef_reference_number : Chars
  pub parsed : Option Invoice

-- What one request or job finds outside: the clock when it starts and when it ends, the XML of an
-- invoice (none where the mapper refuses it) and its hash, the session service, and KSeF.
pub record Outside : Type 0 where
  pub now : ℕ
  pub later : ℕ
  pub env : SellerFields
  pub row : Option SellerFields
  pub to_xml : Invoice → Option Bytes
  pub content_hash : Bytes → Option ℕ
  pub connection : Chars → Connection
  pub context : Chars → Answer (Unit {0})
  pub send : Bytes → Answer Chars
  pub invoice_status : Chars → Answer StatusResult
  pub upo : Chars → Answer Bytes
  pub received : Chars → Answer (List Received)
