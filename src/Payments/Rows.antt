-- ===== src/Payments/Rows.antt =====
-- The tables of the payments module: app/persistence/models/bank_transaction.py,
-- payment_allocation.py, and of invoice.py the columns that payments read and write. Amounts are in
-- hundredths, the two places of the columns.
use ifg.Base.{ℕ, ℤ, Bool, Option, List, String}
use ifg.Base.Dict.{Dict}

-- app/domain/enums.py
pub data PaymentStatus : Type 0 where
  unpaid partially_paid paid : PaymentStatus

pub data MatchStatus : Type 0 where
  unmatched matched partial manual_review : MatchStatus

pub data MatchMethod : Type 0 where
  auto manual cash : MatchMethod

-- The identifier from the bank, or the text `invoice-cash:{invoice_id}`.
pub data ExternalId : Type 0 where
  bank : String → ExternalId
  invoice_cash : ℕ → ExternalId

pub record Transaction : Type 0 where
  pub external_id : Option ExternalId
  pub transaction_date : ℕ
  pub amount : ℤ
  pub currency : String
  pub counterparty_name : Option String
  pub match_status : MatchStatus
  pub remaining_amount : ℤ
  pub imported_by : ℕ

pub record Allocation : Type 0 where
  pub transaction_id : ℕ
  pub invoice_id : ℕ
  pub allocated_amount : ℤ
  pub match_method : MatchMethod
  pub match_score : Option ℕ
  pub is_reversed : Bool
  pub reversed_by : Option ℕ
  pub created_by : ℕ

pub data Direction : Type 0 where
  sale purchase : Direction

pub record Invoice : Type 0 where
  pub direction : Direction
  pub total_gross : ℤ
  pub payment_status : PaymentStatus
  pub issue_date : ℕ
  pub currency : String
  pub buyer_name : Option String

-- app/services/audit_service.py `record`, the event types of payments
pub data AuditEntry : Type 0 where
  payment_allocated : ℕ → ℕ → ℤ → MatchMethod → AuditEntry
  payment_allocation_reversed : ℕ → AuditEntry

pub record Ledger : Type 0 where
  pub next_id : ℕ
  pub transactions : Dict Transaction
  pub allocations : Dict Allocation
  pub invoices : Dict Invoice
  pub audit : List AuditEntry
