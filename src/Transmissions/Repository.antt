-- ===== src/Transmissions/Repository.antt =====
-- app/persistence/repositories/transmission_repository.py, job_repository.py and
-- invoice_repository.py on the tables. A row that is read is a copy, and `update` writes it back.
use ifg.Base.{
  ℕ, ◌+◌, ◌/◌, ◌%◌, Bool, true, false, ◌&&◌, ◌||◌, Option, none, some, is_some, List, [], ◌∷◌, ◌++◌,
  ◌==◌, select, length,
}
use ifg.Base.Dict.{Dict, lookup, insert}
use ifg.Base.Exec.{
  Exec, ◌>>=◌, ◌>>◌, pure, gets, modify, or_raise, raise_if, not_found, multiple_rows, integrity,
}
use ifg.Invoices.Items.{Chars}
use ifg.Invoices.Validation.{Invoice}
use ifg.Transmissions.Rows.{
  TransmissionStatus, queued, processing, submitted, waiting_status, Transmission, Task, Job,
  pending, Outbox, AuditEvent,
}

-- _ACTIVE_STATUSES
abbrev is_active : TransmissionStatus → Bool
is_active queued = true
is_active processing = true
is_active submitted = true
is_active waiting_status = true
is_active _ = false

abbrev is_active_for : ℕ → ℕ × Transmission → Bool
is_active_for invoice_id (id, t) = t.invoice_id == invoice_id && is_active t.status

-- `scalar_one_or_none()`
abbrev pub one_or_none {ℓ} : {A : Type ℓ} → List A → Option A
one_or_none [] = none
one_or_none (x ∷ _) = some x

abbrev pub has_many {ℓ} : {A : Type ℓ} → List A → Bool
has_many [] = false
has_many (x ∷ []) = false
has_many (x ∷ y ∷ _) = true

abbrev pub active_for : ℕ → Outbox → List (ℕ × Transmission)
active_for invoice_id s = select (is_active_for invoice_id) s.transmissions

-- `get_active_for_invoice`
unfoldable pub get_active_for_invoice : ℕ → Exec Outbox (Option (ℕ × Transmission))
get_active_for_invoice invoice_id = do
  rows ← gets (active_for invoice_id)
  raise_if (has_many rows) multiple_rows
  pure (one_or_none rows)

-- `get_by_idempotency_key`: the column is unique.
abbrev pub get_by_idempotency_key : ℕ → Dict Transmission → Option (ℕ × Transmission)
get_by_idempotency_key key rows = one_or_none (select (λ e. e.1.idempotency_key == key) rows)

unfoldable pub put_transmission : ℕ → Transmission → Outbox → Outbox
put_transmission id t s = record s { transmissions = insert id t s.transmissions }

abbrev pub with_transmission : Transmission → Outbox → Outbox
with_transmission t s = record s {
  next_id = s.next_id + 1;
  transmissions = s.transmissions ++ (s.next_id, t) ∷ [];
}

-- `TransmissionRepository.add`, under the unique constraint
unfoldable pub add_transmission : Transmission → Exec Outbox ℕ
add_transmission t = do
  held ← gets (λ s. get_by_idempotency_key t.idempotency_key s.transmissions)
  raise_if (is_some held) integrity
  id ← gets (λ s. s.next_id)
  modify (with_transmission t)
  pure id

-- A new row of BackgroundJob with the columns' defaults.
abbrev pub new_job : Task → ℕ → ℕ → Job
new_job task available_at now = record {
  task = task;
  status = pending;
  available_at = available_at;
  locked_at = none;
  attempts = 0;
  max_attempts = 5;
  created_at = now;
}

-- `JobRepository.add`
unfoldable pub add_job : Job → Outbox → Outbox
add_job job s = record s { next_id = s.next_id + 1; jobs = s.jobs ++ (s.next_id, job) ∷ [] }

unfoldable pub put_job : ℕ → Job → Outbox → Outbox
put_job id job s = record s { jobs = insert id job s.jobs }

unfoldable pub put_invoice : ℕ → Invoice → Outbox → Outbox
put_invoice id inv s = record s { invoices = insert id inv s.invoices }

-- `InvoiceRepository.add`
unfoldable pub add_invoice : Invoice → Outbox → Outbox
add_invoice inv s = record s {
  next_id = s.next_id + 1;
  invoices = s.invoices ++ (s.next_id, inv) ∷ [];
}

-- `InvoiceRepository.update`
unfoldable pub update_invoice : ℕ → Invoice → Exec Outbox (Unit {0})
update_invoice id inv = do
  found ← gets (λ s. lookup id s.invoices)
  old ← or_raise found not_found
  modify (put_invoice id inv)

-- `AuditService.record`
unfoldable pub record_event : AuditEvent → Outbox → Outbox
record_event event s = record s { audit = event ∷ s.audit }

abbrev pub same_text : Chars → Chars → Bool
same_text [] [] = true
same_text (a ∷ as') (b ∷ bs) = a == b && same_text as' bs
same_text _ _ = false

abbrev bears : (Invoice → Option Chars) → Chars → ℕ × Invoice → Bool
bears field text (id, inv) = elim (field inv) [ none ↦ false | some other ↦ same_text other text ]

abbrev pub exists_row {ℓ} : {A : Type ℓ} → (A → Bool) → List A → Bool
exists_row test [] = false
exists_row test (x ∷ xs) = test x || exists_row test xs

-- `exists_by_number`
abbrev pub exists_by_number : Chars → Dict Invoice → Bool
exists_by_number number rows = exists_row (bears (λ i. i.number_local) number) rows

-- `exists_by_ksef_number`
abbrev pub exists_by_ksef_number : Chars → Dict Invoice → Bool
exists_by_ksef_number number rows = exists_row (bears (λ i. i.ksef_reference_number) number) rows

-- A date is y · 372 + (m − 1) · 31 + (d − 1), which keeps the order of dates.
abbrev pub year_of : ℕ → ℕ
year_of date = date / 372

abbrev pub month_of : ℕ → ℕ
month_of date = date % 372 / 31 + 1

-- `month_start <= issue_date < month_end`
abbrev in_month : ℕ → ℕ → Option ℕ → Bool
in_month year month none = false
in_month year month (some date) = year_of date == year && month_of date == month

abbrev numbered_in : ℕ → ℕ → ℕ × Invoice → Bool
numbered_in year month (id, inv) = in_month year month inv.issue_date && is_some inv.number_local

-- `get_next_sequence_number`
abbrev pub get_next_sequence_number : ℕ → ℕ → Dict Invoice → ℕ
get_next_sequence_number year month rows = length (select (numbered_in year month) rows) + 1
