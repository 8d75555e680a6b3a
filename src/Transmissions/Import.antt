-- ===== src/Transmissions/Import.antt =====
-- `sync_received_invoices` of app/services/ksef_session_service.py, and the job that calls it
-- (app/worker/job_handlers/sync_purchase_invoices.py).
pub mod Again
pub mod Totals
use ifg.Base.{ℕ, ◌+◌, Bool, true, false, Option, none, some, List, [], ◌∷◌, if◌then◌else◌, length}
use ifg.Base.Dict.{Dict}
use ifg.Base.Exec.{
  Exec, Result, ok, err, AppError, ◌>>=◌, ◌>>◌, pure, raise, gets, modify, internal,
}
use ifg.Payments.Rows.{purchase}
use ifg.Invoices.Items.{Chars}
use ifg.Invoices.Validation.{Invoice, accepted}
use ifg.Transmissions.Rows.{Outbox, Outside, Received, Answer, answered, raised, KsefError}
use ifg.Transmissions.Repository.{exists_by_ksef_number, add_invoice}

-- The dict that the method returns, but `received`
pub record Counts : Type 0 where
  pub saved : ℕ
  pub skipped_existing : ℕ
  pub skipped_parse : ℕ

-- The fields that the constructor call fixes for every imported invoice
abbrev pub imported : Received → Invoice → Invoice
imported r inv = record inv {
  status = accepted;
  direction = purchase;
  ksef_reference_number = some r.ksef_reference_number;
}

abbrev one_more_saved : Counts → Counts
one_more_saved c = record c { saved = c.saved + 1 }

abbrev pub one_more_existing : Counts → Counts
one_more_existing c = record c { skipped_existing = c.skipped_existing + 1 }

abbrev one_more_unread : Counts → Counts
one_more_unread c = record c { skipped_parse = c.skipped_parse + 1 }

abbrev pub save_parsed : Received → Option Invoice → Counts → Outbox → Counts × Outbox
save_parsed r none counts s = (one_more_unread counts, s)
save_parsed r (some inv) counts s = (one_more_saved counts, add_invoice (imported r inv) s)

-- One round of the loop
unfoldable pub import_one : Received → Counts → Outbox → Counts × Outbox
import_one r counts s =
    if exists_by_ksef_number r.ksef_reference_number s.invoices
    then (one_more_existing counts, s)
    else save_parsed r r.parsed counts s

unfoldable pub import_all : List Received → Counts → Outbox → Counts × Outbox
import_all [] counts s = (counts, s)
import_all (r ∷ rs) counts s = let (counts', s') = import_one r counts s in import_all rs counts' s'

abbrev pub no_counts : Counts
no_counts = record { saved = 0; skipped_existing = 0; skipped_parse = 0 }

abbrev returning : (Outbox → Counts × Outbox) → Exec Outbox Counts
returning loop s = let (counts, s') = loop s in (ok counts, s')

-- `KSeFClientError` of the query becomes ExternalServiceError.
abbrev pub import_answer : Answer (List Received) → Exec Outbox Counts
import_answer (raised e) = raise AppError.external_service
import_answer (answered rs) = returning (import_all rs no_counts)

-- What `get_session_context` raises: NotFoundError without a session, else AppError
abbrev context_error : KsefError → AppError
context_error KsefError.not_found = AppError.not_found
context_error _ = internal

abbrev pub import_in_context : Outside → Chars → Answer (Unit {0}) → Exec Outbox Counts
import_in_context out nip (raised e) = raise (context_error e)
import_in_context out nip (answered _) = import_answer (out.received nip)

unfoldable pub sync_received_invoices : Outside → Chars → Exec Outbox Counts
unfolding import_all
sync_received_invoices out nip = import_in_context out nip (out.context nip)
