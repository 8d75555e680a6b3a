-- ===== src/Transmissions/Sync.antt =====
-- `TransmissionService.sync_invoice_from_terminal_transmission`.
pub mod Keeping
pub mod Outcome
use ifg.Base.{ℕ, Bool, true, false, not, ◌&&◌, Option, none, some, ◌∷◌, [], if◌then◌else◌}
use ifg.Base.Dict.{lookup}
use ifg.Base.Exec.{Exec, Result, ok, err, ◌>>=◌, ◌>>◌, pure, gets}
use ifg.Invoices.Items.{Chars}
use ifg.Invoices.Validation.{
  Invoice, InvoiceStatus, ready_for_submission, sending, accepted, rejected, is_falsy,
}
use ifg.Invoices.Status.{transition_to, with_status}
use ifg.Transmissions.Rows.{TransmissionStatus, success, failed_permanent, Outbox}
use ifg.Transmissions.Repository.{same_text, update_invoice}

-- The status that the invoice of a transmission in a final status is to get.
abbrev pub target_of : TransmissionStatus → Option InvoiceStatus
target_of success = some accepted
target_of failed_permanent = some rejected
target_of _ = none

-- `ksef_reference_number and invoice.ksef_reference_number != ksef_reference_number`
abbrev pub is_new_reference : Option Chars → Option Chars → Bool
is_new_reference none old = false
is_new_reference (some []) old = false
is_new_reference (some (c ∷ cs)) none = true
is_new_reference (some (c ∷ cs)) (some old) = not (same_text old (c ∷ cs))

abbrev pub with_reference : Option Chars → Invoice → Invoice
with_reference reference inv =
    if is_falsy reference then inv else record inv { ksef_reference_number = reference }

abbrev or_forced : Result Invoice → Invoice → Invoice
or_forced (ok moved) inv = moved
or_forced (err _) inv = with_status accepted inv

-- The transition to ACCEPTED, and the bare status where it is refused.
unfoldable pub accept : Invoice → Invoice
accept inv = or_forced (transition_to accepted inv) inv

-- By the target and the invoice's status
unfoldable pub sync_by_status :
    ℕ → Invoice → InvoiceStatus → InvoiceStatus → Option Chars → Exec Outbox (Unit {0})
unfolding accept
sync_by_status id inv accepted accepted reference =
    if is_new_reference reference inv.ksef_reference_number
    then update_invoice id (record inv { ksef_reference_number = reference })
    else pure tt
sync_by_status id inv rejected sending reference = update_invoice id (with_status rejected inv)
sync_by_status id inv accepted sending reference =
    update_invoice id (with_reference reference (accept inv))
sync_by_status id inv _ _ reference = pure tt

abbrev pub sync_found :
    ℕ → Option Invoice → Option InvoiceStatus → Option Chars → Exec Outbox (Unit {0})
sync_found id none target reference = pure tt
sync_found id (some inv) none reference = pure tt
sync_found id (some inv) (some target) reference = sync_by_status id inv target inv.status reference

unfoldable pub sync_invoice_from_terminal_transmission :
    ℕ → TransmissionStatus → Option Chars → Exec Outbox (Unit {0})
sync_invoice_from_terminal_transmission invoice_id status reference = do
  found ← gets (λ s. lookup invoice_id s.invoices)
  sync_found invoice_id found (target_of status) reference
