-- ===== src/Transmissions/Sync/Outcome.antt =====
-- What `sync_invoice_from_terminal_transmission` does to an invoice that is being sent.
use ifg.Base.{ℕ, Option, none, some, ◌≡◌, refl, ap, ◌∙◌}
use ifg.Base.Dict.{lookup}
use ifg.Base.Exec.{ok, pure, ◌>>=◌}
use ifg.Invoices.Items.{Chars}
use ifg.Invoices.Validation.{Invoice, InvoiceStatus, sending, accepted, rejected}
use ifg.Invoices.Status.{with_status}
use ifg.Transmissions.Rows.{TransmissionStatus, success, failed_permanent, Outbox}
use ifg.Transmissions.Repository.{put_invoice}
use ifg.Transmissions.Sync.{
  target_of, with_reference, accept, sync_by_status, sync_invoice_from_terminal_transmission,
}
use ifg.Transmissions.Lifecycle.{update_invoice-found}

abbrev target_outcome : ℕ → InvoiceStatus → Option Chars → Invoice → Outbox → Outbox
target_outcome i accepted reference inv s = put_invoice i (with_reference reference (accept inv)) s
target_outcome i rejected reference inv s = put_invoice i (with_status rejected inv) s
target_outcome i _ reference inv s = s

module _ (i : ℕ) (inv : Invoice) (s : Outbox) (found : lookup i s.invoices ≡ some inv) where
  by_target :
      (target : InvoiceStatus) (reference : Option Chars)
      → sync_by_status i inv target sending reference s
        ≡ (ok tt, target_outcome i target reference inv s)
  unfolding sync_by_status pure
  by_target accepted reference =
      update_invoice-found i (with_reference reference (accept inv)) inv s found
  by_target rejected reference = update_invoice-found i (with_status rejected inv) inv s found
  by_target _ reference = refl

  synced :
      (out : inv.status ≡ sending) (status : TransmissionStatus) (target : InvoiceStatus)
      → target_of status ≡ some target
      → (reference : Option Chars)
      → sync_invoice_from_terminal_transmission i status reference s
        ≡ (ok tt, target_outcome i target reference inv s)
  unfolding sync_invoice_from_terminal_transmission ◌>>=◌
  synced out status target aims reference =
      rw (found, aims)
        (ap (λ st. sync_by_status i inv target st reference s) out ∙ by_target target reference)

  pub sync_rejects :
      inv.status ≡ sending
      → sync_invoice_from_terminal_transmission i failed_permanent none s
        ≡ (ok tt, put_invoice i (with_status rejected inv) s)
  sync_rejects out = synced out failed_permanent rejected refl none

  pub sync_accepts :
      inv.status ≡ sending
      → (reference : Option Chars)
      → sync_invoice_from_terminal_transmission i success reference s
        ≡ (ok tt, put_invoice i (with_reference reference (accept inv)) s)
  sync_accepts out reference = synced out success accepted refl reference
