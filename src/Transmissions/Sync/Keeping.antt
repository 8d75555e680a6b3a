-- ===== src/Transmissions/Sync/Keeping.antt =====
-- `sync_invoice_from_terminal_transmission` never raises, and writes the table of invoices alone.
use ifg.Base.{ℕ, Option, none, some, ◌≡◌}
use ifg.Base.Dict.{lookup}
use ifg.Base.Exec.{pure}
use ifg.Base.Triple.{Triple, Triple-pure, Triple-if, Triple-gets}
use ifg.Invoices.Items.{Chars}
use ifg.Invoices.Validation.{Invoice, InvoiceStatus, sending, accepted, rejected}
use ifg.Transmissions.Rows.{TransmissionStatus, Outbox}
use ifg.Transmissions.Repository.{put_invoice, update_invoice}
use ifg.Transmissions.Sync.{
  target_of, is_new_reference, sync_by_status, sync_found, sync_invoice_from_terminal_transmission,
}
use ifg.Transmissions.Lifecycle.{Triple-update}

module _ (P R : Outbox → Type 0)
    (keep : (id : ℕ) (inv : Invoice) (s : Outbox) → P s → P (put_invoice id inv s)) where
  abbrev There : ℕ → Invoice → Outbox → Type 0
  There id inv s = P s × (lookup id s.invoices ≡ some inv)

  updated : (id : ℕ) (inv new : Invoice) → Triple (There id inv) (λ _. P) R (update_invoice id new)
  updated id inv new = Triple-update id new (λ s h. (inv, h.1, keep id new s h.0))

  by_status :
      (id : ℕ) (inv : Invoice) (target st : InvoiceStatus) (reference : Option Chars)
      → Triple (There id inv) (λ _. P) R (sync_by_status id inv target st reference)
  unfolding sync_by_status
  by_status id inv accepted accepted reference =
      Triple-if (is_new_reference reference inv.ksef_reference_number)
        (update_invoice id (record inv { ksef_reference_number = reference })) (pure tt)
        (λ _. updated id inv _) (λ _. Triple-pure tt (λ _ h. h.0))
  by_status id inv rejected sending reference = updated id inv _
  by_status id inv accepted sending reference = updated id inv _
  by_status id inv target st reference = Triple-pure tt (λ _ h. h.0)

  pub sync-Keeps :
      (id : ℕ) (status : TransmissionStatus) (reference : Option Chars)
      → Triple P (λ _. P) R (sync_invoice_from_terminal_transmission id status reference)
  unfolding sync_invoice_from_terminal_transmission
  sync-Keeps id status reference = Triple-gets _ _ λ found. by_row found (target_of status)
    where
      by_row :
          (found : Option Invoice) (target : Option InvoiceStatus)
          → Triple
              (λ s. P s × (lookup id s.invoices ≡ found))
              (λ _. P)
              R
              (sync_found id found target reference)
      by_row none target = Triple-pure tt (λ _ h. h.0)
      by_row (some inv) none = Triple-pure tt (λ _ h. h.0)
      by_row (some inv) (some target) = by_status id inv target inv.status reference
