-- ===== src/Transmissions/Lifecycle/Preparing.antt =====
-- Preparing an invoice of app/services/transmission_service.py to be sent moves it along.
use ifg.Base.{ℕ, true, ◌≡◌, refl, sym, ◌∙◌, arith}
use ifg.Base.Exec.{ok, pure}
use ifg.Base.Triple.{
  Triple, Triple-pure, Triple-if, Triple-bind, Triple-query, Triple-lift, Triple-or_raise,
  Triple-guard, Triple-modify,
}
use ifg.Payments.Rows.{Direction}
use ifg.Invoices.Validation.{Invoice, InvoiceStatus, ready_for_submission, sending, is_missing}
use ifg.Invoices.Status.{can_transition, transition_to, with_status}
use ifg.Transmissions.Rows.{Transmission, Outbox, Outside, AuditEvent}
use ifg.Transmissions.Repository.{add_transmission, record_event, with_transmission}
use ifg.Transmissions.Service.{
  refresh_sale_seller_snapshot, assign_number_local, ensure_number_local, prepare_sale,
  prepare_sale_invoice_for_submit, marked_sending, mark_invoice_as_sending,
}
use ifg.Transmissions.Service.Keeping.{Anything}
use ifg.Transmissions.Lifecycle.{
  may_move, stay, move, Follows, At, At-same, update_invoice-At, update_invoice-Follows,
}

may_send :
    (inv moved : Invoice)
    → marked_sending inv ≡ ok moved
    → (moved ≡ with_status sending inv) × (may_move inv.status sending ≡ true)
unfolding transition_to can_transition
may_send inv moved e = ground arith

module _ (s : Outbox) (id : ℕ) (st : InvoiceStatus) (dir : Direction) where
  -- The invoice `inv` that the service holds has the status and the side of the row.
  abbrev pub Held : Invoice → Outbox → Type 0
  Held inv s' = At s id st dir s' × (inv.status ≡ st) × (inv.direction ≡ dir)

  refresh_sale_seller_snapshot-Held :
      (out : Outside) (inv : Invoice)
      → inv.status ≡ st
      → inv.direction ≡ dir
      → Triple (At s id st dir) Held Anything (refresh_sale_seller_snapshot out id inv)
  unfolding refresh_sale_seller_snapshot
  refresh_sale_seller_snapshot-Held out inv same side =
      Triple-lift _ _ (λ _ _. tt)
        λ _ _.
          Triple-bind (λ _. At s id st dir) _ _ (update_invoice-At s id st dir _ side same)
            λ _. Triple-pure _ (λ s' h. (h, same, side))

  noted-At :
      (event : AuditEvent) (s' : Outbox)
      → At s id st dir s'
      → At s id st dir (record_event event s')
  unfolding record_event
  noted-At event s' h = At-same s id st dir s' (record_event event s') refl h

  assign_number_local-Held :
      (inv : Invoice) (date : ℕ)
      → st ≡ ready_for_submission
      → inv.direction ≡ dir
      → Triple (At s id st dir) Held Anything (assign_number_local id inv date)
  unfolding assign_number_local
  assign_number_local-Held inv date ready side = Triple-query _ _ λ seq. Triple-query _ _ λ taken.
      Triple-guard _ _ _ (λ _ _. tt)
        λ free.
          Triple-bind (λ _. At s id st dir) _ _ (update_invoice-At s id st dir _ side (sym ready))
            λ _. Triple-modify _ _ (noted-At _) (Triple-pure _ (λ s' h. (h, sym ready, side)))

  ensure_number_local-Held :
      (inv : Invoice)
      → inv.status ≡ st
      → inv.direction ≡ dir
      → Triple (At s id st dir) Held Anything (ensure_number_local id inv)
  unfolding ensure_number_local
  ensure_number_local-Held inv same side =
      Triple-guard _ _ _ (λ _ _. tt)
        λ ready.
          Triple-lift _ _ (λ _ _. tt)
            λ _ _.
              Triple-or_raise _ _ _ (λ _ _. tt)
                λ date _. assign_number_local-Held inv date (sym same ∙ ground arith) side

  prepare_sale-Held :
      (out : Outside) (inv : Invoice)
      → inv.status ≡ st
      → inv.direction ≡ dir
      → Triple (At s id st dir) Held Anything (prepare_sale out id inv)
  unfolding prepare_sale
  prepare_sale-Held out inv same side =
      Triple-bind Held _ _ (refresh_sale_seller_snapshot-Held out inv same side) λ refreshed.
        record {
          at = λ s' h.
              (Triple-if {P = At s id st dir} (is_missing refreshed.number_local)
                  (ensure_number_local id refreshed) (pure refreshed)
                  (λ _. ensure_number_local-Held refreshed h.1 h.2)
                  (λ _. Triple-pure refreshed (λ s'' held. (held, h.1, h.2)))).at
                s' h.0;
        }

  pub prepare-Held :
      (out : Outside) (inv : Invoice)
      → inv.status ≡ st
      → inv.direction ≡ dir
      → Triple (At s id st dir) Held Anything (prepare_sale_invoice_for_submit out id inv)
  unfolding prepare_sale_invoice_for_submit
  prepare-Held out inv same side =
      Triple-if _ _ _ (λ _. prepare_sale-Held out inv same side)
        (λ _. Triple-pure inv (λ s' h. (h, same, side)))

  with_transmission-At :
      (t : Transmission) (s' : Outbox) → At s id st dir s' → At s id st dir (with_transmission t s')
  with_transmission-At t s' h = At-same s id st dir s' (with_transmission t s') refl h

  pub add_transmission-At :
      (t : Transmission)
      → Triple (At s id st dir) (λ _. At s id st dir) Anything (add_transmission t)
  unfolding add_transmission
  add_transmission-At t = Triple-query _ _ λ held.
      Triple-guard _ _ _ (λ _ _. tt)
        λ free.
          Triple-query _ _
            λ new_id. Triple-modify _ _ (with_transmission-At t) (Triple-pure new_id (λ s' h. h))

  pub mark_invoice_as_sending-Follows :
      (inv : Invoice)
      → inv.status ≡ st
      → inv.direction ≡ dir
      → Triple (At s id st dir) (λ _. Follows s) Anything (mark_invoice_as_sending id inv)
  unfolding mark_invoice_as_sending
  mark_invoice_as_sending-Follows inv same side =
      Triple-lift _ _ (λ _ _. tt)
        λ moved e.
          let (result, allowed) = may_send inv moved e in
          update_invoice-Follows s id st dir moved (rw result side)
            (rw (result, ← same) (move inv.status sending stay allowed))
