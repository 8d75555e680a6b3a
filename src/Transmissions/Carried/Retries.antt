-- ===== src/Transmissions/Carried/Retries.antt =====
-- `retry_transmission` of app/services/transmission_service.py leaves every transmission carried.
use ifg.Base.{ℕ, ◌+◌, ◌<◌, none, refl, ◌∙◌}
use ifg.Base.Dict.{lookup-insert_self, lookup-Below}
use ifg.Base.Triple.{
  Triple, Triple-pure, Triple-if, Triple-before, Triple-reads, Triple-bind, Triple-gets,
  Triple-query, Triple-or_raise, Triple-guard, Triple-modify,
}
use ifg.Invoices.Validation.{Invoice, is_sale}
use ifg.Transmissions.Rows.{Transmission, queued, Outbox, Outside, AuditEvent}
use ifg.Transmissions.Repository.{put_transmission, put_invoice, record_event}
use ifg.Transmissions.Service.{retry_transmission}
use ifg.Transmissions.Service.Keeping.{Anything, get_active_for_invoice-reads, recheck_sale-Keeps}
use ifg.Transmissions.Carried.{Carried}
use ifg.Transmissions.Carried.Kept.{put_invoice-Carried, record_event-Carried}
use ifg.Transmissions.Carried.Writes.{put_in_hand-Carried}
use ifg.Transmissions.Carried.Requests.{InHand, hand_over, keep_event}

-- The transmission that is to be sent again is there.
abbrev Known : ℕ → Outbox → Type 0
Known id s = Carried none s × (id < s.next_id)

Known-invoice :
    (id k : ℕ) (inv : Invoice) (s : Outbox) → Known id s → Known id (put_invoice k inv s)
unfolding put_invoice
Known-invoice id k inv s h = (put_invoice-Carried none s h.0 k inv, h.1)

Known-event :
    (id : ℕ) (event : AuditEvent) (s : Outbox) → Known id s → Known id (record_event event s)
unfolding record_event
Known-event id event s h = (record_event-Carried none s h.0 event, h.1)

again_InHand :
    (id : ℕ) (t : Transmission) (s : Outbox) → Known id s → InHand id t (put_transmission id t s)
unfolding put_transmission
again_InHand id t s h = record {
  carried = put_in_hand-Carried id t none s h.0 (λ k wrong. absurd wrong) h.1;
  row = lookup-insert_self id t s.transmissions;
}

abbrev again : Transmission → Transmission
again t = record t { attempt_no = t.attempt_no + 1; status = queued; error_code = none }

pub retry_transmission-Carried :
    (out : Outside) (id : ℕ)
    → Triple (Carried none) (λ _. Carried none) Anything (retry_transmission out id)
unfolding retry_transmission
retry_transmission-Carried out id = Triple-gets _ _ λ found.
    Triple-or_raise _ _ _ (λ _ _. tt)
      λ t there.
        Triple-before {P = Known id} _
          (Triple-guard _ _ _ (λ _ _. tt)
            λ open_to.
              Triple-guard _ _ _ (λ _ _. tt)
                λ few. Triple-query _ _ λ invoice.
                  Triple-or_raise _ _ _ (λ _ _. tt)
                    λ inv here.
                      Triple-bind (λ _. Known id) _ _
                        (Triple-if (is_sale inv.direction) _ _
                          (λ _.
                            recheck_sale-Keeps (Known id) (Known-invoice id) (Known-event id) out
                              t.invoice_id inv)
                          (λ _. Triple-pure tt (λ s h. h)))
                        λ _.
                          Triple-bind (λ _. Known id) _ _
                            (Triple-reads _ (get_active_for_invoice-reads t.invoice_id))
                            λ active.
                              Triple-guard _ _ _ (λ _ _. tt)
                                λ alone. Triple-modify _ _ (again_InHand id (again t)) (
                                  Triple-modify {P' = Carried none} _ _
                                    (λ s h. hand_over id (again t) _ s h refl (refl, refl))
                                    (Triple-modify _ _ (keep_event _) (Triple-pure id (λ _ c. c)))))
          (λ s h. (h.0, lookup-Below s.next_id id t s.transmissions h.0.rows_below (h.1 ∙ there)))
