-- ===== src/Transmissions/Lifecycle/Requests.antt =====
-- The requests move invoices along: `submit_invoice` and `retry_transmission`.
use ifg.Base.{ℕ, Option, none, some, ◌≡◌, refl, ◌∙◌}
use ifg.Base.Dict.{lookup}
use ifg.Base.Exec.{Exec}
use ifg.Base.Triple.{
  Triple, Triple-pure, Triple-if, Triple-before, Triple-facts, Triple-reads, Triple-bind,
  Triple-gets, Triple-query, Triple-lift, Triple-or_raise, Triple-guard, Triple-modify,
}
use ifg.Payments.Rows.{Direction}
use ifg.Invoices.Validation.{Invoice, InvoiceStatus, is_sale}
use ifg.Transmissions.Rows.{Transmission, Outbox, Outside, Job, AuditEvent}
use ifg.Transmissions.Repository.{put_transmission, add_job, record_event}
use ifg.Transmissions.Guards.{is_sending}
use ifg.Transmissions.Service.{
  validate_invoice_before_enqueue, enqueue, reuse_or, submit_fresh, submit, recheck_sale,
  retry_transmission,
}
use ifg.Transmissions.Service.Keeping.{
  Anything, get_active_for_invoice-reads, reused_while_sending-reads, Triple-no_active,
  Triple-lift_last,
}
use ifg.Transmissions.Lifecycle.{Follows, Follows-same, At}
use ifg.Transmissions.Lifecycle.Preparing.{
  Held, prepare-Held, add_transmission-At, mark_invoice_as_sending-Follows,
}

noted :
    (s : Outbox) (event : AuditEvent) (s' : Outbox)
    → Follows s s'
    → Follows s (record_event event s')
unfolding record_event
noted s event s' f = Follows-same s s' (record_event event s') refl f

queued_job : (s : Outbox) (job : Job) (s' : Outbox) → Follows s s' → Follows s (add_job job s')
unfolding add_job
queued_job s job s' f = Follows-same s s' (add_job job s') refl f

put_row :
    (s : Outbox) (id : ℕ) (t : Transmission) (s' : Outbox)
    → Follows s s'
    → Follows s (put_transmission id t s')
unfolding put_transmission
put_row s id t s' f = Follows-same s s' (put_transmission id t s') refl f

module _ (s : Outbox) (id : ℕ) (st : InvoiceStatus) (dir : Direction) where
  enqueue-Follows :
      (out : Outside) (inv : Invoice) (key : ℕ)
      → inv.status ≡ st
      → inv.direction ≡ dir
      → Triple (At s id st dir) (λ _. Follows s) Anything (enqueue out id inv key)
  unfolding enqueue
  enqueue-Follows out inv key same side =
      Triple-bind (λ _. At s id st dir) _ _ (add_transmission-At s id st dir _)
        λ new_id.
          Triple-bind (λ _. Follows s) _ _
            (mark_invoice_as_sending-Follows s id st dir inv same side)
            λ _. Triple-modify _ _ (queued_job s _) (
              Triple-modify _ _ (noted s _)
                (Triple-modify _ _ (noted s _) (Triple-pure new_id (λ _ f. f))))

  reuse_or-Follows :
      (reused : Option ℕ) (rest : Exec Outbox ℕ)
      → Triple (At s id st dir) (λ _. Follows s) Anything rest
      → Triple (At s id st dir) (λ _. Follows s) Anything (reuse_or reused rest)
  reuse_or-Follows (some t) rest k = Triple-pure t (λ _ h. h.follows)
  reuse_or-Follows none rest k = k

  submit_fresh-Follows :
      (out : Outside) (inv : Invoice)
      → inv.status ≡ st
      → inv.direction ≡ dir
      → Triple (At s id st dir) (λ _. Follows s) Anything (submit_fresh out id inv)
  unfolding submit_fresh
  submit_fresh-Follows out inv same side =
      Triple-guard _ _ _ (λ _ _. tt)
        λ open_to.
          Triple-bind (λ _. At s id st dir) _ _ (Triple-no_active id)
            λ _.
              Triple-bind (Held s id st dir) _ _ (prepare-Held s id st dir out inv same side)
                λ prepared. Triple-facts _ λ same' side'.
                  Triple-lift _ _ (λ _ _. tt)
                    λ _ _.
                      Triple-lift _ _ (λ _ _. tt)
                        λ key _. Triple-query _ _ λ reused.
                          reuse_or-Follows reused _ (enqueue-Follows out prepared key same' side')

found-At :
    (s : Outbox) (id : ℕ) (inv : Invoice) (s' : Outbox)
    → Follows s s' × (lookup id s'.invoices ≡ some inv)
    → At s id inv.status inv.direction s'
found-At s id inv s' h = record {
  follows = h.0;
  row = inv;
  found = h.1;
  status = refl;
  side = refl;
}

-- `submit_invoice` moves every invoice along, where it returns.
pub submit-Follows :
    (s : Outbox) (out : Outside) (id : ℕ)
    → Triple (Follows s) (λ _. Follows s) Anything (submit out id)
unfolding submit
submit-Follows s out id = Triple-gets _ _ λ found.
    Triple-or_raise _ _ _ (λ _ _. tt)
      λ inv there.
        Triple-before _
          (Triple-bind (λ _. At s id inv.status inv.direction) _ _
            (Triple-reads _ (reused_while_sending-reads out inv (is_sending inv.status)))
            λ reused.
              reuse_or-Follows s id inv.status inv.direction reused _
                (submit_fresh-Follows s id inv.status inv.direction out inv refl refl))
          (λ s' h. found-At s id inv s' (h.0, h.1 ∙ there))

recheck_sale-Follows :
    (s : Outbox) (out : Outside) (id : ℕ) (inv : Invoice)
    → Triple (At s id inv.status inv.direction) (λ _. Follows s) Anything (recheck_sale out id inv)
unfolding recheck_sale
recheck_sale-Follows s out id inv =
    Triple-bind (Held s id inv.status inv.direction) _ _
      (prepare-Held s id inv.status inv.direction out inv refl refl)
      λ prepared.
        Triple-before _ (Triple-lift_last (validate_invoice_before_enqueue out prepared))
          (λ s' h. h.0.follows)

-- `retry_transmission` moves every invoice along, where it returns.
pub retry_transmission-Follows :
    (s : Outbox) (out : Outside) (id : ℕ)
    → Triple (Follows s) (λ _. Follows s) Anything (retry_transmission out id)
unfolding retry_transmission
retry_transmission-Follows s out id = Triple-query _ _ λ found.
    Triple-or_raise _ _ _ (λ _ _. tt)
      λ t there.
        Triple-guard _ _ _ (λ _ _. tt)
          λ again.
            Triple-guard _ _ _ (λ _ _. tt)
              λ few. Triple-gets _ _ λ invoice.
                Triple-or_raise _ _ _ (λ _ _. tt)
                  λ inv here.
                    Triple-before _
                      (Triple-bind (λ _. Follows s) _ _
                        (Triple-if (is_sale inv.direction) _ _
                          (λ _. recheck_sale-Follows s out t.invoice_id inv)
                          (λ _. Triple-pure tt (λ s' h. h.follows)))
                        λ _.
                          Triple-bind (λ _. Follows s) _ _
                            (Triple-reads _ (get_active_for_invoice-reads t.invoice_id))
                            λ active.
                              Triple-guard _ _ _ (λ _ _. tt)
                                λ alone. Triple-modify _ _ (put_row s id _) (
                                  Triple-modify _ _ (queued_job s _)
                                    (Triple-modify _ _ (noted s _) (Triple-pure id (λ _ f. f)))))
                      (λ s' h. found-At s t.invoice_id inv s' (h.0, h.1 ∙ here))
