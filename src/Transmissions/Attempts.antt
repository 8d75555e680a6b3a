-- ===== src/Transmissions/Attempts.antt =====
-- How often a transmission may be attempted: the requests of app/services/transmission_service.py and
-- the handlers of app/worker/job_handlers/, in any order.
pub mod Jobs
pub mod Bounds
use ifg.Base.{
  ℕ, ◌+◌, ◌≤◌, ◌++◌, All, All-append, Bool, true, false, Option, none, some, List, [], ◌∷◌, leb,
  ltb, if◌then◌else◌, ◌≡◌, ◌∙◌, refl, arith,
}
use ifg.Base.Dict.{Dict, lookup, insert, Every, Every-insert, Every-lookup}
use ifg.Base.Exec.{Exec, Result, ok, err, ◌>>=◌, ◌>>◌, pure, gets, lift, modify, or_raise, raise_if}
use ifg.Base.Triple.{
  Triple, Triple-pure, Triple-if, Triple-known, Triple-before, Triple-reads, Triple-bind,
  Triple-gets, Triple-query, Triple-lift, Triple-or_raise, Triple-guard, Triple-modify,
}
use ifg.Invoices.Validation.{Invoice, is_sale}
use ifg.Transmissions.Rows.{Transmission, Outbox, Outside, Job, AuditEvent}
use ifg.Transmissions.Repository.{
  get_active_for_invoice, add_transmission, with_transmission, put_transmission, put_invoice,
  add_invoice, put_job, add_job, record_event,
}
use ifg.Transmissions.Guards.{max_retry_attempts, is_sending}
use ifg.Transmissions.Service.{
  new_transmission, marked_sending, mark_invoice_as_sending, enqueue, reuse_or, submit_fresh,
  submit, recheck_sale, retry_transmission,
}
use ifg.Transmissions.Service.Keeping.{
  Anything, get_active_for_invoice-reads, reused_while_sending-reads, Triple-no_active,
  update_invoice-Keeps, prepare-Keeps, recheck_sale-Keeps,
}

-- The attempt is the first to the fifth.
abbrev pub Tried : Transmission → Type 0
Tried t = (1 ≤ t.attempt_no) × (t.attempt_no ≤ 5)

pub record AllTried (s : Outbox) : Type 0 where
  pub rows : Every Tried s.transmissions

pub AllTried-put :
    (id : ℕ) (t : Transmission)
    → Tried t
    → (s : Outbox) → AllTried s
    → AllTried (put_transmission id t s)
unfolding put_transmission
AllTried-put id t p s h = record { rows = Every-insert Tried id t s.transmissions h.rows p }

AllTried-with :
    (t : Transmission) → Tried t → (s : Outbox) → AllTried s → AllTried (with_transmission t s)
AllTried-with t p s h = record {
  rows = All-append (λ e. Tried e.1) s.transmissions ((s.next_id, t) ∷ []) h.rows (p, tt);
}

-- The other tables do not matter.
pub AllTried-invoice :
    (id : ℕ) (inv : Invoice) (s : Outbox) → AllTried s → AllTried (put_invoice id inv s)
unfolding put_invoice
AllTried-invoice id inv s h = record { rows = h.rows }

pub AllTried-add : (inv : Invoice) (s : Outbox) → AllTried s → AllTried (add_invoice inv s)
unfolding add_invoice
AllTried-add inv s h = record { rows = h.rows }

pub AllTried-job : (job : Job) (s : Outbox) → AllTried s → AllTried (add_job job s)
unfolding add_job
AllTried-job job s h = record { rows = h.rows }

pub AllTried-put_job : (id : ℕ) (job : Job) (s : Outbox) → AllTried s → AllTried (put_job id job s)
unfolding put_job
AllTried-put_job id job s h = record { rows = h.rows }

AllTried-event : (event : AuditEvent) (s : Outbox) → AllTried s → AllTried (record_event event s)
unfolding record_event
AllTried-event event s h = record { rows = h.rows }

-- A row that was found
pub found-Tried :
    (id : ℕ) (t : Transmission) (s : Outbox)
    → AllTried s
    → lookup id s.transmissions ≡ some t
    → Tried t
found-Tried id t s h e = Every-lookup Tried id s.transmissions h.rows e

add_transmission-Tried :
    (t : Transmission) → Tried t → Triple AllTried (λ _. AllTried) Anything (add_transmission t)
unfolding add_transmission
add_transmission-Tried t p = Triple-query _ _ λ held.
    Triple-guard _ _ _ (λ _ _. tt)
      λ free.
        Triple-query _ _ λ id. Triple-modify _ _ (AllTried-with t p) (Triple-pure id (λ _ h. h))

enqueue-Tried :
    (out : Outside) (id : ℕ) (inv : Invoice) (key : ℕ)
    → Triple AllTried (λ _. AllTried) Anything (enqueue out id inv key)
unfolding enqueue mark_invoice_as_sending
enqueue-Tried out id inv key =
    Triple-bind (λ _. AllTried) _ _
      (add_transmission-Tried (new_transmission id key out.now) (omega arith, omega arith))
      λ new_id.
        Triple-bind (λ _. AllTried) _ _
          (Triple-lift _ _ (λ _ _. tt)
            λ moved _. update_invoice-Keeps AllTried AllTried-invoice AllTried-event id moved)
          λ _. Triple-modify _ _ (AllTried-job _) (
            Triple-modify _ _ (AllTried-event _)
              (Triple-modify _ _ (AllTried-event _) (Triple-pure new_id (λ _ h. h))))

reuse_or-Tried :
    (reused : Option ℕ) (rest : Exec Outbox ℕ)
    → Triple AllTried (λ _. AllTried) Anything rest
    → Triple AllTried (λ _. AllTried) Anything (reuse_or reused rest)
reuse_or-Tried (some t) rest k = Triple-pure t (λ _ h. h)
reuse_or-Tried none rest k = k

submit_fresh-Tried :
    (out : Outside) (id : ℕ) (inv : Invoice)
    → Triple AllTried (λ _. AllTried) Anything (submit_fresh out id inv)
unfolding submit_fresh
submit_fresh-Tried out id inv =
    Triple-guard _ _ _ (λ _ _. tt)
      λ open_to.
        Triple-bind (λ _. AllTried) _ _ (Triple-no_active id)
          λ _.
            Triple-bind (λ _. AllTried) _ _
              (prepare-Keeps AllTried AllTried-invoice AllTried-event out id inv)
              λ prepared.
                Triple-lift _ _ (λ _ _. tt)
                  λ _ _.
                    Triple-lift _ _ (λ _ _. tt)
                      λ key _.
                        Triple-query _ _
                          λ reused. reuse_or-Tried reused _ (enqueue-Tried out id prepared key)

pub submit-Tried :
    (out : Outside) (id : ℕ) → Triple AllTried (λ _. AllTried) Anything (submit out id)
unfolding submit
submit-Tried out id = Triple-query _ _ λ found.
    Triple-or_raise _ _ _ (λ _ _. tt)
      λ inv there.
        Triple-bind (λ _. AllTried) _ _
          (Triple-reads _ (reused_while_sending-reads out inv (is_sending inv.status)))
          λ reused. reuse_or-Tried reused _ (submit_fresh-Tried out id inv)

one_more :
    (t : Transmission)
    → Tried t
    → leb max_retry_attempts t.attempt_no ≡ false
    → (1 ≤ t.attempt_no + 1) × (t.attempt_no + 1 ≤ 5)
one_more t p few = (omega arith, ground arith)

pub retry_transmission-Tried :
    (out : Outside) (id : ℕ) → Triple AllTried (λ _. AllTried) Anything (retry_transmission out id)
unfolding retry_transmission
retry_transmission-Tried out id = Triple-gets _ _ λ found.
    Triple-or_raise _ _ _ (λ _ _. tt)
      λ t there.
        Triple-known _ (λ s h. found-Tried id t s h.0 (h.1 ∙ there))
          λ p.
            Triple-before _
              (Triple-guard _ _ _ (λ _ _. tt)
                λ again.
                  Triple-guard _ _ _ (λ _ _. tt)
                    λ few. Triple-query _ _ λ invoice.
                      Triple-or_raise _ _ _ (λ _ _. tt)
                        λ inv here.
                          Triple-bind (λ _. AllTried) _ _
                            (Triple-if (is_sale inv.direction) (recheck_sale out t.invoice_id inv)
                              (pure tt)
                              (λ _.
                                recheck_sale-Keeps AllTried AllTried-invoice AllTried-event out
                                  t.invoice_id inv)
                              (λ _. Triple-pure tt (λ _ h. h)))
                            λ _.
                              Triple-bind (λ _. AllTried) _ _
                                (Triple-reads _ (get_active_for_invoice-reads t.invoice_id))
                                λ active.
                                  Triple-guard _ _ _ (λ _ _. tt)
                                    λ alone.
                                      Triple-modify _ _ (AllTried-put id _ (one_more t p few)) (
                                        Triple-modify _ _ (AllTried-job _) (
                                          Triple-modify _ _ (AllTried-event _)
                                            (Triple-pure id (λ _ h. h)))))
              (λ s h. h.0)
