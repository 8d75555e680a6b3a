-- ===== src/Transmissions/Carried/Requests.antt =====
-- The requests leave every transmission carried.
use ifg.Base.{ℕ, Option, none, some, [], ◌∷◌, ◌++◌, ◌≡◌, refl, ◌⊎◌, inl, inr, arith}
use mathlib.Core.Path.{subst}
use ifg.Base.Dict.{lookup, lookup-append, lookup-Lacks, Below-Lacks}
use ifg.Base.Exec.{Exec}
use ifg.Base.Triple.{
  Triple, Triple-pure, Triple-reads, Triple-bind, Triple-gets, Triple-query, Triple-lift,
  Triple-or_raise, Triple-guard, Triple-modify,
}
use ifg.Invoices.Validation.{Invoice}
use ifg.Transmissions.Rows.{Transmission, Job, pending, Outbox, Outside, AuditEvent}
use ifg.Transmissions.Repository.{
  add_transmission, with_transmission, add_job, put_invoice, record_event,
}
use ifg.Transmissions.Guards.{is_sending}
use ifg.Transmissions.Service.{
  mark_invoice_as_sending, new_transmission, enqueue, reuse_or, submit_fresh, submit,
}
use ifg.Transmissions.Service.Keeping.{
  Anything, reused_while_sending-reads, Triple-no_active, prepare-Keeps, update_invoice-Keeps,
}
use ifg.Transmissions.Carried.{Serves, Carrier, Carried}
use ifg.Transmissions.Carried.Kept.{add_job-Carried, put_invoice-Carried, record_event-Carried}
use ifg.Transmissions.Carried.Writes.{with_transmission-Carried}

-- The row of the transmission in hand
pub record InHand (id : ℕ) (t : Transmission) (s : Outbox) : Type 0 where
  pub carried : Carried (some id) s
  pub row : lookup id s.transmissions ≡ some t

-- With its job, the transmission in hand is carried too.
pub hand_over :
    (id : ℕ) (t : Transmission) (job : Job) (s : Outbox)
    → InHand id t s
    → job.status ≡ pending
    → Serves t.status id t.invoice_id job.task
    → Carried none (add_job job s)
unfolding add_job
hand_over id t job s h waits serves = record {
  jobs_below = more.jobs_below;
  jobs_distinct = more.jobs_distinct;
  rows_below = more.rows_below;
  carried = λ k row found needs. by_key k row found (more.carried k row found needs);
}
  where
    more : Carried (some id) (add_job job s)
    more = add_job-Carried (some id) s h.carried job

    own :
        (k : ℕ) (row : Transmission)
        → k ≡ id
        → row ≡ t
        → Carrier k row (s.jobs ++ (s.next_id, job) ∷ [])
    own k row here same =
        rw (here, same)
          record {
            key = s.next_id;
            job = job;
            found = ground (
              arith,
              lookup-append s.next_id s.next_id job s.jobs (
                  lookup-Lacks s.next_id s.jobs
                    (Below-Lacks s.next_id s.jobs h.carried.jobs_below)),
            );
            waits = waits;
            serves = serves;
          }

    by_key :
        (k : ℕ) (row : Transmission)
        → lookup k s.transmissions ≡ some row
        → (k ≡ id) ⊎ Carrier k row (s.jobs ++ (s.next_id, job) ∷ [])
        → ⊥ ⊎ Carrier k row (s.jobs ++ (s.next_id, job) ∷ [])
    by_key k row found (inl here) =
        let it : lookup k s.transmissions ≡ some t = rw here h.row in inr (own k row here (cc))
    by_key k row found (inr c) = inr c

invoice_InHand :
    (id : ℕ) (t : Transmission) (k : ℕ) (inv : Invoice) (s : Outbox)
    → InHand id t s
    → InHand id t (put_invoice k inv s)
unfolding put_invoice
invoice_InHand id t k inv s h = record {
  carried = put_invoice-Carried (some id) s h.carried k inv;
  row = h.row;
}

event_InHand :
    (id : ℕ) (t : Transmission) (event : AuditEvent) (s : Outbox)
    → InHand id t s
    → InHand id t (record_event event s)
unfolding record_event
event_InHand id t event s h = record {
  carried = record_event-Carried (some id) s h.carried event;
  row = h.row;
}

keep_invoice :
    (k : ℕ) (inv : Invoice) (s : Outbox) → Carried none s → Carried none (put_invoice k inv s)
keep_invoice k inv s c = put_invoice-Carried none s c k inv

pub keep_event :
    (event : AuditEvent) (s : Outbox) → Carried none s → Carried none (record_event event s)
keep_event event s c = record_event-Carried none s c event

with_transmission-InHand :
    (t : Transmission) (s : Outbox) → Carried none s → InHand s.next_id t (with_transmission t s)
with_transmission-InHand t s c = record {
  carried = with_transmission-Carried t s c;
  row = ground (
    arith,
    lookup-append s.next_id s.next_id t s.transmissions (
        lookup-Lacks s.next_id s.transmissions
          (Below-Lacks s.next_id s.transmissions c.rows_below)),
  );
}

add_transmission-InHand :
    (t : Transmission) → Triple (Carried none) (λ id. InHand id t) Anything (add_transmission t)
unfolding add_transmission
add_transmission-InHand t = Triple-query _ _ λ held.
    Triple-guard _ _ _ (λ _ _. tt)
      λ free. Triple-gets _ _ λ id.
        Triple-modify {P' = InHand id t} _ _ (λ s h. taken id s h.0 h.1) (Triple-pure id (λ _ h. h))
  where
    taken :
        (id : ℕ) (s : Outbox)
        → Carried none s
        → s.next_id ≡ id
        → InHand id t (with_transmission t s)
    taken id s c e =
        subst (λ n. InHand n t (with_transmission t s)) e (with_transmission-InHand t s c)

mark-InHand :
    (id : ℕ) (t : Transmission) (k : ℕ) (inv : Invoice)
    → Triple (InHand id t) (λ _. InHand id t) Anything (mark_invoice_as_sending k inv)
unfolding mark_invoice_as_sending
mark-InHand id t k inv =
    Triple-lift _ _ (λ _ _. tt)
      λ moved e.
        update_invoice-Keeps (InHand id t) (invoice_InHand id t) (event_InHand id t) k moved

enqueue-Carried :
    (out : Outside) (invoice_id : ℕ) (inv : Invoice) (key : ℕ)
    → Triple (Carried none) (λ _. Carried none) Anything (enqueue out invoice_id inv key)
unfolding enqueue
enqueue-Carried out invoice_id inv key =
    Triple-bind (λ id. InHand id (new_transmission invoice_id key out.now)) _ _
      (add_transmission-InHand _)
      λ id.
        Triple-bind (λ _. InHand id (new_transmission invoice_id key out.now)) _ _
          (mark-InHand id _ invoice_id inv)
          λ _.
            Triple-modify {P' = Carried none} _ _ (λ s h. hand_over id _ _ s h refl (refl, refl))
              (Triple-modify _ _ (keep_event _)
                (Triple-modify _ _ (keep_event _) (Triple-pure id (λ _ c. c))))

reuse_or-Carried :
    (reused : Option ℕ) (rest : Exec Outbox ℕ)
    → Triple (Carried none) (λ _. Carried none) Anything rest
    → Triple (Carried none) (λ _. Carried none) Anything (reuse_or reused rest)
reuse_or-Carried (some t) rest k = Triple-pure t (λ _ h. h)
reuse_or-Carried none rest k = k

submit_fresh-Carried :
    (out : Outside) (id : ℕ) (inv : Invoice)
    → Triple (Carried none) (λ _. Carried none) Anything (submit_fresh out id inv)
unfolding submit_fresh
submit_fresh-Carried out id inv =
    Triple-guard _ _ _ (λ _ _. tt)
      λ open_to.
        Triple-bind (λ _. Carried none) _ _ (Triple-no_active id)
          λ _.
            Triple-bind (λ _. Carried none) _ _
              (prepare-Keeps (Carried none) keep_invoice keep_event out id inv)
              λ prepared.
                Triple-lift _ _ (λ _ _. tt)
                  λ _ _.
                    Triple-lift _ _ (λ _ _. tt)
                      λ key _.
                        Triple-query _ _
                          λ reused. reuse_or-Carried reused _ (enqueue-Carried out id prepared key)

pub submit-Carried :
    (out : Outside) (id : ℕ) → Triple (Carried none) (λ _. Carried none) Anything (submit out id)
unfolding submit
submit-Carried out id = Triple-query _ _ λ found.
    Triple-or_raise _ _ _ (λ _ _. tt)
      λ inv there.
        Triple-bind (λ _. Carried none) _ _
          (Triple-reads _ (reused_while_sending-reads out inv (is_sending inv.status)))
          λ reused. reuse_or-Carried reused _ (submit_fresh-Carried out id inv)
