-- ===== src/Transmissions/Stuck.antt =====
-- What becomes of a sale whose submission KSeF could not be asked for: `handle` of
-- app/worker/job_handlers/submit_invoice.py and the requests that come after it.
use ifg.Base.{
  ℕ, true, false, Option, none, some, List, [], ◌∷◌, All, if◌then◌else◌, ◌≡◌, refl, ap, ◌∙◌, arith,
}
use ifg.Base.Dict.{Dict, lookup, lookup-insert_self}
use ifg.Base.Exec.{Exec, Result, AppError, ok, err, gets, or_raise, ◌>>=◌, pure, lift}
use ifg.Base.Triple.{
  Triple, Triple-pure, Triple-if, Triple-before, Triple-facts, Triple-reads, Triple-bind,
  Triple-guard, transaction_keeps,
}
use ifg.Invoices.Validation.{Invoice, sending, is_sale, validate_for_ksef}
use ifg.Invoices.Status.{can_transition}
use ifg.Transmissions.Rows.{
  failed_retryable, ErrorCode, no_ksef_session, ksef_not_connected, session_expired, Job,
  Transmission, Outbox, Outside, raised, KsefError, not_found, not_connected, expired_token,
}
use ifg.Transmissions.Repository.{put_transmission}
use ifg.Transmissions.Guards.{is_sending, submission_refused}
use ifg.Transmissions.Service.{
  submit_fresh, submit, validate_invoice_before_enqueue, recheck_sale, retry_transmission, reuse_or,
}
use ifg.Transmissions.Service.Keeping.{Anything, reused_while_sending-reads}
use ifg.Transmissions.Submit.{
  submit_invoice_to_ksef, started, with_failure, mark_retryable_failure, handle_error, submit_one,
  handle_submit,
}
use ifg.Transmissions.Events.{Event, submit_request, retry_request, batch, handle, run}
use ifg.Transmissions.Lifecycle.{At, Follows-refl}
use ifg.Transmissions.Lifecycle.Preparing.{prepare-Held}

-- A sending invoice passes no check before the queue.
not_ready :
    (out : Outside) (inv : Invoice) (a : Unit {0})
    → inv.status ≡ sending
    → validate_invoice_before_enqueue out inv ≡ ok a
    → ⊥
unfolding validate_invoice_before_enqueue validate_for_ksef
not_ready out inv a out_now e = ground arith

refused_while_sending : (inv : Invoice) → inv.status ≡ sending → submission_refused inv ≡ false → ⊥
unfolding can_transition
refused_while_sending inv out e = ground arith

-- No state: the method does not come here.
abbrev Never {ℓ} : {A : Type ℓ} → A → Outbox → Type 0
Never _ _ = ⊥

Triple-lift-Never :
    {P : Outbox → Type 0} {A : Type 0} (r : Result A)
    → ((a : A) → r ≡ ok a → ⊥)
    → Triple P Never Anything (lift r)
unfolding lift
Triple-lift-Never (ok a) never = record { at = λ s p. never a refl }
Triple-lift-Never (err e) never = record { at = λ s p. tt }

from_never :
    {A : Type 0} {Q : A → Outbox → Type 0} (m : Exec Outbox A) → Triple (λ _. ⊥) Q Anything m
from_never m = record { at = λ s h. absurd h }

recheck_sale-Never :
    (s : Outbox) (out : Outside) (i : ℕ) (inv : Invoice)
    → inv.status ≡ sending
    → Triple (At s i inv.status inv.direction) Never Anything (recheck_sale out i inv)
unfolding recheck_sale
recheck_sale-Never s out i inv away =
    Triple-bind _ _ _ (prepare-Held s i inv.status inv.direction out inv refl refl) λ prepared.
      Triple-facts _ λ same side.
        Triple-lift-Never (validate_invoice_before_enqueue out prepared)
          (λ a e. not_ready out prepared a (same ∙ away) e)

rechecked-Never :
    (s : Outbox) (out : Outside) (i : ℕ) (inv : Invoice)
    → inv.status ≡ sending
    → is_sale inv.direction ≡ true
    → Triple
        (At s i inv.status inv.direction)
        Never
        Anything
        (if is_sale inv.direction then recheck_sale out i inv else pure tt)
rechecked-Never s out i inv away sale =
    Triple-if (is_sale inv.direction) _ _ (λ _. recheck_sale-Never s out i inv away)
      (λ purchase. absurd cc)

-- The tables are still `s`.
abbrev Still : Outbox → Outbox → Type 0
Still s s' = s' ≡ s

-- A row that is known to be there is read.
Triple-load :
    (s : Outbox) {A B : Type 0} {Q : B → Outbox → Type 0} (g : Outbox → Option A) (e : AppError)
    (next : A → Exec Outbox B) {a : A}
    → g s ≡ some a
    → Triple (Still s) Q Anything (next a)
    → Triple (Still s) Q Anything (gets g >>= λ found. or_raise found e >>= next)
unfolding ◌>>=◌
Triple-load s g e next there t = record { at = λ s' same. rw (same, there) (t.at s refl) }

-- A request to send the invoice, or to retry the transmission
abbrev About : ℕ → ℕ → Event → Type 0
About id invoice_id (submit_request out i) = i ≡ invoice_id
About id invoice_id (retry_request out i) = i ≡ id
About id invoice_id (batch outs) = ⊥

module _ (s : Outbox) (id : ℕ) (t : Transmission) (inv : Invoice)
    (row : lookup id s.transmissions ≡ some t) (held : lookup t.invoice_id s.invoices ≡ some inv)
    (away : inv.status ≡ sending) where
  starts-At : (s' : Outbox) → Still s s' → At s t.invoice_id inv.status inv.direction s'
  starts-At s' same =
      rw same
        (record { follows = Follows-refl s; row = inv; found = held; status = refl; side = refl })

  retry-Still :
      is_sale inv.direction ≡ true
      → (out : Outside) → Triple (Still s) (λ _. Still s) Anything (retry_transmission out id)
  unfolding retry_transmission
  retry-Still sale out = Triple-load s _ _ _ row (
      Triple-guard _ _ _ (λ _ _. tt)
        λ again.
          Triple-guard _ _ _ (λ _ _. tt)
            λ few. Triple-load s _ _ _ held (
              Triple-bind Never _ _
                (Triple-before _ (rechecked-Never s out t.invoice_id inv away sale) starts-At)
                λ _. from_never _))

  reuse_or-Still :
      (out : Outside) (reused : Option ℕ)
      → Triple
          (Still s)
          (λ _. Still s)
          Anything
          (reuse_or reused (submit_fresh out t.invoice_id inv))
  unfolding submit_fresh
  reuse_or-Still out (some other) = Triple-pure other (λ _ h. h)
  reuse_or-Still out none =
      Triple-guard _ _ _ (λ _ _. tt) λ open_to. absurd (refused_while_sending inv away open_to)

  submit-Still :
      (out : Outside) → Triple (Still s) (λ _. Still s) Anything (submit out t.invoice_id)
  unfolding submit
  submit-Still out = Triple-load s _ _ _ held (
      Triple-bind (λ _. Still s) _ _
        (Triple-reads _ (reused_while_sending-reads out inv (is_sending inv.status)))
        λ reused. reuse_or-Still out reused)

  handle-Still :
      is_sale inv.direction ≡ true → (e : Event) → About id t.invoice_id e → handle e s ≡ s
  unfolding handle
  handle-Still sale (retry_request out other) about =
      rw about (transaction_keeps (Still s) _ s (retry-Still sale out) refl)
  handle-Still sale (submit_request out other) about =
      rw about (transaction_keeps (Still s) _ s (submit-Still out) refl)
  handle-Still sale (batch outs) about = absurd about

  run-Still :
      is_sale inv.direction ≡ true
      → (events : List Event) → All (About id t.invoice_id) events
      → run events s ≡ s
  unfolding run
  run-Still sale [] about = refl
  run-Still sale (e ∷ es) about = rw (handle-Still sale e about.0) (run-Still sale es about.1)

-- `except` clauses of `handle` that mark the transmission FAILED_RETRYABLE
abbrev cannot_ask : KsefError → Option ErrorCode
cannot_ask not_found = some no_ksef_session
cannot_ask not_connected = some ksef_not_connected
cannot_ask expired_token = some session_expired
cannot_ask _ = none

-- The transmission may be retried, the invoice stands as it did, and no request changes anything.
pub record Stuck (id invoice_id : ℕ) (inv : Invoice) (jobs : Dict Job) (s : Outbox) : Type 0 where
  pub last : Transmission
  pub row : lookup id s.transmissions ≡ some last
  pub retryable : last.status ≡ failed_retryable
  pub invoice : lookup invoice_id s.invoices ≡ some inv
  pub no_job : s.jobs ≡ jobs
  pub ignored : (events : List Event) → All (About id invoice_id) events → run events s ≡ s

-- What the handler leaves where KSeF cannot be asked
abbrev left : ℕ → Outside → Transmission → ErrorCode → Outbox → Outbox
left id out t code s =
    put_transmission id (with_failure failed_retryable code out.later (started out t))
      (put_transmission id (started out t) s)

same_code : {a b : ErrorCode} → some a ≡ some b → a ≡ b
same_code e = cc

handle_submit-left :
    (out : Outside) (id : ℕ) (t : Transmission) (inv : Invoice) (s : Outbox)
    → lookup id s.transmissions ≡ some t
    → lookup t.invoice_id s.invoices ≡ some inv
    → (e : KsefError) → submit_invoice_to_ksef out inv ≡ raised e
    → (code : ErrorCode) → cannot_ask e ≡ some code
    → (handle_submit out id t.invoice_id s).1 ≡ left id out t code s
unfolding handle_submit submit_one handle_error mark_retryable_failure put_transmission ◌>>=◌
handle_submit-left out id t inv s found held not_found fails code asks =
    rw (found, held, fails) (ap (λ c. left id out t c s) (same_code asks))
handle_submit-left out id t inv s found held not_connected fails code asks =
    rw (found, held, fails) (ap (λ c. left id out t c s) (same_code asks))
handle_submit-left out id t inv s found held expired_token fails code asks =
    rw (found, held, fails) (ap (λ c. left id out t c s) (same_code asks))
handle_submit-left out id t inv s found held _ fails code asks = absurd cc

-- A sale whose submission KSeF cannot be asked for, since there is no session, no connection or an
-- expired token: the transmission is FAILED_RETRYABLE and no job is added, yet the stored invoice is
-- still being sent, and from there no request to retry the transmission or to send the invoice changes
-- anything, however many come and whatever they find outside.
pub handle_submit-Stuck :
    (out : Outside) (id : ℕ) (t : Transmission) (inv : Invoice) (s : Outbox)
    → lookup id s.transmissions ≡ some t
    → lookup t.invoice_id s.invoices ≡ some inv
    → inv.status ≡ sending
    → is_sale inv.direction ≡ true
    → (e : KsefError) → submit_invoice_to_ksef out inv ≡ raised e
    → (code : ErrorCode) → cannot_ask e ≡ some code
    → Stuck id t.invoice_id inv s.jobs (handle_submit out id t.invoice_id s).1
unfolding put_transmission
handle_submit-Stuck out id t inv s found held away sale e fails code asks =
    rw (handle_submit-left out id t inv s found held e fails code asks) (record {
      last = with_failure failed_retryable code out.later (started out t);
      row = lookup-insert_self id _ _;
      retryable = refl;
      invoice = held;
      no_job = refl;
      ignored =
          run-Still (left id out t code s) id
            (with_failure failed_retryable code out.later (started out t)) inv
            (lookup-insert_self id _ _) held away sale;
    })
