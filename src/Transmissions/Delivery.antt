-- ===== src/Transmissions/Delivery.antt =====
-- An invoice that KSeF takes: the job that sends it, the jobs that ask for its status, and what the
-- answer makes of the transmission and the invoice.
use ifg.Base.{ℕ, false, Option, some, List, [], ◌∷◌, All, ◌≡◌, refl, sym, ap, ◌∙◌, arith}
use mathlib.Core.Path.{subst}
use ifg.Base.Dict.{lookup, lookup-insert_self}
use ifg.Base.Exec.{◌>>=◌}
use ifg.Invoices.Items.{Chars}
use ifg.Invoices.Validation.{Invoice, sending, accepted, is_falsy}
use ifg.Invoices.Status.{transition_to}
use ifg.Transmissions.Rows.{
  success, submitted, waiting_status, Transmission, Outbox, Outside, Answer, answered, raised,
  StatusResult,
}
use ifg.Transmissions.Repository.{put_transmission, put_invoice, add_job}
use ifg.Transmissions.Sync.{accept, with_reference}
use ifg.Transmissions.Sync.Outcome.{sync_accepts}
use ifg.Transmissions.Submit.{
  Sent, submit_invoice_to_ksef, mark_submitted, started, submit_one, handle_submit,
}
use ifg.Transmissions.Poll.{
  confirmed, in_queue, verdict, status_in_context, nip_of, is_final_transmission, poll_answered,
  poll_one, handle_poll, wait_and_retry, succeeded, fetch_and_save_upo, poll_by_answer,
}

-- What KSeF says of the invoice when the worker asks
abbrev asked : Outside → Invoice → Chars → Answer StatusResult
asked out inv reference = status_in_context out reference (out.context (nip_of (some inv)))

-- It answers with neither a number nor a refusal, or not at all.
abbrev Undecided : Invoice → Chars → Outside → Type 0
Undecided inv reference out =
    (r : StatusResult) → asked out inv reference ≡ answered r → verdict r.processing_code ≡ in_queue

-- The transmission waits for the status of an invoice that is being sent.
pub record Waits (id invoice_id : ℕ) (inv : Invoice) (s : Outbox) : Type 0 where
  pub row : Transmission
  pub found : lookup id s.transmissions ≡ some row
  pub of : row.invoice_id ≡ invoice_id
  pub open_still : is_final_transmission row.status ≡ false
  pub held : lookup invoice_id s.invoices ≡ some inv

-- The jobs that ask, one after the other
unfoldable pub ask_again : List Outside → ℕ → Chars → Outbox → Outbox
unfolding handle_poll
ask_again [] id reference s = s
ask_again (out ∷ outs) id reference s =
    ask_again outs id reference (handle_poll out id reference s).1

-- What is left when KSeF has given the invoice a number
pub record Delivered (id invoice_id : ℕ) (number : Option Chars) (s : Outbox) : Type 0 where
  pub last : Transmission
  pub row : lookup id s.transmissions ≡ some last
  pub for_good : last.status ≡ success
  pub numbered : last.ksef_reference_number ≡ number
  pub invoice : Invoice
  pub held : lookup invoice_id s.invoices ≡ some invoice
  pub taken : invoice.status ≡ accepted
  pub with_number : is_falsy number ≡ false → invoice.ksef_reference_number ≡ number

accept-accepted : (inv : Invoice) → (accept inv).status ≡ accepted
unfolding accept transition_to
accept-accepted inv = ground arith

numbered_invoice :
    (number : Option Chars) (inv : Invoice)
    → ((with_reference number inv).status ≡ inv.status)
      × (is_falsy number ≡ false → (with_reference number inv).ksef_reference_number ≡ number)
numbered_invoice number inv = ground arith

only_upo :
    (out : Outside) (t : Transmission) (reference url : Option Chars)
    → ((fetch_and_save_upo out t reference url).status ≡ t.status)
      × ((fetch_and_save_upo out t reference url).ksef_reference_number ≡ t.ksef_reference_number)
only_upo out t reference url = ground arith

module _ (out : Outside) (id : ℕ) (reference : Chars) (inv : Invoice) (s : Outbox) where
  polled :
      {invoice_id : ℕ} (w : Waits id invoice_id inv s)
      → (handle_poll out id reference s).1
        ≡ (poll_by_answer out id w.row reference (asked out inv reference) s).1
  unfolding handle_poll poll_one ◌>>=◌
  polled w = rw (w.found, w.open_still, w.of, w.held) refl

  Waits-on :
      {invoice_id : ℕ}
      → Waits id invoice_id inv s
      → (row : Transmission) → (row.invoice_id ≡ invoice_id)
      → is_final_transmission row.status ≡ false
      → Waits id invoice_id inv (wait_and_retry out id row reference s)
  unfolding wait_and_retry add_job put_transmission
  Waits-on w row of unfinished = record {
    row = record row { status = waiting_status };
    found = lookup-insert_self id _ _;
    of = of;
    open_still = refl;
    held = w.held;
  }

  by_answer-Waits :
      {invoice_id : ℕ} (w : Waits id invoice_id inv s) (a : Answer StatusResult)
      → ((r : StatusResult) → a ≡ answered r → verdict r.processing_code ≡ in_queue)
      → Waits id invoice_id inv (poll_by_answer out id w.row reference a s).1
  unfolding poll_answered ◌>>=◌
  by_answer-Waits w (raised e) undecided = Waits-on w w.row w.of w.open_still
  by_answer-Waits w (answered r) undecided =
      rw (undecided r refl) (Waits-on w w.row w.of w.open_still)

  asked-Waits :
      {invoice_id : ℕ}
      → Waits id invoice_id inv s
      → Undecided inv reference out
      → Waits id invoice_id inv (handle_poll out id reference s).1
  asked-Waits w undecided = rw (polled w) (by_answer-Waits w (asked out inv reference) undecided)

  confirmed_state :
      (t : Transmission)
      → lookup id s.transmissions ≡ some t
      → is_final_transmission t.status ≡ false
      → lookup t.invoice_id s.invoices ≡ some inv
      → inv.status ≡ sending
      → (r : StatusResult) → asked out inv reference ≡ answered r
      → verdict r.processing_code ≡ confirmed
      → (handle_poll out id reference s).1
        ≡ put_transmission id
            (fetch_and_save_upo out (succeeded out r t) r.ksef_reference_number r.upo_url)
            (put_invoice t.invoice_id (with_reference r.ksef_reference_number (accept inv)) s)
  unfolding handle_poll poll_one poll_answered ◌>>=◌
  confirmed_state t found unfinished held away r says number =
      rw
        (
          found,
          unfinished,
          held,
          says,
          number,
          sync_accepts t.invoice_id inv s held away r.ksef_reference_number,
        )
        refl

  confirmed_row-Delivered :
      (t : Transmission)
      → lookup id s.transmissions ≡ some t
      → is_final_transmission t.status ≡ false
      → lookup t.invoice_id s.invoices ≡ some inv
      → inv.status ≡ sending
      → (r : StatusResult) → asked out inv reference ≡ answered r
      → verdict r.processing_code ≡ confirmed
      → Delivered id t.invoice_id r.ksef_reference_number (handle_poll out id reference s).1
  unfolding put_transmission put_invoice
  confirmed_row-Delivered t found unfinished held away r says number =
      subst (Delivered id t.invoice_id r.ksef_reference_number)
        (sym (confirmed_state t found unfinished held away r says number))
        (record {
          last = fetch_and_save_upo out (succeeded out r t) r.ksef_reference_number r.upo_url;
          row = lookup-insert_self id _ _;
          for_good = (only_upo out (succeeded out r t) r.ksef_reference_number r.upo_url).0;
          numbered = (only_upo out (succeeded out r t) r.ksef_reference_number r.upo_url).1;
          invoice = with_reference r.ksef_reference_number (accept inv);
          held = lookup-insert_self t.invoice_id _ _;
          taken = (numbered_invoice r.ksef_reference_number (accept inv)).0 ∙ accept-accepted inv;
          with_number = (numbered_invoice r.ksef_reference_number (accept inv)).1;
        })

  confirmed-Delivered :
      {invoice_id : ℕ}
      → Waits id invoice_id inv s
      → inv.status ≡ sending
      → (r : StatusResult) → asked out inv reference ≡ answered r
      → verdict r.processing_code ≡ confirmed
      → Delivered id invoice_id r.ksef_reference_number (handle_poll out id reference s).1
  confirmed-Delivered {invoice_id} w away r says number =
      subst (λ i. Delivered id i r.ksef_reference_number (handle_poll out id reference s).1) w.of
        (confirmed_row-Delivered w.row w.found w.open_still
          (ap (λ i. lookup i s.invoices) w.of ∙ w.held) away r says number)

ask_again-Waits :
    (outs : List Outside) (id invoice_id : ℕ) (reference : Chars) (inv : Invoice) (s : Outbox)
    → Waits id invoice_id inv s
    → All (Undecided inv reference) outs
    → Waits id invoice_id inv (ask_again outs id reference s)
unfolding ask_again
ask_again-Waits [] id invoice_id reference inv s w undecided = w
ask_again-Waits (out ∷ outs) id invoice_id reference inv s w undecided =
    ask_again-Waits outs id invoice_id reference inv _
      (asked-Waits out id reference inv s w undecided.0) undecided.1

handle_submit-Waits :
    (out : Outside) (id : ℕ) (t : Transmission) (inv : Invoice) (s : Outbox)
    → lookup id s.transmissions ≡ some t
    → lookup t.invoice_id s.invoices ≡ some inv
    → (sent : Sent) → submit_invoice_to_ksef out inv ≡ answered sent
    → Waits id t.invoice_id inv (handle_submit out id t.invoice_id s).1
unfolding handle_submit submit_one mark_submitted add_job put_transmission ◌>>=◌
handle_submit-Waits out id t inv s found held sent took =
    rw (found, held, took)
      (record {
        row = record (started out t) {
          status = submitted;
          external_reference = some sent.reference_number;
          xml_content = some sent.xml_bytes;
          finished_at = some out.later;
        };
        found = lookup-insert_self id _ _;
        of = refl;
        open_still = refl;
        held = held;
      })

-- An invoice that is being sent and that KSeF takes: however often the worker then asks without a
-- decision, the first answer that confirms it leaves the transmission in SUCCESS with the number that
-- KSeF gave, and the invoice ACCEPTED, under that number unless it is empty.
pub ask_again-Delivered :
    (out : Outside) (id : ℕ) (t : Transmission) (inv : Invoice) (s : Outbox)
    → lookup id s.transmissions ≡ some t
    → lookup t.invoice_id s.invoices ≡ some inv
    → inv.status ≡ sending
    → (sent : Sent) → submit_invoice_to_ksef out inv ≡ answered sent
    → (outs : List Outside) → All (Undecided inv sent.reference_number) outs
    → (final : Outside) (r : StatusResult) → asked final inv sent.reference_number ≡ answered r
    → verdict r.processing_code ≡ confirmed
    → Delivered id t.invoice_id r.ksef_reference_number
        (handle_poll final id sent.reference_number
          (ask_again outs id sent.reference_number (handle_submit out id t.invoice_id s).1)).1
ask_again-Delivered out id t inv s found held away sent took outs undecided final r says number =
    confirmed-Delivered final id sent.reference_number inv _
      (ask_again-Waits outs id t.invoice_id sent.reference_number inv _
        (handle_submit-Waits out id t inv s found held sent took) undecided)
      away r says number
