-- ===== src/Tests/Sending.antt =====
-- One sale and one purchase on their way to KSeF.
use ifg.Base.{◌≤◌, ℕ, true, none, some, List, [], ◌∷◌, ◌+◌, ◌+ℤ◌, ◌-ℤ◌, length, ◌≡◌, refl, arith}
use ifg.Base.Dict.{lookup}
use ifg.Base.Exec.{ok, ◌>>=◌, transaction}
use ifg.Decimal.{quantize}
use ifg.Payments.Rows.{purchase}
use ifg.Settings.{
  SellerFields, validate_company_snapshot, validate_company_snapshot-validate_party_snapshot,
}
use ifg.Invoices.Items.{Chars, build_item, validate_sums}
use ifg.Invoices.Validation.{
  Invoice, Snapshot, sending, validate_sale_formal_requirements, validate_sale,
  validate_party_snapshot, has_minimum_address, validate_positions, validate_for_ksef, validate_vat,
  validate_zal,
}
use ifg.Invoices.Nip.{is_valid_nip}
use ifg.Invoices.Status.{with_status, can_transition, transition_to}
use ifg.Transmissions.Rows.{
  Transmission, Outbox, Outside, answered, raised, not_connected, client_error, StatusResult,
  Received, connected, offline, ksef_not_connected,
}
use ifg.Transmissions.Guards.{ensure_no_active_transmission, build_idempotency_key}
use ifg.Transmissions.Service.{
  new_transmission, submit, submit_fresh, prepare_sale_invoice_for_submit,
  validate_invoice_before_enqueue, enqueue, mark_invoice_as_sending,
}
use ifg.Transmissions.Repository.{
  get_active_for_invoice, add_transmission, update_invoice, put_invoice, add_job, record_event,
}
use ifg.Transmissions.Submit.{submit_invoice_to_ksef, Sent, handle_submit}
use ifg.Transmissions.Submit.Outage.{IsOut, GaveUp, resend, resend-GaveUp}
use ifg.Transmissions.Stuck.{Stuck, handle_submit-Stuck}
use ifg.Transmissions.Poll.{in_queue, verdict, handle_poll}
use ifg.Transmissions.Delivery.{Delivered, ask_again, ask_again-Delivered}
use ifg.Transmissions.Events.{Event, submit_request, batch, run}
use ifg.Transmissions.Lifecycle.{Follows}
use ifg.Transmissions.Accepted.{run-Follows}
use ifg.Transmissions.Carried.{Carrier}
use ifg.Transmissions.InFlight.{unsent, run-Carrier}
use ifg.Transmissions.Attempts.Bounds.{run-attempt_no}
use ifg.Transmissions.Import.{import_all, no_counts}
use ifg.Transmissions.Import.Again.{import_all-again}
use ifg.Transmissions.Import.Totals.{total, import_all-totals}
use ifg.Tests.Invoicing.{ready, party, text, tax_number}

abbrev number : Chars
number = b'K' ∷ b'1' ∷ []

abbrev company : SellerFields
company = record {
  nip = some text;
  name = some text;
  street = some text;
  building_no = none;
  apartment_no = none;
  postal_code = none;
  city = some text;
  country = none;
}

abbrev response : ℕ → StatusResult
response code = record {
  processing_code = code;
  ksef_reference_number = some number;
  upo_url = none;
}

-- KSeF works, takes what is sent and answers a question with the code.
abbrev working : ℕ → Outside
working code = record {
  now = 100;
  later = 101;
  env = company;
  row = none;
  to_xml = λ inv. some (1 ∷ []);
  content_hash = λ xml. some 7;
  connection = λ nip. connected;
  context = λ nip. answered tt;
  send = λ xml. answered number;
  invoice_status = λ reference. answered (response code);
  upo = λ url. answered [];
  received = λ nip. answered [];
}

-- Nothing can be sent: the service answers 503.
abbrev down : Outside
down = record (working 200) { send = λ xml. raised (client_error (some 503) true) }

-- The health check of the session fails.
abbrev unplugged : Outside
unplugged = record (working 200) { connection = λ nip. offline }

abbrev bought : Invoice
bought = record ready { status = sending; direction = purchase }

abbrev sold : Invoice
sold = with_status sending ready

abbrev with_row : Invoice → Outbox
with_row inv = record {
  next_id = 2;
  transmissions = (1, new_transmission 0 7 90) ∷ [];
  invoices = (0, inv) ∷ [];
  jobs = [];
  audit = [];
}

abbrev row : Transmission
row = new_transmission 0 7 90

refused_for_now : submit_invoice_to_ksef down bought ≡ raised (client_error (some 503) true)
unfolding submit_invoice_to_ksef
refused_for_now = refl

resend-GaveUp_example :
    GaveUp 1 0 bought (resend (down ∷ down ∷ down ∷ down ∷ down ∷ []) 1 0 (with_row bought))
resend-GaveUp_example =
    resend-GaveUp 1 bought refl (down ∷ down ∷ down ∷ down ∷ down ∷ []) row (with_row bought) refl
      refl (again, (again, (again, (again, (again, tt))))) (omega arith) refl
  where
    again : IsOut bought down
    again = (some 503, refused_for_now)

cut_off : submit_invoice_to_ksef unplugged sold ≡ raised not_connected
unfolding submit_invoice_to_ksef validate_sale_formal_requirements validate_sale
    validate_party_snapshot has_minimum_address validate_positions validate_sums build_item quantize
    ◌+ℤ◌ ◌-ℤ◌
cut_off = refl

handle_submit-Stuck_example : Stuck 1 0 sold [] (handle_submit unplugged 1 0 (with_row sold)).1
handle_submit-Stuck_example =
    handle_submit-Stuck unplugged 1 row sold (with_row sold) refl refl refl refl not_connected
      cut_off ksef_not_connected refl

abbrev receipt : Sent
receipt = record { reference_number = number; idempotency_key = 7; xml_bytes = 1 ∷ [] }

sent_off : submit_invoice_to_ksef (working 100) bought ≡ answered receipt
unfolding submit_invoice_to_ksef
sent_off = refl

ask_again-Delivered_example :
    Delivered 1 0
      (some number)
      (handle_poll (working 200) 1 number (
        ask_again
          (working 100 ∷ working 100 ∷ [])
          1
          number
          (handle_submit (working 100) 1 0 (with_row bought)).1)).1
ask_again-Delivered_example =
    ask_again-Delivered (working 100) 1 row bought (with_row bought) refl refl refl receipt sent_off
      (working 100 ∷ working 100 ∷ []) (waits, (waits, tt)) (working 200) (response 200) refl refl
  where
    waits :
        (r : StatusResult)
        → answered (response 100) ≡ answered r
        → verdict r.processing_code ≡ in_queue
    waits r e = let same : response 100 ≡ r = cc in rw (← same) refl

abbrev story : List Event
story =
    submit_request (working 100) 0
    ∷ batch (λ id. working 100)
    ∷ batch (λ id. working 200)
    ∷ submit_request (working 100) 0
    ∷ []

run-Follows_example : Follows (unsent 1 ((0, ready) ∷ [])) (run story (unsent 1 ((0, ready) ∷ [])))
run-Follows_example = run-Follows story (unsent 1 ((0, ready) ∷ []))

abbrev buyable : Invoice
buyable = record ready {
  direction = purchase;
  seller_snapshot = record party { nip = some tax_number };
  buyer_snapshot = record party { nip = some tax_number };
}

submitted_once :
    lookup 1
      (run (submit_request (working 100) 0 ∷ []) (unsent 1 ((0, buyable) ∷ []))).transmissions
    ≡ some (new_transmission 0 7 100)
unfolding run transaction submit submit_fresh ensure_no_active_transmission get_active_for_invoice
    prepare_sale_invoice_for_submit validate_invoice_before_enqueue validate_for_ksef validate_vat
    validate_zal is_valid_nip validate_sale_formal_requirements can_transition transition_to
    build_idempotency_key enqueue add_transmission mark_invoice_as_sending update_invoice
    put_invoice add_job record_event build_item quantize ◌>>=◌ ◌+ℤ◌ ◌-ℤ◌
submitted_once = refl

run-Carrier_example :
    Carrier 1
      (new_transmission 0 7 100)
      (run (submit_request (working 100) 0 ∷ []) (unsent 1 ((0, buyable) ∷ []))).jobs
run-Carrier_example =
    run-Carrier 1 ((0, buyable) ∷ []) (submit_request (working 100) 0 ∷ []) 1
      (new_transmission 0 7 100) submitted_once refl

run-attempt_no_example :
    (1 ≤ (new_transmission 0 7 100).attempt_no) × ((new_transmission 0 7 100).attempt_no ≤ 5)
run-attempt_no_example =
    run-attempt_no 1 ((0, buyable) ∷ []) (submit_request (working 100) 0 ∷ []) 1
      (new_transmission 0 7 100) submitted_once

abbrev known : Received
known = record { ksef_reference_number = number; parsed = some bought }

abbrev unreadable : Received
unreadable = record { ksef_reference_number = text; parsed = none }

import_all-again_example :
    let s = (import_all (known ∷ unreadable ∷ known ∷ []) no_counts (with_row sold)).1 in
    ((import_all (known ∷ unreadable ∷ known ∷ []) no_counts s).1 ≡ s)
    × ((import_all (known ∷ unreadable ∷ known ∷ []) no_counts s).0.saved ≡ 0)
import_all-again_example = import_all-again (known ∷ unreadable ∷ known ∷ []) (with_row sold)

import_all-totals_example :
    let (counts, s) = import_all (known ∷ unreadable ∷ known ∷ []) no_counts (with_row sold) in
    (total counts ≡ 3) × (length s.invoices ≡ 1 + counts.saved)
import_all-totals_example = import_all-totals (known ∷ unreadable ∷ known ∷ []) (with_row sold)

abbrev full_party : Snapshot
full_party = record party { country = some text; street = some text; city = some text }

passes_settings : validate_company_snapshot full_party ≡ ok tt
unfolding validate_company_snapshot
passes_settings = refl

validate_company_snapshot-validate_party_snapshot_example :
    validate_party_snapshot full_party ≡ ok tt
validate_company_snapshot-validate_party_snapshot_example =
    validate_company_snapshot-validate_party_snapshot full_party passes_settings
