-- ===== src/Lib.antt =====
-- A verification library for the invoicing backend under app/: what its services do to the tables,
-- and what that guarantees.
--
-- The program's parts and the files that model them:
--   * Decimal, Decimal/Rounding: `decimal.Decimal` with ROUND_HALF_UP, as the services use it
--     (`_to_dec` of app/services/warehouse_document_service.py). A stored amount with a fixed number
--     of places is an integer, so many units of its last place.
--   * Numeral, Numeral/Reading: numerals in f-strings, and `InvoiceNumberPolicy.generate` of
--     app/services/invoice_number_policy.py.
--   * Invoices: Items and Totals are `InvoiceTotalsCalculator` of app/services/invoice_totals.py;
--     Validation, Nip and Status the checks and the state machine of `Invoice` in
--     app/domain/models/invoice.py, and Nip/OneDigit what the checksum of a tax number notices. Texts
--     are lists of code points there.
--   * Warehouse: `WarehouseDocumentService` of app/services/warehouse_document_service.py on the
--     tables of app/persistence/models/. Rows has the tables as one record, `Warehouse`; Repository
--     the queries of inventory_layer_repository.py and warehouse_document_repository.py; Fifo
--     `_consume_fifo`; Posting `post_document` with `_post_pz`, `_post_wz` and `_post_kk`; Documents
--     `create_document`, `update_document` and `cancel_document`; History the requests of
--     app/api/routers/warehouse_documents.py, one after the other, each in a session of
--     app/persistence/db.py that is rolled back when the service raises.
--   * Payments: `PaymentService` of app/services/payment_service.py on the tables of transfers,
--     allocations and invoices. Repository has the queries of payment_allocation_repository.py and
--     bank_transaction_repository.py; Allocation `_do_allocate`, `allocate_manual` and
--     `reverse_allocation`; Form `set_invoice_form_payment`; Settled, Effect, Reversal, Manual, Undo
--     and Settling what they keep and do. Amounts are in hundredths.
--   * Stock: `StockService` of app/services/stock_service.py with `Stock.apply_movement` of
--     app/domain/models/stock.py; Stock/Tally what it keeps.
--   * Idempotency: `IdempotencyService` of app/services/idempotency_service.py; the hash of a body is a
--     parameter.
--   * Settings: `SettingsService` of app/services/settings_service.py, the seller's data on a sale.
--   * Transmissions: how an invoice is sent to KSeF. Rows has the tables as one record, `Outbox`, and
--     in `Outside` what a request or a job finds outside of them; Repository the queries of
--     transmission_repository.py, job_repository.py and invoice_repository.py; Guards and
--     Service `TransmissionService` of app/services/transmission_service.py as app/api/deps.py wires it, with
--     `ensure_number_local` of app/services/invoice_service.py; Sync
--     `sync_invoice_from_terminal_transmission`; Submit and Poll the handlers of
--     app/worker/job_handlers/submit_invoice.py and poll_ksef_status.py; Import
--     `sync_received_invoices` of app/services/ksef_session_service.py; Worker `_process_batch` of
--     app/worker/__main__.py; Events the requests of app/api/routers/transmissions.py and the batches
--     in any order. Lifecycle and Accepted follow the invoices, Carried and InFlight the jobs,
--     Attempts the attempts, and Submit/Outage, Delivery and Stuck single transmissions; Import/Again
--     and Import/Totals are about the import.
--   * Sessions: `KSeFSessionService` of app/services/ksef_session_service.py on the table of
--     app/persistence/models/ksef_session.py, with the routes of app/api/routers/ksef_session.py as
--     calls in any order: Rows the table and the answers, Service and Status the methods, Count, Single,
--     Probe, Stale, Connected and Opened what the calls keep and do. The transmissions take
--     the session service as a parameter, since the worker and the requests run beside its calls.
--   * Base: integers over the native natural numbers, dicts as association lists (Base/Dict), the
--     service methods as functions from a state to a result and a state (Base/Exec), and rules for
--     what such methods keep (Base/Keeps), ensure (Base/Ensures) and
--     make of a condition (Base/Triple).
--   * Tests: concrete inputs.
--
-- Conventions. A key from `uuid4()` is the next number that no row has had. An ORDER BY breaks ties by
-- the order of insertion. Texts of errors are not modelled, nor are dates and times except as numbers.
-- `_to_dec` of a stored quantity is the quantity, so it is written only where a request comes in.
-- Decimals are exact: the 28 digits of the context, NaN, infinities, and the overflow of a database
-- column are not modelled. `show` divides with fuel n + 1, which is enough since each
-- round divides by ten.
--
-- An amount that reaches `set_invoice_form_payment` or `allocate_manual` has two places already. The
-- external id of the transaction for an invoice's form, a text made of the invoice's id, is a
-- constructor. Calls come one after the other: the locks of rows are not modelled.
--
-- Of sending, the XML of an invoice, its hash, the session of KSeF and the answers of KSeF are
-- functions in `Outside`, which may differ from one request or job to the next. A date is a number,
-- y · 372 + (m − 1) · 31 + (d − 1); times are in seconds. A row that a repository maps to a domain
-- object is a copy until `update` writes it back.
--
-- Not modelled: the cache of tokens, which no result depends on, the import and the matching of
-- transfers, the read-only queries for responses, the HTTP layer, the clients of the network
-- services, the PDF output, authentication, the frontend and the tools.
pub mod Base
pub mod Decimal
pub mod Transmissions
pub mod Warehouse
pub mod Idempotency
pub mod Invoices
pub mod Numeral
pub mod Payments
pub mod Settings
pub mod Stock
pub mod Tests
pub mod Sessions
