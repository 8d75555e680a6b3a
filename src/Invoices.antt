-- ===== src/Invoices.antt =====
-- Invoices: app/services/invoice_totals.py and app/domain/models/invoice.py.
pub mod Items
pub mod Totals
pub mod Nip
pub mod Validation
pub mod Status
