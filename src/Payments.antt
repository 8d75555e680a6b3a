-- ===== src/Payments.antt =====
-- Bank transfers and their allocation to invoices: app/services/payment_service.py.
pub mod Rows
pub mod Repository
pub mod Allocation
pub mod Form
pub mod Settled
pub mod Effect
pub mod Reversal
pub mod Manual
pub mod Settling
pub mod Undo
