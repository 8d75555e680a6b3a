-- ===== src/Transmissions.antt =====
-- Sending invoices to KSeF: app/services/transmission_service.py and the worker under app/worker/.
pub mod Rows
pub mod Repository
pub mod Sync
pub mod Guards
pub mod Service
pub mod Submit
pub mod Poll
pub mod Import
pub mod Worker
pub mod Lifecycle
pub mod Events
pub mod Accepted
pub mod Carried
pub mod InFlight
pub mod Stuck
pub mod Delivery
pub mod Attempts
