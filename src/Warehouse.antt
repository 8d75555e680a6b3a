-- ===== src/Warehouse.antt =====
-- Warehouse documents and FIFO stock: app/services/warehouse_document_service.py.
pub mod Rows
pub mod Repository
pub mod Fifo
pub mod Invariant
pub mod Posting
pub mod Documents
pub mod History
