-- ===== src/Warehouse/Documents/Numbers.antt =====
-- The numbers of posted documents.
pub mod Sequence
pub mod Unique
pub mod Keeping
