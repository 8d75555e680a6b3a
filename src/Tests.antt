-- ===== src/Tests.antt =====
-- Concrete inputs, and the theorems applied to them.
pub mod Stock
pub mod Papers
pub mod Texts
pub mod Money
pub mod Products
pub mod Keys
pub mod Invoicing
pub mod Sending
pub mod Linked
