-- ===== src/Purchase.antt =====
-- The purchase side: a vendor's bills, and the receipts that pay them.
pub mod Model
pub mod Balance
pub mod Receipt
pub mod Invoice
pub mod Calls
pub mod Books
mod Tests
