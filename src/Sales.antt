-- ===== src/Sales.antt =====
-- The sales side: invoices, the payments and receipts against them, and the invoices' lifecycle.
pub mod Model
pub mod Balance
pub mod Receipt
pub mod Payment
pub mod Invoice
pub mod Books
mod Sample
pub mod Tests
