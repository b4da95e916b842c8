-- ===== src/Document.antt =====
-- What sales and purchase documents have in common: the contact that a document is saved with, and
-- the layout that it prints with.
pub mod Contact
pub mod Template
mod Tests
