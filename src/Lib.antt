-- ===== src/Lib.antt =====
-- The bookkeeping core of an invoicing back end: what documents amount to, what is paid on
-- invoices, and which changes of a document are let through.
--
-- The parts and how they interact. A document's lines are computed by utils/linecalc.go, which
-- the services of invoices and orders call. A confirmed sales invoice is paid by receipts, which
-- allocate money to several invoices at once, and by payments, which count once they are
-- verified; both go through app/repository/invoice_balance.go, which keeps each invoice's paid
-- amount and payment status. On the purchase side a bill is paid by purchase receipts, through
-- app/repository/purchase_invoice_balance.go. Documents get their numbers by a scan of the
-- numbers in use. The journal is separate from these. The activation milestone of a free
-- workspace sets limits that the services of documents ask before they create one.
--
-- The files:
-- - Base, Text, Calendar: lists, options, results, Go's strings as lists of code points, dates as
--   time.Parse reads them with the layout 2006-01-02.
-- - Money: float64 as an abstract interface, `Float`, with the laws that a theorem may name:
--   `IsOrdered` for the comparisons and `IsCents` for amounts that are whole cents. Money/Fixed
--   is a concrete instance, decimals with four places, on which the tests and examples run.
-- - LineCalc: utils/linecalc.go (CalcLines is `calc_lines`). LineCalc/Stored: the rows that a
--   document's lines are stored as.
-- - Numbering: the scan and the next number of app/repository/sales_receipt.repository.go
--   (generateSalesReceiptNumber) and its like. An int is 64 bits wide; the next number wraps there.
-- - Document: what documents share, the contact that one is saved with
--   (app/repository/contact_person.repository.go) and its layout
--   (app/repository/document_template.repository.go).
-- - Store: the database as tables under primary keys, actions that may fail, and transactions,
--   which take back what was written when their body fails. Store/Outcome: the ways in which a
--   call ends, step by step. Store/Rows and Store/Entries: what holds of all rows of a table.
-- - Ledger: the abstract view of what is paid, how many cents on each invoice or bill.
-- - Sales/Model: the rows of app/model that the sales side uses. Sales/Balance:
--   app/repository/invoice_balance.go. Sales/Receipt:
--   app/repository/sales_receipt.repository.go and app/service/sales_receipt.service.go.
--   Sales/Payment: app/repository/sales_payment.repository.go and
--   app/service/sales_payment.service.go. Sales/Invoice: the totals and the lifecycle of
--   app/service/sales_invoice.service.go with the repository's methods for them.
--   Sales/Invoice/Save: creating and editing one.
-- - Sales/Balance/Ledger, Sales/Balance/Bounds and Sales/Receipt/Ledger: the specification, a
--   ledger of the cents that are paid on each invoice. Sales/Books: what the tables say has
--   been paid, and the invariant that ties the invoices to it, against receipts, payments,
--   saving and changes of status. Sales/Receipt/Accept: receipts that fit are accepted.
-- - Purchase/Model: the rows of the purchase side. Purchase/Balance:
--   app/repository/purchase_invoice_balance.go. Purchase/Receipt:
--   app/repository/purchase_receipt.repository.go and app/service/purchase_receipt.service.go.
--   Purchase/Invoice and Purchase/Invoice/Save: app/service/purchase_invoice.service.go and
--   app/repository/purchase_invoice.repository.go. Purchase/Calls: the calls of these services, one
--   after another.
-- - Purchase/Balance/Ledger and Purchase/Books: the bills against a ledger, the invariant of the
--   purchase side and, in Purchase/Books/Runs, sequences of calls.
-- - Order and Order/Service: app/repository/sales_order.repository.go and
--   app/service/sales_order.service.go, once for both kinds of orders; Order/Purchase names the
--   operations of app/repository/purchase_order.repository.go and
--   app/service/purchase_order.service.go. Order/Calls: the calls of these services. Order/Lawful,
--   Order/Steps, Order/Histories and Order/Answers: what a call may change, and what it answers.
-- - Journal and Journal/Save: app/service/journal.service.go and the methods of
--   app/repository/journal.repository.go that it calls. Journal/Balanced, Journal/Posted,
--   Journal/Entered, Journal/Books, Journal/Calls, Journal/Keys and
--   Journal/Immutable: its laws.
-- - Activation: app/service/activation.service.go and app/domain/activation.
-- - Tests modules: runs on concrete inputs, and the theorems at concrete inputs.
--
-- Bounds and fuel. All loops are structural but for the printing of a number, `decimal`, whose fuel
-- is the number itself plus one, more than it has digits. Amounts are bounded by a parameter of
-- `IsCents`. The counts of app/service/activation.service.go are 64 bits wide and wrap.
--
-- What is not modelled. Requests arrive decoded and validated. The IDs that uuid draws and the
-- time are arguments. SQL's lower() and strings.EqualFold are parameters (`Collation`). The
-- database's own failures are left out, but for two that the state of the program decides, an
-- empty list of rows to insert and the unique index on idempotency keys, as are the free text
-- and audit columns of a document, and row locks, since a transaction is one step here. The
-- columns of amounts round to cents. The journal's do so here; the other amounts are read back
-- as they were written, and the theorems on books are about amounts of whole cents. Deliveries,
-- onboarding, reports and master data are not modelled; nor are the HTTP layer, the SSO service
-- and the sanitizing of rich text, which are input and output or calls of third-party code.
pub mod Base
pub mod Text
pub mod Calendar
pub mod Numbering
pub mod Money
pub mod LineCalc
pub mod Store
pub mod Document
pub mod Ledger
pub mod Sales
pub mod Purchase
pub mod Order
pub mod Journal
pub mod Activation
