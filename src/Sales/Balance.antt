-- ===== src/Sales/Balance.antt =====
-- app/repository/invoice_balance.go: the only code that moves what has been paid on an invoice.
pub mod Ledger
pub mod Bounds
use invoicing_be.Base.{
  Bool, true, false, not, ◌&&◌, Option, none, some, if◌then◌else◌, Result, ok, err,
}
use invoicing_be.Text.{Text}
use invoicing_be.Money.{Float, ◌⊕◌, ◌⊖◌, ◌≺◌, ◌≼◌, round2}
use invoicing_be.Store.{or_fail, guard, modify, ◌>>=◌, ◌>>◌}
use invoicing_be.Store.Table.{update}
use invoicing_be.Sales.Model.{
  SalesInvoice, SalesInvoicePaymentStatus, unpaid, partially_paid, paid, is_confirmed, Db,
  SalesError, invoice_not_confirmed, invoice_exceeds_balance, record_not_found, SalesAction,
  find_invoice, unscoped_invoice,
}

module _ {ℓ} {W : Type ℓ} where
  abbrev pub change_invoice : Text → (SalesInvoice W → SalesInvoice W) → Db W → Db W
  change_invoice id g db = record db { invoices = update id g db.invoices }

module _ {ℓ} {W : Type ℓ} ⦃f : Float W⦄ where
  -- The `switch` of applySalesInvoicePayment.
  unfoldable pub applied_status : W → W → SalesInvoicePaymentStatus
  applied_status paid_amount grand =
      if grand ≼ paid_amount
      then paid
      else if f.nought ≺ paid_amount
      then partially_paid
      else unpaid

  -- The `switch` of reverseSalesInvoicePayment and of refreshSalesInvoicePaymentStatus.
  unfoldable pub derived_status : W → W → SalesInvoicePaymentStatus
  derived_status paid_amount grand =
      if (grand ≼ paid_amount) && (f.nought ≺ grand)
      then paid
      else if f.nought ≺ paid_amount
      then partially_paid
      else unpaid

  abbrev pub set_paid : W → SalesInvoicePaymentStatus → SalesInvoice W → SalesInvoice W
  set_paid amount status i = record i { paid_amount = amount; payment_status = status }

  unfoldable pub apply_sales_invoice_payment : Text → Text → W → SalesAction W (Unit {0})
  unfolding applied_status ◌>>=◌
  apply_sales_invoice_payment company id amount = λ db.
      (do
        invoice ← or_fail invoice_not_confirmed (find_invoice db company id)
        guard (is_confirmed invoice.status) invoice_not_confirmed
        let remaining = round2 (invoice.grand_total ⊖ invoice.paid_amount)
        guard (not (remaining ≺ amount)) (invoice_exceeds_balance remaining)
        let paid_amount = round2 (invoice.paid_amount ⊕ amount)
        modify (
            change_invoice id
              (set_paid paid_amount (applied_status paid_amount invoice.grand_total))))
        db

  abbrev not_below_nought : W → W
  not_below_nought x = if x ≺ f.nought then f.nought else x

  unfoldable pub reverse_sales_invoice_payment : Text → Text → W → SalesAction W (Unit {0})
  unfolding derived_status ◌>>=◌
  reverse_sales_invoice_payment company id amount = λ db.
      (do
        invoice ← or_fail record_not_found (unscoped_invoice db company id)
        let paid_amount = not_below_nought (round2 (invoice.paid_amount ⊖ amount))
        modify (
            change_invoice id
              (set_paid paid_amount (derived_status paid_amount invoice.grand_total))))
        db

  unfoldable pub refresh_sales_invoice_payment_status : Text → Text → SalesAction W (Unit {0})
  unfolding derived_status ◌>>=◌
  refresh_sales_invoice_payment_status company id = λ db.
      (do
        invoice ← or_fail record_not_found (find_invoice db company id)
        modify (
            change_invoice id λ i. record i {
              payment_status = derived_status invoice.paid_amount invoice.grand_total;
            }))
        db
