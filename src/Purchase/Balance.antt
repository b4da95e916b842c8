-- ===== src/Purchase/Balance.antt =====
-- app/repository/purchase_invoice_balance.go: the only code that moves what has been paid on a bill.
pub mod Ledger
use invoicing_be.Base.{
  Bool, true, false, not, ◌&&◌, Option, none, some, if◌then◌else◌, Result, ok, err,
}
use invoicing_be.Text.{Text, lit, ◌≐◌}
use invoicing_be.Money.{Float, ◌⊕◌, ◌⊖◌, ◌≺◌, ◌≼◌, round2}
use invoicing_be.Store.{pure, or_fail, guard, modify, ◌>>=◌, ◌>>◌}
use invoicing_be.Store.Table.{update}
use invoicing_be.Purchase.Model.{
  PurchaseInvoice, PurchaseInvoicePaymentStatus, unpaid, partially_paid, paid, is_confirmed, Db,
  PurchaseError, invoice_not_confirmed, invoice_mismatch, invoice_exceeds_balance, PurchaseAction,
  find_purchase_invoice, unscoped_purchase_invoice,
}

module _ {ℓ} {W : Type ℓ} where
  abbrev pub change_invoice : Text → (PurchaseInvoice W → PurchaseInvoice W) → Db W → Db W
  change_invoice id g db = record db { invoices = update id g db.invoices }

module _ {ℓ} {W : Type ℓ} ⦃f : Float W⦄ where
  unfoldable pub purchase_payment_status : W → W → PurchaseInvoicePaymentStatus
  purchase_payment_status paid_amount total =
      if (f.nought ≺ total) && (total ≼ paid_amount)
      then paid
      else if f.nought ≺ paid_amount
      then partially_paid
      else unpaid

  abbrev pub set_paid : W → PurchaseInvoice W → PurchaseInvoice W
  set_paid amount i = record i {
    paid_amount = amount;
    payment_status = purchase_payment_status amount i.grand_total;
  }

  abbrev pub bill_not_found : PurchaseError W
  bill_not_found = invoice_mismatch (lit "purchase invoice not found")

  unfoldable pub lock_purchase_invoice : Text → Text → PurchaseAction W (PurchaseInvoice W)
  lock_purchase_invoice company id db =
      or_fail bill_not_found (find_purchase_invoice db company id) db

  abbrev pub wrong_partner : PurchaseError W
  wrong_partner = invoice_mismatch (lit "purchase invoice does not belong to the selected partner")

  unfoldable pub apply_purchase_invoice_payment :
      Text → Text → Text → W → PurchaseAction W (Unit {0})
  apply_purchase_invoice_payment company id mitra amount = do
    invoice ← lock_purchase_invoice company id
    guard (invoice.mitra_id ≐ mitra) wrong_partner
    guard (is_confirmed invoice.status) invoice_not_confirmed
    let remaining = round2 (invoice.grand_total ⊖ invoice.paid_amount)
    guard (not (remaining ≺ amount)) (invoice_exceeds_balance remaining)
    modify (change_invoice id (set_paid (round2 (invoice.paid_amount ⊕ amount))))

  -- A bill that is gone is passed over.
  unfoldable pub reverse_purchase_invoice_payment : Text → Text → W → PurchaseAction W (Unit {0})
  reverse_purchase_invoice_payment company id amount db =
      elim (unscoped_purchase_invoice db company id) [
        | none ↦ (ok tt, db)
        | some invoice ↦
            (let left = round2 (invoice.paid_amount ⊖ amount) in
              let paid_amount = (if left ≺ f.nought then f.nought else left) in
              (ok tt, change_invoice id (set_paid paid_amount) db))
      ]

  unfoldable pub refresh_purchase_invoice_payment_status : Text → Text → PurchaseAction W (Unit {0})
  refresh_purchase_invoice_payment_status company id = do
    invoice ← lock_purchase_invoice company id
    modify (change_invoice id λ i. set_paid invoice.paid_amount i)
