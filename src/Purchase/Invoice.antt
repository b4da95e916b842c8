-- ===== src/Purchase/Invoice.antt =====
-- app/service/purchase_invoice.service.go: the totals of a bill and its lifecycle, with the methods
-- of app/repository/purchase_invoice.repository.go and app/repository/references.go that it calls.
pub mod Save
use invoicing_be.Base.{
  Bool, true, false, not, ◌&&◌, ◌||◌, Option, none, some, List, [], ◌∷◌, if◌then◌else◌, Result, ok,
  and_then, require, map_err,
}
use invoicing_be.Text.{Text, lit, ◌≐◌}
use invoicing_be.LineCalc.{LineInput, LinesCalc, calc_lines}
use invoicing_be.Money.{Float, ◌⊕◌, ◌≺◌, round2}
use invoicing_be.Store.{or_fail, gets, guard, modify, lift, ◌>>=◌, ◌>>◌}
use invoicing_be.Store.Table.{Table}
use invoicing_be.Document.Template.{is_valid_sales_invoice_template}
use invoicing_be.Sales.Invoice.{referenced_taxes, tax_rates, saved_lines}
use invoicing_be.Purchase.Model.{
  PurchaseInvoice, PurchaseInvoiceStatus, draft, confirmed, cancelled, is_draft, is_cancelled,
  PurchaseReceipt, Db, PurchaseError, not_found, validation, bad_line, invalid_transition, in_use,
  PurchaseAction, find_purchase_invoice,
}
use invoicing_be.Purchase.Balance.{change_invoice}

abbrev pub names_bill : Text → Option Text → Bool
names_bill id none = false
names_bill id (some bill) = bill ≐ id

module _ {ℓ} {W : Type ℓ} where
  -- FindByID
  unfoldable pub find_bill_by_id : Text → Text → PurchaseAction W (PurchaseInvoice W)
  find_bill_by_id company id db = or_fail (not_found id) (find_purchase_invoice db company id) db

  -- Some receipt of the company that is not deleted is against the bill.
  unfoldable pub has_receipt : Text → Text → Table (PurchaseReceipt W) → Bool
  has_receipt company id [] = false
  has_receipt company id ((key, r) ∷ t) =
      (names_bill id r.purchase_invoice_id && (r.company_id ≐ company) && not r.deleted)
      || has_receipt company id t

  -- checkPurchaseInvoiceHasNoPayments
  unfoldable pub check_purchase_invoice_has_no_payments : Text → Text → PurchaseAction W (Unit {0})
  check_purchase_invoice_has_no_payments company id db =
      guard (not (has_receipt company id db.receipts)) in_use db

  -- PurchaseInvoiceRepository.SetStatus
  unfoldable pub set_status : Text → Text → PurchaseInvoiceStatus → PurchaseAction W (Unit {0})
  set_status company id status = do
    if is_draft status || is_cancelled status
        then check_purchase_invoice_has_no_payments company id
        else guard true in_use
    found ← find_bill_by_id company id
    modify (change_invoice id λ i. record i { status = status })

  -- PurchaseInvoiceRepository.Delete
  unfoldable pub delete_purchase_invoice : Text → Text → PurchaseAction W (Unit {0})
  delete_purchase_invoice company id = do
    found ← find_bill_by_id company id
    modify (change_invoice id λ i. record i { deleted = true })

  -- PurchaseInvoiceService.SetTemplate
  unfoldable pub set_template : Text → Text → Text → PurchaseAction W (PurchaseInvoice W)
  set_template company id template = do
    guard (is_valid_sales_invoice_template template) (validation (lit "unknown template"))
    found ← find_bill_by_id company id
    modify (change_invoice id λ i. record i { template = template })
    find_bill_by_id company id

  -- PurchaseInvoiceService.BackToDraft
  unfoldable pub back_to_draft : Text → Text → PurchaseAction W (PurchaseInvoice W)
  back_to_draft company id = do
    invoice ← find_bill_by_id company id
    guard (not (is_draft invoice.status))
        (invalid_transition (lit "this invoice is already a draft"))
    set_status company id draft
    find_bill_by_id company id

  -- PurchaseInvoiceService.Cancel
  unfoldable pub cancel : Text → Text → PurchaseAction W (PurchaseInvoice W)
  cancel company id = do
    invoice ← find_bill_by_id company id
    guard (not (is_cancelled invoice.status))
        (invalid_transition (lit "this invoice is already cancelled"))
    set_status company id cancelled
    find_bill_by_id company id

module _ {ℓ} {W : Type ℓ} ⦃f : Float W⦄ where
  -- PurchaseInvoiceService.calc
  unfoldable pub calc :
      Text → List (LineInput W) → Text → W → W → Db W → Result (PurchaseError W) (LinesCalc W)
  calc company lines disc_type disc_value shipping_cost db =
      and_then
        (require (not (shipping_cost ≺ f.nought))
          (validation (lit "shipping cost cannot be negative")))
        λ _.
          let rates = tax_rates company (referenced_taxes [] lines) db.taxes in
          and_then
            (map_err bad_line
              (calc_lines lines rates (record { type = disc_type; value = disc_value })))
            λ computed.
              ok (record computed { grand_total = round2 (computed.grand_total ⊕ shipping_cost) })

  -- PurchaseInvoiceService.Confirm
  unfoldable pub confirm : Text → Text → PurchaseAction W (PurchaseInvoice W)
  confirm company id = do
    invoice ← find_bill_by_id company id
    guard (is_draft invoice.status)
        (invalid_transition (lit "only a draft invoice can be confirmed"))
    computed ← λ (db : Db W).
        lift
          (calc company (saved_lines invoice.lines) invoice.additional_discount_type
            invoice.additional_discount_value invoice.shipping_cost db)
          db
    set_status company id confirmed
    find_bill_by_id company id
