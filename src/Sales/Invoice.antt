-- ===== src/Sales/Invoice.antt =====
-- app/service/sales_invoice.service.go: the totals of an invoice and its lifecycle, with the methods
-- of app/repository/sales_invoice.repository.go and app/repository/references.go that it calls.
pub mod Save
use invoicing_be.Base.{
  Bool, true, false, not, ◌&&◌, ◌||◌, none, some, List, [], ◌∷◌, if◌then◌else◌, Result, ok,
  and_then, require, map_err,
}
use invoicing_be.Text.{Text, lit, ◌≐◌, is_empty, trim_space}
use invoicing_be.LineCalc.{LineInput, LineResult, LinesCalc, Rates, calc_lines}
use invoicing_be.Money.{Float, ◌⊕◌, ◌≺◌, round2}
use invoicing_be.Store.{or_fail, gets, guard, modify, lift, ◌>>=◌, ◌>>◌}
use invoicing_be.Store.Table.{Table, find}
use invoicing_be.Sales.Model.{
  SalesInvoice, SalesInvoiceStatus, draft, confirmed, cancelled, is_draft, is_cancelled,
  SalesPayment, SalesReceipt, SalesReceiptAllocation, Tax, Db, SalesError, not_found, validation,
  bad_line, invalid_transition, in_use, SalesAction, find_invoice,
}
use invoicing_be.Document.Template.{is_valid_sales_invoice_template}
use invoicing_be.Sales.Balance.{change_invoice}
use invoicing_be.Sales.Receipt.{contains}

-- The loops of resolveTaxRates, over the IDs of one line and over the lines; `ids` are those so
-- far.
unfoldable pub collect_ids : List Text → List Text → List Text
collect_ids ids [] = ids
collect_ids ids (raw ∷ more) =
    let id = trim_space raw in
    if is_empty id || contains ids id then collect_ids ids more else collect_ids (id ∷ ids) more

module _ {ℓ} {W : Type ℓ} where
  -- FindByID
  unfoldable pub find_invoice_by_id : Text → Text → SalesAction W (SalesInvoice W)
  find_invoice_by_id company id db = or_fail (not_found id) (find_invoice db company id) db

  -- Some payment of the company is against the invoice.
  unfoldable pub has_payment : Text → Text → Table (SalesPayment W) → Bool
  has_payment company id [] = false
  has_payment company id ((key, p) ∷ t) =
      ((p.company_id ≐ company) && (p.sales_invoice_id ≐ id)) || has_payment company id t

  -- The receipt is the company's, and not deleted.
  unfoldable pub is_live_of : Text → Table (SalesReceipt W) → Text → Bool
  is_live_of company receipts id = elim (find receipts id) [
    | none ↦ false
    | some r ↦ (r.company_id ≐ company) && not r.deleted
  ]

  -- Some allocation of such a receipt is to the invoice.
  unfoldable pub has_allocation :
      Text → Text → Table (SalesReceipt W) → List (SalesReceiptAllocation W) → Bool
  has_allocation company id receipts [] = false
  has_allocation company id receipts (a ∷ as') =
      ((a.sales_invoice_id ≐ id) && is_live_of company receipts a.sales_receipt_id)
      || has_allocation company id receipts as'

  -- checkInvoiceHasNoPayments, where the counts are not 0
  unfoldable pub has_payments : Text → Text → Db W → Bool
  has_payments company id db =
      has_payment company id db.payments || has_allocation company id db.receipts db.allocations

  -- SalesInvoiceRepository.SetStatus
  unfoldable pub set_status : Text → Text → SalesInvoiceStatus → SalesAction W (Unit {0})
  set_status company id status = do
    applied ← gets (has_payments company id)
    guard (not (is_draft status && applied)) in_use
    found ← find_invoice_by_id company id
    modify (change_invoice id λ i. record i { status = status })

  -- SalesInvoiceRepository.Delete
  unfoldable pub delete_invoice : Text → Text → SalesAction W (Unit {0})
  delete_invoice company id = do
    found ← find_invoice_by_id company id
    modify (change_invoice id λ i. record i { deleted = true })

  -- SalesInvoiceService.SetTemplate
  unfoldable pub set_template : Text → Text → Text → SalesAction W (SalesInvoice W)
  set_template company id template = do
    guard (is_valid_sales_invoice_template template) (validation (lit "unknown template"))
    found ← find_invoice_by_id company id
    modify (change_invoice id λ i. record i { template = template })
    find_invoice_by_id company id

  -- SalesInvoiceService.BackToDraft
  unfoldable pub back_to_draft : Text → Text → SalesAction W (SalesInvoice W)
  back_to_draft company id = do
    invoice ← find_invoice_by_id company id
    guard (not (is_draft invoice.status))
        (invalid_transition (lit "this invoice is already a draft"))
    set_status company id draft
    find_invoice_by_id company id

  -- SalesInvoiceService.Cancel
  unfoldable pub cancel : Text → Text → SalesAction W (SalesInvoice W)
  cancel company id = do
    invoice ← find_invoice_by_id company id
    guard (not (is_cancelled invoice.status))
        (invalid_transition (lit "this invoice is already cancelled"))
    set_status company id cancelled
    find_invoice_by_id company id

  unfoldable pub referenced_taxes : List Text → List (LineInput W) → List Text
  referenced_taxes ids [] = ids
  referenced_taxes ids (l ∷ ls) = referenced_taxes (collect_ids ids l.tax_ids) ls

  -- TaxRates: the company's active taxes with these IDs.
  unfoldable pub tax_rates : Text → List Text → Table (Tax W) → Rates W
  tax_rates company ids [] = []
  tax_rates company ids ((id, t) ∷ taxes) =
      let rest = tax_rates company ids taxes in
      if (t.company_id ≐ company) && contains ids id && t.is_active && not t.deleted
      then (id, record { rate = t.rate; calc_method = t.calc_method }) ∷ rest
      else rest

  -- The lines of a saved invoice, to be computed again.
  unfoldable pub saved_lines : List (LineResult W) → List (LineInput W)
  saved_lines [] = []
  saved_lines (l ∷ ls) =
      record {
        product_name = l.product_name;
        description = l.description;
        quantity = l.quantity;
        unit_price = l.unit_price;
        discount_type = l.discount_type;
        discount_value = l.discount_value;
        tax_ids = l.tax_ids;
      }
      ∷ saved_lines ls

module _ {ℓ} {W : Type ℓ} ⦃f : Float W⦄ where
  -- SalesInvoiceService.calc
  unfoldable pub calc :
      Text → List (LineInput W) → Text → W → W → Db W → Result (SalesError W) (LinesCalc W)
  calc company lines disc_type disc_value shipping_cost db =
      and_then
        (require (not (shipping_cost ≺ f.nought))
          (validation (lit "shipping cost cannot be negative")))
        λ _.
          let rates = tax_rates company (referenced_taxes [] lines) db.taxes in
          and_then
            (map_err bad_line
              (calc_lines lines rates (record { type = disc_type; value = disc_value })))
            λ computed.
              ok (record computed { grand_total = round2 (computed.grand_total ⊕ shipping_cost) })

  -- SalesInvoiceService.Confirm
  unfoldable pub confirm : Text → Text → SalesAction W (SalesInvoice W)
  confirm company id = do
    invoice ← find_invoice_by_id company id
    guard (is_draft invoice.status)
        (invalid_transition (lit "only a draft invoice can be confirmed"))
    computed ← λ (db : Db W).
        lift
          (calc company (saved_lines invoice.lines) invoice.additional_discount_type
            invoice.additional_discount_value invoice.shipping_cost db)
          db
    set_status company id confirmed
    find_invoice_by_id company id
