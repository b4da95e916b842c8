-- ===== src/Purchase/Books/Services.antt =====
-- app/service/purchase_invoice.service.go and app/service/purchase_receipt.service.go, on the books.
use invoicing_be.Base.{◌+◌, ◌-◌, ◌≡◌, refl, none, Result, ok}
use invoicing_be.Text.{Text}
use invoicing_be.Money.{Float, IsCents}
use invoicing_be.LineCalc.{LinesCalc}
use invoicing_be.Store.{Collation, after_read, guard-store}
use invoicing_be.Store.Table.{find}
use invoicing_be.Store.Outcome.{Outcome, Outcome-read}
use invoicing_be.Sales.Model.{trim_ptr}
use invoicing_be.Purchase.Model.{Db, PurchaseError}
use invoicing_be.Purchase.Receipt.{
  PurchaseReceiptDto, valid_receipt, submit_purchase_receipt, resubmit_purchase_receipt,
}
use invoicing_be.Purchase.Invoice.Save.{
  PurchaseInvoiceDto, check_mitra, totals, submit_purchase_invoice, resubmit_purchase_invoice,
}
use invoicing_be.Purchase.Books.{paid_to, paid_by, applied, IsConsistent}
use invoicing_be.Purchase.Books.Bodies.{Books}
use invoicing_be.Purchase.Books.Bills.{find_bill_by_id-store}
use invoicing_be.Purchase.Books.Receipts.{
  create_purchase_receipt-Books, update_purchase_receipt-Books,
}
use invoicing_be.Purchase.Books.Saves.{create_purchase_invoice-Books, update_purchase_invoice-Books}

module _ {ℓ} {W : Type ℓ} ⦃f : Float W⦄ (laws : IsCents W) (collation : Collation) where
  open laws use {IsAmount, cents}

  valid_receipt-store :
      (db : Db W) (company : Text) (dto : PurchaseReceiptDto W)
      → (valid_receipt company dto db).1 ≡ db
  valid_receipt-store db company dto =
      after_read (λ d. d ≡ db) _ _ db (guard-store _ _ db) refl
        λ _ _. after_read (λ d. d ≡ db) _ _ db refl refl λ _ _. guard-store _ _ db

  check_mitra-store :
      (db : Db W) (company mitra : Text) → (check_mitra {W = W} company mitra db).1 ≡ db
  check_mitra-store db company mitra =
      after_read (λ d. d ≡ db) _ _ db refl refl λ _ _. guard-store _ _ db

  pub submit_receipt-Books :
      (db : Db W) (id company : Text) (dto : PurchaseReceiptDto W)
      → IsConsistent laws db
      → IsAmount dto.amount
      → Outcome
          (Books laws
            λ j. applied laws db j + paid_to laws (trim_ptr dto.purchase_invoice_id) dto.amount j)
          db
          (submit_purchase_receipt collation id company dto db)
  unfolding submit_purchase_receipt
  submit_receipt-Books db id company dto c ha =
      Outcome-read _ _ _ db (valid_receipt-store db company dto)
        λ _ _. create_purchase_receipt-Books laws collation db id company dto c ha

  pub resubmit_receipt-Books :
      (db : Db W) (company id : Text) (dto : PurchaseReceiptDto W)
      → IsConsistent laws db
      → IsAmount dto.amount
      → Outcome
          (Books laws λ j.
            applied laws db j
            - paid_by laws db company id j
            + paid_to laws (trim_ptr dto.purchase_invoice_id) dto.amount j)
          db
          (resubmit_purchase_receipt collation company id dto db)
  unfolding resubmit_purchase_receipt
  resubmit_receipt-Books db company id dto c ha =
      Outcome-read _ _ _ db (valid_receipt-store db company dto)
        λ _ _. update_purchase_receipt-Books laws collation db company id dto c ha

  pub submit_invoice-Books :
      (db : Db W) (id company : Text) (limit : Result (PurchaseError W) (Unit {0}))
      (dto : PurchaseInvoiceDto W)
      → IsConsistent laws db
      → find db.invoices id ≡ none
      → ((c : LinesCalc W) → (totals company dto db).0 ≡ ok c → IsAmount c.grand_total)
      → Outcome
          (Books laws (applied laws db))
          db
          (submit_purchase_invoice collation id company limit dto db)
  unfolding submit_purchase_invoice
  submit_invoice-Books db id company limit dto c gone sound =
      Outcome-read _ _ _ db (check_mitra-store db company dto.mitra_id) λ _ _.
        Outcome-read _ _ _ db refl λ _ _. Outcome-read _ _ _ db refl λ computed h.
          create_purchase_invoice-Books laws collation db id company dto computed c gone
            (sound computed h)

  pub resubmit_invoice-Books :
      (db : Db W) (company id : Text) (dto : PurchaseInvoiceDto W)
      → IsConsistent laws db
      → ((c : LinesCalc W) → (totals company dto db).0 ≡ ok c → IsAmount c.grand_total)
      → Outcome
          (Books laws (applied laws db))
          db
          (resubmit_purchase_invoice collation company id dto db)
  unfolding resubmit_purchase_invoice
  resubmit_invoice-Books db company id dto c sound =
      Outcome-read _ _ _ db (find_bill_by_id-store laws db company id) λ _ _.
        Outcome-read _ _ _ db (check_mitra-store db company dto.mitra_id) λ _ _.
          Outcome-read _ _ _ db refl λ computed h.
            update_purchase_invoice-Books laws collation db company id dto computed c
              (sound computed h)
