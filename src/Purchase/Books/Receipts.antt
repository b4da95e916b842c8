-- ===== src/Purchase/Books/Receipts.antt =====
-- Creating, replacing and deleting a receipt, on the books.
use invoicing_be.Base.{◌+◌, ◌-◌, ◌≡◌, refl, arith}
use invoicing_be.Text.{Text}
use invoicing_be.Calendar.{Date}
use invoicing_be.Money.{Float, IsCents}
use invoicing_be.Store.{Collation, or_fail-store, guard-store, ◌>>=◌}
use invoicing_be.Store.Outcome.{Outcome, Outcome-read, Outcome-after, Outcome-transaction}
use invoicing_be.Sales.Model.{trim_ptr}
use invoicing_be.Purchase.Model.{Db}
use invoicing_be.Purchase.Receipt.{
  PurchaseReceiptDto, unbook_purchase_receipt, create_purchase_receipt, update_purchase_receipt,
  delete_purchase_receipt, new_receipt_number,
}
use invoicing_be.Purchase.Books.{paid_to, paid_on, paid_by, applied, IsConsistent}
use invoicing_be.Purchase.Books.Bodies.{
  Books, find_receipt_by_id-eq, find_receipt_by_id-store, book-Done, rebook-Done, unbook-Done,
}

module _ {ℓ} {W : Type ℓ} ⦃f : Float W⦄ (laws : IsCents W) where
  open laws use {IsAmount, cents}

  new_number-store :
      (collation : Collation) (db : Db W) (company number : Text) (date : Date)
      → (new_receipt_number collation company number date db).1 ≡ db
  unfolding new_receipt_number ◌>>=◌
  new_number-store collation db company number date = ground arith

  -- On consistent purchase books, when its amount is a whole amount of cents, a new receipt is
  -- either recorded, with its amount paid on the bill that it names and on no other and the
  -- books consistent, or refused with nothing changed.
  pub create_purchase_receipt-Books :
      (collation : Collation) (db : Db W) (id company : Text) (dto : PurchaseReceiptDto W)
      → IsConsistent laws db
      → IsAmount dto.amount
      → Outcome
          (Books laws
            λ j. applied laws db j + paid_to laws (trim_ptr dto.purchase_invoice_id) dto.amount j)
          db
          (create_purchase_receipt collation id company dto db)
  unfolding create_purchase_receipt
  create_purchase_receipt-Books collation db id company dto c ha =
      Outcome-read _ _ _ db (or_fail-store _ _ db) λ date _.
        Outcome-read _ _ _ db (new_number-store collation db company _ date)
          λ number _. Outcome-after _ _ _ db (book-Done laws db id company dto number date c ha)

  -- On consistent purchase books, when the new amount is a whole amount of cents, replacing a
  -- receipt either succeeds, takes its old payment back, pays its new one and leaves
  -- consistent books, or is refused and changes nothing.
  pub update_purchase_receipt-Books :
      (collation : Collation) (db : Db W) (company id : Text) (dto : PurchaseReceiptDto W)
      → IsConsistent laws db
      → IsAmount dto.amount
      → Outcome
          (Books laws λ j.
            applied laws db j
            - paid_by laws db company id j
            + paid_to laws (trim_ptr dto.purchase_invoice_id) dto.amount j)
          db
          (update_purchase_receipt collation company id dto db)
  unfolding update_purchase_receipt
  update_purchase_receipt-Books collation db company id dto c ha =
      Outcome-read _ _ _ db (find_receipt_by_id-store laws db company id) λ x h.
        let found = find_receipt_by_id-eq laws db company id x h in
        rw (found, paid_by)
          (Outcome-read _ _ _ db (or_fail-store _ _ db) λ date _.
            Outcome-read _ _ _ db refl λ taken _. Outcome-read _ _ _ db (guard-store _ _ db) λ _ _.
              Outcome-after _ _ _ db (rebook-Done laws db id company dto _ date x c found ha))

  -- On consistent purchase books, deleting a receipt either succeeds, takes back exactly what
  -- it had paid and leaves consistent books, or is refused and changes nothing.
  pub delete_purchase_receipt-Books :
      (db : Db W) (company id : Text)
      → IsConsistent laws db
      → Outcome
          (Books laws λ j. applied laws db j - paid_by laws db company id j)
          db
          (delete_purchase_receipt company id db)
  unfolding delete_purchase_receipt
  delete_purchase_receipt-Books db company id c =
      Outcome-read _ _ _ db (find_receipt_by_id-store laws db company id) λ x h.
        let found = find_receipt_by_id-eq laws db company id x h in
        rw (found, paid_by)
          (Outcome-transaction (Books laws λ j. applied laws db j - paid_on laws x j)
            (unbook_purchase_receipt id company x) db (unbook-Done laws db id company x c found))
