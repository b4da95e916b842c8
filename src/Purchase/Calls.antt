-- ===== src/Purchase/Calls.antt =====
-- The calls of the purchase services, one after another.
use invoicing_be.Base.{Bool, List, [], ◌∷◌, Result, succeeds}
use invoicing_be.Text.{Text}
use invoicing_be.Money.{Float}
use invoicing_be.Store.{Collation}
use invoicing_be.Purchase.Model.{Db, PurchaseError}
use invoicing_be.Purchase.Receipt.{
  PurchaseReceiptDto, submit_purchase_receipt, resubmit_purchase_receipt, delete_purchase_receipt,
}
use invoicing_be.Purchase.Invoice.{
  set_template, confirm, back_to_draft, cancel, delete_purchase_invoice,
}
use invoicing_be.Purchase.Invoice.Save.{
  PurchaseInvoiceDto, submit_purchase_invoice, resubmit_purchase_invoice,
}

-- A call of the purchase services; the texts are the company and the ID, new or old.
pub data Call {ℓ} (W : Type ℓ) : Type ℓ where
  enter_bill : Text → Text → Result (PurchaseError W) (Unit {0}) → PurchaseInvoiceDto W → Call W
  change_bill : Text → Text → PurchaseInvoiceDto W → Call W
  confirm_bill : Text → Text → Call W
  reopen_bill : Text → Text → Call W
  cancel_bill : Text → Text → Call W
  delete_bill : Text → Text → Call W
  lay_out_bill : Text → Text → Text → Call W
  enter_receipt : Text → Text → PurchaseReceiptDto W → Call W
  edit_receipt : Text → Text → PurchaseReceiptDto W → Call W
  remove_receipt : Text → Text → Call W

abbrev pub answer {ℓ κ μ} : {S : Type ℓ} {E : Type κ} {A : Type μ} → Result E A × S → Bool × S
answer (r, s) = (succeeds r, s)

module _ {ℓ} {W : Type ℓ} ⦃f : Float W⦄ (collation : Collation) where
  -- Whether the call succeeds, and the database after it.
  unfoldable pub perform : Call W → Db W → Bool × Db W
  perform (enter_bill company id limit dto) db =
      answer (submit_purchase_invoice collation id company limit dto db)
  perform (change_bill company id dto) db =
      answer (resubmit_purchase_invoice collation company id dto db)
  perform (confirm_bill company id) db = answer (confirm company id db)
  perform (reopen_bill company id) db = answer (back_to_draft company id db)
  perform (cancel_bill company id) db = answer (cancel company id db)
  perform (delete_bill company id) db = answer (delete_purchase_invoice company id db)
  perform (lay_out_bill company id template) db = answer (set_template company id template db)
  perform (enter_receipt company id dto) db =
      answer (submit_purchase_receipt collation id company dto db)
  perform (edit_receipt company id dto) db =
      answer (resubmit_purchase_receipt collation company id dto db)
  perform (remove_receipt company id) db = answer (delete_purchase_receipt company id db)

  unfoldable pub run : List (Call W) → Db W → Db W
  run [] db = db
  run (call ∷ calls) db = run calls (perform call db).1
