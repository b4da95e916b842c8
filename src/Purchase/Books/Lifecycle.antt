-- ===== src/Purchase/Books/Lifecycle.antt =====
-- Changes of a bill's status, on the books.
use invoicing_be.Base.{
  ◌≡◌, Bool, if◌then◌else◌, refl, true, false, not, ◌||◌, some, arith, Bool-cases, ok, inl, inr,
}
use invoicing_be.Text.{Text}
use invoicing_be.Money.{Float, IsCents}
use invoicing_be.Store.{guard, guard-store, guard-eq-ok, ◌>>◌}
use invoicing_be.Store.Outcome.{Outcome, Done, Reads, Outcome-read, Outcome-then, Done-read}
use invoicing_be.Purchase.Model.{
  PurchaseInvoice, PurchaseInvoiceStatus, draft, confirmed, cancelled, is_draft, is_cancelled,
  is_confirmed, Db, PurchaseAction, find_purchase_invoice, in_use,
}
use invoicing_be.Purchase.Balance.{change_invoice}
use invoicing_be.Purchase.Balance.Ledger.{find_purchase_invoice-eq}
use invoicing_be.Purchase.Invoice.{
  find_bill_by_id, has_receipt, check_purchase_invoice_has_no_payments, set_status,
  delete_purchase_invoice, set_template, back_to_draft, cancel, confirm,
}
use invoicing_be.Purchase.Books.{applied, IsConsistent}
use invoicing_be.Purchase.Books.Bodies.{Books}
use invoicing_be.Purchase.Books.Bills.{
  unpaid_lem, IsPaid-eq, bill_changed, find_bill_by_id-eq, find_bill_by_id-store,
  find_bill_by_id-Reads, find_changed_bill,
}

abbrev frees : PurchaseInvoiceStatus → Bool
frees status = is_draft status || is_cancelled status

frees_unless_confirmed :
    (status : PurchaseInvoiceStatus) → is_confirmed status ≡ false → frees status ≡ true
frees_unless_confirmed draft h = refl
frees_unless_confirmed cancelled h = refl
frees_unless_confirmed confirmed h = ground (arith, h)

module _ {ℓ} {W : Type ℓ} where
  abbrev with_status : PurchaseInvoiceStatus → PurchaseInvoice W → PurchaseInvoice W
  with_status status i = record i { status = status }

  -- The check that SetStatus makes on the way to draft and to cancelled.
  abbrev checked : Text → Text → PurchaseInvoiceStatus → PurchaseAction W (Unit {0})
  checked company id status =
      if frees status then check_purchase_invoice_has_no_payments company id else guard true in_use

  module _ (db : Db W) (company id : Text) (status : PurchaseInvoiceStatus) where
    checked-store : (checked company id status db).1 ≡ db
    unfolding check_purchase_invoice_has_no_payments
    checked-store = elim (Bool-cases (frees status)) [
      | inl y ↦ rw y (guard-store _ _ db)
      | inr n ↦ rw n refl
    ]

    checked-eq-ok :
        (u : Unit {0})
        → (checked company id status db).0 ≡ ok u
        → frees status ≡ true
        → has_receipt company id db.receipts ≡ false
    unfolding check_purchase_invoice_has_no_payments
    checked-eq-ok u h y =
        let unused : not (has_receipt company id db.receipts) ≡ true =
          guard-eq-ok _ in_use u db (rw y at h) in
        ground arith

module _ {ℓ} {W : Type ℓ} ⦃f : Float W⦄ (laws : IsCents W) where
  status_changed :
      (db : Db W) (company id : Text) (status : PurchaseInvoiceStatus) (i : PurchaseInvoice W)
      → IsConsistent laws db
      → find_purchase_invoice db company id ≡ some i
      → (frees status ≡ true → has_receipt company id db.receipts ≡ false)
      → Books laws (applied laws db) (change_invoice id (with_status status) db)
  status_changed db company id status i c there check =
      let (found, mine) = find_purchase_invoice-eq laws db company id i there in
      bill_changed laws db id (with_status status) i c found (λ x. refl)
        (IsPaid-eq laws (applied laws db id) i (with_status status i) (c.balanced id i found) refl
          refl refl
          λ h.
            unpaid_lem laws db company id db.receipts c.booked mine
              (check (frees_unless_confirmed status h)))

  -- On consistent purchase books, setting a bill's status either succeeds, moves no money and
  -- leaves consistent books, so that no bill with a payment becomes a draft or cancelled, or
  -- is refused and changes nothing.
  pub set_status-Books :
      (db : Db W) (company id : Text) (status : PurchaseInvoiceStatus)
      → IsConsistent laws db
      → Outcome (Books laws (applied laws db)) db (set_status company id status db)
  unfolding set_status
  set_status-Books db company id status c =
      Outcome-read _ _ _ db (checked-store db company id status) λ u h.
        Outcome-read _ _ _ db (find_bill_by_id-store laws db company id) λ i e.
          status_changed db company id status i c (find_bill_by_id-eq laws db company id i e)
            (checked-eq-ok db company id status u h)

  set_status-Reads :
      (db : Db W) (company id : Text) (status : PurchaseInvoiceStatus)
      → Done (Reads (find_bill_by_id company id)) (set_status company id status db)
  unfolding set_status
  set_status-Reads db company id status =
      Done-read _ _ _ db (checked-store db company id status) λ u h.
        Done-read _ _ _ db (find_bill_by_id-store laws db company id) λ i e.
          find_bill_by_id-Reads laws (change_invoice id (with_status status) db) company id
            (with_status status i)
            (find_changed_bill laws db company id (with_status status) i
              (find_bill_by_id-eq laws db company id i e) refl refl)

  status_read :
      (db : Db W) (company id : Text) (status : PurchaseInvoiceStatus)
      → IsConsistent laws db
      → Outcome
          (Books laws (applied laws db))
          db
          ((set_status company id status >> find_bill_by_id company id) db)
  status_read db company id status c =
      Outcome-then _ _ _ db (set_status-Books db company id status c)
        (set_status-Reads db company id status)

  -- p
  pub confirm-Books :
      (db : Db W) (company id : Text)
      → IsConsistent laws db
      → Outcome (Books laws (applied laws db)) db (confirm company id db)
  unfolding confirm
  confirm-Books db company id c =
      Outcome-read _ _ _ db (find_bill_by_id-store laws db company id) λ i _.
        Outcome-read _ _ _ db (guard-store _ _ db)
          λ _ _. Outcome-read _ _ _ db refl λ _ _. status_read db company id confirmed c

  -- p
  pub back_to_draft-Books :
      (db : Db W) (company id : Text)
      → IsConsistent laws db
      → Outcome (Books laws (applied laws db)) db (back_to_draft company id db)
  unfolding back_to_draft
  back_to_draft-Books db company id c =
      Outcome-read _ _ _ db (find_bill_by_id-store laws db company id)
        λ i _. Outcome-read _ _ _ db (guard-store _ _ db) λ _ _. status_read db company id draft c

  -- p
  pub cancel-Books :
      (db : Db W) (company id : Text)
      → IsConsistent laws db
      → Outcome (Books laws (applied laws db)) db (cancel company id db)
  unfolding cancel
  cancel-Books db company id c =
      Outcome-read _ _ _ db (find_bill_by_id-store laws db company id) λ i _.
        Outcome-read _ _ _ db (guard-store _ _ db) λ _ _. status_read db company id cancelled c

  -- p
  pub delete_purchase_invoice-Books :
      (db : Db W) (company id : Text)
      → IsConsistent laws db
      → Outcome (Books laws (applied laws db)) db (delete_purchase_invoice company id db)
  unfolding delete_purchase_invoice
  delete_purchase_invoice-Books db company id c =
      Outcome-read _ _ _ db (find_bill_by_id-store laws db company id) λ i e.
        let there = find_bill_by_id-eq laws db company id i e in
        let (found, _) = find_purchase_invoice-eq laws db company id i there in
        let p = c.balanced id i found in
        bill_changed laws db id _ i c found (λ x. refl)
          (IsPaid-eq laws _ i _ p refl refl refl p.paid_confirmed)

  -- p
  pub set_template-Books :
      (db : Db W) (company id template : Text)
      → IsConsistent laws db
      → Outcome (Books laws (applied laws db)) db (set_template company id template db)
  unfolding set_template
  set_template-Books db company id template c = Outcome-read _ _ _ db (guard-store _ _ db) λ _ _.
      Outcome-read _ _ _ db (find_bill_by_id-store laws db company id) λ i e.
        let there = find_bill_by_id-eq laws db company id i e in
        let (found, _) = find_purchase_invoice-eq laws db company id i there in
        let p = c.balanced id i found in
        let g : PurchaseInvoice W → PurchaseInvoice W = λ x. record x { template = template } in
        Outcome-then _ _ _ db
          (bill_changed laws db id g i c found (λ x. refl)
            (IsPaid-eq laws _ i (g i) p refl refl refl p.paid_confirmed))
          (find_bill_by_id-Reads laws (change_invoice id g db) company id (g i)
            (find_changed_bill laws db company id g i there refl refl))
