-- ===== src/Purchase/Books/Runs.antt =====
-- Any sequence of the purchase services' calls, against a ledger that knows no database: how many
-- cents have been paid on each bill.
use invoicing_be.Base.{
  ◌+◌, ◌-◌, ◌≡◌, refl, ◌∙◌, Bool, none, List, [], ◌∷◌, Result, ok, err, Bool-cases, inl, inr,
  if◌then◌else◌,
}
use invoicing_be.Text.{Text}
use invoicing_be.Money.{Float, IsCents}
use invoicing_be.Ledger.{Ledger}
use invoicing_be.LineCalc.{LinesCalc}
use invoicing_be.Store.{Collation}
use invoicing_be.Store.Table.{find}
use invoicing_be.Store.Outcome.{Outcome}
use invoicing_be.Sales.Model.{trim_ptr}
use invoicing_be.Purchase.Model.{Db, PurchaseError}
use invoicing_be.Purchase.Invoice.Save.{totals}
use invoicing_be.Purchase.Books.{paid_to, paid_by, applied, IsConsistent}
use invoicing_be.Purchase.Books.Bodies.{Books}
use invoicing_be.Purchase.Books.Receipts.{delete_purchase_receipt-Books}
use invoicing_be.Purchase.Books.Lifecycle.{
  confirm-Books, back_to_draft-Books, cancel-Books, delete_purchase_invoice-Books,
  set_template-Books,
}
use invoicing_be.Purchase.Calls.{
  Call, enter_bill, change_bill, confirm_bill, reopen_bill, cancel_bill, delete_bill, lay_out_bill,
  enter_receipt, edit_receipt, remove_receipt, answer, perform, run,
}
use invoicing_be.Purchase.Books.Services.{
  submit_receipt-Books, resubmit_receipt-Books, submit_invoice-Books, resubmit_invoice-Books,
}

module _ {ℓ} {W : Type ℓ} ⦃f : Float W⦄ (laws : IsCents W) (collation : Collation) where
  open laws use {IsAmount, cents}

  -- The amounts of the call are numbers of cents within the limit, and a new bill's ID is new.
  abbrev pub IsSound : Call W → Db W → Type ℓ
  IsSound (enter_bill company id limit dto) db =
      (find db.invoices id ≡ none)
      × ((c : LinesCalc W) → (totals company dto db).0 ≡ ok c → IsAmount c.grand_total)
  IsSound (change_bill company id dto) db =
      Unit {ℓ} × ((c : LinesCalc W) → (totals company dto db).0 ≡ ok c → IsAmount c.grand_total)
  IsSound (enter_receipt company id dto) db = Unit {ℓ} × IsAmount dto.amount
  IsSound (edit_receipt company id dto) db = Unit {ℓ} × IsAmount dto.amount
  IsSound _ db = Unit

  abbrev pub AreSound : List (Call W) → Db W → Type ℓ
  AreSound [] db = Unit
  AreSound (call ∷ calls) db = IsSound call db × AreSound calls (perform collation call db).1

  -- What a call that succeeds does to the ledger.
  abbrev pub after_call : Call W → Db W → Ledger → Ledger
  after_call (enter_receipt company id dto) db ledger j =
      ledger j + paid_to laws (trim_ptr dto.purchase_invoice_id) dto.amount j
  after_call (edit_receipt company id dto) db ledger j =
      ledger j
      - paid_by laws db company id j
      + paid_to laws (trim_ptr dto.purchase_invoice_id) dto.amount j
  after_call (remove_receipt company id) db ledger j = ledger j - paid_by laws db company id j
  after_call _ db ledger j = ledger j

  -- The ledger after the calls: only those that succeed are posted.
  abbrev pub after_calls : List (Call W) → Db W → Ledger → Ledger
  after_calls [] db ledger = ledger
  after_calls (call ∷ calls) db ledger =
      let (done, after) = perform collation call db in
      after_calls calls after (if done then after_call call db ledger else ledger)

  after_call-eq :
      (call : Call W) (db : Db W) (l m : Ledger)
      → ((j : Text) → l j ≡ m j)
      → (j : Text) → after_call call db l j ≡ after_call call db m j
  after_call-eq (enter_receipt company id dto) db l m e j = rw (e j) refl
  after_call-eq (edit_receipt company id dto) db l m e j = rw (e j) refl
  after_call-eq (remove_receipt company id) db l m e j = rw (e j) refl
  after_call-eq (enter_bill company id limit dto) db l m e j = e j
  after_call-eq (change_bill company id dto) db l m e j = e j
  after_call-eq (confirm_bill company id) db l m e j = e j
  after_call-eq (reopen_bill company id) db l m e j = e j
  after_call-eq (cancel_bill company id) db l m e j = e j
  after_call-eq (delete_bill company id) db l m e j = e j
  after_call-eq (lay_out_bill company id template) db l m e j = e j

  after_calls-eq :
      (calls : List (Call W)) (db : Db W) (l m : Ledger)
      → ((j : Text) → l j ≡ m j)
      → (j : Text) → after_calls calls db l j ≡ after_calls calls db m j
  after_calls-eq [] db l m e j = e j
  after_calls-eq (call ∷ calls) db l m e j =
      after_calls-eq calls (perform collation call db).1 _ _
        (λ k. elim (Bool-cases (perform collation call db).0) [
          | inl done ↦ rw done (after_call-eq call db l m e k)
          | inr refused ↦ rw refused (e k)
        ])
        j

  -- The books after a call that either leaves them as `ledger` says or is refused.
  abbrev Settled : (Bool × Db W) → Db W → Ledger → Type ℓ
  Settled (done, after) db ledger =
      IsConsistent laws after
      × ((j : Text) → applied laws after j ≡ (if done then ledger else applied laws db) j)

  settled {κ} :
      {A : Type κ} (ledger : Ledger) (db : Db W) (r : Result (PurchaseError W) A × Db W)
      → IsConsistent laws db
      → Outcome (Books laws ledger) db r
      → Settled (answer r) db ledger
  settled ledger db (ok a, after) c books = books
  settled ledger db (err e, after) c same = rw same (c, λ j. refl)

  -- One call.
  perform-Settled :
      (call : Call W) (db : Db W)
      → IsConsistent laws db
      → IsSound call db
      → Settled (perform collation call db) db (after_call call db (applied laws db))
  unfolding perform
  perform-Settled (enter_bill company id limit dto) db c (gone, sound) =
      settled _ db _ c (submit_invoice-Books laws collation db id company limit dto c gone sound)
  perform-Settled (change_bill company id dto) db c (_, sound) =
      settled _ db _ c (resubmit_invoice-Books laws collation db company id dto c sound)
  perform-Settled (confirm_bill company id) db c sound =
      settled _ db _ c (confirm-Books laws db company id c)
  perform-Settled (reopen_bill company id) db c sound =
      settled _ db _ c (back_to_draft-Books laws db company id c)
  perform-Settled (cancel_bill company id) db c sound =
      settled _ db _ c (cancel-Books laws db company id c)
  perform-Settled (delete_bill company id) db c sound =
      settled _ db _ c (delete_purchase_invoice-Books laws db company id c)
  perform-Settled (lay_out_bill company id template) db c sound =
      settled _ db _ c (set_template-Books laws db company id template c)
  perform-Settled (enter_receipt company id dto) db c (_, ha) =
      settled _ db _ c (submit_receipt-Books laws collation db id company dto c ha)
  perform-Settled (edit_receipt company id dto) db c (_, ha) =
      settled _ db _ c (resubmit_receipt-Books laws collation db company id dto c ha)
  perform-Settled (remove_receipt company id) db c sound =
      settled _ db _ c (delete_purchase_receipt-Books laws db company id c)

  -- On consistent purchase books, after any sequence of calls of the purchase services on
  -- bills and receipts, whose amounts are whole amounts of cents and whose new bills have new
  -- IDs, the books are consistent, and what is paid on every bill is what a ledger says in
  -- which only the calls that succeeded are entered: a receipt pays its bill, a changed
  -- receipt takes back its old payment and makes its new one, a deleted receipt takes back its
  -- payment, and no other call moves money. Purchase books are consistent when every bill's
  -- paid amount is the sum of the receipts that name it and are not deleted, its payment
  -- status follows from it, something is paid on confirmed bills only, and those receipts name
  -- bills of their own company.
  pub run-refines :
      (calls : List (Call W)) (db : Db W)
      → IsConsistent laws db
      → AreSound calls db
      → IsConsistent laws (run collation calls db)
        × ((id : Text)
            → applied laws (run collation calls db) id ≡ after_calls calls db (applied laws db) id)
  unfolding run
  run-refines [] db c sound = (c, λ id. refl)
  run-refines (call ∷ calls) db c (sound, more) =
      let after = (perform collation call db).1 in
      let (kept, moved) = perform-Settled call db c sound in
      let (end, sums) = run-refines calls after kept more in
      (end, λ id. sums id ∙ after_calls-eq calls after _ _ moved id)
