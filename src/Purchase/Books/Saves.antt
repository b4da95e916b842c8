-- ===== src/Purchase/Books/Saves.antt =====
-- Saving a new bill and a changed one.
use invoicing_be.Base.{◌≡◌, refl, ◌∙◌, ap, Option, none, some, arith, ok, Bool-cases, inl, inr}
use invoicing_be.Text.{Text, ◌≐◌, ≐→≡, ≐-refl, lit}
use invoicing_be.Calendar.{Date}
use invoicing_be.LineCalc.Stored.{stored_lines}
use invoicing_be.LineCalc.{LinesCalc}
use invoicing_be.Ledger.{Ledger}
use invoicing_be.Money.{Float, IsCents}
use invoicing_be.Store.{Collation, after_read, guard-store, or_fail-store, bind-ok}
use invoicing_be.Store.Table.{find, update, find-insert, update-update}
use invoicing_be.Store.Entries.{Entries-map}
use invoicing_be.Store.Rows.{Rows-insert}
use invoicing_be.Store.Outcome.{
  Outcome, Done, Reads, Outcome-read, Outcome-after, Done-read, Done-then,
}
use invoicing_be.Purchase.Model.{
  PurchaseInvoice, PurchaseReceipt, unpaid, Db, find_purchase_invoice,
}
use invoicing_be.Purchase.Balance.{
  purchase_payment_status, set_paid, change_invoice, refresh_purchase_invoice_payment_status,
}
use invoicing_be.Purchase.Balance.Ledger.{IsPaid, company_of, find_purchase_invoice-eq, lock-some}
use invoicing_be.Purchase.Invoice.{find_bill_by_id}
use invoicing_be.Purchase.Invoice.Save.{
  PurchaseInvoiceDto, read_dates, save_invoice, snapshot, rewritten, enter_purchase_invoice,
  reenter_purchase_invoice, create_purchase_invoice, update_purchase_invoice,
}
use invoicing_be.Purchase.Books.{applied, IsBooked, IsConsistent}
use invoicing_be.Purchase.Books.Bodies.{Books}
use invoicing_be.Purchase.Books.Bills.{
  unnamed_lem, bill_changed, find_purchase_invoice-some, find_bill_by_id-eq, find_bill_by_id-store,
  find_bill_by_id-Reads, find_changed_bill,
}

module _ {ℓ} {W : Type ℓ} where
  snapshot-store :
      (db : Db W) (company mitra : Text) (contact : Option Text) (current : Text)
      → (snapshot company mitra contact current db).1 ≡ db
  unfolding snapshot
  snapshot-store db company mitra contact current = or_fail-store _ _ db

  read_dates-store : (db : Db W) (dto : PurchaseInvoiceDto W) → (read_dates dto db).1 ≡ db
  unfolding read_dates
  read_dates-store db dto =
      after_read (λ d. d ≡ db) _ _ db refl refl
        λ date _.
          after_read (λ d. d ≡ db) _ _ db refl refl
            λ due _. after_read (λ d. d ≡ db) _ _ db (guard-store _ _ db) refl λ _ _. refl

module _ {ℓ} {W : Type ℓ} ⦃f : Float W⦄ (laws : IsCents W) where
  open laws use {IsAmount, cents}

  -- The payment status of a bill on which nothing is paid.
  unpaid-derived : (total : W) → IsAmount total → unpaid ≡ purchase_payment_status f.nought total
  unfolding purchase_payment_status
  unpaid-derived total ha = ground (
    arith,
    laws.cents-nought,
    laws.lt-eq f.nought f.nought laws.nought-IsAmount laws.nought-IsAmount,
    laws.lt-eq f.nought total laws.nought-IsAmount ha,
    laws.le-eq total f.nought ha laws.nought-IsAmount,
  )

  company_of-gone :
      (db : Db W) (id : Text) → find db.invoices id ≡ none → company_of laws db id ≡ none
  company_of-gone db id gone = ground (arith, gone)

  -- A receipt stays booked when a bill with a new ID is saved.
  IsBooked-saved :
      (db : Db W) (id : Text) (i : PurchaseInvoice W) (r : PurchaseReceipt W)
      → find db.invoices id ≡ none
      → IsBooked laws db r
      → IsBooked laws (save_invoice id i db) r
  IsBooked-saved db id i r gone p live bill named =
      let (ha, mine) = p live bill named in
      elim (Bool-cases (id ≐ bill)) [
        | inl same ↦ ground (arith, gone, rw (← ≐→≡ id bill same) at mine)
        | inr other ↦ (ha, ground (arith, mine, find-insert id bill i db.invoices, other))
      ]

  saved_bill :
      (db : Db W) (id : Text) (i : PurchaseInvoice W)
      → IsConsistent laws db
      → find db.invoices id ≡ none
      → IsPaid laws 0 i
      → Books laws (applied laws db) (save_invoice id i db)
  saved_bill db id i c gone fresh =
      let none_paid = unnamed_lem laws db id db.receipts c.booked (company_of-gone db id gone) in
      (
        record {
          balanced =
              Rows-insert (λ j. IsPaid laws (applied laws db j))
                (λ j. IsPaid laws (applied laws db j)) db.invoices id i c.balanced
                (rw none_paid fresh) (λ j s _ p. p);
          booked =
              Entries-map (IsBooked laws db) (IsBooked laws (save_invoice id i db)) db.receipts
                (λ r. IsBooked-saved db id i r gone) c.booked;
        },
        λ j. refl,
      )

  find_saved_bill :
      (db : Db W) (id : Text) (i : PurchaseInvoice W)
      → find (save_invoice id i db).invoices id ≡ some i
  find_saved_bill db id i = find-insert id id i db.invoices ∙ rw (≐-refl id) refl

  abbrev Saved : Ledger → Text → Text → Db W → Type ℓ
  Saved ledger company id d = Books laws ledger d × Reads (find_bill_by_id {W = W} company id) d

  enter-Done :
      (db : Db W) (id company : Text) (dto : PurchaseInvoiceDto W) (computed : LinesCalc W)
      (asked : Text) (date : Date) (due : Option Date)
      → IsConsistent laws db
      → find db.invoices id ≡ none
      → IsAmount computed.grand_total
      → Done
          (Saved (applied laws db) company id)
          (enter_purchase_invoice id company dto computed asked date due db)
  unfolding enter_purchase_invoice
  enter-Done db id company dto computed asked date due c gone ha =
      Done-read _ _ _ db refl λ number _. Done-read _ _ _ db refl λ template _.
        Done-read _ _ _ db (snapshot-store db company dto.mitra_id dto.contact_person_id (lit ""))
          λ snap _. Done-read _ _ _ db (guard-store _ _ db) λ _ _. (
            saved_bill db id _ c gone (record {
              grand_amount = ha;
              paid_amount_ok = laws.nought-IsAmount;
              cents_paid = laws.cents-nought;
              status_derived = unpaid-derived computed.grand_total ha;
              paid_confirmed = λ _. refl;
            }),
            find_bill_by_id-Reads laws _ company id _ (
                find_purchase_invoice-some laws _ company id _ (find_saved_bill db id _) refl refl),
          )

  -- On consistent purchase books, when the bill's ID is new and the computed grand total is a
  -- whole amount of cents, a new bill is either recorded, with nothing paid on it and the
  -- books consistent, or refused with nothing changed.
  pub create_purchase_invoice-Books :
      (collation : Collation) (db : Db W) (id company : Text) (dto : PurchaseInvoiceDto W)
      (computed : LinesCalc W)
      → IsConsistent laws db
      → find db.invoices id ≡ none
      → IsAmount computed.grand_total
      → Outcome
          (Books laws (applied laws db))
          db
          (create_purchase_invoice collation id company dto computed db)
  unfolding create_purchase_invoice
  create_purchase_invoice-Books collation db id company dto computed c gone ha =
      Outcome-read _ _ _ db (read_dates-store db dto) λ dates _.
        Outcome-read _ _ _ db refl λ taken _. Outcome-read _ _ _ db (guard-store _ _ db) λ _ _.
          Outcome-after _ _ _ db (enter-Done db id company dto computed _ dates.0 dates.1 c gone ha)

  refresh-found :
      (db : Db W) (company id : Text) (i : PurchaseInvoice W)
      → find_purchase_invoice db company id ≡ some i
      → refresh_purchase_invoice_payment_status company id db
        ≡ (ok tt, change_invoice id (set_paid i.paid_amount) db)
  unfolding refresh_purchase_invoice_payment_status
  refresh-found db company id i there = bind-ok _ _ db i db (lock-some laws db company id i there)

  abbrev with_lines : LinesCalc W → PurchaseInvoice W → PurchaseInvoice W
  with_lines computed i = record i { lines = stored_lines computed.lines }

  -- The steps of Update on the bill's row, as one change.
  abbrev reentered :
      (PurchaseInvoice W → PurchaseInvoice W)
      → W
      → LinesCalc W
      → PurchaseInvoice W
      → PurchaseInvoice W
  reentered g amount computed i = with_lines computed (set_paid amount (g i))

  reentered-eq :
      (db : Db W) (id : Text) (g : PurchaseInvoice W → PurchaseInvoice W) (amount : W)
      (computed : LinesCalc W)
      → change_invoice id
          (with_lines computed)
          (change_invoice id (set_paid amount) (change_invoice id g db))
        ≡ change_invoice id (reentered g amount computed) db
  reentered-eq db id g amount computed =
      ap (λ t. record db { invoices = t })
        (ap (update id (with_lines computed)) (update-update id (set_paid amount) g db.invoices)
          ∙ update-update id (with_lines computed) (λ i. set_paid amount (g i)) db.invoices)

  reenter-Done :
      (db : Db W) (id company : Text) (dto : PurchaseInvoiceDto W) (computed : LinesCalc W)
      (number : Text) (date : Date) (due : Option Date) (old : PurchaseInvoice W)
      → IsConsistent laws db
      → find_purchase_invoice db company id ≡ some old
      → IsAmount computed.grand_total
      → Done
          (Saved (applied laws db) company id)
          (reenter_purchase_invoice id company dto computed number date due old db)
  unfolding reenter_purchase_invoice
  reenter-Done db id company dto computed number date due old c there ha =
      Done-read _ _ _ db (snapshot-store db company dto.mitra_id dto.contact_person_id _) λ snap _.
        Done-read _ _ _ db (guard-store _ _ db) λ _ _.
          let g : PurchaseInvoice W → PurchaseInvoice W =
            rewritten dto computed number date due snap in
          let h = reentered g old.paid_amount computed in
          let (found, _) = find_purchase_invoice-eq laws db company id old there in
          let p = c.balanced id old found in
          let rewrite = find_changed_bill laws db company id g old there refl refl in
          let once : Db W = change_invoice id g db in
          let twice : Db W = change_invoice id (set_paid old.paid_amount) once in
          Done-then (λ d. d ≡ once) _ _ _ db refl
            λ _ d first. rw first (
              Done-then (λ d. d ≡ twice) _ _ _ once
                (rw (refresh-found once company id (g old) rewrite) refl)
                λ _ e second.
                  rw (second, reentered-eq db id g old.paid_amount computed)
                    (
                      bill_changed laws db id h old c found (λ x. refl)
                          (record {
                            grand_amount = ha;
                            paid_amount_ok = p.paid_amount_ok;
                            cents_paid = p.cents_paid;
                            status_derived = refl;
                            paid_confirmed = p.paid_confirmed;
                          }),
                      find_bill_by_id-Reads laws (change_invoice id h db) company id (h old)
                          (find_changed_bill laws db company id h old there refl refl),
                    ))

  pub update_purchase_invoice-Books :
      (collation : Collation) (db : Db W) (company id : Text) (dto : PurchaseInvoiceDto W)
      (computed : LinesCalc W)
      → IsConsistent laws db
      → IsAmount computed.grand_total
      → Outcome
          (Books laws (applied laws db))
          db
          (update_purchase_invoice collation company id dto computed db)
  unfolding update_purchase_invoice
  update_purchase_invoice-Books collation db company id dto computed c ha =
      Outcome-read _ _ _ db (find_bill_by_id-store laws db company id) λ old h.
        Outcome-read _ _ _ db (read_dates-store db dto) λ dates _.
          Outcome-read _ _ _ db refl λ taken _. Outcome-read _ _ _ db (guard-store _ _ db) λ _ _.
            Outcome-after _ _ _ db (
              reenter-Done db id company dto computed _ dates.0 dates.1 old c
                (find_bill_by_id-eq laws db company id old h) ha)
