-- ===== src/Sales/Books/Saves.antt =====
-- Saving a new invoice and a changed one, on the books.
use invoicing_be.Base.{◌≡◌, refl, ◌∙◌, ap, false, Option, some, arith}
use invoicing_be.Text.{Text, ≐-refl, lit}
use invoicing_be.Calendar.{Date}
use invoicing_be.LineCalc.Stored.{stored_lines}
use invoicing_be.LineCalc.{LinesCalc}
use invoicing_be.Ledger.{Ledger}
use invoicing_be.Money.{Float, IsCents}
use invoicing_be.Store.{Collation, after_read, guard-store, or_fail, or_fail-store}
use invoicing_be.Store.Table.{find, find-insert}
use invoicing_be.Store.Rows.{Rows-insert}
use invoicing_be.Store.Outcome.{Done, Reads, Outcome-read, Outcome-after, Done-read}
use invoicing_be.Sales.Model.{
  SalesInvoice, SalesInvoicePaymentStatus, unpaid, Db, not_found, find_invoice,
}
use invoicing_be.Sales.Balance.{derived_status}
use invoicing_be.Sales.Balance.Ledger.{IsPaid}
use invoicing_be.Sales.Invoice.{find_invoice_by_id}
use invoicing_be.Sales.Invoice.Save.{
  SalesInvoiceDto, invoice_dates, add_invoice, sales_snapshot, enter_sales_invoice,
  create_sales_invoice,
}
use invoicing_be.Sales.Books.{applied, IsConsistent}
use invoicing_be.Sales.Books.Steps.{Kept, Keeps}

module _ {ℓ} {W : Type ℓ} where
  sales_snapshot-store :
      (db : Db W) (company mitra : Text) (contact : Option Text) (current : Text)
      → (sales_snapshot company mitra contact current db).1 ≡ db
  unfolding sales_snapshot
  sales_snapshot-store db company mitra contact current = or_fail-store _ _ db

  invoice_dates-store : (db : Db W) (dto : SalesInvoiceDto W) → (invoice_dates dto db).1 ≡ db
  unfolding invoice_dates
  invoice_dates-store db dto =
      after_read (λ d. d ≡ db) _ _ db refl refl
        λ date _.
          after_read (λ d. d ≡ db) _ _ db refl refl
            λ due _. after_read (λ d. d ≡ db) _ _ db (guard-store _ _ db) refl λ _ _. refl

  find_invoice_by_id-Reads :
      (db : Db W) (company id : Text) (i : SalesInvoice W)
      → find_invoice db company id ≡ some i
      → Reads (find_invoice_by_id company id) db
  unfolding find_invoice_by_id
  find_invoice_by_id-Reads db company id i there = (i, ap (λ o. or_fail (not_found id) o db) there)

  find_invoice-some :
      (db : Db W) (company id : Text) (i : SalesInvoice W)
      → find db.invoices id ≡ some i
      → i.company_id ≡ company
      → i.deleted ≡ false
      → find_invoice db company id ≡ some i
  unfolding find_invoice
  find_invoice-some db company id i found own live =
      ground (arith, found, own, live, ≐-refl company)

  find_added :
      (db : Db W) (id : Text) (i : SalesInvoice W) → find (add_invoice id i db).invoices id ≡ some i
  find_added db id i = find-insert id id i db.invoices ∙ rw (≐-refl id) refl

module _ {ℓ} {W : Type ℓ} ⦃f : Float W⦄ (laws : IsCents W) where
  open laws use {IsAmount, cents}

  -- The payment status of an invoice on which nothing is paid.
  unpaid-derived : (total : W) → IsAmount total → unpaid ≡ derived_status f.nought total
  unfolding derived_status
  unpaid-derived total ha = ground (
    arith,
    laws.cents-nought,
    laws.lt-eq f.nought f.nought laws.nought-IsAmount laws.nought-IsAmount,
    laws.lt-eq f.nought total laws.nought-IsAmount ha,
    laws.le-eq total f.nought ha laws.nought-IsAmount,
  )

  abbrev Saved : Ledger → Text → Text → Db W → Type ℓ
  Saved ledger company id d = Kept laws ledger d × Reads (find_invoice_by_id {W = W} company id) d

  enter-Done :
      (db : Db W) (id company : Text) (dto : SalesInvoiceDto W) (computed : LinesCalc W)
      (asked : Text) (date : Date) (due : Option Date)
      → IsConsistent laws db
      → applied laws db id ≡ 0
      → IsAmount computed.grand_total
      → Done
          (Saved (applied laws db) company id)
          (enter_sales_invoice id company dto computed asked date due db)
  unfolding enter_sales_invoice
  enter-Done db id company dto computed asked date due c unused ha =
      Done-read _ _ _ db refl λ number _. Done-read _ _ _ db refl λ template _.
        Done-read _ _ _ db
          (sales_snapshot-store db company dto.mitra_id dto.contact_person_id (lit ""))
          λ snap _. Done-read _ _ _ db (guard-store _ _ db) λ _ _. (
            (
              record {
                balanced =
                    Rows-insert (λ j. IsPaid laws (applied laws db j))
                      (λ j. IsPaid laws (applied laws db j)) db.invoices id _ c.balanced
                      (rw unused (record {
                        grand_amount = ha;
                        paid_amount_ok = laws.nought-IsAmount;
                        cents_paid = laws.cents-nought;
                        status_derived = unpaid-derived computed.grand_total ha;
                        draft_unpaid = λ _. refl;
                      }))
                      (λ j s _ p. p);
                booked = c.booked;
                payments = c.payments;
              },
              λ j. refl,
            ),
            find_invoice_by_id-Reads _ company id _
                (find_invoice-some _ company id _ (find_added db id _) refl refl),
          )

  -- On consistent books, when nothing is paid under the new invoice's ID and the computed
  -- grand total is a whole amount of cents, a new invoice is either recorded, with nothing
  -- paid on it and the books consistent, or refused with nothing changed.
  pub create_sales_invoice-Keeps :
      (collation : Collation) (db : Db W) (id company : Text) (dto : SalesInvoiceDto W)
      (computed : LinesCalc W)
      → IsConsistent laws db
      → applied laws db id ≡ 0
      → IsAmount computed.grand_total
      → Keeps laws (applied laws db) db (create_sales_invoice collation id company dto computed db)
  unfolding create_sales_invoice
  create_sales_invoice-Keeps collation db id company dto computed c unused ha =
      Outcome-read _ _ _ db (invoice_dates-store db dto) λ dates _.
        Outcome-read _ _ _ db refl λ taken _. Outcome-read _ _ _ db (guard-store _ _ db) λ _ _.
          Outcome-after _ _ _ db
            (enter-Done db id company dto computed _ dates.0 dates.1 c unused ha)

  abbrev with_payment_status : SalesInvoicePaymentStatus → SalesInvoice W → SalesInvoice W
  with_payment_status status i = record i { payment_status = status }

  -- The steps of Update on the invoice's row, as one change.
  abbrev reentered :
      (SalesInvoice W → SalesInvoice W)
      → SalesInvoicePaymentStatus
      → LinesCalc W
      → SalesInvoice W
      → SalesInvoice W
  reentered g status computed i = record (with_payment_status status (g i)) {
    lines = stored_lines computed.lines;
  }
