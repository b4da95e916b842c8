-- ===== src/Sales/Books/Lifecycle.antt =====
-- Changes of an invoice's status, on the books.
use invoicing_be.Base.{
  ℕ, ◌≡◌, refl, ◌∙◌, ap, true, false, not, ◌&&◌, none, some, List, [], ◌∷◌, arith, Bool-cases,
  Option-cases, ok, err, inl, inr,
}
use invoicing_be.Text.{Text, ◌≐◌, ≐-refl}
use invoicing_be.Money.{Float, IsCents}
use invoicing_be.Store.{bind-ok, bind-err, guard, ◌>>◌}
use invoicing_be.Store.Table.{Table, find-update}
use invoicing_be.Sales.Model.{
  SalesInvoice, SalesInvoiceStatus, draft, cancelled, confirmed, is_draft, SalesPayment,
  SalesReceipt, SalesReceiptAllocation, Db, SalesAction, in_use, not_found, find_invoice,
}
use invoicing_be.Sales.Balance.{change_invoice}
use invoicing_be.Sales.Balance.Ledger.{IsPaid, Holds-change, find_invoice-eq}
use invoicing_be.Sales.Invoice.{
  find_invoice_by_id, has_payment, has_allocation, is_live_of, has_payments, set_status,
  back_to_draft, cancel, confirm,
}
use invoicing_be.Sales.Books.{is_live, allocated, verified_sum, applied, IsConsistent}
use invoicing_be.Sales.Books.Steps.{Keeps, Keeps-read, IsRead, or_fail-IsRead, guard-IsRead}

module _ {ℓ} {W : Type ℓ} where
  -- Every payment against the invoice is the company's.
  abbrev pub OwnPayments : Text → Text → Table (SalesPayment W) → Type 0
  OwnPayments company id [] = Unit
  OwnPayments company id ((key, p) ∷ t) =
      ((p.sales_invoice_id ≐ id) ≡ true → p.company_id ≡ company) × OwnPayments company id t

  -- Every live receipt that gives to the invoice is the company's.
  abbrev pub OwnReceipts :
      Text → Text → Table (SalesReceipt W) → List (SalesReceiptAllocation W) → Type 0
  OwnReceipts company id receipts [] = Unit
  OwnReceipts company id receipts (a ∷ as') =
      ((a.sales_invoice_id ≐ id) ≡ true
        → is_live receipts a.sales_receipt_id ≡ true
        → is_live_of company receipts a.sales_receipt_id ≡ true)
      × OwnReceipts company id receipts as'

  -- What is paid on the invoice is paid within the company.
  abbrev pub IsOwn : Text → Text → Db W → Type 0
  IsOwn company id db =
      OwnPayments company id db.payments × OwnReceipts company id db.receipts db.allocations

module _ {ℓ} {W : Type ℓ} ⦃f : Float W⦄ (laws : IsCents W) where
  no_payment :
      (company id : Text) (t : Table (SalesPayment W))
      → OwnPayments company id t
      → has_payment company id t ≡ false
      → verified_sum laws t id ≡ 0
  unfolding has_payment
  no_payment company id [] own h = refl
  no_payment company id ((key, p) ∷ t) (mine, own) h = elim (Bool-cases (p.sales_invoice_id ≐ id)) [
    | inl e ↦ ground (arith, e, mine e, ≐-refl company, h)
    | inr e ↦ ground (arith, e, h, no_payment company id t own)
  ]

  no_allocation :
      (company id : Text) (receipts : Table (SalesReceipt W))
      (as' : List (SalesReceiptAllocation W))
      → OwnReceipts company id receipts as'
      → has_allocation company id receipts as' ≡ false
      → allocated laws (is_live receipts) as' id ≡ 0
  unfolding has_allocation
  no_allocation company id receipts [] own h = refl
  no_allocation company id receipts (a ∷ as') (mine, own) h =
      elim (Bool-cases (a.sales_invoice_id ≐ id)) [
        | inl e ↦ elim (Bool-cases (is_live receipts a.sales_receipt_id)) [
          | inl live ↦ ground (arith, e, mine e live, h)
          | inr dead ↦
              rw (e, dead) (no_allocation company id receipts as' own (ground (arith, e, h)))
        ]
        | inr e ↦ rw e (ground (arith, e, h, no_allocation company id receipts as' own))
      ]

  -- Where checkInvoiceHasNoPayments finds nothing, nothing is paid.
  unpaid_lem :
      (company id : Text) (db : Db W)
      → IsOwn company id db
      → has_payments company id db ≡ false
      → applied laws db id ≡ 0
  unfolding has_payments
  unpaid_lem company id db (payments, receipts) h = omega (
    arith,
    no_payment company id db.payments payments (ground arith),
    no_allocation company id db.receipts db.allocations receipts (ground arith),
  )

  find_invoice_by_id-some :
      (db : Db W) (company id : Text) (i : SalesInvoice W)
      → find_invoice db company id ≡ some i
      → find_invoice_by_id company id db ≡ (ok i, db)
  unfolding find_invoice_by_id
  find_invoice_by_id-some db company id i found = rw found refl

  find_invoice_by_id-none :
      (db : Db W) (company id : Text)
      → find_invoice db company id ≡ none
      → find_invoice_by_id company id db ≡ (err (not_found id), db)
  unfolding find_invoice_by_id
  find_invoice_by_id-none db company id gone = rw gone refl

  abbrev pub with_status : SalesInvoiceStatus → SalesInvoice W → SalesInvoice W
  with_status status i = record i { status = status }

  module _ (db : Db W) (company id : Text) (status : SalesInvoiceStatus) where
    set_status-blocked :
        (is_draft status && has_payments company id db) ≡ true
        → set_status company id status db ≡ (err in_use, db)
    unfolding set_status
    set_status-blocked h =
        bind-ok _ _ db (has_payments company id db) db refl
        ∙ bind-err _ _ db in_use db (ap (λ b. guard (not b) in_use db) h)

    set_status-gone :
        (is_draft status && has_payments company id db) ≡ false
        → find_invoice db company id ≡ none
        → set_status company id status db ≡ (err (not_found id), db)
    unfolding set_status
    set_status-gone h gone =
        bind-ok _ _ db (has_payments company id db) db refl
        ∙ bind-ok _ _ db tt db (ap (λ b. guard (not b) in_use db) h)
        ∙ bind-err _ _ db (not_found id) db (find_invoice_by_id-none db company id gone)

    set_status-done :
        (i : SalesInvoice W)
        → (is_draft status && has_payments company id db) ≡ false
        → find_invoice db company id ≡ some i
        → set_status company id status db ≡ (ok tt, change_invoice id (with_status status) db)
    unfolding set_status
    set_status-done i h found =
        bind-ok _ _ db (has_payments company id db) db refl
        ∙ bind-ok _ _ db tt db (ap (λ b. guard (not b) in_use db) h)
        ∙ bind-ok _ _ db i db (find_invoice_by_id-some db company id i found)

  IsPaid-status :
      (n : ℕ) (i : SalesInvoice W) (status : SalesInvoiceStatus)
      → IsPaid laws n i
      → (status ≡ draft → n ≡ 0)
      → IsPaid laws n (with_status status i)
  IsPaid-status n i status p none_paid = record {
    grand_amount = p.grand_amount;
    paid_amount_ok = p.paid_amount_ok;
    cents_paid = p.cents_paid;
    status_derived = p.status_derived;
    draft_unpaid = none_paid;
  }

  -- On consistent books, when all that is paid on the invoice is paid within the company,
  -- setting the invoice's status either succeeds, keeps every paid amount and leaves
  -- consistent books, so that no draft has money booked on it, or is refused and changes
  -- nothing.
  pub set_status-Keeps :
      (db : Db W) (company id : Text) (status : SalesInvoiceStatus)
      → IsConsistent laws db
      → IsOwn company id db
      → Keeps laws (applied laws db) db (set_status company id status db)
  set_status-Keeps db company id status c own =
      elim (Bool-cases (is_draft status && has_payments company id db)) [
        | inl h ↦ rw (set_status-blocked db company id status h) refl
        | inr h ↦ elim (Option-cases (find_invoice db company id)) [
          | inl gone ↦ rw (set_status-gone db company id status h gone) refl
          | inr (i, found) ↦
              let there = find_invoice-eq laws db company id i found in
              let none_paid : status ≡ draft → applied laws db id ≡ 0 =
                λ e. unpaid_lem company id db own (rw e at h) in
              rw (set_status-done db company id status i h found) (
                record {
                  balanced =
                      Holds-change laws (applied laws db) (applied laws db) db id
                        (with_status status) i c.balanced there
                        (IsPaid-status (applied laws db id) i status (c.balanced id i there)
                          none_paid)
                        (λ j e. refl);
                  booked = c.booked;
                  payments = c.payments;
                },
                λ j. refl,
              )
        ]
      ]

  find_with_status :
      (db : Db W) (company id : Text) (status : SalesInvoiceStatus) (i : SalesInvoice W)
      → find_invoice db company id ≡ some i
      → find_invoice (change_invoice id (with_status status) db) company id
        ≡ some (with_status status i)
  unfolding find_invoice
  find_with_status db company id status i found =
      ground (arith, found, find-update id id (with_status status) db.invoices, ≐-refl id)

  -- A new status, and the read after it.
  status_read :
      (db : Db W) (company id : Text) (status : SalesInvoiceStatus)
      → IsConsistent laws db
      → IsOwn company id db
      → Keeps laws
          (applied laws db)
          db
          ((set_status company id status >> find_invoice_by_id company id) db)
  status_read db company id status c own =
      let set : SalesAction W (Unit {0}) = set_status company id status in
      let read : SalesAction W (SalesInvoice W) = find_invoice_by_id company id in
      let kept = set_status-Keeps db company id status c own in
      elim (Bool-cases (is_draft status && has_payments company id db)) [
        | inl h ↦
            rw (bind-err set (λ _. read) db in_use db (set_status-blocked db company id status h))
              refl
        | inr h ↦ elim (Option-cases (find_invoice db company id)) [
          | inl gone ↦
              rw
                (bind-err set (λ _. read) db (not_found id) db
                  (set_status-gone db company id status h gone))
                refl
          | inr (i, found) ↦
              let changed : Db W = change_invoice id (with_status status) db in
              let done = set_status-done db company id status i h found in
              rw
                (bind-ok set (λ _. read) db tt changed done
                  ∙ find_invoice_by_id-some changed company id (with_status status i)
                      (find_with_status db company id status i found))
                (rw done at kept)
        ]
      ]

  find_invoice_by_id-IsRead : (company id : Text) → IsRead laws (find_invoice_by_id company id)
  unfolding find_invoice_by_id
  find_invoice_by_id-IsRead company id db = or_fail-IsRead laws _ _ db

  -- On consistent books, when all that is paid on the invoice is paid within the company,
  -- Confirm either succeeds, keeps every paid amount and leaves consistent books, or is
  -- refused, also because the lines no longer compute, and changes nothing.
  pub confirm-Keeps :
      (db : Db W) (company id : Text)
      → IsConsistent laws db
      → IsOwn company id db
      → Keeps laws (applied laws db) db (confirm company id db)
  unfolding confirm
  confirm-Keeps db company id c own =
      Keeps-read laws (applied laws db) db _ _ (find_invoice_by_id-IsRead company id) λ i _.
        Keeps-read laws (applied laws db) db _ _ (guard-IsRead laws _ _) λ _ _.
          Keeps-read laws (applied laws db) db _ _ (λ d. refl)
            λ _ _. status_read db company id confirmed c own

  -- On consistent books, when all that is paid on the invoice is paid within the company,
  -- BackToDraft either succeeds, keeps every paid amount and leaves consistent books, or is
  -- refused and changes nothing.
  pub back_to_draft-Keeps :
      (db : Db W) (company id : Text)
      → IsConsistent laws db
      → IsOwn company id db
      → Keeps laws (applied laws db) db (back_to_draft company id db)
  unfolding back_to_draft
  back_to_draft-Keeps db company id c own =
      Keeps-read laws (applied laws db) db _ _ (find_invoice_by_id-IsRead company id) λ i _.
        Keeps-read laws (applied laws db) db _ _ (guard-IsRead laws _ _)
          λ _ _. status_read db company id draft c own

  -- On consistent books, when all that is paid on the invoice is paid within the company,
  -- Cancel either succeeds, keeps every paid amount and leaves consistent books, or is refused
  -- and changes nothing.
  pub cancel-Keeps :
      (db : Db W) (company id : Text)
      → IsConsistent laws db
      → IsOwn company id db
      → Keeps laws (applied laws db) db (cancel company id db)
  unfolding cancel
  cancel-Keeps db company id c own =
      Keeps-read laws (applied laws db) db _ _ (find_invoice_by_id-IsRead company id) λ i _.
        Keeps-read laws (applied laws db) db _ _ (guard-IsRead laws _ _)
          λ _ _. status_read db company id cancelled c own
