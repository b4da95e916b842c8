-- ===== src/Purchase/Books/Bills.antt =====
-- Changes of a bill that leave alone what is paid on it.
use mathlib.Core.Option.{some-injective}
use invoicing_be.Base.{
  ℕ, ◌≡◌, ◌⊎◌, refl, sym, ◌∙◌, ap, true, false, none, some, [], ◌∷◌, arith, Bool-cases,
  Option-cases, ok, inl, inr,
}
use invoicing_be.Text.{Text, ◌≐◌, ≐→≡, ≐_iff, ≐-refl}
use invoicing_be.Money.{Float, IsCents}
use invoicing_be.Store.{or_fail, or_fail-store, or_fail-eq-ok}
use invoicing_be.Store.Table.{Table, find, find-update}
use invoicing_be.Store.Entries.{Entries, Entries-map}
use invoicing_be.Store.Outcome.{Reads}
use invoicing_be.Purchase.Model.{
  PurchaseInvoice, PurchaseReceipt, is_confirmed, Db, not_found, find_purchase_invoice,
}
use invoicing_be.Purchase.Balance.{change_invoice}
use invoicing_be.Purchase.Balance.Ledger.{
  IsPaid, Holds-change, company_of, find_purchase_invoice-eq, SameOwners-change,
}
use invoicing_be.Purchase.Invoice.{names_bill, has_receipt, find_bill_by_id}
use invoicing_be.Purchase.Books.{paid_on, paid_sum, applied, IsBooked, IsConsistent}
use invoicing_be.Purchase.Books.Bodies.{Books, IsBooked-only}

module _ {ℓ} {W : Type ℓ} ⦃f : Float W⦄ (laws : IsCents W) where
  -- A receipt pays nothing on the bill, or it is one of the bill's company that names it.
  paid_on-cases :
      (db : Db W) (r : PurchaseReceipt W) (id : Text)
      → IsBooked laws db r
      → (paid_on laws r id ≡ 0)
        ⊎ ((names_bill id r.purchase_invoice_id ≡ true)
            × (r.deleted ≡ false)
            × (company_of laws db id ≡ some r.company_id))
  paid_on-cases db r id booked = elim (Bool-cases r.deleted) [
    | inl dead ↦ inl (rw dead refl)
    | inr live ↦ elim (Option-cases r.purchase_invoice_id) [
      | inl unnamed ↦ inl (ground (arith, unnamed))
      | inr (bill, named) ↦ elim (Bool-cases (bill ≐ id)) [
        | inl same ↦
            inr (rw (named, same) refl, live, rw (← ≐→≡ bill id same) (booked live bill named).1)
        | inr other ↦ inl (ground (arith, named, other))
      ]
    ]
  ]

  -- Nothing is paid on a bill that is not there.
  pub unnamed_lem :
      (db : Db W) (id : Text) (t : Table (PurchaseReceipt W))
      → Entries (IsBooked laws db) t
      → company_of laws db id ≡ none
      → paid_sum laws t id ≡ 0
  unnamed_lem db id [] bs gone = refl
  unnamed_lem db id ((key, r) ∷ t) (b, bs) gone = elim (paid_on-cases db r id b) [
    | inl zero ↦ omega (arith, zero, unnamed_lem db id t bs gone)
    | inr (_, _, there) ↦ ground (arith, gone, there)
  ]

  -- Where checkPurchaseInvoiceHasNoPayments finds nothing, nothing is paid.
  pub unpaid_lem :
      (db : Db W) (company id : Text) (t : Table (PurchaseReceipt W))
      → Entries (IsBooked laws db) t
      → company_of laws db id ≡ some company
      → has_receipt company id t ≡ false
      → paid_sum laws t id ≡ 0
  unfolding has_receipt
  unpaid_lem db company id [] bs mine h = refl
  unpaid_lem db company id ((key, r) ∷ t) (b, bs) mine h = elim (paid_on-cases db r id b) [
    | inl zero ↦ omega (arith, zero, unpaid_lem db company id t bs mine (ground (arith, h)))
    | inr (named, live, there) ↦
        let own : r.company_id ≡ company = some-injective _ _ (sym there ∙ mine) in
        ground (arith, h, named, live, own, ≐-refl company)
  ]

  pub IsPaid-eq :
      (n : ℕ) (i j : PurchaseInvoice W)
      → IsPaid laws n i
      → j.grand_total ≡ i.grand_total
      → j.paid_amount ≡ i.paid_amount
      → j.payment_status ≡ i.payment_status
      → (is_confirmed j.status ≡ false → n ≡ 0)
      → IsPaid laws n j
  IsPaid-eq n i j p grand amount status confirmed = record {
    grand_amount = rw grand p.grand_amount;
    paid_amount_ok = rw amount p.paid_amount_ok;
    cents_paid = rw amount p.cents_paid;
    status_derived = status ∙ p.status_derived ∙ rw (grand, amount) refl;
    paid_confirmed = confirmed;
  }

  -- A change of a bill after which it still agrees with what is paid.
  pub bill_changed :
      (db : Db W) (id : Text) (g : PurchaseInvoice W → PurchaseInvoice W) (i : PurchaseInvoice W)
      → IsConsistent laws db
      → find db.invoices id ≡ some i
      → ((x : PurchaseInvoice W) → (g x).company_id ≡ x.company_id)
      → IsPaid laws (applied laws db id) (g i)
      → Books laws (applied laws db) (change_invoice id g db)
  bill_changed db id g i c found keeps here = (
    record {
      balanced =
          Holds-change laws (applied laws db) (applied laws db) db id g i c.balanced found here
            (λ j e. refl);
      booked =
          Entries-map (IsBooked laws db) (IsBooked laws (change_invoice id g db)) db.receipts
            (λ r.
              IsBooked-only laws db (change_invoice id g db) r
                (SameOwners-change laws db id g keeps))
            c.booked;
    },
    λ j. refl,
  )

  pub find_purchase_invoice-live :
      (db : Db W) (company id : Text) (i : PurchaseInvoice W)
      → find_purchase_invoice db company id ≡ some i
      → (i.company_id ≡ company) × (i.deleted ≡ false)
  unfolding find_purchase_invoice
  find_purchase_invoice-live db company id i e =
      let (found, _) = find_purchase_invoice-eq laws db company id i e in
      (ground (arith, e, found, ≐_iff i.company_id company), ground (arith, e, found))

  pub find_purchase_invoice-some :
      (db : Db W) (company id : Text) (i : PurchaseInvoice W)
      → find db.invoices id ≡ some i
      → i.company_id ≡ company
      → i.deleted ≡ false
      → find_purchase_invoice db company id ≡ some i
  unfolding find_purchase_invoice
  find_purchase_invoice-some db company id i found own live =
      ground (arith, found, own, live, ≐-refl company)

  pub find_bill_by_id-eq :
      (db : Db W) (company id : Text) (i : PurchaseInvoice W)
      → (find_bill_by_id company id db).0 ≡ ok i
      → find_purchase_invoice db company id ≡ some i
  unfolding find_bill_by_id
  find_bill_by_id-eq db company id i h = or_fail-eq-ok _ _ i db h

  pub find_bill_by_id-store :
      (db : Db W) (company id : Text) → (find_bill_by_id company id db).1 ≡ db
  unfolding find_bill_by_id
  find_bill_by_id-store db company id = or_fail-store _ _ db

  pub find_bill_by_id-Reads :
      (db : Db W) (company id : Text) (i : PurchaseInvoice W)
      → find_purchase_invoice db company id ≡ some i
      → Reads (find_bill_by_id company id) db
  unfolding find_bill_by_id
  find_bill_by_id-Reads db company id i there = (i, ap (λ o. or_fail (not_found id) o db) there)

  -- The changed bill is found.
  pub find_changed_bill :
      (db : Db W) (company id : Text) (g : PurchaseInvoice W → PurchaseInvoice W)
      (i : PurchaseInvoice W)
      → find_purchase_invoice db company id ≡ some i
      → (g i).company_id ≡ i.company_id
      → (g i).deleted ≡ i.deleted
      → find_purchase_invoice (change_invoice id g db) company id ≡ some (g i)
  find_changed_bill db company id g i there same_company same_deleted =
      let (found, _) = find_purchase_invoice-eq laws db company id i there in
      let (own, live) = find_purchase_invoice-live db company id i there in
      find_purchase_invoice-some (change_invoice id g db) company id (g i)
        (find-update id id g db.invoices ∙ rw (≐-refl id, found) refl) (same_company ∙ own)
        (same_deleted ∙ live)
