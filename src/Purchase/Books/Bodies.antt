-- ===== src/Purchase/Books/Bodies.antt =====
-- What the transactions of a receipt do to the books.
use mathlib.Core.Option.{some-injective}
use invoicing_be.Base.{◌+◌, ◌-◌, ◌≡◌, refl, sym, ◌∙◌, ap, false, some, arith, ok}
use invoicing_be.Text.{Text, ≐_iff, ≐-refl}
use invoicing_be.Calendar.{Date}
use invoicing_be.Money.{Float, IsCents}
use invoicing_be.Ledger.{Ledger}
use invoicing_be.Store.{or_fail, or_fail-store, or_fail-eq-ok}
use invoicing_be.Store.Table.{insert, find, find-insert, find-update}
use invoicing_be.Store.Entries.{Entries-find, Entries-map, Entries-update}
use invoicing_be.Store.Outcome.{Done, Done-map, Reads, Done-then}
use invoicing_be.Sales.Model.{trim_ptr}
use invoicing_be.Purchase.Model.{PurchaseReceipt, Db, not_found, find_purchase_receipt}
use invoicing_be.Purchase.Balance.Ledger.{Holds-eq, SameOwners, OnlyPays, OnlyPays-trans}
use invoicing_be.Purchase.Receipt.{
  PurchaseReceiptDto, find_receipt_by_id, save_receipt, change_receipt, give_back,
  book_purchase_receipt, rewritten, rebook_purchase_receipt, unbook_purchase_receipt,
}
use invoicing_be.Purchase.Books.{paid_to, paid_on, applied, IsBooked, IsConsistent}
use invoicing_be.Purchase.Books.Steps.{Within, Names, pay_bill-Done, give_back-Done}
use invoicing_be.Purchase.Books.Sums.{paid_sum-insert, paid_sum-update, paid_on-le-sum}

module _ {ℓ} {W : Type ℓ} ⦃f : Float W⦄ (laws : IsCents W) where
  open laws use {IsAmount, cents}

  find_purchase_receipt-eq :
      (db : Db W) (company id : Text) (r : PurchaseReceipt W)
      → find_purchase_receipt db company id ≡ some r
      → (find db.receipts id ≡ some r) × (r.company_id ≡ company) × (r.deleted ≡ false)
  unfolding find_purchase_receipt
  find_purchase_receipt-eq db company id r h =
      let found : find db.receipts id ≡ some r = ground (arith, h) in
      (found, ground (arith, h, found, ≐_iff r.company_id company), ground (arith, h, found))

  pub find_receipt_by_id-eq :
      (db : Db W) (company id : Text) (r : PurchaseReceipt W)
      → (find_receipt_by_id company id db).0 ≡ ok r
      → find_purchase_receipt db company id ≡ some r
  unfolding find_receipt_by_id
  find_receipt_by_id-eq db company id r h = or_fail-eq-ok _ _ r db h

  pub find_receipt_by_id-store :
      (db : Db W) (company id : Text) → (find_receipt_by_id company id db).1 ≡ db
  unfolding find_receipt_by_id
  find_receipt_by_id-store db company id = or_fail-store _ _ db

  find_purchase_receipt-some :
      (db : Db W) (company id : Text) (r : PurchaseReceipt W)
      → find db.receipts id ≡ some r
      → r.company_id ≡ company
      → r.deleted ≡ false
      → find_purchase_receipt db company id ≡ some r
  unfolding find_purchase_receipt
  find_purchase_receipt-some db company id r found own live =
      ground (arith, found, own, live, ≐-refl company)

  find_receipt_by_id-Reads :
      (db : Db W) (company id : Text) (r : PurchaseReceipt W)
      → find db.receipts id ≡ some r
      → r.company_id ≡ company
      → r.deleted ≡ false
      → Reads (find_receipt_by_id company id) db
  unfolding find_receipt_by_id
  find_receipt_by_id-Reads db company id r found own live =
      let there = find_purchase_receipt-some db company id r found own live in
      (r, ap (λ o. or_fail (not_found id) o db) there)

  -- The books after a call that pays as `ledger` says.
  abbrev pub Books : Ledger → Db W → Type ℓ
  Books ledger db = IsConsistent laws db × ((id : Text) → applied laws db id ≡ ledger id)

  pub IsBooked-only :
      (db d : Db W) (r : PurchaseReceipt W)
      → SameOwners laws db d
      → IsBooked laws db r
      → IsBooked laws d r
  IsBooked-only db d r same p live bill e =
      let (ha, mine) = p live bill e in (ha, same.companies_eq bill ∙ mine)

  -- A new receipt, after its payment.
  saved :
      (db d : Db W) (id : Text) (r : PurchaseReceipt W)
      → IsConsistent laws db
      → Within laws (λ j. applied laws db j + paid_on laws r j) db d
      → IsBooked laws db r
      → Books (λ j. applied laws db j + paid_on laws r j) (save_receipt id r d)
  unfolding insert
  saved db d id r c (holds, only) booked =
      let sums : (j : Text)
          → applied laws (save_receipt id r d) j ≡ applied laws db j + paid_on laws r j =
        λ j. rw only.owners.receipts_eq (paid_sum-insert laws db.receipts id r j) in
      (
        record {
          balanced = Holds-eq laws _ _ (save_receipt id r d) (λ j. sym (sums j)) holds;
          booked = (
            IsBooked-only db d r only.owners booked,
            rw only.owners.receipts_eq (
                Entries-map (IsBooked laws db) (IsBooked laws d) db.receipts
                  (λ s. IsBooked-only db d s only.owners) c.booked),
          );
        },
        sums,
      )

  -- A changed receipt, after its old payment is given back and its new one is made.
  changed :
      (ledger : Ledger) (db d : Db W) (id : Text) (g : PurchaseReceipt W → PurchaseReceipt W)
      (r : PurchaseReceipt W)
      → IsConsistent laws db
      → find db.receipts id ≡ some r
      → Within laws ledger db d
      → IsBooked laws db (g r)
      → ((j : Text) → ledger j ≡ applied laws db j - paid_on laws r j + paid_on laws (g r) j)
      → Books ledger (change_receipt id g d)
  changed ledger db d id g r c found (holds, only) booked moves =
      let sums : (j : Text) → applied laws (change_receipt id g d) j ≡ ledger j = λ j.
        rw only.owners.receipts_eq (
          omega (
            arith,
            moves j,
            paid_sum-update laws db.receipts id g r j found,
            paid_on-le-sum laws db.receipts id r j found,
          )) in
      (
        record {
          balanced = Holds-eq laws _ _ (change_receipt id g d) (λ j. sym (sums j)) holds;
          booked = rw only.owners.receipts_eq (
              Entries-update (IsBooked laws db) (IsBooked laws d) db.receipts id g
                (λ s. IsBooked-only db d s only.owners)
                (λ s e.
                  rw (some-injective s r (sym e ∙ found))
                    (IsBooked-only db d (g r) only.owners booked))
                c.booked);
        },
        sums,
      )

  find_changed :
      (db d : Db W) (id : Text) (g : PurchaseReceipt W → PurchaseReceipt W) (r : PurchaseReceipt W)
      → OnlyPays laws db d
      → find db.receipts id ≡ some r
      → find (change_receipt id g d).receipts id ≡ some (g r)
  find_changed db d id g r only found =
      find-update id id g d.receipts ∙ rw (≐-refl id, only.owners.receipts_eq, found) refl

  find_saved :
      (d : Db W) (id : Text) (r : PurchaseReceipt W)
      → find (save_receipt id r d).receipts id ≡ some r
  find_saved d id r = find-insert id id r d.receipts ∙ rw (≐-refl id) refl

  -- How the body of a transaction ends: with the books that it should leave and the receipt in
  -- place.
  abbrev pub Booked : Ledger → Text → Text → Db W → Type ℓ
  Booked ledger company id d = Books ledger d × Reads (find_receipt_by_id {W = W} company id) d

  pub book-Done :
      (db : Db W) (id company : Text) (dto : PurchaseReceiptDto W) (number : Text) (date : Date)
      → IsConsistent laws db
      → IsAmount dto.amount
      → Done
          (Booked
            (λ j. applied laws db j + paid_to laws (trim_ptr dto.purchase_invoice_id) dto.amount j)
            company
            id)
          (book_purchase_receipt id company dto number date db)
  unfolding book_purchase_receipt
  book-Done db id company dto number date c ha =
      Done-then _ _ _ _ db
        (pay_bill-Done laws (applied laws db) db company (trim_ptr dto.purchase_invoice_id)
          dto.mitra_id dto.amount c.balanced ha)
        λ _ d (within, mine). (
          saved db d id _ c within (λ _ bill e. (ha, mine bill e)),
          find_receipt_by_id-Reads _ company id _ (find_saved d id _) refl refl,
        )

  given_back :
      (db : Db W) (company id : Text) (old : PurchaseReceipt W)
      → IsConsistent laws db
      → find_purchase_receipt db company id ≡ some old
      → Done
          (Within laws (λ j. applied laws db j - paid_on laws old j) db)
          (give_back company old.purchase_invoice_id old.amount db)
  given_back db company id old c found =
      let (there, own, live) = find_purchase_receipt-eq db company id old found in
      let only_paid : (j : Text)
          → paid_on laws old j ≡ paid_to laws old.purchase_invoice_id old.amount j =
        λ j. rw live refl in
      Done-map
        (Within laws (λ j. applied laws db j - paid_to laws old.purchase_invoice_id old.amount j)
          db)
        _ _ (λ d (holds, only). (Holds-eq laws _ _ d (λ j. omega (arith, only_paid j)) holds, only))
        (give_back-Done laws (applied laws db) db company old.purchase_invoice_id old.amount
          c.balanced
          (rw own at (Entries-find (IsBooked laws db) db.receipts id old c.booked there live))
          (λ j. omega (arith, only_paid j, paid_on-le-sum laws db.receipts id old j there)))

  pub rebook-Done :
      (db : Db W) (id company : Text) (dto : PurchaseReceiptDto W) (number : Text) (date : Date)
      (old : PurchaseReceipt W)
      → IsConsistent laws db
      → find_purchase_receipt db company id ≡ some old
      → IsAmount dto.amount
      → Done
          (Booked
            (λ j.
              applied laws db j
              - paid_on laws old j
              + paid_to laws (trim_ptr dto.purchase_invoice_id) dto.amount j)
            company
            id)
          (rebook_purchase_receipt id company dto number date old db)
  unfolding rebook_purchase_receipt
  rebook-Done db id company dto number date old c found ha =
      let (there, own, live) = find_purchase_receipt-eq db company id old found in
      Done-then (Within laws (λ j. applied laws db j - paid_on laws old j) db) _ _ _ db
        (given_back db company id old c found)
        λ _ d (holds, only).
          Done-then _ _ _ _ d
            (pay_bill-Done laws _ d company (trim_ptr dto.purchase_invoice_id) dto.mitra_id
              dto.amount holds ha)
            λ _ e ((held, still), mine).
              let both = OnlyPays-trans laws only still in
              let names : Names laws db company (trim_ptr dto.purchase_invoice_id) =
                λ bill h. sym (only.owners.companies_eq bill) ∙ mine bill h in
              (
                changed _ db e id (rewritten dto number date) old c there (held, both)
                    (rw own λ _ bill h. (ha, names bill h)) (λ j. rw live refl),
                find_receipt_by_id-Reads _ company id _
                    (find_changed db e id (rewritten dto number date) old both there) own live,
              )

  pub unbook-Done :
      (db : Db W) (id company : Text) (old : PurchaseReceipt W)
      → IsConsistent laws db
      → find_purchase_receipt db company id ≡ some old
      → Done
          (Books (λ j. applied laws db j - paid_on laws old j))
          (unbook_purchase_receipt id company old db)
  unfolding unbook_purchase_receipt
  unbook-Done db id company old c found =
      let (there, own, live) = find_purchase_receipt-eq db company id old found in
      Done-then (Within laws (λ j. applied laws db j - paid_on laws old j) db) _ _ _ db
        (given_back db company id old c found)
        λ _ d within. changed _ db d id _ old c there within (λ dead. cc) (λ j. omega arith)
