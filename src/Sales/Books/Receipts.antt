-- ===== src/Sales/Books/Receipts.antt =====
-- Recording a receipt, on the books.
use invoicing_be.Base.{[], ◌∷◌, ◌+◌, ◌≡◌, refl, sym, false, not, List, arith, All, Result, ok, err}
use invoicing_be.Text.{Text, ◌≐◌, ≐_iff, ≐-refl, trim_space}
use invoicing_be.Calendar.{Date}
use invoicing_be.Money.{Float, IsCents}
use invoicing_be.Store.{Collation, ◌>>=◌}
use invoicing_be.Store.Table.{Table, insert, update, find-insert, find-update}
use invoicing_be.Sales.Model.{
  SalesReceipt, SalesReceiptAllocation, Db, SalesError, find_receipt, number_exists,
}
use invoicing_be.Sales.Balance.Ledger.{Ledger, SameBooks}
use invoicing_be.Sales.Receipt.{
  AllocationDto, ReceiptDto, sort_allocations, without_rows_of, allocation_rows, apply_from,
  apply_receipt_allocations, normalize_receipt_allocations, save_receipt,
}
use invoicing_be.Sales.Receipt.Repository.{new_number, number_taken, book_receipt, create_receipt}
use invoicing_be.Sales.Receipt.Ledger.{given_to, IsPayment, Holds-eq, Ends, apply_from-Ends}
use invoicing_be.Sales.Books.{is_live, applied, IsConsistent}
use invoicing_be.Sales.Books.Steps.{
  Keeps, Finishes, IsFound, Keeps-find, Keeps-eq, or_fail-IsRead, guard-IsRead, lift-IsRead,
  Keeps-read, IsRead,
}
use invoicing_be.Sales.Books.Sums.{
  given_to-sort, All-sort, allocated-append, allocated-rows, IsBooked-rows, allocated_others,
  All-append-IsBooked,
}

module _ {ℓ} {W : Type ℓ} where
  is_live-insert :
      (t : Table (SalesReceipt W)) (id j : Text) (r : SalesReceipt W)
      → (j ≐ id) ≡ false
      → is_live (insert id r t) j ≡ is_live t j
  is_live-insert t id j r h = ground (arith, find-insert id j r t, ≐_iff id j, ≐_iff j id)

  pub is_live-update :
      (t : Table (SalesReceipt W)) (id j : Text) (g : SalesReceipt W → SalesReceipt W)
      → (j ≐ id) ≡ false
      → is_live (update id g t) j ≡ is_live t j
  is_live-update t id j g h = ground (arith, find-update id j g t, ≐_iff id j, ≐_iff j id)

  -- No row refers to this ID yet.
  abbrev pub IsFresh : Text → Db W → Type ℓ
  IsFresh id db = without_rows_of id db.allocations ≡ db.allocations

module _ {ℓ} {W : Type ℓ} ⦃f : Float W⦄ (laws : IsCents W) where
  module _ (db db' : Db W) (same : SameBooks laws db db') (receipt : Text) where
    applied-save :
        (company : Text) (r : SalesReceipt W) (as' : List (AllocationDto W))
        → r.deleted ≡ false
        → IsFresh receipt db
        → (id : Text)
        → applied laws (save_receipt receipt r (allocation_rows company receipt as') db') id
          ≡ applied laws db id + given_to laws id as'
    applied-save company r as' h fresh id =
        rw (same.receipts_eq, same.allocations_eq, same.payments_eq)
          (omega (
            arith,
            allocated-append laws (is_live (insert receipt r db.receipts)) db.allocations
                (allocation_rows company receipt as') id,
            allocated-rows laws (is_live (insert receipt r db.receipts)) company receipt as' id
                (ground (arith, find-insert receipt receipt r db.receipts, ≐-refl receipt)),
            rw fresh at (
                allocated_others laws (is_live db.receipts) (is_live (insert receipt r db.receipts))
                  receipt db.allocations id (λ j e. is_live-insert db.receipts receipt j r e)),
          ))

  saved-IsFound :
      (db : Db W) (receipt company : Text) (r : SalesReceipt W)
      (new : List (SalesReceiptAllocation W))
      → r.deleted ≡ false
      → r.company_id ≡ company
      → IsFound laws company receipt (save_receipt receipt r new db)
  unfolding find_receipt
  saved-IsFound db receipt company r new live mine =
      (r, ground (arith, find-insert receipt receipt r db.receipts, ≐-refl receipt, ≐-refl company))

  -- The end of Create's transaction.
  saved :
      (db : Db W) (receipt company : Text) (as' : List (AllocationDto W)) (r : W → SalesReceipt W)
      → ((total : W) → ((r total).deleted ≡ false) × ((r total).company_id ≡ company))
      → IsConsistent laws db
      → All (IsPayment laws) as'
      → IsFresh receipt db
      → (end : Result (SalesError W) W × Db W)
      → Ends laws (λ id. applied laws db id + given_to laws id as') db end
      → Finishes laws {A = Unit {0}}
          (IsFound laws company receipt)
          (λ id. applied laws db id + given_to laws id as')
          (let (result, db') = end in
            elim result [
              | ok total ↦
                  (ok tt, save_receipt receipt (r total) (allocation_rows company receipt as') db')
              | err e ↦ (err e, db')
            ])
  saved db receipt company as' r live c pays fresh (ok total, db') (holds, same) =
      let sums = applied-save db db' same receipt company (r total) as' (live total).0 fresh in
      let rows = allocation_rows company receipt as' in
      (
        record {
          balanced = Holds-eq laws _ _ db' (λ id. sym (sums id)) holds;
          booked =
              All-append-IsBooked laws db'.allocations rows (rw same.allocations_eq c.booked)
                (IsBooked-rows laws company receipt as' pays);
          payments = rw same.payments_eq c.payments;
        },
        sums,
        saved-IsFound db' receipt company (r total) rows (live total).0 (live total).1,
      )
  saved db receipt company as' r live c pays fresh (err e, db') h = tt

  book_receipt-Finishes :
      (db : Db W) (id company : Text) (dto : ReceiptDto W) (number : Text) (date : Date)
      (as' : List (AllocationDto W))
      → IsConsistent laws db
      → All (IsPayment laws) as'
      → IsFresh id db
      → Finishes laws
          (IsFound laws company id)
          (λ j. applied laws db j + given_to laws j as')
          (book_receipt id company dto number date as' db)
  unfolding book_receipt apply_receipt_allocations ◌>>=◌
  book_receipt-Finishes db id company dto number date [] c pays fresh = tt
  book_receipt-Finishes db id company dto number date (a ∷ rest) c pays fresh =
      let as' = a ∷ rest in
      saved db id company as' _ (λ total. (refl, refl)) c pays fresh
        (apply_from company dto.mitra_id f.nought as' db)
        (apply_from-Ends laws (applied laws db) db company dto.mitra_id f.nought as' c.balanced
          pays)

  pub normalize-sort :
      (as' bs : List (AllocationDto W))
      → normalize_receipt_allocations as' ≡ ok bs
      → sort_allocations as' ≡ bs
  unfolding normalize_receipt_allocations
  normalize-sort as' bs h = ground arith

  new_number-IsRead :
      (collation : Collation) (company number : Text) (date : Date)
      → IsRead laws {A = Text} (new_number collation company number date)
  unfolding new_number ◌>>=◌
  new_number-IsRead collation company number date db = ground (
    arith,
    guard-IsRead laws (not (number_taken collation db company number)) (number_exists number) db,
  )

  pub sorted :
      (as' bs : List (AllocationDto W))
      → normalize_receipt_allocations as' ≡ ok bs
      → All (IsPayment laws) as'
      → All (IsPayment laws) bs × ((id : Text) → given_to laws id bs ≡ given_to laws id as')
  sorted as' bs h pays =
      let e = normalize-sort as' bs h in
      (rw (← e) (All-sort laws as' pays), λ id. rw (← e) (given_to-sort laws id as'))

  -- On consistent books, when a new receipt allocates whole positive amounts of cents and its
  -- ID is not in use by allocation rows, recording it either succeeds, pays every invoice by
  -- exactly what the receipt gives to it and leaves consistent books, or is refused and
  -- changes nothing. Books are consistent when every invoice's paid amount is the sum of the
  -- live receipts' allocations and the verified payments, its payment status follows from it,
  -- and nothing is paid on a draft.
  pub create_receipt-Keeps :
      (collation : Collation) (db : Db W) (id company : Text) (dto : ReceiptDto W)
      → IsConsistent laws db
      → All (IsPayment laws) dto.allocations
      → IsFresh id db
      → Keeps laws
          (λ j. applied laws db j + given_to laws j dto.allocations)
          db
          (create_receipt collation id company dto db)
  unfolding create_receipt
  create_receipt-Keeps collation db id company dto c pays fresh =
      let paid : Ledger = λ j. applied laws db j + given_to laws j dto.allocations in
      Keeps-read laws paid db _ _ (or_fail-IsRead laws _ _) λ date _.
        Keeps-read laws paid db _ _
          (new_number-IsRead collation company (trim_space dto.number) date)
          λ number _.
            Keeps-read laws paid db _ _
              (lift-IsRead laws (normalize_receipt_allocations dto.allocations))
              λ bs e.
                let (ps, same) = sorted dto.allocations bs e pays in
                Keeps-eq laws (λ j. applied laws db j + given_to laws j bs) paid db _
                  (λ j. omega (arith, same j))
                  (Keeps-find laws _ db company id (book_receipt id company dto number date bs)
                    (book_receipt-Finishes db id company dto number date bs c ps fresh))
