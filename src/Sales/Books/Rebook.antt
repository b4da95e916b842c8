-- ===== src/Sales/Books/Rebook.antt =====
-- Replacing and deleting a receipt, on the books.
use invoicing_be.Base.{
  ◌+◌, ◌-◌, ◌≤◌, ◌≡◌, refl, sym, ◌∙◌, true, false, [], ◌∷◌, Option, none, some, List, arith, All,
  Option-cases, Result, ok, err, inl, inr,
}
use invoicing_be.Text.{Text, ≐-refl}
use invoicing_be.Calendar.{Date}
use invoicing_be.Money.{Float, IsCents}
use invoicing_be.Store.{Collation, guard, modify, or_fail, ◌>>=◌, ◌>>◌}
use invoicing_be.Store.Table.{find, update, find-update}
use invoicing_be.Sales.Model.{
  SalesReceipt, SalesReceiptAllocation, Db, SalesError, empty_slice, find_receipt,
}
use invoicing_be.Sales.Balance.Ledger.{Ledger, SameBooks}
use invoicing_be.Sales.Receipt.{
  AllocationDto, ReceiptDto, rows_of, without_rows_of, allocation_rows, apply_from,
  apply_receipt_allocations, reverse_rows, reverse_receipt_allocations,
  normalize_receipt_allocations, replace_receipt, drop_receipt, find_by_id,
}
use invoicing_be.Sales.Receipt.Repository.{
  rebook_receipt, unbook_receipt, update_receipt, delete_receipt,
}
use invoicing_be.Sales.Receipt.Ledger.{
  given_to, booked_to, IsPayment, Holds-eq, Ends, Ends-shift, apply_from-Ends, reverse_rows-Ends,
}
use invoicing_be.Sales.Books.{is_live, applied, IsConsistent}
use invoicing_be.Sales.Books.Receipts.{is_live-update, sorted}
use invoicing_be.Sales.Books.Steps.{
  Keeps, Finishes, IsFound, Keeps-find, Keeps-transaction, Keeps-eq, or_fail-IsRead, guard-IsRead,
  lift-IsRead, find_by_id-IsRead, Keeps-read,
}
use invoicing_be.Sales.Books.Sums.{
  allocated-append, allocated-rows, IsBooked-rows, allocated_split, allocated_others,
  allocated_dead, IsBooked-rows_of, All-append-IsBooked,
}

module _ {ℓ} {W : Type ℓ} ⦃f : Float W⦄ (laws : IsCents W) where
  -- The part of the sums that a receipt accounts for.
  abbrev pub booked_by : Db W → Text → Ledger
  booked_by db receipt id = booked_to laws id (rows_of receipt db.allocations)

  live_found :
      (db : Db W) (company id : Text) (r : SalesReceipt W)
      → find_receipt db company id ≡ some r
      → is_live db.receipts id ≡ true
  unfolding find_receipt
  live_found db company id r h = ground arith

  without :
      (db : Db W) (receipt id : Text)
      → is_live db.receipts receipt ≡ true
      → applied laws db id - booked_by db receipt id + booked_by db receipt id ≡ applied laws db id
  without db receipt id live =
      omega (arith, allocated_split laws (is_live db.receipts) receipt db.allocations id live)

  enough :
      (db : Db W) (receipt : Text)
      → is_live db.receipts receipt ≡ true
      → (id : Text) → booked_by db receipt id ≤ applied laws db id
  enough db receipt live id =
      omega (arith, allocated_split laws (is_live db.receipts) receipt db.allocations id live)

  is_live-same :
      (db : Db W) (receipt : Text) (g : SalesReceipt W → SalesReceipt W)
      → ((r : SalesReceipt W) → (g r).deleted ≡ r.deleted)
      → is_live (update receipt g db.receipts) receipt ≡ is_live db.receipts receipt
  is_live-same db receipt g keeps = elim (Option-cases (find db.receipts receipt)) [
    | inl gone ↦ ground (arith, gone, find-update receipt receipt g db.receipts, ≐-refl receipt)
    | inr (r, e) ↦
        ground (arith, e, find-update receipt receipt g db.receipts, ≐-refl receipt, keeps r)
  ]

  module _ (db db' : Db W) (same : SameBooks laws db db') (receipt : Text)
      (live : is_live db.receipts receipt ≡ true) where
    applied-drop :
        (id : Text)
        → applied laws (drop_receipt receipt db') id ≡ applied laws db id - booked_by db receipt id
    applied-drop id =
        let gone =
          update receipt (λ (r : SalesReceipt W). record r { deleted = true }) db.receipts in
        rw (same.receipts_eq, same.allocations_eq, same.payments_eq)
          (omega (
            arith,
            allocated_dead laws (is_live gone) receipt db.allocations id (
                ground (
                  arith,
                  live,
                  ≐-refl receipt,
                  find-update receipt receipt (λ (r : SalesReceipt W). record r { deleted = true })
                      db.receipts,
                )),
            allocated_others laws (is_live db.receipts) (is_live gone) receipt db.allocations id
                (λ j e. is_live-update db.receipts receipt j _ e),
            allocated_split laws (is_live db.receipts) receipt db.allocations id live,
          ))

    applied-replace :
        (company : Text) (g : SalesReceipt W → SalesReceipt W) (as' : List (AllocationDto W))
        → ((r : SalesReceipt W) → (g r).deleted ≡ r.deleted)
        → (id : Text)
        → applied laws (replace_receipt receipt g (allocation_rows company receipt as') db') id
          ≡ applied laws db id - booked_by db receipt id + given_to laws id as'
    applied-replace company g as' keeps id =
        let changed = update receipt g db.receipts in
        rw (same.receipts_eq, same.allocations_eq, same.payments_eq)
          (omega (
            arith,
            allocated-append laws (is_live changed) (without_rows_of receipt db.allocations)
                (allocation_rows company receipt as') id,
            allocated-rows laws (is_live changed) company receipt as' id
                (is_live-same db receipt g keeps ∙ live),
            allocated_others laws (is_live db.receipts) (is_live changed) receipt db.allocations id
                (λ j e. is_live-update db.receipts receipt j g e),
            allocated_split laws (is_live db.receipts) receipt db.allocations id live,
          ))

  replaced-IsFound :
      (db : Db W) (receipt company : Text) (g : SalesReceipt W → SalesReceipt W)
      (new : List (SalesReceiptAllocation W)) (r : SalesReceipt W)
      → ((x : SalesReceipt W) → ((g x).deleted ≡ x.deleted) × ((g x).company_id ≡ x.company_id))
      → find_receipt db company receipt ≡ some r
      → IsFound laws company receipt (replace_receipt receipt g new db)
  unfolding find_receipt
  replaced-IsFound db receipt company g new r keeps h =
      (g r, ground (arith, h, find-update receipt receipt g db.receipts, ≐-refl receipt, keeps r))

  find_same :
      (db db' : Db W) (company id : Text)
      → db'.receipts ≡ db.receipts
      → find_receipt db' company id ≡ find_receipt db company id
  unfolding find_receipt
  find_same db db' company id e = rw e refl

  or_fail-some {κ} :
      {A : Type κ} (e : SalesError W) (o : Option A) (a : A) (db : Db W)
      → (or_fail e o db).0 ≡ ok a
      → o ≡ some a
  or_fail-some e none a db h = ground arith
  or_fail-some e (some x) a db h = ground arith

  -- The end of Update's transaction.
  replaced :
      (db : Db W) (id company : Text) (old : SalesReceipt W) (as' : List (AllocationDto W))
      (g : W → SalesReceipt W → SalesReceipt W)
      → ((total : W) (r : SalesReceipt W)
          → ((g total r).deleted ≡ r.deleted) × ((g total r).company_id ≡ r.company_id))
      → IsConsistent laws db
      → find_receipt db company id ≡ some old
      → All (IsPayment laws) as'
      → (end : Result (SalesError W) W × Db W)
      → Ends laws (λ j. applied laws db j - booked_by db id j + given_to laws j as') db end
      → Finishes laws {A = Unit {0}}
          (IsFound laws company id)
          (λ j. applied laws db j - booked_by db id j + given_to laws j as')
          (let (result, db') = end in
            elim result [
              | ok total ↦
                  (ok tt, replace_receipt id (g total) (allocation_rows company id as') db')
              | err e ↦ (err e, db')
            ])
  replaced db id company old as' g keeps c found pays (ok total, db') (holds, same) =
      let live = live_found db company id old found in
      let rows = allocation_rows company id as' in
      let sums =
        applied-replace db db' same id live company (g total) as' (λ r. (keeps total r).0) in
      (
        record {
          balanced = Holds-eq laws _ _ db' (λ j. sym (sums j)) holds;
          booked =
              All-append-IsBooked laws (without_rows_of id db'.allocations) rows
                (rw same.allocations_eq (IsBooked-rows_of laws id db.allocations c.booked).1)
                (IsBooked-rows laws company id as' pays);
          payments = rw same.payments_eq c.payments;
        },
        sums,
        replaced-IsFound db' id company (g total) rows old (keeps total)
            (find_same db db' company id same.receipts_eq ∙ found),
      )
  replaced db id company old as' g keeps c found pays (err e, db') h = tt

  rebooked :
      (db : Db W) (id company : Text) (dto : ReceiptDto W) (old : SalesReceipt W)
      (as' : List (AllocationDto W)) (g : W → SalesReceipt W → SalesReceipt W)
      → ((total : W) (r : SalesReceipt W)
          → ((g total r).deleted ≡ r.deleted) × ((g total r).company_id ≡ r.company_id))
      → IsConsistent laws db
      → find_receipt db company id ≡ some old
      → All (IsPayment laws) as'
      → (end : Result (SalesError W) (Unit {0}) × Db W)
      → Ends laws (λ j. applied laws db j - booked_by db id j) db end
      → Finishes laws {A = Unit {0}}
          (IsFound laws company id)
          (λ j. applied laws db j - booked_by db id j + given_to laws j as')
          (((λ (d : Db W). end) >>= λ _.
              apply_receipt_allocations company dto.mitra_id as' >>= λ total.
              modify (replace_receipt id (g total) (allocation_rows company id as')))
            db)
  unfolding ◌>>=◌ apply_receipt_allocations
  rebooked db id company dto old as' g keeps c found pays (ok _, db') (holds, same) =
      replaced db id company old as' g keeps c found pays
        (apply_from company dto.mitra_id f.nought as' db')
        (Ends-shift laws _ (apply_from company dto.mitra_id f.nought as' db') same (
          apply_from-Ends laws (λ j. applied laws db j - booked_by db id j) db' company dto.mitra_id
            f.nought as' holds pays))
  rebooked db id company dto old as' g keeps c found pays (err e, db') h = tt

  refused_empty :
      (P : Db W → Type ℓ) (ledger : Ledger) (db : Db W)
      (end : Result (SalesError W) (Unit {0}) × Db W)
      → Finishes laws {A = Unit {0}} P ledger (((λ (d : Db W). end) >> guard false empty_slice) db)
  unfolding ◌>>=◌
  refused_empty P ledger db (ok u, d) = tt
  refused_empty P ledger db (err e, d) = tt

  rebook_receipt-Finishes :
      (db : Db W) (id company : Text) (dto : ReceiptDto W) (number : Text) (date : Date)
      (old : SalesReceipt W) (as' : List (AllocationDto W))
      → IsConsistent laws db
      → find_receipt db company id ≡ some old
      → All (IsPayment laws) as'
      → Finishes laws
          (IsFound laws company id)
          (λ j. applied laws db j - booked_by db id j + given_to laws j as')
          (rebook_receipt company id dto number date as' db)
  unfolding rebook_receipt reverse_receipt_allocations ◌>>=◌
  rebook_receipt-Finishes db id company dto number date old [] c found pays =
      refused_empty (IsFound laws company id) _ db
        (reverse_rows company (rows_of id db.allocations) db)
  rebook_receipt-Finishes db id company dto number date old (a ∷ rest) c found pays =
      let as' = a ∷ rest in
      rebooked db id company dto old as' _ (λ total r. (refl, refl)) c found pays
        (reverse_rows company (rows_of id db.allocations) db)
        (reverse_rows-Ends laws (applied laws db) db company (rows_of id db.allocations) c.balanced
          (IsBooked-rows_of laws id db.allocations c.booked).0
          (enough db id (live_found db company id old found)))

  -- On consistent books, when the new allocations are whole positive amounts of cents,
  -- replacing a receipt either succeeds, takes back from every invoice what the receipt had
  -- given to it, gives what it gives now and leaves consistent books, or is refused and
  -- changes nothing.
  pub update_receipt-Keeps :
      (collation : Collation) (db : Db W) (company id : Text) (dto : ReceiptDto W)
      → IsConsistent laws db
      → All (IsPayment laws) dto.allocations
      → Keeps laws
          (λ j. applied laws db j - booked_by db id j + given_to laws j dto.allocations)
          db
          (update_receipt collation company id dto db)
  unfolding update_receipt find_by_id
  update_receipt-Keeps collation db company id dto c pays =
      let paid : Ledger =
        λ j. applied laws db j - booked_by db id j + given_to laws j dto.allocations in
      Keeps-read laws paid db _ _ (find_by_id-IsRead laws company id) λ old found.
        Keeps-read laws paid db _ _ (or_fail-IsRead laws _ _) λ date _.
          Keeps-read laws paid db _ _ (λ d. refl)
            λ taken _. Keeps-read laws paid db _ _ (guard-IsRead laws _ _) λ _ _.
              Keeps-read laws paid db _ _
                (lift-IsRead laws (normalize_receipt_allocations dto.allocations))
                λ bs e.
                  let (ps, same) = sorted laws dto.allocations bs e pays in
                  Keeps-eq laws (λ j. applied laws db j - booked_by db id j + given_to laws j bs)
                    paid db _ (λ j. omega (arith, same j))
                    (Keeps-find laws _ db company id _ (
                      rebook_receipt-Finishes db id company dto _ date old bs c
                        (or_fail-some _ _ old db found) ps))

  unbooked :
      (db : Db W) (id company : Text) (old : SalesReceipt W)
      → IsConsistent laws db
      → find_receipt db company id ≡ some old
      → (end : Result (SalesError W) (Unit {0}) × Db W)
      → Ends laws (λ j. applied laws db j - booked_by db id j) db end
      → Finishes laws {A = Unit {0}}
          (λ (d : Db W). Unit {0})
          (λ j. applied laws db j - booked_by db id j)
          (((λ (d : Db W). end) >> modify (drop_receipt id)) db)
  unfolding ◌>>=◌
  unbooked db id company old c found (ok _, db') (holds, same) =
      let sums = applied-drop db db' same id (live_found db company id old found) in
      (
        record {
          balanced = Holds-eq laws _ _ db' (λ j. sym (sums j)) holds;
          booked = rw same.allocations_eq c.booked;
          payments = rw same.payments_eq c.payments;
        },
        sums,
        tt,
      )
  unbooked db id company old c found (err e, db') h = tt

  unbook_receipt-Finishes :
      (db : Db W) (company id : Text) (old : SalesReceipt W)
      → IsConsistent laws db
      → find_receipt db company id ≡ some old
      → Finishes laws
          (λ (d : Db W). Unit {0})
          (λ j. applied laws db j - booked_by db id j)
          (unbook_receipt company id db)
  unfolding unbook_receipt reverse_receipt_allocations ◌>>=◌
  unbook_receipt-Finishes db company id old c found =
      unbooked db id company old c found (reverse_rows company (rows_of id db.allocations) db) (
        reverse_rows-Ends laws (applied laws db) db company (rows_of id db.allocations) c.balanced
          (IsBooked-rows_of laws id db.allocations c.booked).0
          (enough db id (live_found db company id old found)))

  -- On consistent books, deleting a receipt either succeeds, takes back from every invoice
  -- exactly what the receipt had given to it and leaves consistent books, or is refused and
  -- changes nothing.
  pub delete_receipt-Keeps :
      (db : Db W) (company id : Text)
      → IsConsistent laws db
      → Keeps laws (λ j. applied laws db j - booked_by db id j) db (delete_receipt company id db)
  unfolding delete_receipt find_by_id
  delete_receipt-Keeps db company id c =
      Keeps-read laws (λ j. applied laws db j - booked_by db id j) db _ _
        (find_by_id-IsRead laws company id)
        λ old found.
          Keeps-transaction laws _ db (unbook_receipt company id)
            (unbook_receipt-Finishes db company id old c (or_fail-some _ _ old db found))
