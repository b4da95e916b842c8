-- ===== src/Sales/Books/Payments.antt =====
-- Recording and verifying a payment, on the books.
use invoicing_be.Base.{
  ◌+◌, ◌≤◌, ◌<◌, ◌≡◌, refl, sym, ◌∙◌, ap, true, false, not, some, [], ◌∷◌, arith, if◌then◌else◌,
  Bool-cases, Result, ok, err, inl, inr,
}
use invoicing_be.Text.{Text, ◌≐◌, ≐-refl, trim_space}
use invoicing_be.Calendar.{Date}
use invoicing_be.Money.{Float, IsCents}
use invoicing_be.Store.{
  rollback, bind-ok, bind-err, Collation, guard, map_fail, modify, ◌>>=◌, ◌>>◌,
}
use invoicing_be.Store.Table.{Table, find, insert, update, find-insert, find-update}
use invoicing_be.Sales.Model.{
  SalesInvoice, is_confirmed, find_invoice, SalesAction, number_exists, SalesPayment, is_pending,
  Db, SalesError, find_payment,
}
use invoicing_be.Sales.Balance.{apply_sales_invoice_payment}
use invoicing_be.Sales.Balance.Ledger.{Ledger, credit, Moves, apply-Moves, apply-accepts}
use invoicing_be.Sales.Receipt.{payment_error}
use invoicing_be.Sales.Receipt.Ledger.{Holds-eq}
use invoicing_be.Sales.Payment.{
  PaymentDto, save_payment, invoice_for_payment, new_payment_number, payment_number_taken,
  create_payment, find_payment_by_id, mark_verified, not_pending, change_payment, verify_pending,
  verify_payment,
}
use invoicing_be.Sales.Books.{verified_sum, applied, ArePayments, IsConsistent}
use invoicing_be.Sales.Books.Steps.{
  Keeps, Finishes, Keeps-after, Keeps-read, IsRead, or_fail-IsRead, guard-IsRead,
}

module _ {ℓ} {W : Type ℓ} ⦃f : Float W⦄ (laws : IsCents W) where
  open laws use {IsAmount, cents}

  -- Marking a pending payment as verified adds it to the sum.
  verified_sum-update :
      (t : Table (SalesPayment W)) (id actor j : Text) (p : SalesPayment W)
      → find t id ≡ some p
      → is_pending p.status ≡ true
      → verified_sum laws (update id (mark_verified actor) t) j ≡ (
          if p.sales_invoice_id ≐ j
          then verified_sum laws t j + cents p.amount
          else verified_sum laws t j)
  unfolding find update
  verified_sum-update [] id actor j p h wait = ground arith
  verified_sum-update ((key, q) ∷ t) id actor j p h wait =
      ground (arith, verified_sum-update t id actor j p)

  ArePayments-update :
      (t : Table (SalesPayment W)) (id actor : Text)
      → ArePayments laws t
      → ArePayments laws (update id (mark_verified actor) t)
  unfolding update
  ArePayments-update [] id actor ps = tt
  ArePayments-update ((key, q) ∷ t) id actor (p, ps) = elim (Bool-cases (key ≐ id)) [
    | inl e ↦ rw e (p, ps)
    | inr e ↦ rw e (p, ArePayments-update t id actor ps)
  ]

  ArePayments-find :
      (t : Table (SalesPayment W)) (id : Text) (p : SalesPayment W)
      → ArePayments laws t
      → find t id ≡ some p
      → IsAmount p.amount × (0 < cents p.amount)
  unfolding find
  ArePayments-find [] id p ps h = ground arith
  ArePayments-find ((key, q) ∷ t) id p (here, ps) h = elim (Bool-cases (key ≐ id)) [
    | inl e ↦ ground (arith, e, h, here)
    | inr e ↦ ArePayments-find t id p ps (rw e at h)
  ]

  find_payment-eq :
      (db : Db W) (company id : Text) (p : SalesPayment W)
      → find_payment db company id ≡ some p
      → (find db.payments id ≡ some p) × ((p.company_id ≐ company) ≡ true)
  unfolding find_payment
  find_payment-eq db company id p h = (ground arith, ground arith)

  find_marked :
      (db : Db W) (company actor id : Text) (p : SalesPayment W)
      → find_payment db company id ≡ some p
      → find_payment (change_payment id (mark_verified actor) db) company id
        ≡ some (mark_verified actor p)
  unfolding find_payment
  find_marked db company actor id p h =
      ground (arith, h, find-update id id (mark_verified actor) db.payments, ≐-refl id)

  same_payment :
      (db db' : Db W) (company id : Text)
      → db'.payments ≡ db.payments
      → find_payment db' company id ≡ find_payment db company id
  unfolding find_payment
  same_payment db db' company id e = rw e refl

  marked :
      (db : Db W) (company actor id : Text) (p : SalesPayment W)
      → IsConsistent laws db
      → find_payment db company id ≡ some p
      → is_pending p.status ≡ true
      → (r : Result (SalesError W) (Unit {0}) × Db W)
      → Moves laws (credit (applied laws db) p.sales_invoice_id (cents p.amount)) db r
      → Finishes laws
          (λ (d : Db W). (q : SalesPayment W) × (find_payment_by_id company id d ≡ (ok q, d)))
          (credit (applied laws db) p.sales_invoice_id (cents p.amount))
          ((map_fail payment_error (λ (d : Db W). r)
              >> modify (change_payment id (mark_verified actor)))
            db)
  unfolding ◌>>=◌ find_payment_by_id
  marked db company actor id p c found wait (ok _, db') (holds, same) =
      let (there, mine) = find_payment-eq db company id p found in
      let sums : (j : Text)
          → applied laws (change_payment id (mark_verified actor) db') j
            ≡ credit (applied laws db) p.sales_invoice_id (cents p.amount) j =
        λ j.
          rw (same.receipts_eq, same.allocations_eq, same.payments_eq)
            (ground (arith, verified_sum-update db.payments id actor j p there wait)) in
      (
        record {
          balanced = Holds-eq laws _ _ db' (λ j. sym (sums j)) holds;
          booked = rw same.allocations_eq c.booked;
          payments = rw same.payments_eq (ArePayments-update db.payments id actor c.payments);
        },
        sums,
        (
          mark_verified actor p,
          rw
              (find_marked db' company actor id p
                (same_payment db db' company id same.payments_eq ∙ found))
              refl,
        ),
      )
  marked db company actor id p c found wait (err e, db') h = tt

  pub find_payment_by_id-some :
      (db : Db W) (company id : Text) (p : SalesPayment W)
      → find_payment db company id ≡ some p
      → find_payment_by_id company id db ≡ (ok p, db)
  unfolding find_payment_by_id
  find_payment_by_id-some db company id p found = rw found refl

  verify_pending-pending :
      (db : Db W) (company actor id : Text) (p : SalesPayment W)
      → find_payment db company id ≡ some p
      → is_pending p.status ≡ true
      → verify_pending company actor id db
        ≡ (map_fail payment_error (apply_sales_invoice_payment company p.sales_invoice_id p.amount)
              >> modify (change_payment id (mark_verified actor)))
            db
  unfolding verify_pending
  verify_pending-pending db company actor id p found wait =
      bind-ok _ _ db p db (find_payment_by_id-some db company id p found)
      ∙ bind-ok _ _ db tt db (ap (λ b. guard b not_pending db) wait)

  verify_pending-done :
      (db : Db W) (company actor id : Text) (p : SalesPayment W)
      → find_payment db company id ≡ some p
      → is_pending p.status ≡ false
      → verify_pending company actor id db ≡ (err not_pending, db)
  unfolding verify_pending
  verify_pending-done db company actor id p found done =
      bind-ok _ _ db p db (find_payment_by_id-some db company id p found)
      ∙ bind-err _ _ db not_pending db (ap (λ b. guard b not_pending db) done)

  verify_pending-Finishes :
      (db : Db W) (company actor id : Text) (p : SalesPayment W)
      → IsConsistent laws db
      → find_payment db company id ≡ some p
      → Finishes laws
          (λ (d : Db W). (q : SalesPayment W) × (find_payment_by_id company id d ≡ (ok q, d)))
          (credit (applied laws db) p.sales_invoice_id (cents p.amount))
          (verify_pending company actor id db)
  unfolding ◌>>=◌
  verify_pending-Finishes db company actor id p c found =
      let (there, _) = find_payment-eq db company id p found in
      let (amount, pos) = ArePayments-find db.payments id p c.payments there in
      elim (Bool-cases (is_pending p.status)) [
        | inr done ↦ rw (verify_pending-done db company actor id p found done) tt
        | inl wait ↦ rw (verify_pending-pending db company actor id p found wait) (
            marked db company actor id p c found wait
              (apply_sales_invoice_payment company p.sales_invoice_id p.amount db)
              (apply-Moves laws (applied laws db) db company p.sales_invoice_id p.amount c.balanced
                amount pos))
      ]

  -- On consistent books, verifying a payment of the company either succeeds, pays the
  -- payment's invoice by exactly its amount and no other invoice, and leaves consistent books,
  -- or is refused and changes nothing.
  pub verify_payment-Keeps :
      (db : Db W) (company actor id : Text) (p : SalesPayment W)
      → IsConsistent laws db
      → find_payment db company id ≡ some p
      → Keeps laws
          (credit (applied laws db) p.sales_invoice_id (cents p.amount))
          db
          (verify_payment company actor id db)
  unfolding verify_payment
  verify_payment-Keeps db company actor id p c found =
      Keeps-after laws (credit (applied laws db) p.sales_invoice_id (cents p.amount)) db
        (verify_pending company actor id) (find_payment_by_id company id)
        (verify_pending-Finishes db company actor id p c found)

  pending_saved :
      (db : Db W) (company id : Text) (p : SalesPayment W)
      → IsConsistent laws db
      → IsAmount p.amount × (0 < cents p.amount)
      → is_pending p.status ≡ true
      → p.company_id ≡ company
      → Keeps laws
          (applied laws db)
          db
          ((modify (save_payment id p) >> find_payment_by_id company id) db)
  unfolding ◌>>=◌ find_payment_by_id find_payment insert
  pending_saved db company id p c amount wait mine =
      let found : find_payment (save_payment id p db) company id ≡ some p =
        ground (arith, ≐-refl id, ≐-refl company, find-insert id id p db.payments) in
      let sums : (j : Text) → applied laws (save_payment id p db) j ≡ applied laws db j =
        λ j. rw wait (omega arith) in
      rw found (
        record {
          balanced = Holds-eq laws _ _ (save_payment id p db) (λ j. sym (sums j)) c.balanced;
          booked = c.booked;
          payments = (amount, c.payments);
        },
        sums,
      )

  new_payment_number-IsRead :
      (collation : Collation) (company number : Text) (date : Date)
      → IsRead laws {A = Text} (new_payment_number collation company number date)
  unfolding new_payment_number ◌>>=◌
  new_payment_number-IsRead collation company number date db = ground (
    arith,
    guard-IsRead laws (not (payment_number_taken collation db company number))
        (number_exists number) db,
  )

  -- On consistent books, recording a payment of a whole positive amount of cents either
  -- succeeds, moves no invoice's paid amount and leaves consistent books, or is refused and
  -- changes nothing.
  pub create_payment-Keeps :
      (collation : Collation) (db : Db W) (id company mitra : Text) (dto : PaymentDto W)
      → IsConsistent laws db
      → IsAmount dto.amount
      → 0 < cents dto.amount
      → Keeps laws (applied laws db) db (create_payment collation id company mitra dto db)
  unfolding create_payment invoice_for_payment
  create_payment-Keeps collation db id company mitra dto c amount pos =
      Keeps-read laws (applied laws db) db _ _ (or_fail-IsRead laws _ _) λ date _.
        Keeps-read laws (applied laws db) db _ _ (λ d. or_fail-IsRead laws _ _ d)
          λ invoice _. Keeps-read laws (applied laws db) db _ _ (guard-IsRead laws _ _) λ _ _.
            Keeps-read laws (applied laws db) db _ _
              (new_payment_number-IsRead collation company (trim_space dto.number) date)
              λ number _. pending_saved db company id _ c (amount, pos) refl refl

  verified_after :
      (db : Db W) (company actor id : Text) (p : SalesPayment W) (ledger : Ledger)
      → find_payment db company id ≡ some p
      → (r : Result (SalesError W) (Unit {0}) × Db W) → Moves laws ledger db r
      → r.0 ≡ ok tt
      → (((λ (d : Db W). rollback db (
              (map_fail payment_error (λ (d : Db W). r)
                  >> modify (change_payment id (mark_verified actor)))
                db))
            >> find_payment_by_id company id)
          db).0
        ≡ ok (mark_verified actor p)
  unfolding ◌>>=◌
  verified_after db company actor id p ledger found (ok _, db') (holds, same) done =
      ap (λ x. x.0)
        (find_payment_by_id-some (change_payment id (mark_verified actor) db') company id
          (mark_verified actor p)
          (find_marked db' company actor id p
            (same_payment db db' company id same.payments_eq ∙ found)))
  verified_after db company actor id p ledger found (err e, db') moved done = cc

  -- On consistent books, verifying a pending payment of the company succeeds and returns it as
  -- verified by the actor, when its invoice is found and confirmed and what is paid on it,
  -- with the payment, does not pass its grand total.
  pub verify_payment-accepts :
      (db : Db W) (company actor id : Text) (p : SalesPayment W) (i : SalesInvoice W)
      → IsConsistent laws db
      → find_payment db company id ≡ some p
      → is_pending p.status ≡ true
      → find_invoice db company p.sales_invoice_id ≡ some i
      → is_confirmed i.status ≡ true
      → applied laws db p.sales_invoice_id + cents p.amount ≤ cents i.grand_total
      → (verify_payment company actor id db).0 ≡ ok (mark_verified actor p)
  unfolding verify_payment ◌>>=◌
  verify_payment-accepts db company actor id p i c found wait invoice ready room =
      let (there, _) = find_payment-eq db company id p found in
      let (amount, pos) = ArePayments-find db.payments id p c.payments there in
      let pay : SalesAction W (Unit {0}) =
        apply_sales_invoice_payment company p.sales_invoice_id p.amount in
      ap
        (λ (x : Result (SalesError W) (Unit {0}) × Db W).
          (((λ (d : Db W). rollback db x) >> find_payment_by_id company id) db).0)
        (verify_pending-pending db company actor id p found wait)
      ∙ verified_after db company actor id p _ found (pay db)
          (apply-Moves laws (applied laws db) db company p.sales_invoice_id p.amount c.balanced
            amount pos)
          (apply-accepts laws (applied laws db) db company p.sales_invoice_id p.amount i c.balanced
            amount invoice ready room)
