-- ===== src/Sales/Receipt/Ledger.antt =====
-- Receipts against the ledger: applying allocations credits it, reversing rows debits it.
use invoicing_be.Base.{
  ℕ, ◌+◌, ◌-◌, ◌≤◌, ◌<◌, ◌≡◌, refl, ◌∙◌, inl, inr, List, [], ◌∷◌, arith, All, if◌then◌else◌,
  Bool-cases, Option-cases, Result, ok, err,
}
use invoicing_be.Text.{Text, ◌≐◌, ≐-refl}
use invoicing_be.Money.{Float, IsCents, ◌⊕◌, round2}
use invoicing_be.Store.{map_fail, ◌>>=◌, ◌>>◌}
use invoicing_be.Sales.Model.{SalesReceiptAllocation, Db, SalesError, SalesAction, find_invoice}
use invoicing_be.Sales.Balance.{apply_sales_invoice_payment, reverse_sales_invoice_payment}
use invoicing_be.Sales.Balance.Ledger.{
  Ledger, credit, debit, Holds, SameBooks, Moves, apply-Moves, reverse-Moves,
}
use invoicing_be.Sales.Receipt.{AllocationDto, payment_error, apply_from, reverse_rows}

module _ {ℓ} {W : Type ℓ} ⦃f : Float W⦄ (laws : IsCents W) where
  open laws use {IsAmount, cents}

  -- The cents that a list of allocations gives to an invoice.
  abbrev pub given_to : Text → List (AllocationDto W) → ℕ
  given_to id [] = 0
  given_to id (a ∷ as') =
      let rest = given_to id as' in if a.sales_invoice_id ≐ id then rest + cents a.amount else rest

  abbrev pub booked_to : Text → List (SalesReceiptAllocation W) → ℕ
  booked_to id [] = 0
  booked_to id (a ∷ as') =
      let rest = booked_to id as' in if a.sales_invoice_id ≐ id then rest + cents a.amount else rest

  abbrev pub IsPayment : AllocationDto W → Type 0
  IsPayment a = IsAmount a.amount × (0 < cents a.amount)

  abbrev pub IsBooked : SalesReceiptAllocation W → Type 0
  IsBooked a = IsAmount a.amount × (0 < cents a.amount)

  pub Holds-eq :
      (ledger ledger' : Ledger) (db : Db W)
      → ((id : Text) → ledger id ≡ ledger' id)
      → Holds laws ledger db
      → Holds laws ledger' db
  Holds-eq ledger ledger' db same holds id i e = rw (← same id) (holds id i e)

  SameBooks-refl : (db : Db W) → SameBooks laws db db
  SameBooks-refl db = record {
    payments_eq = refl;
    receipts_eq = refl;
    allocations_eq = refl;
    mitras_eq = refl;
    taxes_eq = refl;
    contacts_eq = refl;
    templates_eq = refl;
  }

  SameBooks-trans : {a b c : Db W} → SameBooks laws a b → SameBooks laws b c → SameBooks laws a c
  SameBooks-trans p q = record {
    payments_eq = q.payments_eq ∙ p.payments_eq;
    receipts_eq = q.receipts_eq ∙ p.receipts_eq;
    allocations_eq = q.allocations_eq ∙ p.allocations_eq;
    mitras_eq = q.mitras_eq ∙ p.mitras_eq;
    taxes_eq = q.taxes_eq ∙ p.taxes_eq;
    contacts_eq = q.contacts_eq ∙ p.contacts_eq;
    templates_eq = q.templates_eq ∙ p.templates_eq;
  }

  -- Where a loop inside a transaction ends well, the ledger has moved.
  abbrev pub Ends {κ} : {A : Type κ} → Ledger → Db W → Result (SalesError W) A × Db W → Type ℓ
  Ends ledger db (ok _, db') = Holds laws ledger db' × SameBooks laws db db'
  Ends ledger db (err e, db') = Unit

  pub Ends-shift {κ} :
      {A : Type κ} (ledger : Ledger) {db db' : Db W} (r : Result (SalesError W) A × Db W)
      → SameBooks laws db db'
      → Ends ledger db' r
      → Ends ledger db r
  Ends-shift ledger (ok a, last) same (holds, books) = (holds, SameBooks-trans same books)
  Ends-shift ledger (err e, last) same h = tt

  -- The rest of a loop after a call on one invoice.
  Ends-after {κ} :
      {A : Type κ} (ledger ledger' : Ledger) (db : Db W) (g : SalesError W → SalesError W)
      (k : SalesAction W A) (r : Result (SalesError W) (Unit {0}) × Db W)
      → Moves laws ledger db r
      → ((db' : Db W) → Holds laws ledger db' → Ends ledger' db' (k db'))
      → Ends ledger' db ((map_fail g (λ (d : Db W). r) >> k) db)
  unfolding ◌>>=◌
  Ends-after ledger ledger' db g k (ok _, db') (holds, same) rest =
      Ends-shift ledger' (k db') same (rest db' holds)
  Ends-after ledger ledger' db g k (err e, db') m rest = tt

  Ends-done {κ} :
      {A : Type κ} (ledger ledger' : Ledger) (db : Db W) (k : SalesAction W A)
      (r : Result (SalesError W) (Unit {0}) × Db W)
      → Moves laws ledger db r
      → ((db' : Db W) → Holds laws ledger db' → Ends ledger' db' (k db'))
      → Ends ledger' db (((λ (d : Db W). r) >> k) db)
  unfolding ◌>>=◌
  Ends-done ledger ledger' db k (ok _, db') (holds, same) rest =
      Ends-shift ledger' (k db') same (rest db' holds)
  Ends-done ledger ledger' db k (err e, db') m rest = tt

  pub credit_given :
      (ledger : Ledger) (a : AllocationDto W) (as' : List (AllocationDto W)) (id : Text)
      → credit ledger a.sales_invoice_id (cents a.amount) id + given_to id as'
        ≡ ledger id + given_to id (a ∷ as')
  credit_given ledger a as' id = ground arith

  Ends-eq {κ} :
      {A : Type κ} (ledger ledger' : Ledger) (db : Db W) (r : Result (SalesError W) A × Db W)
      → ((id : Text) → ledger id ≡ ledger' id)
      → Ends ledger db r
      → Ends ledger' db r
  Ends-eq ledger ledger' db (ok a, db') same (holds, books) =
      (Holds-eq ledger ledger' db' same holds, books)
  Ends-eq ledger ledger' db (err e, db') same h = tt

  -- Allocations that are applied credit the invoices by what they give to them.
  pub apply_from-Ends :
      (ledger : Ledger) (db : Db W) (company mitra : Text) (total : W)
      (allocations : List (AllocationDto W))
      → Holds laws ledger db
      → All IsPayment allocations
      → Ends
          (λ id. ledger id + given_to id allocations)
          db
          (apply_from company mitra total allocations db)
  unfolding apply_from
  apply_from-Ends ledger db company mitra total [] holds pays =
      (Holds-eq ledger _ db (λ id. omega arith) holds, SameBooks-refl db)
  apply_from-Ends ledger db company mitra total (a ∷ as') holds (pay, pays) =
      elim (Option-cases (find_invoice db company a.sales_invoice_id)) [
        | inl gone ↦ rw gone tt
        | inr (i, e) ↦ elim (Bool-cases (i.mitra_id ≐ mitra)) [
          | inr other ↦ rw (e, other) tt
          | inl same ↦
              let booked = credit ledger a.sales_invoice_id (cents a.amount) in
              let call = apply_sales_invoice_payment company a.sales_invoice_id a.amount db in
              rw (e, same)
                (Ends-after booked (λ id. ledger id + given_to id (a ∷ as')) db payment_error
                  (apply_from company mitra (round2 (total ⊕ a.amount)) as') call
                  (apply-Moves laws ledger db company a.sales_invoice_id a.amount holds pay.0 pay.1)
                  (λ db' h.
                    Ends-eq (λ id. booked id + given_to id as') _ db'
                      (apply_from company mitra (round2 (total ⊕ a.amount)) as' db')
                      (credit_given ledger a as')
                      (apply_from-Ends booked db' company mitra (round2 (total ⊕ a.amount)) as' h
                        pays)))
        ]
      ]

  debit_booked :
      (ledger : Ledger) (a : SalesReceiptAllocation W) (as' : List (SalesReceiptAllocation W))
      (id : Text)
      → debit ledger a.sales_invoice_id (cents a.amount) id - booked_to id as'
        ≡ ledger id - booked_to id (a ∷ as')
  debit_booked ledger a as' id = ground arith

  booked_first :
      (ledger : Ledger) (a : SalesReceiptAllocation W) (as' : List (SalesReceiptAllocation W))
      → ((id : Text) → booked_to id (a ∷ as') ≤ ledger id)
      → (cents a.amount ≤ ledger a.sales_invoice_id)
        × ((id : Text) → booked_to id as' ≤ debit ledger a.sales_invoice_id (cents a.amount) id)
  booked_first ledger a as' h =
      (ground (arith, h a.sales_invoice_id, ≐-refl a.sales_invoice_id), λ id. ground (arith, h id))

  -- Rows that are reversed debit the invoices by what was booked to them.
  pub reverse_rows-Ends :
      (ledger : Ledger) (db : Db W) (company : Text) (as' : List (SalesReceiptAllocation W))
      → Holds laws ledger db
      → All IsBooked as'
      → ((id : Text) → booked_to id as' ≤ ledger id)
      → Ends (λ id. ledger id - booked_to id as') db (reverse_rows company as' db)
  unfolding reverse_rows
  reverse_rows-Ends ledger db company [] holds booked enough =
      (Holds-eq ledger _ db (λ id. omega arith) holds, SameBooks-refl db)
  reverse_rows-Ends ledger db company (a ∷ as') holds (pay, pays) enough =
      let left = debit ledger a.sales_invoice_id (cents a.amount) in
      let (first, rest) = booked_first ledger a as' enough in
      Ends-done left (λ id. ledger id - booked_to id (a ∷ as')) db (reverse_rows company as')
        (reverse_sales_invoice_payment company a.sales_invoice_id a.amount db)
        (reverse-Moves laws ledger db company a.sales_invoice_id a.amount holds pay.0 first)
        (λ db' h.
          Ends-eq (λ id. left id - booked_to id as') _ db' (reverse_rows company as' db')
            (debit_booked ledger a as') (reverse_rows-Ends left db' company as' h pays rest))
