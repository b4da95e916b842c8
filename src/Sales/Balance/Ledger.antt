-- ===== src/Sales/Balance/Ledger.antt =====
-- The balances that app/repository/invoice_balance.go keeps, against a ledger: how many cents have
-- been paid on each invoice.
use invoicing_be.Base.{
  ℕ, ◌+◌, ◌-◌, ◌≤◌, ◌<◌, ◌≡◌, refl, inl, inr, true, false, some, arith, Bool-cases, Option-cases,
  Result, ok, err,
}
use invoicing_be.Text.{Text, ◌≐◌, ≐-refl}
use invoicing_be.Money.{Float, IsCents, ◌⊕◌, ◌⊖◌, ◌≺◌, round2}
use invoicing_be.Store.Table.{find}
pub use invoicing_be.Ledger.{Ledger, credit, debit}
use invoicing_be.Ledger.{credit_other, debit_other}
use invoicing_be.Ledger.Cents.{positive, fits, has_room, paid_up, paid_down}
use invoicing_be.Store.Rows.{Rows, Rows-update}
use invoicing_be.Sales.Model.{
  SalesInvoice, draft, is_confirmed, Db, SalesError, find_invoice, unscoped_invoice,
}
use invoicing_be.Sales.Balance.{
  applied_status, derived_status, set_paid, not_below_nought, change_invoice,
  apply_sales_invoice_payment, reverse_sales_invoice_payment,
}

module _ {ℓ} {W : Type ℓ} ⦃f : Float W⦄ (laws : IsCents W) where
  open laws use {
    IsAmount, cents, limit, amount-le-limit, nought-IsAmount, cents-nought, le-eq, lt-eq,
    plus-IsAmount, cents-plus, minus-IsAmount, cents-minus, minus_negative,
  }

  -- The row agrees with the ledger: `n` cents are paid, the payment status says so, and nothing is
  -- paid on a draft.
  pub record IsPaid (n : ℕ) (i : SalesInvoice W) : Type ℓ where
    pub grand_amount : IsAmount i.grand_total
    pub paid_amount_ok : IsAmount i.paid_amount
    pub cents_paid : cents i.paid_amount ≡ n
    pub status_derived : i.payment_status ≡ derived_status i.paid_amount i.grand_total
    pub draft_unpaid : i.status ≡ draft → n ≡ 0

  -- Every invoice of the database agrees with the ledger.
  abbrev pub Holds : Ledger → Db W → Type ℓ
  Holds ledger db = Rows (λ id i. IsPaid (ledger id) i) db.invoices

  -- Only the invoices have changed.
  pub record SameBooks (db db' : Db W) : Type ℓ where
    pub payments_eq : db'.payments ≡ db.payments
    pub receipts_eq : db'.receipts ≡ db.receipts
    pub allocations_eq : db'.allocations ≡ db.allocations
    pub mitras_eq : db'.mitras ≡ db.mitras
    pub taxes_eq : db'.taxes ≡ db.taxes
    pub contacts_eq : db'.contacts ≡ db.contacts
    pub templates_eq : db'.templates ≡ db.templates

  applied_status-eq :
      (x grand : W)
      → IsAmount x
      → IsAmount grand
      → 0 < cents x
      → cents x ≤ cents grand
      → applied_status x grand ≡ derived_status x grand
  unfolding applied_status derived_status
  applied_status-eq x grand h k p m =
      ground (arith, le-eq grand x k h, positive laws x h, positive laws grand k)

  IsPaid-apply :
      (n : ℕ) (i : SalesInvoice W) (a : W)
      → IsPaid n i
      → is_confirmed i.status ≡ true
      → IsAmount a
      → 0 < cents a
      → (round2 (i.grand_total ⊖ i.paid_amount) ≺ a) ≡ false
      → let x = round2 (i.paid_amount ⊕ a) in
        IsPaid (n + cents a) (set_paid x (applied_status x i.grand_total) i)
  IsPaid-apply n i a p c ha pos fit =
      let under = fits laws i.grand_total i.paid_amount a p.grand_amount p.paid_amount_ok ha fit in
      let (amount, sum) =
        paid_up laws i.grand_total i.paid_amount a p.grand_amount p.paid_amount_ok ha under in
      record {
        grand_amount = p.grand_amount;
        paid_amount_ok = amount;
        cents_paid = omega (arith, sum, p.cents_paid);
        status_derived =
            applied_status-eq _ i.grand_total amount p.grand_amount (omega (arith, sum))
              (omega (arith, sum));
        draft_unpaid = λ d. ground arith;
      }

  IsPaid-reverse :
      (n : ℕ) (i : SalesInvoice W) (a : W)
      → IsPaid n i
      → IsAmount a
      → cents a ≤ n
      → let x = not_below_nought (round2 (i.paid_amount ⊖ a)) in
        IsPaid (n - cents a) (set_paid x (derived_status x i.grand_total) i)
  IsPaid-reverse n i a p ha le =
      let (amount, difference, kept) =
        paid_down laws i.paid_amount a p.paid_amount_ok ha (omega (arith, p.cents_paid)) in
      rw kept (record {
        grand_amount = p.grand_amount;
        paid_amount_ok = amount;
        cents_paid = omega (arith, difference, p.cents_paid);
        status_derived = refl;
        draft_unpaid = λ d. omega (arith, p.draft_unpaid d);
      })

  -- A change of one row that agrees with the ledger's change there.
  pub Holds-change :
      (ledger ledger' : Ledger) (db : Db W) (id : Text) (g : SalesInvoice W → SalesInvoice W)
      (i : SalesInvoice W)
      → Holds ledger db
      → find db.invoices id ≡ some i
      → IsPaid (ledger' id) (g i)
      → ((j : Text) → (id ≐ j) ≡ false → ledger' j ≡ ledger j)
      → Holds ledger' (change_invoice id g db)
  Holds-change ledger ledger' db id g i holds found here others =
      Rows-update (λ j. IsPaid (ledger j)) (λ j. IsPaid (ledger' j)) db.invoices id g i holds found
        here (λ j row other p. rw (others j other) p)

  pub find_invoice-eq :
      (db : Db W) (company id : Text) (i : SalesInvoice W)
      → find_invoice db company id ≡ some i
      → find db.invoices id ≡ some i
  unfolding find_invoice
  find_invoice-eq db company id i e = ground arith

  unscoped_invoice-eq :
      (db : Db W) (company id : Text) (i : SalesInvoice W)
      → unscoped_invoice db company id ≡ some i
      → find db.invoices id ≡ some i
  unfolding unscoped_invoice
  unscoped_invoice-eq db company id i e = ground arith

  -- How a call on one invoice may end: done, with the ledger changed, or refused, with nothing done.
  abbrev pub Moves : Ledger → Db W → Result (SalesError W) (Unit {0}) × Db W → Type ℓ
  Moves ledger db (ok _, db') = Holds ledger db' × SameBooks db db'
  Moves ledger db (err e, db') = db' ≡ db

  same_books :
      (db : Db W) (id : Text) (g : SalesInvoice W → SalesInvoice W)
      → SameBooks db (change_invoice id g db)
  same_books db id g = record {
    payments_eq = refl;
    receipts_eq = refl;
    allocations_eq = refl;
    mitras_eq = refl;
    taxes_eq = refl;
    contacts_eq = refl;
    templates_eq = refl;
  }

  -- When every invoice agrees with a ledger of paid cents, a payment of a whole positive
  -- amount of cents is booked on its invoice, so that the invoices agree with the ledger
  -- credited by it and nothing but the invoices has changed, or it is refused and nothing
  -- changes.
  pub apply-Moves :
      (ledger : Ledger) (db : Db W) (company id : Text) (a : W)
      → Holds ledger db
      → IsAmount a
      → 0 < cents a
      → Moves (credit ledger id (cents a)) db (apply_sales_invoice_payment company id a db)
  unfolding apply_sales_invoice_payment
  apply-Moves ledger db company id a holds ha pos =
      elim (Option-cases (find_invoice db company id)) [
        | inl gone ↦ rw gone refl
        | inr (i, e) ↦ elim (Bool-cases (is_confirmed i.status)) [
          | inr unconfirmed ↦ rw (e, unconfirmed) refl
          | inl c ↦ elim (Bool-cases (round2 (i.grand_total ⊖ i.paid_amount) ≺ a)) [
            | inl over ↦ rw (e, c, over) refl
            | inr fit ↦
                let found = find_invoice-eq db company id i e in
                let paid_up : IsPaid (credit ledger id (cents a) id) _ =
                  rw (≐-refl id) (IsPaid-apply (ledger id) i a (holds id i found) c ha pos fit) in
                rw (e, c, fit)
                  (
                    Holds-change ledger (credit ledger id (cents a)) db id _ i holds found paid_up
                        (credit_other ledger id (cents a)),
                    same_books db id _,
                  )
          ]
        ]
      ]

  -- When every invoice agrees with a ledger of paid cents that holds at least the amount for
  -- the invoice, taking a whole amount of cents back debits the ledger by it and changes
  -- nothing but the invoices, or it fails and nothing changes.
  pub reverse-Moves :
      (ledger : Ledger) (db : Db W) (company id : Text) (a : W)
      → Holds ledger db
      → IsAmount a
      → cents a ≤ ledger id
      → Moves (debit ledger id (cents a)) db (reverse_sales_invoice_payment company id a db)
  unfolding reverse_sales_invoice_payment
  reverse-Moves ledger db company id a holds ha le =
      elim (Option-cases (unscoped_invoice db company id)) [
        | inl gone ↦ rw gone refl
        | inr (i, e) ↦
            let found = unscoped_invoice-eq db company id i e in
            let paid_down : IsPaid (debit ledger id (cents a) id) _ =
              rw (≐-refl id) (IsPaid-reverse (ledger id) i a (holds id i found) ha le) in
            rw e (
              Holds-change ledger (debit ledger id (cents a)) db id _ i holds found paid_down
                  (debit_other ledger id (cents a)),
              same_books db id _,
            )
      ]

  pub accepted :
      (db : Db W) (company id : Text) (a : W) (i : SalesInvoice W)
      → find_invoice db company id ≡ some i
      → is_confirmed i.status ≡ true
      → (round2 (i.grand_total ⊖ i.paid_amount) ≺ a) ≡ false
      → (apply_sales_invoice_payment company id a db).0 ≡ ok tt
  unfolding apply_sales_invoice_payment
  accepted db company id a i found c fit = rw (found, c, fit) refl

  -- What fits under the grand total fits the remaining balance.
  pub room_fits :
      (n : ℕ) (i : SalesInvoice W) (a : W)
      → IsPaid n i
      → IsAmount a
      → n + cents a ≤ cents i.grand_total
      → (round2 (i.grand_total ⊖ i.paid_amount) ≺ a) ≡ false
  room_fits n i a p ha room =
      has_room laws i.grand_total i.paid_amount a p.grand_amount p.paid_amount_ok ha
        (omega (arith, p.cents_paid))

  -- When every invoice agrees with a ledger of paid cents, a payment of a whole amount of
  -- cents on a confirmed invoice of the company succeeds if what is paid, with it, does not
  -- pass the grand total.
  pub apply-accepts :
      (ledger : Ledger) (db : Db W) (company id : Text) (a : W) (i : SalesInvoice W)
      → Holds ledger db
      → IsAmount a
      → find_invoice db company id ≡ some i
      → is_confirmed i.status ≡ true
      → ledger id + cents a ≤ cents i.grand_total
      → (apply_sales_invoice_payment company id a db).0 ≡ ok tt
  apply-accepts ledger db company id a i holds ha found c room =
      accepted db company id a i found c
        (room_fits (ledger id) i a (holds id i (find_invoice-eq db company id i found)) ha room)
