-- ===== src/Sales/Balance/Bounds.antt =====
-- How far a payment may go that app/repository/invoice_balance.go accepts.
use invoicing_be.Base.{◌+◌, ◌≤◌, ◌≡◌, ◌↔◌, true, false, some, arith, ok, Bool-cases, inl, inr}
use invoicing_be.Text.{Text}
use invoicing_be.Money.{Float, IsCents, ◌⊖◌, ◌≺◌, round2}
use invoicing_be.Ledger.{Ledger}
use invoicing_be.Ledger.Cents.{fits}
use invoicing_be.Sales.Model.{SalesInvoice, Db, find_invoice, is_confirmed}
use invoicing_be.Sales.Balance.{apply_sales_invoice_payment}
use invoicing_be.Sales.Balance.Ledger.{Holds, find_invoice-eq, apply-accepts}

module _ {ℓ} {W : Type ℓ} ⦃f : Float W⦄ (laws : IsCents W) where
  open laws use {IsAmount, cents}

  accepted_only :
      (db : Db W) (company id : Text) (a : W) (i : SalesInvoice W)
      → find_invoice db company id ≡ some i
      → (apply_sales_invoice_payment company id a db).0 ≡ ok tt
      → (is_confirmed i.status ≡ true) × ((round2 (i.grand_total ⊖ i.paid_amount) ≺ a) ≡ false)
  unfolding apply_sales_invoice_payment
  accepted_only db company id a i e h = elim (Bool-cases (is_confirmed i.status)) [
    | inr unconfirmed ↦ absurd (ground (arith, rw (e, unconfirmed) at h))
    | inl c ↦ elim (Bool-cases (round2 (i.grand_total ⊖ i.paid_amount) ≺ a)) [
      | inl over ↦ absurd (ground (arith, rw (e, c, over) at h))
      | inr fit ↦ (c, fit)
    ]
  ]

  -- When every invoice agrees with a ledger of paid cents, a payment of a whole amount of
  -- cents on an invoice of the company is accepted exactly if the invoice is confirmed and
  -- what is paid, with the payment, does not pass its grand total: nothing is ever paid past
  -- the total, and nothing below it is refused.
  pub apply_iff :
      (ledger : Ledger) (db : Db W) (company id : Text) (a : W) (i : SalesInvoice W)
      → Holds laws ledger db
      → IsAmount a
      → find_invoice db company id ≡ some i
      → ((apply_sales_invoice_payment company id a db).0 ≡ ok tt)
        ↔ ((is_confirmed i.status ≡ true) × (ledger id + cents a ≤ cents i.grand_total))
  apply_iff ledger db company id a i holds ha e =
      let p = holds id i (find_invoice-eq laws db company id i e) in
      (
        λ h.
            let (c, fit) = accepted_only db company id a i e h in
            let under =
              fits laws i.grand_total i.paid_amount a p.grand_amount p.paid_amount_ok ha fit in
            (c, omega (arith, p.cents_paid, under)),
        λ (c, room). apply-accepts laws ledger db company id a i holds ha e c room,
      )
