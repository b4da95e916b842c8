-- ===== src/Purchase/Books/Steps.antt =====
-- The payments that a receipt's transaction makes and takes back.
use mathlib.Core.Option.{some-injective}
use invoicing_be.Base.{
  ◌+◌, ◌-◌, ◌≤◌, ◌≡◌, refl, Option, some, none, arith, Result, ok, err, map_err,
}
use invoicing_be.Text.{Text, ≐-refl}
use invoicing_be.Money.{Float, IsCents}
use invoicing_be.Ledger.{Ledger, credit, debit}
use invoicing_be.Store.Outcome.{Done}
use invoicing_be.Purchase.Model.{Db, PurchaseError}
use invoicing_be.Purchase.Balance.{apply_purchase_invoice_payment, reverse_purchase_invoice_payment}
use invoicing_be.Purchase.Balance.Ledger.{
  Holds, Holds-eq, company_of, OnlyPays, OnlyPays-refl, Moves, apply-Pays, apply-company,
  reverse-Pays,
}
use invoicing_be.Purchase.Receipt.{map_purchase_payment_err, pay_bill, give_back}
use invoicing_be.Purchase.Books.{paid_to}

module _ {ℓ} {W : Type ℓ} ⦃f : Float W⦄ (laws : IsCents W) where
  open laws use {IsAmount, cents}

  -- Between two steps of a transaction that began at `db`.
  abbrev pub Within : Ledger → Db W → Db W → Type ℓ
  Within ledger db d = Holds laws ledger d × OnlyPays laws db d

  -- The bill that is named, if there is one, is the company's.
  abbrev pub Names : Db W → Text → Option Text → Type 0
  Names db company named =
      (bill : Text) → named ≡ some bill → company_of laws db bill ≡ some company

  credit-paid_to :
      (ledger : Ledger) (bill : Text) (a : W) (j : Text)
      → credit ledger bill (cents a) j ≡ ledger j + paid_to laws (some bill) a j
  credit-paid_to ledger bill a j = ground arith

  debit-paid_to :
      (ledger : Ledger) (bill : Text) (a : W) (j : Text)
      → debit ledger bill (cents a) j ≡ ledger j - paid_to laws (some bill) a j
  debit-paid_to ledger bill a j = ground arith

  paid_up :
      (ledger : Ledger) (db : Db W) (company bill : Text) (a : W)
      (r : Result (PurchaseError W) (Unit {0}) × Db W)
      → Moves laws (credit ledger bill (cents a)) db r
      → (r.0 ≡ ok tt → company_of laws db bill ≡ some company)
      → Done
          (λ d.
            Within (λ j. ledger j + paid_to laws (some bill) a j) db d
            × Names db company (some bill))
          (map_err map_purchase_payment_err r.0, r.1)
  paid_up ledger db company bill a (ok u, d) (holds, only) mine = (
    (Holds-eq laws _ _ d (credit-paid_to ledger bill a) holds, only),
    λ j e. rw (← some-injective bill j e) (mine refl),
  )
  paid_up ledger db company bill a (err e, d) moved mine = tt

  pub pay_bill-Done :
      (ledger : Ledger) (db : Db W) (company : Text) (named : Option Text) (mitra : Text) (a : W)
      → Holds laws ledger db
      → IsAmount a
      → Done
          (λ d. Within (λ j. ledger j + paid_to laws named a j) db d × Names db company named)
          (pay_bill company named mitra a db)
  unfolding pay_bill
  pay_bill-Done ledger db company none mitra a holds ha =
      ((Holds-eq laws _ _ db (λ j. omega arith) holds, OnlyPays-refl laws db), λ j e. cc)
  pay_bill-Done ledger db company (some bill) mitra a holds ha =
      paid_up ledger db company bill a (apply_purchase_invoice_payment company bill mitra a db)
        (apply-Pays laws ledger db company bill mitra a holds ha)
        (apply-company laws db company bill mitra a)

  paid_back :
      (ledger : Ledger) (db : Db W) (bill : Text) (a : W)
      (r : Result (PurchaseError W) (Unit {0}) × Db W)
      → Moves laws (debit ledger bill (cents a)) db r
      → Done (λ d. Within (λ j. ledger j - paid_to laws (some bill) a j) db d) r
  paid_back ledger db bill a (ok u, d) (holds, only) =
      (Holds-eq laws _ _ d (debit-paid_to ledger bill a) holds, only)
  paid_back ledger db bill a (err e, d) moved = tt

  pub give_back-Done :
      (ledger : Ledger) (db : Db W) (company : Text) (named : Option Text) (a : W)
      → Holds laws ledger db
      → ((bill : Text) → named ≡ some bill → IsAmount a × (company_of laws db bill ≡ some company))
      → ((j : Text) → paid_to laws named a j ≤ ledger j)
      → Done
          (λ d. Within (λ j. ledger j - paid_to laws named a j) db d)
          (give_back company named a db)
  unfolding give_back
  give_back-Done ledger db company none a holds known le =
      (Holds-eq laws _ _ db (λ j. omega arith) holds, OnlyPays-refl laws db)
  give_back-Done ledger db company (some bill) a holds known le =
      let (ha, mine) = known bill refl in
      paid_back ledger db bill a (reverse_purchase_invoice_payment company bill a db)
        (reverse-Pays laws ledger db company bill a holds ha (rw (≐-refl bill) at (le bill)) mine)
