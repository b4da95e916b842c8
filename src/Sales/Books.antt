-- ===== src/Sales/Books.antt =====
-- What the tables say has been paid on an invoice: the allocations of the receipts that are not
-- deleted, and the verified payments. The invariant of the sales side is that every invoice's
-- paid amount is that sum.
pub mod Sums
pub mod Steps
pub mod Receipts
pub mod Rebook
pub mod Payments
pub mod Lifecycle
pub mod Saves
use invoicing_be.Base.{
  ℕ, ◌+◌, ◌<◌, ◌≡◌, Bool, true, false, not, ◌&&◌, Option, none, some, List, [], ◌∷◌, All,
  if◌then◌else◌,
}
use invoicing_be.Text.{Text, ◌≐◌}
use invoicing_be.Money.{Float, IsCents}
use invoicing_be.Store.Table.{Table, find}
use invoicing_be.Sales.Model.{SalesPayment, SalesReceipt, SalesReceiptAllocation, is_pending, Db}
use invoicing_be.Sales.Balance.Ledger.{Ledger, Holds}
use invoicing_be.Sales.Receipt.Ledger.{IsBooked}

module _ {ℓ} {W : Type ℓ} where
  -- The receipt is there and not deleted.
  abbrev pub is_live : Table (SalesReceipt W) → Text → Bool
  is_live receipts id = elim (find receipts id) [ none ↦ false | some r ↦ not r.deleted ]

module _ {ℓ} {W : Type ℓ} ⦃f : Float W⦄ (laws : IsCents W) where
  open laws use {IsAmount, cents}

  abbrev pub allocated : (Text → Bool) → List (SalesReceiptAllocation W) → Text → ℕ
  allocated live [] id = 0
  allocated live (a ∷ as') id =
      let rest = allocated live as' id in
      if live a.sales_receipt_id && (a.sales_invoice_id ≐ id) then rest + cents a.amount else rest

  abbrev pub paid_by : SalesPayment W → Text → ℕ
  paid_by p id =
      if not (is_pending p.status) && (p.sales_invoice_id ≐ id) then cents p.amount else 0

  abbrev pub verified_sum : Table (SalesPayment W) → Text → ℕ
  verified_sum [] id = 0
  verified_sum ((key, p) ∷ t) id = paid_by p id + verified_sum t id

  abbrev pub applied : Db W → Ledger
  applied db id = allocated (is_live db.receipts) db.allocations id + verified_sum db.payments id

  abbrev pub ArePayments : Table (SalesPayment W) → Type 0
  ArePayments [] = Unit
  ArePayments ((key, p) ∷ t) = (IsAmount p.amount × (0 < cents p.amount)) × ArePayments t

  -- Every invoice's paid amount is what the tables say, its payment status is derived from it, and
  -- nothing is paid on a draft; every amount in the tables is positive.
  pub record IsConsistent (db : Db W) : Type ℓ where
    pub balanced : Holds laws (applied db) db
    pub booked : All (IsBooked laws) db.allocations
    pub payments : ArePayments db.payments
