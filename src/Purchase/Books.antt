-- ===== src/Purchase/Books.antt =====
-- What the receipts say has been paid on a bill: those that are not deleted and name it. The
-- invariant of the purchase side is that every bill's paid amount is that sum.
pub mod Sums
pub mod Steps
pub mod Bodies
pub mod Receipts
pub mod Bills
pub mod Lifecycle
pub mod Saves
pub mod Services
pub mod Runs
use invoicing_be.Base.{
  ℕ, ◌+◌, ◌≡◌, Bool, true, false, Option, none, some, List, [], ◌∷◌, if◌then◌else◌,
}
use invoicing_be.Text.{Text, ◌≐◌}
use invoicing_be.Money.{Float, IsCents}
use invoicing_be.Ledger.{Ledger}
use invoicing_be.Store.Table.{Table, find}
use invoicing_be.Store.Entries.{Entries}
use invoicing_be.Purchase.Model.{PurchaseReceipt, Db, find_purchase_receipt}
use invoicing_be.Purchase.Balance.Ledger.{Holds, company_of}

module _ {ℓ} {W : Type ℓ} ⦃f : Float W⦄ (laws : IsCents W) where
  open laws use {IsAmount, cents}

  -- What a payment of `amount` on a bill, if there is one, adds to bill `id`.
  abbrev pub paid_to : Option Text → W → Text → ℕ
  paid_to none amount id = 0
  paid_to (some bill) amount id = if bill ≐ id then cents amount else 0

  abbrev pub paid_on : PurchaseReceipt W → Text → ℕ
  paid_on r id = if r.deleted then 0 else paid_to r.purchase_invoice_id r.amount id

  -- What the receipt pays now, if the company has it.
  abbrev pub paid_by : Db W → Text → Text → Ledger
  paid_by db company receipt id = elim (find_purchase_receipt db company receipt) [
    | none ↦ 0
    | some r ↦ paid_on r id
  ]

  abbrev pub paid_sum : Table (PurchaseReceipt W) → Text → ℕ
  paid_sum [] id = 0
  paid_sum ((key, r) ∷ t) id = paid_on r id + paid_sum t id

  abbrev pub applied : Db W → Ledger
  applied db = paid_sum db.receipts

  -- A receipt that is not deleted and names a bill names one of its own company, and its amount is
  -- a number of cents.
  abbrev pub IsBooked : Db W → PurchaseReceipt W → Type 0
  IsBooked db r =
      r.deleted ≡ false
      → (bill : Text) → r.purchase_invoice_id ≡ some bill
      → IsAmount r.amount × (company_of laws db bill ≡ some r.company_id)

  pub record IsConsistent (db : Db W) : Type ℓ where
    pub balanced : Holds laws (applied db) db
    pub booked : Entries (IsBooked db) db.receipts
