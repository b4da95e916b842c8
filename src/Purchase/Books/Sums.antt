-- ===== src/Purchase/Books/Sums.antt =====
-- The sum over the receipts when one of them changes.
use mathlib.Core.Option.{some-injective}
use invoicing_be.Base.{◌+◌, ◌≤◌, ◌≡◌, some, [], ◌∷◌, arith, Bool-cases, inl, inr}
use invoicing_be.Text.{Text, ◌≐◌}
use invoicing_be.Money.{Float, IsCents}
use invoicing_be.Store.Table.{Table, find, insert, update}
use invoicing_be.Purchase.Model.{PurchaseReceipt}
use invoicing_be.Purchase.Books.{paid_on, paid_sum}

module _ {ℓ} {W : Type ℓ} ⦃f : Float W⦄ (laws : IsCents W) where
  pub paid_sum-update :
      (t : Table (PurchaseReceipt W)) (id : Text) (g : PurchaseReceipt W → PurchaseReceipt W)
      (r : PurchaseReceipt W) (bill : Text)
      → find t id ≡ some r
      → paid_sum laws (update id g t) bill + paid_on laws r bill
        ≡ paid_sum laws t bill + paid_on laws (g r) bill
  unfolding find update
  paid_sum-update [] id g r bill e = ground (arith, e)
  paid_sum-update ((key, s) ∷ t) id g r bill e = elim (Bool-cases (key ≐ id)) [
    | inl same ↦ rw (same, ← some-injective s r (rw same at e)) (omega arith)
    | inr other ↦ rw other (omega (arith, paid_sum-update t id g r bill (rw other at e)))
  ]

  pub paid_on-le-sum :
      (t : Table (PurchaseReceipt W)) (id : Text) (r : PurchaseReceipt W) (bill : Text)
      → find t id ≡ some r
      → paid_on laws r bill ≤ paid_sum laws t bill
  unfolding find
  paid_on-le-sum [] id r bill e = ground (arith, e)
  paid_on-le-sum ((key, s) ∷ t) id r bill e = elim (Bool-cases (key ≐ id)) [
    | inl same ↦ rw (← some-injective s r (rw same at e)) (omega arith)
    | inr other ↦ omega (arith, paid_on-le-sum t id r bill (rw other at e))
  ]

  pub paid_sum-insert :
      (t : Table (PurchaseReceipt W)) (id : Text) (r : PurchaseReceipt W) (bill : Text)
      → paid_sum laws (insert id r t) bill ≡ paid_sum laws t bill + paid_on laws r bill
  unfolding insert
  paid_sum-insert t id r bill = omega arith
