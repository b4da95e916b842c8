-- ===== src/Ledger/Cents.antt =====
-- Amounts of whole cents under the guards and the roundings with which the two balance files,
-- app/repository/invoice_balance.go and app/repository/purchase_invoice_balance.go, move them.
use mathlib.Core.Bool.{false≢true}
use native.Mathlib.Decide.{dec_lt}
use invoicing_be.Base.{◌+◌, ◌-◌, ◌≤◌, ◌≡◌, sym, ◌∙◌, ap, false, arith, ltb, if◌then◌else◌}
use invoicing_be.Money.{Float, IsCents, ◌⊕◌, ◌⊖◌, ◌≺◌, round2}

module _ {ℓ} {W : Type ℓ} ⦃f : Float W⦄ (laws : IsCents W) where
  open laws use {
    IsAmount, cents, limit, amount-le-limit, nought-IsAmount, cents-nought, lt-eq, plus-IsAmount,
    cents-plus, minus-IsAmount, cents-minus, minus_negative,
  }

  pub positive : (a : W) → IsAmount a → (f.nought ≺ a) ≡ ltb 0 (cents a)
  positive a h = lt-eq f.nought a nought-IsAmount h ∙ ap (λ n. ltb n (cents a)) cents-nought

  -- What fits the remaining balance fits under the grand total.
  pub fits :
      (grand paid a : W)
      → IsAmount grand
      → IsAmount paid
      → IsAmount a
      → (round2 (grand ⊖ paid) ≺ a) ≡ false
      → cents paid + cents a ≤ cents grand
  fits grand paid a hg hp ha fit = elim (dec_lt (cents grand) (cents paid)) [
    | yes below ↦ absurd (false≢true (sym fit ∙ minus_negative grand paid a hg hp ha below))
    | no above ↦
        let m : cents paid ≤ cents grand = omega arith in
        ground (
          arith,
          cents-minus grand paid hg hp m,
          lt-eq (round2 (grand ⊖ paid)) a (minus-IsAmount grand paid hg hp m) ha,
        )
  ]

  -- What fits under the grand total fits the remaining balance.
  pub has_room :
      (grand paid a : W)
      → IsAmount grand
      → IsAmount paid
      → IsAmount a
      → cents paid + cents a ≤ cents grand
      → (round2 (grand ⊖ paid) ≺ a) ≡ false
  has_room grand paid a hg hp ha room =
      let under : cents paid ≤ cents grand = omega arith in
      ground (
        arith,
        lt-eq _ a (minus-IsAmount grand paid hg hp under) ha,
        cents-minus grand paid hg hp under,
      )

  -- The sum, where it stays under the grand total.
  pub paid_up :
      (grand paid a : W)
      → IsAmount grand
      → IsAmount paid
      → IsAmount a
      → cents paid + cents a ≤ cents grand
      → IsAmount (round2 (paid ⊕ a)) × (cents (round2 (paid ⊕ a)) ≡ cents paid + cents a)
  paid_up grand paid a hg hp ha under =
      let bound : cents paid + cents a ≤ limit = omega (arith, amount-le-limit grand hg) in
      (plus-IsAmount paid a hp ha bound, cents-plus paid a hp ha bound)

  -- The difference, where it does not go below 0; the test for that is never met then.
  pub paid_down :
      (paid a : W)
      → IsAmount paid
      → IsAmount a
      → cents a ≤ cents paid
      → IsAmount (round2 (paid ⊖ a))
        × (cents (round2 (paid ⊖ a)) ≡ cents paid - cents a)
        × ((if round2 (paid ⊖ a) ≺ f.nought then f.nought else round2 (paid ⊖ a))
            ≡ round2 (paid ⊖ a))
  paid_down paid a hp ha under =
      let amount = minus-IsAmount paid a hp ha under in
      let difference = cents-minus paid a hp ha under in
      (amount, difference, ground (arith, lt-eq _ f.nought amount nought-IsAmount, cents-nought))
