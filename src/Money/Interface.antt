-- ===== src/Money/Interface.antt =====
-- float64: the operations that the program uses, and the laws of IEEE 754 that a theorem may name.
-- utils/linecalc.go and app/repository/sales_payment.repository.go declare the same `round2`.
use invoicing_be.Base.{ℕ, ◌+◌, ◌-◌, ◌≤◌, ◌<◌, ◌≡◌, Bool, true, not, ◌&&◌, leb, ltb}

pub record Float {ℓ} (W : Type ℓ) : Type ℓ where
  pub nought : W
  pub one : W
  pub hundred : W
  pub epsilon : W  -- 0.0001
  pub plus : W → W → W
  pub minus : W → W → W
  pub times : W → W → W
  pub over : W → W → W
  pub le : W → W → Bool
  pub lt : W → W → Bool
  pub round : W → W  -- math.Round
  pub abs : W → W  -- math.Abs

module _ {ℓ} {W : Type ℓ} ⦃f : Float W⦄ where
  infixl 65 ◌⊕◌ ◌⊖◌
  infixl 70 ◌⊗◌ ◌⊘◌
  infix 50 ◌≺◌ ◌≼◌
  abbrev pub ◌⊕◌ : W → W → W
  ◌⊕◌ = f.plus

  abbrev pub ◌⊖◌ : W → W → W
  ◌⊖◌ = f.minus

  abbrev pub ◌⊗◌ : W → W → W
  ◌⊗◌ = f.times

  abbrev pub ◌⊘◌ : W → W → W
  ◌⊘◌ = f.over

  -- `<`; `a > b` is `b ≺ a`
  abbrev pub ◌≺◌ : W → W → Bool
  ◌≺◌ = f.lt

  -- `<=`; `a >= b` is `b ≼ a`
  abbrev pub ◌≼◌ : W → W → Bool
  ◌≼◌ = f.le

  unfoldable pub round2 : W → W
  round2 v = f.round (v ⊗ f.hundred) ⊘ f.hundred

-- What holds of the comparisons for every value, NaN included, and of the constants.
pub record IsOrdered {ℓ} (W : Type ℓ) ⦃f : Float W⦄ : Type ℓ where
  pub lt-eq : (a b : W) → f.lt a b ≡ (f.le a b && not (f.le b a))
  pub le_trans : (a b c : W) → f.le a b ≡ true → f.le b c ≡ true → f.le a c ≡ true

-- `IsAmount a`: `a` is the float nearest to a whole number of cents, from 0 up to a limit, and
-- `cents a` is that number. Sums and differences of such floats, rounded to cents, are exact, and
-- they compare as their cents do. For float64 this holds with any limit up to 2 ^ 50 cents.
pub record IsCents {ℓ} (W : Type ℓ) ⦃f : Float W⦄ : Type (ℓ ⊔ 1) where
  pub IsAmount : W → Type 0
  pub cents : W → ℕ
  pub limit : ℕ
  pub amount-le-limit : (a : W) → IsAmount a → cents a ≤ limit
  pub nought-IsAmount : IsAmount f.nought
  pub cents-nought : cents f.nought ≡ 0
  pub le-eq : (a b : W) → IsAmount a → IsAmount b → f.le a b ≡ leb (cents a) (cents b)
  pub lt-eq : (a b : W) → IsAmount a → IsAmount b → f.lt a b ≡ ltb (cents a) (cents b)
  pub plus-IsAmount :
      (a b : W)
      → IsAmount a
      → IsAmount b
      → cents a + cents b ≤ limit
      → IsAmount (round2 (f.plus a b))
  pub cents-plus :
      (a b : W)
      → IsAmount a
      → IsAmount b
      → cents a + cents b ≤ limit
      → cents (round2 (f.plus a b)) ≡ cents a + cents b
  pub minus-IsAmount :
      (a b : W) → IsAmount a → IsAmount b → cents b ≤ cents a → IsAmount (round2 (f.minus a b))
  pub cents-minus :
      (a b : W)
      → IsAmount a
      → IsAmount b
      → cents b ≤ cents a
      → cents (round2 (f.minus a b)) ≡ cents a - cents b
  -- A difference below 0 lies below every amount.
  pub minus_negative :
      (a b c : W)
      → IsAmount a
      → IsAmount b
      → IsAmount c
      → cents a < cents b
      → f.lt (round2 (f.minus a b)) c ≡ true
