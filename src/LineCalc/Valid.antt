-- ===== src/LineCalc/Valid.antt =====
-- The checks of utils/linecalc.go on a line, against what a valid line is.
use invoicing_be.Base.{
  ℕ, ◌+◌, ◌≡◌, refl, ◌↔◌, ◌⊎◌, inl, inr, true, false, some, List, [], ◌∷◌, ◌++◌, arith, All, length,
  err, succeeds, Bool-cases, Option-cases, and_then-succeeds, succeeds-eq-ok, ap, ◌∙◌,
}
use invoicing_be.Text.{Text, lit, ◌≐◌, ≐→≡, is_empty, trim_space}
use invoicing_be.Money.{Float, ◌⊕◌, ◌⊗◌, ◌≺◌, ◌≼◌}
use invoicing_be.LineCalc.{
  LineInput, TaxRate, LinesCalc, AdditionalDiscount, LineError, Rates, rate_of, type_or_percent,
  check_line, line_discount, sum_rates, calc_line, calc_from, add_line, empty_calc, calc_lines,
}

not_both : (t : Text) → (t ≐ lit "percent") ≡ true → (t ≐ lit "amount") ≡ false
unfolding ◌≐◌
not_both t h = rw (≐→≡ t _ h) refl

module _ {ℓ} {W : Type ℓ} ⦃f : Float W⦄ where
  -- A percentage from 0 to 100, or an amount from 0 up to the base.
  abbrev pub IsValidDiscount : Text → W → W → Type 0
  IsValidDiscount type value base =
      ((type ≐ lit "percent") ≡ true) × ((value ≺ f.nought) ≡ false) × ((f.hundred ≺ value) ≡ false)
      ⊎ ((type ≐ lit "amount") ≡ true) × ((value ≺ f.nought) ≡ false) × ((base ≺ value) ≡ false)

  -- The tax is left blank, or is known.
  abbrev pub IsKnownTax : Rates W → Text → Type ℓ
  IsKnownTax rates raw =
      (is_empty (trim_space raw) ≡ true)
      ⊎ ((t : TaxRate W) × (rate_of rates (trim_space raw) ≡ some t))

  pub record IsValidLine (rates : Rates W) (l : LineInput W) : Type ℓ where
    pub named : is_empty (trim_space l.product_name) ≡ false
    pub quantity_positive : (l.quantity ≼ f.nought) ≡ false
    pub price_not_negative : (l.unit_price ≺ f.nought) ≡ false
    pub discount_valid :
        IsValidDiscount
          (type_or_percent l.discount_type)
          l.discount_value
          (l.quantity ⊗ l.unit_price)
    pub taxes_known : All (IsKnownTax rates) l.tax_ids

  line_discount-succeeds :
      (n : ℕ) (type : Text) (value base : W)
      → succeeds (line_discount n type value base) ≡ true
      → IsValidDiscount type value base
  unfolding line_discount
  line_discount-succeeds n type value base h = ground (arith, not_both type)

  line_discount_accepts :
      (n : ℕ) (type : Text) (value base : W)
      → IsValidDiscount type value base
      → succeeds (line_discount n type value base) ≡ true
  unfolding line_discount
  line_discount_accepts n type value base (inl (p, low, high)) = ground (arith, not_both type)
  line_discount_accepts n type value base (inr (p, low, high)) = ground (arith, not_both type)

  sum_rates-succeeds :
      (n : ℕ) (rates : Rates W) (ids : List Text) (exclusive inclusive : W)
      → succeeds (sum_rates n rates ids exclusive inclusive) ≡ true
      → All (IsKnownTax rates) ids
  unfolding sum_rates
  sum_rates-succeeds n rates [] exclusive inclusive h = tt
  sum_rates-succeeds n rates (raw ∷ ids) exclusive inclusive h =
      elim (Bool-cases (is_empty (trim_space raw))) [
        | inl blank ↦
            (inl blank, sum_rates-succeeds n rates ids exclusive inclusive (rw blank at h))
        | inr filled ↦ elim (Option-cases (rate_of rates (trim_space raw))) [
          | inl e ↦ ground arith
          | inr (t, e) ↦ elim (Bool-cases (t.calc_method ≐ lit "inclusive")) [
            | inl m ↦ (
              inr (t, e),
              sum_rates-succeeds n rates ids exclusive (inclusive ⊕ t.rate) (ground arith),
            )
            | inr m ↦ (
              inr (t, e),
              sum_rates-succeeds n rates ids (exclusive ⊕ t.rate) inclusive (ground arith),
            )
          ]
        ]
      ]

  sum_rates_accepts :
      (n : ℕ) (rates : Rates W) (ids : List Text) (exclusive inclusive : W)
      → All (IsKnownTax rates) ids
      → succeeds (sum_rates n rates ids exclusive inclusive) ≡ true
  unfolding sum_rates
  sum_rates_accepts n rates [] exclusive inclusive h = refl
  sum_rates_accepts n rates (raw ∷ ids) exclusive inclusive (inl blank, rest) =
      rw blank (sum_rates_accepts n rates ids exclusive inclusive rest)
  sum_rates_accepts n rates (raw ∷ ids) exclusive inclusive (inr (t, e), rest) = ground (
    arith,
    sum_rates_accepts n rates ids exclusive inclusive rest,
    sum_rates_accepts n rates ids exclusive (inclusive ⊕ t.rate) rest,
    sum_rates_accepts n rates ids (exclusive ⊕ t.rate) inclusive rest,
  )

  check_line_iff :
      (n : ℕ) (l : LineInput W)
      → (succeeds (check_line n l) ≡ true) ↔ (
          (is_empty (trim_space l.product_name) ≡ false)
          × ((l.quantity ≼ f.nought) ≡ false)
          × ((l.unit_price ≺ f.nought) ≡ false))
  unfolding check_line
  check_line_iff n l = ground arith

  calc_line-succeeds :
      (rates : Rates W) (n : ℕ) (l : LineInput W)
      → succeeds (calc_line rates n l) ≡ true
      → IsValidLine rates l
  unfolding calc_line
  calc_line-succeeds rates n l h =
      let type = type_or_percent l.discount_type in
      let base = l.quantity ⊗ l.unit_price in
      let (u, checked, h₁) = and_then-succeeds (check_line n l) _ h in
      let (discount, off, h₂) =
        and_then-succeeds (line_discount n type l.discount_value base) _ h₁ in
      let (sums, taxed, _) =
        and_then-succeeds (sum_rates n rates l.tax_ids f.nought f.nought) _ h₂ in
      let (named, positive, priced) = (check_line_iff n l).0 (rw checked) in
      record {
        named = named;
        quantity_positive = positive;
        price_not_negative = priced;
        discount_valid = line_discount-succeeds n type l.discount_value base (rw off);
        taxes_known = sum_rates-succeeds n rates l.tax_ids f.nought f.nought (rw taxed);
      }

  calc_line_accepts :
      (rates : Rates W) (n : ℕ) (l : LineInput W)
      → IsValidLine rates l
      → succeeds (calc_line rates n l) ≡ true
  unfolding calc_line
  calc_line_accepts rates n l v =
      let base = l.quantity ⊗ l.unit_price in
      let (u, checked) =
        succeeds-eq-ok (check_line n l)
          ((check_line_iff n l).1 (v.named, v.quantity_positive, v.price_not_negative)) in
      let (discount, off) = succeeds-eq-ok _ (
        line_discount_accepts n (type_or_percent l.discount_type) l.discount_value base
          v.discount_valid) in
      let (sums, taxed) =
        succeeds-eq-ok _ (sum_rates_accepts n rates l.tax_ids f.nought f.nought v.taxes_known) in
      rw (checked, off, taxed) refl

  -- A line passes the checks of CalcLines, whatever its number, exactly if it has a product
  -- name, a quantity above 0, a price that is not below 0, a known discount type, a discount
  -- in its range, and refers to known taxes only.
  pub calc_line_iff :
      (rates : Rates W) (n : ℕ) (l : LineInput W)
      → (succeeds (calc_line rates n l) ≡ true) ↔ IsValidLine rates l
  calc_line_iff rates n l = (calc_line-succeeds rates n l, calc_line_accepts rates n l)

  calc_from_invalid :
      (rates : Rates W) (n k : ℕ) (xs : List (LineInput W)) (l : LineInput W)
      (ys : List (LineInput W)) (c : LinesCalc W) (e : LineError)
      → All (IsValidLine rates) xs
      → k ≡ n + length xs
      → calc_line rates k l ≡ err e
      → calc_from rates n (xs ++ l ∷ ys) c ≡ err e
  unfolding calc_from
  calc_from_invalid rates n k [] l ys c e v p bad =
      let here : calc_line rates n l ≡ err e = ap (λ m. calc_line rates m l) (omega arith) ∙ bad in
      rw here refl
  calc_from_invalid rates n k (x ∷ xs) l ys c e v p bad =
      let (a, e₁) = succeeds-eq-ok _ (calc_line_accepts rates n x v.0) in
      rw e₁ (calc_from_invalid rates (n + 1) k xs l ys (add_line c a) e v.1 (omega arith) bad)

  -- When all lines before a line are valid, and that line fails under its number, counted from
  -- 1, CalcLines returns its error.
  pub calc_lines_invalid :
      (xs : List (LineInput W)) (l : LineInput W) (ys : List (LineInput W)) (rates : Rates W)
      (d : AdditionalDiscount W) (e : LineError)
      → All (IsValidLine rates) xs
      → calc_line rates (length xs + 1) l ≡ err e
      → calc_lines (xs ++ l ∷ ys) rates d ≡ err e
  unfolding calc_lines
  calc_lines_invalid [] l ys rates d e v bad =
      rw
        (calc_from_invalid rates 1 (length {A = LineInput W} [] + 1) [] l ys empty_calc e v
          (omega arith) bad)
        refl
  calc_lines_invalid (x ∷ xs) l ys rates d e v bad =
      rw
        (calc_from_invalid rates 1 (length (x ∷ xs) + 1) (x ∷ xs) l ys empty_calc e v (omega arith)
          bad)
        refl
