-- ===== src/LineCalc.antt =====
-- utils/linecalc.go: the amounts of a document, line by line, with discounts and taxes.
pub mod Stored
pub mod Laws
pub mod Valid
mod Tests
use invoicing_be.Base.{
  ℕ, ◌+◌, Bool, true, false, not, ◌&&◌, ◌||◌, Option, none, some, List, [], ◌∷◌, ◌++◌,
  if◌then◌else◌, Result, ok, err, and_then,
}
use invoicing_be.Text.{Text, lit, ◌≐◌, is_empty, trim_space}
use invoicing_be.Money.{Float, ◌⊕◌, ◌⊖◌, ◌⊗◌, ◌⊘◌, ◌≺◌, ◌≼◌, round2}

pub record LineInput {ℓ} (W : Type ℓ) : Type ℓ where
  pub product_name : Text
  pub description : Text
  pub quantity : W
  pub unit_price : W
  pub discount_type : Text
  pub discount_value : W
  pub tax_ids : List Text

pub record LineResult {ℓ} (W : Type ℓ) : Type ℓ where
  pub product_name : Text
  pub description : Text
  pub quantity : W
  pub unit_price : W
  pub discount_type : Text
  pub discount_value : W
  pub tax_ids : List Text
  pub line_subtotal : W
  pub line_tax_amount : W
  pub line_total : W

pub record TaxRate {ℓ} (W : Type ℓ) : Type ℓ where
  pub rate : W
  pub calc_method : Text

pub record LinesCalc {ℓ} (W : Type ℓ) : Type ℓ where
  pub lines : List (LineResult W)
  pub subtotal : W
  pub discount_total : W
  pub tax_total : W
  pub grand_total : W
  pub additional_discount_type : Text
  pub additional_discount_value : W
  pub additional_discount_amount : W

pub record AdditionalDiscount {ℓ} (W : Type ℓ) : Type ℓ where
  pub type : Text
  pub value : W

-- The errors of `CalcLines`; the number is that of the line, from 1.
pub data LineError : Type 0 where
  no_lines : LineError
  no_product_name : ℕ → LineError
  bad_quantity : ℕ → LineError
  negative_price : ℕ → LineError
  bad_discount_type : ℕ → LineError
  negative_discount : ℕ → LineError
  discount_exceeds_line : ℕ → LineError
  discount_not_percent : ℕ → LineError
  tax_not_found : ℕ → LineError
  bad_additional_type : LineError
  negative_additional : LineError
  additional_exceeds_subtotal : LineError
  additional_not_percent : LineError

-- The amounts of one line before rounding.
pub record Amounts {ℓ} (W : Type ℓ) : Type ℓ where
  pub result : LineResult W
  pub subtotal : W
  pub discount : W
  pub tax : W
  pub total : W

-- map[string]TaxRate
abbrev pub Rates {ℓ} : Type ℓ → Type ℓ
Rates W = List (Text × TaxRate W)

module _ {ℓ} {W : Type ℓ} where
  unfoldable pub rate_of : Rates W → Text → Option (TaxRate W)
  rate_of [] id = none
  rate_of ((key, t) ∷ rates) id = if key ≐ id then some t else rate_of rates id

-- a blank type stands for "percent"
unfoldable pub type_or_percent : Text → Text
type_or_percent t = if is_empty t then lit "percent" else t

module _ {ℓ} {W : Type ℓ} ⦃f : Float W⦄ where
  -- The guards on a line, up to the discount type.
  unfoldable pub check_line : ℕ → LineInput W → Result LineError (Unit {0})
  check_line n l =
      if is_empty (trim_space l.product_name)
      then err (no_product_name n)
      else if l.quantity ≼ f.nought
      then err (bad_quantity n)
      else if l.unit_price ≺ f.nought
      then err (negative_price n)
      else ok tt

  -- The `switch` on the discount type of a line: the amount that is taken off.
  unfoldable pub line_discount : ℕ → Text → W → W → Result LineError W
  line_discount n type value base =
      if not (type ≐ lit "percent") && not (type ≐ lit "amount")
      then err (bad_discount_type n)
      else if type ≐ lit "amount"
      then (if value ≺ f.nought
          then err (negative_discount n)
          else if base ≺ value
          then err (discount_exceeds_line n)
          else ok value)
      else if (value ≺ f.nought) || (f.hundred ≺ value)
      then err (discount_not_percent n)
      else ok (base ⊗ value ⊘ f.hundred)

  -- The loop over the taxes of a line: the sums of the exclusive and of the inclusive rates.
  unfoldable pub sum_rates : ℕ → Rates W → List Text → W → W → Result LineError (W × W)
  sum_rates n rates [] exclusive inclusive = ok (exclusive, inclusive)
  sum_rates n rates (raw ∷ ids) exclusive inclusive =
      let id = trim_space raw in
      let skip = sum_rates n rates ids exclusive inclusive in
      if is_empty id then skip else elim (rate_of rates id) [
        | none ↦ err (tax_not_found n)
        | some t ↦
            if t.calc_method ≐ lit "inclusive"
            then sum_rates n rates ids exclusive (inclusive ⊕ t.rate)
            else sum_rates n rates ids (exclusive ⊕ t.rate) inclusive
      ]

  -- One round of the loop of `CalcLines`: the amounts of the line.
  unfoldable pub calc_line : Rates W → ℕ → LineInput W → Result LineError (Amounts W)
  unfolding check_line line_discount type_or_percent
  calc_line rates n l = and_then (check_line n l) λ _.
      let type = type_or_percent l.discount_type in
      let base = l.quantity ⊗ l.unit_price in
      and_then (line_discount n type l.discount_value base) λ discount.
        let subtotal = base ⊖ discount in
        and_then (sum_rates n rates l.tax_ids f.nought f.nought) λ sums.
          let exclusive_tax = subtotal ⊗ sums.0 ⊘ f.hundred in
          let inclusive_tax =
            (if f.nought ≺ sums.1
              then subtotal ⊖ subtotal ⊘ (f.one ⊕ sums.1 ⊘ f.hundred)
              else f.nought) in
          let tax = exclusive_tax ⊕ inclusive_tax in
          let total = subtotal ⊕ exclusive_tax in
          ok (record {
            result = record {
              product_name = trim_space l.product_name;
              description = trim_space l.description;
              quantity = l.quantity;
              unit_price = l.unit_price;
              discount_type = type;
              discount_value = l.discount_value;
              tax_ids = l.tax_ids;
              line_subtotal = round2 subtotal;
              line_tax_amount = round2 tax;
              line_total = round2 total;
            };
            subtotal = subtotal;
            discount = discount;
            tax = tax;
            total = total;
          })

  -- What a round adds to the document.
  unfoldable pub add_line : LinesCalc W → Amounts W → LinesCalc W
  add_line c a = record c {
    lines = c.lines ++ (a.result ∷ []);
    subtotal = c.subtotal ⊕ a.subtotal;
    discount_total = c.discount_total ⊕ a.discount;
    tax_total = c.tax_total ⊕ a.tax;
    grand_total = c.grand_total ⊕ a.total;
  }

  -- The loop over the lines; `n` is the number of the next line.
  unfoldable pub calc_from :
      Rates W → ℕ → List (LineInput W) → LinesCalc W → Result LineError (LinesCalc W)
  calc_from rates n [] c = ok c
  calc_from rates n (l ∷ ls) c =
      and_then (calc_line rates n l) λ a. calc_from rates (n + 1) ls (add_line c a)

  unfoldable pub empty_calc : LinesCalc W
  empty_calc = record {
    lines = [];
    subtotal = f.nought;
    discount_total = f.nought;
    tax_total = f.nought;
    grand_total = f.nought;
    additional_discount_type = [];
    additional_discount_value = f.nought;
    additional_discount_amount = f.nought;
  }

  unfoldable pub round_totals : LinesCalc W → LinesCalc W
  round_totals c = record c {
    subtotal = round2 c.subtotal;
    discount_total = round2 c.discount_total;
    tax_total = round2 c.tax_total;
    grand_total = round2 c.grand_total;
  }

  -- The `switch` on the type of the additional discount.
  unfoldable pub additional_discount : Text → W → W → Result LineError W
  additional_discount type value subtotal =
      if not (type ≐ lit "percent") && not (type ≐ lit "amount")
      then err bad_additional_type
      else if type ≐ lit "amount"
      then (if value ≺ f.nought
          then err negative_additional
          else if subtotal ≺ value
          then err additional_exceeds_subtotal
          else ok value)
      else if (value ≺ f.nought) || (f.hundred ≺ value)
      then err additional_not_percent
      else ok (subtotal ⊗ value ⊘ f.hundred)

  -- The part of `CalcLines` after the loop.
  unfoldable pub finish : AdditionalDiscount W → LinesCalc W → Result LineError (LinesCalc W)
  unfolding type_or_percent additional_discount
  finish d c =
      let type = type_or_percent d.type in
      and_then (additional_discount type d.value c.subtotal) λ amount. ok (record c {
        additional_discount_type = type;
        additional_discount_value = d.value;
        additional_discount_amount = round2 amount;
        grand_total = round2 (c.grand_total ⊖ round2 amount);
      })

  -- CalcLines
  unfoldable pub calc_lines :
      List (LineInput W) → Rates W → AdditionalDiscount W → Result LineError (LinesCalc W)
  calc_lines [] rates d = err no_lines
  calc_lines (l ∷ ls) rates d =
      and_then (calc_from rates 1 (l ∷ ls) empty_calc) λ c. finish d (round_totals c)
