-- ===== src/LineCalc/Tests.antt =====
-- Runs of the model of utils/linecalc.go on inputs of utils/linecalc_test.go, and the theorems
-- about it at concrete documents.
use Prim.Native.String.{String}
use invoicing_be.Base.{ℕ, ◌*◌, ◌≡◌, refl, true, List, [], ◌∷◌, Result, ok, err, succeeds, ◌↔◌}
use invoicing_be.Text.{Text, lit, ◌≐◌, is_empty, is_space, trim_space}
use invoicing_be.Money.{round2}
use invoicing_be.Money.Fixed.{ℤ, pos, fixed}
use invoicing_be.LineCalc.{
  LineInput, LinesCalc, AdditionalDiscount, LineError, bad_quantity, Amounts, Rates, rate_of,
  type_or_percent, check_line, line_discount, sum_rates, calc_line, add_line, calc_from, empty_calc,
  round_totals, additional_discount, finish, calc_lines,
}
use invoicing_be.LineCalc.Laws.{line_amounts, IsTotalOf, IsDiscountOf, calc_lines_totals}
use invoicing_be.LineCalc.Valid.{IsValidLine, calc_line_iff, calc_lines_invalid}

abbrev line : String → ℕ → ℕ → List Text → LineInput ℤ
line product quantity price taxes = record {
  product_name = lit product;
  description = [];
  quantity = pos (quantity * 10_000);
  unit_price = pos (price * 10_000);
  discount_type = [];
  discount_value = pos 0;
  tax_ids = taxes;
}

abbrev rates : Rates ℤ
rates =
    (lit "vat", record { rate = pos 110_000; calc_method = lit "exclusive" })
    ∷ (lit "incl", record { rate = pos 100_000; calc_method = lit "inclusive" })
    ∷ []

abbrev no_discount : AdditionalDiscount ℤ
no_discount = record { type = []; value = pos 0 }

abbrev sample : List (LineInput ℤ)
sample = line "Jasa A" 2 100_000 (lit "vat" ∷ []) ∷ line "Jasa B" 1 500 [] ∷ []

abbrev total_of : Result LineError (LinesCalc ℤ) → LinesCalc ℤ
total_of (ok c) = c
total_of (err e) = record {
  lines = [];
  subtotal = pos 0;
  discount_total = pos 0;
  tax_total = pos 0;
  grand_total = pos 0;
  additional_discount_type = [];
  additional_discount_value = pos 0;
  additional_discount_amount = pos 0;
}

run : List (LineInput ℤ) → AdditionalDiscount ℤ → Result LineError (LinesCalc ℤ)
unfolding calc_lines calc_from calc_line check_line line_discount sum_rates rate_of ◌≐◌ trim_space
    is_space is_empty round2 add_line empty_calc finish round_totals type_or_percent
    additional_discount
run ls d = calc_lines ls rates d

-- "exclusive tax adds on top"
exclusive_adds :
    let c = total_of (run (line "Jasa A" 1 100_000 (lit "vat" ∷ []) ∷ []) no_discount) in
    (c.tax_total ≡ pos 110_000_000) × (c.grand_total ≡ pos 1_110_000_000)
unfolding run
exclusive_adds = (refl, refl)

-- "inclusive tax is backed out"
inclusive_backed_out :
    let c = total_of (run (line "Jasa A" 1 110_000 (lit "incl" ∷ []) ∷ []) no_discount) in
    (c.tax_total ≡ pos 100_000_000) × (c.grand_total ≡ pos 1_100_000_000)
unfolding run
inclusive_backed_out = (refl, refl)

abbrev tenth : AdditionalDiscount ℤ
tenth = record { type = lit "percent"; value = pos 100_000 }

calc_lines_totals_example :
    (as' : List (Amounts ℤ)) × (line_amounts rates 1 sample ≡ ok as')
    × IsTotalOf as' (total_of (calc_lines sample rates tenth))
    × IsDiscountOf tenth (total_of (calc_lines sample rates tenth))
unfolding run
calc_lines_totals_example =
    calc_lines_totals sample rates tenth (total_of (calc_lines sample rates tenth)) refl

abbrev good_line : LineInput ℤ
good_line = line "Jasa B" 1 500 (lit " vat " ∷ [] ∷ [])

calc_line_iff_example :
    (succeeds (calc_line rates 7 good_line) ≡ true) ↔ IsValidLine rates good_line
calc_line_iff_example = calc_line_iff rates 7 good_line

good_line-IsValidLine : IsValidLine rates good_line
unfolding run
good_line-IsValidLine = (calc_line_iff rates 1 good_line).0 refl

calc_lines_invalid_example :
    calc_lines (good_line ∷ line "Jasa C" 0 9 [] ∷ good_line ∷ []) rates no_discount
    ≡ err (bad_quantity 2)
unfolding run
calc_lines_invalid_example =
    calc_lines_invalid (good_line ∷ []) (line "Jasa C" 0 9 []) (good_line ∷ []) rates no_discount
      (bad_quantity 2) (good_line-IsValidLine, tt) refl
