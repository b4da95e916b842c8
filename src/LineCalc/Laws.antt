-- ===== src/LineCalc/Laws.antt =====
-- The totals that `CalcLines` of utils/linecalc.go computes, against a reference that takes each line
-- by itself.
use invoicing_be.Base.{
  if◌then◌else◌, false, Bool-cases, ◌⊎◌, ℕ, ◌+◌, ◌≡◌, refl, inl, inr, List, [], ◌∷◌, ◌++◌, map,
  arith, Result, ok, and_then, Result-cases, and_then_assoc, and_then-eq-ok, sym, ap, ◌∙◌,
}
use mathlib.Core.List.{append-nil, append_assoc}
use invoicing_be.Text.{Text, lit, ◌≐◌, ≐→≡, is_empty}
use invoicing_be.Money.{Float, ◌⊕◌, ◌⊖◌, ◌⊗◌, ◌⊘◌, ◌≺◌, round2}
use invoicing_be.LineCalc.{
  LineInput, LinesCalc, AdditionalDiscount, LineError, Amounts, Rates, type_or_percent, calc_line,
  add_line, calc_from, empty_calc, round_totals, additional_discount, finish, calc_lines,
}

module _ {ℓ} {W : Type ℓ} ⦃f : Float W⦄ where
  -- Each line by itself, in order: the reference for the loop.
  pub line_amounts : Rates W → ℕ → List (LineInput W) → Result LineError (List (Amounts W))
  line_amounts rates n [] = ok []
  line_amounts rates n (l ∷ ls) =
      and_then (calc_line rates n l)
        λ a. and_then (line_amounts rates (n + 1) ls) λ rest. ok (a ∷ rest)

  abbrev pub sum : (Amounts W → W) → W → List (Amounts W) → W
  sum g acc [] = acc
  sum g acc (a ∷ as') = sum g (acc ⊕ g a) as'

  -- The amounts of the lines, added to a document.
  abbrev pub add_lines : LinesCalc W → List (Amounts W) → LinesCalc W
  add_lines c [] = c
  add_lines c (a ∷ as') = add_lines (add_line c a) as'

  calc_from-eq :
      (rates : Rates W) (n : ℕ) (ls : List (LineInput W)) (c : LinesCalc W)
      → calc_from rates n ls c ≡ and_then (line_amounts rates n ls) (λ as'. ok (add_lines c as'))
  unfolding calc_from line_amounts
  calc_from-eq rates n [] c = refl
  calc_from-eq rates n (l ∷ ls) c = elim (Result-cases (calc_line rates n l)) [
    | inl (a, e) ↦
        rw (e, calc_from-eq rates (n + 1) ls (add_line c a))
          (sym (and_then_assoc (line_amounts rates (n + 1) ls) _ _))
    | inr (e, p) ↦ rw p refl
  ]

  -- The totals of a document, from the amounts of its lines.
  pub record IsTotalOf (as' : List (Amounts W)) (c : LinesCalc W) : Type ℓ where
    pub lines_eq : c.lines ≡ map (λ a. a.result) as'
    pub subtotal_eq : c.subtotal ≡ round2 (sum (λ a. a.subtotal) f.nought as')
    pub discount_eq : c.discount_total ≡ round2 (sum (λ a. a.discount) f.nought as')
    pub tax_eq : c.tax_total ≡ round2 (sum (λ a. a.tax) f.nought as')
    pub grand_eq :
        c.grand_total
        ≡ round2 (round2 (sum (λ a. a.total) f.nought as') ⊖ c.additional_discount_amount)

  -- The additional discount of a document: of a known type, and the rounded amount that is asked for,
  -- or the rounded percentage of the subtotal.
  pub record IsDiscountOf (d : AdditionalDiscount W) (c : LinesCalc W) : Type ℓ where
    pub type_eq : c.additional_discount_type ≡ (if is_empty d.type then lit "percent" else d.type)
    pub value_eq : c.additional_discount_value ≡ d.value
    pub not_negative : (d.value ≺ f.nought) ≡ false
    pub amount_eq :
        ((c.additional_discount_type ≡ lit "amount")
          × (c.additional_discount_amount ≡ round2 d.value)
          × ((c.subtotal ≺ d.value) ≡ false))
        ⊎ ((c.additional_discount_type ≡ lit "percent")
            × (c.additional_discount_amount ≡ round2 (c.subtotal ⊗ d.value ⊘ f.hundred))
            × ((f.hundred ≺ d.value) ≡ false))

  add_lines_lines :
      (c : LinesCalc W) (as' : List (Amounts W))
      → (add_lines c as').lines ≡ c.lines ++ map (λ a. a.result) as'
  unfolding add_line
  add_lines_lines c [] = sym (append-nil c.lines)
  add_lines_lines c (a ∷ as') = add_lines_lines (add_line c a) as' ∙ append_assoc c.lines _ _

  add_lines_totals :
      (c : LinesCalc W) (as' : List (Amounts W))
      → ((add_lines c as').subtotal ≡ sum (λ a. a.subtotal) c.subtotal as')
        × ((add_lines c as').discount_total ≡ sum (λ a. a.discount) c.discount_total as')
        × ((add_lines c as').tax_total ≡ sum (λ a. a.tax) c.tax_total as')
        × ((add_lines c as').grand_total ≡ sum (λ a. a.total) c.grand_total as')
  unfolding add_line
  add_lines_totals c [] = (refl, refl, refl, refl)
  add_lines_totals c (a ∷ as') = add_lines_totals (add_line c a) as'

  finish_lem :
      (d : AdditionalDiscount W) (t : LinesCalc W) {c : LinesCalc W}
      → finish d t ≡ ok c
      → (c.lines ≡ t.lines)
        × (c.subtotal ≡ t.subtotal)
        × (c.discount_total ≡ t.discount_total)
        × (c.tax_total ≡ t.tax_total)
        × (c.grand_total ≡ round2 (t.grand_total ⊖ c.additional_discount_amount))
  unfolding finish
  finish_lem d t h =
      let (amount, _, e) =
        and_then-eq-ok (additional_discount (type_or_percent d.type) d.value t.subtotal) _ h in
      ground arith

  -- What the discount comes to, where it is accepted.
  discount_accepted :
      (type : Text) (value subtotal amount : W)
      → additional_discount type value subtotal ≡ ok amount
      → ((type ≡ lit "amount")
          × (amount ≡ value)
          × ((value ≺ f.nought) ≡ false)
          × ((subtotal ≺ value) ≡ false))
        ⊎ ((type ≡ lit "percent")
            × (amount ≡ subtotal ⊗ value ⊘ f.hundred)
            × ((value ≺ f.nought) ≡ false)
            × ((f.hundred ≺ value) ≡ false))
  unfolding additional_discount
  discount_accepted type value subtotal amount h = elim (Bool-cases (type ≐ lit "amount")) [
    | inl fixed ↦ inl (
      ≐→≡ type (lit "amount") fixed,
      ground (arith, h, fixed),
      ground (arith, h, fixed),
      ground (arith, h, fixed),
    )
    | inr other ↦ elim (Bool-cases (type ≐ lit "percent")) [
      | inl percent ↦ inr (
        ≐→≡ type (lit "percent") percent,
        ground (arith, h, other, percent),
        ground (arith, h, other, percent),
        ground (arith, h, other, percent),
      )
      | inr unknown ↦ absurd (ground (arith, h, other, unknown))
    ]
  ]

  ok_same : {a b : LinesCalc W} (r : Result LineError (LinesCalc W)) → r ≡ ok a → r ≡ ok b → a ≡ b
  ok_same r h k = cc (sym h ∙ k)

  finish-IsDiscountOf :
      (d : AdditionalDiscount W) (t c : LinesCalc W) → finish d t ≡ ok c → IsDiscountOf d c
  unfolding finish type_or_percent
  finish-IsDiscountOf d t c h =
      let (amount, accepted, e) =
        and_then-eq-ok (additional_discount (type_or_percent d.type) d.value t.subtotal) _ h in
      rw (← ok_same _ refl e)
        (elim (discount_accepted (type_or_percent d.type) d.value t.subtotal amount accepted) [
          | inl (type, fixed, above, within) ↦ record {
            type_eq = refl;
            value_eq = refl;
            not_negative = above;
            amount_eq = inl (type, ap round2 fixed, within);
          }
          | inr (type, percent, above, within) ↦ record {
            type_eq = refl;
            value_eq = refl;
            not_negative = above;
            amount_eq = inr (type, ap round2 percent, within);
          }
        ])

  -- When CalcLines succeeds, every line passed by itself, the result has the lines' results in
  -- order, and each total is the rounded sum of the lines' unrounded amounts. The additional
  -- discount is of the type asked for, a percentage where none is named; its value is not
  -- negative, and its amount is the rounded value, which the subtotal is not below, or the
  -- rounded percentage of the subtotal, of at most 100. This amount is taken off the rounded
  -- grand total, which is rounded again.
  pub calc_lines_totals :
      (ls : List (LineInput W)) (rates : Rates W) (d : AdditionalDiscount W) (c : LinesCalc W)
      → calc_lines ls rates d ≡ ok c
      → (as' : List (Amounts W)) × (line_amounts rates 1 ls ≡ ok as')
        × IsTotalOf as' c
        × IsDiscountOf d c
  unfolding calc_lines finish round_totals empty_calc
  calc_lines_totals [] rates d c h = cc
  calc_lines_totals (l ∷ ls) rates d c h =
      let (total, from, done) = and_then-eq-ok (calc_from rates 1 (l ∷ ls) empty_calc) _ h in
      let (as', each, sum_eq) =
        and_then-eq-ok (line_amounts rates 1 (l ∷ ls)) _
          (sym (calc_from-eq rates 1 (l ∷ ls) empty_calc) ∙ from) in
      let (lines_eq, subtotal_eq, discount_eq, tax_eq, grand_eq) =
        finish_lem d (round_totals total) done in
      let total_eq : add_lines empty_calc as' ≡ total = ground (arith, sum_eq) in
      let sums = add_lines_totals empty_calc as' in
      (
        as',
        each,
        record {
          lines_eq = lines_eq ∙ rw (← total_eq) (add_lines_lines empty_calc as');
          subtotal_eq = subtotal_eq ∙ rw (← total_eq) (ap round2 sums.0);
          discount_eq = discount_eq ∙ rw (← total_eq) (ap round2 sums.1);
          tax_eq = tax_eq ∙ rw (← total_eq) (ap round2 sums.2);
          grand_eq =
              grand_eq
              ∙ rw (← total_eq) (ap (λ x. round2 (round2 x ⊖ c.additional_discount_amount)) sums.3);
        },
        finish-IsDiscountOf d (round_totals total) c done,
      )
