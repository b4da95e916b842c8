-- ===== src/Journal/Balanced.antt =====
-- What validateLines accepts.
use invoicing_be.Base.{
  ℕ, ◌+◌, ◌≤◌, ◌≡◌, ◌↔◌, refl, Bool, true, false, not, List, [], ◌∷◌, arith, All, length, ltb, ok,
  and_then-eq-ok, require,
}
use invoicing_be.Text.{is_empty, trim_space}
use invoicing_be.Money.{Float, ◌⊕◌, ◌⊖◌, ◌≺◌, ◌≼◌}
use invoicing_be.Journal.{
  JournalLine, JournalError, too_few_lines, check_line, check_from, validate_lines,
}

module _ {ℓ} {W : Type ℓ} ⦃f : Float W⦄ where
  -- The line names an account, and exactly one of its sides is positive.
  abbrev pub IsValidLine : JournalLine W → Type 0
  IsValidLine l =
      (is_empty (trim_space l.account_id) ≡ false)
      × ((f.nought ≺ l.debit) ≡ not (f.nought ≺ l.credit))

  -- A column's floating-point sum, from the first line on.
  abbrev pub total : (JournalLine W → W) → W → List (JournalLine W) → W
  total side sum [] = sum
  total side sum (l ∷ ls) = total side (sum ⊕ side l) ls

  -- At least two lines, each of them valid, a total that is not 0, and totals that agree.
  abbrev pub IsBalanced : List (JournalLine W) → Type 0
  IsBalanced ls =
      let debit = total (λ (l : JournalLine W). l.debit) f.nought ls in
      let credit = total (λ (l : JournalLine W). l.credit) f.nought ls in
      (2 ≤ length ls)
      × All IsValidLine ls
      × ((debit ≼ f.nought) ≡ false)
      × ((f.epsilon ≺ f.abs (debit ⊖ credit)) ≡ false)

  check_line_iff : (n : ℕ) (l : JournalLine W) → (check_line n l ≡ ok tt) ↔ IsValidLine l
  unfolding check_line
  check_line_iff n l = (ground arith, ground arith)

  check_from-valid :
      (n : ℕ) (debit credit : W) (ls : List (JournalLine W))
      → All IsValidLine ls
      → check_from n debit credit ls
        ≡ ok (
          total (λ (l : JournalLine W). l.debit) debit ls,
          total (λ (l : JournalLine W). l.credit) credit ls,
        )
  unfolding check_from
  check_from-valid n debit credit [] valid = refl
  check_from-valid n debit credit (l ∷ ls) (v, valid) =
      rw ((check_line_iff n l).1 v)
        (check_from-valid (n + 1) (debit ⊕ l.debit) (credit ⊕ l.credit) ls valid)

  check_from-ok :
      (n : ℕ) (debit credit : W) (ls : List (JournalLine W)) (sums : W × W)
      → check_from n debit credit ls ≡ ok sums
      → All IsValidLine ls
  unfolding check_from
  check_from-ok n debit credit [] sums h = tt
  check_from-ok n debit credit (l ∷ ls) sums h =
      let (u, first, rest) = and_then-eq-ok (check_line n l) _ h in
      (
        (check_line_iff n l).0 first,
        check_from-ok (n + 1) (debit ⊕ l.debit) (credit ⊕ l.credit) ls sums rest,
      )

  require-eq-ok : (b : Bool) (e : JournalError W) (u : Unit {0}) → require b e ≡ ok u → b ≡ true
  require-eq-ok true e u h = refl
  require-eq-ok false e u h = ground arith

  balanced : (ls : List (JournalLine W)) → validate_lines ls ≡ ok tt → IsBalanced ls
  unfolding validate_lines
  balanced ls h =
      let few : JournalError W = too_few_lines in
      let (_, two, h1) = and_then-eq-ok (require (not (ltb (length ls) 2)) few) _ h in
      let (sums, lines, h2) = and_then-eq-ok (check_from 1 f.nought f.nought ls) _ h1 in
      let valid = check_from-ok 1 f.nought f.nought ls sums lines in
      let e = check_from-valid 1 f.nought f.nought ls valid in
      (ground (arith, two), valid, ground (arith, e, lines, h2), ground (arith, e, lines, h2))

  accepted : (ls : List (JournalLine W)) → IsBalanced ls → validate_lines ls ≡ ok tt
  unfolding validate_lines
  accepted ls (two, valid, positive, equal) =
      rw (check_from-valid 1 f.nought f.nought ls valid) (ground arith)

  -- The lines of a journal entry pass validateLines exactly if there are at least two, each
  -- names an account and has exactly one positive side, the debits' sum is not 0 or below, and
  -- it is within the tolerance of the credits' sum.
  pub validate_lines_iff : (ls : List (JournalLine W)) → (validate_lines ls ≡ ok tt) ↔ IsBalanced ls
  validate_lines_iff ls = (balanced ls, accepted ls)
