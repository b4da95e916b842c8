-- ===== src/Numbering/Digits.antt =====
-- Decimal digits, printed and read back, and the last segment of a number.
use invoicing_be.Base.{
  ℕ, zero, suc, ◌+◌, ◌-◌, ◌*◌, ◌/◌, ◌%◌, ◌^◌, ◌<◌, ◌≡◌, ◌≢◌, refl, true, false, Option, none, some,
  List, [], ◌∷◌, ◌++◌, arith, All, ltb, ◌==◌, inl, inr, Bool-cases, ◌∙◌, ap,
}
use invoicing_be.Text.{Text}
use invoicing_be.Calendar.{is_digit}
use invoicing_be.Numbering.{
  split, last, digits_value, unsigned, atoi, decimal_fuel, decimal, padded,
}

abbrev pub IsDigits : Text → Type 0
IsDigits = All (λ c. is_digit c ≡ true)

abbrev push_digit : Option ℕ → ℕ → Option ℕ
push_digit none d = none
push_digit (some v) d = some (v * 10 + d)

digits_value-append :
    (acc : ℕ) (s : Text) (d : ℕ)
    → d < 10
    → digits_value acc (s ++ ((d + b'0') ∷ [])) ≡ push_digit (digits_value acc s) d
unfolding digits_value is_digit
digits_value-append acc [] d h = ground arith
digits_value-append acc (c ∷ s) d h =
    ground (arith, digits_value-append (acc * 10 + (c - b'0')) s d h)

IsDigits-append : (s : Text) (d : ℕ) → IsDigits s → d < 10 → IsDigits (s ++ ((d + b'0') ∷ []))
unfolding is_digit
IsDigits-append [] d h k = (ground arith, tt)
IsDigits-append (c ∷ s) d h k = (h.0, IsDigits-append s d h.1 k)

one_digit :
    (n : ℕ) → n < 10 → (digits_value 0 ((n + b'0') ∷ []) ≡ some n) × IsDigits ((n + b'0') ∷ [])
unfolding digits_value is_digit
one_digit n h = (ground arith, (ground arith, tt))

-- The digits of a number stand for it, and nothing else is printed.
digits_value-decimal_fuel :
    (k n : ℕ) → n < k → (digits_value 0 (decimal_fuel k n) ≡ some n) × IsDigits (decimal_fuel k n)
unfolding decimal_fuel
digits_value-decimal_fuel zero n h = absurd (omega arith)
digits_value-decimal_fuel (suc k) n h = elim (Bool-cases (ltb n 10)) [
  | inl small ↦ rw small (one_digit n (ground arith))
  | inr large ↦
      let (value, digits) = digits_value-decimal_fuel k (n / 10) (ground arith) in
      let d : n % 10 < 10 = omega arith in
      rw large (
        digits_value-append 0 (decimal_fuel k (n / 10)) (n % 10) d
            ∙ rw value (ap some (omega arith)),
        IsDigits-append (decimal_fuel k (n / 10)) (n % 10) digits d,
      )
]

pub digits_value-padded : (n : ℕ) → (digits_value 0 (padded n) ≡ some n) × IsDigits (padded n)
unfolding padded decimal digits_value is_digit
digits_value-padded n = ground (arith, digits_value-decimal_fuel (suc n) n)

append_ne : (s : Text) (c : ℕ) → s ++ (c ∷ []) ≢ []
append_ne [] c = cc
append_ne (d ∷ s) c = cc

decimal_fuel_ne : (k n : ℕ) → n < k → decimal_fuel k n ≢ []
unfolding decimal_fuel
decimal_fuel_ne zero n h = absurd (omega arith)
decimal_fuel_ne (suc k) n h = ground (arith, append_ne (decimal_fuel k (n / 10)) (n % 10 + b'0'))

padded_ne : (n : ℕ) → padded n ≢ []
unfolding padded decimal
padded_ne n = ground (arith, decimal_fuel_ne (suc n) n)

atoi-digits :
    (s : Text) (n : ℕ)
    → s ≢ []
    → IsDigits s
    → digits_value 0 s ≡ some n
    → n < 2 ^ 63
    → atoi s ≡ some (false, n)
unfolding atoi unsigned is_digit
atoi-digits [] n ne d v h = absurd (ne refl)
atoi-digits (c ∷ s) n ne d v h = ground (arith, d.0)

-- A padded number is read back by `Atoi`.
pub atoi-padded : (n : ℕ) → n < 2 ^ 63 → atoi (padded n) ≡ some (false, n)
atoi-padded n h =
    let (value, digits) = digits_value-padded n in
    atoi-digits (padded n) n (padded_ne n) digits value h

split-digits : (d : Text) → IsDigits d → split b'/' d ≡ d ∷ []
unfolding split is_digit
split-digits [] h = refl
split-digits (c ∷ d) h = ground (arith, split-digits d h.1, h.0)

-- At a slash the text is split into two parts at least, and what follows it is the last of them.
split-slash :
    (p d : Text)
    → IsDigits d
    → (a b : Text) × (parts : List Text) × (split b'/' (p ++ (b'/' ∷ d)) ≡ a ∷ b ∷ parts)
      × (last (b ∷ parts) ≡ d)
unfolding last split
split-slash [] d h = ([], d, [], rw (split-digits d h) refl, refl)
split-slash (c ∷ p) d h =
    let (a, b, parts, e, l) = split-slash p d h in
    elim (Bool-cases (c == b'/')) [
      | inl slash ↦ ([], a, b ∷ parts, rw (slash, e) refl, l)
      | inr other ↦ (c ∷ a, b, parts, rw (other, e) refl, l)
    ]

-- The last segment, after a slash, where it has digits alone.
pub last-split : (p d : Text) → IsDigits d → last (split b'/' (p ++ (b'/' ∷ d))) ≡ d
unfolding last
last-split p d h = let (a, b, parts, e, l) = split-slash p d h in rw e l
