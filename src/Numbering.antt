-- ===== src/Numbering.antt =====
-- The automatic document numbers, such as INV/2026/0007: generateSalesInvoiceNumber and its like in
-- app/repository. Each takes the numbers that its query finds, scans their last segments for the
-- greatest sequence number, and adds one.
pub mod Digits
pub mod Fresh
pub mod Tests
use invoicing_be.Base.{
  ℕ, zero, suc, ◌+◌, ◌-◌, ◌*◌, ◌/◌, ◌%◌, ◌^◌, Bool, true, false, not, ◌&&◌, Option, none, some,
  List, [], ◌∷◌, ◌++◌, ◌==◌, leb, ltb, if◌then◌else◌,
}
use invoicing_be.Text.{Text, lit}
use invoicing_be.Calendar.{is_digit}

abbrev pub cons_head : ℕ → List Text → List Text
cons_head c [] = (c ∷ []) ∷ []
cons_head c (s ∷ parts) = (c ∷ s) ∷ parts

-- strings.Split by one character
unfoldable pub split : ℕ → Text → List Text
split sep [] = [] ∷ []
split sep (c ∷ s) = let rest = split sep s in if c == sep then [] ∷ rest else cons_head c rest

-- parts[len(parts)-1]
unfoldable pub last : List Text → Text
last [] = []
last (s ∷ []) = s
last (s ∷ t ∷ parts) = last (t ∷ parts)

-- The value of decimal digits, after `acc`; `none` for any other character.
unfoldable pub digits_value : ℕ → Text → Option ℕ
digits_value acc [] = some acc
digits_value acc (c ∷ s) =
    let rest = digits_value (acc * 10 + (c - b'0')) s in if is_digit c then rest else none

-- An int: whether it is negative, and its size.
abbrev pub MachineInt : Type 0
MachineInt = Bool × ℕ

abbrev in_range : Bool → ℕ → Bool
in_range negative n = if negative then leb n (2 ^ 63) else ltb n (2 ^ 63)

-- A number without its sign; an empty text and a value out of range are errors.
unfoldable pub unsigned : Bool → Text → Option MachineInt
unsigned negative [] = none
unsigned negative (c ∷ s) = elim (digits_value 0 (c ∷ s)) [
  | none ↦ none
  | some n ↦ if in_range negative n then some (negative, n) else none
]

-- strconv.Atoi
unfoldable pub atoi : Text → Option MachineInt
atoi [] = none
atoi (c ∷ s) =
    if c == b'-'
    then unsigned true s
    else if c == b'+'
    then unsigned false s
    else unsigned false (c ∷ s)

abbrev pub larger : Option MachineInt → ℕ → ℕ
larger none m = m
larger (some (negative, n)) m = if not negative && ltb m n then n else m

-- The loop over the numbers found.
unfoldable pub max_seq : ℕ → List Text → ℕ
max_seq m [] = m
max_seq m (ref ∷ refs) = max_seq (larger (atoi (last (split b'/' ref))) m) refs

-- %d, with fuel for as many digits as the number can have
unfoldable pub decimal_fuel : ℕ → ℕ → Text
decimal_fuel zero n = []
decimal_fuel (suc k) n =
    let more = decimal_fuel k (n / 10) ++ ((n % 10 + b'0') ∷ []) in
    if ltb n 10 then (n + b'0') ∷ [] else more

unfoldable pub decimal : ℕ → Text
unfolding decimal_fuel
decimal n = decimal_fuel (suc n) n

-- %04d of an int that is not negative
unfoldable pub padded : ℕ → Text
unfolding decimal
padded n =
    if ltb n 10
    then b'0' ∷ b'0' ∷ b'0' ∷ decimal n
    else if ltb n 100
    then b'0' ∷ b'0' ∷ decimal n
    else if ltb n 1000
    then b'0' ∷ decimal n
    else decimal n

-- max+1, which wraps at the greatest int
unfoldable pub next_text : ℕ → Text
next_text m = if m + 1 == 2 ^ 63 then lit "-9223372036854775808" else padded (m + 1)

-- fmt.Sprintf("%s/%d/", label, date.Year())
unfoldable pub prefix : Text → ℕ → Text
prefix label year = label ++ (b'/' ∷ (decimal year ++ (b'/' ∷ [])))

unfoldable pub generate : Text → ℕ → List Text → Text
generate label year numbers = prefix label year ++ next_text (max_seq 0 numbers)
