-- ===== src/Calendar.antt =====
-- Dates as the program uses them: time.Parse with the layout "2006-01-02", and Time.Before.
use invoicing_be.Base.{
  ℕ, ◌+◌, ◌*◌, ◌-◌, ◌%◌, Bool, false, not, ◌&&◌, ◌||◌, Option, none, some, [], ◌∷◌, ◌==◌, leb, ltb,
  if◌then◌else◌,
}
use invoicing_be.Text.{Text}

pub record Date : Type 0 where
  pub year : ℕ
  pub month : ℕ
  pub day : ℕ

unfoldable pub is_digit : ℕ → Bool
is_digit c = leb b'0' c && leb c b'9'

unfoldable pub is_leap : ℕ → Bool
is_leap y = (y % 4 == 0) && (not (y % 100 == 0) || (y % 400 == 0))

unfoldable pub days_in : ℕ → ℕ → ℕ
unfolding is_leap
days_in m y =
    if m == 2
    then (if is_leap y then 29 else 28)
    else if (m == 4) || (m == 6) || (m == 9) || (m == 11)
    then 30
    else 31

abbrev digit : ℕ → ℕ
digit c = c - b'0'

-- Four digits, two and two, joined by dashes; a month from 1 to 12 and a day of that month.
unfoldable pub parse_date : Text → Option Date
unfolding is_digit days_in
parse_date (a ∷ b ∷ c ∷ d ∷ s ∷ e ∷ f ∷ t ∷ g ∷ h ∷ []) =
    let year = digit a * 1000 + digit b * 100 + digit c * 10 + digit d in
    let month = digit e * 10 + digit f in
    let day = digit g * 10 + digit h in
    if is_digit a
      && is_digit b
      && is_digit c
      && is_digit d
      && (s == b'-')
      && is_digit e
      && is_digit f
      && (t == b'-')
      && is_digit g
      && is_digit h
      && leb 1 month
      && leb month 12
      && leb 1 day
      && leb day (days_in month year)
    then some (record { year = year; month = month; day = day })
    else none
parse_date _ = none

-- Time.Before on dates
unfoldable pub before : Date → Date → Bool
before a b =
    ltb a.year b.year
    || (a.year == b.year) && (ltb a.month b.month || (a.month == b.month) && ltb a.day b.day)

-- `dueDate != nil && dueDate.Before(date)`
abbrev pub is_due_before : Option Date → Date → Bool
is_due_before none date = false
is_due_before (some due) date = before due date
