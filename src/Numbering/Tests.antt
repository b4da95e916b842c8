-- ===== src/Numbering/Tests.antt =====
-- Runs of the numbering.
use invoicing_be.Base.{◌≡◌, ◌≢◌, refl, ◌+◌, false, some, List, [], ◌∷◌, All, arith}
use invoicing_be.Text.{Text, lit}
use invoicing_be.Numbering.{
  unsigned, digits_value, split, last, atoi, max_seq, decimal, decimal_fuel, padded, next_text,
  prefix, generate,
}
use invoicing_be.Calendar.{is_digit}
use invoicing_be.Numbering.Fresh.{sequence, sequence-generate, generate_fresh}

abbrev scanned : List Text
scanned = lit "KW/2026/0009" ∷ lit "KW/2026/draft" ∷ lit "KW/2026/0002" ∷ []

generated : generate (lit "KW") 2026 scanned ≡ lit "KW/2026/0010"
unfolding split last atoi max_seq unsigned digits_value is_digit decimal decimal_fuel padded
    next_text prefix generate
generated = refl

generate_fresh_example : All (λ number. number ≢ generate (lit "KW") 2026 scanned) scanned
unfolding split last atoi max_seq unsigned digits_value is_digit
generate_fresh_example = generate_fresh (lit "KW") 2026 scanned (omega arith)

sequence-generate_example :
    sequence (generate (lit "KW") 2026 scanned) ≡ some (false, max_seq 0 scanned + 1)
unfolding split last atoi max_seq unsigned digits_value is_digit
sequence-generate_example = sequence-generate (lit "KW") 2026 scanned (omega arith)
