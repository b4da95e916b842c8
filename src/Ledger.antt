-- ===== src/Ledger.antt =====
-- The abstract view of what is paid: how many cents on each invoice.
pub mod Cents
use invoicing_be.Base.{ℕ, ◌+◌, ◌-◌, ◌≡◌, refl, false, arith, if◌then◌else◌}
use invoicing_be.Text.{Text, ◌≐◌}

abbrev pub Ledger : Type 0
Ledger = Text → ℕ

abbrev pub credit : Ledger → Text → ℕ → Ledger
credit ledger invoice n id = if invoice ≐ id then ledger id + n else ledger id

abbrev pub debit : Ledger → Text → ℕ → Ledger
debit ledger invoice n id = if invoice ≐ id then ledger id - n else ledger id

pub credit_other :
    (ledger : Ledger) (id : Text) (n : ℕ) (j : Text)
    → (id ≐ j) ≡ false
    → credit ledger id n j ≡ ledger j
credit_other ledger id n j e = rw e

pub debit_other :
    (ledger : Ledger) (id : Text) (n : ℕ) (j : Text)
    → (id ≐ j) ≡ false
    → debit ledger id n j ≡ ledger j
debit_other ledger id n j e = rw e
