-- ===== src/Journal/Tests.antt =====
-- The journal on an entry of two lines.
use invoicing_be.Base.{
  some, Result, All, ◌≡◌, ◌↔◌, refl, true, false, none, List, [], ◌∷◌, Bool-cases, ok, err, inl,
  inr,
}
use mathlib.Core.Option.{some-injective}
use mathlib.Core.Path.{subst}
use invoicing_be.Text.{Text, lit, ◌≐◌, is_empty, is_space, trim_space}
use invoicing_be.Money.{round2}
use invoicing_be.Money.Fixed.{ℤ, fixed, of_cents}
use invoicing_be.Store.{◌>>=◌}
use invoicing_be.Store.Table.{find, update}
use invoicing_be.Journal.{
  delete_entry, JournalError, JournalLine, JournalEntry, draft, posted, Account, Db, validate_lines,
  check_from, check_line, find_entry, find_by_id, post, set_status, check_accounts_active,
  account_ids, active_count,
}
use invoicing_be.Journal.Entered.{IsEntered, AreEntered, IsWholeLine}
use invoicing_be.Journal.Save.{key_holders, JournalDto, create_entry}
use invoicing_be.Journal.Keys.{IsReplay, create_once}
use invoicing_be.Journal.Calls.{
  after_journal_call, drop_entry, add_entry, post_entry, edit_entry, after_journal_calls,
  calls-AreEntered,
}
use invoicing_be.Store.{Collation}
use invoicing_be.Journal.Save.{
  existing_entry, find_by_idempotency_key, create_checked, create_journal_entry, enter_entry,
  is_free_key, book_code, build_journal_lines, entry_number_taken, entry_numbers,
  generate_journal_entry_number, max_trailing, next_sequence, padded_2, padded_3,
  stored_journal_lines,
}
use invoicing_be.Calendar.{parse_date, days_in, is_digit, is_leap}
use invoicing_be.Numbering.{atoi, decimal, decimal_fuel, digits_value, last, split, unsigned}
use invoicing_be.Sales.Model.{trim_ptr}
use invoicing_be.Store.Table.{insert, rows}
use invoicing_be.Text.{has_prefix, trim_left}
use invoicing_be.Journal.Immutable.{starts, continues, posted_stays}
use invoicing_be.Journal.Balanced.{IsBalanced, validate_lines_iff}

abbrev side : Text → ℤ → ℤ → JournalLine ℤ
side account debit credit = record {
  account_id = account;
  mitra_id = none;
  description = [];
  debit = debit;
  credit = credit;
}

abbrev sheet : List (JournalLine ℤ)
sheet =
    side (lit "cash") (of_cents 1_050) (of_cents 0)
    ∷ side (lit "sales") (of_cents 0) (of_cents 1_050)
    ∷ []

abbrev entry : JournalEntry ℤ
entry = record {
  company_id = lit "c";
  journal_book_id = lit "b";
  number = lit "JE-GJ-032026-001";
  description = lit "sale";
  date = record { year = 2026; month = 3; day = 9 };
  status = draft;
  idempotency_key = lit "";
  total_debit = of_cents 1_050;
  total_credit = of_cents 1_050;
  lines = sheet;
  deleted = false;
}

abbrev open_account : Account
open_account = record { company_id = lit "c"; is_active = true; deleted = false }

abbrev book : Db ℤ
book = record {
  entries = (lit "e", entry) ∷ [];
  accounts = (lit "cash", open_account) ∷ (lit "sales", open_account) ∷ [];
  books = (lit "b", record { company_id = lit "c"; code = lit "GJ"; deleted = false }) ∷ [];
}

validate_lines_iff_example : (validate_lines sheet ≡ ok tt) ↔ IsBalanced sheet
validate_lines_iff_example = validate_lines_iff sheet

book-AreEntered : AreEntered book
unfolding find validate_lines check_from check_line is_empty trim_space is_space round2
book-AreEntered id e h = elim (Bool-cases (lit "e" ≐ id)) [
  | inl same ↦
      subst IsEntered (some-injective _ _ (rw same at h))
        (record { valid = refl; debit_eq = refl; credit_eq = refl })
  | inr other ↦ cc (rw other at h)
]

abbrev collation : Collation
collation = record { lower = λ s. s; upper = λ s. s; equal_fold = ◌≐◌ }

abbrev again : JournalDto ℤ
again = record {
  journal_book_id = lit "b";
  number = lit "";
  description = lit " rent ";
  date = lit "2026-03-10";
  idempotency_key = lit "k1";
  lines = sheet;
}

sheet_whole : All IsWholeLine sheet
unfolding round2
sheet_whole = ((refl, refl), ((refl, refl), tt))

calls-AreEntered_example : AreEntered (
    after_journal_calls collation
      (add_entry (lit "c") (lit "e2") again
        ∷ post_entry (lit "c") (lit "e2")
        ∷ edit_entry (lit "c") (lit "e") again
        ∷ [])
      book)
unfolding round2
calls-AreEntered_example =
    calls-AreEntered collation
      (add_entry (lit "c") (lit "e2") again
        ∷ post_entry (lit "c") (lit "e2")
        ∷ edit_entry (lit "c") (lit "e") again
        ∷ [])
      book (sheet_whole, (tt, (sheet_whole, tt))) book-AreEntered

abbrev closed : JournalEntry ℤ
closed = record entry { status = posted }

abbrev closed_book : Db ℤ
closed_book = record book { entries = (lit "e", closed) ∷ [] }

-- The entry is balanced and its accounts are active, so it is posted.
entry_posted : (post (lit "c") (lit "e") book).0 ≡ ok (record entry { status = posted })
unfolding post find_by_id find_entry find update set_status validate_lines check_from check_line
    check_accounts_active account_ids active_count is_empty trim_space is_space ◌≐◌ ◌>>=◌
entry_posted = refl

abbrev new_book : Db ℤ
new_book = record book { entries = [] }

abbrev made_of : Result (JournalError ℤ) (JournalEntry ℤ) → JournalEntry ℤ
made_of (ok e) = e
made_of (err x) = entry

k1_keyed : is_empty (lit "k1") ≡ false
unfolding is_empty
k1_keyed = refl

k1_made :
    (create_entry collation (lit "e2") (lit "c") again new_book).0
    ≡ ok (made_of (create_entry collation (lit "e2") (lit "c") again new_book).0)
unfolding create_entry existing_entry find_by_idempotency_key create_checked ◌>>=◌ validate_lines
    check_from check_line check_accounts_active active_count ◌≐◌ account_ids create_journal_entry
    parse_date enter_entry is_free_key find_by_id days_in is_digit is_leap book_code
    build_journal_lines entry_number_taken entry_numbers generate_journal_entry_number max_trailing
    next_sequence padded_2 padded_3 stored_journal_lines find_entry round2 atoi decimal decimal_fuel
    digits_value last split unsigned trim_ptr find insert rows has_prefix trim_left is_empty
    trim_space is_space key_holders
k1_made = refl

create_once_example :
    let d =
      after_journal_calls collation
        (drop_entry (lit "c") (lit "e2") ∷ add_entry (lit "c") (lit "e3") again ∷ [])
        (create_entry collation (lit "e2") (lit "c") again new_book).1 in
    IsReplay (lit "c") (lit "k1") (lit "e2") d (create_entry collation (lit "e4") (lit "c") again d)
unfolding is_empty trim_space is_space key_holders
create_once_example =
    create_once (lit "c") (lit "k1") (lit "e2") k1_keyed collation new_book again
      (made_of (create_entry collation (lit "e2") (lit "c") again new_book).0)
      (drop_entry (lit "c") (lit "e2") ∷ add_entry (lit "c") (lit "e3") again ∷ []) (lit "e4") again
      refl refl k1_made refl

closed_found : find_entry closed_book (lit "c") (lit "e") ≡ some closed
unfolding find_entry find ◌≐◌
closed_found = refl

-- The entry is asked to change, to go and to be posted again, and another one is made.
posted_stays_example :
    let d = after_journal_call collation (edit_entry (lit "c") (lit "e") again) (
      after_journal_call collation
        (add_entry (lit "c") (lit "e2") again)
        (after_journal_call collation (drop_entry (lit "c") (lit "e")) closed_book)) in
    find_entry d (lit "c") (lit "e") ≡ some closed
unfolding find ◌≐◌ delete_entry find_by_id find_entry ◌>>=◌
posted_stays_example =
    let dropped = after_journal_call collation (drop_entry (lit "c") (lit "e")) closed_book in
    let added = after_journal_call collation (add_entry (lit "c") (lit "e2") again) dropped in
    posted_stays collation (lit "c") (lit "e") closed closed_book
      (after_journal_call collation (edit_entry (lit "c") (lit "e") again) added) refl closed_found
      (continues added (edit_entry (lit "c") (lit "e") again)
        (continues dropped (add_entry (lit "c") (lit "e2") again)
          (continues closed_book (drop_entry (lit "c") (lit "e")) starts tt) refl)
        tt)
