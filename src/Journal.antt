-- ===== src/Journal.antt =====
-- app/service/journal.service.go: the double-entry rules and the lifecycle of a journal entry, with
-- the methods of app/repository/journal.repository.go that they call.
pub mod Save
pub mod Posted
pub mod Entered
pub mod Books
pub mod Calls
pub mod Keys
pub mod Immutable
pub mod Balanced
pub mod Tests
use invoicing_be.Base.{
  ℕ, ◌+◌, ◌-◌, Bool, true, false, not, ◌&&◌, ◌||◌, Option, none, some, List, [], ◌∷◌, if◌then◌else◌,
  ltb, ◌==◌, length, Result, ok, err, and_then, require,
}
use invoicing_be.Text.{Text, ◌≐◌, is_empty, trim_space}
use invoicing_be.Calendar.{Date}
use invoicing_be.Money.{Float, ◌⊕◌, ◌⊖◌, ◌≺◌, ◌≼◌}
use invoicing_be.Store.{Action, or_fail, guard, modify, lift, ◌>>=◌, ◌>>◌}
use invoicing_be.Store.Table.{Table, find, update}
use invoicing_be.Sales.Receipt.{contains}

pub data JournalEntryStatus : Type 0 where
  draft posted : JournalEntryStatus

abbrev pub is_posted : JournalEntryStatus → Bool
is_posted posted = true
is_posted draft = false

pub record JournalLine {ℓ} (W : Type ℓ) : Type ℓ where
  pub account_id : Text
  pub mitra_id : Option Text
  pub description : Text
  pub debit : W
  pub credit : W

pub record JournalEntry {ℓ} (W : Type ℓ) : Type ℓ where
  pub company_id : Text
  pub journal_book_id : Text
  pub number : Text
  pub description : Text
  pub date : Date
  pub status : JournalEntryStatus
  pub idempotency_key : Text
  pub total_debit : W
  pub total_credit : W
  pub lines : List (JournalLine W)
  pub deleted : Bool

pub record Account : Type 0 where
  pub company_id : Text
  pub is_active : Bool
  pub deleted : Bool

pub record JournalBook : Type 0 where
  pub company_id : Text
  pub code : Text
  pub deleted : Bool

pub record Db {ℓ} (W : Type ℓ) : Type ℓ where
  pub entries : Table (JournalEntry W)
  pub accounts : Table Account
  pub books : Table JournalBook

pub data JournalError {ℓ} (W : Type ℓ) : Type ℓ where
  not_found : Text → JournalError W
  bad_date : JournalError W  -- ErrValidation
  number_exists : Text → JournalError W
  duplicate_key : JournalError W  -- the unique index on the keys, wrapped
  too_few_lines : JournalError W  -- ErrValidation, as the next four
  no_account : ℕ → JournalError W
  both_sides : ℕ → JournalError W
  no_side : ℕ → JournalError W
  zero_total : JournalError W
  unbalanced : W → W → JournalError W
  account_inactive : JournalError W
  posted_immutable : JournalError W
  not_draft : JournalError W
  not_posted : JournalError W

module _ {ℓ} {W : Type ℓ} ⦃f : Float W⦄ where
  -- The tests of validateLines on the line with this number.
  unfoldable pub check_line : ℕ → JournalLine W → Result (JournalError W) (Unit {0})
  check_line n l =
      let has_debit = f.nought ≺ l.debit in
      let has_credit = f.nought ≺ l.credit in
      and_then (require (not (is_empty (trim_space l.account_id))) (no_account n)) λ _.
        and_then (require (not (has_debit && has_credit)) (both_sides n))
          λ _. require (has_debit || has_credit) (no_side n)

  -- The loop of validateLines; the totals are those so far.
  unfoldable pub check_from : ℕ → W → W → List (JournalLine W) → Result (JournalError W) (W × W)
  check_from n debit credit [] = ok (debit, credit)
  check_from n debit credit (l ∷ ls) =
      let rest = check_from (n + 1) (debit ⊕ l.debit) (credit ⊕ l.credit) ls in
      and_then (check_line n l) λ _. rest

  unfoldable pub validate_lines : List (JournalLine W) → Result (JournalError W) (Unit {0})
  validate_lines ls = and_then (require (not (ltb (length ls) 2)) too_few_lines) λ _.
      and_then (check_from 1 f.nought f.nought ls) λ (debit, credit).
        and_then (require (not (debit ≼ f.nought)) zero_total)
          λ _. require (not (f.epsilon ≺ f.abs (debit ⊖ credit))) (unbalanced debit credit)

module _ {ℓ} {W : Type ℓ} where
  -- The loop of checkAccountsActive that collects the accounts; `ids` are those so far.
  unfoldable pub account_ids : List Text → List (JournalLine W) → List Text
  account_ids ids [] = ids
  account_ids ids (l ∷ ls) =
      if is_empty l.account_id || contains ids l.account_id
      then account_ids ids ls
      else account_ids (l.account_id ∷ ids) ls

-- How many of these accounts are the company's, and active.
unfoldable pub active_count : Text → List Text → Table Account → ℕ
active_count company ids [] = 0
active_count company ids ((id, a) ∷ t) =
    let rest = active_count company ids t in
    if (a.company_id ≐ company) && contains ids id && a.is_active && not a.deleted
    then rest + 1
    else rest

module _ {ℓ} {W : Type ℓ} where
  -- checkAccountsActive, with AccountsActive
  unfoldable pub check_accounts_active :
      Text → List (JournalLine W) → Db W → Result (JournalError W) (Unit {0})
  check_accounts_active company ls db =
      let ids = account_ids [] ls in
      require (active_count company ids db.accounts == length ids) account_inactive

  unfoldable pub find_entry : Db W → Text → Text → Option (JournalEntry W)
  find_entry db company id = elim (find db.entries id) [
    | none ↦ none
    | some e ↦ if (e.company_id ≐ company) && not e.deleted then some e else none
  ]

  abbrev pub change_entry : Text → (JournalEntry W → JournalEntry W) → Db W → Db W
  change_entry id g db = record db { entries = update id g db.entries }

  unfoldable pub find_by_id : Text → Text → Action (Db W) (JournalError W) (JournalEntry W)
  find_by_id company id db = or_fail (not_found id) (find_entry db company id) db

  -- JournalRepository.SetStatus
  unfoldable pub set_status :
      Text → Text → JournalEntryStatus → Action (Db W) (JournalError W) (Unit {0})
  set_status company id status = do
    found ← find_by_id company id
    modify (change_entry id λ e. record e { status = status })

  -- JournalService.BackToDraft
  unfoldable pub back_to_draft : Text → Text → Action (Db W) (JournalError W) (JournalEntry W)
  back_to_draft company id = do
    entry ← find_by_id company id
    guard (is_posted entry.status) not_posted
    set_status company id draft
    find_by_id company id

  -- JournalService.Delete
  unfoldable pub delete_entry : Text → Text → Action (Db W) (JournalError W) (Unit {0})
  delete_entry company id = do
    entry ← find_by_id company id
    guard (not (is_posted entry.status)) posted_immutable
    modify (change_entry id λ e. record e { deleted = true })

module _ {ℓ} {W : Type ℓ} ⦃f : Float W⦄ where
  -- JournalService.Post
  unfoldable pub post : Text → Text → Action (Db W) (JournalError W) (JournalEntry W)
  post company id = do
    entry ← find_by_id company id
    guard (not (is_posted entry.status)) not_draft
    lift (validate_lines entry.lines)
    (λ (db : Db W). lift (check_accounts_active company entry.lines db) db)
    set_status company id posted
    find_by_id company id
