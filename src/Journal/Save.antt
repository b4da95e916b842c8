-- ===== src/Journal/Save.antt =====
-- app/service/journal.service.go and app/repository/journal.repository.go: saving a new entry, with
-- its idempotency key, and a changed one. The new ID (uuid) is an argument. A transaction is one
-- step here, so the unique index on the keys (app/model/index.go) never catches a race; but it covers
-- deleted entries too, and so refuses a key that a deleted entry has. The amounts' columns are
-- numeric(18,2): what is stored of an amount is rounded to cents.
use invoicing_be.Base.{
  ℕ, ◌+◌, ◌^◌, Bool, false, not, ◌&&◌, ◌||◌, Option, none, some, List, [], ◌∷◌, ◌++◌, if◌then◌else◌,
  ltb, ◌==◌, ok, err,
}
use invoicing_be.Text.{Text, lit, ◌≐◌, is_empty, trim_space, has_prefix}
use invoicing_be.Calendar.{Date, parse_date}
use invoicing_be.Numbering.{split, last, atoi, larger, decimal}
use invoicing_be.LineCalc.Stored.{is_nil}
use invoicing_be.Money.{Float, ◌⊕◌, round2}
use invoicing_be.Store.{
  Action, gets, or_fail, guard, modify, lift, transaction, Collation, ◌>>=◌, ◌>>◌,
}
use invoicing_be.Store.Table.{Table, find, insert, remove, rows}
use invoicing_be.Sales.Model.{trim_ptr}
use invoicing_be.Sales.Receipt.{any, keep}
use invoicing_be.Journal.{
  JournalEntry, JournalLine, JournalBook, draft, is_posted, Db, JournalError, bad_date,
  number_exists, duplicate_key, posted_immutable, validate_lines, check_accounts_active,
  change_entry, find_by_id,
}

-- CreateDTO; UpdateDTO is the same without the key. A line's fields are those of a journal line.
pub record JournalDto {ℓ} (W : Type ℓ) : Type ℓ where
  pub journal_book_id : Text
  pub number : Text
  pub description : Text
  pub date : Text
  pub idempotency_key : Text
  pub lines : List (JournalLine W)

-- %03d of an int that is not negative
unfoldable pub padded_3 : ℕ → Text
padded_3 n =
    if ltb n 10 then b'0' ∷ b'0' ∷ decimal n else if ltb n 100 then b'0' ∷ decimal n else decimal n

-- %02d
unfoldable pub padded_2 : ℕ → Text
padded_2 n = if ltb n 10 then b'0' ∷ decimal n else decimal n

-- The loop of nextSequence.
unfoldable pub max_trailing : ℕ → List Text → ℕ
max_trailing m [] = m
max_trailing m (ref ∷ refs) = max_trailing (larger (atoi (last (split b'-' ref))) m) refs

-- %03d of nextSequence, which wraps at the greatest int
unfoldable pub next_sequence : List Text → Text
next_sequence refs =
    let m = max_trailing 0 refs in
    if m + 1 == 2 ^ 63 then lit "-9223372036854775808" else padded_3 (m + 1)

-- The code of a book of the company, "GJ" where there is none.
unfoldable pub book_code : Table JournalBook → Text → Text → Text
book_code books company id = elim (find books id) [
  | none ↦ lit "GJ"
  | some b ↦
      if (b.company_id ≐ company) && not b.deleted && not (is_empty b.code)
      then b.code
      else lit "GJ"
]

module _ {ℓ} {W : Type ℓ} where
  -- The company's entries that are not deleted, by number.
  unfoldable pub entry_numbers : Text → List (JournalEntry W) → List Text
  entry_numbers company [] = []
  entry_numbers company (e ∷ es) =
      let rest = entry_numbers company es in
      if (e.company_id ≐ company) && not e.deleted then e.number ∷ rest else rest

  -- The first entry of the company with this key, with its ID; the callers have tested that the
  -- key is not blank.
  unfoldable pub find_by_idempotency_key :
      Table (JournalEntry W) → Text → Text → Option (Text × JournalEntry W)
  find_by_idempotency_key [] company key = none
  find_by_idempotency_key ((id, e) ∷ t) company key =
      let rest = find_by_idempotency_key t company key in
      if (e.company_id ≐ company) && (e.idempotency_key ≐ key) && not e.deleted
      then some (id, e)
      else rest

  -- The entry that an idempotency key stands for already.
  unfoldable pub existing_entry : Db W → Text → Text → Option (Text × JournalEntry W)
  existing_entry db company key =
      if is_empty key then none else find_by_idempotency_key db.entries company key

  -- The company's entries with this key, deleted or not, by ID: the rows that the unique index looks
  -- at.
  unfoldable pub key_holders : Table (JournalEntry W) → Text → Text → List Text
  key_holders [] company key = []
  key_holders ((id, e) ∷ t) company key =
      let rest = key_holders t company key in
      if (e.company_id ≐ company) && (e.idempotency_key ≐ key) then id ∷ rest else rest

  -- The index lets a new entry with this key in.
  unfoldable pub is_free_key : Db W → Text → Text → Bool
  is_free_key db company key = is_empty key || is_nil (key_holders db.entries company key)

  -- An entry whose lines are not loaded.
  abbrev pub without_lines : JournalEntry W → JournalEntry W
  without_lines e = record e { lines = [] }

  abbrev pub save_entry : Text → JournalEntry W → Db W → Db W
  save_entry id e db = record db { entries = insert id e db.entries }

module _ {ℓ} {W : Type ℓ} (collation : Collation) where
  open collation use {lower, upper}

  -- generateJournalEntryNumber, for a book whose code has none of LIKE's wildcards
  unfoldable pub generate_journal_entry_number : Db W → Text → Text → Date → Text
  generate_journal_entry_number db company book date =
      let code = upper (book_code db.books company book) in
      let period = padded_2 date.month ++ decimal date.year in
      let prefix = lit "JE-" ++ (code ++ (b'-' ∷ (period ++ (b'-' ∷ [])))) in
      prefix
      ++ next_sequence (keep (λ n. has_prefix n prefix) (entry_numbers company (rows db.entries)))

  -- numberExists
  unfoldable pub entry_number_taken : Db W → Text → Text → Bool
  entry_number_taken db company number =
      any (λ n. lower n ≐ lower number) (entry_numbers company (rows db.entries))

  -- The same, but for the entry itself.
  unfoldable pub entry_number_taken_by_other : Db W → Text → Text → Text → Bool
  entry_number_taken_by_other db company number id =
      any (λ n. lower n ≐ lower number) (entry_numbers company (rows (remove id db.entries)))

module _ {ℓ} {W : Type ℓ} ⦃f : Float W⦄ where
  -- buildJournalLines: the lines, and the totals so far with theirs.
  unfoldable pub build_journal_lines : W → W → List (JournalLine W) → List (JournalLine W) × W × W
  build_journal_lines debit credit [] = ([], debit, credit)
  build_journal_lines debit credit (l ∷ ls) =
      let (rest, total_debit, total_credit) =
        build_journal_lines (debit ⊕ l.debit) (credit ⊕ l.credit) ls in
      (
        record {
          account_id = l.account_id;
          mitra_id = trim_ptr l.mitra_id;
          description = trim_space l.description;
          debit = l.debit;
          credit = l.credit;
        }
            ∷ rest,
        total_debit,
        total_credit,
      )

  -- The lines as their columns hold them.
  unfoldable pub stored_journal_lines : List (JournalLine W) → List (JournalLine W)
  stored_journal_lines [] = []
  stored_journal_lines (l ∷ ls) =
      (record l { debit = round2 l.debit; credit = round2 l.credit }) ∷ stored_journal_lines ls

  -- The row of a new entry.
  abbrev pub new_entry : Text → JournalDto W → Text → Date → Text → JournalEntry W
  new_entry company dto number date key =
      let (lines, total_debit, total_credit) = build_journal_lines f.nought f.nought dto.lines in
      record {
        company_id = company;
        journal_book_id = dto.journal_book_id;
        number = number;
        description = trim_space dto.description;
        date = date;
        status = draft;
        idempotency_key = key;
        total_debit = round2 total_debit;
        total_credit = round2 total_credit;
        lines = stored_journal_lines lines;
        deleted = false;
      }

  -- The columns that Update writes, with the lines.
  abbrev pub rewrite_entry : JournalDto W → Text → Date → JournalEntry W → JournalEntry W
  rewrite_entry dto number date e =
      let (lines, total_debit, total_credit) = build_journal_lines f.nought f.nought dto.lines in
      record e {
        journal_book_id = dto.journal_book_id;
        number = number;
        description = trim_space dto.description;
        date = date;
        total_debit = round2 total_debit;
        total_credit = round2 total_credit;
        lines = stored_journal_lines lines;
      }

module _ {ℓ} {W : Type ℓ} ⦃f : Float W⦄ (collation : Collation) where
  open collation use {equal_fold, upper}

  -- The transaction of Create: the ID of the entry that the key stands for, or of a new one.
  unfoldable pub enter_entry :
      Text → Text → JournalDto W → Text → Date → Text → Action (Db W) (JournalError W) Text
  enter_entry id company dto asked date key db = elim (existing_entry db company key) [
    | some there ↦ (ok there.0, db)
    | none ↦
        (let number =
            (if is_empty asked
              then generate_journal_entry_number collation db company dto.journal_book_id date
              else asked) in
          if is_free_key db company key
          then (ok id, save_entry id (new_entry company dto number date key) db)
          else (err duplicate_key, db))
  ]

  -- JournalRepository.Create
  unfoldable pub create_journal_entry :
      Text → Text → JournalDto W → Action (Db W) (JournalError W) (JournalEntry W)
  create_journal_entry id company dto = do
    date ← or_fail bad_date (parse_date (trim_space dto.date))
    let number = trim_space dto.number
    taken ← gets λ (db : Db W). entry_number_taken collation db company number
    guard (is_empty number || not taken) (number_exists number)
    entered ← transaction (enter_entry id company dto number date (trim_space dto.idempotency_key))
    find_by_id company entered

  -- The transaction of Update.
  unfoldable pub reenter_entry :
      Text → Text → JournalDto W → Date → JournalEntry W → Action (Db W) (JournalError W) (Unit {0})
  reenter_entry company id dto date existing = do
    let number = trim_space dto.number
    let book_changed =
        (not (is_empty dto.journal_book_id) && not (dto.journal_book_id ≐ existing.journal_book_id))
    let period_changed =
        (not (date.year == existing.date.year) || not (date.month == existing.date.month))
    let looks_generated = (is_empty number || has_prefix (upper number) (lit "JE-"))
    asked ← gets λ (db : Db W).
        if (book_changed || period_changed) && looks_generated
        then generate_journal_entry_number collation db company dto.journal_book_id date
        else number
    let n = (if is_empty asked then existing.number else asked)
    taken ← gets λ (db : Db W). entry_number_taken_by_other collation db company n id
    guard (equal_fold n existing.number || not taken) (number_exists n)
    modify (change_entry id (rewrite_entry dto n date))

  -- JournalRepository.Update
  unfoldable pub update_journal_entry :
      Text → Text → JournalDto W → Action (Db W) (JournalError W) (JournalEntry W)
  update_journal_entry company id dto = do
    existing ← find_by_id company id
    date ← or_fail bad_date (parse_date (trim_space dto.date))
    transaction (reenter_entry company id dto date existing)
    find_by_id company id

  -- What Create does where the key is new.
  unfoldable pub create_checked :
      Text → Text → JournalDto W → Action (Db W) (JournalError W) (JournalEntry W)
  create_checked id company dto = do
    lift (validate_lines dto.lines)
    (λ (db : Db W). lift (check_accounts_active company dto.lines db) db)
    create_journal_entry id company dto

  -- JournalService.Create
  unfoldable pub create_entry :
      Text → Text → JournalDto W → Action (Db W) (JournalError W) (JournalEntry W)
  create_entry id company dto db =
      elim (existing_entry db company (trim_space dto.idempotency_key)) [
        | some there ↦ (ok (without_lines there.1), db)
        | none ↦ create_checked id company dto db
      ]

  -- JournalService.Update
  unfoldable pub update_entry :
      Text → Text → JournalDto W → Action (Db W) (JournalError W) (JournalEntry W)
  update_entry company id dto = do
    existing ← find_by_id company id
    guard (not (is_posted existing.status)) posted_immutable
    lift (validate_lines dto.lines)
    (λ (db : Db W). lift (check_accounts_active company dto.lines db) db)
    update_journal_entry company id dto
