-- ===== src/Journal/Calls.antt =====
-- Sequences of calls of the journal's service.
use invoicing_be.Base.{All, List, [], ◌∷◌, Result, ok, err}
use invoicing_be.Text.{Text}
use invoicing_be.Money.{Float}
use invoicing_be.Store.{Collation}
use invoicing_be.Store.Outcome.{Outcome}
use invoicing_be.Journal.{Db, JournalError, post, back_to_draft, delete_entry}
use invoicing_be.Journal.Save.{JournalDto, create_entry, update_entry}
use invoicing_be.Journal.Entered.{AreEntered, IsWholeLine}
use invoicing_be.Journal.Books.{
  create_entry-Entered, update_entry-Entered, post-Entered, back_to_draft-Entered,
  delete_entry-Entered,
}

-- A call of the journal's service; the texts are the company and the ID, new or old.
pub data JournalCall {ℓ} (W : Type ℓ) : Type ℓ where
  add_entry : Text → Text → JournalDto W → JournalCall W
  edit_entry : Text → Text → JournalDto W → JournalCall W
  post_entry : Text → Text → JournalCall W
  reopen_entry : Text → Text → JournalCall W
  drop_entry : Text → Text → JournalCall W

module _ {ℓ} {W : Type ℓ} ⦃f : Float W⦄ (collation : Collation) where
  -- The database after a call, whatever its outcome.
  abbrev pub after_journal_call : JournalCall W → Db W → Db W
  after_journal_call (add_entry company id dto) db = (create_entry collation id company dto db).1
  after_journal_call (edit_entry company id dto) db = (update_entry collation company id dto db).1
  after_journal_call (post_entry company id) db = (post company id db).1
  after_journal_call (reopen_entry company id) db = (back_to_draft company id db).1
  after_journal_call (drop_entry company id) db = (delete_entry company id db).1

  abbrev pub after_journal_calls : List (JournalCall W) → Db W → Db W
  after_journal_calls [] db = db
  after_journal_calls (call ∷ calls) db = after_journal_calls calls (after_journal_call call db)

  whatever {κ} :
      {A : Type κ} (db : Db W) (r : Result (JournalError W) A × Db W)
      → AreEntered db
      → Outcome AreEntered db r
      → AreEntered r.1
  whatever db (ok a, d) entered h = h
  whatever db (err e, d) entered h = rw h entered

  -- The amounts that the call enters are whole numbers of cents.
  abbrev pub IsWholeCall : JournalCall W → Type ℓ
  IsWholeCall (add_entry company id dto) = All IsWholeLine dto.lines
  IsWholeCall (edit_entry company id dto) = All IsWholeLine dto.lines
  IsWholeCall (post_entry company id) = Unit
  IsWholeCall (reopen_entry company id) = Unit
  IsWholeCall (drop_entry company id) = Unit

  call-Entered :
      (call : JournalCall W) (db : Db W)
      → IsWholeCall call
      → AreEntered db
      → AreEntered (after_journal_call call db)
  call-Entered (add_entry company id dto) db whole entered =
      whatever db _ entered (create_entry-Entered collation db id company dto entered whole)
  call-Entered (edit_entry company id dto) db whole entered =
      whatever db _ entered (update_entry-Entered collation db company id dto entered whole)
  call-Entered (post_entry company id) db whole entered =
      whatever db _ entered (post-Entered db company id entered)
  call-Entered (reopen_entry company id) db whole entered =
      whatever db _ entered (back_to_draft-Entered db company id entered)
  call-Entered (drop_entry company id) db whole entered =
      whatever db _ entered (delete_entry-Entered db company id entered)

  -- When every entry of the journal passes validateLines and has its lines' sums, rounded to
  -- cents, as its totals, so it is after any sequence of calls of Create, Update, Post,
  -- BackToDraft and Delete, whatever their outcomes, if the debits and credits that Create and
  -- Update enter are whole numbers of cents, which the columns hold as they are.
  pub calls-AreEntered :
      (calls : List (JournalCall W)) (db : Db W)
      → All IsWholeCall calls
      → AreEntered db
      → AreEntered (after_journal_calls calls db)
  calls-AreEntered [] db whole entered = entered
  calls-AreEntered (call ∷ calls) db (here, whole) entered =
      calls-AreEntered calls (after_journal_call call db) whole (call-Entered call db here entered)
