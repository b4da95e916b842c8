-- ===== src/Journal/Posted.antt =====
-- Posted entries and what validateLines says of them.
use invoicing_be.Base.{◌≡◌, refl, sym, ◌∙◌, not, some, arith, ok}
use mathlib.Core.Option.{some-injective}
use mathlib.Core.Path.{subst}
use invoicing_be.Text.{Text}
use invoicing_be.Money.{Float}
use invoicing_be.Store.{
  guard, lift, after_read, before_read, or_fail-store, or_fail-eq-ok, guard-store,
}
use invoicing_be.Store.Table.{find}
use invoicing_be.Store.Rows.{Rows-update}
use invoicing_be.Journal.{
  JournalEntry, JournalEntryStatus, draft, posted, is_posted, Db, validate_lines, find_entry,
  change_entry, find_by_id, set_status, post, back_to_draft, delete_entry, check_accounts_active,
  not_draft, not_posted, posted_immutable,
}

module _ {ℓ} {W : Type ℓ} ⦃f : Float W⦄ where
  -- An entry that is posted passes the double-entry rules.
  abbrev pub IsSoundEntry : JournalEntry W → Type ℓ
  IsSoundEntry e = e.status ≡ posted → validate_lines e.lines ≡ ok tt

  abbrev pub IsSound : Db W → Type ℓ
  IsSound db = (id : Text) (e : JournalEntry W) → find db.entries id ≡ some e → IsSoundEntry e

  -- A change of one entry that leaves it sound.
  IsSound-change :
      (db : Db W) (id : Text) (g : JournalEntry W → JournalEntry W) (e : JournalEntry W)
      → IsSound db
      → find db.entries id ≡ some e
      → IsSoundEntry (g e)
      → IsSound (change_entry id g db)
  IsSound-change db id g e sound found here =
      Rows-update (λ j. IsSoundEntry) (λ j. IsSoundEntry) db.entries id g e sound found here
        (λ j row other p. p)

  pub find_entry-eq :
      (db : Db W) (company id : Text) (e : JournalEntry W)
      → find_entry db company id ≡ some e
      → find db.entries id ≡ some e
  unfolding find_entry
  find_entry-eq db company id e h = ground arith

  pub find_by_id-store : (company id : Text) (db : Db W) → (find_by_id company id db).1 ≡ db
  unfolding find_by_id
  find_by_id-store company id db = or_fail-store _ _ db

  pub find_by_id-eq-ok :
      (company id : Text) (db : Db W) (e : JournalEntry W)
      → (find_by_id company id db).0 ≡ ok e
      → find_entry db company id ≡ some e
  unfolding find_by_id
  find_by_id-eq-ok company id db e h = or_fail-eq-ok _ _ e db h

  set_status-IsSound :
      (db : Db W) (company id : Text) (status : JournalEntryStatus)
      → IsSound db
      → ((e : JournalEntry W)
          → find_entry db company id ≡ some e
          → status ≡ posted
          → validate_lines e.lines ≡ ok tt)
      → IsSound (set_status company id status db).1
  unfolding set_status
  set_status-IsSound db company id status sound fits =
      after_read IsSound (find_by_id company id) _ db (find_by_id-store company id db) sound λ e h.
        let found = find_by_id-eq-ok company id db e h in
        IsSound-change db id _ e sound (find_entry-eq db company id e found) (fits e found)

  -- When every posted entry of the journal passes validateLines, this still holds after a call
  -- of Post, whatever its outcome.
  pub post-IsSound : (db : Db W) (company id : Text) → IsSound db → IsSound (post company id db).1
  unfolding post
  post-IsSound db company id sound =
      after_read IsSound (find_by_id company id) _ db (find_by_id-store company id db) sound λ e h.
        after_read IsSound (guard (not (is_posted e.status)) not_draft) _ db (guard-store _ _ db)
          sound
          λ _ _. after_read IsSound (lift (validate_lines e.lines)) _ db refl sound λ _ valid.
            after_read IsSound (λ (d : Db W). lift (check_accounts_active company e.lines d) d) _ db
              refl sound
              λ _ _.
                before_read IsSound (set_status company id posted) _ db
                  (set_status-IsSound db company id posted sound λ e' found' _.
                    subst (λ (x : JournalEntry W). validate_lines x.lines ≡ ok tt)
                      (some-injective _ _ (sym (find_by_id-eq-ok company id db e h) ∙ found'))
                      valid)
                  (λ _ d. find_by_id-store company id d)

  -- When every posted entry of the journal passes validateLines, this still holds after a call
  -- of BackToDraft, whatever its outcome.
  pub back_to_draft-IsSound :
      (db : Db W) (company id : Text) → IsSound db → IsSound (back_to_draft company id db).1
  unfolding back_to_draft
  back_to_draft-IsSound db company id sound =
      after_read IsSound (find_by_id company id) _ db (find_by_id-store company id db) sound λ e h.
        after_read IsSound (guard (is_posted e.status) not_posted) _ db (guard-store _ _ db) sound
          λ _ _.
            before_read IsSound (set_status company id draft) _ db
              (set_status-IsSound db company id draft sound λ e' found' is. ground arith)
              (λ _ d. find_by_id-store company id d)

  -- When every posted entry of the journal passes validateLines, this still holds after a call
  -- of Delete, whatever its outcome.
  pub delete_entry-IsSound :
      (db : Db W) (company id : Text) → IsSound db → IsSound (delete_entry company id db).1
  unfolding delete_entry
  delete_entry-IsSound db company id sound =
      after_read IsSound (find_by_id company id) _ db (find_by_id-store company id db) sound λ e h.
        after_read IsSound (guard (not (is_posted e.status)) posted_immutable) _ db
          (guard-store _ _ db) sound
          λ _ _.
            let there = find_entry-eq db company id e (find_by_id-eq-ok company id db e h) in
            IsSound-change db id _ e sound there (sound id e there)
