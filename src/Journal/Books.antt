-- ===== src/Journal/Books.antt =====
-- The double-entry rules over the calls of app/service/journal.service.go, one by one.
use invoicing_be.Base.{
  ◌≡◌, if◌then◌else◌, refl, sym, ◌∙◌, ap, true, false, none, some, arith, Result, ok, err,
  Option-cases, Bool-cases, All, inl, inr,
}
use invoicing_be.Text.{trim_space, is_empty, Text, ≐_iff, ≐-refl}
use invoicing_be.Calendar.{Date}
use invoicing_be.Money.{Float}
use invoicing_be.Store.{Collation, or_fail, or_fail-store, guard-store}
use invoicing_be.Store.Table.{find, find-insert, find-update}
use invoicing_be.Store.Rows.{Rows-insert}
use invoicing_be.Store.Outcome.{
  Outcome, Done, Reads, Outcome-read, Outcome-after, Outcome-enter, Outcome-then, Outcome-only,
  Outcome-found, Done-read,
}
use invoicing_be.Journal.{
  JournalEntry, JournalEntryStatus, draft, posted, Db, JournalError, validate_lines, find_entry,
  change_entry, find_by_id, set_status, post, back_to_draft, delete_entry, not_found, duplicate_key,
}
use invoicing_be.Journal.Posted.{find_entry-eq, find_by_id-store, find_by_id-eq-ok}
use invoicing_be.Journal.Save.{
  JournalDto, new_entry, rewrite_entry, save_entry, existing_entry, is_free_key, enter_entry,
  create_journal_entry, reenter_entry, update_journal_entry, create_checked, create_entry,
  update_entry, without_lines, generate_journal_entry_number,
}
use invoicing_be.Journal.Entered.{
  IsEntered, AreEntered, IsWholeLine, new_entry-IsEntered, rewrite_entry-IsEntered, entered_change,
}

module _ {ℓ} {W : Type ℓ} ⦃f : Float W⦄ where
  with_status-IsEntered :
      (e : JournalEntry W) (status : JournalEntryStatus)
      → IsEntered e
      → IsEntered (record e { status = status })
  with_status-IsEntered e status p = record {
    valid = p.valid;
    debit_eq = p.debit_eq;
    credit_eq = p.credit_eq;
  }

  deleted-IsEntered : (e : JournalEntry W) → IsEntered e → IsEntered (record e { deleted = true })
  deleted-IsEntered e p = record { valid = p.valid; debit_eq = p.debit_eq; credit_eq = p.credit_eq }

  pub find_entry-live :
      (db : Db W) (company id : Text) (e : JournalEntry W)
      → find_entry db company id ≡ some e
      → (e.company_id ≡ company) × (e.deleted ≡ false)
  unfolding find_entry
  find_entry-live db company id e h =
      let found = find_entry-eq db company id e h in
      (ground (arith, h, found, ≐_iff e.company_id company), ground (arith, h, found))

  pub find_entry-some :
      (db : Db W) (company id : Text) (e : JournalEntry W)
      → find db.entries id ≡ some e
      → e.company_id ≡ company
      → e.deleted ≡ false
      → find_entry db company id ≡ some e
  unfolding find_entry
  find_entry-some db company id e found own live = ground (arith, found, own, live, ≐-refl company)

  find_by_id-Reads :
      (db : Db W) (company id : Text) (e : JournalEntry W)
      → find_entry db company id ≡ some e
      → Reads (find_by_id company id) db
  unfolding find_by_id
  find_by_id-Reads db company id e there = (e, ap (λ o. or_fail (not_found id) o db) there)

  pub changed-Reads :
      (db : Db W) (company id : Text) (g : JournalEntry W → JournalEntry W) (e : JournalEntry W)
      → find_entry db company id ≡ some e
      → (g e).company_id ≡ e.company_id
      → (g e).deleted ≡ e.deleted
      → Reads (find_by_id company id) (change_entry id g db)
  changed-Reads db company id g e there same_company same_deleted =
      let found = find_entry-eq db company id e there in
      let (own, live) = find_entry-live db company id e there in
      find_by_id-Reads (change_entry id g db) company id (g e) (
        find_entry-some (change_entry id g db) company id (g e)
          (find-update id id g db.entries ∙ rw (≐-refl id, found) refl) (same_company ∙ own)
          (same_deleted ∙ live))

  set_status-Entered :
      (db : Db W) (company id : Text) (status : JournalEntryStatus)
      → AreEntered db
      → Outcome AreEntered db (set_status company id status db)
  unfolding set_status
  set_status-Entered db company id status entered =
      Outcome-read _ _ _ db (find_by_id-store company id db) λ e h.
        let found = find_entry-eq db company id e (find_by_id-eq-ok company id db e h) in
        entered_change db id _ e entered found (with_status-IsEntered e status (entered id e found))

  pub set_status-Reads :
      (db : Db W) (company id : Text) (status : JournalEntryStatus)
      → Done (Reads (find_by_id company id)) (set_status company id status db)
  unfolding set_status
  set_status-Reads db company id status = Done-read _ _ _ db (find_by_id-store company id db) λ e h.
      changed-Reads db company id (λ x. record x { status = status }) e
        (find_by_id-eq-ok company id db e h) refl refl

  pub post-Entered :
      (db : Db W) (company id : Text) → AreEntered db → Outcome AreEntered db (post company id db)
  unfolding post
  post-Entered db company id entered = Outcome-read _ _ _ db (find_by_id-store company id db) λ e _.
      Outcome-read _ _ _ db (guard-store _ _ db) λ _ _. Outcome-read _ _ _ db refl λ _ _.
        Outcome-read _ _ _ db refl λ _ _.
          Outcome-then _ _ _ db (set_status-Entered db company id posted entered)
            (set_status-Reads db company id posted)

  pub back_to_draft-Entered :
      (db : Db W) (company id : Text)
      → AreEntered db
      → Outcome AreEntered db (back_to_draft company id db)
  unfolding back_to_draft
  back_to_draft-Entered db company id entered =
      Outcome-read _ _ _ db (find_by_id-store company id db) λ e _.
        Outcome-read _ _ _ db (guard-store _ _ db) λ _ _.
          Outcome-then _ _ _ db (set_status-Entered db company id draft entered)
            (set_status-Reads db company id draft)

  pub delete_entry-Entered :
      (db : Db W) (company id : Text)
      → AreEntered db
      → Outcome AreEntered db (delete_entry company id db)
  unfolding delete_entry
  delete_entry-Entered db company id entered =
      Outcome-read _ _ _ db (find_by_id-store company id db) λ e h.
        Outcome-read _ _ _ db (guard-store _ _ db) λ _ _.
          let found = find_entry-eq db company id e (find_by_id-eq-ok company id db e h) in
          entered_change db id _ e entered found (deleted-IsEntered e (entered id e found))

  reenter-Done :
      (collation : Collation) (db : Db W) (company id : Text) (dto : JournalDto W) (date : Date)
      (old : JournalEntry W)
      → AreEntered db
      → find_entry db company id ≡ some old
      → All IsWholeLine dto.lines
      → validate_lines dto.lines ≡ ok tt
      → Done
          (λ d. AreEntered d × Reads (find_by_id company id) d)
          (reenter_entry collation company id dto date old db)
  unfolding reenter_entry
  reenter-Done collation db company id dto date old entered there whole valid =
      Done-read _ _ _ db refl λ asked _. Done-read _ _ _ db refl λ taken _.
        Done-read _ _ _ db (guard-store _ _ db) λ _ _. (
          entered_change db id (rewrite_entry dto _ date) old entered
              (find_entry-eq db company id old there)
              (rewrite_entry-IsEntered dto _ date old whole valid),
          changed-Reads db company id (rewrite_entry dto _ date) old there refl refl,
        )

  pub update_entry-Entered :
      (collation : Collation) (db : Db W) (company id : Text) (dto : JournalDto W)
      → AreEntered db
      → All IsWholeLine dto.lines
      → Outcome AreEntered db (update_entry collation company id dto db)
  unfolding update_entry update_journal_entry
  update_entry-Entered collation db company id dto entered whole =
      Outcome-read _ _ _ db (find_by_id-store company id db) λ _ _.
        Outcome-read _ _ _ db (guard-store _ _ db) λ _ _. Outcome-read _ _ _ db refl λ _ valid.
          Outcome-read _ _ _ db refl λ _ _.
            Outcome-read _ _ _ db (find_by_id-store company id db) λ old h.
              Outcome-read _ _ _ db (or_fail-store _ _ db) λ date _. Outcome-after _ _ _ db (
                reenter-Done collation db company id dto date old entered
                  (find_by_id-eq-ok company id db old h) whole valid)

  -- How the transaction of Create ends: with the entry that its key stands for, or a new one.
  pub enter_entry-replay :
      (collation : Collation) (db : Db W) (id company : Text) (dto : JournalDto W) (asked : Text)
      (date : Date) (key : Text) (there : Text × JournalEntry W)
      → existing_entry db company key ≡ some there
      → enter_entry collation id company dto asked date key db ≡ (ok there.0, db)
  unfolding enter_entry
  enter_entry-replay collation db id company dto asked date key there e = rw (e, enter_entry) refl

  pub enter_entry-new :
      (collation : Collation) (db : Db W) (id company : Text) (dto : JournalDto W) (asked : Text)
      (date : Date) (key : Text)
      → existing_entry db company key ≡ none
      → is_free_key db company key ≡ true
      → (number : Text) × (enter_entry collation id company dto asked date key db
          ≡ (ok id, save_entry id (new_entry company dto number date key) db))
  unfolding enter_entry
  enter_entry-new collation db id company dto asked date key e free = (
    if is_empty asked
        then generate_journal_entry_number collation db company dto.journal_book_id date
        else asked,
    rw (e, enter_entry, free) refl,
  )

  enter_entry-refused :
      (collation : Collation) (db : Db W) (id company : Text) (dto : JournalDto W) (asked : Text)
      (date : Date) (key : Text)
      → existing_entry db company key ≡ none
      → is_free_key db company key ≡ false
      → enter_entry collation id company dto asked date key db ≡ (err duplicate_key, db)
  unfolding enter_entry
  enter_entry-refused collation db id company dto asked date key e held =
      rw (e, enter_entry, held) refl

  pub saved-Reads :
      (db : Db W) (company id : Text) (e : JournalEntry W)
      → e.company_id ≡ company
      → e.deleted ≡ false
      → Reads (find_by_id company id) (save_entry id e db)
  saved-Reads db company id e own live = find_by_id-Reads (save_entry id e db) company id e (
      find_entry-some (save_entry id e db) company id e
        (find-insert id id e db.entries ∙ rw (≐-refl id) refl) own live)

  -- What the transaction of Create leaves behind satisfies `P`, where the old store and a store with
  -- the new entry do.
  pub create_journal_entry-Outcome :
      (P : Db W → Type ℓ) (collation : Collation) (db : Db W) (id company : Text)
      (dto : JournalDto W)
      → ((there : Text × JournalEntry W)
          → existing_entry db company (trim_space dto.idempotency_key) ≡ some there
          → P db)
      → ((number : Text) (date : Date)
          → is_free_key db company (trim_space dto.idempotency_key) ≡ true
          → P (
              save_entry id
                (new_entry company dto number date (trim_space dto.idempotency_key))
                db))
      → Outcome P db (create_journal_entry collation id company dto db)
  unfolding create_journal_entry
  create_journal_entry-Outcome P collation db id company dto old new =
      let key = trim_space dto.idempotency_key in
      Outcome-read _ _ _ db (or_fail-store _ _ db) λ date _. Outcome-read _ _ _ db refl λ taken _.
        Outcome-read _ _ _ db (guard-store _ _ db) λ _ _. Outcome-enter _ _ _ db λ entered d ended.
          elim (Option-cases (existing_entry db company key)) [
            | inr (there, e) ↦
                let replay = enter_entry-replay collation db id company dto _ date key there e in
                let same : d ≡ db =
                  ap (λ (r : Result (JournalError W) Text × Db W). r.1) (sym ended ∙ replay) in
                rw same (
                  Outcome-only P (find_by_id company entered) db
                    (find_by_id-store company entered db) (old there e))
            | inl e ↦ elim (Bool-cases (is_free_key db company key)) [
              | inr held ↦
                  let refused : enter_entry collation id company dto (trim_space dto.number) date
                        key db
                      ≡ (err duplicate_key, db) =
                    enter_entry-refused collation db id company dto _ date key e held in
                  absurd (
                    cc
                      (ap (λ (r : Result (JournalError W) Text × Db W). r.0) (sym ended ∙ refused)))
              | inl free ↦
                  let (number, fresh) =
                    enter_entry-new collation db id company dto _ date key e free in
                  let left : d ≡ save_entry id (new_entry company dto number date key) db =
                    ap (λ (r : Result (JournalError W) Text × Db W). r.1) (sym ended ∙ fresh) in
                  let made =
                    ap (λ (r : Result (JournalError W) Text × Db W). r.0) (sym ended ∙ fresh) in
                  let same : entered ≡ id = cc made in
                  rw (left, same)
                    (Outcome-found P (find_by_id company id) db
                      (save_entry id (new_entry company dto number date key) db)
                      (saved-Reads db company id (new_entry company dto number date key) refl refl)
                      (new number date free))
            ]
          ]

  pub create_entry-known :
      (collation : Collation) (db : Db W) (id company : Text) (dto : JournalDto W)
      (there : Text × JournalEntry W)
      → existing_entry db company (trim_space dto.idempotency_key) ≡ some there
      → create_entry collation id company dto db ≡ (ok (without_lines there.1), db)
  unfolding create_entry
  create_entry-known collation db id company dto there e = rw (e, create_entry) refl

  pub create_entry-unknown :
      (collation : Collation) (db : Db W) (id company : Text) (dto : JournalDto W)
      → existing_entry db company (trim_space dto.idempotency_key) ≡ none
      → create_entry collation id company dto db ≡ create_checked collation id company dto db
  unfolding create_entry
  create_entry-unknown collation db id company dto e = rw (e, create_entry) refl

  pub create_entry-Entered :
      (collation : Collation) (db : Db W) (id company : Text) (dto : JournalDto W)
      → AreEntered db
      → All IsWholeLine dto.lines
      → Outcome AreEntered db (create_entry collation id company dto db)
  unfolding create_checked
  create_entry-Entered collation db id company dto entered whole =
      elim (Option-cases (existing_entry db company (trim_space dto.idempotency_key))) [
        | inr (there, e) ↦ rw (create_entry-known collation db id company dto there e) entered
        | inl e ↦ rw (create_entry-unknown collation db id company dto e) (
            Outcome-read _ _ _ db refl λ _ valid. Outcome-read _ _ _ db refl λ _ _.
              create_journal_entry-Outcome AreEntered collation db id company dto (λ _ _. entered)
                λ number date free.
                  Rows-insert (λ _ x. IsEntered x) (λ _ x. IsEntered x) db.entries id _ entered
                    (new_entry-IsEntered company dto number date _ whole valid)
                    (λ j row other p. p))
      ]
