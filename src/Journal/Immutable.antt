-- ===== src/Journal/Immutable.antt =====
-- What becomes of a posted entry over histories of calls.
use mathlib.Core.Option.{some-injective}
use invoicing_be.Base.{
  ◌≡◌, refl, sym, ◌∙◌, true, false, not, none, some, arith, Result, ok, err, Bool-cases,
  Option-cases, inl, inr,
}
use invoicing_be.Text.{Text, ◌≐◌, ≐→≡, trim_space}
use invoicing_be.Calendar.{Date}
use invoicing_be.Money.{Float}
use invoicing_be.Store.{Collation, guard-store, guard-eq-ok, or_fail-store}
use invoicing_be.Store.Table.{find, find-insert, find-update}
use invoicing_be.Store.Outcome.{
  Outcome, Done, Reads, Outcome-read, Outcome-then, Outcome-after, Done-read,
}
use invoicing_be.Journal.{
  JournalEntry, JournalEntryStatus, draft, posted, is_posted, Db, JournalError, find_entry,
  change_entry, find_by_id, set_status, post, back_to_draft, delete_entry,
}
use invoicing_be.Journal.Posted.{find_entry-eq, find_by_id-store, find_by_id-eq-ok}
use invoicing_be.Journal.Save.{
  JournalDto, existing_entry, save_entry, new_entry, rewrite_entry, reenter_entry,
  update_journal_entry, create_checked, create_entry, update_entry,
}
use invoicing_be.Journal.Books.{
  find_entry-live, find_entry-some, changed-Reads, set_status-Reads, create_journal_entry-Outcome,
  create_entry-known, create_entry-unknown,
}
use invoicing_be.Journal.Calls.{
  JournalCall, add_entry, edit_entry, post_entry, reopen_entry, drop_entry, after_journal_call,
}

module _ {ℓ} {W : Type ℓ} ⦃f : Float W⦄ (company id : Text) (e : JournalEntry W)
    (is : is_posted e.status ≡ true) where
  abbrev Stays : Db W → Type ℓ
  Stays db = find_entry db company id ≡ some e

  -- Another entry changes.
  changed_other :
      (db : Db W) (j : Text) (g : JournalEntry W → JournalEntry W)
      → Stays db
      → (j ≐ id) ≡ false
      → Stays (change_entry j g db)
  changed_other db j g stays other =
      let (own, live) = find_entry-live db company id e stays in
      find_entry-some (change_entry j g db) company id e
        (find-update j id g db.entries ∙ rw other (find_entry-eq db company id e stays)) own live

  -- An entry changes that is not posted.
  changed_draft :
      (db : Db W) (owner j : Text) (g : JournalEntry W → JournalEntry W) (old : JournalEntry W)
      → Stays db
      → find_entry db owner j ≡ some old
      → is_posted old.status ≡ false
      → Stays (change_entry j g db)
  changed_draft db owner j g old stays there open_entry = elim (Bool-cases (j ≐ id)) [
    | inr other ↦ changed_other db j g stays other
    | inl here ↦
        let found : find db.entries j ≡ some e =
          rw (≐→≡ j id here) (find_entry-eq db company id e stays) in
        let same : old ≡ e =
          some-injective old e (sym (find_entry-eq db owner j old there) ∙ found) in
        absurd (ground (arith, rw same at open_entry, is))
  ]

  saved_other :
      (db : Db W) (j : Text) (x : JournalEntry W)
      → Stays db
      → find db.entries j ≡ none
      → Stays (save_entry j x db)
  saved_other db j x stays gone = elim (Bool-cases (j ≐ id)) [
    | inl here ↦
        let found : find db.entries j ≡ some e =
          rw (≐→≡ j id here) (find_entry-eq db company id e stays) in
        absurd (cc (sym gone ∙ found))
    | inr other ↦
        let (own, live) = find_entry-live db company id e stays in
        find_entry-some (save_entry j x db) company id e
          (find-insert j id x db.entries ∙ rw other (find_entry-eq db company id e stays)) own live
  ]

  module _ (db : Db W) (owner j : Text) (stays : Stays db) where
    set_status-Stays :
        (status : JournalEntryStatus)
        → ((g : JournalEntry W → JournalEntry W) → Stays (change_entry j g db))
        → Outcome Stays db (set_status owner j status db)
    unfolding set_status
    set_status-Stays status kept =
        Outcome-read _ _ _ db (find_by_id-store owner j db) λ old _. kept _

    post-Stays : Outcome Stays db (post owner j db)
    unfolding post
    post-Stays = Outcome-read _ _ _ db (find_by_id-store owner j db) λ old h.
        Outcome-read _ _ _ db (guard-store _ _ db) λ u g.
          let ready : not (is_posted old.status) ≡ true = guard-eq-ok _ _ u db g in
          Outcome-read _ _ _ db refl λ _ _. Outcome-read _ _ _ db refl λ _ _.
            Outcome-then _ _ _ db
              (set_status-Stays posted λ k.
                changed_draft db owner j k old stays (find_by_id-eq-ok owner j db old h)
                  (ground arith))
              (set_status-Reads db owner j posted)

    back_to_draft-Stays : (j ≐ id) ≡ false → Outcome Stays db (back_to_draft owner j db)
    unfolding back_to_draft
    back_to_draft-Stays other = Outcome-read _ _ _ db (find_by_id-store owner j db) λ old _.
        Outcome-read _ _ _ db (guard-store _ _ db) λ _ _.
          Outcome-then _ _ _ db (set_status-Stays draft λ k. changed_other db j k stays other)
            (set_status-Reads db owner j draft)

    delete_entry-Stays : Outcome Stays db (delete_entry owner j db)
    unfolding delete_entry
    delete_entry-Stays = Outcome-read _ _ _ db (find_by_id-store owner j db) λ old h.
        Outcome-read _ _ _ db (guard-store _ _ db) λ u g.
          let ready : not (is_posted old.status) ≡ true = guard-eq-ok _ _ u db g in
          changed_draft db owner j _ old stays (find_by_id-eq-ok owner j db old h) (ground arith)

    reenter-Stays :
        (collation : Collation) (dto : JournalDto W) (date : Date) (old seen : JournalEntry W)
        → find_entry db owner j ≡ some old
        → find_entry db owner j ≡ some seen
        → is_posted seen.status ≡ false
        → Done
            (λ d. Stays d × Reads (find_by_id owner j) d)
            (reenter_entry collation owner j dto date old db)
    unfolding reenter_entry
    reenter-Stays collation dto date old seen there first ready = Done-read _ _ _ db refl λ asked _.
        Done-read _ _ _ db refl λ taken _. Done-read _ _ _ db (guard-store _ _ db) λ _ _. (
          changed_draft db owner j (rewrite_entry dto _ date) seen stays first ready,
          changed-Reads db owner j (rewrite_entry dto _ date) old there refl refl,
        )

    update_entry-Stays :
        (collation : Collation) (dto : JournalDto W)
        → Outcome Stays db (update_entry collation owner j dto db)
    unfolding update_entry update_journal_entry
    update_entry-Stays collation dto = Outcome-read _ _ _ db (find_by_id-store owner j db) λ seen k.
        Outcome-read _ _ _ db (guard-store _ _ db) λ u g.
          let ready : not (is_posted seen.status) ≡ true = guard-eq-ok _ _ u db g in
          Outcome-read _ _ _ db refl λ _ _. Outcome-read _ _ _ db refl λ _ _.
            Outcome-read _ _ _ db (find_by_id-store owner j db) λ old h.
              Outcome-read _ _ _ db (or_fail-store _ _ db) λ date _. Outcome-after _ _ _ db (
                reenter-Stays collation dto date old seen (find_by_id-eq-ok owner j db old h)
                  (find_by_id-eq-ok owner j db seen k) (ground arith))

    create_entry-Stays :
        (collation : Collation) (dto : JournalDto W)
        → find db.entries j ≡ none
        → Outcome Stays db (create_entry collation j owner dto db)
    unfolding create_checked
    create_entry-Stays collation dto gone =
        let mine = trim_space dto.idempotency_key in
        elim (Option-cases (existing_entry db owner mine)) [
          | inr (there, h) ↦ rw (create_entry-known collation db j owner dto there h) stays
          | inl h ↦ rw (create_entry-unknown collation db j owner dto h) (
              Outcome-read _ _ _ db refl λ _ _. Outcome-read _ _ _ db refl λ _ _.
                create_journal_entry-Outcome Stays collation db j owner dto (λ _ _. stays)
                  λ number date _.
                    saved_other db j (new_entry owner dto number date mine) stays gone)
        ]

  any_end {κ} :
      {A : Type κ} (db : Db W) (r : Result (JournalError W) A × Db W)
      → Stays db
      → Outcome Stays db r
      → Stays r.1
  any_end db (ok a, d) stays h = h
  any_end db (err x, d) stays h = rw h stays

-- The call is not the entry's BackToDraft, and a new entry gets an ID that no entry has.
abbrev pub Spares {ℓ} : {W : Type ℓ} → Text → Db W → JournalCall W → Type ℓ
Spares id db (add_entry owner j dto) = find db.entries j ≡ none
Spares id db (edit_entry owner j dto) = Unit
Spares id db (post_entry owner j) = Unit
Spares id db (reopen_entry owner j) = ((j ≐ id) ≡ false) × Unit
Spares id db (drop_entry owner j) = Unit

module _ {ℓ} {W : Type ℓ} ⦃f : Float W⦄ (collation : Collation) where
  -- A history of calls without a BackToDraft of this entry.
  pub data SparingHistory (id : Text) (db : Db W) : Db W → Type ℓ where
    starts : SparingHistory id db db
    continues :
        (d : Db W) (call : JournalCall W)
        → SparingHistory id db d
        → Spares id d call
        → SparingHistory id db (after_journal_call collation call d)

  call-Stays :
      (company id : Text) (e : JournalEntry W) (is : is_posted e.status ≡ true) (db : Db W)
      (call : JournalCall W)
      → Spares id db call
      → find_entry db company id ≡ some e
      → find_entry (after_journal_call collation call db) company id ≡ some e
  call-Stays company id e is db (add_entry owner j dto) fresh stays =
      any_end company id e is db _ stays
        (create_entry-Stays company id e is db owner j stays collation dto fresh)
  call-Stays company id e is db (edit_entry owner j dto) _ stays =
      any_end company id e is db _ stays
        (update_entry-Stays company id e is db owner j stays collation dto)
  call-Stays company id e is db (post_entry owner j) _ stays =
      any_end company id e is db _ stays (post-Stays company id e is db owner j stays)
  call-Stays company id e is db (reopen_entry owner j) (other, _) stays =
      any_end company id e is db _ stays
        (back_to_draft-Stays company id e is db owner j stays other)
  call-Stays company id e is db (drop_entry owner j) _ stays =
      any_end company id e is db _ stays (delete_entry-Stays company id e is db owner j stays)

  -- A posted entry of a company is found exactly as it is after any history of calls of
  -- Create, Update, Post, BackToDraft and Delete, by any company and whatever their outcomes,
  -- in which it is not taken back to draft and new entries get new IDs: neither Update nor
  -- Delete ever touches it.
  pub posted_stays :
      (company id : Text) (e : JournalEntry W) (db d : Db W)
      → is_posted e.status ≡ true
      → find_entry db company id ≡ some e
      → SparingHistory id db d
      → find_entry d company id ≡ some e
  posted_stays company id e db _ is there starts = there
  posted_stays company id e db _ is there (continues d call before spares) =
      call-Stays company id e is d call spares (posted_stays company id e db d is there before)
