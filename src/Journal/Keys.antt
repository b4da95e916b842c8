-- ===== src/Journal/Keys.antt =====
-- The entries that hold an idempotency key, over sequences of calls.
use mathlib.Core.Path.{subst₂}
use invoicing_be.Base.{
  ◌≡◌, refl, sym, ◌∙◌, ap, true, false, none, some, List, [], ◌∷◌, arith, Result, ok, err,
  Bool-cases, Option-cases, inl, inr, ◌&&◌, Option, if◌then◌else◌,
}
use invoicing_be.Text.{Text, ◌≐◌, ≐-refl, ≐→≡, is_empty, trim_space}
use invoicing_be.Calendar.{Date}
use invoicing_be.Money.{Float}
use invoicing_be.Store.{Collation, guard-store, or_fail-store}
use invoicing_be.Store.Table.{Table, insert, update}
use invoicing_be.Store.Outcome.{
  Outcome, Done, Reads, Outcome-read, Outcome-then, Outcome-after, Done-read,
}
use invoicing_be.Journal.{
  JournalEntry, JournalEntryStatus, draft, posted, Db, JournalError, find_entry, change_entry,
  find_by_id, set_status, post, back_to_draft, delete_entry,
}
use invoicing_be.Journal.Posted.{find_by_id-store, find_by_id-eq-ok}
use invoicing_be.Journal.Save.{
  JournalDto, find_by_idempotency_key, existing_entry, key_holders, is_free_key, without_lines,
  rewrite_entry, reenter_entry, update_journal_entry, create_checked, create_entry, update_entry,
}
use invoicing_be.Journal.Books.{
  changed-Reads, set_status-Reads, create_journal_entry-Outcome, create_entry-known,
  create_entry-unknown,
}
use invoicing_be.Journal.Calls.{
  JournalCall, add_entry, edit_entry, post_entry, reopen_entry, drop_entry, after_journal_call,
  after_journal_calls,
}

module _ {ℓ} {W : Type ℓ} (company key : Text) where
  -- A change that leaves companies and keys alone.
  holders-update :
      (t : Table (JournalEntry W)) (id : Text) (g : JournalEntry W → JournalEntry W)
      → ((e : JournalEntry W) → (g e).company_id ≡ e.company_id)
      → ((e : JournalEntry W) → (g e).idempotency_key ≡ e.idempotency_key)
      → key_holders (update id g t) company key ≡ key_holders t company key
  unfolding key_holders update
  holders-update [] id g own mine = refl
  holders-update ((j, e) ∷ t) id g own mine =
      ground (arith, own e, mine e, holders-update t id g own mine)

  -- No entry is found where none holds the key.
  unheld :
      (t : Table (JournalEntry W))
      → key_holders t company key ≡ []
      → find_by_idempotency_key t company key ≡ none
  unfolding key_holders find_by_idempotency_key
  unheld [] h = refl
  unheld ((j, e) ∷ t) h =
      elim (Bool-cases ((e.company_id ≐ company) && (e.idempotency_key ≐ key))) [
        | inl held ↦ cc (rw held at h)
        | inr other ↦ ground (arith, other, unheld t (rw other at h))
      ]

  -- The company's first entry with the key, deleted or not, with its ID.
  unfoldable pub holder : Table (JournalEntry W) → Option (Text × JournalEntry W)
  holder [] = none
  holder ((j, e) ∷ t) =
      let rest = holder t in
      if (e.company_id ≐ company) && (e.idempotency_key ≐ key) then some (j, e) else rest

  -- The only holder is found exactly while it is not deleted.
  sole_found :
      (t : Table (JournalEntry W)) (id : Text)
      → key_holders t company key ≡ id ∷ []
      → (x : JournalEntry W) × (holder t ≡ some (id, x))
        × (find_by_idempotency_key t company key ≡ (if x.deleted then none else some (id, x)))
  unfolding key_holders find_by_idempotency_key holder
  sole_found [] id h = cc h
  sole_found ((j, x) ∷ t) id h =
      elim (Bool-cases ((x.company_id ≐ company) && (x.idempotency_key ≐ key))) [
        | inl held ↦
            let same : j ∷ key_holders t company key ≡ id ∷ [] = rw held at h in
            let first : j ≡ id = cc same in
            let others : key_holders t company key ≡ [] = cc same in
            (
              x,
              rw held (ap (λ n. some (n, x)) first),
              elim (Bool-cases x.deleted) [
                | inl gone ↦ ground (arith, held, gone, unheld t others)
                | inr live ↦ rw (← first) (ground (arith, held, live))
              ],
            )
        | inr other ↦
            let (y, there, found) = sole_found t id (rw other at h) in
            (y, ground (arith, other, there), ground (arith, other, found))
      ]

  -- The entry is the only one that holds the key.
  abbrev pub IsSole : Text → Db W → Type 0
  IsSole id db = key_holders db.entries company key ≡ id ∷ []

-- Every call leaves the holders of a key as they are, once there is one.
module _ {ℓ} {W : Type ℓ} ⦃f : Float W⦄ (company key id : Text) where
  abbrev Sole : Db W → Type ℓ
  Sole db = IsSole {W = W} company key id db × Unit {ℓ}

  -- A Create with the key changes nothing; it answers with the one entry that holds the key, without
  -- its lines, or is refused, if that entry is deleted.
  abbrev pub IsReplay : Db W → Result (JournalError W) (JournalEntry W) × Db W → Type ℓ
  IsReplay db r =
      (r.1 ≡ db)
      × ((x : JournalEntry W) × (holder company key db.entries ≡ some (id, x))
          × (x.deleted ≡ false → r.0 ≡ ok (without_lines x))
          × (x.deleted ≡ true → (y : JournalError W) × (r.0 ≡ err y)))

  changed_Sole :
      (db : Db W) (j : Text) (g : JournalEntry W → JournalEntry W)
      → ((e : JournalEntry W) → (g e).company_id ≡ e.company_id)
      → ((e : JournalEntry W) → (g e).idempotency_key ≡ e.idempotency_key)
      → Sole db
      → Sole (change_entry j g db)
  changed_Sole db j g own mine (sole, _) =
      (holders-update company key db.entries j g own mine ∙ sole, tt)

  module _ (db : Db W) (owner j : Text) (sole : Sole db) where
    set_status-Sole : (status : JournalEntryStatus) → Outcome Sole db (set_status owner j status db)
    unfolding set_status
    set_status-Sole status =
        Outcome-read _ _ _ db (find_by_id-store owner j db)
          λ e _. changed_Sole db j _ (λ x. refl) (λ x. refl) sole

    post-Sole : Outcome Sole db (post owner j db)
    unfolding post
    post-Sole = Outcome-read _ _ _ db (find_by_id-store owner j db) λ e _.
        Outcome-read _ _ _ db (guard-store _ _ db) λ _ _. Outcome-read _ _ _ db refl λ _ _.
          Outcome-read _ _ _ db refl λ _ _.
            Outcome-then _ _ _ db (set_status-Sole posted) (set_status-Reads db owner j posted)

    back_to_draft-Sole : Outcome Sole db (back_to_draft owner j db)
    unfolding back_to_draft
    back_to_draft-Sole = Outcome-read _ _ _ db (find_by_id-store owner j db) λ e _.
        Outcome-read _ _ _ db (guard-store _ _ db)
          λ _ _. Outcome-then _ _ _ db (set_status-Sole draft) (set_status-Reads db owner j draft)

    delete_entry-Sole : Outcome Sole db (delete_entry owner j db)
    unfolding delete_entry
    delete_entry-Sole = Outcome-read _ _ _ db (find_by_id-store owner j db) λ e _.
        Outcome-read _ _ _ db (guard-store _ _ db)
          λ _ _. changed_Sole db j _ (λ x. refl) (λ x. refl) sole

    reenter-Sole :
        (collation : Collation) (dto : JournalDto W) (date : Date) (old : JournalEntry W)
        → find_entry db owner j ≡ some old
        → Done
            (λ d. Sole d × Reads (find_by_id owner j) d)
            (reenter_entry collation owner j dto date old db)
    unfolding reenter_entry
    reenter-Sole collation dto date old there = Done-read _ _ _ db refl λ asked _.
        Done-read _ _ _ db refl λ taken _. Done-read _ _ _ db (guard-store _ _ db) λ _ _. (
          changed_Sole db j (rewrite_entry dto _ date) (λ x. refl) (λ x. refl) sole,
          changed-Reads db owner j (rewrite_entry dto _ date) old there refl refl,
        )

    update_entry-Sole :
        (collation : Collation) (dto : JournalDto W)
        → Outcome Sole db (update_entry collation owner j dto db)
    unfolding update_entry update_journal_entry
    update_entry-Sole collation dto = Outcome-read _ _ _ db (find_by_id-store owner j db) λ _ _.
        Outcome-read _ _ _ db (guard-store _ _ db) λ _ _. Outcome-read _ _ _ db refl λ _ _.
          Outcome-read _ _ _ db refl λ _ _.
            Outcome-read _ _ _ db (find_by_id-store owner j db) λ old h.
              Outcome-read _ _ _ db (or_fail-store _ _ db) λ date _.
                Outcome-after _ _ _ db
                  (reenter-Sole collation dto date old (find_by_id-eq-ok owner j db old h))

    module _ (keyed : is_empty key ≡ false) where
      held_apart :
          (k : Text) → is_free_key db owner k ≡ true → ((owner ≐ company) && (k ≐ key)) ≡ false
      unfolding is_free_key
      held_apart k free = elim (Bool-cases (owner ≐ company)) [
        | inr other ↦ rw other refl
        | inl own ↦ elim (Bool-cases (k ≐ key)) [
          | inr other ↦ ground (arith, other)
          | inl mine ↦
              let here : is_free_key db company key ≡ true =
                subst₂ (λ a b. is_free_key db a b ≡ true) (≐→≡ owner company own) (≐→≡ k key mine)
                  free in
              absurd (ground (arith, here, keyed, sole.0))
        ]
      ]

      create_entry-Sole :
          (collation : Collation) (dto : JournalDto W)
          → Outcome Sole db (create_entry collation j owner dto db)
      unfolding create_checked key_holders insert
      create_entry-Sole collation dto =
          let mine = trim_space dto.idempotency_key in
          elim (Option-cases (existing_entry db owner mine)) [
            | inr (there, e) ↦ rw (create_entry-known collation db j owner dto there e) sole
            | inl e ↦ rw (create_entry-unknown collation db j owner dto e) (
                Outcome-read _ _ _ db refl λ _ _. Outcome-read _ _ _ db refl λ _ _.
                  create_journal_entry-Outcome Sole collation db j owner dto (λ _ _. sole)
                    λ number date free. (rw (held_apart mine free) sole.0, tt))
          ]

  whatever {κ} :
      {A : Type κ} (db : Db W) (r : Result (JournalError W) A × Db W)
      → Sole db
      → Outcome Sole db r
      → Sole r.1
  whatever db (ok a, d) sole h = h
  whatever db (err e, d) sole h = rw h sole

  module _ (keyed : is_empty key ≡ false) (collation : Collation) where
    call-Sole :
        (call : JournalCall W) (db : Db W) → Sole db → Sole (after_journal_call collation call db)
    call-Sole (add_entry owner j dto) db sole =
        whatever db _ sole (create_entry-Sole db owner j sole keyed collation dto)
    call-Sole (edit_entry owner j dto) db sole =
        whatever db _ sole (update_entry-Sole db owner j sole collation dto)
    call-Sole (post_entry owner j) db sole = whatever db _ sole (post-Sole db owner j sole)
    call-Sole (reopen_entry owner j) db sole =
        whatever db _ sole (back_to_draft-Sole db owner j sole)
    call-Sole (drop_entry owner j) db sole = whatever db _ sole (delete_entry-Sole db owner j sole)

    calls-Sole :
        (calls : List (JournalCall W)) (db : Db W)
        → Sole db
        → Sole (after_journal_calls collation calls db)
    calls-Sole [] db sole = sole
    calls-Sole (call ∷ calls) db sole =
        calls-Sole calls (after_journal_call collation call db) (call-Sole call db sole)

    refused-IsReplay :
        (db : Db W) (r : Result (JournalError W) (JournalEntry W) × Db W) (x : JournalEntry W)
        → holder company key db.entries ≡ some (id, x)
        → x.deleted ≡ true
        → Outcome (λ d. IsReplay db r) db r
        → IsReplay db r
    refused-IsReplay db (ok e, d) x there gone h = h
    refused-IsReplay db (err y, d) x there gone same =
        (same, (x, there, λ live. ground (arith, gone, live), λ _. (y, refl)))

    Sole-IsReplay :
        (db : Db W) (j : Text) (dto : JournalDto W)
        → Sole db
        → trim_space dto.idempotency_key ≡ key
        → IsReplay db (create_entry collation j company dto db)
    unfolding create_checked is_free_key existing_entry
    Sole-IsReplay db j dto sole mine =
        let (x, there, found) = sole_found company key db.entries id sole.0 in
        elim (Bool-cases x.deleted) [
          | inr live ↦
              let e : existing_entry db company key ≡ some (id, x) =
                ground (arith, found, live, keyed) in
              rw (create_entry-known collation db j company dto (id, x) (rw mine e))
                (refl, (x, there, λ _. refl, λ gone. ground (arith, gone, live)))
          | inl gone ↦
              let e : existing_entry db company (trim_space dto.idempotency_key) ≡ none =
                rw mine (ground (arith, found, gone, keyed)) in
              let replay : Db W → Type ℓ =
                λ d. IsReplay db (create_checked collation j company dto db) in
              rw (create_entry-unknown collation db j company dto e) (
                refused-IsReplay db (create_checked collation j company dto db) x there gone (
                  Outcome-read replay _ _ db refl λ _ _. Outcome-read replay _ _ db refl λ _ _.
                    create_journal_entry-Outcome replay collation db j company dto
                      (λ there h. absurd (cc (sym e ∙ h)))
                      λ number date free. absurd (ground (arith, rw mine at free, keyed, sole.0))))
        ]

    created_Sole :
        (db : Db W) (dto : JournalDto W)
        → trim_space dto.idempotency_key ≡ key
        → key_holders db.entries company key ≡ []
        → Outcome Sole db (create_entry collation id company dto db)
    unfolding create_checked existing_entry key_holders insert
    created_Sole db dto mine none_held =
        let gone : existing_entry db company (trim_space dto.idempotency_key) ≡ none =
          rw mine (ground (arith, keyed, unheld company key db.entries none_held)) in
        rw (create_entry-unknown collation db id company dto gone) (
          Outcome-read _ _ _ db refl λ _ _. Outcome-read _ _ _ db refl λ _ _.
            create_journal_entry-Outcome Sole collation db id company dto
              (λ there h. absurd (cc (sym gone ∙ h)))
              λ number date _. (rw (mine, ≐-refl company, ≐-refl key, none_held) refl, tt))

    done_Sole :
        (db : Db W) (r : Result (JournalError W) (JournalEntry W) × Db W) (e : JournalEntry W)
        → r.0 ≡ ok e
        → Outcome Sole db r
        → Sole r.1
    done_Sole db (ok x, d) e h sole = sole
    done_Sole db (err x, d) e h sole = cc h

    -- When a Create with an idempotency key that no entry of the company has, deleted or
    -- not, succeeds, then after any sequence of calls of Create, Update, Post, BackToDraft
    -- and Delete, by any company and whatever their outcomes, every Create of the company
    -- with that key changes nothing: it returns the entry that the first one made, as it is
    -- then, without its lines, and is refused if that entry is deleted. So one key makes one
    -- entry.
    pub create_once :
        (db : Db W) (dto : JournalDto W) (e : JournalEntry W) (calls : List (JournalCall W))
        (j : Text) (again : JournalDto W)
        → trim_space dto.idempotency_key ≡ key
        → key_holders db.entries company key ≡ []
        → (create_entry collation id company dto db).0 ≡ ok e
        → trim_space again.idempotency_key ≡ key
        → let d =
            after_journal_calls collation calls (create_entry collation id company dto db).1 in
          IsReplay d (create_entry collation j company again d)
    create_once db dto e calls j again mine none_held done same =
        Sole-IsReplay _ j again
          (calls-Sole calls _ (done_Sole db _ e done (created_Sole db dto mine none_held))) same
