-- ===== src/Journal/Entered.antt =====
-- Entries that pass the double-entry rules and carry their lines' totals, rounded to cents, and the
-- entries that buildJournalLines makes.
use invoicing_be.Base.{ℕ, ◌+◌, ◌≡◌, refl, ◌∙◌, some, List, [], ◌∷◌, ok, length, ap, All}
use invoicing_be.Text.{Text}
use invoicing_be.Calendar.{Date}
use invoicing_be.Money.{Float, ◌⊕◌, round2}
use invoicing_be.Store.Table.{find}
use invoicing_be.Store.Rows.{Rows, Rows-update}
use invoicing_be.Journal.{
  JournalEntry, JournalLine, Db, check_line, check_from, validate_lines, change_entry,
}
use invoicing_be.Journal.Balanced.{total}
use invoicing_be.Journal.Save.{
  JournalDto, build_journal_lines, stored_journal_lines, new_entry, rewrite_entry,
}

module _ {ℓ} {W : Type ℓ} ⦃f : Float W⦄ where
  abbrev built : W → W → List (JournalLine W) → List (JournalLine W)
  built debit credit ls = (build_journal_lines debit credit ls).0

  length-built :
      (debit credit : W) (ls : List (JournalLine W)) → length (built debit credit ls) ≡ length ls
  unfolding build_journal_lines
  length-built debit credit [] = refl
  length-built debit credit (l ∷ ls) =
      rw (length-built (debit ⊕ l.debit) (credit ⊕ l.credit) ls) refl

  -- The trimming of a line's description and partner does not touch what is validated.
  check_from-built :
      (n : ℕ) (debit credit d c : W) (ls : List (JournalLine W))
      → check_from n d c (built debit credit ls) ≡ check_from n d c ls
  unfolding check_from check_line build_journal_lines
  check_from-built n debit credit d c [] = refl
  check_from-built n debit credit d c (l ∷ ls) =
      rw
        (check_from-built (n + 1) (debit ⊕ l.debit) (credit ⊕ l.credit) (d ⊕ l.debit) (c ⊕ l.credit)
          ls)
        refl

  validate_lines-built :
      (ls : List (JournalLine W)) → validate_lines (built f.nought f.nought ls) ≡ validate_lines ls
  unfolding validate_lines
  validate_lines-built ls =
      rw
        (
          length-built f.nought f.nought ls,
          check_from-built 1 f.nought f.nought f.nought f.nought ls,
        )
        refl

  total_debit-built :
      (debit credit : W) (ls : List (JournalLine W))
      → total (λ (l : JournalLine W). l.debit) debit (built debit credit ls)
        ≡ (build_journal_lines debit credit ls).1
  unfolding build_journal_lines
  total_debit-built debit credit [] = refl
  total_debit-built debit credit (l ∷ ls) =
      total_debit-built (debit ⊕ l.debit) (credit ⊕ l.credit) ls

  total_credit-built :
      (debit credit : W) (ls : List (JournalLine W))
      → total (λ (l : JournalLine W). l.credit) credit (built debit credit ls)
        ≡ (build_journal_lines debit credit ls).2
  unfolding build_journal_lines
  total_credit-built debit credit [] = refl
  total_credit-built debit credit (l ∷ ls) =
      total_credit-built (debit ⊕ l.debit) (credit ⊕ l.credit) ls

  -- A whole number of cents: to round it changes nothing.
  abbrev pub IsWhole : W → Type ℓ
  IsWhole x = round2 x ≡ x

  abbrev pub IsWholeLine : JournalLine W → Type ℓ
  IsWholeLine l = IsWhole l.debit × IsWhole l.credit

  -- Lines of whole cents are stored as they are.
  stored-built :
      (debit credit : W) (ls : List (JournalLine W))
      → All IsWholeLine ls
      → stored_journal_lines (built debit credit ls) ≡ built debit credit ls
  unfolding stored_journal_lines build_journal_lines
  stored-built debit credit [] whole = refl
  stored-built debit credit (l ∷ ls) ((d, c), whole) =
      rw (d, c, stored-built (debit ⊕ l.debit) (credit ⊕ l.credit) ls whole) refl

  -- The entry passes the double-entry rules, and its totals are its lines'.
  pub record IsEntered (e : JournalEntry W) : Type ℓ where
    pub valid : validate_lines e.lines ≡ ok tt
    pub debit_eq : round2 (total (λ (l : JournalLine W). l.debit) f.nought e.lines) ≡ e.total_debit
    pub credit_eq :
        round2 (total (λ (l : JournalLine W). l.credit) f.nought e.lines) ≡ e.total_credit

  abbrev pub AreEntered : Db W → Type ℓ
  AreEntered db = Rows (λ (id : Text) (e : JournalEntry W). IsEntered e) db.entries

  pub new_entry-IsEntered :
      (company : Text) (dto : JournalDto W) (number : Text) (date : Date) (key : Text)
      → All IsWholeLine dto.lines
      → validate_lines dto.lines ≡ ok tt
      → IsEntered (new_entry company dto number date key)
  new_entry-IsEntered company dto number date key whole valid = record {
    valid =
        rw (stored-built f.nought f.nought dto.lines whole)
          (validate_lines-built dto.lines ∙ valid);
    debit_eq =
        rw (stored-built f.nought f.nought dto.lines whole)
          (ap round2 (total_debit-built f.nought f.nought dto.lines));
    credit_eq =
        rw (stored-built f.nought f.nought dto.lines whole)
          (ap round2 (total_credit-built f.nought f.nought dto.lines));
  }

  pub rewrite_entry-IsEntered :
      (dto : JournalDto W) (number : Text) (date : Date) (e : JournalEntry W)
      → All IsWholeLine dto.lines
      → validate_lines dto.lines ≡ ok tt
      → IsEntered (rewrite_entry dto number date e)
  rewrite_entry-IsEntered dto number date e whole valid = record {
    valid =
        rw (stored-built f.nought f.nought dto.lines whole)
          (validate_lines-built dto.lines ∙ valid);
    debit_eq =
        rw (stored-built f.nought f.nought dto.lines whole)
          (ap round2 (total_debit-built f.nought f.nought dto.lines));
    credit_eq =
        rw (stored-built f.nought f.nought dto.lines whole)
          (ap round2 (total_credit-built f.nought f.nought dto.lines));
  }

  pub entered_change :
      (db : Db W) (id : Text) (g : JournalEntry W → JournalEntry W) (e : JournalEntry W)
      → AreEntered db
      → find db.entries id ≡ some e
      → IsEntered (g e)
      → AreEntered (change_entry id g db)
  entered_change db id g e entered found here =
      Rows-update (λ _ x. IsEntered x) (λ _ x. IsEntered x) db.entries id g e entered found here
        (λ j row other p. p)
