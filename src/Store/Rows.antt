-- ===== src/Store/Rows.antt =====
-- What holds of every row of a table, and how it survives a change of one row.
use mathlib.Core.Option.{some-injective}
use mathlib.Core.Path.{subst₂}
use invoicing_be.Base.{◌≡◌, refl, sym, ◌∙◌, ap, false, some, Bool-cases, inl, inr}
use invoicing_be.Text.{Text, ◌≐◌, ≐→≡}
use invoicing_be.Store.Table.{Table, find, insert, update, find-insert, find-update, on_some}

module _ {ℓ κ} {V : Type ℓ} where
  abbrev pub Rows : (Text → V → Type κ) → Table V → Type (ℓ ⊔ κ)
  Rows P t = (id : Text) (r : V) → find t id ≡ some r → P id r

module _ {ℓ κ μ} {V : Type ℓ} (P : Text → V → Type κ) (Q : Text → V → Type μ) where
  -- The changed row satisfies `Q`, and every other row what it satisfied.
  pub Rows-update :
      (t : Table V) (id : Text) (g : V → V) (r : V)
      → Rows P t
      → find t id ≡ some r
      → Q id (g r)
      → ((j : Text) (s : V) → (id ≐ j) ≡ false → P j s → Q j s)
      → Rows Q (update id g t)
  Rows-update t id g r rows found here others j s e = elim (Bool-cases (id ≐ j)) [
    | inl same ↦
        let q = ≐→≡ id j same in
        let changed : find (update id g t) j ≡ some (g r) =
          find-update id j g t ∙ rw same (rw (← q) (ap (on_some g) found)) in
        subst₂ Q q (some-injective _ _ (sym changed ∙ e)) here
    | inr other ↦ others j s other (rows j s (sym (find-update id j g t ∙ rw other refl) ∙ e))
  ]

  pub Rows-insert :
      (t : Table V) (id : Text) (r : V)
      → Rows P t
      → Q id r
      → ((j : Text) (s : V) → (id ≐ j) ≡ false → P j s → Q j s)
      → Rows Q (insert id r t)
  Rows-insert t id r rows here others j s e = elim (Bool-cases (id ≐ j)) [
    | inl same ↦
        let q = ≐→≡ id j same in
        subst₂ Q q (some-injective _ _ (sym (find-insert id j r t ∙ rw same refl) ∙ e)) here
    | inr other ↦ others j s other (rows j s (sym (find-insert id j r t ∙ rw other refl) ∙ e))
  ]
