-- ===== src/Store/Entries.antt =====
-- What holds of every entry of a table, whichever its key is.
use mathlib.Core.Option.{some-injective}
use invoicing_be.Base.{◌≡◌, refl, some, [], ◌∷◌, arith, Bool-cases, inl, inr}
use invoicing_be.Text.{Text, ◌≐◌}
use invoicing_be.Store.Table.{Table, find, update}

module _ {ℓ κ} {V : Type ℓ} where
  abbrev pub Entries : (V → Type κ) → Table V → Type κ
  Entries P [] = Unit
  Entries P ((key, r) ∷ t) = P r × Entries P t

  pub Entries-find :
      (P : V → Type κ) (t : Table V) (id : Text) (r : V) → Entries P t → find t id ≡ some r → P r
  unfolding find
  Entries-find P [] id r ps e = ground (arith, e)
  Entries-find P ((key, s) ∷ t) id r (p, ps) e = elim (Bool-cases (key ≐ id)) [
    | inl same ↦ rw (← some-injective s r (rw same at e)) p
    | inr other ↦ Entries-find P t id r ps (rw other at e)
  ]

module _ {ℓ κ μ} {V : Type ℓ} (P : V → Type κ) (Q : V → Type μ) where
  pub Entries-map : (t : Table V) → ((s : V) → P s → Q s) → Entries P t → Entries Q t
  Entries-map [] f ps = tt
  Entries-map ((key, s) ∷ t) f (p, ps) = (f s p, Entries-map t f ps)

  -- The changed entry satisfies `Q`, and every other entry what it satisfied.
  pub Entries-update :
      (t : Table V) (id : Text) (g : V → V)
      → ((s : V) → P s → Q s)
      → ((s : V) → find t id ≡ some s → Q (g s))
      → Entries P t
      → Entries Q (update id g t)
  unfolding find update
  Entries-update [] id g f here ps = tt
  Entries-update ((key, s) ∷ t) id g f here (p, ps) = elim (Bool-cases (key ≐ id)) [
    | inl same ↦ rw same (here s (rw same refl), Entries-map t f ps)
    | inr other ↦ rw other (f s p, Entries-update t id g f (λ x e. here x (rw other e)) ps)
  ]
