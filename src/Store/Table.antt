-- ===== src/Store/Table.antt =====
-- A table: rows under their primary keys.
use invoicing_be.Base.{◌≡◌, refl, Option, none, some, List, [], ◌∷◌, arith, if◌then◌else◌}
use invoicing_be.Text.{Text, ◌≐◌, ≐_iff}

abbrev pub Table {ℓ} : Type ℓ → Type ℓ
Table V = List (Text × V)

module _ {ℓ} {V : Type ℓ} where
  -- The row with this key.
  unfoldable pub find : Table V → Text → Option V
  find [] id = none
  find ((key, row) ∷ t) id = if key ≐ id then some row else find t id

  unfoldable pub insert : Text → V → Table V → Table V
  insert id row t = (id, row) ∷ t

  -- Changes the row with this key, if there is one.
  unfoldable pub update : Text → (V → V) → Table V → Table V
  update id g [] = []
  update id g ((key, row) ∷ t) = if key ≐ id then (key, g row) ∷ t else (key, row) ∷ update id g t

  -- The table without the row with this key.
  unfoldable pub remove : Text → Table V → Table V
  remove id [] = []
  remove id ((key, row) ∷ t) = if key ≐ id then t else (key, row) ∷ remove id t

  unfoldable pub rows : Table V → List V
  rows [] = []
  rows ((key, row) ∷ t) = row ∷ rows t

  abbrev pub on_some : (V → V) → Option V → Option V
  on_some g none = none
  on_some g (some row) = some (g row)

  pub find-insert :
      (id j : Text) (row : V) (t : Table V)
      → find (insert id row t) j ≡ (if id ≐ j then some row else find t j)
  unfolding find insert
  find-insert id j row t = refl

  pub find-update :
      (id j : Text) (g : V → V) (t : Table V)
      → find (update id g t) j ≡ (if id ≐ j then on_some g (find t j) else find t j)
  unfolding find update
  find-update id j g [] = ground arith
  find-update id j g ((key, row) ∷ t) =
      ground (arith, ≐_iff id j, ≐_iff key id, ≐_iff key j, find-update id j g t)

  -- Two changes of the same row are one.
  pub update-update :
      (id : Text) (h g : V → V) (t : Table V)
      → update id h (update id g t) ≡ update id (λ row. h (g row)) t
  unfolding update
  update-update id h g [] = refl
  update-update id h g ((key, row) ∷ t) = ground (arith, update-update id h g t)
