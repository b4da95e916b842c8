-- ===== src/Order/Lawful.antt =====
-- What a call on an order may do, as a predicate on the stores before and after it.
use mathlib.Core.Option.{some-injective}
use invoicing_be.Base.{
  ◌≡◌, refl, sym, ◌∙◌, ap, false, none, some, arith, ok, Bool-cases, ◌⊎◌, inl, inr,
}
use invoicing_be.Text.{Text, ◌≐◌, ≐_iff, ≐-refl, ≐→≡}
use invoicing_be.Store.{or_fail-store, or_fail-eq-ok, or_fail, ◌>>◌}
use invoicing_be.Store.Table.{find, update, find-insert, find-update}
use invoicing_be.Store.Outcome.{Outcome, Done, Reads, Outcome-read, Outcome-then, Done-read}
use invoicing_be.Order.{
  Order, OrderStatus, Db, not_found, find_order, find_order_by_id, change_order, save_order,
  set_order_status,
}

module _ {ℓ} {W : Type ℓ} where
  pub find_order-eq :
      (db : Db W) (company id : Text) (o : Order W)
      → find_order db company id ≡ some o
      → (find db.orders id ≡ some o) × ((o.company_id ≡ company) × (o.deleted ≡ false))
  unfolding find_order
  find_order-eq db company id o e =
      let found : find db.orders id ≡ some o = ground (arith, e) in
      let own : o.company_id ≡ company = ground (arith, e, found, ≐_iff o.company_id company) in
      let live : o.deleted ≡ false = ground (arith, e, found) in (found, (own, live))

  pub find_order-some :
      (db : Db W) (company id : Text) (o : Order W)
      → find db.orders id ≡ some o
      → o.company_id ≡ company
      → o.deleted ≡ false
      → find_order db company id ≡ some o
  unfolding find_order
  find_order-some db company id o found own live = ground (arith, found, own, live, ≐-refl company)

  module _ (db : Db W) (company id : Text) where
    pub find_order_by_id-eq :
        (o : Order W)
        → (find_order_by_id company id db).0 ≡ ok o
        → find_order db company id ≡ some o
    unfolding find_order_by_id
    find_order_by_id-eq o h = or_fail-eq-ok _ _ o db h

    pub find_order_by_id-store : (find_order_by_id company id db).1 ≡ db
    unfolding find_order_by_id
    find_order_by_id-store = or_fail-store _ _ db

    pub find_order_by_id-Reads :
        (o : Order W) → find_order db company id ≡ some o → Reads (find_order_by_id company id) db
    unfolding find_order_by_id
    find_order_by_id-Reads o there = (o, ap (λ p. or_fail (not_found id) p db) there)

  -- What becomes of the order `j`: it stays as it is, or it is the company's order `id`, and its
  -- status changes as `P` says.
  abbrev pub Fate :
      (OrderStatus → OrderStatus → Type 0) → Text → Text → Text → Order W → Order W → Type ℓ
  Fate P company id j o o' =
      (o' ≡ o)
      ⊎ ((j ≡ id)
          × (((o.company_id ≡ company) × (o.deleted ≡ false))
              × ((o'.company_id ≡ company) × P o.status o'.status)))

  -- Every order is still there afterwards, and its fate is as above; and what was not there before
  -- is the company's.
  abbrev pub Lawful : (OrderStatus → OrderStatus → Type 0) → Text → Text → Db W → Db W → Type ℓ
  Lawful P company id db d =
      ((j : Text) (o : Order W)
        → find db.orders j ≡ some o
        → (o' : Order W) × ((find d.orders j ≡ some o') × Fate P company id j o o'))
      × ((j : Text) (o : Order W)
          → find d.orders j ≡ some o
          → (find db.orders j ≡ some o) ⊎ ((j ≡ id) × (o.company_id ≡ company)))

  module _ (P : OrderStatus → OrderStatus → Type 0) (db : Db W) (company id : Text) where
    pub changed_Lawful :
        (g : Order W → Order W) (o : Order W)
        → find_order db company id ≡ some o
        → (g o).company_id ≡ o.company_id
        → P o.status (g o).status
        → Lawful P company id db (change_order id g db)
    changed_Lawful g o there same p =
        let (found, (own, live)) = find_order-eq db company id o there in
        (
          λ j x e. elim (Bool-cases (id ≐ j)) [
            | inl here ↦
                let q = ≐→≡ id j here in
                let r : o ≡ x = some-injective _ _ (sym found ∙ rw q e) in
                (
                  g x,
                  (
                    find-update id j g db.orders ∙ rw (here, e) refl,
                    inr (
                      sym q,
                      ((rw (← r) own, rw (← r) live), (rw (← r) (same ∙ own), rw (← r) p)),
                    ),
                  ),
                )
            | inr other ↦ (x, (find-update id j g db.orders ∙ rw other e, inl refl))
          ],
          λ j x e. elim (Bool-cases (id ≐ j)) [
            | inl here ↦
                let q = ≐→≡ id j here in
                let now : find (update id g db.orders) j ≡ some (g o) =
                  find-update id j g db.orders ∙ rw here (rw (← q) (rw found refl)) in
                inr (sym q, rw (← some-injective _ _ (sym now ∙ e)) (same ∙ own))
            | inr other ↦ inl (sym (find-update id j g db.orders ∙ rw other refl) ∙ e)
          ],
        )

    pub saved_Lawful :
        (o : Order W)
        → find db.orders id ≡ none
        → o.company_id ≡ company
        → Lawful P company id db (save_order id o db)
    saved_Lawful o gone own = (
      λ j x e. elim (Bool-cases (id ≐ j)) [
        | inl here ↦ absurd (ground (arith, gone, e, rw (≐→≡ id j here) at gone))
        | inr other ↦ (x, (find-insert id j o db.orders ∙ rw other e, inl refl))
      ],
      λ j x e. elim (Bool-cases (id ≐ j)) [
        | inl here ↦
            let now : find (save_order id o db).orders j ≡ some o =
              find-insert id j o db.orders ∙ rw here refl in
            inr (sym (≐→≡ id j here), rw (← some-injective _ _ (sym now ∙ e)) own)
        | inr other ↦ inl (sym (find-insert id j o db.orders ∙ rw other refl) ∙ e)
      ],
    )

  -- Changing the company's order, as one step.
  module _ (db : Db W) (company id : Text) (g : Order W → Order W) (o : Order W)
      (there : find_order db company id ≡ some o) (same : (g o).company_id ≡ o.company_id)
      (live : (g o).deleted ≡ o.deleted) where
    pub changed_Reads : Reads (find_order_by_id company id) (change_order id g db)
    changed_Reads =
        let (found, (own, alive)) = find_order-eq db company id o there in
        find_order_by_id-Reads (change_order id g db) company id (g o) (
          find_order-some (change_order id g db) company id (g o)
            (find-update id id g db.orders ∙ rw (≐-refl id, found) refl) (same ∙ own)
            (live ∙ alive))

  abbrev pub with_status : OrderStatus → Order W → Order W
  with_status status o = record o { status = status }

  module _ (db : Db W) (company id : Text) (status : OrderStatus) where
    set_order_status-Lawful :
        (P : OrderStatus → OrderStatus → Type 0)
        → ((o : Order W) → find_order db company id ≡ some o → P o.status status)
        → Outcome (Lawful P company id db) db (set_order_status company id status db)
    unfolding set_order_status
    set_order_status-Lawful P p =
        Outcome-read _ _ _ db (find_order_by_id-store db company id) λ o h.
          let there = find_order_by_id-eq db company id o h in
          changed_Lawful P db company id (with_status status) o there refl (p o there)

    set_order_status-Reads :
        Done (Reads (find_order_by_id company id)) (set_order_status company id status db)
    unfolding set_order_status
    set_order_status-Reads = Done-read _ _ _ db (find_order_by_id-store db company id) λ o h.
        changed_Reads db company id (with_status status) o (find_order_by_id-eq db company id o h)
          refl refl

    -- The change of status that each step of the lifecycle ends with.
    pub status_step :
        (P : OrderStatus → OrderStatus → Type 0) (o : Order W)
        → find_order db company id ≡ some o
        → P o.status status
        → Outcome
            (Lawful P company id db)
            db
            ((set_order_status company id status >> find_order_by_id company id) db)
    status_step P o there p =
        Outcome-then _ _ _ db
          (set_order_status-Lawful P λ x e. rw (some-injective o x (sym there ∙ e)) at p)
          set_order_status-Reads
