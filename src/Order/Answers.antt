-- ===== src/Order/Answers.antt =====
-- What the calls of an order's lifecycle answer.
use invoicing_be.Base.{◌≡◌, refl, ◌∙◌, ap, false, some, ok}
use invoicing_be.Text.{Text, ≐-refl}
use invoicing_be.Store.{bind-ok, or_fail, ◌>>=◌, ◌>>◌}
use invoicing_be.Store.Table.{find-update}
use invoicing_be.Order.{
  Order, OrderStatus, draft, cancelled, is_draft, is_cancelled, Db, not_found, find_order,
  find_order_by_id, change_order, set_order_status,
}
use invoicing_be.Order.Service.{reopen_order, cancel_order}
use invoicing_be.Order.Lawful.{find_order-eq, find_order-some, with_status}

module _ {ℓ} {W : Type ℓ} where
  find_order_by_id-some :
      (db : Db W) (company id : Text) (o : Order W)
      → find_order db company id ≡ some o
      → find_order_by_id company id db ≡ (ok o, db)
  unfolding find_order_by_id
  find_order_by_id-some db company id o there = ap (λ p. or_fail (not_found id) p db) there

  module _ (db : Db W) (company id : Text) (o : Order W) (there : find_order db company id ≡ some o)
      (status : OrderStatus) where
    abbrev moved : Db W
    moved = change_order id (with_status status) db

    moved-found : find_order moved company id ≡ some (with_status status o)
    moved-found =
        let (found, (own, live)) = find_order-eq db company id o there in
        find_order-some moved company id (with_status status o)
          (find-update id id (with_status status) db.orders ∙ rw (≐-refl id, found) refl) own live

    moved-answer :
        (set_order_status company id status >> find_order_by_id company id) db
        ≡ (ok (with_status status o), moved)
    unfolding set_order_status
    moved-answer =
        bind-ok _ _ db tt moved (bind-ok _ _ db o db (find_order_by_id-some db company id o there))
        ∙ find_order_by_id-some moved company id (with_status status o) moved-found

  cancel_order-answer :
      (db : Db W) (company id : Text) (o : Order W)
      → find_order db company id ≡ some o
      → is_cancelled o.status ≡ false
      → cancel_order company id db
        ≡ (ok (with_status cancelled o), change_order id (with_status cancelled) db)
  unfolding cancel_order
  cancel_order-answer db company id o there live =
      bind-ok _ _ db o db (find_order_by_id-some db company id o there)
      ∙ bind-ok _ _ db tt db (rw live refl)
      ∙ moved-answer db company id o there cancelled

  reopen_order-answer :
      (db : Db W) (company id : Text) (o : Order W)
      → find_order db company id ≡ some o
      → is_draft o.status ≡ false
      → reopen_order company id db
        ≡ (ok (with_status draft o), change_order id (with_status draft) db)
  unfolding reopen_order
  reopen_order-answer db company id o there placed =
      bind-ok _ _ db o db (find_order_by_id-some db company id o there)
      ∙ bind-ok _ _ db tt db (rw placed refl)
      ∙ moved-answer db company id o there draft

  -- An order of the company that is not cancelled can be cancelled and then taken back to
  -- draft: both calls succeed, and the second returns the order as it was, but as a draft.
  pub cancel-then-reopen :
      (db : Db W) (company id : Text) (o : Order W)
      → find_order db company id ≡ some o
      → is_cancelled o.status ≡ false
      → ((cancel_order company id >>= λ _. reopen_order company id) db).0 ≡ ok (with_status draft o)
  cancel-then-reopen db company id o there live =
      ap (λ r. r.0)
        (bind-ok _ _ db (with_status cancelled o) (moved db company id o there cancelled)
            (cancel_order-answer db company id o there live)
          ∙ reopen_order-answer (moved db company id o there cancelled) company id
              (with_status cancelled o) (moved-found db company id o there cancelled) refl)
