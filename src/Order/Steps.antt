-- ===== src/Order/Steps.antt =====
-- The operations of the order services, one by one, under that predicate.
use invoicing_be.Base.{◌≡◌, refl, ◌∙◌, true, false, not, Option, none, some, arith, Result}
use invoicing_be.Text.{Text, ≐-refl, trim_space}
use invoicing_be.Calendar.{Date}
use invoicing_be.LineCalc.{LinesCalc}
use invoicing_be.Money.{Float}
use invoicing_be.Store.{Collation, guard-store, guard-eq-ok, or_fail-store, after_read}
use invoicing_be.Store.Table.{find, find-insert}
use invoicing_be.Store.Outcome.{
  Outcome, Done, Reads, Outcome-read, Outcome-then, Outcome-after, Done-read,
}
use invoicing_be.Order.{
  Order, OrderDto, OrderKind, OrderStatus, draft, confirmed, cancelled, is_draft, is_cancelled, Db,
  OrderError, find_order, find_order_by_id, save_order, delete_order, create_order, update_order,
  enter_order, reenter_order, order_snapshot, new_order, rewrite_order,
}
use invoicing_be.Order.Service.{
  set_order_template, check_partner, reopen_order, cancel_order, confirm_order, submit_order,
  resubmit_order,
}
use invoicing_be.Order.Lawful.{
  find_order-some, find_order_by_id-eq, find_order_by_id-store, find_order_by_id-Reads, Lawful,
  changed_Lawful, saved_Lawful, changed_Reads, status_step,
}

abbrev pub Same : OrderStatus → OrderStatus → Type 0
Same s t = t ≡ s

module _ {ℓ} {W : Type ℓ} (db : Db W) (company id : Text) where
  pub reopen_order-Lawful :
      Outcome
        (Lawful (λ s t. (is_draft s ≡ false) × (t ≡ draft)) company id db)
        db
        (reopen_order company id db)
  unfolding reopen_order
  reopen_order-Lawful = Outcome-read _ _ _ db (find_order_by_id-store db company id) λ o h.
      Outcome-read _ _ _ db (guard-store _ _ db) λ u g.
        let test : not (is_draft o.status) ≡ true = guard-eq-ok _ _ u db g in
        status_step db company id draft _ o (find_order_by_id-eq db company id o h)
          (ground arith, refl)

  pub cancel_order-Lawful :
      Outcome
        (Lawful (λ s t. (is_cancelled s ≡ false) × (t ≡ cancelled)) company id db)
        db
        (cancel_order company id db)
  unfolding cancel_order
  cancel_order-Lawful = Outcome-read _ _ _ db (find_order_by_id-store db company id) λ o h.
      Outcome-read _ _ _ db (guard-store _ _ db) λ u g.
        let test : not (is_cancelled o.status) ≡ true = guard-eq-ok _ _ u db g in
        status_step db company id cancelled _ o (find_order_by_id-eq db company id o h)
          (ground arith, refl)

  pub confirm_order-Lawful :
      ⦃f : Float W⦄
      → Outcome
          (Lawful (λ s t. (is_draft s ≡ true) × (t ≡ confirmed)) company id db)
          db
          (confirm_order company id db)
  unfolding confirm_order
  confirm_order-Lawful = Outcome-read _ _ _ db (find_order_by_id-store db company id) λ o h.
      Outcome-read _ _ _ db (guard-store _ _ db) λ u g. Outcome-read _ _ _ db refl λ _ _.
        status_step db company id confirmed _ o (find_order_by_id-eq db company id o h)
          (guard-eq-ok _ _ u db g, refl)

  pub delete_order-Lawful : Outcome (Lawful Same company id db) db (delete_order company id db)
  unfolding delete_order
  delete_order-Lawful =
      Outcome-read _ _ _ db (find_order_by_id-store db company id) λ o h.
        changed_Lawful Same db company id _ o (find_order_by_id-eq db company id o h) refl refl

  pub set_order_template-Lawful :
      (template : Text)
      → Outcome (Lawful Same company id db) db (set_order_template company id template db)
  unfolding set_order_template
  set_order_template-Lawful template = Outcome-read _ _ _ db (guard-store _ _ db) λ _ _.
      Outcome-read _ _ _ db (find_order_by_id-store db company id) λ o h.
        let there = find_order_by_id-eq db company id o h in
        Outcome-then _ _ _ db (changed_Lawful Same db company id _ o there refl refl)
          (changed_Reads db company id _ o there refl refl)

  order_snapshot-store :
      (mitra : Text) (contact : Option Text) (current : Text)
      → (order_snapshot {W = W} company mitra contact current db).1 ≡ db
  unfolding order_snapshot
  order_snapshot-store mitra contact current = or_fail-store _ _ db

  check_partner-store : (mitra : Text) → (check_partner {W = W} company mitra db).1 ≡ db
  check_partner-store mitra =
      after_read (λ d. d ≡ db) _ _ db refl refl λ known _. guard-store known _ db

  enter_order-Done :
      (kind : OrderKind) (dto : OrderDto W) (computed : LinesCalc W) (asked : Text) (date : Date)
      → find db.orders id ≡ none
      → Done
          (λ d. Lawful Same company id db d × Reads (find_order_by_id company id) d)
          (enter_order kind id company dto computed asked date db)
  unfolding enter_order
  enter_order-Done kind dto computed asked date gone = Done-read _ _ _ db refl λ number _.
      Done-read _ _ _ db refl λ template _.
        Done-read _ _ _ db (order_snapshot-store _ _ _) λ snap _.
          Done-read _ _ _ db (guard-store _ _ db) λ _ _.
            let o = new_order company dto computed number date template snap in
            (
              saved_Lawful Same db company id o gone refl,
              find_order_by_id-Reads (save_order id o db) company id o (
                  find_order-some (save_order id o db) company id o
                    (find-insert id id o db.orders ∙ rw (≐-refl id) refl) refl refl),
            )

  reenter_order-Done :
      (dto : OrderDto W) (computed : LinesCalc W) (number : Text) (date : Date) (o : Order W)
      → find_order db company id ≡ some o
      → Done
          (λ d. Lawful Same company id db d × Reads (find_order_by_id company id) d)
          (reenter_order id company dto computed number date o db)
  unfolding reenter_order
  reenter_order-Done dto computed number date o there =
      Done-read _ _ _ db (order_snapshot-store _ _ _) λ snap _.
        Done-read _ _ _ db (guard-store _ _ db) λ _ _. (
          changed_Lawful Same db company id (rewrite_order dto computed number date snap) o there
              refl refl,
          changed_Reads db company id (rewrite_order dto computed number date snap) o there refl
              refl,
        )

  pub submit_order-Lawful :
      ⦃f : Float W⦄ (collation : Collation) (kind : OrderKind)
      (limit : Result OrderError (Unit {0})) (dto : OrderDto W)
      → find db.orders id ≡ none
      → Outcome (Lawful Same company id db) db (submit_order collation kind id company limit dto db)
  unfolding submit_order create_order
  submit_order-Lawful collation kind limit dto gone =
      Outcome-read _ _ _ db (check_partner-store dto.mitra_id) λ _ _.
        Outcome-read _ _ _ db refl λ _ _. Outcome-read _ _ _ db refl λ computed _.
          Outcome-read _ _ _ db (or_fail-store _ _ db) λ date _.
            Outcome-read _ _ _ db refl λ taken _. Outcome-read _ _ _ db (guard-store _ _ db) λ _ _.
              Outcome-after _ _ _ db
                (enter_order-Done kind dto computed (trim_space dto.number) date gone)

  pub resubmit_order-Lawful :
      ⦃f : Float W⦄ (collation : Collation) (dto : OrderDto W)
      → Outcome (Lawful Same company id db) db (resubmit_order collation company id dto db)
  unfolding resubmit_order update_order
  resubmit_order-Lawful collation dto =
      Outcome-read _ _ _ db (find_order_by_id-store db company id) λ _ _.
        Outcome-read _ _ _ db (check_partner-store dto.mitra_id) λ _ _.
          Outcome-read _ _ _ db refl λ computed _.
            Outcome-read _ _ _ db (find_order_by_id-store db company id) λ o h.
              Outcome-read _ _ _ db (or_fail-store _ _ db) λ date _.
                Outcome-read _ _ _ db refl λ taken _.
                  Outcome-read _ _ _ db (guard-store _ _ db) λ _ _. Outcome-after _ _ _ db (
                    reenter_order-Done dto computed _ date o
                      (find_order_by_id-eq db company id o h))
