-- ===== src/Order/Histories.antt =====
-- Histories of calls on the order services, by the members of several companies.
use invoicing_be.Base.{
  ◌≡◌, refl, sym, ◌∙◌, ap, false, none, some, arith, ok, err, Result, inl, inr, Option-cases,
}
use invoicing_be.Text.{Text, ◌≐◌}
use invoicing_be.Money.{Float}
use invoicing_be.Store.{Collation}
use invoicing_be.Store.Table.{find}
use invoicing_be.Store.Outcome.{Outcome}
use invoicing_be.Order.{Order, OrderKind, OrderStatus, Db, OrderError, OrderAction, find_order}
use invoicing_be.Order.Calls.{
  OrderCall, place, amend, approve, reopen, withdraw, discard, lay_out, forget, subject, Permits,
  perform_order,
}
use invoicing_be.Order.Service.{
  set_order_template, reopen_order, cancel_order, confirm_order, submit_order, resubmit_order,
}
use invoicing_be.Order.Lawful.{Lawful}
use invoicing_be.Order.Steps.{
  reopen_order-Lawful, cancel_order-Lawful, confirm_order-Lawful, delete_order-Lawful,
  set_order_template-Lawful, submit_order-Lawful, resubmit_order-Lawful,
}

-- A new order gets an ID that no order has.
abbrev pub IsFresh {ℓ} : {W : Type ℓ} → Db W → OrderCall W → Type ℓ
IsFresh {W = W} db (place id limit dto) = find db.orders id ≡ none
IsFresh db _ = Unit

module _ {ℓ} {W : Type ℓ} where
  done_or_not :
      (P : Db W → Type ℓ) (db : Db W) (r : Result OrderError (Order W) × Db W)
      → Outcome P db r
      → Outcome P db (forget r)
  done_or_not P db (ok a, d) h = h
  done_or_not P db (err e, d) h = h

  forgotten :
      (P : Db W → Type ℓ) (m : OrderAction W (Order W)) (db : Db W)
      → Outcome P db (m db)
      → Outcome P db (forget (m db))
  forgotten P m db h = done_or_not P db (m db) h

  foreign :
      (db : Db W) (company mine j : Text) (o : Order W)
      → find db.orders j ≡ some o
      → o.company_id ≡ company
      → (company ≐ mine) ≡ false
      → find_order db mine j ≡ none
  unfolding find_order
  foreign db company mine j o found own other = ground (arith, found, own, other)

  unlisted : (db : Db W) (mine j : Text) → find db.orders j ≡ none → find_order db mine j ≡ none
  unfolding find_order
  unlisted db mine j gone = ground (arith, gone)

  listed_alike :
      (db d : Db W) (mine j : Text)
      → find d.orders j ≡ find db.orders j
      → find_order d mine j ≡ find_order db mine j
  unfolding find_order
  listed_alike db d mine j e = ground (arith, e)

  module _ (P : OrderStatus → OrderStatus → Type 0) (db d : Db W) (company id mine j : Text)
      (lawful : Lawful P company id db d) (other : (company ≐ mine) ≡ false) where
    -- A lawful step of one company changes nothing that another one finds.
    isolated_step : find_order d mine j ≡ find_order db mine j
    isolated_step = elim (Option-cases (find db.orders j)) [
      | inr (o, e) ↦
          let (o', (e', fate)) = lawful.0 j o e in
          elim fate [
            | inl same ↦ listed_alike db d mine j (e' ∙ rw same (sym e))
            | inr (_, ((own, _), (own', _))) ↦
                foreign d company mine j o' e' own' other
                ∙ sym (foreign db company mine j o e own other)
          ]
      | inl gone ↦ elim (Option-cases (find d.orders j)) [
        | inl gone' ↦ listed_alike db d mine j (gone' ∙ sym gone)
        | inr (o', e') ↦ elim (lawful.1 j o' e') [
          | inl e ↦ listed_alike db d mine j (e' ∙ sym e)
          | inr (_, own') ↦
              foreign d company mine j o' e' own' other ∙ sym (unlisted db mine j gone)
        ]
      ]
    ]

module _ {ℓ} {W : Type ℓ} ⦃f : Float W⦄ (collation : Collation) (kind : OrderKind) where
  -- A call of the sales order or purchase order services, a new order getting a new ID, fails
  -- and changes nothing, or keeps every order: none but the one that the call is about
  -- changes, and that one is the company's, is not deleted before, stays the company's, and
  -- changes its status only from draft to confirmed by Confirm, from confirmed or cancelled to
  -- draft by BackToDraft, and to cancelled from the others by Cancel. Nothing is new after it
  -- but an order of the company under that ID.
  pub perform_order-Lawful :
      (db : Db W) (company : Text) (call : OrderCall W)
      → IsFresh db call
      → Outcome
          (Lawful (Permits call) company (subject call) db)
          db
          (perform_order collation kind company call db)
  unfolding perform_order
  perform_order-Lawful db company (place id limit dto) fresh =
      forgotten (Lawful (Permits {W = W} (place id limit dto)) company id db)
        (submit_order collation kind id company limit dto) db
        (submit_order-Lawful db company id collation kind limit dto fresh)
  perform_order-Lawful db company (amend id dto) fresh =
      forgotten (Lawful (Permits {W = W} (amend id dto)) company id db)
        (resubmit_order collation company id dto) db
        (resubmit_order-Lawful db company id collation dto)
  perform_order-Lawful db company (approve id) fresh =
      forgotten (Lawful (Permits {W = W} (approve id)) company id db) (confirm_order company id) db
        (confirm_order-Lawful db company id)
  perform_order-Lawful db company (reopen id) fresh =
      forgotten (Lawful (Permits {W = W} (reopen id)) company id db) (reopen_order company id) db
        (reopen_order-Lawful db company id)
  perform_order-Lawful db company (withdraw id) fresh =
      forgotten (Lawful (Permits {W = W} (withdraw id)) company id db) (cancel_order company id) db
        (cancel_order-Lawful db company id)
  perform_order-Lawful db company (discard id) fresh = delete_order-Lawful db company id
  perform_order-Lawful db company (lay_out id template) fresh =
      forgotten (Lawful (Permits {W = W} (lay_out id template)) company id db)
        (set_order_template company id template) db
        (set_order_template-Lawful db company id template)

  -- A history of calls of companies other than `mine`.
  pub data OthersHistory (mine : Text) (db : Db W) : Db W → Type ℓ where
    begins : OthersHistory mine db db
    goes_on :
        (d : Db W) (company : Text) (call : OrderCall W)
        → OthersHistory mine db d
        → (company ≐ mine) ≡ false
        → IsFresh d call
        → OthersHistory mine db (perform_order collation kind company call d).1

  step_isolated :
      (db d : Db W) (company mine j : Text) (call : OrderCall W)
      (r : Result OrderError (Unit {0}) × Db W)
      → Outcome (Lawful (Permits call) company (subject call) db) db r
      → (company ≐ mine) ≡ false
      → find_order r.1 mine j ≡ find_order db mine j
  step_isolated db d company mine j call (ok u, d') lawful other =
      isolated_step (Permits call) db d' company (subject call) mine j lawful other
  step_isolated db d company mine j call (err e, d') same other = ap (λ x. find_order x mine j) same

  -- After any history of calls of the order services by the members of other companies,
  -- whatever their outcomes, a company finds under every ID the same order as before, or none
  -- as before, when new orders get new IDs.
  pub others_isolated :
      (mine : Text) (db d : Db W)
      → OthersHistory mine db d
      → (j : Text) → find_order d mine j ≡ find_order db mine j
  others_isolated mine db _ begins j = refl
  others_isolated mine db _ (goes_on d company call before other fresh) j =
      step_isolated d d company mine j call (perform_order collation kind company call d)
        (perform_order-Lawful d company call fresh) other
      ∙ others_isolated mine db d before j
