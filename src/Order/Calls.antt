-- ===== src/Order/Calls.antt =====
-- The calls of one company's members on the order services.
use invoicing_be.Base.{◌≡◌, true, false, Result, ok, err}
use invoicing_be.Text.{Text}
use invoicing_be.Money.{Float}
use invoicing_be.Store.{Collation}
use invoicing_be.Order.{
  OrderDto, OrderKind, OrderStatus, draft, confirmed, cancelled, is_draft, is_cancelled, OrderError,
  OrderAction, delete_order,
}
use invoicing_be.Order.Service.{
  set_order_template, reopen_order, cancel_order, confirm_order, submit_order, resubmit_order,
}

-- A call; the texts are the ID, new or old, and for `lay_out` the template.
pub data OrderCall {ℓ} (W : Type ℓ) : Type ℓ where
  place : Text → Result OrderError (Unit {0}) → OrderDto W → OrderCall W
  amend : Text → OrderDto W → OrderCall W
  approve : Text → OrderCall W
  reopen : Text → OrderCall W
  withdraw : Text → OrderCall W
  discard : Text → OrderCall W
  lay_out : Text → Text → OrderCall W

abbrev pub forget {ℓ κ μ} :
    {S : Type ℓ} {E : Type κ} {A : Type μ} → Result E A × S → Result E (Unit {0}) × S
forget (ok a, s) = (ok tt, s)
forget (err e, s) = (err e, s)

module _ {ℓ} {W : Type ℓ} where
  -- The order that the call is about.
  abbrev pub subject : OrderCall W → Text
  subject (place id limit dto) = id
  subject (amend id dto) = id
  subject (approve id) = id
  subject (reopen id) = id
  subject (withdraw id) = id
  subject (discard id) = id
  subject (lay_out id template) = id

  -- How the call may change the status of that order.
  abbrev pub Permits : OrderCall W → OrderStatus → OrderStatus → Type 0
  Permits (place id limit dto) s t = t ≡ s
  Permits (amend id dto) s t = t ≡ s
  Permits (approve id) s t = (is_draft s ≡ true) × (t ≡ confirmed)
  Permits (reopen id) s t = (is_draft s ≡ false) × (t ≡ draft)
  Permits (withdraw id) s t = (is_cancelled s ≡ false) × (t ≡ cancelled)
  Permits (discard id) s t = t ≡ s
  Permits (lay_out id template) s t = t ≡ s

module _ {ℓ} {W : Type ℓ} ⦃f : Float W⦄ (collation : Collation) (kind : OrderKind) where
  unfoldable pub perform_order : Text → OrderCall W → OrderAction W (Unit {0})
  perform_order company (place id limit dto) db =
      forget (submit_order collation kind id company limit dto db)
  perform_order company (amend id dto) db = forget (resubmit_order collation company id dto db)
  perform_order company (approve id) db = forget (confirm_order company id db)
  perform_order company (reopen id) db = forget (reopen_order company id db)
  perform_order company (withdraw id) db = forget (cancel_order company id db)
  perform_order company (discard id) db = delete_order company id db
  perform_order company (lay_out id template) db =
      forget (set_order_template company id template db)
