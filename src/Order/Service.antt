-- ===== src/Order/Service.antt =====
-- app/service/sales_order.service.go: the totals of an order, saving one, and its lifecycle.
use invoicing_be.Base.{Bool, false, not, ◌&&◌, none, some, List, [], Result, map_err}
use invoicing_be.Text.{Text, lit, ◌≐◌}
use invoicing_be.LineCalc.{LineInput, LinesCalc, calc_lines}
use invoicing_be.Money.{Float}
use invoicing_be.Store.{gets, guard, modify, lift, Collation, ◌>>=◌, ◌>>◌}
use invoicing_be.Store.Table.{find}
use invoicing_be.Document.Template.{is_valid_sales_invoice_template}
use invoicing_be.Sales.Invoice.{referenced_taxes, tax_rates, saved_lines}
use invoicing_be.Order.{
  Order, OrderDto, OrderKind, draft, confirmed, cancelled, is_draft, is_cancelled, Db, OrderError,
  validation, bad_line, invalid_transition, OrderAction, find_order_by_id, change_order,
  set_order_status, create_order, update_order,
}

module _ {ℓ} {W : Type ℓ} where
  -- MitraExists
  unfoldable pub partner_exists : Db W → Text → Text → Bool
  partner_exists db company id = elim (find db.mitras id) [
    | none ↦ false
    | some m ↦ (m.company_id ≐ company) && not m.deleted
  ]

  abbrev pub check_partner : Text → Text → OrderAction W (Unit {0})
  check_partner company mitra = do
    known ← gets λ (db : Db W). partner_exists db company mitra
    guard known (validation (lit "partner not found"))

  -- SalesOrderService.SetTemplate
  unfoldable pub set_order_template : Text → Text → Text → OrderAction W (Order W)
  set_order_template company id template = do
    guard (is_valid_sales_invoice_template template) (validation (lit "unknown template"))
    found ← find_order_by_id company id
    modify (change_order id λ o. record o { template = template })
    find_order_by_id company id

  -- SalesOrderService.BackToDraft
  unfoldable pub reopen_order : Text → Text → OrderAction W (Order W)
  reopen_order company id = do
    order ← find_order_by_id company id
    guard (not (is_draft order.status)) (invalid_transition (lit "this order is already a draft"))
    set_order_status company id draft
    find_order_by_id company id

  -- SalesOrderService.Cancel
  unfoldable pub cancel_order : Text → Text → OrderAction W (Order W)
  cancel_order company id = do
    order ← find_order_by_id company id
    guard (not (is_cancelled order.status))
        (invalid_transition (lit "this order is already cancelled"))
    set_order_status company id cancelled
    find_order_by_id company id

module _ {ℓ} {W : Type ℓ} ⦃f : Float W⦄ where
  -- SalesOrderService.calc
  unfoldable pub calc_order :
      Text → List (LineInput W) → Text → W → Db W → Result OrderError (LinesCalc W)
  calc_order company lines disc_type disc_value db = map_err bad_line (
      calc_lines lines (tax_rates company (referenced_taxes [] lines) db.taxes)
        (record { type = disc_type; value = disc_value }))

  abbrev pub order_totals : Text → OrderDto W → OrderAction W (LinesCalc W)
  order_totals company dto = λ (db : Db W).
      lift
        (calc_order company dto.lines dto.additional_discount_type dto.additional_discount_value db)
        db

  -- SalesOrderService.Confirm
  unfoldable pub confirm_order : Text → Text → OrderAction W (Order W)
  confirm_order company id = do
    order ← find_order_by_id company id
    guard (is_draft order.status) (invalid_transition (lit "only a draft order can be confirmed"))
    computed ← λ (db : Db W).
        lift
          (calc_order company (saved_lines order.lines) order.additional_discount_type
            order.additional_discount_value db)
          db
    set_order_status company id confirmed
    find_order_by_id company id

  -- SalesOrderService.Create; `limit` is what CheckTransactionLimit answers.
  unfoldable pub submit_order :
      Collation
      → OrderKind
      → Text
      → Text
      → Result OrderError (Unit {0})
      → OrderDto W
      → OrderAction W (Order W)
  submit_order collation kind id company limit dto = do
    check_partner company dto.mitra_id
    lift limit
    computed ← order_totals company dto
    create_order collation kind id company dto computed

  -- SalesOrderService.Update
  unfoldable pub resubmit_order : Collation → Text → Text → OrderDto W → OrderAction W (Order W)
  resubmit_order collation company id dto = do
    found ← find_order_by_id company id
    check_partner company dto.mitra_id
    computed ← order_totals company dto
    update_order collation company id dto computed
