-- ===== src/Order/Purchase.antt =====
-- app/repository/purchase_order.repository.go and app/service/purchase_order.service.go: the purchase
-- orders, as the orders of their kind. What the two kinds share stands in Order.antt and Service.antt.
use invoicing_be.Base.{Bool, List, Result}
use invoicing_be.Text.{Text}
use invoicing_be.Calendar.{Date}
use invoicing_be.LineCalc.{LineInput, LinesCalc}
use invoicing_be.Money.{Float}
use invoicing_be.Store.{Collation}
use invoicing_be.Order.{
  Order, OrderDto, OrderStatus, Db, OrderError, OrderAction, purchase_orders, find_order_by_id,
  set_order_status, delete_order, generate_order_number, order_number_taken, enter_order,
  reenter_order, create_order, update_order,
}
use invoicing_be.Order.Service.{
  partner_exists, calc_order, set_order_template, reopen_order, cancel_order, confirm_order,
  submit_order, resubmit_order,
}

module _ {ℓ} {W : Type ℓ} where
  -- PurchaseOrderRepository.FindByID
  abbrev pub find_purchase_order : Text → Text → OrderAction W (Order W)
  find_purchase_order = find_order_by_id

  -- PurchaseOrderRepository.SetStatus
  abbrev pub set_purchase_order_status : Text → Text → OrderStatus → OrderAction W (Unit {0})
  set_purchase_order_status = set_order_status

  -- PurchaseOrderRepository.Delete
  abbrev pub delete_purchase_order : Text → Text → OrderAction W (Unit {0})
  delete_purchase_order = delete_order

  -- PurchaseOrderRepository.MitraExists
  abbrev pub vendor_exists : Db W → Text → Text → Bool
  vendor_exists = partner_exists

  abbrev pub generate_purchase_order_number : Db W → Text → Date → Text
  generate_purchase_order_number = generate_order_number purchase_orders

  -- PurchaseOrderRepository.numberExists, for a new order
  abbrev pub purchase_order_number_taken : Collation → Db W → Text → Text → Bool
  purchase_order_number_taken = order_number_taken

  -- The transaction of Create.
  abbrev pub enter_purchase_order :
      Text → Text → OrderDto W → LinesCalc W → Text → Date → OrderAction W (Unit {0})
  enter_purchase_order = enter_order purchase_orders

  -- The transaction of Update.
  abbrev pub reenter_purchase_order :
      Text → Text → OrderDto W → LinesCalc W → Text → Date → Order W → OrderAction W (Unit {0})
  reenter_purchase_order = reenter_order

  -- PurchaseOrderRepository.Create
  abbrev pub create_purchase_order :
      Collation → Text → Text → OrderDto W → LinesCalc W → OrderAction W (Order W)
  create_purchase_order collation = create_order collation purchase_orders

  -- PurchaseOrderRepository.Update
  abbrev pub update_purchase_order :
      Collation → Text → Text → OrderDto W → LinesCalc W → OrderAction W (Order W)
  update_purchase_order = update_order

  -- PurchaseOrderService.SetTemplate
  abbrev pub set_purchase_order_template : Text → Text → Text → OrderAction W (Order W)
  set_purchase_order_template = set_order_template

  -- PurchaseOrderService.BackToDraft
  abbrev pub reopen_purchase_order : Text → Text → OrderAction W (Order W)
  reopen_purchase_order = reopen_order

  -- PurchaseOrderService.Cancel
  abbrev pub cancel_purchase_order : Text → Text → OrderAction W (Order W)
  cancel_purchase_order = cancel_order

module _ {ℓ} {W : Type ℓ} ⦃f : Float W⦄ where
  -- PurchaseOrderService.calc
  abbrev pub calc_purchase_order :
      Text → List (LineInput W) → Text → W → Db W → Result OrderError (LinesCalc W)
  calc_purchase_order = calc_order

  -- PurchaseOrderService.Confirm
  abbrev pub confirm_purchase_order : Text → Text → OrderAction W (Order W)
  confirm_purchase_order = confirm_order

  -- PurchaseOrderService.Create
  abbrev pub submit_purchase_order :
      Collation → Text → Text → Result OrderError (Unit {0}) → OrderDto W → OrderAction W (Order W)
  submit_purchase_order collation = submit_order collation purchase_orders

  -- PurchaseOrderService.Update
  abbrev pub resubmit_purchase_order :
      Collation → Text → Text → OrderDto W → OrderAction W (Order W)
  resubmit_purchase_order = resubmit_order
