-- ===== src/Sales/Receipt/Accept.antt =====
-- When the transaction of a new receipt succeeds.
use invoicing_be.Base.{◌+◌, ◌≤◌, ◌≡◌, true, some, List}
use invoicing_be.Text.{Text, ◌≐◌}
use invoicing_be.Money.{Float, IsCents}
use invoicing_be.Sales.Model.{SalesInvoice, is_confirmed, Db, find_invoice}
use invoicing_be.Sales.Balance.Ledger.{Ledger}
use invoicing_be.Sales.Receipt.{AllocationDto}
use invoicing_be.Sales.Receipt.Ledger.{given_to}

module _ {ℓ} {W : Type ℓ} ⦃f : Float W⦄ (laws : IsCents W) where
  open laws use {IsAmount, cents}

  -- The partner's confirmed invoice is there, with room for all that the list gives to it.
  abbrev pub HasRoom :
      Db W → Ledger → Text → Text → List (AllocationDto W) → AllocationDto W → Type ℓ
  HasRoom db ledger company mitra all a =
      (i : SalesInvoice W) × (find_invoice db company a.sales_invoice_id ≡ some i)
      × ((i.mitra_id ≐ mitra) ≡ true)
      × (is_confirmed i.status ≡ true)
      × (ledger a.sales_invoice_id + given_to laws a.sales_invoice_id all ≤ cents i.grand_total)
