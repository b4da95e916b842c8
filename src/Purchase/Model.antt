-- ===== src/Purchase/Model.antt =====
-- app/model: purchase invoices and receipts, and the database of these with the partners, their
-- contacts, the taxes and the default layouts that they refer to. A table's key is the row's ID; `deleted` is DeletedAt.
use invoicing_be.Base.{Bool, true, false, not, ◌&&◌, ◌||◌, Option, none, some, List, if◌then◌else◌}
use invoicing_be.Text.{Text, lit, ◌≐◌}
use invoicing_be.Calendar.{Date}
use invoicing_be.LineCalc.{LineResult, LineError}
use invoicing_be.Store.{Action}
use invoicing_be.Store.Table.{Table, find}
use invoicing_be.Sales.Model.{Mitra, Tax}
use invoicing_be.Document.Contact.{ContactPerson, DocumentContact}
use invoicing_be.Document.Template.{DocumentTemplateDefault}

pub data PurchaseInvoiceStatus : Type 0 where
  draft confirmed cancelled : PurchaseInvoiceStatus

abbrev pub is_draft : PurchaseInvoiceStatus → Bool
is_draft draft = true
is_draft _ = false

abbrev pub is_confirmed : PurchaseInvoiceStatus → Bool
is_confirmed confirmed = true
is_confirmed _ = false

abbrev pub is_cancelled : PurchaseInvoiceStatus → Bool
is_cancelled cancelled = true
is_cancelled _ = false

pub data PurchaseInvoicePaymentStatus : Type 0 where
  unpaid partially_paid paid : PurchaseInvoicePaymentStatus

unfoldable pub is_valid_purchase_receipt_payment_method : Text → Bool
is_valid_purchase_receipt_payment_method v =
    (v ≐ lit "cash") || (v ≐ lit "transfer") || (v ≐ lit "other")

pub record PurchaseInvoice {ℓ} (W : Type ℓ) : Type ℓ where
  pub company_id : Text
  pub purchase_order_id : Option Text
  pub mitra_id : Text
  pub number : Text
  pub date : Date
  pub due_date : Option Date
  pub status : PurchaseInvoiceStatus
  pub subtotal : W
  pub discount_total : W
  pub tax_total : W
  pub grand_total : W
  pub paid_amount : W
  pub payment_status : PurchaseInvoicePaymentStatus
  pub additional_discount_type : Text
  pub additional_discount_value : W
  pub additional_discount_amount : W
  pub shipping_cost : W
  pub template : Text
  pub contact : DocumentContact
  pub lines : List (LineResult W)
  pub deleted : Bool

pub record PurchaseReceipt {ℓ} (W : Type ℓ) : Type ℓ where
  pub company_id : Text
  pub mitra_id : Text
  pub purchase_invoice_id : Option Text
  pub number : Text
  pub date : Date
  pub amount : W
  pub payment_method : Text
  pub bank_account_id : Option Text
  pub deleted : Bool

pub record Db {ℓ} (W : Type ℓ) : Type ℓ where
  pub invoices : Table (PurchaseInvoice W)
  pub receipts : Table (PurchaseReceipt W)
  pub mitras : Table Mitra
  pub taxes : Table (Tax W)
  pub contacts : Table ContactPerson
  pub templates : List DocumentTemplateDefault

-- The errors of the purchase repositories and services. Messages are the program's where a type of
-- error has several.
pub data PurchaseError {ℓ} (W : Type ℓ) : Type ℓ where
  not_found : Text → PurchaseError W
  validation : Text → PurchaseError W
  bad_line : LineError → PurchaseError W  -- ErrValidation with the message of `CalcLines`
  invalid_transition : Text → PurchaseError W
  number_exists : Text → PurchaseError W
  in_use : PurchaseError W
  empty_slice : PurchaseError W  -- gorm.ErrEmptySlice, wrapped
  invoice_not_confirmed : PurchaseError W
  invoice_mismatch : Text → PurchaseError W
  invoice_exceeds_balance : W → PurchaseError W
  exceeds_balance : W → PurchaseError W

abbrev pub PurchaseAction {ℓ κ} : Type ℓ → Type κ → Type (ℓ ⊔ κ)
PurchaseAction W A = Action (Db W) (PurchaseError W) A

module _ {ℓ} {W : Type ℓ} where
  -- The row, if it is the company's; deleted rows too (Unscoped).
  unfoldable pub unscoped_purchase_invoice : Db W → Text → Text → Option (PurchaseInvoice W)
  unscoped_purchase_invoice db company id = elim (find db.invoices id) [
    | none ↦ none
    | some i ↦ if i.company_id ≐ company then some i else none
  ]

  -- The row, if it is the company's and not deleted.
  unfoldable pub find_purchase_invoice : Db W → Text → Text → Option (PurchaseInvoice W)
  find_purchase_invoice db company id = elim (find db.invoices id) [
    | none ↦ none
    | some i ↦ if (i.company_id ≐ company) && not i.deleted then some i else none
  ]

  unfoldable pub find_purchase_receipt : Db W → Text → Text → Option (PurchaseReceipt W)
  find_purchase_receipt db company id = elim (find db.receipts id) [
    | none ↦ none
    | some r ↦ if (r.company_id ≐ company) && not r.deleted then some r else none
  ]

  -- MitraExists
  unfoldable pub vendor_exists : Db W → Text → Text → Bool
  vendor_exists db company id = elim (find db.mitras id) [
    | none ↦ false
    | some m ↦ (m.company_id ≐ company) && not m.deleted
  ]
