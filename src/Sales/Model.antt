-- ===== src/Sales/Model.antt =====
-- app/model: sales invoices, payments, receipts and allocations, the partners and taxes that they
-- refer to, and the database of these. A table's key is the row's ID; `deleted` is DeletedAt.
use invoicing_be.Base.{Bool, true, false, not, ◌&&◌, ◌||◌, Option, none, some, List, if◌then◌else◌}
use invoicing_be.Text.{Text, lit, ◌≐◌, is_empty, trim_space}
use invoicing_be.Calendar.{Date}
use invoicing_be.Document.Contact.{ContactPerson, DocumentContact}
use invoicing_be.Document.Template.{DocumentTemplateDefault}
use invoicing_be.LineCalc.{LineResult, LineError}
use invoicing_be.Store.{Action}
use invoicing_be.Store.Table.{Table, find}

pub data SalesInvoiceStatus : Type 0 where
  draft confirmed cancelled : SalesInvoiceStatus

abbrev pub is_draft : SalesInvoiceStatus → Bool
is_draft draft = true
is_draft _ = false

abbrev pub is_confirmed : SalesInvoiceStatus → Bool
is_confirmed confirmed = true
is_confirmed _ = false

abbrev pub is_cancelled : SalesInvoiceStatus → Bool
is_cancelled cancelled = true
is_cancelled _ = false

pub data SalesInvoicePaymentStatus : Type 0 where
  unpaid partially_paid paid : SalesInvoicePaymentStatus

pub data SalesPaymentStatus : Type 0 where
  pending verified : SalesPaymentStatus

abbrev pub is_pending : SalesPaymentStatus → Bool
is_pending pending = true
is_pending verified = false

unfoldable pub is_valid_sales_invoice_kind : Text → Bool
is_valid_sales_invoice_kind v = (v ≐ lit "invoice") || (v ≐ lit "down_payment")

unfoldable pub is_valid_sales_receipt_payment_method : Text → Bool
is_valid_sales_receipt_payment_method v =
    (v ≐ lit "cash") || (v ≐ lit "transfer") || (v ≐ lit "other")

pub record SalesInvoice {ℓ} (W : Type ℓ) : Type ℓ where
  pub company_id : Text
  pub sales_order_id : Option Text
  pub linked_invoice_id : Option Text
  pub mitra_id : Text
  pub kind : Text
  pub number : Text
  pub date : Date
  pub due_date : Option Date
  pub template : Text
  pub contact : DocumentContact
  pub status : SalesInvoiceStatus
  pub subtotal : W
  pub discount_total : W
  pub tax_total : W
  pub grand_total : W
  pub additional_discount_type : Text
  pub additional_discount_value : W
  pub additional_discount_amount : W
  pub shipping_cost : W
  pub paid_amount : W
  pub payment_status : SalesInvoicePaymentStatus
  pub lines : List (LineResult W)
  pub deleted : Bool

pub record SalesPayment {ℓ} (W : Type ℓ) : Type ℓ where
  pub company_id : Text
  pub sales_invoice_id : Text
  pub mitra_id : Text
  pub number : Text
  pub date : Date
  pub amount : W
  pub payment_method : Text
  pub bank_account_id : Option Text
  pub status : SalesPaymentStatus
  pub verified_by : Text

pub record SalesReceipt {ℓ} (W : Type ℓ) : Type ℓ where
  pub company_id : Text
  pub mitra_id : Text
  pub number : Text
  pub date : Date
  pub amount : W
  pub payment_method : Text
  pub bank_account_id : Option Text
  pub deleted : Bool

pub record SalesReceiptAllocation {ℓ} (W : Type ℓ) : Type ℓ where
  pub sales_receipt_id : Text
  pub sales_invoice_id : Text
  pub company_id : Text
  pub amount : W

pub record Mitra : Type 0 where
  pub company_id : Text
  pub deleted : Bool

pub record Tax {ℓ} (W : Type ℓ) : Type ℓ where
  pub company_id : Text
  pub rate : W
  pub calc_method : Text
  pub is_active : Bool
  pub deleted : Bool

pub record Db {ℓ} (W : Type ℓ) : Type ℓ where
  pub invoices : Table (SalesInvoice W)
  pub payments : Table (SalesPayment W)
  pub receipts : Table (SalesReceipt W)
  pub allocations : List (SalesReceiptAllocation W)
  pub mitras : Table Mitra
  pub taxes : Table (Tax W)
  pub contacts : Table ContactPerson
  pub templates : List DocumentTemplateDefault

-- The errors of the sales repositories and services. Messages are the program's where a type of
-- error has several.
pub data SalesError {ℓ} (W : Type ℓ) : Type ℓ where
  not_found : Text → SalesError W
  validation : Text → SalesError W
  bad_line : LineError → SalesError W  -- ErrValidation with the message of `CalcLines`
  invalid_transition : Text → SalesError W
  number_exists : Text → SalesError W
  in_use : SalesError W
  empty_slice : SalesError W  -- gorm.ErrEmptySlice, wrapped
  invoice_not_confirmed : SalesError W
  invoice_exceeds_balance : W → SalesError W
  exceeds_balance : W → SalesError W
  record_not_found : SalesError W  -- gorm.ErrRecordNotFound, wrapped
  limit_reached : SalesError W  -- what CheckTransactionLimit returned

abbrev pub SalesAction {ℓ κ} : Type ℓ → Type κ → Type (ℓ ⊔ κ)
SalesAction W A = Action (Db W) (SalesError W) A

module _ {ℓ} {W : Type ℓ} where
  -- The row, if it is the company's; deleted rows too (Unscoped).
  unfoldable pub unscoped_invoice : Db W → Text → Text → Option (SalesInvoice W)
  unscoped_invoice db company id = elim (find db.invoices id) [
    | none ↦ none
    | some i ↦ if i.company_id ≐ company then some i else none
  ]

  -- The row, if it is the company's and not deleted.
  unfoldable pub find_invoice : Db W → Text → Text → Option (SalesInvoice W)
  find_invoice db company id = elim (find db.invoices id) [
    | none ↦ none
    | some i ↦ if (i.company_id ≐ company) && not i.deleted then some i else none
  ]

  unfoldable pub find_payment : Db W → Text → Text → Option (SalesPayment W)
  find_payment db company id = elim (find db.payments id) [
    | none ↦ none
    | some p ↦ if p.company_id ≐ company then some p else none
  ]

  unfoldable pub find_receipt : Db W → Text → Text → Option (SalesReceipt W)
  find_receipt db company id = elim (find db.receipts id) [
    | none ↦ none
    | some r ↦ if (r.company_id ≐ company) && not r.deleted then some r else none
  ]

  -- MitraExists
  unfoldable pub mitra_exists : Db W → Text → Text → Bool
  mitra_exists db company id = elim (find db.mitras id) [
    | none ↦ false
    | some m ↦ (m.company_id ≐ company) && not m.deleted
  ]

-- trimPtr
unfoldable pub trim_ptr : Option Text → Option Text
trim_ptr none = none
trim_ptr (some p) = let v = trim_space p in if is_empty v then none else some v
