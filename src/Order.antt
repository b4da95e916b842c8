-- ===== src/Order.antt =====
-- app/repository/sales_order.repository.go and app/service/sales_order.service.go, which are the same
-- as those of purchase orders but for the label of the numbers and the kind of document. The new ID
-- (uuid) is an argument, and so is the answer of the activation service (Activation.antt) on the
-- plan's limit.
pub mod Service
pub mod Calls
pub mod Lawful
pub mod Steps
pub mod Histories
pub mod Answers
pub mod Purchase
mod Tests
use invoicing_be.Base.{
  Bool, true, false, not, ◌&&◌, ◌||◌, Option, none, some, List, [], ◌∷◌, if◌then◌else◌, Result, ok,
  err,
}
use invoicing_be.Text.{Text, lit, ◌≐◌, is_empty, trim_space, has_prefix}
use invoicing_be.Calendar.{Date, parse_date}
use invoicing_be.Numbering.{generate, prefix}
use invoicing_be.LineCalc.{LineInput, LineResult, LinesCalc, LineError}
use invoicing_be.LineCalc.Stored.{stored_lines, is_nil}
use invoicing_be.Store.{
  Action, pure, gets, or_fail, guard, modify, lift, transaction, Collation, ◌>>=◌, ◌>>◌,
}
use invoicing_be.Store.Table.{Table, find, insert, update, remove, rows}
use invoicing_be.Document.Contact.{
  ContactPerson, DocumentContact, ContactSnap, deref_str, contact_snapshot, contact_after,
}
use invoicing_be.Document.Template.{DocumentTemplateDefault, template_for_doc}
use invoicing_be.Sales.Model.{Mitra, Tax}
use invoicing_be.Sales.Receipt.{any, keep}

pub data OrderStatus : Type 0 where
  draft confirmed cancelled : OrderStatus

abbrev pub is_draft : OrderStatus → Bool
is_draft draft = true
is_draft _ = false

abbrev pub is_cancelled : OrderStatus → Bool
is_cancelled cancelled = true
is_cancelled _ = false

-- What tells sales orders from purchase orders: the label of their numbers, and the kind of document.
pub record OrderKind : Type 0 where
  pub label : Text
  pub doc_type : Text

abbrev pub sales_orders : OrderKind
sales_orders = record { label = lit "SO"; doc_type = lit "sales_order" }

abbrev pub purchase_orders : OrderKind
purchase_orders = record { label = lit "PO"; doc_type = lit "purchase_order" }

pub record Order {ℓ} (W : Type ℓ) : Type ℓ where
  pub company_id : Text
  pub mitra_id : Text
  pub number : Text
  pub date : Date
  pub status : OrderStatus
  pub subtotal : W
  pub discount_total : W
  pub tax_total : W
  pub grand_total : W
  pub additional_discount_type : Text
  pub additional_discount_value : W
  pub additional_discount_amount : W
  pub template : Text
  pub contact : DocumentContact
  pub lines : List (LineResult W)
  pub deleted : Bool

-- CreateDTO and UpdateDTO, but for the free text and the attachments.
pub record OrderDto {ℓ} (W : Type ℓ) : Type ℓ where
  pub mitra_id : Text
  pub number : Text
  pub date : Text
  pub lines : List (LineInput W)
  pub additional_discount_type : Text
  pub additional_discount_value : W
  pub contact_person_id : Option Text
  pub template : Text

-- The orders of one kind, and the rows that they refer to.
pub record Db {ℓ} (W : Type ℓ) : Type ℓ where
  pub orders : Table (Order W)
  pub mitras : Table Mitra
  pub taxes : Table (Tax W)
  pub contacts : Table ContactPerson
  pub templates : List DocumentTemplateDefault

pub data OrderError : Type 0 where
  not_found : Text → OrderError
  validation : Text → OrderError
  bad_line : LineError → OrderError  -- ErrValidation with the message of `CalcLines`
  invalid_transition : Text → OrderError
  number_exists : Text → OrderError
  empty_slice : OrderError  -- gorm.ErrEmptySlice, wrapped
  limit_reached : OrderError  -- what CheckTransactionLimit returned

abbrev pub bad_order_date : OrderError
bad_order_date = validation (lit "invalid date (format YYYY-MM-DD)")

abbrev pub OrderAction {ℓ κ} : Type ℓ → Type κ → Type (ℓ ⊔ κ)
OrderAction W A = Action (Db W) OrderError A

module _ {ℓ} {W : Type ℓ} where
  -- The row, if it is the company's and not deleted.
  unfoldable pub find_order : Db W → Text → Text → Option (Order W)
  find_order db company id = elim (find db.orders id) [
    | none ↦ none
    | some o ↦ if (o.company_id ≐ company) && not o.deleted then some o else none
  ]

  -- FindByID
  unfoldable pub find_order_by_id : Text → Text → OrderAction W (Order W)
  find_order_by_id company id db = or_fail (not_found id) (find_order db company id) db

  abbrev pub change_order : Text → (Order W → Order W) → Db W → Db W
  change_order id g db = record db { orders = update id g db.orders }

  abbrev pub save_order : Text → Order W → Db W → Db W
  save_order id o db = record db { orders = insert id o db.orders }

  -- The company's orders that are not deleted, by number.
  unfoldable pub order_numbers : Text → List (Order W) → List Text
  order_numbers company [] = []
  order_numbers company (o ∷ os) =
      let rest = order_numbers company os in
      if (o.company_id ≐ company) && not o.deleted then o.number ∷ rest else rest

  unfoldable pub generate_order_number : OrderKind → Db W → Text → Date → Text
  generate_order_number kind db company date = generate kind.label date.year (
      keep (λ n. has_prefix n (prefix kind.label date.year))
        (order_numbers company (rows db.orders)))

  -- The contact that the order is saved with.
  unfoldable pub order_snapshot : Text → Text → Option Text → Text → OrderAction W ContactSnap
  order_snapshot company mitra contact current db =
      or_fail (validation (lit "contact person does not belong to this partner"))
        (contact_snapshot db.contacts company mitra contact current) db

  -- The row of a new order.
  abbrev pub new_order :
      Text → OrderDto W → LinesCalc W → Text → Date → Text → ContactSnap → Order W
  new_order company dto computed number date template snap = record {
    company_id = company;
    mitra_id = dto.mitra_id;
    number = number;
    date = date;
    status = draft;
    subtotal = computed.subtotal;
    discount_total = computed.discount_total;
    tax_total = computed.tax_total;
    grand_total = computed.grand_total;
    additional_discount_type = computed.additional_discount_type;
    additional_discount_value = computed.additional_discount_value;
    additional_discount_amount = computed.additional_discount_amount;
    template = template;
    contact = snap.contact;
    lines = stored_lines computed.lines;
    deleted = false;
  }

  -- What Update writes, with the lines.
  abbrev pub rewrite_order :
      OrderDto W → LinesCalc W → Text → Date → ContactSnap → Order W → Order W
  rewrite_order dto computed number date snap o = record o {
    mitra_id = dto.mitra_id;
    number = number;
    date = date;
    subtotal = computed.subtotal;
    discount_total = computed.discount_total;
    tax_total = computed.tax_total;
    grand_total = computed.grand_total;
    additional_discount_type = computed.additional_discount_type;
    additional_discount_value = computed.additional_discount_value;
    additional_discount_amount = computed.additional_discount_amount;
    template = (if is_empty (trim_space dto.template) then o.template else trim_space dto.template);
    contact = contact_after snap o.contact;
    lines = stored_lines computed.lines;
  }

  -- The transaction of Create.
  unfoldable pub enter_order :
      OrderKind → Text → Text → OrderDto W → LinesCalc W → Text → Date → OrderAction W (Unit {0})
  enter_order kind id company dto computed asked date = do
    number ←
        gets λ (db : Db W).
          if is_empty asked then generate_order_number kind db company date else asked
    template ← gets λ (db : Db W). template_for_doc db.templates company kind.doc_type dto.template
    snap ← order_snapshot company dto.mitra_id dto.contact_person_id (lit "")
    guard (not (is_nil computed.lines)) empty_slice
    modify (save_order id (new_order company dto computed number date template snap))

  -- The transaction of Update.
  unfoldable pub reenter_order :
      Text → Text → OrderDto W → LinesCalc W → Text → Date → Order W → OrderAction W (Unit {0})
  reenter_order id company dto computed number date existing = do
    snap ← order_snapshot company dto.mitra_id dto.contact_person_id (deref_str existing.contact.id)
    guard (not (is_nil computed.lines)) empty_slice
    modify (change_order id (rewrite_order dto computed number date snap))

  -- SalesOrderRepository.SetStatus
  unfoldable pub set_order_status : Text → Text → OrderStatus → OrderAction W (Unit {0})
  set_order_status company id status = do
    found ← find_order_by_id company id
    modify (change_order id λ o. record o { status = status })

  -- SalesOrderRepository.Delete
  unfoldable pub delete_order : Text → Text → OrderAction W (Unit {0})
  delete_order company id = do
    found ← find_order_by_id company id
    modify (change_order id λ o. record o { deleted = true })

module _ {ℓ} {W : Type ℓ} (collation : Collation) where
  open collation use {lower, equal_fold}

  -- numberExists
  unfoldable pub order_number_taken : Db W → Text → Text → Bool
  order_number_taken db company number =
      any (λ n. lower n ≐ lower number) (order_numbers company (rows db.orders))

  -- The same, but for the order itself.
  unfoldable pub order_number_taken_by_other : Db W → Text → Text → Text → Bool
  order_number_taken_by_other db company number id =
      any (λ n. lower n ≐ lower number) (order_numbers company (rows (remove id db.orders)))

  -- SalesOrderRepository.Create
  unfoldable pub create_order :
      OrderKind → Text → Text → OrderDto W → LinesCalc W → OrderAction W (Order W)
  create_order kind id company dto computed = do
    date ← or_fail bad_order_date (parse_date (trim_space dto.date))
    let number = trim_space dto.number
    taken ← gets λ (db : Db W). order_number_taken db company number
    guard (is_empty number || not taken) (number_exists number)
    transaction (enter_order kind id company dto computed number date)
    find_order_by_id company id

  -- SalesOrderRepository.Update
  unfoldable pub update_order : Text → Text → OrderDto W → LinesCalc W → OrderAction W (Order W)
  update_order company id dto computed = do
    existing ← find_order_by_id company id
    date ← or_fail bad_order_date (parse_date (trim_space dto.date))
    let trimmed = trim_space dto.number
    let number = (if is_empty trimmed then existing.number else trimmed)
    taken ← gets λ (db : Db W). order_number_taken_by_other db company number id
    guard (equal_fold number existing.number || not taken) (number_exists number)
    transaction (reenter_order id company dto computed number date existing)
    find_order_by_id company id
