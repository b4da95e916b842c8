-- ===== src/Purchase/Invoice/Save.antt =====
-- app/repository/purchase_invoice.repository.go and app/service/purchase_invoice.service.go: saving
-- a new bill and a changed one. The new ID (uuid) is an argument, and so is
-- the answer of the activation service (Activation.antt) on the plan's limit.
use invoicing_be.Base.{
  Bool, false, not, ◌&&◌, ◌||◌, Option, none, some, List, [], ◌∷◌, if◌then◌else◌, Result, ok, err,
}
use invoicing_be.Text.{Text, lit, ◌≐◌, is_empty, trim_space, has_prefix}
use invoicing_be.Calendar.{Date, parse_date, is_due_before}
use invoicing_be.Numbering.{generate, prefix}
use invoicing_be.LineCalc.Stored.{stored_lines, is_nil}
use invoicing_be.LineCalc.{LineInput, LinesCalc}
use invoicing_be.Money.{Float}
use invoicing_be.Store.{
  pure, gets, or_fail, guard, modify, lift, transaction, Collation, ◌>>=◌, ◌>>◌,
}
use invoicing_be.Store.Table.{insert, remove, rows}
use invoicing_be.Document.Contact.{ContactSnap, deref_str, contact_snapshot, contact_after}
use invoicing_be.Document.Template.{template_for_doc}
use invoicing_be.Sales.Model.{trim_ptr}
use invoicing_be.Sales.Receipt.{any, keep}
use invoicing_be.Purchase.Model.{
  empty_slice, PurchaseInvoice, draft, unpaid, Db, PurchaseError, validation, number_exists,
  PurchaseAction, vendor_exists,
}
use invoicing_be.Purchase.Balance.{change_invoice, refresh_purchase_invoice_payment_status}
use invoicing_be.Purchase.Invoice.{find_bill_by_id, calc}

-- CreateDTO and UpdateDTO of app/domain/purchaseinvoice, but for the free text and the attachments.
pub record PurchaseInvoiceDto {ℓ} (W : Type ℓ) : Type ℓ where
  pub purchase_order_id : Option Text
  pub mitra_id : Text
  pub number : Text
  pub date : Text
  pub due_date : Text
  pub lines : List (LineInput W)
  pub additional_discount_type : Text
  pub additional_discount_value : W
  pub shipping_cost : W
  pub contact_person_id : Option Text
  pub template : Text

module _ {ℓ} {W : Type ℓ} where
  unfoldable pub parse_purchase_invoice_date : Text → Result (PurchaseError W) Date
  parse_purchase_invoice_date s = elim (parse_date (trim_space s)) [
    | none ↦ err (validation (lit "invalid date (format YYYY-MM-DD)"))
    | some date ↦ ok date
  ]

  unfoldable pub parse_optional_purchase_invoice_date :
      Text → Result (PurchaseError W) (Option Date)
  parse_optional_purchase_invoice_date s =
      if is_empty (trim_space s)
      then ok none
      else elim (parse_purchase_invoice_date s) [ ok date ↦ ok (some date) | err e ↦ err e ]

  -- The dates of a bill, as Create and Update read them.
  unfoldable pub read_dates : PurchaseInvoiceDto W → PurchaseAction W (Date × Option Date)
  read_dates dto = do
    date ← lift (parse_purchase_invoice_date dto.date)
    due ← lift (parse_optional_purchase_invoice_date dto.due_date)
    guard (not (is_due_before due date))
        (validation (lit "due date can't be earlier than the invoice date"))
    pure (date, due)

  -- The company's bills that are not deleted, by number.
  unfoldable pub purchase_invoice_numbers : Text → List (PurchaseInvoice W) → List Text
  purchase_invoice_numbers company [] = []
  purchase_invoice_numbers company (i ∷ is') =
      let rest = purchase_invoice_numbers company is' in
      if (i.company_id ≐ company) && not i.deleted then i.number ∷ rest else rest

  unfoldable pub generate_purchase_invoice_number : Db W → Text → Date → Text
  generate_purchase_invoice_number db company date = generate (lit "BILL") date.year (
      keep (λ n. has_prefix n (prefix (lit "BILL") date.year))
        (purchase_invoice_numbers company (rows db.invoices)))

  abbrev pub save_invoice : Text → PurchaseInvoice W → Db W → Db W
  save_invoice id i db = record db { invoices = insert id i db.invoices }

  -- The contact that the bill is saved with.
  unfoldable pub snapshot : Text → Text → Option Text → Text → PurchaseAction W ContactSnap
  snapshot company mitra contact current db =
      or_fail (validation (lit "contact person does not belong to this partner"))
        (contact_snapshot db.contacts company mitra contact current) db

  -- The columns that Update writes, but for the lines.
  abbrev pub rewritten :
      PurchaseInvoiceDto W
      → LinesCalc W
      → Text
      → Date
      → Option Date
      → ContactSnap
      → PurchaseInvoice W
      → PurchaseInvoice W
  rewritten dto computed number date due snap i = record i {
    purchase_order_id = trim_ptr dto.purchase_order_id;
    mitra_id = dto.mitra_id;
    number = number;
    date = date;
    due_date = due;
    subtotal = computed.subtotal;
    discount_total = computed.discount_total;
    tax_total = computed.tax_total;
    grand_total = computed.grand_total;
    additional_discount_type = computed.additional_discount_type;
    additional_discount_value = computed.additional_discount_value;
    additional_discount_amount = computed.additional_discount_amount;
    shipping_cost = dto.shipping_cost;
    template = (if is_empty (trim_space dto.template) then i.template else trim_space dto.template);
    contact = contact_after snap i.contact;
  }

module _ {ℓ} {W : Type ℓ} (collation : Collation) where
  open collation use {lower}

  -- numberExists
  unfoldable pub invoice_number_taken : Db W → Text → Text → Bool
  invoice_number_taken db company number =
      any (λ n. lower n ≐ lower number) (purchase_invoice_numbers company (rows db.invoices))

  -- The same, but for the bill itself.
  unfoldable pub invoice_number_taken_by_other : Db W → Text → Text → Text → Bool
  invoice_number_taken_by_other db company number id =
      any (λ n. lower n ≐ lower number)
        (purchase_invoice_numbers company (rows (remove id db.invoices)))

module _ {ℓ} {W : Type ℓ} ⦃f : Float W⦄ where
  -- The transaction of Create.
  unfoldable pub enter_purchase_invoice :
      Text
      → Text
      → PurchaseInvoiceDto W
      → LinesCalc W
      → Text
      → Date
      → Option Date
      → PurchaseAction W (Unit {0})
  enter_purchase_invoice id company dto computed asked date due = do
    number ← gets λ (db : Db W).
        if is_empty asked then generate_purchase_invoice_number db company date else asked
    template ←
        gets
          λ (db : Db W). template_for_doc db.templates company (lit "purchase_invoice") dto.template
    snap ← snapshot company dto.mitra_id dto.contact_person_id (lit "")
    guard (not (is_nil computed.lines)) empty_slice
    modify (
        save_invoice id (record {
          company_id = company;
          purchase_order_id = trim_ptr dto.purchase_order_id;
          mitra_id = dto.mitra_id;
          number = number;
          date = date;
          due_date = due;
          status = draft;
          subtotal = computed.subtotal;
          discount_total = computed.discount_total;
          tax_total = computed.tax_total;
          grand_total = computed.grand_total;
          paid_amount = f.nought;
          payment_status = unpaid;
          additional_discount_type = computed.additional_discount_type;
          additional_discount_value = computed.additional_discount_value;
          additional_discount_amount = computed.additional_discount_amount;
          shipping_cost = dto.shipping_cost;
          template = template;
          contact = snap.contact;
          lines = stored_lines computed.lines;
          deleted = false;
        }))

  -- The transaction of Update.
  unfoldable pub reenter_purchase_invoice :
      Text
      → Text
      → PurchaseInvoiceDto W
      → LinesCalc W
      → Text
      → Date
      → Option Date
      → PurchaseInvoice W
      → PurchaseAction W (Unit {0})
  reenter_purchase_invoice id company dto computed number date due existing = do
    snap ← snapshot company dto.mitra_id dto.contact_person_id (deref_str existing.contact.id)
    guard (not (is_nil computed.lines)) empty_slice
    modify (change_invoice id (rewritten dto computed number date due snap))
    refresh_purchase_invoice_payment_status company id
    modify (change_invoice id λ i. record i { lines = stored_lines computed.lines })

  abbrev pub check_mitra : Text → Text → PurchaseAction W (Unit {0})
  check_mitra company mitra = do
    known ← gets λ (db : Db W). vendor_exists db company mitra
    guard known (validation (lit "partner not found"))

  abbrev pub totals : Text → PurchaseInvoiceDto W → PurchaseAction W (LinesCalc W)
  totals company dto = λ (db : Db W).
      lift
        (calc company dto.lines dto.additional_discount_type dto.additional_discount_value
          dto.shipping_cost db)
        db

module _ {ℓ} {W : Type ℓ} ⦃f : Float W⦄ (collation : Collation) where
  open collation use {equal_fold}

  -- PurchaseInvoiceRepository.Create
  unfoldable pub create_purchase_invoice :
      Text → Text → PurchaseInvoiceDto W → LinesCalc W → PurchaseAction W (PurchaseInvoice W)
  create_purchase_invoice id company dto computed = do
    dates ← read_dates dto
    let number = trim_space dto.number
    taken ← gets λ (db : Db W). invoice_number_taken collation db company number
    guard (is_empty number || not taken) (number_exists number)
    transaction (enter_purchase_invoice id company dto computed number dates.0 dates.1)
    find_bill_by_id company id

  -- PurchaseInvoiceRepository.Update
  unfoldable pub update_purchase_invoice :
      Text → Text → PurchaseInvoiceDto W → LinesCalc W → PurchaseAction W (PurchaseInvoice W)
  update_purchase_invoice company id dto computed = do
    existing ← find_bill_by_id company id
    dates ← read_dates dto
    let trimmed = trim_space dto.number
    let number = (if is_empty trimmed then existing.number else trimmed)
    taken ← gets λ (db : Db W). invoice_number_taken_by_other collation db company number id
    guard (equal_fold number existing.number || not taken) (number_exists number)
    transaction (reenter_purchase_invoice id company dto computed number dates.0 dates.1 existing)
    find_bill_by_id company id

  -- PurchaseInvoiceService.Create; `limit` is what CheckTransactionLimit answers.
  unfoldable pub submit_purchase_invoice :
      Text
      → Text
      → Result (PurchaseError W) (Unit {0})
      → PurchaseInvoiceDto W
      → PurchaseAction W (PurchaseInvoice W)
  submit_purchase_invoice id company limit dto = do
    check_mitra company dto.mitra_id
    lift limit
    computed ← totals company dto
    create_purchase_invoice id company dto computed

  -- PurchaseInvoiceService.Update
  unfoldable pub resubmit_purchase_invoice :
      Text → Text → PurchaseInvoiceDto W → PurchaseAction W (PurchaseInvoice W)
  resubmit_purchase_invoice company id dto = do
    found ← find_bill_by_id company id
    check_mitra company dto.mitra_id
    computed ← totals company dto
    update_purchase_invoice company id dto computed
