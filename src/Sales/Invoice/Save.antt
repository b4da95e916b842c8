-- ===== src/Sales/Invoice/Save.antt =====
-- app/repository/sales_invoice.repository.go and app/service/sales_invoice.service.go: saving a new
-- invoice and a changed one. The new ID (uuid) is an argument, and so is the
-- answer of the activation service (Activation.antt) on the plan's limit.
use invoicing_be.Base.{
  Bool, false, not, ◌&&◌, ◌||◌, Option, none, some, List, [], ◌∷◌, if◌then◌else◌, Result, ok, err,
}
use invoicing_be.Text.{Text, lit, ◌≐◌, is_empty, trim_space, has_prefix}
use invoicing_be.Calendar.{Date, parse_date, is_due_before}
use invoicing_be.Numbering.{generate, prefix}
use invoicing_be.LineCalc.Stored.{stored_lines, is_nil}
use invoicing_be.LineCalc.{LineInput, LinesCalc}
use invoicing_be.Money.{Float}
use invoicing_be.Store.{
  pure, gets, or_fail, guard, modify, lift, transaction, Collation, ◌>>=◌, ◌>>◌,
}
use invoicing_be.Store.Table.{insert, remove, rows}
use invoicing_be.Document.Contact.{ContactSnap, deref_str, contact_snapshot, contact_after}
use invoicing_be.Document.Template.{DocumentTemplateDefault, document_template_for}
use invoicing_be.Sales.Model.{empty_slice, trim_ptr}
use invoicing_be.Sales.Receipt.{any, keep}
use invoicing_be.Sales.Model.{
  SalesInvoice, draft, unpaid, Db, SalesError, validation, number_exists, SalesAction, mitra_exists,
  is_valid_sales_invoice_kind,
}
use invoicing_be.Sales.Balance.{change_invoice, refresh_sales_invoice_payment_status}
use invoicing_be.Sales.Invoice.{find_invoice_by_id, calc}

-- CreateDTO of app/domain/salesinvoice, but for the free text and the attachments; UpdateDTO is the
-- same without the kind.
pub record SalesInvoiceDto {ℓ} (W : Type ℓ) : Type ℓ where
  pub kind : Text
  pub sales_order_id : Option Text
  pub linked_invoice_id : Option Text
  pub mitra_id : Text
  pub number : Text
  pub date : Text
  pub due_date : Text
  pub lines : List (LineInput W)
  pub additional_discount_type : Text
  pub additional_discount_value : W
  pub shipping_cost : W
  pub contact_person_id : Option Text
  pub template : Text

-- The label of the numbers of a kind of invoice.
unfoldable pub label_of : Text → Text
label_of kind = if kind ≐ lit "down_payment" then lit "DP" else lit "INV"

-- The layout of a new invoice.
unfoldable pub template_for : List DocumentTemplateDefault → Text → Text → Text → Text
template_for defaults company kind explicit =
    let doc_type =
      (if kind ≐ lit "down_payment" then lit "down_payment" else lit "sales_invoice") in
    let v = trim_space explicit in
    if is_empty v then document_template_for defaults company doc_type else v

module _ {ℓ} {W : Type ℓ} where
  unfoldable pub parse_sales_invoice_date : Text → Result (SalesError W) Date
  parse_sales_invoice_date s = elim (parse_date (trim_space s)) [
    | none ↦ err (validation (lit "invalid date (format YYYY-MM-DD)"))
    | some date ↦ ok date
  ]

  unfoldable pub parse_optional_sales_invoice_date : Text → Result (SalesError W) (Option Date)
  parse_optional_sales_invoice_date s =
      if is_empty (trim_space s)
      then ok none
      else elim (parse_sales_invoice_date s) [ ok date ↦ ok (some date) | err e ↦ err e ]

  -- The dates of an invoice, as Create and Update read them.
  unfoldable pub invoice_dates : SalesInvoiceDto W → SalesAction W (Date × Option Date)
  invoice_dates dto = do
    date ← lift (parse_sales_invoice_date dto.date)
    due ← lift (parse_optional_sales_invoice_date dto.due_date)
    guard (not (is_due_before due date))
        (validation (lit "due date can't be earlier than the invoice date"))
    pure (date, due)

  -- The company's invoices that are not deleted, by number.
  unfoldable pub sales_invoice_numbers : Text → List (SalesInvoice W) → List Text
  sales_invoice_numbers company [] = []
  sales_invoice_numbers company (i ∷ is') =
      let rest = sales_invoice_numbers company is' in
      if (i.company_id ≐ company) && not i.deleted then i.number ∷ rest else rest

  -- The invoices of one kind.
  unfoldable pub of_kind : Text → List (SalesInvoice W) → List (SalesInvoice W)
  of_kind kind [] = []
  of_kind kind (i ∷ is') = let rest = of_kind kind is' in if i.kind ≐ kind then i ∷ rest else rest

  unfoldable pub generate_sales_invoice_number : Db W → Text → Text → Date → Text
  generate_sales_invoice_number db company kind date = generate (label_of kind) date.year (
      keep (λ n. has_prefix n (prefix (label_of kind) date.year))
        (sales_invoice_numbers company (of_kind kind (rows db.invoices))))

  abbrev pub add_invoice : Text → SalesInvoice W → Db W → Db W
  add_invoice id i db = record db { invoices = insert id i db.invoices }

  -- The contact that the invoice is saved with.
  unfoldable pub sales_snapshot : Text → Text → Option Text → Text → SalesAction W ContactSnap
  sales_snapshot company mitra contact current db =
      or_fail (validation (lit "contact person does not belong to this partner"))
        (contact_snapshot db.contacts company mitra contact current) db

  -- The columns that Update writes, but for the lines.
  abbrev pub rewrite_invoice :
      SalesInvoiceDto W
      → LinesCalc W
      → Text
      → Date
      → Option Date
      → ContactSnap
      → SalesInvoice W
      → SalesInvoice W
  rewrite_invoice dto computed number date due snap i = record i {
    sales_order_id = trim_ptr dto.sales_order_id;
    linked_invoice_id = trim_ptr dto.linked_invoice_id;
    mitra_id = dto.mitra_id;
    number = number;
    date = date;
    due_date = due;
    subtotal = computed.subtotal;
    discount_total = computed.discount_total;
    tax_total = computed.tax_total;
    grand_total = computed.grand_total;
    additional_discount_type = computed.additional_discount_type;
    additional_discount_value = computed.additional_discount_value;
    additional_discount_amount = computed.additional_discount_amount;
    shipping_cost = dto.shipping_cost;
    template = (if is_empty (trim_space dto.template) then i.template else trim_space dto.template);
    contact = contact_after snap i.contact;
  }

module _ {ℓ} {W : Type ℓ} (collation : Collation) where
  open collation use {lower}

  -- numberExists
  unfoldable pub sales_number_taken : Db W → Text → Text → Bool
  sales_number_taken db company number =
      any (λ n. lower n ≐ lower number) (sales_invoice_numbers company (rows db.invoices))

  -- The same, but for the invoice itself.
  unfoldable pub sales_number_taken_by_other : Db W → Text → Text → Text → Bool
  sales_number_taken_by_other db company number id =
      any (λ n. lower n ≐ lower number)
        (sales_invoice_numbers company (rows (remove id db.invoices)))

module _ {ℓ} {W : Type ℓ} ⦃f : Float W⦄ where
  -- The transaction of Create.
  unfoldable pub enter_sales_invoice :
      Text
      → Text
      → SalesInvoiceDto W
      → LinesCalc W
      → Text
      → Date
      → Option Date
      → SalesAction W (Unit {0})
  enter_sales_invoice id company dto computed asked date due = do
    number ← gets λ (db : Db W).
        if is_empty asked then generate_sales_invoice_number db company dto.kind date else asked
    template ← gets λ (db : Db W). template_for db.templates company dto.kind dto.template
    snap ← sales_snapshot company dto.mitra_id dto.contact_person_id (lit "")
    guard (not (is_nil computed.lines)) empty_slice
    modify (
        add_invoice id (record {
          company_id = company;
          sales_order_id = trim_ptr dto.sales_order_id;
          linked_invoice_id = trim_ptr dto.linked_invoice_id;
          kind = dto.kind;
          mitra_id = dto.mitra_id;
          number = number;
          date = date;
          due_date = due;
          status = draft;
          subtotal = computed.subtotal;
          discount_total = computed.discount_total;
          tax_total = computed.tax_total;
          grand_total = computed.grand_total;
          paid_amount = f.nought;
          payment_status = unpaid;
          additional_discount_type = computed.additional_discount_type;
          additional_discount_value = computed.additional_discount_value;
          additional_discount_amount = computed.additional_discount_amount;
          shipping_cost = dto.shipping_cost;
          template = template;
          contact = snap.contact;
          lines = stored_lines computed.lines;
          deleted = false;
        }))

  -- The transaction of Update.
  unfoldable pub reenter_sales_invoice :
      Text
      → Text
      → SalesInvoiceDto W
      → LinesCalc W
      → Text
      → Date
      → Option Date
      → SalesInvoice W
      → SalesAction W (Unit {0})
  reenter_sales_invoice id company dto computed number date due existing = do
    snap ← sales_snapshot company dto.mitra_id dto.contact_person_id (deref_str existing.contact.id)
    guard (not (is_nil computed.lines)) empty_slice
    modify (change_invoice id (rewrite_invoice dto computed number date due snap))
    refresh_sales_invoice_payment_status company id
    modify (change_invoice id λ i. record i { lines = stored_lines computed.lines })

  abbrev pub known_mitra : Text → Text → SalesAction W (Unit {0})
  known_mitra company mitra = do
    known ← gets λ (db : Db W). mitra_exists db company mitra
    guard known (validation (lit "partner not found"))

  abbrev pub invoice_totals : Text → SalesInvoiceDto W → SalesAction W (LinesCalc W)
  invoice_totals company dto = λ (db : Db W).
      lift
        (calc company dto.lines dto.additional_discount_type dto.additional_discount_value
          dto.shipping_cost db)
        db

module _ {ℓ} {W : Type ℓ} ⦃f : Float W⦄ (collation : Collation) where
  open collation use {equal_fold}

  -- SalesInvoiceRepository.Create
  unfoldable pub create_sales_invoice :
      Text → Text → SalesInvoiceDto W → LinesCalc W → SalesAction W (SalesInvoice W)
  create_sales_invoice id company dto computed = do
    dates ← invoice_dates dto
    let number = trim_space dto.number
    taken ← gets λ (db : Db W). sales_number_taken collation db company number
    guard (is_empty number || not taken) (number_exists number)
    transaction (enter_sales_invoice id company dto computed number dates.0 dates.1)
    find_invoice_by_id company id

  -- SalesInvoiceRepository.Update
  unfoldable pub update_sales_invoice :
      Text → Text → SalesInvoiceDto W → LinesCalc W → SalesAction W (SalesInvoice W)
  update_sales_invoice company id dto computed = do
    existing ← find_invoice_by_id company id
    dates ← invoice_dates dto
    let trimmed = trim_space dto.number
    let number = (if is_empty trimmed then existing.number else trimmed)
    taken ← gets λ (db : Db W). sales_number_taken_by_other collation db company number id
    guard (equal_fold number existing.number || not taken) (number_exists number)
    transaction (reenter_sales_invoice id company dto computed number dates.0 dates.1 existing)
    find_invoice_by_id company id

  -- SalesInvoiceService.Create; `limit` is what CheckTransactionLimit answers.
  unfoldable pub submit_sales_invoice :
      Text
      → Text
      → Result (SalesError W) (Unit {0})
      → SalesInvoiceDto W
      → SalesAction W (SalesInvoice W)
  submit_sales_invoice id company limit dto = do
    guard (is_valid_sales_invoice_kind dto.kind) (validation (lit "invalid invoice kind"))
    known_mitra company dto.mitra_id
    lift limit
    computed ← invoice_totals company dto
    create_sales_invoice id company dto computed

  -- SalesInvoiceService.Update
  unfoldable pub resubmit_sales_invoice :
      Text → Text → SalesInvoiceDto W → SalesAction W (SalesInvoice W)
  resubmit_sales_invoice company id dto = do
    found ← find_invoice_by_id company id
    known_mitra company dto.mitra_id
    computed ← invoice_totals company dto
    update_sales_invoice company id dto computed
