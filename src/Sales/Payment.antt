-- ===== src/Sales/Payment.antt =====
-- app/repository/sales_payment.repository.go and app/service/sales_payment.service.go: payments
-- that wait for verification. The new IDs (uuid) are arguments.
use invoicing_be.Base.{Bool, not, Option, List, [], ◌∷◌, if◌then◌else◌}
use invoicing_be.Text.{Text, lit, ◌≐◌, is_empty, trim_space, has_prefix}
use invoicing_be.Calendar.{Date, parse_date}
use invoicing_be.Numbering.{generate, prefix}
use invoicing_be.Money.{Float, ◌⊖◌, ◌≺◌, round2}
use invoicing_be.Store.{pure, or_fail, guard, modify, transaction, map_fail, Collation, ◌>>=◌, ◌>>◌}
use invoicing_be.Store.Table.{insert, update, rows}
use invoicing_be.Sales.Model.{
  SalesInvoice, SalesPayment, pending, verified, is_pending, is_confirmed, Db, SalesError,
  not_found, validation, invalid_transition, number_exists, exceeds_balance, SalesAction,
  find_invoice, find_payment, trim_ptr, is_valid_sales_receipt_payment_method,
}
use invoicing_be.Sales.Balance.{apply_sales_invoice_payment}
use invoicing_be.Sales.Receipt.{payment_error, any, keep, invalid_date}

-- CreateDTO of app/domain/salespayment, but for the free text of the notes.
pub record PaymentDto {ℓ} (W : Type ℓ) : Type ℓ where
  pub sales_invoice_id : Text
  pub number : Text
  pub date : Text
  pub amount : W
  pub payment_method : Text
  pub bank_account_id : Option Text

module _ {ℓ} {W : Type ℓ} where
  unfoldable pub payment_numbers : Text → List (SalesPayment W) → List Text
  payment_numbers company [] = []
  payment_numbers company (p ∷ ps) =
      let rest = payment_numbers company ps in
      if p.company_id ≐ company then p.number ∷ rest else rest

  -- FindByID
  unfoldable pub find_payment_by_id : Text → Text → SalesAction W (SalesPayment W)
  find_payment_by_id company id db = or_fail (not_found id) (find_payment db company id) db

  unfoldable pub invoice_for_payment : Text → Text → SalesAction W (SalesInvoice W)
  invoice_for_payment company id db =
      or_fail (validation (lit "invoice not found")) (find_invoice db company id) db

  unfoldable pub generate_sales_payment_number : Db W → Text → Date → Text
  generate_sales_payment_number db company date = generate (lit "PAY") date.year (
      keep (λ n. has_prefix n (prefix (lit "PAY") date.year))
        (payment_numbers company (rows db.payments)))

  abbrev pub not_pending : SalesError W
  not_pending = invalid_transition (lit "only a pending payment can be verified")

  abbrev pub save_payment : Text → SalesPayment W → Db W → Db W
  save_payment id p db = record db { payments = insert id p db.payments }

  abbrev pub mark_verified : Text → SalesPayment W → SalesPayment W
  mark_verified actor p = record p { status = verified; verified_by = actor }

  abbrev pub change_payment : Text → (SalesPayment W → SalesPayment W) → Db W → Db W
  change_payment id g db = record db { payments = update id g db.payments }

module _ {ℓ} {W : Type ℓ} (collation : Collation) where
  open collation use {lower}

  unfoldable pub payment_number_taken : Db W → Text → Text → Bool
  payment_number_taken db company number =
      any (λ n. lower n ≐ lower number) (payment_numbers company (rows db.payments))

  unfoldable pub new_payment_number : Text → Text → Date → SalesAction W Text
  new_payment_number company number date = λ db.
      if is_empty number
      then pure (generate_sales_payment_number db company date) db
      else (do
        guard (not (payment_number_taken db company number)) (number_exists number)
        pure number)
          db

module _ {ℓ} {W : Type ℓ} ⦃f : Float W⦄ where
  -- SalesPaymentRepository.Create
  unfoldable pub create_payment :
      Collation → Text → Text → Text → PaymentDto W → SalesAction W (SalesPayment W)
  create_payment collation id company mitra dto = do
    date ← or_fail invalid_date (parse_date (trim_space dto.date))
    invoice ← invoice_for_payment company dto.sales_invoice_id
    let remaining = round2 (invoice.grand_total ⊖ invoice.paid_amount)
    guard (not (remaining ≺ dto.amount)) (exceeds_balance remaining)
    number ← new_payment_number collation company (trim_space dto.number) date
    modify (
        save_payment id (record {
          company_id = company;
          sales_invoice_id = dto.sales_invoice_id;
          mitra_id = mitra;
          number = number;
          date = date;
          amount = dto.amount;
          payment_method = dto.payment_method;
          bank_account_id = trim_ptr dto.bank_account_id;
          status = pending;
          verified_by = [];
        }))
    find_payment_by_id company id

  -- The transaction of Verify.
  unfoldable pub verify_pending : Text → Text → Text → SalesAction W (Unit {0})
  verify_pending company actor id = do
    payment ← find_payment_by_id company id
    guard (is_pending payment.status) not_pending
    map_fail payment_error
        (apply_sales_invoice_payment company payment.sales_invoice_id payment.amount)
    modify (change_payment id (mark_verified actor))

  -- SalesPaymentRepository.Verify
  unfoldable pub verify_payment : Text → Text → Text → SalesAction W (SalesPayment W)
  verify_payment company actor id = do
    transaction (verify_pending company actor id)
    find_payment_by_id company id

  -- SalesPaymentService.Create
  unfoldable pub submit_payment :
      Collation → Text → Text → PaymentDto W → SalesAction W (SalesPayment W)
  submit_payment collation id company dto = do
    guard (is_valid_sales_receipt_payment_method dto.payment_method)
        (validation (lit "invalid payment method"))
    invoice ← invoice_for_payment company dto.sales_invoice_id
    guard (is_confirmed invoice.status)
        (validation (lit "only a confirmed invoice can receive payments"))
    create_payment collation id company invoice.mitra_id dto
