-- ===== src/Purchase/Receipt.antt =====
-- app/repository/purchase_receipt.repository.go and app/service/purchase_receipt.service.go. The new
-- IDs (uuid) are arguments.
use invoicing_be.Base.{
  Bool, true, false, not, ◌&&◌, ◌||◌, Option, none, some, List, [], ◌∷◌, if◌then◌else◌,
}
use invoicing_be.Text.{Text, lit, ◌≐◌, is_empty, trim_space, has_prefix}
use invoicing_be.Calendar.{Date, parse_date}
use invoicing_be.Numbering.{generate, prefix}
use invoicing_be.Money.{Float}
use invoicing_be.Store.{
  pure, gets, or_fail, guard, modify, transaction, map_fail, Collation, ◌>>=◌, ◌>>◌,
}
use invoicing_be.Store.Table.{insert, update, remove, rows}
use invoicing_be.Sales.Model.{trim_ptr}
use invoicing_be.Sales.Receipt.{any, keep}
use invoicing_be.Purchase.Model.{
  PurchaseReceipt, Db, PurchaseError, not_found, validation, number_exists, invoice_not_confirmed,
  invoice_mismatch, invoice_exceeds_balance, exceeds_balance, PurchaseAction, find_purchase_receipt,
  vendor_exists, is_valid_purchase_receipt_payment_method,
}
use invoicing_be.Purchase.Balance.{apply_purchase_invoice_payment, reverse_purchase_invoice_payment}

-- CreateDTO and UpdateDTO of app/domain/purchasereceipt, but for the free text of the notes.
pub record PurchaseReceiptDto {ℓ} (W : Type ℓ) : Type ℓ where
  pub mitra_id : Text
  pub purchase_invoice_id : Option Text
  pub number : Text
  pub date : Text
  pub amount : W
  pub payment_method : Text
  pub bank_account_id : Option Text

module _ {ℓ} {W : Type ℓ} where
  -- FindByID
  unfoldable pub find_receipt_by_id : Text → Text → PurchaseAction W (PurchaseReceipt W)
  find_receipt_by_id company id db = or_fail (not_found id) (find_purchase_receipt db company id) db

  -- The company's receipts that are not deleted, by number.
  unfoldable pub purchase_receipt_numbers : Text → List (PurchaseReceipt W) → List Text
  purchase_receipt_numbers company [] = []
  purchase_receipt_numbers company (r ∷ rs) =
      let rest = purchase_receipt_numbers company rs in
      if (r.company_id ≐ company) && not r.deleted then r.number ∷ rest else rest

  unfoldable pub generate_purchase_receipt_number : Db W → Text → Date → Text
  generate_purchase_receipt_number db company date = generate (lit "PKW") date.year (
      keep (λ n. has_prefix n (prefix (lit "PKW") date.year))
        (purchase_receipt_numbers company (rows db.receipts)))

  abbrev pub map_purchase_payment_err : PurchaseError W → PurchaseError W
  map_purchase_payment_err invoice_not_confirmed =
      validation (lit "only a confirmed purchase invoice can receive payments")
  map_purchase_payment_err (invoice_mismatch message) = validation message
  map_purchase_payment_err (invoice_exceeds_balance remaining) = exceeds_balance remaining
  map_purchase_payment_err e = e

  abbrev pub bad_date : PurchaseError W
  bad_date = validation (lit "invalid date (format YYYY-MM-DD)")

  abbrev pub save_receipt : Text → PurchaseReceipt W → Db W → Db W
  save_receipt id r db = record db { receipts = insert id r db.receipts }

  abbrev pub change_receipt : Text → (PurchaseReceipt W → PurchaseReceipt W) → Db W → Db W
  change_receipt id g db = record db { receipts = update id g db.receipts }

module _ {ℓ} {W : Type ℓ} (collation : Collation) where
  open collation use {lower}

  -- numberExists
  unfoldable pub receipt_number_taken : Db W → Text → Text → Bool
  receipt_number_taken db company number =
      any (λ n. lower n ≐ lower number) (purchase_receipt_numbers company (rows db.receipts))

  -- The same, but for the receipt itself.
  unfoldable pub receipt_number_taken_by_other : Db W → Text → Text → Text → Bool
  receipt_number_taken_by_other db company number id =
      any (λ n. lower n ≐ lower number)
        (purchase_receipt_numbers company (rows (remove id db.receipts)))

  -- The number of a new receipt: the one that was asked for, if it is free, or the next one.
  unfoldable pub new_receipt_number : Text → Text → Date → PurchaseAction W Text
  new_receipt_number company number date = λ db.
      if is_empty number
      then pure (generate_purchase_receipt_number db company date) db
      else (guard (not (receipt_number_taken db company number)) (number_exists number)
            >> pure number)
          db

module _ {ℓ} {W : Type ℓ} ⦃f : Float W⦄ where
  -- The payment of a bill, where the receipt names one.
  unfoldable pub pay_bill : Text → Option Text → Text → W → PurchaseAction W (Unit {0})
  pay_bill company none mitra amount = pure tt
  pay_bill company (some invoice) mitra amount =
      map_fail map_purchase_payment_err
        (apply_purchase_invoice_payment company invoice mitra amount)

  -- The payment that a receipt had made is given back.
  unfoldable pub give_back : Text → Option Text → W → PurchaseAction W (Unit {0})
  give_back company none amount = pure tt
  give_back company (some invoice) amount = reverse_purchase_invoice_payment company invoice amount

  -- The transaction of Create.
  unfoldable pub book_purchase_receipt :
      Text → Text → PurchaseReceiptDto W → Text → Date → PurchaseAction W (Unit {0})
  book_purchase_receipt id company dto number date =
      pay_bill company (trim_ptr dto.purchase_invoice_id) dto.mitra_id dto.amount
      >> modify (
          save_receipt id (record {
            company_id = company;
            mitra_id = dto.mitra_id;
            purchase_invoice_id = trim_ptr dto.purchase_invoice_id;
            number = number;
            date = date;
            amount = dto.amount;
            payment_method = dto.payment_method;
            bank_account_id = trim_ptr dto.bank_account_id;
            deleted = false;
          }))

  abbrev pub rewritten : PurchaseReceiptDto W → Text → Date → PurchaseReceipt W → PurchaseReceipt W
  rewritten dto number date r = record r {
    mitra_id = dto.mitra_id;
    purchase_invoice_id = trim_ptr dto.purchase_invoice_id;
    number = number;
    date = date;
    amount = dto.amount;
    payment_method = dto.payment_method;
    bank_account_id = trim_ptr dto.bank_account_id;
  }

  -- The transaction of Update.
  unfoldable pub rebook_purchase_receipt :
      Text
      → Text
      → PurchaseReceiptDto W
      → Text
      → Date
      → PurchaseReceipt W
      → PurchaseAction W (Unit {0})
  rebook_purchase_receipt id company dto number date existing = do
    give_back company existing.purchase_invoice_id existing.amount
    pay_bill company (trim_ptr dto.purchase_invoice_id) dto.mitra_id dto.amount
    modify (change_receipt id (rewritten dto number date))

  -- The transaction of Delete.
  unfoldable pub unbook_purchase_receipt :
      Text → Text → PurchaseReceipt W → PurchaseAction W (Unit {0})
  unbook_purchase_receipt id company existing = do
    give_back company existing.purchase_invoice_id existing.amount
    modify (change_receipt id λ r. record r { deleted = true })

  -- PurchaseReceiptRepository.Delete
  unfoldable pub delete_purchase_receipt : Text → Text → PurchaseAction W (Unit {0})
  delete_purchase_receipt company id = do
    existing ← find_receipt_by_id company id
    transaction (unbook_purchase_receipt id company existing)

  abbrev pub valid_receipt : Text → PurchaseReceiptDto W → PurchaseAction W (Unit {0})
  valid_receipt company dto = do
    guard (is_valid_purchase_receipt_payment_method dto.payment_method)
        (validation (lit "invalid payment method"))
    known ← gets λ (db : Db W). vendor_exists db company dto.mitra_id
    guard known (validation (lit "partner not found"))

module _ {ℓ} {W : Type ℓ} ⦃f : Float W⦄ (collation : Collation) where
  open collation use {equal_fold}

  -- PurchaseReceiptRepository.Create
  unfoldable pub create_purchase_receipt :
      Text → Text → PurchaseReceiptDto W → PurchaseAction W (PurchaseReceipt W)
  create_purchase_receipt id company dto = do
    date ← or_fail bad_date (parse_date (trim_space dto.date))
    number ← new_receipt_number collation company (trim_space dto.number) date
    transaction (book_purchase_receipt id company dto number date)
    find_receipt_by_id company id

  -- PurchaseReceiptRepository.Update
  unfoldable pub update_purchase_receipt :
      Text → Text → PurchaseReceiptDto W → PurchaseAction W (PurchaseReceipt W)
  update_purchase_receipt company id dto = do
    existing ← find_receipt_by_id company id
    date ← or_fail bad_date (parse_date (trim_space dto.date))
    let trimmed = trim_space dto.number
    let number = (if is_empty trimmed then existing.number else trimmed)
    taken ← gets λ (db : Db W). receipt_number_taken_by_other collation db company number id
    guard (equal_fold number existing.number || not taken) (number_exists number)
    transaction (rebook_purchase_receipt id company dto number date existing)
    find_receipt_by_id company id

  -- PurchaseReceiptService.Create
  unfoldable pub submit_purchase_receipt :
      Text → Text → PurchaseReceiptDto W → PurchaseAction W (PurchaseReceipt W)
  submit_purchase_receipt id company dto = do
    valid_receipt company dto
    create_purchase_receipt id company dto

  -- PurchaseReceiptService.Update
  unfoldable pub resubmit_purchase_receipt :
      Text → Text → PurchaseReceiptDto W → PurchaseAction W (PurchaseReceipt W)
  resubmit_purchase_receipt company id dto = do
    valid_receipt company dto
    update_purchase_receipt company id dto
