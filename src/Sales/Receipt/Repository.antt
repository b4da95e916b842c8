-- ===== src/Sales/Receipt/Repository.antt =====
-- The methods of app/repository/sales_receipt.repository.go that change the store, and the service
-- methods of app/service/sales_receipt.service.go over them.
use invoicing_be.Base.{Bool, false, not, ◌||◌, List, if◌then◌else◌}
use invoicing_be.Text.{Text, lit, ◌≐◌, is_empty, trim_space, has_prefix}
use invoicing_be.Calendar.{Date, parse_date}
use invoicing_be.Numbering.{generate, prefix}
use invoicing_be.Money.{Float}
use invoicing_be.Store.{
  pure, gets, or_fail, guard, modify, lift, transaction, Collation, ◌>>=◌, ◌>>◌,
}
use invoicing_be.Store.Table.{remove, rows}
use invoicing_be.LineCalc.Stored.{is_nil}
use invoicing_be.Sales.Model.{
  empty_slice, SalesReceipt, Db, validation, number_exists, SalesAction, mitra_exists, trim_ptr,
  is_valid_sales_receipt_payment_method,
}
use invoicing_be.Sales.Receipt.{
  AllocationDto, ReceiptDto, any, keep, normalize_receipt_allocations, allocation_rows,
  receipt_numbers, apply_receipt_allocations, reverse_receipt_allocations, invalid_date,
  save_receipt, replace_receipt, drop_receipt, find_by_id,
}

module _ {ℓ} {W : Type ℓ} (collation : Collation) where
  open collation use {lower, equal_fold}

  -- numberExists
  unfoldable pub number_taken : Db W → Text → Text → Bool
  number_taken db company number =
      any (λ n. lower n ≐ lower number) (receipt_numbers company (rows db.receipts))

  -- The same, but for the receipt itself.
  unfoldable pub number_taken_by_other : Db W → Text → Text → Text → Bool
  number_taken_by_other db company number id =
      any (λ n. lower n ≐ lower number) (receipt_numbers company (rows (remove id db.receipts)))

-- generateSalesReceiptNumber
unfoldable pub generate_sales_receipt_number {ℓ} : {W : Type ℓ} → Db W → Text → Date → Text
generate_sales_receipt_number db company date = generate (lit "KW") date.year (
    keep (λ n. has_prefix n (prefix (lit "KW") date.year))
      (receipt_numbers company (rows db.receipts)))

module _ {ℓ} {W : Type ℓ} ⦃f : Float W⦄ where
  -- The transaction of Create: the allocations are applied, then the rows are written. To apply no
  -- allocations does nothing, so the refusal to insert an empty list of rows may stand before it.
  unfoldable pub book_receipt :
      Text → Text → ReceiptDto W → Text → Date → List (AllocationDto W) → SalesAction W (Unit {0})
  book_receipt id company dto number date allocations = do
    guard (not (is_nil allocations)) empty_slice
    total ← apply_receipt_allocations company dto.mitra_id allocations
    modify (
        save_receipt id
          (record {
            company_id = company;
            mitra_id = dto.mitra_id;
            number = number;
            date = date;
            amount = total;
            payment_method = dto.payment_method;
            bank_account_id = trim_ptr dto.bank_account_id;
            deleted = false;
          })
          (allocation_rows company id allocations))

  -- The transaction of Update: the previous allocations are reversed, the new ones applied.
  unfoldable pub rebook_receipt :
      Text → Text → ReceiptDto W → Text → Date → List (AllocationDto W) → SalesAction W (Unit {0})
  rebook_receipt company id dto number date allocations = do
    reverse_receipt_allocations company id
    guard (not (is_nil allocations)) empty_slice
    total ← apply_receipt_allocations company dto.mitra_id allocations
    modify (
        replace_receipt id
          (λ r. record r {
            mitra_id = dto.mitra_id;
            number = number;
            date = date;
            amount = total;
            payment_method = dto.payment_method;
            bank_account_id = trim_ptr dto.bank_account_id;
          })
          (allocation_rows company id allocations))

  -- The transaction of Delete.
  unfoldable pub unbook_receipt : Text → Text → SalesAction W (Unit {0})
  unbook_receipt company id = do reverse_receipt_allocations company id; modify (drop_receipt id)

  -- SalesReceiptRepository.Delete
  unfoldable pub delete_receipt : Text → Text → SalesAction W (Unit {0})
  delete_receipt company id = do
    existing ← find_by_id company id
    transaction (unbook_receipt company id)

module _ {ℓ} {W : Type ℓ} ⦃f : Float W⦄ (collation : Collation) where
  open collation use {lower, equal_fold}

  -- The number of a new receipt: the one that was asked for, if it is free, or the next one.
  unfoldable pub new_number : Text → Text → Date → SalesAction W Text
  new_number company number date = λ db.
      if is_empty number
      then pure (generate_sales_receipt_number db company date) db
      else (do
        guard (not (number_taken collation db company number)) (number_exists number)
        pure number)
          db

  -- SalesReceiptRepository.Create
  unfoldable pub create_receipt : Text → Text → ReceiptDto W → SalesAction W (SalesReceipt W)
  create_receipt id company dto = do
    date ← or_fail invalid_date (parse_date (trim_space dto.date))
    number ← new_number company (trim_space dto.number) date
    allocations ← lift (normalize_receipt_allocations dto.allocations)
    transaction (book_receipt id company dto number date allocations)
    find_by_id company id

  -- SalesReceiptRepository.Update
  unfoldable pub update_receipt : Text → Text → ReceiptDto W → SalesAction W (SalesReceipt W)
  update_receipt company id dto = do
    existing ← find_by_id company id
    date ← or_fail invalid_date (parse_date (trim_space dto.date))
    let trimmed = trim_space dto.number
    let number = (if is_empty trimmed then existing.number else trimmed)
    taken ← gets λ (db : Db W). number_taken_by_other collation db company number id
    guard (equal_fold number existing.number || not taken) (number_exists number)
    allocations ← lift (normalize_receipt_allocations dto.allocations)
    transaction (rebook_receipt company id dto number date allocations)
    find_by_id company id

  -- SalesReceiptService.Create
  unfoldable pub create : Text → Text → ReceiptDto W → SalesAction W (SalesReceipt W)
  create id company dto = do
    guard (is_valid_sales_receipt_payment_method dto.payment_method)
        (validation (lit "invalid payment method"))
    known ← gets λ (db : Db W). mitra_exists db company dto.mitra_id
    guard known (validation (lit "partner not found"))
    create_receipt id company dto

  -- SalesReceiptService.Update
  unfoldable pub replace : Text → Text → ReceiptDto W → SalesAction W (SalesReceipt W)
  replace company id dto = do
    guard (is_valid_sales_receipt_payment_method dto.payment_method)
        (validation (lit "invalid payment method"))
    known ← gets λ (db : Db W). mitra_exists db company dto.mitra_id
    guard known (validation (lit "partner not found"))
    update_receipt company id dto
