-- ===== src/Sales/Receipt.antt =====
-- app/repository/sales_receipt.repository.go and app/service/sales_receipt.service.go. The new IDs
-- (uuid) are arguments.
pub mod Repository
pub mod Ledger
pub mod Accept
use invoicing_be.Base.{
  Bool, true, false, not, ◌&&◌, ◌||◌, Option, none, some, List, [], ◌∷◌, ◌++◌, map, if◌then◌else◌,
  Result, ok, err, and_then,
}
use invoicing_be.Text.{Text, lit, ◌≐◌, is_empty, trim_space, less, has_prefix}
use invoicing_be.Calendar.{Date, parse_date}
use invoicing_be.Numbering.{generate, prefix}
use invoicing_be.Money.{Float, ◌⊕◌, round2}
use invoicing_be.Store.{
  pure, fail, gets, or_fail, guard, modify, lift, transaction, map_fail, Collation, ◌>>=◌, ◌>>◌,
}
use invoicing_be.Store.Table.{find, insert, update, rows}
use invoicing_be.Sales.Model.{
  SalesReceipt, SalesReceiptAllocation, Db, SalesError, not_found, validation, number_exists,
  invoice_not_confirmed, invoice_exceeds_balance, exceeds_balance, SalesAction, find_invoice,
  find_receipt, mitra_exists, trim_ptr, is_valid_sales_receipt_payment_method,
}
use invoicing_be.Sales.Balance.{apply_sales_invoice_payment, reverse_sales_invoice_payment}

pub record AllocationDto {ℓ} (W : Type ℓ) : Type ℓ where
  pub sales_invoice_id : Text
  pub amount : W

-- CreateDTO and UpdateDTO of app/domain/salesreceipt, but for the free text of the notes.
pub record ReceiptDto {ℓ} (W : Type ℓ) : Type ℓ where
  pub mitra_id : Text
  pub number : Text
  pub date : Text
  pub payment_method : Text
  pub bank_account_id : Option Text
  pub allocations : List (AllocationDto W)

abbrev pub contains : List Text → Text → Bool
contains [] id = false
contains (x ∷ xs) id = (x ≐ id) || contains xs id

module _ {ℓ} {W : Type ℓ} where
  -- sort.Slice by the invoice's ID
  unfoldable pub insert_allocation :
      AllocationDto W → List (AllocationDto W) → List (AllocationDto W)
  insert_allocation a [] = a ∷ []
  insert_allocation a (b ∷ bs) =
      if less b.sales_invoice_id a.sales_invoice_id then b ∷ insert_allocation a bs else a ∷ b ∷ bs

  unfoldable pub sort_allocations : List (AllocationDto W) → List (AllocationDto W)
  unfolding insert_allocation
  sort_allocations [] = []
  sort_allocations (a ∷ as') = insert_allocation a (sort_allocations as')

  -- The loop that looks for an invoice that was seen before.
  unfoldable pub has_repeat : List Text → List (AllocationDto W) → Bool
  has_repeat seen [] = false
  has_repeat seen (a ∷ as') =
      contains seen a.sales_invoice_id || has_repeat (a.sales_invoice_id ∷ seen) as'

  unfoldable pub normalize_receipt_allocations :
      List (AllocationDto W) → Result (SalesError W) (List (AllocationDto W))
  unfolding sort_allocations has_repeat
  normalize_receipt_allocations in' =
      let allocations = sort_allocations in' in
      if has_repeat [] allocations
      then err (validation (lit "the same invoice can't be allocated twice in one receipt"))
      else ok allocations

  -- How the receipt reports a refused payment.
  abbrev pub payment_error : SalesError W → SalesError W
  payment_error invoice_not_confirmed =
      validation (lit "only a confirmed invoice can receive payments")
  payment_error (invoice_exceeds_balance remaining) = exceeds_balance remaining
  payment_error e = e

  -- The rows of a receipt, by invoice.
  unfoldable pub insert_row :
      SalesReceiptAllocation W → List (SalesReceiptAllocation W) → List (SalesReceiptAllocation W)
  insert_row a [] = a ∷ []
  insert_row a (b ∷ bs) =
      if less b.sales_invoice_id a.sales_invoice_id then b ∷ insert_row a bs else a ∷ b ∷ bs

  unfoldable pub rows_of : Text → List (SalesReceiptAllocation W) → List (SalesReceiptAllocation W)
  unfolding insert_row
  rows_of receipt [] = []
  rows_of receipt (a ∷ as') =
      let rest = rows_of receipt as' in
      if a.sales_receipt_id ≐ receipt then insert_row a rest else rest

  unfoldable pub without_rows_of :
      Text → List (SalesReceiptAllocation W) → List (SalesReceiptAllocation W)
  without_rows_of receipt [] = []
  without_rows_of receipt (a ∷ as') =
      let rest = without_rows_of receipt as' in
      if a.sales_receipt_id ≐ receipt then rest else a ∷ rest

  unfoldable pub allocation_rows :
      Text → Text → List (AllocationDto W) → List (SalesReceiptAllocation W)
  allocation_rows company receipt [] = []
  allocation_rows company receipt (a ∷ as') =
      record {
        sales_receipt_id = receipt;
        sales_invoice_id = a.sales_invoice_id;
        company_id = company;
        amount = a.amount;
      }
      ∷ allocation_rows company receipt as'

  -- The company's receipts that are not deleted, by number.
  unfoldable pub receipt_numbers : Text → List (SalesReceipt W) → List Text
  receipt_numbers company [] = []
  receipt_numbers company (r ∷ rs) =
      let rest = receipt_numbers company rs in
      if (r.company_id ≐ company) && not r.deleted then r.number ∷ rest else rest

abbrev pub any : (Text → Bool) → List Text → Bool
any p [] = false
any p (x ∷ xs) = p x || any p xs

abbrev pub keep : (Text → Bool) → List Text → List Text
keep p [] = []
keep p (x ∷ xs) = let rest = keep p xs in if p x then x ∷ rest else rest

module _ {ℓ} {W : Type ℓ} ⦃f : Float W⦄ where
  -- The loop of applyReceiptAllocations; `total` is the sum so far.
  unfoldable pub apply_from : Text → Text → W → List (AllocationDto W) → SalesAction W W
  unfolding ◌>>=◌
  apply_from company mitra total [] = pure total
  apply_from company mitra total (a ∷ as') = λ db.
      (do
        invoice ←
            or_fail (validation (lit "invoice not found"))
              (find_invoice db company a.sales_invoice_id)
        guard (invoice.mitra_id ≐ mitra)
            (validation (lit "invoice does not belong to the selected partner"))
        map_fail payment_error (apply_sales_invoice_payment company a.sales_invoice_id a.amount)
        apply_from company mitra (round2 (total ⊕ a.amount)) as')
        db

  unfoldable pub apply_receipt_allocations : Text → Text → List (AllocationDto W) → SalesAction W W
  apply_receipt_allocations company mitra allocations =
      apply_from company mitra f.nought allocations

  unfoldable pub reverse_rows : Text → List (SalesReceiptAllocation W) → SalesAction W (Unit {0})
  unfolding ◌>>=◌
  reverse_rows company [] = pure tt
  reverse_rows company (a ∷ as') = do
    reverse_sales_invoice_payment company a.sales_invoice_id a.amount
    reverse_rows company as'

  unfoldable pub reverse_receipt_allocations : Text → Text → SalesAction W (Unit {0})
  reverse_receipt_allocations company receipt db =
      reverse_rows company (rows_of receipt db.allocations) db

  abbrev pub invalid_date : SalesError W
  invalid_date = validation (lit "invalid date (format YYYY-MM-DD)")

  abbrev pub save_receipt : Text → SalesReceipt W → List (SalesReceiptAllocation W) → Db W → Db W
  save_receipt id r new db = record db {
    receipts = insert id r db.receipts;
    allocations = db.allocations ++ new;
  }

  abbrev pub replace_receipt :
      Text → (SalesReceipt W → SalesReceipt W) → List (SalesReceiptAllocation W) → Db W → Db W
  replace_receipt id g new db = record db {
    receipts = update id g db.receipts;
    allocations = without_rows_of id db.allocations ++ new;
  }

  abbrev pub drop_receipt : Text → Db W → Db W
  drop_receipt id db = record db {
    receipts = update id (λ r. record r { deleted = true }) db.receipts;
  }

  unfoldable pub find_by_id : Text → Text → SalesAction W (SalesReceipt W)
  find_by_id company id db = or_fail (not_found id) (find_receipt db company id) db
