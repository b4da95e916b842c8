-- ===== src/Purchase/Tests.antt =====
-- The purchase side on a small database: a confirmed bill of 1000.00 with 300.00 from a receipt.
use mathlib.Core.Option.{some-injective}
use mathlib.Core.Path.{subst₂}
use invoicing_be.Base.{◌+◌, ◌-◌, ◌≡◌, refl, false, none, some, [], ◌∷◌, arith, Bool-cases, inl, inr}
use invoicing_be.Text.{Text, lit, ◌≐◌, ≐→≡, is_empty, trim_space, is_space}
use invoicing_be.Calendar.{Date, parse_date}
use invoicing_be.Money.{round2}
use invoicing_be.Money.Fixed.{ℤ, fixed, of_cents, fixed-IsCents}
use invoicing_be.LineCalc.{LinesCalc}
use invoicing_be.Ledger.{credit}
use invoicing_be.Store.{Collation, ◌>>=◌}
use invoicing_be.Store.Outcome.{Outcome}
use invoicing_be.Store.Table.{find, update, insert, rows}
use invoicing_be.Document.Contact.{no_contact}
use invoicing_be.Sales.Model.{trim_ptr}
use invoicing_be.Purchase.Model.{
  PurchaseInvoice, draft, confirmed, partially_paid, paid, PurchaseReceipt, Db,
  find_purchase_invoice, find_purchase_receipt,
}
use invoicing_be.Purchase.Balance.{
  purchase_payment_status, apply_purchase_invoice_payment, lock_purchase_invoice,
}
use invoicing_be.Purchase.Balance.Ledger.{IsPaid, Holds, Moves, apply-Pays}
use invoicing_be.Purchase.Receipt.{
  PurchaseReceiptDto, create_purchase_receipt, update_purchase_receipt, delete_purchase_receipt,
  new_receipt_number, receipt_number_taken, purchase_receipt_numbers, book_purchase_receipt,
  pay_bill, find_receipt_by_id,
}
use invoicing_be.Purchase.Invoice.{set_status}
use invoicing_be.Purchase.Invoice.Save.{PurchaseInvoiceDto, create_purchase_invoice}
use invoicing_be.Purchase.Calls.{cancel_bill, enter_receipt, remove_receipt, run}
use invoicing_be.Purchase.Books.{paid_to, paid_by, applied, IsConsistent}
use invoicing_be.Purchase.Books.Bodies.{Books}
use invoicing_be.Purchase.Books.Receipts.{
  create_purchase_receipt-Books, update_purchase_receipt-Books, delete_purchase_receipt-Books,
}
use invoicing_be.Purchase.Books.Lifecycle.{set_status-Books}
use invoicing_be.Purchase.Books.Saves.{create_purchase_invoice-Books}
use invoicing_be.Purchase.Books.Runs.{after_calls, run-refines}

abbrev day : Date
day = record { year = 2026; month = 3; day = 9 }

abbrev company : Text
company = lit "c"

abbrev bill : PurchaseInvoice ℤ
bill = record {
  company_id = company;
  purchase_order_id = none;
  mitra_id = lit "m";
  number = lit "BILL/2026/0001";
  date = day;
  due_date = none;
  status = confirmed;
  subtotal = of_cents 100_000;
  discount_total = of_cents 0;
  tax_total = of_cents 0;
  grand_total = of_cents 100_000;
  paid_amount = of_cents 30_000;
  payment_status = partially_paid;
  additional_discount_type = lit "percent";
  additional_discount_value = of_cents 0;
  additional_discount_amount = of_cents 0;
  shipping_cost = of_cents 0;
  template = lit "template_1";
  contact = no_contact none;
  lines = [];
  deleted = false;
}

abbrev given : PurchaseReceipt ℤ
given = record {
  company_id = company;
  mitra_id = lit "m";
  purchase_invoice_id = some (lit "b");
  number = lit "PKW/2026/0001";
  date = day;
  amount = of_cents 30_000;
  payment_method = lit "cash";
  bank_account_id = none;
  deleted = false;
}

abbrev desk : Db ℤ
desk = record {
  invoices = (lit "b", bill) ∷ [];
  receipts = (lit "r1", given) ∷ [];
  mitras = (lit "m", record { company_id = company; deleted = false }) ∷ [];
  taxes = [];
  contacts = [];
  templates = [];
}

abbrev collation : Collation
collation = record { lower = λ s. s; upper = λ s. s; equal_fold = ◌≐◌ }

applied_bill : applied fixed-IsCents desk (lit "b") ≡ 30_000
unfolding ◌≐◌ fixed-IsCents
applied_bill = refl

bill-IsPaid : IsPaid fixed-IsCents 30_000 bill
unfolding purchase_payment_status fixed-IsCents
bill-IsPaid = record {
  grand_amount = (refl, omega arith);
  paid_amount_ok = (refl, omega arith);
  cents_paid = refl;
  status_derived = refl;
  paid_confirmed = λ e. ground (arith, e);
}

desk-Holds : Holds fixed-IsCents (applied fixed-IsCents desk) desk
unfolding find
desk-Holds id row e = elim (Bool-cases (lit "b" ≐ id)) [
  | inl same ↦
      let q = ≐→≡ (lit "b") id same in
      subst₂ (λ k r. IsPaid fixed-IsCents (applied fixed-IsCents desk k) r) q
        (some-injective _ _ (rw same at e)) (rw applied_bill bill-IsPaid)
  | inr other ↦ cc (rw other at e)
]

desk-IsConsistent : IsConsistent fixed-IsCents desk
unfolding fixed-IsCents find ◌≐◌
desk-IsConsistent = record {
  balanced = desk-Holds;
  booked =
      (λ live b named. rw (← some-injective (lit "b") b named) ((refl, omega arith), refl), tt);
}

apply-Pays_example :
    Moves fixed-IsCents
      (credit (applied fixed-IsCents desk) (lit "b") (fixed-IsCents.cents (of_cents 70_000)))
      desk
      (apply_purchase_invoice_payment company (lit "b") (lit "m") (of_cents 70_000) desk)
unfolding fixed-IsCents
apply-Pays_example =
    apply-Pays fixed-IsCents (applied fixed-IsCents desk) desk company (lit "b") (lit "m")
      (of_cents 70_000) desk-Holds (refl, omega arith)

abbrev rest : PurchaseReceiptDto ℤ
rest = record {
  mitra_id = lit "m";
  purchase_invoice_id = some (lit "b");
  number = lit " PKW/2026/0002 ";
  date = lit "2026-03-10";
  amount = of_cents 70_000;
  payment_method = lit "cash";
  bank_account_id = none;
}

create_purchase_receipt-Books_example :
    Outcome
      (Books fixed-IsCents λ j.
        applied fixed-IsCents desk j
        + paid_to fixed-IsCents (trim_ptr rest.purchase_invoice_id) rest.amount j)
      desk
      (create_purchase_receipt collation (lit "r2") company rest desk)
unfolding fixed-IsCents
create_purchase_receipt-Books_example =
    create_purchase_receipt-Books fixed-IsCents collation desk (lit "r2") company rest
      desk-IsConsistent (refl, omega arith)

update_purchase_receipt-Books_example :
    Outcome
      (Books fixed-IsCents λ j.
        applied fixed-IsCents desk j
        - paid_by fixed-IsCents desk company (lit "r1") j
        + paid_to fixed-IsCents (trim_ptr rest.purchase_invoice_id) rest.amount j)
      desk
      (update_purchase_receipt collation company (lit "r1") rest desk)
unfolding fixed-IsCents
update_purchase_receipt-Books_example =
    update_purchase_receipt-Books fixed-IsCents collation desk company (lit "r1") rest
      desk-IsConsistent (refl, omega arith)

delete_purchase_receipt-Books_example :
    Outcome
      (Books fixed-IsCents
        λ j. applied fixed-IsCents desk j - paid_by fixed-IsCents desk company (lit "r1") j)
      desk
      (delete_purchase_receipt company (lit "r1") desk)
delete_purchase_receipt-Books_example =
    delete_purchase_receipt-Books fixed-IsCents desk company (lit "r1") desk-IsConsistent

set_status-Books_example :
    Outcome
      (Books fixed-IsCents (applied fixed-IsCents desk))
      desk
      (set_status company (lit "b") draft desk)
set_status-Books_example =
    set_status-Books fixed-IsCents desk company (lit "b") draft desk-IsConsistent

abbrev entered : PurchaseInvoiceDto ℤ
entered = record {
  purchase_order_id = none;
  mitra_id = lit "m";
  number = lit "";
  date = lit "2026-03-10";
  due_date = lit "";
  lines = [];
  additional_discount_type = lit "percent";
  additional_discount_value = of_cents 0;
  shipping_cost = of_cents 0;
  contact_person_id = none;
  template = lit "";
}

abbrev computed : LinesCalc ℤ
computed = record {
  lines =
      record {
        product_name = lit "tea";
        description = lit "";
        quantity = of_cents 200;
        unit_price = of_cents 10_000;
        discount_type = lit "percent";
        discount_value = of_cents 0;
        tax_ids = [];
        line_subtotal = of_cents 20_000;
        line_tax_amount = of_cents 0;
        line_total = of_cents 20_000;
      }
      ∷ [];
  subtotal = of_cents 20_000;
  discount_total = of_cents 0;
  tax_total = of_cents 0;
  grand_total = of_cents 20_000;
  additional_discount_type = lit "percent";
  additional_discount_value = of_cents 0;
  additional_discount_amount = of_cents 0;
}

create_purchase_invoice-Books_example :
    Outcome
      (Books fixed-IsCents (applied fixed-IsCents desk))
      desk
      (create_purchase_invoice collation (lit "b2") company entered computed desk)
unfolding fixed-IsCents find ◌≐◌
create_purchase_invoice-Books_example =
    create_purchase_invoice-Books fixed-IsCents collation desk (lit "b2") company entered computed
      desk-IsConsistent refl (refl, omega arith)

run-refines_example :
    let calls =
      enter_receipt company (lit "r2") rest
      ∷ cancel_bill company (lit "b")
      ∷ remove_receipt company (lit "r1")
      ∷ [] in
    let after = run collation calls desk in
    IsConsistent fixed-IsCents after
    × ((id : Text)
        → applied fixed-IsCents after id
          ≡ after_calls fixed-IsCents collation calls desk (applied fixed-IsCents desk) id)
unfolding fixed-IsCents
run-refines_example =
    run-refines fixed-IsCents collation
      (enter_receipt company (lit "r2") rest
        ∷ cancel_bill company (lit "b")
        ∷ remove_receipt company (lit "r1")
        ∷ [])
      desk desk-IsConsistent ((tt, (refl, omega arith)), (tt, (tt, tt)))

-- The second receipt settles the bill.
receipt_settles :
    let db = (create_purchase_receipt collation (lit "r2") company rest desk).1 in
    find_purchase_invoice db company (lit "b")
    ≡ some (record bill { paid_amount = of_cents 100_000; payment_status = paid })
unfolding create_purchase_receipt new_receipt_number receipt_number_taken purchase_receipt_numbers
    rows find_purchase_receipt find_purchase_invoice find update insert book_purchase_receipt
    pay_bill apply_purchase_invoice_payment lock_purchase_invoice purchase_payment_status
    find_receipt_by_id is_empty trim_space is_space ◌≐◌ ◌>>=◌ round2 parse_date trim_ptr
receipt_settles = refl
