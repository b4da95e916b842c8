-- ===== src/Sales/Tests.antt =====
-- The sales side on the small database of Sales/Sample.
use invoicing_be.Base.{◌↔◌, ◌≤◌, true, ◌+◌, ◌-◌, ◌≡◌, refl, none, some, [], ◌∷◌, arith, ok}
use invoicing_be.Text.{is_empty, trim_space, is_space, lit, ◌≐◌}
use invoicing_be.Calendar.{parse_date}
use invoicing_be.Money.{round2}
use invoicing_be.Money.Fixed.{ℤ, fixed, of_cents, fixed-IsCents}
use invoicing_be.Store.{◌>>=◌}
use invoicing_be.Store.Table.{find, update, insert, rows}
use invoicing_be.Sales.Model.{draft, paid, is_confirmed, find_invoice, find_payment, find_receipt}
use invoicing_be.Sales.Balance.{
  applied_status, apply_sales_invoice_payment, reverse_sales_invoice_payment,
}
use invoicing_be.Sales.Balance.Bounds.{apply_iff}
use invoicing_be.Sales.Balance.Ledger.{Moves, credit, debit, apply-Moves, reverse-Moves}
use invoicing_be.Sales.Books.{applied}
use invoicing_be.Sales.Books.Steps.{Keeps}
use invoicing_be.Sales.Books.Receipts.{create_receipt-Keeps}
use invoicing_be.Sales.Books.Rebook.{booked_by, update_receipt-Keeps, delete_receipt-Keeps}
use invoicing_be.Sales.Books.Payments.{
  create_payment-Keeps, verify_payment-Keeps, verify_payment-accepts,
}
use invoicing_be.Sales.Books.Lifecycle.{IsOwn, set_status-Keeps}
use invoicing_be.Sales.Receipt.{
  AllocationDto, ReceiptDto, insert_allocation, sort_allocations, has_repeat,
  normalize_receipt_allocations, without_rows_of, allocation_rows, receipt_numbers, apply_from,
  apply_receipt_allocations, find_by_id,
}
use invoicing_be.Sales.Receipt.Repository.{
  number_taken, new_number, book_receipt, create_receipt, update_receipt, delete_receipt,
}
use invoicing_be.Sales.Receipt.Ledger.{given_to}
use invoicing_be.Sales.Payment.{PaymentDto, mark_verified, create_payment, verify_payment}
use invoicing_be.Sales.Invoice.{is_live_of, set_status}
use invoicing_be.Sales.Sample.{
  company, bill, done, waiting, shop, collation, shop-Holds, shop-IsConsistent,
}
use invoicing_be.LineCalc.{LinesCalc}
use invoicing_be.Sales.Invoice.Save.{SalesInvoiceDto, create_sales_invoice}
use invoicing_be.Sales.Books.Saves.{create_sales_invoice-Keeps}

abbrev the_rest : AllocationDto ℤ
the_rest = record { sales_invoice_id = lit "i"; amount = of_cents 70_000 }

abbrev second : ReceiptDto ℤ
second = record {
  mitra_id = lit "m";
  number = lit " KW/2026/0002 ";
  date = lit "2026-03-10";
  payment_method = lit "cash";
  bank_account_id = none;
  allocations = the_rest ∷ [];
}

create_receipt-Keeps_example :
    Keeps fixed-IsCents
      (λ j. applied fixed-IsCents shop j + given_to fixed-IsCents j second.allocations)
      shop
      (create_receipt collation (lit "r2") company second shop)
unfolding fixed-IsCents without_rows_of ◌≐◌
create_receipt-Keeps_example =
    create_receipt-Keeps fixed-IsCents collation shop (lit "r2") company second shop-IsConsistent
      (((refl, omega arith), omega arith), tt) refl

update_receipt-Keeps_example :
    Keeps fixed-IsCents
      (λ j.
        applied fixed-IsCents shop j
        - booked_by fixed-IsCents shop (lit "r1") j
        + given_to fixed-IsCents j second.allocations)
      shop
      (update_receipt collation company (lit "r1") second shop)
unfolding fixed-IsCents
update_receipt-Keeps_example =
    update_receipt-Keeps fixed-IsCents collation shop company (lit "r1") second shop-IsConsistent
      (((refl, omega arith), omega arith), tt)

delete_receipt-Keeps_example :
    Keeps fixed-IsCents
      (λ j. applied fixed-IsCents shop j - booked_by fixed-IsCents shop (lit "r1") j)
      shop
      (delete_receipt company (lit "r1") shop)
delete_receipt-Keeps_example =
    delete_receipt-Keeps fixed-IsCents shop company (lit "r1") shop-IsConsistent

waiting-found : find_payment shop company (lit "p2") ≡ some waiting
unfolding find_payment find ◌≐◌
waiting-found = refl

done-found : find_payment shop company (lit "p1") ≡ some done
unfolding find_payment find ◌≐◌
done-found = refl

verify_payment-Keeps_example :
    Keeps fixed-IsCents
      (credit (applied fixed-IsCents shop) (lit "i") (fixed-IsCents.cents (of_cents 5_000)))
      shop
      (verify_payment company (lit "boss") (lit "p2") shop)
verify_payment-Keeps_example =
    verify_payment-Keeps fixed-IsCents shop company (lit "boss") (lit "p2") waiting
      shop-IsConsistent waiting-found

abbrev third : PaymentDto ℤ
third = record {
  sales_invoice_id = lit "i";
  number = lit "PAY/2026/0003";
  date = lit "2026-03-11";
  amount = of_cents 1;
  payment_method = lit "cash";
  bank_account_id = none;
}

create_payment-Keeps_example :
    Keeps fixed-IsCents
      (applied fixed-IsCents shop)
      shop
      (create_payment collation (lit "p3") company (lit "m") third shop)
unfolding fixed-IsCents
create_payment-Keeps_example =
    create_payment-Keeps fixed-IsCents collation shop (lit "p3") company (lit "m") third
      shop-IsConsistent (refl, omega arith) (omega arith)

apply-Moves_example :
    Moves fixed-IsCents
      (credit (applied fixed-IsCents shop) (lit "i") (fixed-IsCents.cents (of_cents 70_000)))
      shop
      (apply_sales_invoice_payment company (lit "i") (of_cents 70_000) shop)
unfolding fixed-IsCents
apply-Moves_example =
    apply-Moves fixed-IsCents (applied fixed-IsCents shop) shop company (lit "i") (of_cents 70_000)
      shop-Holds (refl, omega arith) (omega arith)

reverse-Moves_example :
    Moves fixed-IsCents
      (debit (applied fixed-IsCents shop) (lit "i") (fixed-IsCents.cents (of_cents 30_000)))
      shop
      (reverse_sales_invoice_payment company (lit "i") (of_cents 30_000) shop)
unfolding fixed-IsCents ◌≐◌ find
reverse-Moves_example =
    reverse-Moves fixed-IsCents (applied fixed-IsCents shop) shop company (lit "i")
      (of_cents 30_000) shop-Holds (refl, omega arith) (omega arith)

shop-IsOwn : IsOwn company (lit "i") shop
unfolding is_live_of find ◌≐◌
shop-IsOwn = (((λ e. refl), ((λ e. refl), tt)), ((λ e live. refl), tt))

set_status-Keeps_example :
    Keeps fixed-IsCents (applied fixed-IsCents shop) shop (set_status company (lit "i") draft shop)
set_status-Keeps_example =
    set_status-Keeps fixed-IsCents shop company (lit "i") draft shop-IsConsistent shop-IsOwn

-- The second receipt brings the invoice to its total, and a third cannot.
receipt_pays :
    let db = (create_receipt collation (lit "r2") company second shop).1 in
    find_invoice db company (lit "i")
    ≡ some (record bill { paid_amount = of_cents 100_000; payment_status = paid })
unfolding create_receipt new_number number_taken receipt_numbers rows find_receipt find_invoice find
    update insert book_receipt apply_receipt_allocations apply_from apply_sales_invoice_payment
    applied_status normalize_receipt_allocations sort_allocations insert_allocation has_repeat
    allocation_rows find_by_id is_empty trim_space is_space ◌≐◌ ◌>>=◌ round2 parse_date
receipt_pays = refl

bill-found : find_invoice shop company (lit "i") ≡ some bill
unfolding find_invoice find ◌≐◌
bill-found = refl

apply_iff_example :
    ((apply_sales_invoice_payment company (lit "i") (of_cents 70_000) shop).0 ≡ ok tt) ↔ (
      (is_confirmed bill.status ≡ true)
      × (applied fixed-IsCents shop (lit "i") + fixed-IsCents.cents (of_cents 70_000)
          ≤ fixed-IsCents.cents bill.grand_total))
unfolding fixed-IsCents
apply_iff_example =
    apply_iff fixed-IsCents (applied fixed-IsCents shop) shop company (lit "i") (of_cents 70_000)
      bill shop-Holds (refl, omega arith) bill-found

verify_payment-accepts_example :
    (verify_payment company (lit "boss") (lit "p2") shop).0
    ≡ ok (mark_verified (lit "boss") waiting)
unfolding fixed-IsCents ◌≐◌ find
verify_payment-accepts_example =
    verify_payment-accepts fixed-IsCents shop company (lit "boss") (lit "p2") waiting bill
      shop-IsConsistent waiting-found refl bill-found refl (omega arith)

abbrev entered : SalesInvoiceDto ℤ
entered = record {
  kind = lit "invoice";
  sales_order_id = none;
  linked_invoice_id = none;
  mitra_id = lit "m";
  number = lit "";
  date = lit "2026-03-10";
  due_date = lit "2026-03-31";
  lines = [];
  additional_discount_type = lit "percent";
  additional_discount_value = of_cents 0;
  shipping_cost = of_cents 0;
  contact_person_id = none;
  template = lit "";
}

abbrev computed : LinesCalc ℤ
computed = record {
  lines =
      record {
        product_name = lit "tea";
        description = lit "";
        quantity = of_cents 200;
        unit_price = of_cents 10_000;
        discount_type = lit "percent";
        discount_value = of_cents 0;
        tax_ids = [];
        line_subtotal = of_cents 20_000;
        line_tax_amount = of_cents 0;
        line_total = of_cents 20_000;
      }
      ∷ [];
  subtotal = of_cents 20_000;
  discount_total = of_cents 0;
  tax_total = of_cents 0;
  grand_total = of_cents 20_000;
  additional_discount_type = lit "percent";
  additional_discount_value = of_cents 0;
  additional_discount_amount = of_cents 0;
}

create_sales_invoice-Keeps_example :
    Keeps fixed-IsCents
      (applied fixed-IsCents shop)
      shop
      (create_sales_invoice collation (lit "i2") company entered computed shop)
unfolding fixed-IsCents ◌≐◌ find
create_sales_invoice-Keeps_example =
    create_sales_invoice-Keeps fixed-IsCents collation shop (lit "i2") company entered computed
      shop-IsConsistent refl (refl, omega arith)
