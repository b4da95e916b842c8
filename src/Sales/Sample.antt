-- ===== src/Sales/Sample.antt =====
-- A small database of the sales side: a confirmed invoice of 1000.00 with 200.00 from a receipt and
-- 100.00 from a verified payment, and a payment of 50.00 that waits.
use invoicing_be.Base.{◌≡◌, refl, false, none, [], ◌∷◌, arith, Bool-cases, inl, inr}
use mathlib.Core.Option.{some-injective}
use mathlib.Core.Path.{subst₂}
use invoicing_be.Text.{Text, lit, ◌≐◌, ≐→≡}
use invoicing_be.Calendar.{Date}
use invoicing_be.Money.Fixed.{ℤ, fixed, of_cents, fixed-IsCents}
use invoicing_be.Store.{Collation}
use invoicing_be.Store.Table.{find}
use invoicing_be.Document.Contact.{no_contact}
use invoicing_be.Sales.Model.{
  SalesInvoice, confirmed, partially_paid, SalesPayment, pending, verified, SalesReceipt, Db,
}
use invoicing_be.Sales.Balance.{derived_status}
use invoicing_be.Sales.Balance.Ledger.{IsPaid, Holds}
use invoicing_be.Sales.Books.{applied, IsConsistent}

abbrev pub day : Date
day = record { year = 2026; month = 3; day = 9 }

abbrev pub company : Text
company = lit "c"

abbrev pub bill : SalesInvoice ℤ
bill = record {
  company_id = company;
  sales_order_id = none;
  linked_invoice_id = none;
  mitra_id = lit "m";
  kind = lit "invoice";
  number = lit "INV/2026/0001";
  date = day;
  due_date = none;
  template = lit "template_1";
  contact = no_contact none;
  status = confirmed;
  subtotal = of_cents 100_000;
  discount_total = of_cents 0;
  tax_total = of_cents 0;
  grand_total = of_cents 100_000;
  additional_discount_type = lit "percent";
  additional_discount_value = of_cents 0;
  additional_discount_amount = of_cents 0;
  shipping_cost = of_cents 0;
  paid_amount = of_cents 30_000;
  payment_status = partially_paid;
  lines = [];
  deleted = false;
}

abbrev pub received : SalesReceipt ℤ
received = record {
  company_id = company;
  mitra_id = lit "m";
  number = lit "KW/2026/0001";
  date = day;
  amount = of_cents 20_000;
  payment_method = lit "cash";
  bank_account_id = none;
  deleted = false;
}

abbrev pub done : SalesPayment ℤ
done = record {
  company_id = company;
  sales_invoice_id = lit "i";
  mitra_id = lit "m";
  number = lit "PAY/2026/0001";
  date = day;
  amount = of_cents 10_000;
  payment_method = lit "transfer";
  bank_account_id = none;
  status = verified;
  verified_by = lit "boss";
}

abbrev pub waiting : SalesPayment ℤ
waiting = record done {
  number = lit "PAY/2026/0002";
  amount = of_cents 5_000;
  status = pending;
  verified_by = [];
}

abbrev pub shop : Db ℤ
shop = record {
  invoices = (lit "i", bill) ∷ [];
  payments = (lit "p1", done) ∷ (lit "p2", waiting) ∷ [];
  receipts = (lit "r1", received) ∷ [];
  allocations =
      record {
        sales_receipt_id = lit "r1";
        sales_invoice_id = lit "i";
        company_id = company;
        amount = of_cents 20_000;
      }
      ∷ [];
  mitras = (lit "m", record { company_id = company; deleted = false }) ∷ [];
  taxes = [];
  contacts = [];
  templates = [];
}

abbrev pub collation : Collation
collation = record { lower = λ s. s; upper = λ s. s; equal_fold = ◌≐◌ }

pub applied_bill : applied fixed-IsCents shop (lit "i") ≡ 30_000
unfolding ◌≐◌ find fixed-IsCents
applied_bill = refl

pub bill-IsPaid : IsPaid fixed-IsCents 30_000 bill
unfolding derived_status fixed-IsCents
bill-IsPaid = record {
  grand_amount = (refl, omega arith);
  paid_amount_ok = (refl, omega arith);
  cents_paid = refl;
  status_derived = refl;
  draft_unpaid = λ e. ground arith;
}

pub shop-Holds : Holds fixed-IsCents (applied fixed-IsCents shop) shop
unfolding find
shop-Holds id row e = elim (Bool-cases (lit "i" ≐ id)) [
  | inl same ↦
      let q = ≐→≡ (lit "i") id same in
      subst₂ (λ k r. IsPaid fixed-IsCents (applied fixed-IsCents shop k) r) q
        (some-injective _ _ (rw same at e)) (rw applied_bill bill-IsPaid)
  | inr other ↦ cc (rw other at e)
]

pub shop-IsConsistent : IsConsistent fixed-IsCents shop
unfolding fixed-IsCents
shop-IsConsistent = record {
  balanced = shop-Holds;
  booked = (((refl, omega arith), omega arith), tt);
  payments = (((refl, omega arith), omega arith), (((refl, omega arith), omega arith), tt));
}
