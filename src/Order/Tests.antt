-- ===== src/Order/Tests.antt =====
-- The order services on two companies' orders.
use invoicing_be.Base.{◌≡◌, refl, false, none, [], ◌∷◌, ok}
use invoicing_be.Text.{Text, lit, ◌≐◌, has_prefix}
use invoicing_be.Calendar.{is_digit}
use invoicing_be.Money.Fixed.{ℤ, fixed, of_cents}
use invoicing_be.Store.{Collation, ◌>>=◌}
use invoicing_be.Store.Table.{find, rows}
use invoicing_be.Store.Outcome.{Outcome}
use invoicing_be.Document.Contact.{no_contact}
use invoicing_be.Order.{
  Order, OrderDto, sales_orders, draft, Db, find_order, generate_order_number, order_numbers,
}
use invoicing_be.Numbering.{
  generate, prefix, decimal, decimal_fuel, next_text, max_seq, atoi, unsigned, digits_value, last,
  padded, split,
}
use invoicing_be.Order.Service.{reopen_order, cancel_order}
use invoicing_be.Order.Calls.{OrderCall, place, approve, perform_order, Permits}
use invoicing_be.Order.Lawful.{Lawful}
use invoicing_be.Order.Histories.{perform_order-Lawful, begins, goes_on, others_isolated}
use invoicing_be.Order.Answers.{cancel-then-reopen}

abbrev collation : Collation
collation = record { lower = λ s. s; upper = λ s. s; equal_fold = ◌≐◌ }

abbrev order_of : Text → Text → Order ℤ
order_of company number = record {
  company_id = company;
  mitra_id = lit "m";
  number = number;
  date = record { year = 2026; month = 3; day = 9 };
  status = draft;
  subtotal = of_cents 20_000;
  discount_total = of_cents 0;
  tax_total = of_cents 0;
  grand_total = of_cents 20_000;
  additional_discount_type = lit "percent";
  additional_discount_value = of_cents 0;
  additional_discount_amount = of_cents 0;
  template = lit "template_1";
  contact = no_contact none;
  lines = [];
  deleted = false;
}

abbrev mall : Db ℤ
mall = record {
  orders =
      (lit "o1", order_of (lit "c") (lit "SO/2026/0007"))
      ∷ (lit "o2", order_of (lit "d") (lit "SO/2026/0001"))
      ∷ [];
  mitras = (lit "m", record { company_id = lit "c"; deleted = false }) ∷ [];
  taxes = [];
  contacts = [];
  templates = [];
}

abbrev asked : OrderDto ℤ
asked = record {
  mitra_id = lit "m";
  number = lit "";
  date = lit "2026-03-10";
  lines =
      (record {
        product_name = lit "tea";
        description = lit "";
        quantity = of_cents 200;
        unit_price = of_cents 1_000;
        discount_type = lit "";
        discount_value = of_cents 0;
        tax_ids = [];
      })
      ∷ [];
  additional_discount_type = lit "percent";
  additional_discount_value = of_cents 0;
  contact_person_id = none;
  template = lit "";
}

abbrev placing : OrderCall ℤ
placing = place (lit "o3") (ok tt) asked

perform_order-Lawful_example :
    Outcome
      (Lawful (Permits placing) (lit "c") (lit "o3") mall)
      mall
      (perform_order collation sales_orders (lit "c") placing mall)
unfolding find ◌≐◌
perform_order-Lawful_example =
    perform_order-Lawful collation sales_orders mall (lit "c") placing refl

others_isolated_example :
    let placed = (perform_order collation sales_orders (lit "c") placing mall).1 in
    find_order
      (perform_order collation sales_orders (lit "c") (approve (lit "o1")) placed).1
      (lit "d")
      (lit "o2")
    ≡ find_order mall (lit "d") (lit "o2")
unfolding find ◌≐◌
others_isolated_example =
    others_isolated collation sales_orders (lit "d") mall
      (perform_order collation sales_orders (lit "c") (approve (lit "o1"))
        (perform_order collation sales_orders (lit "c") placing mall).1).1
      (goes_on (perform_order collation sales_orders (lit "c") placing mall).1 (lit "c")
        (approve (lit "o1")) (goes_on mall (lit "c") placing begins refl refl) refl tt)
      (lit "o2")

cancel-then-reopen_example :
    ((cancel_order (lit "c") (lit "o1") >>= λ _. reopen_order (lit "c") (lit "o1")) mall).0
    ≡ ok (order_of (lit "c") (lit "SO/2026/0007"))
unfolding find_order find ◌≐◌
cancel-then-reopen_example =
    cancel-then-reopen mall (lit "c") (lit "o1") (order_of (lit "c") (lit "SO/2026/0007")) refl refl

-- The next order's number; the other company's orders do not count.
next_number :
    generate_order_number sales_orders mall (lit "c") (record { year = 2026; month = 3; day = 10 })
    ≡ lit "SO/2026/0008"
unfolding generate_order_number order_numbers generate prefix decimal decimal_fuel next_text max_seq
    rows atoi unsigned digits_value last padded split has_prefix is_digit ◌≐◌
next_number = refl
