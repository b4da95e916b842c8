-- ===== src/Activation/Tests.antt =====
-- The activation milestone on one company.
use invoicing_be.Base.{
  arith, ◌<◌, ◌≡◌, ◌↔◌, refl, true, ◌||◌, none, some, [], ◌∷◌, ok, if◌then◌else◌,
}
use invoicing_be.Text.{lit, ◌≐◌}
use invoicing_be.Store.Table.{Table, find}
use invoicing_be.Activation.{
  Company, Counts, status_initial, status_activated, progress, is_activated,
  check_transaction_limit,
}
use invoicing_be.Activation.Laws.{
  qualifies, transactions, progress_activates, progress_once, check_transaction_limit_iff,
}

abbrev firm : Company
firm = record {
  name = lit "PT Contoh";
  email = lit "a@b.id";
  phone = lit "021";
  jenis_usaha = lit "jasa";
  jumlah_karyawan = lit "1-10";
  activation_status = status_initial;
  activated_at = none;
}

abbrev firms : Table Company
firms =
    (lit "a", firm)
    ∷ (lit "b", record firm { activation_status = status_activated; activated_at = some 7 })
    ∷ []

abbrev busy : Counts
busy = record {
  active_partners = 3;
  sales_invoices = 1;
  purchase_invoices = 0;
  sales_invoices_since = 1;
  purchase_invoices_since = 0;
  sales_orders_since = 4;
  purchase_orders_since = 0;
}

firm-found : find firms (lit "a") ≡ some firm
unfolding find ◌≐◌
firm-found = refl

progress_activates_example :
    is_activated (progress busy 9 (lit "a") firms).1 (lit "a")
    ≡ ((firm.activation_status ≐ status_activated) || qualifies firm busy)
progress_activates_example = progress_activates busy 9 (lit "a") firms firm firm-found (omega arith)

b_activated : is_activated firms (lit "b") ≡ true
unfolding is_activated find ◌≐◌
b_activated = refl

progress_once_example : (progress busy 9 (lit "b") firms).1 ≡ firms
progress_once_example = progress_once busy 9 (lit "b") firms b_activated

check_transaction_limit_iff_example :
    (check_transaction_limit busy (lit "a") firms ≡ (ok tt, firms))
    ↔ (transactions busy < (if firm.activation_status ≐ status_activated then 20 else 5))
check_transaction_limit_iff_example =
    check_transaction_limit_iff busy (lit "a") firms firm firm-found (omega arith)
