-- ===== src/Activation.antt =====
-- app/service/activation.service.go and app/domain/activation: the activation milestone of a free
-- workspace and the limits that depend on it. The repositories' counts are arguments, as they are
-- interfaces of the service; the time is an argument too.
pub mod Laws
pub mod Tests
use invoicing_be.Base.{
  ℕ, ◌+◌, ◌%◌, ◌^◌, ltb, Bool, true, false, not, ◌&&◌, ◌||◌, Option, none, some, List, [], ◌∷◌,
  if◌then◌else◌, leb, ◌==◌, length, Result, ok, err,
}
use invoicing_be.Text.{Text, lit, ◌≐◌, is_empty, trim_space}
use invoicing_be.Store.{Action, pure, or_fail, guard, modify, ◌>>=◌, ◌>>◌}
use invoicing_be.Store.Table.{Table, find, update}

abbrev pub status_initial : Text
status_initial = lit "initial"

abbrev pub status_activated : Text
status_activated = lit "activated"

-- No cap, `none`, stands for Unlimited.
pub record Limits : Type 0 where
  pub users : Option ℕ
  pub transactions_per_month : ℕ
  pub partners : ℕ

unfoldable pub reached : ℕ → Option ℕ → Bool
reached used none = false
reached used (some limit) = leb limit used

abbrev pub initial_limits : Limits
initial_limits = record { users = some 8; transactions_per_month = 5; partners = 10 }

abbrev pub full_limits : Limits
full_limits = record { users = none; transactions_per_month = 20; partners = 50 }

unfoldable pub limits_for : Text → Limits
limits_for status = if status ≐ status_activated then full_limits else initial_limits

-- The columns of model.Company that the milestone reads or writes.
pub record Company : Type 0 where
  pub name : Text
  pub email : Text
  pub phone : Text
  pub jenis_usaha : Text
  pub jumlah_karyawan : Text
  pub activation_status : Text
  pub activated_at : Option ℕ

-- What the repositories count for the company: partners that are active, sales invoices that are
-- not down payments, purchase invoices, and what was created since the month began.
pub record Counts : Type 0 where
  pub active_partners : ℕ
  pub sales_invoices : ℕ
  pub purchase_invoices : ℕ
  pub sales_invoices_since : ℕ
  pub purchase_invoices_since : ℕ
  pub sales_orders_since : ℕ
  pub purchase_orders_since : ℕ

pub record Requirement : Type 0 where
  pub key : Text
  pub done : Bool
  pub current : ℕ
  pub required : ℕ

pub record Progress : Type 0 where
  pub status : Text
  pub activated_at : Option ℕ
  pub completed : ℕ
  pub total : ℕ
  pub requirements : List Requirement
  pub limits : Limits

pub data ActivationError : Type 0 where
  company_not_found : ActivationError
  limit_reached : Text → ℕ → Bool → ActivationError

abbrev pub CompanyAction {ℓ} : Type ℓ → Type ℓ
CompanyAction A = Action (Table Company) ActivationError A

abbrev required_partners : ℕ
required_partners = 3

abbrev required_invoices : ℕ
required_invoices = 1

unfoldable pub company_profile_complete : Company → Bool
company_profile_complete c =
    not (is_empty (trim_space c.name))
    && not (is_empty (trim_space c.email))
    && not (is_empty (trim_space c.phone))
    && not (is_empty (trim_space c.jenis_usaha))
    && not (is_empty (trim_space c.jumlah_karyawan))

-- An int64 is held as its residue modulo 2 ^ 64, which from 2 ^ 63 on stands for a negative number.
unfoldable pub int64 : ℕ → ℕ
int64 n = n % 2 ^ 64

-- `x >= bound` on an int64, for a bound that is not negative
unfoldable pub at_least : ℕ → ℕ → Bool
at_least bound x = leb bound x && ltb x (2 ^ 63)

unfoldable pub invoice_count : Counts → ℕ
unfolding int64
invoice_count n = int64 (n.sales_invoices + n.purchase_invoices)

abbrev to_int : Bool → ℕ
to_int true = 1
to_int false = 0

-- The checklist of Progress.
unfoldable pub checklist : Company → Counts → List Requirement
unfolding company_profile_complete invoice_count at_least
checklist c n =
    let profile_done = company_profile_complete c in
    record {
      key = lit "company_profile";
      done = profile_done;
      current = to_int profile_done;
      required = 1;
    }
    ∷ record {
      key = lit "partners";
      done = leb required_partners n.active_partners;
      current = n.active_partners;
      required = required_partners;
    }
    ∷ record {
      key = lit "invoice";
      done = at_least required_invoices (invoice_count n);
      current = invoice_count n;
      required = required_invoices;
    }
    ∷ []

unfoldable pub completed_count : List Requirement → ℕ
completed_count [] = 0
completed_count (r ∷ rs) = let rest = completed_count rs in if r.done then rest + 1 else rest

-- The status that Progress reports where it does not change it.
abbrev pub status_or_initial : Company → Text
status_or_initial c = if is_empty c.activation_status then status_initial else c.activation_status

abbrev pub activate : ℕ → Company → Company
activate now c = record c { activation_status = status_activated; activated_at = some now }

abbrev report : Text → Option ℕ → List Requirement → Progress
report status activated_at reqs = record {
  status = status;
  activated_at = activated_at;
  completed = completed_count reqs;
  total = length reqs;
  requirements = reqs;
  limits = limits_for status;
}

-- The company is not activated yet, and every step is done.
unfoldable pub activates : Company → List Requirement → Bool
activates c reqs =
    not (status_or_initial c ≐ status_activated) && (completed_count reqs == length reqs)

-- The end of Progress: the company is activated, or reported as it is.
unfoldable pub settle : Bool → ℕ → Text → Company → List Requirement → CompanyAction Progress
unfolding ◌>>=◌
settle true now id c reqs =
    modify (update id (activate now)) >> pure (report status_activated (some now) reqs)
settle false now id c reqs = pure (report (status_or_initial c) c.activated_at reqs)

-- ActivationService.Progress
unfoldable pub progress : Counts → ℕ → Text → CompanyAction Progress
progress n now id = λ companies.
    (or_fail company_not_found (find companies id) >>= λ c.
    settle (activates c (checklist c n)) now id c (checklist c n))
      companies

unfoldable pub is_activated : Table Company → Text → Bool
is_activated companies id = elim (find companies id) [
  | none ↦ false
  | some c ↦ c.activation_status ≐ status_activated
]

unfoldable pub check_partner_limit : Counts → Text → CompanyAction (Unit {0})
check_partner_limit n id = λ companies.
    (do
      c ← or_fail company_not_found (find companies id)
      let limits = limits_for c.activation_status
      guard (not (leb limits.partners n.active_partners))
          (limit_reached (lit "partners") limits.partners (is_activated companies id)))
      companies

unfoldable pub check_transaction_limit : Counts → Text → CompanyAction (Unit {0})
check_transaction_limit n id = λ companies.
    (do
      c ← or_fail company_not_found (find companies id)
      let limits = limits_for c.activation_status
      let total = int64 (
          n.sales_invoices_since + n.purchase_invoices_since + n.sales_orders_since
          + n.purchase_orders_since)
      guard (not (at_least limits.transactions_per_month total)) (
          limit_reached (lit "transactions_per_month") limits.transactions_per_month
            (is_activated companies id)))
      companies
