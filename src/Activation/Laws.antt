-- ===== src/Activation/Laws.antt =====
-- The milestone and the limits of app/service/activation.service.go, against what they ask for.
use invoicing_be.Base.{
  ℕ, ◌+◌, ◌^◌, ◌<◌, ◌≡◌, ◌↔◌, refl, ◌∙◌, ap, Bool, true, false, not, ◌&&◌, ◌||◌, some, [], ◌∷◌,
  arith, if◌then◌else◌, leb, ◌==◌, length, Bool-cases, Option-cases, ok, inl, inr,
}
use invoicing_be.Text.{Text, ◌≐◌, ≐-refl, is_empty}
use invoicing_be.Store.{bind-ok, or_fail, ◌>>=◌}
use invoicing_be.Store.Table.{Table, find, update, find-update}
use invoicing_be.Activation.{
  Company, Counts, status_initial, status_activated, status_or_initial, company_profile_complete,
  invoice_count, int64, at_least, checklist, completed_count, activates, activate, settle,
  company_not_found, progress, check_transaction_limit, limits_for, is_activated,
}

-- The company has been activated before, or it does now what activation asks for.
abbrev pub qualifies : Company → Counts → Bool
qualifies c n =
    company_profile_complete c
    && leb 3 n.active_partners
    && leb 1 (n.sales_invoices + n.purchase_invoices)

-- A count that an int64 holds is compared as it is.
at_least-int64 : (k x : ℕ) → x < 2 ^ 63 → at_least k (int64 x) ≡ leb k x
unfolding at_least int64
at_least-int64 k x h = ground arith

completed-checklist :
    (c : Company) (n : Counts)
    → n.sales_invoices + n.purchase_invoices < 2 ^ 63
    → (completed_count (checklist c n) == length (checklist c n)) ≡ qualifies c n
unfolding completed_count checklist invoice_count
completed-checklist c n h =
    ground (arith, at_least-int64 1 (n.sales_invoices + n.purchase_invoices) h)

abbrev pub transactions : Counts → ℕ
transactions n =
    n.sales_invoices_since + n.purchase_invoices_since + n.sales_orders_since
    + n.purchase_orders_since

activates-eq :
    (c : Company) (n : Counts)
    → activates c (checklist c n) ≡ (
        not (status_or_initial c ≐ status_activated)
        && (completed_count (checklist c n) == length (checklist c n)))
unfolding activates
activates-eq c n = refl

blank :
    (s : Text) → is_empty s ≡ true → (status_initial ≐ status_activated) ≡ (s ≐ status_activated)
unfolding ◌≐◌ is_empty
blank [] e = refl
blank (x ∷ s) e = ground arith

progress-found :
    (n : Counts) (now : ℕ) (id : Text) (companies : Table Company) (c : Company)
    → find companies id ≡ some c
    → progress n now id companies
      ≡ settle (activates c (checklist c n)) now id c (checklist c n) companies
unfolding progress
progress-found n now id companies c found =
    bind-ok (or_fail company_not_found (find companies id)) _ companies c companies (rw found refl)

progress-done :
    (n : Counts) (now : ℕ) (id : Text) (companies : Table Company) (c : Company)
    → find companies id ≡ some c
    → activates c (checklist c n) ≡ true
    → (progress n now id companies).1 ≡ update id (activate now) companies
unfolding settle ◌>>=◌
progress-done n now id companies c found h =
    ap (λ p. p.1) (progress-found n now id companies c found) ∙ rw h refl

progress-same :
    (n : Counts) (now : ℕ) (id : Text) (companies : Table Company) (c : Company)
    → find companies id ≡ some c
    → activates c (checklist c n) ≡ false
    → (progress n now id companies).1 ≡ companies
unfolding settle ◌>>=◌
progress-same n now id companies c found h =
    ap (λ p. p.1) (progress-found n now id companies c found) ∙ rw h refl

status_eq :
    (c : Company)
    → (status_or_initial c ≐ status_activated) ≡ (c.activation_status ≐ status_activated)
status_eq c = elim (Bool-cases (is_empty c.activation_status)) [
  | inl e ↦ rw e (blank c.activation_status e)
  | inr e ↦ rw e refl
]

-- For a company that exists and has fewer than 2^63 invoices, after Progress it is activated
-- exactly if it was before, or its profile is complete and it has at least three partners and
-- one invoice now.
pub progress_activates :
    (n : Counts) (now : ℕ) (id : Text) (companies : Table Company) (c : Company)
    → find companies id ≡ some c
    → n.sales_invoices + n.purchase_invoices < 2 ^ 63
    → is_activated (progress n now id companies).1 id
      ≡ ((c.activation_status ≐ status_activated) || qualifies c n)
unfolding is_activated
progress_activates n now id companies c found small =
    elim (Bool-cases (activates c (checklist c n))) [
      | inl h ↦ rw (progress-done n now id companies c found h) (
          ground (
            arith,
            found,
            find-update id id (activate now) companies,
            ≐-refl id,
            ≐-refl status_activated,
            status_eq c,
            completed-checklist c n small,
            activates-eq c n,
            h,
          ))
      | inr h ↦
          rw (progress-same n now id companies c found h)
            (ground (arith, found, status_eq c, completed-checklist c n small, activates-eq c n, h))
    ]

-- Progress changes nothing where the company is activated already: the activation is one-way,
-- and its time is kept.
pub progress_once :
    (n : Counts) (now : ℕ) (id : Text) (companies : Table Company)
    → is_activated companies id ≡ true
    → (progress n now id companies).1 ≡ companies
unfolding is_activated
progress_once n now id companies h = elim (Option-cases (find companies id)) [
  | inl gone ↦ ground (arith, gone, h)
  | inr (c, found) ↦
      progress-same n now id companies c found
        (ground (arith, found, h, status_eq c, activates-eq c n))
]

-- For a company that exists and has fewer than 2^63 transactions this month,
-- CheckTransactionLimit passes exactly if fewer than 20 transactions were created this month
-- where the company is activated, and fewer than 5 where it is not.
pub check_transaction_limit_iff :
    (n : Counts) (id : Text) (companies : Table Company) (c : Company)
    → find companies id ≡ some c
    → transactions n < 2 ^ 63
    → (check_transaction_limit n id companies ≡ (ok tt, companies))
      ↔ (transactions n < (if c.activation_status ≐ status_activated then 20 else 5))
unfolding check_transaction_limit limits_for ◌>>=◌
check_transaction_limit_iff n id companies c found small =
    rw found (elim (Bool-cases (c.activation_status ≐ status_activated)) [
      | inl e ↦ rw (e, at_least-int64 20 (transactions n) small) (ground arith, ground arith)
      | inr e ↦ rw (e, at_least-int64 5 (transactions n) small) (ground arith, ground arith)
    ])
