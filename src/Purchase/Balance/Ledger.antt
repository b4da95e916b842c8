-- ===== src/Purchase/Balance/Ledger.antt =====
-- The balances that app/repository/purchase_invoice_balance.go keeps, against a ledger: how many
-- cents have been paid on each bill.
use invoicing_be.Base.{
  ℕ, ◌+◌, ◌-◌, ◌≤◌, ◌≡◌, refl, sym, ◌∙◌, ap, true, false, not, Option, some, none, arith, inl, inr,
  if◌then◌else◌, Bool-cases, Option-cases, Result, ok, err,
}
use invoicing_be.Text.{Text, ◌≐◌, ≐_iff, ≐-refl}
use invoicing_be.Money.{Float, IsCents, ◌⊕◌, ◌⊖◌, ◌≺◌, round2}
use invoicing_be.Ledger.{Ledger, credit, debit, credit_other, debit_other}
use invoicing_be.Ledger.Cents.{fits, paid_up, paid_down}
use invoicing_be.Store.{bind-ok, bind-err, guard}
use invoicing_be.Store.Table.{find, find-update}
use invoicing_be.Store.Rows.{Rows, Rows-update}
use invoicing_be.Purchase.Model.{
  PurchaseInvoice, PurchaseInvoicePaymentStatus, is_confirmed, Db, PurchaseError,
  invoice_not_confirmed, invoice_exceeds_balance, find_purchase_invoice, unscoped_purchase_invoice,
}
use invoicing_be.Purchase.Balance.{
  purchase_payment_status, set_paid, change_invoice, lock_purchase_invoice, bill_not_found,
  wrong_partner, apply_purchase_invoice_payment, reverse_purchase_invoice_payment,
}

module _ {ℓ} {W : Type ℓ} ⦃f : Float W⦄ (laws : IsCents W) where
  open laws use {IsAmount, cents}

  -- The row agrees with the ledger: `n` cents are paid, the payment status says so, and something is
  -- paid on a confirmed bill only.
  pub record IsPaid (n : ℕ) (i : PurchaseInvoice W) : Type ℓ where
    pub grand_amount : IsAmount i.grand_total
    pub paid_amount_ok : IsAmount i.paid_amount
    pub cents_paid : cents i.paid_amount ≡ n
    pub status_derived : i.payment_status ≡ purchase_payment_status i.paid_amount i.grand_total
    pub paid_confirmed : is_confirmed i.status ≡ false → n ≡ 0

  -- Every bill of the database agrees with the ledger.
  abbrev pub Holds : Ledger → Db W → Type ℓ
  Holds ledger db = Rows (λ id i. IsPaid (ledger id) i) db.invoices

  -- A change of one row that agrees with the ledger's change there.
  pub Holds-change :
      (ledger ledger' : Ledger) (db : Db W) (id : Text) (g : PurchaseInvoice W → PurchaseInvoice W)
      (i : PurchaseInvoice W)
      → Holds ledger db
      → find db.invoices id ≡ some i
      → IsPaid (ledger' id) (g i)
      → ((j : Text) → (id ≐ j) ≡ false → ledger' j ≡ ledger j)
      → Holds ledger' (change_invoice id g db)
  Holds-change ledger ledger' db id g i holds found here others =
      Rows-update (λ j. IsPaid (ledger j)) (λ j. IsPaid (ledger' j)) db.invoices id g i holds found
        here (λ j row other p. rw (others j other) p)

  pub Holds-eq :
      (ledger ledger' : Ledger) (db : Db W)
      → ((id : Text) → ledger id ≡ ledger' id)
      → Holds ledger db
      → Holds ledger' db
  Holds-eq ledger ledger' db same holds id i e = rw (← same id) (holds id i e)

  IsPaid-apply :
      (n : ℕ) (i : PurchaseInvoice W) (a : W)
      → IsPaid n i
      → is_confirmed i.status ≡ true
      → IsAmount a
      → (round2 (i.grand_total ⊖ i.paid_amount) ≺ a) ≡ false
      → IsPaid (n + cents a) (set_paid (round2 (i.paid_amount ⊕ a)) i)
  IsPaid-apply n i a p ready ha fit =
      let under = fits laws i.grand_total i.paid_amount a p.grand_amount p.paid_amount_ok ha fit in
      let (amount, sum) =
        paid_up laws i.grand_total i.paid_amount a p.grand_amount p.paid_amount_ok ha under in
      record {
        grand_amount = p.grand_amount;
        paid_amount_ok = amount;
        cents_paid = omega (arith, sum, p.cents_paid);
        status_derived = refl;
        paid_confirmed = λ d. ground arith;
      }

  IsPaid-reverse :
      (n : ℕ) (i : PurchaseInvoice W) (a : W)
      → IsPaid n i
      → IsAmount a
      → cents a ≤ n
      → let left = round2 (i.paid_amount ⊖ a) in
        IsPaid (n - cents a) (set_paid (if left ≺ f.nought then f.nought else left) i)
  IsPaid-reverse n i a p ha le =
      let (amount, difference, kept) =
        paid_down laws i.paid_amount a p.paid_amount_ok ha (omega (arith, p.cents_paid)) in
      rw kept (record {
        grand_amount = p.grand_amount;
        paid_amount_ok = amount;
        cents_paid = omega (arith, difference, p.cents_paid);
        status_derived = refl;
        paid_confirmed = λ d. omega (arith, p.paid_confirmed d);
      })

  -- Which company a bill is of.
  abbrev pub company_of : Db W → Text → Option Text
  company_of db id = elim (find db.invoices id) [ none ↦ none | some i ↦ some i.company_id ]

  -- Bills stay their companies', and the receipts stay.
  pub record SameOwners (db db' : Db W) : Type ℓ where
    pub receipts_eq : db'.receipts ≡ db.receipts
    pub companies_eq : (id : Text) → company_of db' id ≡ company_of db id

  pub SameOwners-change :
      (db : Db W) (id : Text) (g : PurchaseInvoice W → PurchaseInvoice W)
      → ((i : PurchaseInvoice W) → (g i).company_id ≡ i.company_id)
      → SameOwners db (change_invoice id g db)
  SameOwners-change db id g keeps = record {
    receipts_eq = refl;
    companies_eq = λ j. elim (Option-cases (find db.invoices j)) [
      | inl gone ↦ ground (arith, gone, find-update id j g db.invoices)
      | inr (i, e) ↦ ground (arith, e, find-update id j g db.invoices, keeps i)
    ];
  }

  -- Only what is paid on bills has changed: every bill is there as it was, but for its paid amount
  -- and its payment status, no bill is new, and the other tables are the same.
  pub record OnlyPays (db db' : Db W) : Type ℓ where
    pub owners : SameOwners db db'
    pub mitras_eq : db'.mitras ≡ db.mitras
    pub taxes_eq : db'.taxes ≡ db.taxes
    pub contacts_eq : db'.contacts ≡ db.contacts
    pub templates_eq : db'.templates ≡ db.templates
    pub bills_eq :
        (id : Text) (i : PurchaseInvoice W)
        → find db.invoices id ≡ some i
        → (x : W) × (s : PurchaseInvoicePaymentStatus) × (find db'.invoices id
            ≡ some (record i { paid_amount = x; payment_status = s }))

  pub OnlyPays-refl : (db : Db W) → OnlyPays db db
  OnlyPays-refl db = record {
    owners = record { receipts_eq = refl; companies_eq = λ id. refl };
    mitras_eq = refl;
    taxes_eq = refl;
    contacts_eq = refl;
    templates_eq = refl;
    bills_eq = λ id i e. (i.paid_amount, i.payment_status, e);
  }

  pub OnlyPays-trans : {a b c : Db W} → OnlyPays a b → OnlyPays b c → OnlyPays a c
  OnlyPays-trans p q = record {
    owners = record {
      receipts_eq = q.owners.receipts_eq ∙ p.owners.receipts_eq;
      companies_eq = λ id. q.owners.companies_eq id ∙ p.owners.companies_eq id;
    };
    mitras_eq = q.mitras_eq ∙ p.mitras_eq;
    taxes_eq = q.taxes_eq ∙ p.taxes_eq;
    contacts_eq = q.contacts_eq ∙ p.contacts_eq;
    templates_eq = q.templates_eq ∙ p.templates_eq;
    bills_eq = λ id i e.
        let (x, s, there) = p.bills_eq id i e in
        q.bills_eq id (record i { paid_amount = x; payment_status = s }) there;
  }

  -- Setting what is paid on one bill.
  OnlyPays-set : (db : Db W) (id : Text) (x : W) → OnlyPays db (change_invoice id (set_paid x) db)
  OnlyPays-set db id x = record {
    owners = SameOwners-change db id (set_paid x) (λ i. refl);
    mitras_eq = refl;
    taxes_eq = refl;
    contacts_eq = refl;
    templates_eq = refl;
    bills_eq = λ j i e. elim (Bool-cases (id ≐ j)) [
      | inl here ↦ (
        x,
        purchase_payment_status x i.grand_total,
        find-update id j (set_paid x) db.invoices ∙ rw (here, e) refl,
      )
      | inr other ↦
          (i.paid_amount, i.payment_status, find-update id j (set_paid x) db.invoices ∙ rw other e)
    ];
  }

  pub find_purchase_invoice-eq :
      (db : Db W) (company id : Text) (i : PurchaseInvoice W)
      → find_purchase_invoice db company id ≡ some i
      → (find db.invoices id ≡ some i) × (company_of db id ≡ some company)
  unfolding find_purchase_invoice
  find_purchase_invoice-eq db company id i e =
      let found : find db.invoices id ≡ some i = ground (arith, e) in
      (found, ground (arith, e, found, ≐_iff i.company_id company))

  -- How a call on one bill may end: done, with the ledger changed, or refused, with nothing done.
  abbrev pub Moves : Ledger → Db W → Result (PurchaseError W) (Unit {0}) × Db W → Type ℓ
  Moves ledger db (ok _, db') = Holds ledger db' × OnlyPays db db'
  Moves ledger db (err e, db') = db' ≡ db

  module _ (db : Db W) (company id : Text) where
    pub lock-some :
        (i : PurchaseInvoice W)
        → find_purchase_invoice db company id ≡ some i
        → lock_purchase_invoice company id db ≡ (ok i, db)
    unfolding lock_purchase_invoice
    lock-some i e = rw e refl

    lock-none :
        find_purchase_invoice db company id ≡ none
        → lock_purchase_invoice company id db ≡ (err bill_not_found, db)
    unfolding lock_purchase_invoice
    lock-none e = rw e refl

  module _ (db : Db W) (company id mitra : Text) (a : W) (i : PurchaseInvoice W)
      (found : find_purchase_invoice db company id ≡ some i) where
    apply-other :
        (i.mitra_id ≐ mitra) ≡ false
        → apply_purchase_invoice_payment company id mitra a db ≡ (err wrong_partner, db)
    unfolding apply_purchase_invoice_payment
    apply-other other =
        bind-ok _ _ db i db (lock-some db company id i found)
        ∙ bind-err _ _ db wrong_partner db (ap (λ b. guard b wrong_partner db) other)

    module _ (same : (i.mitra_id ≐ mitra) ≡ true) where
      apply-unconfirmed :
          is_confirmed i.status ≡ false
          → apply_purchase_invoice_payment company id mitra a db ≡ (err invoice_not_confirmed, db)
      unfolding apply_purchase_invoice_payment
      apply-unconfirmed unready =
          bind-ok _ _ db i db (lock-some db company id i found)
          ∙ bind-ok _ _ db tt db (ap (λ b. guard b wrong_partner db) same)
          ∙ bind-err _ _ db invoice_not_confirmed db
              (ap (λ b. guard b invoice_not_confirmed db) unready)

      apply-over :
          is_confirmed i.status ≡ true
          → (round2 (i.grand_total ⊖ i.paid_amount) ≺ a) ≡ true
          → apply_purchase_invoice_payment company id mitra a db
            ≡ (err (invoice_exceeds_balance (round2 (i.grand_total ⊖ i.paid_amount))), db)
      unfolding apply_purchase_invoice_payment
      apply-over ready over =
          let over_error : PurchaseError W =
            invoice_exceeds_balance (round2 (i.grand_total ⊖ i.paid_amount)) in
          bind-ok _ _ db i db (lock-some db company id i found)
          ∙ bind-ok _ _ db tt db (ap (λ b. guard b wrong_partner db) same)
          ∙ bind-ok _ _ db tt db (ap (λ b. guard b invoice_not_confirmed db) ready)
          ∙ bind-err _ _ db over_error db (ap (λ b. guard (not b) over_error db) over)

      pub apply-fits :
          is_confirmed i.status ≡ true
          → (round2 (i.grand_total ⊖ i.paid_amount) ≺ a) ≡ false
          → apply_purchase_invoice_payment company id mitra a db
            ≡ (ok tt, change_invoice id (set_paid (round2 (i.paid_amount ⊕ a))) db)
      unfolding apply_purchase_invoice_payment
      apply-fits ready fit =
          let over_error : PurchaseError W =
            invoice_exceeds_balance (round2 (i.grand_total ⊖ i.paid_amount)) in
          bind-ok _ _ db i db (lock-some db company id i found)
          ∙ bind-ok _ _ db tt db (ap (λ b. guard b wrong_partner db) same)
          ∙ bind-ok _ _ db tt db (ap (λ b. guard b invoice_not_confirmed db) ready)
          ∙ bind-ok _ _ db tt db (ap (λ b. guard (not b) over_error db) fit)

  apply-gone :
      (db : Db W) (company id mitra : Text) (a : W)
      → find_purchase_invoice db company id ≡ none
      → apply_purchase_invoice_payment company id mitra a db ≡ (err bill_not_found, db)
  unfolding apply_purchase_invoice_payment
  apply-gone db company id mitra a gone =
      bind-err _ _ db bill_not_found db (lock-none db company id gone)

  -- When every bill agrees with a ledger of paid cents, a payment of a whole amount of cents
  -- is entered on its bill, so that the bills agree with the ledger credited by it and nothing
  -- but what is paid has changed, or it is refused and nothing changes.
  pub apply-Pays :
      (ledger : Ledger) (db : Db W) (company id mitra : Text) (a : W)
      → Holds ledger db
      → IsAmount a
      → Moves (credit ledger id (cents a)) db (apply_purchase_invoice_payment company id mitra a db)
  apply-Pays ledger db company id mitra a holds ha =
      elim (Option-cases (find_purchase_invoice db company id)) [
        | inl gone ↦ rw (apply-gone db company id mitra a gone) refl
        | inr (i, e) ↦ elim (Bool-cases (i.mitra_id ≐ mitra)) [
          | inr other ↦ rw (apply-other db company id mitra a i e other) refl
          | inl same ↦ elim (Bool-cases (is_confirmed i.status)) [
            | inr unready ↦ rw (apply-unconfirmed db company id mitra a i e same unready) refl
            | inl ready ↦ elim (Bool-cases (round2 (i.grand_total ⊖ i.paid_amount) ≺ a)) [
              | inl over ↦ rw (apply-over db company id mitra a i e same ready over) refl
              | inr fit ↦
                  let (found, _) = find_purchase_invoice-eq db company id i e in
                  let paid_up : IsPaid (credit ledger id (cents a) id) _ =
                    rw (≐-refl id) (IsPaid-apply (ledger id) i a (holds id i found) ready ha fit) in
                  rw (apply-fits db company id mitra a i e same ready fit) (
                    Holds-change ledger (credit ledger id (cents a)) db id _ i holds found paid_up
                        (credit_other ledger id (cents a)),
                    OnlyPays-set db id _,
                  )
            ]
          ]
        ]
      ]

  -- A payment that is accepted is on a bill of the company.
  pub apply-company :
      (db : Db W) (company id mitra : Text) (a : W)
      → (apply_purchase_invoice_payment company id mitra a db).0 ≡ ok tt
      → company_of db id ≡ some company
  apply-company db company id mitra a done =
      elim (Option-cases (find_purchase_invoice db company id)) [
        | inl gone ↦
            ground (arith, ap (λ x. x.0) (sym (apply-gone db company id mitra a gone)) ∙ done)
        | inr (i, e) ↦ (find_purchase_invoice-eq db company id i e).1
      ]

  reverse-there :
      (db : Db W) (company id : Text) (a : W) (i : PurchaseInvoice W)
      → unscoped_purchase_invoice db company id ≡ some i
      → reverse_purchase_invoice_payment company id a db ≡ (
          let left = round2 (i.paid_amount ⊖ a) in
          (ok tt, change_invoice id (set_paid (if left ≺ f.nought then f.nought else left)) db))
  unfolding reverse_purchase_invoice_payment
  reverse-there db company id a i e = rw (e, reverse_purchase_invoice_payment) refl

  unscoped-some :
      (db : Db W) (company id : Text) (i : PurchaseInvoice W)
      → find db.invoices id ≡ some i
      → (i.company_id ≐ company) ≡ true
      → unscoped_purchase_invoice db company id ≡ some i
  unfolding unscoped_purchase_invoice
  unscoped-some db company id i e own = ground (arith, e, own)

  pub reverse-Pays :
      (ledger : Ledger) (db : Db W) (company id : Text) (a : W)
      → Holds ledger db
      → IsAmount a
      → cents a ≤ ledger id
      → company_of db id ≡ some company
      → Moves (debit ledger id (cents a)) db (reverse_purchase_invoice_payment company id a db)
  reverse-Pays ledger db company id a holds ha le mine = elim (Option-cases (find db.invoices id)) [
    | inl gone ↦ ground (arith, gone, mine)
    | inr (i, e) ↦
        let own : (i.company_id ≐ company) ≡ true = ground (arith, e, mine, ≐-refl company) in
        let paid_down : IsPaid (debit ledger id (cents a) id) _ =
          rw (≐-refl id) (IsPaid-reverse (ledger id) i a (holds id i e) ha le) in
        rw (reverse-there db company id a i (unscoped-some db company id i e own)) (
          Holds-change ledger (debit ledger id (cents a)) db id _ i holds e paid_down
              (debit_other ledger id (cents a)),
          OnlyPays-set db id _,
        )
  ]
