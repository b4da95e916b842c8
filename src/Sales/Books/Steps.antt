-- ===== src/Sales/Books/Steps.antt =====
-- Calls that keep the books, step by step: reads, transactions, and the read after one.
use invoicing_be.Base.{◌≡◌, refl, ◌∙◌, Bool, true, false, Option, none, some, Result, ok, err}
use invoicing_be.Text.{Text}
use invoicing_be.Money.{Float, IsCents}
use invoicing_be.Store.{gets, or_fail, guard, lift, transaction, ◌>>=◌, ◌>>◌}
use invoicing_be.Store.Outcome.{Outcome, Done}
use invoicing_be.Sales.Model.{SalesReceipt, Db, SalesError, SalesAction, find_receipt, not_found}
use invoicing_be.Sales.Balance.Ledger.{Ledger}
use invoicing_be.Sales.Receipt.{find_by_id}
use invoicing_be.Sales.Books.{applied, IsConsistent}

module _ {ℓ} {W : Type ℓ} ⦃f : Float W⦄ (laws : IsCents W) where
  -- Consistent books in which this much is paid on each invoice.
  abbrev pub Kept : Ledger → Db W → Type ℓ
  Kept ledger db = IsConsistent laws db × ((id : Text) → applied laws db id ≡ ledger id)

  -- How a call may end: done, with the books kept, or refused, with nothing changed.
  abbrev pub Keeps {κ} : {A : Type κ} → Ledger → Db W → Result (SalesError W) A × Db W → Type ℓ
  Keeps ledger db r = Outcome (Kept ledger) db r

  -- Where a transaction's body ends well, the books are kept, and `P` holds of the store.
  abbrev pub Finishes {κ μ} :
      {A : Type κ} → (Db W → Type μ) → Ledger → Result (SalesError W) A × Db W → Type (ℓ ⊔ μ)
  Finishes P ledger r =
      Done (λ d. IsConsistent laws d × ((id : Text) → applied laws d id ≡ ledger id) × P d) r

  abbrev pub IsFound : Text → Text → Db W → Type ℓ
  IsFound company id db = (r : SalesReceipt W) × (find_receipt db company id ≡ some r)

  found_after :
      (ledger : Ledger) (db : Db W) (company id : Text)
      (r : Result (SalesError W) (Unit {0}) × Db W)
      → Finishes (IsFound company id) ledger r
      → Keeps ledger db ((transaction (λ (d : Db W). r) >> find_by_id company id) db)
  unfolding find_by_id ◌>>=◌
  found_after ledger db company id (ok a, db') (c, sums, (row, found)) = rw found (c, sums)
  found_after ledger db company id (err e, db') h = refl

  -- A transaction, and the read after it.
  pub Keeps-find :
      (ledger : Ledger) (db : Db W) (company id : Text) (m : SalesAction W (Unit {0}))
      → Finishes (IsFound company id) ledger (m db)
      → Keeps ledger db ((transaction m >> find_by_id company id) db)
  unfolding ◌>>=◌
  Keeps-find ledger db company id m h = found_after ledger db company id (m db) h

  kept_after {κ} :
      {A : Type κ} (ledger : Ledger) (db : Db W) (k : SalesAction W A)
      (r : Result (SalesError W) (Unit {0}) × Db W)
      → Finishes (λ (d : Db W). (a : A) × (k d ≡ (ok a, d))) ledger r
      → Keeps ledger db ((transaction (λ (d : Db W). r) >> k) db)
  unfolding ◌>>=◌
  kept_after ledger db k (ok _, db') (c, sums, (a, found)) = rw found (c, sums)
  kept_after ledger db k (err e, db') h = refl

  -- A transaction, and a read that finds what it wrote.
  pub Keeps-after {κ} :
      {A : Type κ} (ledger : Ledger) (db : Db W) (m : SalesAction W (Unit {0}))
      (k : SalesAction W A)
      → Finishes (λ (d : Db W). (a : A) × (k d ≡ (ok a, d))) ledger (m db)
      → Keeps ledger db ((transaction m >> k) db)
  unfolding ◌>>=◌
  Keeps-after ledger db m k h = kept_after ledger db k (m db) h

  rolled_back :
      (ledger : Ledger) (db : Db W) (r : Result (SalesError W) (Unit {0}) × Db W)
      → Finishes (λ (d : Db W). Unit {0}) ledger r
      → Keeps ledger db (transaction (λ (d : Db W). r) db)
  rolled_back ledger db (ok a, db') (c, sums, _) = (c, sums)
  rolled_back ledger db (err e, db') h = refl

  pub Keeps-transaction :
      (ledger : Ledger) (db : Db W) (m : SalesAction W (Unit {0}))
      → Finishes (λ (d : Db W). Unit {0}) ledger (m db)
      → Keeps ledger db (transaction m db)
  Keeps-transaction ledger db m h = rolled_back ledger db (m db) h

  pub Keeps-eq {κ} :
      {A : Type κ} (ledger ledger' : Ledger) (db : Db W) (r : Result (SalesError W) A × Db W)
      → ((id : Text) → ledger id ≡ ledger' id)
      → Keeps ledger db r
      → Keeps ledger' db r
  Keeps-eq ledger ledger' db (ok a, db') same (c, sums) = (c, λ id. sums id ∙ same id)
  Keeps-eq ledger ledger' db (err e, db') same h = h

  -- The step only reads.
  abbrev pub IsRead {κ} : {A : Type κ} → SalesAction W A → Type ℓ
  IsRead m = (db : Db W) → (m db).1 ≡ db

  pub or_fail-IsRead {κ} : {A : Type κ} (e : SalesError W) (o : Option A) → IsRead (or_fail e o)
  or_fail-IsRead e none db = refl
  or_fail-IsRead e (some a) db = refl

  pub guard-IsRead : (b : Bool) (e : SalesError W) → IsRead (guard b e)
  guard-IsRead true e db = refl
  guard-IsRead false e db = refl

  pub lift-IsRead {κ} : {A : Type κ} (r : Result (SalesError W) A) → IsRead (lift r)
  lift-IsRead r db = refl

  pub gets-IsRead {κ} : {A : Type κ} (g : Db W → A) → IsRead (gets g)
  gets-IsRead g db = refl

  pub find_by_id-IsRead : (company id : Text) → IsRead (find_by_id company id)
  unfolding find_by_id
  find_by_id-IsRead company id db = or_fail-IsRead (not_found id) (find_receipt db company id) db

  Keeps-result {κ μ} :
      {A : Type κ} {B : Type μ} (ledger : Ledger) (db : Db W) (r : Result (SalesError W) A × Db W)
      (k : A → SalesAction W B)
      → r.1 ≡ db
      → ((a : A) → r.0 ≡ ok a → Keeps ledger db (k a db))
      → Keeps ledger db (((λ (d : Db W). r) >>= k) db)
  unfolding ◌>>=◌
  Keeps-result ledger db (ok a, d) k e h = rw e (h a refl)
  Keeps-result ledger db (err x, d) k e h = e

  pub Keeps-read {κ μ} :
      {A : Type κ} {B : Type μ} (ledger : Ledger) (db : Db W) (m : SalesAction W A)
      (k : A → SalesAction W B)
      → IsRead m
      → ((a : A) → (m db).0 ≡ ok a → Keeps ledger db (k a db))
      → Keeps ledger db ((m >>= k) db)
  unfolding ◌>>=◌
  Keeps-read ledger db m k e h = Keeps-result ledger db (m db) k (e db) h
