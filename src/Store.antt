-- ===== src/Store.antt =====
-- The database as the repositories use it: tables of rows under their primary keys, and actions
-- that read and write a store of tables and may fail. An action gives the store back on an error
-- too, since what was written stays written; `transaction` takes it back, as gorm's does when its
-- body returns an error.
pub mod Table
pub mod Rows
pub mod Entries
pub mod Outcome
use invoicing_be.Text.{Text}
use invoicing_be.Base.{
  ◌≡◌, refl, ap, arith, Bool, true, false, Option, none, some, Result, ok, err, map_err,
}

abbrev pub Action {ℓ κ μ} : Type ℓ → Type κ → Type μ → Type (ℓ ⊔ (κ ⊔ μ))
Action S E A = S → Result E A × S

module _ {ℓ κ μ} {S : Type ℓ} {E : Type κ} {A : Type μ} where
  abbrev pub pure : A → Action S E A
  pure a s = (ok a, s)

  abbrev pub fail : E → Action S E A
  fail e s = (err e, s)

  abbrev pub gets : (S → A) → Action S E A
  gets f s = (ok (f s), s)

  -- The value, or the error where there is none.
  abbrev pub or_fail : E → Option A → Action S E A
  or_fail e none = fail e
  or_fail e (some a) = pure a

  abbrev pub lift : Result E A → Action S E A
  lift r s = (r, s)

  abbrev pub rollback : S → Result E A × S → Result E A × S
  rollback s (ok a, s') = (ok a, s')
  rollback s (err e, s') = (err e, s)

  -- db.Transaction
  abbrev pub transaction : Action S E A → Action S E A
  transaction m s = rollback s (m s)

module _ {ℓ κ} {S : Type ℓ} {E : Type κ} where
  -- `if !test { return e }`
  abbrev pub guard : Bool → E → Action S E (Unit {0})
  guard true e = pure tt
  guard false e = fail e

  abbrev pub modify : (S → S) → Action S E (Unit {0})
  modify f s = (ok tt, f s)

-- Shut, so that a proof can take a chain of steps apart one by one.
infixl 5 ◌>>=◌ ◌>>◌
unfoldable pub ◌>>=◌ {ℓ κ μ ν} :
    {S : Type ℓ} {E : Type κ} {A : Type μ} {B : Type ν}
    → Action S E A
    → (A → Action S E B)
    → Action S E B
◌>>=◌ m f s = let (r, s') = m s in elim r [ ok a ↦ f a s' | err e ↦ (err e, s') ]

-- A step that succeeds is followed by the rest, one that fails ends the sequence.
pub bind-ok {ℓ κ μ ν} :
    {S : Type ℓ} {E : Type κ} {A : Type μ} {B : Type ν} (m : Action S E A) (k : A → Action S E B)
    (s : S) (a : A) (s' : S)
    → m s ≡ (ok a, s')
    → (m >>= k) s ≡ k a s'
unfolding ◌>>=◌
bind-ok {S = S} {E = E} {A = A} m k s a s' e =
    ap (λ (r : Result E A × S). ((λ (d : S). r) >>= k) s) e

pub bind-err {ℓ κ μ ν} :
    {S : Type ℓ} {E : Type κ} {A : Type μ} {B : Type ν} (m : Action S E A) (k : A → Action S E B)
    (s : S) (e : E) (s' : S)
    → m s ≡ (err e, s')
    → (m >>= k) s ≡ (err e, s')
unfolding ◌>>=◌
bind-err {S = S} {E = E} {A = A} m k s e s' h =
    ap (λ (r : Result E A × S). ((λ (d : S). r) >>= k) s) h

abbrev pub ◌>>◌ {ℓ κ μ} :
    {S : Type ℓ} {E : Type κ} {B : Type μ} → Action S E (Unit {0}) → Action S E B → Action S E B
m >> k = m >>= λ _. k

module _ {ℓ κ μ ν π} {S : Type ℓ} {E : Type κ} {A : Type μ} {B : Type ν} (P : S → Type π) where
  read_result :
      (r : Result E A × S) (k : A → Action S E B) (s : S)
      → r.1 ≡ s
      → P s
      → ((a : A) → r.0 ≡ ok a → P (k a s).1)
      → P (((λ (d : S). r) >>= k) s).1
  unfolding ◌>>=◌
  read_result (ok a, d) k s e p h = rw e (h a refl)
  read_result (err x, d) k s e p h = rw e p

  -- What holds of the store after a step that only reads.
  pub after_read :
      (m : Action S E A) (k : A → Action S E B) (s : S)
      → (m s).1 ≡ s
      → P s
      → ((a : A) → (m s).0 ≡ ok a → P (k a s).1)
      → P ((m >>= k) s).1
  unfolding ◌>>=◌
  after_read m k s e p h = read_result (m s) k s e p h

  write_result :
      (r : Result E A × S) (k : A → Action S E B) (s : S)
      → P r.1
      → ((a : A) (d : S) → (k a d).1 ≡ d)
      → P (((λ (d : S). r) >>= k) s).1
  unfolding ◌>>=◌
  write_result (ok a, d) k s p h = rw (h a d) p
  write_result (err x, d) k s p h = p

  -- What holds of the store after a step that is followed by a read.
  pub before_read :
      (m : Action S E A) (k : A → Action S E B) (s : S)
      → P (m s).1
      → ((a : A) (d : S) → (k a d).1 ≡ d)
      → P ((m >>= k) s).1
  unfolding ◌>>=◌
  before_read m k s p h = write_result (m s) k s p h

module _ {ℓ κ} {S : Type ℓ} {E : Type κ} where
  pub or_fail-store {μ} : {A : Type μ} (e : E) (o : Option A) (s : S) → (or_fail e o s).1 ≡ s
  or_fail-store e none s = refl
  or_fail-store e (some a) s = refl

  pub or_fail-eq-ok {μ} :
      {A : Type μ} (e : E) (o : Option A) (a : A) (s : S) → (or_fail e o s).0 ≡ ok a → o ≡ some a
  or_fail-eq-ok e none a s h = ground arith
  or_fail-eq-ok e (some x) a s h = ground arith

  pub guard-store : (b : Bool) (e : E) (s : S) → (guard b e s).1 ≡ s
  guard-store true e s = refl
  guard-store false e s = refl

  pub guard-eq-ok : (b : Bool) (e : E) (u : Unit {0}) (s : S) → (guard b e s).0 ≡ ok u → b ≡ true
  guard-eq-ok true e u s h = refl
  guard-eq-ok false e u s h = ground arith

abbrev pub map_fail {ℓ κ μ} :
    {S : Type ℓ} {E : Type κ} {A : Type μ} → (E → E) → Action S E A → Action S E A
map_fail f m s = let (r, s') = m s in (map_err f r, s')

-- What the database and the Unicode tables decide: SQL's lower(), strings.ToUpper and
-- strings.EqualFold.
pub record Collation : Type 0 where
  pub lower : Text → Text
  pub upper : Text → Text
  pub equal_fold : Text → Text → Bool
