-- ===== src/Base/Action.antt =====
-- Results of fallible code, and actions: code that reads and writes a store and may fail. The
-- store comes back on an error too, since what was written stays written; only a transaction
-- takes it back.
use mathlib.Core.Path.{◌≡◌, refl}
use mathlib.Core.Logic.{◌⊎◌, inl, inr}
use mathlib.Core.Bool.{Bool, true, false}

pub data Result {ℓ κ} (E : Type ℓ) (A : Type κ) : Type (ℓ ⊔ κ) where
  ok : A → Result E A
  err : E → Result E A

module _ {ℓ κ} {E : Type ℓ} {A : Type κ} where
  abbrev pub succeeds : Result E A → Bool
  succeeds (ok a) = true
  succeeds (err e) = false

  pub Result-cases : (r : Result E A) → ((a : A) × (r ≡ ok a)) ⊎ ((e : E) × (r ≡ err e))
  Result-cases (ok a) = inl (a, refl)
  Result-cases (err e) = inr (e, refl)

-- A sequence of checks without a store.
abbrev pub and_then {ℓ κ μ} :
    {E : Type ℓ} {A : Type κ} {B : Type μ} → Result E A → (A → Result E B) → Result E B
and_then (ok a) f = f a
and_then (err e) f = err e

abbrev pub require {ℓ} : {E : Type ℓ} → Bool → E → Result E (Unit {0})
require true e = ok tt
require false e = err e

abbrev pub map_err {ℓ κ μ} :
    {E : Type ℓ} {F : Type κ} {A : Type μ} → (E → F) → Result E A → Result F A
map_err f (ok a) = ok a
map_err f (err e) = err (f e)

module _ {ℓ κ μ ν} {E : Type ℓ} {A : Type κ} {B : Type μ} {C : Type ν} where
  pub and_then_assoc :
      (m : Result E A) (g : A → Result E B) (h : B → Result E C)
      → and_then (and_then m g) h ≡ and_then m (λ a. and_then (g a) h)
  and_then_assoc (ok a) g h = refl
  and_then_assoc (err e) g h = refl

-- What a successful sequence of checks has done.
pub and_then-eq-ok {ℓ κ μ} :
    {E : Type ℓ} {A : Type κ} {B : Type μ} (m : Result E A) (g : A → Result E B) {b : B}
    → and_then m g ≡ ok b
    → (a : A) × (m ≡ ok a) × (g a ≡ ok b)
and_then-eq-ok (ok a) g h = (a, refl, h)
and_then-eq-ok (err e) g h = cc

pub succeeds-eq-ok {ℓ κ} :
    {E : Type ℓ} {A : Type κ} (r : Result E A) → succeeds r ≡ true → (a : A) × (r ≡ ok a)
succeeds-eq-ok (ok a) h = (a, refl)
succeeds-eq-ok (err e) h = cc

pub and_then-succeeds {ℓ κ μ} :
    {E : Type ℓ} {A : Type κ} {B : Type μ} (m : Result E A) (g : A → Result E B)
    → succeeds (and_then m g) ≡ true
    → (a : A) × (m ≡ ok a) × (succeeds (g a) ≡ true)
and_then-succeeds (ok a) g h = (a, refl, h)
and_then-succeeds (err e) g h = cc
