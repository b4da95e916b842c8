-- ===== src/Store/Outcome.antt =====
-- How a call on the store ends: it succeeds, and the new store satisfies a predicate, or it fails
-- and the store is the old one.
use invoicing_be.Base.{◌≡◌, refl, Result, ok, err}
use invoicing_be.Store.{Action, transaction, ◌>>=◌, ◌>>◌}

module _ {ℓ κ} {S : Type ℓ} {E : Type κ} where
  abbrev pub Outcome {μ} : {A : Type μ} → (S → Type ℓ) → S → Result E A × S → Type ℓ
  Outcome P s (ok _, s') = P s'
  Outcome P s (err e, s') = s' ≡ s

  -- The same inside a transaction, which takes back what a failure leaves behind.
  abbrev pub Done {μ π} : {A : Type μ} → (S → Type π) → Result E A × S → Type π
  Done P (ok _, s') = P s'
  Done P (err e, s') = Unit

  pub Outcome-map {μ} :
      {A : Type μ} (P Q : S → Type ℓ) (s : S) (r : Result E A × S)
      → ((s' : S) → P s' → Q s')
      → Outcome P s r
      → Outcome Q s r
  Outcome-map P Q s (ok a, s') f h = f s' h
  Outcome-map P Q s (err e, s') f h = h

  pub Done-map {μ π ρ} :
      {A : Type μ} (P : S → Type π) (Q : S → Type ρ) (r : Result E A × S)
      → ((s' : S) → P s' → Q s')
      → Done P r
      → Done Q r
  Done-map P Q (ok a, s') f h = f s' h
  Done-map P Q (err e, s') f h = tt

module _ {ℓ κ μ} {S : Type ℓ} {E : Type κ} {B : Type μ} where
  -- The step succeeds and leaves the store as it is.
  abbrev pub Reads : Action S E B → S → Type (ℓ ⊔ (κ ⊔ μ))
  Reads k s = (b : B) × (k s ≡ (ok b, s))

module _ {ℓ κ μ} {S : Type ℓ} {E : Type κ} {B : Type μ} (P : S → Type ℓ) where
  read_result {ν} :
      {A : Type ν} (r : Result E A × S) (k : A → Action S E B) (s : S)
      → r.1 ≡ s
      → ((a : A) → r.0 ≡ ok a → Outcome P s (k a s))
      → Outcome P s (((λ (d : S). r) >>= k) s)
  unfolding ◌>>=◌
  read_result (ok a, d) k s e h = rw e (h a refl)
  read_result (err x, d) k s e h = e

  -- After a step that only reads.
  pub Outcome-read {ν} :
      {A : Type ν} (m : Action S E A) (k : A → Action S E B) (s : S)
      → (m s).1 ≡ s
      → ((a : A) → (m s).0 ≡ ok a → Outcome P s (k a s))
      → Outcome P s ((m >>= k) s)
  unfolding ◌>>=◌
  Outcome-read m k s e h = read_result (m s) k s e h

  then_result :
      (r : Result E (Unit {0}) × S) (k : Action S E B) (s : S)
      → Outcome P s r
      → Done (Reads k) r
      → Outcome P s (((λ (d : S). r) >> k) s)
  unfolding ◌>>=◌
  then_result (ok u, d) k s p (b, e) = rw e p
  then_result (err x, d) k s h _ = h

  -- A call, and a read that finds what it wrote.
  pub Outcome-then :
      (m : Action S E (Unit {0})) (k : Action S E B) (s : S)
      → Outcome P s (m s)
      → Done (Reads k) (m s)
      → Outcome P s ((m >> k) s)
  unfolding ◌>>=◌
  Outcome-then m k s h found = then_result (m s) k s h found

  after_result :
      (r : Result E (Unit {0}) × S) (k : Action S E B) (s : S)
      → Done (λ d. P d × Reads k d) r
      → Outcome P s ((transaction (λ (d : S). r) >> k) s)
  unfolding ◌>>=◌
  after_result (ok u, d) k s (p, (b, e)) = rw e p
  after_result (err x, d) k s h = refl

  -- A transaction, and a read that finds what it wrote.
  pub Outcome-after :
      (m : Action S E (Unit {0})) (k : Action S E B) (s : S)
      → Done (λ d. P d × Reads k d) (m s)
      → Outcome P s ((transaction m >> k) s)
  unfolding ◌>>=◌
  Outcome-after m k s h = after_result (m s) k s h

  enter_result {ν} :
      {A : Type ν} (r : Result E A × S) (k : A → Action S E B) (s : S)
      → ((a : A) (d : S) → r ≡ (ok a, d) → Outcome P s (k a d))
      → Outcome P s ((transaction (λ (d : S). r) >>= k) s)
  unfolding ◌>>=◌
  enter_result (ok a, d) k s h = h a d refl
  enter_result (err x, d) k s h = refl

  -- A transaction, and what follows it.
  pub Outcome-enter {ν} :
      {A : Type ν} (m : Action S E A) (k : A → Action S E B) (s : S)
      → ((a : A) (d : S) → m s ≡ (ok a, d) → Outcome P s (k a d))
      → Outcome P s ((transaction m >>= k) s)
  unfolding ◌>>=◌
  Outcome-enter m k s h = enter_result (m s) k s h

  only_reads : (r : Result E B × S) (s : S) → r.1 ≡ s → P s → Outcome P s r
  only_reads (ok b, d) s e p = rw e p
  only_reads (err x, d) s e p = e

  -- A read that finds what it looks for.
  pub Outcome-found : (k : Action S E B) (s d : S) → Reads k d → P d → Outcome P s (k d)
  Outcome-found k s d (b, e) p = rw e p

  -- A call that only reads.
  pub Outcome-only : (m : Action S E B) (s : S) → (m s).1 ≡ s → P s → Outcome P s (m s)
  Outcome-only m s e p = only_reads (m s) s e p

module _ {ℓ κ μ} {S : Type ℓ} {E : Type κ} {A : Type μ} (P : S → Type ℓ) where
  rolled_back : (r : Result E A × S) (s : S) → Done P r → Outcome P s (transaction (λ (d : S). r) s)
  rolled_back (ok a, d) s p = p
  rolled_back (err e, d) s h = refl

  pub Outcome-transaction :
      (m : Action S E A) (s : S) → Done P (m s) → Outcome P s (transaction m s)
  Outcome-transaction m s h = rolled_back (m s) s h

-- The end of a sequence of two steps inside a transaction.
module _ {ℓ κ μ ν} {S : Type ℓ} {E : Type κ} {A : Type μ} {B : Type ν} where
  next_result {π ρ} :
      (P : S → Type π) (Q : S → Type ρ) (r : Result E A × S) (k : A → Action S E B) (s : S)
      → Done P r
      → ((a : A) (d : S) → P d → Done Q (k a d))
      → Done Q (((λ (d : S). r) >>= k) s)
  unfolding ◌>>=◌
  next_result P Q (ok a, d) k s p h = h a d p
  next_result P Q (err e, d) k s p h = tt

  pub Done-then {π ρ} :
      (P : S → Type π) (Q : S → Type ρ) (m : Action S E A) (k : A → Action S E B) (s : S)
      → Done P (m s)
      → ((a : A) (d : S) → P d → Done Q (k a d))
      → Done Q ((m >>= k) s)
  unfolding ◌>>=◌
  Done-then P Q m k s p h = next_result P Q (m s) k s p h

  result_read {ρ} :
      (Q : S → Type ρ) (r : Result E A × S) (k : A → Action S E B) (s : S)
      → r.1 ≡ s
      → ((a : A) → r.0 ≡ ok a → Done Q (k a s))
      → Done Q (((λ (d : S). r) >>= k) s)
  unfolding ◌>>=◌
  result_read Q (ok a, d) k s e h = rw e (h a refl)
  result_read Q (err x, d) k s e h = tt

  pub Done-read {ρ} :
      (Q : S → Type ρ) (m : Action S E A) (k : A → Action S E B) (s : S)
      → (m s).1 ≡ s
      → ((a : A) → (m s).0 ≡ ok a → Done Q (k a s))
      → Done Q ((m >>= k) s)
  unfolding ◌>>=◌
  Done-read Q m k s e h = result_read Q (m s) k s e h
