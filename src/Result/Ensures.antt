-- ===== src/Result/Ensures.antt =====
-- Total correctness of fallible code: what holds of a value, and of the error in its place. A
-- `stuck` result has neither.
use mathlib.Core.Path.{subst}
use midi.Prelude.{◌≡◌, ◌≢◌, ◌⊎◌, inl, inr, refl}
use midi.Result.{ParseError, Result, ok, err, stuck, ◌>>=◌}

pub data Ensures {ℓ} {A : Type ℓ} (P : A → Type 0) (Q : ParseError → Type 0)
    : Result A → Type ℓ where
  returns : (a : A) → P a → Ensures P Q (ok a)
  fails : (e : ParseError) → Q e → Ensures P Q (err e)

-- The condition on each result.
abbrev Holds {ℓ} : {A : Type ℓ} → (A → Type 0) → (ParseError → Type 0) → Result A → Type 0
Holds P Q (ok a) = P a
Holds P Q (err e) = Q e
Holds P Q stuck = ⊥

module _ {ℓ} {A : Type ℓ} {P : A → Type 0} {Q : ParseError → Type 0} where
  -- The two cases, with the equation kept.
  pub Ensures-cases :
      (r : Result A)
      → Ensures P Q r
      → ((a : A) × (r ≡ ok a) × P a) ⊎ ((e : ParseError) × (r ≡ err e) × Q e)
  Ensures-cases _ (returns a p) = inl (a, refl, p)
  Ensures-cases _ (fails e q) = inr (e, refl, q)

  Ensures-Holds : {r : Result A} → Ensures P Q r → Holds P Q r
  Ensures-Holds (returns a p) = p
  Ensures-Holds (fails e q) = q

  pub Ensures-ok : {r : Result A} (a : A) → r ≡ ok a → Ensures P Q r → P a
  Ensures-ok a h s = subst (Holds P Q) h (Ensures-Holds s)

  pub Ensures-err : {r : Result A} (e : ParseError) → r ≡ err e → Ensures P Q r → Q e
  Ensures-err e h s = subst (Holds P Q) h (Ensures-Holds s)

  pub Ensures-ne-stuck : {r : Result A} → Ensures P Q r → r ≢ stuck
  Ensures-ne-stuck s h = subst (Holds P Q) h (Ensures-Holds s)

module _ {ℓ κ} {A : Type ℓ} {B : Type κ} {P : A → Type 0} {R : B → Type 0} where
  pub Ensures-bind :
      {Q Q' : ParseError → Type 0} {m : Result A} {f : A → Result B}
      → Ensures P Q m
      → ((e : ParseError) → Q e → Q' e)
      → ((a : A) → P a → Ensures R Q' (f a))
      → Ensures R Q' (m >>= f)
  Ensures-bind (returns a p) w k = k a p
  Ensures-bind (fails e q) w k = fails e (w e q)

module _ {ℓ} {A : Type ℓ} {P R : A → Type 0} where
  pub Ensures-weaken :
      {Q Q' : ParseError → Type 0} {m : Result A}
      → ((a : A) → P a → R a)
      → ((e : ParseError) → Q e → Q' e)
      → Ensures P Q m
      → Ensures R Q' m
  Ensures-weaken f g (returns a p) = returns a (f a p)
  Ensures-weaken f g (fails e q) = fails e (g e q)
