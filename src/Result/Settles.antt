-- ===== src/Result/Settles.antt =====
-- Termination of fallible code: the result is a value or an error.
use mathlib.Core.Path.{subst}
use midi.Prelude.{◌≡◌, ◌≢◌, refl, Bool, true, false, if◌then◌else◌, Option, none, some}
use midi.Result.{ParseError, Result, ok, err, stuck, ◌>>=◌, ok_or}
use midi.Result.Ensures.{Ensures, returns, fails}
use midi.Result.Yields.{Yields, Yields-ok, value, refused}

pub data Settles {ℓ} {A : Type ℓ} : Result A → Type ℓ where
  returned : (a : A) → Settles (ok a)
  failed : (e : ParseError) → Settles (err e)

abbrev IsOver {ℓ} : {A : Type ℓ} → Result A → Type 0
IsOver (ok a) = Unit {0}
IsOver (err e) = Unit {0}
IsOver stuck = ⊥

module _ {ℓ} {A : Type ℓ} where
  Settles-IsOver : {r : Result A} → Settles r → IsOver r
  Settles-IsOver (returned a) = tt
  Settles-IsOver (failed e) = tt

  pub Settles-ne-stuck : {r : Result A} → Settles r → r ≢ stuck
  Settles-ne-stuck s h = subst IsOver h (Settles-IsOver s)

  pub Settles-if :
      (b : Bool) {x y : Result A} → Settles x → Settles y → Settles (if b then x else y)
  Settles-if true h k = h
  Settles-if false h k = k

  pub ok_or-Settles : (o : Option A) (e : ParseError) → Settles (ok_or o e)
  ok_or-Settles none e = failed e
  ok_or-Settles (some a) e = returned a

  pub Ensures-Settles :
      {P : A → Type 0} {Q : ParseError → Type 0} {r : Result A} → Ensures P Q r → Settles r
  Ensures-Settles (returns a p) = returned a
  Ensures-Settles (fails e q) = failed e

module _ {ℓ κ} {A : Type ℓ} {B : Type κ} where
  -- The rest may use the equation of the first step.
  pub Settles-bind :
      {m : Result A} {k : A → Result B}
      → Settles m
      → ((a : A) → m ≡ ok a → Settles (k a))
      → Settles (m >>= k)
  Settles-bind (returned a) h = h a refl
  Settles-bind (failed e) h = failed e

  -- The rest may use what the first step yields.
  pub Settles-Yields :
      {P : A → Type 0} {m : Result A} {k : A → Result B}
      → Settles m
      → Yields P m
      → ((a : A) → P a → Settles (k a))
      → Settles (m >>= k)
  Settles-Yields s y h = Settles-bind s λ a e. h a (Yields-ok a e y)

module _ {ℓ} {A : Type ℓ} where
  pub Settles-Ensures : {r : Result A} → Settles r → Ensures (λ _. Unit {0}) (λ _. Unit {0}) r
  Settles-Ensures (returned a) = returns a tt
  Settles-Ensures (failed e) = fails e tt

  pub Ensures-Yields :
      {P : A → Type 0} {Q : ParseError → Type 0} {r : Result A} → Ensures P Q r → Yields P r
  Ensures-Yields (returns a p) = value a p
  Ensures-Yields (fails e q) = refused e
