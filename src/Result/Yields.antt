-- ===== src/Result/Yields.antt =====
-- Partial correctness of fallible code: what holds of the value, if there is one.
use mathlib.Core.Bool.{true, false}
use mathlib.Core.Path.{subst}
use midi.Prelude.{◌≡◌, refl, Bool, if◌then◌else◌}
use midi.Result.{ParseError, Result, ok, err, stuck, ◌>>=◌}

pub data Yields {ℓ} {A : Type ℓ} (P : A → Type 0) : Result A → Type ℓ where
  value : (a : A) → P a → Yields P (ok a)
  refused : (e : ParseError) → Yields P (err e)
  loops : Yields P stuck

abbrev IfOk {ℓ} : {A : Type ℓ} → (A → Type 0) → Result A → Type 0
IfOk P (ok a) = P a
IfOk P (err e) = Unit {0}
IfOk P stuck = Unit {0}

module _ {ℓ} {A : Type ℓ} {P : A → Type 0} where
  Yields-IfOk : {r : Result A} → Yields P r → IfOk P r
  Yields-IfOk (value a p) = p
  Yields-IfOk (refused e) = tt
  Yields-IfOk loops = tt

  pub Yields-ok : {r : Result A} (a : A) → r ≡ ok a → Yields P r → P a
  Yields-ok a h y = subst (IfOk P) h (Yields-IfOk y)

  pub Yields-same : (r : Result A) → ((a : A) → r ≡ ok a → P a) → Yields P r
  Yields-same (ok a) k = value a (k a refl)
  Yields-same (err e) k = refused e
  Yields-same stuck k = loops

module _ {ℓ κ} {A : Type ℓ} {B : Type κ} {P : A → Type 0} {R : B → Type 0} where
  pub Yields-bind :
      {m : Result A} {f : A → Result B}
      → Yields P m
      → ((a : A) → P a → Yields R (f a))
      → Yields R (m >>= f)
  Yields-bind (value a p) k = k a p
  Yields-bind (refused e) k = refused e
  Yields-bind loops k = loops

module _ {ℓ κ} {A : Type ℓ} {B : Type κ} {R : B → Type 0} where
  -- A first step of which only its equation is used.
  pub Yields-any :
      (m : Result A) {f : A → Result B} → ((a : A) → m ≡ ok a → Yields R (f a)) → Yields R (m >>= f)
  Yields-any (ok a) k = k a refl
  Yields-any (err e) k = refused e
  Yields-any stuck k = loops

module _ {ℓ} {A : Type ℓ} {P : A → Type 0} where
  pub Yields-if :
      (b : Bool) {x y : Result A} → Yields P x → Yields P y → Yields P (if b then x else y)
  Yields-if true h k = h
  Yields-if false h k = k

module _ {ℓ} {A : Type ℓ} {P R : A → Type 0} where
  pub Yields-weaken : {r : Result A} → ((a : A) → P a → R a) → Yields P r → Yields R r
  Yields-weaken f (value a p) = value a (f a p)
  Yields-weaken f (refused e) = refused e
  Yields-weaken f loops = loops
