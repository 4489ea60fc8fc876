-- ===== src/Result/Lockstep.antt =====
-- Two fallible computations that run in lockstep: both return related values, both fail with the
-- same error, or both are stuck.
use midi.Prelude.{◌≡◌, refl}
use midi.Result.{ParseError, Result, ok, err, stuck, ◌>>=◌}
use midi.Result.Ensures.{Ensures, returns, fails}

pub data Lockstep {ℓ κ} {A : Type ℓ} {B : Type κ} (R : A → B → Type 0)
    : Result A → Result B → Type (ℓ ⊔ κ) where
  both_return : (a : A) (b : B) → R a b → Lockstep R (ok a) (ok b)
  both_fail : (e : ParseError) → Lockstep R (err e) (err e)
  both_stuck : Lockstep R stuck stuck

module _ {A B C D : Type 0} {R : A → B → Type 0} {S : C → D → Type 0} where
  pub Lockstep-bind :
      {m : Result A} {n : Result B} {f : A → Result C} {g : B → Result D}
      → Lockstep R m n
      → ((a : A) (b : B) → R a b → Lockstep S (f a) (g b))
      → Lockstep S (m >>= f) (n >>= g)
  Lockstep-bind (both_return a b r) k = k a b r
  Lockstep-bind (both_fail e) k = both_fail e
  Lockstep-bind both_stuck k = both_stuck

module _ {A C D : Type 0} {S : C → D → Type 0} where
  -- A first step that both take.
  pub Lockstep-shared :
      (m : Result A) {f : A → Result C} {g : A → Result D}
      → ((a : A) → m ≡ ok a → Lockstep S (f a) (g a))
      → Lockstep S (m >>= f) (m >>= g)
  Lockstep-shared (ok a) k = k a refl
  Lockstep-shared (err e) k = both_fail e
  Lockstep-shared stuck k = both_stuck

-- What `Lockstep` says of each result.
abbrev pub Answers : {A B : Type 0} → (A → B → Type 0) → Result A → Result B → Type 0
Answers {A} {B} R (ok a) n = (b : B) × (n ≡ ok b) × R a b
Answers R (err e) n = n ≡ err e
Answers R stuck n = n ≡ stuck

module _ {A B : Type 0} {R : A → B → Type 0} where
  pub Lockstep-Answers : {m : Result A} {n : Result B} → Lockstep R m n → Answers R m n
  Lockstep-Answers (both_return a b r) = (b, refl, r)
  Lockstep-Answers (both_fail e) = refl
  Lockstep-Answers both_stuck = refl

  -- What the first computation ensures holds of its value.
  pub Lockstep-and :
      {P : A → Type 0} {Q : ParseError → Type 0} {m : Result A} {n : Result B}
      → Ensures P Q m
      → Lockstep R m n
      → Lockstep (λ a b. P a × R a b) m n
  Lockstep-and (returns _ p) (both_return a b r) = both_return a b (p, r)
  Lockstep-and (fails _ q) (both_fail e) = both_fail e
