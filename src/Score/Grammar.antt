-- ===== src/Score/Grammar.antt =====
-- The strict grammar against the others: what it accepts, they accept with the same score.
pub mod Track
pub mod Loop
pub mod File
use mathlib.Core.Path.{subst}
use midi.Prelude.{◌≡◌, refl, ◌⊎◌, inl, inr, Bool, true, false}
use midi.Result.{ParseError, Result, ok, err, stuck, ◌>>=◌}
use midi.Score.Limits.{ScoreGrammar}

-- Whatever the first run accepts, the second accepts, with a related value.
pub data Accepted {A B : Type 0} (R : A → B → Type 0) : Result A → Result B → Type 0 where
  both : (a : A) (b : B) → R a b → Accepted R (ok a) (ok b)
  refused : {n : Result B} (e : ParseError) → Accepted R (err e) n
  looped : {n : Result B} → Accepted R stuck n

module _ {A B C D : Type 0} {R : A → B → Type 0} {S : C → D → Type 0} where
  pub Accepted-bind :
      {m : Result A} {n : Result B} {k : A → Result C} (l : B → Result D)
      → Accepted R m n
      → ((a : A) (b : B) → R a b → Accepted S (k a) (l b))
      → Accepted S (m >>= k) (n >>= l)
  Accepted-bind l (both a b r) h = h a b r
  Accepted-bind l (refused e) h = refused e
  Accepted-bind l looped h = looped

module _ {A C D : Type 0} {S : C → D → Type 0} where
  pub Accepted-shared :
      (m : Result A) {k : A → Result C} {l : A → Result D}
      → ((a : A) → m ≡ ok a → Accepted S (k a) (l a))
      → Accepted S (m >>= k) (m >>= l)
  Accepted-shared (ok a) h = h a refl
  Accepted-shared (err e) h = refused e
  Accepted-shared stuck h = looped

-- The second run leaves a check out.
module _ {A B : Type 0} {R : A → B → Type 0} where
  pub Accepted-to_ok : (m : Result A) {b : B} → ((a : A) → R a b) → Accepted R m (ok b)
  Accepted-to_ok (ok a) h = both a _ (h a)
  Accepted-to_ok (err e) h = refused e
  Accepted-to_ok stuck h = looped

-- The first run has a step more.
module _ {A C : Type 0} {S : C → A → Type 0} where
  pub Accepted-before :
      (m : Result A) {k : A → Result C}
      → ((a : A) → Accepted S (k a) (ok a))
      → Accepted S (m >>= k) m
  Accepted-before (ok a) h = h a
  Accepted-before (err e) h = refused e
  Accepted-before stuck h = looped

pub Accepted-refl :
    {A : Type 0} {R : A → A → Type 0} (m : Result A) → ((a : A) → R a a) → Accepted R m m
Accepted-refl (ok a) h = both a a (h a)
Accepted-refl (err e) h = refused e
Accepted-refl stuck h = looped

module _ {A B : Type 0} (R : A → B → Type 0) where
  abbrev Follows : Result B → Result A → Type 0
  Follows n (ok a) = (b : B) × (n ≡ ok b) × R a b
  Follows n (err e) = Unit {0}
  Follows n stuck = Unit {0}

  Accepted-Follows : {m : Result A} {n : Result B} → Accepted R m n → Follows n m
  Accepted-Follows (both a b r) = (b, refl, r)
  Accepted-Follows (refused e) = tt
  Accepted-Follows looped = tt

  -- The value of the second run.
  pub Accepted-ok :
      {m : Result A} {n : Result B} (a : A)
      → m ≡ ok a
      → Accepted R m n
      → (b : B) × (n ≡ ok b) × R a b
  Accepted-ok {n} a e h = subst (Follows n) e (Accepted-Follows h)

-- A grammar that requires End-of-Track looks for it.
abbrev pub CanSee : ScoreGrammar → Type 0
CanSee g = g.require_end_of_track ≡ true → g.stop_at_end_of_track ≡ true
