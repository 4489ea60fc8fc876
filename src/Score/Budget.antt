-- ===== src/Score/Budget.antt =====
-- A policy with ceilings only ever refuses: it changes nothing else of what the parser does.
pub mod Text
pub mod Track
pub mod File
use mathlib.Core.Path.{subst}
use midi.Prelude.{ℕ, ◌≡◌, refl, Bool, true, false, Bool-cases, if◌then◌else◌, ◌≢◌}
use midi.Result.{
  ParseError, Result, ok, err, stuck, ◌>>=◌, error_at, ScoreResource, resource_limit_exceeded,
}
use midi.Score.Limits.{ScoreParsePolicy, unlimited_policy}

-- A ceiling was exceeded.
pub data IsRefusal : ParseError → Type 0 where
  over_limit :
      (offset : ℕ) (resource : ScoreResource) (limit : ℕ)
      → IsRefusal (error_at offset (resource_limit_exceeded resource limit))

-- A check that passes, or refuses with a ceiling.
pub data OnlyRefuses {A : Type 0} : Result A → Type 0 where
  passes : (a : A) → OnlyRefuses (ok a)
  refuses : (e : ParseError) → IsRefusal e → OnlyRefuses (err e)

-- The contract of a policy: no method has another error.
pub record IsBudget {P : Type 0} (policy : ScoreParsePolicy P) : Type 0 where
  pub input : (p : P) (n : ℕ) → OnlyRefuses (policy.check_input p n)
  pub tracks : (p : P) (n offset : ℕ) → OnlyRefuses (policy.check_source_tracks p n offset)
  pub track_size : (p : P) (n offset : ℕ) → OnlyRefuses (policy.check_track_bytes p n offset)
  pub event : (p : P) (offset : ℕ) → OnlyRefuses (policy.charge_event p offset)
  pub note_start : (p : P) (offset : ℕ) → OnlyRefuses (policy.charge_note_start p offset)
  pub text_size : (p : P) (m n offset : ℕ) → OnlyRefuses (policy.check_text_append p m n offset)

-- The bounded run `m` against the unlimited run `n`: the same outcome, with the budget forgotten by
-- `f`, or a refusal.
pub data Bounded {A B : Type 0} (f : A → B) : Result A → Result B → Type 0 where
  same_value : (a : A) → Bounded f (ok a) (ok (f a))
  same_error : (e : ParseError) → Bounded f (err e) (err e)
  same_stuck : Bounded f stuck stuck
  refused : {n : Result B} (e : ParseError) → IsRefusal e → Bounded f (err e) n

module _ {A B C D : Type 0} {f : A → B} {g : C → D} where
  pub Bounded-bind :
      {m : Result A} {n : Result B} {k : A → Result C} (l : B → Result D)
      → Bounded f m n
      → ((a : A) → Bounded g (k a) (l (f a)))
      → Bounded g (m >>= k) (n >>= l)
  Bounded-bind l (same_value a) h = h a
  Bounded-bind l (same_error e) h = same_error e
  Bounded-bind l same_stuck h = same_stuck
  Bounded-bind l (refused e r) h = refused e r

module _ {A C D : Type 0} {g : C → D} where
  pub Bounded-shared :
      (m : Result A) {k : A → Result C} {l : A → Result D}
      → ((a : A) → Bounded g (k a) (l a))
      → Bounded g (m >>= k) (m >>= l)
  Bounded-shared (ok a) h = h a
  Bounded-shared (err e) h = same_error e
  Bounded-shared stuck h = same_stuck

  -- A check that the unlimited run does not make.
  pub Bounded-check :
      {m : Result A} {k : A → Result C} {n : Result D}
      → OnlyRefuses m
      → ((a : A) → Bounded g (k a) n)
      → Bounded g (m >>= k) n
  Bounded-check (passes a) h = h a
  Bounded-check (refuses e r) h = refused e r

module _ {C D : Type 0} {g : C → D} where
  pub Bounded-if :
      (b : Bool) {m m' : Result C} {n n' : Result D}
      → Bounded g m n
      → Bounded g m' n'
      → Bounded g (if b then m else m') (if b then n else n')
  Bounded-if true h k = h
  Bounded-if false h k = k

pub Bounded-refl : {A : Type 0} (m : Result A) → Bounded (λ (a : A). a) m m
Bounded-refl (ok a) = same_value a
Bounded-refl (err e) = same_error e
Bounded-refl stuck = same_stuck

abbrev EndsAs : {A B : Type 0} → Result B → Result A → Type 0
EndsAs n (ok a) = Unit {0}
EndsAs n (err e) = Unit {0}
EndsAs n stuck = n ≡ stuck

Bounded-EndsAs :
    {A B : Type 0} {f : A → B} {m : Result A} {n : Result B} → Bounded f m n → EndsAs n m
Bounded-EndsAs (same_value a) = tt
Bounded-EndsAs (same_error e) = tt
Bounded-EndsAs same_stuck = refl
Bounded-EndsAs (refused e r) = tt

-- Where the unlimited run ends, the bounded one does.
pub Bounded-ne-stuck :
    {A B : Type 0} {f : A → B} {m : Result A} {n : Result B} → n ≢ stuck → Bounded f m n → m ≢ stuck
Bounded-ne-stuck {n} h b e = h (subst (EndsAs n) e (Bounded-EndsAs b))
