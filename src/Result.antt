-- ===== src/Result.antt =====
-- ParseErrorKind, ParseError and the results of fallible functions.
pub mod Ensures
pub mod Lockstep
pub mod Yields
pub mod Settles
use midi.Prelude.{
  ℕ, ◌+◌, ◌≡◌, refl, ap, Bytes, ℤ, Option, none, some, leb, if◌then◌else◌, ◌⊎◌, inl, inr,
}

pub data ScoreResource : Type 0 where
  input_bytes source_tracks track_bytes events note_starts text_bytes : ScoreResource

pub data ParseErrorKind : Type 0 where
  unexpected_end : ParseErrorKind
  expected_chunk : Bytes → Bytes → ParseErrorKind
  header_too_short : ℕ → ParseErrorKind
  invalid_format : ℕ → ParseErrorKind
  variable_length_quantity_too_long : ParseErrorKind
  running_status_missing : ParseErrorKind
  invalid_data_byte : ℕ → ParseErrorKind
  invalid_status : ℕ → ParseErrorKind
  invalid_meta_event : ℕ → ℕ → ParseErrorKind
  invalid_time_signature_denominator : ℕ → ParseErrorKind
  tick_overflow : ParseErrorKind
  size_overflow : ParseErrorKind
  resource_limit_exceeded : ScoreResource → ℕ → ParseErrorKind
  invalid_ticks_per_quarter : ParseErrorKind
  invalid_smpte_division : ℤ → ℕ → ParseErrorKind
  invalid_end_of_track_length : ℕ → ParseErrorKind
  missing_end_of_track : ParseErrorKind
  event_after_end_of_track : ParseErrorKind
  trailing_bytes : ParseErrorKind

pub record ParseError : Type 0 where
  pub offset : ℕ
  pub kind : ParseErrorKind

-- `ParseError::at`
abbrev pub error_at : ℕ → ParseErrorKind → ParseError
error_at offset kind = record { offset = offset; kind = kind }

-- A Rust `Result` with `ParseError`. `stuck` is no Rust value: a loop of the model ran out of fuel.
pub data Result {ℓ} (A : Type ℓ) : Type ℓ where
  ok : A → Result A
  err : ParseError → Result A
  stuck : Result A

module _ {ℓ κ} {A : Type ℓ} {B : Type κ} where
  infixl 5 ◌>>=◌
  infixl 5 ◌>>◌
  -- The operator `?`.
  abbrev pub ◌>>=◌ : Result A → (A → Result B) → Result B
  stuck >>= rest = stuck
  err failure >>= rest = err failure
  ok value >>= rest = rest value

  -- `?` on a result whose value is not used.
  abbrev pub ◌>>◌ : Result A → Result B → Result B
  first >> second = first >>= λ _. second

-- `Option::ok_or`
abbrev pub ok_or {ℓ} : {A : Type ℓ} → Option A → ParseError → Result A
ok_or none e = err e
ok_or (some a) e = ok a

-- `checked_add` of an unsigned type with the greatest value `limit`
abbrev pub checked_add : ℕ → ℕ → ℕ → Option ℕ
checked_add limit a b = if leb (a + b) limit then some (a + b) else none

module _ {ℓ κ} {A : Type ℓ} {B : Type κ} where
  -- A chain that gives a value has one at its first link.
  pub >>=-eq-ok :
      (first : Result A) (rest : A → Result B) {b : B}
      → (first >>= rest) ≡ ok b
      → (a : A) × (first ≡ ok a) × (rest a ≡ ok b)
  >>=-eq-ok stuck rest h = cc
  >>=-eq-ok (err failure) rest h = cc
  >>=-eq-ok (ok value) rest h = (value, refl, h)

pub Result-cases {ℓ} :
    {A : Type ℓ} (r : Result A)
    → ((a : A) × (r ≡ ok a)) ⊎ ((e : ParseError) × (r ≡ err e)) ⊎ (r ≡ stuck)
Result-cases (ok a) = inl (a, refl)
Result-cases (err e) = inr (inl (e, refl))
Result-cases stuck = inr (inr refl)

abbrev value_or {ℓ} : {A : Type ℓ} → A → Result A → A
value_or a (ok b) = b
value_or a _ = a

pub ok-injective {ℓ} : {A : Type ℓ} (a b : A) → ok a ≡ ok b → a ≡ b
ok-injective a b h = ap (value_or a) h
