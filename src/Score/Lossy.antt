-- ===== src/Score/Lossy.antt =====
-- What the loop of push_text appends, described in one pass over the text.
use mathlib.Core.Path.{subst}
use midi.Score.Utf8.{IsStep, utf8_step-IsStep}
use midi.Prelude.{
  ℕ, zero, suc, ◌+◌, ◌-◌, ◌≡◌, refl, Option, none, some, [], ◌∷◌, ◌++◌, Bytes, length, take, drop,
  ap, arith, ◌∙◌, sym,
}
use midi.Score.Text.{
  Utf8Step, char, invalid, invalid_len, utf8_step, from_utf8_at, from_utf8, replacement,
}

-- A text with U+FFFD in place of every maximal part that starts no character, one byte at a time:
-- `kept` bytes of a character and `lost` bytes of a broken one are still to come. A character that
-- the end of the text cuts off is broken as a whole.
unfoldable pub lossy_at : ℕ → ℕ → Bytes → Bytes
lossy_at kept lost [] = []
lossy_at (suc kept) lost (b ∷ bs) = b ∷ lossy_at kept lost bs
lossy_at zero (suc lost) (b ∷ bs) = lossy_at zero lost bs
lossy_at zero zero (b ∷ bs) = elim (utf8_step b bs) [
  | char n ↦ b ∷ lossy_at (n - 1) 0 bs
  | invalid (some n) ↦ 0xef ∷ 0xbf ∷ 0xbd ∷ lossy_at 0 (n - 1) bs
  | invalid none ↦ 0xef ∷ 0xbf ∷ 0xbd ∷ []
]

unfoldable pub lossy : Bytes → Bytes
unfolding lossy_at
lossy = lossy_at 0 0

-- Bytes that are lost are dropped first.
lossy_at-drop : (lost : ℕ) (bs : Bytes) → lossy_at 0 lost bs ≡ lossy_at 0 0 (drop lost bs)
unfolding lossy_at
lossy_at-drop zero bs = refl
lossy_at-drop (suc lost) [] = refl
lossy_at-drop (suc lost) (b ∷ bs) = lossy_at-drop lost bs

lossy_at-valid :
    (index kept : ℕ) (bs : Bytes) → from_utf8_at index kept bs ≡ none → lossy_at kept 0 bs ≡ bs
unfolding from_utf8_at lossy_at
lossy_at-valid index kept [] e = refl
lossy_at-valid index (suc kept) (b ∷ bs) e = ap (◌∷◌ b) (lossy_at-valid (index + 1) kept bs e)
lossy_at-valid index zero (b ∷ bs) e =
    first (utf8_step b bs) (λ n. lossy_at-valid (index + 1) n bs) e
  where
    first :
        (step : Utf8Step)
        → ((n : ℕ) → from_utf8_at (index + 1) n bs ≡ none → lossy_at n 0 bs ≡ bs)
        → (elim step [
          | char n ↦ from_utf8_at (index + 1) (n - 1) bs
          | invalid error_len ↦ some (index, error_len)
        ])
          ≡ none
        → (elim step [
          | char n ↦ b ∷ lossy_at (n - 1) 0 bs
          | invalid (some n) ↦ 0xef ∷ 0xbf ∷ 0xbd ∷ lossy_at 0 (n - 1) bs
          | invalid none ↦ 0xef ∷ 0xbf ∷ 0xbd ∷ []
        ])
          ≡ b ∷ bs
    first (char n) rest e = ap (◌∷◌ b) (rest (n - 1) e)
    first (invalid error_len) rest e = cc

-- A valid text is kept as it is.
pub lossy-valid : (bs : Bytes) → from_utf8 bs ≡ none → lossy bs ≡ bs
unfolding from_utf8 lossy
lossy-valid bs e = lossy_at-valid 0 0 bs e

drop-length : (bs : Bytes) → drop (length bs) bs ≡ []
drop-length [] = refl
drop-length (b ∷ bs) = drop-length bs

-- Where the first error of a text stands, and what is made of the text there.
ErrorAt : ℕ → ℕ → Bytes → ℕ → Option ℕ → Type 0
ErrorAt index kept bs valid error_len =
    (m : ℕ) × (valid ≡ index + m)
    × (lossy_at kept 0 bs
        ≡ take m bs
          ++ (replacement ++ lossy_at 0 0 (drop (m + invalid_len error_len (length bs - m)) bs)))

ErrorAt-cons :
    (index kept kept1 b : ℕ) (bs : Bytes) (valid : ℕ) (error_len : Option ℕ)
    → lossy_at kept 0 (b ∷ bs) ≡ b ∷ lossy_at kept1 0 bs
    → ErrorAt (index + 1) kept1 bs valid error_len
    → ErrorAt index kept (b ∷ bs) valid error_len
unfolding ErrorAt
ErrorAt-cons index kept kept1 b bs valid error_len e (m, at, same) =
    let size : suc (length bs) - suc m ≡ length bs - m = omega arith in
    let skipped = invalid_len error_len (length bs - m) in
    let gone : suc m + skipped ≡ suc (m + skipped) = omega arith in
    (suc m, omega (arith, at), rw (size, gone) (e ∙ ap (◌∷◌ b) same))

lossy_at-error :
    (index kept : ℕ) (bs : Bytes) (valid : ℕ) (error_len : Option ℕ)
    → from_utf8_at index kept bs ≡ some (valid, error_len)
    → ErrorAt index kept bs valid error_len
unfolding from_utf8_at ErrorAt lossy_at
lossy_at-error index kept [] valid error_len e = cc
lossy_at-error index (suc kept) (b ∷ bs) valid error_len e =
    ErrorAt-cons index (suc kept) kept b bs valid error_len refl
      (lossy_at-error (index + 1) kept bs valid error_len e)
lossy_at-error index zero (b ∷ bs) valid error_len e =
    first (utf8_step b bs) (utf8_step-IsStep b bs) refl
      (λ n. lossy_at-error (index + 1) n bs valid error_len) e
  where
    first :
        (step : Utf8Step)
        → IsStep step
        → utf8_step b bs ≡ step
        → ((n : ℕ)
            → from_utf8_at (index + 1) n bs ≡ some (valid, error_len)
            → ErrorAt (index + 1) n bs valid error_len)
        → (elim step [
          | char n ↦ from_utf8_at (index + 1) (n - 1) bs
          | invalid error_len1 ↦ some (index, error_len1)
        ])
          ≡ some (valid, error_len)
        → ErrorAt index zero (b ∷ bs) valid error_len
    first (char n) h is rest e =
        ErrorAt-cons index 0 (n - 1) b bs valid error_len (rw (is, lossy_at) refl) (rest (n - 1) e)
    first (invalid none) h is rest e =
        let at : index ≡ valid = cc in
        let cut : none ≡ error_len = cc in
        let whole : 0 + (suc (length bs) - 0) ≡ suc (length bs) = omega arith in
        (0, omega (arith, at), rw (is, lossy_at, sym cut, whole, drop-length bs) refl)
    first (invalid (some zero)) h is rest e = absurd (omega (arith, h))
    first (invalid (some (suc n))) h is rest e =
        let at : index ≡ valid = cc in
        let cut : some (suc n) ≡ error_len = cc in
        let size : suc n - 1 ≡ n = omega arith in
        let gone : 0 + suc n ≡ suc n = omega arith in
        (0, omega (arith, at), rw (is, lossy_at, sym cut, size, gone, lossy_at-drop n bs) refl)

-- At its first error a text is kept up to there, replaced there, and goes on behind it.
pub lossy-error :
    (bs : Bytes) (valid : ℕ) (error_len : Option ℕ)
    → from_utf8 bs ≡ some (valid, error_len)
    → lossy bs
      ≡ take valid bs
        ++ (replacement ++ lossy (drop (valid + invalid_len error_len (length bs - valid)) bs))
unfolding from_utf8 lossy ErrorAt
lossy-error bs valid error_len e =
    let (m, at, same) = lossy_at-error 0 0 bs valid error_len e in
    let here : m ≡ valid = omega (arith, at) in
    subst
      (λ n.
        lossy_at 0 0 bs
        ≡ take n bs
          ++ (replacement ++ lossy_at 0 0 (drop (n + invalid_len error_len (length bs - n)) bs)))
      here same
