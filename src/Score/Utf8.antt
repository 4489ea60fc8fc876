-- ===== src/Score/Utf8.antt =====
-- The errors that `core::str::from_utf8` reports to push_text.
use mathlib.Core.Path.{subst}
use midi.Prelude.{
  ℕ, zero, suc, ◌≡◌, ◌<◌, ◌+◌, ◌-◌, arith, Bool, true, false, Option, none, some, Bytes, [], ◌∷◌,
  length, ◌||◌, ◌==◌, if◌then◌else◌, ltb,
}
use midi.Score.Text.{
  from_utf8, from_utf8_at, utf8_step, utf8_second, utf8_tail, Utf8Step, char, invalid, invalid_len,
  within, is_tail,
}

-- An error's length, if it has one, is not zero.
abbrev pub IsLong : Option ℕ → Type 0
IsLong none = Unit {0}
IsLong (some n) = 0 < n

abbrev pub IsStep : Utf8Step → Type 0
IsStep (char n) = Unit {0}
IsStep (invalid error_len) = IsLong error_len

IsStep-if : (b : Bool) (x y : Utf8Step) → IsStep x → IsStep y → IsStep (if b then x else y)
IsStep-if true x y h k = h
IsStep-if false x y h k = k

utf8_tail-IsStep :
    (rounds taken : ℕ) (bytes : Bytes) → 0 < taken → IsStep (utf8_tail rounds taken bytes)
unfolding utf8_tail
utf8_tail-IsStep zero taken bytes h = tt
utf8_tail-IsStep (suc rounds) taken [] h = tt
utf8_tail-IsStep (suc rounds) taken (b ∷ bs) h =
    IsStep-if (is_tail b) _ _ (utf8_tail-IsStep rounds (taken + 1) bs (omega arith)) h

utf8_second-IsStep : (lo hi rounds : ℕ) (bytes : Bytes) → IsStep (utf8_second lo hi rounds bytes)
unfolding utf8_second
utf8_second-IsStep lo hi rounds [] = tt
utf8_second-IsStep lo hi rounds (b ∷ bs) =
    IsStep-if (within lo hi b) _ _ (utf8_tail-IsStep rounds 2 bs (omega arith)) (omega arith)

pub utf8_step-IsStep : (b : ℕ) (bs : Bytes) → IsStep (utf8_step b bs)
unfolding utf8_step
utf8_step-IsStep b bs = IsStep-if (ltb b 0x80) _ _ tt (
    IsStep-if (within 0xc2 0xdf b) _ _ (utf8_second-IsStep _ _ 0 bs) (
      IsStep-if (b == 0xe0) _ _ (utf8_second-IsStep _ _ 1 bs) (
        IsStep-if (within 0xe1 0xec b || within 0xee 0xef b) _ _ (utf8_second-IsStep _ _ 1 bs) (
          IsStep-if (b == 0xed) _ _ (utf8_second-IsStep _ _ 1 bs) (
            IsStep-if (b == 0xf0) _ _ (utf8_second-IsStep _ _ 2 bs) (
              IsStep-if (within 0xf1 0xf3 b) _ _ (utf8_second-IsStep _ _ 2 bs)
                (IsStep-if (b == 0xf4) _ _ (utf8_second-IsStep _ _ 2 bs) (omega arith))))))))

-- An error stands inside the text.
IsInside : ℕ → ℕ → Option (ℕ × Option ℕ) → Type 0
IsInside index end none = Unit {0}
IsInside index end (some (valid, error_len)) = (valid < end) × IsLong error_len

from_utf8_at-IsInside :
    (index skipped : ℕ) (bytes : Bytes)
    → IsInside index (index + length bytes) (from_utf8_at index skipped bytes)
unfolding from_utf8_at IsInside
from_utf8_at-IsInside index skipped [] = tt
from_utf8_at-IsInside index (suc skipped) (b ∷ bs) =
    subst (λ end. IsInside index end (from_utf8_at (index + 1) skipped bs)) (omega arith)
      (from_utf8_at-IsInside (index + 1) skipped bs)
from_utf8_at-IsInside index zero (b ∷ bs) =
    inside (utf8_step b bs) (utf8_step-IsStep b bs) λ n. from_utf8_at-IsInside (index + 1) n bs
  where
    inside :
        (step : Utf8Step)
        → IsStep step
        → ((n : ℕ) → IsInside (index + 1) (index + 1 + length bs) (from_utf8_at (index + 1) n bs))
        → IsInside index (index + suc (length bs)) (elim step [
          | char n ↦ from_utf8_at (index + 1) (n - 1) bs
          | invalid error_len ↦ some (index, error_len)
        ])
    inside (char n) h rest =
        subst (λ end. IsInside index end (from_utf8_at (index + 1) (n - 1) bs)) (omega arith)
          (rest (n - 1))
    inside (invalid error_len) h rest = (omega arith, h)

pub from_utf8-IsInside :
    (bytes : Bytes) {valid : ℕ} {error_len : Option ℕ}
    → from_utf8 bytes ≡ some (valid, error_len)
    → (valid < length bytes) × IsLong error_len
unfolding from_utf8 IsInside
from_utf8-IsInside bytes {valid} {error_len} e =
    let h = subst (IsInside 0 (0 + length bytes)) e (from_utf8_at-IsInside 0 0 bytes) in
    (omega (arith, h.0), h.1)

pub invalid_len-positive :
    (error_len : Option ℕ) (n : ℕ) → IsLong error_len → 0 < n → 0 < invalid_len error_len n
invalid_len-positive none n h k = k
invalid_len-positive (some m) n h k = h
