-- ===== src/Cursor/Yields.antt =====
-- The values of the checked conversions, and of a step that moves the cursor.
use midi.Result.{ParseError, ok_or, checked_add}
use midi.Cursor.{Cursor, fits, ok_or, checked_add, leb}
use midi.Result.Yields.{Yields, value, refused}
use midi.Prelude.{ℕ, refl, ◌≡◌, ◌≤◌, ◌+◌, Bool-cases, leb, inl, leb→le, inr}

pub fits-Yields :
    (limit : ℕ) (c : Cursor) (n : ℕ) → Yields (λ m. (m ≡ n) × (n ≤ limit)) (fits limit c n)
fits-Yields limit c n = elim (Bool-cases (leb n limit)) [
  | inl fine ↦ rw fine (value n (refl, leb→le n limit fine))
  | inr over ↦ rw over (refused _)
]

pub checked_add-Yields :
    (limit a b : ℕ) (e : ParseError)
    → Yields (λ n. (n ≡ a + b) × (n ≤ limit)) (ok_or (checked_add limit a b) e)
checked_add-Yields limit a b e = elim (Bool-cases (leb (a + b) limit)) [
  | inl fine ↦ rw fine (value _ (refl, leb→le (a + b) limit fine))
  | inr over ↦ rw over (refused _)
]
