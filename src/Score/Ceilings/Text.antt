-- ===== src/Score/Ceilings/Text.antt =====
-- The retained text stays below its ceiling.
use midi.Result.{ok_or}
use midi.Cursor.{Cursor, fits}
use midi.Result.Yields.{Yields, loops, Yields-any, Yields-bind, refused, value}
use midi.Score.Text.{text_loop, push_text, from_utf8}
use midi.Score.Limits.{limited_check_text_append, LimitedScoreParsePolicy, limited_policy}
use midi.Prelude.{
  ℕ, zero, suc, length, take, Bytes, ◌+◌, ◌≤◌, Bool-cases, ltb, ◌||◌, Option-cases, ◌-◌, u32_max,
  inl, inr, arith, if◌then◌else◌, length-append, leb, ◌++◌, some, none,
}

limited_check_text_append-Yields :
    (p : LimitedScoreParsePolicy) (current appended offset : ℕ)
    → Yields
        (λ _. current + appended ≤ p.limits.max_text_bytes)
        (limited_check_text_append p current appended offset)
unfolding limited_check_text_append
limited_check_text_append-Yields p current appended offset =
    elim (Bool-cases
      (ltb p.limits.max_text_bytes current || ltb (p.limits.max_text_bytes - current) appended)) [
        | inl over ↦ rw over (refused _)
        | inr fine ↦ rw fine (value _ (ground arith))
      ]

text_loop-Yields :
    (p : LimitedScoreParsePolicy) (offset fuel : ℕ) (text_data rest : Bytes)
    → Yields
        (λ out. length out ≤ p.limits.max_text_bytes)
        (text_loop limited_policy p offset fuel text_data rest)
unfolding text_loop
text_loop-Yields p offset zero text_data rest = loops
text_loop-Yields p offset (suc fuel) text_data rest = elim (Option-cases (from_utf8 rest)) [
  | inl valid ↦
      rw (text_loop, valid)
        (Yields-bind (limited_check_text_append-Yields p (length text_data) (length rest) offset)
          λ _ h. value _ (omega (arith, h, length-append text_data rest)))
  | inr ((valid, error_len), e) ↦
      rw (text_loop, e)
        (Yields-any (limited_check_text_append p (length text_data) valid offset) λ _ _.
          Yields-any (limited_check_text_append p (length (text_data ++ take valid rest)) 3 offset)
            λ _ _. text_loop-Yields p offset fuel _ _)
]

pub push_text-Below :
    (p : LimitedScoreParsePolicy) (offset : ℕ) (text_data text : Bytes) (c : Cursor)
    → Yields
        (λ x. length x.1 ≤ p.limits.max_text_bytes)
        (push_text limited_policy p offset text_data text c)
unfolding push_text
push_text-Below p offset text_data text c =
    Yields-any (fits u32_max c (length text_data)) λ start _.
      Yields-bind (text_loop-Yields p offset (length text + 1) text_data text) λ grown h.
        Yields-any (fits u32_max c (length grown)) λ end _.
          Yields-any (ok_or (if leb start end then some (end - start) else none) _)
            λ len _. value _ h
