-- ===== src/Score/Texts.antt =====
-- push_text and its loop, under the policy without ceilings.
use midi.Score.Utf8.{from_utf8-IsInside, invalid_len-positive}
use midi.Score.Lossy.{lossy, lossy-valid, lossy-error}
use midi.Prelude.{
  ℕ, zero, suc, ◌≡◌, refl, ◌<◌, ◌+◌, ◌-◌, ◌∙◌, ap, arith, true, false, Bool-cases, Option-cases,
  inl, inr, Bytes, ◌++◌, length, u32_max, append_assoc, if◌then◌else◌, length-drop, drop, take, leb,
  length-append,
}
use midi.Result.{ok, err, size_overflow}
use midi.Cursor.{Cursor, error}
use midi.Score.Limits.{unlimited_policy}
use midi.Score.Text.{text_loop, push_text, from_utf8, invalid_len, replacement}

text_loop-lossy :
    (offset fuel : ℕ) (text_data rest : Bytes)
    → length rest < fuel
    → text_loop unlimited_policy tt offset fuel text_data rest ≡ ok (text_data ++ lossy rest)
unfolding text_loop
text_loop-lossy offset zero text_data rest h = absurd (omega arith)
text_loop-lossy offset (suc fuel) text_data rest h = elim (Option-cases (from_utf8 rest)) [
  | inl valid ↦ rw (valid, text_loop, lossy-valid rest valid) refl
  | inr ((valid, error_len), e) ↦
      let (inside, long) = from_utf8-IsInside rest e in
      let skipped = valid + invalid_len error_len (length rest - valid) in
      let shorter : length (drop skipped rest) < fuel = omega (
        arith,
        length-drop skipped rest,
        invalid_len-positive error_len (length rest - valid) long (omega arith),
      ) in
      let added = lossy (drop skipped rest) in
      let done =
        text_loop-lossy offset fuel ((text_data ++ take valid rest) ++ replacement)
          (drop skipped rest) shorter in
      rw (e, text_loop, lossy-error rest valid error_len e)
        (done
          ∙ ap ok (
              append_assoc (text_data ++ take valid rest) replacement added
              ∙ append_assoc text_data (take valid rest) (replacement ++ added)))
]

-- Without a ceiling a text is always appended, with U+FFFD in place of every maximal part that starts
-- no character of UTF-8: behind the text data, with the range that it takes there, or with an
-- overflow if the text data would leave 32 bits.
pub push_text-lossy :
    (offset : ℕ) (text_data text : Bytes) (c : Cursor)
    → push_text unlimited_policy tt offset text_data text c ≡ (
        if leb (length text_data + length (lossy text)) u32_max
        then ok (
          record { start = length text_data; len = length (lossy text) },
          text_data ++ lossy text,
        )
        else err (error c size_overflow))
unfolding push_text
push_text-lossy offset text_data text c =
    let added = lossy text in
    let done = text_loop-lossy offset (length text + 1) text_data text (omega arith) in
    let size : length (text_data ++ added) ≡ length text_data + length added =
      length-append text_data added in
    elim (Bool-cases (leb (length text_data) u32_max)) [
      | inl starts ↦ elim (Bool-cases (leb (length text_data + length added) u32_max)) [
        | inl small ↦
            let behind : leb (length text_data) (length text_data + length added) ≡ true =
              ground arith in
            let taken : length text_data + length added - length text_data ≡ length added =
              omega arith in
            rw (starts, done, size, small, behind, taken) refl
        | inr large ↦ rw (starts, done, size, large) refl
      ]
      | inr over ↦
          let large : leb (length text_data + length added) u32_max ≡ false = ground arith in
          rw (over, large) refl
    ]
