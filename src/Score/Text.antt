-- ===== src/Score/Text.antt =====
-- Text normalisation: `push_text` appends valid UTF-8 as it is, and puts U+FFFD in place of what
-- `core::str::from_utf8` refuses.
use midi.Prelude.{
  ℕ, zero, suc, ◌+◌, ◌-◌, ◌&&◌, ◌||◌, Bool, Option, none, some, [], ◌∷◌, ◌++◌, Bytes, u32_max, take,
  drop, length, ltb, leb, ◌==◌, if◌then◌else◌,
}
use midi.Result.{Result, ok, stuck, ok_or, ◌>>=◌, ◌>>◌, size_overflow}
use midi.Cursor.{Cursor, fits, error}
use midi.Score.Limits.{ScoreParsePolicy}
use midi.Score.Types.{TextRange}

-- The first character of a text: its length, or an error with `error_len`.
pub data Utf8Step : Type 0 where
  char : ℕ → Utf8Step
  invalid : Option ℕ → Utf8Step

abbrev pub within : ℕ → ℕ → ℕ → Bool
within lo hi b = leb lo b && leb b hi

abbrev pub is_tail : ℕ → Bool
is_tail = within 0x80 0xbf

-- `rounds` continuation bytes are still to come behind `taken` bytes.
unfoldable pub utf8_tail : ℕ → ℕ → Bytes → Utf8Step
utf8_tail zero taken bytes = char taken
utf8_tail (suc rounds) taken [] = invalid none
utf8_tail (suc rounds) taken (b ∷ bs) =
    let rest = utf8_tail rounds (taken + 1) bs in if is_tail b then rest else invalid (some taken)

-- The second byte lies in the range that its first byte allows.
unfoldable pub utf8_second : ℕ → ℕ → ℕ → Bytes → Utf8Step
unfolding utf8_tail
utf8_second lo hi rounds [] = invalid none
utf8_second lo hi rounds (b ∷ bs) =
    if within lo hi b then utf8_tail rounds 2 bs else invalid (some 1)

unfoldable pub utf8_step : ℕ → Bytes → Utf8Step
unfolding utf8_second
utf8_step b bs =
    if ltb b 0x80
    then char 1
    else if within 0xc2 0xdf b
    then utf8_second 0x80 0xbf 0 bs
    else if b == 0xe0
    then utf8_second 0xa0 0xbf 1 bs
    else if within 0xe1 0xec b || within 0xee 0xef b
    then utf8_second 0x80 0xbf 1 bs
    else if b == 0xed
    then utf8_second 0x80 0x9f 1 bs
    else if b == 0xf0
    then utf8_second 0x90 0xbf 2 bs
    else if within 0xf1 0xf3 b
    then utf8_second 0x80 0xbf 2 bs
    else if b == 0xf4
    then utf8_second 0x80 0x8f 2 bs
    else invalid (some 1)

-- `core::str::from_utf8`: `none` for a valid text, or `valid_up_to` and `error_len`. `skipped` bytes
-- of a character that was checked already are passed over.
unfoldable pub from_utf8_at : ℕ → ℕ → Bytes → Option (ℕ × Option ℕ)
from_utf8_at index skipped [] = none
from_utf8_at index (suc skipped) (b ∷ bs) = from_utf8_at (index + 1) skipped bs
from_utf8_at index zero (b ∷ bs) = elim (utf8_step b bs) [
  | char n ↦ from_utf8_at (index + 1) (n - 1) bs
  | invalid error_len ↦ some (index, error_len)
]

unfoldable pub from_utf8 : Bytes → Option (ℕ × Option ℕ)
unfolding from_utf8_at
from_utf8 = from_utf8_at 0 0

-- "\u{fffd}" in UTF-8
abbrev pub replacement : Bytes
replacement = 0xef ∷ 0xbf ∷ 0xbd ∷ []

-- `unwrap_or(remaining.len() - valid)`
abbrev pub invalid_len : Option ℕ → ℕ → ℕ
invalid_len none rest = rest
invalid_len (some n) rest = n

module _ {P : Type 0} (policy : ScoreParsePolicy P) (budget : P) (event_offset : ℕ) where
  open policy use {check_text_append}

  -- `loop`, with the text data and the bytes that remain. Every round but the last takes a byte.
  unfoldable pub text_loop : ℕ → Bytes → Bytes → Result Bytes
  text_loop zero text_data rest = stuck
  text_loop (suc fuel) text_data rest = elim (from_utf8 rest) [
    | none ↦ do
      check_text_append budget (length text_data) (length rest) event_offset
      ok (text_data ++ rest)
    | some (valid, error_len) ↦ do
      check_text_append budget (length text_data) valid event_offset
      let grown = text_data ++ take valid rest
      check_text_append budget (length grown) 3 event_offset
      text_loop fuel (grown ++ replacement)
          (drop (valid + invalid_len error_len (length rest - valid)) rest)
  ]

  -- `TickScore::push_text`, on the text data of the score
  unfoldable pub push_text : Bytes → Bytes → Cursor → Result (TextRange × Bytes)
  unfolding text_loop
  push_text text_data text c = do
    start ← fits u32_max c (length text_data)
    grown ← text_loop (length text + 1) text_data text
    end ← fits u32_max c (length grown)
    len ← ok_or (if leb start end then some (end - start) else none) (error c size_overflow)
    ok (record { start = start; len = len }, grown)
