-- ===== src/Cursor.antt =====
-- The byte cursor, `Cursor<'a>`. A method that takes `&mut self` returns the new cursor beside its
-- value. On an error no cursor is returned: every caller passes the error on by `?` and drops it.
-- A slice is its list of bytes. Additions of offsets stay below the length of the input slice.
pub mod Bounds
pub mod Yields
pub mod Vlq
use midi.Prelude.{
  ℕ, zero, suc, ◌+◌, ◌-◌, ◌*◌, ◌%◌, ◌^◌, Option, none, some, Bytes, usize_max, from_be_bytes, ltb,
  leb, if◌then◌else◌, length, get_elem?, slice,
}
use midi.Result.{
  ParseErrorKind, unexpected_end, size_overflow, variable_length_quantity_too_long, ParseError,
  error_at, Result, ok, err, ◌>>=◌, ok_or, checked_add,
}

pub record Cursor : Type 0 where
  pub bytes : Bytes
  pub position : ℕ
  pub base : ℕ

-- `Cursor::new`
abbrev pub new : Bytes → ℕ → Cursor
new bytes base = record { bytes = bytes; position = 0; base = base }

abbrev pub absolute_offset : Cursor → ℕ
absolute_offset c = c.base + c.position

abbrev pub remaining : Cursor → ℕ
remaining c = length c.bytes - c.position

abbrev pub error : Cursor → ParseErrorKind → ParseError
error c kind = error_at (absolute_offset c) kind

-- `T::try_from(n).map_err(|_| cursor.error(SizeOverflow))` for a type with the greatest value `limit`
abbrev pub fits : ℕ → Cursor → ℕ → Result ℕ
fits limit c n = if leb n limit then ok n else err (error c size_overflow)

unfoldable pub read_u8 : Cursor → Result (ℕ × Cursor)
read_u8 c = elim (get_elem? c.bytes c.position) [
  | none ↦ err (error c unexpected_end)
  | some byte ↦ ok (byte, record c { position = c.position + 1 })
]

-- The guarded part of `take`: `self.data.get(self.position..end)`.
abbrev take_to : Cursor → ℕ → Result (Bytes × Cursor)
take_to c end =
    if leb end (length c.bytes)
    then ok (slice c.bytes c.position end, record c { position = end })
    else err (error c unexpected_end)

unfoldable pub take : ℕ → Cursor → Result (Bytes × Cursor)
take size c = do
  end ← ok_or (checked_add usize_max c.position size) (error c size_overflow)
  take_to c end

-- `skip` drops the slice.
unfoldable pub skip : ℕ → Cursor → Result Cursor
skip size c = do (_, c1) ← take size c; ok c1

unfoldable pub take_cursor : ℕ → Cursor → Result (Cursor × Cursor)
take_cursor size c = do (bytes, c1) ← take size c; ok (new bytes (absolute_offset c), c1)

unfoldable pub read_u16 : Cursor → Result (ℕ × Cursor)
read_u16 c = do (bytes, c1) ← take 2 c; ok (from_be_bytes bytes, c1)

unfoldable pub read_u32 : Cursor → Result (ℕ × Cursor)
read_u32 c = do (bytes, c1) ← take 4 c; ok (from_be_bytes bytes, c1)

unfoldable pub read_tag : Cursor → Result (Bytes × Cursor)
read_tag = take 4

-- `(value << 7) | (byte & 0x7f)` on `u32`: the low seven bits of the shifted value are 0, so `|`
-- adds.
abbrev pub add_septet : ℕ → ℕ → ℕ
add_septet value byte = value * 2 ^ 7 % 2 ^ 32 + byte % 2 ^ 7

-- `for _ in 0..rounds`, from the offset `start` of the quantity
pub vlq_loop : ℕ → ℕ → ℕ → Cursor → Result (ℕ × Cursor)
vlq_loop start zero value c = err (error_at start variable_length_quantity_too_long)
vlq_loop start (suc rounds) value c = do
  (byte, c1) ← read_u8 c
  let next = add_septet value byte
  if ltb byte 0x80 then ok (next, c1) else vlq_loop start rounds next c1

unfoldable pub read_vlq : Cursor → Result (ℕ × Cursor)
unfolding vlq_loop read_u8
read_vlq c = vlq_loop (absolute_offset c) 4 0 c
