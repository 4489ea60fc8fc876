-- ===== src/Smf.antt =====
-- What the structural scanner, the arena parser and the score parser share: chunk tags, the
-- header, and the reading of a status byte, which each of the three writes out in its loop.
pub mod Bounds
use midi.Prelude.{
  ℕ, ◌&&◌, ◌||◌, Option, none, some, [], ◌∷◌, Bytes, ltb, leb, ◌==◌, if◌then◌else◌, is_none, ◌/◌,
  ◌^◌, ◌-◌, bytes_eq, usize_max,
}
use midi.Result.{
  Result, ok, err, error_at, ok_or, ◌>>=◌, ◌>>◌, running_status_missing, invalid_data_byte,
  invalid_format, header_too_short, expected_chunk,
}
use midi.Cursor.{Cursor, absolute_offset, read_u8, read_tag, read_u32, read_u16, take_cursor, fits}

-- b"MThd"
abbrev pub header_chunk : Bytes
header_chunk = b'M' ∷ b'T' ∷ b'h' ∷ b'd' ∷ []

-- b"MTrk"
abbrev pub track_chunk : Bytes
track_chunk = b'M' ∷ b'T' ∷ b'r' ∷ b'k' ∷ []

pub data Format : Type 0 where
  single_track parallel sequential : Format

-- `Format::try_from`; its error carries nothing.
unfoldable pub format_from : ℕ → Option Format
format_from value =
    if value == 0
    then some single_track
    else if value == 1
    then some parallel
    else if value == 2
    then some sequential
    else none

pub record Header : Type 0 where
  pub format : Format
  pub track_count : ℕ
  pub division : ℕ

-- The test of a chunk's tag, at the tag's offset.
unfoldable pub expect_tag : Bytes → ℕ → Bytes → Result (Unit {0})
unfolding bytes_eq
expect_tag expected offset actual =
    if bytes_eq actual expected
    then ok tt
    else err (error_at offset (expected_chunk expected actual))

-- The three fields of the header chunk, read by `header_cursor`.
unfoldable pub read_header_fields : Cursor → Result Header
unfolding format_from
read_header_fields header_cursor = do
  (raw_format, c1) ← read_u16 header_cursor
  format ← ok_or (format_from raw_format) (error_at c1.base (invalid_format raw_format))
  (track_count, c2) ← read_u16 c1
  (division, c3) ← read_u16 c2
  ok (record { format = format; track_count = track_count; division = division })

unfoldable pub check_header_size : ℕ → ℕ → Result (Unit {0})
check_header_size offset size =
    if ltb size 6 then err (error_at offset (header_too_short size)) else ok tt

-- The header chunk: its tag, its size and its fields; bytes after the fields are skipped.
unfoldable pub read_header : Cursor → Result (Header × Cursor)
unfolding read_header_fields check_header_size
read_header c = do
  (header_tag, c1) ← read_tag c
  expect_tag header_chunk 0 header_tag
  (declared_size, c2) ← read_u32 c1
  check_header_size (absolute_offset c1) declared_size
  header_size ← fits usize_max c2 declared_size
  (header_cursor, c3) ← take_cursor header_size c2
  header ← read_header_fields header_cursor
  ok (header, c3)

-- One track chunk: its tag, its size and the cursor over its bytes.
unfoldable pub read_track_chunk : Cursor → Result (Cursor × Cursor)
read_track_chunk c = do
  (tag, c1) ← read_tag c
  expect_tag track_chunk (absolute_offset c) tag
  (declared_size, c2) ← read_u32 c1
  track_size ← fits usize_max c2 declared_size
  take_cursor track_size c2

-- The bindings `status`, `first_data` and `running_status` behind the first byte of an event, and
-- the offset of that byte.
pub record Status : Type 0 where
  pub event_offset : ℕ
  pub status : ℕ
  pub first_data : Option ℕ
  pub running_status : Option ℕ

unfoldable pub resolve_status : ℕ → ℕ → Option ℕ → Result Status
resolve_status event_offset first running =
    if ltb first 0x80
    then (do
      status ← ok_or running (error_at event_offset running_status_missing)
      ok (record {
        event_offset = event_offset;
        status = status;
        first_data = some first;
        running_status = running;
      }))
    else ok (record {
      event_offset = event_offset;
      status = first;
      first_data = none;
      running_status = if ltb first 0xf0 then some first else running;
    })

unfoldable pub read_status : Cursor → Option ℕ → Result (Status × Cursor)
read_status c running = do
  (first, c1) ← read_u8 c
  status ← resolve_status (absolute_offset c) first running
  ok (status, c1)

-- The arms of `match status` in each loop.
pub data EventClass : Type 0 where
  channel_event meta_event sysex_event invalid_event : EventClass

unfoldable pub classify : ℕ → Option ℕ → EventClass
classify status first_data =
    if leb 0x80 status && leb status 0xef
    then channel_event
    else if status == 0xff && is_none first_data
    then meta_event
    else if (status == 0xf0 || status == 0xf7) && is_none first_data
    then sysex_event
    else invalid_event

-- `match status >> 4 { 0x0c | 0x0d => 1, _ => 2 }`
unfoldable pub channel_data_len : ℕ → ℕ
channel_data_len status = if status / 2 ^ 4 == 0x0c || status / 2 ^ 4 == 0x0d then 1 else 2

unfoldable pub validate_data_byte : ℕ → ℕ → Result (Unit {0})
validate_data_byte offset byte =
    if ltb byte 0x80 then ok tt else err (error_at offset (invalid_data_byte byte))

-- The data byte that stood in place of a status byte, just in front of the cursor.
unfoldable pub validate_first : Cursor → Option ℕ → Result (Unit {0})
unfolding validate_data_byte
validate_first c none = ok tt
validate_first c (some byte) = validate_data_byte (absolute_offset c - 1) byte

-- `let offset = …; let byte = cursor.read_u8()?; validate_data_byte(offset, byte)?;`
unfoldable pub read_data_byte : Cursor → Result (ℕ × Cursor)
read_data_byte c = do
  (byte, c1) ← read_u8 c
  validate_data_byte (absolute_offset c) byte
  ok (byte, c1)
