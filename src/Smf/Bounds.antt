-- ===== src/Smf/Bounds.antt =====
-- The shared readers: how far they move the cursor, and where their errors lie.
use midi.Prelude.{
  ℕ, ◌+◌, ◌-◌, ◌≤◌, ◌<◌, ◌≡◌, refl, arith, Option, some, none, Bytes, ltb, Bool-cases, length, inl,
  bytes_eq, ltb→lt, Option-cases, true, inr, usize_max, ltb→le,
}
use midi.Result.{ParseError, ok_or}
use midi.Result.Ensures.{Ensures, returns, fails, Ensures-bind, Ensures-weaken}
use midi.Cursor.{Cursor, absolute_offset}
use midi.Cursor.Bounds.{
  end_offset, Moved, Moved-length, IsValid, Within, Within-back, Moved-trans, Moved-IsValid,
  read_u8-Ensures, read_tag-Ensures, read_u32-Ensures, fits-Ensures, take_cursor-Ensures,
  read_u16-Ensures,
}
use midi.Smf.{
  validate_data_byte, validate_first, read_data_byte, resolve_status, read_status, read_header,
  read_track_chunk, expect_tag, track_chunk, check_header_size, read_header_fields, header_chunk,
  format_from,
}

pub validate_data_byte-Ensures :
    (c : Cursor) (offset byte : ℕ)
    → c.base ≤ offset
    → offset ≤ end_offset c
    → Ensures (λ _. byte < 128) (Within c) (validate_data_byte offset byte)
unfolding validate_data_byte
validate_data_byte-Ensures c offset byte lo hi = elim (Bool-cases (ltb byte 0x80)) [
  | inl low ↦ rw (low, validate_data_byte) (returns tt (ltb→lt byte 128 low))
  | inr high ↦ rw (high, validate_data_byte) (fails _ (omega arith))
]

-- `read_data_byte` moves by one byte and gives a byte without the status bit.
pub read_data_byte-Ensures :
    (c : Cursor)
    → IsValid c
    → Ensures (λ (byte, d). Moved c 1 d × (byte < 128)) (Within c) (read_data_byte c)
unfolding read_data_byte
read_data_byte-Ensures c v =
    Ensures-bind (read_u8-Ensures c v) (λ e w. w)
      λ (byte, d) m.
        Ensures-bind
          (validate_data_byte-Ensures c (absolute_offset c) byte (omega arith) (omega arith))
          (λ e w. w) (λ _ low. returns _ (m, low))

-- The byte in front of a cursor that has moved is in the slice.
pub validate_first-Ensures :
    (c : Cursor) (first_data : Option ℕ)
    → IsValid c
    → 0 < c.position
    → Ensures
        (λ _. (byte : ℕ) → first_data ≡ some byte → byte < 128)
        (Within c)
        (validate_first c first_data)
unfolding validate_first
validate_first-Ensures c none v p = returns tt (λ byte h. cc)
validate_first-Ensures c (some b) v p =
    Ensures-weaken (λ _ low byte h. grind arith) (λ e w. w)
      (validate_data_byte-Ensures c (absolute_offset c - 1) b (omega arith) (omega arith))

pub resolve_status-Ensures :
    (c : Cursor) (first : ℕ) (running : Option ℕ)
    → IsValid c
    → Ensures
        (λ st. st.event_offset ≡ absolute_offset c)
        (Within c)
        (resolve_status (absolute_offset c) first running)
unfolding resolve_status
resolve_status-Ensures c first running v = elim (Bool-cases (ltb first 0x80)) [
  | inl data_byte ↦ elim (Option-cases running) [
    | inl missing ↦ rw (data_byte, missing, resolve_status) (fails _ (omega arith))
    | inr (status, known) ↦ rw (data_byte, known, resolve_status) (returns _ refl)
  ]
  | inr status_byte ↦ rw (status_byte, resolve_status) (returns _ refl)
]

-- `read_status` moves by one byte, and gives the offset of that byte.
pub read_status-Ensures :
    (c : Cursor) (running : Option ℕ)
    → IsValid c
    → Ensures
        (λ (st, d). Moved c 1 d × (st.event_offset ≡ absolute_offset c))
        (Within c)
        (read_status c running)
unfolding read_status
read_status-Ensures c running v =
    Ensures-bind (read_u8-Ensures c v) (λ e w. w)
      λ (first, d) m.
        Ensures-bind (resolve_status-Ensures c first running v) (λ e w. w)
          (λ st o. returns _ (m, o))

expect_tag-Ensures :
    (c : Cursor) (expected actual : Bytes) (offset : ℕ)
    → c.base ≤ offset
    → offset ≤ end_offset c
    → Ensures (λ _. bytes_eq actual expected ≡ true) (Within c) (expect_tag expected offset actual)
unfolding expect_tag
expect_tag-Ensures c expected actual offset lo hi = elim (Bool-cases (bytes_eq actual expected)) [
  | inl same ↦ rw (same, expect_tag) (returns tt refl)
  | inr other ↦ rw (other, expect_tag) (fails _ (omega arith))
]

-- The track's cursor covers the declared bytes, and lies inside the slice of `c`.
pub record ChunkRead (c track d : Cursor) : Type 0 where
  pub size : ℕ
  pub moved : Moved c (size + 8) d
  pub starts : track.base ≡ absolute_offset c + 8
  pub at_start : track.position ≡ 0
  pub sized : length track.bytes ≡ size

pub ChunkRead-IsValid : {c track d : Cursor} → IsValid c → ChunkRead c track d → IsValid track
ChunkRead-IsValid v r = omega (arith, Moved-length (r.size + 8) r.moved)

pub ChunkRead-Within :
    {c track d : Cursor} → ChunkRead c track d → (e : ParseError) → Within track e → Within c e
ChunkRead-Within r e w = omega (arith, Moved-length (r.size + 8) r.moved)

pub read_track_chunk-Ensures :
    (c : Cursor)
    → IsValid c
    → Ensures (λ (track, d). ChunkRead c track d) (Within c) (read_track_chunk c)
unfolding read_track_chunk
read_track_chunk-Ensures c v =
    Ensures-bind (read_tag-Ensures c v) (λ e w. w)
      λ (tag, c1) m1.
        Ensures-bind
          (expect_tag-Ensures c track_chunk tag (absolute_offset c) (omega arith) (omega arith))
          (λ e w. w)
          λ _ _.
            let v1 = Moved-IsValid 4 m1.0 v in
            Ensures-bind (read_u32-Ensures c1 v1) (Within-back 4 m1.0) λ (declared, c2) m2.
              let m = Moved-trans 4 4 8 refl m1.0 m2 in
              let v2 = Moved-IsValid 8 m v in
              Ensures-bind (fits-Ensures usize_max c2 declared v2) (Within-back 8 m) λ size same.
                Ensures-weaken
                  (λ (track, d) r. record {
                    size = size;
                    moved = Moved-trans 8 size (size + 8) (omega arith) m r.0;
                    starts = omega arith;
                    at_start = r.2;
                    sized = r.3;
                  })
                  (Within-back 8 m) (take_cursor-Ensures size c2 v2)

check_header_size-Ensures :
    (c : Cursor) (offset size : ℕ)
    → c.base ≤ offset
    → offset ≤ end_offset c
    → Ensures (λ _. 6 ≤ size) (Within c) (check_header_size offset size)
unfolding check_header_size
check_header_size-Ensures c offset size lo hi = elim (Bool-cases (ltb size 6)) [
  | inl short ↦ rw (short, check_header_size) (fails _ (omega arith))
  | inr fine ↦ rw (fine, check_header_size) (returns tt (ltb→le size 6 fine))
]

ok_or-Ensures :
    {A : Type 0} (c : Cursor) (o : Option A) (e : ParseError)
    → Within c e
    → Ensures (λ a. o ≡ some a) (Within c) (ok_or o e)
ok_or-Ensures c none e w = fails e w
ok_or-Ensures c (some a) e w = returns a refl

read_header_fields-Ensures :
    (c : Cursor) → IsValid c → Ensures (λ _. Unit {0}) (Within c) (read_header_fields c)
unfolding read_header_fields
read_header_fields-Ensures c v =
    Ensures-bind (read_u16-Ensures c v) (λ e w. w)
      λ (raw, c1) m1.
        Ensures-bind (ok_or-Ensures c (format_from raw) _ (omega (arith, m1.same_base))) (λ e w. w)
          λ format _.
            Ensures-bind (read_u16-Ensures c1 (Moved-IsValid 2 m1 v)) (Within-back 2 m1)
              λ (count, c2) m2.
                let m = Moved-trans 2 2 4 refl m1 m2 in
                Ensures-bind (read_u16-Ensures c2 (Moved-IsValid 4 m v)) (Within-back 4 m)
                  λ (division, c3) m3. returns _ tt

-- The header chunk is read whole, or the error lies in the input.
pub read_header-Ensures :
    (c : Cursor)
    → IsValid c
    → c.base ≡ 0
    → Ensures (λ (header, d). (n : ℕ) × Moved c n d × (14 ≤ n)) (Within c) (read_header c)
unfolding read_header
read_header-Ensures c v b =
    Ensures-bind (read_tag-Ensures c v) (λ e w. w)
      λ (tag, c1) m1.
        Ensures-bind (expect_tag-Ensures c header_chunk tag 0 (omega arith) (omega arith))
          (λ e w. w)
          λ _ _.
            let v1 = Moved-IsValid 4 m1.0 v in
            Ensures-bind (read_u32-Ensures c1 v1) (Within-back 4 m1.0) λ (declared, c2) m2.
              let m = Moved-trans 4 4 8 refl m1.0 m2 in
              let v2 = Moved-IsValid 8 m v in
              Ensures-bind
                (check_header_size-Ensures c (absolute_offset c1) declared (omega arith)
                  (omega (arith, Moved-length 4 m1.0)))
                (λ e w. w)
                λ _ enough.
                  Ensures-bind (fits-Ensures usize_max c2 declared v2) (Within-back 8 m)
                    λ size same.
                      Ensures-bind (take_cursor-Ensures size c2 v2) (Within-back 8 m)
                        λ (inner, c3) r.
                          let m3 = Moved-trans 8 size (8 + size) refl m r.0 in
                          Ensures-bind
                            (read_header_fields-Ensures inner
                              (omega (arith, Moved-length 8 m, Moved-length size r.0)))
                            (λ e w. omega (arith, Moved-length 8 m, Moved-length size r.0))
                            λ header _. returns _ (8 + size, m3, omega arith)
