-- ===== src/Cursor/Bounds.antt =====
-- Reading from a cursor: how far it moves, and where an error can lie.
use midi.Prelude.{
  ℕ, zero, suc, ◌+◌, ◌≤◌, ◌<◌, ◌^◌, ◌/◌, ◌≡◌, refl, ◌∙◌, inl, inr, Option-cases, Bool-cases, arith,
  usize_max, length, get_elem?-some, length-slice, leb→le, leb, ltb, get_elem?,
}
use midi.Result.{ParseError, ParseErrorKind}
use midi.Result.Ensures.{Ensures, returns, fails, Ensures-bind, Ensures-weaken}
use midi.Cursor.{
  Cursor, absolute_offset, read_u8, take, skip, take_cursor, read_u16, read_u32, read_tag, vlq_loop,
  read_vlq, fits, error, add_septet, ok_or, checked_add,
}

-- The end of the slice that the cursor reads, as an offset into the input.
abbrev pub end_offset : Cursor → ℕ
end_offset c = c.base + length c.bytes

-- The error lies in the slice that the cursor reads, or at its end.
pub record Within (c : Cursor) (e : ParseError) : Type 0 where
  pub above : c.base ≤ e.offset
  pub below : e.offset ≤ end_offset c

-- The position is in the slice, and its end is an address.
pub record IsValid (c : Cursor) : Type 0 where
  pub inside : c.position ≤ length c.bytes
  pub addressable : end_offset c ≤ usize_max

-- `d` reads the same slice as `c`, `n` bytes further on, and is still in the slice.
pub record Moved (c : Cursor) (n : ℕ) (d : Cursor) : Type 0 where
  pub same_bytes : d.bytes ≡ c.bytes
  pub same_base : d.base ≡ c.base
  pub moved : d.position ≡ c.position + n
  pub still_inside : d.position ≤ length c.bytes

pub Moved-length : {c d : Cursor} (n : ℕ) → Moved c n d → length d.bytes ≡ length c.bytes
Moved-length n m = rw m.same_bytes refl

pub Moved-refl : {c : Cursor} → IsValid c → Moved c 0 c
Moved-refl v = record {
  same_bytes = refl;
  same_base = refl;
  moved = omega arith;
  still_inside = omega arith;
}

pub Moved-trans : {c d e : Cursor} (m n k : ℕ) → m + n ≡ k → Moved c m d → Moved d n e → Moved c k e
Moved-trans m n k h p q = record {
  same_bytes = q.same_bytes ∙ p.same_bytes;
  same_base = q.same_base ∙ p.same_base;
  moved = omega arith;
  still_inside = omega (arith, Moved-length m p);
}

pub Moved-IsValid : {c d : Cursor} (n : ℕ) → Moved c n d → IsValid c → IsValid d
Moved-IsValid n m v = omega (arith, Moved-length n m)

pub Within-back : {c d : Cursor} (n : ℕ) → Moved c n d → (e : ParseError) → Within d e → Within c e
Within-back n m e w = omega (arith, Moved-length n m)

-- A valid cursor's own offset is a place for an error.
pub Within-here : {c : Cursor} (kind : ParseErrorKind) → IsValid c → Within c (error c kind)
Within-here kind v = omega arith

-- `read_u8` moves by one byte, or fails in the slice.
pub read_u8-Ensures :
    (c : Cursor) → IsValid c → Ensures (λ (b, d). Moved c 1 d) (Within c) (read_u8 c)
unfolding read_u8
read_u8-Ensures c v = elim (Option-cases (get_elem? c.bytes c.position)) [
  | inl e ↦ rw (e, read_u8) (fails _ (omega arith))
  | inr (b, e) ↦
      rw (e, read_u8)
        (returns _ (record {
          same_bytes = refl;
          same_base = refl;
          moved = refl;
          still_inside = omega (arith, get_elem?-some c.bytes c.position b e);
        }))
]

-- `take` of `size` bytes succeeds exactly if they remain; it then gives the next `size` bytes.
pub take-Ensures :
    (size : ℕ) (c : Cursor)
    → IsValid c
    → Ensures (λ (bytes, d). Moved c size d × (length bytes ≡ size)) (Within c) (take size c)
unfolding take
take-Ensures size c v = elim (Bool-cases (leb (c.position + size) usize_max)) [
  | inr over ↦ rw (over, take) (fails _ (Within-here _ v))
  | inl fine ↦ elim (Bool-cases (leb (c.position + size) (length c.bytes))) [
    | inr short ↦ rw (fine, short, take) (fails _ (Within-here _ v))
    | inl enough ↦
        let last = leb→le (c.position + size) (length c.bytes) enough in
        rw (fine, enough, take)
          (returns _ (
            record { same_bytes = refl; same_base = refl; moved = refl; still_inside = last },
            length-slice c.bytes c.position (c.position + size) (omega arith) last ∙ omega arith,
          ))
  ]
]

pub skip-Ensures :
    (size : ℕ) (c : Cursor) → IsValid c → Ensures (λ d. Moved c size d) (Within c) (skip size c)
unfolding skip
skip-Ensures size c v = Ensures-bind (take-Ensures size c v) (λ e w. w) (λ (_, d) p. returns d p.0)

-- The new cursor reads its own slice, inside that of `c`.
pub take_cursor-Ensures :
    (size : ℕ) (c : Cursor)
    → IsValid c
    → Ensures
        (λ (inner, d).
          Moved c size d
          × (inner.base ≡ absolute_offset c)
          × (inner.position ≡ 0)
          × (length inner.bytes ≡ size))
        (Within c)
        (take_cursor size c)
unfolding take_cursor
take_cursor-Ensures size c v =
    Ensures-bind (take-Ensures size c v) (λ e w. w)
      (λ (bytes, d) p. returns _ (p.0, refl, refl, p.1))

pub read_u16-Ensures :
    (c : Cursor) → IsValid c → Ensures (λ (n, d). Moved c 2 d) (Within c) (read_u16 c)
unfolding read_u16
read_u16-Ensures c v = Ensures-bind (take-Ensures 2 c v) (λ e w. w) (λ (_, d) p. returns _ p.0)

pub read_u32-Ensures :
    (c : Cursor) → IsValid c → Ensures (λ (n, d). Moved c 4 d) (Within c) (read_u32 c)
unfolding read_u32
read_u32-Ensures c v = Ensures-bind (take-Ensures 4 c v) (λ e w. w) (λ (_, d) p. returns _ p.0)

pub read_tag-Ensures :
    (c : Cursor)
    → IsValid c
    → Ensures (λ (tag, d). Moved c 4 d × (length tag ≡ 4)) (Within c) (read_tag c)
unfolding read_tag
read_tag-Ensures c v = take-Ensures 4 c v

pub fits-Ensures :
    (limit : ℕ) (c : Cursor) (n : ℕ) → IsValid c → Ensures (λ m. m ≡ n) (Within c) (fits limit c n)
fits-Ensures limit c n v = elim (Bool-cases (leb n limit)) [
  | inl fine ↦ rw fine (returns n refl)
  | inr over ↦ rw over (fails _ (Within-here _ v))
]

pub checked_add-Ensures :
    (limit a b : ℕ) (c : Cursor) (kind : ParseErrorKind)
    → IsValid c
    → Ensures
        (λ sum. (sum ≡ a + b) × (sum ≤ limit))
        (Within c)
        (ok_or (checked_add limit a b) (error c kind))
checked_add-Ensures limit a b c kind v = elim (Bool-cases (leb (a + b) limit)) [
  | inl fine ↦ rw fine (returns _ (refl, leb→le (a + b) limit fine))
  | inr over ↦ rw over (fails _ (Within-here _ v))
]

-- Values below this bound can take `rounds` more septets and stay below 2 ^ 28.
abbrev vlq_room : ℕ → ℕ
vlq_room zero = 2 ^ 28
vlq_room (suc rounds) = vlq_room rounds / 128

-- A quantity of at most `rounds` bytes was read.
pub record VlqRead (c : Cursor) (rounds n : ℕ) (d : Cursor) : Type 0 where
  pub size : ℕ
  pub bytes_read : Moved c size d
  pub nonempty : 1 ≤ size
  pub at_most : size ≤ rounds
  pub bounded : n < 2 ^ 28

VlqRead-later :
    {c d e : Cursor} (rounds n : ℕ)
    → Moved c 1 d
    → VlqRead d rounds n e
    → VlqRead c (suc rounds) n e
VlqRead-later rounds n m r = record {
  size = r.size + 1;
  bytes_read = Moved-trans 1 r.size (r.size + 1) (omega arith) m r.bytes_read;
  nonempty = omega arith;
  at_most = omega arith;
  bounded = r.bounded;
}

vlq_room-le : (rounds : ℕ) → vlq_room rounds ≤ 2 ^ 28
vlq_room-le zero = omega arith
vlq_room-le (suc rounds) = omega (arith, vlq_room-le rounds)

next_room :
    (rounds value byte : ℕ)
    → value < vlq_room (suc rounds)
    → add_septet value byte < vlq_room rounds
next_room rounds value byte h = omega arith

next_fits : (rounds value byte : ℕ) → value < vlq_room (suc rounds) → add_septet value byte < 2 ^ 28
next_fits rounds value byte h = omega (arith, next_room rounds value byte h, vlq_room-le rounds)

vlq_loop-Ensures :
    (start rounds value : ℕ) (c : Cursor)
    → IsValid c
    → value < vlq_room rounds
    → c.base ≤ start
    → start ≤ end_offset c
    → Ensures (λ (n, d). VlqRead c rounds n d) (Within c) (vlq_loop start rounds value c)
unfolding vlq_loop
vlq_loop-Ensures start zero value c v h lo hi = fails _ (omega arith)
vlq_loop-Ensures start (suc rounds) value c v h lo hi =
    Ensures-bind (read_u8-Ensures c v) (λ e w. w)
      λ (byte, d) m. elim (Bool-cases (ltb byte 0x80)) [
        | inl last ↦ rw last (
            returns _ (record {
              size = 1;
              bytes_read = m;
              nonempty = omega arith;
              at_most = omega arith;
              bounded = next_fits rounds value byte h;
            }))
        | inr more ↦ rw more (
            Ensures-weaken (λ (n, e) r. VlqRead-later rounds n m r) (Within-back 1 m)
              (vlq_loop-Ensures start rounds (add_septet value byte) d (Moved-IsValid 1 m v)
                (next_room rounds value byte h) (omega arith) (omega (arith, Moved-length 1 m))))
      ]

-- A quantity has one to four bytes and a value below 2 ^ 28.
pub read_vlq-Ensures :
    (c : Cursor) → IsValid c → Ensures (λ (n, d). VlqRead c 4 n d) (Within c) (read_vlq c)
unfolding read_vlq
read_vlq-Ensures c v =
    vlq_loop-Ensures (absolute_offset c) 4 0 c v (omega arith) (omega arith) (omega arith)
