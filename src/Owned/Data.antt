-- ===== src/Owned/Data.antt =====
-- The data bytes that the scan skips and the arena parser keeps; what it means that the two agree.
use midi.Cursor.Bounds.{end_offset, Moved, Moved-length}
use midi.Smf.{
  validate_first, channel_data_len, read_data_byte, Status, validate_data_byte, channel_event,
}
use midi.Owned.{
  read_data_loop, read_channel_data, validate_first, ScanSummary, channel_data_len, read_data_byte,
  OwnedSmf, Parsed, ok_or, parse_arm, [], checked_add, Status, set, u32_max, channel_event,
}
use midi.Scan.{scan_data_bytes, scan_channel_data, Scanned, scan_arm, ScanSummary}
use midi.Prelude.{
  ℕ, zero, suc, ◌+◌, ◌-◌, ◌≤◌, ◌≡◌, refl, arith, Option, some, none, Bytes, length, sym, le→leb,
  ◌∷◌, inl, [], set, u32_max, inr, length-append,
}
use midi.Result.{Result, ok, err, stuck, ◌>>=◌, Result-cases, ParseError, ok_or, checked_add}
use midi.Result.Lockstep.{Lockstep, both_return, Lockstep-shared}
use midi.Cursor.{Cursor, fits, absolute_offset}

-- Dropping the bytes that were read leaves the scanner's reading.
abbrev pub drop_bytes : Result (Bytes × Cursor) → Result Cursor
drop_bytes m = m >>= λ (_, c). ok c

pub bind_assoc :
    {A B C : Type 0} (m : Result A) (f : A → Result B) (g : B → Result C)
    → (m >>= f >>= g) ≡ (m >>= λ a. f a >>= g)
bind_assoc (ok a) f g = refl
bind_assoc (err e) f g = refl
bind_assoc stuck f g = refl

pub bind_ok : {A : Type 0} (m : Result A) → (m >>= ok) ≡ m
bind_ok (ok a) = refl
bind_ok (err e) = refl
bind_ok stuck = refl

pub read_data_loop-scan :
    (rounds index : ℕ) (found : Bytes) (c : Cursor)
    → scan_data_bytes rounds c ≡ drop_bytes (read_data_loop rounds index found c)
unfolding scan_data_bytes read_data_loop
read_data_loop-scan zero index found c = refl
read_data_loop-scan (suc rounds) index found c = elim (Result-cases (read_data_byte c)) [
  | inl ((byte, d), e) ↦ rw e (read_data_loop-scan rounds (index + 1) (set found index byte) d)
  | inr (inl (x, e)) ↦ rw e
  | inr (inr e) ↦ rw e
]

pub read_channel_data-scan :
    (c : Cursor) (first_data : Option ℕ) (data_len : ℕ)
    → scan_channel_data c first_data data_len ≡ drop_bytes (read_channel_data c first_data data_len)
unfolding scan_channel_data read_channel_data validate_first
read_channel_data-scan c none data_len =
    let e : data_len - 0 ≡ data_len = omega arith in
    rw e (read_data_loop-scan data_len 0 (0 ∷ 0 ∷ []) c)
read_channel_data-scan c (some byte) data_len =
    rw (read_data_loop-scan (data_len - 1) 1 (byte ∷ 0 ∷ []) c)
      (sym (bind_assoc (validate_data_byte (absolute_offset c - 1) byte) _ _))

-- The arena holds as many events and payload bytes as the scan has counted.
pub record Agrees (s : ScanSummary) (o : OwnedSmf) : Type 0 where
  pub events_agree : s.events ≡ length o.events
  pub payloads_agree : s.payload_bytes ≡ length o.payloads

-- The same cursor and running status, and counters that agree.
pub data SameEvent : Scanned → Parsed → Type 0 where
  same :
      {d : Cursor} {r : Option ℕ} {t : ScanSummary} {p : OwnedSmf}
      → Agrees t p
      → SameEvent (d, r, t) (d, r, p)

-- All that was counted lies in front of the cursor, in an input that `u32` offsets can address.
pub record Room (c : Cursor) (s : ScanSummary) : Type 0 where
  pub retained : s.events + s.events + s.payload_bytes ≤ absolute_offset c
  pub addressed : end_offset c ≤ u32_max

pub Room-later : {c d : Cursor} {s : ScanSummary} (n : ℕ) → Moved c n d → Room c s → Room d s
Room-later n m r = record {
  retained = omega (arith, m.moved, m.same_base);
  addressed = omega (arith, Moved-length n m, m.same_base);
}

pub fits-eq : (limit : ℕ) (c : Cursor) (n : ℕ) → n ≤ limit → fits limit c n ≡ ok n
fits-eq limit c n h = rw (le→leb n limit h)

pub checked_add-eq :
    (limit a b : ℕ) (e : ParseError) → a + b ≤ limit → ok_or (checked_add limit a b) e ≡ ok (a + b)
checked_add-eq limit a b e h = rw (le→leb (a + b) limit h)

pub channel_data_len-le : (status : ℕ) → channel_data_len status ≤ 2
unfolding channel_data_len
channel_data_len-le status = ground arith

pub channel_follows :
    (delta : ℕ) (st : Status) (c : Cursor) (s : ScanSummary) (o : OwnedSmf)
    → Agrees s o
    → Lockstep SameEvent (scan_arm channel_event st c s) (parse_arm channel_event delta st c o)
unfolding scan_arm parse_arm
channel_follows delta st c s o g =
    rw (read_channel_data-scan c st.first_data (channel_data_len st.status)) (
      rw (bind_assoc (read_channel_data c st.first_data (channel_data_len st.status))) (
        Lockstep-shared (read_channel_data c st.first_data (channel_data_len st.status))
          λ (found, d) e.
            rw
              (fits-eq u32_max d (channel_data_len st.status)
                (omega (arith, channel_data_len-le st.status)))
              (both_return _ _ (
                same (record {
                  events_agree = omega (arith, length-append o.events (_ ∷ []));
                  payloads_agree = g.payloads_agree;
                })))))
