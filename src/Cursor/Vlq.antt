-- ===== src/Cursor/Vlq.antt =====
-- What `read_vlq` reads: the continuation bytes and the last byte of a quantity, in any encoding of
-- at most four bytes, and the shortest encoding of a number.
use mathlib.Core.List.{foldl, List, map}
use midi.Prelude.{
  ℕ, zero, suc, ◌+◌, ◌/◌, ◌%◌, ◌^◌, ◌≤◌, ◌<◌, ◌≡◌, refl, ◌∙◌, ap, sym, Bytes, [], ◌∷◌, ◌++◌, arith,
  length, length-append, append_assoc, get_elem?-append_length, ltb, if◌then◌else◌, lt→ltb, le→ltb,
  All, List, ◌*◌, map, ◌-◌,
}
use midi.Result.{ok, err, error_at, variable_length_quantity_too_long}
use midi.Cursor.{Cursor, read_u8, vlq_loop, read_vlq, add_septet}

-- The cursor between the bytes already read and the rest.
abbrev pub between : Bytes → Bytes → ℕ → Cursor
between before rest base = record { bytes = before ++ rest; position = length before; base = base }

length-concat : (before : Bytes) (b : ℕ) → length before + 1 ≡ length (before ++ (b ∷ []))
length-concat before b = sym (length-append before (b ∷ []))

between-cons :
    (before : Bytes) (b : ℕ) (rest : Bytes) (base : ℕ)
    → ◌≡◌ {A = Cursor}
        (record { bytes = before ++ (b ∷ rest); position = length before + 1; base = base })
        (between (before ++ (b ∷ [])) rest base)
between-cons before b rest base = λ i. record {
  bytes = sym (append_assoc before (b ∷ []) rest) i;
  position = length-concat before b i;
  base = base;
}

pub read_u8-between :
    (before : Bytes) (b : ℕ) (rest : Bytes) (base : ℕ)
    → read_u8 (between before (b ∷ rest) base) ≡ ok (b, between (before ++ (b ∷ [])) rest base)
unfolding read_u8
read_u8-between before b rest base =
    rw (get_elem?-append_length before b rest, read_u8)
      (ap (λ d. ok (b, d)) (between-cons before b rest base))

abbrev pub IsContinuation : ℕ → Type 0
IsContinuation b = (128 ≤ b) × (b < 256)

vlq_loop-septets :
    (start rounds value : ℕ) (before body : Bytes) (last : ℕ) (rest : Bytes) (base : ℕ)
    → All IsContinuation body
    → length body < rounds
    → last < 128
    → vlq_loop start rounds value (between before (body ++ (last ∷ rest)) base)
      ≡ ok (
        foldl add_septet value (body ++ (last ∷ [])),
        between (before ++ (body ++ (last ∷ []))) rest base,
      )
unfolding vlq_loop
vlq_loop-septets start zero value before body last rest base all short low = absurd (omega arith)
vlq_loop-septets start (suc rounds) value before [] last rest base all short low =
    rw (read_u8-between before last rest base, lt→ltb last 128 low)
vlq_loop-septets start (suc rounds) value before (b ∷ body) last rest base all short low =
    rw (read_u8-between before b (body ++ (last ∷ rest)) base, le→ltb b 128 all.0.0)
      (vlq_loop-septets start rounds (add_septet value b) (before ++ (b ∷ [])) body last rest base
          all.1 (omega arith) low
        ∙ ap
            (λ bs.
              ok
                (foldl add_septet (add_septet value b) (body ++ (last ∷ [])), between bs rest base))
            (append_assoc before (b ∷ []) (body ++ (last ∷ []))))

vlq_loop-too_long :
    (start rounds value : ℕ) (before body rest : Bytes) (base : ℕ)
    → All IsContinuation body
    → length body ≡ rounds
    → vlq_loop start rounds value (between before (body ++ rest) base)
      ≡ err (error_at start variable_length_quantity_too_long)
unfolding vlq_loop
vlq_loop-too_long start zero value before body rest base all full = refl
vlq_loop-too_long start (suc rounds) value before [] rest base all full = absurd (omega arith)
vlq_loop-too_long start (suc rounds) value before (b ∷ body) rest base all full =
    rw (read_u8-between before b (body ++ rest) base, le→ltb b 128 all.0.0)
      (vlq_loop-too_long start rounds (add_septet value b) (before ++ (b ∷ [])) body rest base all.1
        (omega arith))

read_vlq-foldl :
    (before body : Bytes) (last : ℕ) (rest : Bytes) (base : ℕ)
    → All IsContinuation body
    → length body ≤ 3
    → last < 128
    → read_vlq (between before (body ++ (last ∷ rest)) base)
      ≡ ok (
        foldl add_septet 0 (body ++ (last ∷ [])),
        between (before ++ (body ++ (last ∷ []))) rest base,
      )
unfolding read_vlq
read_vlq-foldl before body last rest base all short low =
    vlq_loop-septets _ 4 0 before body last rest base all (omega arith) low

-- The number whose digits to the base 128 are these, the highest first.
abbrev pub from_digits : List ℕ → ℕ
from_digits [] = 0
from_digits (d ∷ ds) = d * 128 ^ length ds + from_digits ds

-- The digit of a continuation byte: the byte without its mark.
abbrev pub digits : Bytes → List ℕ
digits body = map (λ b. b - 128) body

foldl-add_septet :
    (body : Bytes) (last : ℕ)
    → All IsContinuation body
    → length body ≤ 3
    → last < 128
    → foldl add_septet 0 (body ++ (last ∷ [])) ≡ from_digits (digits body ++ (last ∷ []))
foldl-add_septet [] last all short low = ground arith
foldl-add_septet (a ∷ []) last all short low = ground arith
foldl-add_septet (a ∷ b ∷ []) last all short low = ground arith
foldl-add_septet (a ∷ b ∷ c ∷ []) last all short low = ground arith
foldl-add_septet (a ∷ b ∷ c ∷ d ∷ body) last all short low = absurd (omega arith)

-- Up to three continuation bytes and a last byte below 128 are read as one quantity: the number
-- whose digits to the base 128 are the continuation bytes less 128 and then the last byte, the
-- highest first; and the cursor then stands behind them.
pub read_vlq-septets :
    (before body : Bytes) (last : ℕ) (rest : Bytes) (base : ℕ)
    → All IsContinuation body
    → length body ≤ 3
    → last < 128
    → read_vlq (between before (body ++ (last ∷ rest)) base)
      ≡ ok (
        from_digits (digits body ++ (last ∷ [])),
        between (before ++ (body ++ (last ∷ []))) rest base,
      )
read_vlq-septets before body last rest base all short low =
    read_vlq-foldl before body last rest base all short low
    ∙ ap (λ v. ok (v, between (before ++ (body ++ (last ∷ []))) rest base))
        (foldl-add_septet body last all short low)

-- After four continuation bytes the quantity is refused at its first byte, whatever follows.
pub read_vlq-too_long :
    (before body rest : Bytes) (base : ℕ)
    → All IsContinuation body
    → length body ≡ 4
    → read_vlq (between before (body ++ rest) base)
      ≡ err (error_at (base + length before) variable_length_quantity_too_long)
unfolding read_vlq
read_vlq-too_long before body rest base all full =
    vlq_loop-too_long _ 4 0 before body rest base all full

-- The shortest encoding of a number below 2 ^ 28.
pub vlq_body : ℕ → Bytes
vlq_body n =
    if ltb n (2 ^ 7)
    then []
    else if ltb n (2 ^ 14)
    then (128 + n / 2 ^ 7) ∷ []
    else if ltb n (2 ^ 21)
    then (128 + n / 2 ^ 14) ∷ (128 + n / 2 ^ 7 % 128) ∷ []
    else (128 + n / 2 ^ 21) ∷ (128 + n / 2 ^ 14 % 128) ∷ (128 + n / 2 ^ 7 % 128) ∷ []

abbrev pub write_vlq : ℕ → Bytes
write_vlq n = vlq_body n ++ ((n % 128) ∷ [])

vlq_body-IsContinuation : (n : ℕ) → n < 2 ^ 28 → All IsContinuation (vlq_body n)
unfolding vlq_body
vlq_body-IsContinuation n h = ground arith

length-vlq_body : (n : ℕ) → length (vlq_body n) ≤ 3
unfolding vlq_body
length-vlq_body n = ground arith

vlq_body-value : (n : ℕ) → n < 2 ^ 28 → foldl add_septet 0 (write_vlq n) ≡ n
unfolding vlq_body
vlq_body-value n h = ground arith

-- `read_vlq` reads back every number below 2 ^ 28 from its shortest encoding, wherever that stands,
-- and stops behind it.
pub read_vlq-write_vlq :
    (n : ℕ) (before rest : Bytes) (base : ℕ)
    → n < 2 ^ 28
    → read_vlq (between before (write_vlq n ++ rest) base)
      ≡ ok (n, between (before ++ write_vlq n) rest base)
read_vlq-write_vlq n before rest base h =
    ap (λ bs. read_vlq (between before bs base)) (append_assoc (vlq_body n) ((n % 128) ∷ []) rest)
    ∙ read_vlq-foldl before (vlq_body n) (n % 128) rest base (vlq_body-IsContinuation n h)
        (length-vlq_body n) (omega arith)
    ∙ ap (λ v. ok (v, between (before ++ write_vlq n) rest base)) (vlq_body-value n h)
