-- ===== src/Score/Division.antt =====
-- What the strict grammar takes for a division.
use midi.Prelude.{ℕ, ◌≡◌, ◌<◌, ◌≤◌, ◌/◌, ◌%◌, ◌⊎◌, arith, Bool-cases, inl, inr, u16_max, leb, ◌↔◌}
use midi.Result.{ok}
use midi.Score.Semantics.{validate_strict_division}

-- The time divisions of the file format: ticks per quarter note, or a negative frame rate in the upper
-- byte (-30, -29, -25 or -24 as an unsigned byte) and ticks per frame in the lower.
abbrev pub IsRate : ℕ → Type 0
IsRate byte = (byte ≡ 226) ⊎ (byte ≡ 227) ⊎ (byte ≡ 231) ⊎ (byte ≡ 232)

pub data IsDivision : ℕ → Type 0 where
  metrical : (division : ℕ) → 0 < division → division < 0x8000 → IsDivision division
  smpte : (division : ℕ) → IsRate (division / 256) → 0 < division % 256 → IsDivision division

-- What the strict grammar takes is a division of the file format.
pub validate_strict_division_sound :
    (division offset : ℕ) → validate_strict_division division offset ≡ ok tt → IsDivision division
unfolding validate_strict_division
validate_strict_division_sound division offset e = elim (Bool-cases (leb division 0x7fff)) [
  | inl low ↦ metrical division (ground arith) (ground arith)
  | inr high ↦ smpte division (ground arith) (ground arith)
]

-- The strict grammar takes a division of 16 bits exactly when the file format has it.
pub validate_strict_division-IsDivision :
    (division offset : ℕ)
    → division ≤ u16_max
    → (validate_strict_division division offset ≡ ok tt) ↔ IsDivision division
unfolding validate_strict_division
validate_strict_division-IsDivision division offset h =
    (validate_strict_division_sound division offset, complete)
  where
    complete : IsDivision division → validate_strict_division division offset ≡ ok tt
    complete (metrical d pos lt) = ground arith
    complete (smpte d rate ticks) = ground arith
