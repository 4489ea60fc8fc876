-- ===== src/Score/Types.antt =====
-- The values of a tick score. Getters of a field are the field; a `Vec` is the list of its elements.
use midi.Prelude.{ℕ, ◌++◌, [], ◌∷◌, Bytes, ℤ, Bool, to_le_bytes, from_le_bytes, slice, get_or}

pub record ScoreRange : Type 0 where
  pub start : ℕ
  pub len : ℕ

pub record TextRange : Type 0 where
  pub start : ℕ
  pub len : ℕ

-- `TextRange::default()`
abbrev pub empty_text : TextRange
empty_text = record { start = 0; len = 0 }

pub record TickNote : Type 0 where
  pub time : ℕ
  pub duration : ℕ
  pub pitch : ℕ
  pub velocity : ℕ

-- The row of ten bytes: the time in little-endian order, the number and the value.
pub record TickControlChange : Type 0 where
  pub row : Bytes

-- `TickControlChange::new`
unfoldable pub control_change : ℕ → ℕ → ℕ → TickControlChange
unfolding to_le_bytes
control_change time number value = record { row = to_le_bytes 8 time ++ (number ∷ value ∷ []) }

unfoldable pub control_time : TickControlChange → ℕ
unfolding from_le_bytes slice
control_time change = from_le_bytes (slice change.row 0 8)

unfoldable pub control_number : TickControlChange → ℕ
control_number change = get_or change.row 8 0

unfoldable pub control_value : TickControlChange → ℕ
control_value change = get_or change.row 9 0

pub record TickPitchBend : Type 0 where
  pub time : ℕ
  pub value : ℤ

pub record TickPedal : Type 0 where
  pub time : ℕ
  pub duration : ℕ

pub record TickText : Type 0 where
  pub time : ℕ
  pub text : TextRange

pub record TickTempo : Type 0 where
  pub time : ℕ
  pub microseconds_per_quarter : ℕ

pub record TickTimeSignature : Type 0 where
  pub time : ℕ
  pub numerator : ℕ
  pub denominator : ℕ

pub record TickKeySignature : Type 0 where
  pub time : ℕ
  pub key : ℤ
  pub tonality : ℕ

pub record TickTrack : Type 0 where
  pub source_track : ℕ
  pub channel : ℕ
  pub program : ℕ
  pub is_drum : Bool
  pub name : TextRange
  pub notes : ScoreRange
  pub controls : ScoreRange
  pub pitch_bends : ScoreRange
  pub pedals : ScoreRange
  pub lyrics : ScoreRange
