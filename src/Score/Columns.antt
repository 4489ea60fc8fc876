-- ===== src/Score/Columns.antt =====
-- The note columns read as a list of slots: a note is open until it has its duration. The mark of an
-- open note, the list of its exceptions, the width of the rows and the compaction are forgotten.
pub mod Rows
pub mod Compact
pub mod Open
pub mod Close
pub mod History
use midi.Prelude.{
  ℕ, zero, suc, ◌+◌, Bool, Bytes, List, [], ◌∷◌, ◌++◌, Option, none, some, if◌then◌else◌, ◌<◌, All,
  ◌^◌, length,
}
use midi.Score.Types.{TickNote}
use midi.Score.Notes.{
  NoteTiming, NoteColumnsBuilder, narrow, wide, is_dangling, row_time, row_duration, row_pitch,
  row_velocity,
}

pub record Slot : Type 0 where
  pub start : ℕ
  pub pitch : ℕ
  pub velocity : ℕ
  pub ended : Option ℕ

-- The note of a slot, if it has ended.
abbrev pub ended_note : Slot → List TickNote
ended_note slot = elim slot.ended [
  | none ↦ []
  | some duration ↦
      record {
        time = slot.start;
        duration = duration;
        pitch = slot.pitch;
        velocity = slot.velocity;
      }
      ∷ []
]

abbrev pub ended_notes : List Slot → List TickNote
ended_notes [] = []
ended_notes (slot ∷ slots) = ended_note slot ++ ended_notes slots

abbrev pub duration_of : Bool → ℕ → Option ℕ
duration_of dangling duration = if dangling then none else some duration

abbrev pub row_slot : ℕ → List ℕ → ℕ → Bytes → Slot
row_slot width completed index row = record {
  start = row_time width row;
  pitch = row_pitch width row;
  velocity = row_velocity width row;
  ended = duration_of (is_dangling width completed index row) (row_duration width row);
}

abbrev pub slots_from : ℕ → List ℕ → ℕ → List Bytes → List Slot
slots_from width completed index [] = []
slots_from width completed index (row ∷ rows) =
    row_slot width completed index row ∷ slots_from width completed (index + 1) rows

abbrev pub timing_slots : List ℕ → NoteTiming → List Slot
timing_slots completed (narrow rows) = slots_from 4 completed 0 rows
timing_slots completed (wide rows) = slots_from 8 completed 0 rows

unfoldable pub slots : NoteColumnsBuilder → List Slot
slots b = timing_slots b.completed_max_duration_indices b.timing

-- The slot of a note that has just started.
abbrev pub open_slot : ℕ → ℕ → ℕ → Slot
open_slot time pitch velocity = record {
  start = time;
  pitch = pitch;
  velocity = velocity;
  ended = none;
}

-- The slots with the note at an index ended.
abbrev pub end_slot : List Slot → ℕ → ℕ → List Slot
end_slot [] index duration = []
end_slot (slot ∷ rest) zero duration = record slot { ended = some duration } ∷ rest
end_slot (slot ∷ rest) (suc index) duration = slot ∷ end_slot rest index duration

-- A row has integers of its width.
abbrev pub IsRow : ℕ → Bytes → Type 0
IsRow width row = (row_time width row < 256 ^ width) × (row_duration width row < 256 ^ width)

abbrev pub rows_of : NoteTiming → List Bytes
rows_of (narrow rows) = rows
rows_of (wide rows) = rows

abbrev pub width_of : NoteTiming → ℕ
width_of (narrow rows) = 4
width_of (wide rows) = 8

-- A builder of the parser: rows of the right width, exceptions that are indices of rows.
pub record IsBuilder (b : NoteColumnsBuilder) : Type 0 where
  pub all_rows : All (IsRow (width_of b.timing)) (rows_of b.timing)
  pub all_indices : All (λ n. n < length (rows_of b.timing)) b.completed_max_duration_indices
