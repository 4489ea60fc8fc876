-- ===== src/Tests/Columns.antt =====
-- A builder with one note, which lasts as long as the mark of an open note says.
use midi.Score.Builder.{open_note_index, pack_open_note_state, open_note_start}
use midi.Score.Builder.Open.{or_start}
use midi.Prelude.{
  ◌≡◌, refl, ◌++◌, arith, [], ◌∷◌, length, u32_max, to_le_bytes, from_le_bytes, slice, ◌↔◌,
}
use midi.Cursor.{Cursor, new}
use midi.Result.{ok}
use midi.Score.Notes.{
  NoteColumnsBuilder, narrow, push, push_timing, complete, no_notes, timing_len, note_row, row_time,
  row_duration, into_segment, segment_notes, start_time,
}
use midi.Score.Columns.{slots, open_slot, end_slot, ended_notes, IsBuilder}
use midi.Score.Columns.Open.{push-slots}
use midi.Score.Columns.Close.{complete-slots}
use midi.Score.Columns.Compact.{into_segment-slots}
use midi.Score.Columns.History.{created, pushed, completed, Reached-into_segment}
use midi.Score.Slots.{pack_open_note_state-or_start}
use midi.Score.Division.{IsDivision, validate_strict_division-IsDivision}
use midi.Score.Semantics.{validate_strict_division}
use midi.Tests.Scoring.{note}

abbrev nowhere : Cursor
nowhere = new [] 0

abbrev one_open : NoteColumnsBuilder
one_open = record {
  timing = narrow (note_row 4 5 u32_max 60 64 ∷ []);
  completed_max_duration_indices = [];
}

push_first : push no_notes 5 60 64 nowhere ≡ ok (0, one_open)
unfolding push push_timing timing_len
push_first = refl

empty-IsBuilder : IsBuilder no_notes
empty-IsBuilder = record { all_rows = tt; all_indices = tt }

one_open-IsBuilder : IsBuilder one_open
unfolding row_time row_duration note_row to_le_bytes from_le_bytes slice
one_open-IsBuilder = record { all_rows = ((omega arith, omega arith), tt); all_indices = tt }

push-slots_example :
    (b : NoteColumnsBuilder) × (push no_notes 5 60 64 nowhere ≡ ok (length (slots no_notes), b))
    × (slots b ≡ slots no_notes ++ (open_slot 5 60 64 ∷ []))
    × IsBuilder b
unfolding timing_len
push-slots_example = push-slots no_notes 5 60 64 nowhere empty-IsBuilder (omega arith) (omega arith)

complete-slots_example :
    (slots (complete one_open 0 u32_max) ≡ end_slot (slots one_open) 0 u32_max)
    × IsBuilder (complete one_open 0 u32_max)
unfolding slots
complete-slots_example =
    complete-slots one_open 0 u32_max one_open-IsBuilder (omega arith) (omega arith)

into_segment-slots_example :
    segment_notes (into_segment (complete one_open 0 u32_max))
    ≡ ended_notes (slots (complete one_open 0 u32_max))
into_segment-slots_example = into_segment-slots (complete one_open 0 u32_max)

Reached-into_segment_example :
    segment_notes (into_segment (complete one_open 0 u32_max)) ≡ note 5 u32_max 60 64 ∷ []
Reached-into_segment_example = Reached-into_segment (
    completed 0 u32_max (pushed 5 60 64 0 nowhere created (omega arith) push_first) (omega arith)
      (omega arith))

pack_open_note_state-or_start_example :
    (open_note_index (pack_open_note_state 0 5) ≡ 0)
    × (or_start (open_note_start (pack_open_note_state 0 5)) one_open.timing 0 ≡ 5)
unfolding start_time row_time note_row to_le_bytes from_le_bytes slice
pack_open_note_state-or_start_example =
    pack_open_note_state-or_start one_open.timing 0 5 (omega arith) refl

validate_strict_division-IsDivision_example :
    (validate_strict_division 0xe728 12 ≡ ok tt) ↔ IsDivision 0xe728
validate_strict_division-IsDivision_example =
    validate_strict_division-IsDivision 0xe728 12 (omega arith)
