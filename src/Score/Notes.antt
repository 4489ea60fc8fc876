-- ===== src/Score/Notes.antt =====
-- Note columns: rows of bytes in a narrow (u32) or wide (u64) form, the all-ones duration as the
-- mark of a note that has not ended, promotion from narrow to wide, and the compaction that drops
-- what never ended. NarrowNoteRow and WideNoteRow differ in the width of their integers alone, so
-- one set of functions takes the width, 4 or 8. The builder's `Vec` and the segment's boxed slice
-- are both the list of rows. An index out of range, where the source panics, gives an empty row;
-- the builder is only asked for indices that `push` returned.
use midi.Prelude.{
  ℕ, zero, suc, ◌+◌, ◌-◌, ◌^◌, ◌&&◌, ◌||◌, not, Bool, false, Option, List, [], ◌∷◌, ◌++◌, map,
  Bytes, u32_max, u64_max, to_le_bytes, from_le_bytes, slice, get_or, get_elem?, set, take, length,
  leb, ◌==◌, if◌then◌else◌,
}
use mathlib.Core.Option
use midi.Result.{Result, ok, ◌>>=◌}
use midi.Cursor.{Cursor, fits}
use midi.Score.Types.{TickNote}

-- The greatest unsigned integer of `width` bytes: `u32::MAX` or `u64::MAX`.
abbrev pub max_of : ℕ → ℕ
max_of width = 256 ^ width - 1

-- `NarrowNoteRow::new`, `WideNoteRow::new`
unfoldable pub note_row : ℕ → ℕ → ℕ → ℕ → ℕ → Bytes
note_row width time duration pitch velocity =
    to_le_bytes width time ++ (to_le_bytes width duration ++ (pitch ∷ velocity ∷ []))

unfoldable pub row_time : ℕ → Bytes → ℕ
row_time width row = from_le_bytes (slice row 0 width)

unfoldable pub row_duration : ℕ → Bytes → ℕ
row_duration width row = from_le_bytes (slice row width (width + width))

unfoldable pub row_pitch : ℕ → Bytes → ℕ
row_pitch width row = get_or row (width + width) 0

unfoldable pub row_velocity : ℕ → Bytes → ℕ
row_velocity width row = get_or row (width + width + 1) 0

unfoldable pub with_duration : ℕ → Bytes → ℕ → Bytes
with_duration width row duration =
    note_row width (row_time width row) duration (row_pitch width row) (row_velocity width row)

-- `note()`
unfoldable pub row_note : ℕ → Bytes → TickNote
row_note width row = record {
  time = row_time width row;
  duration = row_duration width row;
  pitch = row_pitch width row;
  velocity = row_velocity width row;
}

-- NoteTimingBuilder, and NoteTimingColumns of a finished segment.
pub data NoteTiming : Type 0 where
  narrow : List Bytes → NoteTiming
  wide : List Bytes → NoteTiming

pub record NoteColumnsBuilder : Type 0 where
  pub timing : NoteTiming
  pub completed_max_duration_indices : List ℕ

-- `NoteColumnsBuilder::default()`
abbrev pub no_notes : NoteColumnsBuilder
no_notes = record { timing = narrow []; completed_max_duration_indices = [] }

unfoldable pub timing_len : NoteTiming → ℕ
timing_len (narrow rows) = length rows
timing_len (wide rows) = length rows

-- `NoteColumnsBuilder::len`
abbrev pub len : NoteColumnsBuilder → ℕ
len b = timing_len b.timing

-- `slice::contains`
unfoldable pub contains : List ℕ → ℕ → Bool
contains [] n = false
contains (m ∷ ms) n = m == n || contains ms n

-- The duration of a row in the wide form, where the mark is the wide one.
abbrev pub promoted_duration : Bool → ℕ → ℕ
promoted_duration dangling duration = if dangling then u64_max else duration

-- The row at `index` never ended: it bears the mark, and its index is not in the exceptions.
abbrev pub is_dangling : ℕ → List ℕ → ℕ → Bytes → Bool
is_dangling width completed index row =
    row_duration width row == max_of width && not (contains completed index)

-- The loop of `promote_to_wide`, from `index` on.
unfoldable pub promote_rows : List ℕ → ℕ → List Bytes → List Bytes
promote_rows completed index [] = []
promote_rows completed index (row ∷ rows) =
    note_row 8 (row_time 4 row)
      (promoted_duration (is_dangling 4 completed index row) (row_duration 4 row)) (row_pitch 4 row)
      (row_velocity 4 row)
    ∷ promote_rows completed (index + 1) rows

unfoldable pub promote : List ℕ → NoteTiming → NoteTiming
unfolding promote_rows
promote completed (narrow rows) = wide (promote_rows completed 0 rows)
promote completed (wide rows) = wide rows

-- `values.push(WideNoteRow::new(…))` on the promoted timing
abbrev pub push_wide : NoteTiming → ℕ → ℕ → ℕ → NoteTiming
push_wide (narrow rows) time pitch velocity = narrow rows
push_wide (wide rows) time pitch velocity =
    wide (rows ++ (note_row 8 time u64_max pitch velocity ∷ []))

unfoldable pub push_timing : List ℕ → NoteTiming → ℕ → ℕ → ℕ → NoteTiming
push_timing completed (narrow rows) time pitch velocity =
    if leb time u32_max
    then narrow (rows ++ (note_row 4 time u32_max pitch velocity ∷ []))
    else push_wide (promote completed (narrow rows)) time pitch velocity
push_timing completed (wide rows) time pitch velocity = push_wide (wide rows) time pitch velocity

-- `NoteColumnsBuilder::push`: the index of the new note, and the builder.
unfoldable pub push : NoteColumnsBuilder → ℕ → ℕ → ℕ → Cursor → Result (ℕ × NoteColumnsBuilder)
unfolding push_timing
push b time pitch velocity c = do
  index ← fits u32_max c (len b)
  ok (
    index,
    record b { timing = push_timing b.completed_max_duration_indices b.timing time pitch velocity },
  )

-- `start`
unfoldable pub start_time : NoteTiming → ℕ → ℕ
start_time (narrow rows) index = row_time 4 (get_or rows index [])
start_time (wide rows) index = row_time 8 (get_or rows index [])

abbrev pub set_duration : ℕ → List Bytes → ℕ → ℕ → List Bytes
set_duration width rows index duration =
    set rows index (with_duration width (get_or rows index []) duration)

-- `complete_wide_max` and the branch beside it.
unfoldable pub complete_wide : List Bytes → List ℕ → ℕ → ℕ → NoteColumnsBuilder
complete_wide rows completed index duration = record {
  timing = wide (set_duration 8 rows index duration);
  completed_max_duration_indices =
      if duration == u64_max then completed ++ (index ∷ []) else completed;
}

-- `complete_narrow_exception`
unfoldable pub complete_narrow_exception : List Bytes → List ℕ → ℕ → ℕ → NoteColumnsBuilder
complete_narrow_exception rows completed index duration =
    if duration == u32_max
    then record {
      timing = narrow (set_duration 4 rows index u32_max);
      completed_max_duration_indices = completed ++ (index ∷ []);
    }
    else complete_wide (promote_rows completed 0 rows) completed index duration

unfoldable pub complete_timing : NoteTiming → List ℕ → ℕ → ℕ → NoteColumnsBuilder
complete_timing (narrow rows) completed index duration =
    if leb duration u32_max && not (duration == u32_max)
    then record {
      timing = narrow (set_duration 4 rows index duration);
      completed_max_duration_indices = completed;
    }
    else complete_narrow_exception rows completed index duration
complete_timing (wide rows) completed index duration = complete_wide rows completed index duration

unfoldable pub complete : NoteColumnsBuilder → ℕ → ℕ → NoteColumnsBuilder
unfolding complete_timing complete_narrow_exception complete_wide
complete b index duration = complete_timing b.timing b.completed_max_duration_indices index duration

-- `has_dangling_u32`, `has_dangling_u64`, from `index` on
unfoldable pub has_dangling : ℕ → List ℕ → ℕ → List Bytes → Bool
has_dangling width completed index [] = false
has_dangling width completed index (row ∷ rows) =
    is_dangling width completed index row || has_dangling width completed (index + 1) rows

-- The loop of `compact_notes_u32` and `compact_notes_u64`: `rounds` rows are still to be read; rows
-- that are kept move down to `write`.
unfoldable pub compact_loop : ℕ → List ℕ → ℕ → ℕ → ℕ → List Bytes → ℕ × List Bytes
compact_loop width completed zero read write rows = (write, rows)
compact_loop width completed (suc rounds) read write rows =
    let row = get_or rows read [] in
    let kept = not (row_duration width row == max_of width) || contains completed read in
    let moved = if kept then (if write == read then rows else set rows write row) else rows in
    compact_loop width completed rounds (read + 1) (if kept then write + 1 else write) moved

-- `values.truncate(write)` behind the loop
unfoldable pub compact_notes : ℕ → List ℕ → List Bytes → List Bytes
unfolding compact_loop
compact_notes width completed rows =
    let (write, moved) = compact_loop width completed (length rows) 0 0 rows in take write moved

unfoldable pub segment_rows : ℕ → List ℕ → List Bytes → List Bytes
unfolding has_dangling compact_notes
segment_rows width completed rows =
    if has_dangling width completed 0 rows then compact_notes width completed rows else rows

unfoldable pub into_timing : NoteTiming → List ℕ → NoteTiming
unfolding segment_rows
into_timing (narrow rows) completed = narrow (segment_rows 4 completed rows)
into_timing (wide rows) completed = wide (segment_rows 8 completed rows)

-- `into_segment`; a NoteSegment is its timing.
unfoldable pub into_segment : NoteColumnsBuilder → NoteTiming
unfolding into_timing
into_segment b = into_timing b.timing b.completed_max_duration_indices

-- `NoteSegment::get`
unfoldable pub segment_get : NoteTiming → ℕ → Option TickNote
segment_get (narrow rows) index = Option.map (row_note 4) (get_elem? rows index)
segment_get (wide rows) index = Option.map (row_note 8) (get_elem? rows index)

-- What `TickNoteIter` runs through: `next` asks for the indices 0, 1, … until there is no note.
unfoldable pub segment_notes : NoteTiming → List TickNote
segment_notes (narrow rows) = map (row_note 4) rows
segment_notes (wide rows) = map (row_note 8) rows
