-- ===== src/Score/Arena.antt =====
-- TickScore, its column views and its columns' growth.
use midi.Prelude.{
  ℕ, Option, none, some, List, [], ◌∷◌, ◌++◌, Bytes, u32_max, usize_max, length, get_elem?,
}
use midi.Result.{Result, ok, ok_or, ◌>>=◌, size_overflow, checked_add}
use midi.Cursor.{Cursor, fits, error}
use midi.Smf.{Header}
use midi.Owned.{get_span}
use midi.Score.Types.{
  ScoreRange, TextRange, TickNote, TickControlChange, TickPitchBend, TickPedal, TickText, TickTempo,
  TickTimeSignature, TickKeySignature, TickTrack,
}
use midi.Score.Notes.{NoteTiming, timing_len, segment_notes}

-- `note_cache`, the lazily materialised global column, is the function `notes` of the segments.
pub record TickScore : Type 0 where
  pub header : Header
  pub tracks : List TickTrack
  pub note_segments : List NoteTiming
  pub note_count : ℕ
  pub controls : List TickControlChange
  pub pitch_bends : List TickPitchBend
  pub pedals : List TickPedal
  pub lyrics : List TickText
  pub tempos : List TickTempo
  pub time_signatures : List TickTimeSignature
  pub key_signatures : List TickKeySignature
  pub markers : List TickText
  pub text_data : Bytes
  pub bytes_consumed : ℕ
  pub trailing_bytes : ℕ

abbrev pub empty_score : Header → TickScore
empty_score header = record {
  header = header;
  tracks = [];
  note_segments = [];
  note_count = 0;
  controls = [];
  pitch_bends = [];
  pedals = [];
  lyrics = [];
  tempos = [];
  time_signatures = [];
  key_signatures = [];
  markers = [];
  text_data = [];
  bytes_consumed = 0;
  trailing_bytes = 0;
}

-- `TickScore::notes`: `notes.extend(segment.iter())` for each segment
unfoldable pub notes_of : List NoteTiming → List TickNote
notes_of [] = []
notes_of (segment ∷ segments) = segment_notes segment ++ notes_of segments

unfoldable pub notes : TickScore → List TickNote
unfolding notes_of
notes score = notes_of score.note_segments

-- `TickScore::text`
unfoldable pub text : TickScore → TextRange → Option Bytes
text score range = get_span score.text_data range.start range.len

-- `range_to_usize` and `get`
abbrev get_column {ℓ} : {A : Type ℓ} → List A → ScoreRange → Option (List A)
get_column column range = get_span column range.start range.len

-- `TickScore::track_notes`: the segment of the track's index, if there is such a track.
unfoldable pub track_notes : TickScore → ℕ → Option NoteTiming
track_notes score track = elim (get_elem? score.tracks track) [
  | none ↦ none
  | some _ ↦ get_elem? score.note_segments track
]

unfoldable pub track_controls : TickScore → ℕ → Option (List TickControlChange)
track_controls score track = elim (get_elem? score.tracks track) [
  | none ↦ none
  | some t ↦ get_column score.controls t.controls
]

unfoldable pub track_pitch_bends : TickScore → ℕ → Option (List TickPitchBend)
track_pitch_bends score track = elim (get_elem? score.tracks track) [
  | none ↦ none
  | some t ↦ get_column score.pitch_bends t.pitch_bends
]

unfoldable pub track_pedals : TickScore → ℕ → Option (List TickPedal)
track_pedals score track = elim (get_elem? score.tracks track) [
  | none ↦ none
  | some t ↦ get_column score.pedals t.pedals
]

unfoldable pub track_lyrics : TickScore → ℕ → Option (List TickText)
track_lyrics score track = elim (get_elem? score.tracks track) [
  | none ↦ none
  | some t ↦ get_column score.lyrics t.lyrics
]

-- `push_note_segment`
unfoldable pub push_note_segment : TickScore → NoteTiming → Cursor → Result (ScoreRange × TickScore)
push_note_segment score segment c = do
  start ← fits u32_max c score.note_count
  len ← fits u32_max c (timing_len segment)
  end ← ok_or (checked_add u32_max start len) (error c size_overflow)
  note_count ← fits usize_max c end
  ok (
    record { start = start; len = len },
    record score { note_count = note_count; note_segments = score.note_segments ++ (segment ∷ []) },
  )

-- `append_column`
unfoldable pub append_column {ℓ} :
    {A : Type ℓ} → List A → List A → Cursor → Result (ScoreRange × List A)
append_column output input c = do
  start ← fits u32_max c (length output)
  len ← fits u32_max c (length input)
  _ ← ok_or (checked_add u32_max start len) (error c size_overflow)
  ok (record { start = start; len = len }, output ++ input)
