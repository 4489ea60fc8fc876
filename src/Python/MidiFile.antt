-- ===== src/Python/MidiFile.antt =====
-- ScanSummary, MidiFile, scan and parse.
pub mod Tells
pub mod Records
use midi.Owned.{OwnedSmf, EventRecord, meta_type, TrackRange, parse_smf, event_data, track_events}
use midi.Python.{
  PyResult, ◌>>=◌, Interpreter, map_result, returned, or_raise, invalid_payload_range,
  track_start_too_large, invalid_track_range,
}
use midi.Scan.{ScanSummary, scan_smf}
use midi.Smf.{Format, single_track, parallel, sequential}
use midi.Prelude.{
  ℕ, ◌+◌, ◌-◌, Option, none, some, List, [], ◌∷◌, Bytes, map, if◌then◌else◌, ◌==◌, Bool, take, ◌||◌,
  length, leb, usize_max,
}

-- `format as u16`
unfoldable pub format_number : Format → ℕ
format_number single_track = 0
format_number parallel = 1
format_number sequential = 2

pub record PyScanSummary : Type 0 where
  pub format : ℕ
  pub tracks : ℕ
  pub division : ℕ
  pub events : ℕ
  pub channel_events : ℕ
  pub meta_events : ℕ
  pub sysex_events : ℕ
  pub payload_bytes : ℕ
  pub max_delta_ticks : ℕ
  pub bytes_consumed : ℕ
  pub trailing_bytes : ℕ

-- `From<CoreScanSummary> for ScanSummary`
unfoldable pub from_summary : ScanSummary → PyScanSummary
unfolding format_number
from_summary summary = record {
  format = format_number summary.header.format;
  tracks = summary.header.track_count;
  division = summary.header.division;
  events = summary.events;
  channel_events = summary.channel_events;
  meta_events = summary.meta_events;
  sysex_events = summary.sysex_events;
  payload_bytes = summary.payload_bytes;
  max_delta_ticks = summary.max_delta_ticks;
  bytes_consumed = summary.bytes_consumed;
  trailing_bytes = summary.trailing_bytes;
}

unfoldable pub scan : Bytes → PyResult PyScanSummary
unfolding from_summary
scan bytes = map_result from_summary (scan_smf bytes)

pub record MidiFile : Type 0 where
  pub inner : OwnedSmf

-- `parse_owned`, which `MidiFile::new` and `parse` call
unfoldable pub parse_owned : Bytes → PyResult MidiFile
parse_owned bytes = map_result (λ inner. record { inner = inner }) (parse_smf bytes)

unfoldable pub track_lengths : MidiFile → List ℕ
track_lengths file = map (λ range. range.len) file.inner.tracks

-- `slice::last`
unfoldable pub last : Bytes → Option ℕ
last [] = none
last (b ∷ []) = some b
last (b ∷ c ∷ bs) = last (c ∷ bs)

abbrev pub drop_framing : Bytes → Bytes
drop_framing [] = []
drop_framing (b ∷ bs) = if b == 0xf0 then bs else b ∷ bs

unfoldable pub drop_terminator : Bytes → Bytes
unfolding last
drop_terminator bytes = elim (last bytes) [
  | none ↦ bytes
  | some b ↦ if b == 0xf7 then take (length bytes - 1) bytes else bytes
]

unfoldable pub normalize_sysex : Bytes → Bytes
unfolding drop_terminator
normalize_sysex bytes = drop_terminator (drop_framing bytes)

-- The tuple of a record.
pub record EventTuple : Type 0 where
  pub track : ℕ
  pub delta_ticks : ℕ
  pub status : ℕ
  pub meta_type : Option ℕ
  pub payload : Bytes

-- `matches!(event.status(), 0xf0 | 0xf7)`
abbrev pub is_sysex : EventRecord → Bool
is_sysex event = event.status == 0xf0 || event.status == 0xf7

unfoldable pub event_tuple : ℕ → EventRecord → Bytes → EventTuple
unfolding normalize_sysex
event_tuple track event raw = record {
  track = track;
  delta_ticks = event.delta_ticks;
  status = if is_sysex event then 0xf0 else event.status;
  meta_type = meta_type event;
  payload = if is_sysex event then normalize_sysex raw else raw;
}

module _ (py : Interpreter) (smf : OwnedSmf) where
  -- `for (local_index, event) in events.iter().copied().enumerate()`
  unfoldable pub event_tuples :
      ℕ → ℕ → ℕ → List EventRecord → List EventTuple → PyResult (List EventTuple)
  unfolding event_tuple
  event_tuples track start local_index [] records = returned records
  event_tuples track start local_index (event ∷ events) records = do
    raw ← or_raise (event_data smf (start + local_index)) invalid_payload_range
    records1 ← py.append records (event_tuple track event raw)
    event_tuples track start (local_index + 1) events records1

  -- `for (track_index, track) in self.inner.tracks().iter().enumerate()`
  unfoldable pub track_tuples : ℕ → List TrackRange → List EventTuple → PyResult (List EventTuple)
  unfolding event_tuples
  track_tuples track_index [] records = returned records
  track_tuples track_index (track ∷ tracks) records = do
    start ←
        or_raise (if leb track.start usize_max then some track.start else none)
          track_start_too_large
    events ← or_raise (track_events smf track_index) invalid_track_range
    records1 ← event_tuples track_index start 0 events records
    track_tuples (track_index + 1) tracks records1

-- `MidiFile::semantic_records`
unfoldable pub midi_file_records : Interpreter → MidiFile → PyResult (List EventTuple)
unfolding track_tuples
midi_file_records py file = track_tuples py file.inner 0 file.inner.tracks []
