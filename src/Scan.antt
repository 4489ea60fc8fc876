-- ===== src/Scan.antt =====
-- The structural scan, `scan_smf`: one pass over all event boundaries, which only counts.
pub mod Span
pub mod Counts
use Prim.Native.Nat.{max}
use midi.Prelude.{
  ℕ, zero, suc, ◌+◌, ◌-◌, Option, none, some, Bytes, ◌==◌, usize_max, u64_max, true, false, length,
}
use midi.Result.{
  Result, ok, err, stuck, error_at, ok_or, checked_add, ◌>>=◌, ◌>>◌, size_overflow, invalid_status,
}
use midi.Cursor.{Cursor, absolute_offset, remaining, error, fits, read_u8, read_vlq, skip, new}
use midi.Smf.{
  Header, read_header, read_track_chunk, Status, read_status, classify, EventClass, channel_event,
  meta_event, sysex_event, invalid_event, channel_data_len, validate_first, read_data_byte,
}

pub record ScanSummary : Type 0 where
  pub header : Header
  pub events : ℕ
  pub channel_events : ℕ
  pub meta_events : ℕ
  pub sysex_events : ℕ
  pub payload_bytes : ℕ
  pub max_delta_ticks : ℕ
  pub bytes_consumed : ℕ
  pub trailing_bytes : ℕ

abbrev pub empty_summary : Header → ScanSummary
empty_summary header = record {
  header = header;
  events = 0;
  channel_events = 0;
  meta_events = 0;
  sysex_events = 0;
  payload_bytes = 0;
  max_delta_ticks = 0;
  bytes_consumed = 0;
  trailing_bytes = 0;
}

-- `for _ in already_read..data_len`
unfoldable pub scan_data_bytes : ℕ → Cursor → Result Cursor
scan_data_bytes zero c = ok c
scan_data_bytes (suc rounds) c = do (_, c1) ← read_data_byte c; scan_data_bytes rounds c1

abbrev pub already_read : Option ℕ → ℕ
already_read none = 0
already_read (some byte) = 1

unfoldable pub scan_channel_data : Cursor → Option ℕ → ℕ → Result Cursor
unfolding scan_data_bytes
scan_channel_data c first_data data_len = do
  validate_first c first_data
  scan_data_bytes (data_len - already_read first_data) c

-- The length of a meta or SysEx payload, which is skipped and added to the payload bytes.
unfoldable pub scan_payload : Cursor → ScanSummary → Result (Cursor × ScanSummary)
scan_payload c s = do
  (declared, c1) ← read_vlq c
  length ← fits usize_max c1 declared
  c2 ← skip length c1
  wide ← fits u64_max c2 length
  total ← ok_or (checked_add u64_max s.payload_bytes wide) (error c2 size_overflow)
  ok (c2, record s { payload_bytes = total })

-- The cursor, the running status and the summary behind an event.
abbrev pub Scanned : Type 0
Scanned = Cursor × Option ℕ × ScanSummary

-- The arms of `match status`, and `summary.events += 1` behind them.
unfoldable pub scan_arm : EventClass → Status → Cursor → ScanSummary → Result Scanned
scan_arm channel_event st c s = do
  c1 ← scan_channel_data c st.first_data (channel_data_len st.status)
  ok (
    c1,
    st.running_status,
    record s { channel_events = s.channel_events + 1; events = s.events + 1 },
  )
scan_arm meta_event st c s = do
  (_, c1) ← read_u8 c
  (c2, s2) ← scan_payload c1 s
  ok (c2, none, record s2 { meta_events = s2.meta_events + 1; events = s2.events + 1 })
scan_arm sysex_event st c s = do
  (c1, s1) ← scan_payload c s
  ok (c1, none, record s1 { sysex_events = s1.sysex_events + 1; events = s1.events + 1 })
scan_arm invalid_event st c s = err (error_at st.event_offset (invalid_status st.status))

-- One round of the loop of `scan_track`.
unfoldable pub scan_event : Cursor → Option ℕ → ScanSummary → Result Scanned
unfolding scan_arm
scan_event c running s = do
  (delta, c1) ← read_vlq c
  (st, c2) ← read_status c1 running
  scan_arm (classify st.status st.first_data) st c2
      (record s { max_delta_ticks = max s.max_delta_ticks delta })

-- `while cursor.remaining() != 0`. Every round takes two bytes at least.
unfoldable pub scan_loop : ℕ → Cursor → Option ℕ → ScanSummary → Result ScanSummary
scan_loop zero c running s = elim (remaining c == 0) [ true ↦ ok s | false ↦ stuck ]
scan_loop (suc fuel) c running s = elim (remaining c == 0) [
  | true ↦ ok s
  | false ↦ scan_event c running s >>= λ (c1, running1, s1). scan_loop fuel c1 running1 s1
]

unfoldable pub scan_track : Cursor → ScanSummary → Result ScanSummary
unfolding scan_loop
scan_track c s = scan_loop (remaining c) c none s

-- `for _ in 0..track_count`
unfoldable pub scan_tracks : ℕ → Cursor → ScanSummary → Result (Cursor × ScanSummary)
scan_tracks zero c s = ok (c, s)
scan_tracks (suc count) c s = do
  (track, c1) ← read_track_chunk c
  s1 ← scan_track track s
  scan_tracks count c1 s1

unfoldable pub scan_smf : Bytes → Result ScanSummary
unfolding scan_tracks
scan_smf input = do
  (header, c) ← read_header (new input 0)
  (c1, s) ← scan_tracks header.track_count c (empty_summary header)
  ok (record s { bytes_consumed = absolute_offset c1; trailing_bytes = remaining c1 })
