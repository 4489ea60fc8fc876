-- ===== src/Tests/Scanning.antt =====
-- The scanner, the arena parser and the quantities of a track.
use midi.Owned.Views.{event_data-IsArena, track_events-IsArena, IsEventData}
use midi.Owned.Arena.{IsArena, parse_smf-IsArena}
use midi.Cursor.Vlq.{between, write_vlq, read_vlq-septets, read_vlq-too_long, read_vlq-write_vlq}
use midi.Owned.Agree.{parse_smf-scan_smf}
use midi.Owned.Data.{Agrees}
use midi.Cursor.{read_vlq, read_u8, read_u16, read_u32, read_tag, take, skip, take_cursor}
use midi.Result.Lockstep.{Answers}
use midi.Smf.{
  read_header, read_track_chunk, read_status, resolve_status, expect_tag, classify,
  channel_data_len, validate_first, read_data_byte, Header, validate_data_byte, single_track,
}
use midi.Prelude.{
  ℕ, ◌≡◌, ◌≢◌, ◌≤◌, refl, [], ◌∷◌, arith, length, Bytes, ◌++◌, from_be_bytes, slice, get_elem?,
  some, ◌+◌,
}
use midi.Result.{
  ok, err, stuck, error_at, running_status_missing, variable_length_quantity_too_long, Result,
}
use midi.Scan.{scan_smf, scan_track, scan_event, scan_payload, scan_channel_data, ScanSummary}
use midi.Scan.Counts.{Accounts, scan_smf-ne-stuck, scan_smf-Accounts, scan_smf_error_offset}
use midi.Owned.{
  parse_smf, skip_header, EventRecord, skip_to_track, parse_track, parse_event, parse_payload,
  read_channel_data, OwnedSmf, TrackRange, track_events, event_data,
}
use midi.Tests.Files.{short_file, bad_file}

-- The scan with all that it calls.
unfoldable pub run_scan : Bytes → Result ScanSummary
unfolding scan_smf scan_track scan_event scan_payload scan_channel_data read_header read_track_chunk
    read_status resolve_status expect_tag classify channel_data_len validate_first read_data_byte
    validate_data_byte read_u8 read_u16 read_u32 read_tag read_vlq take skip take_cursor
    from_be_bytes slice
run_scan = scan_smf

-- The arena parser with all that it calls.
unfoldable pub run_parse : Bytes → Result OwnedSmf
unfolding run_scan parse_smf skip_header skip_to_track parse_track parse_event parse_payload
    read_channel_data
run_parse = parse_smf

abbrev pub short_header : Header
short_header = record { format = single_track; track_count = 1; division = 96 }

abbrev short_summary : ScanSummary
short_summary = record {
  header = short_header;
  events = 4;
  channel_events = 2;
  meta_events = 2;
  sysex_events = 0;
  payload_bytes = 2;
  max_delta_ticks = 100;
  bytes_consumed = 39;
  trailing_bytes = 0;
}

scan_short : scan_smf short_file ≡ ok short_summary
unfolding run_scan
scan_short = refl

scan_bad : scan_smf bad_file ≡ err (error_at 23 running_status_missing)
unfolding run_scan
scan_bad = refl

abbrev channel_record : ℕ → Bytes → EventRecord
channel_record delta found = record {
  delta_ticks = delta;
  payload_start = 0;
  payload_len = 2;
  channel_data = found;
  status = 0x90;
  auxiliary = 0;
}

abbrev meta_record : ℕ → ℕ → ℕ → EventRecord
meta_record start len auxiliary = record {
  delta_ticks = 0;
  payload_start = start;
  payload_len = len;
  channel_data = 0 ∷ 0 ∷ [];
  status = 0xff;
  auxiliary = auxiliary;
}

abbrev pub short_arena : OwnedSmf
short_arena = record {
  header = short_header;
  tracks = record { start = 0; len = 4 } ∷ [];
  events =
      channel_record 0 (60 ∷ 64 ∷ [])
      ∷ channel_record 100 (60 ∷ 0 ∷ [])
      ∷ meta_record 0 2 1
      ∷ meta_record 2 0 0x2f
      ∷ [];
  payloads = b'h' ∷ b'i' ∷ [];
  bytes_consumed = 39;
  trailing_bytes = 0;
}

parse_short : parse_smf short_file ≡ ok short_arena
unfolding run_parse
parse_short = refl

scan_smf-ne-stuck_example : scan_smf short_file ≢ stuck
scan_smf-ne-stuck_example = scan_smf-ne-stuck short_file (omega arith)

scan_smf_error_offset_example : 23 ≤ length bad_file
scan_smf_error_offset_example = scan_smf_error_offset bad_file (omega arith) scan_bad

scan_smf-Accounts_example : Accounts short_file short_summary
scan_smf-Accounts_example = scan_smf-Accounts short_file (omega arith) scan_short

parse_smf-scan_smf_example : Answers Agrees (scan_smf short_file) (parse_smf short_file)
parse_smf-scan_smf_example = parse_smf-scan_smf short_file (omega arith)

read_vlq-write_vlq_example :
    read_vlq (between (7 ∷ []) (write_vlq 300 ++ (0x90 ∷ [])) 22)
    ≡ ok (300, between (7 ∷ write_vlq 300) (0x90 ∷ []) 22)
read_vlq-write_vlq_example = read_vlq-write_vlq 300 (7 ∷ []) (0x90 ∷ []) 22 (omega arith)

read_vlq-too_long_example :
    read_vlq (between [] (0x81 ∷ 0x82 ∷ 0x83 ∷ 0x84 ∷ 0 ∷ []) 30)
    ≡ err (error_at 30 variable_length_quantity_too_long)
read_vlq-too_long_example =
    read_vlq-too_long [] (0x81 ∷ 0x82 ∷ 0x83 ∷ 0x84 ∷ []) (0 ∷ []) 30 (omega arith) refl

read_vlq-septets_example :
    read_vlq (between [] (0x80 ∷ 0x81 ∷ 5 ∷ 9 ∷ []) 30)
    ≡ ok (133, between (0x80 ∷ 0x81 ∷ 5 ∷ []) (9 ∷ []) 30)
read_vlq-septets_example =
    read_vlq-septets [] (0x80 ∷ 0x81 ∷ []) 5 (9 ∷ []) 30 (omega arith) (omega arith) (omega arith)

parse_smf-IsArena_example : IsArena short_arena
parse_smf-IsArena_example = parse_smf-IsArena short_file parse_short

track_events-IsArena_example :
    (r : TrackRange) × (get_elem? short_arena.tracks 0 ≡ some r)
    × (track_events short_arena 0 ≡ some (slice short_arena.events r.start (r.start + r.len)))
    × (length (slice short_arena.events r.start (r.start + r.len)) ≡ r.len)
track_events-IsArena_example =
    track_events-IsArena short_arena 0 (parse_smf-IsArena short_file parse_short) (omega arith)
      (omega arith)

event_data-IsArena_example :
    (event : EventRecord) × (bytes : Bytes) × (get_elem? short_arena.events 2 ≡ some event)
    × (event_data short_arena 2 ≡ some bytes)
    × (length bytes ≡ event.payload_len)
    × IsEventData short_arena event bytes
event_data-IsArena_example =
    event_data-IsArena short_arena 2 (parse_smf-IsArena short_file parse_short) (omega arith)
