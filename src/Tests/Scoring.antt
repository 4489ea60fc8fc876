-- ===== src/Tests/Scoring.antt =====
-- The score parser on small files, its limits, and the theorems on the arena at concrete inputs.
use midi.Score.Order.{IsOrdered, parse_score_smf_impl-IsOrdered}
use midi.Score.Budget.File.{parse_score_smf_with_limits-parse_score_smf}
use midi.Score.Budget.{IsRefusal}
use midi.Score.Types.{TickNote}
use midi.Result.{Result, ◌>>=◌, ok, err, error_at, resource_limit_exceeded, events, ParseError}
use midi.Tests.Files.{short_file, full_file, tempo_file}
use midi.Prelude.{refl, from_le_bytes, to_le_bytes, Bytes, ℕ, List, ◌≡◌, length, ◌∷◌, [], ◌⊎◌}
use midi.Score.Notes.{
  note_row, row_time, row_duration, row_pitch, row_velocity, with_duration, row_note, timing_len,
  contains, promote_rows, promote, push, start_time, complete, has_dangling, compact_loop,
  compact_notes, into_segment, segment_get, segment_notes,
}
use midi.Score.Arena.{
  notes, text, track_notes, track_controls, track_pitch_bends, track_pedals, track_lyrics,
  push_note_segment, append_column, TickScore, empty_score,
}
use midi.Score.Text.{utf8_step, from_utf8, text_loop, push_text}
use midi.Score.Builder.{
  is_empty, pack_open_note_state, open_note_index, open_note_start, set_program,
  at_group_or_straggler, create_group, ensure_group,
}
use midi.Score.Builder.Open.{ensure_overflow_queue, add_note, end_note}
use midi.Score.Builder.Events.{add_lyric, add_control, add_pitch_bend, handle_pedal}
use midi.Score.Builder.Finish.{finish}
use midi.Score.Semantics.{
  push_tempo, push_time_signature, push_key_signature, validate_score_meta,
  validate_strict_division, start_note, change_control, channel, retain_text, push_name, push_lyric,
  push_marker, meta, check_nothing_left, handle_end_of_track,
}
use midi.Score.Parse.{
  read_first, read_second, read_score_channel_data, sort_by_key, sort_globals, score_channel_event,
  end_track, apply_meta, score_meta_event, score_sysex_event, score_arm, score_event, score_loop,
  check_end_of_track, parse_score_track, parse_score_tracks, check_division, score_header_fields,
  score_header, check_trailing, parse_score_smf_impl, parse_score_smf, parse_score_smf_with_limits,
  parse_score_smf_with_options,
}
use midi.Score.Limits.{
  limited_check_input, limited_check_source_tracks, limited_check_track_bytes, limited_charge_event,
  limited_charge_note_start, limited_check_text_append, ScoreParseOptions, unlimited_policy,
  default_limits, strict_mode, legacy_grammar,
}
use midi.Tests.Scanning.{run_scan, short_header}

-- The score parser with all that it calls.
unfoldable pub run_score : Bytes → Result TickScore
unfolding run_scan from_le_bytes to_le_bytes note_row row_time row_duration row_pitch row_velocity
    with_duration row_note timing_len contains promote_rows promote push start_time complete
    has_dangling compact_loop compact_notes into_segment segment_get segment_notes notes text
    track_notes track_controls track_pitch_bends track_pedals track_lyrics push_note_segment
    append_column utf8_step from_utf8 text_loop push_text is_empty pack_open_note_state
    open_note_index open_note_start set_program at_group_or_straggler create_group ensure_group
    ensure_overflow_queue add_note end_note add_lyric add_control add_pitch_bend handle_pedal finish
    push_tempo push_time_signature push_key_signature validate_score_meta validate_strict_division
    start_note change_control channel retain_text push_name push_lyric push_marker meta
    check_nothing_left handle_end_of_track read_first read_second read_score_channel_data
    sort_by_key sort_globals score_channel_event end_track apply_meta score_meta_event
    score_sysex_event score_arm score_event score_loop check_end_of_track parse_score_track
    parse_score_tracks check_division score_header_fields score_header check_trailing
    parse_score_smf_impl parse_score_smf parse_score_smf_with_limits parse_score_smf_with_options
    limited_check_input limited_check_source_tracks limited_check_track_bytes limited_charge_event
    limited_charge_note_start limited_check_text_append
run_score = parse_score_smf

-- The notes, the size of the text and the bytes consumed.
abbrev shown : TickScore → Result (List TickNote × ℕ × ℕ)
shown score = ok (notes score, length score.text_data, score.bytes_consumed)

abbrev pub note : ℕ → ℕ → ℕ → ℕ → TickNote
note time duration pitch velocity = record {
  time = time;
  duration = duration;
  pitch = pitch;
  velocity = velocity;
}

score_short : (parse_score_smf short_file >>= shown) ≡ ok (note 0 100 60 64 ∷ [], 0, 39)
unfolding run_score
score_short = refl

score_full :
    (parse_score_smf full_file >>= shown) ≡ ok (note 0 30 60 10 ∷ note 10 50 60 20 ∷ [], 4, 63)
unfolding run_score
score_full = refl

-- At most `count` events.
abbrev few_events : ℕ → ScoreParseOptions
few_events count = record {
  limits = record default_limits { max_events = count };
  mode = strict_mode;
}

score_few :
    parse_score_smf_with_options short_file (few_events 2)
    ≡ err (error_at 30 (resource_limit_exceeded events 2))
unfolding run_score
score_few = refl

parse_score_smf_with_limits-parse_score_smf_example :
    (parse_score_smf_with_limits full_file default_limits ≡ parse_score_smf full_file)
    ⊎ ((e : ParseError) × (parse_score_smf_with_limits full_file default_limits ≡ err e)
        × IsRefusal e)
parse_score_smf_with_limits-parse_score_smf_example =
    parse_score_smf_with_limits-parse_score_smf full_file default_limits

abbrev pub tempo_score : TickScore
tempo_score = record (empty_score short_header) {
  tempos =
      record { time = 0; microseconds_per_quarter = 500_000 }
      ∷ record { time = 5; microseconds_per_quarter = 66_051 }
      ∷ [];
  bytes_consumed = 36;
}

score_tempos : parse_score_smf_impl unlimited_policy legacy_grammar tempo_file tt ≡ ok tempo_score
unfolding run_score
score_tempos = refl

parse_score_smf_impl-IsOrdered_example : IsOrdered tempo_score
parse_score_smf_impl-IsOrdered_example =
    parse_score_smf_impl-IsOrdered unlimited_policy legacy_grammar tempo_file tt score_tempos
