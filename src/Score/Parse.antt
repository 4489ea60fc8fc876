-- ===== src/Score/Parse.antt =====
-- The score parser: the loop of one track, the frame of the file, and the public entry points.
use midi.Prelude.{
  ℕ, zero, suc, ◌+◌, ◌/◌, ◌^◌, ◌&&◌, ◌||◌, not, Bool, true, false, Option, none, some, List, [],
  ◌∷◌, Bytes, u64_max, usize_max, length, leb, ◌==◌, if◌then◌else◌,
}
use midi.Result.{
  Result, ok, err, stuck, error_at, ok_or, checked_add, ◌>>=◌, ◌>>◌, tick_overflow, invalid_status,
  missing_end_of_track, trailing_bytes, invalid_format,
}
use midi.Cursor.{
  Cursor, new, absolute_offset, remaining, fits, read_u8, read_u16, read_u32, read_tag, read_vlq,
  skip, take, take_cursor,
}
use midi.Smf.{
  Header, header_chunk, track_chunk, expect_tag, check_header_size, format_from, Status,
  read_status, EventClass, channel_event, meta_event, sysex_event, invalid_event, classify,
  validate_first, read_data_byte,
}
use midi.Score.Limits.{
  ScoreParsePolicy, ScoreGrammar, ScoreParseLimits, ScoreParseOptions, ScoreParseMode,
  compatible_mode, strict_mode, unlimited_policy, limited_policy, new_limited, legacy_grammar,
  compatible_grammar, strict_grammar,
}
use midi.Score.Types.{empty_text}
use midi.Score.Arena.{TickScore, empty_score}
use midi.Score.Builder.{new_builder}
use midi.Score.Builder.Finish.{finish}
use midi.Score.Semantics.{
  ScoreTrackSemantics, ScoreMetaEvent, channel, meta, validate_score_meta, validate_strict_division,
  handle_end_of_track,
}

unfoldable pub read_first : Cursor → Option ℕ → Result (ℕ × Cursor)
read_first c none = read_data_byte c
read_first c (some byte) = do validate_first c (some byte); ok (byte, c)

unfoldable pub read_second : ℕ → Cursor → Result (Bytes × Cursor)
read_second first c = do (second, c1) ← read_data_byte c; ok (first ∷ second ∷ [], c1)

-- `read_score_channel_data`
unfoldable pub read_score_channel_data : Cursor → Option ℕ → ℕ → Result (Bytes × Cursor)
unfolding read_first read_second
read_score_channel_data c first_data status = do
  (first, c1) ← read_first c first_data
  if status / 2 ^ 4 == 0x0c || status / 2 ^ 4 == 0x0d
      then ok (first ∷ 0 ∷ [], c1)
      else read_second first c1

-- `sort_by_key`, which is stable: an element goes in front of the later ones with its key.
module _ {A : Type 0} (key_of : A → ℕ) where
  unfoldable pub insert_by_key : A → List A → List A
  insert_by_key x [] = x ∷ []
  insert_by_key x (y ∷ ys) =
      if leb (key_of x) (key_of y) then x ∷ y ∷ ys else y ∷ insert_by_key x ys

  unfoldable pub sort_by_key : List A → List A
  unfolding insert_by_key
  sort_by_key [] = []
  sort_by_key (x ∷ xs) = insert_by_key x (sort_by_key xs)

unfoldable pub sort_globals : TickScore → TickScore
unfolding sort_by_key
sort_globals score = record score {
  tempos = sort_by_key (λ event. event.time) score.tempos;
  time_signatures = sort_by_key (λ event. event.time) score.time_signatures;
  key_signatures = sort_by_key (λ event. event.time) score.key_signatures;
  markers = sort_by_key (λ event. event.time) score.markers;
}

-- The variables of the loop of `parse_score_track`.
pub record TrackState (P : Type 0) : Type 0 where
  pub cursor : Cursor
  pub running_status : Option ℕ
  pub time : ℕ
  pub budget : P
  pub semantics : ScoreTrackSemantics

-- A round goes on, or leaves the loop by `break` at End-of-Track.
pub data Round (P : Type 0) : Type 0 where
  next : TrackState P → Round P
  ended : TrackState P → Round P

module _ {P : Type 0} (policy : ScoreParsePolicy P) (grammar : ScoreGrammar) where
  open policy use {check_input, check_source_tracks, check_track_bytes, charge_event}
  open grammar use {
    stop_at_end_of_track, require_end_of_track, validate_division, reject_trailing_bytes,
  }

  unfoldable pub score_channel_event :
      Status → Cursor → ℕ → P → ScoreTrackSemantics → Result (Round P)
  score_channel_event st c time budget s = do
    (found, c1) ← read_score_channel_data c st.first_data st.status
    budget1 ← charge_event budget st.event_offset
    (budget2, s1) ← channel policy st.status found time st.event_offset budget1 c1 s
    ok (
        next (record {
          cursor = c1;
          running_status = st.running_status;
          time = time;
          budget = budget2;
          semantics = s1;
        }))

  -- `handle_end_of_track` and `break`
  unfoldable pub end_track : ℕ → Status → Cursor → ℕ → P → ScoreTrackSemantics → Result (Round P)
  end_track len st c time budget s = do
    (c1, budget1) ← handle_end_of_track policy grammar len st.event_offset c budget
    ok (
        ended (record {
          cursor = c1;
          running_status = st.running_status;
          time = time;
          budget = budget1;
          semantics = s;
        }))

  unfoldable pub apply_meta : ScoreMetaEvent → Cursor → P → ScoreTrackSemantics → Result (Round P)
  apply_meta event c budget s = do
    validate_score_meta event.meta_type event.length event.payload event.event_offset
    budget1 ← charge_event budget event.event_offset
    s1 ← meta policy budget1 event c s
    ok (
        next (record {
          cursor = c;
          running_status = none;
          time = event.time;
          budget = budget1;
          semantics = s1;
        }))

  unfoldable pub score_meta_event : Status → Cursor → ℕ → P → ScoreTrackSemantics → Result (Round P)
  unfolding end_track apply_meta
  score_meta_event st c time budget s = do
    (meta_type, c1) ← read_u8 c
    (len, c2) ← read_vlq c1
    size ← fits usize_max c2 len
    (payload, c3) ← take size c2
    if stop_at_end_of_track && meta_type == 0x2f
        then end_track len st c3 time budget s
        else apply_meta
            (record {
              meta_type = meta_type;
              length = len;
              payload = payload;
              time = time;
              event_offset = st.event_offset;
            })
            c3 budget s

  unfoldable pub score_sysex_event :
      Status → Cursor → ℕ → P → ScoreTrackSemantics → Result (Round P)
  score_sysex_event st c time budget s = do
    (declared, c1) ← read_vlq c
    size ← fits usize_max c1 declared
    c2 ← skip size c1
    budget1 ← charge_event budget st.event_offset
    ok (
        next (record {
          cursor = c2;
          running_status = none;
          time = time;
          budget = budget1;
          semantics = s;
        }))

  unfoldable pub score_arm :
      EventClass → Status → Cursor → ℕ → P → ScoreTrackSemantics → Result (Round P)
  unfolding score_channel_event score_meta_event score_sysex_event
  score_arm channel_event = score_channel_event
  score_arm meta_event = score_meta_event
  score_arm sysex_event = score_sysex_event
  score_arm invalid_event =
      λ st c time budget s. err (error_at st.event_offset (invalid_status st.status))

  -- One round of the loop.
  unfoldable pub score_event : TrackState P → Result (Round P)
  unfolding score_arm
  score_event t = do
    (delta, c1) ← read_vlq t.cursor
    time ←
        ok_or (checked_add u64_max t.time delta) (error_at (absolute_offset t.cursor) tick_overflow)
    (st, c2) ← read_status c1 t.running_status
    score_arm (classify st.status st.first_data) st c2 time t.budget t.semantics

  -- `while cursor.remaining() != 0`; the flag is `saw_end_of_track`.
  unfoldable pub score_loop : ℕ → TrackState P → Result (Bool × TrackState P)
  score_loop zero t = elim (remaining t.cursor == 0) [ true ↦ ok (false, t) | false ↦ stuck ]
  score_loop (suc fuel) t = elim (remaining t.cursor == 0) [
    | true ↦ ok (false, t)
    | false ↦ score_event t >>= elim [ next t1 ↦ score_loop fuel t1 | ended t1 ↦ ok (true, t1) ]
  ]

  unfoldable pub check_end_of_track : Bool → Cursor → Result (Unit {0})
  check_end_of_track saw c =
      if require_end_of_track && not saw
      then err (error_at (absolute_offset c) missing_end_of_track)
      else ok tt

  -- `parse_score_track`
  unfoldable pub parse_score_track : Cursor → ℕ → TickScore → P → Result (TickScore × P)
  unfolding score_loop check_end_of_track
  parse_score_track c source_track score budget = do
    (saw, t) ← score_loop (remaining c) (record {
      cursor = c;
      running_status = none;
      time = 0;
      budget = budget;
      semantics = record { builder = new_builder; score = score; name = empty_text };
    })
    check_end_of_track saw t.cursor
    score1 ← finish source_track t.semantics.name t.cursor t.semantics.builder t.semantics.score
    ok (score1, t.budget)

  -- `for source_track in 0..header.track_count`, with `rounds` tracks to come
  unfoldable pub parse_score_tracks : ℕ → ℕ → Cursor → TickScore → P → Result (Cursor × TickScore)
  parse_score_tracks zero source_track c score budget = ok (c, score)
  parse_score_tracks (suc rounds) source_track c score budget = do
    (tag, c1) ← read_tag c
    expect_tag track_chunk (absolute_offset c) tag
    (declared, c2) ← read_u32 c1
    track_size ← fits usize_max c2 declared
    check_track_bytes budget track_size (absolute_offset c1)
    (track, c3) ← take_cursor track_size c2
    (score1, budget1) ← parse_score_track track source_track score budget
    parse_score_tracks rounds (source_track + 1) c3 score1 budget1

  unfoldable pub check_division : ℕ → ℕ → Result (Unit {0})
  check_division division offset =
      if validate_division then validate_strict_division division offset else ok tt

  unfoldable pub score_header_fields : Cursor → P → Result Header
  unfolding check_division format_from
  score_header_fields header_cursor budget = do
    (raw_format, c1) ← read_u16 header_cursor
    format ← ok_or (format_from raw_format) (error_at c1.base (invalid_format raw_format))
    (track_count, c2) ← read_u16 c1
    check_source_tracks budget track_count (absolute_offset c1)
    (division, c3) ← read_u16 c2
    check_division division (absolute_offset c2)
    ok (record { format = format; track_count = track_count; division = division })

  unfoldable pub score_header : Cursor → P → Result (Header × Cursor)
  unfolding score_header_fields
  score_header c budget = do
    (header_tag, c1) ← read_tag c
    expect_tag header_chunk 0 header_tag
    (declared, c2) ← read_u32 c1
    check_header_size (absolute_offset c1) declared
    header_size ← fits usize_max c2 declared
    (header_cursor, c3) ← take_cursor header_size c2
    header ← score_header_fields header_cursor budget
    ok (header, c3)

  unfoldable pub check_trailing : Cursor → Result (Unit {0})
  check_trailing c =
      if reject_trailing_bytes && not (remaining c == 0)
      then err (error_at (absolute_offset c) trailing_bytes)
      else ok tt

  -- `parse_score_smf_impl`
  unfoldable pub parse_score_smf_impl : Bytes → P → Result TickScore
  unfolding score_header parse_score_tracks check_trailing
  parse_score_smf_impl input budget = do
    check_input budget (length input)
    (header, c) ← score_header (new input 0) budget
    (c1, score) ← parse_score_tracks header.track_count 0 c (empty_score header) budget
    check_trailing c1
    ok (
        sort_globals
          (record score { bytes_consumed = absolute_offset c1; trailing_bytes = remaining c1 }))

unfoldable pub parse_score_smf : Bytes → Result TickScore
unfolding parse_score_smf_impl
parse_score_smf input = parse_score_smf_impl unlimited_policy legacy_grammar input tt

unfoldable pub parse_score_smf_with_limits : Bytes → ScoreParseLimits → Result TickScore
unfolding parse_score_smf_impl
parse_score_smf_with_limits input limits =
    parse_score_smf_impl limited_policy legacy_grammar input (new_limited limits)

-- The grammar that a mode selects.
abbrev pub grammar_of : ScoreParseMode → ScoreGrammar
grammar_of compatible_mode = compatible_grammar
grammar_of strict_mode = strict_grammar

unfoldable pub parse_score_smf_with_options : Bytes → ScoreParseOptions → Result TickScore
unfolding parse_score_smf_impl
parse_score_smf_with_options input options =
    parse_score_smf_impl limited_policy (grammar_of options.mode) input (new_limited options.limits)
