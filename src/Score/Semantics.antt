-- ===== src/Score/Semantics.antt =====
-- What the events of a source track do: ScoreTrackSemantics, the checks of meta events, and the
-- end of a track.
use midi.Prelude.{
  ℕ, ◌+◌, ◌-◌, ◌*◌, ◌/◌, ◌%◌, ◌^◌, ◌&&◌, ◌||◌, not, Bool, false, Option, none, some, [], ◌∷◌, ◌++◌,
  Bytes, ℤ, pos, negsuc, i8_from_byte, get_or, length, ltb, leb, ◌==◌, if◌then◌else◌,
}
use midi.Result.{
  Result, ok, err, error_at, ok_or, ◌>>=◌, invalid_meta_event, invalid_time_signature_denominator,
  invalid_end_of_track_length, event_after_end_of_track, invalid_ticks_per_quarter,
  invalid_smpte_division, ParseError,
}
use midi.Cursor.{Cursor, absolute_offset, remaining, skip}
use midi.Score.Limits.{ScoreParsePolicy, ScoreGrammar}
use midi.Score.Types.{TextRange}
use midi.Score.Arena.{TickScore}
use midi.Score.Text.{push_text}
use midi.Score.Builder.{ScoreTrackBuilder, set_program}
use midi.Score.Builder.Open.{end_note, add_note}
use midi.Score.Builder.Events.{add_control, handle_pedal, add_pitch_bend, add_lyric}

pub record ScoreTrackSemantics : Type 0 where
  pub builder : ScoreTrackBuilder
  pub score : TickScore
  pub name : TextRange

pub record ScoreMetaEvent : Type 0 where
  pub meta_type : ℕ
  pub length : ℕ
  pub payload : Bytes
  pub time : ℕ
  pub event_offset : ℕ

-- `(data[0] | data[1] << 7) - 8192` of two data bytes below 128
abbrev pub bend_value : ℕ → ℕ → ℤ
bend_value low high =
    let raw = low + high * 2 ^ 7 in if leb 8192 raw then pos (raw - 8192) else negsuc (8191 - raw)

-- `1_u64.checked_shl(exponent)`
abbrev pub checked_shl_one : ℕ → Option ℕ
checked_shl_one exponent = if ltb exponent 64 then some (2 ^ exponent) else none

-- Byte `i` of an array or a payload whose length was checked.
abbrev pub byte_at : Bytes → ℕ → ℕ
byte_at bytes i = get_or bytes i 0

abbrev bad_length : ScoreMetaEvent → ParseError
bad_length event = error_at event.event_offset (invalid_meta_event event.meta_type event.length)

abbrev bad_denominator : ScoreMetaEvent → ParseError
bad_denominator event =
    error_at event.event_offset (invalid_time_signature_denominator (byte_at event.payload 1))

abbrev with_builder : ScoreTrackSemantics → ScoreTrackBuilder → ScoreTrackSemantics
with_builder s b = record s { builder = b }

abbrev with_score : ScoreTrackSemantics → TickScore → ScoreTrackSemantics
with_score s score = record s { score = score }

unfoldable pub push_tempo : ScoreMetaEvent → ScoreTrackSemantics → Result ScoreTrackSemantics
push_tempo event s =
    if not (length event.payload == 3)
    then err (bad_length event)
    else ok (
        with_score s (record s.score {
          tempos =
              s.score.tempos
              ++ (record {
                time = event.time;
                microseconds_per_quarter =
                    byte_at event.payload 0 * 2 ^ 16
                    + byte_at event.payload 1 * 2 ^ 8
                    + byte_at event.payload 2;
              }
                  ∷ []);
        }))

unfoldable pub push_time_signature :
    ScoreMetaEvent → ScoreTrackSemantics → Result ScoreTrackSemantics
push_time_signature event s =
    if not (length event.payload == 4) then err (bad_length event) else (do
      denominator ← ok_or (checked_shl_one (byte_at event.payload 1)) (bad_denominator event)
      ok (
          with_score s (record s.score {
            time_signatures =
                s.score.time_signatures
                ++ (record {
                  time = event.time;
                  numerator = byte_at event.payload 0;
                  denominator = denominator;
                }
                    ∷ []);
          })))

unfoldable pub push_key_signature :
    ScoreMetaEvent → ScoreTrackSemantics → Result ScoreTrackSemantics
push_key_signature event s =
    if not (length event.payload == 2)
    then err (bad_length event)
    else ok (
        with_score s (record s.score {
          key_signatures =
              s.score.key_signatures
              ++ (record {
                time = event.time;
                key = i8_from_byte (byte_at event.payload 0);
                tonality = byte_at event.payload 1;
              }
                  ∷ []);
        }))

-- `validate_score_meta`
unfoldable pub validate_score_meta : ℕ → ℕ → Bytes → ℕ → Result (Unit {0})
validate_score_meta meta_type len payload event_offset =
    let invalid_length : Result (Unit {0}) =
      err (error_at event_offset (invalid_meta_event meta_type len)) in
    if meta_type == 0x51 && not (length payload == 3)
    then invalid_length
    else if meta_type == 0x58 && not (length payload == 4)
    then invalid_length
    else if meta_type == 0x58 && leb 64 (byte_at payload 1)
    then err (error_at event_offset (invalid_time_signature_denominator (byte_at payload 1)))
    else if meta_type == 0x59 && not (length payload == 2)
    then invalid_length
    else ok tt

-- -24, -25, -29 or -30 frames a second
abbrev pub is_smpte_rate : ℤ → Bool
is_smpte_rate (pos n) = false
is_smpte_rate (negsuc n) = n == 23 || n == 24 || n == 28 || n == 29

-- `validate_strict_division`, of a `u16`
unfoldable pub validate_strict_division : ℕ → ℕ → Result (Unit {0})
validate_strict_division division offset =
    if division / 2 ^ 15 == 0
    then (if not (division == 0) then ok tt else err (error_at offset invalid_ticks_per_quarter))
    else (let frames_per_second = i8_from_byte (division / 256) in
        let ticks_per_frame = division % 256 in
        if not (is_smpte_rate frames_per_second) || ticks_per_frame == 0
        then err (error_at offset (invalid_smpte_division frames_per_second ticks_per_frame))
        else ok tt)

module _ {P : Type 0} (policy : ScoreParsePolicy P) where
  open policy use {charge_event, charge_note_start}

  unfoldable pub start_note :
      ℕ → Bytes → ℕ → ℕ → P → Cursor → ScoreTrackSemantics → Result (P × ScoreTrackSemantics)
  start_note channel found time event_offset budget c s = do
    budget1 ← charge_note_start budget event_offset
    b ← add_note channel (byte_at found 0) (byte_at found 1) time s.builder c
    ok (budget1, with_builder s b)

  unfoldable pub change_control :
      ℕ → Bytes → ℕ → P → ScoreTrackSemantics → Result (P × ScoreTrackSemantics)
  change_control channel found time budget s =
      let b = add_control channel time (byte_at found 0) (byte_at found 1) s.builder in
      if byte_at found 0 == 64
      then (do b1 ← handle_pedal channel time (byte_at found 1) b; ok (budget, with_builder s b1))
      else ok (budget, with_builder s b)

  -- `ScoreTrackSemantics::channel`
  unfoldable pub channel :
      ℕ → Bytes → ℕ → ℕ → P → Cursor → ScoreTrackSemantics → Result (P × ScoreTrackSemantics)
  unfolding start_note change_control
  channel status found time event_offset budget c s =
      let number = status % 2 ^ 4 in
      let kind = status / 2 ^ 4 in
      if kind == 0x08
      then ok (budget, with_builder s (end_note number (byte_at found 0) time s.builder))
      else if kind == 0x09 && byte_at found 1 == 0
      then ok (budget, with_builder s (end_note number (byte_at found 0) time s.builder))
      else if kind == 0x09
      then start_note number found time event_offset budget c s
      else if kind == 0x0b
      then change_control number found time budget s
      else if kind == 0x0c
      then ok (budget, with_builder s (set_program number (byte_at found 0) s.builder))
      else if kind == 0x0e
      then ok (
        budget,
        with_builder s
            (add_pitch_bend number time (bend_value (byte_at found 0) (byte_at found 1)) s.builder),
      )
      else ok (budget, s)

  -- `self.score.push_text(…)`
  unfoldable pub retain_text :
      P → ScoreMetaEvent → Cursor → ScoreTrackSemantics → Result (TextRange × ScoreTrackSemantics)
  retain_text budget event c s = do
    (range, text_data) ←
        push_text policy budget event.event_offset s.score.text_data event.payload c
    ok (range, with_score s (record s.score { text_data = text_data }))

  unfoldable pub push_name :
      P → ScoreMetaEvent → Cursor → ScoreTrackSemantics → Result ScoreTrackSemantics
  push_name budget event c s = do
    (range, s1) ← retain_text budget event c s
    ok (record s1 { name = range })

  unfoldable pub push_lyric :
      P → ScoreMetaEvent → Cursor → ScoreTrackSemantics → Result ScoreTrackSemantics
  push_lyric budget event c s = do
    (range, s1) ← retain_text budget event c s
    b ← add_lyric event.time range s1.builder c
    ok (with_builder s1 b)

  unfoldable pub push_marker :
      P → ScoreMetaEvent → Cursor → ScoreTrackSemantics → Result ScoreTrackSemantics
  push_marker budget event c s = do
    (range, s1) ← retain_text budget event c s
    ok (
        with_score s1 (record s1.score {
          markers = s1.score.markers ++ (record { time = event.time; text = range } ∷ []);
        }))

  -- `ScoreTrackSemantics::meta`
  unfoldable pub meta :
      P → ScoreMetaEvent → Cursor → ScoreTrackSemantics → Result ScoreTrackSemantics
  unfolding retain_text push_name push_lyric push_marker push_tempo push_time_signature
      push_key_signature
  meta budget event c s =
      if event.meta_type == 0x03
      then push_name budget event c s
      else if event.meta_type == 0x05 && not (length event.payload == 0)
      then push_lyric budget event c s
      else if event.meta_type == 0x06 && not (length event.payload == 0)
      then push_marker budget event c s
      else if event.meta_type == 0x51
      then push_tempo event s
      else if event.meta_type == 0x58
      then push_time_signature event s
      else if event.meta_type == 0x59
      then push_key_signature event s
      else ok s

  module _ (grammar : ScoreGrammar) where
    open grammar use {require_end_of_track}

    unfoldable pub check_nothing_left : Cursor → Result Cursor
    check_nothing_left c =
        if require_end_of_track && not (remaining c == 0)
        then err (error_at (absolute_offset c) event_after_end_of_track)
        else if not require_end_of_track
        then skip (remaining c) c
        else ok c

    -- `handle_end_of_track`
    unfoldable pub handle_end_of_track : ℕ → ℕ → Cursor → P → Result (Cursor × P)
    unfolding check_nothing_left
    handle_end_of_track len event_offset c budget =
        if require_end_of_track && not (len == 0)
        then err (error_at event_offset (invalid_end_of_track_length len))
        else (do
          budget1 ← charge_event budget event_offset
          c1 ← check_nothing_left c
          ok (c1, budget1))
