-- ===== src/Python/Score.antt =====
-- ScoreParseLimits, Score, parse_score and parse_score_unlimited. A string is its UTF-8 bytes; the
-- standard library's `String::from_utf8_lossy` is a parameter.
pub mod Dicts
pub mod Rows
pub mod Records
use midi.Score.Notes.{segment_notes}
use midi.Score.Types.{
  TickNote, TickControlChange, TickPitchBend, TickPedal, TickTimeSignature, TickKeySignature,
  TickTempo, TextRange, TickText, TickTrack, control_time, control_number, control_value,
}
use midi.Score.Parse.{parse_score_smf_with_options, parse_score_smf}
use midi.Score.Limits.{
  ScoreParseLimits, ScoreParseMode, default_limits, compatible_mode, strict_mode,
}
use midi.Score.Arena.{
  TickScore, track_notes, track_controls, track_pitch_bends, track_pedals, track_lyrics,
}
use midi.Prelude.{
  ℕ, Option, none, some, List, [], ◌∷◌, ◌++◌, Bytes, ℤ, Bool, if◌then◌else◌, bytes_eq, ◌+◌,
}
use midi.Python.{
  PyResult, ◌>>=◌, map_result, Interpreter, returned, or_raise, invalid_text_range,
  invalid_note_range, invalid_control_range, invalid_pitch_bend_range, invalid_pedal_range,
  invalid_lyric_range, raised, unknown_mode,
}
use midi.Score.Arena

-- `ScoreParseLimits`
pub record PyScoreParseLimits : Type 0 where
  pub inner : ScoreParseLimits

-- `Option::unwrap_or`
abbrev unwrap_or : Option ℕ → ℕ → ℕ
unwrap_or none n = n
unwrap_or (some m) n = m

-- `ScoreParseLimits::new`; PyO3 fills in the default of an argument that is not given.
unfoldable pub new_limits :
    Option ℕ → Option ℕ → Option ℕ → Option ℕ → Option ℕ → Option ℕ → PyScoreParseLimits
new_limits input_bytes source_tracks track_bytes events note_starts text_bytes = record {
  inner = record {
    max_input_bytes = unwrap_or input_bytes default_limits.max_input_bytes;
    max_source_tracks = unwrap_or source_tracks default_limits.max_source_tracks;
    max_track_bytes = unwrap_or track_bytes default_limits.max_track_bytes;
    max_events = unwrap_or events default_limits.max_events;
    max_note_starts = unwrap_or note_starts default_limits.max_note_starts;
    max_text_bytes = unwrap_or text_bytes default_limits.max_text_bytes;
  };
}

pub record PyScore : Type 0 where
  pub inner : TickScore

abbrev pub compatible_name : Bytes
compatible_name = b'c' ∷ b'o' ∷ b'm' ∷ b'p' ∷ b'a' ∷ b't' ∷ b'i' ∷ b'b' ∷ b'l' ∷ b'e' ∷ []

abbrev pub strict_name : Bytes
strict_name = b's' ∷ b't' ∷ b'r' ∷ b'i' ∷ b'c' ∷ b't' ∷ []

unfoldable pub parse_score_mode : Bytes → PyResult ScoreParseMode
parse_score_mode mode =
    if bytes_eq mode compatible_name
    then returned compatible_mode
    else if bytes_eq mode strict_name
    then returned strict_mode
    else raised unknown_mode

-- `limits.map_or(CoreScoreParseLimits::DEFAULT, |limits| limits.inner)`
abbrev pub limits_or_default : Option PyScoreParseLimits → ScoreParseLimits
limits_or_default none = default_limits
limits_or_default (some limits) = limits.inner

-- `parse_score_owned`, which `Score::new` and `parse_score` call
unfoldable pub parse_score_owned : Bytes → Option PyScoreParseLimits → Bytes → PyResult PyScore
unfolding parse_score_mode
parse_score_owned bytes limits mode_name = do
  mode ← parse_score_mode mode_name
  map_result (λ inner. record { inner = inner })
      (parse_score_smf_with_options bytes
        (record { limits = limits_or_default limits; mode = mode }))

-- `parse_score_unlimited_owned`, which `parse_score_unlimited` calls
unfoldable pub parse_score_unlimited_owned : Bytes → PyResult PyScore
parse_score_unlimited_owned bytes =
    map_result (λ inner. record { inner = inner }) (parse_score_smf bytes)
