-- ===== src/Python/Getters.antt =====
-- The getters of MidiFile, ScoreParseLimits and Score, and `__len__`. Those of a field of
-- ScanSummary are the field.
use midi.Score.Arena.{notes}
use midi.Score.Ranges.Views.{length-notes}
use mathlib.Core.Path.{subst}
use midi.Score.Types.{TickTrack}
use midi.Python.Gives.{returned-injective}
use midi.Python.Score.Records.{parse_score_owned-IsScore, score_records-IsScore}
use midi.Python.Score.Rows.{all_notes, note_of, tempo_of}
use midi.Python.Score.Dicts.{ScoreRecord, score_records, TrackRecord}
use midi.Python.{Interpreter, HasMemory, returned}
use midi.Python.Score.{PyScoreParseLimits, PyScore, parse_score_owned}
use midi.Python.MidiFile.{format_number, MidiFile}
use midi.Prelude.{ℕ, length, Bytes, Option, ◌≡◌, sym, ◌∙◌, length-map, ap, map}

unfoldable pub file_format : MidiFile → ℕ
unfolding format_number
file_format file = format_number file.inner.header.format

unfoldable pub file_track_count : MidiFile → ℕ
file_track_count file = file.inner.header.track_count

unfoldable pub file_division : MidiFile → ℕ
file_division file = file.inner.header.division

-- `event_count` and `__len__`
unfoldable pub file_event_count : MidiFile → ℕ
file_event_count file = length file.inner.events

unfoldable pub file_bytes_consumed : MidiFile → ℕ
file_bytes_consumed file = file.inner.bytes_consumed

unfoldable pub file_trailing_bytes : MidiFile → ℕ
file_trailing_bytes file = file.inner.trailing_bytes

unfoldable pub limit_of_input_bytes : PyScoreParseLimits → ℕ
limit_of_input_bytes limits = limits.inner.max_input_bytes

unfoldable pub limit_of_source_tracks : PyScoreParseLimits → ℕ
limit_of_source_tracks limits = limits.inner.max_source_tracks

unfoldable pub limit_of_track_bytes : PyScoreParseLimits → ℕ
limit_of_track_bytes limits = limits.inner.max_track_bytes

unfoldable pub limit_of_events : PyScoreParseLimits → ℕ
limit_of_events limits = limits.inner.max_events

unfoldable pub limit_of_note_starts : PyScoreParseLimits → ℕ
limit_of_note_starts limits = limits.inner.max_note_starts

unfoldable pub limit_of_text_bytes : PyScoreParseLimits → ℕ
limit_of_text_bytes limits = limits.inner.max_text_bytes

unfoldable pub score_ticks_per_quarter : PyScore → ℕ
score_ticks_per_quarter score = score.inner.header.division

-- `track_count` and `__len__`
unfoldable pub score_track_count : PyScore → ℕ
score_track_count score = length score.inner.tracks

unfoldable pub score_note_count : PyScore → ℕ
score_note_count score = score.inner.note_count

unfoldable pub score_control_count : PyScore → ℕ
score_control_count score = length score.inner.controls

unfoldable pub score_pitch_bend_count : PyScore → ℕ
score_pitch_bend_count score = length score.inner.pitch_bends

unfoldable pub score_pedal_count : PyScore → ℕ
score_pedal_count score = length score.inner.pedals

unfoldable pub score_lyric_count : PyScore → ℕ
score_lyric_count score = length score.inner.lyrics

unfoldable pub score_time_signature_count : PyScore → ℕ
score_time_signature_count score = length score.inner.time_signatures

unfoldable pub score_key_signature_count : PyScore → ℕ
score_key_signature_count score = length score.inner.key_signatures

unfoldable pub score_tempo_count : PyScore → ℕ
score_tempo_count score = length score.inner.tempos

unfoldable pub score_marker_count : PyScore → ℕ
score_marker_count score = length score.inner.markers

unfoldable pub score_bytes_consumed : PyScore → ℕ
score_bytes_consumed score = score.inner.bytes_consumed

unfoldable pub score_trailing_bytes : PyScore → ℕ
score_trailing_bytes score = score.inner.trailing_bytes

-- The counts of a parsed score are those of its records: its tracks, their notes, and the tempos.
pub score_note_count-score_records :
    (py : Interpreter) (from_utf8_lossy : Bytes → Bytes) (bytes : Bytes)
    (limits : Option PyScoreParseLimits) (mode : Bytes) (score : PyScore) (records : ScoreRecord)
    → HasMemory py
    → parse_score_owned bytes limits mode ≡ returned score
    → score_records py from_utf8_lossy score.inner ≡ returned records
    → (score_track_count score ≡ length records.tracks)
      × (score_note_count score ≡ length (all_notes records.tracks))
      × (score_tempo_count score ≡ length records.tempos)
unfolding score_track_count score_note_count score_tempo_count
score_note_count-score_records py from_utf8_lossy bytes limits mode score records memory e built =
    let whole = parse_score_owned-IsScore bytes limits mode score e in
    let (r, runs, shows) = score_records-IsScore py from_utf8_lossy score.inner memory whole in
    let same : r ≡ records = returned-injective r records (sym runs ∙ built) in
    (
      sym (length-map (λ (t : TickTrack). t.program) score.inner.tracks)
          ∙ ap length (
              sym (
                subst
                  (λ u.
                    map (λ (t : TrackRecord). t.program) u.tracks
                    ≡ map (λ (t : TickTrack). t.program) score.inner.tracks)
                  same shows.programs))
          ∙ length-map (λ (t : TrackRecord). t.program) records.tracks,
      sym (length-notes score.inner whole)
          ∙ sym (length-map note_of (notes score.inner))
          ∙ ap length (
              sym (
                subst (λ u. all_notes u.tracks ≡ map note_of (notes score.inner)) same
                  shows.notes)),
      sym (length-map tempo_of score.inner.tempos)
          ∙ ap length
              (sym (subst (λ u. u.tempos ≡ map tempo_of score.inner.tempos) same shows.tempos)),
    )
