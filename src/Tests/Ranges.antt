-- ===== src/Tests/Ranges.antt =====
-- The ranges of a parsed score at a concrete file.
use midi.Score.Ceilings.File.{WithinLimits, parse_score_smf_with_options-WithinLimits}
use midi.Score.Budget.File.{limited_policy-IsBudget}
use midi.Score.Total.File.{parse_score_smf_impl-ne-stuck}
use midi.Score.Text.{replacement}
use midi.Score.Ranges.Views.{length-notes, Shows, track_views-IsScore}
use midi.Score.Limits.{
  unlimited_policy, legacy_grammar, limited_policy, strict_grammar, new_limited, default_limits,
  strict_mode,
}
use midi.Score.Parse.{parse_score_smf_impl, parse_score_smf_with_options}
use midi.Tests.Scanning.{short_header}
use midi.Score.Notes.{NoteTiming, narrow, timing_len}
use midi.Score.Ranges.{IsScore}
use midi.Score.Types.{TickTrack, control_change}
use midi.Prelude.{◌≡◌, refl, [], ◌∷◌, false, length, some, ◌≢◌, arith, get_elem?}
use midi.Score.Arena.{
  TickScore, empty_score, notes, track_notes, track_controls, track_pitch_bends, track_pedals,
  track_lyrics, text,
}
use midi.Result.{ok, stuck}
use midi.Tests.Files.{full_file}
use midi.Score.Ranges.Track.{parse_score_smf_impl-IsScore}
use midi.Tests.Scoring.{run_score}

abbrev pub full_track : TickTrack
full_track = record {
  source_track = 0;
  channel = 0;
  program = 5;
  is_drum = false;
  name = record { start = 0; len = 4 };
  notes = record { start = 0; len = 2 };
  controls = record { start = 0; len = 2 };
  pitch_bends = record { start = 0; len = 0 };
  pedals = record { start = 0; len = 1 };
  lyrics = record { start = 0; len = 0 };
}

-- The score of the file with a name that is not UTF-8, two notes of one pitch, and a pedal.
abbrev pub full_score : TickScore
full_score = record (empty_score short_header) {
  tracks = full_track ∷ [];
  note_segments =
      narrow (
        (0 ∷ 0 ∷ 0 ∷ 0 ∷ 30 ∷ 0 ∷ 0 ∷ 0 ∷ 60 ∷ 10 ∷ [])
        ∷ (10 ∷ 0 ∷ 0 ∷ 0 ∷ 50 ∷ 0 ∷ 0 ∷ 0 ∷ 60 ∷ 20 ∷ [])
        ∷ [])
      ∷ [];
  note_count = 2;
  controls = control_change 60 64 127 ∷ control_change 65 64 0 ∷ [];
  pedals = record { time = 60; duration = 5 } ∷ [];
  tempos = record { time = 0; microseconds_per_quarter = 500_000 } ∷ [];
  text_data = b'a' ∷ replacement;
  bytes_consumed = 63;
}

score_full_file : parse_score_smf_impl unlimited_policy legacy_grammar full_file tt ≡ ok full_score
unfolding run_score control_change
score_full_file = refl

parse_score_smf_impl-IsScore_example : IsScore full_score
parse_score_smf_impl-IsScore_example =
    parse_score_smf_impl-IsScore unlimited_policy legacy_grammar full_file tt full_score
      score_full_file

pub full_score-IsScore : IsScore full_score
full_score-IsScore =
    parse_score_smf_impl-IsScore unlimited_policy legacy_grammar full_file tt full_score
      score_full_file

track_views-IsScore_example :
    ((segment : NoteTiming) × (get_elem? full_score.note_segments 0 ≡ some segment)
      × (track_notes full_score 0 ≡ some segment)
      × (timing_len segment ≡ 2))
    × Shows full_score.controls 0 2 (track_controls full_score 0)
    × Shows full_score.pitch_bends 0 0 (track_pitch_bends full_score 0)
    × Shows full_score.pedals 0 1 (track_pedals full_score 0)
    × Shows full_score.lyrics 0 0 (track_lyrics full_score 0)
    × Shows full_score.text_data 0 4 (text full_score (record { start = 0; len = 4 }))
track_views-IsScore_example = track_views-IsScore full_score 0 full_track full_score-IsScore refl

length-notes_example : length (notes full_score) ≡ 2
length-notes_example = length-notes full_score full_score-IsScore

parse_score_smf_impl-ne-stuck_example :
    parse_score_smf_impl limited_policy strict_grammar full_file (new_limited default_limits)
    ≢ stuck
parse_score_smf_impl-ne-stuck_example =
    parse_score_smf_impl-ne-stuck limited_policy strict_grammar full_file
      (new_limited default_limits) limited_policy-IsBudget (omega arith)

score_full_strict :
    parse_score_smf_with_options full_file (record { limits = default_limits; mode = strict_mode })
    ≡ ok full_score
unfolding run_score control_change
score_full_strict = refl

parse_score_smf_with_options-WithinLimits_example : WithinLimits default_limits full_file full_score
parse_score_smf_with_options-WithinLimits_example =
    parse_score_smf_with_options-WithinLimits full_file
      (record { limits = default_limits; mode = strict_mode }) full_score score_full_strict
