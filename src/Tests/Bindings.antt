-- ===== src/Tests/Bindings.antt =====
-- The Python module on small files, with an interpreter that has memory.
use midi.Owned.{get_span}
use midi.Python.Getters.{
  score_track_count, score_note_count, score_tempo_count, score_note_count-score_records,
}
use midi.Score.Text.{replacement}
use midi.Python.Score.Records.{ShowsScore, parse_score_owned-score_records}
use midi.Score.Types.{control_change, control_time, control_number, control_value}
use midi.Tests.Files.{short_file, full_file}
use midi.Python.MidiFile.Records.{normalize_sysex-framed, TellAll, parse_owned-midi_file_records}
use midi.Tests.Ranges.{full_score}
use midi.Python.Score.Dicts.{ScoreRecord, score_records}
use midi.Tests.Scoring.{run_score}
use midi.Python.Score.{PyScore, parse_score_owned, strict_name}
use midi.Tests.Scanning.{run_parse, short_arena}
use midi.Python.MidiFile.{MidiFile, normalize_sysex, parse_owned, EventTuple, midi_file_records}
use midi.Prelude.{◌≡◌, refl, [], ◌∷◌, none, length, ◌++◌, List, arith, false}
use midi.Python.{Interpreter, HasMemory, returned}

abbrev plain : Interpreter
plain = record { append = λ xs x. returned (xs ++ (x ∷ [])); set_item = λ x. returned x }

plain-HasMemory : HasMemory plain
plain-HasMemory = record { appends = λ xs x. refl; stores = λ x. refl }

abbrev short_midi : MidiFile
short_midi = record { inner = short_arena }

parse_short_midi : parse_owned short_file ≡ returned short_midi
unfolding run_parse parse_owned
parse_short_midi = refl

parse_owned-midi_file_records_example :
    (rs : List EventTuple) × (midi_file_records plain short_midi ≡ returned rs)
    × (TellAll short_arena 0 rs × (length rs ≡ 4))
parse_owned-midi_file_records_example =
    parse_owned-midi_file_records plain short_file short_midi plain-HasMemory (omega arith)
      parse_short_midi

abbrev full_py_score : PyScore
full_py_score = record { inner = full_score }

parse_full_py_score : parse_score_owned full_file none strict_name ≡ returned full_py_score
unfolding run_score parse_score_owned control_change
parse_full_py_score = refl

parse_score_owned-score_records_example :
    (r : ScoreRecord) × (score_records plain (λ bytes. bytes) full_score ≡ returned r)
    × ShowsScore full_score r
parse_score_owned-score_records_example =
    parse_score_owned-score_records plain (λ bytes. bytes) full_file none strict_name full_py_score
      plain-HasMemory parse_full_py_score

normalize_sysex-framed_example : normalize_sysex (0xf0 ∷ 1 ∷ 2 ∷ 0xf7 ∷ []) ≡ 1 ∷ 2 ∷ []
normalize_sysex-framed_example = normalize_sysex-framed (1 ∷ 2 ∷ [])

abbrev full_records : ScoreRecord
full_records = record {
  tpq = 96;
  tracks =
      record {
        name = b'a' ∷ replacement;
        program = 5;
        is_drum = false;
        notes =
            record { time = 0; duration = 30; pitch = 60; velocity = 10 }
            ∷ record { time = 10; duration = 50; pitch = 60; velocity = 20 }
            ∷ [];
        controls =
            record { time = 60; number = 64; amount = 127 }
            ∷ record { time = 65; number = 64; amount = 0 }
            ∷ [];
        pitch_bends = [];
        pedals = record { time = 60; duration = 5 } ∷ [];
        lyrics = [];
      }
      ∷ [];
  time_signatures = [];
  key_signatures = [];
  tempos = record { time = 0; mspq = 500_000 } ∷ [];
  markers = [];
}

full_score_records : score_records plain (λ bytes. bytes) full_score ≡ returned full_records
unfolding run_score score_records control_time control_number control_value control_change get_span
full_score_records = refl

score_note_count-score_records_example :
    (score_track_count full_py_score ≡ 1)
    × (score_note_count full_py_score ≡ 2)
    × (score_tempo_count full_py_score ≡ 1)
score_note_count-score_records_example =
    score_note_count-score_records plain (λ bytes. bytes) full_file none strict_name full_py_score
      full_records plain-HasMemory parse_full_py_score full_score_records
