-- ===== src/Score/Builder/Finish.antt =====
-- ScoreTrackBuilder::finish: the groups become tracks of the score, by channel and program.
use Prim.Native.Nat.{bit_and}
use midi.Prelude.{ℕ, zero, suc, ◌+◌, ◌-◌, ◌/◌, ◌%◌, true, false, [], ◌∷◌, ◌++◌, ◌==◌, if◌then◌else◌}
use midi.Result.{Result, ok, stuck, ◌>>=◌}
use midi.Cursor.{Cursor}
use midi.Score.Types.{TextRange}
use midi.Score.Notes.{into_segment}
use midi.Score.Arena.{TickScore, push_note_segment, append_column}
use midi.Score.Builder.{
  ScoreGroupBuilder, new_group, is_empty, ScoreTrackBuilder, key, group_at, with_group,
}

-- `u128::trailing_zeros` of a number that is not 0, with `fuel` bits to look at.
unfoldable pub trailing_zeros : ℕ → ℕ → ℕ
trailing_zeros zero n = 0
trailing_zeros (suc fuel) n =
    let above = trailing_zeros fuel (n / 2) in if n % 2 == 0 then suc above else 0

-- A group's columns go to the score, and its track names their ranges.
unfoldable pub finish_group :
    ℕ → TextRange → ScoreGroupBuilder → Cursor → TickScore → Result TickScore
finish_group source_track name g c score = do
  (notes, score1) ← push_note_segment score (into_segment g.notes) c
  (controls, all_controls) ← append_column score1.controls g.controls c
  (pitch_bends, all_bends) ← append_column score1.pitch_bends g.pitch_bends c
  (pedals, all_pedals) ← append_column score1.pedals g.pedals c
  (lyrics, all_lyrics) ← append_column score1.lyrics g.lyrics c
  ok (record score1 {
    controls = all_controls;
    pitch_bends = all_bends;
    pedals = all_pedals;
    lyrics = all_lyrics;
    tracks =
        score1.tracks
        ++ (record {
          source_track = source_track;
          channel = g.channel;
          program = g.program;
          is_drum = g.channel == 9;
          name = name;
          notes = notes;
          controls = controls;
          pitch_bends = pitch_bends;
          pedals = pedals;
          lyrics = lyrics;
        }
            ∷ []);
  })

module _ (source_track : ℕ) (name : TextRange) (c : Cursor) where
  -- `while programs != 0`, over the programs of a channel from the lowest bit up. A bitset of 128
  -- bits has 128 rounds at most.
  unfoldable pub finish_programs :
      ℕ → ℕ → ℕ → ScoreTrackBuilder → TickScore → Result (ScoreTrackBuilder × TickScore)
  finish_programs zero channel programs b score = elim (programs == 0) [
    | true ↦ ok (b, score)
    | false ↦ stuck
  ]
  finish_programs (suc fuel) channel programs b score = elim (programs == 0) [
    | true ↦ ok (b, score)
    | false ↦
        let program = trailing_zeros 128 programs in
        let group_index = b.groups_by_key (key channel program) in
        let g = group_at b group_index in
        let b1 = with_group b group_index (new_group 0 0) in
        let rest = bit_and programs (programs - 1) in
        elim (is_empty g) [
          | true ↦ finish_programs fuel channel rest b1 score
          | false ↦ finish_group source_track name g c score >>= λ score1.
              finish_programs fuel channel rest b1 score1
        ]
  ]

  -- `for channel in 0..16`, with `rounds` channels to come
  unfoldable pub finish_channels : ℕ → ℕ → ScoreTrackBuilder → TickScore → Result TickScore
  finish_channels zero channel b score = ok score
  finish_channels (suc rounds) channel b score = do
    (b1, score1) ← finish_programs 128 channel (b.active_programs channel) b score
    finish_channels rounds (channel + 1) b1 score1

  unfoldable pub finish : ScoreTrackBuilder → TickScore → Result TickScore
  unfolding finish_channels finish_programs finish_group trailing_zeros
  finish = finish_channels 16 0
