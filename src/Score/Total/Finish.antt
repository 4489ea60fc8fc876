-- ===== src/Score/Total/Finish.antt =====
-- The end of a track ends: each round over the programs of a channel clears one of at most 128 bits.
use midi.Result.{checked_add}
use midi.Score.Bits.{
  bit_room, count_ones, count_ones-le, bit_and-room, count_ones-none, count_ones-left,
}
use midi.Result.Yields.{Yields, value, loops, Yields-any}
use midi.Score.Total.Builder.{fits-Settles}
use midi.Score.Builder.{ScoreGroupBuilder, ScoreTrackBuilder, group_at, key, is_empty}
use midi.Score.Builder.Finish.{
  finish_group, finish_programs, finish_channels, finish, trailing_zeros,
}
use midi.Score.Notes.{NoteTiming, into_segment, timing_len}
use midi.Result.Settles.{Settles, Settles-bind, returned, Settles-Yields, ok_or-Settles}
use midi.Cursor.{Cursor}
use midi.Score.Types.{TextRange}
use midi.Score.Arena.{append_column, push_note_segment, TickScore}
use midi.Prelude.{
  ℕ, zero, suc, List, ◌<◌, u32_max, ◌≡◌, length, Bool-cases, ◌==◌, ◌≤◌, inl, ◌+◌, usize_max, inr,
  arith, ◌-◌, refl, false,
}

append_column-Settles :
    {A : Type 0} (output input : List A) (c : Cursor) → Settles (append_column output input c)
unfolding append_column
append_column-Settles output input c =
    Settles-bind (fits-Settles u32_max c (length output)) λ start _.
      Settles-bind (fits-Settles u32_max c (length input))
        λ len _. Settles-bind (ok_or-Settles (checked_add u32_max start len) _) λ _ _. returned _

push_note_segment-Settles :
    (score : TickScore) (segment : NoteTiming) (c : Cursor)
    → Settles (push_note_segment score segment c)
unfolding push_note_segment
push_note_segment-Settles score segment c =
    Settles-bind (fits-Settles u32_max c score.note_count) λ start _.
      Settles-bind (fits-Settles u32_max c (timing_len segment)) λ len _.
        Settles-bind (ok_or-Settles (checked_add u32_max start len) _)
          λ end _. Settles-bind (fits-Settles usize_max c end) λ _ _. returned _

positive : (n : ℕ) → (n == 0) ≡ false → 0 < n
positive n h = ground arith

module _ (source_track : ℕ) (name : TextRange) (c : Cursor) where
  finish_group-Settles :
      (g : ScoreGroupBuilder) (score : TickScore)
      → Settles (finish_group source_track name g c score)
  unfolding finish_group
  finish_group-Settles g score =
      Settles-bind (push_note_segment-Settles score (into_segment g.notes) c) λ (notes, score1) _.
        Settles-bind (append_column-Settles score1.controls g.controls c) λ _ _.
          Settles-bind (append_column-Settles score1.pitch_bends g.pitch_bends c) λ _ _.
            Settles-bind (append_column-Settles score1.pedals g.pedals c)
              λ _ _. Settles-bind (append_column-Settles score1.lyrics g.lyrics c) λ _ _. returned _

  -- The set of a channel's programs is not changed by the rounds.
  finish_programs-active :
      (fuel channel programs : ℕ) (b : ScoreTrackBuilder) (score : TickScore)
      → Yields
          (λ x. x.0.active_programs ≡ b.active_programs)
          (finish_programs source_track name c fuel channel programs b score)
  unfolding finish_programs
  finish_programs-active zero channel programs b score = elim (Bool-cases (programs == 0)) [
    | inl done ↦ rw (finish_programs, done) (value _ refl)
    | inr more ↦ rw (finish_programs, more) loops
  ]
  finish_programs-active (suc fuel) channel programs b score = elim (Bool-cases (programs == 0)) [
    | inl done ↦ rw (finish_programs, done) (value _ refl)
    | inr more ↦
        let g = group_at b (b.groups_by_key (key channel (trailing_zeros 128 programs))) in
        elim (Bool-cases (is_empty g)) [
          | inl nothing ↦
              rw (finish_programs, more, nothing) (finish_programs-active fuel channel _ _ score)
          | inr filled ↦
              rw (finish_programs, more, filled)
                (Yields-any (finish_group source_track name g c score)
                  λ score1 _. finish_programs-active fuel channel _ _ score1)
        ]
  ]

  finish_programs-Settles :
      (fuel channel programs : ℕ) (b : ScoreTrackBuilder) (score : TickScore)
      → programs < bit_room 128
      → count_ones 128 programs ≤ fuel
      → Settles (finish_programs source_track name c fuel channel programs b score)
  unfolding finish_programs
  finish_programs-Settles zero channel programs b score h k = elim (Bool-cases (programs == 0)) [
    | inl done ↦ rw (finish_programs, done) (returned _)
    | inr more ↦ absurd (count_ones-none 128 programs (positive programs more) h k)
  ]
  finish_programs-Settles (suc fuel) channel programs b score h k =
      elim (Bool-cases (programs == 0)) [
        | inl done ↦ rw (finish_programs, done) (returned _)
        | inr more ↦
            let g = group_at b (b.groups_by_key (key channel (trailing_zeros 128 programs))) in
            let fewer = count_ones-left 128 programs fuel (positive programs more) h k in
            let left = bit_and-room 128 programs (programs - 1) h in
            elim (Bool-cases (is_empty g)) [
              | inl nothing ↦
                  rw (finish_programs, more, nothing)
                    (finish_programs-Settles fuel channel _ _ score left fewer)
              | inr filled ↦
                  rw (finish_programs, more, filled)
                    (Settles-bind (finish_group-Settles g score)
                      λ score1 _. finish_programs-Settles fuel channel _ _ score1 left fewer)
            ]
      ]

  finish_channels-Settles :
      (rounds channel : ℕ) (b : ScoreTrackBuilder) (score : TickScore)
      → ((i : ℕ) → b.active_programs i < bit_room 128)
      → Settles (finish_channels source_track name c rounds channel b score)
  unfolding finish_channels
  finish_channels-Settles zero channel b score h = returned _
  finish_channels-Settles (suc rounds) channel b score h =
      Settles-Yields
        (finish_programs-Settles 128 channel (b.active_programs channel) b score (h channel)
          (count_ones-le 128 (b.active_programs channel)))
        (finish_programs-active 128 channel (b.active_programs channel) b score)
        λ (b1, score1) e. finish_channels-Settles rounds (channel + 1) b1 score1 (λ i. rw e (h i))

  pub finish-Settles :
      (b : ScoreTrackBuilder) (score : TickScore)
      → ((i : ℕ) → b.active_programs i < bit_room 128)
      → Settles (finish source_track name c b score)
  unfolding finish
  finish-Settles b score h = finish_channels-Settles 16 0 b score h
