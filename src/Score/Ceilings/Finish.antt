-- ===== src/Score/Ceilings/Finish.antt =====
-- The end of a track leaves the header and the text of the score alone.
use midi.Result.{ok_or, checked_add}
use midi.Score.Builder.{ScoreGroupBuilder, ScoreTrackBuilder, group_at, key, is_empty}
use midi.Score.Builder.Finish.{
  finish_group, finish_programs, finish_channels, finish, trailing_zeros,
}
use midi.Result.Yields.{Yields, Yields-any, Yields-bind, value, Yields-weaken, loops}
use midi.Cursor.{Cursor, fits}
use midi.Score.Notes.{NoteTiming, into_segment, timing_len}
use midi.Score.Types.{TextRange}
use midi.Score.Arena.{TickScore, push_note_segment, append_column}
use midi.Prelude.{ℕ, zero, suc, refl, ◌≡◌, ◌∙◌, Bool-cases, u32_max, ◌==◌, inl, ◌+◌, inr, usize_max}

-- The end of a track leaves the header and the text alone.
abbrev Untouched : TickScore → TickScore → Type 0
Untouched score out = (out.header ≡ score.header) × (out.text_data ≡ score.text_data)

Untouched-trans : (s t u : TickScore) → Untouched s t → Untouched t u → Untouched s u
Untouched-trans s t u h k = (k.0 ∙ h.0, k.1 ∙ h.1)

push_note_segment-Untouched :
    (score : TickScore) (segment : NoteTiming) (c : Cursor)
    → Yields (λ x. Untouched score x.1) (push_note_segment score segment c)
unfolding push_note_segment
push_note_segment-Untouched score segment c =
    Yields-any (fits u32_max c score.note_count) λ start _.
      Yields-any (fits u32_max c (timing_len segment)) λ len _.
        Yields-any (ok_or (checked_add u32_max start len) _)
          λ end _. Yields-any (fits usize_max c end) λ _ _. value _ (refl, refl)

module _ (source_track : ℕ) (name : TextRange) (c : Cursor) where
  finish_group-Untouched :
      (g : ScoreGroupBuilder) (score : TickScore)
      → Yields (Untouched score) (finish_group source_track name g c score)
  unfolding finish_group
  finish_group-Untouched g score =
      Yields-bind (push_note_segment-Untouched score (into_segment g.notes) c) λ (notes, score1) h.
        Yields-any (append_column score1.controls g.controls c) λ _ _.
          Yields-any (append_column score1.pitch_bends g.pitch_bends c) λ _ _.
            Yields-any (append_column score1.pedals g.pedals c)
              λ _ _. Yields-any (append_column score1.lyrics g.lyrics c) λ _ _. value _ h

  finish_programs-Untouched :
      (fuel channel programs : ℕ) (b : ScoreTrackBuilder) (score : TickScore)
      → Yields
          (λ x. Untouched score x.1)
          (finish_programs source_track name c fuel channel programs b score)
  unfolding finish_programs
  finish_programs-Untouched zero channel programs b score = elim (Bool-cases (programs == 0)) [
    | inl done ↦ rw (finish_programs, done) (value _ (refl, refl))
    | inr more ↦ rw (finish_programs, more) loops
  ]
  finish_programs-Untouched (suc fuel) channel programs b score =
      elim (Bool-cases (programs == 0)) [
        | inl done ↦ rw (finish_programs, done) (value _ (refl, refl))
        | inr more ↦
            let g = group_at b (b.groups_by_key (key channel (trailing_zeros 128 programs))) in
            elim (Bool-cases (is_empty g)) [
              | inl nothing ↦
                  rw (finish_programs, more, nothing)
                    (finish_programs-Untouched fuel channel _ _ score)
              | inr filled ↦
                  rw (finish_programs, more, filled)
                    (Yields-bind (finish_group-Untouched g score) λ score1 h.
                      Yields-weaken (λ x k. Untouched-trans score score1 x.1 h k)
                        (finish_programs-Untouched fuel channel _ _ score1))
            ]
      ]

  finish_channels-Untouched :
      (rounds channel : ℕ) (b : ScoreTrackBuilder) (score : TickScore)
      → Yields (Untouched score) (finish_channels source_track name c rounds channel b score)
  unfolding finish_channels
  finish_channels-Untouched zero channel b score = value _ (refl, refl)
  finish_channels-Untouched (suc rounds) channel b score =
      Yields-bind (finish_programs-Untouched 128 channel (b.active_programs channel) b score)
        λ (b1, score1) h.
          Yields-weaken (λ out k. Untouched-trans score score1 out h k)
            (finish_channels-Untouched rounds (channel + 1) b1 score1)

  pub finish-Untouched :
      (b : ScoreTrackBuilder) (score : TickScore)
      → Yields (Untouched score) (finish source_track name c b score)
  unfolding finish
  finish-Untouched b score = finish_channels-Untouched 16 0 b score
