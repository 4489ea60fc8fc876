-- ===== src/Score/Ranges/Finish.antt =====
-- The end of a track keeps the ranges of a score in order.
use Prim.Native.Nat.{zero}
use midi.Score.Ranges.Builder.{IsKept, IsKept-with_group, IsKept-group_at}
use midi.Cursor.Yields.{fits-Yields, checked_add-Yields}
use midi.Score.Builder.{
  ScoreGroupBuilder, ScoreTrackBuilder, key, group_at, with_group, new_group, is_empty,
}
use midi.Score.Builder.Finish.{
  finish_group, finish_programs, finish_channels, finish, trailing_zeros,
}
use midi.Result.Yields.{Yields, Yields-bind, value, loops}
use midi.Score.Ranges.{Tiles, Segments, IsScore, InText}
use midi.Cursor.{Cursor}
use midi.Score.Notes.{NoteTiming, timing_len, into_segment}
use midi.Score.Arena.{append_column, push_note_segment, TickScore}
use midi.Score.Types.{TickTrack, TextRange, ScoreRange}
use midi.Prelude.{
  ℕ, ◌+◌, List, ◌≡◌, ◌++◌, length, ◌≤◌, u32_max, ◌∷◌, [], All, ◌∙◌, sym, usize_max, arith,
  length-append, refl, All-append, Bytes, Bool-cases, suc, ◌==◌, inl, inr,
}

Tiles-append :
    (range : TickTrack → ScoreRange) (start : ℕ) (ts : List TickTrack) (end : ℕ) (t : TickTrack)
    → Tiles range start ts end
    → (range t).start ≡ end
    → Tiles range start (ts ++ (t ∷ [])) (end + (range t).len)
Tiles-append range start [] end t h e = (e ∙ sym h, rw h refl)
Tiles-append range start (x ∷ ts) end t h e =
    (h.0, Tiles-append range (start + (range x).len) ts end t h.1 e)

Segments-append :
    (ts : List TickTrack) (segments : List NoteTiming) (t : TickTrack) (segment : NoteTiming)
    → Segments ts segments
    → timing_len segment ≡ t.notes.len
    → Segments (ts ++ (t ∷ [])) (segments ++ (segment ∷ []))
Segments-append [] [] t segment h e = (e, tt)
Segments-append [] (x ∷ xs) t segment h e = absurd h
Segments-append (y ∷ ys) [] t segment h e = absurd h
Segments-append (y ∷ ys) (x ∷ xs) t segment h e = (h.0, Segments-append ys xs t segment h.1 e)

append_column-Yields :
    {A : Type 0} (output input : List A) (c : Cursor)
    → Yields
        (λ (range, all).
          (range.start ≡ length output)
          × (all ≡ output ++ input)
          × (length all ≡ range.start + range.len)
          × (range.start + range.len ≤ u32_max))
        (append_column output input c)
unfolding append_column
append_column-Yields output input c = Yields-bind (fits-Yields u32_max c (length output)) λ start h.
    Yields-bind (fits-Yields u32_max c (length input)) λ len k.
      Yields-bind (checked_add-Yields u32_max start len _) λ end l.
        value _
          (h.0, refl, omega (arith, length-append output input, h.0, k.0), omega (arith, l.0, l.1))

push_note_segment-Yields :
    (score : TickScore) (segment : NoteTiming) (c : Cursor)
    → Yields
        (λ (range, out).
          (range.start ≡ score.note_count)
          × (timing_len segment ≡ range.len)
          × (range.start + range.len ≤ u32_max)
          × (out ≡ record score {
            note_count = range.start + range.len;
            note_segments = score.note_segments ++ (segment ∷ []);
          }))
        (push_note_segment score segment c)
unfolding push_note_segment
push_note_segment-Yields score segment c =
    Yields-bind (fits-Yields u32_max c score.note_count) λ start h.
      Yields-bind (fits-Yields u32_max c (timing_len segment)) λ len k.
        Yields-bind (checked_add-Yields u32_max start len _) λ end l.
          Yields-bind (fits-Yields usize_max c end)
            λ count m. value _ (h.0, sym k.0, omega (arith, l.0, l.1), rw (m.0, l.0) refl)

-- A column that has grown from `old` to `all` rows is tiled up to its new end.
Tiles-grown :
    (range : TickTrack → ScoreRange) (ts : List TickTrack) (old all : ℕ) (t : TickTrack)
    → Tiles range 0 ts old
    → (range t).start ≡ old
    → all ≡ (range t).start + (range t).len
    → Tiles range 0 (ts ++ (t ∷ [])) all
Tiles-grown range ts old all t h e k = rw (k, e) (Tiles-append range 0 ts old t h e)

module _ (source_track : ℕ) (name : TextRange) (c : Cursor) where
  finish_group-IsScore :
      (g : ScoreGroupBuilder) (score : TickScore)
      → IsScore score
      → InText (length score.text_data) name
      → All (λ e. InText (length score.text_data) e.text) g.lyrics
      → Yields
          (λ out. IsScore out × (out.text_data ≡ score.text_data))
          (finish_group source_track name g c score)
  unfolding finish_group
  finish_group-IsScore g score h n t =
      Yields-bind (push_note_segment-Yields score (into_segment g.notes) c) λ (notes, score1) p.
        rw p.3 (
          Yields-bind (append_column-Yields score.controls g.controls c)
            λ (controls, all_controls) q.
              Yields-bind (append_column-Yields score.pitch_bends g.pitch_bends c)
                λ (bends, all_bends) r.
                  Yields-bind (append_column-Yields score.pedals g.pedals c)
                    λ (pedals, all_pedals) u.
                      Yields-bind (append_column-Yields score.lyrics g.lyrics c)
                        λ (lyrics, all_lyrics) v. value _ (
                          record {
                            notes_tiled =
                                Tiles-grown (λ t. t.notes) score.tracks score.note_count
                                  (notes.start + notes.len) _ h.notes_tiled p.0 refl;
                            controls_tiled =
                                Tiles-grown (λ t. t.controls) score.tracks (length score.controls)
                                  (length all_controls) _ h.controls_tiled q.0 q.2;
                            pitch_bends_tiled =
                                Tiles-grown (λ t. t.pitch_bends) score.tracks
                                  (length score.pitch_bends) (length all_bends) _
                                  h.pitch_bends_tiled r.0 r.2;
                            pedals_tiled =
                                Tiles-grown (λ t. t.pedals) score.tracks (length score.pedals)
                                  (length all_pedals) _ h.pedals_tiled u.0 u.2;
                            lyrics_tiled =
                                Tiles-grown (λ t. t.lyrics) score.tracks (length score.lyrics)
                                  (length all_lyrics) _ h.lyrics_tiled v.0 v.2;
                            segments =
                                Segments-append score.tracks score.note_segments _ _ h.segments p.1;
                            names =
                                All-append (λ t. InText (length score.text_data) t.name)
                                  score.tracks _ h.names (n, tt);
                            lyric_texts = rw v.1 (
                                All-append (λ e. InText (length score.text_data) e.text)
                                  score.lyrics g.lyrics h.lyric_texts t);
                            marker_texts = h.marker_texts;
                            small_columns = (
                              p.2,
                              omega (arith, q.2, q.3),
                              omega (arith, r.2, r.3),
                              omega (arith, u.2, u.3),
                              omega (arith, v.2, v.3),
                              h.small_columns.5,
                            );
                          },
                          refl,
                        ))

  module _ (bytes : Bytes) (named : InText (length bytes) name) where
    -- A builder and a score over the text data `bytes`.
    abbrev Over : ScoreTrackBuilder × TickScore → Type 0
    Over (b, score) =
        IsScore score × (score.text_data ≡ bytes) × IsKept (λ e. InText (length bytes) e.text) b

    finish_programs-Over :
        (fuel channel programs : ℕ) (b : ScoreTrackBuilder) (score : TickScore)
        → Over (b, score)
        → Yields Over (finish_programs source_track name c fuel channel programs b score)
    unfolding finish_programs
    finish_programs-Over zero channel programs b score h = elim (Bool-cases (programs == 0)) [
      | inl done ↦ rw (finish_programs, done) (value _ h)
      | inr more ↦ rw (finish_programs, more) loops
    ]
    finish_programs-Over (suc fuel) channel programs b score h = elim (Bool-cases (programs == 0)) [
      | inl done ↦ rw (finish_programs, done) (value _ h)
      | inr more ↦
          let group_index = b.groups_by_key (key channel (trailing_zeros 128 programs)) in
          let g = group_at b group_index in
          let b1 = with_group b group_index (new_group 0 0) in
          let kept = IsKept-with_group _ b group_index (new_group 0 0) h.2 tt in
          let texts = IsKept-group_at _ b group_index h.2 in
          elim (Bool-cases (is_empty g)) [
            | inl nothing ↦
                rw (finish_programs, more, nothing)
                  (finish_programs-Over fuel channel _ b1 score (h.0, h.1, kept))
            | inr filled ↦
                rw (finish_programs, more, filled)
                  (Yields-bind (finish_group-IsScore g score h.0 (rw h.1 named) (rw h.1 texts))
                    λ score1 p.
                      finish_programs-Over fuel channel _ b1 score1 (p.0, p.1 ∙ h.1, kept))
          ]
    ]

    finish_channels-Over :
        (rounds channel : ℕ) (b : ScoreTrackBuilder) (score : TickScore)
        → Over (b, score)
        → Yields
            (λ out. IsScore out × (out.text_data ≡ bytes))
            (finish_channels source_track name c rounds channel b score)
    unfolding finish_channels
    finish_channels-Over zero channel b score h = value _ (h.0, h.1)
    finish_channels-Over (suc rounds) channel b score h =
        Yields-bind (finish_programs-Over 128 channel (b.active_programs channel) b score h)
          λ (b1, score1) p. finish_channels-Over rounds (channel + 1) b1 score1 p

    -- A track that ends keeps the score well formed, and its text data as it is.
    pub finish-IsScore :
        (b : ScoreTrackBuilder) (score : TickScore)
        → Over (b, score)
        → Yields (λ out. IsScore out × (out.text_data ≡ bytes)) (finish source_track name c b score)
    unfolding finish
    finish-IsScore b score h = finish_channels-Over 16 0 b score h
