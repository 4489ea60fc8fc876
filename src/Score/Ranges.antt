-- ===== src/Score/Ranges.antt =====
-- What the ranges of a score mean: the tracks' ranges tile the columns, and the ranges of texts lie
-- in the text data.
pub mod Builder
pub mod Finish
pub mod Semantics
pub mod Track
pub mod Views
use midi.Prelude.{ℕ, ◌+◌, ◌≤◌, ◌≡◌, List, [], ◌∷◌, All, length, u32_max}
use midi.Score.Types.{ScoreRange, TextRange, TickText, TickTrack}
use midi.Score.Notes.{NoteTiming, timing_len}
use midi.Score.Arena.{TickScore}

-- One range of each track follows that of the track before, from `start` to `end`.
abbrev pub Tiles : (TickTrack → ScoreRange) → ℕ → List TickTrack → ℕ → Type 0
Tiles range start [] end = start ≡ end
Tiles range start (t ∷ ts) end =
    ((range t).start ≡ start) × Tiles range (start + (range t).len) ts end

-- Each track has its own segment, with as many notes as its range says.
abbrev pub Segments : List TickTrack → List NoteTiming → Type 0
Segments [] [] = Unit {0}
Segments [] (segment ∷ segments) = ⊥
Segments (t ∷ ts) [] = ⊥
Segments (t ∷ ts) (segment ∷ segments) = (timing_len segment ≡ t.notes.len) × Segments ts segments

-- A range of `n` bytes of text.
abbrev pub InText : ℕ → TextRange → Type 0
InText n range = range.start + range.len ≤ n

pub record IsScore (score : TickScore) : Type 0 where
  pub notes_tiled : Tiles (λ t. t.notes) 0 score.tracks score.note_count
  pub controls_tiled : Tiles (λ t. t.controls) 0 score.tracks (length score.controls)
  pub pitch_bends_tiled : Tiles (λ t. t.pitch_bends) 0 score.tracks (length score.pitch_bends)
  pub pedals_tiled : Tiles (λ t. t.pedals) 0 score.tracks (length score.pedals)
  pub lyrics_tiled : Tiles (λ t. t.lyrics) 0 score.tracks (length score.lyrics)
  pub segments : Segments score.tracks score.note_segments
  pub names : All (λ t. InText (length score.text_data) t.name) score.tracks
  pub lyric_texts : All (λ e. InText (length score.text_data) e.text) score.lyrics
  pub marker_texts : All (λ e. InText (length score.text_data) e.text) score.markers
  pub small_columns :
      (score.note_count ≤ u32_max)
      × (length score.controls ≤ u32_max)
      × (length score.pitch_bends ≤ u32_max)
      × (length score.pedals ≤ u32_max)
      × (length score.lyrics ≤ u32_max)
      × (length score.text_data ≤ u32_max)
