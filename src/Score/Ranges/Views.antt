-- ===== src/Score/Ranges/Views.antt =====
-- The views of a well-formed score: where what they give stands.
use midi.Owned.Views.{get_span-some}
use mathlib.Core.Path.{subst}
use midi.Owned.{get_span}
use midi.Score.Ranges.{Tiles, Segments, IsScore, InText, TextRange, TickText}
use midi.Score.Notes.{segment_notes, NoteTiming, timing_len, narrow, row_note, wide}
use midi.Score.Arena.{
  track_notes, notes_of, notes, track_controls, TickScore, track_pitch_bends, track_pedals,
  track_lyrics, text,
}
use midi.Score.Types.{TickTrack, ScoreRange, TextRange, TickText}
use mathlib.Core.Option.{some-injective}
use midi.Prelude.{
  [], ◌∷◌, ℕ, refl, suc, zero, List, Option, length, ◌+◌, ◌≡◌, ◌≤◌, arith, get_elem?, some, u32_max,
  ◌∷◌, length-slice, All-get_elem?, ◌∙◌, length-map, length-append, slice, Bytes, All, All-take,
  ◌-◌, drop, All-drop, IsPart, slice-IsPart,
}

module _ (range : TickTrack → ScoreRange) where
  Tiles-le : (ts : List TickTrack) (start end : ℕ) → Tiles range start ts end → start ≤ end
  Tiles-le [] start end h = omega arith
  Tiles-le (t ∷ ts) start end h = omega (arith, Tiles-le ts (start + (range t).len) end h.1)

  Tiles-get_elem? :
      (ts : List TickTrack) (start end i : ℕ) (t : TickTrack)
      → Tiles range start ts end
      → get_elem? ts i ≡ some t
      → (range t).start + (range t).len ≤ end
  Tiles-get_elem? [] start end i t h e = cc
  Tiles-get_elem? (x ∷ ts) start end zero t h e =
      subst (λ y. (range y).start + (range y).len ≤ end) (some-injective x t e)
        (omega (arith, h.0, Tiles-le ts (start + (range x).len) end h.1))
  Tiles-get_elem? (x ∷ ts) start end (suc i) t h e =
      Tiles-get_elem? ts (start + (range x).len) end i t h.1 e

Segments-get_elem? :
    (ts : List TickTrack) (segments : List NoteTiming) (i : ℕ) (t : TickTrack)
    → Segments ts segments
    → get_elem? ts i ≡ some t
    → (segment : NoteTiming) × (get_elem? segments i ≡ some segment)
      × (timing_len segment ≡ t.notes.len)
Segments-get_elem? [] segments i t h e = cc
Segments-get_elem? (x ∷ ts) [] i t h e = absurd h
Segments-get_elem? (x ∷ ts) (s ∷ segments) zero t h e =
    (s, refl, subst (λ y. timing_len s ≡ y.notes.len) (some-injective x t e) h.0)
Segments-get_elem? (x ∷ ts) (s ∷ segments) (suc i) t h e = Segments-get_elem? ts segments i t h.1 e

-- A view that gives the rows of a range of a column: as many as the range is long, those that stand
-- in the column at its start.
pub data Shows {A : Type 0} (column : List A) (start len : ℕ) : Option (List A) → Type 0 where
  shows :
      (rows : List A)
      → IsPart column start rows
      → length rows ≡ len
      → Shows column start len (some rows)

pub Shows-rows :
    {A : Type 0} {column : List A} {start len : ℕ} {o : Option (List A)}
    → Shows column start len o
    → (rows : List A) × (o ≡ some rows) × (length rows ≡ len)
Shows-rows (shows rows part e) = (rows, refl, e)

get_span-Shows :
    {A : Type 0} (column : List A) (start len : ℕ)
    → start + len ≤ length column
    → length column ≤ u32_max
    → Shows column start len (get_span column start len)
get_span-Shows column start len h small =
    rw (get_span-some column start len h (omega (arith, small))) (
      shows _ (slice-IsPart column start (start + len) (omega arith) h)
        (length-slice column start (start + len) (omega arith) h ∙ omega arith))

-- Every track of a well-formed score has its notes: the segment of the same index, with as many as
-- its range says. Its controls, pitch bends, pedals and lyrics are the parts of the score's columns
-- at the starts of its ranges, as long as these say, and its name is such a part of the text data.
pub track_views-IsScore :
    (score : TickScore) (track : ℕ) (t : TickTrack)
    → IsScore score
    → get_elem? score.tracks track ≡ some t
    → ((segment : NoteTiming) × (get_elem? score.note_segments track ≡ some segment)
        × (track_notes score track ≡ some segment)
        × (timing_len segment ≡ t.notes.len))
      × Shows score.controls t.controls.start t.controls.len (track_controls score track)
      × Shows score.pitch_bends t.pitch_bends.start t.pitch_bends.len
          (track_pitch_bends score track)
      × Shows score.pedals t.pedals.start t.pedals.len (track_pedals score track)
      × Shows score.lyrics t.lyrics.start t.lyrics.len (track_lyrics score track)
      × Shows score.text_data t.name.start t.name.len (text score t.name)
unfolding track_notes track_controls track_pitch_bends track_pedals track_lyrics text
track_views-IsScore score track t h e =
    let small = h.small_columns in
    let (segment, at, size) =
      Segments-get_elem? score.tracks score.note_segments track t h.segments e in
    rw (track_notes, track_controls, track_pitch_bends, track_pedals, track_lyrics, e)
      (
        (segment, at, at, size),
        get_span-Shows score.controls t.controls.start t.controls.len
            (Tiles-get_elem? (λ x. x.controls) score.tracks 0 (length score.controls) track t
              h.controls_tiled e)
            small.1,
        get_span-Shows score.pitch_bends t.pitch_bends.start t.pitch_bends.len
            (Tiles-get_elem? (λ x. x.pitch_bends) score.tracks 0 (length score.pitch_bends) track t
              h.pitch_bends_tiled e)
            small.2,
        get_span-Shows score.pedals t.pedals.start t.pedals.len
            (Tiles-get_elem? (λ x. x.pedals) score.tracks 0 (length score.pedals) track t
              h.pedals_tiled e)
            small.3,
        get_span-Shows score.lyrics t.lyrics.start t.lyrics.len
            (Tiles-get_elem? (λ x. x.lyrics) score.tracks 0 (length score.lyrics) track t
              h.lyrics_tiled e)
            small.4,
        get_span-Shows score.text_data t.name.start t.name.len
            (All-get_elem? (λ x. InText (length score.text_data) x.name) score.tracks track t
              h.names e)
            small.5,
      )

-- The texts of a track's lyrics are texts of the score.
pub track_lyrics-InText :
    (score : TickScore) (track : ℕ) (t : TickTrack)
    → IsScore score
    → get_elem? score.tracks track ≡ some t
    → (rows : List TickText) × (track_lyrics score track ≡ some rows)
      × All (λ e. InText (length score.text_data) e.text) rows
unfolding track_lyrics slice
track_lyrics-InText score track t h e =
    let inside =
      Tiles-get_elem? (λ x. x.lyrics) score.tracks 0 (length score.lyrics) track t h.lyrics_tiled
        e in
    let P : TickText → Type 0 = λ x. InText (length score.text_data) x.text in
    let end = t.lyrics.start + t.lyrics.len in
    (
      slice score.lyrics t.lyrics.start end,
      rw (track_lyrics, e)
          (get_span-some score.lyrics t.lyrics.start t.lyrics.len inside
            (omega (arith, h.small_columns.4))),
      All-take P (end - t.lyrics.start) (drop t.lyrics.start score.lyrics)
          (All-drop P t.lyrics.start score.lyrics h.lyric_texts),
    )

-- A text of a well-formed score is there.
pub text-InText :
    (score : TickScore) (range : TextRange)
    → IsScore score
    → InText (length score.text_data) range
    → (bytes : Bytes) × (text score range ≡ some bytes) × (length bytes ≡ range.len)
unfolding text
text-InText score range h inside =
    Shows-rows (get_span-Shows score.text_data range.start range.len inside h.small_columns.5)

length-segment_notes : (segment : NoteTiming) → length (segment_notes segment) ≡ timing_len segment
unfolding segment_notes timing_len
length-segment_notes (narrow rows) = length-map (row_note 4) rows
length-segment_notes (wide rows) = length-map (row_note 8) rows

length-notes_of :
    (ts : List TickTrack) (segments : List NoteTiming) (start end : ℕ)
    → Tiles (λ t. t.notes) start ts end
    → Segments ts segments
    → start + length (notes_of segments) ≡ end
unfolding notes_of
length-notes_of [] [] start end h k = omega (arith, h)
length-notes_of [] (s ∷ ss) start end h k = absurd k
length-notes_of (t ∷ ts) [] start end h k = absurd k
length-notes_of (t ∷ ts) (s ∷ ss) start end h k = omega (
  arith,
  length-append (segment_notes s) (notes_of ss),
  length-segment_notes s,
  k.0,
  length-notes_of ts ss (start + t.notes.len) end h.1 k.1,
)

-- The global column of a well-formed score has as many notes as the score counts.
pub length-notes : (score : TickScore) → IsScore score → length (notes score) ≡ score.note_count
unfolding notes
length-notes score h = omega (
  arith,
  length-notes_of score.tracks score.note_segments 0 score.note_count h.notes_tiled h.segments,
)
