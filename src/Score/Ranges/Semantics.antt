-- ===== src/Score/Ranges/Semantics.antt =====
-- The events of a track keep the ranges of a score in order.
use midi.Score.Builder.Open.{end_note}
use midi.Result.{ok_or, ok}
use midi.Score.Types.{TickTempo, TickTimeSignature, TickKeySignature, TickText}
use midi.Score.Builder.{set_program, ScoreTrackBuilder}
use midi.Score.Builder.Events.{add_control, add_pitch_bend}
use midi.Cursor.Yields.{fits-Yields}
use midi.Result.Yields.{Yields, Yields-bind, value, Yields-any, refused, Yields-if}
use midi.Cursor.{Cursor}
use midi.Score.Ranges.Builder.{
  IsKept, IsKept-map, add_lyric-IsKept, add_note-IsKept, add_control-IsKept, handle_pedal-IsKept,
  end_note-IsKept, add_pitch_bend-IsKept, set_program-IsKept,
}
use midi.Score.Text.{push_text, text_loop}
use midi.Score.Ranges.{IsScore, InText, TickText}
use midi.Score.Limits.{ScoreParsePolicy}
use midi.Score.Semantics.{
  ScoreTrackSemantics, retain_text, push_name, push_lyric, push_marker, ScoreMetaEvent, push_tempo,
  push_time_signature, push_key_signature, meta, start_note, change_control, channel, byte_at,
  bend_value, checked_shl_one,
}
use midi.Score.Arena.{TickScore}
use midi.Prelude.{
  ℕ, ◌+◌, Bytes, All, length, ◌≤◌, u32_max, All-map, arith, Bool-cases, leb, All-append, inl,
  leb→le, inr, ◌%◌, ◌^◌, List, not, ◌==◌, ◌/◌, ◌&&◌, ◌<◌,
}

-- More text does no harm.
IsScore-text_data :
    (score : TickScore) (grown : Bytes)
    → IsScore score
    → length score.text_data ≤ length grown
    → length grown ≤ u32_max
    → IsScore (record score { text_data = grown })
IsScore-text_data score grown h le small = record {
  notes_tiled = h.notes_tiled;
  controls_tiled = h.controls_tiled;
  pitch_bends_tiled = h.pitch_bends_tiled;
  pedals_tiled = h.pedals_tiled;
  lyrics_tiled = h.lyrics_tiled;
  segments = h.segments;
  names = All-map score.tracks (λ t k. omega arith) h.names;
  lyric_texts = All-map score.lyrics (λ e k. omega arith) h.lyric_texts;
  marker_texts = All-map score.markers (λ e k. omega arith) h.marker_texts;
  small_columns = (
    h.small_columns.0, h.small_columns.1, h.small_columns.2, h.small_columns.3, h.small_columns.4,
    small,
  );
}

-- The columns that no track has a range of may change.
pub IsScore-globals :
    (score : TickScore) {tempos : List TickTempo} {time_signatures : List TickTimeSignature}
    {key_signatures : List TickKeySignature} {markers : List TickText} {consumed trailing : ℕ}
    → IsScore score
    → All (λ e. InText (length score.text_data) e.text) markers
    → IsScore (record score {
      tempos = tempos;
      time_signatures = time_signatures;
      key_signatures = key_signatures;
      markers = markers;
      bytes_consumed = consumed;
      trailing_bytes = trailing;
    })
IsScore-globals score h k = record {
  notes_tiled = h.notes_tiled;
  controls_tiled = h.controls_tiled;
  pitch_bends_tiled = h.pitch_bends_tiled;
  pedals_tiled = h.pedals_tiled;
  lyrics_tiled = h.lyrics_tiled;
  segments = h.segments;
  names = h.names;
  lyric_texts = h.lyric_texts;
  marker_texts = k;
  small_columns = h.small_columns;
}

-- The state of a track: its lyrics and its name lie in the text data.
abbrev pub IsTrack : ScoreTrackSemantics → Type 0
IsTrack s =
    IsScore s.score
    × IsKept (λ e. InText (length s.score.text_data) e.text) s.builder
    × InText (length s.score.text_data) s.name

abbrev with_text : ScoreTrackSemantics → Bytes → ScoreTrackSemantics
with_text s grown = record s { score = record s.score { text_data = grown } }

IsTrack-with_text :
    (s : ScoreTrackSemantics) (grown : Bytes)
    → IsTrack s
    → length s.score.text_data ≤ length grown
    → length grown ≤ u32_max
    → IsTrack (with_text s grown)
IsTrack-with_text s grown h le small = (
  IsScore-text_data s.score grown h.0 le small,
  IsKept-map (λ e. InText (length s.score.text_data) e.text) (λ e. InText (length grown) e.text)
      s.builder (λ e k. omega arith) h.1,
  omega (arith, h.2),
)

-- The globals of the score change.
IsTrack-globals :
    (s : ScoreTrackSemantics) {tempos : List TickTempo} {time_signatures : List TickTimeSignature}
    {key_signatures : List TickKeySignature} {markers : List TickText} {consumed trailing : ℕ}
    → IsTrack s
    → All (λ e. InText (length s.score.text_data) e.text) markers
    → IsTrack (record s {
      score = record s.score {
        tempos = tempos;
        time_signatures = time_signatures;
        key_signatures = key_signatures;
        markers = markers;
        bytes_consumed = consumed;
        trailing_bytes = trailing;
      };
    })
IsTrack-globals s h k = (IsScore-globals s.score h.0 k, h.1, h.2)

module _ {P : Type 0} (policy : ScoreParsePolicy P) where
  push_text-Yields :
      (budget : P) (offset : ℕ) (text_data text : Bytes) (c : Cursor)
      → Yields
          (λ (range, grown).
            InText (length grown) range
            × (length text_data ≤ length grown)
            × (length grown ≤ u32_max))
          (push_text policy budget offset text_data text c)
  unfolding push_text
  push_text-Yields budget offset text_data text c =
      Yields-bind (fits-Yields u32_max c (length text_data)) λ start h.
        Yields-any (text_loop policy budget offset (length text + 1) text_data text) λ grown _.
          Yields-bind (fits-Yields u32_max c (length grown)) λ end k.
            elim (Bool-cases (leb start end)) [
              | inl le ↦ rw le (
                  value _ (
                    omega (arith, h, k, leb→le start end le),
                    omega (arith, h, k, leb→le start end le),
                    omega (arith, k),
                  ))
              | inr gt ↦ rw gt (refused _)
            ]

  retain_text-IsTrack :
      (budget : P) (event : ScoreMetaEvent) (c : Cursor) (s : ScoreTrackSemantics)
      → IsTrack s
      → Yields
          (λ (range, out). IsTrack out × InText (length out.score.text_data) range)
          (retain_text policy budget event c s)
  unfolding retain_text
  retain_text-IsTrack budget event c s h =
      Yields-bind (push_text-Yields budget event.event_offset s.score.text_data event.payload c)
        λ (range, grown) k. value _ (IsTrack-with_text s grown h k.1 k.2, k.0)

  push_name-IsTrack :
      (budget : P) (event : ScoreMetaEvent) (c : Cursor) (s : ScoreTrackSemantics)
      → IsTrack s
      → Yields IsTrack (push_name policy budget event c s)
  unfolding push_name
  push_name-IsTrack budget event c s h =
      Yields-bind (retain_text-IsTrack budget event c s h)
        λ (range, s1) k. value _ (k.0.0, k.0.1, k.1)

  push_lyric-IsTrack :
      (budget : P) (event : ScoreMetaEvent) (c : Cursor) (s : ScoreTrackSemantics)
      → IsTrack s
      → Yields IsTrack (push_lyric policy budget event c s)
  unfolding push_lyric
  push_lyric-IsTrack budget event c s h =
      Yields-bind (retain_text-IsTrack budget event c s h) λ (range, s1) k.
        Yields-bind (add_lyric-IsKept _ event.time range s1.builder c k.0.1 k.1)
          λ b l. value _ (k.0.0, l, k.0.2)

  push_marker-IsTrack :
      (budget : P) (event : ScoreMetaEvent) (c : Cursor) (s : ScoreTrackSemantics)
      → IsTrack s
      → Yields IsTrack (push_marker policy budget event c s)
  unfolding push_marker
  push_marker-IsTrack budget event c s h =
      Yields-bind (retain_text-IsTrack budget event c s h) λ (range, s1) k.
        value _
          (IsTrack-globals s1 k.0 (All-append _ s1.score.markers _ k.0.0.marker_texts (k.1, tt)))

  push_tempo-IsTrack :
      (event : ScoreMetaEvent) (s : ScoreTrackSemantics)
      → IsTrack s
      → Yields IsTrack (push_tempo event s)
  unfolding push_tempo
  push_tempo-IsTrack event s h =
      Yields-if _ (refused _) (value _ (IsTrack-globals s h h.0.marker_texts))

  push_time_signature-IsTrack :
      (event : ScoreMetaEvent) (s : ScoreTrackSemantics)
      → IsTrack s
      → Yields IsTrack (push_time_signature event s)
  unfolding push_time_signature
  push_time_signature-IsTrack event s h = Yields-if (not (length event.payload == 4)) (refused _) (
      Yields-any (ok_or (checked_shl_one (byte_at event.payload 1)) _)
        λ denominator _. value _ (IsTrack-globals s h h.0.marker_texts))

  push_key_signature-IsTrack :
      (event : ScoreMetaEvent) (s : ScoreTrackSemantics)
      → IsTrack s
      → Yields IsTrack (push_key_signature event s)
  unfolding push_key_signature
  push_key_signature-IsTrack event s h =
      Yields-if _ (refused _) (value _ (IsTrack-globals s h h.0.marker_texts))

  pub meta-IsTrack :
      (budget : P) (event : ScoreMetaEvent) (c : Cursor) (s : ScoreTrackSemantics)
      → IsTrack s
      → Yields IsTrack (meta policy budget event c s)
  unfolding meta
  meta-IsTrack budget event c s h = Yields-if _ (push_name-IsTrack budget event c s h) (
      Yields-if _ (push_lyric-IsTrack budget event c s h) (
        Yields-if _ (push_marker-IsTrack budget event c s h) (
          Yields-if _ (push_tempo-IsTrack event s h) (
            Yields-if _ (push_time_signature-IsTrack event s h)
              (Yields-if _ (push_key_signature-IsTrack event s h) (value _ h))))))

  start_note-IsTrack :
      (number : ℕ) (found : Bytes) (time offset : ℕ) (budget : P) (c : Cursor)
      (s : ScoreTrackSemantics)
      → IsTrack s
      → Yields (λ x. IsTrack x.1) (start_note policy number found time offset budget c s)
  unfolding start_note
  start_note-IsTrack number found time offset budget c s h =
      Yields-any (policy.charge_note_start budget offset) λ budget1 _.
        Yields-bind
          (add_note-IsKept _ number (byte_at found 0) (byte_at found 1) time s.builder c h.1)
          λ b k. value _ (h.0, k, h.2)

  change_control-IsTrack :
      (number : ℕ) (found : Bytes) (time : ℕ) (budget : P) (s : ScoreTrackSemantics)
      → IsTrack s
      → Yields (λ x. IsTrack x.1) (change_control policy number found time budget s)
  unfolding change_control
  change_control-IsTrack number found time budget s h =
      let b = add_control number time (byte_at found 0) (byte_at found 1) s.builder in
      let k = add_control-IsKept _ number time (byte_at found 0) (byte_at found 1) s.builder h.1 in
      Yields-if _
        (Yields-bind (handle_pedal-IsKept _ number time (byte_at found 1) b k)
          λ b1 l. value _ (h.0, l, h.2))
        (value _ (h.0, k, h.2))

  -- An event that changes the builder alone.
  builder-IsTrack :
      (s : ScoreTrackSemantics) (budget : P) (b : ScoreTrackBuilder)
      → IsTrack s
      → IsKept (λ e. InText (length s.score.text_data) e.text) b
      → Yields
          (λ (x : P × ScoreTrackSemantics). IsTrack x.1)
          (ok (budget, record s { builder = b }))
  builder-IsTrack s budget b h k = value _ (h.0, k, h.2)

  pub channel-IsTrack :
      (status : ℕ) (found : Bytes) (time offset : ℕ) (budget : P) (c : Cursor)
      (s : ScoreTrackSemantics)
      → byte_at found 0 < 128
      → IsTrack s
      → Yields (λ x. IsTrack x.1) (channel policy status found time offset budget c s)
  unfolding channel
  channel-IsTrack status found time offset budget c s low h =
      let number = status % 2 ^ 4 in
      let off = end_note number (byte_at found 0) time s.builder in
      let bend = bend_value (byte_at found 0) (byte_at found 1) in
      let ends =
        builder-IsTrack s budget off h
          (end_note-IsKept _ number (byte_at found 0) time s.builder h.1) in
      let bends =
        builder-IsTrack s budget (add_pitch_bend number time bend s.builder) h
          (add_pitch_bend-IsKept _ number time bend s.builder h.1) in
      let kind = status / 2 ^ 4 in
      Yields-if (kind == 0x08) ends (
        Yields-if (kind == 0x09 && byte_at found 1 == 0) ends (
          Yields-if (kind == 0x09) (start_note-IsTrack number found time offset budget c s h) (
            Yields-if (kind == 0x0b) (change_control-IsTrack number found time budget s h) (
              Yields-if (kind == 0x0c)
                (builder-IsTrack s budget (set_program number (byte_at found 0) s.builder) h
                  (set_program-IsKept _ number (byte_at found 0) s.builder h.1 low))
                (Yields-if (kind == 0x0e) bends (value (budget, s) h))))))
