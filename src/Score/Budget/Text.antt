-- ===== src/Score/Budget/Text.antt =====
-- The text, the channel events and the meta events of a bounded run.
use midi.Result.{Result, ◌>>=◌}
use midi.Score.Types.{TextRange}
use midi.Cursor.{Cursor, fits}
use midi.Score.Builder.Open.{add_note}
use midi.Score.Builder.Events.{handle_pedal, add_control}
use midi.Score.Semantics.{
  retain_text, meta, handle_end_of_track, ScoreMetaEvent, ScoreTrackSemantics, check_nothing_left,
  start_note, change_control, byte_at, channel,
}
use midi.Score.Text.{text_loop, push_text, from_utf8}
use midi.Prelude.{
  ℕ, zero, suc, Bytes, length, Option-cases, inl, inr, u32_max, ◌+◌, ◌%◌, ◌&&◌, ◌^◌, not, ◌==◌, ◌/◌,
}
use midi.Score.Budget.{
  IsBudget, Bounded, same_value, same_error, same_stuck, Bounded-bind, Bounded-shared,
  Bounded-check, Bounded-if, Bounded-refl,
}
use midi.Score.Limits.{ScoreParsePolicy, unlimited_policy, ScoreGrammar}

module _ {P : Type 0} (policy : ScoreParsePolicy P) (budget_laws : IsBudget policy) where
  text_loop-Bounded :
      (budget : P) (offset fuel : ℕ) (text_data rest : Bytes)
      → Bounded
          (λ (t : Bytes). t)
          (text_loop policy budget offset fuel text_data rest)
          (text_loop unlimited_policy tt offset fuel text_data rest)
  unfolding text_loop
  text_loop-Bounded budget offset zero text_data rest = same_stuck
  text_loop-Bounded budget offset (suc fuel) text_data rest = elim (Option-cases (from_utf8 rest)) [
    | inl valid ↦
        rw (valid, text_loop) (Bounded-check (budget_laws.text_size budget _ _ _) λ _. same_value _)
    | inr ((valid, error_len), e) ↦
        rw (e, text_loop)
          (Bounded-check (budget_laws.text_size budget _ _ _) λ _.
            Bounded-check (budget_laws.text_size budget _ _ _)
              λ _. text_loop-Bounded budget offset fuel _ _)
  ]

  push_text-Bounded :
      (budget : P) (offset : ℕ) (text_data text : Bytes) (c : Cursor)
      → Bounded
          (λ (x : TextRange × Bytes). x)
          (push_text policy budget offset text_data text c)
          (push_text unlimited_policy tt offset text_data text c)
  unfolding push_text
  push_text-Bounded budget offset text_data text c =
      Bounded-shared (fits u32_max c (length text_data)) λ start.
        Bounded-bind _ (text_loop-Bounded budget offset (length text + 1) text_data text)
          λ grown. Bounded-refl _

  retain_text-Bounded :
      (budget : P) (event : ScoreMetaEvent) (c : Cursor) (s : ScoreTrackSemantics)
      → Bounded
          (λ (x : TextRange × ScoreTrackSemantics). x)
          (retain_text policy budget event c s)
          (retain_text unlimited_policy tt event c s)
  unfolding retain_text
  retain_text-Bounded budget event c s =
      Bounded-bind _ (push_text-Bounded budget event.event_offset s.score.text_data event.payload c)
        λ x. same_value _

  pub meta-Bounded :
      (budget : P) (event : ScoreMetaEvent) (c : Cursor) (s : ScoreTrackSemantics)
      → Bounded
          (λ (t : ScoreTrackSemantics). t)
          (meta policy budget event c s)
          (meta unlimited_policy tt event c s)
  unfolding meta
  meta-Bounded budget event c s =
      let named = event.meta_type == 0x03 in
      let sung = event.meta_type == 0x05 && not (length event.payload == 0) in
      let marked = event.meta_type == 0x06 && not (length event.payload == 0) in
      Bounded-if named (retain λ x. _)
        (Bounded-if sung (retain λ x. _) (Bounded-if marked (retain λ x. _) (Bounded-refl _)))
    where
      retain :
          (k : TextRange × ScoreTrackSemantics → Result ScoreTrackSemantics)
          → Bounded
              (λ (t : ScoreTrackSemantics). t)
              (retain_text policy budget event c s >>= k)
              (retain_text unlimited_policy tt event c s >>= k)
      retain k = Bounded-bind k (retain_text-Bounded budget event c s) λ x. Bounded-refl _

  start_note-Bounded :
      (number : ℕ) (found : Bytes) (time offset : ℕ) (budget : P) (c : Cursor)
      (s : ScoreTrackSemantics)
      → Bounded
          (λ (x : P × ScoreTrackSemantics). (tt, x.1))
          (start_note policy number found time offset budget c s)
          (start_note unlimited_policy number found time offset tt c s)
  unfolding start_note
  start_note-Bounded number found time offset budget c s =
      Bounded-check (budget_laws.note_start budget offset) λ p.
        Bounded-shared (add_note number (byte_at found 0) (byte_at found 1) time s.builder c)
          λ b. same_value _

  change_control-Bounded :
      (number : ℕ) (found : Bytes) (time : ℕ) (budget : P) (s : ScoreTrackSemantics)
      → Bounded
          (λ (x : P × ScoreTrackSemantics). (tt, x.1))
          (change_control policy number found time budget s)
          (change_control unlimited_policy number found time tt s)
  unfolding change_control
  change_control-Bounded number found time budget s =
      Bounded-if (byte_at found 0 == 64)
        (Bounded-shared
          (handle_pedal number time (byte_at found 1)
            (add_control number time (byte_at found 0) (byte_at found 1) s.builder))
          λ b. same_value _)
        (same_value _)

  pub channel-Bounded :
      (status : ℕ) (found : Bytes) (time offset : ℕ) (budget : P) (c : Cursor)
      (s : ScoreTrackSemantics)
      → Bounded
          (λ (x : P × ScoreTrackSemantics). (tt, x.1))
          (channel policy status found time offset budget c s)
          (channel unlimited_policy status found time offset tt c s)
  unfolding channel
  channel-Bounded status found time offset budget c s =
      let number = status % 2 ^ 4 in
      let kind = status / 2 ^ 4 in
      Bounded-if (kind == 0x08) (same_value _) (
        Bounded-if (kind == 0x09 && byte_at found 1 == 0) (same_value _) (
          Bounded-if (kind == 0x09) (start_note-Bounded number found time offset budget c s) (
            Bounded-if (kind == 0x0b) (change_control-Bounded number found time budget s) (
              Bounded-if (kind == 0x0c) (same_value _)
                (Bounded-if (kind == 0x0e) (same_value _) (same_value _))))))

  pub handle_end_of_track-Bounded :
      (grammar : ScoreGrammar) (len offset : ℕ) (c : Cursor) (budget : P)
      → Bounded
          (λ (x : Cursor × P). (x.0, tt))
          (handle_end_of_track policy grammar len offset c budget)
          (handle_end_of_track unlimited_policy grammar len offset c tt)
  unfolding handle_end_of_track check_nothing_left
  handle_end_of_track-Bounded grammar len offset c budget =
      Bounded-if (grammar.require_end_of_track && not (len == 0)) (same_error _) (
        Bounded-check (budget_laws.event budget offset)
          λ p. Bounded-shared (check_nothing_left policy grammar c) λ d. same_value _)
