-- ===== src/Score/Builder/Events.antt =====
-- ScoreTrackBuilder: lyrics, controls, pitch bends and pedals.
use midi.Prelude.{ℕ, ◌-◌, Option, none, some, [], ◌∷◌, ◌++◌, ltb, leb, if◌then◌else◌, ℤ}
use midi.Result.{Result, ok, err, error_at, ◌>>=◌, tick_overflow}
use midi.Cursor.{Cursor}
use midi.Score.Types.{TextRange, control_change}
use midi.Score.Builder.{
  ScoreTrackBuilder, update, group_at, with_group, at_group_or_straggler, ensure_group,
}

unfoldable pub add_lyric : ℕ → TextRange → ScoreTrackBuilder → Cursor → Result ScoreTrackBuilder
add_lyric time text b c = do
  (group, b1) ← ensure_group 0 b c
  let g = group_at b1 group
  ok (
      with_group b1 group
        (record g { lyrics = g.lyrics ++ (record { time = time; text = text } ∷ []) }))

unfoldable pub add_control : ℕ → ℕ → ℕ → ℕ → ScoreTrackBuilder → ScoreTrackBuilder
unfolding at_group_or_straggler
add_control channel time number value =
    at_group_or_straggler channel
      λ g. record g { controls = g.controls ++ (control_change time number value ∷ []) }

unfoldable pub add_pitch_bend : ℕ → ℕ → ℤ → ScoreTrackBuilder → ScoreTrackBuilder
unfolding at_group_or_straggler
add_pitch_bend channel time value =
    at_group_or_straggler channel
      λ g. record g { pitch_bends = g.pitch_bends ++ (record { time = time; value = value } ∷ []) }

-- The pedal goes up: its interval ends, if it was down.
unfoldable pub release_pedal : ℕ → ℕ → Option ℕ → ScoreTrackBuilder → Result ScoreTrackBuilder
release_pedal channel time none b = ok b
release_pedal channel time (some start) b =
    if ltb time start
    then err (error_at 0 tick_overflow)
    else ok (
        at_group_or_straggler channel
          (λ g. record g {
            pedals = g.pedals ++ (record { time = start; duration = time - start } ∷ []);
          })
          (record b { pedal_starts = update b.pedal_starts channel none }))

-- A pedal that is down already keeps its start.
unfoldable pub press_pedal : ℕ → ℕ → Option ℕ → ScoreTrackBuilder → ScoreTrackBuilder
press_pedal channel time none b = record b {
  pedal_starts = update b.pedal_starts channel (some time);
}
press_pedal channel time (some start) b = b

unfoldable pub handle_pedal : ℕ → ℕ → ℕ → ScoreTrackBuilder → Result ScoreTrackBuilder
unfolding release_pedal press_pedal
handle_pedal channel time value b =
    if leb 64 value
    then ok (press_pedal channel time (b.pedal_starts channel) b)
    else release_pedal channel time (b.pedal_starts channel) b
