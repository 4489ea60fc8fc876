-- ===== src/Score/Ceilings/Track.antt =====
-- The events of a track keep the score below the ceilings.
use midi.Result.{ok_or}
use mathlib.Core.Path.{subst}
use midi.Score.Builder.Open.{add_note}
use midi.Score.Ceilings.Text.{push_text-Below}
use midi.Score.Types.{TickTempo, TickTimeSignature, TickKeySignature, TickText}
use midi.Score.Builder.Events.{add_control, add_lyric, handle_pedal}
use midi.Score.Ceilings.{Below}
use midi.Cursor.{Cursor}
use midi.Smf.{Header}
use midi.Result.Yields.{Yields, Yields-if, Yields-bind, refused, Yields-any, value}
use midi.Score.Semantics.{
  start_note, change_control, channel, ScoreTrackSemantics, retain_text, push_lyric,
  push_time_signature, meta, ScoreMetaEvent, push_name, byte_at, push_marker, push_tempo,
  push_key_signature, checked_shl_one,
}
use midi.Score.Limits.{
  limited_charge_event, limited_charge_note_start, LimitedScoreParsePolicy, ScoreParseLimits,
  limited_policy,
}
use midi.Prelude.{ℕ, refl, Bytes, ◌≡◌, List, ◌%◌, ◌^◌, not, ◌==◌, ◌/◌, length, ◌&&◌, ◌≤◌}

pub charge_event-limits :
    (p : LimitedScoreParsePolicy) (offset : ℕ)
    → Yields (λ q. q.limits ≡ p.limits) (limited_charge_event p offset)
unfolding limited_charge_event
charge_event-limits p offset = Yields-if _ (refused _) (value _ refl)

charge_note_start-limits :
    (p : LimitedScoreParsePolicy) (offset : ℕ)
    → Yields (λ q. q.limits ≡ p.limits) (limited_charge_note_start p offset)
unfolding limited_charge_note_start
charge_note_start-limits p offset = Yields-if _ (refused _) (value _ refl)

-- A channel event leaves the score and the limits alone.
abbrev pub Alone :
    LimitedScoreParsePolicy
    → ScoreTrackSemantics
    → LimitedScoreParsePolicy × ScoreTrackSemantics
    → Type 0
Alone p s (q, t) = (q.limits ≡ p.limits) × (t.score ≡ s.score)

start_note-Alone :
    (number : ℕ) (found : Bytes) (time offset : ℕ) (p : LimitedScoreParsePolicy) (c : Cursor)
    (s : ScoreTrackSemantics)
    → Yields (Alone p s) (start_note limited_policy number found time offset p c s)
unfolding start_note
start_note-Alone number found time offset p c s =
    Yields-bind (charge_note_start-limits p offset) λ q e.
      Yields-any (add_note number (byte_at found 0) (byte_at found 1) time s.builder c)
        λ b _. value _ (e, refl)

change_control-Alone :
    (number : ℕ) (found : Bytes) (time : ℕ) (p : LimitedScoreParsePolicy) (s : ScoreTrackSemantics)
    → Yields (Alone p s) (change_control limited_policy number found time p s)
unfolding change_control
change_control-Alone number found time p s =
    let b = add_control number time (byte_at found 0) (byte_at found 1) s.builder in
    Yields-if (byte_at found 0 == 64)
      (Yields-any (handle_pedal number time (byte_at found 1) b) λ b1 _. value _ (refl, refl))
      (value _ (refl, refl))

pub channel-Alone :
    (status : ℕ) (found : Bytes) (time offset : ℕ) (p : LimitedScoreParsePolicy) (c : Cursor)
    (s : ScoreTrackSemantics)
    → Yields (Alone p s) (channel limited_policy status found time offset p c s)
unfolding channel
channel-Alone status found time offset p c s =
    let number = status % 2 ^ 4 in
    let kind = status / 2 ^ 4 in
    Yields-if (kind == 0x08) (value _ (refl, refl)) (
      Yields-if (kind == 0x09 && byte_at found 1 == 0) (value _ (refl, refl)) (
        Yields-if (kind == 0x09) (start_note-Alone number found time offset p c s) (
          Yields-if (kind == 0x0b) (change_control-Alone number found time p s) (
            Yields-if (kind == 0x0c) (value _ (refl, refl))
              (Yields-if (kind == 0x0e) (value _ (refl, refl)) (value _ (refl, refl)))))))

module _ (limits : ScoreParseLimits) (header : Header) (p : LimitedScoreParsePolicy) where
  -- What a meta event leaves.
  abbrev pub Kept : ScoreTrackSemantics → Type 0
  Kept s = Below limits header p s.score

  retain_text-Kept :
      (event : ScoreMetaEvent) (c : Cursor) (s : ScoreTrackSemantics)
      → Kept s
      → Yields (λ x. Kept x.1) (retain_text limited_policy p event c s)
  unfolding retain_text
  retain_text-Kept event c s h =
      Yields-bind (push_text-Below p event.event_offset s.score.text_data event.payload c)
        λ (range, grown) le. value _ (record {
          same_limits = h.same_limits;
          same_header = h.same_header;
          text = subst (λ l. length grown ≤ l.max_text_bytes) h.same_limits le;
        })

  push_lyric-Kept :
      (event : ScoreMetaEvent) (c : Cursor) (s : ScoreTrackSemantics)
      → Kept s
      → Yields Kept (push_lyric limited_policy p event c s)
  unfolding push_lyric
  push_lyric-Kept event c s h =
      Yields-bind (retain_text-Kept event c s h)
        λ (range, s1) k. Yields-any (add_lyric event.time range s1.builder c) λ b _. value _ k

  -- The columns of the globals do not matter.
  Kept-globals :
      (s : ScoreTrackSemantics) {tempos : List TickTempo} {time_signatures : List TickTimeSignature}
      {key_signatures : List TickKeySignature} {markers : List TickText}
      → Kept s
      → Kept (record s {
        score = record s.score {
          tempos = tempos;
          time_signatures = time_signatures;
          key_signatures = key_signatures;
          markers = markers;
        };
      })
  Kept-globals s h = record {
    same_limits = h.same_limits;
    same_header = h.same_header;
    text = h.text;
  }

  push_time_signature-Kept :
      (event : ScoreMetaEvent) (s : ScoreTrackSemantics)
      → Kept s
      → Yields Kept (push_time_signature event s)
  unfolding push_time_signature
  push_time_signature-Kept event s h = Yields-if (not (length event.payload == 4)) (refused _) (
      Yields-any (ok_or (checked_shl_one (byte_at event.payload 1)) _)
        λ _ _. value _ (Kept-globals s h))

  pub meta-Kept :
      (event : ScoreMetaEvent) (c : Cursor) (s : ScoreTrackSemantics)
      → Kept s
      → Yields Kept (meta limited_policy p event c s)
  unfolding meta push_name push_marker push_tempo push_key_signature
  meta-Kept event c s h =
      Yields-if (event.meta_type == 0x03)
        (Yields-bind (retain_text-Kept event c s h) λ _ k. value _ k)
        (Yields-if (event.meta_type == 0x05 && not (length event.payload == 0))
          (push_lyric-Kept event c s h)
          (Yields-if (event.meta_type == 0x06 && not (length event.payload == 0))
            (Yields-bind (retain_text-Kept event c s h) λ (_, s1) k. value _ (Kept-globals s1 k))
            (Yields-if (event.meta_type == 0x51)
              (Yields-if _ (refused _) (value _ (Kept-globals s h)))
              (Yields-if (event.meta_type == 0x58) (push_time_signature-Kept event s h) (
                Yields-if (event.meta_type == 0x59)
                  (Yields-if _ (refused _) (value _ (Kept-globals s h))) (value s h))))))
