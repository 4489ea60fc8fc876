-- ===== src/Score/Ranges/Track.antt =====
-- The ranges of a parsed score: the loop of a track and the file.
use mathlib.Core.Option.{none}
use Prim.Native.Nat.{zero}
use midi.Score.Semantics.{ScoreTrackSemantics, handle_end_of_track, validate_score_meta, byte_at}
use midi.Score.Ranges.Finish.{finish-IsScore}
use midi.Score.Types.{TickText}
use midi.Result.{ok, ok_or, checked_add}
use midi.Score.Order.{sort_by_key-All}
use midi.Score.Arena.{TickScore, empty_score}
use midi.Score.Ranges.{IsScore, TickText, InText}
use midi.Cursor.{
  Cursor, read_vlq, remaining, read_tag, new, absolute_offset, read_u32, fits, read_u8, take_cursor,
  take, skip,
}
use midi.Result.Yields.{
  Yields, Yields-any, Yields-bind, value, Yields-ok, loops, Yields-if, refused,
}
use midi.Smf.{
  Header, expect_tag, EventClass, track_chunk, Status, read_status, classify, channel_event,
  meta_event, sysex_event, invalid_event, validate_data_byte, read_data_byte, validate_first,
}
use midi.Score.Ranges.Semantics.{IsTrack, IsScore-globals, channel-IsTrack, meta-IsTrack}
use midi.Score.Limits.{ScoreParsePolicy, ScoreGrammar}
use midi.Score.Parse.{
  Round, TrackState, next, score_arm, score_event, score_loop, parse_score_track,
  parse_score_tracks, sort_globals, parse_score_smf_impl, ended, score_channel_event,
  score_meta_event, score_sysex_event, end_track, check_end_of_track, score_header, apply_meta,
  check_trailing, read_score_channel_data, read_first, read_second,
}
use midi.Prelude.{
  ℕ, refl, Bytes, Bool-cases, ◌≡◌, suc, arith, length, ◌==◌, inl, u64_max, inr, usize_max, ◌+◌,
  Option, ◌<◌, ltb, some, ◌-◌, ◌/◌, ◌^◌, ◌||◌, ◌∷◌, [],
}

validate_data_byte-Yields :
    (offset byte : ℕ) → Yields (λ _. byte < 128) (validate_data_byte offset byte)
unfolding validate_data_byte
validate_data_byte-Yields offset byte = elim (Bool-cases (ltb byte 0x80)) [
  | inl low ↦ rw low (value _ (ground arith))
  | inr high ↦ rw high (refused _)
]

read_data_byte-Yields : (c : Cursor) → Yields (λ x. x.0 < 128) (read_data_byte c)
unfolding read_data_byte
read_data_byte-Yields c = Yields-any (read_u8 c) λ (byte, d) _.
    Yields-bind (validate_data_byte-Yields (absolute_offset c) byte) λ _ low. value _ low

read_first-Yields :
    (c : Cursor) (first_data : Option ℕ) → Yields (λ x. x.0 < 128) (read_first c first_data)
unfolding read_first validate_first
read_first-Yields c none = read_data_byte-Yields c
read_first-Yields c (some byte) =
    Yields-bind (validate_data_byte-Yields (absolute_offset c - 1) byte) λ _ low. value _ low

-- The first data byte of a channel event is one of seven bits.
read_score_channel_data-Yields :
    (c : Cursor) (first_data : Option ℕ) (status : ℕ)
    → Yields (λ x. byte_at x.0 0 < 128) (read_score_channel_data c first_data status)
unfolding read_score_channel_data read_second
read_score_channel_data-Yields c first_data status =
    Yields-bind (read_first-Yields c first_data) λ (first, c1) low.
      Yields-if (status / 2 ^ 4 == 0x0c || status / 2 ^ 4 == 0x0d) (value (first ∷ 0 ∷ [], c1) low)
        (Yields-any (read_data_byte c1) λ (second, c2) _. value _ low)

-- The state behind a round.
abbrev round_state : {P : Type 0} → Round P → TrackState P
round_state (next t) = t
round_state (ended t) = t

module _ {P : Type 0} (policy : ScoreParsePolicy P) (g : ScoreGrammar) where
  abbrev IsRound : Round P → Type 0
  IsRound r = IsTrack (round_state r).semantics

  score_arm-IsTrack :
      (class : EventClass) (st : Status) (c : Cursor) (time : ℕ) (budget : P)
      (s : ScoreTrackSemantics)
      → IsTrack s
      → Yields IsRound (score_arm policy g class st c time budget s)
  unfolding score_arm score_channel_event score_meta_event score_sysex_event end_track apply_meta
  score_arm-IsTrack channel_event st c time budget s h =
      Yields-bind (read_score_channel_data-Yields c st.first_data st.status) λ (found, c1) low.
        Yields-any (policy.charge_event budget st.event_offset) λ p _.
          Yields-bind (channel-IsTrack policy st.status found time st.event_offset p c1 s low h)
            λ (q, s1) k. value _ k
  score_arm-IsTrack meta_event st c time budget s h = Yields-any (read_u8 c) λ (meta_type, c1) _.
      Yields-any (read_vlq c1) λ (len, c2) _. Yields-any (fits usize_max c2 len) λ size _.
        Yields-any (take size c2) λ (payload, c3) _.
          Yields-if _
            (Yields-any (handle_end_of_track policy g len st.event_offset c3 budget)
              λ (c4, p) _. value _ h)
            (Yields-any (validate_score_meta meta_type len payload st.event_offset) λ _ _.
              Yields-any (policy.charge_event budget st.event_offset)
                λ p _. Yields-bind (meta-IsTrack policy p _ c3 s h) λ s1 k. value _ k)
  score_arm-IsTrack sysex_event st c time budget s h = Yields-any (read_vlq c) λ (declared, c1) _.
      Yields-any (fits usize_max c1 declared) λ size _.
        Yields-any (skip size c1)
          λ c2 _. Yields-any (policy.charge_event budget st.event_offset) λ p _. value _ h
  score_arm-IsTrack invalid_event st c time budget s h = refused _

  score_event-IsTrack :
      (t : TrackState P) → IsTrack t.semantics → Yields IsRound (score_event policy g t)
  unfolding score_event
  score_event-IsTrack t h = Yields-any (read_vlq t.cursor) λ (delta, c1) _.
      Yields-any (ok_or (checked_add u64_max t.time delta) _) λ time _.
        Yields-any (read_status c1 t.running_status) λ (st, c2) _.
          score_arm-IsTrack (classify st.status st.first_data) st c2 time t.budget t.semantics h

  pub score_loop-IsTrack :
      (fuel : ℕ) (t : TrackState P)
      → IsTrack t.semantics
      → Yields (λ x. IsTrack x.1.semantics) (score_loop policy g fuel t)
  unfolding score_loop
  score_loop-IsTrack zero t h = elim (Bool-cases (remaining t.cursor == 0)) [
    | inl done ↦ rw (score_loop, done) (value _ h)
    | inr more ↦ rw (score_loop, more) loops
  ]
  score_loop-IsTrack (suc fuel) t h = elim (Bool-cases (remaining t.cursor == 0)) [
    | inl done ↦ rw (score_loop, done) (value _ h)
    | inr more ↦
        rw (score_loop, more)
          (Yields-bind (score_event-IsTrack t h)
            (elim [ next u ↦ λ k. score_loop-IsTrack fuel u k | ended u ↦ λ k. value _ k ]))
  ]

  pub parse_score_track-IsScore :
      (c : Cursor) (source_track : ℕ) (score : TickScore) (budget : P)
      → IsScore score
      → Yields (λ x. IsScore x.0) (parse_score_track policy g c source_track score budget)
  unfolding parse_score_track
  parse_score_track-IsScore c source_track score budget h =
      Yields-bind
        (score_loop-IsTrack (remaining c) _
          (h, (tt, λ channel. tt, λ channel. omega arith, λ channel. omega arith), omega arith))
        λ (saw, t) k. Yields-any (check_end_of_track policy g saw t.cursor) λ _ _.
          Yields-bind
            (finish-IsScore source_track t.semantics.name t.cursor t.semantics.score.text_data k.2
              t.semantics.builder t.semantics.score (k.0, refl, k.1))
            λ out l. value _ l.0

  parse_score_tracks-IsScore :
      (rounds source_track : ℕ) (c : Cursor) (score : TickScore) (budget : P)
      → IsScore score
      → Yields (λ x. IsScore x.1) (parse_score_tracks policy g rounds source_track c score budget)
  unfolding parse_score_tracks
  parse_score_tracks-IsScore zero source_track c score budget h = value _ h
  parse_score_tracks-IsScore (suc rounds) source_track c score budget h =
      Yields-any (read_tag c) λ (tag, c1) _.
        Yields-any (expect_tag track_chunk (absolute_offset c) tag) λ _ _.
          Yields-any (read_u32 c1) λ (declared, c2) _.
            Yields-any (fits usize_max c2 declared) λ size _.
              Yields-any (policy.check_track_bytes budget size (absolute_offset c1)) λ _ _.
                Yields-any (take_cursor size c2) λ (track, c3) _.
                  Yields-bind (parse_score_track-IsScore track source_track score budget h)
                    λ (score1, p) k.
                      parse_score_tracks-IsScore rounds (source_track + 1) c3 score1 p k

  pub empty_score-IsScore : (header : Header) → IsScore (empty_score header)
  empty_score-IsScore header = record {
    notes_tiled = refl;
    controls_tiled = refl;
    pitch_bends_tiled = refl;
    pedals_tiled = refl;
    lyrics_tiled = refl;
    segments = tt;
    names = tt;
    lyric_texts = tt;
    marker_texts = tt;
    small_columns = (omega arith, omega arith, omega arith, omega arith, omega arith, omega arith);
  }

  sort_globals-IsScore : (score : TickScore) → IsScore score → IsScore (sort_globals score)
  unfolding sort_globals
  sort_globals-IsScore score h = IsScore-globals score h (
      sort_by_key-All (λ (e : TickText). e.time) (λ e. InText (length score.text_data) e.text)
        score.markers h.marker_texts)

  parse_score_smf_impl-Yields :
      (input : Bytes) (budget : P) → Yields IsScore (parse_score_smf_impl policy g input budget)
  unfolding parse_score_smf_impl
  parse_score_smf_impl-Yields input budget =
      Yields-any (policy.check_input budget (length input)) λ _ _.
        Yields-any (score_header policy g (new input 0) budget) λ (header, c) _.
          Yields-bind
            (parse_score_tracks-IsScore header.track_count 0 c (empty_score header) budget
              (empty_score-IsScore header))
            λ (c1, score) k.
              Yields-any (check_trailing policy g c1)
                λ _ _. value _ (sort_globals-IsScore _ (IsScore-globals score k k.marker_texts))

-- Under any policy and grammar a parsed score is well formed: the tracks' ranges follow one another
-- in each column from its start to its end, each track has a segment with as many notes as its range
-- says, and the names, lyrics and markers lie in the text data.
pub parse_score_smf_impl-IsScore :
    {P : Type 0} (policy : ScoreParsePolicy P) (grammar : ScoreGrammar) (input : Bytes) (budget : P)
    (score : TickScore)
    → parse_score_smf_impl policy grammar input budget ≡ ok score
    → IsScore score
parse_score_smf_impl-IsScore policy grammar input budget score e =
    Yields-ok score e (parse_score_smf_impl-Yields policy grammar input budget)
