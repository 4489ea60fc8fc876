-- ===== src/Score/Ceilings/Loop.antt =====
-- The loop of a bounded parse keeps the score below the ceilings.
use midi.Score.Ceilings.Track.{charge_event-limits, channel-Alone, meta-Kept}
use midi.Score.Semantics.{
  handle_end_of_track, ScoreTrackSemantics, validate_score_meta, check_nothing_left,
}
use midi.Score.Ceilings.Finish.{finish-Untouched}
use midi.Result.{ok_or, checked_add}
use midi.Cursor.{
  Cursor, read_vlq, remaining, read_tag, absolute_offset, read_u32, fits, take_cursor, read_u8,
  take, skip,
}
use midi.Score.Ceilings.{Below}
use midi.Result.Yields.{Yields, Yields-any, Yields-bind, value, refused, loops, Yields-if}
use midi.Score.Arena.{TickScore}
use midi.Score.Parse.{
  TrackState, Round, score_arm, score_event, score_loop, parse_score_track, parse_score_tracks,
  next, score_channel_event, ended, score_meta_event, score_sysex_event, end_track,
  check_end_of_track, apply_meta, read_score_channel_data,
}
use midi.Smf.{
  Header, expect_tag, track_chunk, EventClass, read_status, Status, classify, channel_event,
  meta_event, sysex_event, invalid_event,
}
use midi.Score.Limits.{
  ScoreGrammar, ScoreParseLimits, LimitedScoreParsePolicy, limited_policy,
  limited_check_track_bytes,
}
use midi.Prelude.{
  ℕ, zero, suc, ◌≡◌, length, ◌≤◌, ◌∙◌, Bool-cases, ◌==◌, inl, inr, u64_max, usize_max, ◌+◌, ◌&&◌,
  not,
}

module _ (g : ScoreGrammar) (limits : ScoreParseLimits) (header : Header) where
  -- The state of a track, and what a round leaves.
  abbrev IsBelow : TrackState LimitedScoreParsePolicy → Type 0
  IsBelow t = Below limits header t.budget t.semantics.score

  abbrev RoundBelow : Round LimitedScoreParsePolicy → Type 0
  RoundBelow (next t) = IsBelow t
  RoundBelow (ended t) = IsBelow t

  Below-limits :
      (p q : LimitedScoreParsePolicy) (score : TickScore)
      → q.limits ≡ p.limits
      → Below limits header p score
      → Below limits header q score
  Below-limits p q score e h = record {
    same_limits = e ∙ h.same_limits;
    same_header = h.same_header;
    text = h.text;
  }

  end_of_track-limits :
      (len offset : ℕ) (c : Cursor) (p : LimitedScoreParsePolicy)
      → Yields (λ x. x.1.limits ≡ p.limits) (handle_end_of_track limited_policy g len offset c p)
  unfolding handle_end_of_track
  end_of_track-limits len offset c p =
      Yields-if (g.require_end_of_track && not (len == 0)) (refused _) (
        Yields-bind (charge_event-limits p offset)
          λ q e. Yields-any (check_nothing_left limited_policy g c) λ _ _. value _ e)

  score_arm-Below :
      (class : EventClass) (st : Status) (c : Cursor) (time : ℕ) (p : LimitedScoreParsePolicy)
      (s : ScoreTrackSemantics)
      → Below limits header p s.score
      → Yields RoundBelow (score_arm limited_policy g class st c time p s)
  unfolding score_arm score_channel_event score_meta_event score_sysex_event end_track apply_meta
  score_arm-Below channel_event st c time p s h =
      Yields-any (read_score_channel_data c st.first_data st.status) λ (found, c1) _.
        Yields-bind (charge_event-limits p st.event_offset) λ q e.
          Yields-bind (channel-Alone st.status found time st.event_offset q c1 s)
            λ (r, s1) k. value _ (rw k.1 (Below-limits p r s.score (k.0 ∙ e) h))
  score_arm-Below meta_event st c time p s h = Yields-any (read_u8 c) λ (meta_type, c1) _.
      Yields-any (read_vlq c1) λ (len, c2) _. Yields-any (fits usize_max c2 len) λ size _.
        Yields-any (take size c2) λ (payload, c3) _.
          Yields-if (g.stop_at_end_of_track && meta_type == 0x2f)
            (Yields-bind (end_of_track-limits len st.event_offset c3 p)
              λ (c4, q) e. value _ (Below-limits p q s.score e h))
            (Yields-any (validate_score_meta meta_type len payload st.event_offset) λ _ _.
              Yields-bind (charge_event-limits p st.event_offset) λ q e.
                Yields-bind (meta-Kept limits header q _ c3 s (Below-limits p q s.score e h))
                  λ s1 k. value _ k)
  score_arm-Below sysex_event st c time p s h = Yields-any (read_vlq c) λ (declared, c1) _.
      Yields-any (fits usize_max c1 declared) λ size _. Yields-any (skip size c1) λ c2 _.
        Yields-bind (charge_event-limits p st.event_offset)
          λ q e. value _ (Below-limits p q s.score e h)
  score_arm-Below invalid_event st c time p s h = refused _

  score_event-Below :
      (t : TrackState LimitedScoreParsePolicy)
      → IsBelow t
      → Yields RoundBelow (score_event limited_policy g t)
  unfolding score_event
  score_event-Below t h = Yields-any (read_vlq t.cursor) λ (delta, c1) _.
      Yields-any (ok_or (checked_add u64_max t.time delta) _) λ time _.
        Yields-any (read_status c1 t.running_status) λ (st, c2) _.
          score_arm-Below (classify st.status st.first_data) st c2 time t.budget t.semantics h

  score_loop-Below :
      (fuel : ℕ) (t : TrackState LimitedScoreParsePolicy)
      → IsBelow t
      → Yields (λ x. IsBelow x.1) (score_loop limited_policy g fuel t)
  unfolding score_loop
  score_loop-Below zero t h = elim (Bool-cases (remaining t.cursor == 0)) [
    | inl done ↦ rw (score_loop, done) (value _ h)
    | inr more ↦ rw (score_loop, more) loops
  ]
  score_loop-Below (suc fuel) t h = elim (Bool-cases (remaining t.cursor == 0)) [
    | inl done ↦ rw (score_loop, done) (value _ h)
    | inr more ↦
        rw (score_loop, more)
          (Yields-bind (score_event-Below t h)
            (elim [ next u ↦ λ k. score_loop-Below fuel u k | ended u ↦ λ k. value _ k ]))
  ]

  parse_score_track-Below :
      (c : Cursor) (source_track : ℕ) (score : TickScore) (p : LimitedScoreParsePolicy)
      → Below limits header p score
      → Yields
          (λ (out, q). Below limits header q out)
          (parse_score_track limited_policy g c source_track score p)
  unfolding parse_score_track
  parse_score_track-Below c source_track score p h =
      Yields-bind (score_loop-Below (remaining c) _ h) λ (saw, t) k.
        Yields-any (check_end_of_track limited_policy g saw t.cursor) λ _ _.
          Yields-bind
            (finish-Untouched source_track t.semantics.name t.cursor t.semantics.builder
              t.semantics.score)
            λ out same. value _ (record {
              same_limits = k.same_limits;
              same_header = same.0 ∙ k.same_header;
              text = rw same.1 k.text;
            })

  pub parse_score_tracks-Below :
      (rounds source_track : ℕ) (c : Cursor) (score : TickScore) (p : LimitedScoreParsePolicy)
      → Below limits header p score
      → Yields
          (λ x. (x.1.header ≡ header) × (length x.1.text_data ≤ limits.max_text_bytes))
          (parse_score_tracks limited_policy g rounds source_track c score p)
  unfolding parse_score_tracks
  parse_score_tracks-Below zero source_track c score p h = value _ (h.same_header, h.text)
  parse_score_tracks-Below (suc rounds) source_track c score p h =
      Yields-any (read_tag c) λ (tag, c1) _.
        Yields-any (expect_tag track_chunk (absolute_offset c) tag) λ _ _.
          Yields-any (read_u32 c1) λ (declared, c2) _.
            Yields-any (fits usize_max c2 declared) λ size _.
              Yields-any (limited_check_track_bytes p size (absolute_offset c1)) λ _ _.
                Yields-any (take_cursor size c2) λ (track, c3) _.
                  Yields-bind (parse_score_track-Below track source_track score p h)
                    λ (score1, q) k.
                      parse_score_tracks-Below rounds (source_track + 1) c3 score1 q k
