-- ===== src/Score/Budget/Track.antt =====
-- The loop of one track and the frame of the file, in a bounded run.
use midi.Score.Builder.Finish.{finish}
use midi.Score.Semantics.{ScoreTrackSemantics, validate_score_meta, ScoreMetaEvent}
use midi.Score.Arena.{TickScore}
use midi.Result.{ok_or, checked_add, ok}
use midi.Cursor.{read_vlq, Cursor, remaining, read_u8, fits, take, skip}
use midi.Smf.{
  EventClass, Status, read_status, classify, channel_event, meta_event, sysex_event, invalid_event,
}
use midi.Prelude.{ℕ, zero, suc, Bool, Bool-cases, ◌==◌, u64_max, inl, inr, usize_max, ◌&&◌, true}
use midi.Score.Budget.{
  IsBudget, Bounded, same_value, same_error, same_stuck, Bounded-bind, Bounded-shared,
  Bounded-check, Bounded-if,
}
use midi.Score.Budget.Text.{meta-Bounded, channel-Bounded, handle_end_of_track-Bounded}
use midi.Score.Limits.{ScoreParsePolicy, unlimited_policy, ScoreGrammar}
use midi.Score.Parse.{
  TrackState, Round, next, ended, score_arm, score_event, score_loop, parse_score_track,
  check_end_of_track, read_score_channel_data, score_channel_event, end_track, apply_meta,
  score_meta_event, score_sysex_event,
}

-- The same state of the loop, with no budget.
abbrev unbudgeted : {P : Type 0} → TrackState P → TrackState (Unit {0})
unbudgeted t = record {
  cursor = t.cursor;
  running_status = t.running_status;
  time = t.time;
  budget = tt;
  semantics = t.semantics;
}

abbrev unbudgeted_round : {P : Type 0} → Round P → Round (Unit {0})
unbudgeted_round (next t) = next (unbudgeted t)
unbudgeted_round (ended t) = ended (unbudgeted t)

module _ {P : Type 0} (policy : ScoreParsePolicy P) (budget_laws : IsBudget policy)
    (grammar : ScoreGrammar) where
  score_channel_event-Bounded :
      (st : Status) (c : Cursor) (time : ℕ) (budget : P) (s : ScoreTrackSemantics)
      → Bounded unbudgeted_round
          (score_channel_event policy grammar st c time budget s)
          (score_channel_event unlimited_policy grammar st c time tt s)
  unfolding score_channel_event
  score_channel_event-Bounded st c time budget s =
      Bounded-shared (read_score_channel_data c st.first_data st.status) λ (found, c1).
        Bounded-check (budget_laws.event budget st.event_offset) λ p.
          Bounded-bind _
            (channel-Bounded policy budget_laws st.status found time st.event_offset p c1 s)
            λ x. same_value _

  end_track-Bounded :
      (len : ℕ) (st : Status) (c : Cursor) (time : ℕ) (budget : P) (s : ScoreTrackSemantics)
      → Bounded unbudgeted_round
          (end_track policy grammar len st c time budget s)
          (end_track unlimited_policy grammar len st c time tt s)
  unfolding end_track
  end_track-Bounded len st c time budget s =
      Bounded-bind _
        (handle_end_of_track-Bounded policy budget_laws grammar len st.event_offset c budget)
        λ x. same_value _

  apply_meta-Bounded :
      (event : ScoreMetaEvent) (c : Cursor) (budget : P) (s : ScoreTrackSemantics)
      → Bounded unbudgeted_round
          (apply_meta policy grammar event c budget s)
          (apply_meta unlimited_policy grammar event c tt s)
  unfolding apply_meta
  apply_meta-Bounded event c budget s =
      Bounded-shared
        (validate_score_meta event.meta_type event.length event.payload event.event_offset)
        λ _.
          Bounded-check (budget_laws.event budget event.event_offset)
            λ p. Bounded-bind _ (meta-Bounded policy budget_laws p event c s) λ x. same_value _

  score_meta_event-Bounded :
      (st : Status) (c : Cursor) (time : ℕ) (budget : P) (s : ScoreTrackSemantics)
      → Bounded unbudgeted_round
          (score_meta_event policy grammar st c time budget s)
          (score_meta_event unlimited_policy grammar st c time tt s)
  unfolding score_meta_event
  score_meta_event-Bounded st c time budget s = Bounded-shared (read_u8 c) λ (meta_type, c1).
      Bounded-shared (read_vlq c1) λ (len, c2). Bounded-shared (fits usize_max c2 len) λ size.
        Bounded-shared (take size c2) λ (payload, c3).
          Bounded-if (grammar.stop_at_end_of_track && meta_type == 0x2f)
            (end_track-Bounded len st c3 time budget s) (apply_meta-Bounded _ c3 budget s)

  score_sysex_event-Bounded :
      (st : Status) (c : Cursor) (time : ℕ) (budget : P) (s : ScoreTrackSemantics)
      → Bounded unbudgeted_round
          (score_sysex_event policy grammar st c time budget s)
          (score_sysex_event unlimited_policy grammar st c time tt s)
  unfolding score_sysex_event
  score_sysex_event-Bounded st c time budget s = Bounded-shared (read_vlq c) λ (declared, c1).
      Bounded-shared (fits usize_max c1 declared) λ size.
        Bounded-shared (skip size c1)
          λ c2. Bounded-check (budget_laws.event budget st.event_offset) λ p. same_value _

  score_arm-Bounded :
      (class : EventClass) (st : Status) (c : Cursor) (time : ℕ) (budget : P)
      (s : ScoreTrackSemantics)
      → Bounded unbudgeted_round
          (score_arm policy grammar class st c time budget s)
          (score_arm unlimited_policy grammar class st c time tt s)
  unfolding score_arm
  score_arm-Bounded channel_event = score_channel_event-Bounded
  score_arm-Bounded meta_event = score_meta_event-Bounded
  score_arm-Bounded sysex_event = score_sysex_event-Bounded
  score_arm-Bounded invalid_event = λ st c time budget s. same_error _

  score_event-Bounded :
      (t : TrackState P)
      → Bounded unbudgeted_round
          (score_event policy grammar t)
          (score_event unlimited_policy grammar (unbudgeted t))
  unfolding score_event
  score_event-Bounded t = Bounded-shared (read_vlq t.cursor) λ (delta, c1).
      Bounded-shared (ok_or (checked_add u64_max t.time delta) _) λ time.
        Bounded-shared (read_status c1 t.running_status) λ (st, c2).
          score_arm-Bounded (classify st.status st.first_data) st c2 time t.budget t.semantics

  score_loop-Bounded :
      (fuel : ℕ) (t : TrackState P)
      → Bounded
          (λ (x : Bool × TrackState P). (x.0, unbudgeted x.1))
          (score_loop policy grammar fuel t)
          (score_loop unlimited_policy grammar fuel (unbudgeted t))
  unfolding score_loop
  score_loop-Bounded zero t = elim (Bool-cases (remaining t.cursor == 0)) [
    | inl done ↦ rw (done, score_loop) (same_value _)
    | inr more ↦ rw (more, score_loop) same_stuck
  ]
  score_loop-Bounded (suc fuel) t = elim (Bool-cases (remaining t.cursor == 0)) [
    | inl done ↦ rw (done, score_loop) (same_value _)
    | inr more ↦
        rw (more, score_loop)
          (Bounded-bind _ (score_event-Bounded t) (after (score_loop-Bounded fuel)))
  ]
    where
      after :
          ((t1 : TrackState P)
            → Bounded
                (λ (x : Bool × TrackState P). (x.0, unbudgeted x.1))
                (score_loop policy grammar fuel t1)
                (score_loop unlimited_policy grammar fuel (unbudgeted t1)))
          → (round : Round P)
          → Bounded
              (λ (x : Bool × TrackState P). (x.0, unbudgeted x.1))
              (elim round [
                | next t1 ↦ score_loop policy grammar fuel t1
                | ended t1 ↦ ok (true, t1)
              ])
              (elim (unbudgeted_round round) [
                | next t1 ↦ score_loop unlimited_policy grammar fuel t1
                | ended t1 ↦ ok (true, t1)
              ])
      after rest (next t1) = rest t1
      after rest (ended t1) = same_value _

  pub parse_score_track-Bounded :
      (c : Cursor) (source_track : ℕ) (score : TickScore) (budget : P)
      → Bounded
          (λ (x : TickScore × P). (x.0, tt))
          (parse_score_track policy grammar c source_track score budget)
          (parse_score_track unlimited_policy grammar c source_track score tt)
  unfolding parse_score_track
  parse_score_track-Bounded c source_track score budget =
      Bounded-bind _ (score_loop-Bounded (remaining c) _) λ (saw, t).
        Bounded-shared (check_end_of_track policy grammar saw t.cursor) λ _.
          Bounded-shared
            (finish source_track t.semantics.name t.cursor t.semantics.builder t.semantics.score)
            λ score1. same_value _
