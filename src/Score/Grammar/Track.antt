-- ===== src/Score/Grammar/Track.antt =====
-- One track under the strict grammar and under another.
use midi.Smf.{
  Status, EventClass, channel_event, meta_event, sysex_event, invalid_event, read_status, classify,
}
use midi.Score.Semantics.{
  check_nothing_left, handle_end_of_track, validate_score_meta, ScoreMetaEvent, ScoreTrackSemantics,
  meta, channel,
}
use midi.Prelude.{
  ℕ, ◌≡◌, refl, ap, sym, Bool, true, false, Bool-cases, inl, inr, ◌==◌, ==→eq, Option, none, Bytes,
  arith, ◌≤◌, usize_max, length, ◌+◌, le→leb, Bool-and_false, u64_max,
}
use midi.Result.{ok, ok_or, checked_add, error_at, tick_overflow}
use midi.Cursor.{Cursor, remaining, take, skip, read_u8, read_vlq, fits, absolute_offset}
use midi.Score.Limits.{ScoreParsePolicy, ScoreGrammar, strict_grammar}
use midi.Score.Grammar.{
  Accepted, both, refused, Accepted-bind, Accepted-shared, CanSee, Accepted-before,
}
use midi.Score.Parse.{
  TrackState, Round, next, ended, end_track, apply_meta, score_meta_event, score_arm, score_event,
  score_channel_event, score_sysex_event, read_score_channel_data,
}

-- The same state, but for the running status.
abbrev pub Same : {P : Type 0} → TrackState P → TrackState P → Type 0
Same t u = (running : Option ℕ) × (u ≡ record t { running_status = running })

-- What a round under the strict grammar is under another, which stops at End-of-Track or not.
pub data Rounds {P : Type 0} : Bool → Round P → Round P → Type 0 where
  goes_on : (stop : Bool) (t : TrackState P) → Rounds stop (next t) (next t)
  stops : (t : TrackState P) → Rounds true (ended t) (ended t)
  runs_out :
      (t u : TrackState P) → Same t u → remaining t.cursor ≡ 0 → Rounds false (ended t) (next u)

-- `take` leaves its cursor inside an addressable slice.
take-settles :
    (size : ℕ) (c d : Cursor) (payload : Bytes)
    → take size c ≡ ok (payload, d)
    → (d.position ≤ usize_max) × (d.position ≤ length d.bytes)
unfolding take
take-settles size c d payload e = ground arith

skip-zero : (d : Cursor) → d.position ≤ usize_max → d.position ≤ length d.bytes → skip 0 d ≡ ok d
unfolding take skip
skip-zero d h k =
    let here : d.position + 0 ≡ d.position = omega arith in
    rw (here, le→leb d.position usize_max h, le→leb d.position (length d.bytes) k) refl

module _ {P : Type 0} (policy : ScoreParsePolicy P) (g : ScoreGrammar) (sees : CanSee g) where
  check_nothing_left-Accepted :
      (c : Cursor)
      → skip 0 c ≡ ok c
      → Accepted
          (λ d e. (d ≡ e) × (remaining d ≡ 0))
          (check_nothing_left policy strict_grammar c)
          (check_nothing_left policy g c)
  unfolding check_nothing_left
  check_nothing_left-Accepted c s = elim (Bool-cases (remaining c == 0)) [
    | inr more ↦ rw more (refused _)
    | inl done ↦
        let none_left : remaining c ≡ 0 = ==→eq (remaining c) 0 done in
        elim (Bool-cases g.require_end_of_track) [
          | inl required ↦ rw (done, required) (both c c (refl, none_left))
          | inr lenient ↦ rw (done, lenient, none_left, s) (both c c (refl, none_left))
        ]
  ]

  handle_end_of_track-Accepted :
      (len offset : ℕ) (c : Cursor) (budget : P)
      → skip 0 c ≡ ok c
      → Accepted
          (λ x y. (x ≡ y) × (remaining x.0 ≡ 0))
          (handle_end_of_track policy strict_grammar len offset c budget)
          (handle_end_of_track policy g len offset c budget)
  unfolding handle_end_of_track
  handle_end_of_track-Accepted len offset c budget s = elim (Bool-cases (len == 0)) [
    | inr long ↦ rw long (refused _)
    | inl empty ↦
        rw (empty, Bool-and_false g.require_end_of_track)
          (Accepted-shared (policy.charge_event budget offset) λ p _.
            Accepted-bind _ (check_nothing_left-Accepted c s)
              λ d e r. both _ _ (ap (λ x. (x, p)) r.0, r.1))
  ]

  end_track-Accepted :
      (len : ℕ) (st : Status) (c : Cursor) (time : ℕ) (budget : P) (s : ScoreTrackSemantics)
      → skip 0 c ≡ ok c
      → Accepted
          (Rounds true)
          (end_track policy strict_grammar len st c time budget s)
          (end_track policy g len st c time budget s)
  unfolding end_track
  end_track-Accepted len st c time budget s k =
      Accepted-bind _ (handle_end_of_track-Accepted len st.event_offset c budget k)
        λ x y r. rw (sym r.0) (both _ _ (stops _))

  -- What the strict end of a track leaves unsaid: it is charged, and is the last event.
  handle_end_of_track-charge_event :
      (len offset : ℕ) (c : Cursor) (budget : P)
      → Accepted
          (λ x p. (x ≡ (c, p)) × (remaining c ≡ 0))
          (handle_end_of_track policy strict_grammar len offset c budget)
          (policy.charge_event budget offset)
  unfolding handle_end_of_track check_nothing_left
  handle_end_of_track-charge_event len offset c budget = elim (Bool-cases (len == 0)) [
    | inr long ↦ rw long (refused _)
    | inl empty ↦ rw empty (
        Accepted-before (policy.charge_event budget offset) λ p.
          elim (Bool-cases (remaining c == 0)) [
            | inr more ↦ rw more (refused _)
            | inl done ↦ rw done (both _ _ (refl, ==→eq (remaining c) 0 done))
          ])
  ]

  -- A grammar that does not stop takes End-of-Track for a meta event without meaning.
  end_track-apply_meta :
      (len : ℕ) (payload : Bytes) (st : Status) (c : Cursor) (time : ℕ) (budget : P)
      (s : ScoreTrackSemantics)
      → Accepted (Rounds false) (end_track policy strict_grammar len st c time budget s) (
          apply_meta policy g
            (record {
              meta_type = 0x2f;
              length = len;
              payload = payload;
              time = time;
              event_offset = st.event_offset;
            })
            c
            budget
            s)
  unfolding end_track apply_meta validate_score_meta meta
  end_track-apply_meta len payload st c time budget s =
      Accepted-bind _ (handle_end_of_track-charge_event len st.event_offset c budget)
        λ x p r. rw r.0 (both _ _ (runs_out _ _ (none, refl) r.1))

  apply_meta-Accepted :
      (stop : Bool) (event : ScoreMetaEvent) (c : Cursor) (budget : P) (s : ScoreTrackSemantics)
      → Accepted
          (Rounds stop)
          (apply_meta policy strict_grammar event c budget s)
          (apply_meta policy g event c budget s)
  unfolding apply_meta
  apply_meta-Accepted stop event c budget s =
      Accepted-shared
        (validate_score_meta event.meta_type event.length event.payload event.event_offset)
        λ _ _.
          Accepted-shared (policy.charge_event budget event.event_offset)
            λ p _. Accepted-shared (meta policy p event c s) λ s1 _. both _ _ (goes_on stop _)

  score_meta_event-Accepted :
      (st : Status) (c : Cursor) (time : ℕ) (budget : P) (s : ScoreTrackSemantics)
      → Accepted
          (Rounds g.stop_at_end_of_track)
          (score_meta_event policy strict_grammar st c time budget s)
          (score_meta_event policy g st c time budget s)
  unfolding score_meta_event handle_end_of_track
  score_meta_event-Accepted st c time budget s = Accepted-shared (read_u8 c) λ (meta_type, c1) _.
      Accepted-shared (read_vlq c1) λ (len, c2) _. Accepted-shared (fits usize_max c2 len) λ size _.
        Accepted-shared (take size c2) λ (payload, c3) taken.
          let (h, k) = take-settles size c2 c3 payload taken in
          elim (Bool-cases (meta_type == 0x2f)) [
            | inr other ↦
                rw (other, Bool-and_false g.stop_at_end_of_track)
                  (apply_meta-Accepted g.stop_at_end_of_track _ c3 budget s)
            | inl end ↦ elim (Bool-cases g.stop_at_end_of_track) [
              | inl watches ↦
                  rw (watches, end) (end_track-Accepted len st c3 time budget s (skip-zero c3 h k))
              | inr passes ↦
                  rw (passes, ==→eq meta_type 0x2f end)
                    (end_track-apply_meta len payload st c3 time budget s)
            ]
          ]

  score_arm-Accepted :
      (class : EventClass) (st : Status) (c : Cursor) (time : ℕ) (budget : P)
      (s : ScoreTrackSemantics)
      → Accepted
          (Rounds g.stop_at_end_of_track)
          (score_arm policy strict_grammar class st c time budget s)
          (score_arm policy g class st c time budget s)
  unfolding score_arm score_channel_event score_sysex_event
  score_arm-Accepted channel_event st c time budget s =
      Accepted-shared (read_score_channel_data c st.first_data st.status) λ (found, c1) _.
        Accepted-shared (policy.charge_event budget st.event_offset) λ p _.
          Accepted-shared (channel policy st.status found time st.event_offset p c1 s)
            λ (q, s1) _. both _ _ (goes_on _ _)
  score_arm-Accepted meta_event st c time budget s = score_meta_event-Accepted st c time budget s
  score_arm-Accepted sysex_event st c time budget s =
      Accepted-shared (read_vlq c) λ (declared, c1) _.
        Accepted-shared (fits usize_max c1 declared) λ size _.
          Accepted-shared (skip size c1) λ c2 _.
            Accepted-shared (policy.charge_event budget st.event_offset)
              λ p _. both _ _ (goes_on _ _)
  score_arm-Accepted invalid_event st c time budget s = refused _

  pub score_event-Accepted :
      (t : TrackState P)
      → Accepted
          (Rounds g.stop_at_end_of_track)
          (score_event policy strict_grammar t)
          (score_event policy g t)
  unfolding score_event
  score_event-Accepted t = Accepted-shared (read_vlq t.cursor) λ (delta, c1) _.
      Accepted-shared
        (ok_or (checked_add u64_max t.time delta)
          (error_at (absolute_offset t.cursor) tick_overflow))
        λ time _. Accepted-shared (read_status c1 t.running_status) λ (st, c2) _.
          score_arm-Accepted (classify st.status st.first_data) st c2 time t.budget t.semantics
