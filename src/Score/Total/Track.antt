-- ===== src/Score/Total/Track.antt =====
-- The loop of a track has enough fuel: every event that goes on has read a byte.
use mathlib.Core.Option.{none}
use midi.Score.Total.Builder.{channel-Settles, meta-Settles}
use midi.Smf.Bounds.{read_data_byte-Ensures, validate_first-Ensures, read_status-Ensures}
use midi.Smf.{Status, EventClass, channel_event, meta_event, sysex_event, classify, invalid_event}
use midi.Result.Settles.{
  Settles, Settles-if, failed, returned, Ensures-Settles, Settles-Ensures, Settles-bind,
  Settles-Yields, Ensures-Yields,
}
use midi.Cursor.Bounds.{
  IsValid, Moved, Moved-IsValid, read_vlq-Ensures, Moved-trans, Moved-refl, read_u8-Ensures,
  skip-Ensures, fits-Ensures, take-Ensures, checked_add-Ensures, Moved-length,
}
use midi.Score.Semantics.{
  handle_end_of_track, validate_score_meta, check_nothing_left, ScoreTrackSemantics, byte_at,
}
use midi.Result.Ensures.{Ensures, Ensures-bind, Ensures-weaken, returns, fails}
use midi.Score.Limits.{ScoreGrammar, unlimited_policy}
use midi.Score.Parse.{
  read_first, read_score_channel_data, Round, read_second, next, ended, score_channel_event,
  score_sysex_event, score_meta_event, end_track, apply_meta, score_arm, score_event, score_loop,
  TrackState,
}
use midi.Cursor.{Cursor, remaining}
use midi.Result.{Result, ParseError, ◌>>=◌, tick_overflow}
use midi.Prelude.{
  ℕ, zero, suc, Option, ◌<◌, Bytes, Bool-cases, ◌/◌, some, ◌^◌, ◌&&◌, ◌==◌, not, ◌||◌, arith, inl,
  ◌+◌, inr, refl, usize_max, length, leb, ◌≤◌, u64_max, ◌≡◌,
}

-- A result whose value has the property; the error may be any.
abbrev Reaches {ℓ} : {A : Type ℓ} → (A → Type 0) → Result A → Type ℓ
Reaches P r = Ensures P (λ _. Unit {0}) r

module _ {ℓ κ} {A : Type ℓ} {B : Type κ} {P : A → Type 0} {Q : ParseError → Type 0}
    {R : B → Type 0} where
  Reaches-bind :
      {m : Result A} {k : A → Result B}
      → Ensures P Q m
      → ((a : A) → P a → Reaches R (k a))
      → Reaches R (m >>= k)
  Reaches-bind h l = Ensures-bind h (λ _ _. tt) l

-- The cursor has moved on, if the loop goes on.
abbrev Ahead : Cursor → Round (Unit {0}) → Type 0
Ahead c (next t) = (n : ℕ) × Moved c n t.cursor × (0 < n)
Ahead c (ended t) = Unit {0}

read_first-Ensures :
    (c : Cursor) (first_data : Option ℕ)
    → IsValid c
    → 0 < c.position
    → Reaches (λ x. (n : ℕ) × Moved c n x.1) (read_first c first_data)
unfolding read_first
read_first-Ensures c none v p =
    Ensures-weaken (λ x h. (1, h.0)) (λ _ _. tt) (read_data_byte-Ensures c v)
read_first-Ensures c (some byte) v p =
    Reaches-bind (validate_first-Ensures c (some byte) v p) λ _ _. returns _ (0, Moved-refl v)

read_score_channel_data-Ensures :
    (c : Cursor) (first_data : Option ℕ) (status : ℕ)
    → IsValid c
    → 0 < c.position
    → Reaches (λ x. (n : ℕ) × Moved c n x.1) (read_score_channel_data c first_data status)
unfolding read_score_channel_data read_second
read_score_channel_data-Ensures c first_data status v p =
    Reaches-bind (read_first-Ensures c first_data v p) λ (first, c1) (n, m).
      elim (Bool-cases (status / 2 ^ 4 == 0x0c || status / 2 ^ 4 == 0x0d)) [
        | inl one ↦ rw one (returns _ (n, m))
        | inr two ↦ rw two (
            Reaches-bind (read_data_byte-Ensures c1 (Moved-IsValid n m v))
              λ (second, c2) h. returns _ (n + 1, Moved-trans n 1 (n + 1) refl m h.0))
      ]

module _ (g : ScoreGrammar) where
  handle_end_of_track-Settles :
      (len offset : ℕ) (c : Cursor)
      → IsValid c
      → Settles (handle_end_of_track unlimited_policy g len offset c tt)
  unfolding handle_end_of_track check_nothing_left
  handle_end_of_track-Settles len offset c v =
      Settles-if (g.require_end_of_track && not (len == 0)) (failed _)
        (Settles-bind (nothing_left) λ _ _. returned _)
    where
      nothing_left : Settles (check_nothing_left unlimited_policy g c)
      nothing_left = Settles-if (g.require_end_of_track && not (remaining c == 0)) (failed _) (
          Settles-if (not g.require_end_of_track) (Ensures-Settles (skip-Ensures (remaining c) c v))
            (returned c))

  validate_score_meta-Settles :
      (meta_type len : ℕ) (payload : Bytes) (offset : ℕ)
      → Settles (validate_score_meta meta_type len payload offset)
  unfolding validate_score_meta
  validate_score_meta-Settles meta_type len payload offset =
      Settles-if (meta_type == 0x51 && not (length payload == 3)) (failed _) (
        Settles-if (meta_type == 0x58 && not (length payload == 4)) (failed _) (
          Settles-if (meta_type == 0x58 && leb 64 (byte_at payload 1)) (failed _)
            (Settles-if (meta_type == 0x59 && not (length payload == 2)) (failed _) (returned _))))

  -- What every arm is given: a cursor behind the `n` bytes of the delta and the status.
  module _ (c : Cursor) (v : IsValid c) (n : ℕ) (d : Cursor) (m : Moved c n d) (forward : 0 < n)
      (st : Status) (time : ℕ) (s : ScoreTrackSemantics) where
    score_channel_event-Ahead :
        Reaches (Ahead c) (score_channel_event unlimited_policy g st d time tt s)
    unfolding score_channel_event
    score_channel_event-Ahead =
        Reaches-bind
          (read_score_channel_data-Ensures d st.first_data st.status (Moved-IsValid n m v)
            (omega arith))
          λ (found, d1) (k, m1).
            Reaches-bind
              (Settles-Ensures (channel-Settles st.status found time st.event_offset d1 s))
              λ _ _. returns _ (n + k, Moved-trans n k (n + k) refl m m1, omega arith)

    score_sysex_event-Ahead :
        Reaches (Ahead c) (score_sysex_event unlimited_policy g st d time tt s)
    unfolding score_sysex_event
    score_sysex_event-Ahead =
        Reaches-bind (read_vlq-Ensures d (Moved-IsValid n m v)) λ (declared, d1) r.
          let m1 = Moved-trans n r.size (n + r.size) refl m r.bytes_read in
          let v1 = Moved-IsValid (n + r.size) m1 v in
          Reaches-bind (fits-Ensures usize_max d1 declared v1) λ size _.
            Reaches-bind (skip-Ensures size d1 v1) λ d2 m2. returns _ (
              n + r.size + size,
              Moved-trans (n + r.size) size (n + r.size + size) refl m1 m2,
              omega arith,
            )

    score_meta_event-Ahead : Reaches (Ahead c) (score_meta_event unlimited_policy g st d time tt s)
    unfolding score_meta_event end_track apply_meta
    score_meta_event-Ahead =
        Reaches-bind (read_u8-Ensures d (Moved-IsValid n m v)) λ (meta_type, d1) m1.
          let p1 = Moved-trans n 1 (n + 1) refl m m1 in
          let v1 = Moved-IsValid (n + 1) p1 v in
          Reaches-bind (read_vlq-Ensures d1 v1) λ (len, d2) r.
            let p2 = Moved-trans (n + 1) r.size (n + 1 + r.size) refl p1 r.bytes_read in
            let v2 = Moved-IsValid (n + 1 + r.size) p2 v in
            Reaches-bind (fits-Ensures usize_max d2 len v2) λ size _.
              Reaches-bind (take-Ensures size d2 v2) λ (payload, d3) (m3, _).
                let p3 = Moved-trans (n + 1 + r.size) size (n + 1 + r.size + size) refl p2 m3 in
                let v3 = Moved-IsValid (n + 1 + r.size + size) p3 v in
                elim (Bool-cases (g.stop_at_end_of_track && meta_type == 0x2f)) [
                  | inl last ↦ rw last (
                      Reaches-bind
                        (Settles-Ensures (handle_end_of_track-Settles len st.event_offset d3 v3))
                        λ _ _. returns _ tt)
                  | inr other ↦ rw other (
                      Reaches-bind
                        (Settles-Ensures
                          (validate_score_meta-Settles meta_type len payload st.event_offset))
                        λ _ _.
                          Reaches-bind (Settles-Ensures (meta-Settles _ d3 s))
                            λ _ _. returns _ (n + 1 + r.size + size, p3, omega arith))
                ]

    score_arm-Ahead :
        (class : EventClass) → Reaches (Ahead c) (score_arm unlimited_policy g class st d time tt s)
    unfolding score_arm
    score_arm-Ahead channel_event = score_channel_event-Ahead
    score_arm-Ahead meta_event = score_meta_event-Ahead
    score_arm-Ahead sysex_event = score_sysex_event-Ahead
    score_arm-Ahead invalid_event = fails _ tt

  score_event-Ahead :
      (t : TrackState (Unit {0}))
      → IsValid t.cursor
      → Reaches (Ahead t.cursor) (score_event unlimited_policy g t)
  unfolding score_event
  score_event-Ahead t v = Reaches-bind (read_vlq-Ensures t.cursor v) λ (delta, c1) r.
      let v1 = Moved-IsValid r.size r.bytes_read v in
      Reaches-bind (checked_add-Ensures u64_max t.time delta t.cursor tick_overflow v) λ time _.
        Reaches-bind (read_status-Ensures c1 t.running_status v1) λ (st, c2) p.
          score_arm-Ahead t.cursor v (r.size + 1) c2
            (Moved-trans r.size 1 (r.size + 1) refl r.bytes_read p.0) (omega arith) st time
            t.semantics (classify st.status st.first_data)

  pub score_loop-Settles :
      (fuel : ℕ) (t : TrackState (Unit {0}))
      → IsValid t.cursor
      → remaining t.cursor ≤ fuel
      → Settles (score_loop unlimited_policy g fuel t)
  unfolding score_loop
  score_loop-Settles zero t v h =
      let none_left : remaining t.cursor ≡ 0 = omega arith in
      rw (score_loop, none_left) (returned _)
  score_loop-Settles (suc fuel) t v h = elim (Bool-cases (remaining t.cursor == 0)) [
    | inl done ↦ rw (score_loop, done) (returned _)
    | inr more ↦
        let step = score_event-Ahead t v in
        rw (score_loop, more)
          (Settles-Yields (Ensures-Settles step) (Ensures-Yields step) (elim [
            | ended u ↦ λ _. returned _
            | next u ↦ λ (n, m, forward).
                score_loop-Settles fuel u (Moved-IsValid n m v) (omega (arith, Moved-length n m))
          ]))
  ]
