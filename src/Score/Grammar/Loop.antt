-- ===== src/Score/Grammar/Loop.antt =====
-- The loop of a track, and the track, under the strict grammar and under another.
use midi.Score.Arena.{TickScore}
use midi.Score.Budget.{refused}
use midi.Cursor.{remaining, Cursor}
use midi.Result.{ok}
use midi.Score.Grammar.{CanSee, Accepted, both, looped, Accepted-bind, refused, Accepted-refl}
use midi.Score.Grammar.Track.{Same, Rounds, score_event-Accepted, goes_on, stops, runs_out}
use midi.Score.Parse.{
  TrackState, score_loop, Round, next, ended, check_end_of_track, parse_score_track,
}
use midi.Score.Limits.{ScoreParsePolicy, ScoreGrammar, strict_grammar}
use midi.Prelude.{refl, ℕ, zero, suc, Bool, ◌&&◌, ◌≡◌, Bool-cases, false, ◌==◌, inl, inr, true}

-- What the loops leave: the strict one has seen End-of-Track at least where the other has.
abbrev pub Leaves : {P : Type 0} → Bool → Bool × TrackState P → Bool × TrackState P → Type 0
Leaves stop x y = (y.0 ≡ (x.0 && stop)) × Same x.1 y.1

module _ {P : Type 0} (policy : ScoreParsePolicy P) (g : ScoreGrammar) (sees : CanSee g) where
  -- At the end of the bytes the loop is over, whatever its fuel.
  score_loop-at_end :
      (fuel : ℕ) (t : TrackState P)
      → remaining t.cursor ≡ 0
      → score_loop policy g fuel t ≡ ok (false, t)
  unfolding score_loop
  score_loop-at_end zero t e = rw (score_loop, e) refl
  score_loop-at_end (suc fuel) t e = rw (score_loop, e) refl

  -- The loop after a round.
  abbrev Onward : ℕ → Bool → TrackState P → Type 0
  Onward fuel stop t =
      Accepted (Leaves stop) (score_loop policy strict_grammar fuel t) (score_loop policy g fuel t)

  round-Accepted :
      (fuel : ℕ) (stop : Bool) (r r' : Round P)
      → Rounds stop r r'
      → ((t : TrackState P) → Onward fuel stop t)
      → Accepted
          (Leaves stop)
          (elim r [ next t ↦ score_loop policy strict_grammar fuel t | ended t ↦ ok (true, t) ])
          (elim r' [ next t ↦ score_loop policy g fuel t | ended t ↦ ok (true, t) ])
  round-Accepted fuel _ _ _ (goes_on _ t) rest = rest t
  round-Accepted fuel _ _ _ (stops t) rest = both _ _ (refl, (_, refl))
  round-Accepted fuel _ _ _ (runs_out t u alike e) rest =
      let left : remaining u.cursor ≡ 0 = rw alike.1 e in
      rw (score_loop-at_end fuel u left) (both _ _ (refl, alike))

  score_loop-Accepted :
      (fuel : ℕ) (t : TrackState P)
      → Accepted
          (Leaves g.stop_at_end_of_track)
          (score_loop policy strict_grammar fuel t)
          (score_loop policy g fuel t)
  unfolding score_loop
  score_loop-Accepted zero t = elim (Bool-cases (remaining t.cursor == 0)) [
    | inl done ↦ rw (score_loop, done) (both _ _ (refl, (_, refl)))
    | inr more ↦ rw (score_loop, more) looped
  ]
  score_loop-Accepted (suc fuel) t = elim (Bool-cases (remaining t.cursor == 0)) [
    | inl done ↦ rw (score_loop, done) (both _ _ (refl, (_, refl)))
    | inr more ↦
        rw (score_loop, more)
          (Accepted-bind _ (score_event-Accepted policy g sees t)
            λ r r' h. round-Accepted fuel g.stop_at_end_of_track r r' h (score_loop-Accepted fuel))
  ]

  check_end_of_track-Accepted :
      (saw : Bool) (c : Cursor)
      → Accepted
          (λ _ _. saw ≡ true)
          (check_end_of_track policy strict_grammar saw c)
          (check_end_of_track policy g (saw && g.stop_at_end_of_track) c)
  unfolding check_end_of_track
  check_end_of_track-Accepted false c = refused _
  check_end_of_track-Accepted true c = elim (Bool-cases g.require_end_of_track) [
    | inl required ↦ rw (required, sees required) (both _ _ refl)
    | inr lenient ↦ rw lenient (both _ _ refl)
  ]

  -- A track that the strict grammar accepts is read alike, to the same budget.
  pub parse_score_track-Accepted :
      (c : Cursor) (source_track : ℕ) (score : TickScore) (budget : P)
      → Accepted
          (λ x y. x ≡ y)
          (parse_score_track policy strict_grammar c source_track score budget)
          (parse_score_track policy g c source_track score budget)
  unfolding parse_score_track
  parse_score_track-Accepted c source_track score budget =
      Accepted-bind _ (score_loop-Accepted (remaining c) _) λ x y h.
        rw (h.0, h.1.1)
          (Accepted-bind _ (check_end_of_track-Accepted x.0 x.1.cursor)
            λ _ _ _. Accepted-refl _ λ _. refl)
