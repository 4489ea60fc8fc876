-- ===== src/Score/Ceilings/File.antt =====
-- The ceilings of a bounded parse hold of the score.
use midi.Score.Ceilings.Loop.{parse_score_tracks-Below}
use midi.Result.{ok_or, ok}
use midi.Cursor.{Cursor, read_tag, read_u16, new, absolute_offset, read_u32, fits, take_cursor}
use midi.Result.Yields.{Yields, Yields-any, Yields-bind, value, refused, Yields-ok}
use midi.Score.Arena.{TickScore, empty_score}
use midi.Score.Parse.{
  score_header_fields, score_header, parse_score_smf_impl, sort_globals, check_trailing,
  check_division, parse_score_smf_with_options, grammar_of,
}
use midi.Smf.{expect_tag, format_from, header_chunk, check_header_size}
use midi.Score.Limits.{
  ScoreGrammar, ScoreParseLimits, limited_check_input, limited_check_source_tracks,
  LimitedScoreParsePolicy, limited_policy, ScoreParseOptions, new_limited,
}
use midi.Prelude.{ℕ, refl, Bytes, ◌≡◌, length, ◌≤◌, Bool-cases, ltb, inl, inr, arith, usize_max}

-- A score that was parsed under limits keeps them: the input, the number of its source tracks and the
-- retained text are at most what the limits allow.
pub record WithinLimits (limits : ScoreParseLimits) (input : Bytes) (score : TickScore)
    : Type 0 where
  pub input_bytes : length input ≤ limits.max_input_bytes
  pub source_tracks : score.header.track_count ≤ limits.max_source_tracks
  pub text_bytes : length score.text_data ≤ limits.max_text_bytes

check_input-Yields :
    (p : LimitedScoreParsePolicy) (n : ℕ)
    → Yields (λ _. n ≤ p.limits.max_input_bytes) (limited_check_input p n)
unfolding limited_check_input
check_input-Yields p n = elim (Bool-cases (ltb p.limits.max_input_bytes n)) [
  | inl over ↦ rw over (refused _)
  | inr fine ↦ rw fine (value _ (ground arith))
]

check_source_tracks-Yields :
    (p : LimitedScoreParsePolicy) (n offset : ℕ)
    → Yields (λ _. n ≤ p.limits.max_source_tracks) (limited_check_source_tracks p n offset)
unfolding limited_check_source_tracks
check_source_tracks-Yields p n offset = elim (Bool-cases (ltb p.limits.max_source_tracks n)) [
  | inl over ↦ rw over (refused _)
  | inr fine ↦ rw fine (value _ (ground arith))
]

module _ (g : ScoreGrammar) (p : LimitedScoreParsePolicy) where
  score_header_fields-Yields :
      (c : Cursor)
      → Yields
          (λ header. header.track_count ≤ p.limits.max_source_tracks)
          (score_header_fields limited_policy g c p)
  unfolding score_header_fields
  score_header_fields-Yields c = Yields-any (read_u16 c) λ (raw, c1) _.
      Yields-any (ok_or (format_from raw) _) λ format _. Yields-any (read_u16 c1) λ (count, c2) _.
        Yields-bind (check_source_tracks-Yields p count (absolute_offset c1)) λ _ h.
          Yields-any (read_u16 c2) λ (division, c3) _.
            Yields-any (check_division limited_policy g division (absolute_offset c2))
              λ _ _. value _ h

  score_header-Yields :
      (c : Cursor)
      → Yields
          (λ x. x.0.track_count ≤ p.limits.max_source_tracks)
          (score_header limited_policy g c p)
  unfolding score_header
  score_header-Yields c = Yields-any (read_tag c) λ (tag, c1) _.
      Yields-any (expect_tag header_chunk 0 tag) λ _ _. Yields-any (read_u32 c1) λ (declared, c2) _.
        Yields-any (check_header_size (absolute_offset c1) declared) λ _ _.
          Yields-any (fits usize_max c2 declared) λ size _.
            Yields-any (take_cursor size c2)
              λ (inner, c3) _. Yields-bind (score_header_fields-Yields inner) λ header h. value _ h

  parse_score_smf_impl-Yields :
      (input : Bytes)
      → Yields (WithinLimits p.limits input) (parse_score_smf_impl limited_policy g input p)
  unfolding parse_score_smf_impl sort_globals
  parse_score_smf_impl-Yields input = Yields-bind (check_input-Yields p (length input)) λ _ small.
      Yields-bind (score_header-Yields (new input 0)) λ (header, c) few.
        Yields-bind
          (parse_score_tracks-Below g p.limits header header.track_count 0 c (empty_score header) p
            (record { same_limits = refl; same_header = refl; text = omega arith }))
          λ (c1, score) k. Yields-any (check_trailing limited_policy g c1) λ _ _.
            value _ (record { input_bytes = small; source_tracks = rw k.0 few; text_bytes = k.1 })

-- A score that was parsed with options is within their limits: the input, the number of source tracks
-- and the retained text are at most what the limits allow.
pub parse_score_smf_with_options-WithinLimits :
    (input : Bytes) (options : ScoreParseOptions) (score : TickScore)
    → parse_score_smf_with_options input options ≡ ok score
    → WithinLimits options.limits input score
unfolding parse_score_smf_with_options
parse_score_smf_with_options-WithinLimits input options score e =
    Yields-ok score e
      (parse_score_smf_impl-Yields (grammar_of options.mode) (new_limited options.limits) input)
