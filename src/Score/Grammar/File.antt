-- ===== src/Score/Grammar/File.antt =====
-- The file under the strict grammar and under another.
use midi.Score.Budget.File.{parse_score_smf_with_limits-parse_score_smf}
use midi.Score.Grammar.Loop.{parse_score_track-Accepted}
use midi.Score.Semantics.{validate_strict_division}
use midi.Score.Budget.{refused}
use midi.Result.{ok_or, error_at, invalid_format, ok}
use midi.Smf.{expect_tag, track_chunk, format_from, header_chunk, check_header_size}
use midi.Score.Arena.{TickScore, empty_score}
use midi.Cursor.{
  Cursor, read_tag, read_u16, remaining, new, absolute_offset, read_u32, fits, take_cursor,
}
use midi.Score.Parse.{
  parse_score_tracks, check_division, score_header_fields, score_header, check_trailing,
  parse_score_smf_impl, parse_score_smf_with_options, parse_score_smf_with_limits, parse_score_smf,
}
use midi.Score.Grammar.{
  CanSee, Accepted, both, Accepted-shared, Accepted-refl, Accepted-bind, Accepted-to_ok, refused,
  Accepted-ok,
}
use midi.Score.Limits.{
  ScoreParsePolicy, ScoreGrammar, strict_grammar, ScoreParseLimits, strict_mode, compatible_mode,
  limited_policy, legacy_grammar, new_limited, compatible_grammar,
}
use midi.Prelude.{
  ℕ, zero, suc, refl, Bytes, ◌≡◌, Bool-cases, inl, length, ◌==◌, inr, Bool-and_false, sym,
  usize_max, ◌∙◌, ◌+◌, ap,
}

module _ {P : Type 0} (policy : ScoreParsePolicy P) (g : ScoreGrammar) (sees : CanSee g) where
  parse_score_tracks-Accepted :
      (rounds source_track : ℕ) (c : Cursor) (score : TickScore) (budget : P)
      → Accepted
          (λ x y. x ≡ y)
          (parse_score_tracks policy strict_grammar rounds source_track c score budget)
          (parse_score_tracks policy g rounds source_track c score budget)
  unfolding parse_score_tracks
  parse_score_tracks-Accepted zero source_track c score budget = both _ _ refl
  parse_score_tracks-Accepted (suc rounds) source_track c score budget =
      Accepted-shared (read_tag c) λ (tag, c1) _.
        Accepted-shared (expect_tag track_chunk (absolute_offset c) tag) λ _ _.
          Accepted-shared (read_u32 c1) λ (declared, c2) _.
            Accepted-shared (fits usize_max c2 declared) λ size _.
              Accepted-shared (policy.check_track_bytes budget size (absolute_offset c1)) λ _ _.
                Accepted-shared (take_cursor size c2) λ (track, c3) _.
                  Accepted-bind _
                    (parse_score_track-Accepted policy g sees track source_track score budget)
                    λ x y e.
                      rw (sym e) (parse_score_tracks-Accepted rounds (source_track + 1) c3 x.0 x.1)

  check_division-Accepted :
      (division offset : ℕ)
      → Accepted
          (λ _ _. Unit {0})
          (check_division policy strict_grammar division offset)
          (check_division policy g division offset)
  unfolding check_division
  check_division-Accepted division offset = elim (Bool-cases g.validate_division) [
    | inl checks ↦ rw checks (Accepted-refl _ λ _. tt)
    | inr takes_all ↦
        rw takes_all (Accepted-to_ok (validate_strict_division division offset) λ _. tt)
  ]

  score_header_fields-Accepted :
      (c : Cursor) (budget : P)
      → Accepted
          (λ x y. x ≡ y)
          (score_header_fields policy strict_grammar c budget)
          (score_header_fields policy g c budget)
  unfolding score_header_fields
  score_header_fields-Accepted c budget = Accepted-shared (read_u16 c) λ (raw, c1) _.
      Accepted-shared (ok_or (format_from raw) (error_at c1.base (invalid_format raw))) λ format _.
        Accepted-shared (read_u16 c1) λ (count, c2) _.
          Accepted-shared (policy.check_source_tracks budget count (absolute_offset c1)) λ _ _.
            Accepted-shared (read_u16 c2) λ (division, c3) _.
              Accepted-bind _ (check_division-Accepted division (absolute_offset c2))
                λ _ _ _. both _ _ refl

  score_header-Accepted :
      (c : Cursor) (budget : P)
      → Accepted
          (λ x y. x ≡ y)
          (score_header policy strict_grammar c budget)
          (score_header policy g c budget)
  unfolding score_header
  score_header-Accepted c budget = Accepted-shared (read_tag c) λ (tag, c1) _.
      Accepted-shared (expect_tag header_chunk 0 tag) λ _ _.
        Accepted-shared (read_u32 c1) λ (declared, c2) _.
          Accepted-shared (check_header_size (absolute_offset c1) declared) λ _ _.
            Accepted-shared (fits usize_max c2 declared) λ size _.
              Accepted-shared (take_cursor size c2) λ (header, c3) _.
                Accepted-bind _ (score_header_fields-Accepted header budget)
                  λ x y e. rw (sym e) (both _ _ refl)

  check_trailing-Accepted :
      (c : Cursor)
      → Accepted
          (λ _ _. Unit {0})
          (check_trailing policy strict_grammar c)
          (check_trailing policy g c)
  unfolding check_trailing
  check_trailing-Accepted c = elim (Bool-cases (remaining c == 0)) [
    | inl done ↦ rw (done, Bool-and_false g.reject_trailing_bytes) (both _ _ tt)
    | inr more ↦ rw more (refused _)
  ]

  pub parse_score_smf_impl-Accepted :
      (input : Bytes) (budget : P)
      → Accepted
          (λ x y. x ≡ y)
          (parse_score_smf_impl policy strict_grammar input budget)
          (parse_score_smf_impl policy g input budget)
  unfolding parse_score_smf_impl
  parse_score_smf_impl-Accepted input budget =
      Accepted-shared (policy.check_input budget (length input)) λ _ _.
        Accepted-bind _ (score_header-Accepted (new input 0) budget) λ x y e. rw (sym e) (
          Accepted-bind _
            (parse_score_tracks-Accepted x.0.track_count 0 x.1 (empty_score x.0) budget)
            λ u v f.
              rw (sym f) (Accepted-bind _ (check_trailing-Accepted u.0) λ _ _ _. both _ _ refl))

  -- What the strict grammar accepts, every grammar that stops at End-of-Track if it requires one
  -- accepts under the same policy, with the same score.
  pub parse_score_smf_impl-strict_grammar :
      (input : Bytes) (budget : P) (score : TickScore)
      → parse_score_smf_impl policy strict_grammar input budget ≡ ok score
      → parse_score_smf_impl policy g input budget ≡ ok score
  parse_score_smf_impl-strict_grammar input budget score e =
      let (found, accepts, same) =
        Accepted-ok (λ x y. x ≡ y) score e (parse_score_smf_impl-Accepted input budget) in
      accepts ∙ ap ok (sym same)

-- The entry points agree on a file that the strict mode accepts under some limits: the compatible
-- mode under them, the parse with them alone, and the parse without limits give the same score.
pub parse_score_smf_with_options-parse_score_smf :
    (input : Bytes) (limits : ScoreParseLimits) (score : TickScore)
    → parse_score_smf_with_options input (record { limits = limits; mode = strict_mode }) ≡ ok score
    → (parse_score_smf_with_options input (record { limits = limits; mode = compatible_mode })
        ≡ ok score)
      × (parse_score_smf_with_limits input limits ≡ ok score)
      × (parse_score_smf input ≡ ok score)
unfolding parse_score_smf_with_options parse_score_smf_with_limits
parse_score_smf_with_options-parse_score_smf input limits score e =
    let legacy =
      parse_score_smf_impl-strict_grammar limited_policy legacy_grammar (λ h. h) input
        (new_limited limits) score e in
    (
      parse_score_smf_impl-strict_grammar limited_policy compatible_grammar (λ h. refl) input
          (new_limited limits) score e,
      legacy,
      elim (parse_score_smf_with_limits-parse_score_smf input limits) [
        | inl same ↦ sym same ∙ legacy
        | inr (f, stops, _) ↦ cc
      ],
    )
