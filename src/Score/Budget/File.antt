-- ===== src/Score/Budget/File.antt =====
-- A bounded parse of a file against the unlimited parse; the policy with explicit limits.
use mathlib.Core.Bool.{true, false}
use midi.Score.Arena.{TickScore, empty_score}
use midi.Cursor.{Cursor, read_tag, new, read_u16, absolute_offset, read_u32, fits, take_cursor}
use midi.Smf.{Header, expect_tag, track_chunk, format_from, header_chunk, check_header_size}
use midi.Result.{ParseError, Result, err, ok_or, ok}
use midi.Score.Parse.{
  parse_score_tracks, score_header, parse_score_smf_impl, parse_score_smf_with_limits,
  parse_score_smf, score_header_fields,
}
use midi.Prelude.{
  length, if◌then◌else◌, ltb, leb, ◌||◌, ℕ, zero, suc, Bool, Bytes, ◌≡◌, refl, ◌⊎◌, length, inl,
  inr, usize_max, ◌+◌, ◌-◌,
}
use midi.Score.Budget.{
  IsBudget, IsRefusal, over_limit, OnlyRefuses, passes, refuses, Bounded, same_value, same_error,
  same_stuck, refused, Bounded-bind, Bounded-shared, Bounded-check, Bounded-refl, ParseError,
  Result,
}
use midi.Score.Budget.Track.{parse_score_track-Bounded}
use midi.Score.Limits.{
  ScoreParsePolicy, unlimited_policy, ScoreGrammar, limited_check_input,
  limited_check_source_tracks, limited_check_track_bytes, ScoreParseLimits, limited_charge_event,
  limited_policy, limited_charge_note_start, legacy_grammar, limited_check_text_append, new_limited,
}

module _ {P : Type 0} (policy : ScoreParsePolicy P) (budget_laws : IsBudget policy)
    (grammar : ScoreGrammar) where
  parse_score_tracks-Bounded :
      (rounds source_track : ℕ) (c : Cursor) (score : TickScore) (budget : P)
      → Bounded
          (λ (x : Cursor × TickScore). x)
          (parse_score_tracks policy grammar rounds source_track c score budget)
          (parse_score_tracks unlimited_policy grammar rounds source_track c score tt)
  unfolding parse_score_tracks
  parse_score_tracks-Bounded zero source_track c score budget = same_value _
  parse_score_tracks-Bounded (suc rounds) source_track c score budget =
      Bounded-shared (read_tag c) λ (tag, c1).
        Bounded-shared (expect_tag track_chunk (absolute_offset c) tag) λ _.
          Bounded-shared (read_u32 c1) λ (declared, c2).
            Bounded-shared (fits usize_max c2 declared) λ size.
              Bounded-check (budget_laws.track_size budget size (absolute_offset c1)) λ _.
                Bounded-shared (take_cursor size c2) λ (track, c3).
                  Bounded-bind _
                    (parse_score_track-Bounded policy budget_laws grammar track source_track score
                      budget)
                    λ (score1, budget1).
                      parse_score_tracks-Bounded rounds (source_track + 1) c3 score1 budget1

  score_header-Bounded :
      (c : Cursor) (budget : P)
      → Bounded
          (λ (x : Header × Cursor). x)
          (score_header policy grammar c budget)
          (score_header unlimited_policy grammar c tt)
  unfolding score_header
  score_header-Bounded c budget = Bounded-shared (read_tag c) λ (tag, c1).
      Bounded-shared (expect_tag header_chunk 0 tag) λ _.
        Bounded-shared (read_u32 c1) λ (declared, c2).
          Bounded-shared (check_header_size (absolute_offset c1) declared) λ _.
            Bounded-shared (fits usize_max c2 declared) λ size.
              Bounded-shared (take_cursor size c2)
                λ (inner, c3). Bounded-bind _ (fields inner) λ header. same_value _
    where
      fields :
          (inner : Cursor)
          → Bounded
              (λ (h : Header). h)
              (score_header_fields policy grammar inner budget)
              (score_header_fields unlimited_policy grammar inner tt)
      fields inner = Bounded-shared (read_u16 inner) λ (raw, d1).
          Bounded-shared (ok_or (format_from raw) _) λ format.
            Bounded-shared (read_u16 d1) λ (count, d2).
              Bounded-check (budget_laws.tracks budget count (absolute_offset d1))
                λ _. Bounded-refl _

  pub parse_score_smf_impl-Bounded :
      (input : Bytes) (budget : P)
      → Bounded
          (λ (score : TickScore). score)
          (parse_score_smf_impl policy grammar input budget)
          (parse_score_smf_impl unlimited_policy grammar input tt)
  unfolding parse_score_smf_impl
  parse_score_smf_impl-Bounded input budget =
      Bounded-check (budget_laws.input budget (length input)) λ _.
        Bounded-bind _ (score_header-Bounded (new input 0) budget) λ (header, c).
          Bounded-bind _
            (parse_score_tracks-Bounded header.track_count 0 c (empty_score header) budget)
            λ x. Bounded-refl _

module _ {A : Type 0} where
  OnlyRefuses-if :
      (b : Bool) {e : ParseError} (a : A) → IsRefusal e → OnlyRefuses (if b then err e else ok a)
  OnlyRefuses-if true a r = refuses _ r
  OnlyRefuses-if false a r = passes a

pub limited_policy-IsBudget : IsBudget limited_policy
unfolding limited_check_input limited_check_source_tracks limited_check_track_bytes
    limited_charge_event limited_charge_note_start limited_check_text_append
limited_policy-IsBudget = record {
  input = λ p n. OnlyRefuses-if (ltb p.limits.max_input_bytes n) tt (over_limit _ _ _);
  tracks = λ p n offset. OnlyRefuses-if (ltb p.limits.max_source_tracks n) tt (over_limit _ _ _);
  track_size = λ p n offset. OnlyRefuses-if (ltb p.limits.max_track_bytes n) tt (over_limit _ _ _);
  event =
      λ p offset. OnlyRefuses-if (leb p.limits.max_events p.charged_events) _ (over_limit _ _ _);
  note_start = λ p offset.
      OnlyRefuses-if (leb p.limits.max_note_starts p.charged_note_starts) _ (over_limit _ _ _);
  text_size = λ p m n offset.
      OnlyRefuses-if (ltb p.limits.max_text_bytes m || ltb (p.limits.max_text_bytes - m) n) tt
        (over_limit _ _ _);
}

verdict :
    {A : Type 0} {m n : Result A}
    → Bounded (λ (a : A). a) m n
    → (m ≡ n) ⊎ ((e : ParseError) × (m ≡ err e) × IsRefusal e)
verdict (same_value a) = inl refl
verdict (same_error e) = inl refl
verdict same_stuck = inl refl
verdict (refused e r) = inr (e, refl, r)

-- Parsing with limits gives the very result of the parse without limits, a value as well as an
-- error, or fails with an exceeded ceiling.
pub parse_score_smf_with_limits-parse_score_smf :
    (input : Bytes) (limits : ScoreParseLimits)
    → (parse_score_smf_with_limits input limits ≡ parse_score_smf input)
      ⊎ ((e : ParseError) × (parse_score_smf_with_limits input limits ≡ err e) × IsRefusal e)
unfolding parse_score_smf_with_limits parse_score_smf
parse_score_smf_with_limits-parse_score_smf input limits = verdict (
    parse_score_smf_impl-Bounded limited_policy limited_policy-IsBudget legacy_grammar input
      (new_limited limits))
