-- ===== src/Score/Limits.antt =====
-- Resource ceilings, the two parse policies, and the grammars of the score parser. The trait
-- `ScoreParsePolicy` is a record of its methods over the state that a policy keeps; a method that
-- takes `&mut self` returns the new state.
use midi.Prelude.{
  ℕ, ◌+◌, ◌-◌, ◌*◌, ◌||◌, Bool, true, false, u16_max, usize_max, ltb, leb, if◌then◌else◌,
}
use midi.Result.{
  Result, ok, err, error_at, ScoreResource, input_bytes, source_tracks, track_bytes, events,
  note_starts, text_bytes, resource_limit_exceeded,
}

pub record ScoreParseLimits : Type 0 where
  pub max_input_bytes : ℕ
  pub max_source_tracks : ℕ
  pub max_track_bytes : ℕ
  pub max_events : ℕ
  pub max_note_starts : ℕ
  pub max_text_bytes : ℕ

-- `ScoreParseLimits::DEFAULT`
abbrev pub default_limits : ScoreParseLimits
default_limits = record {
  max_input_bytes = 64 * 1024 * 1024;
  max_source_tracks = 4096;
  max_track_bytes = 16 * 1024 * 1024;
  max_events = 2_000_000;
  max_note_starts = 1_000_000;
  max_text_bytes = 16 * 1024 * 1024;
}

-- `ScoreParseLimits::UNLIMITED`
abbrev pub unlimited_limits : ScoreParseLimits
unlimited_limits = record {
  max_input_bytes = usize_max;
  max_source_tracks = u16_max;
  max_track_bytes = usize_max;
  max_events = usize_max;
  max_note_starts = usize_max;
  max_text_bytes = usize_max;
}

pub data ScoreParseMode : Type 0 where
  compatible_mode strict_mode : ScoreParseMode

pub record ScoreParseOptions : Type 0 where
  pub limits : ScoreParseLimits
  pub mode : ScoreParseMode

abbrev pub default_options : ScoreParseOptions
default_options = record { limits = default_limits; mode = compatible_mode }

pub record ScoreParsePolicy (P : Type 0) : Type 0 where
  pub check_input : P → ℕ → Result (Unit {0})
  pub check_source_tracks : P → ℕ → ℕ → Result (Unit {0})
  pub check_track_bytes : P → ℕ → ℕ → Result (Unit {0})
  pub charge_event : P → ℕ → Result P
  pub charge_note_start : P → ℕ → Result P
  pub check_text_append : P → ℕ → ℕ → ℕ → Result (Unit {0})

-- `UnlimitedScoreParsePolicy`
abbrev pub unlimited_policy : ScoreParsePolicy (Unit {0})
unlimited_policy = record {
  check_input = λ p bytes. ok tt;
  check_source_tracks = λ p count offset. ok tt;
  check_track_bytes = λ p bytes offset. ok tt;
  charge_event = λ p offset. ok tt;
  charge_note_start = λ p offset. ok tt;
  check_text_append = λ p current appended offset. ok tt;
}

pub record LimitedScoreParsePolicy : Type 0 where
  pub limits : ScoreParseLimits
  pub charged_events : ℕ
  pub charged_note_starts : ℕ

-- `LimitedScoreParsePolicy::new`
abbrev pub new_limited : ScoreParseLimits → LimitedScoreParsePolicy
new_limited limits = record { limits = limits; charged_events = 0; charged_note_starts = 0 }

abbrev exceeded {ℓ} : {A : Type ℓ} → ℕ → ScoreResource → ℕ → Result A
exceeded offset resource limit = err (error_at offset (resource_limit_exceeded resource limit))

unfoldable pub limited_check_input : LimitedScoreParsePolicy → ℕ → Result (Unit {0})
limited_check_input p bytes =
    if ltb p.limits.max_input_bytes bytes
    then exceeded 0 input_bytes p.limits.max_input_bytes
    else ok tt

unfoldable pub limited_check_source_tracks : LimitedScoreParsePolicy → ℕ → ℕ → Result (Unit {0})
limited_check_source_tracks p count offset =
    if ltb p.limits.max_source_tracks count
    then exceeded offset source_tracks p.limits.max_source_tracks
    else ok tt

unfoldable pub limited_check_track_bytes : LimitedScoreParsePolicy → ℕ → ℕ → Result (Unit {0})
limited_check_track_bytes p bytes offset =
    if ltb p.limits.max_track_bytes bytes
    then exceeded offset track_bytes p.limits.max_track_bytes
    else ok tt

unfoldable pub limited_charge_event : LimitedScoreParsePolicy → ℕ → Result LimitedScoreParsePolicy
limited_charge_event p offset =
    if leb p.limits.max_events p.charged_events
    then exceeded offset events p.limits.max_events
    else ok (record p { charged_events = p.charged_events + 1 })

unfoldable pub limited_charge_note_start :
    LimitedScoreParsePolicy → ℕ → Result LimitedScoreParsePolicy
limited_charge_note_start p offset =
    if leb p.limits.max_note_starts p.charged_note_starts
    then exceeded offset note_starts p.limits.max_note_starts
    else ok (record p { charged_note_starts = p.charged_note_starts + 1 })

unfoldable pub limited_check_text_append : LimitedScoreParsePolicy → ℕ → ℕ → ℕ → Result (Unit {0})
limited_check_text_append p current appended offset =
    if ltb p.limits.max_text_bytes current || ltb (p.limits.max_text_bytes - current) appended
    then exceeded offset text_bytes p.limits.max_text_bytes
    else ok tt

abbrev pub limited_policy : ScoreParsePolicy LimitedScoreParsePolicy
limited_policy = record {
  check_input = limited_check_input;
  check_source_tracks = limited_check_source_tracks;
  check_track_bytes = limited_check_track_bytes;
  charge_event = limited_charge_event;
  charge_note_start = limited_charge_note_start;
  check_text_append = limited_check_text_append;
}

-- The constants of the trait `ScoreGrammar`.
pub record ScoreGrammar : Type 0 where
  pub stop_at_end_of_track : Bool
  pub require_end_of_track : Bool
  pub validate_division : Bool
  pub reject_trailing_bytes : Bool

abbrev pub legacy_grammar : ScoreGrammar
legacy_grammar = record {
  stop_at_end_of_track = false;
  require_end_of_track = false;
  validate_division = false;
  reject_trailing_bytes = false;
}

abbrev pub compatible_grammar : ScoreGrammar
compatible_grammar = record {
  stop_at_end_of_track = true;
  require_end_of_track = false;
  validate_division = false;
  reject_trailing_bytes = false;
}

abbrev pub strict_grammar : ScoreGrammar
strict_grammar = record {
  stop_at_end_of_track = true;
  require_end_of_track = true;
  validate_division = true;
  reject_trailing_bytes = true;
}
