-- ===== src/Tests/Grammars.antt =====
-- The agreement of the grammars at a concrete file.
use midi.Score.Arena.{TickScore}
use midi.Result.{ok}
use midi.Score.Limits.{
  unlimited_policy, default_limits, strict_grammar, compatible_grammar, strict_mode,
  compatible_mode,
}
use midi.Tests.Files.{ended_file}
use midi.Score.Parse.{
  parse_score_smf_with_options, parse_score_smf_impl, parse_score_smf_with_limits, parse_score_smf,
}
use midi.Tests.Scoring.{tempo_score, run_score}
use midi.Score.Grammar.File.{
  parse_score_smf_impl-strict_grammar, parse_score_smf_with_options-parse_score_smf,
}
use midi.Prelude.{◌≡◌, refl}

abbrev ended_score : TickScore
ended_score = record tempo_score { bytes_consumed = 40 }

score_strict :
    parse_score_smf_with_options ended_file (record { limits = default_limits; mode = strict_mode })
    ≡ ok ended_score
unfolding run_score
score_strict = refl

parse_score_smf_with_options-parse_score_smf_example :
    (parse_score_smf_with_options ended_file
        (record { limits = default_limits; mode = compatible_mode })
      ≡ ok ended_score)
    × (parse_score_smf_with_limits ended_file default_limits ≡ ok ended_score)
    × (parse_score_smf ended_file ≡ ok ended_score)
parse_score_smf_with_options-parse_score_smf_example =
    parse_score_smf_with_options-parse_score_smf ended_file default_limits ended_score score_strict

score_strict_grammar :
    parse_score_smf_impl unlimited_policy strict_grammar ended_file tt ≡ ok ended_score
unfolding run_score
score_strict_grammar = refl

parse_score_smf_impl-strict_grammar_example :
    parse_score_smf_impl unlimited_policy compatible_grammar ended_file tt ≡ ok ended_score
parse_score_smf_impl-strict_grammar_example =
    parse_score_smf_impl-strict_grammar unlimited_policy compatible_grammar (λ h. refl) ended_file
      tt ended_score score_strict_grammar
