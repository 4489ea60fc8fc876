-- ===== src/Score/Strict.antt =====
-- What the strict mode of parse_score_smf_with_options refuses.
use midi.Prelude.{◌≡◌}
use midi.Result.Yields.{Yields}
use midi.Cursor.{Cursor}
use midi.Score.Arena.{TickScore}
use midi.Score.Division.{IsDivision}

-- The header's division is one of the file format, and nothing follows the last track.
pub record IsStrict (score : TickScore) : Type 0 where
  pub division : IsDivision score.header.division
  pub no_rest : score.trailing_bytes ≡ 0
