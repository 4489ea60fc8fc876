-- ===== src/Score/Ceilings.antt =====
-- What the ceilings of a bounded parse guarantee of the score.
pub mod Text
pub mod Track
pub mod Finish
pub mod Loop
pub mod File
use midi.Prelude.{ℕ, ◌≡◌, ◌≤◌, length}
use midi.Smf.{Header}
use midi.Score.Limits.{ScoreParseLimits, LimitedScoreParsePolicy}
use midi.Score.Arena.{TickScore}

-- The text of the score is below its ceiling, the policy has kept its limits, and the score its header.
pub record Below (limits : ScoreParseLimits) (header : Header) (p : LimitedScoreParsePolicy)
    (score : TickScore) : Type 0 where
  pub same_limits : p.limits ≡ limits
  pub same_header : score.header ≡ header
  pub text : length score.text_data ≤ limits.max_text_bytes
