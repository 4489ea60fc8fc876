-- ===== src/Tests.antt =====
-- Runs of the scanner and the arena parser on small files, and the theorems at concrete inputs.
mod Files
mod Scanning
pub mod Scoring
mod Columns
mod Texts
mod Grammars
mod Ranges
mod Bindings
