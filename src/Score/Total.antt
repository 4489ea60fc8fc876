-- ===== src/Score/Total.antt =====
-- The score parser ends on every input, with a score or an error: no loop runs out of fuel.
pub mod Builder
pub mod Finish
pub mod Track
pub mod File
