-- ===== src/Score.antt =====
-- The tick score: its limits and grammar, the columns of notes, the builder of one track, and the
-- parser that fills them.
pub mod Limits
pub mod Types
pub mod Notes
pub mod Arena
pub mod Text
pub mod Builder
pub mod Semantics
pub mod Parse
pub mod Budget
pub mod Grammar
pub mod Columns
pub mod Slots
pub mod Texts
pub mod Utf8
pub mod Lossy
pub mod Order
pub mod Division
pub mod Bits
pub mod Ranges
pub mod Total
pub mod Ceilings
pub mod Strict
