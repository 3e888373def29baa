-- ===== src/Layout.antt =====
-- The layout engine (crates/glyim-layout/src): sizes, alignments, field offsets, enum tags and niches.
pub mod Types
pub mod Shape
pub mod Fields
pub mod Enum
pub mod Compute
pub mod Vtable
pub mod Align
pub mod Placement
pub mod Sound
pub mod Declared
pub mod Invariant
pub mod Structs
pub mod Tags
pub mod Slots
mod Tests
