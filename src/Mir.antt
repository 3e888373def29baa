-- ===== src/Mir.antt =====
-- crates/glyim-mir/src/lib.rs: the mid-level intermediate representation.
pub mod Types
pub mod Drop
