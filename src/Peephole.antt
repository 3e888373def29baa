-- ===== src/Peephole.antt =====
-- crates/glyim-codegen/src/lib.rs: the peephole pass of the bytecode backend.
pub mod Ops
pub mod Fold
pub mod Instr
pub mod Pass
pub mod Agree
pub mod Meaning
pub mod Sound
pub mod Codec
pub mod Ends
pub mod Tests
