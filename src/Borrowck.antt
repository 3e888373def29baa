-- ===== src/Borrowck.antt =====
-- crates/glyim-borrowck/src: the analyses that the borrow checker rests on.
pub mod BitSets
pub mod Visitor
pub mod Worklist
pub mod Liveness
pub mod Conflict
pub mod BitLists
mod Tests
