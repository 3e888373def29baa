-- ===== src/Opt.antt =====
-- crates/glyim-opt/src: the passes over the control-flow graph.
pub mod Edges
pub mod Semantics
pub mod Unreachable
pub mod Rank
pub mod Outcomes
pub mod Renumber
pub mod CfgSimplify
pub mod Dce
pub mod Validate
pub mod SliceDesugar
pub mod Pipeline
pub mod ConstProp
pub mod Optimize
mod Bodies
mod Tests
mod ValueTests
