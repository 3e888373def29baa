-- ===== src/Vm.antt =====
-- crates/glyim-bytecode-vm/src/lib.rs: the bytecode virtual machine.
pub mod Value
pub mod Opcode
pub mod Arith
pub mod State
pub mod Code
pub mod Frames
pub mod Handlers
pub mod Drive
pub mod Valid
mod Protocol
mod Tests
