-- ===== src/Vm/Valid.antt =====
-- The invariant of the virtual machine (crates/glyim-bytecode-vm/src/lib.rs), and the rules by
-- which it is carried through the methods and the arms of the driver.
pub mod Words
mod Ensures
pub mod Stacks
mod Fetch
mod Stack
mod Calls
pub mod Runs
