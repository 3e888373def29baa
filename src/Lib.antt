-- ===== src/Lib.antt =====
-- A model of the parts of the Glyim compiler (Rust) that carry a program's meaning to the
-- machine: the byte-code virtual machine, the peephole pass and the codec of the byte-code back
-- end, the layout engine and the passes over its intermediate representation (MIR), the liveness
-- and the overlap of places in the borrow checker, and the partition into codegen units. The back
-- end's pass rewrites the bytes that the machine runs, so its constant folder is stated against
-- the machine's own arithmetic; the layout engine gives the back ends the sizes and offsets of
-- types; the passes take a body that their validation accepts, and hand it from one to the next;
-- the borrow checker's analyses read the same bodies; the partition assigns the items to the
-- units that the back ends compile.
--
-- Prelude and its children: native numbers, byte lists, bit operations and masks, signed
-- integers.
-- Vm and its children (crates/glyim-bytecode-vm/src/lib.rs): `Value`, `Opcode`, `binop` and
-- `unop` on 64-bit patterns (Vm/Arith), the state and the monad of its methods (Vm/State: a
-- result, an error that leaves the machine changed, or a panic), the readers of operands
-- (Vm/Code), frames and memory (Vm/Frames: `push_frame`, `set_local` with the mirror in memory,
-- `mem`, `set_mem`), one function for each arm of the loop (Vm/Handlers, `exec_*`), and the loop
-- (Vm/Drive: `step` is one round of `Vm::drive`, `run_module` and `run` are the entries). The
-- stack and the frames are lists with their top first. Vm/Valid states the invariant and carries
-- it through each of these, Vm/Protocol follows a call.
-- Peephole and its children (crates/glyim-codegen/src/lib.rs): the opcode constants
-- (Peephole/Ops), `fold_int_binop` and `is_foldable_binop` (Peephole/Fold), `decode_bytecode`,
-- `decode_operand` and `encode_bytecode` (Peephole/Instr), and the pass (Peephole/Pass: `action`
-- is the test of one round of the loop, with the flags of `const_is_int` as an argument).
-- Peephole/Meaning is not code: it says what straight-line instructions do to a stack, by the
-- machine's arithmetic.
-- Layout and its children (crates/glyim-layout/src, crates/glyim-core/src/primitives.rs,
-- crates/glyim-type/src): the types that the engine reads (Layout/Types; the type context is a
-- record of its lookups), sizes and layouts (Layout/Shape), the placement loop of structs,
-- tuples, arrays, unions and closures (Layout/Fields), enums, tags and niches (Layout/Enum),
-- `layout_of` and `fn_abi_of` (Layout/Compute), vtables (Layout/Vtable).
-- Partition and its children (crates/glyim-lower/src/partition.rs): `partition` into codegen
-- units; `round` is one round of its loop, `module_groups` the map from modules to item indices.
-- Mir and its children (crates/glyim-mir/src/lib.rs, crates/glyim-type/src/ty_ctx.rs): bodies,
-- blocks, statements and terminators (Mir/Types), the type of a place and the types that need
-- dropping (Mir/Drop).
-- Opt and its children (crates/glyim-opt/src): the edges of blocks and their renaming
-- (Opt/Edges), unreachable_elim.rs (Opt/Unreachable), cfg_simplify.rs (Opt/CfgSimplify), dce.rs
-- (Opt/Dce), validate.rs (Opt/Validate), slice_desugar.rs (Opt/SliceDesugar), constant_prop.rs
-- (Opt/ConstProp), the last two passes of `optimize` together (Opt/Pipeline), and `optimize`
-- (Opt/Optimize). Opt/Dce/Plain gives values to bodies of whole locals and is not code. The
-- passes share the loop that keeps some of the blocks, `compact`. Opt/Semantics is not code: it
-- says what a body does, over any meaning of its statements, operands, calls and drops, and
-- Opt/Outcomes gives the results that a body ends in as a relation. Opt/Rank and Opt/Renumber
-- follow the new numbers of the kept blocks.
-- Borrowck and its children (crates/glyim-borrowck/src): the walks over what is read and the
-- successors of a block (Borrowck/Visitor), the overlap of places (Borrowck/Conflict), the loop
-- over a worklist (Borrowck/Worklist), and liveness.rs (Borrowck/Liveness). The crate fixedbitset
-- is the record `BitSets` of its operations with what it documents of them (Borrowck/BitSets),
-- and Borrowck/BitLists is one such record. Borrowck/Liveness/Paths and Borrowck/Liveness/Uses
-- are not code: by the paths of a body, Paths says what is live by the reads of the walks, and
-- Uses what is used by any place, its indices and references included; Borrowck/Liveness/Plain
-- relates the two, and Borrowck/Liveness/Used states the results.
--
-- Numbers are natural numbers with the wrap-around, the saturation and the checks of the source
-- written out; an i64 is its pattern below 2 ^ 64. In the layout engine debug assertions and
-- overflow checks are on, so that they panic.
--
-- Fuel: `drive` runs for as many rounds as it has fuel, and a run that has not ended is
-- `running`, since a byte-code program need not end. `decode_bytecode` and `peephole_loop` get
-- the length of their input as fuel, which is enough as each round takes at least one element.
-- `layout_of` gets any fuel, as a recursive type has no layout after any number of rounds.
-- `merge_groups` gets the number of groups, which falls by one in each round. `search_loop` gets
-- one round for the start and one for each edge; `simplify` the number of blocks, as each round
-- but the last deletes one; `desugar_rounds` the number of projections, as each round leaves
-- fewer. The loop of `compute_liveness` gets rounds for each bit that can still be set, times one
-- more than the edges, and for each block. `iterate` gets the code's own MAX_ITERATIONS.
-- `needs_drop` and `is_copy` get any fuel: the types of a context may be nested without bound.
--
-- Not modelled: the emitter of byte code and the other phases of the compiler, which the parts
-- here do not call; float constants, which the machine does not know; `Chunk::new` and the other
-- constructors of test input; the parsing of target triples; drop_elaboration.rs; the move
-- analysis, the two-phase borrows and the loans of the borrow checker; `f64` operations, a
-- parameter; spans, names and debug information of bodies; names, regions and other payloads of
-- types that the layout engine does not read.
pub mod Prelude
pub mod Vm
pub mod Peephole
pub mod Layout
pub mod Partition
pub mod Mir
pub mod Opt
pub mod Borrowck
