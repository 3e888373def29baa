-- ===== src/Peephole/Ops.antt =====
-- The opcode numbers of the bytecode backend (crates/glyim-codegen/src/lib.rs).
use glyim_v.Prelude.{ℕ}

abbrev pub op_load_const : ℕ
op_load_const = 0x01

abbrev pub op_add : ℕ
op_add = 0x02

abbrev pub op_sub : ℕ
op_sub = 0x03

abbrev pub op_mul : ℕ
op_mul = 0x04

abbrev pub op_div : ℕ
op_div = 0x05

abbrev pub op_rem : ℕ
op_rem = 0x06

abbrev pub op_eq : ℕ
op_eq = 0x07

abbrev pub op_ne : ℕ
op_ne = 0x08

abbrev pub op_lt : ℕ
op_lt = 0x09

abbrev pub op_gt : ℕ
op_gt = 0x0a

abbrev pub op_le : ℕ
op_le = 0x0b

abbrev pub op_ge : ℕ
op_ge = 0x0c

abbrev pub op_and : ℕ
op_and = 0x0d

abbrev pub op_or : ℕ
op_or = 0x0e

abbrev pub op_not : ℕ
op_not = 0x0f

abbrev pub op_neg : ℕ
op_neg = 0x10

abbrev pub op_bitand : ℕ
op_bitand = 0x11

abbrev pub op_bitor : ℕ
op_bitor = 0x12

abbrev pub op_bitxor : ℕ
op_bitxor = 0x13

abbrev pub op_shl : ℕ
op_shl = 0x14

abbrev pub op_shr : ℕ
op_shr = 0x15

abbrev pub op_load_local : ℕ
op_load_local = 0x16

abbrev pub op_store_local : ℕ
op_store_local = 0x17

abbrev pub op_return : ℕ
op_return = 0x18

abbrev pub op_jump_if : ℕ
op_jump_if = 0x19

abbrev pub op_jump : ℕ
op_jump = 0x1a

abbrev pub op_call : ℕ
op_call = 0x1b

abbrev pub op_cast : ℕ
op_cast = 0x1c

abbrev pub op_aggregate : ℕ
op_aggregate = 0x1d

abbrev pub op_discriminant : ℕ
op_discriminant = 0x1e

abbrev pub op_len : ℕ
op_len = 0x1f

abbrev pub op_switch_int : ℕ
op_switch_int = 0x20

abbrev pub op_assert : ℕ
op_assert = 0x21

abbrev pub op_call_indirect : ℕ
op_call_indirect = 0x22

abbrev pub op_load_local_addr : ℕ
op_load_local_addr = 0x29

abbrev pub op_store_field : ℕ
op_store_field = 0x2a

abbrev pub op_deref : ℕ
op_deref = 0x2b

abbrev pub op_drop : ℕ
op_drop = 0x2c

abbrev pub op_repeat : ℕ
op_repeat = 0x2d

abbrev pub op_trap : ℕ
op_trap = 0xff
