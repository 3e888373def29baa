-- ===== src/Vm/Opcode.antt =====
-- The opcodes and their wire values (crates/glyim-bytecode-vm/src/lib.rs).
pub mod Wire
use glyim_v.Prelude.{ℕ, ◌==◌, if◌then◌else◌, Option, none, some}

pub data Opcode : Type 0 where
  load_const add sub mul div rem eq ne lt gt le ge and_op or_op not_op neg bit_and bit_or : Opcode
  bit_xor shl shr load_local store_local return_op jump_if jump call cast aggregate : Opcode
  discriminant len switch_int assert call_indirect load_local_addr store_field deref : Opcode
  drop_op repeat trap : Opcode

-- The discriminant that `repr(u8)` gives each variant.
unfoldable pub to_u8 : Opcode → ℕ
to_u8 load_const = 0x01
to_u8 add = 0x02
to_u8 sub = 0x03
to_u8 mul = 0x04
to_u8 div = 0x05
to_u8 rem = 0x06
to_u8 eq = 0x07
to_u8 ne = 0x08
to_u8 lt = 0x09
to_u8 gt = 0x0a
to_u8 le = 0x0b
to_u8 ge = 0x0c
to_u8 and_op = 0x0d
to_u8 or_op = 0x0e
to_u8 not_op = 0x0f
to_u8 neg = 0x10
to_u8 bit_and = 0x11
to_u8 bit_or = 0x12
to_u8 bit_xor = 0x13
to_u8 shl = 0x14
to_u8 shr = 0x15
to_u8 load_local = 0x16
to_u8 store_local = 0x17
to_u8 return_op = 0x18
to_u8 jump_if = 0x19
to_u8 jump = 0x1a
to_u8 call = 0x1b
to_u8 cast = 0x1c
to_u8 aggregate = 0x1d
to_u8 discriminant = 0x1e
to_u8 len = 0x1f
to_u8 switch_int = 0x20
to_u8 assert = 0x21
to_u8 call_indirect = 0x22
to_u8 load_local_addr = 0x29
to_u8 store_field = 0x2a
to_u8 deref = 0x2b
to_u8 drop_op = 0x2c
to_u8 repeat = 0x2d
to_u8 trap = 0xff

-- `Opcode::from_u8`: the arms of the match in order.
unfoldable pub from_u8 : ℕ → Option Opcode
from_u8 b =
    if b == 0x01
    then some load_const
    else if b == 0x02
    then some add
    else if b == 0x03
    then some sub
    else if b == 0x04
    then some mul
    else if b == 0x05
    then some div
    else if b == 0x06
    then some rem
    else if b == 0x07
    then some eq
    else if b == 0x08
    then some ne
    else if b == 0x09
    then some lt
    else if b == 0x0a
    then some gt
    else if b == 0x0b
    then some le
    else if b == 0x0c
    then some ge
    else if b == 0x0d
    then some and_op
    else if b == 0x0e
    then some or_op
    else if b == 0x0f
    then some not_op
    else if b == 0x10
    then some neg
    else if b == 0x11
    then some bit_and
    else if b == 0x12
    then some bit_or
    else if b == 0x13
    then some bit_xor
    else if b == 0x14
    then some shl
    else if b == 0x15
    then some shr
    else if b == 0x16
    then some load_local
    else if b == 0x17
    then some store_local
    else if b == 0x18
    then some return_op
    else if b == 0x19
    then some jump_if
    else if b == 0x1a
    then some jump
    else if b == 0x1b
    then some call
    else if b == 0x1c
    then some cast
    else if b == 0x1d
    then some aggregate
    else if b == 0x1e
    then some discriminant
    else if b == 0x1f
    then some len
    else if b == 0x20
    then some switch_int
    else if b == 0x21
    then some assert
    else if b == 0x22
    then some call_indirect
    else if b == 0x29
    then some load_local_addr
    else if b == 0x2a
    then some store_field
    else if b == 0x2b
    then some deref
    else if b == 0x2c
    then some drop_op
    else if b == 0x2d
    then some repeat
    else if b == 0xff
    then some trap
    else none
