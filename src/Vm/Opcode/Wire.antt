-- ===== src/Vm/Opcode/Wire.antt =====
-- The opcode numbers (crates/glyim-bytecode-vm/src/lib.rs) decode to the opcode that they encode.
use glyim_v.Prelude.{ℕ, ◌≡◌, refl, sym, ap, ◌∙◌, ◌↔◌, some, arith}
use glyim_v.Vm.Opcode.{Opcode, to_u8, from_u8}

from_u8-to_u8 : (op : Opcode) → from_u8 (to_u8 op) ≡ some op
unfolding from_u8 to_u8
from_u8-to_u8 Opcode.load_const = refl
from_u8-to_u8 _ = refl

pub to_u8-from_u8 : (b : ℕ) (op : Opcode) → from_u8 b ≡ some op → to_u8 op ≡ b
unfolding from_u8 to_u8
to_u8-from_u8 b op e = ground arith

-- A number decodes to an opcode exactly when it is that opcode's wire value.
pub from_u8_iff : (b : ℕ) (op : Opcode) → (from_u8 b ≡ some op) ↔ (b ≡ to_u8 op)
from_u8_iff b op = (λ e. sym (to_u8-from_u8 b op e), λ e. ap from_u8 e ∙ from_u8-to_u8 op)
