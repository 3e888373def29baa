-- ===== src/Layout/Shape.antt =====
-- Sizes, alignments, layouts and the errors of `LayoutComputer` (crates/glyim-layout/src/lib.rs).
-- Debug assertions and overflow checks are on, so a failing one panics.
use glyim_v.Prelude.{
  ℕ, zero, suc, ◌+◌, ◌-◌, ◌*◌, ◌^◌, min, bit_and, Bool, true, false, Option, none, some, List, [],
  ◌∷◌, ltb, leb, ◌==◌, if◌then◌else◌,
}
use glyim_v.Layout.Types.{Ty}

abbrev pub Size : Type 0
Size = ℕ

abbrev pub Align : Type 0
Align = ℕ

pub data LayoutError : Type 0 where
  unknown_type size_overflow unsized cycle : Ty → LayoutError
  alignment_exceeds_runtime : (ty : Ty) (align max : ℕ) → LayoutError
  unknown_trait : ℕ → LayoutError

-- A `Result`, a panic, or a recursion that the fuel cut off.
pub data Outcome {ℓ} (A : Type ℓ) : Type ℓ where
  ok : A → Outcome A
  err : LayoutError → Outcome A
  panics no_fuel : Outcome A

infixl 5 ◌>>=◌
abbrev pub ◌>>=◌ {ℓ κ} : {A : Type ℓ} {B : Type κ} → Outcome A → (A → Outcome B) → Outcome B
ok a >>= f = f a
err e >>= f = err e
panics >>= f = panics
no_fuel >>= f = no_fuel

-- `2 ^ 64`, the number of values of a `u64`.
abbrev pub u64_size : ℕ
u64_size = 18446744073709551616

-- `Size::align_to`
unfoldable pub align_to : Size → Align → Outcome Size
align_to size align =
    let mask = align - 1 in
    if leb align 0
    then panics
    else if leb u64_size (size + mask)
    then panics
    else ok (bit_and (size + mask) (u64_size - 1 - mask))

-- `Size::checked_mul`
unfoldable pub checked_mul : Size → ℕ → Option Size
checked_mul size rhs = if ltb (size * rhs) u64_size then some (size * rhs) else none

-- `Add for Size` and `saturating_mul`
unfoldable pub saturating_add : Size → Size → Size
saturating_add a b = min (a + b) (u64_size - 1)

unfoldable pub saturating_mul : ℕ → ℕ → ℕ
saturating_mul a b = min (a * b) (u64_size - 1)

-- `Size::bits`
unfoldable pub bits : Size → ℕ
bits size = saturating_mul size 8

-- `u64::is_power_of_two`
unfoldable pub any_power : ℕ → ℕ → Bool
any_power zero n = false
any_power (suc k) n = if n == 2 ^ k then true else any_power k n

-- `Align::from_bytes`
unfoldable pub from_bytes : ℕ → Outcome Align
from_bytes bytes = if any_power 64 bytes then ok bytes else panics

pub data FieldsShape : Type 0 where
  primitive : FieldsShape
  array : (stride : Size) (count : ℕ) → FieldsShape
  arbitrary : (offsets : List Size) → FieldsShape

-- A `RangeInclusive<u32>` is its two ends.
pub data TagEncoding : Type 0 where
  direct : TagEncoding
  niche : (untagged_variant first_variant last_variant niche_start : ℕ) → TagEncoding

-- `multiple` has the tag's type, its field, the encoding, the variants, and the tag's size and alignment.
mutual
  pub data Layout : Type 0 where
    layout :
        (size : Size) (align : Align) → FieldsShape → VariantsShape → (is_unsized : Bool) → Layout

  pub data VariantsShape : Type 0 where
    single : (index : ℕ) → VariantsShape
    multiple : Ty → ℕ → TagEncoding → Layouts → Size → Align → VariantsShape

  pub data Layouts : Type 0 where
    no_layouts : Layouts
    add_layout : Layout → Layouts → Layouts

unfoldable pub of_list : List Layout → Layouts
of_list [] = no_layouts
of_list (l ∷ ls) = add_layout l (of_list ls)

abbrev pub size_of : Layout → Size
size_of (layout size align fields variants is_unsized) = size

abbrev pub align_of : Layout → Align
align_of (layout size align fields variants is_unsized) = align

abbrev pub fields_of : Layout → FieldsShape
fields_of (layout size align fields variants is_unsized) = fields

abbrev pub variants_of : Layout → VariantsShape
variants_of (layout size align fields variants is_unsized) = variants

abbrev pub is_unsized : Layout → Bool
is_unsized (layout size align fields variants unsized_flag) = unsized_flag

-- `Layout::scalar` and `Layout::unit`
unfoldable pub scalar : Size → Align → Layout
scalar size align = layout size align primitive (single 0) false

unfoldable pub unit : Layout
unit = layout 0 1 (arbitrary []) (single 0) false
