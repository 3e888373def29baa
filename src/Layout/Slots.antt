-- ===== src/Layout/Slots.antt =====
-- The slots of a vtable (crates/glyim-layout/src/vtable.rs).
use glyim_v.Prelude.{
  ℕ, zero, suc, ◌+◌, ◌*◌, ◌≤◌, ◌<◌, ◌≡◌, refl, sym, ap, subst, lt→ltb, ◌∙◌, Option, none, some,
  List, [], ◌∷◌, length, map, arith,
}
use mathlib.Core.Option.{some_inj}
use glyim_v.Layout.Types.{TargetInfo, pointer_size, Ty, TyCtx, TraitDef}
use glyim_v.Layout.Shape.{u64_size, ◌>>=◌, unknown_trait, ok, err, size_of, align_of, Layout}
use glyim_v.Layout.Align.{>>=-ok, ok-inj}
use glyim_v.Layout.Compute.{layout_of}
use glyim_v.Layout.Vtable.{
  VTableLayout, add_usize, mul_u64, memory_size, method_offset, vtable_entry, vtable_of,
}

length-map {ℓ κ} :
    {A : Type ℓ} {B : Type κ} (f : A → B) (xs : List A) → length (map f xs) ≡ length xs
length-map f [] = refl
length-map f (x ∷ xs) = omega (arith, length-map f xs)

slot-le : (i n p : ℕ) → i < n → (3 + i) * p + p ≤ (3 + n) * p
slot-le zero zero p h = absurd (omega arith)
slot-le zero (suc n) p h = omega arith
slot-le (suc i) zero p h = absurd (omega arith)
slot-le (suc i) (suc n) p h = omega (arith, slot-le i n p (omega arith))

vtable_of-methods :
    (ctx : TyCtx) (target : TargetInfo) (fuel id : ℕ) (ty : Ty) (trait : TraitDef)
    (v : VTableLayout)
    → ctx.trait_def id ≡ some trait
    → vtable_of ctx target fuel id ty ≡ ok v
    → v.methods ≡ map vtable_entry trait.methods
unfolding vtable_of
vtable_of-methods ctx target fuel id ty trait v et e =
    let (l, _, e1) = >>=-ok (layout_of ctx target fuel ty) _ v e in built l (ctx.trait_def id) et e1
  where
    built :
        (l : Layout) (o : Option TraitDef)
        → o ≡ some trait
        → (elim o [
          | none ↦ err (unknown_trait id)
          | some trait_def ↦ ok (record {
            trait_def_id = id;
            concrete_ty = ty;
            size = size_of l;
            align = align_of l;
            drop_fn = none;
            methods = map vtable_entry trait_def.methods;
          })
        ])
          ≡ ok v
        → v.methods ≡ map vtable_entry trait.methods
    built l none et e = cc
    built l (some d) et e =
        ap (λ v. v.methods) (sym (ok-inj _ v e))
        ∙ ap (λ d. map vtable_entry d.methods) (some_inj.0 et)

le-mul : (a p : ℕ) → 0 < p → a ≤ a * p
le-mul zero p h = omega arith
le-mul (suc a) p h = omega (arith, le-mul a p h)

words-ok :
    (n p : ℕ)
    → 0 < p
    → (3 + n) * p < u64_size
    → (add_usize 3 n >>= (λ k. mul_u64 k p)) ≡ ok ((3 + n) * p)
unfolding add_usize mul_u64
words-ok n p pos fits =
    let few : 3 + n < u64_size = omega (arith, le-mul (3 + n) p pos) in
    rw (lt→ltb (3 + n) u64_size few, lt→ltb ((3 + n) * p) u64_size fits) refl

memory_size-ok :
    (v : VTableLayout) (n p : ℕ)
    → length v.methods ≡ n
    → 0 < p
    → (3 + n) * p < u64_size
    → memory_size v p ≡ ok (record { size = (3 + n) * p; align = p })
unfolding memory_size add_usize mul_u64
memory_size-ok v n p same pos fits =
    let few : 3 + n < u64_size = omega (arith, le-mul (3 + n) p pos) in
    rw (same, lt→ltb (3 + n) u64_size few, lt→ltb ((3 + n) * p) u64_size fits) refl

slot-lt : (i n p : ℕ) → i < n → (3 + n) * p < u64_size → (3 + i) * p < u64_size
slot-lt i n p h k = omega (arith, slot-le i n p h)

-- In the vtable that is computed for a trait, for a target whose pointers have at least one byte and
-- with fewer than two to the 64 bytes in the three header words and the words of all the methods:
-- `memory_size` does not panic, and the table is as large as those words; and for each method, the
-- last one too, `method_offset` does not panic, the slot is a word that lies behind the header and
-- ends inside the table, and the slot of every method before it ends no later than it begins.
pub vtable_of-slots :
    (ctx : TyCtx) (target : TargetInfo) (fuel id : ℕ) (ty : Ty) (trait : TraitDef)
    (v : VTableLayout)
    → ctx.trait_def id ≡ some trait
    → vtable_of ctx target fuel id ty ≡ ok v
    → 0 < pointer_size target
    → (3 + length trait.methods) * pointer_size target < u64_size
    → let p = pointer_size target in
      (total : ℕ) × (memory_size v p ≡ ok (record { size = total; align = p }))
      × (total ≡ (3 + length trait.methods) * p)
      × ((j : ℕ)
          → j < length trait.methods
          → (slot : ℕ) × (method_offset v j p ≡ ok slot)
            × (3 * p ≤ slot)
            × (slot + p ≤ total)
            × ((i earlier : ℕ) → i < j → method_offset v i p ≡ ok earlier → earlier + p ≤ slot))
unfolding method_offset
vtable_of-slots ctx target fuel id ty trait v et e pos fits =
    let p : ℕ = pointer_size target in
    let n : ℕ = length trait.methods in
    let same : length v.methods ≡ n =
      ap length (vtable_of-methods ctx target fuel id ty trait v et e)
      ∙ length-map vtable_entry trait.methods in
    (
      (3 + n) * p,
      memory_size-ok v n p same pos fits,
      refl,
      λ j k. (
        (3 + j) * p,
        words-ok j p pos (slot-lt j n p k fits),
        omega arith,
        slot-le j n p k,
        λ i earlier h q.
            let at : (3 + i) * p ≡ earlier =
              ok-inj _ earlier
                (sym (words-ok i p pos (slot-lt i j p h (slot-lt j n p k fits))) ∙ q) in
            subst (λ s. s + p ≤ (3 + j) * p) at (slot-le i j p h),
      ),
    )
