-- ===== src/Layout/Structs.antt =====
-- Structures and recursive types through `layout_of` (crates/glyim-layout/src/lib.rs).
use glyim_v.Prelude.{ℕ, zero, suc, ◌-◌, ◌<◌, ◌≡◌, refl, sym, ap, ◌∙◌, some, List, ◌∷◌, ◌^◌}
use glyim_v.Layout.Types.{TargetInfo, pointer_align, Ty, TyCtx, adt_ty, AdtDef, struct_kind}
use glyim_v.Layout.Shape.{Outcome, ok, no_fuel, u64_size, from_bytes, Layout, size_of, Align}
use glyim_v.Layout.Fields.{layout_struct, place_fields, lay_out}
use glyim_v.Layout.Compute.{layout_adt, layout_kind, layout_of}
use glyim_v.Layout.Align.{>>=-ok}
use glyim_v.Layout.Placement.{IsStructure, lay_out-IsStructure}
use glyim_v.Layout.Invariant.{layout_of-IsSound}

module _ (ctx : TyCtx) (target : TargetInfo) where
  layout_kind-struct :
      (inside : Ty → Outcome Layout) (ty : Ty) (a : Align) (id substs : ℕ) (adt_def : AdtDef)
      → ctx.adt_def id ≡ some adt_def
      → adt_def.kind ≡ struct_kind
      → layout_kind ctx target inside ty a (adt_ty id substs) ≡ lay_out inside adt_def.fields
  unfolding layout_kind layout_adt layout_struct
  layout_kind-struct inside ty a id substs adt_def ed ek = simp (layout_adt, ed, ek)

  -- The layout of a struct, unless its size is the largest `u64`: the fields stand in order at
  -- multiples of their own alignments, no two overlap and none sticks out of the struct, and no
  -- field's alignment is above the struct's.
  pub layout_of-IsStructure :
      (fuel : ℕ) (ty : Ty) (id substs : ℕ) (adt_def : AdtDef) (l : Layout)
      → target.pointer_width < 2 ^ 32
      → ctx.ty_kind ty ≡ adt_ty id substs
      → ctx.adt_def id ≡ some adt_def
      → adt_def.kind ≡ struct_kind
      → layout_of ctx target (suc fuel) ty ≡ ok l
      → size_of l < u64_size - 1
      → IsStructure (layout_of ctx target fuel) adt_def.fields l
  unfolding layout_of
  layout_of-IsStructure fuel ty id substs adt_def l w et ed ek e small =
      let (a, _, e1) = >>=-ok (from_bytes (pointer_align target)) _ l e in
      let inside = layout_of ctx target fuel in
      let e2 =
        sym (layout_kind-struct inside ty a id substs adt_def ed ek)
        ∙ ap (layout_kind ctx target inside ty a) (sym et)
        ∙ e1 in
      lay_out-IsStructure (layout_of ctx target fuel)
        (λ t l e. (layout_of-IsSound ctx target fuel t l w e).0) adt_def.fields l e2 small

  -- The recursion into a struct whose first field is of the struct's own type is not guarded: with
  -- any amount of fuel it runs out, and no error is returned.
  pub layout_of-recursive :
      (fuel : ℕ) (ty : Ty) (id substs : ℕ) (adt_def : AdtDef) (fields : List Ty) (a : Align)
      → from_bytes (pointer_align target) ≡ ok a
      → ctx.ty_kind ty ≡ adt_ty id substs
      → ctx.adt_def id ≡ some adt_def
      → adt_def.kind ≡ struct_kind
      → adt_def.fields ≡ ty ∷ fields
      → layout_of ctx target fuel ty ≡ no_fuel
  unfolding layout_of lay_out place_fields
  layout_of-recursive zero ty id substs adt_def fields a ea et ed ek ef = refl
  layout_of-recursive (suc fuel) ty id substs adt_def fields a ea et ed ek ef =
      let ih = layout_of-recursive fuel ty id substs adt_def fields a ea et ed ek ef in
      simp (
        ea,
        et,
        layout_kind-struct (layout_of ctx target fuel) ty a id substs adt_def ed ek,
        ef,
        ih,
      )
