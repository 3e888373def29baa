-- ===== src/Opt/ConstProp/Keeps.antt =====
-- The values of right-hand sides with constants put for their operands
-- (crates/glyim-opt/src/constant_prop.rs).
use glyim_v.Prelude.{
  ◌≡◌, refl, sym, ap, ◌∙◌, Option, none, some, List, [], ◌∷◌, if◌then◌else◌, arith,
}
use glyim_v.Mir.Types.{
  LocalIdx, ProjectionElem, Place, MirConst, Operand, copy, move, constant, Rvalue, use_of, ref_of,
  binary_op, unary_op, aggregate, discriminant, len_of, cast, repeat,
}
use glyim_v.Opt.Dce.{is_bare}
use glyim_v.Opt.Dce.Plain.{
  Values, read_projected, place_value, operand_value, operand_values, rvalue_value,
}
use glyim_v.Opt.ConstProp.{
  BlockMap, get, known, put, replace_operand, replace_operands, replace_in_rvalue,
}

module _ {V : Type 0} (vs : Values V) (locals : BlockMap) (s : LocalIdx → V) where
  -- A local that the map has a constant for holds it.
  abbrev pub IsKnown : Type 0
  IsKnown = (l : LocalIdx) (c : MirConst) → get locals l ≡ some (some c) → s l ≡ vs.const_value c

  known-some : (o : Option (Option MirConst)) (c : MirConst) → known o ≡ some c → o ≡ some (some c)
  known-some none c e = absurd (ground arith)
  known-some (some v) c e = ap some e

  module _ (holds : IsKnown) where
    -- What is put for a whole local has its value.
    put-value :
        (operand : Operand) (place : Place)
        → operand_value vs operand s ≡ place_value vs place s
        → operand_value vs
            (put operand
              (if is_bare place.projection then known (get locals place.local) else none))
            s
          ≡ operand_value vs operand s
    put-value operand place e = bare place.projection refl
      where
        looked_up :
            (o : Option MirConst)
            → known (get locals place.local) ≡ o
            → place_value vs place s ≡ s place.local
            → operand_value vs (put operand o) s ≡ operand_value vs operand s
        looked_up none q b = refl
        looked_up (some c) q b =
            sym (e ∙ b ∙ holds place.local c (known-some (get locals place.local) c q))

        bare :
            (p : List ProjectionElem)
            → place.projection ≡ p
            → operand_value vs
                (put operand (if is_bare p then known (get locals place.local) else none))
                s
              ≡ operand_value vs operand s
        bare [] q =
            looked_up (known (get locals place.local)) refl
              (ap (λ p. read_projected vs p s (s place.local)) q)
        bare (elem ∷ projection) q = refl

    replace_operand-value :
        (operand : Operand)
        → operand_value vs (replace_operand operand locals) s ≡ operand_value vs operand s
    unfolding replace_operand
    replace_operand-value (copy place) = put-value (copy place) place refl
    replace_operand-value (move place) = put-value (move place) place refl
    replace_operand-value (constant c) = refl

    replace_operands-values :
        (operands : List Operand)
        → operand_values vs (replace_operands operands locals) s ≡ operand_values vs operands s
    replace_operands-values [] = refl
    replace_operands-values (operand ∷ operands) =
        let e = replace_operand-value operand in
        let es = replace_operands-values operands in cc (e, es)

    -- Where each constant of the map is the value of its local, the rewritten right-hand side has the
    -- value of the old one, for all operations on values.
    pub replace_in_rvalue-value :
        (rvalue : Rvalue)
        → rvalue_value vs (replace_in_rvalue rvalue locals) s ≡ rvalue_value vs rvalue s
    unfolding replace_in_rvalue
    replace_in_rvalue-value (use_of operand) = replace_operand-value operand
    replace_in_rvalue-value (ref_of place kind) = refl
    replace_in_rvalue-value (binary_op op left right) =
        ap (λ v. vs.binary op v (operand_value vs (replace_operand right locals) s))
          (replace_operand-value left)
        ∙ ap (vs.binary op (operand_value vs left s)) (replace_operand-value right)
    replace_in_rvalue-value (unary_op op operand) = ap (vs.unary op) (replace_operand-value operand)
    replace_in_rvalue-value (aggregate kind operands) =
        ap (vs.build kind) (replace_operands-values operands)
    replace_in_rvalue-value (discriminant place) = refl
    replace_in_rvalue-value (len_of place) = refl
    replace_in_rvalue-value (cast kind operand ty) =
        ap (λ v. vs.convert kind v ty) (replace_operand-value operand)
    replace_in_rvalue-value (repeat operand count) =
        ap (λ v. vs.fill v count) (replace_operand-value operand)
