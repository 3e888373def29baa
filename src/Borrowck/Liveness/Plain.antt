-- ===== src/Borrowck/Liveness/Plain.antt =====
-- The reads of the walks of crates/glyim-borrowck/src/visitor.rs, and the uses of a local's value.
use glyim_v.Prelude.{
  ℕ, ◌≡◌, refl, sym, ap, subst, ◌∙◌, true, false, ◌&&◌, none, some, List, ◌∷◌, ◌++◌, All,
  All-get_elem?, ◌==◌, contains, arith,
}
use mathlib.Core.List.{append-nil}
use glyim_v.Mir.Types.{
  LocalIdx, Place, Rvalue, Statement, assign, storage_live, storage_dead, nop, Terminator,
  switch_int, call, assert, drop_place, BasicBlockData,
}
use glyim_v.Opt.Validate.WellFormed.{operand_places, places_of, rvalue_places}
use glyim_v.Borrowck.Liveness.Paths.{
  rvalue_locals, terminator_locals, overwrites, LiveAt, reads, past, past_live, past_dead, past_nop,
  reads_last, leaves, LiveOut,
}
use glyim_v.Borrowck.Liveness.Uses.{
  all_reads, write_reads, is_whole, statement_reads, assigns, terminator_reads, assigns_to, UsedAt,
  used_here, used_later, used_last, used_beyond, UsedOut, PlainStatement, PlainTerminator, IsPlain,
}
use glyim_v.Borrowck.Liveness.Reads.{
  operand_locals-places, rvalue_locals-places, call_locals-places, locals_of-reads, all_reads-plain,
  contains-left,
}

read_is_use :
    (p : Place) (r : Rvalue) (l : LocalIdx)
    → contains (rvalue_locals r) l ≡ true
    → contains (statement_reads (assign p r)) l ≡ true
read_is_use p r l h =
    contains-left (all_reads (rvalue_places r)) (write_reads p.local p.projection) l (
      locals_of-reads (rvalue_places r) l
        (subst (λ ls. contains ls l ≡ true) (rvalue_locals-places r) h))

last_read_is_use :
    (t : Terminator) (l : LocalIdx)
    → contains (terminator_locals t) l ≡ true
    → contains (terminator_reads t) l ≡ true
unfolding contains
last_read_is_use (switch_int discr ty targets) l h =
    locals_of-reads (operand_places discr) l
      (subst (λ ls. contains ls l ≡ true) (operand_locals-places discr) h)
last_read_is_use (call func args d target cleanup) l h =
    contains-left (all_reads (operand_places func ++ places_of args))
      (write_reads d.local d.projection) l
      (locals_of-reads (operand_places func ++ places_of args) l
        (subst (λ ls. contains ls l ≡ true) (call_locals-places func args) h))
last_read_is_use (assert cond expected target cleanup msg) l h =
    locals_of-reads (operand_places cond) l
      (subst (λ ls. contains ls l ≡ true) (operand_locals-places cond) h)
last_read_is_use t l h = cc

whole-assigns :
    (p : Place) (l : LocalIdx)
    → (p.local == l) ≡ false
    → (is_whole p.projection && (p.local == l)) ≡ false
whole-assigns p l h = ground (arith, h)

assigns_to-overwrites :
    (t : Terminator) (j : ℕ) (l : LocalIdx) → overwrites t l ≡ false → assigns_to t j l ≡ false
assigns_to-overwrites (call func args d target none) j l h = ground (arith, h)
assigns_to-overwrites (call func args d target (some cleanup)) j l h = ground (arith, h)
assigns_to-overwrites t j l h = refl

module _ (blocks : List BasicBlockData) (l : LocalIdx) where
  -- In every body what the walks find to be live is used.
  pub LiveAt-UsedAt :
      (stmts : List Statement) (t : Terminator) → LiveAt blocks l stmts t → UsedAt blocks l stmts t
  LiveAt-UsedAt _ _ (reads {p} {r} {stmts} {t} h) = used_here (read_is_use p r l h)
  LiveAt-UsedAt _ _ (past {p} {r} {stmts} {t} other w) =
      used_later (whole-assigns p l other) (LiveAt-UsedAt stmts t w)
  LiveAt-UsedAt _ _ (past_live {k} {stmts} {t} w) = used_later refl (LiveAt-UsedAt stmts t w)
  LiveAt-UsedAt _ _ (past_dead {k} {stmts} {t} w) = used_later refl (LiveAt-UsedAt stmts t w)
  LiveAt-UsedAt _ _ (past_nop {stmts} {t} w) = used_later refl (LiveAt-UsedAt stmts t w)
  LiveAt-UsedAt _ _ (reads_last {t} h) = used_last (last_read_is_use t l h)
  LiveAt-UsedAt _ _ (leaves {t} j b stays edge found w) =
      used_beyond j b (assigns_to-overwrites t j l stays) edge found
        (LiveAt-UsedAt b.statements b.terminator w)

  use_is_read :
      (s : Statement) (stmts : List Statement) (t : Terminator)
      → PlainStatement s
      → contains (statement_reads s) l ≡ true
      → LiveAt blocks l (s ∷ stmts) t
  unfolding contains
  use_is_read (assign p r) stmts t (whole, unindexed) h =
      let e : statement_reads (assign p r) ≡ rvalue_locals r =
        ap (λ pr. all_reads (rvalue_places r) ++ write_reads p.local pr) whole
        ∙ append-nil (all_reads (rvalue_places r))
        ∙ all_reads-plain (rvalue_places r) unindexed
        ∙ sym (rvalue_locals-places r) in
      reads (subst (λ ls. contains ls l ≡ true) e h)
  use_is_read (storage_live k) stmts t plain h = cc
  use_is_read (storage_dead k) stmts t plain h = cc
  use_is_read nop stmts t plain h = cc

  later_is_past :
      (s : Statement) (stmts : List Statement) (t : Terminator)
      → PlainStatement s
      → assigns s l ≡ false
      → LiveAt blocks l stmts t
      → LiveAt blocks l (s ∷ stmts) t
  later_is_past (assign p r) stmts t (whole, unindexed) h w =
      past (ap (λ pr. is_whole pr && (p.local == l)) (sym whole) ∙ h) w
  later_is_past (storage_live k) stmts t plain h w = past_live w
  later_is_past (storage_dead k) stmts t plain h w = past_dead w
  later_is_past nop stmts t plain h w = past_nop w

  last_use_is_read :
      (t : Terminator)
      → PlainTerminator t
      → contains (terminator_reads t) l ≡ true
      → contains (terminator_locals t) l ≡ true
  unfolding contains
  last_use_is_read (switch_int discr ty targets) plain h =
      subst (λ ls. contains ls l ≡ true)
        (all_reads-plain (operand_places discr) plain ∙ sym (operand_locals-places discr)) h
  last_use_is_read (call func args d target cleanup) (whole, unindexed, tidy) h =
      let ps : List Place = operand_places func ++ places_of args in
      subst (λ ls. contains ls l ≡ true)
        (ap (λ pr. all_reads ps ++ write_reads d.local pr) whole
          ∙ append-nil (all_reads ps)
          ∙ all_reads-plain ps unindexed
          ∙ sym (call_locals-places func args))
        h
  last_use_is_read (assert cond expected target cleanup msg) plain h =
      subst (λ ls. contains ls l ≡ true)
        (all_reads-plain (operand_places cond) plain ∙ sym (operand_locals-places cond)) h
  last_use_is_read (drop_place place target cleanup) plain h = absurd plain
  last_use_is_read t plain h = cc

  overwrites-assigns_to :
      (t : Terminator) (j : ℕ)
      → PlainTerminator t
      → assigns_to t j l ≡ false
      → overwrites t l ≡ false
  overwrites-assigns_to (call func args d target none) j (whole, unindexed, tidy) h =
      ap (λ pr. is_whole pr && (d.local == l)) (sym whole) ∙ h
  overwrites-assigns_to (call func args d target (some c)) j (whole, unindexed, tidy) h = cc
  overwrites-assigns_to t j plain h = refl

  module _ (plain : IsPlain blocks) where
    -- In a plain body what is used is live.
    pub UsedAt-LiveAt :
        (stmts : List Statement) (t : Terminator)
        → All PlainStatement stmts
        → PlainTerminator t
        → UsedAt blocks l stmts t
        → LiveAt blocks l stmts t
    UsedAt-LiveAt _ _ hs ht (used_here {s} {stmts} {t} h) = use_is_read s stmts t hs.0 h
    UsedAt-LiveAt _ _ hs ht (used_later {s} {stmts} {t} h w) =
        later_is_past s stmts t hs.0 h (UsedAt-LiveAt stmts t hs.1 ht w)
    UsedAt-LiveAt _ _ hs ht (used_last {t} h) = reads_last (last_use_is_read t ht h)
    UsedAt-LiveAt _ _ hs ht (used_beyond {t} j b stays edge found w) =
        let (bs, bt) = All-get_elem? _ blocks j plain found in
        leaves j b (overwrites-assigns_to t j ht stays) edge found
          (UsedAt-LiveAt b.statements b.terminator bs bt w)

  pub LiveOut-UsedOut : (t : Terminator) → LiveOut blocks l t → UsedOut blocks l t
  LiveOut-UsedOut t w = record {
    succ = w.succ;
    next = w.next;
    edge = w.edge;
    found = w.found;
    used = LiveAt-UsedAt w.next.statements w.next.terminator w.live;
  }

  pub UsedOut-LiveOut : (t : Terminator) → IsPlain blocks → UsedOut blocks l t → LiveOut blocks l t
  UsedOut-LiveOut t plain w =
      let (bs, bt) = All-get_elem? _ blocks w.succ plain w.found in
      record {
        succ = w.succ;
        next = w.next;
        edge = w.edge;
        found = w.found;
        live = UsedAt-LiveAt plain w.next.statements w.next.terminator bs bt w.used;
      }
