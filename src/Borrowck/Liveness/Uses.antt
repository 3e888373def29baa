-- ===== src/Borrowck/Liveness/Uses.antt =====
-- What it is that a local's value may be used, by the paths of a body; not code, and stated apart from
-- the walks of crates/glyim-borrowck/src/visitor.rs.
use glyim_v.Prelude.{
  ℕ, ◌≡◌, Bool, true, false, ◌&&◌, not, none, some, List, [], ◌∷◌, ◌++◌, get_elem?, All, ◌==◌,
  contains,
}
use glyim_v.Mir.Types.{
  BasicBlockIdx, LocalIdx, ProjectionElem, deref, index, Place, Statement, assign, storage_live,
  storage_dead, nop, Terminator, goto, switch_int, return, unreachable, call, assert, drop_place,
  BasicBlockData,
}
use glyim_v.Opt.Validate.WellFormed.{operand_places, places_of, rvalue_places}
use glyim_v.Borrowck.Visitor.{successor_blocks}
use glyim_v.Borrowck.Conflict.Regions.{index_locals}

-- To read a place is to read its local and the locals that index.
abbrev pub all_reads : List Place → List LocalIdx
all_reads [] = []
all_reads (place ∷ places) = place.local ∷ (index_locals place.projection ++ all_reads places)

-- To write to a place is to read the locals that index, and the place's own local if the place is behind
-- a reference.
abbrev pub write_reads : LocalIdx → List ProjectionElem → List LocalIdx
write_reads l [] = []
write_reads l (deref ∷ rest) = l ∷ index_locals rest
write_reads l (index k ∷ rest) = k ∷ write_reads l rest
write_reads l (elem ∷ rest) = write_reads l rest

-- Only a write to the whole of a local assigns it.
abbrev pub is_whole : List ProjectionElem → Bool
is_whole [] = true
is_whole (elem ∷ rest) = false

abbrev pub statement_reads : Statement → List LocalIdx
statement_reads (assign place rvalue) =
    all_reads (rvalue_places rvalue) ++ write_reads place.local place.projection
statement_reads (storage_live k) = []
statement_reads (storage_dead k) = []
statement_reads nop = []

abbrev pub assigns : Statement → LocalIdx → Bool
assigns (assign place rvalue) l = is_whole place.projection && (place.local == l)
assigns (storage_live k) l = false
assigns (storage_dead k) l = false
assigns nop l = false

abbrev pub terminator_reads : Terminator → List LocalIdx
terminator_reads (goto target) = []
terminator_reads return = []
terminator_reads unreachable = []
terminator_reads (switch_int discr ty targets) = all_reads (operand_places discr)
terminator_reads (call func args destination target cleanup) =
    all_reads (operand_places func ++ places_of args)
    ++ write_reads destination.local destination.projection
terminator_reads (assert cond expected target cleanup msg) = all_reads (operand_places cond)
terminator_reads (drop_place place target cleanup) = all_reads (place ∷ [])

-- Whether a local is assigned on the way to a successor. A call that unwinds has no result.
abbrev pub assigns_to : Terminator → BasicBlockIdx → LocalIdx → Bool
assigns_to (call func args destination target none) j l =
    is_whole destination.projection && (destination.local == l)
assigns_to (call func args destination target (some cleanup)) j l =
    not (cleanup == j) && is_whole destination.projection && (destination.local == l)
assigns_to _ j l = false

-- There is a path from the given statements and terminator on which `l` is read, and not assigned
-- before that.
pub data UsedAt (blocks : List BasicBlockData) (l : LocalIdx)
    : List Statement → Terminator → Type 0 where
  used_here :
      {s : Statement} {stmts : List Statement} {t : Terminator}
      → contains (statement_reads s) l ≡ true
      → UsedAt blocks l (s ∷ stmts) t
  used_later :
      {s : Statement} {stmts : List Statement} {t : Terminator}
      → assigns s l ≡ false
      → UsedAt blocks l stmts t
      → UsedAt blocks l (s ∷ stmts) t
  used_last : {t : Terminator} → contains (terminator_reads t) l ≡ true → UsedAt blocks l [] t
  used_beyond :
      {t : Terminator} (j : ℕ) (b : BasicBlockData)
      → assigns_to t j l ≡ false
      → contains (successor_blocks t) j ≡ true
      → get_elem? blocks j ≡ some b
      → UsedAt blocks l b.statements b.terminator
      → UsedAt blocks l [] t

-- Behind the terminator: from the start of one of the successors.
pub record UsedOut (blocks : List BasicBlockData) (l : LocalIdx) (t : Terminator) : Type 0 where
  pub succ : ℕ
  pub next : BasicBlockData
  pub edge : contains (successor_blocks t) succ ≡ true
  pub found : get_elem? blocks succ ≡ some next
  pub used : UsedAt blocks l next.statements next.terminator

-- No local indexes in the places.
abbrev pub Unindexed : List Place → Type 0
Unindexed = All (λ place. index_locals place.projection ≡ [])

-- No place that is read has an index that is a local, what is assigned is always the whole of a local,
-- nothing is dropped, and no call has a cleanup block.
abbrev pub PlainStatement : Statement → Type 0
PlainStatement (assign place rvalue) = (place.projection ≡ []) × Unindexed (rvalue_places rvalue)
PlainStatement (storage_live k) = Unit
PlainStatement (storage_dead k) = Unit
PlainStatement nop = Unit

abbrev pub PlainTerminator : Terminator → Type 0
PlainTerminator (goto target) = Unit
PlainTerminator return = Unit
PlainTerminator unreachable = Unit
PlainTerminator (switch_int discr ty targets) = Unindexed (operand_places discr)
PlainTerminator (call func args destination target cleanup) =
    (destination.projection ≡ [])
    × Unindexed (operand_places func ++ places_of args)
    × (cleanup ≡ none)
PlainTerminator (assert cond expected target cleanup msg) = Unindexed (operand_places cond)
PlainTerminator (drop_place place target cleanup) = ⊥

abbrev pub IsPlain : List BasicBlockData → Type 0
IsPlain = All (λ b. All PlainStatement b.statements × PlainTerminator b.terminator)
