-- ===== src/Vm/Frames.antt =====
-- The methods of `Vm` on its stacks (crates/glyim-bytecode-vm/src/lib.rs): `push_frame`, `pop`,
-- `local_ref`, `set_local`, `mem`, `set_mem`.
use glyim_v.Prelude.{
  ℕ, ◌+◌, ◌-◌, ◌*◌, ◌^◌, max, List, [], ◌∷◌, ◌++◌, length, get_elem?, set, replicate, ltb, leb,
  if◌then◌else◌,
}
use glyim_v.Vm.Value.{Value, int, tuple, elements}
use glyim_v.Vm.State.{
  Frame, Function, Module, VmError, Exec, ok, err, M, ◌>>=◌, throw, abort, or_throw, max_call_depth,
}

abbrev pub zeros : ℕ → List Value
zeros n = replicate n (int 0)

-- `vec![Value::Int(0); n]` with the leading slots filled from the arguments.
unfoldable pub init_locals : ℕ → List Value → List Value
init_locals n args = args ++ zeros (n - length args)

unfoldable pub new_frame : ℕ → ℕ → List Value → ℕ → ℕ → Frame
new_frame n_locals func args resume_target dest_local = record {
  locals = init_locals n_locals args;
  mem = zeros (max (n_locals * 8) 8);
  func = func;
  pc = 0;
  resume_target = resume_target;
  dest_local = dest_local;
}

unfoldable pub push_on : ℕ → List Value → ℕ → ℕ → Function → M (Unit {0})
push_on func args resume_target dest_local f vm =
    let frame = new_frame (max f.n_locals (length args)) func args resume_target dest_local in
    ok tt (record vm { frames = frame ∷ vm.frames })

unfoldable pub push_frame : Module → ℕ → List Value → ℕ → ℕ → M (Unit {0})
push_frame m func args resume_target dest_local vm =
    if leb max_call_depth (length vm.frames)
    then err VmError.call_frame_overflow vm
    else (do
      f ← or_throw (VmError.function_out_of_bounds func) (get_elem? m.functions func)
      push_on func args resume_target dest_local f)
        vm

abbrev pub pop_from : List Value → List (Frame) → Exec Value
pop_from [] frames = err VmError.stack_underflow (record { stack = []; frames = frames })
pop_from (v ∷ vs) frames = ok v (record { stack = vs; frames = frames })

unfoldable pub pop : M Value
pop vm = pop_from vm.stack vm.frames

unfoldable pub push : Value → M (Unit {0})
push v vm = ok tt (record vm { stack = v ∷ vm.stack })

-- `self.frames.last().ok_or(StackUnderflow)?`
unfoldable pub last_frame : M Frame
last_frame vm = elim vm.frames [ [] ↦ err VmError.stack_underflow vm | fr ∷ _ ↦ ok fr vm ]

-- `self.frames[frame_idx]`, where `frame_idx` is the top frame.
unfoldable pub top_frame : M Frame
top_frame vm = elim vm.frames [ [] ↦ Exec.panic | fr ∷ _ ↦ ok fr vm ]

abbrev pub replace_top : Frame → List Frame → List Frame
replace_top fr [] = []
replace_top fr (_ ∷ rest) = fr ∷ rest

-- The state with its top frame replaced.
unfoldable pub put_frame : Frame → M (Unit {0})
put_frame fr vm = ok tt (record vm { frames = replace_top fr vm.frames })

unfoldable pub set_pc : ℕ → M (Unit {0})
set_pc pc = do fr ← top_frame; put_frame (record fr { pc = pc })

unfoldable pub local_ref : ℕ → M Value
local_ref idx = do
  fr ← last_frame
  or_throw (VmError.local_out_of_bounds idx) (get_elem? fr.locals idx)

-- The elements of a tuple go to the slots from `a` on, as far as there are any.
unfoldable pub unpack : ℕ → List Value → List Value → List Value
unpack a [] mem = mem
unpack a (e ∷ es) mem = unpack (a + 1) es (set mem a e)

abbrev pub unpack_value : ℕ → Value → List Value → List Value
unpack_value idx (tuple es) mem = unpack (idx + 1) (elements es) mem
unpack_value idx (int _) mem = mem

-- `set_local`'s copy in the frame's memory.
unfoldable pub mirror : ℕ → Value → List Value → List Value
unfolding unpack elements
mirror idx v mem = if ltb idx (length mem) then unpack_value idx v (set mem idx v) else mem

unfoldable pub set_local : ℕ → Value → M (Unit {0})
set_local idx v = do
  fr ← last_frame
  if leb (length fr.locals) idx
      then throw (VmError.local_out_of_bounds idx)
      else put_frame (record fr { locals = set fr.locals idx v; mem = mirror idx v fr.mem })

unfoldable pub read_mem : ℕ → M Value
read_mem addr = do
  fr ← last_frame
  or_throw (VmError.local_out_of_bounds addr) (get_elem? fr.mem addr)

-- `Vec::resize` to a greater length.
unfoldable pub grow : ℕ → List Value → List Value
grow n mem = mem ++ zeros (n - length mem)

-- `addr + 1` overflows at the greatest address.
unfoldable pub set_mem : ℕ → Value → M (Unit {0})
set_mem addr v = do
  fr ← last_frame
  if ltb addr (length fr.mem)
      then put_frame (record fr { mem = set fr.mem addr v })
      else if leb (2 ^ 64) (addr + 1)
      then abort
      else put_frame (record fr { mem = set (grow (addr + 1) fr.mem) addr v })

-- To name on an `unfolding` line: the methods above, opened.
unfoldable pub methods : Unit {0}
unfolding ◌>>=◌ or_throw init_locals new_frame push_on push_frame pop push last_frame top_frame
    put_frame set_pc local_ref mirror set_local read_mem grow set_mem
methods = tt
