-- ===== src/Vm/Valid/Stacks.antt =====
-- The invariant, and the methods on the stacks keep it.
use glyim_v.Prelude.{
  ℕ, ◌+◌, ◌-◌, ◌*◌, ◌^◌, ◌≤◌, ◌<◌, max, ◌≡◌, refl, ◌∙◌, Option, none, some, List, [], ◌∷◌, All,
  All-append, All-replicate, All-set, All-get_elem?, length, length-append, length-set,
  length-replicate, get_elem?, set, ltb, leb, arith, if_either, Bool-cases, inl, inr,
}
use glyim_v.Vm.Value.{Value, int, tuple, elements}
use glyim_v.Vm.State.{
  Function, Module, Frame, Vm, VmError, Exec, ok, err, panic, ◌>>=◌, max_call_depth, or_throw,
}
use glyim_v.Vm.Frames.{
  zeros, init_locals, new_frame, push_on, push_frame, pop, push, last_frame, top_frame, put_frame,
  set_pc, replace_top, pop_from, local_ref, unpack, mirror, set_local, read_mem, grow, set_mem,
}
use glyim_v.Vm.Valid.Words.{IsWord, IsWord-elements}
use glyim_v.Vm.Valid.Ensures.{
  Post, Ensures, Ensures-throw, Ensures-abort, Ensures-or_throw, Ensures-if, Ensures-bind,
}

pub record IsFrame (m : Module) (fr : Frame) : Type 0 where
  pub runs : Function
  pub exists : get_elem? m.functions fr.func ≡ some runs
  pub locals_fit : runs.n_locals ≤ length fr.locals
  pub mem_fit : length fr.locals * 8 ≤ length fr.mem
  pub locals_word : All IsWord fr.locals
  pub mem_word : All IsWord fr.mem

-- What the driver keeps: the depth limit, frames that run functions of the module with all their
-- slots, and 64-bit values throughout.
pub record IsValid (m : Module) (vm : Vm) : Type 0 where
  pub depth : length vm.frames ≤ max_call_depth
  pub frames : All (IsFrame m) vm.frames
  pub stack : All IsWord vm.stack

abbrev pub Any {ℓ} : {A : Type ℓ} → A → Type 0
Any _ = Unit

module _ (m : Module) where
  Post-last :
      (vm : Vm) (frs : List Frame) (r : Exec Frame)
      → IsValid m vm
      → All (IsFrame m) frs
      → Post (IsValid m) (IsFrame m) r
      → Post (IsValid m) (IsFrame m) (elim frs [ [] ↦ r | fr ∷ _ ↦ ok fr vm ])
  Post-last vm [] r v h hr = hr
  Post-last vm (fr ∷ frs) r v h hr = (h.0, v)

  pub last_frame-Ensures : Ensures (IsValid m) (IsFrame m) last_frame
  unfolding last_frame
  last_frame-Ensures = record {
    at = λ vm v. Post-last vm vm.frames (err VmError.stack_underflow vm) v v.frames v;
  }

  pub top_frame-Ensures : Ensures (IsValid m) (IsFrame m) top_frame
  unfolding top_frame
  top_frame-Ensures = record { at = λ vm v. Post-last vm vm.frames panic v v.frames tt }

  replace_top-IsValid :
      (fr : Frame) (vm : Vm) (frs : List Frame)
      → IsFrame m fr
      → IsValid m vm
      → length frs ≤ max_call_depth
      → All (IsFrame m) frs
      → IsValid m (record vm { frames = replace_top fr frs })
  replace_top-IsValid fr vm [] h v d k = record { depth = d; frames = tt; stack = v.stack }
  replace_top-IsValid fr vm (_ ∷ frs) h v d k = record {
    depth = d;
    frames = (h, k.1);
    stack = v.stack;
  }

  pub put_frame-Ensures : (fr : Frame) → IsFrame m fr → Ensures (IsValid m) Any (put_frame fr)
  unfolding put_frame
  put_frame-Ensures fr h = record {
    at = λ vm v. (tt, replace_top-IsValid fr vm vm.frames h v v.depth v.frames);
  }

  pop_from-Post :
      (vs : List Value) (frs : List Frame)
      → All IsWord vs
      → length frs ≤ max_call_depth
      → All (IsFrame m) frs
      → Post (IsValid m) IsWord (pop_from vs frs)
  pop_from-Post [] frs w d h = record { depth = d; frames = h; stack = tt }
  pop_from-Post (v ∷ vs) frs w d h = (w.0, record { depth = d; frames = h; stack = w.1 })

  pub pop-Ensures : Ensures (IsValid m) IsWord pop
  unfolding pop
  pop-Ensures = record { at = λ vm v. pop_from-Post vm.stack vm.frames v.stack v.depth v.frames }

  pub push-Ensures : (x : Value) → IsWord x → Ensures (IsValid m) Any (push x)
  unfolding push
  push-Ensures x h = record {
    at = λ vm v. (tt, record { depth = v.depth; frames = v.frames; stack = (h, v.stack) });
  }

  pub set_pc-Ensures : (pc : ℕ) → Ensures (IsValid m) Any (set_pc pc)
  unfolding set_pc
  set_pc-Ensures pc =
      Ensures-bind top_frame-Ensures
        λ fr h. put_frame-Ensures (record fr { pc = pc }) (IsFrame-set_pc fr h)
    where
      IsFrame-set_pc : (fr : Frame) → IsFrame m fr → IsFrame m (record fr { pc = pc })
      IsFrame-set_pc fr h = record {
        runs = h.runs;
        exists = h.exists;
        locals_fit = h.locals_fit;
        mem_fit = h.mem_fit;
        locals_word = h.locals_word;
        mem_word = h.mem_word;
      }

  pub local_ref-Ensures : (idx : ℕ) → Ensures (IsValid m) IsWord (local_ref idx)
  unfolding local_ref
  local_ref-Ensures idx =
      Ensures-bind last_frame-Ensures λ fr h.
        Ensures-or_throw IsWord _ _ λ a e. All-get_elem? IsWord fr.locals idx h.locals_word e

  pub read_mem-Ensures : (addr : ℕ) → Ensures (IsValid m) IsWord (read_mem addr)
  unfolding read_mem
  read_mem-Ensures addr =
      Ensures-bind last_frame-Ensures
        λ fr h. Ensures-or_throw IsWord _ _ λ a e. All-get_elem? IsWord fr.mem addr h.mem_word e

length-unpack : (a : ℕ) (es mem : List Value) → length (unpack a es mem) ≡ length mem
unfolding unpack
length-unpack a [] mem = refl
length-unpack a (e ∷ es) mem = length-unpack (a + 1) es (set mem a e) ∙ length-set mem a e

unpack-IsWord :
    (a : ℕ) (es mem : List Value) → All IsWord es → All IsWord mem → All IsWord (unpack a es mem)
unfolding unpack
unpack-IsWord a [] mem h k = k
unpack-IsWord a (e ∷ es) mem h k =
    unpack-IsWord (a + 1) es (set mem a e) h.1 (All-set IsWord mem a e k h.0)

pub length-mirror :
    (idx : ℕ) (v : Value) (mem : List Value) → length (mirror idx v mem) ≡ length mem
unfolding mirror
length-mirror idx (int v) mem = ground (arith, length-set mem idx (int v))
length-mirror idx (tuple es) mem = ground (
  arith,
  length-unpack (idx + 1) (elements es) (set mem idx (tuple es)),
  length-set mem idx (tuple es),
)

mirror-IsWord :
    (idx : ℕ) (v : Value) (mem : List Value)
    → IsWord v
    → All IsWord mem
    → All IsWord (mirror idx v mem)
unfolding mirror
mirror-IsWord idx (int v) mem h k =
    if_either (All IsWord) _ _ _ (All-set IsWord mem idx (int v) k h) k
mirror-IsWord idx (tuple es) mem h k =
    if_either (All IsWord) _ _ _
      (unpack-IsWord (idx + 1) (elements es) _ (IsWord-elements es h)
        (All-set IsWord mem idx _ k h))
      k

All-zeros : (n : ℕ) → All IsWord (zeros n)
All-zeros n = All-replicate IsWord n (int 0) (omega arith)

length-grow-ge : (n : ℕ) (mem : List Value) → length mem ≤ length (grow n mem)
unfolding grow
length-grow-ge n mem = omega (arith, length-append mem (zeros (n - length mem)))

grow-IsWord : (n : ℕ) (mem : List Value) → All IsWord mem → All IsWord (grow n mem)
unfolding grow
grow-IsWord n mem h = All-append IsWord mem _ h (All-zeros (n - length mem))

init_locals-IsWord : (n : ℕ) (args : List Value) → All IsWord args → All IsWord (init_locals n args)
unfolding init_locals
init_locals-IsWord n args h = All-append IsWord args _ h (All-zeros (n - length args))

length-init_locals : (n : ℕ) (args : List Value) → length args ≤ n → length (init_locals n args) ≡ n
unfolding init_locals
length-init_locals n args h =
    length-append args (zeros (n - length args))
    ∙ omega (arith, length-replicate (n - length args) (int 0))

module _ (m : Module) where
  pub set_local-Ensures :
      (idx : ℕ) (v : Value) → IsWord v → Ensures (IsValid m) Any (set_local idx v)
  unfolding set_local
  set_local-Ensures idx v w =
      Ensures-bind (last_frame-Ensures m)
        λ fr h. Ensures-if Any _ _ _ (Ensures-throw Any _) (put_frame-Ensures m _ (written fr h))
    where
      written :
          (fr : Frame)
          → IsFrame m fr
          → IsFrame m (record fr { locals = set fr.locals idx v; mem = mirror idx v fr.mem })
      written fr h = record {
        runs = h.runs;
        exists = h.exists;
        locals_fit = omega (arith, length-set fr.locals idx v, h.locals_fit);
        mem_fit = omega (arith, length-set fr.locals idx v, length-mirror idx v fr.mem, h.mem_fit);
        locals_word = All-set IsWord fr.locals idx v h.locals_word w;
        mem_word = mirror-IsWord idx v fr.mem w h.mem_word;
      }

  pub set_mem-Ensures : (addr : ℕ) (v : Value) → IsWord v → Ensures (IsValid m) Any (set_mem addr v)
  unfolding set_mem
  set_mem-Ensures addr v w = Ensures-bind (last_frame-Ensures m) λ fr h.
      Ensures-if Any (ltb addr (length fr.mem)) _ _
        (put_frame-Ensures m _ (stored fr fr.mem h (omega arith) h.mem_word))
        (Ensures-if Any (leb (2 ^ 64) (addr + 1)) _ _ (Ensures-abort Any) (
          put_frame-Ensures m _ (
            stored fr (grow (addr + 1) fr.mem) h (length-grow-ge (addr + 1) fr.mem)
              (grow-IsWord (addr + 1) fr.mem h.mem_word))))
    where
      stored :
          (fr : Frame) (mem : List Value)
          → IsFrame m fr
          → length fr.mem ≤ length mem
          → All IsWord mem
          → IsFrame m (record fr { mem = set mem addr v })
      stored fr mem h l k = record {
        runs = h.runs;
        exists = h.exists;
        locals_fit = h.locals_fit;
        mem_fit = omega (arith, length-set mem addr v, h.mem_fit);
        locals_word = h.locals_word;
        mem_word = All-set IsWord mem addr v k w;
      }

  module _ (func : ℕ) (args : List Value) (target dest : ℕ) (w : All IsWord args) where
    new_frame-IsFrame :
        (f : Function)
        → get_elem? m.functions func ≡ some f
        → IsFrame m (new_frame (max f.n_locals (length args)) func args target dest)
    unfolding new_frame
    new_frame-IsFrame f e =
        let n = max f.n_locals (length args) in
        let size = length-init_locals n args (omega arith) in
        record {
          runs = f;
          exists = e;
          locals_fit = omega (arith, size);
          mem_fit = omega (arith, size, length-replicate (max (n * 8) 8) (int 0));
          locals_word = init_locals-IsWord n args w;
          mem_word = All-zeros (max (n * 8) 8);
        }

    push_checked :
        (vm : Vm) (o : Option Function)
        → get_elem? m.functions func ≡ o
        → IsValid m vm
        → length vm.frames < max_call_depth
        → Post (IsValid m) Any (
            (or_throw (VmError.function_out_of_bounds func) o >>= push_on func args target dest) vm)
    unfolding ◌>>=◌ or_throw push_on
    push_checked vm none e v d = v
    push_checked vm (some f) e v d =
        (tt, record { depth = d; frames = (new_frame-IsFrame f e, v.frames); stack = v.stack })

    pub push_frame-Ensures : Ensures (IsValid m) Any (push_frame m func args target dest)
    unfolding push_frame
    push_frame-Ensures = record {
      at = λ vm v. elim (Bool-cases (leb max_call_depth (length vm.frames))) [
        | inl full ↦ rw full v
        | inr free ↦ rw free (push_checked vm _ refl v (ground arith))
      ];
    }
