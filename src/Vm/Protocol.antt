-- ===== src/Vm/Protocol.antt =====
-- A call and its return (crates/glyim-bytecode-vm/src/lib.rs, `push_frame` and `Opcode::Return`).
use glyim_v.Prelude.{
  ℕ, ◌<◌, ◌≡◌, refl, ap, max, ◌∙◌, some, List, ◌∷◌, length, get_elem?, set, lt→leb_false, lt→ltb,
}
use glyim_v.Vm.Value.{Value}
use glyim_v.Vm.State.{
  Function, Module, Frame, Vm, ok, max_call_depth, M, return, or_panic, or_throw, ◌>>=◌, ◌>>◌,
}
use glyim_v.Vm.Code.{resolve_target}
use glyim_v.Vm.Frames.{push_on, push_frame, new_frame, pop, top_frame, put_frame}
use glyim_v.Vm.Handlers.{
  continue, resolve, pop_or_empty, resume_caller, resume, pop_frame, exec_return,
}

bind-ok {ℓ κ} :
    {A : Type ℓ} {B : Type κ} (act : M A) (f : A → M B) (vm : Vm) (a : A) (vm' : Vm)
    → act vm ≡ ok a vm'
    → (act >>= f) vm ≡ f a vm'
unfolding ◌>>=◌
bind-ok act f vm a vm' e = simp (◌>>=◌, e)

module _ (m : Module) where
  resume-continue :
      (finished caller : Frame) (rest : List Frame) (st : List Value) (v : Value) (f : Function)
      (pc : ℕ)
      → get_elem? m.functions caller.func ≡ some f
      → resolve_target f finished.resume_target ≡ some pc
      → resume m v finished (record { stack = st; frames = caller ∷ rest })
        ≡ ok continue
            (record { stack = st; frames = resume_caller finished.dest_local v pc caller ∷ rest })
  unfolding resume ◌>>=◌ top_frame or_panic return resolve put_frame
  resume-continue finished caller rest st v f pc ef er = simp (or_panic, ef, er)

  exec_return-ok :
      (finished caller : Frame) (rest : List Frame) (st : List Value) (v : Value) (f : Function)
      (pc : ℕ)
      → get_elem? m.functions caller.func ≡ some f
      → resolve_target f finished.resume_target ≡ some pc
      → exec_return m (record { stack = v ∷ st; frames = finished ∷ caller ∷ rest })
        ≡ ok continue
            (record { stack = st; frames = resume_caller finished.dest_local v pc caller ∷ rest })
  unfolding ◌>>=◌ exec_return pop_or_empty pop pop_frame or_throw return
  exec_return-ok finished caller rest st v f pc ef er =
      resume-continue finished caller rest st v f pc ef er

  stored :
      (dest : ℕ) (v : Value) (pc : ℕ) (caller : Frame) (rest : List Frame) (st : List Value)
      → dest < length caller.locals
      → ok continue (record { stack = st; frames = resume_caller dest v pc caller ∷ rest })
        ≡ ok continue (record {
          stack = st;
          frames = record caller { locals = set caller.locals dest v; pc = pc } ∷ rest;
        })
  unfolding resume_caller
  stored dest v pc caller rest st slot = rw (lt→ltb dest (length caller.locals) slot) refl

  push_frame-ok :
      (func : ℕ) (args : List Value) (target dest : ℕ) (caller : Frame) (rest : List Frame)
      (st : List Value) (g : Function)
      → length (caller ∷ rest) < max_call_depth
      → get_elem? m.functions func ≡ some g
      → push_frame m func args target dest (record { stack = st; frames = caller ∷ rest })
        ≡ ok tt (record {
          stack = st;
          frames = new_frame (max g.n_locals (length args)) func args target dest ∷ caller ∷ rest;
        })
  unfolding push_frame push_on or_throw ◌>>=◌ return
  push_frame-ok func args target dest caller rest st g depth eg =
      rw (lt→leb_false (length (caller ∷ rest)) max_call_depth depth) (simp (or_throw, eg))

  -- In a machine with a frame, below the greatest depth: a call of a function of the module, followed by
  -- any action, such as the instructions of the function, that succeeds and leaves a value `v` on top of
  -- a stack `st'`, above the frames there were a frame with the call's destination and resume target, and
  -- then the return from that frame. The machine goes on; it has the stack `st'` and the caller's frame
  -- on top of the frames that were below it. The caller's frame goes on where the target resolves to,
  -- which it must, and has `v` in the destination slot, which it must have; its other slots and its
  -- memory are unchanged.
  pub push_frame-exec_return {ℓ} :
      {A : Type ℓ} (act : M A) (done : A) (func : ℕ) (args : List Value) (target dest : ℕ)
      (caller finished : Frame) (rest : List Frame) (st st' : List Value) (v : Value)
      (f g : Function) (pc : ℕ)
      → length (caller ∷ rest) < max_call_depth
      → get_elem? m.functions func ≡ some g
      → get_elem? m.functions caller.func ≡ some f
      → resolve_target f target ≡ some pc
      → dest < length caller.locals
      → act (record {
        stack = st;
        frames = new_frame (max g.n_locals (length args)) func args target dest ∷ caller ∷ rest;
      })
        ≡ ok done (record { stack = v ∷ st'; frames = finished ∷ caller ∷ rest })
      → finished.dest_local ≡ dest
      → finished.resume_target ≡ target
      → (push_frame m func args target dest >> (act >>= (λ _. exec_return m)))
          (record { stack = st; frames = caller ∷ rest })
        ≡ ok continue (record {
          stack = st';
          frames = record caller { locals = set caller.locals dest v; pc = pc } ∷ rest;
        })
  push_frame-exec_return act done func args target dest caller finished rest st st' v f g pc depth
        eg ef er slot ran same_dest same_target =
      let pushed = new_frame (max g.n_locals (length args)) func args target dest in
      bind-ok (push_frame m func args target dest) (λ _. act >>= (λ _. exec_return m))
        (record { stack = st; frames = caller ∷ rest }) tt
        (record { stack = st; frames = pushed ∷ caller ∷ rest })
        (push_frame-ok func args target dest caller rest st g depth eg)
      ∙ bind-ok act (λ _. exec_return m) (record { stack = st; frames = pushed ∷ caller ∷ rest })
          done (record { stack = v ∷ st'; frames = finished ∷ caller ∷ rest }) ran
      ∙ exec_return-ok finished caller rest st' v f pc ef (ap (resolve_target f) same_target ∙ er)
      ∙ ap (λ d. ok continue (record { stack = st'; frames = resume_caller d v pc caller ∷ rest }))
          same_dest
      ∙ stored dest v pc caller rest st' slot
