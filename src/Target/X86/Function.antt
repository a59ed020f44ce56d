-- ===== src/Target/X86/Function.antt =====
-- The code of the x86-64 backend for a list of operations, without a frame and with one.
use os_emulation.Base.{
  ℕ, ◌+◌, ◌*◌, ◌%◌, ◌^◌, ◌<◌, ◌≡◌, refl, sym, ap, ◌∙◌, subst, true, false, List, [], ◌∷◌, ◌++◌,
  length, some, append-nil, append_assoc, All, arith,
}
use os_emulation.Base.Words.{u64_mod}
use os_emulation.Target.Ops.{
  OsOp, push_u64, push_u32, pop, load, store, ecall, jump, trap, tail_call,
}
use os_emulation.Target.Reference.{Env, steps}
use os_emulation.Target.Host.{Machine, Shim, running, jumped, neg, address, set_reg, pop_reg}
use os_emulation.Target.Refines.{ShimLaws, Represents, IsNarrow}
use os_emulation.Target.Program.{run, run-append, lower_all, program_refines}
use os_emulation.Target.Helpers.{NativeHelpers}
use os_emulation.Target.Frame.{steps_above}
use os_emulation.Target.X86.{
  X86Config, X86Backend, Instr, prologue, epilogue, with_config_and_writer, op, finish, abi, labels,
  lower, run_one, rsp, rbp,
}
use os_emulation.Target.HostStack.{Stack-push}
use os_emulation.Target.X86.Lowering.{abi-IsAbi, lower_runs}

-- The backend after a list of operations.
abbrev pub emit : X86Backend → List OsOp → X86Backend
emit b [] = b
emit b (o ∷ ops) = emit (op b o) ops

emit_lem :
    (b : X86Backend) (ops : List OsOp)
    → emit b ops ≡ record b { writer = b.writer ++ lower_all (lower b.cfg) ops }
unfolding op
emit_lem b [] = ap (λ (w : List Instr). record b { writer = w }) (sym (append-nil b.writer))
emit_lem b (o ∷ ops) =
    emit_lem (op b o) ops
    ∙ ap (λ (w : List Instr). record b { writer = w })
        (append_assoc b.writer (lower b.cfg o) (lower_all (lower b.cfg) ops))

-- Every operand of `PushU32` is pushed as it is.
All-IsNarrow : (cfg : X86Config) (ops : List OsOp) → All (IsNarrow (labels cfg)) ops
All-IsNarrow cfg [] = tt
All-IsNarrow cfg (push_u64 v ∷ ops) = (tt, All-IsNarrow cfg ops)
All-IsNarrow cfg (push_u32 v ∷ ops) = (refl, All-IsNarrow cfg ops)
All-IsNarrow cfg (pop ∷ ops) = (tt, All-IsNarrow cfg ops)
All-IsNarrow cfg (load width signed ∷ ops) = (tt, All-IsNarrow cfg ops)
All-IsNarrow cfg (store width ∷ ops) = (tt, All-IsNarrow cfg ops)
All-IsNarrow cfg (ecall may_await ∷ ops) = (tt, All-IsNarrow cfg ops)
All-IsNarrow cfg (jump target ∷ ops) = (tt, All-IsNarrow cfg ops)
All-IsNarrow cfg (trap ∷ ops) = (tt, All-IsNarrow cfg ops)
All-IsNarrow cfg (tail_call helper ∷ ops) = (tt, All-IsNarrow cfg ops)

abbrev unframed : NativeHelpers → X86Config
unframed helpers = record { helpers = helpers; emit_frame = false }

abbrev framed : NativeHelpers → X86Config
framed helpers = record { helpers = helpers; emit_frame = true }

-- The code of a list of operations, from `with_config` to `finish`.
abbrev pub function : X86Config → List OsOp → List Instr
function cfg ops = (finish (emit (with_config_and_writer cfg []) ops)).writer

function_lem :
    (cfg : X86Config) (ops : List OsOp)
    → function cfg ops ≡ prologue cfg ++ (lower_all (lower cfg) ops ++ epilogue cfg)
unfolding finish with_config_and_writer
function_lem cfg ops =
    ap (λ (b : X86Backend). b.writer ++ epilogue b.cfg) (emit_lem _ ops)
    ∙ append_assoc (prologue cfg) (lower_all (lower cfg) ops) (epilogue cfg)

unframed_lem :
    (helpers : NativeHelpers) (ops : List OsOp)
    → function (unframed helpers) ops ≡ lower_all (lower (unframed helpers)) ops
unfolding prologue epilogue
unframed_lem helpers ops =
    function_lem (unframed helpers) ops ∙ append-nil (lower_all (lower (unframed helpers)) ops)

-- The code that the x86-64 backend emits by default, for operations that neither run short of
-- operands nor leave the code, runs to its end with the operands that the operations mean on the
-- host's stack and with the guest memory that they mean. Operands and operations are together fewer
-- than 2^60, the machine represents the operands and the guest memory at the start, and the helpers
-- keep the calling convention.
pub unframed_refines :
    {M : Type 0} (env : Env M) (shim : Shim M) (helpers : NativeHelpers)
    → ShimLaws abi env (labels (unframed helpers)) shim
    → (ops : List OsOp) (m : Machine M) (top frame : ℕ) (xs zs : List ℕ) (mem mem' : M)
    → length xs + length ops < 2 ^ 60
    → Represents abi top frame m xs mem
    → steps env ops xs mem ≡ some (zs, mem')
    → (m' : Machine M) × (run (run_one shim) (function (unframed helpers) ops) m ≡ running m')
      × Represents abi top frame m' zs mem'
unframed_refines env shim helpers laws ops m top frame xs zs mem mem' small h means =
    let cfg : X86Config = unframed helpers in
    rw (unframed_lem helpers ops) (
      program_refines (run_one shim) abi abi-IsAbi top frame env (labels cfg) shim laws (lower cfg)
        (lower_runs shim cfg) ops m xs zs mem mem' small (All-IsNarrow cfg ops) h means)

module _ {M : Type 0} (env : Env M) (shim : Shim M) (helpers : NativeHelpers)
    (laws : ShimLaws abi env (labels (framed helpers)) shim) where
  prologue_runs :
      (m : Machine M) (back : ℕ)
      → m.cells (m.regs rsp % u64_mod) ≡ back
      → (m' : Machine M) × (run (run_one shim) (prologue (framed helpers)) m ≡ running m')
        × Represents abi (m.regs rsp + 8) (address m rsp (neg 8)) m' (m.regs rbp ∷ back ∷ []) m.mem
  unfolding run prologue
  prologue_runs m back e = (
    _,
    refl,
    record {
      stack = Stack-push m.cells (m.regs rsp) (m.regs rbp) (back ∷ []) (omega arith) (e, tt);
      depth = omega arith;
      framed = refl;
      guest = refl;
    },
  )

  -- The epilogue takes the two topmost words for the saved frame pointer and the return address.
  epilogue_runs :
      (m : Machine M) (top frame x y : ℕ) (rest : List ℕ) (mem : M)
      → Represents abi top frame m (x ∷ y ∷ rest) mem
      → (m' : Machine M) × (run (run_one shim) (epilogue (framed helpers)) m ≡ jumped y m')
        × (m'.regs rbp ≡ x)
        × (m'.regs rsp ≡ (m.regs rsp + 16) % u64_mod)
        × (m'.mem ≡ mem)
  unfolding run epilogue
  epilogue_runs m top frame x y rest mem h =
      let p : Machine M = pop_reg abi m rbp in
      let out : Machine M = set_reg p rsp (address p rsp 8) in
      (
        out,
        ap (λ (k : ℕ). jumped k out) (ap m.cells (omega arith) ∙ h.stack.1.0),
        ap m.cells (omega arith) ∙ h.stack.0,
        omega arith,
        h.guest,
      )

  exit_words :
      (ops : List OsOp) (m : Machine M) (back x y : ℕ) (zs rest : List ℕ) (mem : M)
      → length ops + 2 < 2 ^ 60
      → m.cells (m.regs rsp % u64_mod) ≡ back
      → steps env ops [] m.mem ≡ some (zs, mem)
      → zs ++ (m.regs rbp ∷ back ∷ []) ≡ x ∷ y ∷ rest
      → (m' : Machine M) × (run (run_one shim) (function (framed helpers) ops) m ≡ jumped y m')
        × (m'.regs rbp ≡ x)
        × ((m'.regs rsp + 8 * length rest) % u64_mod ≡ (m.regs rsp + 8) % u64_mod)
        × (m'.mem ≡ mem)
  exit_words ops m back x y zs rest mem small called means shape =
      let cfg : X86Config = framed helpers in
      let saved : List ℕ = m.regs rbp ∷ back ∷ [] in
      let top : ℕ = m.regs rsp + 8 in
      let frame : ℕ = address m rsp (neg 8) in
      let (m1, before, r1) = prologue_runs m back called in
      let (m2, inside, r2) =
        program_refines (run_one shim) abi abi-IsAbi top frame env (labels cfg) shim laws
          (lower cfg) (lower_runs shim cfg) ops m1 saved (zs ++ saved) m.mem mem (omega arith)
          (All-IsNarrow cfg ops) r1 (steps_above env saved ops [] zs m.mem mem means) in
      let r3 : Represents abi top frame m2 (x ∷ y ∷ rest) mem =
        subst (λ (ws : List ℕ). Represents abi top frame m2 ws mem) shape r2 in
      let (m3, after, b3, s3, g3) = epilogue_runs m2 top frame x y rest mem r3 in
      (
        m3,
        rw (function_lem cfg ops) (
            run-append (run_one shim) (prologue cfg) (lower_all (lower cfg) ops ++ epilogue cfg) m
            ∙ rw before (
                run-append (run_one shim) (lower_all (lower cfg) ops) (epilogue cfg) m1
                ∙ rw inside after)),
        b3,
        ap (λ (k : ℕ). (k + 8 * length rest) % u64_mod) s3 ∙ omega (arith, r3.depth),
        g3,
      )

  -- With a frame, a function that neither runs short of operands nor leaves the code, and consumes
  -- all its operands, returns to its caller, with the frame pointer restored and the return address
  -- popped, and with the guest memory that the operations mean. There are fewer than 2^60 - 2
  -- operations, and the helpers keep the calling convention.
  pub framed_returns :
      (ops : List OsOp) (m : Machine M) (back : ℕ) (mem : M)
      → length ops + 2 < 2 ^ 60
      → m.cells (m.regs rsp % u64_mod) ≡ back
      → steps env ops [] m.mem ≡ some ([], mem)
      → (m' : Machine M) × (run (run_one shim) (function (framed helpers) ops) m ≡ jumped back m')
        × (m'.regs rbp ≡ m.regs rbp)
        × (m'.regs rsp % u64_mod ≡ (m.regs rsp + 8) % u64_mod)
        × (m'.mem ≡ mem)
  framed_returns ops m back mem small called means =
      let (m', runs, b, s, g) =
        exit_words ops m back (m.regs rbp) back [] [] mem small called means refl in
      (m', runs, b, omega (arith, s), g)

  -- With a frame, a function that neither runs short of operands nor leaves the code, and leaves
  -- one operand behind, does not return to its caller: it jumps to the caller's frame pointer, and
  -- the operand becomes the frame pointer. There are fewer than 2^60 - 2 operations, and the
  -- helpers keep the calling convention.
  pub framed_unbalanced :
      (ops : List OsOp) (m : Machine M) (back z : ℕ) (mem : M)
      → length ops + 2 < 2 ^ 60
      → m.cells (m.regs rsp % u64_mod) ≡ back
      → steps env ops [] m.mem ≡ some (z ∷ [], mem)
      → (m' : Machine M) × (run (run_one shim) (function (framed helpers) ops) m
          ≡ jumped (m.regs rbp) m')
        × (m'.regs rbp ≡ z)
  framed_unbalanced ops m back z mem small called means =
      let (m', runs, b, s, g) =
        exit_words ops m back z (m.regs rbp) (z ∷ []) (back ∷ []) mem small called means refl in
      (m', runs, b)
