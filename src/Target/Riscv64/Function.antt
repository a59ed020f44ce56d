-- ===== src/Target/Riscv64/Function.antt =====
-- A whole function of the RISC-V backend: prologue, operations and epilogue.
use os_emulation.Base.{
  ℕ, ◌+◌, ◌%◌, ◌^◌, ◌<◌, ◌≡◌, refl, sym, ap, ◌∙◌, true, List, [], ◌∷◌, ◌++◌, length, some,
  append-nil, append_assoc, All, arith,
}
use os_emulation.Base.Words.{u64_mod}
use os_emulation.Target.Ops.{OsOp}
use os_emulation.Target.Reference.{Env, steps}
use os_emulation.Target.Host.{Machine, Shim, running, jumped, neg, address, set_reg}
use os_emulation.Target.Refines.{ShimLaws, Represents, IsNarrow}
use os_emulation.Target.Program.{run, run-append, lower_all, program_refines}
use os_emulation.Target.Helpers.{NativeHelpers}
use os_emulation.Target.Frame.{steps_above, frame_survives}
use os_emulation.Target.Riscv64.{
  Riscv64Config, Riscv64Backend, Instr, prologue, epilogue, with_config_and_writer, op, finish, abi,
  labels, lower, run_one, sp, fp, ra,
}
use os_emulation.Target.HostStack.{two_cells}
use os_emulation.Target.Riscv64.Lowering.{abi-IsAbi, lower_runs}

-- The backend after a list of operations.
abbrev pub emit : Riscv64Backend → List OsOp → Riscv64Backend
emit b [] = b
emit b (o ∷ ops) = emit (op b o) ops

emit_lem :
    (b : Riscv64Backend) (ops : List OsOp)
    → emit b ops ≡ record b { writer = b.writer ++ lower_all (lower b.cfg) ops }
unfolding op
emit_lem b [] = ap (λ (w : List Instr). record b { writer = w }) (sym (append-nil b.writer))
emit_lem b (o ∷ ops) =
    emit_lem (op b o) ops
    ∙ ap (λ (w : List Instr). record b { writer = w })
        (append_assoc b.writer (lower b.cfg o) (lower_all (lower b.cfg) ops))

abbrev framed : NativeHelpers → Riscv64Config
framed helpers = record { emit_frame = true; helpers = helpers }

-- The code of a whole function: the prologue, the operations and the epilogue.
abbrev pub function : NativeHelpers → List OsOp → List Instr
function helpers ops = (finish (emit (with_config_and_writer (framed helpers) []) ops)).writer

function_lem :
    (helpers : NativeHelpers) (ops : List OsOp)
    → function helpers ops
      ≡ prologue (framed helpers)
        ++ (lower_all (lower (framed helpers)) ops ++ epilogue (framed helpers))
unfolding finish with_config_and_writer
function_lem helpers ops =
    ap (λ (b : Riscv64Backend). b.writer ++ epilogue b.cfg) (emit_lem _ ops)
    ∙ append_assoc (prologue (framed helpers)) (lower_all (lower (framed helpers)) ops)
        (epilogue (framed helpers))

module _ {M : Type 0} (env : Env M) (shim : Shim M) (helpers : NativeHelpers)
    (laws : ShimLaws abi env (labels (framed helpers)) shim) where
  -- Where the frame record is, and the state after the prologue.
  abbrev frame_of : Machine M → ℕ
  frame_of m = address m sp (neg 16)

  prologue_runs :
      (m : Machine M)
      → (m' : Machine M) × (run (run_one shim) (prologue (framed helpers)) m ≡ running m')
        × Represents abi (m.regs sp) (frame_of m) m' (m.regs ra ∷ m.regs fp ∷ []) m.mem
  unfolding run prologue
  prologue_runs m = (
    _,
    refl,
    record {
      stack = two_cells m.cells (frame_of m) (m.regs ra) (m.regs fp);
      depth = omega arith;
      framed = refl;
      guest = refl;
    },
  )

  -- The epilogue, where the frame record is intact.
  epilogue_runs :
      (m : Machine M) (frame x y : ℕ)
      → m.regs fp ≡ frame
      → m.cells (frame % u64_mod) ≡ x
      → m.cells ((frame + 8) % u64_mod) ≡ y
      → (m' : Machine M) × (run (run_one shim) (epilogue (framed helpers)) m ≡ jumped x m')
        × (m'.regs sp ≡ (frame + 16) % u64_mod)
        × (m'.regs fp ≡ y)
        × (m'.mem ≡ m.mem)
  unfolding run epilogue
  epilogue_runs m frame x y f hx hy =
      let saved_ra : ℕ = m.cells ((m.regs fp + 0) % u64_mod) in
      let saved_fp : ℕ = m.cells ((m.regs fp + 8) % u64_mod) in
      let out : Machine M =
        set_reg (set_reg (set_reg (set_reg m sp (m.regs fp)) fp saved_fp) ra saved_ra) sp
          (address m fp 16) in
      (
        out,
        ap (λ (k : ℕ). jumped k out) (ap m.cells (omega (arith, f)) ∙ hx),
        ap (λ (k : ℕ). (k + 16) % u64_mod) f,
        ap (λ (k : ℕ). m.cells ((k + 8) % u64_mod)) f ∙ hy,
        refl,
      )

  -- A function that the RISC-V backend emits for operations that neither run short of operands nor
  -- leave the code, each `PushU32` operand one that sign extension leaves alone, returns to its
  -- caller with the stack pointer and the frame pointer restored, whatever it leaves on its stack,
  -- and with the guest memory that the operations mean. There are fewer than 2^60 - 2 operations,
  -- the stack pointer is below 2^64, and the helpers keep the calling convention.
  pub riscv_returns :
      (ops : List OsOp) (m : Machine M) (zs : List ℕ) (mem : M)
      → length ops + 2 < 2 ^ 60
      → All (IsNarrow (labels (framed helpers))) ops
      → m.regs sp < u64_mod
      → steps env ops [] m.mem ≡ some (zs, mem)
      → (m' : Machine M) × (run (run_one shim) (function helpers ops) m ≡ jumped (m.regs ra) m')
        × (m'.regs sp ≡ m.regs sp)
        × (m'.regs fp ≡ m.regs fp)
        × (m'.mem ≡ mem)
  riscv_returns ops m zs mem small narrow word means =
      let cfg : Riscv64Config = framed helpers in
      let saved : List ℕ = m.regs ra ∷ m.regs fp ∷ [] in
      let (m1, before, r1) = prologue_runs m in
      let (m2, inside, r2) =
        program_refines (run_one shim) abi abi-IsAbi (m.regs sp) (frame_of m) env (labels cfg) shim
          laws (lower cfg) (lower_runs shim cfg) ops m1 saved (zs ++ saved) m.mem mem (omega arith)
          narrow r1 (steps_above env saved ops [] zs m.mem mem means) in
      let (hx, hy) =
        frame_survives abi (m.regs sp) (frame_of m) m2 zs (m.regs ra) (m.regs fp) mem (omega arith)
          r2 in
      let (m3, after, s3, f3, g3) =
        epilogue_runs m2 (frame_of m) (m.regs ra) (m.regs fp) r2.framed hx hy in
      (
        m3,
        rw (function_lem helpers ops) (
            run-append (run_one shim) (prologue cfg) (lower_all (lower cfg) ops ++ epilogue cfg) m
            ∙ rw before (
                run-append (run_one shim) (lower_all (lower cfg) ops) (epilogue cfg) m1
                ∙ rw inside after)),
        s3 ∙ omega arith,
        f3,
        g3 ∙ r2.guest,
      )
