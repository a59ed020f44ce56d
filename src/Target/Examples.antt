-- ===== src/Target/Examples.antt =====
-- Runs of the code of the native backends against a runtime.
use os_emulation.Base.{
  ◌+◌, ◌-◌, ◌%◌, ◌^◌, ◌≡◌, refl, ap, ◌∙◌, Bool, true, false, List, [], ◌∷◌, ◌++◌, some, All,
  text_eq, arith,
}
use os_emulation.Base.Words.{u64_mod}
use os_emulation.Target.Ops.{
  MemWidth, w8, w16, w32, w64, w128, OsOp, push_u64, push_u32, pop, load, store,
}
use os_emulation.Target.Reference.{step, steps}
use os_emulation.Target.Helpers.{defaults}
use os_emulation.Target.Host.{Machine, Labels, running, trapped, jumped, put}
use os_emulation.Target.Refines.{Represents, IsNarrow}
use os_emulation.Target.Program.{run}
use os_emulation.Target.Runtime.{
  Memory, test_env, test_shim, test_laws, Knows, action, loading, storing, nothing, bits,
}
use os_emulation.Target.Riscv64
use os_emulation.Target.Aarch64
use os_emulation.Target.X86
use os_emulation.Target.Riscv64.Lowering as RiscvLowering
use os_emulation.Target.Aarch64.Lowering as ArmLowering
use os_emulation.Target.X86.Lowering as X86Lowering
use os_emulation.Target.Riscv64.Function as RiscvFunction
use os_emulation.Target.Aarch64.Function as ArmFunction
use os_emulation.Target.X86.Function as X86Function
use os_emulation.Target.Widening.{LeavesOnTop, push_u32_disagrees, labels_agree}

-- Store a word at 256 and load it again.
abbrev program : List OsOp
program = push_u32 7 ∷ push_u64 256 ∷ store w32 ∷ push_u64 256 ∷ load w32 true ∷ []

abbrev start : Machine Memory
start = record { regs = λ r. 4096; cells = λ a. 99; mem = λ a. 0 }

program_means : steps test_env program [] (λ a. 0) ≡ some (7 ∷ [], put (λ a. 0) 256 7)
unfolding steps step
program_means = refl

emptied_means : steps test_env (program ++ (pop ∷ [])) [] (λ a. 0) ≡ some ([], put (λ a. 0) 256 7)
unfolding steps step
emptied_means = refl

load_action :
    (width : MemWidth) (signed : Bool)
    → action (Riscv64.load_label defaults width signed) ≡ loading (bits width)
unfolding action text_eq
load_action w8 false = refl
load_action w8 true = refl
load_action w16 false = refl
load_action w16 true = refl
load_action w32 false = refl
load_action w32 true = refl
load_action w64 signed = refl
load_action w128 signed = refl

store_action :
    (width : MemWidth) → action (Riscv64.store_label defaults width) ≡ storing (bits width)
unfolding action text_eq
store_action w8 = refl
store_action w16 = refl
store_action w32 = refl
store_action w64 = refl
store_action w128 = refl

ecall_action : action defaults.ecall ≡ nothing
unfolding action text_eq
ecall_action = refl

riscv-Knows : Knows (Riscv64.labels Riscv64.default_config)
riscv-Knows = record {
  load_action = load_action;
  store_action = store_action;
  ecall_action = ecall_action;
}

arm-Knows : Knows (Aarch64.labels Aarch64.default_config)
arm-Knows = record {
  load_action =
      λ width signed. ap action (labels_agree defaults width signed).0.0 ∙ load_action width signed;
  store_action = λ width. ap action (labels_agree defaults width true).1.0 ∙ store_action width;
  ecall_action = ecall_action;
}

abbrev x86_labels : Labels
x86_labels = X86.labels X86.default_config

x86-Knows : Knows x86_labels
x86-Knows = record {
  load_action =
      λ width signed. ap action (labels_agree defaults width signed).0.1 ∙ load_action width signed;
  store_action = λ width. ap action (labels_agree defaults width true).1.1 ∙ store_action width;
  ecall_action = ecall_action;
}

riscv-IsNarrow : All (IsNarrow (Riscv64.labels Riscv64.default_config)) program
unfolding Riscv64.sign_extend
riscv-IsNarrow = (refl, (tt, (tt, (tt, (tt, tt)))))

arm-IsNarrow : All (IsNarrow (Aarch64.labels Aarch64.default_config)) program
unfolding Aarch64.sign_extend
arm-IsNarrow = (refl, (tt, (tt, (tt, (tt, tt)))))

riscv_returns_example :
    (m' : Machine Memory) × (run
        (Riscv64.run_one (test_shim Riscv64.abi))
        (RiscvFunction.function defaults program)
        start
      ≡ jumped 4096 m')
    × (m'.regs Riscv64.sp ≡ 4096)
    × (m'.regs Riscv64.fp ≡ 4096)
    × (m'.mem ≡ put (λ a. 0) 256 7)
riscv_returns_example =
    RiscvFunction.riscv_returns test_env (test_shim Riscv64.abi) defaults
      (test_laws Riscv64.abi RiscvLowering.abi-IsAbi (Riscv64.labels Riscv64.default_config)
        riscv-Knows)
      program start (7 ∷ []) (put (λ a. 0) 256 7) (omega arith) riscv-IsNarrow (omega arith)
      program_means

arm_returns_example :
    (m' : Machine Memory) × (run
        (Aarch64.run_one false (test_shim Aarch64.abi))
        (ArmFunction.function defaults program)
        start
      ≡ jumped 4096 m')
    × (m'.regs Aarch64.sp ≡ 4096)
    × (m'.regs Aarch64.fp ≡ 4096)
    × (m'.mem ≡ put (λ a. 0) 256 7)
arm_returns_example =
    ArmFunction.arm_returns test_env (test_shim Aarch64.abi) defaults
      (test_laws Aarch64.abi ArmLowering.abi-IsAbi (Aarch64.labels Aarch64.default_config)
        arm-Knows)
      program start (7 ∷ []) (put (λ a. 0) 256 7) (omega arith) arm-IsNarrow (omega arith)
      program_means

start-Represents : Represents X86.abi 4096 4096 start [] (λ a. 0)
start-Represents = record { stack = tt; depth = refl; framed = refl; guest = refl }

unframed_refines_example :
    (m' : Machine Memory) × (run
        (X86.run_one (test_shim X86.abi))
        (X86Function.function X86.default_config program)
        start
      ≡ running m')
    × Represents X86.abi 4096 4096 m' (7 ∷ []) (put (λ a. 0) 256 7)
unframed_refines_example =
    X86Function.unframed_refines test_env (test_shim X86.abi) defaults
      (test_laws X86.abi X86Lowering.abi-IsAbi x86_labels x86-Knows) program start 4096 4096 []
      (7 ∷ []) (λ a. 0) (put (λ a. 0) 256 7) (omega arith) start-Represents program_means

framed_returns_example :
    (m' : Machine Memory) × (run
        (X86.run_one (test_shim X86.abi))
        (X86Function.function
          (record { helpers = defaults; emit_frame = true })
          (program ++ (pop ∷ [])))
        start
      ≡ jumped 99 m')
    × (m'.regs X86.rbp ≡ 4096)
    × (m'.regs X86.rsp % u64_mod ≡ (4096 + 8) % u64_mod)
    × (m'.mem ≡ put (λ a. 0) 256 7)
framed_returns_example =
    X86Function.framed_returns test_env (test_shim X86.abi) defaults
      (test_laws X86.abi X86Lowering.abi-IsAbi x86_labels x86-Knows) (program ++ (pop ∷ [])) start
      99 (put (λ a. 0) 256 7) (omega arith) refl emptied_means

framed_unbalanced_example :
    (m' : Machine Memory) × (run
        (X86.run_one (test_shim X86.abi))
        (X86Function.function (record { helpers = defaults; emit_frame = true }) program)
        start
      ≡ jumped 4096 m')
    × (m'.regs X86.rbp ≡ 7)
framed_unbalanced_example =
    X86Function.framed_unbalanced test_env (test_shim X86.abi) defaults
      (test_laws X86.abi X86Lowering.abi-IsAbi x86_labels x86-Knows) program start 99 7
      (put (λ a. 0) 256 7) (omega arith) refl program_means

pushed_misaligned_example :
    (m' : Machine Memory) × (run
        (Aarch64.run_one true (test_shim Aarch64.abi))
        (Aarch64.lower Aarch64.default_config (push_u32 5)
          ++ Aarch64.lower Aarch64.default_config (load w8 true))
        start
      ≡ trapped m')
pushed_misaligned_example =
    ArmLowering.pushed_misaligned (test_shim Aarch64.abi) Aarch64.default_config (push_u32 5)
      (load w8 true) start tt tt refl

push_u32_disagrees_example :
    LeavesOnTop
      (Riscv64.run_one (test_shim Riscv64.abi))
      (Riscv64.lower Riscv64.default_config (push_u32 (2 ^ 31)))
      start
      Riscv64.sp
      (2 ^ 31 + (2 ^ 64 - 2 ^ 32))
    × LeavesOnTop
        (Aarch64.run_one false (test_shim Riscv64.abi))
        (Aarch64.lower Aarch64.default_config (push_u32 (2 ^ 31)))
        start
        Aarch64.sp
        (2 ^ 31 + (2 ^ 64 - 2 ^ 32))
    × LeavesOnTop
        (X86.run_one (test_shim Riscv64.abi))
        (X86.lower X86.default_config (push_u32 (2 ^ 31)))
        start
        X86.rsp
        (2 ^ 31)
push_u32_disagrees_example =
    push_u32_disagrees (test_shim Riscv64.abi) Riscv64.default_config Aarch64.default_config
      X86.default_config start (2 ^ 31) (omega arith) (omega arith)
