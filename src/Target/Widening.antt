-- ===== src/Target/Widening.antt =====
-- `PushU32` of the three native backends of crates/target/os-target-native side by side, and the helpers that they call.
use os_emulation.Base.{
  ℕ, ◌+◌, ◌-◌, ◌%◌, ◌^◌, ◌<◌, ◌≤◌, ◌≡◌, refl, ◌∙◌, eq_refl, Bool, true, false, le→ltb, List, arith,
}
use os_emulation.Base.Words.{u64_mod}
use os_emulation.Target.Ops.{MemWidth, w8, w16, w32, w64, w128, push_u32}
use os_emulation.Target.Helpers.{NativeHelpers}
use os_emulation.Target.Host.{Machine, Shim, Exit, running, neg, put}
use os_emulation.Target.Program.{run}
use os_emulation.Target.Riscv64
use os_emulation.Target.Aarch64
use os_emulation.Target.X86

put_at : (f : ℕ → ℕ) (k v j : ℕ) → k ≡ j → put f k v j ≡ v
put_at f k v j e = rw (e, eq_refl j)

-- The code runs to its end and the word on top of the stack at `sp` is `v`.
abbrev pub LeavesOnTop :
    {M I : Type 0} → (I → Machine M → Exit M) → List I → Machine M → ℕ → ℕ → Type 0
LeavesOnTop {M} run_one code m sp v =
    (m' : Machine M) × (run run_one code m ≡ running m') × (m'.cells (m'.regs sp % u64_mod) ≡ v)

-- From bit 31 on, `PushU32` of a 32-bit operand means different things: RISC-V and AArch64 push the
-- operand sign-extended to 64 bits, x86-64 pushes it zero-extended. (AArch64 without the check of
-- the stack pointer's alignment.)
pub push_u32_disagrees :
    {M : Type 0} (shim : Shim M) (rv : Riscv64.Riscv64Config) (arm : Aarch64.Aarch64Config)
    (x86 : X86.X86Config) (m : Machine M) (v : ℕ)
    → 2 ^ 31 ≤ v
    → v < 2 ^ 32
    → LeavesOnTop
        (Riscv64.run_one shim)
        (Riscv64.lower rv (push_u32 v))
        m
        Riscv64.sp
        (v + (2 ^ 64 - 2 ^ 32))
      × LeavesOnTop
          (Aarch64.run_one false shim)
          (Aarch64.lower arm (push_u32 v))
          m
          Aarch64.sp
          (v + (2 ^ 64 - 2 ^ 32))
      × LeavesOnTop (X86.run_one shim) (X86.lower x86 (push_u32 v)) m X86.rsp v
unfolding run Riscv64.lower Aarch64.lower X86.lower Riscv64.sign_extend Aarch64.sign_extend
push_u32_disagrees shim rv arm x86 m v high fits = (rv_side, arm_side, x86_side)
  where
    a : ℕ → ℕ
    a r = (m.regs r + neg 8) % u64_mod

    rv_side :
        LeavesOnTop
          (Riscv64.run_one shim)
          (Riscv64.lower rv (push_u32 v))
          m
          Riscv64.sp
          (v + (2 ^ 64 - 2 ^ 32))
    rv_side = (
      _,
      refl,
      put_at m.cells ((a Riscv64.sp + 0) % u64_mod) _ (a Riscv64.sp % u64_mod) (omega arith)
          ∙ rw (le→ltb v (2 ^ 31) high) refl,
    )

    arm_side :
        LeavesOnTop
          (Aarch64.run_one false shim)
          (Aarch64.lower arm (push_u32 v))
          m
          Aarch64.sp
          (v + (2 ^ 64 - 2 ^ 32))
    arm_side = (
      _,
      refl,
      put_at m.cells (a Aarch64.sp) _ (a Aarch64.sp % u64_mod) (omega arith)
          ∙ rw (le→ltb v (2 ^ 31) high) refl,
    )

    x86_side : LeavesOnTop (X86.run_one shim) (X86.lower x86 (push_u32 v)) m X86.rsp v
    x86_side = (_, refl, put_at m.cells (a X86.rsp) v (a X86.rsp % u64_mod) (omega arith))

load_labels_agree :
    (helpers : NativeHelpers) (width : MemWidth) (signed : Bool)
    → (Aarch64.load_label helpers width signed ≡ Riscv64.load_label helpers width signed)
      × (X86.load_helper helpers width signed ≡ Riscv64.load_label helpers width signed)
load_labels_agree helpers w8 false = (refl, refl)
load_labels_agree helpers w8 true = (refl, refl)
load_labels_agree helpers w16 false = (refl, refl)
load_labels_agree helpers w16 true = (refl, refl)
load_labels_agree helpers w32 false = (refl, refl)
load_labels_agree helpers w32 true = (refl, refl)
load_labels_agree helpers w64 signed = (refl, refl)
load_labels_agree helpers w128 signed = (refl, refl)

store_labels_agree :
    (helpers : NativeHelpers) (width : MemWidth)
    → (Aarch64.store_label helpers width ≡ Riscv64.store_label helpers width)
      × (X86.store_helper helpers width ≡ Riscv64.store_label helpers width)
store_labels_agree helpers w8 = (refl, refl)
store_labels_agree helpers w16 = (refl, refl)
store_labels_agree helpers w32 = (refl, refl)
store_labels_agree helpers w64 = (refl, refl)
store_labels_agree helpers w128 = (refl, refl)

-- The three backends call the same helpers: one runtime, by names, serves them all.
pub labels_agree :
    (helpers : NativeHelpers) (width : MemWidth) (signed : Bool)
    → ((Aarch64.load_label helpers width signed ≡ Riscv64.load_label helpers width signed)
        × (X86.load_helper helpers width signed ≡ Riscv64.load_label helpers width signed))
      × ((Aarch64.store_label helpers width ≡ Riscv64.store_label helpers width)
          × (X86.store_helper helpers width ≡ Riscv64.store_label helpers width))
labels_agree helpers width signed =
    (load_labels_agree helpers width signed, store_labels_agree helpers width)
