-- ===== src/Target/Aarch64/Lowering.antt =====
-- The AArch64 backend's code means what its operations mean.
use os_emulation.Base.{
  ℕ, ◌%◌, ◌≡◌, ◌∙◌, refl, ap, ◌==◌, ne→==, true, false, ◌++◌, some, some-injective, arith,
}
use os_emulation.Target.Ops.{
  OsOp, push_u64, push_u32, pop, load, store, ecall, jump, trap, tail_call,
}
use os_emulation.Target.Host.{Machine, Shim, running, trapped, set_reg, push_reg, exec}
use os_emulation.Target.Refines.{IsAbi}
use os_emulation.Target.Program.{run, run-append}
use os_emulation.Target.Aarch64.{Aarch64Config, abi, labels, lower, run_one, x0, sp, sign_extend}

pub abi-IsAbi : IsAbi abi
abi-IsAbi = record {
  sp_fp = omega arith;
  sp_arg0 = omega arith;
  sp_arg1 = omega arith;
  sp_result = omega arith;
  fp_arg0 = omega arith;
  fp_arg1 = omega arith;
  fp_result = omega arith;
  arg_arg = omega arith;
}

-- The processor does not check the alignment of the stack pointer.
module _ {M : Type 0} (shim : Shim M) where
  pub lower_runs :
      (cfg : Aarch64Config) (op : OsOp) (m m' : Machine M)
      → exec abi (labels cfg) shim op m ≡ some m'
      → run (run_one false shim) (lower cfg op) m ≡ running m'
  unfolding run lower exec
  lower_runs cfg (push_u64 v) m m' e = ap running (some-injective _ _ e)
  lower_runs cfg (push_u32 v) m m' e = ap running (some-injective _ _ e)
  lower_runs cfg pop m m' e = ap running (some-injective _ _ e)
  lower_runs cfg (load width signed) m m' e = ap running (some-injective _ _ e)
  lower_runs cfg (store width) m m' e = ap running (some-injective _ _ e)
  lower_runs cfg (ecall may_await) m m' e = ap running (some-injective _ _ e)
  lower_runs cfg (jump target) m m' e = absurd (cc e)
  lower_runs cfg trap m m' e = absurd (cc e)
  lower_runs cfg (tail_call helper) m m' e = absurd (cc e)

-- The operations that push a constant.
abbrev pub IsPush : OsOp → Type 0
IsPush (push_u64 v) = Unit
IsPush (push_u32 v) = Unit
IsPush _ = ⊥

-- The operations whose own code pushes or pops an operand.
abbrev pub UsesStack : OsOp → Type 0
UsesStack (ecall may_await) = ⊥
UsesStack trap = ⊥
UsesStack (tail_call helper) = ⊥
UsesStack _ = Unit

module _ {M : Type 0} (shim : Shim M) (cfg : Aarch64Config) where
  Misaligned : Machine M → Type 0
  Misaligned m = (m.regs sp % 16 == 0) ≡ false

  push_misaligns :
      (op : OsOp) (m : Machine M)
      → IsPush op
      → m.regs sp % 16 ≡ 0
      → (m' : Machine M) × (run (run_one true shim) (lower cfg op) m ≡ running m') × Misaligned m'
  unfolding run lower Misaligned
  push_misaligns (push_u64 v) m push aligned =
      let p : (m.regs sp % 16 == 0) ≡ true = ap (λ (k : ℕ). k == 0) aligned in
      (push_reg abi (set_reg m x0 v) x0, rw p refl, ne→== _ 0 (omega arith))
  push_misaligns (push_u32 v) m push aligned =
      let p : (m.regs sp % 16 == 0) ≡ true = ap (λ (k : ℕ). k == 0) aligned in
      (push_reg abi (set_reg m x0 (sign_extend v)) x0, rw p refl, ne→== _ 0 (omega arith))
  push_misaligns pop m push aligned = absurd push
  push_misaligns (load width signed) m push aligned = absurd push
  push_misaligns (store width) m push aligned = absurd push
  push_misaligns (ecall may_await) m push aligned = absurd push
  push_misaligns (jump target) m push aligned = absurd push
  push_misaligns trap m push aligned = absurd push
  push_misaligns (tail_call helper) m push aligned = absurd push

  odd_cell_faults :
      (op : OsOp) (m : Machine M)
      → UsesStack op
      → Misaligned m
      → (m' : Machine M) × (run (run_one true shim) (lower cfg op) m ≡ trapped m')
  unfolding run lower Misaligned
  odd_cell_faults (push_u64 v) m uses p = (set_reg m x0 v, rw p refl)
  odd_cell_faults (push_u32 v) m uses p = (set_reg m x0 (sign_extend v), rw p refl)
  odd_cell_faults pop m uses p = (m, rw p refl)
  odd_cell_faults (load width signed) m uses p = (m, rw p refl)
  odd_cell_faults (store width) m uses p = (m, rw p refl)
  odd_cell_faults (jump target) m uses p = (m, rw p refl)
  odd_cell_faults (ecall may_await) m uses p = absurd uses
  odd_cell_faults trap m uses p = absurd uses
  odd_cell_faults (tail_call helper) m uses p = absurd uses

-- Where the processor checks the alignment of the stack pointer, `PushU64` or `PushU32` from an aligned
-- stack pointer, directly followed by any operation whose own code pushes or pops an operand, ends in a
-- fault.
pub pushed_misaligned :
    {M : Type 0} (shim : Shim M) (cfg : Aarch64Config) (push next : OsOp) (m : Machine M)
    → IsPush push
    → UsesStack next
    → m.regs sp % 16 ≡ 0
    → (m' : Machine M) × (run (run_one true shim) (lower cfg push ++ lower cfg next) m ≡ trapped m')
pushed_misaligned shim cfg push next m is_push uses aligned =
    let (pushed, runs, off) = push_misaligns shim cfg push m is_push aligned in
    let (m', traps) = odd_cell_faults shim cfg next pushed uses off in
    (m', run-append (run_one true shim) (lower cfg push) (lower cfg next) m ∙ rw runs traps)
