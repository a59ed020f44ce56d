-- ===== src/Target/Riscv64/Lowering.antt =====
-- The RISC-V backend's code means what its operations mean.
use os_emulation.Base.{ℕ, ◌≡◌, ap, ◌∙◌, [], ◌∷◌, some, some-injective, arith}
use os_emulation.Target.Ops.{
  OsOp, push_u64, push_u32, pop, load, store, ecall, jump, trap, tail_call,
}
use os_emulation.Target.Host.{
  Machine, Shim, running, neg, address, set_reg, set_cell, push_reg, pop_reg, exec,
}
use os_emulation.Target.Refines.{IsAbi}
use os_emulation.Target.Program.{run}
use os_emulation.Target.Riscv64.{
  Riscv64Config, abi, labels, lower, run_one, sign_extend, a0, sp, addi, sd,
}

pub abi-IsAbi : IsAbi abi
abi-IsAbi = record {
  sp_fp = omega arith;
  sp_arg0 = omega arith;
  sp_arg1 = omega arith;
  sp_result = omega arith;
  fp_arg0 = omega arith;
  fp_arg1 = omega arith;
  fp_result = omega arith;
  arg_arg = omega arith;
}

module _ {M : Type 0} (shim : Shim M) where
  push_runs :
      (m : Machine M)
      → run (run_one shim) (addi sp sp (neg 8) ∷ sd a0 0 ∷ []) m ≡ running (push_reg abi m a0)
  unfolding run
  push_runs m =
      ap (λ (k : ℕ). running (set_cell (set_reg m sp (address m sp (neg 8))) k (m.regs a0)))
        (omega arith)

  pub lower_runs :
      (cfg : Riscv64Config) (op : OsOp) (m m' : Machine M)
      → exec abi (labels cfg) shim op m ≡ some m'
      → run (run_one shim) (lower cfg op) m ≡ running m'
  unfolding run lower exec
  lower_runs cfg (push_u64 v) m m' e =
      push_runs (set_reg m a0 v) ∙ ap running (some-injective _ _ e)
  lower_runs cfg (push_u32 v) m m' e =
      push_runs (set_reg m a0 (sign_extend v)) ∙ ap running (some-injective _ _ e)
  lower_runs cfg pop m m' e = ap running (some-injective _ _ e)
  lower_runs cfg (load width signed) m m' e =
      push_runs (shim ((labels cfg).load_label width signed) (pop_reg abi m a0))
      ∙ ap running (some-injective _ _ e)
  lower_runs cfg (store width) m m' e = ap running (some-injective _ _ e)
  lower_runs cfg (ecall may_await) m m' e = ap running (some-injective _ _ e)
  lower_runs cfg (jump target) m m' e = absurd (cc e)
  lower_runs cfg trap m m' e = absurd (cc e)
  lower_runs cfg (tail_call helper) m m' e = absurd (cc e)
