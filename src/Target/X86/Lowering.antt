-- ===== src/Target/X86/Lowering.antt =====
-- The x86-64 backend's code means what its operations mean.
use os_emulation.Base.{◌≡◌, ap, some, some-injective, arith}
use os_emulation.Target.Ops.{
  OsOp, push_u64, push_u32, pop, load, store, ecall, jump, trap, tail_call,
}
use os_emulation.Target.Host.{Machine, Shim, running, exec}
use os_emulation.Target.Refines.{IsAbi}
use os_emulation.Target.Program.{run}
use os_emulation.Target.X86.{X86Config, abi, labels, lower, run_one}

pub abi-IsAbi : IsAbi abi
abi-IsAbi = record {
  sp_fp = omega arith;
  sp_arg0 = omega arith;
  sp_arg1 = omega arith;
  sp_result = omega arith;
  fp_arg0 = omega arith;
  fp_arg1 = omega arith;
  fp_result = omega arith;
  arg_arg = omega arith;
}

module _ {M : Type 0} (shim : Shim M) where
  pub lower_runs :
      (cfg : X86Config) (op : OsOp) (m m' : Machine M)
      → exec abi (labels cfg) shim op m ≡ some m'
      → run (run_one shim) (lower cfg op) m ≡ running m'
  unfolding run lower exec
  lower_runs cfg (push_u64 v) m m' e = ap running (some-injective _ _ e)
  lower_runs cfg (push_u32 v) m m' e = ap running (some-injective _ _ e)
  lower_runs cfg pop m m' e = ap running (some-injective _ _ e)
  lower_runs cfg (load width signed) m m' e = ap running (some-injective _ _ e)
  lower_runs cfg (store width) m m' e = ap running (some-injective _ _ e)
  lower_runs cfg (ecall may_await) m m' e = ap running (some-injective _ _ e)
  lower_runs cfg (jump target) m m' e = absurd (cc e)
  lower_runs cfg trap m m' e = absurd (cc e)
  lower_runs cfg (tail_call helper) m m' e = absurd (cc e)
