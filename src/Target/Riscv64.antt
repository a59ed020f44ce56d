-- ===== src/Target/Riscv64.antt =====
-- The RISC-V backend, crates/target/os-target-native/src/riscv64.rs: the calls that it makes of the
-- instruction writer, in order, and what the instructions do by the RISC-V manual. A label is called
-- by `jal ra, label` and jumped to by `jal zero, label`.
pub mod Lowering
pub mod Function
use os_emulation.Base.{
  ℕ, ◌+◌, ◌-◌, ◌%◌, ◌^◌, ◌==◌, ltb, if◌then◌else◌, Bool, true, false, List, [], ◌∷◌, ◌++◌, Text,
  ascii,
}
use os_emulation.Base.Words.{u64_mod}
use os_emulation.Target.Ops.{
  MemWidth, w8, w16, w32, w64, w128, OsOp, push_u64, push_u32, pop, load, store, ecall, jump, trap,
  tail_call,
}
use os_emulation.Target.Helpers.{NativeHelpers, defaults}
use os_emulation.Target.Host.{
  Machine, Shim, Abi, Labels, Exit, running, trapped, jumped, jumped_label, neg, address, set_reg,
  set_cell,
}

-- `addi rd rs imm`, `sd rs disp` and `ld rd disp` at `disp(sp)`, `jalr rd rs imm`
pub data Instr : Type 0 where
  li : ℕ → ℕ → Instr
  addi : ℕ → ℕ → ℕ → Instr
  sd ld : ℕ → ℕ → Instr
  mv : ℕ → ℕ → Instr
  jal_label : ℕ → Text → Instr
  jalr : ℕ → ℕ → ℕ → Instr
  ret ebreak : Instr

abbrev pub zero_reg : ℕ
zero_reg = 0

abbrev pub ra : ℕ
ra = 1

abbrev pub sp : ℕ
sp = 2

abbrev pub fp : ℕ
fp = 8

abbrev pub a0 : ℕ
a0 = 10

abbrev pub a1 : ℕ
a1 = 11

pub record Riscv64Config : Type 0 where
  pub emit_frame : Bool
  pub helpers : NativeHelpers

abbrev pub default_config : Riscv64Config
default_config = record { emit_frame = true; helpers = defaults }

-- The backend: its configuration and what its writer has been given.
pub record Riscv64Backend : Type 0 where
  pub cfg : Riscv64Config
  pub writer : List Instr

unfoldable pub prologue : Riscv64Config → List Instr
prologue cfg =
    if cfg.emit_frame then addi sp sp (neg 16) ∷ sd ra 0 ∷ sd fp 8 ∷ mv fp sp ∷ [] else []

unfoldable pub epilogue : Riscv64Config → List Instr
epilogue cfg =
    if cfg.emit_frame then mv sp fp ∷ ld fp 8 ∷ ld ra 0 ∷ addi sp sp 16 ∷ ret ∷ [] else []

unfoldable pub with_config_and_writer : Riscv64Config → List Instr → Riscv64Backend
unfolding prologue
with_config_and_writer cfg writer = record { cfg = cfg; writer = writer ++ prologue cfg }

unfoldable pub new_binary : Riscv64Backend
unfolding with_config_and_writer
new_binary = with_config_and_writer default_config []

abbrev pub load_label : NativeHelpers → MemWidth → Bool → Text
load_label helpers w8 false = helpers.load_u8
load_label helpers w8 true = helpers.load_i8
load_label helpers w16 false = helpers.load_u16
load_label helpers w16 true = helpers.load_i16
load_label helpers w32 false = helpers.load_u32
load_label helpers w32 true = helpers.load_i32
load_label helpers w64 signed = helpers.load_u64
load_label helpers w128 signed = ascii "os_load_u128"

abbrev pub store_label : NativeHelpers → MemWidth → Text
store_label helpers w8 = helpers.store_u8
store_label helpers w16 = helpers.store_u16
store_label helpers w32 = helpers.store_u32
store_label helpers w64 = helpers.store_u64
store_label helpers w128 = ascii "os_store_u128"

-- `(v as i32) as u64`
unfoldable pub sign_extend : ℕ → ℕ
sign_extend v = if ltb v (2 ^ 31) then v else v + (2 ^ 64 - 2 ^ 32)

-- The instructions that `op` writes.
unfoldable pub lower : Riscv64Config → OsOp → List Instr
unfolding sign_extend
lower cfg (push_u64 v) = li a0 v ∷ addi sp sp (neg 8) ∷ sd a0 0 ∷ []
lower cfg (push_u32 v) = li a0 (sign_extend v) ∷ addi sp sp (neg 8) ∷ sd a0 0 ∷ []
lower cfg pop = ld a0 0 ∷ addi sp sp 8 ∷ []
lower cfg (load width signed) =
    ld a0 0
    ∷ addi sp sp 8
    ∷ jal_label ra (load_label cfg.helpers width signed)
    ∷ addi sp sp (neg 8)
    ∷ sd a0 0
    ∷ []
lower cfg (store width) =
    ld a0 0
    ∷ addi sp sp 8
    ∷ ld a1 0
    ∷ addi sp sp 8
    ∷ jal_label ra (store_label cfg.helpers width)
    ∷ []
lower cfg (ecall may_await) = jal_label ra cfg.helpers.ecall ∷ []
lower cfg (jump target) = ld a0 0 ∷ addi sp sp 8 ∷ jalr zero_reg a0 0 ∷ []
lower cfg (tail_call helper) = jal_label zero_reg helper ∷ []
lower cfg trap = ebreak ∷ []

unfoldable pub op : Riscv64Backend → OsOp → Riscv64Backend
unfolding lower
op b o = record b { writer = b.writer ++ lower b.cfg o }

unfoldable pub finish : Riscv64Backend → Riscv64Backend
unfolding epilogue
finish b = record b { writer = b.writer ++ epilogue b.cfg }

abbrev pub abi : Abi
abi = record { sp = sp; fp = fp; arg0 = a0; arg1 = a1; result = a0 }

abbrev pub labels : Riscv64Config → Labels
labels cfg = record {
  load_label = load_label cfg.helpers;
  store_label = store_label cfg.helpers;
  ecall_label = cfg.helpers.ecall;
  extend = sign_extend;
}

-- What an instruction does; a call runs the helper to its return.
abbrev pub run_one : {M : Type 0} → Shim M → Instr → Machine M → Exit M
run_one shim (li rd v) m = running (set_reg m rd v)
run_one shim (addi rd rs imm) m = running (set_reg m rd (address m rs imm))
run_one shim (sd rs disp) m = running (set_cell m (address m sp disp) (m.regs rs))
run_one shim (ld rd disp) m = running (set_reg m rd (m.cells (address m sp disp)))
run_one shim (mv rd rs) m = running (set_reg m rd (m.regs rs))
run_one shim (jal_label rd l) m = if rd == zero_reg then jumped_label l m else running (shim l m)
run_one shim (jalr rd rs imm) m = jumped (address m rs imm) m
run_one shim ret m = jumped (m.regs ra) m
run_one shim ebreak m = trapped m
