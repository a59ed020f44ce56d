-- ===== src/Target/Aarch64.antt =====
-- The AArch64 backend, crates/target/os-target-native/src/aarch64.rs: the calls that it makes of the
-- instruction writer, in order, and what the instructions do by the Arm manual. Where `check` is true
-- the processor checks the alignment of the stack pointer at each access through it.
pub mod Lowering
pub mod Function
use os_emulation.Base.{
  ℕ, ◌+◌, ◌-◌, ◌%◌, ◌^◌, ◌==◌, ltb, not, ◌&&◌, if◌then◌else◌, Bool, true, false, List, [], ◌∷◌,
  ◌++◌, Text, ascii,
}
use os_emulation.Base.Words.{u64_mod}
use os_emulation.Target.Ops.{
  MemWidth, w8, w16, w32, w64, w128, OsOp, push_u64, push_u32, pop, load, store, ecall, jump, trap,
  tail_call,
}
use os_emulation.Target.Helpers.{NativeHelpers, defaults}
use os_emulation.Target.Host.{
  Machine, Shim, Abi, Labels, Exit, running, trapped, jumped, jumped_label, neg, address, set_reg,
  set_cell,
}

-- `str r, [sp, #disp]!`, `ldr r, [sp], #disp`, and the same for pairs of registers
pub data Instr : Type 0 where
  mov_imm : ℕ → ℕ → Instr
  str_pre ldr_post : ℕ → ℕ → Instr
  stp_pre ldp_post : ℕ → ℕ → ℕ → Instr
  mov : ℕ → ℕ → Instr
  bl_label b_label : Text → Instr
  br brk : ℕ → Instr
  ret : Instr

abbrev pub x0 : ℕ
x0 = 0

abbrev pub x1 : ℕ
x1 = 1

abbrev pub fp : ℕ
fp = 29

abbrev pub lr : ℕ
lr = 30

abbrev pub sp : ℕ
sp = 31

pub record Aarch64Config : Type 0 where
  pub emit_frame : Bool
  pub helpers : NativeHelpers

abbrev pub default_config : Aarch64Config
default_config = record { emit_frame = true; helpers = defaults }

-- The backend: its configuration and what its writer has been given.
pub record Aarch64Backend : Type 0 where
  pub cfg : Aarch64Config
  pub writer : List Instr

unfoldable pub prologue : Aarch64Config → List Instr
prologue cfg = if cfg.emit_frame then stp_pre fp lr (neg 16) ∷ mov fp sp ∷ [] else []

unfoldable pub epilogue : Aarch64Config → List Instr
epilogue cfg = if cfg.emit_frame then mov sp fp ∷ ldp_post fp lr 16 ∷ ret ∷ [] else []

unfoldable pub with_config_and_writer : Aarch64Config → List Instr → Aarch64Backend
unfolding prologue
with_config_and_writer cfg writer = record { cfg = cfg; writer = writer ++ prologue cfg }

unfoldable pub new_binary : ℕ → Aarch64Backend
unfolding with_config_and_writer
new_binary base_ip = with_config_and_writer default_config []

abbrev pub load_label : NativeHelpers → MemWidth → Bool → Text
load_label helpers w8 false = helpers.load_u8
load_label helpers w8 true = helpers.load_i8
load_label helpers w16 false = helpers.load_u16
load_label helpers w16 true = helpers.load_i16
load_label helpers w32 false = helpers.load_u32
load_label helpers w32 true = helpers.load_i32
load_label helpers w64 signed = helpers.load_u64
load_label helpers w128 signed = ascii "os_load_u128"

abbrev pub store_label : NativeHelpers → MemWidth → Text
store_label helpers w8 = helpers.store_u8
store_label helpers w16 = helpers.store_u16
store_label helpers w32 = helpers.store_u32
store_label helpers w64 = helpers.store_u64
store_label helpers w128 = ascii "os_store_u128"

-- `(v as i32) as u64`
unfoldable pub sign_extend : ℕ → ℕ
sign_extend v = if ltb v (2 ^ 31) then v else v + (2 ^ 64 - 2 ^ 32)

-- The instructions that `op` writes.
unfoldable pub lower : Aarch64Config → OsOp → List Instr
unfolding sign_extend
lower cfg (push_u64 v) = mov_imm x0 v ∷ str_pre x0 (neg 8) ∷ []
lower cfg (push_u32 v) = mov_imm x0 (sign_extend v) ∷ str_pre x0 (neg 8) ∷ []
lower cfg pop = ldr_post x0 8 ∷ []
lower cfg (load width signed) =
    ldr_post x0 8 ∷ bl_label (load_label cfg.helpers width signed) ∷ str_pre x0 (neg 8) ∷ []
lower cfg (store width) =
    ldr_post x0 8 ∷ ldr_post x1 8 ∷ bl_label (store_label cfg.helpers width) ∷ []
lower cfg (ecall may_await) = bl_label cfg.helpers.ecall ∷ []
lower cfg (jump target) = ldr_post x0 8 ∷ br x0 ∷ []
lower cfg (tail_call helper) = b_label helper ∷ []
lower cfg trap = brk 0 ∷ []

unfoldable pub op : Aarch64Backend → OsOp → Aarch64Backend
unfolding lower
op b o = record b { writer = b.writer ++ lower b.cfg o }

unfoldable pub finish : Aarch64Backend → Aarch64Backend
unfolding epilogue
finish b = record b { writer = b.writer ++ epilogue b.cfg }

abbrev pub abi : Abi
abi = record { sp = sp; fp = fp; arg0 = x0; arg1 = x1; result = x0 }

abbrev pub labels : Aarch64Config → Labels
labels cfg = record {
  load_label = load_label cfg.helpers;
  store_label = store_label cfg.helpers;
  ecall_label = cfg.helpers.ecall;
  extend = sign_extend;
}

-- An access through a stack pointer that is not a multiple of 16, where that is checked.
abbrev pub through_sp : {M : Type 0} → Bool → Machine M → Machine M → Exit M
through_sp check m m' = if check && not (m.regs sp % 16 == 0) then trapped m else running m'

-- What an instruction does; a call runs the helper to its return.
abbrev pub run_one : {M : Type 0} → Bool → Shim M → Instr → Machine M → Exit M
run_one check shim (mov_imm r v) m = running (set_reg m r v)
run_one check shim (str_pre r disp) m =
    let a = address m sp disp in through_sp check m (set_cell (set_reg m sp a) a (m.regs r))
run_one check shim (ldr_post r disp) m =
    through_sp check m (set_reg (set_reg m r (m.cells (address m sp 0))) sp (address m sp disp))
run_one check shim (stp_pre r s disp) m =
    let a = address m sp disp in
    through_sp check m (
      set_cell (set_cell (set_reg m sp a) ((a + 0) % u64_mod) (m.regs r)) ((a + 8) % u64_mod)
        (m.regs s))
run_one check shim (ldp_post r s disp) m = through_sp check m (
    set_reg (set_reg (set_reg m r (m.cells (address m sp 0))) s (m.cells (address m sp 8))) sp
      (address m sp disp))
run_one check shim (mov r s) m = running (set_reg m r (m.regs s))
run_one check shim (bl_label l) m = running (shim l m)
run_one check shim (b_label l) m = jumped_label l m
run_one check shim (br r) m = jumped (m.regs r) m
run_one check shim (brk imm) m = trapped m
run_one check shim ret m = jumped (m.regs lr) m
