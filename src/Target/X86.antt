-- ===== src/Target/X86.antt =====
-- The x86-64 backend, crates/target/os-target-native/src/x86_64.rs: the calls that it makes of the
-- instruction writer, in order, and what the instructions do by the manual. The operand stack is the
-- host's.
pub mod Lowering
pub mod Function
use os_emulation.Base.{
  ℕ, ◌+◌, ◌-◌, ◌%◌, ◌==◌, if◌then◌else◌, Bool, true, false, List, [], ◌∷◌, ◌++◌, Text, ascii, Bytes,
}
use os_emulation.Base.Words.{u64_mod}
use os_emulation.Target.Ops.{
  MemWidth, w8, w16, w32, w64, w128, OsOp, push_u64, push_u32, pop, load, store, ecall, jump, trap,
  tail_call,
}
use os_emulation.Target.Helpers.{NativeHelpers, defaults}
use os_emulation.Target.Host.{
  Machine, Shim, Abi, Labels, Exit, running, trapped, jumped, jumped_label, neg, address, set_reg,
  set_cell, push_reg, pop_reg,
}

pub data Instr : Type 0 where
  mov64 : ℕ → ℕ → Instr
  push_r pop_r jmp : ℕ → Instr
  mov : ℕ → ℕ → Instr
  call_label jmp_label : Text → Instr
  db : Bytes → Instr
  ret : Instr

abbrev pub rax : ℕ
rax = 0

abbrev pub rsp : ℕ
rsp = 4

abbrev pub rbp : ℕ
rbp = 5

abbrev pub rsi : ℕ
rsi = 6

abbrev pub rdi : ℕ
rdi = 7

pub record X86Config : Type 0 where
  pub helpers : NativeHelpers
  pub emit_frame : Bool

abbrev pub default_config : X86Config
default_config = record { helpers = defaults; emit_frame = false }

-- The backend: its configuration and what its writer has been given.
pub record X86Backend : Type 0 where
  pub cfg : X86Config
  pub writer : List Instr

unfoldable pub prologue : X86Config → List Instr
prologue cfg = if cfg.emit_frame then push_r rbp ∷ mov rbp rsp ∷ [] else []

unfoldable pub epilogue : X86Config → List Instr
epilogue cfg = if cfg.emit_frame then pop_r rbp ∷ ret ∷ [] else []

unfoldable pub with_config_and_writer : X86Config → List Instr → X86Backend
unfolding prologue
with_config_and_writer cfg writer = record { cfg = cfg; writer = writer ++ prologue cfg }

unfoldable pub with_config : X86Config → X86Backend
unfolding with_config_and_writer
with_config cfg = with_config_and_writer cfg []

unfoldable pub new_text : X86Backend
unfolding with_config
new_text = with_config default_config

unfoldable pub new_binary : ℕ → X86Backend
unfolding with_config_and_writer
new_binary base_ip = with_config_and_writer default_config []

abbrev pub load_helper : NativeHelpers → MemWidth → Bool → Text
load_helper helpers w8 false = helpers.load_u8
load_helper helpers w8 true = helpers.load_i8
load_helper helpers w16 false = helpers.load_u16
load_helper helpers w16 true = helpers.load_i16
load_helper helpers w32 false = helpers.load_u32
load_helper helpers w32 true = helpers.load_i32
load_helper helpers w64 signed = helpers.load_u64
load_helper helpers w128 signed = ascii "os_load_u128"

abbrev pub store_helper : NativeHelpers → MemWidth → Text
store_helper helpers w8 = helpers.store_u8
store_helper helpers w16 = helpers.store_u16
store_helper helpers w32 = helpers.store_u32
store_helper helpers w64 = helpers.store_u64
store_helper helpers w128 = ascii "os_store_u128"

-- The instructions that `op` writes; `v as u64` adds no bits to a `u32`.
unfoldable pub lower : X86Config → OsOp → List Instr
lower cfg (push_u64 v) = mov64 rax v ∷ push_r rax ∷ []
lower cfg (push_u32 v) = mov64 rax v ∷ push_r rax ∷ []
lower cfg pop = pop_r rax ∷ []
lower cfg (load width signed) =
    pop_r rdi ∷ call_label (load_helper cfg.helpers width signed) ∷ push_r rax ∷ []
lower cfg (store width) = pop_r rdi ∷ pop_r rsi ∷ call_label (store_helper cfg.helpers width) ∷ []
lower cfg (ecall may_await) = call_label cfg.helpers.ecall ∷ []
lower cfg (jump target) = pop_r rax ∷ jmp rax ∷ []
lower cfg (tail_call helper) = jmp_label helper ∷ []
lower cfg trap = db (0x0f ∷ 0x0b ∷ []) ∷ []

unfoldable pub op : X86Backend → OsOp → X86Backend
unfolding lower
op b o = record b { writer = b.writer ++ lower b.cfg o }

unfoldable pub finish : X86Backend → X86Backend
unfolding epilogue
finish b = record b { writer = b.writer ++ epilogue b.cfg }

abbrev pub abi : Abi
abi = record { sp = rsp; fp = rbp; arg0 = rdi; arg1 = rsi; result = rax }

abbrev pub labels : X86Config → Labels
labels cfg = record {
  load_label = load_helper cfg.helpers;
  store_label = store_helper cfg.helpers;
  ecall_label = cfg.helpers.ecall;
  extend = λ v. v;
}

-- What an instruction does; a call runs the helper to its return, and the bytes of `db` are `ud2`.
abbrev pub run_one : {M : Type 0} → Shim M → Instr → Machine M → Exit M
run_one shim (mov64 r v) m = running (set_reg m r v)
run_one shim (push_r r) m = running (push_reg abi m r)
run_one shim (pop_r r) m = running (pop_reg abi m r)
run_one shim (mov r s) m = running (set_reg m r (m.regs s))
run_one shim (call_label l) m = running (shim l m)
run_one shim (jmp_label l) m = jumped_label l m
run_one shim (jmp r) m = jumped (m.regs r) m
run_one shim (db code) m = trapped m
run_one shim ret m = jumped (m.cells (address m rsp 0)) (set_reg m rsp (address m rsp 8))
