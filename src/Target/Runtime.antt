-- ===== src/Target/Runtime.antt =====
-- A runtime that the tests link against: helpers under the default names of
-- crates/target/os-target-native/src/native_helpers.rs, over a guest memory of words.
use os_emulation.Base.{
  ℕ, ◌%◌, ◌^◌, ◌≡◌, ◌≢◌, refl, sym, ne→==, eq_refl, if◌then◌else◌, Bool, Text, text_eq, ascii,
  subst,
}
use os_emulation.Target.Ops.{MemWidth, w8, w16, w32, w64, w128}
use os_emulation.Target.Reference.{Env}
use os_emulation.Target.Helpers.{defaults}
use os_emulation.Target.Host.{Machine, Shim, Abi, Labels, put, set_reg}
use os_emulation.Target.HostStack.{Stack}
use os_emulation.Target.Refines.{IsAbi, ShimLaws}

abbrev pub Memory : Type 0
Memory = ℕ → ℕ

abbrev pub bits : MemWidth → ℕ
bits w8 = 8
bits w16 = 16
bits w32 = 32
bits w64 = 64
bits w128 = 128

abbrev pub test_env : Env Memory
test_env = record {
  load_word = λ mem a width signed. mem a % 2 ^ bits width;
  store_word = λ mem a width v. put mem a (v % 2 ^ bits width);
  host_call = λ mem. mem;
}

pub data Action : Type 0 where
  loading storing : ℕ → Action
  nothing : Action

unfoldable pub action : Text → Action
action l =
    if text_eq l defaults.load_u8
    then loading 8
    else if text_eq l defaults.load_i8
    then loading 8
    else if text_eq l defaults.load_u16
    then loading 16
    else if text_eq l defaults.load_i16
    then loading 16
    else if text_eq l defaults.load_u32
    then loading 32
    else if text_eq l defaults.load_i32
    then loading 32
    else if text_eq l defaults.load_u64
    then loading 64
    else if text_eq l (ascii "os_load_u128")
    then loading 128
    else if text_eq l defaults.store_u8
    then storing 8
    else if text_eq l defaults.store_u16
    then storing 16
    else if text_eq l defaults.store_u32
    then storing 32
    else if text_eq l defaults.store_u64
    then storing 64
    else if text_eq l (ascii "os_store_u128")
    then storing 128
    else nothing

abbrev act : Abi → Action → Machine Memory → Machine Memory
act abi (loading n) m = set_reg m abi.result (m.mem (m.regs abi.arg0) % 2 ^ n)
act abi (storing n) m = record m { mem = put m.mem (m.regs abi.arg0) (m.regs abi.arg1 % 2 ^ n) }
act abi nothing m = m

abbrev pub test_shim : Abi → Shim Memory
test_shim abi l m = act abi (action l) m

-- The labels of a backend are the runtime's names.
pub record Knows (labels : Labels) : Type 0 where
  pub load_action :
      (width : MemWidth) (signed : Bool)
      → action (labels.load_label width signed) ≡ loading (bits width)
  pub store_action : (width : MemWidth) → action (labels.store_label width) ≡ storing (bits width)
  pub ecall_action : action labels.ecall_label ≡ nothing

module _ (abi : Abi) (ok_abi : IsAbi abi) where
  act_regs :
      (a : Action) (m : Machine Memory) (r : ℕ) → abi.result ≢ r → (act abi a m).regs r ≡ m.regs r
  act_regs (loading n) m r h = rw (ne→== abi.result r h)
  act_regs (storing n) m r h = refl
  act_regs nothing m r h = refl

  act_cells : (a : Action) (m : Machine Memory) → (act abi a m).cells ≡ m.cells
  act_cells (loading n) m = refl
  act_cells (storing n) m = refl
  act_cells nothing m = refl

  pub test_laws : (labels : Labels) → Knows labels → ShimLaws abi test_env labels (test_shim abi)
  test_laws labels k = record {
    keeps_sp = λ l m. act_regs (action l) m abi.sp ok_abi.sp_result;
    keeps_fp = λ l m. act_regs (action l) m abi.fp ok_abi.fp_result;
    keeps_stack = λ l m xs small h.
        subst (λ (c : ℕ → ℕ). Stack c (m.regs abi.sp) xs) (sym (act_cells (action l) m)) h;
    loads = λ width signed m. rw (k.load_action width signed, eq_refl abi.result) refl;
    load_keeps = λ width signed m. rw (k.load_action width signed) refl;
    stores = λ width m. rw (k.store_action width) refl;
    calls = λ m. rw (k.ecall_action) refl;
  }
