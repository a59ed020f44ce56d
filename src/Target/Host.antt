-- ===== src/Target/Host.antt =====
-- The machine that the native backends of crates/target/os-target-native generate code for: registers,
-- a stack of 64-bit cells by address, and the guest memory behind the runtime's helpers. The moves
-- that the three instruction sets share are named here.
use os_emulation.Base.{ℕ, ◌+◌, ◌-◌, ◌%◌, ◌==◌, if◌then◌else◌, Bool, Option, none, some, Text}
use os_emulation.Base.Words.{u64_mod}
use os_emulation.Target.Ops.{MemWidth, OsOp, push_u64, push_u32, pop, load, store, ecall}

-- `-k` as a 64-bit word
abbrev pub neg : ℕ → ℕ
neg k = u64_mod - k

abbrev pub put : (ℕ → ℕ) → ℕ → ℕ → ℕ → ℕ
put f k v j = if k == j then v else f j

pub record Machine (M : Type 0) : Type 0 where
  pub regs : ℕ → ℕ
  pub cells : ℕ → ℕ
  pub mem : M

-- A call of a helper, from the state at the call to the state at its return.
abbrev pub Shim : Type 0 → Type 0
Shim M = Text → Machine M → Machine M

pub record Abi : Type 0 where
  pub sp : ℕ
  pub fp : ℕ
  pub arg0 : ℕ
  pub arg1 : ℕ
  pub result : ℕ

-- The labels of a backend, and what it pushes for `PushU32`.
pub record Labels : Type 0 where
  pub load_label : MemWidth → Bool → Text
  pub store_label : MemWidth → Text
  pub ecall_label : Text
  pub extend : ℕ → ℕ

-- How a run of code ends: past its end, by a jump to an address or a label, or in a trap.
pub data Exit (M : Type 0) : Type 0 where
  running trapped : Machine M → Exit M
  jumped : ℕ → Machine M → Exit M
  jumped_label : Text → Machine M → Exit M

-- The next instruction runs where the one before it ended past itself.
abbrev pub continue : {M : Type 0} → Exit M → (Machine M → Exit M) → Exit M
continue (running m) k = k m
continue (trapped m) k = trapped m
continue (jumped a m) k = jumped a m
continue (jumped_label l m) k = jumped_label l m

module _ {M : Type 0} where
  abbrev pub set_reg : Machine M → ℕ → ℕ → Machine M
  set_reg m r v = record m { regs = put m.regs r v }

  -- `base + disp`
  abbrev pub address : Machine M → ℕ → ℕ → ℕ
  address m base disp = (m.regs base + disp) % u64_mod

  abbrev pub set_cell : Machine M → ℕ → ℕ → Machine M
  set_cell m a v = record m { cells = put m.cells a v }

  module _ (abi : Abi) where
    -- The stack pointer moves down by 8 and the register goes to the new top.
    abbrev pub push_reg : Machine M → ℕ → Machine M
    push_reg m r = let a = address m abi.sp (neg 8) in set_cell (set_reg m abi.sp a) a (m.regs r)

    -- The top goes to the register and the stack pointer moves up by 8.
    abbrev pub pop_reg : Machine M → ℕ → Machine M
    pop_reg m r = set_reg (set_reg m r (m.cells (address m abi.sp 0))) abi.sp (address m abi.sp 8)

    -- What the lowering of an operation does, on each instruction set; `none` where it leaves the code.
    unfoldable pub exec : Labels → Shim M → OsOp → Machine M → Option (Machine M)
    exec labels shim (push_u64 v) m = some (push_reg (set_reg m abi.result v) abi.result)
    exec labels shim (push_u32 v) m =
        some (push_reg (set_reg m abi.result (labels.extend v)) abi.result)
    exec labels shim pop m = some (pop_reg m abi.result)
    exec labels shim (load width signed) m =
        some (push_reg (shim (labels.load_label width signed) (pop_reg m abi.arg0)) abi.result)
    exec labels shim (store width) m =
        some (shim (labels.store_label width) (pop_reg (pop_reg m abi.arg0) abi.arg1))
    exec labels shim (ecall may_await) m = some (shim labels.ecall_label m)
    exec labels shim _ m = none
