-- ===== src/Target/Ops.antt =====
-- The operations of crates/target/os-target-core/src/lib.rs.
use os_emulation.Base.{ℕ, Bool, List, [], ◌∷◌, ◌++◌, Text}

pub data MemWidth : Type 0 where
  w8 w16 w32 w64 w128 : MemWidth

-- `load width signed`, `ecall may_await`, `jump target`
pub data OsOp : Type 0 where
  push_u64 push_u32 : ℕ → OsOp
  pop : OsOp
  load : MemWidth → Bool → OsOp
  store : MemWidth → OsOp
  ecall : Bool → OsOp
  jump : ℕ → OsOp
  trap : OsOp
  tail_call : Text → OsOp

-- `Backend::op` of `Vec<OsOp>`
unfoldable pub record_op : List OsOp → OsOp → List OsOp
record_op ops op = ops ++ (op ∷ [])
