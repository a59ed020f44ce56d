-- ===== src/Target.antt =====
-- The code generators of crates/target: the stack operations, their lowering to machine code, and what
-- the code does.
pub mod Ops
pub mod Reference
pub mod Host
pub mod HostStack
pub mod Refines
pub mod Program
pub mod Frame
pub mod Helpers
pub mod Riscv64
pub mod Aarch64
pub mod X86
pub mod Wax
pub mod Widening
pub mod Runtime
mod Examples
