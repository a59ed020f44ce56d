-- ===== src/Rewrite.antt =====
-- The in-place rewriting of executables: crates/daemon/os-rewrite-elf/src/lib.rs (Elf) and
-- crates/daemon/os-rewrite-macho/src/lib.rs (MachO), over the reads and writes of Buffer.
pub mod Buffer
pub mod BufferLaws
pub mod Elf
pub mod MachO
mod Examples
