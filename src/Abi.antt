-- ===== src/Abi.antt =====
-- ABI descriptions and the redirects of their functions: crates/abi/os-abi-spec/src/model.rs and
-- convention.rs, and crates/abi/os-abi-stubs/src/lib.rs.
pub mod Model
pub mod Stubs
pub mod Extending
mod Examples
